-- ===== src/Servo/Reprograming/Rounds.antt =====
-- `ReceiveLine`, `SendCommand` and `FlushXmodem` of exxx_reprograming.cpp come back.
use hsrb_drivers.Prelude.{
  ℕ, zero, suc, ◌+◌, ◌-◌, ◌≤◌, ◌<◌, ◌≡◌, refl, ◌∙◌, not, ◌||◌, Option, none, some, List, [], ◌∷◌,
  ◌++◌, ltb, leb, ltb→lt, leb→gt, ◌==◌, arith, Returns, returns, then_Returns, if_Returns,
  weaken_Returns,
}
use hsrb_drivers.Posix.{ErrorCode, errc_success, illegal_byte_sequence, timed_out}
use hsrb_drivers.Servo.Reprograming.{ISystem, ExxxReprograming, Call, wait_nano_sec}
use hsrb_drivers.Servo.Reprograming.Transport.{is_success, send_data, receive_byte}
use hsrb_drivers.Servo.Reprograming.Lines.{
  LineEnd, next_byte, add_byte, line_loop, receive_line, check_received_message, after_check,
  after_command, command_loop, send_command, is_delimiter, send_command_max_retry_count,
  command_interval_time,
}
use hsrb_drivers.Servo.Reprograming.Clocked.{
  IsMonotonic, Later, trans_Later, wait_nano_sec-Later, read_clock, clock_read, IsTimed,
  send_data-Later, receive_byte-Later,
}

module _ (sys : ISystem) (fuel : ℕ) (m : IsMonotonic sys) where
  abbrev Object : Type 0
  Object = ExxxReprograming sys.System

  abbrev pub After : {A : Type 0} → Object → A → Object → Type 0
  After s a s' = Later sys fuel m s a s'

  -- A step, and a call from the object that it leaves.
  pub then_later :
      {A B : Type 0} (s s' : Object) (a : A) {r : Option (B × Object)}
      → After s a s'
      → Returns (After s') r
      → Returns (After s) r
  then_later s s' a p =
      weaken_Returns (After s') (After s) (λ b s'' q. trans_Later sys fuel m s s' s'' a b p q)

  pub same_Later : {A : Type 0} (s : Object) (a : A) → After s a s
  same_Later s a = (refl, refl, omega arith)

  pub IsTimed-Later :
      {A : Type 0} (s s' : Object) (a : A)
      → After s a s'
      → IsTimed sys fuel m s
      → IsTimed sys fuel m s'
  IsTimed-Later s s' a p t = (omega (arith, p.0, t.0), omega (arith, p.1, t.1))

  module _ (enough : ℕ) (start : ℕ) where
    abbrev LineGoesOn : ℕ → (ℕ → ErrorCode → List ℕ → Call sys fuel LineEnd) → Type 0
    LineGoesOn elapsed goes_on =
        (now : ℕ) (error : ErrorCode) (message : List ℕ) (s : Object)
        → elapsed < now
        → now < m.at_least s.system
        → s.timeout ≡ enough
        → Returns (After s) (goes_on now error message s)

    next_byte-Later :
        (elapsed : ℕ) (error : ErrorCode) (message : List ℕ)
        (goes_on : ℕ → ErrorCode → List ℕ → Call sys fuel LineEnd) (s : Object)
        → LineGoesOn elapsed goes_on
        → elapsed < m.at_least s.system
        → s.timeout ≡ enough
        → Returns (After s) (next_byte sys fuel elapsed error message goes_on s)
    next_byte-Later elapsed error message goes_on s h c t =
        let s' : Object = read_clock sys fuel m s in
        if_Returns _ (ltb (sys.now s.system).0 elapsed) _ _ s'
          (λ _. returns _ _ (refl, refl, clock_read sys fuel m s))
          (λ _.
            then_later s s' errc_success (refl, refl, clock_read sys fuel m s)
              (h (sys.now s.system).0 error message s' (omega (arith, m.now_reads s.system))
                (m.now_moves s.system) t))

    add_byte-Later :
        (elapsed : ℕ) (message : List ℕ) (r : ErrorCode × Option ℕ)
        (goes_on : ℕ → ErrorCode → List ℕ → Call sys fuel LineEnd) (s : Object)
        → LineGoesOn elapsed goes_on
        → elapsed < m.at_least s.system
        → s.timeout ≡ enough
        → Returns (After s) (add_byte sys fuel elapsed message r goes_on s)
    add_byte-Later elapsed message (error, some b) goes_on s h c t =
        if_Returns _ (is_delimiter b) _ _ s (λ _. returns _ _ (refl, refl, omega arith))
          (λ _. next_byte-Later elapsed error (message ++ (b ∷ [])) goes_on s h c t)
    add_byte-Later elapsed message (error, none) goes_on s h c t =
        if_Returns _ (error == timed_out) _ _ s
          (λ _. next_byte-Later elapsed error message goes_on s h c t)
          (λ _. returns _ _ (refl, refl, omega arith))

    line_loop-Later :
        (k elapsed : ℕ) (error : ErrorCode) (message : List ℕ) (s : Object)
        → 0 < k
        → enough < k + (elapsed - start)
        → start ≤ elapsed
        → elapsed < m.at_least s.system
        → s.timeout ≡ enough
        → Returns (After s) (line_loop sys fuel k start elapsed error message s)
    unfolding line_loop
    line_loop-Later zero elapsed error message s z f o c t = absurd (omega arith)
    line_loop-Later (suc j) elapsed error message s z f o c t =
        if_Returns _ (ltb (elapsed - start) s.timeout) _ _ s
          (λ e.
            let b : elapsed - start < s.timeout = ltb→lt _ _ e in
            then_Returns (After s) (After s) (receive_byte sys fuel)
              (λ r. add_byte sys fuel elapsed message r (line_loop sys fuel j start)) s
              (receive_byte-Later sys fuel m s)
              (λ r s' p. then_later s s' r p (
                add_byte-Later elapsed message r (line_loop sys fuel j start) s'
                  (λ now error msg s'' l c' t'.
                    line_loop-Later j now error msg s'' (omega (arith, t)) (omega arith)
                      (omega arith) c' t')
                  (omega (arith, p.2)) (p.0 ∙ t))))
          (λ _. returns _ _ (refl, refl, omega arith))

  receive_line-Later :
      (s : Object) → IsTimed sys fuel m s → Returns (After s) (receive_line sys fuel s)
  unfolding receive_line
  receive_line-Later s t =
      let s' : Object = read_clock sys fuel m s in
      let start : ℕ = (sys.now s.system).0 in
      then_Returns (After s') (After s) (line_loop sys fuel fuel start start errc_success []) _ s'
        (line_loop-Later s.timeout start fuel start errc_success [] s' (omega arith)
          (omega (arith, t.0)) (omega arith) (m.now_moves s.system) refl)
        (λ r s'' p.
          returns _ _ (trans_Later sys fuel m s s' s'' r r (refl, refl, clock_read sys fuel m s) p))

  pub check_received_message-Later :
      (message : List ℕ) (s : Object)
      → IsTimed sys fuel m s
      → Returns (After s) (check_received_message sys fuel message s)
  unfolding check_received_message
  check_received_message-Later message s t =
      then_Returns (After s) _ (receive_line sys fuel) _ s (receive_line-Later s t)
        (λ r s' p. returns _ _ p)

  check_Later :
      (e retry_count : ℕ) (again : ℕ → Call sys fuel ErrorCode) (s : Object)
      → command_interval_time < fuel
      → ((s' : Object)
          → retry_count + 1 < send_command_max_retry_count
          → After s e s'
          → Returns (After s') (again (retry_count + 1) s'))
      → Returns (After s) (after_check sys fuel e retry_count again s)
  check_Later e retry_count again s i h =
      if_Returns _ (is_success e || not (e == timed_out || e == illegal_byte_sequence)) _ _ s
        (λ _. returns _ _ (same_Later s e))
        (λ _.
          if_Returns _ (leb send_command_max_retry_count (retry_count + 1)) _ _ s
            (λ _. returns _ _ (same_Later s timed_out))
            (λ l.
              then_Returns (After s) _ (wait_nano_sec sys fuel command_interval_time) _ s
                (wait_nano_sec-Later sys fuel m command_interval_time s i)
                (λ waited s' p.
                  if_Returns _ (is_success waited) _ _ s'
                    (λ _. then_later s s' waited p (h s' (leb→gt _ _ l) p)) (λ _. returns _ _ p))))

  command_loop-Later :
      (n command retry_count : ℕ) (message : List ℕ) (s : Object)
      → command_interval_time < fuel
      → IsTimed sys fuel m s
      → send_command_max_retry_count ≤ n + retry_count
      → retry_count < send_command_max_retry_count
      → Returns (After s) (command_loop sys fuel n command message retry_count s)
  unfolding command_loop
  command_loop-Later zero command retry_count message s i t e l = absurd (omega arith)
  command_loop-Later (suc n) command retry_count message s i t e l =
      then_Returns (After s) (After s) (send_data sys fuel (command ∷ []))
        (λ sent.
          after_command sys fuel sent message retry_count (command_loop sys fuel n command message))
        s (send_data-Later sys fuel m (command ∷ []) s t)
        (λ sent s' p.
          if_Returns _ (is_success sent) _ _ s'
            (λ _.
              let t' : IsTimed sys fuel m s' = IsTimed-Later s s' sent p t in
              then_later s s' sent p (
                then_Returns (After s') (After s') (check_received_message sys fuel message)
                  (λ error.
                    after_check sys fuel error retry_count
                      (command_loop sys fuel n command message))
                  s' (check_received_message-Later message s' t')
                  (λ error s'' q. then_later s' s'' error q (
                    check_Later error retry_count (command_loop sys fuel n command message) s'' i
                      (λ s₃ more r.
                        command_loop-Later n command (retry_count + 1) message s₃ i
                          (IsTimed-Later s'' s₃ error r (IsTimed-Later s' s'' error q t'))
                          (omega arith) more)))))
            (λ _. returns _ _ p))

  -- `SendCommand` comes back, whatever the device does.
  pub send_command-Later :
      (command : ℕ) (message : List ℕ) (s : Object)
      → command_interval_time < fuel
      → IsTimed sys fuel m s
      → Returns (After s) (send_command sys fuel command message s)
  unfolding send_command
  send_command-Later command message s i t =
      command_loop-Later send_command_max_retry_count command 0 message s i t (omega arith)
        (omega arith)
