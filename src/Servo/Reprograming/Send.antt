-- ===== src/Servo/Reprograming/Send.antt =====
-- What `SendData` of exxx_reprograming.cpp leaves on the line.
use hsrb_drivers.Prelude.{
  ℕ, zero, suc, ◌+◌, ◌-◌, ◌<◌, ◌≡◌, ◌≢◌, refl, sym, ap, ◌∙◌, inl, inr, some, List, ltb, ◌==◌,
  if◌then◌else◌, length, take, take_add, take-length, drop, arith, Bool-cases, ==→eq, Ensures,
  stops, gives, then_Ensures, if_Ensures,
}
use hsrb_drivers.Posix.{
  ErrorCode, errc_success, interrupted, resource_unavailable, timed_out, Written, wrote,
  write_failed, Slept, slept, stopped, Event, put, taken, put-append,
}
use hsrb_drivers.Servo.Reprograming.{
  ISystem, ExxxReprograming, Call, wait_loop, wait_nano_sec, after_sleep,
}
use hsrb_drivers.Servo.Reprograming.Transport.{
  is_success, next_round, after_write, send_loop, send_data,
}

module _ (sys : ISystem) (fuel : ℕ) where
  abbrev Object : Type 0
  Object = ExxxReprograming sys.System

  -- A call that neither sends nor receives.
  abbrev pub Keeps : {A : Type 0} → List Event → A → Object → Type 0
  Keeps log a s = s.log ≡ log

  after_sleep-Keeps :
      (result : Slept) (again : ℕ → Call sys fuel ErrorCode) (log : List Event) (s : Object)
      → s.log ≡ log
      → ((left : ℕ) → Ensures (Keeps log) (again left s))
      → Ensures (Keeps log) (after_sleep sys fuel result again s)
  after_sleep-Keeps slept again log s l h = gives _ _ l
  after_sleep-Keeps (stopped e left) again log s l h =
      if_Ensures _ (e == interrupted) _ _ s (λ _. h left) (λ _. gives _ _ l)

  wait_loop-Keeps : (n nsec : ℕ) (s : Object) → Ensures (Keeps s.log) (wait_loop sys fuel n nsec s)
  unfolding wait_loop
  wait_loop-Keeps zero nsec s = stops
  wait_loop-Keeps (suc n) nsec s =
      let s' : Object = record s { system = (sys.sleep nsec s.system).1 } in
      after_sleep-Keeps (sys.sleep nsec s.system).0 (wait_loop sys fuel n) s.log s' refl
        (λ left. wait_loop-Keeps n left s')

  pub wait_nano_sec-Keeps :
      (nsec : ℕ) (s : Object) → Ensures (Keeps s.log) (wait_nano_sec sys fuel nsec s)
  unfolding wait_nano_sec
  wait_nano_sec-Keeps nsec s = wait_loop-Keeps fuel nsec s

  -- `n` bytes of the buffer are sent, and the code is success if those are all.
  abbrev SentSoFar : List ℕ → List Event → ErrorCode × ℕ → Object → Type 0
  SentSoFar bytes log (error, n) s =
      (s.log ≡ put (take n bytes) log) × (n ≡ length bytes → error ≡ errc_success)

  module _ (bytes : List ℕ) (log : List Event) where
    -- What the next round needs.
    abbrev GoesOn : (ℕ → ErrorCode → ℕ → Call sys fuel (ErrorCode × ℕ)) → Type 0
    GoesOn goes_on =
        (elapsed : ℕ) (error : ErrorCode) (n : ℕ) (s : Object)
        → s.log ≡ put (take n bytes) log
        → n ≢ length bytes
        → Ensures (SentSoFar bytes log) (goes_on elapsed error n s)

    next_round-SentSoFar :
        (elapsed : ℕ) (error : ErrorCode) (n : ℕ)
        (goes_on : ℕ → ErrorCode → ℕ → Call sys fuel (ErrorCode × ℕ)) (s : Object)
        → GoesOn goes_on
        → s.log ≡ put (take n bytes) log
        → n ≢ length bytes
        → Ensures (SentSoFar bytes log) (next_round sys fuel elapsed error n goes_on s)
    next_round-SentSoFar elapsed error n goes_on s h l m =
        if_Ensures _ (ltb (sys.now s.system).0 elapsed) _ _
          (record s { system = (sys.now s.system).1 }) (λ _. gives _ _ (l, λ w. absurd (m w)))
          (λ _. h _ _ _ _ l m)

    after_write-SentSoFar :
        (elapsed : ℕ) (error : ErrorCode) (n : ℕ) (result : Written)
        (goes_on : ℕ → ErrorCode → ℕ → Call sys fuel (ErrorCode × ℕ)) (s : Object)
        → GoesOn goes_on
        → s.log ≡ put (taken result (drop n bytes)) (put (take n bytes) log)
        → n ≢ length bytes
        → Ensures
            (SentSoFar bytes log)
            (after_write sys fuel elapsed error n (length bytes) result goes_on s)
    after_write-SentSoFar elapsed error n (write_failed e) goes_on s h l m =
        if_Ensures _ (e == resource_unavailable) _ _ s
          (λ _.
            then_Ensures (Keeps s.log) _ (wait_nano_sec sys fuel s.sleep_tick) _ s
              (wait_nano_sec-Keeps s.sleep_tick s)
              (λ waited s' k.
                if_Ensures _ (is_success waited) _ _ s'
                  (λ _. next_round-SentSoFar elapsed waited n goes_on s' h (k ∙ l) m)
                  (λ _. gives _ _ (k ∙ l, λ w. absurd (m w)))))
          (λ _. gives _ _ (l, λ w. absurd (m w)))
    after_write-SentSoFar elapsed error n (wrote k) goes_on s h l m =
        let l' : s.log ≡ put (take (n + k) bytes) log =
          l
          ∙ sym (put-append (take n bytes) (take k (drop n bytes)) log)
          ∙ ap (λ x. put x log) (sym (take_add n k bytes)) in
        if_Ensures _ (n + k == length bytes) _ _ s (λ _. gives _ _ (l', λ w. refl))
          (λ e. next_round-SentSoFar elapsed error (n + k) goes_on s h l' (ground arith))

    send_loop-SentSoFar :
        (k start elapsed : ℕ) (error : ErrorCode) (n : ℕ) (s : Object)
        → s.log ≡ put (take n bytes) log
        → n ≢ length bytes
        → Ensures (SentSoFar bytes log) (send_loop sys fuel k bytes start elapsed error n s)
    unfolding send_loop
    send_loop-SentSoFar zero start elapsed error n s l m = stops
    send_loop-SentSoFar (suc k) start elapsed error n s l m =
        let r : Written × sys.System = sys.write (drop n bytes) s.system in
        if_Ensures _ (ltb (elapsed - start) s.timeout) _ _ s
          (λ _.
            after_write-SentSoFar elapsed error n r.0 (send_loop sys fuel k bytes start)
              (record s { system = r.1; log = put (taken r.0 (drop n bytes)) s.log })
              (send_loop-SentSoFar k start) (ap (put (taken r.0 (drop n bytes))) l) m)
          (λ _. gives _ _ (l, λ w. absurd (m w)))

  -- All the bytes are sent and the code is success, or it is a timeout and the line has taken `n` of them at most.
  pub data Sending (bytes : List ℕ) (log : List Event) : ErrorCode → Object → Type 0 where
    sent : (s : Object) → s.log ≡ put bytes log → Sending bytes log errc_success s
    gave_up : (s : Object) (n : ℕ) → s.log ≡ put (take n bytes) log → Sending bytes log timed_out s

  -- If `SendData` comes back with bytes to send, then either it returns success and has put all of them on the line, in
  -- their order, or it returns `timed_out` and has put a front of them there.
  pub send_data-Sending :
      (bytes : List ℕ) (s : Object)
      → 0 < length bytes
      → Ensures (Sending bytes s.log) (send_data sys fuel bytes s)
  unfolding send_data
  send_data-Sending bytes s h =
      let s' : Object = record s { system = (sys.now s.system).1 } in
      let start : ℕ = (sys.now s.system).0 in
      then_Ensures (SentSoFar bytes s.log) _
        (send_loop sys fuel fuel bytes start start errc_success 0) _ s'
        (send_loop-SentSoFar bytes s.log fuel start start errc_success 0 s' refl (omega arith))
        (λ r s'' p. ended r s'' p)
    where
      ended :
          (r : ErrorCode × ℕ) (s'' : Object)
          → SentSoFar bytes s.log r s''
          → Ensures
              (Sending bytes s.log)
              (some (if r.1 == length bytes then r.0 else timed_out, s''))
      ended (error, n) s'' (l, w) = elim (Bool-cases (n == length bytes)) [
        | inl e ↦
            rw (e, w (==→eq _ _ e))
              (gives _ _ (
                sent s'' (
                  l
                  ∙ ap (λ k. put k s.log)
                      (ap (λ k. take k bytes) (==→eq _ _ e) ∙ take-length bytes))))
        | inr e ↦ rw e (gives _ _ (gave_up s'' n l))
      ]
