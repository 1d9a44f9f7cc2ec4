-- ===== src/Servo/Reprograming/Clocked.antt =====
-- The loops of exxx_reprograming.cpp over a clock come back: `WaitNanoSec`, `SendData`, `ReceiveLine`, `SendCommand`.
use hsrb_drivers.Prelude.{
  ℕ, zero, suc, ◌+◌, ◌-◌, ◌≤◌, ◌<◌, ◌≡◌, refl, ◌∙◌, List, ltb, ◌==◌, length, drop, arith, ltb→lt,
  Returns, returns, then_Returns, if_Returns, weaken_Returns,
}
use hsrb_drivers.Posix.{
  ErrorCode, errc_success, interrupted, resource_unavailable, Written, wrote, write_failed, Polled,
  ready, nothing, poll_failed, Slept, slept, stopped, put, taken,
}
use hsrb_drivers.Servo.Reprograming.{
  ISystem, ExxxReprograming, Call, wait_loop, wait_nano_sec, after_sleep,
}
use hsrb_drivers.Servo.Reprograming.Transport.{
  is_success, next_round, after_write, send_loop, send_data, after_poll, receive_byte,
}

-- The clock moves between two readings and never goes back, and a sleep that is interrupted leaves less time
-- than it was given. `at_least` is a time before the next reading.
pub record IsMonotonic (sys : ISystem) : Type 0 where
  pub at_least : sys.System → ℕ
  pub now_reads : (s : sys.System) → at_least s ≤ (sys.now s).0
  pub now_moves : (s : sys.System) → (sys.now s).0 < at_least (sys.now s).1
  pub write_later : (bytes : List ℕ) (s : sys.System) → at_least s ≤ at_least (sys.write bytes s).1
  pub poll_later : (t : ℕ) (s : sys.System) → at_least s ≤ at_least (sys.poll t s).1
  pub read_later : (s : sys.System) → at_least s ≤ at_least (sys.read s).1
  pub sleep_later : (n : ℕ) (s : sys.System) → at_least s ≤ at_least (sys.sleep n s).1
  pub sleep_less : (n e left : ℕ) (s : sys.System) → (sys.sleep n s).0 ≡ stopped e left → left < n

module _ (sys : ISystem) (fuel : ℕ) (m : IsMonotonic sys) where
  abbrev Object : Type 0
  Object = ExxxReprograming sys.System

  -- The settings are the same, and it is not earlier.
  abbrev pub Later : {A : Type 0} → Object → A → Object → Type 0
  Later s a s' =
      (s'.timeout ≡ s.timeout)
      × (s'.sleep_tick ≡ s.sleep_tick)
      × (m.at_least s.system ≤ m.at_least s'.system)

  pub trans_Later :
      {A B : Type 0} (s s' s'' : Object) (a : A) (b : B)
      → Later s a s'
      → Later s' b s''
      → Later s b s''
  trans_Later s s' s'' a b p q = (q.0 ∙ p.0, q.1 ∙ p.1, omega arith)

  wait_loop-Later :
      (n nsec : ℕ) (s : Object) → nsec < n → Returns (Later s) (wait_loop sys fuel n nsec s)
  unfolding wait_loop
  wait_loop-Later zero nsec s h = absurd (omega arith)
  wait_loop-Later (suc n) nsec s h =
      slept_lem (sys.sleep nsec s.system).0 refl (λ left k. wait_loop-Later n left s' k)
    where
      s' : Object
      s' = record s { system = (sys.sleep nsec s.system).1 }

      step : Later s errc_success s'
      step = (refl, refl, m.sleep_later nsec s.system)

      slept_lem :
          (r : Slept)
          → (sys.sleep nsec s.system).0 ≡ r
          → ((left : ℕ) → left < n → Returns (Later s') (wait_loop sys fuel n left s'))
          → Returns (Later s) (after_sleep sys fuel r (wait_loop sys fuel n) s')
      slept_lem slept e ih = returns _ _ step
      slept_lem (stopped e left) q ih =
          let less : left < nsec = m.sleep_less nsec e left s.system q in
          if_Returns _ (e == interrupted) _ _ s'
            (λ _.
              weaken_Returns (Later s') (Later s)
                (λ a s'' p. trans_Later s s' s'' errc_success a step p) (ih left (omega arith)))
            (λ _. returns _ _ step)

  pub wait_nano_sec-Later :
      (nsec : ℕ) (s : Object) → nsec < fuel → Returns (Later s) (wait_nano_sec sys fuel nsec s)
  unfolding wait_nano_sec
  wait_nano_sec-Later nsec s h = wait_loop-Later fuel nsec s h

  -- The object after a reading of the clock.
  abbrev pub read_clock : Object → Object
  read_clock s = record s { system = (sys.now s.system).1 }

  pub clock_read : (s : Object) → m.at_least s.system ≤ m.at_least (sys.now s.system).1
  clock_read s = omega (arith, m.now_reads s.system, m.now_moves s.system)

  module _ (enough : ℕ) (start : ℕ) (bytes : List ℕ) where
    -- The rest of the loop of `SendData` comes back, for a clock that has moved.
    abbrev SendGoesOn : ℕ → (ℕ → ErrorCode → ℕ → Call sys fuel (ErrorCode × ℕ)) → Type 0
    SendGoesOn elapsed goes_on =
        (now : ℕ) (error : ErrorCode) (n : ℕ) (s : Object)
        → elapsed < now
        → now < m.at_least s.system
        → s.timeout ≡ enough
        → s.sleep_tick < fuel
        → Returns (Later s) (goes_on now error n s)

    next_round-Later :
        (elapsed : ℕ) (error : ErrorCode) (n : ℕ)
        (goes_on : ℕ → ErrorCode → ℕ → Call sys fuel (ErrorCode × ℕ)) (s : Object)
        → SendGoesOn elapsed goes_on
        → elapsed < m.at_least s.system
        → s.timeout ≡ enough
        → s.sleep_tick < fuel
        → Returns (Later s) (next_round sys fuel elapsed error n goes_on s)
    next_round-Later elapsed error n goes_on s h c t k =
        if_Returns _ (ltb (sys.now s.system).0 elapsed) _ _ (read_clock s)
          (λ _. returns _ _ (refl, refl, clock_read s))
          (λ _.
            weaken_Returns (Later (read_clock s)) (Later s)
              (λ a s'' p. trans_Later s (read_clock s) s'' a a (refl, refl, clock_read s) p)
              (h (sys.now s.system).0 error n (read_clock s) (omega (arith, m.now_reads s.system))
                (m.now_moves s.system) t k))

    after_write-Later :
        (elapsed : ℕ) (error : ErrorCode) (n : ℕ) (result : Written)
        (goes_on : ℕ → ErrorCode → ℕ → Call sys fuel (ErrorCode × ℕ)) (s : Object)
        → SendGoesOn elapsed goes_on
        → elapsed < m.at_least s.system
        → s.timeout ≡ enough
        → s.sleep_tick < fuel
        → Returns (Later s) (after_write sys fuel elapsed error n (length bytes) result goes_on s)
    after_write-Later elapsed error n (write_failed e) goes_on s h c t k =
        if_Returns _ (e == resource_unavailable) _ _ s
          (λ _.
            then_Returns (Later s) _ (wait_nano_sec sys fuel s.sleep_tick) _ s
              (wait_nano_sec-Later s.sleep_tick s k)
              (λ waited s' p.
                if_Returns _ (is_success waited) _ _ s'
                  (λ _.
                    weaken_Returns (Later s') (Later s)
                      (λ a s'' q. trans_Later s s' s'' waited a p q)
                      (next_round-Later elapsed waited n goes_on s' h (omega (arith, p.2)) (p.0 ∙ t)
                        (omega (arith, p.1))))
                  (λ _. returns _ _ p)))
          (λ _. returns _ _ (refl, refl, omega arith))
    after_write-Later elapsed error n (wrote result) goes_on s h c t k =
        if_Returns _ (n + result == length bytes) _ _ s (λ _. returns _ _ (refl, refl, omega arith))
          (λ _. next_round-Later elapsed error (n + result) goes_on s h c t k)

    send_loop-Later :
        (k elapsed : ℕ) (error : ErrorCode) (n : ℕ) (s : Object)
        → 0 < k
        → enough < k + (elapsed - start)
        → start ≤ elapsed
        → elapsed < m.at_least s.system
        → s.timeout ≡ enough
        → s.sleep_tick < fuel
        → Returns (Later s) (send_loop sys fuel k bytes start elapsed error n s)
    unfolding send_loop
    send_loop-Later zero elapsed error n s z f o c t k = absurd (omega arith)
    send_loop-Later (suc j) elapsed error n s z f o c t k =
        let r : Written × sys.System = sys.write (drop n bytes) s.system in
        let s' : Object = record s { system = r.1; log = put (taken r.0 (drop n bytes)) s.log } in
        let w : m.at_least s.system ≤ m.at_least r.1 = m.write_later (drop n bytes) s.system in
        if_Returns _ (ltb (elapsed - start) s.timeout) _ _ s
          (λ e.
            let b : elapsed - start < s.timeout = ltb→lt _ _ e in
            weaken_Returns (Later s') (Later s)
              (λ a s'' q. trans_Later s s' s'' a a (refl, refl, w) q)
              (after_write-Later elapsed error n r.0 (send_loop sys fuel j bytes start) s'
                (λ now error n s'' l c' t' k'.
                  send_loop-Later j now error n s'' (omega (arith, t)) (omega arith) (omega arith)
                    c' t' k')
                (omega arith) t k))
          (λ _. returns _ _ (refl, refl, omega arith))

  -- The settings for which the rounds are enough.
  abbrev pub IsTimed : Object → Type 0
  IsTimed s = (s.timeout < fuel) × (s.sleep_tick < fuel)

  pub send_data-Later :
      (bytes : List ℕ) (s : Object) → IsTimed s → Returns (Later s) (send_data sys fuel bytes s)
  unfolding send_data
  send_data-Later bytes s (h, k) =
      let start : ℕ = (sys.now s.system).0 in
      then_Returns (Later (read_clock s)) (Later s)
        (send_loop sys fuel fuel bytes start start errc_success 0) _ (read_clock s)
        (send_loop-Later s.timeout start bytes fuel start errc_success 0 (read_clock s)
          (omega arith) (omega arith) (omega arith) (m.now_moves s.system) refl k)
        (λ r s' p. returns _ _ (p.0, p.1, omega (arith, clock_read s, p.2)))

  byte_in_Later : (p : Polled) (s : Object) → Returns (Later s) (after_poll sys fuel p s)
  byte_in_Later nothing s = returns _ _ (refl, refl, omega arith)
  byte_in_Later (poll_failed e) s = returns _ _ (refl, refl, omega arith)
  byte_in_Later ready s = returns _ _ (refl, refl, m.read_later s.system)

  pub receive_byte-Later : (s : Object) → Returns (Later s) (receive_byte sys fuel s)
  receive_byte-Later s =
      let s' : Object = record s { system = (sys.poll s.timeout s.system).1 } in
      weaken_Returns (Later s') (Later s)
        (λ a s'' q. trans_Later s s' s'' a a (refl, refl, m.poll_later s.timeout s.system) q)
        (byte_in_Later (sys.poll s.timeout s.system).0 s')
