-- ===== src/Ecu/Serial/Sending.antt =====
-- `Send` of serial_network.cpp comes back, and what it has put on the line then.
use hsrb_drivers.Prelude.{
  ℕ, zero, suc, ◌+◌, ◌-◌, ◌≤◌, ◌<◌, ◌≡◌, ◌≢◌, refl, sym, ap, ◌∙◌, List, ltb, ltb→lt, ltb→le, ◌==◌,
  ==→eq, length, take, drop, take_add, take-length, arith, Returns, returns, then_Returns,
  if_Returns, weaken_Returns,
}
use hsrb_drivers.Posix.{
  ErrorCode, errc_success, interrupted, resource_unavailable, invalid_argument, Written, wrote,
  write_failed, Slept, slept, stopped, Event, put, taken, put-append,
}
use hsrb_drivers.Ecu.Serial.{
  ISystemInterface, SerialNetwork, Call, buffer_size, after_sleep, wait_loop, next_round,
  after_wait, after_write, send_loop, send,
}

-- The clock moves between two readings and never goes back, a sleep that is interrupted leaves less time than it
-- was given, and a call that fails sets `errno`, which is not 0. `at_least` is a time before the next reading.
pub record IsMonotonic (sys : ISystemInterface) : Type 0 where
  pub at_least : sys.System → ℕ
  pub now_reads : (s : sys.System) → at_least s ≤ (sys.now s).0
  pub now_moves : (s : sys.System) → (sys.now s).0 < at_least (sys.now s).1
  pub write_later :
      (fd : ℕ) (b : List ℕ) (s : sys.System) → at_least s ≤ at_least (sys.write fd b s).1
  pub write_errno : (fd : ℕ) (b : List ℕ) (s : sys.System) → (sys.write fd b s).0 ≢ write_failed 0
  pub sleep_later : (n : ℕ) (s : sys.System) → at_least s ≤ at_least (sys.sleep n s).1
  pub sleep_less :
      (n e left : ℕ) (s : sys.System) → (sys.sleep n s).0 ≡ stopped e left → (left < n) × e ≢ 0

-- What `Send` does: everything is on the line, or a front of it and there is an error, or the data are too long and
-- nothing is.
pub data Sent {System : Type 0} (data_bytes : List ℕ) (s : SerialNetwork System)
    : ErrorCode → SerialNetwork System → Type 0 where
  sent :
      (s' : SerialNetwork System)
      → length data_bytes ≤ buffer_size
      → s'.log ≡ put data_bytes s.log
      → Sent data_bytes s errc_success s'
  failed :
      (e n : ℕ) (s' : SerialNetwork System)
      → length data_bytes ≤ buffer_size
      → e ≢ errc_success
      → s'.log ≡ put (take n data_bytes) s.log
      → Sent data_bytes s e s'
  too_long : buffer_size < length data_bytes → Sent data_bytes s invalid_argument s

module _ (sys : ISystemInterface) (fuel : ℕ) (m : IsMonotonic sys) where
  abbrev Object : Type 0
  Object = SerialNetwork sys.System

  -- The clock has not gone back, and the settings and the line are the same.
  abbrev Waits : Object → ErrorCode → Object → Type 0
  Waits s e s' =
      (s'.timeout_ns ≡ s.timeout_ns)
      × (s'.sleep_tick ≡ s.sleep_tick)
      × (s'.log ≡ s.log)
      × (m.at_least s.system ≤ m.at_least s'.system)

  after_sleep-Waits :
      (n nsec : ℕ) (s : Object) (r : Slept)
      → nsec < suc n
      → (sys.sleep nsec s.system).0 ≡ r
      → ((left : ℕ) (s' : Object) → left < n → Returns (Waits s') (wait_loop sys fuel n left s'))
      → Returns (Waits s) (
          after_sleep sys fuel r
            (wait_loop sys fuel n)
            (record s { system = (sys.sleep nsec s.system).1 }))
  after_sleep-Waits n nsec s slept h e ih =
      returns _ _ (refl, refl, refl, m.sleep_later nsec s.system)
  after_sleep-Waits n nsec s (stopped e left) h q ih =
      let s' : Object = record s { system = (sys.sleep nsec s.system).1 } in
      let w : m.at_least s.system ≤ m.at_least s'.system = m.sleep_later nsec s.system in
      let less : left < nsec = (m.sleep_less nsec e left s.system q).0 in
      if_Returns _ (e == interrupted) _ _ s'
        (λ _.
          weaken_Returns (Waits s') (Waits s) (λ a s'' p. (p.0, p.1, p.2, omega (arith, p.3)))
            (ih left s' (omega arith)))
        (λ _. returns _ _ (refl, refl, refl, w))

  wait_loop-Waits :
      (n nsec : ℕ) (s : Object) → nsec < n → Returns (Waits s) (wait_loop sys fuel n nsec s)
  unfolding wait_loop
  wait_loop-Waits zero nsec s h = absurd (omega arith)
  wait_loop-Waits (suc n) nsec s h =
      after_sleep-Waits n nsec s (sys.sleep nsec s.system).0 h refl
        (λ left s' l. wait_loop-Waits n left s' l)

  module _ (data_bytes : List ℕ) (start enough : ℕ) (log : List Event) where
    -- The outcome of the loop of `Send`.
    abbrev Outcome : ErrorCode → Object → Type 0
    Outcome e s =
        (k : ℕ) × (s.log ≡ put (take k data_bytes) log)
        × (e ≡ errc_success → take k data_bytes ≡ data_bytes)

    -- The state between the rounds: `n` bytes are on the line.
    abbrev Between : ℕ → Object → Type 0
    Between n s =
        (s.timeout_ns ≡ enough) × (s.sleep_tick < fuel) × (s.log ≡ put (take n data_bytes) log)

    abbrev GoesOn : ℕ → (ℕ → ℕ → Call sys fuel ErrorCode) → Type 0
    GoesOn elapsed goes_on =
        (now n : ℕ) (s : Object)
        → elapsed < now
        → now < m.at_least s.system
        → Between n s
        → Returns Outcome (goes_on now n s)

    next_round-Outcome :
        (elapsed n : ℕ) (goes_on : ℕ → ℕ → Call sys fuel ErrorCode) (s : Object)
        → GoesOn elapsed goes_on
        → elapsed < m.at_least s.system
        → Between n s
        → Returns Outcome (next_round sys fuel goes_on n s)
    next_round-Outcome elapsed n goes_on s h c b =
        h (sys.now s.system).0 n (record s { system = (sys.now s.system).1 })
          (omega (arith, m.now_reads s.system)) (m.now_moves s.system) b

    after_write-Outcome :
        (elapsed n : ℕ) (result : Written) (goes_on : ℕ → ℕ → Call sys fuel ErrorCode) (s : Object)
        → GoesOn elapsed goes_on
        → elapsed < m.at_least s.system
        → result ≢ write_failed 0
        → s.timeout_ns ≡ enough
        → s.sleep_tick < fuel
        → s.log ≡ put (taken result (drop n data_bytes)) (put (take n data_bytes) log)
        → Returns Outcome (after_write sys fuel goes_on (length data_bytes) n result s)
    after_write-Outcome elapsed n (wrote k) goes_on s h c f t z l =
        let l' : s.log ≡ put (take (n + k) data_bytes) log =
          l
          ∙ sym (put-append (take n data_bytes) (take k (drop n data_bytes)) log)
          ∙ ap (λ x. put x log) (sym (take_add n k data_bytes)) in
        if_Returns _ (n + k == length data_bytes) _ _ s
          (λ e.
            returns _ _
              (n + k, l', λ _. ap (λ j. take j data_bytes) (==→eq _ _ e) ∙ take-length data_bytes))
          (λ _. next_round-Outcome elapsed (n + k) goes_on s h c (t, z, l'))
    after_write-Outcome elapsed n (write_failed e) goes_on s h c f t z l =
        if_Returns _ (e == resource_unavailable) _ _ s
          (λ _.
            then_Returns (Waits s) Outcome (wait_loop sys fuel fuel s.sleep_tick)
              (after_wait sys fuel goes_on n) s (wait_loop-Waits fuel s.sleep_tick s z)
              (λ waited s' p.
                if_Returns _ (waited == errc_success) _ _ s'
                  (λ _.
                    next_round-Outcome elapsed n goes_on s' h (omega (arith, p.3))
                      (p.0 ∙ t, omega (arith, p.1), p.2 ∙ l))
                  (λ w. returns _ _ (n, p.2 ∙ l, λ y. absurd (ground (arith, w, y))))))
          (λ _. returns _ _ (n, l, λ y. absurd (f (ap write_failed y))))

    send_loop-Outcome :
        (k elapsed n : ℕ) (s : Object)
        → 0 < k
        → enough < k + (elapsed - start)
        → start ≤ elapsed
        → elapsed < m.at_least s.system
        → Between n s
        → Returns Outcome (send_loop sys fuel k data_bytes start elapsed n s)
    unfolding send_loop
    send_loop-Outcome zero elapsed n s z f o c b = absurd (omega arith)
    send_loop-Outcome (suc j) elapsed n s z f o c (t, k, l) =
        let rest : List ℕ = drop n data_bytes in
        let r : Written × sys.System = sys.write s.fd rest s.system in
        let s' : Object = record s { system = r.1; log = put (taken r.0 rest) s.log } in
        let w : m.at_least s.system ≤ m.at_least r.1 = m.write_later s.fd rest s.system in
        if_Returns _ (ltb (elapsed - start) s.timeout_ns) _ _ s
          (λ e.
            let b : elapsed - start < s.timeout_ns = ltb→lt _ _ e in
            after_write-Outcome elapsed n r.0 (send_loop sys fuel j data_bytes start) s'
              (λ now i s'' a c' b'.
                send_loop-Outcome j now i s'' (omega (arith, t)) (omega arith) (omega arith) c' b')
              (omega arith) (m.write_errno s.fd rest s.system) t k (ap (put (taken r.0 rest)) l))
          (λ _. returns _ _ (n, l, λ y. absurd (omega (arith, y))))

    Outcome-Sent :
        (s : Object) (e : ErrorCode) (s' : Object)
        → length data_bytes ≤ buffer_size
        → log ≡ s.log
        → Outcome e s'
        → Sent data_bytes s e s'
    Outcome-Sent s zero s' h l (k, q, all) =
        sent s' h (q ∙ ap (put (take k data_bytes)) l ∙ ap (λ d. put d s.log) (all refl))
    Outcome-Sent s (suc e) s' h l (k, q, all) =
        failed (suc e) k s' h (λ y. omega (arith, y)) (q ∙ ap (put (take k data_bytes)) l)

  -- For rounds that are more than the nanoseconds of the time-out and of a wait, `Send` comes back: data that do not
  -- fit its buffer are refused and nothing else happens; a success has put all of the data on the line, in their
  -- order; and another error has put a front of them there.
  pub send-Sent :
      (data_bytes : List ℕ) (s : Object)
      → s.timeout_ns < fuel
      → s.sleep_tick < fuel
      → Returns (Sent data_bytes s) (send sys fuel data_bytes s)
  unfolding send
  send-Sent data_bytes s h k =
      if_Returns _ (ltb buffer_size (length data_bytes)) _ _ s
        (λ e. returns _ _ (too_long (ltb→lt _ _ e)))
        (λ e.
          let start : ℕ = (sys.now s.system).0 in
          weaken_Returns (Outcome data_bytes start s.timeout_ns s.log) (Sent data_bytes s)
            (λ a s' o.
              Outcome-Sent data_bytes start s.timeout_ns s.log s a s' (ltb→le _ _ e) refl o)
            (send_loop-Outcome data_bytes start s.timeout_ns s.log fuel start 0
              (record s { system = (sys.now s.system).1 }) (omega arith) (omega arith) (omega arith)
              (m.now_moves s.system) (refl, k, refl)))
