-- ===== src/Servo/Reprograming/Termination.antt =====
-- `FlushXmodem` of exxx_reprograming.cpp comes back, whatever the boot loader does.
use hsrb_drivers.Prelude.{
  ℕ, zero, suc, ◌+◌, ◌-◌, ◌*◌, ◌%◌, ◌^◌, ◌≤◌, ◌<◌, ◌≡◌, ◌≢◌, true, ◌||◌, Option, none, some, List,
  ltb, leb, leb→gt, ◌==◌, length, arith, Returns, returns, then_Returns, if_Returns,
  Returns-ne-none,
}
use hsrb_drivers.Posix.{ErrorCode, timed_out}
use hsrb_drivers.Servo.Reprograming.{ISystem, ExxxReprograming, Call, wait_nano_sec}
use hsrb_drivers.Servo.Reprograming.Transport.{is_success, send_data, receive_byte}
use hsrb_drivers.Servo.Reprograming.Lines.{send_command, command_interval_time}
use hsrb_drivers.Servo.Reprograming.Xmodem.{
  Round, xmodem_ack, xmodem_nak, xmodem_can, xmodem_eot, flush_finish_message, block_of, is_nak,
  on_request, request_loop, first_sent, counted, on_ack, on_nak, on_byte, round_end, on_received,
  block_loop, after_request, flush_xmodem, flush_xmodem_max_retry_count, flush_interval_time,
  xmodem_data_size,
}
use hsrb_drivers.Servo.Reprograming.Clocked.{
  IsMonotonic, wait_nano_sec-Later, IsTimed, send_data-Later, receive_byte-Later,
}
use hsrb_drivers.Servo.Reprograming.Rounds.{
  After, then_later, same_Later, IsTimed-Later, send_command-Later,
}

module _ (sys : ISystem) (fuel : ℕ) (m : IsMonotonic sys) (flush_data : List ℕ)
    (small : length flush_data + xmodem_data_size < 2 ^ 32)
    (interval : command_interval_time < fuel) where
  abbrev Object : Type 0
  Object = ExxxReprograming sys.System

  abbrev Later : {A : Type 0} → Object → A → Object → Type 0
  Later s a s' = After sys fuel m s a s'

  -- The rounds that are left, at most.
  abbrev rounds : ℕ → ℕ → ℕ
  rounds send_pos retry_count =
      flush_xmodem_max_retry_count * (length flush_data - send_pos)
      + (flush_xmodem_max_retry_count - retry_count)

  -- A round that does not end the loop takes from the rounds that are left.
  abbrev Falls : ℕ → Object → Round → Object → Type 0
  Falls bound s r s' =
      Later s r s'
      × (r.is_flush_xmodem ≡ true
          → r.retry_count < flush_xmodem_max_retry_count
          → (r.send_pos < length flush_data) × (rounds r.send_pos r.retry_count < bound))

  on_ack-Falls :
      (send_pos block_number retry_count : ℕ) (s : Object)
      → 0 < length flush_data
      → IsTimed sys fuel m s
      → send_pos < length flush_data
      → Returns
          (Falls (rounds send_pos retry_count) s)
          (on_ack sys fuel flush_data ((send_pos + xmodem_data_size) % 2 ^ 32) block_number s)
  on_ack-Falls send_pos block_number retry_count s d t p =
      if_Returns _ (length flush_data == 0) _ _ s (λ z. absurd (ground arith))
        (λ _.
          if_Returns _ (leb (length flush_data) ((send_pos + xmodem_data_size) % 2 ^ 32)) _ _ s
            (λ _.
              then_Returns (Later s) _ (send_command sys fuel xmodem_eot flush_finish_message) _ s
                (send_command-Later sys fuel m xmodem_eot flush_finish_message s interval t)
                (λ e s' q. returns _ _ (q, λ f. absurd (cc))))
            (λ l.
              let more : (send_pos + xmodem_data_size) % 2 ^ 32 < length flush_data =
                leb→gt _ _ l in
              then_Returns (Later s) _
                (send_data sys fuel
                  (block_of flush_data ((send_pos + xmodem_data_size) % 2 ^ 32) block_number))
                _ s (send_data-Later sys fuel m _ s t)
                (λ e s' q. returns _ _ (q, λ _ _. (more, omega arith)))))

  on_nak-Falls :
      (error retry_count send_pos block_number : ℕ) (s : Object)
      → IsTimed sys fuel m s
      → send_pos < length flush_data
      → Returns
          (Falls (rounds send_pos retry_count) s)
          (on_nak sys fuel flush_data error (retry_count + 1) send_pos block_number s)
  on_nak-Falls error retry_count send_pos block_number s t p =
      if_Returns _ (ltb (retry_count + 1) flush_xmodem_max_retry_count) _ _ s
        (λ _.
          then_Returns (Later s) _ (send_data sys fuel (block_of flush_data send_pos block_number))
            _ s (send_data-Later sys fuel m _ s t)
            (λ e s' q. returns _ _ (q, λ _ l. (p, omega arith))))
        (λ _. returns _ _ (same_Later sys fuel m s error, λ _ l. (p, omega arith)))

  on_byte-Falls :
      (error b retry_count send_pos block_number : ℕ) (s : Object)
      → 0 < length flush_data
      → IsTimed sys fuel m s
      → send_pos < length flush_data
      → retry_count < flush_xmodem_max_retry_count
      → Returns
          (Falls (rounds send_pos retry_count) s)
          (on_byte sys fuel flush_data error b retry_count send_pos block_number s)
  on_byte-Falls error b retry_count send_pos block_number s d t p l =
      if_Returns _ (b == xmodem_ack) _ _ s
        (λ _. on_ack-Falls send_pos ((block_number + 1) % 256) retry_count s d t p)
        (λ _.
          if_Returns _ (b == xmodem_nak) _ _ s
            (λ _. on_nak-Falls error retry_count send_pos block_number s t p)
            (λ _.
              if_Returns _ (b == xmodem_can) _ _ s
                (λ _. returns _ _ (same_Later sys fuel m s error, λ f _. absurd (cc)))
                (λ _. returns _ _ (same_Later sys fuel m s error, λ _ k. (p, omega arith)))))

  -- The loop comes back from an object that follows, with fewer rounds left than `bound`.
  abbrev Again : ℕ → (ℕ → ℕ → ℕ → Call sys fuel ErrorCode) → Type 0
  Again bound again =
      (retry_count send_pos block_number : ℕ) (s : Object)
      → IsTimed sys fuel m s
      → send_pos < length flush_data
      → retry_count < flush_xmodem_max_retry_count
      → rounds send_pos retry_count < bound
      → Returns (Later s) (again retry_count send_pos block_number s)

  round_end-Later :
      (bound : ℕ) (r : Round) (again : ℕ → ℕ → ℕ → Call sys fuel ErrorCode) (before s : Object)
      → IsTimed sys fuel m s
      → Again bound again
      → Falls bound before r s
      → Returns (Later s) (round_end sys fuel flush_data r again s)
  round_end-Later bound r again before s t h q =
      if_Returns _ (leb flush_xmodem_max_retry_count r.retry_count) _ _ s
        (λ _. returns _ _ (same_Later sys fuel m s timed_out))
        (λ l.
          if_Returns _ r.is_flush_xmodem _ _ s
            (λ f.
              let fewer : (r.send_pos < length flush_data)
                  × (rounds r.send_pos r.retry_count < bound) =
                q.1 f (leb→gt _ _ l) in
              then_Returns (Later s) _ (wait_nano_sec sys fuel flush_interval_time) _ s
                (wait_nano_sec-Later sys fuel m flush_interval_time s (omega arith))
                (λ waited s' p.
                  if_Returns _ (is_success waited) _ _ s'
                    (λ _. then_later sys fuel m s s' waited p (
                      h r.retry_count r.send_pos r.block_number s'
                        (IsTimed-Later sys fuel m s s' waited p t) fewer.0 (leb→gt _ _ l) fewer.1))
                    (λ _. returns _ _ p)))
            (λ _. returns _ _ (same_Later sys fuel m s r.error)))

  on_received-Later :
      (retry_count send_pos block_number : ℕ) (r : ErrorCode × Option ℕ)
      (again : ℕ → ℕ → ℕ → Call sys fuel ErrorCode) (s : Object)
      → 0 < length flush_data
      → IsTimed sys fuel m s
      → send_pos < length flush_data
      → retry_count < flush_xmodem_max_retry_count
      → Again (rounds send_pos retry_count) again
      → Returns
          (Later s)
          (on_received sys fuel flush_data retry_count send_pos block_number again r s)
  on_received-Later retry_count send_pos block_number (error, some b) again s d t p l h =
      then_Returns (Falls (rounds send_pos retry_count) s) (Later s)
        (on_byte sys fuel flush_data error b retry_count send_pos block_number)
        (λ r. round_end sys fuel flush_data r again) s
        (on_byte-Falls error b retry_count send_pos block_number s d t p l)
        (λ r s' q. then_later sys fuel m s s' r q.0 (
          round_end-Later (rounds send_pos retry_count) r again s s'
            (IsTimed-Later sys fuel m s s' r q.0 t) h q))
  on_received-Later retry_count send_pos block_number (error, none) again s d t p l h =
      if_Returns _ (error == timed_out) _ _ s
        (λ _.
          round_end-Later (rounds send_pos retry_count)
            (counted error (retry_count + 1) send_pos block_number) again s s t h
            (same_Later sys fuel m s error, λ _ k. (p, omega arith)))
        (λ _. returns _ _ (same_Later sys fuel m s error))

  block_loop-Later :
      (n retry_count send_pos block_number : ℕ) (s : Object)
      → 0 < length flush_data
      → IsTimed sys fuel m s
      → send_pos < length flush_data
      → retry_count < flush_xmodem_max_retry_count
      → rounds send_pos retry_count < n
      → Returns (Later s) (block_loop sys fuel flush_data n retry_count send_pos block_number s)
  unfolding block_loop
  block_loop-Later zero retry_count send_pos block_number s d t p l f = absurd (omega arith)
  block_loop-Later (suc n) retry_count send_pos block_number s d t p l f =
      then_Returns (Later s) (Later s) (receive_byte sys fuel)
        (on_received sys fuel flush_data retry_count send_pos block_number
          (block_loop sys fuel flush_data n))
        s (receive_byte-Later sys fuel m s)
        (λ r s' q. then_later sys fuel m s s' r q (
          on_received-Later retry_count send_pos block_number r (block_loop sys fuel flush_data n)
            s' d (IsTimed-Later sys fuel m s s' r q t) p l
            (λ c o k s'' t' p' l' f'. block_loop-Later n c o k s'' d t' p' l' (omega arith))))

  request_loop-Later :
      (n retry_count : ℕ) (s : Object)
      → flush_xmodem_max_retry_count ≤ n + retry_count
      → retry_count < flush_xmodem_max_retry_count
      → Returns (Later s) (request_loop sys fuel flush_data n retry_count s)
  unfolding request_loop
  request_loop-Later zero retry_count s e l = absurd (omega arith)
  request_loop-Later (suc n) retry_count s e l =
      then_Returns (Later s) (Later s) (receive_byte sys fuel)
        (on_request sys fuel flush_data retry_count (request_loop sys fuel flush_data n)) s
        (receive_byte-Later sys fuel m s)
        (λ r s' q.
          if_Returns _ (is_nak r.0 r.1) _ _ s' (λ _. returns _ _ q)
            (λ _.
              if_Returns _ (is_success r.0 || r.0 == timed_out) _ _ s'
                (λ _.
                  if_Returns _ (leb flush_xmodem_max_retry_count (retry_count + 1)) _ _ s'
                    (λ _. returns _ _ q)
                    (λ k.
                      then_later sys fuel m s s' r q
                        (request_loop-Later n (retry_count + 1) s' (omega arith) (leb→gt _ _ k))))
                (λ _. returns _ _ q)))

  first_sent-Later :
      (e : ErrorCode) (s : Object)
      → 0 < length flush_data
      → IsTimed sys fuel m s
      → rounds 0 0 < fuel
      → Returns (Later s) (first_sent sys fuel flush_data e s)
  first_sent-Later e s d t f =
      if_Returns _ (is_success e) _ _ s
        (λ _.
          then_Returns (Later s) _ (wait_nano_sec sys fuel flush_interval_time) _ s
            (wait_nano_sec-Later sys fuel m flush_interval_time s (omega arith))
            (λ waited s' p.
              if_Returns _ (is_success waited) _ _ s'
                (λ _. then_later sys fuel m s s' waited p (
                  block_loop-Later fuel 0 0 1 s' d (IsTimed-Later sys fuel m s s' waited p t) d
                    (omega arith) f))
                (λ _. returns _ _ p)))
        (λ _. returns _ _ (same_Later sys fuel m s e))

  flush_xmodem-Later :
      (s : Object)
      → 0 < length flush_data
      → IsTimed sys fuel m s
      → rounds 0 0 < fuel
      → Returns (Later s) (flush_xmodem sys fuel flush_data s)
  unfolding flush_xmodem
  flush_xmodem-Later s d t f =
      then_Returns (Later s) (Later s)
        (request_loop sys fuel flush_data flush_xmodem_max_retry_count 0)
        (after_request sys fuel flush_data) s
        (request_loop-Later flush_xmodem_max_retry_count 0 s (omega arith) (omega arith))
        (λ e s' q.
          let t' : IsTimed sys fuel m s' = IsTimed-Later sys fuel m s s' e q t in
          if_Returns _ (is_success e) _ _ s'
            (λ _. then_later sys fuel m s s' e q (
              then_Returns (Later s') (Later s') (send_data sys fuel (block_of flush_data 0 1))
                (first_sent sys fuel flush_data) s'
                (send_data-Later sys fuel m (block_of flush_data 0 1) s' t')
                (λ e' s'' p.
                  then_later sys fuel m s' s'' e' p
                    (first_sent-Later e' s'' d (IsTimed-Later sys fuel m s' s'' e' p t') f))))
            (λ _. returns _ _ q))

-- Whatever the boot loader does, `FlushXmodem` comes back, for a firmware that is not empty and below 4 GiB, if the
-- clock moves at each reading and an interrupted sleep leaves less time than it had. More rounds are enough than
-- there are nanoseconds in the timeout, in the sleep tick and in the pause between commands, and 100 for each byte
-- of the firmware and 100 more.
pub flush_xmodem-ne-none :
    (sys : ISystem) (fuel : ℕ) (flush_data : List ℕ) (s : ExxxReprograming sys.System)
    → IsMonotonic sys
    → 0 < length flush_data
    → length flush_data + xmodem_data_size < 2 ^ 32
    → command_interval_time < fuel
    → s.timeout < fuel
    → s.sleep_tick < fuel
    → flush_xmodem_max_retry_count * length flush_data + flush_xmodem_max_retry_count < fuel
    → flush_xmodem sys fuel flush_data s ≢ none
flush_xmodem-ne-none sys fuel flush_data s m d small i t k f =
    Returns-ne-none (After sys fuel m s)
      (flush_xmodem-Later sys fuel m flush_data small i s d (t, k) (omega arith))
