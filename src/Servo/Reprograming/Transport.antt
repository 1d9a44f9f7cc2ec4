-- ===== src/Servo/Reprograming/Transport.antt =====
-- `SendData` and `ReceiveByte` of exxx_reprograming.cpp.
use hsrb_drivers.Prelude.{
  ℕ, zero, suc, ◌+◌, ◌-◌, Bool, Option, none, some, List, ltb, ◌==◌, if◌then◌else◌, length, drop,
  pure, never, ◌>>=◌,
}
use hsrb_drivers.Posix.{
  ErrorCode, errc_success, resource_unavailable, value_too_large, timed_out, Written, wrote,
  write_failed, Polled, ready, nothing, poll_failed,
}
use hsrb_drivers.Servo.Reprograming.{
  ReadByte, byte, read_failed, ISystem, Call, clock, write_bytes, poll_device, read_device,
  wait_nano_sec,
}

abbrev pub is_success : ErrorCode → Bool
is_success e = e == errc_success

module _ (sys : ISystem) (fuel : ℕ) where
  abbrev pub timeout_of : Call sys fuel ℕ
  timeout_of s = some (s.timeout, s)

  abbrev pub sleep_tick_of : Call sys fuel ℕ
  sleep_tick_of s = some (s.sleep_tick, s)

  -- The code and the number of bytes at the end of the loop of `SendData`; `goes_on` is its next round, at a
  -- later clock.
  abbrev pub next_round :
      ℕ
      → ErrorCode
      → ℕ
      → (ℕ → ErrorCode → ℕ → Call sys fuel (ErrorCode × ℕ))
      → Call sys fuel (ErrorCode × ℕ)
  next_round elapsed error num_done goes_on = do
    now ← clock sys fuel
    if ltb now elapsed then pure (value_too_large, num_done) else goes_on now error num_done

  abbrev pub after_write :
      ℕ
      → ErrorCode
      → ℕ
      → ℕ
      → Written
      → (ℕ → ErrorCode → ℕ → Call sys fuel (ErrorCode × ℕ))
      → Call sys fuel (ErrorCode × ℕ)
  after_write elapsed error num_done data_bytes (write_failed e) goes_on =
      if e == resource_unavailable
      then (do
        sleep_tick ← sleep_tick_of
        waited ← wait_nano_sec sys fuel sleep_tick
        if is_success waited
            then next_round elapsed waited num_done goes_on
            else pure (waited, num_done))
      else pure (e, num_done)
  after_write elapsed error num_done data_bytes (wrote result) goes_on =
      if num_done + result == data_bytes
      then pure (errc_success, num_done + result)
      else next_round elapsed error (num_done + result) goes_on

  -- The loop of `SendData`.
  unfoldable pub send_loop : ℕ → List ℕ → ℕ → ℕ → ErrorCode → ℕ → Call sys fuel (ErrorCode × ℕ)
  send_loop zero bytes start elapsed error num_done = never
  send_loop (suc n) bytes start elapsed error num_done = do
    timeout ← timeout_of
    if ltb (elapsed - start) timeout
        then (do
          result ← write_bytes sys fuel (drop num_done bytes)
          after_write elapsed error num_done (length bytes) result (send_loop n bytes start))
        else pure (error, num_done)

  unfoldable pub send_data : List ℕ → Call sys fuel ErrorCode
  unfolding send_loop
  send_data bytes = do
    start ← clock sys fuel
    (error, num_done) ← send_loop fuel bytes start start errc_success 0
    pure (if num_done == length bytes then error else timed_out)

  -- The byte is `none` where `data_out` is left alone.
  abbrev pub byte_of : ReadByte → ErrorCode × Option ℕ
  byte_of (byte b) = (errc_success, some b)
  byte_of (read_failed e) = (e, none)

  abbrev pub after_poll : Polled → Call sys fuel (ErrorCode × Option ℕ)
  after_poll nothing = pure (timed_out, none)
  after_poll (poll_failed e) = pure (e, none)
  after_poll ready = do r ← read_device sys fuel; pure (byte_of r)

  abbrev pub receive_byte : Call sys fuel (ErrorCode × Option ℕ)
  receive_byte = do polled ← poll_device sys fuel; after_poll polled
