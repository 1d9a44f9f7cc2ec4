-- ===== src/Servo/Reprograming/Lines.antt =====
-- `ReceiveLine`, `CheckReceivedMessage` and `SendCommand` of exxx_reprograming.cpp.
use hsrb_drivers.Prelude.{
  ℕ, zero, suc, ◌+◌, ◌-◌, Bool, true, false, not, ◌&&◌, ◌||◌, Option, none, some, List, [], ◌∷◌,
  ◌++◌, ltb, leb, ◌==◌, if◌then◌else◌, length, pure, never, ◌>>=◌,
}
use hsrb_drivers.Posix.{ErrorCode, errc_success, value_too_large, illegal_byte_sequence, timed_out}
use hsrb_drivers.Servo.Reprograming.{ISystem, Call, clock, wait_nano_sec}
use hsrb_drivers.Servo.Reprograming.Transport.{is_success, timeout_of, send_data, receive_byte}

abbrev pub send_command_max_retry_count : ℕ
send_command_max_retry_count = 10

abbrev pub command_interval_time : ℕ
command_interval_time = 50000000

abbrev pub receive_line_delimiter1 : ℕ
receive_line_delimiter1 = 0x0A

abbrev pub receive_line_delimiter2 : ℕ
receive_line_delimiter2 = 0x3F

abbrev pub starts_with : List ℕ → List ℕ → Bool
starts_with [] text = true
starts_with (b ∷ word) [] = false
starts_with (b ∷ word) (c ∷ text) = b == c && starts_with word text

-- `text.find(word) != std::string::npos`
unfoldable pub includes : List ℕ → List ℕ → Bool
includes word [] = starts_with word []
includes word (c ∷ text) = starts_with word (c ∷ text) || includes word text

abbrev pub is_delimiter : ℕ → Bool
is_delimiter b = b == receive_line_delimiter1 || b == receive_line_delimiter2

-- The end of the loop of `ReceiveLine`: the code, the clock, the bytes received, and `receive_line`, which is
-- `none` where it is left alone.
abbrev pub LineEnd : Type 0
LineEnd = ErrorCode × ℕ × List ℕ × Option (List ℕ)

module _ (sys : ISystem) (fuel : ℕ) where
  abbrev pub next_byte :
      ℕ
      → ErrorCode
      → List ℕ
      → (ℕ → ErrorCode → List ℕ → Call sys fuel LineEnd)
      → Call sys fuel LineEnd
  next_byte elapsed error message goes_on = do
    now ← clock sys fuel
    if ltb now elapsed
        then pure (value_too_large, now, message, none)
        else goes_on now error message

  abbrev pub add_byte :
      ℕ
      → List ℕ
      → ErrorCode × Option ℕ
      → (ℕ → ErrorCode → List ℕ → Call sys fuel LineEnd)
      → Call sys fuel LineEnd
  add_byte elapsed message (error, some b) goes_on =
      if is_delimiter b
      then pure (errc_success, elapsed, message ++ (b ∷ []), some (message ++ (b ∷ [])))
      else next_byte elapsed error (message ++ (b ∷ [])) goes_on
  add_byte elapsed message (error, none) goes_on =
      if error == timed_out
      then next_byte elapsed error message goes_on
      else pure (error, elapsed, message, none)

  -- The loop of `ReceiveLine`.
  unfoldable pub line_loop : ℕ → ℕ → ℕ → ErrorCode → List ℕ → Call sys fuel LineEnd
  line_loop zero start elapsed error message = never
  line_loop (suc n) start elapsed error message = do
    timeout ← timeout_of sys fuel
    if ltb (elapsed - start) timeout
        then (do
          received ← receive_byte sys fuel
          add_byte elapsed message received (line_loop n start))
        else pure (error, elapsed, message, none)

  -- What has arrived counts as a line when the time is over.
  abbrev pub line_end : ℕ → ℕ → LineEnd → ErrorCode × Option (List ℕ)
  line_end timeout start (error, elapsed, message, line) =
      if leb timeout (elapsed - start) && not (length message == 0)
      then (errc_success, some message)
      else (error, line)

  unfoldable pub receive_line : Call sys fuel (ErrorCode × Option (List ℕ))
  unfolding line_loop
  receive_line = do
    start ← clock sys fuel
    ended ← line_loop fuel start start errc_success []
    timeout ← timeout_of sys fuel
    pure (line_end timeout start ended)

  abbrev pub line_or : List ℕ → Option (List ℕ) → List ℕ
  line_or old none = old
  line_or old (some line) = line

  abbrev pub checked : List ℕ → ErrorCode × Option (List ℕ) → ErrorCode
  checked check_message (error, line) =
      if is_success error
      then if includes check_message (line_or [] line) then errc_success else illegal_byte_sequence
      else error

  unfoldable pub check_received_message : List ℕ → Call sys fuel ErrorCode
  unfolding receive_line
  check_received_message check_message = do
    received ← receive_line
    pure (checked check_message received)

  -- A round of `SendCommand` after its check: the message has come, an error ends the command, or one more
  -- attempt is counted.
  abbrev pub after_check : ErrorCode → ℕ → (ℕ → Call sys fuel ErrorCode) → Call sys fuel ErrorCode
  after_check error retry_count again =
      if is_success error || not (error == timed_out || error == illegal_byte_sequence)
      then pure error
      else (if leb send_command_max_retry_count (retry_count + 1) then pure timed_out else (do
        waited ← wait_nano_sec sys fuel command_interval_time
        if is_success waited then again (retry_count + 1) else pure waited))

  abbrev pub after_command :
      ErrorCode → List ℕ → ℕ → (ℕ → Call sys fuel ErrorCode) → Call sys fuel ErrorCode
  after_command sent check_message retry_count again =
      if is_success sent
      then (do error ← check_received_message check_message; after_check error retry_count again)
      else pure sent

  unfoldable pub command_loop : ℕ → ℕ → List ℕ → ℕ → Call sys fuel ErrorCode
  command_loop zero command check_message retry_count = never
  command_loop (suc n) command check_message retry_count = do
    sent ← send_data sys fuel (command ∷ [])
    after_command sent check_message retry_count (command_loop n command check_message)

  -- `SendCommand`; its loop ends in the tenth round at the latest.
  unfoldable pub send_command : ℕ → List ℕ → Call sys fuel ErrorCode
  unfolding command_loop
  send_command command check_message =
      command_loop send_command_max_retry_count command check_message 0
