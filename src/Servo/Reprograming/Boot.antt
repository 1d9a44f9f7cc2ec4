-- ===== src/Servo/Reprograming/Boot.antt =====
-- The public methods of `ExxxReprograming` in exxx_reprograming.cpp: `WaitBoot`, `Erase`, `Flush` and `Run`.
use hsrb_drivers.Prelude.{
  ℕ, zero, suc, ◌+◌, ◌-◌, ◌/◌, ◌%◌, Bool, true, false, not, ◌&&◌, ◌||◌, Option, List, [], ◌∷◌, ◌++◌,
  ltb, leb, ◌==◌, if◌then◌else◌, codes, pure, never, ◌>>=◌,
}
use hsrb_drivers.Posix.{
  ErrorCode, errc_success, no_message, value_too_large, illegal_byte_sequence, not_supported,
  timed_out, heard,
}
use hsrb_drivers.Servo.Reprograming.{ISystem, Call, clock, wait_nano_sec}
use hsrb_drivers.Servo.Reprograming.Transport.{is_success, send_data, receive_byte}
use hsrb_drivers.Servo.Reprograming.Lines.{
  command_interval_time, includes, receive_line, line_or, check_received_message, send_command,
}
use hsrb_drivers.Servo.Reprograming.Xmodem.{flush_xmodem}

abbrev pub erase_command : ℕ
erase_command = 0x65

abbrev pub flush_command : ℕ
flush_command = 0x77

abbrev pub run_command : ℕ
run_command = 0x67

abbrev pub execute_command : ℕ
execute_command = 0x79

abbrev pub boot_message_text : List ℕ
boot_message_text = codes "Bootloader"

abbrev pub erase_check_message : List ℕ
erase_check_message = codes "ERASE ALL FLASH"

abbrev pub erase_finish_message : List ℕ
erase_finish_message = codes "COMPLETED"

abbrev pub flush_check_message : List ℕ
flush_check_message = codes "START UPLOAD"

abbrev pub run_check_message : List ℕ
run_check_message = codes "GO"

abbrev pub boot_start_up_wait_time : ℕ
boot_start_up_wait_time = 3000000000

abbrev pub repro_interval_time : ℕ
repro_interval_time = 1000000000

abbrev pub erase_wait_time : ℕ
erase_wait_time = 1000000000

-- "No_" and the axis, which is a character.
abbrev pub axis_number : ℕ → List ℕ
axis_number id = codes "No_" ++ (id ∷ [])

-- "Ver." and the digit of the version.
abbrev pub boot_version : ℕ → List ℕ
boot_version version = codes "Ver." ++ ((version + 48) % 256 ∷ [])

-- No answer to a command is reported as `no_message`.
abbrev pub no_answer : ErrorCode → ErrorCode
no_answer error = if error == timed_out then no_message else error

-- `receive_message` and `boot_message` of `WaitBoot`.
pub record Messages : Type 0 where
  pub receive_message : List ℕ
  pub boot_message : List ℕ

-- `start` and `output_count` of `WaitBoot`, which time the dots that it prints.
pub record Dots : Type 0 where
  pub start : ℕ
  pub output_count : ℕ

abbrev pub printed : ℕ → ℕ → Dots → Dots
printed boot_timeout elapsed dots =
    if leb repro_interval_time (elapsed - dots.start)
      && ltb dots.output_count (boot_timeout / repro_interval_time)
    then record { start = elapsed; output_count = dots.output_count + 1 }
    else dots

module _ (sys : ISystem) (fuel : ℕ) where
  abbrev pub after_drained :
      ErrorCode × Option ℕ → Call sys fuel ErrorCode → Call sys fuel ErrorCode
  after_drained (error, received) again = if is_success error then again else pure error

  -- Bytes are thrown away until there are none.
  unfoldable pub drain : ℕ → Call sys fuel ErrorCode
  drain zero = never
  drain (suc n) = do received ← receive_byte sys fuel; after_drained received (drain n)

  -- What `WaitBoot` makes of a line; the result is the code, whether the message of the boot loader is complete,
  -- and the strings.
  abbrev pub Heard : Type 0
  Heard = ErrorCode × Bool × Messages

  abbrev pub on_line :
      ℕ
      → ℕ
      → Messages
      → (Messages → Call sys fuel Heard)
      → ErrorCode × Option (List ℕ)
      → Call sys fuel Heard
  on_line version id m again (error, line) =
      let receive_message = line_or sys fuel m.receive_message line in
      let m' : Messages = record {
        receive_message = receive_message;
        boot_message = m.boot_message ++ receive_message;
      } in
      if is_success error
      then (if includes boot_message_text m'.boot_message
            && includes (axis_number id) m'.boot_message
          then (if includes (boot_version version) m'.boot_message
              then (do
                drained ← drain fuel
                pure (if drained == timed_out then errc_success else drained, true, m'))
              else pure (not_supported, true, m'))
          else again m')
      else pure (error, false, record m { receive_message = receive_message })

  unfoldable pub boot_lines : ℕ → ℕ → ℕ → Messages → Call sys fuel Heard
  boot_lines zero version id m = never
  boot_lines (suc n) version id m = do
    received ← receive_line sys fuel
    on_line version id m (boot_lines n version id) received

  -- What follows the lines in a round of `WaitBoot`.
  abbrev pub after_lines :
      ℕ → ℕ → Dots → (Dots → Messages → Call sys fuel ErrorCode) → Heard → Call sys fuel ErrorCode
  after_lines boot_timeout boot_start dots again (error, found, m) =
      if found
      then pure error
      else (if not (is_success error) && not (error == timed_out) then pure error else (do
        elapsed ← clock sys fuel
        let dots' = printed boot_timeout elapsed dots
        if leb (boot_timeout + boot_start_up_wait_time) (elapsed - boot_start)
            then pure no_message
            else (if ltb elapsed dots'.start then pure value_too_large else (do
              waited ← wait_nano_sec sys fuel command_interval_time
              if is_success waited then again dots' m else pure waited))))

  unfoldable pub boot_loop : ℕ → ℕ → ℕ → ℕ → ℕ → Dots → Messages → Call sys fuel ErrorCode
  boot_loop zero version id boot_timeout boot_start dots m = never
  boot_loop (suc n) version id boot_timeout boot_start dots m = do
    sent ← send_data sys fuel (id ∷ [])
    if is_success sent
        then (do
          heard ← boot_lines fuel version id m
          after_lines boot_timeout boot_start dots (boot_loop n version id boot_timeout boot_start)
              heard)
        else pure sent

  unfoldable pub wait_boot : ℕ → ℕ → ℕ → Call sys fuel ErrorCode
  unfolding boot_loop
  wait_boot version id boot_timeout = do
    boot_start ← clock sys fuel
    boot_loop fuel version id boot_timeout boot_start
        (record { start = boot_start; output_count = 0 })
        (record { receive_message = []; boot_message = [] })

  -- A round of the wait for the end of the erasure.
  abbrev pub after_erase_check : ErrorCode → ℕ → Call sys fuel ErrorCode → Call sys fuel ErrorCode
  after_erase_check error start again =
      if is_success error || not (error == illegal_byte_sequence || error == timed_out)
      then pure error
      else (do
        waited ← wait_nano_sec sys fuel command_interval_time
        if is_success waited
            then (do
              elapsed ← clock sys fuel
              if leb erase_wait_time (elapsed - start)
                  then pure timed_out
                  else (if ltb elapsed start then pure value_too_large else again))
            else pure waited)

  unfoldable pub erase_loop : ℕ → ℕ → Call sys fuel ErrorCode
  erase_loop zero start = never
  erase_loop (suc n) start = do
    error ← check_received_message sys fuel erase_finish_message
    after_erase_check error start (erase_loop n start)

  abbrev pub after_execute : ErrorCode → Call sys fuel ErrorCode
  after_execute error =
      if is_success error then (do start ← clock sys fuel; erase_loop fuel start) else pure error

  abbrev pub after_erase_command : ErrorCode → Call sys fuel ErrorCode
  after_erase_command error =
      if is_success error
      then (do sent ← send_data sys fuel (execute_command ∷ []); after_execute sent)
      else pure (no_answer error)

  unfoldable pub erase : Call sys fuel ErrorCode
  unfolding erase_loop
  erase = do
    error ← send_command sys fuel erase_command erase_check_message
    after_erase_command error

  abbrev pub after_flush_drain : List ℕ → ErrorCode → Call sys fuel ErrorCode
  after_flush_drain flush_data error =
      if error == timed_out
      then (do
        sent ← send_data sys fuel (execute_command ∷ [])
        if is_success sent then flush_xmodem sys fuel flush_data else pure sent)
      else pure error

  abbrev pub after_flush_command : List ℕ → ErrorCode → Call sys fuel ErrorCode
  after_flush_command flush_data error =
      if is_success error
      then (do drained ← drain fuel; after_flush_drain flush_data drained)
      else pure (no_answer error)

  unfoldable pub flush : List ℕ → Call sys fuel ErrorCode
  unfolding drain
  flush flush_data = do
    error ← send_command sys fuel flush_command flush_check_message
    after_flush_command flush_data error

  unfoldable pub run : Call sys fuel ErrorCode
  run = do error ← send_command sys fuel run_command run_check_message; pure (no_answer error)
