-- ===== src/Servo/Boots.antt =====
-- Runs of the reprogramming of an amplifier on a scripted boot loader.
use hsrb_drivers.Prelude.{
  ℕ, ◌+◌, ◌*◌, ◌-◌, ◌≤◌, ◌≡◌, ◌≢◌, refl, Option, none, some, List, [], ◌∷◌, ◌++◌, length, codes,
  arith, Ensures,
}
use hsrb_drivers.Posix.{errc_success, wrote, Polled, ready, nothing, slept, Event, out, got}
use hsrb_drivers.Servo.Reprograming.{ReadByte, byte, ISystem, ExxxReprograming, wait_nano_sec}
use hsrb_drivers.Servo.Reprograming.Transport.{send_data}
use hsrb_drivers.Servo.Reprograming.Lines.{
  receive_line, send_command, check_received_message, includes,
}
use hsrb_drivers.Servo.Reprograming.Xmodem.{
  flush_xmodem, replicate, xmodem_eof, xmodem_data_size, block_of,
}
use hsrb_drivers.Servo.Reprograming.Boot.{wait_boot, boot_lines, drain, flush}
use hsrb_drivers.Servo.Reprograming.Send.{Sending, send_data-Sending}
use hsrb_drivers.Servo.Reprograming.Answers.{SetsErrno}
use hsrb_drivers.Servo.Reprograming.Exchange.{Transferred}
use hsrb_drivers.Servo.Reprograming.Transfer.{flush_xmodem-Transferred}
use hsrb_drivers.Servo.Reprograming.Flashing.{Flushed, flush-Flushed}
use hsrb_drivers.Servo.Reprograming.Clocked.{IsMonotonic}
use hsrb_drivers.Servo.Reprograming.Termination.{flush_xmodem-ne-none}
use hsrb_drivers.Servo.Reprograming.Blocks.{data_parts, data_parts-join}

-- The clock, and what the device gives: `none` is a poll without a byte.
record Loader : Type 0 where
  clock : ℕ
  script : List (Option ℕ)

abbrev ahead : ℕ → Loader → Loader
ahead n l = record l { clock = l.clock + n }

abbrev polled : ℕ → Loader → List (Option ℕ) → Polled × Loader
polled t l [] = (nothing, ahead t l)
polled t l (none ∷ script) = (nothing, record { clock = l.clock + t; script = script })
polled t l (some b ∷ script) = (ready, l)

abbrev given : Loader → List (Option ℕ) → ReadByte × Loader
given l (some b ∷ script) = (byte b, record l { script = script })
given l (none ∷ script) = (byte 0, l)
given l [] = (byte 0, l)

abbrev loader : ISystem
loader = record {
  System = Loader;
  now = λ l. (l.clock, ahead 1 l);
  write = λ bytes l. (wrote (length bytes), ahead 1 l);
  poll = λ t l. polled t l l.script;
  read = λ l. given l l.script;
  sleep = λ n l. (slept, ahead n l);
}

abbrev says : List ℕ → List (Option ℕ)
says [] = []
says (b ∷ bytes) = some b ∷ says bytes

abbrev object : List (Option ℕ) → ExxxReprograming Loader
object script = record {
  timeout = 1000;
  sleep_tick = 10;
  system = record { clock = 1; script = script };
  log = [];
}

not_poll :
    (l : Loader) (t : ℕ) (script : List (Option ℕ)) → (polled t l script).0 ≢ Polled.poll_failed 0
not_poll l t [] e = absurd (cc)
not_poll l t (none ∷ script) e = absurd (cc)
not_poll l t (some b ∷ script) e = absurd (cc)

not_read : (l : Loader) (script : List (Option ℕ)) → (given l script).0 ≢ ReadByte.read_failed 0
not_read l [] e = absurd (cc)
not_read l (none ∷ script) e = absurd (cc)
not_read l (some b ∷ script) e = absurd (cc)

loader_errno : SetsErrno loader
loader_errno = record {
  poll_errno = λ t l. not_poll l t l.script;
  read_errno = λ l. not_read l l.script;
}

-- The request, two acknowledgements and the final message, for a firmware of 130 bytes.
abbrev firmware : List ℕ
firmware = replicate 130 7

abbrev transfer_script : List (Option ℕ)
transfer_script = says (0x15 ∷ 0x06 ∷ 0x15 ∷ 0x06 ∷ codes "SUCCESS") ++ (some 10 ∷ [])

abbrev erase_script : List (Option ℕ)
erase_script =
    says (codes "ERASE ALL FLASH ARE YOU SURE?") ++ says (10 ∷ codes "COMPLETED") ++ (some 10 ∷ [])

abbrev flush_script : List (Option ℕ)
flush_script = says (codes "START UPLOAD...") ++ (some 10 ∷ none ∷ transfer_script)

-- The object after a call.
abbrev after : Option (ℕ × ExxxReprograming Loader) → ExxxReprograming Loader
after none = object []
after (some (e, s)) = s

abbrev boot_script : List (Option ℕ)
boot_script =
    says (10 ∷ codes "====< Bootloader Ver.1.0.5 by TMC >====")
    ++ says (10 ∷ codes " -- for No_A -- ")
    ++ (some 10 ∷ none ∷ [])

-- What has been sent, the oldest byte first.
abbrev sent_bytes : List Event → List ℕ
sent_bytes [] = []
sent_bytes (out b ∷ log) = sent_bytes log ++ (b ∷ [])
sent_bytes (got b ∷ log) = sent_bytes log

transfers :
    flush_xmodem loader 60 firmware (object transfer_script)
    ≡ some (errc_success, after (flush_xmodem loader 60 firmware (object transfer_script)))
unfolding flush_xmodem send_command send_data check_received_message includes wait_nano_sec
transfers = refl

flushes :
    flush loader 60 firmware (object flush_script)
    ≡ some (errc_success, after (flush loader 60 firmware (object flush_script)))
unfolding flush flush_xmodem send_command send_data check_received_message includes wait_nano_sec
flushes = refl

-- The firmware is on the line in two blocks, the second sent twice, with the end of the transfer behind them.
line_taken :
    sent_bytes (after (flush_xmodem loader 60 firmware (object transfer_script))).log
    ≡ block_of firmware 0 1 ++ (block_of firmware 128 2 ++ (block_of firmware 128 2 ++ (4 ∷ [])))
unfolding flush_xmodem send_command send_data check_received_message includes wait_nano_sec
line_taken = refl

boots :
    wait_boot loader 60 1 65 5000 (object boot_script)
    ≡ some (errc_success, after (wait_boot loader 60 1 65 5000 (object boot_script)))
unfolding wait_boot send_data includes wait_nano_sec drain boot_lines receive_line
boots = refl

flush_xmodem-Transferred_example :
    Transferred [] firmware (after (flush_xmodem loader 60 firmware (object transfer_script))).log
flush_xmodem-Transferred_example =
    flush_xmodem-Transferred loader 60 firmware (object transfer_script)
      (after (flush_xmodem loader 60 firmware (object transfer_script))) loader_errno (omega arith)
      (omega arith) transfers

flush-Flushed_example :
    Flushed loader 60 firmware [] (after (flush loader 60 firmware (object flush_script)))
flush-Flushed_example =
    flush-Flushed loader 60 firmware (object flush_script)
      (after (flush loader 60 firmware (object flush_script))) loader_errno (omega arith)
      (omega arith) flushes

send_data-Sending_example :
    Ensures (Sending loader 60 (1 ∷ 2 ∷ []) []) (send_data loader 60 (1 ∷ 2 ∷ []) (object []))
send_data-Sending_example = send_data-Sending loader 60 (1 ∷ 2 ∷ []) (object []) (omega arith)

data_parts-join_example :
    data_parts firmware 2 0
    ≡ firmware ++ replicate (xmodem_data_size * 2 - length firmware) xmodem_eof
data_parts-join_example = data_parts-join firmware 2 (omega arith)

polled_later :
    (t : ℕ) (l : Loader) (script : List (Option ℕ)) → l.clock ≤ (polled t l script).1.clock
polled_later t l [] = omega arith
polled_later t l (none ∷ script) = omega arith
polled_later t l (some b ∷ script) = omega arith

given_later : (l : Loader) (script : List (Option ℕ)) → l.clock ≤ (given l script).1.clock
given_later l [] = omega arith
given_later l (none ∷ script) = omega arith
given_later l (some b ∷ script) = omega arith

loader_clock : IsMonotonic loader
loader_clock = record {
  at_least = λ l. l.clock;
  now_reads = λ l. omega arith;
  now_moves = λ l. omega arith;
  write_later = λ bytes l. omega arith;
  poll_later = λ t l. polled_later t l l.script;
  read_later = λ l. given_later l l.script;
  sleep_later = λ n l. omega arith;
  sleep_less = λ n e left l h. absurd (cc);
}

-- A boot loader that asks for the firmware again and again.
flush_xmodem-ne-none_example :
    flush_xmodem loader 60000000 firmware (object (replicate 300 (some 0x15))) ≢ none
flush_xmodem-ne-none_example =
    flush_xmodem-ne-none loader 60000000 firmware (object (replicate 300 (some 0x15))) loader_clock
      (omega arith) (omega arith) (omega arith) (omega arith) (omega arith) (omega arith)
