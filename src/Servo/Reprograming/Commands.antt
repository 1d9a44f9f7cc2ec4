-- ===== src/Servo/Reprograming/Commands.antt =====
-- `SendCommand` of exxx_reprograming.cpp: a command and the message that confirms it.
use hsrb_drivers.Prelude.{
  ℕ, zero, suc, ◌+◌, ◌≡◌, ◌≢◌, sym, ◌∙◌, true, not, ◌||◌, List, [], ◌∷◌, leb, ◌==◌, arith, Ensures,
  stops, gives, then_Ensures, if_Ensures,
}
use hsrb_drivers.Posix.{
  ErrorCode, errc_success, illegal_byte_sequence, timed_out, Event, out, heard,
}
use mathlib.Core.Path.{subst}
use hsrb_drivers.Servo.Reprograming.{ISystem, ExxxReprograming, Call, wait_nano_sec}
use hsrb_drivers.Servo.Reprograming.Transport.{is_success, send_data}
use hsrb_drivers.Servo.Reprograming.Lines.{
  check_received_message, after_check, after_command, command_loop, send_command, includes,
  send_command_max_retry_count, command_interval_time,
}
use hsrb_drivers.Servo.Reprograming.Send.{
  wait_nano_sec-Keeps, Sending, sent, gave_up, send_data-Sending,
}
use hsrb_drivers.Servo.Reprograming.Answers.{
  SetsErrno, Checked, found, not_found, check_received_message-Checked,
}

-- The command is sent once or more often, and whole lines are heard between.
pub data Attempts (command : ℕ) (log : List Event) : List Event → Type 0 where
  first : Attempts command log (out command ∷ log)
  again :
      (line : List ℕ) {l : List Event}
      → Attempts command log l
      → Attempts command log (out command ∷ heard line l)

-- The last answer to the command includes the message.
pub data Confirmed (command : ℕ) (message : List ℕ) (log : List Event) : List Event → Type 0 where
  confirmed :
      (before : List Event) (line : List ℕ) (l : List Event)
      → Attempts command log before
      → includes message line ≡ true
      → l ≡ heard line before
      → Confirmed command message log l

module _ (sys : ISystem) (fuel : ℕ) (sets : SetsErrno sys) (command : ℕ) (message : List ℕ)
    (log : List Event) where
  abbrev Object : Type 0
  Object = ExxxReprograming sys.System

  abbrev Outcome : ErrorCode → Object → Type 0
  Outcome e s = e ≡ errc_success → Confirmed command message log s.log

  -- Before a round the log ends in what was heard after the last attempt.
  data Between : List Event → Type 0 where
    at_start : Between log
    heard_line : (line : List ℕ) {l : List Event} → Attempts command log l → Between (heard line l)

  attempt : {l : List Event} → Between l → Attempts command log (out command ∷ l)
  attempt at_start = first
  attempt (heard_line line a) = again line a

  abbrev Again : (ℕ → Call sys fuel ErrorCode) → Type 0
  Again goes_on =
      (retry_count : ℕ) (s : Object) → Between s.log → Ensures Outcome (goes_on retry_count s)

  retried :
      (e : ErrorCode) (retry_count : ℕ) (goes_on : ℕ → Call sys fuel ErrorCode)
      (before : List Event) (line : List ℕ) (s : Object)
      → e ≢ errc_success
      → Attempts command log before
      → s.log ≡ heard line before
      → Again goes_on
      → Ensures Outcome (after_check sys fuel e retry_count goes_on s)
  retried e retry_count goes_on before line s n a l h =
      if_Ensures _ (is_success e || not (e == timed_out || e == illegal_byte_sequence)) _ _ s
        (λ _. gives _ _ (λ z. absurd (n z)))
        (λ _.
          if_Ensures _ (leb send_command_max_retry_count (retry_count + 1)) _ _ s
            (λ _. gives _ _ (λ z. absurd (omega arith)))
            (λ _.
              then_Ensures (λ _ (s' : Object). s'.log ≡ s.log) _
                (wait_nano_sec sys fuel command_interval_time) _ s
                (wait_nano_sec-Keeps sys fuel command_interval_time s)
                (λ waited s' k.
                  if_Ensures _ (is_success waited) _ _ s'
                    (λ _. h (retry_count + 1) s' (subst Between (sym (k ∙ l)) (heard_line line a)))
                    (λ z. gives _ _ (λ y. absurd (ground arith))))))

  Checked-Outcome :
      (e : ErrorCode) (retry_count : ℕ) (goes_on : ℕ → Call sys fuel ErrorCode)
      (before : List Event) (s : Object)
      → Attempts command log before
      → Again goes_on
      → Checked sys fuel sets message before e s
      → Ensures Outcome (after_check sys fuel e retry_count goes_on s)
  Checked-Outcome e retry_count goes_on before s a h (found line _ l i) =
      gives _ _ (λ _. confirmed before line _ a i l)
  Checked-Outcome e retry_count goes_on before s a h (not_found _ line _ n l) =
      retried e retry_count goes_on before line s n a l h

  after_command-Outcome :
      (e : ErrorCode) (retry_count : ℕ) (goes_on : ℕ → Call sys fuel ErrorCode)
      (before : List Event) (s : Object)
      → Between before
      → Again goes_on
      → Sending sys fuel (command ∷ []) before e s
      → Ensures Outcome (after_command sys fuel e message retry_count goes_on s)
  after_command-Outcome e retry_count goes_on before s b h (gave_up _ n l) =
      gives _ _ (λ z. absurd (omega arith))
  after_command-Outcome e retry_count goes_on before s b h (sent _ l) =
      then_Ensures (Checked sys fuel sets message s.log) _ (check_received_message sys fuel message)
        (λ error. after_check sys fuel error retry_count goes_on) s
        (check_received_message-Checked sys fuel sets message s)
        (λ error s' c.
          Checked-Outcome error retry_count goes_on s.log s'
            (subst (Attempts command log) (sym l) (attempt b)) h c)

  command_loop-Outcome :
      (n retry_count : ℕ) (s : Object)
      → Between s.log
      → Ensures Outcome (command_loop sys fuel n command message retry_count s)
  unfolding command_loop
  command_loop-Outcome zero retry_count s b = stops
  command_loop-Outcome (suc n) retry_count s b =
      then_Ensures (Sending sys fuel (command ∷ []) s.log) _ (send_data sys fuel (command ∷ [])) _ s
        (send_data-Sending sys fuel (command ∷ []) s (omega arith))
        (λ e s' p.
          after_command-Outcome e retry_count (command_loop sys fuel n command message) s.log s' b
            (command_loop-Outcome n) p)

  -- If `SendCommand` succeeds, the last answer to the command includes the message.
  pub send_command-Confirmed :
      (s : Object) → s.log ≡ log → Ensures Outcome (send_command sys fuel command message s)
  unfolding send_command
  send_command-Confirmed s e =
      command_loop-Outcome send_command_max_retry_count 0 s (subst Between (sym e) at_start)
