-- ===== src/Servo/Reprograming/Erasure.antt =====
-- `Erase` of exxx_reprograming.cpp: what has been exchanged when it succeeds.
use hsrb_drivers.Prelude.{ℕ, ◌≡◌, ◌≢◌, refl, true, false, List, [], ◌∷◌, ◌++◌, ◌==◌, arith}
use hsrb_drivers.Posix.{ErrorCode, errc_success, Event, out, heard}
use hsrb_drivers.Servo.Reprograming.{ISystem, ExxxReprograming}
use hsrb_drivers.Servo.Reprograming.Lines.{includes}
use hsrb_drivers.Servo.Reprograming.Boot.{
  erase_command, execute_command, erase_check_message, erase_finish_message, no_answer,
}
use hsrb_drivers.Servo.Reprograming.Answers.{SetsErrno}
use hsrb_drivers.Servo.Reprograming.Commands.{Confirmed}

-- The command was confirmed, `y` was sent, and the last line that was heard tells the end of the erasure.
pub data Erased (log final : List Event) : Type 0 where
  erased :
      (l : List Event) (bytes line : List ℕ)
      → Confirmed erase_command erase_check_message log l
      → includes erase_finish_message line ≡ true
      → final ≡ heard line (heard bytes (out execute_command ∷ l))
      → Erased log final

pub heard-append :
    (xs ys : List ℕ) (log : List Event) → heard (xs ++ ys) log ≡ heard ys (heard xs log)
heard-append [] ys log = refl
heard-append (x ∷ xs) ys log = heard-append xs ys _

pub no_answer-ne-errc_success :
    (e : ErrorCode) → (e == errc_success) ≡ false → no_answer e ≢ errc_success
no_answer-ne-errc_success e h z = absurd (ground arith)

module _ (sys : ISystem) (fuel : ℕ) (sets : SetsErrno sys) where
  abbrev Object : Type 0
  Object = ExxxReprograming sys.System

  -- The wait for the end of the erasure, from the log after `y`.
  module _ (asked : List Event) where
    data Told : List Event → Type 0 where
      told :
          (bytes line : List ℕ) (l : List Event)
          → includes erase_finish_message line ≡ true
          → l ≡ heard line (heard bytes asked)
          → Told l

    abbrev Outcome : ErrorCode → Object → Type 0
    Outcome e s = e ≡ errc_success → Told s.log

    -- Only bytes have come since.
    abbrev Heard : List Event → Type 0
    Heard l = (bytes : List ℕ) × (l ≡ heard bytes asked)

  module _ (log : List Event) where
    abbrev Erases : ErrorCode → Object → Type 0
    Erases e s = e ≡ errc_success → Erased log s.log

    abbrev Answered : ℕ → List ℕ → ErrorCode → Object → Type 0
    Answered command message e s = e ≡ errc_success → Confirmed command message log s.log
