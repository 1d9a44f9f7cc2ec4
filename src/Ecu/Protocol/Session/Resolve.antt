-- ===== src/Ecu/Protocol/Session/Resolve.antt =====
-- `ProcessCommandQueue` with a network that always comes back: it returns, and keeps the command queue in order.
use hsrb_drivers.Prelude.{
  ℕ, ◌+◌, ◌-◌, ◌<◌, ◌⊎◌, inl, inr, Bool, true, false, not, ◌&&◌, ◌||◌, Option, List, [], ◌∷◌, ltb,
  ◌==◌, length, arith, Bool-cases,
}
use hsrb_drivers.Ecu.Crc.{Crc32}
use hsrb_drivers.Ecu.Frame.{Code, success, operation_canceled, timed_out, invalid_argument}
use hsrb_drivers.Ecu.Protocol.{INetwork, State, is_success}
use hsrb_drivers.Ecu.Protocol.Queue.{
  IsWellFormed, IsFine, fine, send_all-IsWellFormed, receive_all-IsWellFormed,
}
use hsrb_drivers.Ecu.Protocol.Session.{
  process_command_queue_timeout, attempt, process_rounds, process_command_queue,
}

-- Some round ends later than `limit`.
abbrev pub Passes : ℕ → List (Bool × ℕ × ℕ × ℕ) → Type 0
Passes limit [] = ⊥
Passes limit ((_, _, _, now) ∷ rounds) = (limit < now) ⊎ Passes limit rounds

module _ (crc : Crc32) (network : INetwork) where
  attempt-IsFine :
      (r : Option (Code × State crc network)) (too_many : State crc network → Bool)
      (next : State crc network → Option (Code × State crc network))
      → IsFine r
      → ((s : State crc network) → IsWellFormed s → IsFine (next s))
      → IsFine (attempt crc network r too_many next)
  attempt-IsFine r too_many next (fine ret s w) f =
      elim (Bool-cases (not (is_success ret) && too_many s)) [
        | inl e ↦ rw (e, attempt) (fine operation_canceled s w)
        | inr e ↦ rw (e, attempt) (f s w)
      ]

  process_rounds-IsFine :
      (start : ℕ) (check_ros : Bool) (error_rate : ℕ × ℕ) (s : State crc network)
      (rounds : List (Bool × ℕ × ℕ × ℕ))
      → IsWellFormed s
      → Passes (start + process_command_queue_timeout) rounds
      → IsFine (process_rounds crc network start check_ros error_rate s rounds)
  unfolding process_rounds
  process_rounds-IsFine start check_ros error_rate s [] w p = elim p [ ]
  process_rounds-IsFine start check_ros error_rate s ((ok, sending, receiving, now) ∷ rounds) w p =
      elim (Bool-cases (length s.command_queue == 0 || check_ros && not ok)) [
        | inl e ↦ rw (e, process_rounds) (fine success s w)
        | inr e ↦
            rw (e, process_rounds)
              (attempt-IsFine _ _ _ (send_all-IsWellFormed crc network sending s w) λ s₁ w₁.
                attempt-IsFine _ _ _ (receive_all-IsWellFormed crc network receiving s₁ w₁) λ s₂ w₂.
                  elim (Bool-cases (ltb process_command_queue_timeout (now - start))) [
                    | inl late ↦ rw late (fine timed_out s₂ w₂)
                    | inr early ↦ rw early (elim p [
                      | inl passed ↦ absurd (ground (arith, early))
                      | inr later ↦
                          process_rounds-IsFine start check_ros error_rate s₂ rounds w₂ later
                    ])
                  ])
      ]

  -- From a well-formed state, and whatever the network does, `ProcessCommandQueue` returns if the clock of some round
  -- is later than five seconds after the start, and leaves a well-formed state.
  pub process_command_queue-IsWellFormed :
      (slow : Bool) (start : ℕ) (check_ros : Bool) (error_rate : ℕ × ℕ) (s : State crc network)
      (rounds : List (Bool × ℕ × ℕ × ℕ))
      → IsWellFormed s
      → Passes (start + process_command_queue_timeout) rounds
      → IsFine (process_command_queue crc network slow start check_ros error_rate s rounds)
  unfolding process_command_queue
  process_command_queue-IsWellFormed true start check_ros error_rate s rounds w p =
      fine invalid_argument s w
  process_command_queue-IsWellFormed false start check_ros error_rate s rounds w p =
      process_rounds-IsFine start check_ros error_rate s rounds w p
