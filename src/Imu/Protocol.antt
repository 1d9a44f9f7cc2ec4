-- ===== src/Imu/Protocol.antt =====
-- `MPU9150Protocol` of mpu9150_protocol.cpp: the readings of the sensor and its reset, over the network that
-- it drives. Times are nanoseconds.
pub mod Link
pub mod Reset
use hsrb_drivers.Prelude.{
  ℕ, ◌+◌, ◌*◌, ◌^◌, Bool, true, false, not, ◌||◌, Option, none, some, List, [], ◌∷◌, ltb,
  if◌then◌else◌,
}
use hsrb_drivers.Imu.Network.{
  ErrorCode, success, timed_out, Selection, Mpu9150PacketConverter, to_sensor_state,
}

-- What the protocol uses of `MPU9150Network`; `none` is a call that does not come back.
pub record ImuNetwork : Type 1 where
  pub Line : Type 0
  pub send : ℕ → List ℕ → Line → Option (ErrorCode × Line)
  pub receive : Line → Option (ErrorCode × Line)
  pub all_packets : Line → List ℕ
  pub is_reply_packet : Line → Bool

pub data ResetResult : Type 0 where
  done error continue : ResetResult

pub data ProtocolStatus : Type 0 where
  status_waiting status_wait_for_reset status_receive_reset_return : ProtocolStatus

pub record Mpu9150Protocol (Line : Type 0) : Type 0 where
  pub line : Line
  pub packet_converter : Mpu9150PacketConverter
  pub status : ProtocolStatus
  pub instruction_end_time : ℕ
  pub instruction_timeout : ℕ

-- `if (error)`
abbrev pub is_error : ErrorCode → Bool
is_error success = false
is_error _ = true

abbrev pub instruction_reset : ℕ
instruction_reset = 0x72

abbrev pub reset_duration : ℕ
reset_duration = 3 * 10 ^ 9

abbrev pub instruction_timeout_duration : ℕ
instruction_timeout_duration = 5 * 10 ^ 9

-- What `ReadState` does with the caller's state: it leaves it, or it copies a state over it that was not
-- initialised before `ToSensorState` wrote it.
pub data Reading : Type 0 where
  kept : Reading
  copied : Selection → Reading

module _ (network : ImuNetwork) where
  open network use {Line, send, receive, all_packets, is_reply_packet}

  abbrev pub Protocol : Type 0
  Protocol = Mpu9150Protocol Line

  abbrev read_packets :
      Protocol → Option (ErrorCode × Line) → Option (ErrorCode × Reading × Protocol)
  read_packets s none = none
  read_packets s (some (e, line)) =
      let (selection, converter) = to_sensor_state (all_packets line) s.packet_converter in
      if is_error e
      then some (e, kept, record s { line = line })
      else some (success, copied selection, record s { line = line; packet_converter = converter })

  abbrev read_in : ProtocolStatus → Protocol → Option (ErrorCode × Reading × Protocol)
  read_in status_waiting s = read_packets s (receive s.line)
  read_in _ s = some (success, kept, s)

  -- `ReadState`
  unfoldable pub read_state : Protocol → Option (ErrorCode × Reading × Protocol)
  read_state s = read_in s.status s

  abbrev pub Tried : Type 0
  Tried = Option (ErrorCode × ResetResult × Protocol)

  abbrev sent_reset : ℕ → ℕ → Protocol → Option (ErrorCode × Line) → Tried
  sent_reset now now' s none = none
  sent_reset now now' s (some (e, line)) =
      if is_error e
      then some (e, error, record s { line = line })
      else some (
        success,
        continue,
        record s {
          line = line;
          instruction_end_time = now + reset_duration;
          instruction_timeout = now' + instruction_timeout_duration;
          status = status_wait_for_reset;
        },
      )

  abbrev received_reply : ℕ → Protocol → Option (ErrorCode × Line) → Tried
  received_reply now s none = none
  received_reply now s (some (e, line)) =
      if is_error e || not (is_reply_packet line)
      then if ltb s.instruction_timeout now
        then some (timed_out, error, record s { line = line; status = status_waiting })
        else some (success, continue, record s { line = line })
      else some (success, done, record s { line = line; status = status_waiting })

  -- The cases of the `switch` of `TryReset`.
  abbrev try_reset_in : ProtocolStatus → ℕ → ℕ → Protocol → Tried
  try_reset_in status_waiting now now' s = sent_reset now now' s (send instruction_reset [] s.line)
  try_reset_in status_wait_for_reset now now' s =
      if ltb s.instruction_end_time now
      then some (success, continue, record s { status = status_receive_reset_return })
      else some (success, continue, s)
  try_reset_in status_receive_reset_return now now' s = received_reply now s (receive s.line)

  -- `TryReset`; the clock is read up to twice.
  unfoldable pub try_reset : ℕ → ℕ → Protocol → Tried
  try_reset now now' s = try_reset_in s.status now now' s

  -- The loop of `Reset`: for each round the clock of its test and the two readings of `TryReset`. `none` too
  -- if the rounds are used up before the loop ends.
  unfoldable pub reset_loop : ℕ → Protocol → List (ℕ × ℕ × ℕ) → Option (ErrorCode × Protocol)
  reset_loop time_limit s [] = none
  reset_loop time_limit s ((test, now, now') ∷ rounds) = elim (ltb test time_limit) [
    | false ↦ some (timed_out, s)
    | true ↦ elim (try_reset now now' s) [
      | none ↦ none
      | some (e, result, s') ↦ elim (is_error e) [
        | true ↦ some (e, s')
        | false ↦ elim result [ done ↦ some (success, s') | _ ↦ reset_loop time_limit s' rounds ]
      ]
    ]
  ]

  -- `Reset`, called at `start`.
  unfoldable pub reset : ℕ → ℕ → Protocol → List (ℕ × ℕ × ℕ) → Option (ErrorCode × Protocol)
  unfolding reset_loop
  reset start timeout s rounds = reset_loop (start + timeout) s rounds
