-- ===== src/Ecu/Protocol/Session.antt =====
-- The calls of `PowerEcuProtocol` that wait for the ECU: `GetPowerEcuVersions`, `ProcessCommandQueue` and those
-- that resolve the queue, `Start` and `Stop`. What a round of their loops observes of the clock and of ROS is an
-- entry of a list; `none` says that the list is used up before the loop ends, or that the process ends.
pub mod Resolve
pub mod Versions
use hsrb_drivers.Prelude.{
  ℕ, zero, suc, ◌+◌, ◌-◌, ◌*◌, ◌^◌, Bool, true, false, not, ◌&&◌, ◌||◌, Option, none, some, List,
  [], ◌∷◌, ltb, leb, ◌==◌, if◌then◌else◌, length, drop,
}
use hsrb_drivers.Ecu.Crc.{Crc32}
use hsrb_drivers.Ecu.ErrorCounter.{ErrorCounter}
use hsrb_drivers.Ecu.Frame.{
  Code, success, invalid_argument, operation_canceled, timed_out, codes, same_bytes,
}
use hsrb_drivers.Ecu.Frame.Decoder.{DataDecoder, DataDecoderMap, Value, text, find_decoder}
use hsrb_drivers.Ecu.Frame.Encoder.{DataEncoder, DataEncoderMap}
use hsrb_drivers.Ecu.Commands.{time_data_encoder, mute_data_encoder, start_data_encoder}
use hsrb_drivers.Ecu.Protocol.{
  INetwork, PowerEcuProtocol, State, command_timeout, is_success, raised, lowered,
  add_command_queue, send_command, send_all, receive_all,
}

abbrev pub retry_count : ℕ
retry_count = 10

abbrev pub process_command_queue_timeout : ℕ
process_command_queue_timeout = 5 * 10 ^ 9

-- `GetErrorRate() > error_rate`, for a rate given as a fraction; 0.9 is 9/10.
abbrev pub exceeds : ErrorCounter → ℕ × ℕ → Bool
exceeds c (numerator, denominator) = ltb (numerator * length c.buffer) (c.error_count * denominator)

abbrev pub retry_rate : ℕ × ℕ
retry_rate = (9, 10)

abbrev pub is_receive_version : DataDecoderMap → Bool
is_receive_version map = raised (find_decoder (codes "ver__") map)

abbrev pub drop_receive_version : DataDecoderMap → DataDecoderMap
drop_receive_version map = lowered map (find_decoder (codes "ver__") map)

-- `Update` of `ver__` copies the two strings without their "h".
abbrev two_texts : List Value → List ℕ × List ℕ
two_texts (text v ∷ text c ∷ values) = (drop 1 v, drop 1 c)
two_texts _ = ([], [])

abbrev versions_of : Option DataDecoder → List ℕ × List ℕ
versions_of none = ([], [])
versions_of (some d) = two_texts d.values

-- `*ver_power_ecu_version_` and `*ver_power_ecu_com_version_`.
abbrev pub versions : DataDecoderMap → List ℕ × List ℕ
versions map = versions_of (find_decoder (codes "ver__") map)

-- A parameter of a command is changed: the encoder of its packet type refers to it.
abbrev put_encoder : DataEncoder → DataEncoderMap → DataEncoderMap
put_encoder new [] = []
put_encoder new (e ∷ map) =
    if same_bytes e.packet_name new.packet_name then new ∷ map else e ∷ put_encoder new map

module _ (crc : Crc32) (network : INetwork) where
  -- What `GetPowerEcuVersions` does after `SendCommand`; `gives_up` is the outcome of `retry <= kRetryCount`.
  abbrev getv_sent :
      Option (Code × State crc network)
      → Bool
      → (State crc network → Option (Bool × State crc network))
      → Option (Bool × State crc network)
  getv_sent none gives_up more = none
  getv_sent (some (ret, s)) gives_up more = elim (is_success ret) [
    | true ↦ some (true, s)
    | false ↦ elim gives_up [ true ↦ some (false, s) | false ↦ more s ]
  ]

  -- Its first loop: whether the command has been sent. `fuel` bounds the calls of `SendCommand`.
  unfoldable pub send_getv : ℕ → ℕ → State crc network → Option (Bool × State crc network)
  send_getv zero retry s = none
  send_getv (suc fuel) retry s =
      getv_sent (send_command crc network (codes "getv_") s) (leb (retry + 1) retry_count)
        (send_getv fuel (retry + 1))

  -- Its second loop: for each round the clock of `ReceiveAll` and that of the timeout.
  unfoldable pub receive_versions :
      ℕ → State crc network → List (ℕ × ℕ) → Option (Option (List ℕ × List ℕ) × State crc network)
  receive_versions start s [] = none
  receive_versions start s ((time, now) ∷ rounds) = elim (receive_all crc network time s) [
    | none ↦ none
    | some (ret, s') ↦ elim (not (is_success ret) && exceeds s'.read_error_counter retry_rate) [
      | true ↦ some (none, s')
      | false ↦ elim (is_receive_version s'.decoder_map) [
        | true ↦ some (some (versions s'.decoder_map), s')
        | false ↦ elim (ltb command_timeout (now - start)) [
          | true ↦ some (none, s')
          | false ↦ receive_versions start s' rounds
        ]
      ]
    ]
  ]

  abbrev pub after_getv :
      ℕ
      → List (ℕ × ℕ)
      → Option (Bool × State crc network)
      → Option (Option (List ℕ × List ℕ) × State crc network)
  after_getv start rounds none = none
  after_getv start rounds (some (false, s)) = some (none, s)
  after_getv start rounds (some (true, s)) = receive_versions start s rounds

  -- `GetPowerEcuVersions`, called at `start`: the versions, or `none` inside for `false`. One call of `SendCommand`
  -- is enough fuel.
  unfoldable pub get_power_ecu_versions :
      ℕ → State crc network → List (ℕ × ℕ) → Option (Option (List ℕ × List ℕ) × State crc network)
  get_power_ecu_versions start s rounds =
      after_getv start rounds
        (send_getv 1 0 (record s { decoder_map = drop_receive_version s.decoder_map }))

  -- A call in the loop of `ProcessCommandQueue`, and the return if it failed and there are too many errors.
  abbrev attempt :
      Option (Code × State crc network)
      → (State crc network → Bool)
      → (State crc network → Option (Code × State crc network))
      → Option (Code × State crc network)
  attempt none too_many next = none
  attempt (some (ret, s)) too_many next = elim (not (is_success ret) && too_many s) [
    | true ↦ some (operation_canceled, s)
    | false ↦ next s
  ]

  -- The loop of `ProcessCommandQueue`: for each round `rclcpp::ok()`, the clocks of `SendAll` and `ReceiveAll`, and
  -- that of the time check.
  unfoldable pub process_rounds :
      ℕ
      → Bool
      → ℕ × ℕ
      → State crc network
      → List (Bool × ℕ × ℕ × ℕ)
      → Option (Code × State crc network)
  process_rounds start check_ros error_rate s [] =
      if length s.command_queue == 0 then some (success, s) else none
  process_rounds start check_ros error_rate s ((ok, sending, receiving, now) ∷ rounds) =
      elim (length s.command_queue == 0 || check_ros && not ok) [
        | true ↦ some (success, s)
        | false ↦
            attempt (send_all crc network sending s)
              (λ s'. exceeds s'.write_error_counter error_rate)
              λ s₁.
                attempt (receive_all crc network receiving s₁)
                  (λ s'. exceeds s'.read_error_counter error_rate)
                  λ s₂. elim (ltb process_command_queue_timeout (now - start)) [
                    | true ↦ some (timed_out, s₂)
                    | false ↦ process_rounds start check_ros error_rate s₂ rounds
                  ]
      ]

  -- `ProcessCommandQueue`, called at `start`; `slow` is the outcome of `cycle_hz < 1.0 / kProcessCommandQueueTimeOut`.
  unfoldable pub process_command_queue :
      Bool
      → ℕ
      → Bool
      → ℕ × ℕ
      → State crc network
      → List (Bool × ℕ × ℕ × ℕ)
      → Option (Code × State crc network)
  process_command_queue slow start check_ros error_rate s rounds =
      if slow
      then some (invalid_argument, s)
      else process_rounds start check_ros error_rate s rounds

  -- `Stop`, and `Start` with the time as text; `none` too if this does not have 14 characters.
  unfoldable pub stop :
      ℕ → State crc network → List (Bool × ℕ × ℕ × ℕ) → Option (Code × State crc network)
  stop start s rounds =
      process_command_queue false start true retry_rate (add_command_queue (codes "stop_") s) rounds

  abbrev pub queue_start : List ℕ → State crc network → State crc network
  queue_start time s =
      let timed = record s { encoders = put_encoder (time_data_encoder time) s.encoders } in
      let loud = add_command_queue (codes "time_") timed in
      let unmuted = record loud {
        encoders = put_encoder (mute_data_encoder false) loud.encoders;
      } in
      let muted = add_command_queue (codes "mute_") unmuted in
      let enabled = record muted {
        encoders = put_encoder (start_data_encoder true true) muted.encoders;
      } in
      add_command_queue (codes "start") enabled

  unfoldable pub start_communication :
      List ℕ → ℕ → State crc network → List (Bool × ℕ × ℕ × ℕ) → Option (Code × State crc network)
  start_communication time start s rounds =
      if length time == 14
      then process_command_queue false start true retry_rate (queue_start time s) rounds
      else none
