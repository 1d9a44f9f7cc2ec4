-- ===== src/Ecu/Protocol.antt =====
-- `PowerEcuProtocol` of power_ecu_protocol.cpp: the command queue, one command at a time until its
-- acknowledgement, and the heartbeat. Times are nanoseconds.
pub mod Queue
pub mod Wire
pub mod Ack
pub mod Reply
pub mod Session
use hsrb_drivers.Prelude.{
  ℕ, zero, suc, ◌+◌, ◌-◌, ◌*◌, ◌%◌, ◌^◌, Bool, true, false, not, Option, none, some, List, [], ◌∷◌,
  ◌++◌, ltb, leb, ◌==◌, ◌&&◌, ◌||◌, if◌then◌else◌, length, take, drop,
}
use hsrb_drivers.Ecu.Crc.{Crc32}
use hsrb_drivers.Ecu.ErrorCounter.{ErrorCounter, register}
use hsrb_drivers.Ecu.Element.{u32}
use hsrb_drivers.Ecu.Commands.{heart_data_encoder}
use hsrb_drivers.Ecu.Frame.{
  Code, success, protocol_error, invalid_argument, network_down, operation_canceled, timed_out,
  result_out_of_range, codes, same_bytes,
}
use hsrb_drivers.Ecu.Frame.Decoder.{
  DataDecoder, DataDecoderMap, Value, number, signed, text, find_decoder, put_decoder, decode_all,
}
use hsrb_drivers.Ecu.Frame.Encoder.{DataEncoder, DataEncoderMap, encode}

-- `INetwork`: `Receive` appends to the buffer that it is given.
pub record INetwork : Type 1 where
  pub Line : Type 0
  pub send : List ℕ → Line → Code × Line
  pub receive : List ℕ → Line → Code × List ℕ × Line

abbrev pub command_queue_size : ℕ
command_queue_size = 1000

abbrev pub command_timeout : ℕ
command_timeout = 10 * 10 ^ 9

abbrev pub heartbeat_duration : ℕ
heartbeat_duration = 5 * 10 ^ 9

-- The queue holds the names of the commands. `encoders` are the data encoders other than that of the
-- heartbeat, whose count the protocol itself changes.
pub record PowerEcuProtocol (Line : Type 0) : Type 0 where
  pub line : Line
  pub receive_buffer : List ℕ
  pub decoder_map : DataDecoderMap
  pub encoders : DataEncoderMap
  pub error_state : ℕ
  pub counts : ℕ
  pub command_queue : List (List ℕ)
  pub is_waiting_ack : Bool
  pub read_error_counter : ErrorCounter
  pub write_error_counter : ErrorCounter
  pub last_send_command_time : ℕ
  pub last_heartbeat_time : ℕ

abbrev is_success : Code → Bool
is_success success = true
is_success _ = false

-- `*is_receive_ack_`, `*ack_value_` and `*is_receive_ack_ = false`.
abbrev raised : Option DataDecoder → Bool
raised none = false
raised (some d) = d.is_receive

abbrev pub is_receive_ack : DataDecoderMap → Bool
is_receive_ack map = raised (find_decoder (codes "rxack") map)

abbrev first_number : List Value → ℕ
first_number [] = 0
first_number (number n ∷ values) = n
first_number (signed n ∷ values) = 0
first_number (text chars ∷ values) = 0

abbrev number_of : Option DataDecoder → ℕ
number_of none = 0
number_of (some d) = first_number d.values

abbrev pub ack_value : DataDecoderMap → ℕ
ack_value map = number_of (find_decoder (codes "rxack") map)

abbrev lowered : DataDecoderMap → Option DataDecoder → DataDecoderMap
lowered map none = map
lowered map (some d) = put_decoder (record d { is_receive = false }) map

abbrev pub drop_receive_ack : DataDecoderMap → DataDecoderMap
drop_receive_ack map = lowered map (find_decoder (codes "rxack") map)

-- `AddCommandQueue`: `push_back` of a full circular buffer overwrites its front.
unfoldable pub add_command_queue :
    {Line : Type 0} → List ℕ → PowerEcuProtocol Line → PowerEcuProtocol Line
add_command_queue command s =
    let kept =
      if length s.command_queue == command_queue_size
      then drop 1 s.command_queue
      else s.command_queue in
    record s { command_queue = kept ++ command ∷ [] }

module _ (crc : Crc32) (network : INetwork) where
  open network use {Line}

  abbrev pub State : Type 0
  State = PowerEcuProtocol Line

  abbrev pub encoder_map : State → DataEncoderMap
  encoder_map s = heart_data_encoder s.error_state s.counts ∷ s.encoders

  -- The rest of `SendCommand`, with the frame that was made.
  abbrev transmit : List ℕ → State → Code × State
  transmit send_buffer s =
      let (sent, line) = network.send send_buffer s.line in
      if is_success sent
      then (success, record s { line = line; decoder_map = drop_receive_ack s.decoder_map })
      else (network_down, record s { line = line })

  -- `SendCommand`: `none` stands for `exit(EXIT_FAILURE)`.
  unfoldable pub send_command : List ℕ → State → Option (Code × State)
  send_command command s =
      let (made, send_buffer) = encode crc (encoder_map s) command in
      if is_success made then some (transmit send_buffer s) else none

  abbrev written : Bool → State → State
  written ok s = record s { write_error_counter = register ok s.write_error_counter }

  abbrev after_command : ℕ → Option (Code × State) → Option (Code × State)
  after_command time none = none
  after_command time (some (ret, s)) =
      if is_success ret
      then some (
        success,
        written true (record s { last_send_command_time = time; is_waiting_ack = true }),
      )
      else some (ret, written false s)

  abbrev after_heartbeat : Option (Code × State) → Option (Code × State)
  after_heartbeat none = none
  after_heartbeat (some (ret, s)) =
      if is_success ret
      then some (
        success,
        written true
            (record s { last_heartbeat_time = s.last_heartbeat_time + heartbeat_duration }),
      )
      else some (ret, written false s)

  abbrev heartbeat : ℕ → State → Option (Code × State)
  heartbeat time s =
      if ltb (s.last_heartbeat_time + heartbeat_duration) time
      then after_heartbeat (send_command (codes "heart") (record s { counts = u32 (s.counts + 1) }))
      else some (success, written true s)

  abbrev send_front : ℕ → List (List ℕ) → State → Option (Code × State)
  send_front time [] s = heartbeat time s
  send_front time (command ∷ queue) s =
      if not s.is_waiting_ack then after_command time (send_command command s) else heartbeat time s

  -- `SendAll` at the time `time`.
  unfoldable pub send_all : ℕ → State → Option (Code × State)
  unfolding send_command
  send_all time s = send_front time s.command_queue s

  -- The confirmation of the acknowledgement in `ReceiveAll`. `none` stands for `pop_front` of an empty queue.
  abbrev pop_command : Code → State → List (List ℕ) → Option (Code × State)
  pop_command result s [] = none
  pop_command result s (command ∷ queue) =
      some (result, record s { command_queue = queue; is_waiting_ack = false })

  abbrev pub confirm : ℕ → Code → State → Option (Code × State)
  confirm time result s =
      if s.is_waiting_ack
      then if is_receive_ack s.decoder_map
        then pop_command (if not (ack_value s.decoder_map == 0) then operation_canceled else result)
            s s.command_queue
        else if ltb (s.last_send_command_time + command_timeout) time
        then pop_command timed_out s s.command_queue
        else some (result, s)
      else some (result, s)

  abbrev read : Bool → State → State
  read ok s = record s { read_error_counter = register ok s.read_error_counter }

  abbrev counted : Option (Code × State) → Option (Code × State)
  counted none = none
  counted (some (result, s)) = some (result, read (is_success result) s)

  abbrev decoded : ℕ → State → List ℕ → Option (Bool × ℕ × DataDecoderMap) → Option (Code × State)
  decoded time s buffer none = none
  decoded time s buffer (some (corrupted, encoded, map)) = counted (
      confirm time (if corrupted then protocol_error else success)
        (record s { receive_buffer = drop encoded buffer; decoder_map = map }))

  -- `ReceiveAll` at the time `time`; as many rounds of the loop as there are bytes, and one, are enough.
  unfoldable pub receive_all : ℕ → State → Option (Code × State)
  receive_all time s =
      let (ret, buffer, line) = network.receive s.receive_buffer s.line in
      let s' = record s { line = line; receive_buffer = buffer } in
      if is_success ret
      then decoded time s' buffer (decode_all crc (length buffer + 1) s.decoder_map 0 buffer false)
      else some (network_down, read false s')
