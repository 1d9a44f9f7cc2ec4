-- ===== src/Imu/PacketParser.antt =====
-- `MPU9150PacketParser` of mpu9150_packet_parser.hpp and .cpp.
pub mod Packets
use hsrb_drivers.Prelude.{
  ℕ, suc, ◌+◌, ◌-◌, ◌%◌, Bool, true, false, List, [], ◌∷◌, ◌++◌, ltb, ◌==◌, if◌then◌else◌, length,
}

abbrev sum_bytes : List ℕ → ℕ
sum_bytes [] = 0
sum_bytes (b ∷ bs) = b + sum_bytes bs

-- `~static_cast<uint8_t>(sum)`
unfoldable pub checksum : List ℕ → ℕ
checksum bytes = 255 - sum_bytes bytes % 256

pub data ParseResult : Type 0 where
  error continue done : ParseResult

pub data State : Type 0 where
  state_header1 state_header2 state_length state_data state_checksum state_nothing : State

pub record Mpu9150PacketParser : Type 0 where
  pub state : State
  pub packet : List ℕ
  pub all_packets : List ℕ
  pub packet_length : ℕ
  pub is_reply_packet : Bool

-- `Reset`
unfoldable pub reset : Mpu9150PacketParser → Mpu9150PacketParser
reset p = record p { state = state_header1; is_reply_packet = false; packet = []; all_packets = [] }

-- `packet_.push_back(input)` and a new state.
abbrev accept : Mpu9150PacketParser → ℕ → State → ParseResult × Mpu9150PacketParser
accept p input s = (continue, record p { state = s; packet = p.packet ++ input ∷ [] })

-- Back to the first header byte.
abbrev discard : Mpu9150PacketParser → ParseResult × Mpu9150PacketParser
discard p = (continue, record p { state = state_header1; packet = [] })

abbrev parse_in : State → Mpu9150PacketParser → ℕ → ParseResult × Mpu9150PacketParser
parse_in state_header1 p input =
    if input == 0x40
    then accept p input state_header2
    else (continue, record p { state = state_header1 })
parse_in state_header2 p input = if input == 0x47 then accept p input state_length else discard p
parse_in state_length p input =
    let sized = record p { packet_length = input } in
    if ltb input 1
    then discard p
    else if input == 1
    then accept sized input state_checksum
    else accept sized input state_data
parse_in state_data p input =
    let pushed = p.packet ++ input ∷ [] in
    (
      continue,
      record p {
        packet = pushed;
        state = if length pushed == p.packet_length + 2 then state_checksum else state_data;
      },
    )
parse_in state_checksum p input =
    let stored = record p {
      all_packets = p.all_packets ++ (p.packet ++ input ∷ []);
      packet = [];
    } in
    if input == checksum p.packet
    then if p.packet_length == 1
      then (done, record stored { is_reply_packet = true })
      else (continue, record stored { state = state_header1 })
    else discard p
parse_in state_nothing p input = (error, p)

unfoldable pub try_parse : Mpu9150PacketParser → ℕ → ParseResult × Mpu9150PacketParser
try_parse p input = parse_in p.state p input
