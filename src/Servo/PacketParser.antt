-- ===== src/Servo/PacketParser.antt =====
-- `ExxxPacketParser` of exxx_packet_parser.hpp: the status packets of the servo amplifiers, parsed a
-- byte at a time.
pub mod Invariant
use hsrb_drivers.Prelude.{
  ℕ, ◌+◌, ◌*◌, List, [], ◌∷◌, ◌++◌, ltb, leb, ◌==◌, if◌then◌else◌, length, get_or, drop, contains,
}
use hsrb_drivers.Servo.Checksum.{checksum}

pub data Status : Type 0 where
  error continue done : Status

pub data State : Type 0 where
  state_header1 state_header2 state_node_id state_length1 state_length2 : State
  state_error_status1 state_error_status2 state_data state_checksum state_parser_error : State

pub record ExxxPacketParser : Type 0 where
  pub state : State
  pub packet : List ℕ
  pub valid_ids : List ℕ

-- The constructor.
abbrev pub init : ExxxPacketParser
init = record { state = state_header1; packet = []; valid_ids = [] }

abbrev pub reset : ExxxPacketParser → ExxxPacketParser
reset p = record p { state = state_header1; packet = [] }

abbrev pub add_id : ℕ → ExxxPacketParser → ExxxPacketParser
add_id id p = record p { valid_ids = p.valid_ids ++ id ∷ [] }

abbrev pub clear_ids : ExxxPacketParser → ExxxPacketParser
clear_ids p = record p { valid_ids = [] }

-- `*reinterpret_cast<uint16_t*>(&packet_[i])` on a little-endian machine.
abbrev pub uint16_at : List ℕ → ℕ → ℕ
uint16_at packet i = get_or packet i 0 + 256 * get_or packet (i + 1) 0

-- `packet_.push_back(input); state_ = s; return kContinue;`
abbrev accept : ExxxPacketParser → ℕ → State → Status × ExxxPacketParser
accept p input s = (continue, record p { state = s; packet = p.packet ++ input ∷ [] })

-- `state_ = kStateParserError; return kError;`
abbrev reject : ExxxPacketParser → Status × ExxxPacketParser
reject p = (error, record p { state = state_parser_error })

-- The cases of the `switch`.
abbrev parse_in : State → ExxxPacketParser → ℕ → Status × ExxxPacketParser
parse_in state_header1 p input = if input == 0xAA then accept p input state_header2 else (error, p)
parse_in state_header2 p input = if input == 0x55 then accept p input state_node_id else reject p
parse_in state_node_id p input =
    if contains p.valid_ids input then accept p input state_length1 else reject p
parse_in state_length1 p input = accept p input state_length2
parse_in state_length2 p input =
    let pushed = p.packet ++ input ∷ [] in
    if ltb (uint16_at pushed 3) 3
    then (error, record p { state = state_parser_error; packet = pushed })
    else (continue, record p { state = state_error_status1; packet = pushed })
parse_in state_error_status1 p input = accept p input state_error_status2
parse_in state_error_status2 p input =
    accept p input (if uint16_at p.packet 3 == 3 then state_checksum else state_data)
parse_in state_data p input =
    let pushed = p.packet ++ input ∷ [] in
    (
      continue,
      record p {
        state =
            if leb (uint16_at p.packet 3 + 4) (length pushed) then state_checksum else state_data;
        packet = pushed;
      },
    )
parse_in state_checksum p input =
    if input == checksum (drop 2 p.packet)
    then (done, record p { packet = p.packet ++ input ∷ [] })
    else (error, p)
parse_in state_parser_error p input = (error, p)

unfoldable pub try_parse : ExxxPacketParser → ℕ → Status × ExxxPacketParser
try_parse p input = parse_in p.state p input
