-- ===== src/Servo/Samples.antt =====
-- Runs of the servo code on concrete packets and lines.
use hsrb_drivers.Prelude.{ℕ, zero, suc, ◌≡◌, refl, false, some, List, [], ◌∷◌, length, arith}
use hsrb_drivers.Servo.Checksum.{checksum}
use hsrb_drivers.Servo.PacketParser.{
  ExxxPacketParser, init, try_parse, state_node_id, state_checksum,
}
use hsrb_drivers.Servo.PacketParser.Invariant.{
  at, opened, status_body, IsWellFormed, IsStatusPacket, in_node_id, in_checksum,
  try_parse-IsWellFormed, try_parse-IsStatusPacket,
}
use hsrb_drivers.Servo.Network.{
  success, exxx_warning, Write, wrote, again, Read, got, build_packet, write_loop, receive_loop,
  send, consume, deliver, receive,
}
use hsrb_drivers.Servo.Network.Consume.{status_packet_of}
use hsrb_drivers.Servo.Network.Sound.{Within}
use hsrb_drivers.Servo.Network.Receive.{
  answer, reads, stream, receive-status_packet_of, receive-Within,
}
use hsrb_drivers.Servo.Network.Send.{instruction_packet}
use hsrb_drivers.Servo.Protocol.{INetwork, ExxxProtocol, read_block, is_system_error}
use hsrb_drivers.Servo.Protocol.Blocks.{read_block_exact}
use hsrb_drivers.Servo.Port.{ExxxNetwork, exxx_network, read_block_answered}

-- Node 3 answers with the parameters 7 and 8; two bytes of noise before, one byte behind.
abbrev params : List ℕ
params = 7 ∷ 8 ∷ []

abbrev answered : List ℕ
answered = 0xAA ∷ 0x55 ∷ 3 ∷ 5 ∷ 0 ∷ 0 ∷ 0 ∷ 7 ∷ 8 ∷ 232 ∷ []

abbrev chunks : List (List ℕ × ℕ)
chunks = (1 ∷ 2 ∷ 0xAA ∷ [], 10) ∷ (0x55 ∷ 3 ∷ 5 ∷ 0 ∷ 0 ∷ 0 ∷ 7 ∷ 8 ∷ 232 ∷ 9 ∷ [], 20) ∷ []

receive-status_packet_of_example :
    receive 100 0 3 64 [] init (reads chunks)
    ≡ some (answer 0, params, at state_checksum (status_packet_of 3 5 0 0 0 params) (3 ∷ []))
unfolding checksum
receive-status_packet_of_example =
    receive-status_packet_of 100 0 64 3 5 0 0 0 params (1 ∷ 2 ∷ []) (9 ∷ []) [] init chunks refl
      (omega arith) (omega arith) ((λ e. omega arith), ((λ e. omega arith), tt)) refl
      (omega arith, omega arith, (omega arith, omega arith, tt))

-- The same answer with a warning of the node.
abbrev warned : ExxxPacketParser
warned = at state_checksum (0xAA ∷ 0x55 ∷ 3 ∷ 3 ∷ 0 ∷ 2 ∷ 0 ∷ 247 ∷ []) (3 ∷ [])

abbrev warned_rounds : List (Read × ℕ)
warned_rounds = (got (0xAA ∷ 0x55 ∷ 3 ∷ 3 ∷ 0 ∷ 2 ∷ 0 ∷ 247 ∷ []), 10) ∷ []

warned_run : receive 100 0 3 64 [] init warned_rounds ≡ some (exxx_warning 2, [], warned)
unfolding receive receive_loop consume deliver try_parse checksum
warned_run = refl

receive-Within_example :
    Within (3 ∷ []) warned.packet (stream warned_rounds)
    × (deliver 64 warned.packet [] ≡ (exxx_warning 2, []))
receive-Within_example =
    receive-Within 100 0 3 64 [] init warned_rounds (exxx_warning 2) [] warned warned_run refl

try_parse-IsWellFormed_example :
    IsWellFormed (try_parse (at state_node_id (opened []) (3 ∷ [])) 3).1
try_parse-IsWellFormed_example =
    try_parse-IsWellFormed (at state_node_id (opened []) (3 ∷ [])) 3 in_node_id
      (λ e. unfold try_parse in ground arith)

try_parse-IsStatusPacket_example :
    IsStatusPacket
      (3 ∷ [])
      (try_parse (at state_checksum (opened (status_body 3 5 0 0 0 params)) (3 ∷ [])) 232).1.packet
try_parse-IsStatusPacket_example =
    try_parse-IsStatusPacket (at state_checksum (opened (status_body 3 5 0 0 0 params)) (3 ∷ []))
      232 (in_checksum refl refl) (unfold try_parse checksum in refl)

-- A ping of node 3: 9 bytes, of which the device takes 4 and then the rest.
abbrev ping_packet : List ℕ
ping_packet = 0xAA ∷ 0x55 ∷ 3 ∷ 2 ∷ 0 ∷ 1 ∷ 249 ∷ 0 ∷ 0 ∷ []

abbrev ping_rounds : List (Write × ℕ)
ping_rounds = (wrote 4, 1) ∷ (again, 2) ∷ (wrote 5, 3) ∷ []

ping_run : send 10 0 3 1 [] ping_rounds ≡ some (success, ping_packet)
unfolding send build_packet write_loop checksum
ping_run = refl

-- A line whose node answers every instruction with the bytes that the line holds.
abbrev echo : INetwork
echo = record {
  Line = List ℕ;
  send = λ id inst data_in line. some (success, line);
  receive = λ id data_out line. some (success, line, line);
}

abbrev zeros : ℕ → List ℕ
zeros zero = []
zeros (suc n) = 0 ∷ zeros n

abbrev holding : List ℕ → ExxxProtocol (List ℕ)
holding bytes = record { line = bytes; receive_buffer = [] }

abbrev received_from : List ℕ → ExxxProtocol (List ℕ)
received_from bytes = record { line = bytes; receive_buffer = bytes }

read_run :
    read_block echo 3 16 2 (holding params) ≡ some ((success, some params), received_from params)
unfolding read_block
read_run = refl

read_block_exact_example :
    ((bytes : List ℕ)
      → some params ≡ some bytes
      → (length bytes ≡ 2) × (bytes ≡ params) × (is_system_error success ≡ false))
    × (success ≡ success → some params ≡ some params)
read_block_exact_example =
    read_block_exact echo 3 16 2 (holding params) (received_from params) success (some params)
      read_run

-- The protocol on a serial line: node 3 is asked for two bytes at address 16.
abbrev request : List ℕ
request = instruction_packet 3 2 (16 ∷ 0 ∷ 2 ∷ 0 ∷ [])

abbrev request_rounds : List (Write × ℕ)
request_rounds = (wrote 13, 1) ∷ []

request_run : send 100 0 3 2 (16 ∷ 0 ∷ 2 ∷ 0 ∷ []) request_rounds ≡ some (success, request)
unfolding send build_packet write_loop checksum
request_run = refl

abbrev port : ExxxProtocol ExxxNetwork
port = record {
  line = record {
    timeout = 100;
    parser = init;
    sends = (0, request_rounds) ∷ [];
    receives = (0, reads chunks) ∷ [];
    wire = [];
  };
  receive_buffer = [];
}

read_block_answered_example :
    read_block exxx_network 3 16 2 port
    ≡ some (
      (answer 0, some params),
      record {
        line = record {
          timeout = 100;
          parser = at state_checksum (status_packet_of 3 5 0 0 0 params) (3 ∷ []);
          sends = [];
          receives = [];
          wire = request;
        };
        receive_buffer = params;
      },
    )
unfolding checksum
read_block_answered_example =
    read_block_answered 3 16 5 0 0 0 0 params (1 ∷ 2 ∷ []) (9 ∷ []) chunks port 0 request_rounds []
      [] request refl refl request_run refl (omega arith)
      ((λ e. omega arith), ((λ e. omega arith), tt)) refl
      (omega arith, omega arith, (omega arith, omega arith, tt))
