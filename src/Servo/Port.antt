-- ===== src/Servo/Port.antt =====
-- `ExxxNetwork` as the `INetwork` of `ExxxProtocol`: the protocol on a serial line.
use hsrb_drivers.Prelude.{
  ℕ, ◌+◌, ◌*◌, ◌<◌, ◌≡◌, ◌≢◌, sym, false, Option, none, some, List, [], ◌∷◌, ◌++◌, All, length,
  arith,
}
use hsrb_drivers.Servo.PacketParser.{ExxxPacketParser, state_checksum}
use hsrb_drivers.Servo.PacketParser.Invariant.{at}
use hsrb_drivers.Servo.Network.{ErrorCode, success, Write, Read, send, receive, low_byte, high_byte}
use hsrb_drivers.Servo.Network.Consume.{status_packet_of}
use hsrb_drivers.Servo.Network.Receive.{answer, reads, joined, InTime, receive-status_packet_of}
use mathlib.Core.Path.{subst}
use hsrb_drivers.Servo.Protocol.Blocks.{read_block_run}
use hsrb_drivers.Servo.Protocol.{
  INetwork, ExxxProtocol, read_block, instruction_read_data, is_system_error,
}

-- `ExxxNetwork`, with what its next calls will observe: for each call the clock at its start and the
-- rounds of its loop. `wire` is what the device has taken so far.
pub record ExxxNetwork : Type 0 where
  pub timeout : ℕ
  pub parser : ExxxPacketParser
  pub sends : List (ℕ × List (Write × ℕ))
  pub receives : List (ℕ × List (Read × ℕ))
  pub wire : List ℕ

-- `receive_buffer_.reserve(kMaxPacketBuffer)`
abbrev pub max_packet_buffer : ℕ
max_packet_buffer = 65535

abbrev send_next :
    ℕ → ℕ → List ℕ → ExxxNetwork → List (ℕ × List (Write × ℕ)) → Option (ErrorCode × ExxxNetwork)
send_next id inst data_in n [] = none
send_next id inst data_in n ((start, rounds) ∷ later) =
    elim (send n.timeout start id inst data_in rounds) [
      | none ↦ none
      | some (code, sent) ↦ some (code, record n { sends = later; wire = n.wire ++ sent })
    ]

abbrev receive_next :
    ℕ
    → List ℕ
    → ExxxNetwork
    → List (ℕ × List (Read × ℕ))
    → Option (ErrorCode × List ℕ × ExxxNetwork)
receive_next id data_out n [] = none
receive_next id data_out n ((start, rounds) ∷ later) =
    elim (receive n.timeout start id max_packet_buffer data_out n.parser rounds) [
      | none ↦ none
      | some (code, out, parser) ↦ some (code, out, record n { receives = later; parser = parser })
    ]

abbrev pub exxx_network : INetwork
exxx_network = record {
  Line = ExxxNetwork;
  send = λ id inst data_in n. send_next id inst data_in n n.sends;
  receive = λ id data_out n. receive_next id data_out n n.receives;
}

answer-fine : (e : ℕ) → is_system_error (answer e) ≡ false
answer-fine e = ground arith

-- If the request of a `ReadBlock` is sent, and the reads that follow bring, within the timeout, a status
-- packet of the node with as many parameters as bytes are asked for, behind bytes other than 0xAA, then
-- `ReadBlock` returns the parameters and the error status of the packet, and the bytes of the request are
-- on the line.
pub read_block_answered :
    (id addr l1 l2 e1 e2 start : ℕ) (params junk rest : List ℕ) (chunks : List (List ℕ × ℕ))
    (p : ExxxProtocol ExxxNetwork) (start_send : ℕ) (rounds : List (Write × ℕ))
    (sends : List (ℕ × List (Write × ℕ))) (receives : List (ℕ × List (Read × ℕ))) (sent : List ℕ)
    → p.line.sends ≡ (start_send, rounds) ∷ sends
    → p.line.receives ≡ (start, reads chunks) ∷ receives
    → send p.line.timeout start_send id instruction_read_data
        (low_byte addr ∷ high_byte addr ∷ low_byte (length params) ∷ high_byte (length params) ∷ [])
        rounds
      ≡ some (success, sent)
    → length params + 3 ≡ l1 + 256 * l2
    → l1 + 256 * l2 < 65536
    → All (λ b. b ≢ 0xAA) junk
    → joined chunks ≡ junk ++ (status_packet_of id l1 l2 e1 e2 params ++ rest)
    → InTime p.line.timeout start start chunks
    → read_block exxx_network id addr (length params) p
      ≡ some (
        (answer (e1 + 256 * e2), some params),
        record {
          line = record (p.line) {
            sends = sends;
            receives = receives;
            parser = at state_checksum (status_packet_of id l1 l2 e1 e2 params) (id ∷ []);
            wire = p.line.wire ++ sent;
          };
          receive_buffer = params;
        },
      )
read_block_answered id addr l1 l2 e1 e2 start params junk rest chunks p start_send rounds sends
      receives sent hs hr ok h small skip whole t =
    read_block_run exxx_network id addr p sent_line final (answer (e1 + 256 * e2)) params taken
      given (answer-fine (e1 + 256 * e2))
  where
    sent_line : ExxxNetwork
    sent_line = record (p.line) { sends = sends; wire = p.line.wire ++ sent }

    final : ExxxNetwork
    final = record sent_line {
      receives = receives;
      parser = at state_checksum (status_packet_of id l1 l2 e1 e2 params) (id ∷ []);
    }

    taken :
        send_next id instruction_read_data
          (low_byte addr
            ∷ high_byte addr
            ∷ low_byte (length params)
            ∷ high_byte (length params)
            ∷ [])
          p.line
          p.line.sends
        ≡ some (success, sent_line)
    taken =
        subst
          (λ s.
            send_next id instruction_read_data
              (low_byte addr
                ∷ high_byte addr
                ∷ low_byte (length params)
                ∷ high_byte (length params)
                ∷ [])
              p.line s
            ≡ some (success, sent_line))
          (sym hs) (rw (ok, send_next))

    given :
        receive_next id p.receive_buffer sent_line p.line.receives
        ≡ some (answer (e1 + 256 * e2), params, final)
    given =
        subst
          (λ s.
            receive_next id p.receive_buffer sent_line s
            ≡ some (answer (e1 + 256 * e2), params, final))
          (sym hr)
          (rw (
            receive-status_packet_of p.line.timeout start max_packet_buffer id l1 l2 e1 e2 params
                junk rest p.receive_buffer p.line.parser chunks h small (omega arith) skip whole t,
            receive_next,
          ))
