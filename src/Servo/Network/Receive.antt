-- ===== src/Servo/Network/Receive.antt =====
-- `ExxxNetwork::Receive`: it delivers the packet that stands in the stream, however the stream is cut
-- into reads, and nothing else; with a clock that moves it ends.
use hsrb_drivers.Prelude.{
  Ticks, ℕ, ◌+◌, ◌-◌, ◌*◌, ◌%◌, ◌≤◌, ◌<◌, ◌≡◌, ◌≢◌, ap, ◌∙◌, Bool, true, false, some, none, List,
  [], ◌∷◌, ◌++◌, All, length, arith, ltb, ◌==◌, if◌then◌else◌, lt→ltb, le→ltb, take-append, ==_self,
}
use hsrb_drivers.Servo.PacketParser.{ExxxPacketParser, state_header1, state_checksum}
use hsrb_drivers.Servo.PacketParser.Invariant.{at}
use hsrb_drivers.Servo.Network.{
  ErrorCode, success, no_buffer_space, exxx_warning, Read, got, consume, deliver, receive_loop,
  receive,
}
use hsrb_drivers.Servo.Network.Consume.{
  status_packet_of, consume-append, consume_skip, consume_packet,
}
use hsrb_drivers.Servo.Network.Sound.{Within, consume-Within}
use hsrb_drivers.Servo.PacketParser.Invariant.{in_header1}

-- What the caller sees of a status packet.
abbrev pub answer : ℕ → ErrorCode
answer e = if e == 0 then success else exxx_warning e

-- `deliver` hands out the parameters and the error status of a packet, or refuses for lack of room.
pub deliver-status_packet_of :
    (capacity id l1 l2 e1 e2 : ℕ) (params data_out : List ℕ)
    → length params + 3 ≡ l1 + 256 * l2
    → l1 + 256 * l2 < 65536
    → deliver capacity (status_packet_of id l1 l2 e1 e2 params) data_out ≡ (
        if ltb capacity (length params)
        then (no_buffer_space, data_out)
        else (answer (e1 + 256 * e2), params))
unfolding deliver
deliver-status_packet_of capacity id l1 l2 e1 e2 params data_out h small =
    let size : (l1 + 256 * l2 + 65536 - 3) % 65536 ≡ length params = omega arith in
    rw (size, take-append params)

-- Successful reads, each with the clock after it; what they bring, in one piece.
abbrev pub reads : List (List ℕ × ℕ) → List (Read × ℕ)
reads [] = []
reads ((bytes, now) ∷ chunks) = (got bytes, now) ∷ reads chunks

abbrev pub joined : List (List ℕ × ℕ) → List ℕ
joined [] = []
joined ((bytes, now) ∷ chunks) = bytes ++ joined chunks

-- The reads are made within the timeout, and the clock does not go back.
abbrev pub InTime : ℕ → ℕ → ℕ → List (List ℕ × ℕ) → Type 0
InTime timeout start elapsed [] = Unit {0}
InTime timeout start elapsed ((bytes, now) ∷ chunks) =
    (elapsed - start < timeout) × (elapsed ≤ now) × InTime timeout start now chunks

-- Reads that bring a packet end the loop with the code and the data of that packet.
receive_loop_delivers :
    (timeout start elapsed capacity : ℕ) (data_out : List ℕ) (p q : ExxxPacketParser)
    (chunks : List (List ℕ × ℕ))
    → InTime timeout start elapsed chunks
    → consume p (joined chunks) ≡ (true, q)
    → receive_loop timeout start elapsed capacity data_out p (reads chunks)
      ≡ some ((deliver capacity q.packet data_out).0, (deliver capacity q.packet data_out).1, q)
unfolding receive_loop
receive_loop_delivers timeout start elapsed capacity data_out p q [] t e = unfold consume in cc
receive_loop_delivers timeout start elapsed capacity data_out p q ((bytes, now) ∷ chunks) t e =
    rw (lt→ltb _ _ t.0, le→ltb _ _ t.1)
      (ground (
        arith,
        consume-append p bytes (joined chunks),
        receive_loop_delivers timeout start now capacity data_out (consume p bytes).1 q chunks t.2,
      ))

-- A status packet of the node that is asked, whose length fields count the parameters and three more
-- bytes, and whose parameters fit the capacity, is delivered: its parameters and its error status. The
-- reads may cut the stream anywhere, are made within the timeout with a clock that does not go back, and
-- bring the packet behind bytes other than 0xAA and before any others.
pub receive-status_packet_of :
    (timeout start capacity id l1 l2 e1 e2 : ℕ) (params junk rest data_out : List ℕ)
    (p : ExxxPacketParser) (chunks : List (List ℕ × ℕ))
    → length params + 3 ≡ l1 + 256 * l2
    → l1 + 256 * l2 < 65536
    → length params ≤ capacity
    → All (λ b. b ≢ 0xAA) junk
    → joined chunks ≡ junk ++ (status_packet_of id l1 l2 e1 e2 params ++ rest)
    → InTime timeout start start chunks
    → receive timeout start id capacity data_out p (reads chunks)
      ≡ some (
        answer (e1 + 256 * e2),
        params,
        at state_checksum (status_packet_of id l1 l2 e1 e2 params) (id ∷ []),
      )
unfolding receive
receive-status_packet_of timeout start capacity id l1 l2 e1 e2 params junk rest data_out p chunks h
      small room skip whole t =
    receive_loop_delivers timeout start start capacity data_out _ _ chunks t found
    ∙ ap (λ r. some (r.0, r.1, final)) given
  where
    final : ExxxPacketParser
    final = at state_checksum (status_packet_of id l1 l2 e1 e2 params) (id ∷ [])

    found : consume (at state_header1 [] (id ∷ [])) (joined chunks) ≡ (true, final)
    found = rw whole (
        consume_skip (id ∷ []) junk _ skip
        ∙ consume_packet (id ∷ []) id l1 l2 e1 e2 params rest (rw (==_self id)) h)

    given :
        deliver capacity (status_packet_of id l1 l2 e1 e2 params) data_out
        ≡ (answer (e1 + 256 * e2), params)
    given =
        deliver-status_packet_of capacity id l1 l2 e1 e2 params data_out h small
        ∙ rw (le→ltb capacity (length params) room)

-- All the bytes that the rounds of a call read.
abbrev pub stream : List (Read × ℕ) → List ℕ
stream [] = []
stream ((got bytes, now) ∷ rounds) = bytes ++ stream rounds
stream ((_, now) ∷ rounds) = stream rounds

-- The codes that stand for an answer of the node.
abbrev pub is_answer : ErrorCode → Bool
is_answer success = true
is_answer (exxx_warning e) = true
is_answer _ = false

receive_loop_sound :
    (timeout start elapsed capacity : ℕ) (data_out : List ℕ) (p : ExxxPacketParser)
    (rounds : List (Read × ℕ)) (code : ErrorCode) (out : List ℕ) (q : ExxxPacketParser)
    → receive_loop timeout start elapsed capacity data_out p rounds ≡ some (code, out, q)
    → is_answer code ≡ true
    → (consume p (stream rounds) ≡ (true, q)) × (deliver capacity q.packet data_out ≡ (code, out))
unfolding receive_loop
receive_loop_sound timeout start elapsed capacity data_out p ((got bytes, now) ∷ rounds) code out q
      e a =
    ground (
      arith,
      consume-append p bytes (stream rounds),
      receive_loop_sound timeout start now capacity data_out (consume p bytes).1 rounds code out q,
    )
receive_loop_sound timeout start elapsed capacity data_out p [] code out q e a =
    absurd (ground arith)
receive_loop_sound timeout start elapsed capacity data_out p ((_, now) ∷ rounds) code out q e a =
    absurd (ground arith)

-- Whenever `ExxxNetwork::Receive` returns success or a warning of the amplifier, a complete packet of the
-- node that is asked stands in the bytes read, and the code and the data are those of this packet.
pub receive-Within :
    (timeout start id capacity : ℕ) (data_out : List ℕ) (p : ExxxPacketParser)
    (rounds : List (Read × ℕ)) (code : ErrorCode) (out : List ℕ) (q : ExxxPacketParser)
    → receive timeout start id capacity data_out p rounds ≡ some (code, out, q)
    → is_answer code ≡ true
    → Within (id ∷ []) q.packet (stream rounds) × (deliver capacity q.packet data_out ≡ (code, out))
unfolding receive
receive-Within timeout start id capacity data_out p rounds code out q e a =
    let (found, given) =
      receive_loop_sound timeout start start capacity data_out _ rounds code out q e a in
    let w : Within (id ∷ []) (consume (at state_header1 [] (id ∷ [])) (stream rounds)).1.packet
        (stream rounds) =
      consume-Within (at state_header1 [] (id ∷ [])) (stream rounds) in_header1
        (ap (λ r. r.0) found) in
    (rw found at w, given)

receive_loop_ends :
    (timeout start elapsed capacity : ℕ) (data_out : List ℕ) (p : ExxxPacketParser)
    (rounds : List (Read × ℕ))
    → Ticks elapsed rounds
    → start ≤ elapsed
    → start + timeout ≤ elapsed + length rounds
    → receive_loop timeout start elapsed capacity data_out p rounds ≢ none
unfolding receive_loop
receive_loop_ends timeout start elapsed capacity data_out p ((got bytes, now) ∷ rounds) t h m e =
    ground (arith, receive_loop_ends timeout start now capacity data_out (consume p bytes).1 rounds)
receive_loop_ends timeout start elapsed capacity data_out p [] t h m e = ground arith
receive_loop_ends timeout start elapsed capacity data_out p ((_, now) ∷ rounds) t h m e =
    ground arith

-- `ExxxNetwork::Receive` ends within `timeout` rounds, if the clock moves in each of them.
receive-ne-none :
    (timeout start id capacity : ℕ) (data_out : List ℕ) (p : ExxxPacketParser)
    (rounds : List (Read × ℕ))
    → Ticks start rounds
    → timeout ≤ length rounds
    → receive timeout start id capacity data_out p rounds ≢ none
unfolding receive
receive-ne-none timeout start id capacity data_out p rounds t m =
    receive_loop_ends timeout start start capacity data_out _ rounds t (omega arith) (omega arith)
