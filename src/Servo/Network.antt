-- ===== src/Servo/Network.antt =====
-- `ExxxNetwork` of exxx_network.cpp: one packet is sent, one status packet is received. The device, the
-- clock and the waits are the environment, given as the list of what each round of a loop observes.
pub mod Consume
pub mod Sound
pub mod Receive
pub mod Send
use hsrb_drivers.Prelude.{
  ℕ, zero, suc, ◌+◌, ◌-◌, ◌%◌, ◌/◌, ◌*◌, Bool, true, false, Option, none, some, List, [], ◌∷◌, ◌++◌,
  ltb, leb, ◌==◌, if◌then◌else◌, length, take, drop,
}
use hsrb_drivers.Servo.Checksum.{checksum}
use hsrb_drivers.Servo.PacketParser.{
  ExxxPacketParser, Status, error, continue, done, try_parse, reset, clear_ids, add_id, uint16_at,
}

-- `boost::system::error_code`: the system category by its value, or the warnings of the amplifier.
pub data ErrorCode : Type 0 where
  success timed_out no_buffer_space bad_message message_size protocol_error invalid_argument :
      ErrorCode
  -- `errno` after a failed system call; it is not zero.
  errno : ℕ → ErrorCode
  -- `ExxxWarningCategory()` with the 16 bits of the packet's error status, which are not zero.
  exxx_warning : ℕ → ErrorCode

-- The bytes of `std::array<uint8_t, 260> buffer_`.
abbrev pub buffer_size : ℕ
buffer_size = 260

-- The little-endian bytes of a `uint16_t`.
abbrev pub low_byte : ℕ → ℕ
low_byte n = n % 256

abbrev pub high_byte : ℕ → ℕ
high_byte n = n / 256 % 256

-- What `Send` puts into `buffer_`: each of the first `length` places is written once. `none` is a
-- write behind the end of `buffer_`.
unfoldable pub build_packet : ℕ → ℕ → List ℕ → Option (List ℕ)
build_packet id inst data_in =
    let data_bytes = length data_in in
    let field = data_bytes + 1 + 1 in
    let body = id ∷ low_byte field ∷ high_byte field ∷ inst ∷ data_in in
    if leb (data_bytes + 9) buffer_size
    then some (0xAA ∷ 0x55 ∷ (body ++ checksum body ∷ 0x00 ∷ 0x00 ∷ []))
    else none

-- What one round of the write loop observes: the answer of `write` (`sleep` is the outcome of the
-- wait after EAGAIN), and the clock at the end of the round.
pub data Write : Type 0 where
  wrote : ℕ → Write
  again : Write
  again_failed : ℕ → Write
  failed : ℕ → Write

-- The write loop of `Send`, after `num_done` bytes: the error code and the bytes that the device has
-- taken. `none` says that the list of rounds is used up before the loop ends. The clock never goes back
-- within the loop, so `elapsed - start` is no negative number.
unfoldable pub write_loop :
    ℕ → ℕ → ℕ → ℕ → List ℕ → List ℕ → List (Write × ℕ) → Option (ErrorCode × List ℕ)
write_loop timeout start elapsed num_done packet sent [] =
    if ltb (elapsed - start) timeout then none else some (timed_out, sent)
write_loop timeout start elapsed num_done packet sent ((wrote n, now) ∷ rounds) =
    let taken = sent ++ take n (drop num_done packet) in
    let more = write_loop timeout start now (num_done + n) packet taken rounds in
    if ltb (elapsed - start) timeout
    then if num_done + n == length packet
      then some (success, taken)
      else if ltb now elapsed
      then some (timed_out, taken)
      else more
    else some (timed_out, sent)
write_loop timeout start elapsed num_done packet sent ((again, now) ∷ rounds) =
    let more = write_loop timeout start now num_done packet sent rounds in
    if ltb (elapsed - start) timeout
    then if ltb now elapsed then some (timed_out, sent) else more
    else some (timed_out, sent)
write_loop timeout start elapsed num_done packet sent ((again_failed e, now) ∷ rounds) =
    if ltb (elapsed - start) timeout then some (errno e, sent) else some (timed_out, sent)
write_loop timeout start elapsed num_done packet sent ((failed e, now) ∷ rounds) =
    if ltb (elapsed - start) timeout then some (errno e, sent) else some (timed_out, sent)

-- `Send`: `none` too if the packet does not fit `buffer_`.
unfoldable pub send : ℕ → ℕ → ℕ → ℕ → List ℕ → List (Write × ℕ) → Option (ErrorCode × List ℕ)
send timeout start id inst data_in rounds = elim (build_packet id inst data_in) [
  | none ↦ none
  | some packet ↦ write_loop timeout start start 0 packet [] rounds
]

-- The loop of `Receive` over the bytes that `read` returned. `true` is the `return` after `kDone`; the
-- bytes behind a complete packet are dropped.
unfoldable pub consume : ExxxPacketParser → List ℕ → Bool × ExxxPacketParser
consume p [] = (false, p)
consume p (b ∷ bs) =
    let (status, q) = try_parse p b in
    elim status [ done ↦ (true, q) | error ↦ consume (reset q) bs | continue ↦ consume q bs ]

-- What one round of the loop of `Receive` observes: `ppoll` times out or fails, `read` fails, or it
-- returns bytes.
pub data Read : Type 0 where
  no_data : Read
  poll_failed read_failed : ℕ → Read
  got : List ℕ → Read

-- The code after `kDone`: the parameters go to `data_out`, whose capacity is checked first.
unfoldable pub deliver : ℕ → List ℕ → List ℕ → ErrorCode × List ℕ
deliver capacity packet data_out =
    let parameter_size = (uint16_at packet 3 + 65536 - 3) % 65536 in
    let error_status = uint16_at packet 5 in
    if ltb capacity parameter_size then (no_buffer_space, data_out) else (
      if error_status == 0 then success else exxx_warning error_status,
      take parameter_size (drop 7 packet),
    )

-- The loop of `Receive`: the error code, `data_out` and the parser; `none` as for `write_loop`.
unfoldable pub receive_loop :
    ℕ
    → ℕ
    → ℕ
    → ℕ
    → List ℕ
    → ExxxPacketParser
    → List (Read × ℕ)
    → Option (ErrorCode × List ℕ × ExxxPacketParser)
receive_loop timeout start elapsed capacity data_out p [] =
    if ltb (elapsed - start) timeout then none else some (timed_out, data_out, p)
receive_loop timeout start elapsed capacity data_out p ((no_data, now) ∷ rounds) =
    some (timed_out, data_out, p)
receive_loop timeout start elapsed capacity data_out p ((poll_failed e, now) ∷ rounds) =
    if ltb (elapsed - start) timeout
    then some (errno e, data_out, p)
    else some (timed_out, data_out, p)
receive_loop timeout start elapsed capacity data_out p ((read_failed e, now) ∷ rounds) =
    if ltb (elapsed - start) timeout
    then some (errno e, data_out, p)
    else some (timed_out, data_out, p)
receive_loop timeout start elapsed capacity data_out p ((got bytes, now) ∷ rounds) =
    let (finished, q) = consume p bytes in
    let (code, out) = deliver capacity q.packet data_out in
    let more = receive_loop timeout start now capacity data_out q rounds in
    if ltb (elapsed - start) timeout
    then if finished
      then some (code, out, q)
      else if ltb now elapsed
      then some (timed_out, data_out, q)
      else more
    else some (timed_out, data_out, p)

unfoldable pub receive :
    ℕ
    → ℕ
    → ℕ
    → ℕ
    → List ℕ
    → ExxxPacketParser
    → List (Read × ℕ)
    → Option (ErrorCode × List ℕ × ExxxPacketParser)
receive timeout start id capacity data_out p rounds =
    receive_loop timeout start start capacity data_out (add_id id (clear_ids (reset p))) rounds
