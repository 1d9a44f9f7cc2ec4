-- ===== src/Imu/Network.antt =====
-- `MPU9150Network` and `MPU9150PacketConverter` of mpu9150_network.cpp. The device, the clock and the waits
-- are the environment, given as the list of what each round of a loop observes.
pub mod Newest
pub mod Reception
use hsrb_drivers.Prelude.{
  ℕ, zero, suc, ◌+◌, ◌-◌, ◌*◌, ◌/◌, ◌%◌, ◌^◌, Bool, true, false, not, Option, none, some, List, [],
  ◌∷◌, ◌++◌, ltb, leb, ◌==◌, ◌&&◌, if◌then◌else◌, length, take, drop, get_or,
}
use hsrb_drivers.Imu.PacketParser.{
  checksum, ParseResult, error, continue, done, Mpu9150PacketParser, try_parse, reset,
}

pub data ErrorCode : Type 0 where
  success timed_out no_buffer_space protocol_error no_message_available : ErrorCode
  -- `errno` after a failed system call; it is not zero.
  errno : ℕ → ErrorCode

-- What `Send` puts into `buffer_` for up to 1019 bytes of data; the length is stored in one byte.
unfoldable pub build_packet : ℕ → List ℕ → List ℕ
build_packet instruction data_in =
    let front = 0x40 ∷ 0x47 ∷ (length data_in + 2) % 256 ∷ instruction ∷ data_in in
    front ++ checksum front ∷ []

-- What one round of the write loop observes: the answer of `write`, or the failure of the wait after EAGAIN.
pub data Write : Type 0 where
  wrote : ℕ → Write
  again : Write
  again_failed failed : ℕ → Write

-- The write loop of `Send` after `num_done` bytes of `packet_size`: the error code and the number of bytes
-- that the device took; `none` says that the rounds are used up before the loop ends.
unfoldable pub write_loop : ℕ → ℕ → ℕ → ℕ → ℕ → List (Write × ℕ) → Option (ErrorCode × ℕ)
write_loop timeout start elapsed num_done packet_size [] =
    if ltb (elapsed - start) timeout then none else some (timed_out, num_done)
write_loop timeout start elapsed num_done packet_size ((wrote n, now) ∷ rounds) =
    let more = write_loop timeout start now (num_done + n) packet_size rounds in
    if ltb (elapsed - start) timeout
    then if num_done + n == packet_size
      then some (success, num_done + n)
      else if ltb packet_size (num_done + n)
      then some (protocol_error, num_done + n)
      else if ltb now elapsed
      then some (timed_out, num_done + n)
      else more
    else some (timed_out, num_done)
write_loop timeout start elapsed num_done packet_size ((again, now) ∷ rounds) =
    let more = write_loop timeout start now num_done packet_size rounds in
    if ltb (elapsed - start) timeout
    then if ltb now elapsed then some (timed_out, num_done) else more
    else some (timed_out, num_done)
write_loop timeout start elapsed num_done packet_size ((again_failed e, now) ∷ rounds) =
    if ltb (elapsed - start) timeout then some (errno e, num_done) else some (timed_out, num_done)
write_loop timeout start elapsed num_done packet_size ((failed e, now) ∷ rounds) =
    if ltb (elapsed - start) timeout then some (errno e, num_done) else some (timed_out, num_done)

-- `Send`: the error code, and the bytes that the device took.
unfoldable pub send : ℕ → ℕ → ℕ → List ℕ → List (Write × ℕ) → Option (ErrorCode × List ℕ)
unfolding build_packet write_loop
send timeout start instruction data_in rounds =
    let packet = build_packet instruction data_in in
    if ltb 1019 (length data_in)
    then some (no_buffer_space, [])
    else elim (write_loop timeout start start 0 (length packet) rounds) [
      | none ↦ none
      | some (code, num_done) ↦ some (code, take num_done packet)
    ]

-- The loop of `Receive` over the bytes of one `read`, and the return behind it.
unfoldable pub consume : Mpu9150PacketParser → List ℕ → ErrorCode × Mpu9150PacketParser
unfolding reset
consume p [] = (if length p.all_packets == 0 then no_message_available else success, p)
consume p (b ∷ bs) =
    let (parse_result, q) = try_parse p b in
    elim parse_result [
      | done ↦ (success, q)
      | error ↦ (protocol_error, reset q)
      | continue ↦ consume q bs
    ]

-- What one round of the loop of `Receive` observes.
pub data Read : Type 0 where
  no_data : Read
  no_data_failed read_failed : ℕ → Read
  got : List ℕ → Read

unfoldable pub receive_loop :
    ℕ → ℕ → ℕ → Mpu9150PacketParser → List (Read × ℕ) → Option (ErrorCode × Mpu9150PacketParser)
unfolding consume
receive_loop timeout start elapsed p [] =
    if ltb (elapsed - start) timeout then none else some (timed_out, p)
receive_loop timeout start elapsed p ((no_data, now) ∷ rounds) =
    let more = receive_loop timeout start now p rounds in
    if ltb (elapsed - start) timeout
    then if ltb now elapsed then some (timed_out, p) else more
    else some (timed_out, p)
receive_loop timeout start elapsed p ((no_data_failed e, now) ∷ rounds) =
    if ltb (elapsed - start) timeout then some (errno e, p) else some (timed_out, p)
receive_loop timeout start elapsed p ((read_failed e, now) ∷ rounds) =
    if ltb (elapsed - start) timeout then some (errno e, p) else some (timed_out, p)
receive_loop timeout start elapsed p ((got bytes, now) ∷ rounds) =
    if ltb (elapsed - start) timeout then some (consume p bytes) else some (timed_out, p)

unfoldable pub receive :
    ℕ → ℕ → Mpu9150PacketParser → List (Read × ℕ) → Option (ErrorCode × Mpu9150PacketParser)
unfolding receive_loop reset
receive timeout start p rounds = receive_loop timeout start start (reset p) rounds

abbrev pub packet_size : ℕ
packet_size = 48

-- `SensorPacketToUInt32`, for bytes.
abbrev pub sensor_packet_to_uint32 : ℕ → ℕ → ℕ → ℕ → ℕ
sensor_packet_to_uint32 p1 p2 p3 p4 = p1 * 2 ^ 24 + p2 * 2 ^ 16 + p3 * 2 ^ 8 + p4

-- The timestamp of packet `i`. The index is a `uint32_t`, which does not wrap for the packets that `packets`
-- holds, if these are fewer than 2^32 bytes.
unfoldable pub timestamp_at : List ℕ → ℕ → ℕ
timestamp_at packets i =
    let byte : ℕ → ℕ = λ k. get_or packets (k + i * packet_size) 0 in
    sensor_packet_to_uint32 (byte 43) (byte 44) (byte 45) (byte 46)

pub record Mpu9150PacketConverter : Type 0 where
  pub last_timestamp : ℕ
  pub last_packet_num : ℕ

-- The loop of `ToSensorState`: `n` packets from packet `i` on.
unfoldable pub latest : List ℕ → ℕ → ℕ → Mpu9150PacketConverter → Mpu9150PacketConverter
latest packets zero i c = c
latest packets (suc n) i c =
    let current_timestamp = timestamp_at packets i in
    latest packets n (i + 1) (
      if ltb c.last_timestamp current_timestamp
      then record { last_timestamp = current_timestamp; last_packet_num = i }
      else c)

-- What `ToSensorState` does with the packets: nothing, the conversion of the bytes of one packet, or a
-- copy from a range that `packets` does not hold.
pub data Selection : Type 0 where
  ignored out_of_range : Selection
  selected : List ℕ → Selection

-- `start` and `end` are `uint32_t`.
unfoldable pub to_sensor_state :
    List ℕ → Mpu9150PacketConverter → Selection × Mpu9150PacketConverter
unfolding latest
to_sensor_state packets c =
    let count = length packets / packet_size in
    let c' = latest packets count 0 c in
    let start = c'.last_packet_num * packet_size % 2 ^ 32 in
    let end = (c'.last_packet_num * packet_size + packet_size) % 2 ^ 32 in
    if not (length packets % packet_size == 0)
    then (ignored, c)
    else if leb start end && leb end (length packets)
    then (selected (take (end - start) (drop start packets)), c')
    else (out_of_range, c')
