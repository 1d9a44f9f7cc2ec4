-- ===== src/Servo/Protocol.antt =====
-- `ExxxProtocol` of exxx_protocol.hpp and exxx_protocol.cpp: the instructions, over the interface
-- `INetwork` of network.hpp.
pub mod Blocks
use hsrb_drivers.Prelude.{
  ℕ, ◌+◌, ◌%◌, Bool, true, false, Option, none, some, List, [], ◌∷◌, ◌++◌, ◌||◌, ◌&&◌, not, ltb,
  ◌==◌, if◌then◌else◌, length, take, drop,
}
use hsrb_drivers.Servo.Network.{
  ErrorCode, success, timed_out, no_buffer_space, bad_message, message_size, protocol_error,
  invalid_argument, errno, exxx_warning, low_byte, high_byte,
}

-- `INetwork`: `Send` and `Receive` on the state of the line. `Receive` is given the vector that it may
-- overwrite. `none` is a call that does not come back.
pub record INetwork : Type 1 where
  pub Line : Type 0
  pub send : ℕ → ℕ → List ℕ → Line → Option (ErrorCode × Line)
  pub receive : ℕ → List ℕ → Line → Option (ErrorCode × List ℕ × Line)

-- `error.category() == system_category() && error`
abbrev pub is_system_error : ErrorCode → Bool
is_system_error success = false
is_system_error (exxx_warning e) = false
is_system_error _ = true

-- `if (error)`
abbrev pub is_error : ErrorCode → Bool
is_error success = false
is_error _ = true

-- ETIMEDOUT of Linux, the value of `boost::system::errc::timed_out`.
abbrev pub value_timed_out : ℕ
value_timed_out = 110

-- `error.value() == boost::system::errc::timed_out`, which does not look at the category.
abbrev pub has_value_timed_out : ErrorCode → Bool
has_value_timed_out timed_out = true
has_value_timed_out (errno e) = e == value_timed_out
has_value_timed_out (exxx_warning e) = e == value_timed_out
has_value_timed_out _ = false

-- The values of `Instruction` in exxx_common.hpp that the protocol sends.
abbrev pub instruction_ping : ℕ
instruction_ping = 0x01

abbrev pub instruction_read_data : ℕ
instruction_read_data = 0x02

abbrev pub instruction_write_data : ℕ
instruction_write_data = 0x03

abbrev pub instruction_write_eeprom : ℕ
instruction_write_eeprom = 0x09

abbrev pub instruction_avago_ave_pos : ℕ
instruction_avago_ave_pos = 0x0a

abbrev pub instruction_read_hash : ℕ
instruction_read_hash = 0x0c

abbrev pub instruction_sync_param : ℕ
instruction_sync_param = 0x0d

abbrev pub instruction_reset : ℕ
instruction_reset = 0x10

abbrev pub control_table_hash_byte : ℕ
control_table_hash_byte = 16

abbrev pub firmware_hash_byte : ℕ
firmware_hash_byte = 20

-- The payload of the reset instruction, "RESET" and four more bytes.
abbrev pub reset_data : List ℕ
reset_data = 0x52 ∷ 0x45 ∷ 0x53 ∷ 0x45 ∷ 0x54 ∷ 0x00 ∷ 0xFF ∷ 0xAA ∷ 0x55 ∷ []

-- `send_buffer_` is written anew by each instruction, so only `receive_buffer_` is kept.
pub record ExxxProtocol (Line : Type 0) : Type 0 where
  pub line : Line
  pub receive_buffer : List ℕ

-- A method: it may not come back, if a call of the network does not.
abbrev pub Method : Type 0 → Type 0 → Type 0
Method Line A = ExxxProtocol Line → Option (A × ExxxProtocol Line)

infixl 5 ◌>>=◌
abbrev pub ◌>>=◌ : {Line A B : Type 0} → Method Line A → (A → Method Line B) → Method Line B
◌>>=◌ m f p = elim (m p) [ none ↦ none | some (a, q) ↦ f a q ]

abbrev pub pure : {Line A : Type 0} → A → Method Line A
pure a p = some (a, p)

module _ (net : INetwork) where
  open net use {Line, send, receive}

  -- `network_->Send(id, inst, data, size)`
  abbrev pub net_send : ℕ → ℕ → List ℕ → Method Line ErrorCode
  net_send id inst data_in p = elim (send id inst data_in p.line) [
    | none ↦ none
    | some (error, line) ↦ some (error, record p { line = line })
  ]

  -- `network_->Receive(id, receive_buffer_)`
  abbrev pub net_receive : ℕ → Method Line ErrorCode
  net_receive id p = elim (receive id p.receive_buffer p.line) [
    | none ↦ none
    | some (error, buffer, line) ↦ some (error, record { line = line; receive_buffer = buffer })
  ]

  abbrev pub received : Method Line (List ℕ)
  received p = some (p.receive_buffer, p)

  -- The common body of `Ping`, `SyncParam` and `AvagoAvePos`.
  unfoldable pub command : ℕ → ℕ → Method Line ErrorCode
  command id inst = do
    sent ← net_send id inst []
    if is_system_error sent
        then pure sent
        else do error ← net_receive id; pure (if is_system_error error then error else success)

  unfoldable pub ping : ℕ → Method Line ErrorCode
  unfolding command
  ping id = command id instruction_ping

  unfoldable pub sync_param : ℕ → Method Line ErrorCode
  unfolding command
  sync_param id = command id instruction_sync_param

  unfoldable pub avago_ave_pos : ℕ → Method Line ErrorCode
  unfolding command
  avago_ave_pos id = command id instruction_avago_ave_pos

  -- A node that resets does not answer: the timeout is the success.
  unfoldable pub reset : ℕ → Method Line ErrorCode
  reset id = do
    sent ← net_send id instruction_reset reset_data
    if is_system_error sent then pure sent else do
      error ← net_receive id
      pure (
          if has_value_timed_out error
          then success
          else if is_system_error error
          then error
          else bad_message)

  unfoldable pub write_eeprom : ℕ → Method Line ErrorCode
  write_eeprom id = net_send id instruction_write_eeprom []

  -- The error code, and the two hashes if they are written.
  unfoldable pub read_hash : ℕ → Method Line (ErrorCode × Option (List ℕ × List ℕ))
  read_hash id = do
    sent ← net_send id instruction_read_hash []
    if is_system_error sent then pure (sent, none) else do
      error ← net_receive id
      buffer ← received
      pure (
          if is_system_error error
          then (error, none)
          else if not (length buffer == control_table_hash_byte + firmware_hash_byte)
          then (message_size, none)
          else (
            success,
            some (
              take control_table_hash_byte buffer,
              take firmware_hash_byte (drop control_table_hash_byte buffer),
            ),
          ))

  -- `ReadBlock` into memory of `size` bytes, a `uint16_t`: the error code, and the bytes if they are
  -- written.
  unfoldable pub read_block : ℕ → ℕ → ℕ → Method Line (ErrorCode × Option (List ℕ))
  read_block id addr size = do
    let request = low_byte addr ∷ high_byte addr ∷ low_byte size ∷ high_byte size ∷ []
    sent ← net_send id instruction_read_data request
    if is_error sent then pure (sent, none) else do
      error ← net_receive id
      buffer ← received
      pure (
          if is_system_error error
          then (error, none)
          else if not (length buffer == size)
          then (protocol_error, none)
          else (error, some buffer))

  -- `WriteBlock`: the number of bytes is held in a `uint8_t`. All of `block` is copied to the memory of
  -- `send_buffer_`, and the first `length + 2` bytes of it are sent.
  unfoldable pub write_block : ℕ → ℕ → List ℕ → Method Line ErrorCode
  write_block id addr block = do
    let size = length block % 256
    let send_buffer = take (size + 2) (low_byte addr ∷ high_byte addr ∷ block)
    sent ← net_send id instruction_write_data send_buffer
    if is_error sent then pure sent else net_receive id
