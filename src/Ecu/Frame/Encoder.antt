-- ===== src/Ecu/Frame/Encoder.antt =====
-- `IPowerEcuComDataEncoder` and `PowerEcuComFrameEncoder`. The send buffer is cleared before a frame is
-- made, and its 4000 bytes hold every frame.
use hsrb_drivers.Prelude.{ℕ, Option, none, some, List, [], ◌∷◌, ◌++◌, if◌then◌else◌}
use hsrb_drivers.Ecu.Crc.{Crc32, calculate_crc32}
use hsrb_drivers.Ecu.Element.{
  BitMap, encode_uint, encode_hex_uint, encode_hex_uint_bits, encode_string,
}
use hsrb_drivers.Ecu.Frame.{Code, success, protocol_error, invalid_argument, same_bytes}

-- An element encoder, with the value that it refers to.
pub data ElementEncoder : Type 0 where
  uint_encoder : (value size : ℕ) → ElementEncoder
  hex_uint_encoder : (value size : ℕ) → ElementEncoder
  hex_uint_bits_encoder : (bits : BitMap) (size : ℕ) → ElementEncoder
  string_encoder : (value : List ℕ) (size : ℕ) → ElementEncoder

unfoldable pub encode_element : ElementEncoder → Option (List ℕ)
encode_element (uint_encoder value size) = encode_uint value size
encode_element (hex_uint_encoder value size) = encode_hex_uint value size
encode_element (hex_uint_bits_encoder bits size) = encode_hex_uint_bits bits size
encode_element (string_encoder value size) = encode_string value size

-- `IPowerEcuComDataEncoder::Encode`: the code, and what it appends to the buffer.
unfoldable pub encode_elements : List ElementEncoder → Code × List ℕ
unfolding encode_element
encode_elements [] = (success, [])
encode_elements (p ∷ ps) = elim (encode_element p) [
  | none ↦ (protocol_error, [])
  | some chars ↦ let (code, more) = encode_elements ps in (code, chars ++ b',' ∷ more)
]

pub record DataEncoder : Type 0 where
  pub packet_size : List ℕ
  pub packet_name : List ℕ
  pub elements : List ElementEncoder

-- `data_encoder_map_`
abbrev pub DataEncoderMap : Type 0
DataEncoderMap = List DataEncoder

unfoldable pub find_encoder : List ℕ → DataEncoderMap → Option DataEncoder
find_encoder name [] = none
find_encoder name (e ∷ map) =
    if same_bytes e.packet_name name then some e else find_encoder name map

-- `RegisterDataEncoder`, for an encoder that is no null pointer.
unfoldable pub register_data_encoder : DataEncoder → DataEncoderMap → Code × DataEncoderMap
unfolding find_encoder
register_data_encoder encoder map = elim (find_encoder encoder.packet_name map) [
  | some _ ↦ (invalid_argument, map)
  | none ↦ (success, map ++ encoder ∷ [])
]

abbrev written : Option (List ℕ) → List ℕ
written none = []
written (some chars) = chars

module _ (crc : Crc32) where
  -- The frame of a data encoder, in an empty buffer.
  unfoldable pub frame_of : DataEncoder → List ℕ → List ℕ
  unfolding encode_elements
  frame_of encoder packet_name =
      let head =
        b'H'
        ∷ b','
        ∷ (packet_name
            ++ b',' ∷ (encoder.packet_size ++ b',' ∷ (encode_elements encoder.elements).1)) in
      head ++ (written (encode_hex_uint (calculate_crc32 crc head) 8) ++ b',' ∷ b'\n' ∷ [])

  -- `Encode`, with an empty buffer.
  unfoldable pub encode : DataEncoderMap → List ℕ → Code × List ℕ
  unfolding find_encoder frame_of
  encode map packet_name = elim (find_encoder packet_name map) [
    | none ↦ (invalid_argument, [])
    | some encoder ↦ (success, frame_of encoder packet_name)
  ]
