-- ===== src/Ecu/Frame/Decoder.antt =====
-- `IPowerEcuComDataDecoder` and `PowerEcuComFrameDecoder`.
pub mod Progress
use hsrb_drivers.Prelude.{
  ℤ, ℕ, zero, suc, ◌+◌, ◌-◌, ◌*◌, ◌%◌, Bool, true, false, not, Option, none, some, List, [], ◌∷◌,
  ◌++◌, ltb, leb, ◌==◌, ◌&&◌, ◌||◌, if◌then◌else◌, length, take, drop,
}
use hsrb_drivers.Ecu.Crc.{Crc32, calculate_crc32}
use hsrb_drivers.Ecu.Element.{decode_uint, decode_hex_uint, decode_string}
use hsrb_drivers.Ecu.Element.Signed.{Limits, decode_int}
use hsrb_drivers.Ecu.Frame.{
  Code, success, protocol_error, result_out_of_range, invalid_argument, same_bytes, atoi, strtol_16,
  codes,
}

-- An element decoder of the list of a data decoder.
pub data ElementDecoder : Type 0 where
  uint_decoder : (width size : ℕ) → ElementDecoder
  hex_uint_decoder : (width size : ℕ) → ElementDecoder
  int_decoder : (limits : Limits) (size : ℕ) → ElementDecoder
  string_decoder : (size : ℕ) → ElementDecoder

-- What an element decoder stores.
pub data Value : Type 0 where
  number : ℕ → Value
  signed : ℤ → Value
  text : List ℕ → Value

abbrev pub stored {ℓ} : {A : Type ℓ} → (A → Value) → Option A → Option Value
stored f none = none
stored f (some a) = some (f a)

unfoldable pub decode_element : ElementDecoder → List ℕ → Option Value
decode_element (uint_decoder width size) chars = stored number (decode_uint width size chars)
decode_element (hex_uint_decoder width size) chars =
    stored number (decode_hex_uint width size chars)
decode_element (int_decoder limits size) chars = stored signed (decode_int limits size chars)
decode_element (string_decoder size) chars = stored text (decode_string size chars)

-- `std::find(begin, end, ',')`: the characters before the comma and those after it.
unfoldable pub split_comma : List ℕ → Option (List ℕ × List ℕ)
split_comma [] = none
split_comma (c ∷ cs) =
    if c == b','
    then some ([], cs)
    else elim (split_comma cs) [ none ↦ none | some (front, back) ↦ some (c ∷ front, back) ]

-- The loop of `IPowerEcuComDataDecoder::Decode`: the values that are stored before it ends, and whether it
-- ends without an error.
unfoldable pub decode_elements : List ElementDecoder → List ℕ → Bool × List Value
decode_elements [] chars = (true, [])
decode_elements (e ∷ es) chars = elim (split_comma chars) [
  | none ↦ (false, [])
  | some (front, back) ↦ elim (decode_element e front) [
    | none ↦ (false, [])
    | some v ↦ let (ok, vs) = decode_elements es back in (ok, v ∷ vs)
  ]
]

-- A data decoder: its packet type and size, its elements, the values it holds, and `Update`, which each
-- packet type defines and which may refuse the new values. `is_receive` is the flag that `Update` raises
-- (`is_receive_ack` of `rxack`, `is_receive_version` of `ver__`; nothing reads it of the other types).
pub record DataDecoder : Type 0 where
  pub packet_name : List ℕ
  pub packet_size : ℕ
  pub elements : List ElementDecoder
  pub update : List Value → Bool
  pub values : List Value
  pub is_receive : Bool

-- The new values, in front of the old ones that the decoding did not reach.
abbrev overwrite : List Value → List Value → List Value
overwrite new old = new ++ drop (length new) old

unfoldable pub decode_data : DataDecoder → List ℕ → Code × DataDecoder
unfolding decode_elements decode_element split_comma
decode_data d chars =
    let (ok, vs) = decode_elements d.elements chars in
    let values = overwrite vs d.values in
    (
      if ok && d.update values then success else protocol_error,
      record d { values = values; is_receive = ok || d.is_receive },
    )

-- `data_decoder_map_`
abbrev pub DataDecoderMap : Type 0
DataDecoderMap = List DataDecoder

unfoldable pub find_decoder : List ℕ → DataDecoderMap → Option DataDecoder
find_decoder name [] = none
find_decoder name (d ∷ map) =
    if same_bytes d.packet_name name then some d else find_decoder name map

unfoldable pub put_decoder : DataDecoder → DataDecoderMap → DataDecoderMap
put_decoder new [] = []
put_decoder new (d ∷ map) =
    if same_bytes d.packet_name new.packet_name then new ∷ map else d ∷ put_decoder new map

-- `RegisterDataDecoder`, for a decoder that is no null pointer.
unfoldable pub register_data_decoder : DataDecoder → DataDecoderMap → Code × DataDecoderMap
unfolding find_decoder
register_data_decoder d map = elim (find_decoder d.packet_name map) [
  | some _ ↦ (invalid_argument, map)
  | none ↦ (success, map ++ d ∷ [])
]

abbrev pub header_length : ℕ
header_length = 12

abbrev pub footer_length : ℕ
footer_length = 11

-- `SkipString`, whose iterator moves on in any case.
abbrev pub skips : List ℕ → List ℕ → Bool
skips skip_string bytes = same_bytes (take (length skip_string) bytes) skip_string

-- What one call of `Decode` returns: the code, the number of bytes up to `encoded_iterator`, and the map.
pub record Decoded : Type 0 where
  pub code : Code
  pub encoded : ℕ
  pub map : DataDecoderMap

-- The end of `Decode`: the decoder of the packet type, if its size is that of the packet.
abbrev pub dispatch : DataDecoderMap → ℕ → ℕ → List ℕ → Option DataDecoder → Decoded
dispatch map encoded packet_size body none = record {
  code = protocol_error;
  encoded = encoded;
  map = map;
}
dispatch map encoded packet_size body (some d) =
    if not (d.packet_size == packet_size)
    then record { code = protocol_error; encoded = encoded; map = map }
    else let (code, d') = decode_data d body in
      record { code = code; encoded = encoded; map = put_decoder d' map }

module _ (crc : Crc32) where
  -- `check_sum_calc != check_sum_res`: the checksum is over all that stands before it, and its text over
  -- the eight characters behind the `h`.
  abbrev pub corrupt : List ℕ → ℕ → Bool
  corrupt frame packet_size =
      let sum_start = header_length + packet_size - footer_length in
      not (
        calculate_crc32 crc (take sum_start frame)
        == strtol_16 (take 8 (drop (sum_start + 1) frame)))

  -- `Decode` from the packet size on: `frame` begins at the start character, behind `before` bytes.
  unfoldable pub decode_body : DataDecoderMap → ℕ → List ℕ → ℕ → Decoded
  decode_body map before frame packet_size =
      let frame_end = before + (header_length + packet_size) in
      if corrupt frame packet_size
      then record { code = protocol_error; encoded = frame_end; map = map }
      else dispatch map frame_end packet_size
          (take (packet_size - footer_length) (drop header_length frame))
          (find_decoder (take 5 (drop 2 frame)) map)

  abbrev pub failed : DataDecoderMap → Code → ℕ → Decoded
  failed map code encoded = record { code = code; encoded = encoded; map = map }

  unfoldable pub decode_frame : DataDecoderMap → ℕ → List ℕ → Decoded
  decode_frame map before frame =
      let packet_size = atoi (take 3 (drop 8 frame)) in
      if ltb (length frame) header_length
      then failed map result_out_of_range before
      else if not (skips (codes "E,") frame)
      then failed map protocol_error (before + 2)
      else if not (skips (codes ",") (drop 7 frame))
      then failed map protocol_error (before + 8)
      else if ltb packet_size footer_length
      then failed map protocol_error (before + 11)
      else if not (skips (codes ",") (drop 11 frame))
      then failed map protocol_error (before + 12)
      else if ltb (length frame - header_length) packet_size
      then failed map result_out_of_range before
      else decode_body map before frame packet_size

  -- `Decode`: first the search for the start character.
  unfoldable pub decode : DataDecoderMap → ℕ → List ℕ → Decoded
  decode map before [] = failed map result_out_of_range before
  decode map before (c ∷ cs) =
      let more = decode map (before + 1) cs in
      if c == b'E' then decode_frame map before (c ∷ cs) else more

  -- The loop of `PowerEcuProtocol::ReceiveAll` over the receive buffer: whether a packet was corrupted,
  -- and what the last call of `Decode` left. `none` when the fuel runs out.
  unfoldable pub decode_all :
      ℕ → DataDecoderMap → ℕ → List ℕ → Bool → Option (Bool × ℕ × DataDecoderMap)
  decode_all zero map before bytes corrupted = none
  decode_all (suc fuel) map before bytes corrupted =
      let r = decode map before bytes in
      elim r.code [
        | result_out_of_range ↦ some (corrupted, r.encoded, r.map)
        | success ↦ decode_all fuel r.map r.encoded (drop (r.encoded - before) bytes) corrupted
        | _ ↦ decode_all fuel r.map r.encoded (drop (r.encoded - before) bytes) true
      ]
