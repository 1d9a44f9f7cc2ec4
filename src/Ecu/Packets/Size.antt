-- ===== src/Ecu/Packets/Size.antt =====
-- The size that a data decoder asks for is that of its elements.
use hsrb_drivers.Prelude.{
  ℕ, ◌+◌, ◌≤◌, ◌≡◌, refl, true, some, List, [], ◌∷◌, length, arith, inl, inr, Option-cases,
}
use hsrb_drivers.Ecu.Element.Signed.{decode_int}
use hsrb_drivers.Ecu.Element.{decode_uint, decode_hex_uint, decode_string}
use hsrb_drivers.Ecu.Frame.{success}
use hsrb_drivers.Ecu.Frame.Decoder.{
  ElementDecoder, uint_decoder, hex_uint_decoder, int_decoder, string_decoder, Value,
  decode_element, split_comma, decode_elements, DataDecoder, decode_data,
}
use hsrb_drivers.Ecu.Packets.{
  ecu1_data_decoder, ecu2_data_decoder, rxack_data_decoder, ver_data_decoder,
}

-- The characters of an element, and those of a body with its commas.
abbrev element_size : ElementDecoder → ℕ
element_size (uint_decoder width size) = size
element_size (hex_uint_decoder width size) = size + 1
element_size (int_decoder limits size) = size + 1
element_size (string_decoder size) = size

abbrev pub body_size : List ElementDecoder → ℕ
body_size [] = 0
body_size (e ∷ es) = element_size e + 1 + body_size es

size-decode_element :
    (e : ElementDecoder) (chars : List ℕ) (v : Value)
    → decode_element e chars ≡ some v
    → length chars ≡ element_size e
unfolding decode_element decode_uint decode_hex_uint decode_int decode_string
size-decode_element (uint_decoder width size) chars v e = ground arith
size-decode_element (hex_uint_decoder width size) [] v e = ground arith
size-decode_element (hex_uint_decoder width size) (c ∷ cs) v e = ground arith
size-decode_element (int_decoder limits size) [] v e = ground arith
size-decode_element (int_decoder limits size) (c ∷ cs) v e = ground arith
size-decode_element (string_decoder size) chars v e = ground arith

size-split_comma :
    (chars front back : List ℕ)
    → split_comma chars ≡ some (front, back)
    → length chars ≡ length front + 1 + length back
unfolding split_comma
size-split_comma [] front back e = ground arith
size-split_comma (c ∷ cs) front back e = elim (Option-cases (split_comma cs)) [
  | inl out ↦ ground (arith, out)
  | inr ((front', back'), r) ↦ ground (arith, r, size-split_comma cs front' back' r)
]

size-decode_elements :
    (es : List ElementDecoder) (chars : List ℕ)
    → (decode_elements es chars).0 ≡ true
    → body_size es ≤ length chars
unfolding decode_elements
size-decode_elements [] chars e = omega arith
size-decode_elements (d ∷ es) chars e = elim (Option-cases (split_comma chars)) [
  | inl out ↦ absurd (ground (arith, out))
  | inr ((front, back), r) ↦ elim (Option-cases (decode_element d front)) [
    | inl out ↦ absurd (ground (arith, r, out))
    | inr (v, w) ↦
        let rest : (decode_elements es back).0 ≡ true = ground (arith, r, w) in
        omega (
          arith,
          size-split_comma chars front back r,
          size-decode_element d front v w,
          size-decode_elements es back rest,
        )
  ]
]

pub decode_data_accepts :
    (d : DataDecoder) (body : List ℕ)
    → (decode_data d body).0 ≡ success
    → (decode_elements d.elements body).0 ≡ true
unfolding decode_data
decode_data_accepts d body e = ground (arith, e)

-- The data decoders of the packets from the ECU.
pub data IsPacket : DataDecoder → Type 0 where
  ecu1 : IsPacket ecu1_data_decoder
  ecu2 : IsPacket ecu2_data_decoder
  rxack : IsPacket rxack_data_decoder
  ver : IsPacket ver_data_decoder

announced : {d : DataDecoder} → IsPacket d → body_size d.elements + 11 ≡ d.packet_size
announced ecu1 = refl
announced ecu2 = refl
announced rxack = refl
announced ver = refl

-- The elements of each of the four packets from the ECU, with their commas and the eleven characters of the footer,
-- make up the size that its decoder asks for, and the decoder refuses every body that is shorter.
pub packet_size-IsPacket :
    {d : DataDecoder} (body : List ℕ)
    → IsPacket d
    → (body_size d.elements + 11 ≡ d.packet_size)
      × ((decode_data d body).0 ≡ success → d.packet_size ≤ length body + 11)
packet_size-IsPacket {d} body p = (
  announced p,
  λ e.
      omega
        (arith, announced p, size-decode_elements d.elements body (decode_data_accepts d body e)),
)
