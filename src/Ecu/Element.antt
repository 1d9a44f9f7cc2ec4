-- ===== src/Ecu/Element.antt =====
-- The elements of a packet: power_ecu_com_element_encoder.hpp and power_ecu_com_element_decoder.hpp.
pub mod Digits
pub mod RoundTrip
pub mod Signed
use hsrb_drivers.Prelude.{
  ℕ, zero, suc, ◌+◌, ◌-◌, ◌*◌, ◌/◌, ◌%◌, ◌^◌, Bool, true, false, Option, none, some, List, [], ◌∷◌,
  ◌++◌, ltb, leb, ◌==◌, if◌then◌else◌, length, ◌&&◌, ◌||◌,
}

-- `uint32_t` arithmetic.
abbrev pub u32 : ℕ → ℕ
u32 n = n % 2 ^ 32

-- `v < 10 ? v + '0' : v + 'A' - 10`, for a digit `v` below 16.
abbrev pub hex_char : ℕ → ℕ
hex_char v = if ltb 15 v then b'0' else if ltb v 10 then v + b'0' else v + b'A' - 10

abbrev pub dec_char : ℕ → ℕ
dec_char v = if ltb 10 v then b'0' else v + b'0'

-- The loop over `i < length_`: what is pushed to `convert_buffer_`, lowest digit first, and what is left of
-- the value.
unfoldable pub push_digits : ℕ → (ℕ → ℕ) → ℕ → ℕ → List ℕ → List ℕ × ℕ
push_digits base char zero current buffer = (buffer, current)
push_digits base char (suc n) current buffer =
    push_digits base char n (current / base) (buffer ++ char (current % base) ∷ [])

abbrev pub backwards : List ℕ → List ℕ
backwards [] = []
backwards (x ∷ xs) = backwards xs ++ x ∷ []

-- `ElementHexUintEncoder::Encode`: what is appended to the buffer, or `none` for `false`.
unfoldable pub encode_hex_uint : ℕ → ℕ → Option (List ℕ)
unfolding push_digits
encode_hex_uint value size =
    let (convert_buffer, rest) = push_digits 16 hex_char size (u32 value) [] in
    if rest == 0 then some (backwards (convert_buffer ++ b'h' ∷ [])) else none

-- `ElementUintEncoder::Encode`.
unfoldable pub encode_uint : ℕ → ℕ → Option (List ℕ)
unfolding push_digits
encode_uint value size =
    let (convert_buffer, rest) = push_digits 10 dec_char size (u32 value) [] in
    if rest == 0 then some (backwards convert_buffer) else none

-- `ElementStringEncoder::Encode`.
unfoldable pub encode_string : List ℕ → ℕ → Option (List ℕ)
encode_string value size = if length value == size then some value else none

-- `ElementHexUintBitsEncoder`: the bits registered, each with its flag. `RegisterBit` refuses a bit that
-- the digits cannot hold and a bit that is there.
abbrev pub BitMap : Type 0
BitMap = List (ℕ × Bool)

abbrev has_bit : BitMap → ℕ → Bool
has_bit [] bit = false
has_bit ((b, flag) ∷ map) bit = b == bit || has_bit map bit

unfoldable pub register_bit : ℕ → ℕ → Bool → BitMap → Bool × BitMap
register_bit size bit flag map =
    if ltb (size * 4 - 1) bit
    then (false, map)
    else if has_bit map bit
    then (false, map)
    else (true, (bit, flag) ∷ map)

unfoldable pub bits_value : BitMap → ℕ
bits_value [] = 0
bits_value ((bit, flag) ∷ map) = u32 ((if flag then 2 ^ bit else 0) + bits_value map)

unfoldable pub encode_hex_uint_bits : BitMap → ℕ → Option (List ℕ)
unfolding bits_value encode_hex_uint
encode_hex_uint_bits map size = encode_hex_uint (bits_value map) size

-- The loops of the decoders: `none` for a character that is no digit.
pub read_decimal : ℕ → List ℕ → Option ℕ
read_decimal value [] = some value
read_decimal value (v ∷ rest) =
    let more = read_decimal (u32 (value * 10 + (v - b'0'))) rest in
    if ltb v b'0' || ltb b'9' v then none else more

pub read_hexadecimal : ℕ → List ℕ → Option ℕ
read_hexadecimal value [] = some value
read_hexadecimal value (v ∷ rest) =
    let digit = read_hexadecimal (u32 (value * 16 + (v - b'0'))) rest in
    let letter = read_hexadecimal (u32 (value * 16 + (v - (b'A' - 10)))) rest in
    if leb b'0' v && leb v b'9' then digit else if leb b'A' v && leb v b'F' then letter else none

-- `ElementUintDecoder<Output>::Decode`, for an `Output` of `width` bits: the value, or `none` for `false`.
unfoldable pub decode_uint : ℕ → ℕ → List ℕ → Option ℕ
unfolding read_decimal
decode_uint width size chars =
    if length chars == size
    then elim (read_decimal 0 chars) [ none ↦ none | some v ↦ some (v % 2 ^ width) ]
    else none

-- `ElementHexUintDecoder<Output>::Decode`. Its element is not empty, since a comma-separated element of
-- `size + 1` characters is compared first.
unfoldable pub decode_hex_uint : ℕ → ℕ → List ℕ → Option ℕ
unfolding read_hexadecimal
decode_hex_uint width size [] = none
decode_hex_uint width size (h ∷ chars) =
    if length chars == size && h == b'h'
    then elim (read_hexadecimal 0 chars) [ none ↦ none | some v ↦ some (v % 2 ^ width) ]
    else none

-- `ElementStringDecoder::Decode`; the constructor reserves the capacity that is asked for.
unfoldable pub decode_string : ℕ → List ℕ → Option (List ℕ)
decode_string size chars = if length chars == size then some chars else none
