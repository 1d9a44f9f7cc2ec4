-- ===== src/Ecu/Element/RoundTrip.antt =====
-- An element that is encoded and decoded again, and the values that the encoders refuse.
use hsrb_drivers.Prelude.{
  ℕ, ◌+◌, ◌^◌, ◌<◌, ◌≡◌, inl, inr, none, some, List, [], ◌∷◌, ltb, if◌then◌else◌, length, arith,
  append-nil, Bool-cases, ltb→lt, ==_self,
}
use native.Mathlib.Nat.{mod-eq_of_lt}
use hsrb_drivers.Ecu.Element.{
  u32, hex_char, dec_char, encode_hex_uint, encode_uint, decode_hex_uint, decode_uint, read_decimal,
  read_hexadecimal,
}
use hsrb_drivers.Ecu.Element.Digits.{
  digits, length-digits, backwards-push_digits, backwards-append, push_digits_rest,
  read_decimal-digits, read_hexadecimal-digits,
}

-- The encoders write the digits if these hold the value, and refuse it otherwise.
pub encode_uint_lem :
    (v n : ℕ)
    → v < 2 ^ 32
    → encode_uint v n ≡ (if ltb v (10 ^ n) then some (digits 10 dec_char n v) else none)
unfolding encode_uint
encode_uint_lem v n w =
    let same : u32 v ≡ v = omega arith in
    rw (
      same,
      push_digits_rest 10 dec_char n v [] (omega arith),
      backwards-push_digits 10 dec_char n v [],
      append-nil (digits 10 dec_char n v),
    )

pub encode_hex_uint_lem :
    (v n : ℕ)
    → v < 2 ^ 32
    → encode_hex_uint v n ≡ (if ltb v (16 ^ n) then some (b'h' ∷ digits 16 hex_char n v) else none)
unfolding encode_hex_uint
encode_hex_uint_lem v n w =
    let same : u32 v ≡ v = omega arith in
    rw (
      same,
      push_digits_rest 16 hex_char n v [] (omega arith),
      backwards-append,
      backwards-push_digits 16 hex_char n v [],
      append-nil (digits 16 hex_char n v),
    )

-- If the decimal encoder writes a 32-bit value, it writes `n` characters, and the decoder reads the value from
-- them into any output type that holds it.
pub decode_uint-encode_uint :
    (v n width : ℕ) (chars : List ℕ)
    → v < 2 ^ 32
    → v < 2 ^ width
    → encode_uint v n ≡ some chars
    → (decode_uint width n chars ≡ some v) × (length chars ≡ n)
decode_uint-encode_uint v n width chars w o e = elim (Bool-cases (ltb v (10 ^ n))) [
  | inl fits ↦
      let made : chars ≡ digits 10 dec_char n v = ground (arith, encode_uint_lem v n w) in
      let back : read_decimal 0 (digits 10 dec_char n v) ≡ some v =
        unfold read_decimal in rw append-nil at (read_decimal-digits n v [] (ltb→lt _ _ fits) w) in
      rw made (
        unfold decode_uint in rw (length-digits 10 dec_char n v, ==_self n, back, mod-eq_of_lt o),
        length-digits 10 dec_char n v,
      )
  | inr wide ↦ absurd (ground (arith, encode_uint_lem v n w))
]

-- If the hexadecimal encoder writes a 32-bit value, it writes `n` characters behind the "h", and the decoder
-- reads the value from them into any output type that holds it.
pub decode_hex_uint-encode_hex_uint :
    (v n width : ℕ) (chars : List ℕ)
    → v < 2 ^ 32
    → v < 2 ^ width
    → encode_hex_uint v n ≡ some chars
    → (decode_hex_uint width n chars ≡ some v) × (length chars ≡ n + 1)
decode_hex_uint-encode_hex_uint v n width chars w o e = elim (Bool-cases (ltb v (16 ^ n))) [
  | inl fits ↦
      let made : chars ≡ b'h' ∷ digits 16 hex_char n v =
        ground (arith, encode_hex_uint_lem v n w) in
      let back : read_hexadecimal 0 (digits 16 hex_char n v) ≡ some v =
        unfold read_hexadecimal in
        rw append-nil at (read_hexadecimal-digits n v [] (ltb→lt _ _ fits) w) in
      rw made (
        unfold decode_hex_uint in
            rw (length-digits 16 hex_char n v, ==_self n, back, mod-eq_of_lt o),
        omega (arith, length-digits 16 hex_char n v),
      )
  | inr wide ↦ absurd (ground (arith, encode_hex_uint_lem v n w))
]
