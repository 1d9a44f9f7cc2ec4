-- ===== src/Ecu/Element/Signed.antt =====
-- `ElementIntDecoder` of power_ecu_com_element_decoder.hpp: signed decimals, clamped to the type of the output.
use hsrb_drivers.Prelude.{
  ℕ, zero, suc, ◌+◌, ◌-◌, ◌%◌, ◌^◌, ◌<◌, ◌≡◌, refl, ap, min, Bool, true, false, Option, none, some,
  List, [], ◌∷◌, ltb, leb, ◌==◌, if◌then◌else◌, length, arith, inl, inr, Bool-cases, ==_self,
  append-nil, ℤ, pos, negsuc, lt→ltb, le→ltb, leb→le, leb→gt,
}
use hsrb_drivers.Ecu.Element.{read_decimal, dec_char}
use hsrb_drivers.Ecu.Element.Digits.{digits, length-digits, read_decimal-digits}

abbrev pub minus : ℕ → ℤ
minus zero = pos 0
minus (suc n) = negsuc n

-- `std::numeric_limits<Output>`: the largest value, and the smallest without its sign.
pub record Limits : Type 0 where
  pub largest : ℕ
  pub lowest : ℕ

-- The value of an `int32_t` with these bits; arithmetic that leaves its range wraps around.
abbrev int32 : ℕ → ℤ
int32 bits = if ltb bits (2 ^ 31) then pos bits else negsuc (2 ^ 32 - 1 - bits)

-- `tmp_value *= -1`
abbrev negate : ℕ → ℕ
negate bits = (2 ^ 32 - bits) % 2 ^ 32

abbrev clamp : Limits → ℤ → ℤ
clamp t (pos v) = pos (if ltb t.largest v then t.largest else v)
clamp t (negsuc k) = if leb (k + 1) t.lowest then negsuc k else minus t.lowest

abbrev signed_value : Limits → Bool → Option ℕ → Option ℤ
signed_value t is_positive_number none = none
signed_value t is_positive_number (some bits) =
    some (clamp t (int32 (if is_positive_number then bits else negate bits)))

-- `ElementIntDecoder<Output>::Decode`: the value, or `none` for `false`.
unfoldable pub decode_int : Limits → ℕ → List ℕ → Option ℤ
unfolding read_decimal
decode_int t size [] = none
decode_int t size (sign ∷ chars) =
    if length chars == size
    then if sign == b' '
      then signed_value t true (read_decimal 0 chars)
      else if sign == b'-'
      then signed_value t false (read_decimal 0 chars)
      else none
    else none

smaller : (v m : ℕ) → (if ltb m v then m else v) ≡ min v m
smaller v m = ground arith

positive : (t : Limits) (v : ℕ) → v < 2 ^ 31 → clamp t (int32 v) ≡ pos (min v t.largest)
positive t v h = rw (lt→ltb v (2 ^ 31) h) (ap pos (smaller v t.largest))

negative : (t : Limits) (v : ℕ) → v < 2 ^ 31 → clamp t (int32 (negate v)) ≡ minus (min v t.lowest)
negative t zero h =
    let none_left : min 0 t.lowest ≡ 0 = omega arith in
    rw (le→ltb t.largest 0 (omega arith), none_left) refl
negative t (suc k) h =
    let bits : (2 ^ 32 - suc k) % 2 ^ 32 ≡ 2 ^ 32 - suc k = omega arith in
    let value : 2 ^ 32 - 1 - (2 ^ 32 - suc k) ≡ k = omega arith in
    rw (bits, le→ltb (2 ^ 32 - suc k) (2 ^ 31) (omega arith), value)
      (elim (Bool-cases (leb (k + 1) t.lowest)) [
        | inl e ↦
            let fits : min (suc k) t.lowest ≡ suc k = omega (arith, leb→le _ _ e) in
            rw (e, fits) refl
        | inr e ↦
            let cut : min (suc k) t.lowest ≡ t.lowest = omega (arith, leb→gt _ _ e) in
            rw (e, cut) refl
      ])

-- A value below 2^31, written in `n` decimal digits behind its sign, is decoded to the value, and to the limit of
-- the output type on its side where it is larger.
pub decode_int-digits :
    (t : Limits) (n v : ℕ)
    → v < 10 ^ n
    → v < 2 ^ 31
    → (decode_int t n (b' ' ∷ digits 10 dec_char n v) ≡ some (pos (min v t.largest)))
      × (decode_int t n (b'-' ∷ digits 10 dec_char n v) ≡ some (minus (min v t.lowest)))
unfolding decode_int
decode_int-digits t n v h w =
    let back : read_decimal 0 (digits 10 dec_char n v) ≡ some v =
      unfold read_decimal in rw append-nil at (read_decimal-digits n v [] h (omega arith)) in
    (
      rw (length-digits 10 dec_char n v, ==_self n, back, positive t v w),
      rw (length-digits 10 dec_char n v, ==_self n, back, negative t v w),
    )
