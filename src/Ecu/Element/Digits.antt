-- ===== src/Ecu/Element/Digits.antt =====
-- The digits that the encoders write, and what the decoders read back from them.
use hsrb_drivers.Prelude.{
  ℕ, zero, suc, ◌+◌, ◌-◌, ◌*◌, ◌/◌, ◌%◌, ◌^◌, ◌≤◌, ◌<◌, ◌≡◌, refl, sym, ap, ◌∙◌, inl, inr, List, [],
  ◌∷◌, ◌++◌, ltb, ◌==◌, length, arith, append_assoc, append-nil, length-append, Bool-cases, ltb→lt,
  ltb→le, le→ltb, le→leb, gt→leb,
}
use native.Mathlib.Nat.{pow-zero, pow-suc, div-lt_iff_lt-mul}
use hsrb_drivers.Ecu.Element.{
  u32, hex_char, dec_char, push_digits, backwards, read_decimal, read_hexadecimal,
}

-- `n` digits of `v`, highest first.
unfoldable pub digits : ℕ → (ℕ → ℕ) → ℕ → ℕ → List ℕ
digits base char zero v = []
digits base char (suc n) v = digits base char n (v / base) ++ char (v % base) ∷ []

pub length-digits : (base : ℕ) (char : ℕ → ℕ) (n v : ℕ) → length (digits base char n v) ≡ n
unfolding digits
length-digits base char zero v = refl
length-digits base char (suc n) v = omega (
  arith,
  length-digits base char n (v / base),
  length-append (digits base char n (v / base)) (char (v % base) ∷ []),
)

pub backwards-append : (xs ys : List ℕ) → backwards (xs ++ ys) ≡ backwards ys ++ backwards xs
backwards-append [] ys = sym (append-nil (backwards ys))
backwards-append (x ∷ xs) ys =
    rw (backwards-append xs ys) (append_assoc (backwards ys) (backwards xs) (x ∷ []))

pub backwards-push_digits :
    (base : ℕ) (char : ℕ → ℕ) (n v : ℕ) (buffer : List ℕ)
    → backwards (push_digits base char n v buffer).0 ≡ digits base char n v ++ backwards buffer
unfolding push_digits digits
backwards-push_digits base char zero v buffer = refl
backwards-push_digits base char (suc n) v buffer =
    backwards-push_digits base char n (v / base) (buffer ++ char (v % base) ∷ [])
    ∙ ap (λ l. digits base char n (v / base) ++ l) (backwards-append buffer (char (v % base) ∷ []))
    ∙ sym (append_assoc (digits base char n (v / base)) (char (v % base) ∷ []) (backwards buffer))

-- What is left of the value is 0 exactly if the digits hold it.
pub push_digits_rest :
    (base : ℕ) (char : ℕ → ℕ) (n v : ℕ) (buffer : List ℕ)
    → 0 < base
    → ((push_digits base char n v buffer).1 == 0) ≡ ltb v (base ^ n)
unfolding push_digits
push_digits_rest base char zero v buffer h = rw pow-zero (ground arith)
push_digits_rest base char (suc n) v buffer h =
    push_digits_rest base char n (v / base) (buffer ++ char (v % base) ∷ []) h
    ∙ rw pow-suc (
        ground (
          arith,
          (div-lt_iff_lt-mul {k = base} {x = v} {y = base ^ n} h).0,
          (div-lt_iff_lt-mul {k = base} {x = v} {y = base ^ n} h).1,
        ))

-- The character of a digit is read as that digit.
read_dec_char :
    (d value : ℕ) (tail : List ℕ)
    → d < 10
    → value * 10 + d < 2 ^ 32
    → read_decimal value (dec_char d ∷ tail) ≡ read_decimal (value * 10 + d) tail
unfolding read_decimal
read_dec_char d value tail h w =
    let c : dec_char d ≡ d + 48 = ground arith in
    let same : u32 (value * 10 + (d + 48 - 48)) ≡ value * 10 + d = omega arith in
    rw (c, le→ltb (d + 48) 48 (omega arith), le→ltb 57 (d + 48) (omega arith), same)

read_hex_char :
    (d value : ℕ) (tail : List ℕ)
    → d < 16
    → value * 16 + d < 2 ^ 32
    → read_hexadecimal value (hex_char d ∷ tail) ≡ read_hexadecimal (value * 16 + d) tail
unfolding read_hexadecimal
read_hex_char d value tail h w = elim (Bool-cases (ltb d 10)) [
  | inl small ↦
      let c : hex_char d ≡ d + 48 = ground arith in
      let same : u32 (value * 16 + (d + 48 - 48)) ≡ value * 16 + d = omega arith in
      let low : d + 48 ≤ 57 = omega (arith, ltb→lt d 10 small) in
      rw (c, le→leb 48 (d + 48) (omega arith), le→leb (d + 48) 57 low, same)
  | inr big ↦
      let c : hex_char d ≡ d + 65 - 10 = ground arith in
      let same : u32 (value * 16 + (d + 65 - 10 - (65 - 10))) ≡ value * 16 + d = omega arith in
      let high : 65 ≤ d + 65 - 10 = omega (arith, ltb→le d 10 big) in
      rw (
        c,
        le→leb 48 (d + 65 - 10) (omega arith),
        gt→leb (d + 65 - 10) 57 (omega arith),
        le→leb 65 (d + 65 - 10) high,
        le→leb (d + 65 - 10) 70 (omega arith),
        same,
      )
]

pub read_decimal-digits :
    (n v : ℕ) (tail : List ℕ)
    → v < 10 ^ n
    → v < 2 ^ 32
    → read_decimal 0 (digits 10 dec_char n v ++ tail) ≡ read_decimal v tail
unfolding digits
read_decimal-digits zero v tail h w = let e : v ≡ 0 = omega arith in rw e
read_decimal-digits (suc n) v tail h w =
    let fits : v < 10 ^ n * 10 = rw pow-suc at h in
    let whole : v / 10 * 10 + v % 10 ≡ v = omega arith in
    ap (read_decimal 0) (append_assoc (digits 10 dec_char n (v / 10)) (dec_char (v % 10) ∷ []) tail)
    ∙ read_decimal-digits n (v / 10) (dec_char (v % 10) ∷ tail) (omega arith) (omega arith)
    ∙ read_dec_char (v % 10) (v / 10) tail (omega arith) (omega arith)
    ∙ ap (λ k. read_decimal k tail) whole

pub read_hexadecimal-digits :
    (n v : ℕ) (tail : List ℕ)
    → v < 16 ^ n
    → v < 2 ^ 32
    → read_hexadecimal 0 (digits 16 hex_char n v ++ tail) ≡ read_hexadecimal v tail
unfolding digits
read_hexadecimal-digits zero v tail h w = let e : v ≡ 0 = omega arith in rw e
read_hexadecimal-digits (suc n) v tail h w =
    let fits : v < 16 ^ n * 16 = rw pow-suc at h in
    let whole : v / 16 * 16 + v % 16 ≡ v = omega arith in
    ap (read_hexadecimal 0)
      (append_assoc (digits 16 hex_char n (v / 16)) (hex_char (v % 16) ∷ []) tail)
    ∙ read_hexadecimal-digits n (v / 16) (hex_char (v % 16) ∷ tail) (omega arith) (omega arith)
    ∙ read_hex_char (v % 16) (v / 16) tail (omega arith) (omega arith)
    ∙ ap (λ k. read_hexadecimal k tail) whole
