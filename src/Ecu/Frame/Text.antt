-- ===== src/Ecu/Frame/Text.antt =====
-- `std::atoi` and `std::strtol` read the digits that a frame carries.
use hsrb_drivers.Prelude.{
  ℕ, zero, suc, ◌+◌, ◌-◌, ◌*◌, ◌/◌, ◌%◌, ◌^◌, ◌≤◌, ◌<◌, ◌≡◌, refl, sym, ap, ◌∙◌, inl, inr, some,
  List, [], ◌∷◌, ◌++◌, ltb, arith, append_assoc, append-nil, Bool-cases, ltb→lt, ltb→le, le→leb,
  gt→leb, ne→==, and-false, drop,
}
use native.Mathlib.Nat.{pow-suc, mod-eq_of_lt}
use hsrb_drivers.Ecu.Element.{hex_char, dec_char}
use hsrb_drivers.Ecu.Element.Digits.{digits}
use hsrb_drivers.Ecu.Frame.{
  atoi, strtol_16, leading_decimal, leading_hexadecimal, skip_spaces, hex_value,
}

-- The character of a digit lies in one of two ranges.
dec_char-range : (d : ℕ) → d < 10 → dec_char d ≡ d + 48
dec_char-range d h = ground arith

leading_dec_char :
    (d value : ℕ) (tail : List ℕ)
    → d < 10
    → leading_decimal value (dec_char d ∷ tail) ≡ leading_decimal (value * 10 + d) tail
unfolding leading_decimal
leading_dec_char d value tail h =
    let same : value * 10 + (d + 48 - 48) ≡ value * 10 + d = omega arith in
    rw
      (dec_char-range d h, le→leb 48 (d + 48) (omega arith), le→leb (d + 48) 57 (omega arith), same)

-- A character that begins a number: no white space and no sign.
skip_spaces-digit : (c : ℕ) (cs : List ℕ) → 48 ≤ c → skip_spaces (c ∷ cs) ≡ c ∷ cs
unfolding skip_spaces
skip_spaces-digit c cs h = rw (ne→== c 32 (omega arith), gt→leb c 13 (omega arith), and-false)

-- The three digits of a packet size are read as the size.
atoi-digit : (c : ℕ) (cs : List ℕ) → 48 ≤ c → atoi (c ∷ cs) ≡ leading_decimal 0 (c ∷ cs)
unfolding atoi
atoi-digit c cs h =
    rw (skip_spaces-digit c cs h, ne→== c 45 (omega arith), ne→== c 43 (omega arith))

pub atoi-digits : (v : ℕ) → v < 1000 → atoi (digits 10 dec_char 3 v) ≡ v
unfolding digits
atoi-digits v h =
    let a = v / 10 / 10 % 10 in
    let b = v / 10 % 10 in
    let c = v % 10 in
    let whole : ((0 * 10 + a) * 10 + b) * 10 + c ≡ v = omega arith in
    let range = dec_char-range a (omega arith) in
    atoi-digit (dec_char a) (dec_char b ∷ dec_char c ∷ []) (omega (arith, range))
    ∙ leading_dec_char a 0 (dec_char b ∷ dec_char c ∷ []) (omega arith)
    ∙ leading_dec_char b (0 * 10 + a) (dec_char c ∷ []) (omega arith)
    ∙ leading_dec_char c ((0 * 10 + a) * 10 + b) [] (omega arith)
    ∙ (unfold leading_decimal in whole)

hex_char-digit : (d : ℕ) → d < 10 → hex_char d ≡ d + 48
hex_char-digit d h = ground arith

hex_char-letter : (d : ℕ) → 10 ≤ d → d < 16 → hex_char d ≡ d + 55
hex_char-letter d g h = ground arith

hex_value-digit : (c : ℕ) → 48 ≤ c → c ≤ 57 → hex_value c ≡ some (c - 48)
hex_value-digit c g h = rw (le→leb 48 c g, le→leb c 57 h)

hex_value-letter : (c : ℕ) → 65 ≤ c → c ≤ 70 → hex_value c ≡ some (c - 65 + 10)
hex_value-letter c g h =
    rw (le→leb 48 c (omega arith), gt→leb c 57 (omega arith), le→leb 65 c g, le→leb c 70 h)

hex_value-hex_char : (d : ℕ) → d < 16 → hex_value (hex_char d) ≡ some d
hex_value-hex_char d h = elim (Bool-cases (ltb d 10)) [
  | inl e ↦
      let small = ltb→lt d 10 e in
      ap hex_value (hex_char-digit d small)
      ∙ hex_value-digit (d + 48) (omega arith) (omega arith)
      ∙ ap some (omega arith)
  | inr e ↦
      let big = ltb→le d 10 e in
      ap hex_value (hex_char-letter d big h)
      ∙ hex_value-letter (d + 55) (omega arith) (omega arith)
      ∙ ap some (omega arith)
]

leading_hex_char :
    (d value : ℕ) (tail : List ℕ)
    → d < 16
    → leading_hexadecimal value (hex_char d ∷ tail) ≡ leading_hexadecimal (value * 16 + d) tail
unfolding leading_hexadecimal
leading_hex_char d value tail h = rw (hex_value-hex_char d h, leading_hexadecimal)

leading_hexadecimal-digits :
    (n v : ℕ) (tail : List ℕ)
    → v < 16 ^ n
    → leading_hexadecimal 0 (digits 16 hex_char n v ++ tail) ≡ leading_hexadecimal v tail
unfolding digits
leading_hexadecimal-digits zero v tail h = let e : v ≡ 0 = omega arith in rw e
leading_hexadecimal-digits (suc n) v tail h =
    let fits : v < 16 ^ n * 16 = rw pow-suc at h in
    let whole : v / 16 * 16 + v % 16 ≡ v = omega arith in
    ap (leading_hexadecimal 0)
      (append_assoc (digits 16 hex_char n (v / 16)) (hex_char (v % 16) ∷ []) tail)
    ∙ leading_hexadecimal-digits n (v / 16) (hex_char (v % 16) ∷ tail) (omega arith)
    ∙ leading_hex_char (v % 16) (v / 16) tail (omega arith)
    ∙ ap (λ k. leading_hexadecimal k tail) whole

-- A hexadecimal digit is none of the characters that `strtol` treats apart.
hex_char-range : (d : ℕ) → d < 16 → (48 ≤ hex_char d) × (hex_char d ≤ 70)
hex_char-range d h = ground arith

strtol_16-plain :
    (c x : ℕ) (cs : List ℕ)
    → 48 ≤ c
    → x ≤ 70
    → strtol_16 (c ∷ x ∷ cs) ≡ leading_hexadecimal 0 (c ∷ x ∷ cs) % 2 ^ 32
unfolding strtol_16
strtol_16-plain c x cs g h = rw (
  skip_spaces-digit c (x ∷ cs) g,
  ne→== c 45 (omega arith),
  ne→== c 43 (omega arith),
  ne→== x 120 (omega arith),
  ne→== x 88 (omega arith),
  and-false,
)

-- The eight digits of a checksum are read as the checksum.
pub strtol_16-digits : (v : ℕ) → v < 2 ^ 32 → strtol_16 (digits 16 hex_char 8 v) ≡ v
unfolding digits
strtol_16-digits v h =
    let a = v / 16 / 16 / 16 / 16 / 16 / 16 / 16 % 16 in
    let b = v / 16 / 16 / 16 / 16 / 16 / 16 % 16 in
    let (low, _) = hex_char-range a (omega arith) in
    let (_, high) = hex_char-range b (omega arith) in
    strtol_16-plain (hex_char a) (hex_char b) (drop 2 (digits 16 hex_char 8 v)) low high
    ∙ ap (λ k. leading_hexadecimal 0 k % 2 ^ 32) (sym (append-nil (digits 16 hex_char 8 v)))
    ∙ ap (λ k. k % 2 ^ 32) (leading_hexadecimal-digits 8 v [] h)
    ∙ unfold leading_hexadecimal in mod-eq_of_lt h

-- A byte in two digits.
pub strtol_16-pair :
    (a b : ℕ) → a < 16 → b < 16 → strtol_16 (hex_char a ∷ hex_char b ∷ []) ≡ a * 16 + b
strtol_16-pair a b f g =
    let (low, _) = hex_char-range a f in
    let (_, high) = hex_char-range b g in
    let small : (0 * 16 + a) * 16 + b ≡ a * 16 + b = omega arith in
    let all : leading_hexadecimal ((0 * 16 + a) * 16 + b) [] ≡ (0 * 16 + a) * 16 + b =
      unfold leading_hexadecimal in refl in
    let narrow : (a * 16 + b) % 2 ^ 32 ≡ a * 16 + b = omega arith in
    strtol_16-plain (hex_char a) (hex_char b) [] low high
    ∙ ap (λ v. v % 2 ^ 32)
        (leading_hex_char a 0 (hex_char b ∷ []) f
          ∙ leading_hex_char b (0 * 16 + a) [] g
          ∙ all
          ∙ small)
    ∙ narrow
