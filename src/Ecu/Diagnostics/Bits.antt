-- ===== src/Ecu/Diagnostics/Bits.antt =====
-- `ParseDiagStatus` gives the bits of the number that the text is.
use native.Mathlib.Nat.{div-div-eq-div-mul, pow-suc}
use hsrb_drivers.Prelude.{
  ℕ, zero, suc, ◌+◌, ◌*◌, ◌/◌, ◌%◌, ◌^◌, ◌<◌, ◌≡◌, refl, sym, ap, ◌∙◌, Bool, true, false, Option,
  none, some, List, [], ◌∷◌, ◌++◌, append_assoc, append-nil, if◌then◌else◌, length, All, ◌==◌,
  arith,
}
use hsrb_drivers.Ecu.Diagnostics.{
  hex_digit, test, push_bits, parse_loop, backwards, parse_diag_status,
}

-- The bits of `v` from the bit `j` on that are set, counted from `base`.
abbrev pub set_bits : ℕ → ℕ → ℕ → ℕ → List ℕ
set_bits base v j zero = []
set_bits base v j (suc n) =
    if test v j then (base + j) ∷ set_bits base v (j + 1) n else set_bits base v (j + 1) n

abbrev value_of : Option ℕ → ℕ
value_of none = 0
value_of (some v) = v

-- The value of a hexadecimal digit, and of a text of digits behind `value`.
abbrev pub digit : ℕ → ℕ
digit c = value_of (hex_digit c)

abbrev pub hex_value : ℕ → List ℕ → ℕ
hex_value value [] = value
hex_value value (c ∷ chars) = hex_value (value * 16 + digit c) chars

abbrev pub IsHexDigit : ℕ → Type 0
IsHexDigit c = (hex_digit c ≡ some (digit c)) × (digit c < 16)

add_bit :
    (b : Bool) (k : ℕ) (result rest : List ℕ)
    → (if b then result ++ k ∷ [] else result) ++ rest ≡ result ++ (if b then k ∷ rest else rest)
add_bit true k result rest = append_assoc result (k ∷ []) rest
add_bit false k result rest = refl

push_bits-set_bits :
    (i v j n : ℕ) (result : List ℕ) → push_bits i v j n result ≡ result ++ set_bits (i * 4) v j n
push_bits-set_bits i v j zero result = sym (append-nil result)
push_bits-set_bits i v j (suc n) result =
    push_bits-set_bits i v (j + 1) n (if test v j then result ++ (i * 4 + j) ∷ [] else result)
    ∙ add_bit (test v j) (i * 4 + j) result (set_bits (i * 4) v (j + 1) n)

if_append :
    (b : Bool) (k : ℕ) (xs ys : List ℕ)
    → (if b then k ∷ xs else xs) ++ ys ≡ (if b then k ∷ (xs ++ ys) else xs ++ ys)
if_append true k xs ys = refl
if_append false k xs ys = refl

set_bits-append :
    (base v j m n : ℕ)
    → set_bits base v j (m + n) ≡ set_bits base v j m ++ set_bits base v (j + m) n
set_bits-append base v j zero n =
    let count : 0 + n ≡ n = omega arith in
    let from : j + 0 ≡ j = omega arith in rw (count, from) refl
set_bits-append base v j (suc m) n =
    let count : suc m + n ≡ suc (m + n) = omega arith in
    let from : j + 1 + m ≡ j + suc m = omega arith in
    let ih : set_bits base v (j + 1) (m + n)
        ≡ set_bits base v (j + 1) m ++ set_bits base v (j + suc m) n =
      set_bits-append base v (j + 1) m n
      ∙ ap (λ i. set_bits base v (j + 1) m ++ set_bits base v i n) from in
    ap (λ k. set_bits base v j k) count
    ∙ ap (λ r. if test v j then (base + j) ∷ r else r) ih
    ∙ sym (if_append (test v j) (base + j) (set_bits base v (j + 1) m) _)

pow_four : (j : ℕ) → 2 ^ (4 + j) ≡ 16 * 2 ^ j
pow_four zero = refl
pow_four (suc j) =
    let next : 4 + suc j ≡ suc (4 + j) = omega arith in
    ap (λ k. 2 ^ k) next ∙ omega (arith, pow-suc 2 (4 + j), pow-suc 2 j, pow_four j)

-- Behind a digit, the bits are those of the other digits.
test_higher : (d w j : ℕ) → d < 16 → test (d + 16 * w) (4 + j) ≡ test w j
test_higher d w j h =
    let rest : (d + 16 * w) / 16 ≡ w = omega arith in
    ap (λ q. q % 2 == 1)
      (ap (λ p. (d + 16 * w) / p) (pow_four j)
        ∙ sym (div-div-eq-div-mul (d + 16 * w) 16 (2 ^ j))
        ∙ ap (λ q. q / 2 ^ j) rest)

higher_bits :
    (base d w j n : ℕ) → d < 16 → set_bits base (d + 16 * w) (4 + j) n ≡ set_bits (base + 4) w j n
higher_bits base d w j zero h = refl
higher_bits base d w j (suc n) h =
    let ih : set_bits base (d + 16 * w) (4 + j + 1) n ≡ set_bits (base + 4) w (j + 1) n =
      ap (λ k. set_bits base (d + 16 * w) k n) (omega arith) ∙ higher_bits base d w (j + 1) n h in
    let k : base + (4 + j) ≡ base + 4 + j = omega arith in rw (test_higher d w j h, ih, k) refl

lower_bits : (base d w : ℕ) → d < 16 → set_bits base (d + 16 * w) 0 4 ≡ set_bits base d 0 4
lower_bits base d w h =
    rw (low 0 (omega arith), low 1 (omega arith), low 2 (omega arith), low 3 (omega arith)) refl
  where
    low : (j : ℕ) → (d + 16 * w) / 2 ^ j % 2 ≡ d / 2 ^ j % 2 → test (d + 16 * w) j ≡ test d j
    low j e = ap (λ q. q == 1) e

digit_bits :
    (base d w n : ℕ)
    → d < 16
    → set_bits base (d + 16 * w) 0 (4 + n) ≡ set_bits base d 0 4 ++ set_bits (base + 4) w 0 n
digit_bits base d w n h =
    set_bits-append base (d + 16 * w) 0 4 n
    ∙ ap (λ xs. xs ++ set_bits base (d + 16 * w) 4 n) (lower_bits base d w h)
    ∙ ap (λ ys. set_bits base d 0 4 ++ ys) (higher_bits base d w 0 n h)

-- The value of digits that are given from the last one to the first.
abbrev value_backwards : List ℕ → ℕ
value_backwards [] = 0
value_backwards (c ∷ digits) = digit c + 16 * value_backwards digits

parse_loop-set_bits :
    (i : ℕ) (digits result : List ℕ)
    → All IsHexDigit digits
    → parse_loop i digits result
      ≡ some (result ++ set_bits (i * 4) (value_backwards digits) 0 (length digits * 4))
unfolding parse_loop
parse_loop-set_bits i [] result h = ap some (sym (append-nil result))
parse_loop-set_bits i (c ∷ digits) result ((e, b), h) =
    let w : ℕ = value_backwards digits in
    let n : ℕ = length digits * 4 in
    let size : suc (length digits) * 4 ≡ 4 + n = omega arith in
    let base : (i + 1) * 4 ≡ i * 4 + 4 = omega arith in
    ap (λ r. elim r [ none ↦ none | some v ↦ parse_loop (i + 1) digits (push_bits i v 0 4 result) ])
      e
    ∙ parse_loop-set_bits (i + 1) digits (push_bits i (digit c) 0 4 result) h
    ∙ ap some (
        ap (λ r. r ++ set_bits ((i + 1) * 4) w 0 n) (push_bits-set_bits i (digit c) 0 4 result)
        ∙ append_assoc result (set_bits (i * 4) (digit c) 0 4) _
        ∙ ap (λ k. result ++ (set_bits (i * 4) (digit c) 0 4 ++ set_bits k w 0 n)) base
        ∙ ap (λ r. result ++ r) (sym (digit_bits (i * 4) (digit c) w n b))
        ∙ ap (λ m. result ++ set_bits (i * 4) (digit c + 16 * w) 0 m) (sym size))

backwards-hex_value :
    (chars done : List ℕ)
    → value_backwards (backwards chars done) ≡ hex_value (value_backwards done) chars
backwards-hex_value [] done = refl
backwards-hex_value (c ∷ chars) done =
    backwards-hex_value chars (c ∷ done) ∙ ap (λ v. hex_value v chars) (omega arith)

length-backwards :
    (chars done : List ℕ) → length (backwards chars done) ≡ length chars + length done
length-backwards [] done = omega arith
length-backwards (c ∷ chars) done = omega (arith, length-backwards chars (c ∷ done))

backwards-All :
    (chars done : List ℕ)
    → All IsHexDigit chars
    → All IsHexDigit done
    → All IsHexDigit (backwards chars done)
backwards-All [] done h k = k
backwards-All (c ∷ chars) done (h, hs) k = backwards-All chars (c ∷ done) hs (h, k)

-- For a text of hexadecimal digits, `ParseDiagStatus` gives the places of the bits that are set in the number which
-- the text is, four for each digit, from the lowest bit on.
pub parse_diag_status-set_bits :
    (diag_status : List ℕ)
    → All IsHexDigit diag_status
    → parse_diag_status diag_status
      ≡ some (set_bits 0 (hex_value 0 diag_status) 0 (length diag_status * 4))
unfolding parse_diag_status
parse_diag_status-set_bits diag_status h =
    let value : value_backwards (backwards diag_status []) ≡ hex_value 0 diag_status =
      backwards-hex_value diag_status [] in
    let size : length (backwards diag_status []) ≡ length diag_status =
      omega (arith, length-backwards diag_status []) in
    parse_loop-set_bits 0 (backwards diag_status []) [] (backwards-All diag_status [] h tt)
    ∙ ap some (
        ap (λ v. set_bits 0 v 0 (length (backwards diag_status []) * 4)) value
        ∙ ap (λ n. set_bits 0 (hex_value 0 diag_status) 0 (n * 4)) size)
