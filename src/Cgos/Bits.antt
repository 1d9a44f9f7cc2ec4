-- ===== src/Cgos/Bits.antt =====
-- The bits of a word with one bit set or cleared: by evaluation, for the eight pins of the board.
use Prim.Native.Nat.{bit_or}
use hsrb_drivers.Prelude.{
  ℕ, zero, suc, ◌^◌, ◌<◌, ◌≡◌, refl, Bool, true, false, ◌&&◌, ltb, ltb→lt, ◌==◌, if◌then◌else◌,
  arith,
}
use hsrb_drivers.Cgos.Gpio.{is_set, without}

-- The test at every number under a bound.
on_all : (ℕ → Bool) → ℕ → Bool
on_all test zero = true
on_all test (suc bound) = if test bound then on_all test bound else false

on_all-at : (test : ℕ → Bool) (bound k : ℕ) → k < bound → on_all test bound ≡ true → test k ≡ true
unfolding on_all
on_all-at test zero k l t = absurd (omega arith)
on_all-at test (suc bound) k l t = ground (arith, on_all-at test bound k)

abbrev same : Bool → Bool → Bool
same true b = b
same false true = false
same false false = true

same_sound : (a b : Bool) → same a b ≡ true → a ≡ b
same_sound true b h = ground arith
same_sound false true h = ground arith
same_sound false false h = refl

-- `word'` is `word` with the bit of pin `p` replaced by `b`, at pin `k`.
abbrev replaced : ℕ → ℕ → ℕ → ℕ → Bool → Bool
replaced word' word p k b =
    ltb word' 256 && same (is_set word' (2 ^ k)) (if 2 ^ p == 2 ^ k then b else is_set word (2 ^ k))

abbrev both : ℕ → ℕ → ℕ → Bool
both word p k =
    replaced (bit_or word (2 ^ p)) word p k true && replaced (without word (2 ^ p)) word p k false

abbrev row : ℕ → ℕ → ℕ → Bool
row p k word = both word p k

table : on_all (λ p. on_all (λ k. on_all (row p k) 256) 8) 8 ≡ true
unfolding on_all
table = refl

both-holds : (word p k : ℕ) → word < 256 → p < 8 → k < 8 → both word p k ≡ true
both-holds word p k small hp hk = on_all-at (row p k) 256 word small (
    on_all-at (λ k. on_all (row p k) 256) 8 k hk
      (on_all-at (λ p. on_all (λ k. on_all (row p k) 256) 8) 8 p hp table))

and_left : (a b : Bool) → a && b ≡ true → a ≡ true
and_left a b h = ground arith

and_right : (a b : Bool) → a && b ≡ true → b ≡ true
and_right a b h = ground arith

-- A word of eight bits with the bit of a pin set: it has eight bits, and no other bit has changed.
pub set_bit :
    (word p k : ℕ)
    → word < 256
    → p < 8
    → k < 8
    → bit_or word (2 ^ p) < 256
      × is_set (bit_or word (2 ^ p)) (2 ^ k)
        ≡ (if 2 ^ p == 2 ^ k then true else is_set word (2 ^ k))
set_bit word p k small hp hk = (ltb→lt _ 256 (and_left _ _ h), same_sound _ _ (and_right _ _ h))
  where
    h : replaced (bit_or word (2 ^ p)) word p k true ≡ true
    h = and_left _ _ (both-holds word p k small hp hk)

-- The same for a bit that is cleared.
pub clear_bit :
    (word p k : ℕ)
    → word < 256
    → p < 8
    → k < 8
    → without word (2 ^ p) < 256
      × is_set (without word (2 ^ p)) (2 ^ k)
        ≡ (if 2 ^ p == 2 ^ k then false else is_set word (2 ^ k))
clear_bit word p k small hp hk = (ltb→lt _ 256 (and_left _ _ h), same_sound _ _ (and_right _ _ h))
  where
    h : replaced (without word (2 ^ p)) word p k false ≡ true
    h = and_right (replaced (bit_or word (2 ^ p)) word p k true) _ (both-holds word p k small hp hk)

no_bits : on_all (λ k. same (is_set 0 (2 ^ k)) false) 8 ≡ true
unfolding on_all
no_bits = refl

pub no_bit : (k : ℕ) → k < 8 → is_set 0 (2 ^ k) ≡ false
no_bit k hk = same_sound _ _ (on_all-at (λ k. same (is_set 0 (2 ^ k)) false) 8 k hk no_bits)
