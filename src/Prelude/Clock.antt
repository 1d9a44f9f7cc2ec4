-- ===== src/Prelude/Clock.antt =====
-- The rounds of a loop that watches a clock: what each round observes, with the clock at its end.
use Prim.Native.Nat.{ℕ, ◌<◌}
use mathlib.Core.List.{List, [], ◌∷◌}

-- Every round takes at least one tick of the clock.
abbrev pub Ticks {ℓ} : {A : Type ℓ} → ℕ → List (A × ℕ) → Type 0
Ticks elapsed [] = Unit {0}
Ticks elapsed ((_, now) ∷ rounds) = (elapsed < now) × Ticks now rounds
