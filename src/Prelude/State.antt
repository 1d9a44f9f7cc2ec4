-- ===== src/Prelude/State.antt =====
-- Methods: functions on a state that return a value, or `none` where the call does not come back. `Ensures` is a
-- postcondition of those that do.
use mathlib.Core.Path.{◌≡◌, refl}
use mathlib.Core.Logic.{◌≢◌}
use mathlib.Core.Bool.{Bool, true, false}
use mathlib.Core.Option.{Option, none, some}
use hsrb_drivers.Prelude.Tests.{if◌then◌else◌}

abbrev pub Method : Type 0 → Type 0 → Type 0
Method S A = S → Option (A × S)

module _ {S : Type 0} where
  abbrev pub pure : {A : Type 0} → A → Method S A
  pure a s = some (a, s)

  -- A call that does not come back.
  abbrev pub never : {A : Type 0} → Method S A
  never s = none

  infixl 5 ◌>>=◌ ◌>>◌
  abbrev pub ◌>>=◌ : {A B : Type 0} → Method S A → (A → Method S B) → Method S B
  ◌>>=◌ m f s = elim (m s) [ none ↦ none | some (a, s') ↦ f a s' ]

  abbrev pub ◌>>◌ : {B : Type 0} → Method S (Unit {0}) → Method S B → Method S B
  m >> k = m >>= λ _. k

  pub data Ensures {A : Type 0} (P : A → S → Type 0) : Option (A × S) → Type 0 where
    stops : Ensures P none
    gives : (a : A) (s : S) → P a s → Ensures P (some (a, s))

  -- A step, and what follows it.
  pub then_Ensures :
      {A B : Type 0} (P : A → S → Type 0) (Q : B → S → Type 0) (m : Method S A) (f : A → Method S B)
      (s : S)
      → Ensures P (m s)
      → ((a : A) (s' : S) → P a s' → Ensures Q (f a s'))
      → Ensures Q ((m >>= f) s)
  then_Ensures {A} {B} P Q m f s e h = after (m s) e
    where
      after :
          (r : Option (A × S))
          → Ensures P r
          → Ensures Q (elim r [ none ↦ none | some (a, s') ↦ f a s' ])
      after none stops = stops
      after (some (a, s')) (gives _ _ p) = h a s' p

  pub if_Ensures :
      {A : Type 0} (Q : A → S → Type 0) (b : Bool) (m k : Method S A) (s : S)
      → (b ≡ true → Ensures Q (m s))
      → (b ≡ false → Ensures Q (k s))
      → Ensures Q ((if b then m else k) s)
  if_Ensures Q true m k s h g = h refl
  if_Ensures Q false m k s h g = g refl

  pub weaken :
      {A : Type 0} (P Q : A → S → Type 0) {r : Option (A × S)}
      → ((a : A) (s : S) → P a s → Q a s)
      → Ensures P r
      → Ensures Q r
  weaken P Q h stops = stops
  weaken P Q h (gives a s p) = gives a s (h a s p)

  -- A postcondition, and which call it is that came back.
  pub with_result :
      {A : Type 0} (P : A → S → Type 0) {r : Option (A × S)}
      → Ensures P r
      → Ensures (λ a s. P a s × (r ≡ some (a, s))) r
  with_result P stops = stops
  with_result P (gives a s p) = gives a s (p, refl)

  -- What holds of a result that came back.
  pub of_some : {A : Type 0} (P : A → S → Type 0) (a : A) (s : S) → Ensures P (some (a, s)) → P a s
  of_some P a s (gives _ _ p) = p

  -- A call that comes back, with what holds then.
  pub data Returns {A : Type 0} (P : A → S → Type 0) : Option (A × S) → Type 0 where
    returns : (a : A) (s : S) → P a s → Returns P (some (a, s))

  pub then_Returns :
      {A B : Type 0} (P : A → S → Type 0) (Q : B → S → Type 0) (m : Method S A) (f : A → Method S B)
      (s : S)
      → Returns P (m s)
      → ((a : A) (s' : S) → P a s' → Returns Q (f a s'))
      → Returns Q ((m >>= f) s)
  then_Returns {A} {B} P Q m f s e h = after (m s) e
    where
      after :
          (r : Option (A × S))
          → Returns P r
          → Returns Q (elim r [ none ↦ none | some (a, s') ↦ f a s' ])
      after none x = elim x [ ]
      after (some (a, s')) (returns _ _ p) = h a s' p

  pub if_Returns :
      {A : Type 0} (Q : A → S → Type 0) (b : Bool) (m k : Method S A) (s : S)
      → (b ≡ true → Returns Q (m s))
      → (b ≡ false → Returns Q (k s))
      → Returns Q ((if b then m else k) s)
  if_Returns Q true m k s h g = h refl
  if_Returns Q false m k s h g = g refl

  pub weaken_Returns :
      {A : Type 0} (P Q : A → S → Type 0) {r : Option (A × S)}
      → ((a : A) (s : S) → P a s → Q a s)
      → Returns P r
      → Returns Q r
  weaken_Returns P Q h (returns a s p) = returns a s (h a s p)

  pub Returns-ne-none :
      {A : Type 0} (P : A → S → Type 0) {r : Option (A × S)} → Returns P r → r ≢ none
  Returns-ne-none P (returns a s p) e = absurd (cc)
