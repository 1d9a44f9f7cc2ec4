-- ===== src/Imu/Node/Retry.antt =====
-- `TryWithRetry`: how often it calls its function, and with what result it stops.
use hsrb_drivers.Prelude.{
  ℕ, zero, suc, ◌≤◌, ◌≡◌, true, false, Option, some, arith, Option-cases, Bool-cases, inl, inr,
}
use hsrb_drivers.Imu.Network.{ErrorCode}
use hsrb_drivers.Imu.Protocol.{is_error}
use hsrb_drivers.Imu.Node.{try_with_retry}

-- So many calls in a row that return an error, from one state to another.
pub data Failing {S : Type 0} (func : S → Option (ErrorCode × S)) : ℕ → S → S → Type 0 where
  no_call : (s : S) → Failing func zero s s
  call :
      {n : ℕ} {s u : S} (e : ErrorCode) (t : S)
      → func s ≡ some (e, t)
      → is_error e ≡ true
      → Failing func n t u
      → Failing func (suc n) s u

-- How a call of `TryWithRetry` that returns has gone: a call without an error ends it, after at most `retry`
-- calls that failed, or all of the `retry + 1` calls failed.
pub record Succeeded {S : Type 0} (func : S → Option (ErrorCode × S)) (retry : ℕ) (s : S)
    (e : ErrorCode) (s' : S) : Type 0 where
  pub fails : ℕ
  pub few : fails ≤ retry
  pub last : S
  pub failing : Failing func fails s last
  pub returns : func last ≡ some (e, s')

module _ {S : Type 0} (func : S → Option (ErrorCode × S)) where
  pub try_with_retry-Succeeded :
      (retry : ℕ) (s : S) (e : ErrorCode) (s' : S)
      → try_with_retry func retry s ≡ some (e, s')
      → is_error e ≡ false
      → Succeeded func retry s e s'
  unfolding try_with_retry
  try_with_retry-Succeeded zero s e s' h good = record {
    fails = 0;
    few = omega arith;
    last = s;
    failing = no_call s;
    returns = h;
  }
  try_with_retry-Succeeded (suc retry) s e s' h good = elim (Option-cases (func s)) [
    | inl out ↦ absurd (ground (arith, out))
    | inr ((e₁, t), r) ↦ elim (Bool-cases (is_error e₁)) [
      | inl bad ↦
          let w = try_with_retry-Succeeded retry t e s' (ground (arith, r, bad)) good in
          record {
            fails = suc w.fails;
            few = omega (arith, w.few);
            last = w.last;
            failing = call e₁ t r bad w.failing;
            returns = w.returns;
          }
      | inr fine ↦ record {
        fails = 0;
        few = omega arith;
        last = s;
        failing = no_call s;
        returns = ground (arith, r, fine);
      }
    ]
  ]

  pub try_with_retry-Failing :
      (retry : ℕ) (s : S) (e : ErrorCode) (s' : S)
      → try_with_retry func retry s ≡ some (e, s')
      → is_error e ≡ true
      → Failing func (suc retry) s s'
  unfolding try_with_retry
  try_with_retry-Failing zero s e s' h bad = call e s' h bad (no_call s')
  try_with_retry-Failing (suc retry) s e s' h bad = elim (Option-cases (func s)) [
    | inl out ↦ absurd (ground (arith, out))
    | inr ((e₁, t), r) ↦ elim (Bool-cases (is_error e₁)) [
      | inl again ↦
          call e₁ t r again (try_with_retry-Failing retry t e s' (ground (arith, r, again)) bad)
      | inr fine ↦ absurd (ground (arith, r, fine))
    ]
  ]

  -- If `TryWithRetry` returns without an error, then so did the last of its calls, which came after at most
  -- `retry` that failed; if it returns an error, it has made `retry + 1` calls, and all of them failed.
  try_with_retry_lem :
      (retry : ℕ) (s : S) (e : ErrorCode) (s' : S)
      → try_with_retry func retry s ≡ some (e, s')
      → (is_error e ≡ false → Succeeded func retry s e s')
        × (is_error e ≡ true → Failing func (suc retry) s s')
  try_with_retry_lem retry s e s' h = (
    λ good. try_with_retry-Succeeded retry s e s' h good,
    λ bad. try_with_retry-Failing retry s e s' h bad,
  )
