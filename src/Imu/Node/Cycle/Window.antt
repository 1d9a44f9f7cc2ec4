-- ===== src/Imu/Node/Cycle/Window.antt =====
-- The ring buffer of `RunLoopImpl` as the window of the last hundred cycles, and the loop over that window.
use hsrb_drivers.Prelude.{
  ℕ, zero, suc, ◌+◌, ◌≤◌, ◌<◌, ◌≡◌, inl, inr, refl, sym, ap, ◌∙◌, Bool, true, false, not, ◌&&◌,
  List, [], ◌∷◌, ◌++◌, ◌==◌, if◌then◌else◌, length, append_assoc, append-nil, take, drop,
  take-append-drop, arith, get_or, Bool-cases, ==→eq,
}
use mathlib.Core.Path.{subst}
use hsrb_drivers.Imu.Node.Cycle.{
  cycle_over_buffer_num, u8, Cycle, Checks, set, repeat, start, count_cycle, record_cycle,
  run_cycles,
}

-- The number of cycles in the buffer that took too long.
abbrev pub overs : List Bool → ℕ
overs [] = 0
overs (true ∷ xs) = suc (overs xs)
overs (false ∷ xs) = overs xs

-- The buffer holds the cycles of `window`, the oldest one at the position that is written next, and the counter is
-- the number of them that took too long.
pub record IsCounted (window : List Bool) (c : Cycle) : Type 0 where
  pub full : length c.cycle_over_buffer ≡ cycle_over_buffer_num
  pub inside : c.buffer_position < cycle_over_buffer_num
  pub ring :
      drop c.buffer_position c.cycle_over_buffer ++ take c.buffer_position c.cycle_over_buffer
      ≡ window
  pub exact : c.cycle_over_count ≡ overs window

abbrev bit : Bool → ℕ
bit true = 1
bit false = 0

overs-le : (xs : List Bool) → overs xs ≤ length xs
overs-le [] = omega arith
overs-le (true ∷ xs) = omega (arith, overs-le xs)
overs-le (false ∷ xs) = omega (arith, overs-le xs)

length-set : (xs : List Bool) (i : ℕ) (v : Bool) → length (set xs i v) ≡ length xs
length-set [] i v = refl
length-set (x ∷ xs) zero v = refl
length-set (x ∷ xs) (suc i) v = ap suc (length-set xs i v)

overs-set :
    (xs : List Bool) (i : ℕ) (v : Bool)
    → i < length xs
    → overs (set xs i v) + bit (get_or xs i false) ≡ overs xs + bit v
overs-set [] i v h = absurd (omega arith)
overs-set (true ∷ xs) zero v h = ground arith
overs-set (false ∷ xs) zero v h = ground arith
overs-set (true ∷ xs) (suc i) v h = omega (arith, overs-set xs i v (omega arith))
overs-set (false ∷ xs) (suc i) v h = omega (arith, overs-set xs i v (omega arith))

overs-append : (xs ys : List Bool) → overs (xs ++ ys) ≡ overs xs + overs ys
overs-append [] ys = omega arith
overs-append (true ∷ xs) ys = omega (arith, overs-append xs ys)
overs-append (false ∷ xs) ys = overs-append xs ys

overs-ring : (xs : List Bool) (i : ℕ) → overs (drop i xs ++ take i xs) ≡ overs xs
overs-ring xs i = omega (
  arith,
  overs-append (drop i xs) (take i xs),
  overs-append (take i xs) (drop i xs),
  ap overs (take-append-drop i xs),
)

repeat_lem : (n : ℕ) → (length (repeat n) ≡ n) × (overs (repeat n) ≡ 0)
repeat_lem zero = (refl, refl)
repeat_lem (suc n) = omega (arith, repeat_lem n)

pub start-IsCounted : IsCounted (repeat 100) start
unfolding start
start-IsCounted = record {
  full = (repeat_lem 100).0;
  inside = omega arith;
  ring = append-nil (repeat 100);
  exact = sym (repeat_lem 100).1;
}

drop-set :
    (xs : List Bool) (i : ℕ) (v : Bool)
    → i < length xs
    → drop (suc i) (set xs i v) ≡ drop (suc i) xs
drop-set [] i v h = refl
drop-set (x ∷ xs) zero v h = refl
drop-set (x ∷ xs) (suc i) v h = drop-set xs i v (omega arith)

take-set :
    (xs : List Bool) (i : ℕ) (v : Bool)
    → i < length xs
    → take (suc i) (set xs i v) ≡ take i xs ++ v ∷ []
take-set [] i v h = absurd (omega arith)
take-set (x ∷ xs) zero v h = refl
take-set (x ∷ xs) (suc i) v h = ap (λ l. x ∷ l) (take-set xs i v (omega arith))

drop_next :
    (xs ys : List Bool) (i : ℕ) → i < length xs → drop 1 (drop i xs ++ ys) ≡ drop (suc i) xs ++ ys
drop_next [] ys i h = absurd (omega arith)
drop_next (x ∷ xs) ys zero h = refl
drop_next (x ∷ xs) ys (suc i) h = drop_next xs ys i (omega arith)

-- A write at the position moves the window on by one cycle.
ring-set :
    (xs : List Bool) (i : ℕ) (v : Bool)
    → i < length xs
    → drop (suc i) (set xs i v) ++ take (suc i) (set xs i v)
      ≡ drop 1 ((drop i xs ++ take i xs) ++ v ∷ [])
ring-set xs i v h =
    rw (drop-set xs i v h, take-set xs i v h)
      (sym (drop_next xs (take i xs ++ v ∷ []) i h)
        ∙ ap (drop 1) (sym (append_assoc (drop i xs) (take i xs) (v ∷ []))))

drop_all : (xs : List Bool) (n : ℕ) → length xs ≤ n → drop n xs ≡ []
drop_all [] zero h = refl
drop_all [] (suc n) h = refl
drop_all (x ∷ xs) zero h = absurd (omega arith)
drop_all (x ∷ xs) (suc n) h = drop_all xs n (omega arith)

take_all : (xs : List Bool) (n : ℕ) → length xs ≤ n → take n xs ≡ xs
take_all [] zero h = refl
take_all [] (suc n) h = refl
take_all (x ∷ xs) zero h = absurd (omega arith)
take_all (x ∷ xs) (suc n) h = ap (λ l. x ∷ l) (take_all xs n (omega arith))

-- The position behind the last one is the first.
ring_wraps :
    (xs : List Bool) (n : ℕ) → length xs ≡ n → drop 0 xs ++ take 0 xs ≡ drop n xs ++ take n xs
ring_wraps xs n h =
    append-nil xs ∙ rw (drop_all xs n (omega arith), take_all xs n (omega arith)) refl

advance :
    (xs : List Bool) (i : ℕ)
    → length xs ≡ cycle_over_buffer_num
    → i < cycle_over_buffer_num
    → (next : ℕ) × (next ≡ (if u8 (i + 1) == cycle_over_buffer_num then 0 else u8 (i + 1)))
      × (next < cycle_over_buffer_num)
      × (drop next xs ++ take next xs ≡ drop (suc i) xs ++ take (suc i) xs)
advance xs i h l = elim (Bool-cases (u8 (i + 1) == cycle_over_buffer_num)) [
  | inl e ↦
      let last : suc i ≡ cycle_over_buffer_num = omega (arith, ==→eq _ _ e) in
      (0, rw e refl, omega arith, ring_wraps xs (suc i) (h ∙ sym last))
  | inr e ↦
      let next : suc i ≡ u8 (i + 1) = omega arith in
      (u8 (i + 1), rw e refl, ground (arith, e), ap (λ k. drop k xs ++ take k xs) (sym next))
]

count_cycle-IsCounted :
    (over : Bool) (window : List Bool) (c : Cycle)
    → IsCounted window c
    → IsCounted (drop 1 (window ++ over ∷ [])) (count_cycle over c)
unfolding count_cycle
count_cycle-IsCounted over window c w =
    let xs = c.cycle_over_buffer in
    let i = c.buffer_position in
    let long : length (set xs i over) ≡ cycle_over_buffer_num =
      omega (arith, length-set xs i over, w.full) in
    let before : c.cycle_over_count ≡ overs xs =
      w.exact ∙ sym (ap overs w.ring) ∙ overs-ring xs i in
    let (next, e, inside, turned) = advance (set xs i over) i long w.inside in
    let moved : drop next (set xs i over) ++ take next (set xs i over)
        ≡ drop 1 (window ++ over ∷ []) =
      turned
      ∙ ring-set xs i over (omega (arith, w.full, w.inside))
      ∙ ap (λ r. drop 1 (r ++ over ∷ [])) w.ring in
    record {
      full = long;
      inside = rw (sym e) inside;
      ring = rw (sym e) moved;
      exact =
          ground (
            arith,
            overs-set xs i over,
            overs-le xs,
            overs-le (set xs i over),
            length-set xs i over,
            w.full,
            w.inside,
            before,
          )
          ∙ sym (overs-ring (set xs i over) next)
          ∙ ap overs moved;
    }

-- The last hundred cycles, after one more.
abbrev pub slid : List Bool → Bool → List Bool
slid window over = drop 1 (window ++ over ∷ [])

module _ (checks : Checks) where
  -- The loop over a window of cycles and the cycles since the last check, which a byte counts: `ran` ends with the
  -- cycles, a round is `unchecked` while the interval has not passed, and else it has `passed` the check, or is `stopped`
  -- by it.
  pub data Ran : List Bool → ℕ → List Bool → Bool × Cycle → Type 0 where
    ran :
        (window : List Bool) (c : Cycle)
        → IsCounted window c
        → Ran window c.cycle_count [] (true, c)
    unchecked :
        (window : List Bool) (count : ℕ) (over : Bool) (cycles : List Bool) (r : Bool × Cycle)
        → checks.is_interval (u8 (count + 1)) ≡ false
        → Ran (slid window over) (u8 (count + 1)) cycles r
        → Ran window count (over ∷ cycles) r
    passed :
        (window : List Bool) (count : ℕ) (over : Bool) (cycles : List Bool) (r : Bool × Cycle)
        → checks.is_interval (u8 (count + 1)) ≡ true
        → (checks.check_cycle && checks.is_error (overs (slid window over))) ≡ false
        → Ran (slid window over) 0 cycles r
        → Ran window count (over ∷ cycles) r
    stopped :
        (window : List Bool) (count : ℕ) (over : Bool) (cycles : List Bool) (c : Cycle)
        → checks.is_interval (u8 (count + 1)) ≡ true
        → (checks.check_cycle && checks.is_error (overs (slid window over))) ≡ true
        → IsCounted (slid window over) c
        → c.cycle_count ≡ 0
        → Ran window count (over ∷ cycles) (false, c)

  -- The end of a round: whether the loop goes on, and the counters then.
  abbrev checked : Bool → Bool → Cycle → Bool × Cycle
  checked interval bad c = if interval then (not bad, record c { cycle_count = 0 }) else (true, c)

  after_check :
      (over : Bool) (window cycles : List Bool) (count : ℕ) (interval bad : Bool) (c : Cycle)
      → IsCounted (slid window over) c
      → c.cycle_count ≡ u8 (count + 1)
      → checks.is_interval (u8 (count + 1)) ≡ interval
      → (checks.check_cycle && checks.is_error (overs (slid window over))) ≡ bad
      → ((c' : Cycle)
          → IsCounted (slid window over) c'
          → Ran (slid window over) c'.cycle_count cycles (run_cycles checks cycles c'))
      → Ran window count (over ∷ cycles) (
          if (checked interval bad c).0
          then run_cycles checks cycles (checked interval bad c).1
          else (false, (checked interval bad c).1))
  after_check over window cycles count false bad c w n e f more =
      unchecked window count over cycles _ e
        (subst (λ k. Ran (slid window over) k cycles (run_cycles checks cycles c)) n (more c w))
  after_check over window cycles count true false c w n e f more =
      passed window count over cycles _ e f (
        more (record c { cycle_count = 0 })
          (record { full = w.full; inside = w.inside; ring = w.ring; exact = w.exact }))
  after_check over window cycles count true true c w n e f more =
      stopped window count over cycles _ e f
        (record { full = w.full; inside = w.inside; ring = w.ring; exact = w.exact }) refl

  -- From a state whose buffer holds the hundred cycles of `window`, the loop runs as one that keeps the last hundred
  -- cycles themselves: the check is made whenever the cycles since the last one fill the interval, as a byte counts them;
  -- the loop stops just when a check is asked for and finds the rate of the cycles that took too long, among the last
  -- hundred, above the tolerance; and it leaves the counter, a byte that never wraps, at their number.
  pub run_cycles-Ran :
      (cycles window : List Bool) (c : Cycle)
      → IsCounted window c
      → Ran window c.cycle_count cycles (run_cycles checks cycles c)
  unfolding run_cycles record_cycle count_cycle
  run_cycles-Ran [] window c w = ran window c w
  run_cycles-Ran (over ∷ cycles) window c w =
      let w' = count_cycle-IsCounted over window c w in
      after_check over window cycles c.cycle_count _ _ (count_cycle over c) w' refl refl
        (ap (λ k. checks.check_cycle && checks.is_error k) (sym w'.exact))
        (run_cycles-Ran cycles (slid window over))
