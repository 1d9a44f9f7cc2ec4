-- ===== src/Imu/Node/Cycle.antt =====
-- The counters of the loop of `RunLoopImpl` of mpu9150_node.cpp: the cycles that took too long, and the check of their
-- rate.
pub mod Window
use hsrb_drivers.Prelude.{
  ℕ, zero, suc, ◌+◌, ◌%◌, ◌≤◌, ◌<◌, ◌≡◌, refl, sym, ap, Bool, true, false, not, List, [], ◌∷◌, ◌==◌,
  if◌then◌else◌, ◌&&◌, get_or,
}

abbrev pub cycle_over_buffer_num : ℕ
cycle_over_buffer_num = 100

-- The counters are `uint8_t`.
abbrev pub u8 : ℕ → ℕ
u8 n = n % 256

pub record Cycle : Type 0 where
  pub cycle_count : ℕ
  pub cycle_over_count : ℕ
  pub buffer_position : ℕ
  pub cycle_over_buffer : List Bool

-- A write at a position.
abbrev pub set : List Bool → ℕ → Bool → List Bool
set [] i v = []
set (x ∷ xs) zero v = v ∷ xs
set (x ∷ xs) (suc i) v = x ∷ set xs i v

abbrev pub repeat : ℕ → List Bool
repeat zero = []
repeat (suc n) = false ∷ repeat n

unfoldable pub start : Cycle
start = record {
  cycle_count = 0;
  cycle_over_count = 0;
  buffer_position = 0;
  cycle_over_buffer = repeat cycle_over_buffer_num;
}

abbrev pub counted : Bool → Bool → ℕ → ℕ
counted over was count =
    if over
    then if not was then u8 (count + 1) else count
    else if was
    then u8 (count + 255)
    else count

-- The tests on floating point numbers, and the argument of the loop: whether the time of a number of cycles is above
-- `kCycleOverCheckInterval`, and whether the rate of a count is above the tolerance of an error.
pub record Checks : Type 0 where
  pub is_interval : ℕ → Bool
  pub is_error : ℕ → Bool
  pub check_cycle : Bool

-- The counters after the cycle is recorded and before the check: `over` says that the cycle took too long.
unfoldable pub count_cycle : Bool → Cycle → Cycle
count_cycle over c =
    let was = get_or c.cycle_over_buffer c.buffer_position false in
    let next = u8 (c.buffer_position + 1) in
    record {
      cycle_count = u8 (c.cycle_count + 1);
      cycle_over_count = counted over was c.cycle_over_count;
      buffer_position = if next == cycle_over_buffer_num then 0 else next;
      cycle_over_buffer = set c.cycle_over_buffer c.buffer_position over;
    }

module _ (checks : Checks) where
  -- The statements on the counters in one round, and whether the loop goes on.
  unfoldable pub record_cycle : Bool → Cycle → Bool × Cycle
  unfolding count_cycle
  record_cycle over c =
      let c' = count_cycle over c in
      if checks.is_interval c'.cycle_count
      then (
        not (checks.check_cycle && checks.is_error c'.cycle_over_count),
        record c' { cycle_count = 0 },
      )
      else (true, c')

  -- The loop over cycles.
  unfoldable pub run_cycles : List Bool → Cycle → Bool × Cycle
  unfolding record_cycle
  run_cycles [] c = (true, c)
  run_cycles (over ∷ cycles) c =
      let (goes_on, c') = record_cycle over c in
      if goes_on then run_cycles cycles c' else (false, c')
