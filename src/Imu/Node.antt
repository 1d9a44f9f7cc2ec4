-- ===== src/Imu/Node.antt =====
-- `MPU9150Node` of mpu9150_node.cpp: the retries, the reset on request, and the watch over the cycle time.
-- The floating point comparisons of the loop are given by their outcomes.
pub mod Cycle
pub mod Retry
pub mod Driven
use hsrb_drivers.Prelude.{
  ℕ, zero, suc, ◌+◌, ◌*◌, ◌%◌, Bool, true, false, not, Option, none, some, List, [], ◌∷◌,
  if◌then◌else◌,
}
use hsrb_drivers.Imu.Network.{ErrorCode, success}
use hsrb_drivers.Imu.Protocol.{
  ImuNetwork, Mpu9150Protocol, Protocol, Tried, ResetResult, done, error, continue, Reading, kept,
  is_error, read_state, try_reset, reset,
}

abbrev pub retry_count : ℕ
retry_count = 3

-- `TryWithRetry`, for a `retry` below 2^32 - 1: `func` is called once and then up to `retry` times more. `none`
-- is a call that does not come back.
unfoldable pub try_with_retry :
    {S : Type 0} → (S → Option (ErrorCode × S)) → ℕ → S → Option (ErrorCode × S)
try_with_retry func zero s = func s
try_with_retry func (suc retry) s = elim (func s) [
  | none ↦ none
  | some (e, s') ↦ elim (is_error e) [ true ↦ try_with_retry func retry s' | false ↦ some (e, s') ]
]

module _ (network : ImuNetwork) where
  pub record Mpu9150Node : Type 0 where
    pub disable_imu : Bool
    pub reset_imu : Bool
    pub protocol : Protocol network
    -- What is published, if it has been read.
    pub imu_output : Option Reading

  -- `ResetImuCallback`, which holds the mutex.
  unfoldable pub reset_imu_callback : Mpu9150Node → Mpu9150Node
  reset_imu_callback n = record n { reset_imu = true }

  abbrev keeps_resetting : ResetResult → Bool
  keeps_resetting continue = true
  keeps_resetting _ = false

  abbrev pub after_try : Mpu9150Node → Tried network → Option Mpu9150Node
  after_try n none = none
  after_try n (some (code, result, protocol)) =
      some (record n { protocol = protocol; reset_imu = keeps_resetting result })

  -- `Write`; `locked` says that the callback holds the mutex.
  unfoldable pub write : Bool → ℕ → ℕ → Mpu9150Node → Option Mpu9150Node
  write locked now now' n =
      if n.disable_imu
      then some n
      else if locked
      then some n
      else if n.reset_imu
      then after_try n (try_reset network now now' n.protocol)
      else some n

  abbrev output : Reading → Option Reading → Option Reading
  output kept old = old
  output reading old = some reading

  abbrev pub after_read :
      Mpu9150Node → Option (ErrorCode × Reading × Protocol network) → Option Mpu9150Node
  after_read n none = none
  after_read n (some (code, reading, protocol)) =
      some (record n { protocol = protocol; imu_output = output reading n.imu_output })

  -- `Read`
  unfoldable pub read : Mpu9150Node → Option Mpu9150Node
  read n = if n.disable_imu then some n else after_read n (read_state network n.protocol)
