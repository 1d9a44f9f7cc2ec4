-- ===== src/Servo/Reprograming.antt =====
-- `ExxxReprograming` of hsrb_servomotor_protocol/src/hsrb_servomotor_protocol/exxx_reprograming.cpp: the bytes and
-- the lines that it exchanges with the boot loader of an amplifier.
pub mod Transport
pub mod Lines
pub mod Xmodem
pub mod Send
pub mod Answers
pub mod Commands
pub mod Exchange
pub mod Requests
pub mod Transfer
pub mod Boot
pub mod Blocks
pub mod Erasure
pub mod Flashing
pub mod Clocked
pub mod Rounds
pub mod Termination
use hsrb_drivers.Prelude.{
  ℕ, zero, suc, ◌+◌, ◌-◌, ◌*◌, ◌^◌, Bool, true, false, not, ◌&&◌, ◌||◌, Option, none, some, List,
  [], ◌∷◌, ◌++◌, ltb, leb, ◌==◌, if◌then◌else◌, length, take, drop, Method, pure, never, ◌>>=◌,
  ◌>>◌,
}
use hsrb_drivers.Posix.{
  ErrorCode, errc_success, interrupted, invalid_argument, Written, Polled, Slept, slept, stopped,
  Event, got, put, taken,
}

-- `byte` is what the variable holds after a `read` that does not fail, also one that reads nothing.
pub data ReadByte : Type 0 where
  byte : ℕ → ReadByte
  read_failed : ℕ → ReadByte

-- The system calls on the open device, and the clock in nanoseconds.
pub record ISystem : Type 1 where
  pub System : Type 0
  pub now : System → ℕ × System
  pub write : List ℕ → System → Written × System
  pub poll : ℕ → System → Polled × System
  pub read : System → ReadByte × System
  pub sleep : ℕ → System → Slept × System

-- The settings of the object, the system, and the bytes so far, the newest first.
pub record ExxxReprograming (System : Type 0) : Type 0 where
  pub timeout : ℕ
  pub sleep_tick : ℕ
  pub system : System
  pub log : List Event

-- The loops over a clock or over bytes that arrive are given the rounds that they may take: `none` says that
-- `fuel` rounds were not enough.
module _ (sys : ISystem) (fuel : ℕ) where
  open sys use {System}

  abbrev pub Call : Type 0 → Type 0
  Call A = Method (ExxxReprograming System) A

  abbrev pub clock : Call ℕ
  clock s = let r = sys.now s.system in some (r.0, record s { system = r.1 })

  abbrev pub write_bytes : List ℕ → Call Written
  write_bytes bytes s =
      let r = sys.write bytes s.system in
      some (r.0, record s { system = r.1; log = put (taken r.0 bytes) s.log })

  abbrev pub poll_device : Call Polled
  poll_device s = let r = sys.poll s.timeout s.system in some (r.0, record s { system = r.1 })

  abbrev pub logged : ReadByte → List Event → List Event
  logged (byte b) log = got b ∷ log
  logged (read_failed e) log = log

  abbrev pub read_device : Call ReadByte
  read_device s =
      let r = sys.read s.system in some (r.0, record s { system = r.1; log = logged r.0 s.log })

  abbrev sleep_for : ℕ → Call Slept
  sleep_for nsec s = let r = sys.sleep nsec s.system in some (r.0, record s { system = r.1 })

  abbrev pub after_sleep : Slept → (ℕ → Call ErrorCode) → Call ErrorCode
  after_sleep slept again = pure errc_success
  after_sleep (stopped e left) again =
      if e == interrupted then again left else pure invalid_argument

  -- The loop of `WaitNanoSec`.
  unfoldable pub wait_loop : ℕ → ℕ → Call ErrorCode
  wait_loop zero nsec = never
  wait_loop (suc n) nsec = do result ← sleep_for nsec; after_sleep result (wait_loop n)

  unfoldable pub wait_nano_sec : ℕ → Call ErrorCode
  unfolding wait_loop
  wait_nano_sec nsec = wait_loop fuel nsec
