-- ===== src/Posix.antt =====
-- System calls as the drivers use them: error codes, what a call returns, and the bytes on a line.
use hsrb_drivers.Prelude.{ℕ, ◌≡◌, refl, List, [], ◌∷◌, ◌++◌, take}

-- `boost::system::error_code` of the system category, which is read by its value alone; the values are those
-- of Linux.
abbrev pub ErrorCode : Type 0
ErrorCode = ℕ

abbrev pub errc_success : ErrorCode
errc_success = 0

abbrev pub interrupted : ErrorCode
interrupted = 4

abbrev pub resource_unavailable : ErrorCode
resource_unavailable = 11

abbrev pub invalid_argument : ErrorCode
invalid_argument = 22

abbrev pub no_message : ErrorCode
no_message = 42

abbrev pub value_too_large : ErrorCode
value_too_large = 75

abbrev pub illegal_byte_sequence : ErrorCode
illegal_byte_sequence = 84

abbrev pub not_supported : ErrorCode
not_supported = 95

abbrev pub operation_in_progress : ErrorCode
operation_in_progress = 115

abbrev pub timed_out : ErrorCode
timed_out = 110

-- The results of the system calls, with `errno` where one fails.
pub data Written : Type 0 where
  wrote : ℕ → Written
  write_failed : ℕ → Written

pub data Polled : Type 0 where
  ready nothing : Polled
  poll_failed : ℕ → Polled

-- `stopped`: a return other than 0, with `errno` and the time that is left.
pub data Slept : Type 0 where
  slept : Slept
  stopped : ℕ → ℕ → Slept

-- A byte that the device has taken or given.
pub data Event : Type 0 where
  out got : ℕ → Event

-- The log after more bytes are sent.
abbrev pub put : List ℕ → List Event → List Event
put [] log = log
put (b ∷ bytes) log = put bytes (out b ∷ log)

-- What of the bytes a `write` has taken.
abbrev pub taken : Written → List ℕ → List ℕ
taken (wrote n) bytes = take n bytes
taken (write_failed e) bytes = []

-- The log after more bytes have come.
abbrev pub heard : List ℕ → List Event → List Event
heard [] log = log
heard (b ∷ bytes) log = heard bytes (got b ∷ log)

pub put-append : (xs ys : List ℕ) (log : List Event) → put (xs ++ ys) log ≡ put ys (put xs log)
put-append [] ys log = refl
put-append (x ∷ xs) ys log = put-append xs ys _
