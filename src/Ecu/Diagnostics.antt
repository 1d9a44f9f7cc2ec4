-- ===== src/Ecu/Diagnostics.antt =====
-- The diagnostic information as hsrb_power_ecu/src/info_command.cpp reads and prints it.
pub mod Errors
pub mod Bits
use hsrb_drivers.Prelude.{
  ℕ, zero, suc, ◌+◌, ◌-◌, ◌*◌, ◌/◌, ◌%◌, ◌^◌, Bool, true, false, ◌&&◌, Option, none, some, List, [],
  ◌∷◌, ◌++◌, leb, ◌==◌, if◌then◌else◌, codes,
}
use hsrb_drivers.Ecu.Diagnostics.Errors.{diagnostics_errors}

-- `std::stoi` of a text of one character with base 16; `none` is its exception.
unfoldable pub hex_digit : ℕ → Option ℕ
hex_digit c =
    if leb b'0' c && leb c b'9'
    then some (c - b'0')
    else if leb b'A' c && leb c b'F'
    then some (c - b'A' + 10)
    else if leb b'a' c && leb c b'f'
    then some (c - b'a' + 10)
    else none

-- `bitset_value.test(j)`
abbrev pub test : ℕ → ℕ → Bool
test bitset_value j = bitset_value / 2 ^ j % 2 == 1

-- The loop over the bits of a digit, from the bit `j` on.
abbrev pub push_bits : ℕ → ℕ → ℕ → ℕ → List ℕ → List ℕ
push_bits i bitset_value j zero result = result
push_bits i bitset_value j (suc n) result =
    push_bits i bitset_value (j + 1) n
      (if test bitset_value j then result ++ (i * 4 + j) ∷ [] else result)

-- The loop over the digits, which are given from the last one to the first.
unfoldable pub parse_loop : ℕ → List ℕ → List ℕ → Option (List ℕ)
parse_loop i [] result = some result
parse_loop i (c ∷ digits) result = elim (hex_digit c) [
  | none ↦ none
  | some v ↦ parse_loop (i + 1) digits (push_bits i v 0 4 result)
]

abbrev pub backwards : List ℕ → List ℕ → List ℕ
backwards [] done = done
backwards (c ∷ chars) done = backwards chars (c ∷ done)

-- `ParseDiagStatus`
unfoldable pub parse_diag_status : List ℕ → Option (List ℕ)
unfolding parse_loop hex_digit
parse_diag_status diag_status = parse_loop 0 (backwards diag_status []) []

-- `kDiagnosticsErrors.at`; `none` is its exception.
unfoldable pub at : ℕ → List (ℕ × List ℕ) → Option (List ℕ)
at x [] = none
at x ((n, message) ∷ errors) = if n == x then some message else at x errors

-- The messages that are printed, and whether all of them are: `false` is an exception.
unfoldable pub print_errors : List ℕ → List (List ℕ) × Bool
unfolding at
print_errors [] = ([], true)
print_errors (x ∷ error_bits) = elim (at x diagnostics_errors) [
  | none ↦ ([], false)
  | some message ↦ let (messages, all) = print_errors error_bits in (message ∷ messages, all)
]

-- The digits with a space before each group of four.
unfoldable pub spaced : ℕ → List ℕ → List ℕ
spaced space_count [] = []
spaced zero (c ∷ diag_status) = b' ' ∷ c ∷ spaced 3 diag_status
spaced (suc n) (c ∷ diag_status) = c ∷ spaced n diag_status

-- `PrintDiagStatus`: the line of digits, and the messages below it.
unfoldable pub print_diag_status : List ℕ → List ℕ × (List (List ℕ) × Bool)
unfolding parse_diag_status print_errors spaced
print_diag_status diag_status = (
  codes "diag_status: " ++ spaced 4 diag_status,
  elim (parse_diag_status diag_status) [
    | none ↦ ([], false)
    | some error_bits ↦ print_errors error_bits
  ],
)
