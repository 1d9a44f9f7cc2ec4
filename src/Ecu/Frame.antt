-- ===== src/Ecu/Frame.antt =====
-- The frames: power_ecu_com_frame_encoder.hpp/.cpp and power_ecu_com_frame_decoder.hpp/.cpp. A packet
-- buffer is the list of its bytes, an iterator the number of bytes before it.
pub mod Text
pub mod Decoder
pub mod Encoder
pub mod RoundTrip
pub use hsrb_drivers.Prelude.{codes, same_bytes}
use hsrb_drivers.Prelude.{
  ℕ, zero, suc, ◌+◌, ◌-◌, ◌*◌, ◌%◌, ◌^◌, Bool, true, false, Option, none, some, List, [], ◌∷◌, ◌++◌,
  ltb, leb, ◌==◌, ◌&&◌, ◌||◌, if◌then◌else◌,
}

-- `boost::system::errc` codes that the package returns.
pub data Code : Type 0 where
  success protocol_error result_out_of_range invalid_argument network_down : Code
  operation_canceled timed_out : Code

-- `isspace` of the C locale.
abbrev is_space : ℕ → Bool
is_space c = c == 32 || (leb 9 c && leb c 13)

pub skip_spaces : List ℕ → List ℕ
skip_spaces [] = []
skip_spaces (c ∷ cs) = let rest = skip_spaces cs in if is_space c then rest else c ∷ cs

-- The leading digits of `std::atoi`, three of them at most in this program, so no overflow.
unfoldable pub leading_decimal : ℕ → List ℕ → ℕ
leading_decimal value [] = value
leading_decimal value (c ∷ cs) =
    let more = leading_decimal (value * 10 + (c - b'0')) cs in
    if leb b'0' c && leb c b'9' then more else value

-- A negative result, converted to `size_t`.
abbrev negated : ℕ → ℕ
negated n = (2 ^ 64 - n) % 2 ^ 64

abbrev signed_decimal : List ℕ → ℕ
signed_decimal [] = 0
signed_decimal (c ∷ cs) =
    if c == b'-'
    then negated (leading_decimal 0 cs)
    else if c == b'+'
    then leading_decimal 0 cs
    else leading_decimal 0 (c ∷ cs)

-- `static_cast<size_t>(std::atoi(text))`
unfoldable pub atoi : List ℕ → ℕ
unfolding skip_spaces leading_decimal
atoi text = signed_decimal (skip_spaces text)

abbrev pub hex_value : ℕ → Option ℕ
hex_value c =
    if leb b'0' c && leb c b'9'
    then some (c - b'0')
    else if leb b'A' c && leb c b'F'
    then some (c - b'A' + 10)
    else if leb b'a' c && leb c b'f'
    then some (c - b'a' + 10)
    else none

unfoldable pub leading_hexadecimal : ℕ → List ℕ → ℕ
leading_hexadecimal value [] = value
leading_hexadecimal value (c ∷ cs) = elim (hex_value c) [
  | none ↦ value
  | some d ↦ leading_hexadecimal (value * 16 + d) cs
]

-- A prefix "0x" is skipped.
abbrev prefixed_hexadecimal : List ℕ → ℕ
prefixed_hexadecimal (z ∷ x ∷ cs) =
    if z == b'0' && (x == b'x' || x == b'X')
    then leading_hexadecimal 0 cs
    else leading_hexadecimal 0 (z ∷ x ∷ cs)
prefixed_hexadecimal cs = leading_hexadecimal 0 cs

abbrev signed_hexadecimal : List ℕ → ℕ
signed_hexadecimal [] = 0
signed_hexadecimal (c ∷ cs) =
    if c == b'-'
    then negated (prefixed_hexadecimal cs)
    else if c == b'+'
    then prefixed_hexadecimal cs
    else prefixed_hexadecimal (c ∷ cs)

-- `static_cast<uint32_t>(std::strtol(text, NULL, 16))`, for a text of up to eight characters.
unfoldable pub strtol_16 : List ℕ → ℕ
unfolding skip_spaces leading_hexadecimal
strtol_16 text = signed_hexadecimal (skip_spaces text) % 2 ^ 32
