-- ===== src/Servo/Checksum.antt =====
-- `Checksum` of exxx_packet_parser.hpp, and its range.
use hsrb_drivers.Prelude.{ℕ, ◌+◌, ◌-◌, ◌%◌, ◌<◌, arith, List, [], ◌∷◌}

sum_bytes : List ℕ → ℕ
sum_bytes [] = 0
sum_bytes (b ∷ bs) = b + sum_bytes bs

-- `~static_cast<uint8_t>(sum)`, as a `uint8_t`: the complement of the low byte of the sum.
unfoldable pub checksum : List ℕ → ℕ
unfolding sum_bytes
checksum bytes = 255 - sum_bytes bytes % 256

pub checksum-lt : (bytes : List ℕ) → checksum bytes < 256
unfolding checksum
checksum-lt bytes = omega arith
