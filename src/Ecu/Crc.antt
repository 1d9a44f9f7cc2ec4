-- ===== src/Ecu/Crc.antt =====
-- `CalculateCrc32` of power_ecu_com_common.cpp: the bytes go through the CRC four at a time, each group
-- backwards, and a short last group is filled up with zeros.
use hsrb_drivers.Prelude.{ℕ, ◌<◌, ◌^◌, List, [], ◌∷◌}

-- `boost::crc_optimal` with the parameters of the source: what the code uses of it.
pub record Crc32 : Type 1 where
  pub Register : Type 0
  pub initial : Register
  pub process_byte : Register → ℕ → Register
  pub checksum : Register → ℕ
  pub checksum-lt : (r : Register) → checksum r < 2 ^ 32

module _ (crc : Crc32) where
  open crc use {Register, initial, process_byte, checksum}

  abbrev pub process_word : Register → ℕ → ℕ → ℕ → ℕ → Register
  process_word r b0 b1 b2 b3 =
      process_byte (process_byte (process_byte (process_byte r b3) b2) b1) b0

  pub process_all : Register → List ℕ → Register
  process_all r (b0 ∷ b1 ∷ b2 ∷ b3 ∷ rest) = process_all (process_word r b0 b1 b2 b3) rest
  process_all r (b0 ∷ b1 ∷ b2 ∷ []) = process_word r b0 b1 b2 0
  process_all r (b0 ∷ b1 ∷ []) = process_word r b0 b1 0 0
  process_all r (b0 ∷ []) = process_word r b0 0 0 0
  process_all r [] = r

  unfoldable pub calculate_crc32 : List ℕ → ℕ
  unfolding process_all
  calculate_crc32 bytes = checksum (process_all initial bytes)
