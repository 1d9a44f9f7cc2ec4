-- ===== src/Ecu/Status/Word.antt =====
-- The 64 bits of the power ECU's state, and what is published of them.
use hsrb_drivers.Prelude.{
  ℕ, ◌+◌, ◌*◌, ◌/◌, ◌%◌, ◌^◌, ◌≡◌, refl, ap, ◌∙◌, not, List, ◌∷◌, ◌==◌, arith,
}
use hsrb_drivers.Ecu.Element.{hex_char}
use hsrb_drivers.Ecu.Element.Digits.{digits}
use hsrb_drivers.Ecu.Frame.Text.{strtol_16-pair}
use hsrb_drivers.Ecu.Status.{bit, byte_at, power_ecu_state}

-- The word as the packet writes it: 16 hexadecimal digits behind an "h".
abbrev pub word_text : ℕ → List ℕ
word_text word = b'h' ∷ digits 16 hex_char 16 word

state_byte : (word : ℕ) → byte_at 6 (word_text word) ≡ word / 2 ^ 16 % 2 ^ 8
unfolding digits
state_byte word =
    let a = word / 16 / 16 / 16 / 16 in
    let whole : a / 16 % 16 * 16 + a % 16 ≡ word / 2 ^ 16 % 2 ^ 8 = omega arith in
    strtol_16-pair (a / 16 % 16) (a % 16) (omega arith) (omega arith) ∙ whole

switch_byte : (word : ℕ) → byte_at 2 (word_text word) % 2 ^ 8 ≡ word % 2 ^ 8
unfolding digits
switch_byte word =
    let whole : (word / 16 % 16 * 16 + word % 16) % 2 ^ 8 ≡ word % 2 ^ 8 = omega arith in
    ap (λ n. n % 2 ^ 8) (strtol_16-pair (word / 16 % 16) (word % 16) (omega arith) (omega arith))
    ∙ whole

low_bit :
    (word k : ℕ) → word % 2 ^ 8 / 2 ^ k % 2 ≡ word / 2 ^ k % 2 → bit (word % 2 ^ 8) k ≡ bit word k
low_bit word k e = ap (λ n. n == 1) e

-- From a state of 64 bits that is written in 16 hexadecimal digits behind an "h", the bits 16 to 23 are published as
-- the internal state, and the bits 6, 4, 2 and 1 as the switches that they stand for; the bits 5 and 0 of the emergency
-- stops are reversed, and the drive switch is read from the internal state, which is 9 when it is off.
pub power_ecu_state-word_text :
    (word : ℕ)
    → power_ecu_state (word_text word) ≡ record {
      power_ecu_internal_state = word / 2 ^ 16 % 2 ^ 8;
      is_powerecu_bat_stat = bit word 6;
      is_powerecu_sw_kinoko = not (bit word 5);
      is_powerecu_sw_pwr = bit word 4;
      is_powerecu_sw_drv = not (word / 2 ^ 16 % 2 ^ 8 == 9);
      is_powerecu_sw_latch = bit word 2;
      is_powerecu_sw_w_sel = bit word 1;
      is_powerecu_sw_w_stop = not (bit word 0);
    }
unfolding power_ecu_state
power_ecu_state-word_text word =
    rw
      (
        state_byte word,
        switch_byte word,
        low_bit word 6 (omega arith),
        low_bit word 5 (omega arith),
        low_bit word 4 (omega arith),
        low_bit word 2 (omega arith),
        low_bit word 1 (omega arith),
        low_bit word 0 (omega arith),
      )
      refl
