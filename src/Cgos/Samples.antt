-- ===== src/Cgos/Samples.antt =====
-- Runs of the GPIO driver on a concrete board.
use hsrb_drivers.Prelude.{
  ℕ, ◌-◌, ◌^◌, ◌≡◌, refl, none, some, List, [], ◌∷◌, ◌==◌, if◌then◌else◌, codes, arith, pos,
}
use hsrb_drivers.Cgos.Driver.{ISystemInterface, returned, new}
use hsrb_drivers.Cgos.Gpio.{
  Doubles, Gpio, input, output, GpioInfo, callback_success, Stoi, on_init, make_gpios, HsrbCgosHw,
  write, read, on_configure,
}
use hsrb_drivers.Cgos.Pins.{at_input, at_output, Sends, write-Sends}

-- Numbers in place of `double`.
abbrev whole : Doubles
whole = record { Double = ℕ; zero = 0; one = 1; is_zero = λ v. v == 0 }

-- A board with version 1.0 and handle 7 that keeps the words it is sent and reads 5.
abbrev version_or_zero : ℕ → ℕ
version_or_zero fct =
    if fct == 0
    then 16777216
    else if fct == 2
    then 1
    else if fct == 3
    then 7
    else if fct == 41
    then 5
    else 0

abbrev board : ISystemInterface
board = record {
  System = List ℕ;
  open_file = λ words. (some 3, words);
  close_file = λ fd words. words;
  ioctl = λ fd code request words. (
    returned 12 (record { status = 0; ret0 = version_or_zero request.fct; ret1 = 0 }),
    if request.fct == 41 then words else if request.fct == 42 then request.par0 ∷ words else words,
  );
}

abbrev entries : List GpioInfo
entries =
    record { pin = some (codes "2"); direction = some (codes "in") }
    ∷ record { pin = some (codes "5"); direction = some (codes "out") }
    ∷ record { pin = some (codes "7"); direction = some (codes "out") }
    ∷ []

-- Numbers of one digit.
abbrev one_digit : Stoi
one_digit (c ∷ []) = some (pos (c - 48))
one_digit [] = none
one_digit (c ∷ x ∷ xs) = none

abbrev out_pin : ℕ → ℕ → Gpio ℕ
out_pin n v = record { direction = output; bit_mask = 2 ^ n; value = v }

abbrev in_pin : Gpio ℕ
in_pin = record { direction = input; bit_mask = 4; value = 0 }

abbrev hardware : HsrbCgosHw whole board
hardware = record {
  cgos = record { fd = some 3; last_error = 0; system = [] };
  cgos_handle = 7;
  cgos_unit = 0;
  gpios = in_pin ∷ out_pin 5 1 ∷ out_pin 7 1 ∷ [];
}

made_for_entries :
    on_init whole one_digit entries [] ≡ (callback_success, in_pin ∷ out_pin 5 0 ∷ out_pin 7 0 ∷ [])
unfolding make_gpios
made_for_entries = refl

sends_160 : ((write whole board hardware).1).cgos.system ≡ 160 ∷ []
unfolding write
sends_160 = refl

opens_board :
    on_configure whole board (record hardware { cgos = new board []; cgos_handle = 0 })
    ≡ (callback_success, hardware)
opens_board = refl

reads_5 :
    (read whole board hardware).1.gpios
    ≡ record in_pin { value = 1 } ∷ out_pin 5 1 ∷ out_pin 7 1 ∷ []
reads_5 = refl

write-Sends_example : Sends whole board hardware (write whole board hardware)
write-Sends_example =
    write-Sends whole board hardware
      (
        at_input 2 (omega arith) refl refl,
        (
          at_output 5 (omega arith) (omega arith) refl refl,
          (at_output 7 (omega arith) (omega arith) refl refl, _),
        ),
      )
      (omega arith)
