-- ===== src/Cgos/Gpio.antt =====
-- `HsrbCgosHw` of hsrb_cgos_driver/src/hsrb_cgos_driver/hsrb_cgos_hw.cpp: the pins of the board as states and commands.
use Prim.Native.Nat.{bit_and, bit_or}
use hsrb_drivers.Prelude.{
  ℕ, ◌-◌, ◌^◌, Bool, true, false, not, ◌&&◌, ◌||◌, Option, none, some, List, [], ◌∷◌, ◌++◌, ltb,
  ◌==◌, if◌then◌else◌, codes, same_bytes, ℤ, pos, negsuc,
}
use hsrb_drivers.Cgos.Driver.{
  ISystemInterface, Library, initialize, finalize, board_open, board_close, get_io_count, io_read,
  io_write,
}

-- What the code uses of `double`: two constants and the test against zero.
pub record Doubles : Type 1 where
  pub Double : Type 0
  pub zero : Double
  pub one : Double
  pub is_zero : Double → Bool

pub data Direction : Type 0 where
  input output : Direction

-- `GpioInput` and `GpioOutput`.
pub record Gpio (Double : Type 0) : Type 0 where
  pub direction : Direction
  pub bit_mask : ℕ
  pub value : Double

-- An entry of `HardwareInfo::gpios`: the parameters "pin" and "direction", if they are given.
pub record GpioInfo : Type 0 where
  pub pin : Option (List ℕ)
  pub direction : Option (List ℕ)

pub data CallbackReturn : Type 0 where
  callback_success callback_error : CallbackReturn

pub data ReturnType : Type 0 where
  ok error : ReturnType

-- Whether the bit of a mask is set.
abbrev pub is_set : ℕ → ℕ → Bool
is_set word mask = not (bit_and word mask == 0)

-- `word & ~mask` on 32 bits.
abbrev pub without : ℕ → ℕ → ℕ
without word mask = bit_and word (2 ^ 32 - 1 - mask)

abbrev outside : ℕ → ℕ → ℤ → Bool
outside low high (pos n) = ltb n low || ltb high n
outside low high (negsuc n) = true

-- `std::stoi`, with `none` for an exception.
abbrev pub Stoi : Type 0
Stoi = List ℕ → Option ℤ

module _ (d : Doubles) where
  abbrev pub read_gpio : ℕ → Gpio (d.Double) → Gpio (d.Double)
  read_gpio read_value g = elim (g.direction) [
    | input ↦ record g { value = if is_set read_value g.bit_mask then d.one else d.zero }
    | output ↦ g
  ]

  abbrev pub write_gpio : Gpio (d.Double) → ℕ → ℕ
  write_gpio g write_value = elim (g.direction) [
    | input ↦ write_value
    | output ↦
        if not (d.is_zero g.value)
        then bit_or write_value g.bit_mask
        else without write_value g.bit_mask
  ]

  abbrev pub read_all : ℕ → List (Gpio (d.Double)) → List (Gpio (d.Double))
  read_all read_value [] = []
  read_all read_value (g ∷ gpios) = read_gpio read_value g ∷ read_all read_value gpios

  abbrev pub write_all : List (Gpio (d.Double)) → ℕ → ℕ
  write_all [] write_value = write_value
  write_all (g ∷ gpios) write_value = write_all gpios (write_gpio g write_value)

  abbrev pub new_gpio : Direction → ℕ → Gpio (d.Double)
  new_gpio direction pin = record { direction = direction; bit_mask = 2 ^ pin; value = d.zero }

  -- The pin as `uint32_t`, for the pins that pass the test.
  abbrev pin_number : ℤ → ℕ
  pin_number (pos n) = n
  pin_number (negsuc n) = 2 ^ 32 - 1 - n

  abbrev pub make_on : List ℕ → ℤ → Option (Gpio (d.Double))
  make_on direction pin =
      if same_bytes direction (codes "in") && outside 0 3 pin
        || same_bytes direction (codes "out") && outside 4 7 pin
      then none
      else if same_bytes direction (codes "in")
      then some (new_gpio input (pin_number pin))
      else if same_bytes direction (codes "out")
      then some (new_gpio output (pin_number pin))
      else none

  abbrev pub make_parsed : List ℕ → Option ℤ → Option (Gpio (d.Double))
  make_parsed direction none = none
  make_parsed direction (some pin) = make_on direction pin

  abbrev pub make_given : Stoi → Option (List ℕ) → Option (List ℕ) → Option (Gpio (d.Double))
  make_given stoi none direction = none
  make_given stoi (some p) none = none
  make_given stoi (some p) (some direction) = make_parsed direction (stoi p)

  -- One round of the loop of `on_init`: the GPIO that is appended, if there is no error.
  abbrev pub make_gpio : Stoi → GpioInfo → Option (Gpio (d.Double))
  make_gpio stoi i = make_given stoi i.pin i.direction

  -- The loop of `on_init`, with the GPIOs of the earlier rounds.
  unfoldable pub make_gpios :
      Stoi → List GpioInfo → List (Gpio (d.Double)) → CallbackReturn × List (Gpio (d.Double))
  make_gpios stoi [] gpios = (callback_success, gpios)
  make_gpios stoi (i ∷ infos) gpios = elim (make_gpio stoi i) [
    | none ↦ (callback_error, gpios)
    | some g ↦ make_gpios stoi infos (gpios ++ (g ∷ []))
  ]

  abbrev pub on_init :
      Stoi → List GpioInfo → List (Gpio (d.Double)) → CallbackReturn × List (Gpio (d.Double))
  on_init stoi [] gpios = (callback_error, gpios)
  on_init stoi (i ∷ infos) gpios = make_gpios stoi (i ∷ infos) gpios

  module _ (interface : ISystemInterface) where
    pub record HsrbCgosHw : Type 0 where
      pub cgos : Library interface
      pub cgos_handle : ℕ
      pub cgos_unit : ℕ
      pub gpios : List (Gpio (d.Double))

    abbrev counted : HsrbCgosHw → Option ℕ × Library interface → CallbackReturn × HsrbCgosHw
    counted h (none, c) = (callback_error, record h { cgos = c })
    counted h (some count, c) =
        if ltb 0 count
        then (callback_success, record h { cgos = c; cgos_unit = 0 })
        else (callback_error, record h { cgos = c })

    abbrev board_opened : HsrbCgosHw → Option ℕ × Library interface → CallbackReturn × HsrbCgosHw
    board_opened h (none, c) = (callback_success, record h { cgos = c; cgos_handle = 0 })
    board_opened h (some handle, c) =
        counted (record h { cgos_handle = handle }) (get_io_count interface handle c)

    abbrev initialized : HsrbCgosHw → Bool × Library interface → CallbackReturn × HsrbCgosHw
    initialized h (false, c) = (callback_success, record h { cgos = c; cgos_handle = 0 })
    initialized h (true, c) = board_opened h (board_open interface 0 0 0 c)

    abbrev pub on_configure : HsrbCgosHw → CallbackReturn × HsrbCgosHw
    on_configure h = initialized h (initialize interface h.cgos)

    abbrev was_read : HsrbCgosHw → Option ℕ × Library interface → ReturnType × HsrbCgosHw
    was_read h (none, c) = (error, record h { cgos = c })
    was_read h (some read_value, c) =
        (ok, record h { cgos = c; gpios = read_all read_value h.gpios })

    abbrev pub read : HsrbCgosHw → ReturnType × HsrbCgosHw
    read h =
        if h.cgos_handle == 0
        then (ok, h)
        else was_read h (io_read interface h.cgos_handle h.cgos_unit h.cgos)

    abbrev pub written : HsrbCgosHw → Bool × Library interface → ReturnType × HsrbCgosHw
    written h (false, c) = (error, record h { cgos = c })
    written h (true, c) = (ok, record h { cgos = c })

    unfoldable pub write : HsrbCgosHw → ReturnType × HsrbCgosHw
    write h =
        if h.cgos_handle == 0
        then (ok, h)
        else written h (io_write interface h.cgos_handle h.cgos_unit (write_all h.gpios 0) h.cgos)

    abbrev pub on_cleanup : HsrbCgosHw → CallbackReturn × HsrbCgosHw
    on_cleanup h =
        let closed = (board_close interface h.cgos_handle h.cgos).1 in
        (callback_success, record h { cgos = (finalize interface closed).1 })
