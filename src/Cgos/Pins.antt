-- ===== src/Cgos/Pins.antt =====
-- `HsrbCgosHw`: the GPIOs that `on_init` makes, and the word that `write` sends for them.
use mathlib.Core.Path.{subst}
use hsrb_drivers.Prelude.{
  ℕ, suc, length, length-append, ◌+◌, ◌^◌, ◌≤◌, ◌<◌, ◌≡◌, ◌≢◌, refl, sym, ap, Bool, true, false,
  not, ◌&&◌, ◌||◌, Option, none, some, List, [], ◌∷◌, ◌++◌, All, ltb, ◌==◌, if◌then◌else◌, arith,
  inl, inr, Bool-cases, ne→==, ◌-◌, same_bytes, codes, ℤ, pos, negsuc,
}
use hsrb_drivers.Cgos.Bits.{set_bit, clear_bit, no_bit}
use hsrb_drivers.Cgos.Driver.{ISystemInterface, io_write}
use hsrb_drivers.Cgos.Gpio.{
  Doubles, Gpio, Direction, input, output, GpioInfo, CallbackReturn, callback_success,
  callback_error, Stoi, is_set, write_gpio, write_all, make_gpio, make_gpios, on_init, make_on,
  make_parsed, make_given, new_gpio, HsrbCgosHw, written, write, ReturnType,
}

-- An input stands on one of the pins 0 to 3, an output on one of the pins 4 to 7.
pub data IsPlaced {Double : Type 0} (g : Gpio Double) : Type 0 where
  at_input : (pin : ℕ) → pin ≤ 3 → g.direction ≡ input → g.bit_mask ≡ 2 ^ pin → IsPlaced g
  at_output :
      (pin : ℕ) → 4 ≤ pin → pin ≤ 7 → g.direction ≡ output → g.bit_mask ≡ 2 ^ pin → IsPlaced g

module _ (d : Doubles) where
  abbrev commanded_by : ℕ → Gpio (d.Double) → Bool → Direction → Bool
  commanded_by pin g b input = b
  commanded_by pin g b output = if g.bit_mask == 2 ^ pin then not (d.is_zero g.value) else b

  -- Whether the last command on a pin is not zero, or `b` where no output stands on the pin.
  abbrev pub commanded : ℕ → List (Gpio (d.Double)) → Bool → Bool
  commanded pin [] b = b
  commanded pin (g ∷ gpios) b = commanded pin gpios (commanded_by pin g b g.direction)

  -- A word of eight bits, and the bit of a pin in it.
  abbrev Carries : ℕ → Bool → ℕ → Type 0
  Carries k b word = (word < 256) × is_set word (2 ^ k) ≡ b

  write_gpio-Carries :
      (k : ℕ) (b : Bool) (g : Gpio (d.Double)) (word : ℕ)
      → k < 8
      → IsPlaced g
      → Carries k b word
      → Carries k (commanded_by k g b g.direction) (write_gpio d g word)
  write_gpio-Carries k b g word hk (at_input pin low e m) c = rw e c
  write_gpio-Carries k b g word hk (at_output pin low high e m) (small, bit) =
      elim (Bool-cases (d.is_zero g.value)) [
        | inl z ↦ rw (e, z, m, sym bit) (clear_bit word pin k small (omega arith) hk)
        | inr z ↦ rw (e, z, m, sym bit) (set_bit word pin k small (omega arith) hk)
      ]

  write_all-Carries :
      (k : ℕ) (gpios : List (Gpio (d.Double))) (b : Bool) (word : ℕ)
      → k < 8
      → All IsPlaced gpios
      → Carries k b word
      → Carries k (commanded k gpios b) (write_all d gpios word)
  write_all-Carries k [] b word hk placed c = c
  write_all-Carries k (g ∷ gpios) b word hk (p, placed) c =
      write_all-Carries k gpios (commanded_by k g b g.direction) (write_gpio d g word) hk placed
        (write_gpio-Carries k b g word hk p c)

  module _ (interface : ISystemInterface) where
    -- The call of `IOWrite` with a word of eight bits that are the last commands of the pins, and its result.
    pub data Sends (h : HsrbCgosHw d interface) (result : ReturnType × HsrbCgosHw d interface)
        : Type 0 where
      sends :
          (word : ℕ)
          → word < 256
          → ((k : ℕ) → k < 8 → is_set word (2 ^ k) ≡ commanded k h.gpios false)
          → result
            ≡ written d interface h (io_write interface h.cgos_handle h.cgos_unit word h.cgos)
          → Sends h result

    -- If the handle of the board is not 0 and every GPIO is on a pin of its direction, then `write` sends one
    -- word of eight bits: the bit of a pin is set just if the last command of an output on this pin is not
    -- zero, and clear where there is no output. The result is that of `IOWrite`.
    pub write-Sends :
        (h : HsrbCgosHw d interface)
        → All IsPlaced h.gpios
        → h.cgos_handle ≢ 0
        → Sends h (write d interface h)
    unfolding write
    write-Sends h placed n = rw (ne→== h.cgos_handle 0 n) (
        sends (write_all d h.gpios 0)
          (write_all-Carries 0 h.gpios false 0 (omega arith) placed
            (omega arith, no_bit 0 (omega arith))).0
          (λ k hk. (write_all-Carries k h.gpios false 0 hk placed (omega arith, no_bit k hk)).1)
          refl)

  abbrev OnSome : Option (Gpio (d.Double)) → Type 0
  OnSome none = Unit {0}
  OnSome (some g) = IsPlaced g

  chosen :
      (i o x y : Bool) (g h : Gpio (d.Double))
      → (x ≡ false → IsPlaced g)
      → (y ≡ false → IsPlaced h)
      → OnSome (if i && x || o && y then none else if i then some g else if o then some h else none)
  chosen true o true y g h p q = _
  chosen true true false true g h p q = _
  chosen true true false false g h p q = p refl
  chosen true false false y g h p q = p refl
  chosen false true x true g h p q = _
  chosen false true x false g h p q = q refl
  chosen false false x y g h p q = _

  make_on-IsPlaced : (direction : List ℕ) (pin : ℤ) → OnSome (make_on d direction pin)
  make_on-IsPlaced direction (pos n) =
      chosen (same_bytes direction (codes "in")) (same_bytes direction (codes "out"))
        (ltb n 0 || ltb 3 n) (ltb n 4 || ltb 7 n) (new_gpio d input n) (new_gpio d output n)
        (λ h. at_input n (ground arith) refl refl)
        (λ h. at_output n (ground arith) (ground arith) refl refl)
  make_on-IsPlaced direction (negsuc n) =
      chosen (same_bytes direction (codes "in")) (same_bytes direction (codes "out")) true true
        (new_gpio d input (2 ^ 32 - 1 - n)) (new_gpio d output (2 ^ 32 - 1 - n))
        (λ h. absurd (ground arith)) (λ h. absurd (ground arith))

  make_parsed-IsPlaced :
      (direction : List ℕ) (pin : Option ℤ) → OnSome (make_parsed d direction pin)
  make_parsed-IsPlaced direction none = _
  make_parsed-IsPlaced direction (some pin) = make_on-IsPlaced direction pin

  make_given-IsPlaced :
      (stoi : Stoi) (pin direction : Option (List ℕ)) → OnSome (make_given d stoi pin direction)
  make_given-IsPlaced stoi none direction = _
  make_given-IsPlaced stoi (some p) none = _
  make_given-IsPlaced stoi (some p) (some direction) = make_parsed-IsPlaced direction (stoi p)

  -- The GPIOs are those of the earlier rounds and one for each entry, all on their pins.
  pub data Made (count : ℕ) : CallbackReturn × List (Gpio (d.Double)) → Type 0 where
    failed : (gpios : List (Gpio (d.Double))) → Made count (callback_error, gpios)
    made :
        (gpios : List (Gpio (d.Double)))
        → length gpios ≡ count
        → All IsPlaced gpios
        → Made count (callback_success, gpios)

  All-snoc :
      (gpios : List (Gpio (d.Double))) (g : Gpio (d.Double))
      → All IsPlaced gpios
      → IsPlaced g
      → All IsPlaced (gpios ++ (g ∷ []))
  All-snoc [] g placed p = (p, _)
  All-snoc (x ∷ gpios) g (q, placed) p = (q, All-snoc gpios g placed p)

  make_gpios-Made :
      (stoi : Stoi) (infos : List GpioInfo) (gpios : List (Gpio (d.Double)))
      → All IsPlaced gpios
      → Made (length infos + length gpios) (make_gpios d stoi infos gpios)
  unfolding make_gpios
  make_gpios-Made stoi [] gpios placed = made gpios (omega arith) placed
  make_gpios-Made stoi (i ∷ infos) gpios placed =
      elim (make_gpio d stoi i)
          as (λ o.
            OnSome o
            → Made (suc (length infos) + length gpios) (elim o [
              | none ↦ (callback_error, gpios)
              | some g ↦ make_gpios d stoi infos (gpios ++ (g ∷ []))
            ])) [
              | none ↦ λ p. failed gpios
              | some g ↦ λ p.
                  subst (λ n. Made n (make_gpios d stoi infos (gpios ++ (g ∷ []))))
                    (omega (arith, length-append gpios (g ∷ [])))
                    (make_gpios-Made stoi infos (gpios ++ (g ∷ [])) (All-snoc gpios g placed p))
            ]
        (make_given-IsPlaced stoi i.pin i.direction)

  -- If `on_init` of a new object succeeds, there is an entry, and it has made one GPIO for each entry, the
  -- inputs on the pins 0 to 3 and the outputs on the pins 4 to 7.
  on_init-Made :
      (stoi : Stoi) (infos : List GpioInfo) (gpios : List (Gpio (d.Double)))
      → on_init d stoi infos [] ≡ (callback_success, gpios)
      → (0 < length infos) × (length gpios ≡ length infos) × All IsPlaced gpios
  on_init-Made stoi [] gpios h = absurd (cc (ap (λ r. r.0) h))
  on_init-Made stoi (i ∷ infos) gpios h =
      of_made (subst (Made (length (i ∷ infos) + 0)) h (make_gpios-Made stoi (i ∷ infos) [] _))
    where
      of_made :
          Made (length (i ∷ infos) + 0) (callback_success, gpios)
          → (0 < length (i ∷ infos)) × (length gpios ≡ length (i ∷ infos)) × All IsPlaced gpios
      of_made (made _ l p) = (omega arith, omega (arith, l), p)
