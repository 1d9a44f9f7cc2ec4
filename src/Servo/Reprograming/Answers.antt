-- ===== src/Servo/Reprograming/Answers.antt =====
-- What the calls of exxx_reprograming.cpp that receive have heard: `ReceiveByte`, `ReceiveLine`,
-- `CheckReceivedMessage` and `SendCommand`.
use hsrb_drivers.Prelude.{
  ℕ, zero, suc, ◌-◌, ◌≡◌, ◌≢◌, refl, sym, ap, ◌∙◌, inl, inr, true, false, not, ◌&&◌, Option, none,
  some, List, [], ◌∷◌, ◌++◌, ltb, leb, ◌==◌, length, arith, Bool-cases, and-false, ==→eq, ne→==,
  Ensures, stops, gives, then_Ensures, if_Ensures,
}
use hsrb_drivers.Posix.{
  ErrorCode, errc_success, value_too_large, illegal_byte_sequence, timed_out, Polled, ready,
  nothing, poll_failed, Event, got, heard,
}
use hsrb_drivers.Servo.Reprograming.{
  ReadByte, byte, read_failed, logged, ISystem, ExxxReprograming, Call,
}
use hsrb_drivers.Servo.Reprograming.Transport.{after_poll, receive_byte, byte_of}
use hsrb_drivers.Servo.Reprograming.Lines.{
  LineEnd, next_byte, add_byte, line_loop, line_end, receive_line, line_or, checked,
  check_received_message, includes, is_delimiter,
}

-- A call that fails sets `errno`, which is not 0.
pub record SetsErrno (sys : ISystem) : Type 0 where
  pub poll_errno : (t : ℕ) (s : sys.System) → (sys.poll t s).0 ≢ poll_failed 0
  pub read_errno : (s : sys.System) → (sys.read s).0 ≢ read_failed 0

heard_snoc :
    (xs : List ℕ) (b : ℕ) (log : List Event) → heard (xs ++ (b ∷ [])) log ≡ got b ∷ heard xs log
heard_snoc [] b log = refl
heard_snoc (x ∷ xs) b log = heard_snoc xs b _

module _ (sys : ISystem) (fuel : ℕ) (sets : SetsErrno sys) where
  abbrev Object : Type 0
  Object = ExxxReprograming sys.System

  pub data Received (log : List Event) : ErrorCode × Option ℕ → Object → Type 0 where
    byte_in : (b : ℕ) (s : Object) → s.log ≡ got b ∷ log → Received log (errc_success, some b) s
    no_byte :
        (e : ErrorCode) (s : Object) → e ≢ errc_success → s.log ≡ log → Received log (e, none) s

  -- A byte is received just if the code is success.
  pub receive_byte-Received : (s : Object) → Ensures (Received s.log) (receive_byte sys fuel s)
  receive_byte-Received s = polled (sys.poll s.timeout s.system).0 refl
    where
      read :
          (s' : Object) (r : ReadByte)
          → s'.log ≡ s.log
          → (sys.read s'.system).0 ≡ r
          → Ensures (Received s.log) (
              some (
                byte_of sys fuel (sys.read s'.system).0,
                record s' {
                  system = (sys.read s'.system).1;
                  log = logged sys fuel (sys.read s'.system).0 s'.log;
                },
              ))
      read s' (byte b) l e = rw (e, l) (gives _ _ (byte_in b _ refl))
      read s' (read_failed zero) l e = absurd (sets.read_errno s'.system e)
      read s' (read_failed (suc n)) l e =
          rw (e, l) (gives _ _ (no_byte (suc n) _ (omega arith) refl))

      s₁ : Object
      s₁ = record s { system = (sys.poll s.timeout s.system).1 }

      polled :
          (p : Polled)
          → (sys.poll s.timeout s.system).0 ≡ p
          → Ensures (Received s.log) (after_poll sys fuel (sys.poll s.timeout s.system).0 s₁)
      polled ready e = rw e (read s₁ (sys.read s₁.system).0 refl refl)
      polled nothing e = rw e (gives _ _ (no_byte timed_out s₁ (omega arith) refl))
      polled (poll_failed zero) e = absurd (sets.poll_errno s.timeout s.system e)
      polled (poll_failed (suc n)) e = rw e (gives _ _ (no_byte (suc n) s₁ (omega arith) refl))

  -- The end of the loop of `ReceiveLine`: the line is what was heard, or the time is over, or there is an error.
  data LineEnded (log : List Event) (start : ℕ) : LineEnd → Object → Type 0 where
    full :
        (elapsed : ℕ) (message : List ℕ) (s : Object)
        → s.log ≡ heard message log
        → LineEnded log start (errc_success, elapsed, message, some message) s
    late :
        (e elapsed : ℕ) (message : List ℕ) (s : Object)
        → s.log ≡ heard message log
        → ltb (elapsed - start) s.timeout ≡ false
        → LineEnded log start (e, elapsed, message, none) s
    broken :
        (e elapsed : ℕ) (message : List ℕ) (s : Object)
        → s.log ≡ heard message log
        → e ≢ errc_success
        → LineEnded log start (e, elapsed, message, none) s

  module _ (log : List Event) (start : ℕ) where
    abbrev GoesOn : (ℕ → ErrorCode → List ℕ → Call sys fuel LineEnd) → Type 0
    GoesOn goes_on =
        (elapsed : ℕ) (error : ErrorCode) (message : List ℕ) (s : Object)
        → s.log ≡ heard message log
        → Ensures (LineEnded log start) (goes_on elapsed error message s)

    next_byte-LineEnded :
        (elapsed : ℕ) (error : ErrorCode) (message : List ℕ)
        (goes_on : ℕ → ErrorCode → List ℕ → Call sys fuel LineEnd) (s : Object)
        → GoesOn goes_on
        → s.log ≡ heard message log
        → Ensures (LineEnded log start) (next_byte sys fuel elapsed error message goes_on s)
    next_byte-LineEnded elapsed error message goes_on s h l =
        if_Ensures _ (ltb (sys.now s.system).0 elapsed) _ _
          (record s { system = (sys.now s.system).1 })
          (λ _. gives _ _ (broken value_too_large _ message _ l (omega arith)))
          (λ _. h _ _ message _ l)

    add_byte-LineEnded :
        (elapsed : ℕ) (message : List ℕ) (r : ErrorCode × Option ℕ)
        (goes_on : ℕ → ErrorCode → List ℕ → Call sys fuel LineEnd) (before : List Event)
        (s : Object)
        → GoesOn goes_on
        → before ≡ heard message log
        → Received before r s
        → Ensures (LineEnded log start) (add_byte sys fuel elapsed message r goes_on s)
    add_byte-LineEnded elapsed message r goes_on before s h l (byte_in b _ l') =
        let m : s.log ≡ heard (message ++ (b ∷ [])) log =
          l' ∙ ap (λ x. got b ∷ x) l ∙ sym (heard_snoc message b log) in
        if_Ensures _ (is_delimiter b) _ _ s
          (λ _. gives _ _ (full elapsed (message ++ (b ∷ [])) s m))
          (λ _. next_byte-LineEnded elapsed errc_success (message ++ (b ∷ [])) goes_on s h m)
    add_byte-LineEnded elapsed message r goes_on before s h l (no_byte e _ n l') =
        if_Ensures _ (e == timed_out) _ _ s
          (λ _. next_byte-LineEnded elapsed e message goes_on s h (l' ∙ l))
          (λ _. gives _ _ (broken e elapsed message s (l' ∙ l) n))

    line_loop-LineEnded :
        (n elapsed : ℕ) (error : ErrorCode) (message : List ℕ) (s : Object)
        → s.log ≡ heard message log
        → Ensures (LineEnded log start) (line_loop sys fuel n start elapsed error message s)
    unfolding line_loop
    line_loop-LineEnded zero elapsed error message s l = stops
    line_loop-LineEnded (suc n) elapsed error message s l =
        if_Ensures _ (ltb (elapsed - start) s.timeout) _ _ s
          (λ _.
            then_Ensures (Received s.log) _ (receive_byte sys fuel) _ s (receive_byte-Received s)
              (λ r s' p.
                add_byte-LineEnded elapsed message r (line_loop sys fuel n start) s.log s'
                  (line_loop-LineEnded n) l p))
          (λ e. gives _ _ (late error elapsed message s l e))

  -- With success, what has been heard is the line.
  pub data LineHeard (log : List Event) : ErrorCode × Option (List ℕ) → Object → Type 0 where
    line_in :
        (line : Option (List ℕ)) (s : Object)
        → s.log ≡ heard (line_or sys fuel [] line) log
        → LineHeard log (errc_success, line) s
    no_line :
        (e : ErrorCode) (line : Option (List ℕ)) (message : List ℕ) (s : Object)
        → e ≢ errc_success
        → s.log ≡ heard message log
        → LineHeard log (e, line) s

  line_end-LineHeard :
      (log : List Event) (start : ℕ) (r : LineEnd) (s : Object)
      → LineEnded log start r s
      → LineHeard log (line_end sys fuel s.timeout start r) s
  line_end-LineHeard log start r s (full elapsed message _ l) =
      elim (Bool-cases (leb s.timeout (elapsed - start) && not (length message == 0))) [
        | inl e ↦ rw e (line_in (some message) s l)
        | inr e ↦ rw e (line_in (some message) s l)
      ]
  line_end-LineHeard log start r s (late e elapsed [] _ l o) =
      rw (and-false (leb s.timeout (elapsed - start))) elim (Bool-cases (e == 0)) [
        | inl z ↦ rw (==→eq e 0 z) (line_in none s l)
        | inr z ↦ no_line e none [] s (ground arith) l
      ]
  line_end-LineHeard log start r s (late e elapsed (x ∷ message) _ l o) =
      let w : leb s.timeout (elapsed - start) ≡ true = ground arith in
      rw (w, ne→== (length (x ∷ message)) 0 (omega arith)) (line_in (some (x ∷ message)) s l)
  line_end-LineHeard log start r s (broken e elapsed message _ l n) =
      elim (Bool-cases (leb s.timeout (elapsed - start) && not (length message == 0))) [
        | inl z ↦ rw z (line_in (some message) s l)
        | inr z ↦ rw z (no_line e none message s n l)
      ]

  pub receive_line-LineHeard : (s : Object) → Ensures (LineHeard s.log) (receive_line sys fuel s)
  unfolding receive_line
  receive_line-LineHeard s =
      let s' : Object = record s { system = (sys.now s.system).1 } in
      let start : ℕ = (sys.now s.system).0 in
      then_Ensures (LineEnded s.log start) _ (line_loop sys fuel fuel start start errc_success []) _
        s' (line_loop-LineEnded s.log start fuel start errc_success [] s' refl)
        (λ r s'' p. gives _ _ (line_end-LineHeard s.log start r s'' p))

  -- With success, a line that includes the message has been heard.
  pub data Checked (message : List ℕ) (log : List Event) : ErrorCode → Object → Type 0 where
    found :
        (line : List ℕ) (s : Object)
        → s.log ≡ heard line log
        → includes message line ≡ true
        → Checked message log errc_success s
    not_found :
        (e : ErrorCode) (line : List ℕ) (s : Object)
        → e ≢ errc_success
        → s.log ≡ heard line log
        → Checked message log e s

  checked-Checked :
      (message : List ℕ) (log : List Event) (r : ErrorCode × Option (List ℕ)) (s : Object)
      → LineHeard log r s
      → Checked message log (checked sys fuel message r) s
  checked-Checked message log r s (line_in line _ l) =
      elim (Bool-cases (includes message (line_or sys fuel [] line))) [
        | inl e ↦ rw e (found (line_or sys fuel [] line) s l e)
        | inr e ↦
            rw e (not_found illegal_byte_sequence (line_or sys fuel [] line) s (omega arith) l)
      ]
  checked-Checked message log r s (no_line e line heard_line _ n l) =
      rw (ne→== e 0 n) (not_found e heard_line s n l)

  pub check_received_message-Checked :
      (message : List ℕ) (s : Object)
      → Ensures (Checked message s.log) (check_received_message sys fuel message s)
  unfolding check_received_message
  check_received_message-Checked message s =
      then_Ensures (LineHeard s.log) _ (receive_line sys fuel) _ s (receive_line-LineHeard s)
        (λ r s' p. gives _ _ (checked-Checked message s.log r s' p))
