-- ===== src/Servo/Reprograming/Flashing.antt =====
-- `Flush` of exxx_reprograming.cpp: what has been exchanged when it succeeds.
use hsrb_drivers.Prelude.{
  ℕ, zero, suc, ◌+◌, ◌<◌, ◌^◌, ◌≡◌, ◌≢◌, refl, sym, ap, ◌∙◌, Option, none, some, List, [], ◌∷◌,
  ◌++◌, ◌==◌, if◌then◌else◌, length, arith, ==→eq, ne→==, Ensures, stops, gives, then_Ensures,
  if_Ensures, of_some, weaken, with_result, pure,
}
use hsrb_drivers.Posix.{ErrorCode, errc_success, timed_out, Event, out, got, heard}
use mathlib.Core.Path.{subst}
use hsrb_drivers.Servo.Reprograming.{ISystem, ExxxReprograming, Call}
use hsrb_drivers.Servo.Reprograming.Transport.{is_success, send_data, receive_byte}
use hsrb_drivers.Servo.Reprograming.Lines.{send_command}
use hsrb_drivers.Servo.Reprograming.Xmodem.{flush_xmodem, xmodem_data_size}
use hsrb_drivers.Servo.Reprograming.Boot.{
  flush_command, execute_command, flush_check_message, after_drained, drain, after_flush_drain,
  after_flush_command, flush,
}
use hsrb_drivers.Servo.Reprograming.Send.{Sending, sent, gave_up, send_data-Sending}
use hsrb_drivers.Servo.Reprograming.Answers.{
  SetsErrno, Received, byte_in, no_byte, receive_byte-Received,
}
use hsrb_drivers.Servo.Reprograming.Commands.{Confirmed, send_command-Confirmed}
use hsrb_drivers.Servo.Reprograming.Exchange.{Transferred}
use hsrb_drivers.Servo.Reprograming.Transfer.{flush_xmodem-Outcome}
use hsrb_drivers.Servo.Reprograming.Erasure.{heard-append, no_answer-ne-errc_success}

module _ (sys : ISystem) (fuel : ℕ) where
  -- The command was confirmed, and the bytes that came then were thrown away until a wait for a byte timed out; right
  -- then `y` was sent, and after it the firmware was transferred.
  pub data Flushed (flush_data : List ℕ) (log : List Event) (s : ExxxReprograming sys.System)
      : Type 0 where
    flushed :
        (l : List Event) (bytes : List ℕ) (s₀ s₁ s₂ : ExxxReprograming sys.System)
        → Confirmed flush_command flush_check_message log l
        → s₀.log ≡ heard bytes l
        → receive_byte sys fuel s₀ ≡ some ((timed_out, none), s₁)
        → s₁.log ≡ heard bytes l
        → send_data sys fuel (execute_command ∷ []) s₁ ≡ some (errc_success, s₂)
        → flush_xmodem sys fuel flush_data s₂ ≡ some (errc_success, s)
        → Transferred (out execute_command ∷ heard bytes l) flush_data s.log
        → Flushed flush_data log s

module _ (sys : ISystem) (fuel : ℕ) (sets : SetsErrno sys) where
  abbrev Object : Type 0
  Object = ExxxReprograming sys.System

  -- Bytes that are thrown away until the wait for a byte ends with an error.
  abbrev Drained : List Event → ErrorCode → Object → Type 0
  Drained before e s =
      (bytes : List ℕ) × (s.log ≡ heard bytes before)
      × (e ≢ errc_success)
      × ((s₀ : Object) × (s₀.log ≡ heard bytes before)
          × (receive_byte sys fuel s₀ ≡ some ((e, none), s)))

  module _ (before : List Event) where
    after_drained-Drained :
        (r : ErrorCode × Option ℕ) (again : Call sys fuel ErrorCode) (now : List Event) (s : Object)
        → ((bytes : List ℕ) (s' : Object)
            → s'.log ≡ heard bytes before
            → Ensures (Drained before) (again s'))
        → (bytes : List ℕ) (s₀ : Object) → now ≡ heard bytes before
        → s₀.log ≡ heard bytes before
        → Received sys fuel sets now r s
        → receive_byte sys fuel s₀ ≡ some (r, s)
        → Ensures (Drained before) (after_drained sys fuel r again s)
    after_drained-Drained r again now s h bytes s₀ n n₀ (byte_in b _ l) run =
        h (bytes ++ (b ∷ [])) s
          (l ∙ ap (λ x. got b ∷ x) n ∙ sym (heard-append bytes (b ∷ []) before))
    after_drained-Drained r again now s h bytes s₀ n n₀ (no_byte e _ f l) run =
        rw (ne→== e 0 f) (gives _ _ (bytes, l ∙ n, f, (s₀, n₀, run)))

    drain-Drained :
        (n : ℕ) (bytes : List ℕ) (s : Object)
        → s.log ≡ heard bytes before
        → Ensures (Drained before) (drain sys fuel n s)
    unfolding drain
    drain-Drained zero bytes s l = stops
    drain-Drained (suc n) bytes s l =
        then_Ensures
          (λ r s'. Received sys fuel sets s.log r s' × (receive_byte sys fuel s ≡ some (r, s')))
          (Drained before) (receive_byte sys fuel)
          (λ r. after_drained sys fuel r (drain sys fuel n)) s
          (with_result (Received sys fuel sets s.log) (receive_byte-Received sys fuel sets s))
          (λ r s' (p, run).
            after_drained-Drained r (drain sys fuel n) s.log s' (drain-Drained n) bytes s l l p run)

  module _ (flush_data : List ℕ) (some_data : 0 < length flush_data)
      (small : length flush_data + xmodem_data_size < 2 ^ 32) (log : List Event) where
    abbrev Flushes : ErrorCode → Object → Type 0
    Flushes e s = e ≡ errc_success → Flushed sys fuel flush_data log s

    after_flush_drain-Flushes :
        (e : ErrorCode) (l : List Event) (s : Object)
        → Confirmed flush_command flush_check_message log l
        → Drained l e s
        → Ensures Flushes (after_flush_drain sys fuel flush_data e s)
    after_flush_drain-Flushes e l s c (bytes, b, n, (s₀, b₀, run)) =
        if_Ensures _ (e == timed_out) _ _ s
          (λ late.
            then_Ensures
              (λ e' s'.
                Sending sys fuel (execute_command ∷ []) s.log e' s'
                × (send_data sys fuel (execute_command ∷ []) s ≡ some (e', s')))
              _ (send_data sys fuel (execute_command ∷ [])) _ s
              (with_result (Sending sys fuel (execute_command ∷ []) s.log)
                (send_data-Sending sys fuel (execute_command ∷ []) s (omega arith)))
              (λ e' s' (p, sending). executed (==→eq _ _ late) e' s' p sending))
          (λ _. gives _ _ (λ z. absurd (n z)))
      where
        executed :
            e ≡ timed_out
            → (e' : ErrorCode) (s' : Object) → Sending sys fuel (execute_command ∷ []) s.log e' s'
            → send_data sys fuel (execute_command ∷ []) s ≡ some (e', s')
            → Ensures Flushes
                ((if is_success e' then flush_xmodem sys fuel flush_data else pure e') s')
        executed late e' s' (gave_up _ n l) sending = gives _ _ (λ z. absurd (omega arith))
        executed late e' s' (sent _ x) sending =
            let base : List Event = out execute_command ∷ heard bytes l in
            let Moved : ErrorCode → Object → Type 0 =
              λ e s''. e ≡ errc_success → Transferred base flush_data s''.log in
            weaken (λ e s''. Moved e s'' × (flush_xmodem sys fuel flush_data s' ≡ some (e, s'')))
              Flushes
              (λ a s'' (q, moving) z.
                flushed l bytes s₀ s s' c b₀ (run ∙ ap (λ a. some ((a, none), s)) late) b sending
                  (moving ∙ ap (λ a. some (a, s'')) z) (q z))
              (with_result Moved (
                flush_xmodem-Outcome sys fuel sets flush_data base small s' some_data
                  (x ∙ ap (λ y. out execute_command ∷ y) b)))

    after_flush_command-Flushes :
        (e : ErrorCode) (s : Object)
        → (e ≡ errc_success → Confirmed flush_command flush_check_message log s.log)
        → Ensures Flushes (after_flush_command sys fuel flush_data e s)
    after_flush_command-Flushes e s c =
        if_Ensures _ (is_success e) _ _ s
          (λ z.
            then_Ensures (Drained s.log) Flushes (drain sys fuel fuel)
              (after_flush_drain sys fuel flush_data) s (drain-Drained s.log fuel [] s refl)
              (λ e' s' p. after_flush_drain-Flushes e' s.log s' (c (==→eq e 0 z)) p))
          (λ z. gives _ _ (λ y. absurd (no_answer-ne-errc_success e z y)))

    flush-Flushes : (s : Object) → s.log ≡ log → Ensures Flushes (flush sys fuel flush_data s)
    unfolding flush
    flush-Flushes s l =
        then_Ensures
          (λ e (s' : Object).
            e ≡ errc_success → Confirmed flush_command flush_check_message log s'.log)
          Flushes (send_command sys fuel flush_command flush_check_message)
          (after_flush_command sys fuel flush_data) s
          (send_command-Confirmed sys fuel sets flush_command flush_check_message log s l)
          after_flush_command-Flushes

-- If `Flush` succeeds with a firmware that is not empty and below 4 GiB, its command was confirmed; the bytes that
-- came then were thrown away until a wait for a byte timed out; right then `y` was sent, and after it the whole
-- firmware was transferred by `FlushXmodem`.
pub flush-Flushed :
    (sys : ISystem) (fuel : ℕ) (flush_data : List ℕ) (s s' : ExxxReprograming sys.System)
    → SetsErrno sys
    → 0 < length flush_data
    → length flush_data + xmodem_data_size < 2 ^ 32
    → flush sys fuel flush_data s ≡ some (errc_success, s')
    → Flushed sys fuel flush_data s.log s'
flush-Flushed sys fuel flush_data s s' sets m small e =
    of_some (Flushes sys fuel sets flush_data m small s.log) errc_success s'
      (subst (Ensures (Flushes sys fuel sets flush_data m small s.log)) e
        (flush-Flushes sys fuel sets flush_data m small s.log s refl))
      refl
