-- ===== src/Servo/Reprograming/Requests.antt =====
-- The first request of the boot loader, for which `FlushXmodem` of exxx_reprograming.cpp waits.
use hsrb_drivers.Prelude.{
  ℕ, zero, suc, ◌+◌, ◌≡◌, ◌≢◌, sym, ap, ◌∙◌, ◌||◌, Option, List, ◌∷◌, leb, ◌==◌, if◌then◌else◌,
  arith, ==→eq, Ensures, stops, gives, then_Ensures, if_Ensures, pure,
}
use hsrb_drivers.Posix.{ErrorCode, errc_success, timed_out, Event, got}
use mathlib.Core.Path.{subst}
use hsrb_drivers.Servo.Reprograming.{ISystem, ExxxReprograming, Call}
use hsrb_drivers.Servo.Reprograming.Transport.{is_success, receive_byte}
use hsrb_drivers.Servo.Reprograming.Xmodem.{
  xmodem_nak, on_request, request_loop, flush_xmodem_max_retry_count,
}
use hsrb_drivers.Servo.Reprograming.Answers.{
  SetsErrno, Received, byte_in, no_byte, receive_byte-Received,
}
use hsrb_drivers.Servo.Reprograming.Exchange.{Extends, later}

module _ (sys : ISystem) (fuel : ℕ) (sets : SetsErrno sys) (flush_data : List ℕ)
    (base : List Event) where
  abbrev Object : Type 0
  Object = ExxxReprograming sys.System

  -- The request of the boot loader is the last byte that was heard.
  pub data Requested : ErrorCode → Object → Type 0 where
    asked :
        (s : Object) (l : List Event)
        → Extends base l
        → s.log ≡ got xmodem_nak ∷ l
        → Requested errc_success s
    failed : (e : ErrorCode) (s : Object) → e ≢ errc_success → Requested e s

  counted-Requested :
      (e retry_count : ℕ) (again : ℕ → Call sys fuel ErrorCode) (s : Object)
      → ((n : ℕ) → Ensures Requested (again n s))
      → Ensures Requested (
          (if leb flush_xmodem_max_retry_count (retry_count + 1)
              then pure timed_out
              else again (retry_count + 1))
            s)
  counted-Requested e retry_count again s h =
      if_Ensures _ (leb flush_xmodem_max_retry_count (retry_count + 1)) _ _ s
        (λ _. gives _ _ (failed timed_out s (omega arith))) (λ _. h (retry_count + 1))

  on_request-Requested :
      (retry_count : ℕ) (again : ℕ → Call sys fuel ErrorCode) (r : ErrorCode × Option ℕ)
      (before : List Event) (s : Object)
      → Extends base before
      → ((n : ℕ) → Extends base s.log → Ensures Requested (again n s))
      → Received sys fuel sets before r s
      → Ensures Requested (on_request sys fuel flush_data retry_count again r s)
  on_request-Requested retry_count again r before s x h (byte_in b _ l) =
      if_Ensures _ (b == xmodem_nak) _ _ s
        (λ e. gives _ _ (asked s before x (l ∙ ap (λ x. got x ∷ before) (==→eq _ _ e))))
        (λ _.
          counted-Requested errc_success retry_count again s
            (λ n. h n (subst (Extends base) (sym l) (later (got b) x))))
  on_request-Requested retry_count again r before s x h (no_byte e _ n l) =
      if_Ensures _ (is_success e || e == timed_out) _ _ s
        (λ _. counted-Requested e retry_count again s (λ n. h n (subst (Extends base) (sym l) x)))
        (λ _. gives _ _ (failed e s n))

  pub request_loop-Requested :
      (n retry_count : ℕ) (s : Object)
      → Extends base s.log
      → Ensures Requested (request_loop sys fuel flush_data n retry_count s)
  unfolding request_loop
  request_loop-Requested zero retry_count s x = stops
  request_loop-Requested (suc n) retry_count s x =
      then_Ensures (Received sys fuel sets s.log) _ (receive_byte sys fuel)
        (on_request sys fuel flush_data retry_count (request_loop sys fuel flush_data n)) s
        (receive_byte-Received sys fuel sets s)
        (λ r s' p.
          on_request-Requested retry_count (request_loop sys fuel flush_data n) r s.log s' x
            (λ k. request_loop-Requested n k s') p)
