-- ===== src/Servo/Reprograming/Transfer.antt =====
-- `FlushXmodem` of exxx_reprograming.cpp: what it has exchanged with the boot loader when it succeeds.
use hsrb_drivers.Prelude.{
  ℕ, zero, suc, ◌+◌, ◌*◌, ◌%◌, ◌^◌, ◌<◌, ◌≡◌, refl, sym, ap, ◌∙◌, true, false, Option, some, List,
  ◌∷◌, ltb, leb, ◌==◌, length, arith, leb→le, leb→gt, ==→eq, Ensures, stops, gives, then_Ensures,
  if_Ensures, of_some, pure, ◌>>=◌,
}
use hsrb_drivers.Posix.{ErrorCode, errc_success, timed_out, Event, got, put}
use mathlib.Core.Path.{subst}
use hsrb_drivers.Servo.Reprograming.{ISystem, ExxxReprograming, Call, wait_nano_sec}
use hsrb_drivers.Servo.Reprograming.Transport.{is_success, send_data, receive_byte}
use hsrb_drivers.Servo.Reprograming.Lines.{send_command}
use hsrb_drivers.Servo.Reprograming.Xmodem.{
  Round, xmodem_ack, xmodem_nak, xmodem_can, xmodem_eot, flush_finish_message,
  send_flush_block_data, request_loop, first_sent, counted, on_ack, on_nak, on_byte, round_end,
  on_received, block_loop, after_request, flush_xmodem, flush_xmodem_max_retry_count,
  flush_interval_time, xmodem_data_size,
}
use hsrb_drivers.Servo.Reprograming.Send.{
  wait_nano_sec-Keeps, Sending, sent, gave_up, send_data-Sending,
}
use hsrb_drivers.Servo.Reprograming.Answers.{
  SetsErrno, Received, byte_in, no_byte, receive_byte-Received,
}
use hsrb_drivers.Servo.Reprograming.Commands.{Confirmed, send_command-Confirmed}
use hsrb_drivers.Servo.Reprograming.Exchange.{
  numbered, Extends, same, Waiting, first, resent, ignored, next, Transferred, transferred,
}
use hsrb_drivers.Servo.Reprograming.Requests.{Requested, asked, failed, request_loop-Requested}

module _ (sys : ISystem) (fuel : ℕ) (sets : SetsErrno sys) (flush_data : List ℕ) (base : List Event)
    (small : length flush_data + xmodem_data_size < 2 ^ 32) where
  abbrev Object : Type 0
  Object = ExxxReprograming sys.System

  abbrev Outcome : ErrorCode → Object → Type 0
  Outcome e s = e ≡ errc_success → Transferred base flush_data s.log

  -- The variables of the loop while block `k` is waited for.
  abbrev At : ℕ → ℕ → ℕ → List Event → Type 0
  At k send_pos block_number log =
      (send_pos ≡ xmodem_data_size * k)
      × (block_number ≡ (k + 1) % 256)
      × (xmodem_data_size * k < length flush_data)
      × Waiting base flush_data k log

  data AfterRound : Round → Object → Type 0 where
    goes_on :
        (r : Round) (s : Object) (k : ℕ)
        → r.is_flush_xmodem ≡ true
        → At k r.send_pos r.block_number s.log
        → AfterRound r s
    ends : (r : Round) (s : Object) → r.is_flush_xmodem ≡ false → Outcome r.error s → AfterRound r s
    used_up :
        (r : Round) (s : Object)
        → leb flush_xmodem_max_retry_count r.retry_count ≡ true
        → AfterRound r s

  -- A block that is sent, or whose transmission fails and ends the loop.
  after_block :
      (e : ErrorCode) (retry_count k : ℕ) (before : List Event) (s : Object)
      → (xmodem_data_size * k < length flush_data)
      → Waiting base flush_data k (put (numbered flush_data k) before)
      → Sending sys fuel (numbered flush_data k) before e s
      → AfterRound
          (record (counted e retry_count (xmodem_data_size * k) ((k + 1) % 256)) {
            is_flush_xmodem = is_success e;
          })
          s
  after_block e retry_count k before s m w (sent _ l) =
      goes_on _ s k refl (refl, refl, m, subst (Waiting base flush_data k) (sym l) w)
  after_block e retry_count k before s m w (gave_up _ n l) =
      ends _ s refl (λ z. absurd (omega arith))

  send_block :
      (retry_count k : ℕ) (s : Object)
      → (xmodem_data_size * k < length flush_data)
      → Waiting base flush_data k (put (numbered flush_data k) s.log)
      → Ensures AfterRound (
          (do
            e ← send_flush_block_data sys fuel flush_data (xmodem_data_size * k) ((k + 1) % 256)
            pure (record (counted e retry_count (xmodem_data_size * k) ((k + 1) % 256)) {
              is_flush_xmodem = is_success e;
            }))
            s)
  send_block retry_count k s m w =
      then_Ensures (Sending sys fuel (numbered flush_data k) s.log) _
        (send_data sys fuel (numbered flush_data k)) _ s
        (send_data-Sending sys fuel (numbered flush_data k) s (omega arith))
        (λ e s' p. gives _ _ (after_block e retry_count k s.log s' m w p))

  on_ack-AfterRound :
      (k : ℕ) (l : List Event) (s : Object)
      → (xmodem_data_size * k < length flush_data)
      → Waiting base flush_data k l
      → s.log ≡ got xmodem_ack ∷ l
      → Ensures AfterRound
          (on_ack sys fuel flush_data (xmodem_data_size * (k + 1)) ((k + 1 + 1) % 256) s)
  on_ack-AfterRound k l s m w e =
      if_Ensures _ (length flush_data == 0) _ _ s (λ _. stops)
        (λ _.
          if_Ensures _ (leb (length flush_data) (xmodem_data_size * (k + 1))) _ _ s
            (λ done.
              then_Ensures
                (λ e (s' : Object).
                  e ≡ errc_success → Confirmed xmodem_eot flush_finish_message s.log s'.log)
                _ (send_command sys fuel xmodem_eot flush_finish_message) _ s
                (send_command-Confirmed sys fuel sets xmodem_eot flush_finish_message s.log s refl)
                (λ e' s' c. gives _ _ (
                  ends _ s' refl (λ z.
                    transferred k l w m (leb→le _ _ done)
                      (subst (λ x. Confirmed xmodem_eot flush_finish_message x s'.log) e (c z))))))
            (λ more.
              let n : xmodem_data_size * (k + 1) < length flush_data = leb→gt _ _ more in
              send_block 0 (k + 1) s n (
                subst (λ x. Waiting base flush_data (k + 1) (put (numbered flush_data (k + 1)) x))
                  (sym e) (next (k + 1) refl n w))))

  on_nak-AfterRound :
      (error : ErrorCode) (retry_count k : ℕ) (l : List Event) (s : Object)
      → (xmodem_data_size * k < length flush_data)
      → Waiting base flush_data k l
      → s.log ≡ got xmodem_nak ∷ l
      → Ensures AfterRound
          (on_nak sys fuel flush_data error retry_count (xmodem_data_size * k) ((k + 1) % 256) s)
  on_nak-AfterRound error retry_count k l s m w e =
      if_Ensures _ (ltb retry_count flush_xmodem_max_retry_count) _ _ s
        (λ _. send_block retry_count k s m (
          subst (λ x. Waiting base flush_data k (put (numbered flush_data k) x)) (sym e)
            (resent w)))
        (λ o. gives _ _ (used_up _ s (ground arith)))

  on_byte-AfterRound :
      (b retry_count k : ℕ) (l : List Event) (s : Object)
      → (xmodem_data_size * k < length flush_data)
      → Waiting base flush_data k l
      → s.log ≡ got b ∷ l
      → Ensures AfterRound (
          on_byte sys fuel flush_data errc_success b retry_count
            (xmodem_data_size * k)
            ((k + 1) % 256)
            s)
  on_byte-AfterRound b retry_count k l s m w e =
      if_Ensures _ (b == xmodem_ack) _ _ s
        (λ a.
          let p : (xmodem_data_size * k + xmodem_data_size) % 2 ^ 32 ≡ xmodem_data_size * (k + 1) =
            omega arith in
          let q : ((k + 1) % 256 + 1) % 256 ≡ (k + 1 + 1) % 256 = omega arith in
          rw (p, q) (on_ack-AfterRound k l s m w (e ∙ ap (λ x. got x ∷ l) (==→eq _ _ a))))
        (λ a.
          if_Ensures _ (b == xmodem_nak) _ _ s
            (λ n.
              on_nak-AfterRound errc_success (retry_count + 1) k l s m w
                (e ∙ ap (λ x. got x ∷ l) (==→eq _ _ n)))
            (λ n.
              if_Ensures _ (b == xmodem_can) _ _ s
                (λ c. gives _ _ (ends _ s refl (λ z. absurd (omega arith))))
                (λ c. gives _ _ (
                  goes_on _ s k refl (
                    refl,
                    refl,
                    m,
                    subst (Waiting base flush_data k) (sym e)
                        (ignored b (ground arith) (ground arith) w),
                  )))))

  abbrev Again : (ℕ → ℕ → ℕ → Call sys fuel ErrorCode) → Type 0
  Again again =
      (retry_count send_pos block_number k : ℕ) (s : Object)
      → At k send_pos block_number s.log
      → Ensures Outcome (again retry_count send_pos block_number s)

  round_end-Outcome :
      (r : Round) (again : ℕ → ℕ → ℕ → Call sys fuel ErrorCode) (s : Object)
      → Again again
      → AfterRound r s
      → Ensures Outcome (round_end sys fuel flush_data r again s)
  round_end-Outcome r again s h (used_up _ _ u) =
      if_Ensures _ (leb flush_xmodem_max_retry_count r.retry_count) _ _ s
        (λ _. gives _ _ (λ z. absurd (omega arith))) (λ left. absurd (ground arith))
  round_end-Outcome r again s h (ends _ _ f o) =
      if_Ensures _ (leb flush_xmodem_max_retry_count r.retry_count) _ _ s
        (λ _. gives _ _ (λ z. absurd (omega arith)))
        (λ _. if_Ensures _ r.is_flush_xmodem _ _ s (λ t. absurd (cc)) (λ _. gives _ _ o))
  round_end-Outcome r again s h (goes_on _ _ k f at) =
      if_Ensures _ (leb flush_xmodem_max_retry_count r.retry_count) _ _ s
        (λ _. gives _ _ (λ z. absurd (omega arith)))
        (λ _.
          if_Ensures _ r.is_flush_xmodem _ _ s
            (λ _.
              then_Ensures (λ _ (s' : Object). s'.log ≡ s.log) _
                (wait_nano_sec sys fuel flush_interval_time) _ s
                (wait_nano_sec-Keeps sys fuel flush_interval_time s)
                (λ waited s' l.
                  if_Ensures _ (is_success waited) _ _ s'
                    (λ _.
                      h r.retry_count r.send_pos r.block_number k s'
                        (at.0, at.1, at.2, subst (Waiting base flush_data k) (sym l) at.3))
                    (λ z. gives _ _ (λ y. absurd (ground arith)))))
            (λ t. absurd (cc)))

  on_received-Outcome :
      (retry_count k : ℕ) (r : ErrorCode × Option ℕ) (again : ℕ → ℕ → ℕ → Call sys fuel ErrorCode)
      (before : List Event) (s : Object)
      → (xmodem_data_size * k < length flush_data)
      → Waiting base flush_data k before
      → Again again
      → Received sys fuel sets before r s
      → Ensures Outcome (
          on_received sys fuel flush_data retry_count
            (xmodem_data_size * k)
            ((k + 1) % 256)
            again
            r
            s)
  on_received-Outcome retry_count k r again before s m w h (byte_in b _ l) =
      then_Ensures AfterRound _
        (on_byte sys fuel flush_data errc_success b retry_count (xmodem_data_size * k)
          ((k + 1) % 256))
        (λ r. round_end sys fuel flush_data r again) s
        (on_byte-AfterRound b retry_count k before s m w l)
        (λ r' s' p. round_end-Outcome r' again s' h p)
  on_received-Outcome retry_count k r again before s m w h (no_byte e _ n l) =
      if_Ensures _ (e == timed_out) _ _ s
        (λ _.
          round_end-Outcome (counted e (retry_count + 1) (xmodem_data_size * k) ((k + 1) % 256))
            again s h
            (goes_on _ s k refl (refl, refl, m, subst (Waiting base flush_data k) (sym l) w)))
        (λ _. gives _ _ (λ z. absurd (n z)))

  block_loop-Outcome :
      (n retry_count send_pos block_number k : ℕ) (s : Object)
      → At k send_pos block_number s.log
      → Ensures Outcome (block_loop sys fuel flush_data n retry_count send_pos block_number s)
  unfolding block_loop
  block_loop-Outcome zero retry_count send_pos block_number k s at = stops
  block_loop-Outcome (suc n) retry_count send_pos block_number k s at =
      then_Ensures (Received sys fuel sets s.log) _ (receive_byte sys fuel)
        (on_received sys fuel flush_data retry_count send_pos block_number
          (block_loop sys fuel flush_data n))
        s (receive_byte-Received sys fuel sets s)
        (λ r s' p.
          rw (at.0, at.1)
            (on_received-Outcome retry_count k r (block_loop sys fuel flush_data n) s.log s' at.2
              at.3 (block_loop-Outcome n) p))

  after_request-Outcome :
      (e : ErrorCode) (s : Object)
      → 0 < length flush_data
      → Requested sys fuel sets flush_data base e s
      → Ensures Outcome (after_request sys fuel flush_data e s)
  after_request-Outcome e s m (failed _ _ n) =
      if_Ensures _ (is_success e) _ _ s (λ z. absurd (n (==→eq e 0 z)))
        (λ _. gives _ _ (λ z. absurd (n z)))
  after_request-Outcome e s m (asked _ l x₀ a) =
      then_Ensures (Sending sys fuel (numbered flush_data 0) s.log) _
        (send_data sys fuel (numbered flush_data 0)) (first_sent sys fuel flush_data) s
        (send_data-Sending sys fuel (numbered flush_data 0) s (omega arith))
        (λ e' s' p. first_sent-Outcome e' s' p)
    where
      first_sent-Outcome :
          (e' : ErrorCode) (s' : Object)
          → Sending sys fuel (numbered flush_data 0) s.log e' s'
          → Ensures Outcome (first_sent sys fuel flush_data e' s')
      first_sent-Outcome e' s' (gave_up _ n x) = gives _ _ (λ z. absurd (omega arith))
      first_sent-Outcome e' s' (sent _ x) =
          let w : Waiting base flush_data 0 s'.log =
            subst (Waiting base flush_data 0) (sym (x ∙ ap (put (numbered flush_data 0)) a))
              (first l x₀) in
          then_Ensures (λ _ (s'' : Object). s''.log ≡ s'.log) _
            (wait_nano_sec sys fuel flush_interval_time) _ s'
            (wait_nano_sec-Keeps sys fuel flush_interval_time s')
            (λ waited s'' y.
              if_Ensures _ (is_success waited) _ _ s''
                (λ _.
                  block_loop-Outcome fuel 0 0 1 0 s''
                    (refl, refl, m, subst (Waiting base flush_data 0) (sym y) w))
                (λ z. gives _ _ (λ y. absurd (ground arith))))

  pub flush_xmodem-Outcome :
      (s : Object)
      → 0 < length flush_data
      → s.log ≡ base
      → Ensures Outcome (flush_xmodem sys fuel flush_data s)
  unfolding flush_xmodem
  flush_xmodem-Outcome s m e =
      then_Ensures (Requested sys fuel sets flush_data base) _
        (request_loop sys fuel flush_data flush_xmodem_max_retry_count 0)
        (after_request sys fuel flush_data) s
        (request_loop-Requested sys fuel sets flush_data base flush_xmodem_max_retry_count 0 s
          (subst (Extends base) (sym e) same))
        (λ r s'' p. after_request-Outcome r s'' m p)

-- If `FlushXmodem` succeeds with a firmware that is not empty and below 4 GiB, the boot loader has asked for the
-- blocks, each has been sent and acknowledged in order; each further request was answered by the block that was
-- waited for, in full, other bytes were ignored, and after the last block the end of the transfer was sent until a line came that includes "SUCCESS".
pub flush_xmodem-Transferred :
    (sys : ISystem) (fuel : ℕ) (flush_data : List ℕ) (s s' : ExxxReprograming sys.System)
    → SetsErrno sys
    → 0 < length flush_data
    → length flush_data + xmodem_data_size < 2 ^ 32
    → flush_xmodem sys fuel flush_data s ≡ some (errc_success, s')
    → Transferred s.log flush_data s'.log
flush_xmodem-Transferred sys fuel flush_data s s' sets m small e =
    of_some
      (λ e (s' : ExxxReprograming sys.System).
        e ≡ errc_success → Transferred s.log flush_data s'.log)
      errc_success s'
      (subst
        (Ensures (λ e (s' : ExxxReprograming sys.System).
          e ≡ errc_success → Transferred s.log flush_data s'.log))
        e (flush_xmodem-Outcome sys fuel sets flush_data s.log small s m refl))
      refl
