-- ===== src/Imu/Protocol/Reset.antt =====
-- The reset of the sensor: its states, and what a reset that succeeds has waited for.
use hsrb_drivers.Prelude.{
  ◌⊎◌, ℕ, zero, suc, ◌+◌, ◌∙◌, ap, ◌≤◌, ◌≡◌, ◌≢◌, refl, Bool, true, false, ◌||◌, not, Option, none,
  some, List, [], ◌∷◌, length, All, ltb, if◌then◌else◌, arith, Option-cases, Bool-cases, inl, inr,
  le→ltb,
}
use mathlib.Core.Path.{subst}
use hsrb_drivers.Imu.Network.{ErrorCode, success, timed_out}
use hsrb_drivers.Imu.Protocol.{
  ImuNetwork, Protocol, Tried, ResetResult, done, error, continue, ProtocolStatus, status_waiting,
  status_wait_for_reset, status_receive_reset_return, is_error, instruction_reset, reset_duration,
  instruction_timeout_duration, Reading, kept, read_state, try_reset, try_reset_in, sent_reset,
  received_reply, reset_loop, reset,
}

-- Some round begins at `limit` or later.
abbrev pub Passes : ℕ → List (ℕ × ℕ × ℕ) → Type 0
Passes limit [] = ⊥
Passes limit ((test, _, _) ∷ rounds) = (limit ≤ test) ⊎ Passes limit rounds

module _ (network : ImuNetwork) where
  open network use {Line, send, receive, is_reply_packet}

  -- What a call of `TryReset` does in each status.
  pub data Outcome : ProtocolStatus → Tried network → Type 0 where
    -- A call of the network does not come back.
    stuck : (status : ProtocolStatus) → Outcome status none
    -- The command could not be sent.
    not_sent :
        (code : ErrorCode) (s : Protocol network)
        → is_error code ≡ true
        → s.status ≡ status_waiting
        → Outcome status_waiting (some (code, error, s))
    -- The command was sent.
    sent :
        (s : Protocol network)
        → s.status ≡ status_wait_for_reset
        → Outcome status_waiting (some (success, continue, s))
    -- The sensor is given more time, or its time has passed.
    resting :
        (s : Protocol network)
        → s.status ≡ status_wait_for_reset
        → Outcome status_wait_for_reset (some (success, continue, s))
    rested :
        (s : Protocol network)
        → s.status ≡ status_receive_reset_return
        → Outcome status_wait_for_reset (some (success, continue, s))
    -- No reply yet, and the protocol goes on waiting or gives up.
    listening :
        (s : Protocol network)
        → s.status ≡ status_receive_reset_return
        → Outcome status_receive_reset_return (some (success, continue, s))
    given_up :
        (s : Protocol network)
        → s.status ≡ status_waiting
        → Outcome status_receive_reset_return (some (timed_out, error, s))
    -- The reply has come, in a reception that was a success.
    replied :
        (s : Protocol network) (before : Line)
        → s.status ≡ status_waiting
        → receive before ≡ some (success, s.line)
        → is_reply_packet s.line ≡ true
        → Outcome status_receive_reset_return (some (success, done, s))

  Outcome-if :
      (status : ProtocolStatus) (b : Bool) (x y : Tried network)
      → (b ≡ true → Outcome status x)
      → (b ≡ false → Outcome status y)
      → Outcome status (if b then x else y)
  Outcome-if status true x y t f = t refl
  Outcome-if status false x y t f = f refl

  not_error : (e : ErrorCode) → is_error e ≡ false → e ≡ success
  not_error e h = ground (arith, h)

  sent_outcome :
      (now now' : ℕ) (s : Protocol network) (r : Option (ErrorCode × Line))
      → s.status ≡ status_waiting
      → Outcome status_waiting (sent_reset network now now' s r)
  sent_outcome now now' s none h = stuck status_waiting
  sent_outcome now now' s (some (e, line)) h =
      Outcome-if status_waiting (is_error e) _ _ (λ bad. not_sent e _ bad h) (λ _. sent _ refl)

  reply_outcome :
      (now : ℕ) (s : Protocol network) (r : Option (ErrorCode × Line))
      → s.status ≡ status_receive_reset_return
      → receive s.line ≡ r
      → Outcome status_receive_reset_return (received_reply network now s r)
  reply_outcome now s none h came = stuck status_receive_reset_return
  reply_outcome now s (some (e, line)) h came =
      Outcome-if status_receive_reset_return (is_error e || not (is_reply_packet line)) _ _
        (λ _.
          Outcome-if status_receive_reset_return (ltb s.instruction_timeout now) _ _
            (λ _. given_up _ refl) (λ _. listening _ h))
        (λ good.
          let ok : e ≡ success = not_error e (ground (arith, good)) in
          replied _ s.line refl (came ∙ ap (λ c. some (c, line)) ok) (ground (arith, good)))

  outcome_in :
      (status : ProtocolStatus) (now now' : ℕ) (s : Protocol network)
      → s.status ≡ status
      → Outcome status (try_reset_in network status now now' s)
  outcome_in status_waiting now now' s h =
      sent_outcome now now' s (send instruction_reset [] s.line) h
  outcome_in status_wait_for_reset now now' s h =
      Outcome-if status_wait_for_reset (ltb s.instruction_end_time now) _ _ (λ _. rested _ refl)
        (λ _. resting s h)
  outcome_in status_receive_reset_return now now' s h = reply_outcome now s (receive s.line) h refl

  -- Every call of `TryReset` that comes back moves along the states of the reset: it reports `done` only in the
  -- last state and with a reply, and an error only with the status at waiting.
  pub try_reset-Outcome :
      (now now' : ℕ) (s : Protocol network) → Outcome s.status (try_reset network now now' s)
  unfolding try_reset
  try_reset-Outcome now now' s = outcome_in s.status now now' s refl

  -- While a reset is under way, `ReadState` leaves the caller's state, the device and the protocol alone.
  pub read_state-kept :
      (s : Protocol network)
      → s.status ≢ status_waiting
      → read_state network s ≡ some (success, kept, s)
  unfolding read_state
  read_state-kept s h = ground arith

  -- A reading moves the reset neither on nor back.
  pub status-read_state :
      (s : Protocol network) (code : ErrorCode) (reading : Reading) (s' : Protocol network)
      → read_state network s ≡ some (code, reading, s')
      → s'.status ≡ s.status
  unfolding read_state
  status-read_state s code reading s' e = ground arith

  -- The time of the sensor has not passed: the status is that after the command, and the clock stands at `T` or before.
  record IsResting (T : ℕ) (s : Protocol network) : Type 0 where
    status : s.status ≡ status_wait_for_reset
    until : T ≤ s.instruction_end_time

  rests :
      (T now now' : ℕ) (s : Protocol network)
      → IsResting T s
      → now ≤ T
      → try_reset network now now' s ≡ some (success, continue, s)
  unfolding try_reset
  rests T now now' s r h =
      let early = le→ltb s.instruction_end_time now (omega (arith, r.until)) in
      ground (arith, r.status, early)

  resting_loop :
      (T time_limit : ℕ) (s : Protocol network) (rounds : List (ℕ × ℕ × ℕ)) (s' : Protocol network)
      → IsResting T s
      → All (λ r. r.1 ≤ T) rounds
      → reset_loop network time_limit s rounds ≢ some (success, s')
  unfolding reset_loop
  resting_loop T time_limit s [] s' r h e = cc
  resting_loop T time_limit s ((test, now, now') ∷ rounds) s' r h e =
      ground (arith, rests T now now' s r h.0, resting_loop T time_limit s rounds s' r h.1)

  first_round :
      (test now now' : ℕ) (s : Protocol network) (code : ErrorCode) (result : ResetResult)
      (s' : Protocol network)
      → s.status ≡ status_waiting
      → try_reset network now now' s ≡ some (code, result, s')
      → is_error code ≡ false
      → (result ≡ continue) × IsResting (now + reset_duration) s'
  unfolding try_reset
  first_round test now now' s code result s' h e good =
      (ground arith, record { status = ground arith; until = ground arith })

  -- A `Reset` begun in the status of waiting, whose first round sends the command at `now`, does not return success
  -- as long as `TryReset` reads no clock later than three seconds after `now`.
  pub reset-not_early :
      (start timeout test now now' : ℕ) (s : Protocol network) (rounds : List (ℕ × ℕ × ℕ))
      (s' : Protocol network)
      → s.status ≡ status_waiting
      → All (λ r. r.1 ≤ now + reset_duration) rounds
      → reset network start timeout s ((test, now, now') ∷ rounds) ≢ some (success, s')
  unfolding reset reset_loop
  reset-not_early start timeout test now now' s rounds s' h early e =
      elim (Option-cases (try_reset network now now' s)) [
        | inl out ↦ ground (arith, out)
        | inr ((code, result, s₁), r) ↦ ground (
          arith,
          r,
          first_round test now now' s code result s₁ h r,
          resting_loop (now + reset_duration) (start + timeout) s₁ rounds s',
        )
      ]

  -- What a call that reports `done` leaves: the line as a reception has left it, with a reply.
  record IsReset (s : Protocol network) : Type 0 where
    status : s.status ≡ status_waiting
    before : Line
    received : receive before ≡ some (success, s.line)
    reply : is_reply_packet s.line ≡ true

  done_outcome :
      {status : ProtocolStatus} {r : Tried network} (code : ErrorCode) (s : Protocol network)
      → Outcome status r
      → r ≡ some (code, done, s)
      → IsReset s
  done_outcome code s (replied s₁ before w r y) e =
      let same : s₁ ≡ s = cc in
      subst IsReset same (record { status = w; before = before; received = r; reply = y })
  done_outcome code s (stuck st) e = cc
  done_outcome code s (not_sent c s₁ b w) e = cc
  done_outcome code s (sent s₁ w) e = cc
  done_outcome code s (resting s₁ w) e = cc
  done_outcome code s (rested s₁ w) e = cc
  done_outcome code s (listening s₁ w) e = cc
  done_outcome code s (given_up s₁ w) e = cc

  reset_loop_success :
      (time_limit : ℕ) (s : Protocol network) (rounds : List (ℕ × ℕ × ℕ)) (s' : Protocol network)
      → reset_loop network time_limit s rounds ≡ some (success, s')
      → IsReset s'
  unfolding reset_loop
  reset_loop_success time_limit s [] s' e = absurd (cc)
  reset_loop_success time_limit s ((test, now, now') ∷ rounds) s' e =
      elim (Option-cases (try_reset network now now' s)) [
        | inl out ↦ absurd (ground (arith, out))
        | inr ((code, result, s₁), r) ↦ ground (
          arith,
          r,
          done_outcome code s₁ (try_reset-Outcome now now' s),
          reset_loop_success time_limit s₁ rounds s',
        )
      ]

  -- If `Reset` returns success, the last thing that was done to the line is a reception that was a success and that has
  -- left a reply, and the protocol waits for the next command.
  pub reset-IsReset :
      (start timeout : ℕ) (s : Protocol network) (rounds : List (ℕ × ℕ × ℕ)) (s' : Protocol network)
      → reset network start timeout s rounds ≡ some (success, s')
      → (s'.status ≡ status_waiting)
        × (is_reply_packet s'.line ≡ true)
        × ((before : Line) × (receive before ≡ some (success, s'.line)))
  unfolding reset
  reset-IsReset start timeout s rounds s' e =
      let r = reset_loop_success (start + timeout) s rounds s' e in
      (r.status, r.reply, (r.before, r.received))

  -- The next `n` calls of the network in a reset come back, whichever they are.
  abbrev pub ComesBack : ℕ → Line → Type 0
  ComesBack zero line = Unit
  ComesBack (suc n) line =
      ((r : ErrorCode × Line) × (send instruction_reset [] line ≡ some r) × ComesBack n r.1)
      × ((r : ErrorCode × Line) × (receive line ≡ some r) × ComesBack n r.1)
      × ComesBack n line

  tries :
      (n : ℕ) (status : ProtocolStatus) (now now' : ℕ) (s : Protocol network)
      → ComesBack (suc n) s.line
      → (e : ErrorCode) × (result : ResetResult) × (s' : Protocol network) × (try_reset_in network
            status now now' s
          ≡ some (e, result, s'))
        × ComesBack n s'.line
  tries n status_waiting now now' s (((e, line), sends, after), _, unused) =
      elim (Bool-cases (is_error e)) [
        | inl bad ↦ (e, error, record s { line = line }, rw (sends, bad) refl, after)
        | inr good ↦ (
          success,
          continue,
          record s {
            line = line;
            instruction_end_time = now + reset_duration;
            instruction_timeout = now' + instruction_timeout_duration;
            status = status_wait_for_reset;
          },
          rw (sends, good) refl,
          after,
        )
      ]
  tries n status_wait_for_reset now now' s (_, _, unused) =
      elim (Bool-cases (ltb s.instruction_end_time now)) [
        | inl over ↦ (
          success,
          continue,
          record s { status = status_receive_reset_return },
          rw over refl,
          unused,
        )
        | inr under ↦ (success, continue, s, rw under refl, unused)
      ]
  tries n status_receive_reset_return now now' s (_, ((e, line), came, after), unused) =
      elim (Bool-cases (is_error e || not (is_reply_packet line))) [
        | inl bad ↦ elim (Bool-cases (ltb s.instruction_timeout now)) [
          | inl late ↦ (
            timed_out,
            error,
            record s { line = line; status = status_waiting },
            rw (came, bad, late) refl,
            after,
          )
          | inr early ↦
              (success, continue, record s { line = line }, rw (came, bad, early) refl, after)
        ]
        | inr good ↦ (
          success,
          done,
          record s { line = line; status = status_waiting },
          rw (came, good) refl,
          after,
        )
      ]

  reset_loop_ends :
      (time_limit : ℕ) (s : Protocol network) (rounds : List (ℕ × ℕ × ℕ))
      → ComesBack (length rounds) s.line
      → Passes time_limit rounds
      → reset_loop network time_limit s rounds ≢ none
  unfolding reset_loop
  reset_loop_ends time_limit s [] c p e = p
  reset_loop_ends time_limit s ((test, now, now') ∷ rounds) c p e =
      let (code, result, s₁, r, c') = tries (length rounds) s.status now now' s c in
      let r' : try_reset network now now' s ≡ some (code, result, s₁) = unfold try_reset in r in
      ground (arith, r', p, reset_loop_ends time_limit s₁ rounds c')

  -- If the calls of the network in the rounds of a `Reset` come back, one in each round at most, then `Reset` comes back
  -- when the clock of some round reaches the time limit.
  pub reset-ne-none :
      (start timeout : ℕ) (s : Protocol network) (rounds : List (ℕ × ℕ × ℕ))
      → ComesBack (length rounds) s.line
      → Passes (start + timeout) rounds
      → reset network start timeout s rounds ≢ none
  unfolding reset
  reset-ne-none start timeout s rounds c p = reset_loop_ends (start + timeout) s rounds c p
