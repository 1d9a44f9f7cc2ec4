-- ===== src/Ecu/Serial/Receiving.antt =====
-- What `Receive` of serial_network.cpp leaves in the buffer of the caller.
use hsrb_drivers.Prelude.{
  ℕ, ◌+◌, ◌-◌, ◌≤◌, ◌≡◌, ◌≢◌, refl, sym, ap, ◌∙◌, List, [], ◌∷◌, ◌++◌, ltb, min, length,
  length-append, append_assoc, append-nil, gt→leb, arith, Returns, returns, if_Returns,
}
use mathlib.Core.Path.{subst}
use hsrb_drivers.Posix.{
  ErrorCode, errc_success, timed_out, Polled, ready, nothing, poll_failed, heard,
}
use hsrb_drivers.Ecu.Serial.{
  ISystemInterface, SerialNetwork, PacketBuffer, Bytes, bytes, read_failed, buffer_size, push_all,
  logged, stored, after_poll, receive,
}

-- `read` gives at most the bytes it is asked for, and a call that fails sets `errno`, which is not 0.
pub record IsReader (sys : ISystemInterface) : Type 0 where
  pub read_bounded :
      (fd n : ℕ) (s : sys.System) (bs : List ℕ) → (sys.read fd n s).0 ≡ bytes bs → length bs ≤ n
  pub read_errno : (fd n : ℕ) (s : sys.System) → (sys.read fd n s).0 ≢ read_failed 0
  pub poll_errno : (fd t : ℕ) (s : sys.System) → (sys.poll fd t s).0 ≢ poll_failed 0

-- What `Receive` does: bytes have come, and the buffer has them at its end, or there is an error, and the buffer is
-- the one from before.
pub data Received {System : Type 0} (b : PacketBuffer) (s : SerialNetwork System)
    : ErrorCode × PacketBuffer → SerialNetwork System → Type 0 where
  received :
      (bs : List ℕ) (s' : SerialNetwork System)
      → length (b.content ++ bs) ≤ b.capacity
      → length bs ≤ buffer_size
      → s'.log ≡ heard bs s.log
      → Received b s (errc_success, record b { content = b.content ++ bs }) s'
  refused :
      (e : ErrorCode) (s' : SerialNetwork System)
      → e ≢ errc_success
      → s'.log ≡ s.log
      → Received b s (e, b) s'

push_all-append :
    (b : PacketBuffer) (xs : List ℕ)
    → length b.content + length xs ≤ b.capacity
    → push_all b xs ≡ record b { content = b.content ++ xs }
push_all-append b [] h = ap (λ c. record b { content = c }) (sym (append-nil b.content))
push_all-append b (x ∷ xs) h = rw (gt→leb b.capacity (length b.content) (omega arith)) (
    push_all-append (record b { content = b.content ++ (x ∷ []) }) xs
      (omega (arith, length-append b.content (x ∷ [])))
    ∙ ap (λ c. record b { content = c }) (append_assoc b.content (x ∷ []) xs))

module _ (sys : ISystemInterface) (fuel : ℕ) (m : IsReader sys) where
  abbrev Object : Type 0
  Object = SerialNetwork sys.System

  after_read-Received :
      (b : PacketBuffer) (s s' : Object) (r : Bytes)
      → length b.content ≤ b.capacity
      → ((bs : List ℕ) → r ≡ bytes bs → length bs ≤ min buffer_size (b.capacity - length b.content))
      → r ≢ read_failed 0
      → s'.log ≡ logged sys fuel r s.log
      → Received b s (stored sys fuel b r) s'
  after_read-Received b s s' (bytes bs) c h f l =
      let n : length bs ≤ min buffer_size (b.capacity - length b.content) = h bs refl in
      subst (λ b'. Received b s (errc_success, b') s')
        (sym (push_all-append b bs (omega (arith, n))))
        (received bs s' (omega (arith, n, length-append b.content bs)) (omega (arith, n)) l)
  after_read-Received b s s' (read_failed e) c h f l =
      refused e s' (λ y. absurd (f (ap read_failed y))) l

  after_poll-Received :
      (b : PacketBuffer) (s s' : Object) (p : Polled)
      → length b.content ≤ b.capacity
      → p ≢ poll_failed 0
      → s'.log ≡ s.log
      → Returns (Received b s) (after_poll sys fuel b p s')
  after_poll-Received b s s' nothing c f l =
      returns _ _ (refused timed_out s' (λ y. omega (arith, y)) l)
  after_poll-Received b s s' (poll_failed e) c f l =
      returns _ _ (refused e s' (λ y. f (ap poll_failed y)) l)
  after_poll-Received b s s' ready c f l =
      let n : ℕ = min buffer_size (b.capacity - length b.content) in
      let r : Bytes × sys.System = sys.read s'.fd n s'.system in
      returns _ _ (
        after_read-Received b s _ r.0 c (m.read_bounded s'.fd n s'.system)
          (m.read_errno s'.fd n s'.system) (ap (logged sys fuel r.0) l))

  -- `Receive` comes back, for a buffer that is not above its capacity. A success has put the bytes that came at the
  -- end of the buffer, in their order, and has not gone above its capacity; another error leaves the buffer and the
  -- bytes on the line as they were.
  pub receive-Received :
      (b : PacketBuffer) (s : Object)
      → length b.content ≤ b.capacity
      → Returns (Received b s) (receive sys fuel b s)
  unfolding receive
  receive-Received b s c =
      let s' : Object = record s { system = (sys.now s.system).1 } in
      if_Returns _ (ltb 0 s.timeout_ns) _ _ s'
        (λ _.
          let r : Polled × sys.System = sys.poll s.fd s.timeout_ns s'.system in
          after_poll-Received b s (record s { system = r.1 }) r.0 c
            (m.poll_errno s.fd s.timeout_ns s'.system) refl)
        (λ _. returns _ _ (refused timed_out s' (λ y. omega (arith, y)) refl))
