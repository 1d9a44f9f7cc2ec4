-- ===== src/Ecu/Protocol/Queue.antt =====
-- The command queue of `PowerEcuProtocol`: `SendAll`, `ReceiveAll` and `AddCommandQueue` keep it in order.
use hsrb_drivers.Prelude.{
  ℕ, zero, suc, ◌+◌, ◌≤◌, ◌<◌, ◌≡◌, ◌≢◌, refl, inl, inr, Bool, true, false, not, Option, none, some,
  List, [], ◌∷◌, ◌++◌, ltb, ◌==◌, ◌||◌, if◌then◌else◌, length, drop, All, arith, Bool-cases,
  Option-cases, length-append,
}
use hsrb_drivers.Ecu.Crc.{Crc32}
use hsrb_drivers.Ecu.ErrorCounter.{IsConsistent, register-IsConsistent}
use hsrb_drivers.Ecu.Frame.{Code, success, network_down, timed_out, codes, same_bytes}
use hsrb_drivers.Ecu.Frame.Decoder.{DataDecoderMap}
use hsrb_drivers.Ecu.Frame.Decoder.Progress.{decode_all-ne-none}
use hsrb_drivers.Ecu.Frame.Encoder.{DataEncoderMap, encode, find_encoder}
use hsrb_drivers.Ecu.Element.{u32}
use hsrb_drivers.Ecu.Commands.{heart_data_encoder}
use hsrb_drivers.Ecu.Protocol.{
  INetwork, PowerEcuProtocol, State, encoder_map, add_command_queue, send_command, send_all,
  confirm, receive_all, is_receive_ack, command_queue_size, command_timeout, heartbeat_duration,
  pop_command, counted, decoded, is_success, transmit, after_command, after_heartbeat, heartbeat,
  send_front,
}

-- A command that some data encoder makes a frame of.
abbrev is_some {ℓ} : {A : Type ℓ} → Option A → Bool
is_some none = false
is_some (some a) = true

abbrev pub knows : DataEncoderMap → List ℕ → Bool
knows encoders command =
    same_bytes (codes "heart") command || is_some (find_encoder command encoders)

-- A command is awaited only while it stands in the queue; every command of the queue has an encoder; the
-- error counters agree with their buffers.
pub record IsWellFormed {Line : Type 0} (s : PowerEcuProtocol Line) : Type 0 where
  pub awaited : s.is_waiting_ack ≡ true → 0 < length s.command_queue
  pub known : All (λ c. knows s.encoders c ≡ true) s.command_queue
  pub reads : IsConsistent s.read_error_counter
  pub writes : IsConsistent s.write_error_counter

-- A call that neither ends the process nor takes from an empty queue, and leaves a well-formed state.
pub data IsFine {Line : Type 0} : Option (Code × PowerEcuProtocol Line) → Type 0 where
  fine : (code : Code) (s : PowerEcuProtocol Line) → IsWellFormed s → IsFine (some (code, s))

IsFine-if :
    {Line : Type 0} (b : Bool) (x y : Option (Code × PowerEcuProtocol Line))
    → (b ≡ true → IsFine x)
    → (b ≡ false → IsFine y)
    → IsFine (if b then x else y)
IsFine-if true x y f g = f refl
IsFine-if false x y f g = g refl

All-append : (P : List ℕ → Type 0) (xs ys : List (List ℕ)) → All P xs → All P ys → All P (xs ++ ys)
All-append P [] ys p q = q
All-append P (x ∷ xs) ys (p, ps) q = (p, All-append P xs ys ps q)

All-drop : (P : List ℕ → Type 0) (n : ℕ) (xs : List (List ℕ)) → All P xs → All P (drop n xs)
All-drop P zero xs p = p
All-drop P (suc n) [] p = p
All-drop P (suc n) (x ∷ xs) (p, ps) = All-drop P n xs ps

All-if :
    (P : List ℕ → Type 0) (xs ys : List (List ℕ)) (b : Bool)
    → All P xs
    → All P ys
    → All P (if b then xs else ys)
All-if P xs ys true p q = p
All-if P xs ys false p q = q

-- Queueing a command that has an encoder keeps a well-formed state well-formed, the full queue included.
pub add_command_queue-IsWellFormed :
    {Line : Type 0} (command : List ℕ) (s : PowerEcuProtocol Line)
    → knows s.encoders command ≡ true
    → IsWellFormed s
    → IsWellFormed (add_command_queue command s)
unfolding add_command_queue
add_command_queue-IsWellFormed command s k w =
    let kept =
      if length s.command_queue == command_queue_size
      then drop 1 s.command_queue
      else s.command_queue in
    let old : All (λ c. knows s.encoders c ≡ true) kept =
      All-if (λ c. knows s.encoders c ≡ true) (drop 1 s.command_queue) s.command_queue
        (length s.command_queue == command_queue_size)
        (All-drop (λ c. knows s.encoders c ≡ true) 1 s.command_queue w.known) w.known in
    record {
      awaited = λ _. omega (arith, length-append kept (command ∷ []));
      known = All-append (λ c. knows s.encoders c ≡ true) kept (command ∷ []) old (k, tt);
      reads = w.reads;
      writes = w.writes;
    }

module _ (crc : Crc32) (network : INetwork) where
  pop-IsFine :
      (result : Code) (s : State crc network) (queue : List (List ℕ))
      → IsWellFormed s
      → 0 < length queue
      → All (λ c. knows s.encoders c ≡ true) queue
      → IsFine (pop_command crc network result s queue)
  pop-IsFine result s [] w h k = absurd (omega arith)
  pop-IsFine result s (command ∷ queue) w h (_, k) = fine result _ (record {
    awaited = λ e. absurd (ground (arith, e));
    known = k;
    reads = w.reads;
    writes = w.writes;
  })

  confirm-IsFine :
      (time : ℕ) (result : Code) (s : State crc network)
      → IsWellFormed s
      → IsFine (confirm crc network time result s)
  confirm-IsFine time result s w =
      IsFine-if s.is_waiting_ack _ _
        (λ waiting.
          IsFine-if (is_receive_ack s.decoder_map) _ _
            (λ _. pop-IsFine _ s s.command_queue w (w.awaited waiting) w.known)
            (λ _.
              IsFine-if (ltb (s.last_send_command_time + command_timeout) time) _ _
                (λ _. pop-IsFine timed_out s s.command_queue w (w.awaited waiting) w.known)
                (λ _. fine result s w)))
        (λ _. fine result s w)

  counted-IsFine :
      (r : Option (Code × State crc network)) → IsFine r → IsFine (counted crc network r)
  counted-IsFine r (fine code s w) = fine code _ (record {
    awaited = w.awaited;
    known = w.known;
    reads = register-IsConsistent (is_success code) s.read_error_counter w.reads;
    writes = w.writes;
  })

  decoded-IsFine :
      (time : ℕ) (s : State crc network) (buffer : List ℕ) (r : Option (Bool × ℕ × DataDecoderMap))
      → r ≢ none
      → IsWellFormed s
      → IsFine (decoded crc network time s buffer r)
  decoded-IsFine time s buffer none e w = absurd (e refl)
  decoded-IsFine time s buffer (some (corrupted, encoded, map)) e w = counted-IsFine _ (
      confirm-IsFine time _ _
        (record { awaited = w.awaited; known = w.known; reads = w.reads; writes = w.writes }))

  -- From a well-formed state, and whatever the network brings, `ReceiveAll` returns, takes nothing from an empty
  -- queue, and leaves a well-formed state.
  pub receive_all-IsWellFormed :
      (time : ℕ) (s : State crc network) → IsWellFormed s → IsFine (receive_all crc network time s)
  unfolding receive_all
  receive_all-IsWellFormed time s w =
      let (ret, buffer, line) = network.receive s.receive_buffer s.line in
      IsFine-if (is_success ret) _ _
        (λ _.
          decoded-IsFine time (record s { line = line; receive_buffer = buffer }) buffer _
            (decode_all-ne-none crc (length buffer + 1) s.decoder_map 0 buffer false (omega arith))
            (record { awaited = w.awaited; known = w.known; reads = w.reads; writes = w.writes }))
        (λ _. fine network_down _ (record {
          awaited = w.awaited;
          known = w.known;
          reads = register-IsConsistent false s.read_error_counter w.reads;
          writes = w.writes;
        }))

  encode-knows :
      (encoders : DataEncoderMap) (error_state counts : ℕ) (command : List ℕ)
      → knows encoders command ≡ true
      → is_success (encode crc (heart_data_encoder error_state counts ∷ encoders) command).0 ≡ true
  unfolding encode find_encoder heart_data_encoder
  encode-knows encoders error_state counts command k =
      elim (Bool-cases (same_bytes (codes "heart") command)) [
        | inl e ↦ rw e
        | inr e ↦ elim (Option-cases (find_encoder command encoders)) [
          | inl h ↦ absurd (ground (arith, e, h, k))
          | inr (d, h) ↦ rw (e, h, find_encoder)
        ]
      ]

  pub send_command_made :
      (command : List ℕ) (s : State crc network)
      → knows s.encoders command ≡ true
      → send_command crc network command s
        ≡ some (transmit crc network (encode crc (encoder_map crc network s) command).1 s)
  unfolding send_command
  send_command_made command s k = rw (encode-knows s.encoders s.error_state s.counts command k)

  after_command-IsFine :
      (time : ℕ) (send_buffer : List ℕ) (s : State crc network)
      → 0 < length s.command_queue
      → IsWellFormed s
      → IsFine (after_command crc network time (some (transmit crc network send_buffer s)))
  after_command-IsFine time send_buffer s h w =
      elim (Bool-cases (is_success (network.send send_buffer s.line).0)) [
        | inl e ↦ rw e (
            fine success _ (record {
              awaited = λ _. h;
              known = w.known;
              reads = w.reads;
              writes = register-IsConsistent true s.write_error_counter w.writes;
            }))
        | inr e ↦ rw e (
            fine network_down _ (record {
              awaited = w.awaited;
              known = w.known;
              reads = w.reads;
              writes = register-IsConsistent false s.write_error_counter w.writes;
            }))
      ]

  after_heartbeat-IsFine :
      (send_buffer : List ℕ) (s : State crc network)
      → IsWellFormed s
      → IsFine (after_heartbeat crc network (some (transmit crc network send_buffer s)))
  after_heartbeat-IsFine send_buffer s w =
      elim (Bool-cases (is_success (network.send send_buffer s.line).0)) [
        | inl e ↦ rw e (
            fine success _ (record {
              awaited = w.awaited;
              known = w.known;
              reads = w.reads;
              writes = register-IsConsistent true s.write_error_counter w.writes;
            }))
        | inr e ↦ rw e (
            fine network_down _ (record {
              awaited = w.awaited;
              known = w.known;
              reads = w.reads;
              writes = register-IsConsistent false s.write_error_counter w.writes;
            }))
      ]

  heartbeat-IsFine :
      (time : ℕ) (s : State crc network) → IsWellFormed s → IsFine (heartbeat crc network time s)
  heartbeat-IsFine time s w =
      let s' = record s { counts = u32 (s.counts + 1) } in
      IsFine-if (ltb (s.last_heartbeat_time + heartbeat_duration) time) _ _
        (λ _. rw (send_command_made (codes "heart") s' refl) (
          after_heartbeat-IsFine _ s'
            (record { awaited = w.awaited; known = w.known; reads = w.reads; writes = w.writes })))
        (λ _. fine success _ (record {
          awaited = w.awaited;
          known = w.known;
          reads = w.reads;
          writes = register-IsConsistent true s.write_error_counter w.writes;
        }))

  send_front-IsFine :
      (time : ℕ) (queue : List (List ℕ)) (s : State crc network)
      → length queue ≤ length s.command_queue
      → All (λ c. knows s.encoders c ≡ true) queue
      → IsWellFormed s
      → IsFine (send_front crc network time queue s)
  send_front-IsFine time [] s e k w = heartbeat-IsFine time s w
  send_front-IsFine time (command ∷ queue) s e (known, k) w =
      let h : 0 < length s.command_queue = omega arith in
      IsFine-if (not s.is_waiting_ack) _ _
        (λ _. rw (send_command_made command s known) (after_command-IsFine time _ s h w))
        (λ _. heartbeat-IsFine time s w)

  -- From a well-formed state, and whatever the network returns, `SendAll` does not end the process, and leaves a
  -- well-formed state.
  pub send_all-IsWellFormed :
      (time : ℕ) (s : State crc network) → IsWellFormed s → IsFine (send_all crc network time s)
  unfolding send_all
  send_all-IsWellFormed time s w = send_front-IsFine time s.command_queue s (omega arith) w.known w
