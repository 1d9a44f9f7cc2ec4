-- ===== src/Imu/Network/Reception.antt =====
-- `MPU9150Network::Receive`: what it stores, which codes it returns, and that it ends.
use hsrb_drivers.Prelude.{
  ℕ, ◌+◌, ◌≤◌, ◌<◌, ◌≡◌, ◌≢◌, refl, ◌⊎◌, inl, inr, Bool, none, some, List, [], ◌∷◌, ◌++◌, ◌==◌,
  length, arith, Ticks, Bool-cases, ==→eq, length-append,
}
use hsrb_drivers.Imu.PacketParser.{
  checksum, ParseResult, error, continue, done, State, Mpu9150PacketParser, try_parse, reset,
}
use hsrb_drivers.Imu.PacketParser.Packets.{
  opened, at, Holds, in_header1, in_header2, in_length, in_data, in_checksum, IsPackets, nothing,
  then_packet, IsWellFormed, try_parse-IsWellFormed,
}
use hsrb_drivers.Imu.Network.{
  ErrorCode, success, timed_out, protocol_error, errno, Read, no_data, no_data_failed, read_failed,
  got, consume, receive_loop, receive,
}

ParseResult-cases : (r : ParseResult) → (r ≡ done) ⊎ (r ≡ error) ⊎ (r ≡ continue)
ParseResult-cases done = inl refl
ParseResult-cases error = inr (inl refl)
ParseResult-cases continue = inr (inr refl)

-- What the loop does after one `TryParse`.
abbrev after : ParseResult × Mpu9150PacketParser → List ℕ → ErrorCode × Mpu9150PacketParser
after (done, q) bs = (success, q)
after (error, q) bs = (protocol_error, reset q)
after (continue, q) bs = consume q bs

consume-cons :
    (p : Mpu9150PacketParser) (b : ℕ) (bs : List ℕ) → consume p (b ∷ bs) ≡ after (try_parse p b) bs
unfolding consume
consume-cons p b bs = ground arith

module _ (p : Mpu9150PacketParser) {q : Mpu9150PacketParser} (b : ℕ) (bs : List ℕ) where
  pub consume_continue : try_parse p b ≡ (continue, q) → consume p (b ∷ bs) ≡ consume q bs
  consume_continue e = rw consume-cons (rw e)

  pub consume_done : try_parse p b ≡ (done, q) → consume p (b ∷ bs) ≡ (success, q)
  consume_done e = rw consume-cons (rw e)

-- A parser that is not in the state `state_nothing` refuses no byte.
refuses_nothing :
    {s : State} {packet : List ℕ} {n : ℕ} (stored : List ℕ) (reply : Bool) (input : ℕ)
    → Holds s packet n
    → (try_parse (at s packet stored n reply) input).0 ≢ error
unfolding try_parse
refuses_nothing stored reply input (in_header1 n) e = ground arith
refuses_nothing stored reply input (in_header2 n) e = ground arith
refuses_nothing stored reply input (in_length n) e = ground arith
refuses_nothing stored reply input (in_data n bytes h) e = cc
refuses_nothing stored reply input (in_checksum n bytes h) e = ground arith

-- A reply is stored behind the packets that were there.
stores_reply :
    {s : State} {packet : List ℕ} {n : ℕ} (stored : List ℕ) (reply : Bool) (input : ℕ)
    → Holds s packet n
    → IsPackets stored
    → (try_parse (at s packet stored n reply) input).0 ≡ done
    → IsPackets (try_parse (at s packet stored n reply) input).1.all_packets
      × (0 < length (try_parse (at s packet stored n reply) input).1.all_packets)
unfolding try_parse
stores_reply stored reply input (in_header1 n) w d = absurd (ground arith)
stores_reply stored reply input (in_header2 n) w d = absurd (ground arith)
stores_reply stored reply input (in_length n) w d = absurd (ground arith)
stores_reply stored reply input (in_data n bytes h) w d = cc
stores_reply stored reply input (in_checksum n bytes h) w d =
    elim (Bool-cases (input == checksum (opened (n ∷ bytes)))) [
      | inl e ↦ elim (Bool-cases (n == 1)) [
        | inl f ↦
            rw (e, f)
              (
                rw (==→eq input _ e) (then_packet n bytes w h),
                omega (arith, length-append stored (opened (n ∷ bytes) ++ input ∷ [])),
              )
        | inr f ↦ absurd (ground arith)
      ]
      | inr e ↦ absurd (ground arith)
    ]

-- What a call leaves: complete packets only, at least one of them on success, and no protocol error.
pub record IsReception (code : ErrorCode) (q : Mpu9150PacketParser) : Type 0 where
  pub stores : IsPackets q.all_packets
  pub any : code ≡ success → 0 < length q.all_packets
  pub accepted : code ≢ protocol_error

consume-IsReception :
    (p : Mpu9150PacketParser) (bs : List ℕ)
    → IsWellFormed p
    → IsReception (consume p bs).0 (consume p bs).1
consume-IsReception p [] w =
    unfold consume in
    record { stores = w.stores; any = λ e. ground arith; accepted = λ e. ground arith }
consume-IsReception p (b ∷ bs) w =
    let q = (try_parse p b).1 in
    elim (ParseResult-cases (try_parse p b).0) [
      | inl d ↦
          let (good, some_bytes) =
            stores_reply p.all_packets p.is_reply_packet b w.holds w.stores d in
          rw (consume_done p b bs (λ i. (d i, q)))
            (record { stores = good; any = λ _. some_bytes; accepted = λ e. cc })
      | inr (inl d) ↦ absurd (refuses_nothing p.all_packets p.is_reply_packet b w.holds d)
      | inr (inr d) ↦
          rw (consume_continue p b bs (λ i. (d i, q)))
            (consume-IsReception q bs (try_parse-IsWellFormed p b w (λ e. cc)))
    ]

-- A code other than those of the packets, with the parser as it was.
untouched :
    (code : ErrorCode) (p : Mpu9150PacketParser)
    → code ≢ success
    → code ≢ protocol_error
    → IsWellFormed p
    → IsReception code p
untouched code p h k w = record { stores = w.stores; any = λ e. absurd (h e); accepted = k }

receive_loop-IsReception :
    (timeout start elapsed : ℕ) (p : Mpu9150PacketParser) (rounds : List (Read × ℕ))
    (code : ErrorCode) (q : Mpu9150PacketParser)
    → IsWellFormed p
    → receive_loop timeout start elapsed p rounds ≡ some (code, q)
    → IsReception code q
unfolding receive_loop
receive_loop-IsReception timeout start elapsed p ((got bytes, now) ∷ rounds) code q w e =
    let late = untouched timed_out p (λ x. cc) (λ x. cc) w in
    let found = consume-IsReception p bytes w in ground (arith, late, found)
receive_loop-IsReception timeout start elapsed p ((no_data, now) ∷ rounds) code q w e =
    let late = untouched timed_out p (λ x. cc) (λ x. cc) w in
    ground (arith, late, receive_loop-IsReception timeout start now p rounds code q w)
receive_loop-IsReception timeout start elapsed p [] code q w e =
    let late = untouched timed_out p (λ x. cc) (λ x. cc) w in ground (arith, late)
receive_loop-IsReception timeout start elapsed p ((no_data_failed n, now) ∷ rounds) code q w e =
    let late = untouched timed_out p (λ x. cc) (λ x. cc) w in
    let bad = untouched (errno n) p (λ x. cc) (λ x. cc) w in ground (arith, late, bad)
receive_loop-IsReception timeout start elapsed p ((read_failed n, now) ∷ rounds) code q w e =
    let late = untouched timed_out p (λ x. cc) (λ x. cc) w in
    let bad = untouched (errno n) p (λ x. cc) (λ x. cc) w in ground (arith, late, bad)

-- Whatever is read, if `MPU9150Network::Receive` returns, it has stored complete packets only, at least one if
-- its code is success, and its code is not `protocol_error`.
pub receive-IsReception :
    (timeout start : ℕ) (p : Mpu9150PacketParser) (rounds : List (Read × ℕ)) (code : ErrorCode)
    (q : Mpu9150PacketParser)
    → receive timeout start p rounds ≡ some (code, q)
    → IsReception code q
unfolding receive reset
receive-IsReception timeout start p rounds code q e =
    receive_loop-IsReception timeout start start (reset p) rounds code q
      (record { holds = in_header1 p.packet_length; stores = nothing }) e

receive_loop_goes_on :
    (timeout start elapsed : ℕ) (p : Mpu9150PacketParser) (rounds : List (Read × ℕ))
    → Ticks elapsed rounds
    → start ≤ elapsed
    → start + timeout ≤ elapsed + length rounds
    → receive_loop timeout start elapsed p rounds ≢ none
unfolding receive_loop
receive_loop_goes_on timeout start elapsed p ((no_data, now) ∷ rounds) t h m e =
    ground (arith, receive_loop_goes_on timeout start now p rounds)
receive_loop_goes_on timeout start elapsed p [] t h m e = ground arith
receive_loop_goes_on timeout start elapsed p ((_, now) ∷ rounds) t h m e = ground arith

-- `MPU9150Network::Receive` ends within `timeout` rounds, if the clock moves in each of them.
pub receive_ends :
    (timeout start : ℕ) (p : Mpu9150PacketParser) (rounds : List (Read × ℕ))
    → Ticks start rounds
    → timeout ≤ length rounds
    → receive timeout start p rounds ≢ none
unfolding receive
receive_ends timeout start p rounds t m =
    receive_loop_goes_on timeout start start (reset p) rounds t (omega arith) (omega arith)
