-- ===== src/Servo/Network/Send.antt =====
-- `ExxxNetwork::Send`: the packet that is built, and its way to the device.
use hsrb_drivers.Prelude.{
  Ticks, ℕ, zero, suc, ◌/◌, ◌+◌, ◌%◌, ◌≤◌, ◌≡◌, ◌≢◌, refl, sym, ap, ◌∙◌, inl, inr, some, none, List,
  [], ◌∷◌, ◌++◌, length, take, drop, arith, leb, if◌then◌else◌, le→leb, gt→leb, leb→le, leb→gt,
  Bool-cases,
}
use native.Mathlib.Nat.{zero-add, suc-add}
use hsrb_drivers.Servo.Checksum.{checksum}
use hsrb_drivers.Servo.Network.{
  ErrorCode, success, Write, wrote, again, build_packet, write_loop, send,
}

take-nil {ℓ} : {A : Type ℓ} (n : ℕ) → take {A = A} n [] ≡ []
take-nil zero = refl
take-nil (suc n) = refl

-- Taking `m` and then `n` elements.
take-add {ℓ} :
    {A : Type ℓ} (m n : ℕ) (xs : List A) → take (m + n) xs ≡ take m xs ++ take n (drop m xs)
take-add zero n xs = rw zero-add
take-add (suc m) n [] = rw (take-nil (suc m + n), take-nil n)
take-add (suc m) n (x ∷ xs) = rw suc-add (ap (λ l. x ∷ l) (take-add m n xs))

take-length {ℓ} : {A : Type ℓ} (xs : List A) → take (length xs) xs ≡ xs
take-length [] = refl
take-length (x ∷ xs) = ap (λ l. x ∷ l) (take-length xs)

-- `sent` is a front of `packet`.
abbrev pub IsFront : List ℕ → List ℕ → Type 0
IsFront sent packet = take (length sent) packet ≡ sent

IsFront-take : (n : ℕ) (xs : List ℕ) → IsFront (take n xs) xs
IsFront-take zero xs = refl
IsFront-take (suc n) [] = refl
IsFront-take (suc n) (x ∷ xs) = ap (λ l. x ∷ l) (IsFront-take n xs)

module _ (timeout start : ℕ) (packet : List ℕ) where
  write_loop_front :
      (elapsed num_done : ℕ) (sent : List ℕ) (rounds : List (Write × ℕ)) (code : ErrorCode)
      (out : List ℕ)
      → sent ≡ take num_done packet
      → write_loop timeout start elapsed num_done packet sent rounds ≡ some (code, out)
      → IsFront out packet × (code ≡ success → out ≡ packet)
  unfolding write_loop
  write_loop_front elapsed num_done sent ((wrote n, now) ∷ rounds) code out h e =
      let taken : sent ++ take n (drop num_done packet) ≡ take (num_done + n) packet =
        rw h (sym (take-add num_done n packet)) in
      (
        ground (
          arith,
          taken,
          h,
          IsFront-take (num_done + n) packet,
          IsFront-take num_done packet,
          write_loop_front now (num_done + n) (sent ++ take n (drop num_done packet)) rounds code
              out,
        ),
        ground (
          arith,
          taken,
          h,
          take-length packet,
          write_loop_front now (num_done + n) (sent ++ take n (drop num_done packet)) rounds code
              out,
        ),
      )
  write_loop_front elapsed num_done sent ((again, now) ∷ rounds) code out h e = (
    ground
        (arith, IsFront-take num_done packet, write_loop_front now num_done sent rounds code out),
    ground (arith, write_loop_front now num_done sent rounds code out),
  )
  write_loop_front elapsed num_done sent [] code out h e =
      (ground (arith, IsFront-take num_done packet), ground arith)
  write_loop_front elapsed num_done sent ((_, now) ∷ rounds) code out h e =
      (ground (arith, IsFront-take num_done packet), ground arith)

  write_loop_ends :
      (elapsed num_done : ℕ) (sent : List ℕ) (rounds : List (Write × ℕ))
      → Ticks elapsed rounds
      → start ≤ elapsed
      → start + timeout ≤ elapsed + length rounds
      → write_loop timeout start elapsed num_done packet sent rounds ≢ none
  unfolding write_loop
  write_loop_ends elapsed num_done sent ((wrote n, now) ∷ rounds) t h m e =
      ground
        (arith, write_loop_ends now (num_done + n) (sent ++ take n (drop num_done packet)) rounds)
  write_loop_ends elapsed num_done sent ((again, now) ∷ rounds) t h m e =
      ground (arith, write_loop_ends now num_done sent rounds)
  write_loop_ends elapsed num_done sent [] t h m e = ground arith
  write_loop_ends elapsed num_done sent ((_, now) ∷ rounds) t h m e = ground arith

-- The packet of an instruction: header, node, length, instruction and data, checksum, footer.
abbrev pub instruction_packet : ℕ → ℕ → List ℕ → List ℕ
instruction_packet id inst data_in =
    let body = id ∷ (length data_in + 2) % 256 ∷ (length data_in + 2) / 256 ∷ inst ∷ data_in in
    0xAA ∷ 0x55 ∷ (body ++ checksum body ∷ 0x00 ∷ 0x00 ∷ [])

-- With up to 251 bytes of data `Send` makes the instruction packet; with more it writes behind the end of
-- its buffer.
pub build_packet_lem :
    (id inst : ℕ) (data_in : List ℕ)
    → build_packet id inst data_in
      ≡ (if leb (length data_in) 251 then some (instruction_packet id inst data_in) else none)
unfolding build_packet
build_packet_lem id inst data_in = elim (Bool-cases (leb (length data_in) 251)) [
  | inl e ↦
      let small : length data_in ≤ 251 = leb→le _ _ e in
      let field : length data_in + 1 + 1 ≡ length data_in + 2 = omega arith in
      let high : (length data_in + 2) / 256 % 256 ≡ (length data_in + 2) / 256 = omega arith in
      rw (e, le→leb (length data_in + 9) 260 (omega arith), field, high)
  | inr e ↦ rw (e, gt→leb (length data_in + 9) 260 (omega (arith, leb→gt _ _ e)))
]

-- `Send` with a packet that has been built.
send_built :
    (timeout start id inst : ℕ) (data_in packet : List ℕ) (rounds : List (Write × ℕ))
    → build_packet id inst data_in ≡ some packet
    → send timeout start id inst data_in rounds ≡ write_loop timeout start start 0 packet [] rounds
unfolding send
send_built timeout start id inst data_in packet rounds e = rw (e, send)

-- If `ExxxNetwork::Send` returns, the device has taken a front of the instruction packet, and the whole
-- packet if the code is success.
pub send_front :
    (timeout start id inst : ℕ) (data_in : List ℕ) (rounds : List (Write × ℕ)) (code : ErrorCode)
    (out : List ℕ)
    → send timeout start id inst data_in rounds ≡ some (code, out)
    → IsFront out (instruction_packet id inst data_in)
      × (code ≡ success → out ≡ instruction_packet id inst data_in)
unfolding send
send_front timeout start id inst data_in rounds code out e =
    elim (Bool-cases (leb (length data_in) 251)) [
      | inl fits ↦
          let built = build_packet_lem id inst data_in ∙ rw fits in
          write_loop_front timeout start (instruction_packet id inst data_in) start 0 [] rounds code
            out refl (sym (send_built timeout start id inst data_in _ rounds built) ∙ e)
      | inr big ↦
          let built : build_packet id inst data_in ≡ none =
            build_packet_lem id inst data_in ∙ rw big in
          absurd (ground (arith, built))
    ]

-- `ExxxNetwork::Send` ends within `timeout` rounds, for up to 251 bytes of data and if the clock moves in
-- each of the rounds.
send-ne-none :
    (timeout start id inst : ℕ) (data_in : List ℕ) (rounds : List (Write × ℕ))
    → length data_in ≤ 251
    → Ticks start rounds
    → timeout ≤ length rounds
    → send timeout start id inst data_in rounds ≢ none
unfolding send
send-ne-none timeout start id inst data_in rounds f t m =
    let built : build_packet id inst data_in ≡ some (instruction_packet id inst data_in) =
      build_packet_lem id inst data_in ∙ rw (le→leb (length data_in) 251 f) in
    rw (send_built timeout start id inst data_in (instruction_packet id inst data_in) rounds built)
      (write_loop_ends timeout start (instruction_packet id inst data_in) start 0 [] rounds t
        (omega arith) (omega arith))
