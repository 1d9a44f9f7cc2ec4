-- ===== src/Servo/Protocol/Blocks.antt =====
-- `ReadBlock`, `WriteBlock`, `Reset` and `ReadHash` of `ExxxProtocol`, over any network.
use hsrb_drivers.Prelude.{
  ℕ, zero, suc, ◌+◌, ◌%◌, ◌≤◌, ◌<◌, ◌≡◌, refl, ap, false, Option, some, List, [], ◌∷◌, ◌++◌,
  if◌then◌else◌, length, take, drop, arith, length-append, take-append-drop, length-drop,
  length-take,
}
use hsrb_drivers.Servo.Network.{ErrorCode, success, low_byte, high_byte}
use hsrb_drivers.Servo.Protocol.{
  INetwork, ExxxProtocol, ◌>>=◌, pure, net_send, net_receive, is_error, is_system_error,
  instruction_read_data, instruction_write_data, read_block, write_block, read_hash,
}

take_all {ℓ} : {A : Type ℓ} (n : ℕ) (xs : List A) → length xs ≤ n → take n xs ≡ xs
take_all zero [] h = refl
take_all zero (x ∷ xs) h = absurd (omega arith)
take_all (suc n) [] h = refl
take_all (suc n) (x ∷ xs) h = ap (λ l. x ∷ l) (take_all n xs (omega arith))

take_front {ℓ} :
    {A : Type ℓ} (n : ℕ) (xs ys : List A) → n ≤ length xs → take n (xs ++ ys) ≡ take n xs
take_front zero xs ys h = refl
take_front (suc n) [] ys h = absurd (omega arith)
take_front (suc n) (x ∷ xs) ys h = ap (λ l. x ∷ l) (take_front n xs ys (omega arith))

split_36 :
    (xs : List ℕ)
    → length xs ≡ 36
    → (take 16 xs ++ take 20 (drop 16 xs) ≡ xs)
      × (length (take 16 xs) ≡ 16)
      × (length (take 20 (drop 16 xs)) ≡ 20)
split_36 xs h =
    let left : length (drop 16 xs) ≡ 20 = omega (arith, length-drop 16 xs) in
    (
      rw (take_all 20 (drop 16 xs) (omega arith)) (take-append-drop 16 xs),
      omega (arith, length-take 16 xs),
      omega (arith, length-take 20 (drop 16 xs)),
    )

module _ (net : INetwork) where
  open net use {Line}

  -- On any network, if `ReadBlock` comes back: whenever it writes the caller's memory, it writes the `size`
  -- bytes that came back, and the code is success or a warning of the node; whenever it returns success, it
  -- has written.
  pub read_block_exact :
      (id addr size : ℕ) (p q : ExxxProtocol Line) (code : ErrorCode) (out : Option (List ℕ))
      → read_block net id addr size p ≡ some ((code, out), q)
      → ((bytes : List ℕ)
          → out ≡ some bytes
          → (length bytes ≡ size) × (bytes ≡ q.receive_buffer) × (is_system_error code ≡ false))
        × (code ≡ success → out ≡ some q.receive_buffer)
  unfolding read_block
  read_block_exact id addr size p q code out e =
      (λ bytes h. (ground arith, ground arith, ground arith), λ h. ground arith)

  -- The run in which the request is sent and an answer of the right size comes back.
  pub read_block_run :
      (id addr : ℕ) (p : ExxxProtocol Line) (line line' : Line) (code : ErrorCode) (bytes : List ℕ)
      → net.send id instruction_read_data
          (low_byte addr ∷ high_byte addr ∷ low_byte (length bytes) ∷ high_byte (length bytes) ∷ [])
          p.line
        ≡ some (success, line)
      → net.receive id p.receive_buffer line ≡ some (code, bytes, line')
      → is_system_error code ≡ false
      → read_block net id addr (length bytes) p
        ≡ some ((code, some bytes), record { line = line'; receive_buffer = bytes })
  unfolding read_block
  read_block_run id addr p line line' code bytes s r a = ground arith

  -- On any network, `WriteBlock` sends a block of up to 255 bytes whole, behind its address, and then receives
  -- unless the sending failed.
  pub write_block_whole :
      (id addr : ℕ) (block : List ℕ) (p : ExxxProtocol Line)
      → length block < 256
      → write_block net id addr block p
        ≡ (net_send net id instruction_write_data (low_byte addr ∷ high_byte addr ∷ block)
              >>= λ sent. if is_error sent then pure sent else net_receive net id)
            p
  unfolding write_block
  write_block_whole id addr block p h =
      let size : length block % 256 + 2 ≡ suc (suc (length block)) = omega arith in
      rw (size, take_all (length block) block (omega arith))

  -- On any network, `WriteBlock` of a block does the same as `WriteBlock` of its first bytes, if these are up to
  -- 255 and a positive or zero multiple of 256 bytes follow: the rest is dropped without an error.
  pub write_block_truncates :
      (id addr : ℕ) (front tail : List ℕ) (p : ExxxProtocol Line)
      → length front < 256
      → length tail % 256 ≡ 0
      → write_block net id addr (front ++ tail) p ≡ write_block net id addr front p
  unfolding write_block
  write_block_truncates id addr front tail p h m =
      let size : length (front ++ tail) % 256 + 2 ≡ suc (suc (length front)) =
        omega (arith, length-append front tail) in
      let size' : length front % 256 + 2 ≡ suc (suc (length front)) = omega arith in
      rw (size, size', take_front (length front) front tail (omega arith))

  -- On any network, if `ReadHash` comes back with hashes, the code is success, and the hashes, of 16 and 20
  -- bytes, make up the bytes that came back.
  pub read_hash_split :
      (id : ℕ) (p q : ExxxProtocol Line) (code : ErrorCode) (table firmware : List ℕ)
      → read_hash net id p ≡ some ((code, some (table, firmware)), q)
      → (code ≡ success)
        × (table ++ firmware ≡ q.receive_buffer)
        × (length table ≡ 16)
        × (length firmware ≡ 20)
  unfolding read_hash
  read_hash_split id p q code table firmware e =
      let size : length q.receive_buffer ≡ 36 = ground arith in
      let first : table ≡ take 16 q.receive_buffer = ground arith in
      let second : firmware ≡ take 20 (drop 16 q.receive_buffer) = ground arith in
      let (whole, sixteen, twenty) = split_36 q.receive_buffer size in
      (ground arith, rw (first, second) whole, rw first sixteen, rw second twenty)
