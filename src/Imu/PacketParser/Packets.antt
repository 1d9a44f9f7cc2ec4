-- ===== src/Imu/PacketParser/Packets.antt =====
-- What `MPU9150PacketParser` holds in each state, and what it stores.
use hsrb_drivers.Prelude.{
  ℕ, ◌+◌, ◌<◌, ◌≡◌, ◌≢◌, Bool, List, [], ◌∷◌, ◌++◌, ltb, ◌==◌, length, arith, length-append,
  Bool-cases, inl, inr, ==→eq,
}
use hsrb_drivers.Imu.PacketParser.{
  checksum, done, State, state_header1, state_header2, state_length, state_data, state_checksum,
  Mpu9150PacketParser, try_parse,
}

-- The header, the length and the data.
abbrev pub opened : List ℕ → List ℕ
opened body = 0x40 ∷ 0x47 ∷ body

-- What `packet_` and `length_` hold in each state.
pub data Holds : State → List ℕ → ℕ → Type 0 where
  in_header1 : (n : ℕ) → Holds state_header1 [] n
  in_header2 : (n : ℕ) → Holds state_header2 (0x40 ∷ []) n
  in_length : (n : ℕ) → Holds state_length (opened []) n
  in_data :
      (n : ℕ) (bytes : List ℕ) → length bytes + 1 < n → Holds state_data (opened (n ∷ bytes)) n
  in_checksum :
      (n : ℕ) (bytes : List ℕ) → length bytes + 1 ≡ n → Holds state_checksum (opened (n ∷ bytes)) n

-- A sequence of complete packets: the length counts the data and the checksum, and the checksum is right.
pub data IsPackets : List ℕ → Type 0 where
  nothing : IsPackets []
  then_packet :
      {stored : List ℕ} (n : ℕ) (bytes : List ℕ)
      → IsPackets stored
      → length bytes + 1 ≡ n
      → IsPackets (stored ++ (opened (n ∷ bytes) ++ checksum (opened (n ∷ bytes)) ∷ []))

pub record IsWellFormed (p : Mpu9150PacketParser) : Type 0 where
  pub holds : Holds p.state p.packet p.packet_length
  pub stores : IsPackets p.all_packets

abbrev pub at : State → List ℕ → List ℕ → ℕ → Bool → Mpu9150PacketParser
at s packet stored n reply = record {
  state = s;
  packet = packet;
  all_packets = stored;
  packet_length = n;
  is_reply_packet = reply;
}

keeps :
    {s : State} {packet : List ℕ} {n : ℕ} (stored : List ℕ) (reply : Bool) (input : ℕ)
    → Holds s packet n
    → IsPackets stored
    → (try_parse (at s packet stored n reply) input).0 ≢ done
    → IsWellFormed (try_parse (at s packet stored n reply) input).1
unfolding try_parse
keeps stored reply input (in_header1 n) w c = elim (Bool-cases (input == 0x40)) [
  | inl e ↦ rw (==→eq input _ e) (record { holds = in_header2 n; stores = w })
  | inr e ↦ rw e (record { holds = in_header1 n; stores = w })
]
keeps stored reply input (in_header2 n) w c = elim (Bool-cases (input == 0x47)) [
  | inl e ↦ rw (==→eq input _ e) (record { holds = in_length n; stores = w })
  | inr e ↦ rw e (record { holds = in_header1 n; stores = w })
]
keeps stored reply input (in_length n) w c = elim (Bool-cases (ltb input 1)) [
  | inl e ↦ rw e (record { holds = in_header1 n; stores = w })
  | inr e ↦ elim (Bool-cases (input == 1)) [
    | inl f ↦
        rw (e, f)
          (record { holds = in_checksum input [] (omega (arith, ==→eq input 1 f)); stores = w })
    | inr f ↦ rw (e, f) (record { holds = in_data input [] (ground (arith, e, f)); stores = w })
  ]
]
keeps stored reply input (in_data n bytes h) w c =
    let more = bytes ++ input ∷ [] in
    let grown = length-append bytes (input ∷ []) in
    elim (Bool-cases (length (opened (n ∷ more)) == n + 2)) [
      | inl e ↦
          rw e
            (record { holds = in_checksum n more (omega (arith, grown, ==→eq _ _ e)); stores = w })
      | inr e ↦ rw e (record { holds = in_data n more (ground (arith, grown, e)); stores = w })
    ]
keeps stored reply input (in_checksum n bytes h) w c =
    elim (Bool-cases (input == checksum (opened (n ∷ bytes)))) [
      | inl e ↦ elim (Bool-cases (n == 1)) [
        | inl f ↦ absurd (c (rw (e, f)))
        | inr f ↦
            rw (e, f)
              (record {
                holds = in_header1 n;
                stores = rw (==→eq input _ e) (then_packet n bytes w h);
              })
      ]
      | inr e ↦ rw e (record { holds = in_header1 n; stores = w })
    ]

-- Any byte that does not complete a reply keeps the parser well-formed: it stores complete packets only.
pub try_parse-IsWellFormed :
    (p : Mpu9150PacketParser) (input : ℕ)
    → IsWellFormed p
    → (try_parse p input).0 ≢ done
    → IsWellFormed (try_parse p input).1
try_parse-IsWellFormed p input w c = keeps p.all_packets p.is_reply_packet input w.holds w.stores c
