-- ===== src/Imu/Protocol/Link.antt =====
-- `MPU9150Network` as the network of `MPU9150Protocol`: the protocol on the device.
use hsrb_drivers.Prelude.{
  ℕ, zero, suc, ◌≡◌, ◌≢◌, ◌≤◌, refl, All, Option, none, some, List, [], ◌∷◌, ◌++◌, arith, length,
  Option-cases, inl, inr,
}
use hsrb_drivers.Imu.PacketParser.{Mpu9150PacketParser}
use hsrb_drivers.Imu.Network.{ErrorCode, Write, Read, send, receive}
use hsrb_drivers.Imu.Protocol.{ImuNetwork, instruction_reset}
use hsrb_drivers.Imu.Protocol.Reset.{ComesBack}

-- `MPU9150Network`, with what its next calls will observe: for each call the clock at its start and the
-- rounds of its loop. `wire` is what the device has taken so far.
pub record Mpu9150Network : Type 0 where
  pub timeout : ℕ
  pub parser : Mpu9150PacketParser
  pub sends : List (ℕ × List (Write × ℕ))
  pub receives : List (ℕ × List (Read × ℕ))
  pub wire : List ℕ

abbrev send_next :
    ℕ → List ℕ → Mpu9150Network → List (ℕ × List (Write × ℕ)) → Option (ErrorCode × Mpu9150Network)
send_next instruction data_in n [] = none
send_next instruction data_in n ((start, rounds) ∷ later) =
    elim (send n.timeout start instruction data_in rounds) [
      | none ↦ none
      | some (code, sent) ↦ some (code, record n { sends = later; wire = n.wire ++ sent })
    ]

abbrev pub receive_next :
    Mpu9150Network → List (ℕ × List (Read × ℕ)) → Option (ErrorCode × Mpu9150Network)
receive_next n [] = none
receive_next n ((start, rounds) ∷ later) = elim (receive n.timeout start n.parser rounds) [
  | none ↦ none
  | some (code, parser) ↦ some (code, record n { receives = later; parser = parser })
]

abbrev pub mpu9150_network : ImuNetwork
mpu9150_network = record {
  Line = Mpu9150Network;
  send = λ instruction data_in n. send_next instruction data_in n n.sends;
  receive = λ n. receive_next n n.receives;
  all_packets = λ n. n.parser.all_packets;
  is_reply_packet = λ n. n.parser.is_reply_packet;
}

-- The device serves the next `n` calls in a reset: for each of them there are rounds in which it comes back.
pub record Serves (n : ℕ) (net : Mpu9150Network) : Type 0 where
  pub sends_left : n ≤ length net.sends
  pub receives_left : n ≤ length net.receives
  pub sends_end : All (λ c. send net.timeout c.0 instruction_reset [] c.1 ≢ none) net.sends
  pub receives_end :
      All (λ c. (p : Mpu9150PacketParser) → receive net.timeout c.0 p c.1 ≢ none) net.receives

-- On a device that serves enough calls, the calls of a reset come back.
pub Serves-ComesBack :
    (n : ℕ) (net : Mpu9150Network) → Serves n net → ComesBack mpu9150_network n net
Serves-ComesBack zero net v = tt
Serves-ComesBack (suc n) net v = (
  sent_back (Serves-ComesBack n) net.sends v.sends_left v.sends_end,
  received_back (Serves-ComesBack n) net.receives v.receives_left v.receives_end,
  Serves-ComesBack n net (record {
    sends_left = omega (arith, v.sends_left);
    receives_left = omega (arith, v.receives_left);
    sends_end = v.sends_end;
    receives_end = v.receives_end;
  }),
)
  where
    sent_back :
        ((net' : Mpu9150Network) → Serves n net' → ComesBack mpu9150_network n net')
        → (calls : List (ℕ × List (Write × ℕ))) → suc n ≤ length calls
        → All (λ c. send net.timeout c.0 instruction_reset [] c.1 ≢ none) calls
        → (r : ErrorCode × Mpu9150Network) × (send_next instruction_reset [] net calls ≡ some r)
          × ComesBack mpu9150_network n r.1
    sent_back ih [] l a = absurd (omega arith)
    sent_back ih ((start, rounds) ∷ later) l (first, rest) =
        elim (Option-cases (send net.timeout start instruction_reset [] rounds)) [
          | inl out ↦ absurd (first out)
          | inr ((code, sent), r) ↦ (
            (code, record net { sends = later; wire = net.wire ++ sent }),
            rw (r, send_next) refl,
            ih (record net { sends = later; wire = net.wire ++ sent })
                (record {
                  sends_left = omega arith;
                  receives_left = omega (arith, v.receives_left);
                  sends_end = rest;
                  receives_end = v.receives_end;
                }),
          )
        ]

    received_back :
        ((net' : Mpu9150Network) → Serves n net' → ComesBack mpu9150_network n net')
        → (calls : List (ℕ × List (Read × ℕ))) → suc n ≤ length calls
        → All (λ c. (p : Mpu9150PacketParser) → receive net.timeout c.0 p c.1 ≢ none) calls
        → (r : ErrorCode × Mpu9150Network) × (receive_next net calls ≡ some r)
          × ComesBack mpu9150_network n r.1
    received_back ih [] l a = absurd (omega arith)
    received_back ih ((start, rounds) ∷ later) l (first, rest) =
        elim (Option-cases (receive net.timeout start net.parser rounds)) [
          | inl out ↦ absurd (first net.parser out)
          | inr ((code, parser), r) ↦ (
            (code, record net { receives = later; parser = parser }),
            rw (r, receive_next) refl,
            ih (record net { receives = later; parser = parser })
                (record {
                  sends_left = omega (arith, v.sends_left);
                  receives_left = omega arith;
                  sends_end = v.sends_end;
                  receives_end = rest;
                }),
          )
        ]
