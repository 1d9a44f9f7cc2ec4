-- ===== src/Imu/Network/Newest.antt =====
-- The packet that `ToSensorState` converts is the newest one.
use hsrb_drivers.Prelude.{
  le→ltb, sym, ap, ◌∙◌, ◌^◌, ℕ, zero, suc, ◌+◌, ◌-◌, ◌*◌, ◌/◌, ◌%◌, ◌≤◌, ◌<◌, ◌≡◌, refl, List, ltb,
  ◌==◌, if◌then◌else◌, length, take, drop, arith, Bool-cases, inl, inr, ltb→lt, ltb→le, ==→eq,
  le→leb, gt→leb,
}
use hsrb_drivers.Imu.Network.{
  Mpu9150PacketConverter, latest, timestamp_at, selected, out_of_range, to_sensor_state,
  packet_size,
}

-- The converter after the packets before `n`: it holds the largest timestamp so far, and the number of its
-- packet if that is newer than what it held before.
record IsNewest (packets : List ℕ) (n : ℕ) (before after : Mpu9150PacketConverter) : Type 0 where
  above : (j : ℕ) → j < n → timestamp_at packets j ≤ after.last_timestamp
  grows : before.last_timestamp ≤ after.last_timestamp
  found :
      before.last_timestamp < after.last_timestamp
      → (after.last_packet_num < n)
        × (timestamp_at packets after.last_packet_num ≡ after.last_timestamp)
  same :
      before.last_timestamp ≡ after.last_timestamp → after.last_packet_num ≡ before.last_packet_num

next :
    (packets : List ℕ) (i : ℕ) (before c : Mpu9150PacketConverter)
    → IsNewest packets i before c
    → IsNewest packets (i + 1) before (
        if ltb c.last_timestamp (timestamp_at packets i)
        then record { last_timestamp = timestamp_at packets i; last_packet_num = i }
        else c)
next packets i before c w = elim (Bool-cases (ltb c.last_timestamp (timestamp_at packets i))) [
  | inl e ↦
      let newer : c.last_timestamp < timestamp_at packets i = ltb→lt _ _ e in
      rw e (record {
        above = λ j h. elim (Bool-cases (j == i)) [
          | inl f ↦ rw (==→eq j i f) (omega arith)
          | inr f ↦ ground (arith, f, w.above j)
        ];
        grows = omega (arith, w.grows);
        found = λ _. (omega arith, refl);
        same = λ f. absurd (omega (arith, w.grows));
      })
  | inr e ↦
      let older : timestamp_at packets i ≤ c.last_timestamp = ltb→le _ _ e in
      rw e (record {
        above = λ j h. elim (Bool-cases (j == i)) [
          | inl f ↦ rw (==→eq j i f) older
          | inr f ↦ ground (arith, f, w.above j)
        ];
        grows = w.grows;
        found = λ h. let (small, right) = w.found h in (omega arith, right);
        same = w.same;
      })
]

latest_IsNewest :
    (packets : List ℕ) (n i : ℕ) (before c : Mpu9150PacketConverter)
    → IsNewest packets i before c
    → IsNewest packets (i + n) before (latest packets n i c)
unfolding latest
latest_IsNewest packets zero i before c w = let e : i + 0 ≡ i = omega arith in rw e w
latest_IsNewest packets (suc n) i before c w =
    let e : i + suc n ≡ i + 1 + n = omega arith in
    rw e (latest_IsNewest packets n (i + 1) before _ (next packets i before c w))

start : (packets : List ℕ) (c : Mpu9150PacketConverter) → IsNewest packets 0 c c
start packets c = record {
  above = λ j h. absurd (omega arith);
  grows = omega arith;
  found = λ h. absurd (omega arith);
  same = λ _. refl;
}

scanned :
    (packets : List ℕ) (c : Mpu9150PacketConverter) (n : ℕ)
    → IsNewest packets n c (latest packets n 0 c)
scanned packets c n =
    let e : 0 + n ≡ n = omega arith in rw e at (latest_IsNewest packets n 0 c c (start packets c))

-- A packet whose number is below that of the packets is copied whole.
selected_inside :
    (packets : List ℕ) (c : Mpu9150PacketConverter)
    → length packets < 2 ^ 32
    → length packets % packet_size ≡ 0
    → (latest packets (length packets / packet_size) 0 c).last_packet_num
      < length packets / packet_size
    → to_sensor_state packets c ≡ (
      selected (
          take packet_size (
            drop
              ((latest packets (length packets / packet_size) 0 c).last_packet_num * packet_size)
              packets)),
      latest packets (length packets / packet_size) 0 c,
    )
unfolding to_sensor_state
selected_inside packets c small e h =
    let k = (latest packets (length packets / packet_size) 0 c).last_packet_num in
    let from : k * packet_size % 2 ^ 32 ≡ k * packet_size = omega arith in
    let upto : (k * packet_size + packet_size) % 2 ^ 32 ≡ k * packet_size + packet_size =
      omega arith in
    let size : k * packet_size + packet_size - k * packet_size ≡ packet_size = omega arith in
    rw (
      e,
      from,
      upto,
      le→leb (k * packet_size) (k * packet_size + packet_size) (omega arith),
      le→leb (k * packet_size + packet_size) (length packets) (omega arith),
      size,
    )

-- Of whole packets, in less than 2^32 bytes, one of which is newer than the last timestamp, a packet with the
-- largest timestamp is converted, and the converter remembers its timestamp and number.
pub to_sensor_state_newest :
    (packets : List ℕ) (c : Mpu9150PacketConverter) (j : ℕ)
    → length packets < 2 ^ 32
    → length packets % packet_size ≡ 0
    → j < length packets / packet_size
    → c.last_timestamp < timestamp_at packets j
    → (k : ℕ) × (k < length packets / packet_size)
      × ((i : ℕ)
          → i < length packets / packet_size
          → timestamp_at packets i ≤ timestamp_at packets k)
      × (to_sensor_state packets c ≡ (
        selected (take packet_size (drop (k * packet_size) packets)),
        record { last_timestamp = timestamp_at packets k; last_packet_num = k },
      ))
to_sensor_state_newest packets c j small e h newer =
    let n = length packets / packet_size in
    let c' = latest packets n 0 c in
    let w = scanned packets c n in
    let (inside, right) = w.found (omega (arith, w.above j h)) in
    let whole = selected_inside packets c small e inside in
    (
      c'.last_packet_num,
      inside,
      (λ i g. rw right (w.above i g)),
      whole
          ∙ ap
              (λ t. (
                selected (take packet_size (drop (c'.last_packet_num * packet_size) packets)),
                record { last_timestamp = t; last_packet_num = c'.last_packet_num },
              ))
              (sym right),
    )

-- Packets that are not newer leave the converter as it is.
unchanged :
    (packets : List ℕ) (n i : ℕ) (c : Mpu9150PacketConverter)
    → ((j : ℕ) → i ≤ j → j < i + n → timestamp_at packets j ≤ c.last_timestamp)
    → latest packets n i c ≡ c
unfolding latest
unchanged packets zero i c old = refl
unchanged packets (suc n) i c old =
    rw (le→ltb c.last_timestamp (timestamp_at packets i) (old i (omega arith) (omega arith)))
      (unchanged packets n (i + 1) c (λ j g h. old j (omega arith) (omega arith)))

-- If no packet is newer than the last timestamp, and the number remembered from an earlier call, with its offset
-- below 2^32, is not one of these packets, then `ToSensorState` reads behind the end of the bytes.
to_sensor_state_stale :
    (packets : List ℕ) (c : Mpu9150PacketConverter)
    → length packets % packet_size ≡ 0
    → ((j : ℕ) → j < length packets / packet_size → timestamp_at packets j ≤ c.last_timestamp)
    → length packets / packet_size ≤ c.last_packet_num
    → c.last_packet_num * packet_size + packet_size < 2 ^ 32
    → to_sensor_state packets c ≡ (out_of_range, c)
unfolding to_sensor_state
to_sensor_state_stale packets c e old far small =
    let n = length packets / packet_size in
    let k = c.last_packet_num in
    let c' = latest packets n 0 c in
    let same : c' ≡ c = unchanged packets n 0 c (λ j g h. old j (omega arith)) in
    let from : k * packet_size % 2 ^ 32 ≡ k * packet_size = omega arith in
    let upto : (k * packet_size + packet_size) % 2 ^ 32 ≡ k * packet_size + packet_size =
      omega arith in
    rw (
      same,
      e,
      from,
      upto,
      le→leb (k * packet_size) (k * packet_size + packet_size) (omega arith),
      gt→leb (k * packet_size + packet_size) (length packets) (omega arith),
    )
