-- ===== src/Servo/Network/Sound.antt =====
-- What `ExxxNetwork::Receive` accepts: a complete packet stands in the stream, byte for byte.
use hsrb_drivers.Prelude.{
  ℕ, ◌≡◌, ◌≢◌, ◌⊎◌, inl, inr, refl, sym, ap, ◌∙◌, true, List, [], ◌∷◌, ◌++◌, arith, append_assoc,
}
use hsrb_drivers.Servo.PacketParser.{
  ExxxPacketParser, Status, error, continue, done, State, state_header1, reset, try_parse,
}
use hsrb_drivers.Servo.PacketParser.Invariant.{
  at, IsWellFormed, IsStatusPacket, in_header1, try_parse-IsWellFormed, try_parse-IsStatusPacket,
}
use hsrb_drivers.Servo.Network.{consume}
use hsrb_drivers.Servo.Network.Consume.{consume_continue, consume_done, consume_error}

-- A byte that is not refused is pushed to `packet_`.
pushes :
    (s : State) (packet ids : List ℕ) (b : ℕ)
    → (try_parse (at s packet ids) b).0 ≢ error
    → (try_parse (at s packet ids) b).1.packet ≡ packet ++ b ∷ []
unfolding try_parse
pushes state_header1 packet ids b h = ground arith
pushes _ packet ids b h = ground arith

keeps_ids :
    (s : State) (packet ids : List ℕ) (b : ℕ) → (try_parse (at s packet ids) b).1.valid_ids ≡ ids
unfolding try_parse
keeps_ids state_header1 packet ids b = ground arith
keeps_ids _ packet ids b = ground arith

-- The packet `packet` stands in `stream`, between what was skipped and what was not looked at.
pub record Within (ids packet stream : List ℕ) : Type 0 where
  pub before : List ℕ
  pub after : List ℕ
  pub stands : stream ≡ before ++ (packet ++ after)
  pub complete : IsStatusPacket ids packet

Status-cases : (s : Status) → (s ≡ done) ⊎ (s ≡ error) ⊎ (s ≡ continue)
Status-cases done = inl refl
Status-cases error = inr (inl refl)
Status-cases continue = inr (inr refl)

-- More bytes in front, and the same nodes.
widen :
    {ids ids' packet stream : List ℕ} (front : List ℕ) {stream' : List ℕ}
    → ids' ≡ ids
    → stream' ≡ front ++ stream
    → Within ids' packet stream
    → Within ids packet stream'
widen {packet = packet} front e f w = record {
  before = front ++ w.before;
  after = w.after;
  stands =
      f ∙ ap (λ l. front ++ l) w.stands ∙ sym (append_assoc front w.before (packet ++ w.after));
  complete = rw e at w.complete;
}

-- If `consume` finishes, its packet is complete and stands in what the parser had and was given.
pub consume-Within :
    (p : ExxxPacketParser) (bs : List ℕ)
    → IsWellFormed p
    → (consume p bs).0 ≡ true
    → Within p.valid_ids (consume p bs).1.packet (p.packet ++ bs)
consume-Within p [] h e = unfold consume in cc
consume-Within p (b ∷ bs) h e =
    let q = (try_parse p b).1 in
    let same : q.valid_ids ≡ p.valid_ids = keeps_ids p.state p.packet p.valid_ids b in
    let pushed = pushes p.state p.packet p.valid_ids b in
    elim (Status-cases (try_parse p b).0) [
      | inl d ↦ rw (consume_done p b bs (λ i. (d i, q))) (record {
        before = [];
        after = bs;
        stands = rw (pushed (λ x. cc)) (sym (append_assoc p.packet (b ∷ []) bs));
        complete = try_parse-IsStatusPacket p b h d;
      })
      | inr (inl d) ↦
          let step = consume_error p b bs (λ i. (d i, q)) in
          rw step (
            widen (p.packet ++ b ∷ []) same (sym (append_assoc p.packet (b ∷ []) bs))
              (consume-Within (reset q) bs in_header1 (rw step at e)))
      | inr (inr d) ↦
          let step = consume_continue p b bs (λ i. (d i, q)) in
          let kept = try_parse-IsWellFormed p b h (λ x. cc) in
          let moved : p.packet ++ b ∷ bs ≡ q.packet ++ bs =
            rw (pushed (λ x. cc)) (sym (append_assoc p.packet (b ∷ []) bs)) in
          rw step (widen [] same moved (consume-Within q bs kept (rw step at e)))
    ]

pub valid_ids-consume :
    (p : ExxxPacketParser) (bs : List ℕ) → (consume p bs).1.valid_ids ≡ p.valid_ids
unfolding consume
valid_ids-consume p [] = refl
valid_ids-consume p (b ∷ bs) = ground (
  arith,
  keeps_ids p.state p.packet p.valid_ids b,
  valid_ids-consume (reset (try_parse p b).1) bs,
  valid_ids-consume (try_parse p b).1 bs,
)
