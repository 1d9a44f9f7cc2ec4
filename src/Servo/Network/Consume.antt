-- ===== src/Servo/Network/Consume.antt =====
-- What the loop of `ExxxNetwork::Receive` makes of a stream of bytes.
use hsrb_drivers.Prelude.{
  ℕ, ◌+◌, ◌*◌, ◌<◌, ◌≡◌, ◌≢◌, refl, ap, ◌∙◌, Bool, true, List, [], ◌∷◌, ◌++◌, All, length, contains,
  arith, length-append, append_assoc, le→leb, gt→leb, le→ltb, ==_self, eq→==, ne→==, if◌then◌else◌,
}
use hsrb_drivers.Servo.Checksum.{checksum}
use hsrb_drivers.Servo.PacketParser.{
  ExxxPacketParser, Status, error, continue, done, State, state_header1, state_length1,
  state_error_status1, state_error_status2, state_data, state_checksum, reset, try_parse,
}
use hsrb_drivers.Servo.PacketParser.Invariant.{opened, status_body, at}
use hsrb_drivers.Servo.Network.{consume}

-- A packet of the parameters `params`, as the firmware sends it.
abbrev pub status_packet_of : ℕ → ℕ → ℕ → ℕ → ℕ → List ℕ → List ℕ
status_packet_of id l1 l2 e1 e2 params =
    let body = status_body id l1 l2 e1 e2 params in opened (body ++ checksum body ∷ [])

-- What the loop does after one `TryParse`.
abbrev after : Status × ExxxPacketParser → List ℕ → Bool × ExxxPacketParser
after (done, q) bs = (true, q)
after (error, q) bs = consume (reset q) bs
after (continue, q) bs = consume q bs

consume-cons :
    (p : ExxxPacketParser) (b : ℕ) (bs : List ℕ) → consume p (b ∷ bs) ≡ after (try_parse p b) bs
unfolding consume
consume-cons p b bs = ground arith

module _ (p : ExxxPacketParser) {q : ExxxPacketParser} (b : ℕ) (bs : List ℕ) where
  pub consume_continue : try_parse p b ≡ (continue, q) → consume p (b ∷ bs) ≡ consume q bs
  consume_continue e = rw consume-cons (rw e)

  pub consume_done : try_parse p b ≡ (done, q) → consume p (b ∷ bs) ≡ (true, q)
  consume_done e = rw consume-cons (rw e)

  pub consume_error : try_parse p b ≡ (error, q) → consume p (b ∷ bs) ≡ consume (reset q) bs
  consume_error e = rw consume-cons (rw e)

module _ (ids : List ℕ) (id l1 l2 e1 e2 : ℕ) where
  -- The parser after the error status and the parameters `had`.
  abbrev gathered : State → List ℕ → ExxxPacketParser
  gathered s had = at s (opened (status_body id l1 l2 e1 e2 had)) ids

  more_params :
      (x : ℕ) (had : List ℕ)
      → length had + 4 < l1 + 256 * l2
      → try_parse (gathered state_data had) x ≡ (continue, gathered state_data (had ++ x ∷ []))
  unfolding try_parse
  more_params x had h = rw (
      gt→leb (l1 + 256 * l2 + 4) (length (opened (status_body id l1 l2 e1 e2 (had ++ x ∷ []))))
        (omega (arith, length-append had (x ∷ []))))

  last_param :
      (x : ℕ) (had : List ℕ)
      → length had + 4 ≡ l1 + 256 * l2
      → try_parse (gathered state_data had) x ≡ (continue, gathered state_checksum (had ++ x ∷ []))
  unfolding try_parse
  last_param x had h = rw (
      le→leb (l1 + 256 * l2 + 4) (length (opened (status_body id l1 l2 e1 e2 (had ++ x ∷ []))))
        (omega (arith, length-append had (x ∷ []))))

  -- The parameters come in one by one, until the length is reached.
  consume_params :
      (x : ℕ) (had params rest : List ℕ)
      → length had + length params + 4 ≡ l1 + 256 * l2
      → consume (gathered state_data had) (x ∷ params ++ rest)
        ≡ consume (gathered state_checksum (had ++ x ∷ params)) rest
  consume_params x had [] rest h = consume_continue _ x rest (last_param x had (omega arith))
  consume_params x had (y ∷ params) rest h =
      consume_continue _ x (y ∷ params ++ rest) (more_params x had (omega arith))
      ∙ consume_params y (had ++ x ∷ []) params rest (omega (arith, length-append had (x ∷ [])))
      ∙ ap (λ l. consume (gathered state_checksum l) rest) (append_assoc had (x ∷ []) (y ∷ params))

  sealed :
      (params rest : List ℕ)
      → consume
          (gathered state_checksum params)
          (checksum (status_body id l1 l2 e1 e2 params) ∷ rest)
        ≡ (true, at state_checksum (status_packet_of id l1 l2 e1 e2 params) ids)
  sealed params rest = consume_done _ _ rest (ending params)
    where
      ending :
          (ps : List ℕ)
          → try_parse (gathered state_checksum ps) (checksum (status_body id l1 l2 e1 e2 ps))
            ≡ (done, at state_checksum (status_packet_of id l1 l2 e1 e2 ps) ids)
      ending ps = unfold try_parse in rw (==_self (checksum (status_body id l1 l2 e1 e2 ps)))

  -- From the length on: a packet with or without parameters.
  consume_from_error_status :
      (params rest : List ℕ)
      → length params + 3 ≡ l1 + 256 * l2
      → consume
          (at state_error_status2 (opened (id ∷ l1 ∷ l2 ∷ e1 ∷ [])) ids)
          (e2 ∷ params ++ checksum (status_body id l1 l2 e1 e2 params) ∷ rest)
        ≡ (true, at state_checksum (status_packet_of id l1 l2 e1 e2 params) ids)
  unfolding try_parse
  consume_from_error_status [] rest h =
      consume_continue _ e2 _ (rw (eq→== (l1 + 256 * l2) 3 (omega arith))) ∙ sealed [] rest
  consume_from_error_status (x ∷ params) rest h =
      consume_continue _ e2 _ (rw (ne→== (l1 + 256 * l2) 3 (omega arith)))
      ∙ consume_params x [] params _ (omega arith)
      ∙ sealed (x ∷ params) rest

  -- A whole packet, from the first header byte on.
  pub consume_packet :
      (params rest : List ℕ)
      → contains ids id ≡ true
      → length params + 3 ≡ l1 + 256 * l2
      → consume (at state_header1 [] ids) (status_packet_of id l1 l2 e1 e2 params ++ rest)
        ≡ (true, at state_checksum (status_packet_of id l1 l2 e1 e2 params) ids)
  unfolding try_parse
  consume_packet params rest listed h =
      consume_continue _ 0xAA _ refl
      ∙ consume_continue _ 0x55 _ refl
      ∙ consume_continue _ {q = at state_length1 (opened (id ∷ [])) ids} id _ (rw listed)
      ∙ consume_continue _ l1 _ refl
      ∙ consume_continue _ {q = at state_error_status1 (opened (id ∷ l1 ∷ l2 ∷ [])) ids} l2 _
          (rw (le→ltb (l1 + 256 * l2) 3 (omega arith)))
      ∙ consume_continue _ e1 _ refl
      ∙ ap (λ l. consume (at state_error_status2 (opened (id ∷ l1 ∷ l2 ∷ e1 ∷ [])) ids) (e2 ∷ l))
          (append_assoc params _ rest)
      ∙ consume_from_error_status params rest h

-- Bytes that are no first header byte are skipped.
pub consume_skip :
    (ids junk rest : List ℕ)
    → All (λ b. b ≢ 0xAA) junk
    → consume (at state_header1 [] ids) (junk ++ rest) ≡ consume (at state_header1 [] ids) rest
unfolding try_parse
consume_skip ids [] rest h = refl
consume_skip ids (b ∷ junk) rest h =
    consume_error _ {q = at state_header1 [] ids} b (junk ++ rest) (rw (ne→== b 0xAA h.0))
    ∙ consume_skip ids junk rest h.1

-- The stream in two pieces.
pub consume-append :
    (p : ExxxPacketParser) (xs ys : List ℕ)
    → consume p (xs ++ ys)
      ≡ (let (finished, q) = consume p xs in if finished then (true, q) else consume q ys)
unfolding consume
consume-append p [] ys = refl
consume-append p (x ∷ xs) ys =
    ground (
      arith,
      consume-append (try_parse p x).1 xs ys,
      consume-append (reset (try_parse p x).1) xs ys,
    )
