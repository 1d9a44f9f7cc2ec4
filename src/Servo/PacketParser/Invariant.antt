-- ===== src/Servo/PacketParser/Invariant.antt =====
-- The invariant of `ExxxPacketParser`: what `packet_` holds in each state. It is what the source's
-- `assert(packet_.size() == ...)` lines rely on.
use hsrb_drivers.Prelude.{
  ℕ, ◌+◌, ◌*◌, ◌≤◌, ◌<◌, ◌≡◌, true, List, [], ◌∷◌, ◌++◌, length, contains, arith, length-append,
  ltb, leb, ◌==◌, Bool-cases, inl, inr, ==→eq, ltb→le, leb→le, leb→gt, ◌≢◌,
}
use hsrb_drivers.Servo.Checksum.{checksum}
use hsrb_drivers.Servo.PacketParser.{
  ExxxPacketParser, done, State, state_header1, state_header2, state_node_id, state_length1,
  state_length2, state_error_status1, state_error_status2, state_data, state_checksum,
  state_parser_error, try_parse,
}

-- The header, and what follows it.
abbrev pub opened : List ℕ → List ℕ
opened body = 0xAA ∷ 0x55 ∷ body

-- The node, the length, the error status and the parameters: what the checksum is over.
abbrev pub status_body : ℕ → ℕ → ℕ → ℕ → ℕ → List ℕ → List ℕ
status_body id l1 l2 e1 e2 params = id ∷ l1 ∷ l2 ∷ e1 ∷ e2 ∷ params

pub data Holds (ids : List ℕ) : State → List ℕ → Type 0 where
  in_header1 : Holds ids state_header1 []
  in_header2 : Holds ids state_header2 (0xAA ∷ [])
  in_node_id : Holds ids state_node_id (opened [])
  in_length1 : {id : ℕ} → contains ids id ≡ true → Holds ids state_length1 (opened (id ∷ []))
  in_length2 :
      {id l1 : ℕ} → contains ids id ≡ true → Holds ids state_length2 (opened (id ∷ l1 ∷ []))
  in_error_status1 :
      {id l1 l2 : ℕ}
      → contains ids id ≡ true
      → 3 ≤ l1 + 256 * l2
      → Holds ids state_error_status1 (opened (id ∷ l1 ∷ l2 ∷ []))
  in_error_status2 :
      {id l1 l2 e1 : ℕ}
      → contains ids id ≡ true
      → 3 ≤ l1 + 256 * l2
      → Holds ids state_error_status2 (opened (id ∷ l1 ∷ l2 ∷ e1 ∷ []))
  in_data :
      {id l1 l2 e1 e2 : ℕ} {params : List ℕ}
      → contains ids id ≡ true
      → length params + 3 < l1 + 256 * l2
      → Holds ids state_data (opened (status_body id l1 l2 e1 e2 params))
  in_checksum :
      {id l1 l2 e1 e2 : ℕ} {params : List ℕ}
      → contains ids id ≡ true
      → length params + 3 ≡ l1 + 256 * l2
      → Holds ids state_checksum (opened (status_body id l1 l2 e1 e2 params))
  in_parser_error : {packet : List ℕ} → Holds ids state_parser_error packet

abbrev pub IsWellFormed : ExxxPacketParser → Type 0
IsWellFormed p = Holds p.valid_ids p.state p.packet

abbrev pub at : State → List ℕ → List ℕ → ExxxPacketParser
at s packet ids = record { state = s; packet = packet; valid_ids = ids }

-- One byte in each state, on a packet of the shape that the state holds.
keeps :
    {ids : List ℕ} {s : State} {packet : List ℕ} (input : ℕ)
    → Holds ids s packet
    → (try_parse (at s packet ids) input).0 ≢ done
    → IsWellFormed (try_parse (at s packet ids) input).1
unfolding try_parse
keeps {ids} input in_header1 c = elim (Bool-cases (input == 0xAA)) [
  | inl e ↦ rw (==→eq input _ e) in_header2
  | inr e ↦ rw e in_header1
]
keeps {ids} input in_header2 c = elim (Bool-cases (input == 0x55)) [
  | inl e ↦ rw (==→eq input _ e) in_node_id
  | inr e ↦ rw e in_parser_error
]
keeps {ids} input in_node_id c = elim (Bool-cases (contains ids input)) [
  | inl e ↦ rw e (in_length1 e)
  | inr e ↦ rw e in_parser_error
]
keeps input (in_length1 h) c = in_length2 h
keeps input (in_length2 {l1 = l1} h) c = elim (Bool-cases (ltb (l1 + 256 * input) 3)) [
  | inl e ↦ rw e in_parser_error
  | inr e ↦ rw e (in_error_status1 h (ltb→le _ _ e))
]
keeps input (in_error_status1 h l) c = in_error_status2 h l
keeps input (in_error_status2 {l1 = l1} {l2 = l2} h l) c = elim (Bool-cases (l1 + 256 * l2 == 3)) [
  | inl e ↦ rw e (in_checksum h (omega (arith, ==→eq _ _ e)))
  | inr e ↦ rw e (in_data h (ground arith))
]
keeps input (in_data {id = id} {l1 = l1} {l2 = l2} {e1 = e1} {e2 = e2} {params = params} h l) c =
    let more = params ++ input ∷ [] in
    let grown : length more ≡ length params + 1 = length-append params (input ∷ []) in
    elim (Bool-cases
      (leb (l1 + 256 * l2 + 4) (length (opened (status_body id l1 l2 e1 e2 more))))) [
        | inl e ↦ rw e (in_checksum h (omega (arith, leb→le _ _ e)))
        | inr e ↦ rw e (in_data h (omega (arith, leb→gt _ _ e)))
      ]
keeps input (in_checksum {id = id} {l1 = l1} {l2 = l2} {e1 = e1} {e2 = e2} {params = params} h l)
      c =
    elim (Bool-cases (input == checksum (status_body id l1 l2 e1 e2 params))) [
      | inl e ↦ absurd (c (rw e))
      | inr e ↦ rw e (in_checksum h l)
    ]
keeps input in_parser_error c = in_parser_error

-- Any byte that does not complete a packet keeps a well-formed parser well-formed, an erroneous one included.
pub try_parse-IsWellFormed :
    (p : ExxxPacketParser) (input : ℕ)
    → IsWellFormed p
    → (try_parse p input).0 ≢ done
    → IsWellFormed (try_parse p input).1
try_parse-IsWellFormed p input h c = keeps input h c

-- A packet that is complete: the checksum byte ends what the length announces.
pub data IsStatusPacket (ids : List ℕ) : List ℕ → Type 0 where
  status_packet :
      (id l1 l2 e1 e2 : ℕ) (params : List ℕ)
      → contains ids id ≡ true
      → length params + 3 ≡ l1 + 256 * l2
      → IsStatusPacket ids (
          opened (
            status_body id l1 l2 e1 e2
              (params ++ checksum (status_body id l1 l2 e1 e2 params) ∷ [])))

completes :
    {ids : List ℕ} {s : State} {packet : List ℕ} (input : ℕ)
    → Holds ids s packet
    → (try_parse (at s packet ids) input).0 ≡ done
    → IsStatusPacket ids (try_parse (at s packet ids) input).1.packet
unfolding try_parse
completes {ids} input in_header1 c = absurd (ground arith)
completes {ids} input in_header2 c = absurd (ground arith)
completes {ids} input in_node_id c = absurd (ground arith)
completes input (in_length1 h) c = cc
completes input (in_length2 {l1 = l1} h) c = absurd (ground arith)
completes input (in_error_status1 h l) c = cc
completes input (in_error_status2 h l) c = cc
completes input (in_data h l) c = cc
completes input
      (in_checksum {id = id} {l1 = l1} {l2 = l2} {e1 = e1} {e2 = e2} {params = params} h l) c =
    elim (Bool-cases (input == checksum (status_body id l1 l2 e1 e2 params))) [
      | inl e ↦ rw e (rw (==→eq input _ e) (status_packet id l1 l2 e1 e2 params h l))
      | inr e ↦ absurd (ground arith)
    ]
completes input in_parser_error c = cc

-- A well-formed parser says `done` only on a complete status packet of a listed node.
pub try_parse-IsStatusPacket :
    (p : ExxxPacketParser) (input : ℕ)
    → IsWellFormed p
    → (try_parse p input).0 ≡ done
    → IsStatusPacket p.valid_ids (try_parse p input).1.packet
try_parse-IsStatusPacket p input h c = completes input h c
