-- ===== src/Ecu/Frame/RoundTrip.antt =====
-- `PowerEcuComFrameDecoder::Decode` on a frame as the format describes it.
use hsrb_drivers.Prelude.{
  ℕ, suc, ◌+◌, ◌-◌, ◌<◌, ◌≤◌, ◌≡◌, refl, sym, ap, ◌∙◌, true, false, List, [], ◌∷◌, ◌++◌, ◌==◌,
  length, take, drop, arith, take-append, length-append, le→ltb, ==_self, append_assoc, contains,
  Bool-cases, inl, inr,
}
use hsrb_drivers.Ecu.Crc.{Crc32, calculate_crc32}
use hsrb_drivers.Ecu.Element.{hex_char, dec_char}
use hsrb_drivers.Ecu.Element.Digits.{digits, length-digits}
use hsrb_drivers.Ecu.Frame.{codes, strtol_16, atoi}
use hsrb_drivers.Ecu.Frame.Text.{atoi-digits, strtol_16-digits}
use hsrb_drivers.Ecu.Frame.Decoder.{
  DataDecoderMap, dispatch, corrupt, decode_body, decode_frame, decode, find_decoder, skips,
}

drop-append_suc : (xs ys : List ℕ) (y : ℕ) → drop (suc (length xs)) (xs ++ y ∷ ys) ≡ ys
drop-append_suc [] ys y = refl
drop-append_suc (x ∷ xs) ys y = drop-append_suc xs ys y

suc-add : (n : ℕ) → n + 1 ≡ suc n
suc-add n = omega arith

-- The packet type, five characters.
pub record PacketName : Type 0 where
  pub n1 : ℕ
  pub n2 : ℕ
  pub n3 : ℕ
  pub n4 : ℕ
  pub n5 : ℕ

abbrev pub name_bytes : PacketName → List ℕ
name_bytes n = n.n1 ∷ n.n2 ∷ n.n3 ∷ n.n4 ∷ n.n5 ∷ []

-- The header and the body: "E," packet type "," size in three digits "," body.
unfoldable pub frame_head : PacketName → List ℕ → List ℕ
frame_head name body =
    b'E'
      ∷ b','
      ∷ name.n1
      ∷ name.n2
      ∷ name.n3
      ∷ name.n4
      ∷ name.n5
      ∷ b','
      ∷ digits 10 dec_char 3 (length body + 11)
    ++ b',' ∷ body

module _ (crc : Crc32) where
  -- The footer: "h", the checksum in eight hexadecimal digits, "," and the line feed.
  unfoldable pub frame_tail : List ℕ → List ℕ
  frame_tail head = b'h' ∷ digits 16 hex_char 8 (calculate_crc32 crc head) ++ b',' ∷ b'\n' ∷ []

  unfoldable pub ecu_frame : PacketName → List ℕ → List ℕ
  ecu_frame name body = frame_head name body ++ frame_tail (frame_head name body)

  unfoldable crc_sum : List ℕ → List ℕ
  crc_sum head = digits 16 hex_char 8 (calculate_crc32 crc head)

  module _ (map : DataDecoderMap) where
    intact :
        (head sum rest : List ℕ) (size : ℕ)
        → length head ≡ 12 + size - 11
        → take 8 (sum ++ rest) ≡ sum
        → strtol_16 sum ≡ calculate_crc32 crc head
        → corrupt crc (head ++ b'h' ∷ (sum ++ rest)) size ≡ false
    intact head sum rest size e t s = rw (
      sym e,
      take-append head (b'h' ∷ (sum ++ rest)),
      suc-add (length head),
      drop-append_suc head (sum ++ rest) b'h',
      t,
      s,
      ==_self (calculate_crc32 crc head),
    )

    -- A frame that passes every check on its header goes on to its body.
    decode_frame_header :
        (before size : ℕ) (frame : List ℕ)
        → skips (codes "E,") frame ≡ true
        → skips (codes ",") (drop 7 frame) ≡ true
        → skips (codes ",") (drop 11 frame) ≡ true
        → atoi (take 3 (drop 8 frame)) ≡ size
        → 11 ≤ size
        → 12 + size ≤ length frame
        → decode_frame crc map before frame ≡ decode_body crc map before frame size
    unfolding decode_frame
    decode_frame_header before size frame e c d a small fits = rw (
      le→ltb (length frame) 12 (omega arith),
      e,
      c,
      a,
      le→ltb size 11 small,
      d,
      le→ltb (length frame - 12) size (omega arith),
    )

    decode_body_lem :
        (before size : ℕ) (frame : List ℕ)
        → corrupt crc frame size ≡ false
        → decode_body crc map before frame size
          ≡ dispatch map
              (before + (12 + size))
              size
              (take (size - 11) (drop 12 frame))
              (find_decoder (take 5 (drop 2 frame)) map)
    unfolding decode_body
    decode_body_lem before size frame e = rw e

    ecu_frame_shape :
        (name : PacketName) (body rest : List ℕ)
        → ecu_frame name body ++ rest
          ≡ frame_head name body ++ b'h' ∷ (crc_sum (frame_head name body) ++ b',' ∷ b'\n' ∷ rest)
    unfolding ecu_frame frame_tail crc_sum
    ecu_frame_shape name body rest =
        let head = frame_head name body in
        append_assoc head (frame_tail head) rest
        ∙ ap (λ l. head ++ b'h' ∷ l) (append_assoc (crc_sum head) (b',' ∷ b'\n' ∷ []) rest)

    length-frame_head :
        (name : PacketName) (body : List ℕ) → length (frame_head name body) ≡ length body + 12
    unfolding frame_head
    length-frame_head name body =
        let size = digits 10 dec_char 3 (length body + 11) in
        omega
          (arith, length-append size (b',' ∷ body), length-digits 10 dec_char 3 (length body + 11))

    decode_frame-ecu_frame :
        (before : ℕ) (name : PacketName) (body rest : List ℕ)
        → length body + 11 < 1000
        → decode_frame crc map before (ecu_frame name body ++ rest)
          ≡ dispatch map
              (before + (12 + (length body + 11)))
              (length body + 11)
              body
              (find_decoder (name_bytes name) map)
    decode_frame-ecu_frame before name body rest h =
        let size = length body + 11 in
        let head = frame_head name body in
        let sum = crc_sum head in
        let tail = b',' ∷ b'\n' ∷ rest in
        let frame = head ++ b'h' ∷ (sum ++ tail) in
        let long : 12 + size ≤ length frame =
          unfold crc_sum in
          omega (
            arith,
            length-frame_head name body,
            length-append head (b'h' ∷ (sum ++ tail)),
            length-append sum tail,
            length-digits 16 hex_char 8 (calculate_crc32 crc head),
          ) in
        let eight : take 8 (sum ++ tail) ≡ sum =
          unfold crc_sum in
          rw (length-digits 16 hex_char 8 (calculate_crc32 crc head)) at (take-append sum tail) in
        let read : strtol_16 sum ≡ calculate_crc32 crc head =
          unfold crc_sum calculate_crc32 in
          strtol_16-digits (calculate_crc32 crc head) (crc.checksum-lt _) in
        let number : atoi (take 3 (drop 8 frame)) ≡ size =
          unfold frame_head digits in atoi-digits size h in
        let good =
          intact head sum tail size (omega (arith, length-frame_head name body)) eight read in
        let inside : take (size - 11) (body ++ b'h' ∷ (sum ++ tail)) ≡ body =
          let n : size - 11 ≡ length body = omega arith in
          rw n (take-append body (b'h' ∷ (sum ++ tail))) in
        ap (decode_frame crc map before) (ecu_frame_shape name body rest)
        ∙ decode_frame_header before size frame (unfold frame_head in refl)
            (unfold frame_head digits in refl) (unfold frame_head digits in refl) number
            (omega arith) long
        ∙ decode_body_lem before size frame good
        ∙ (unfold frame_head digits in
            ap
              (λ b. dispatch map (before + (12 + size)) size b (find_decoder (name_bytes name) map))
              inside)

    pub length-ecu_frame :
        (name : PacketName) (body : List ℕ) → length (ecu_frame name body) ≡ length body + 23
    unfolding ecu_frame frame_tail crc_sum
    length-ecu_frame name body =
        let head = frame_head name body in
        let eight : length (crc_sum head) ≡ 8 =
          length-digits 16 hex_char 8 (calculate_crc32 crc head) in
        omega (
          arith,
          length-frame_head name body,
          length-append head (frame_tail head),
          length-append (crc_sum head) (b',' ∷ b'\n' ∷ []),
          eight,
        )

    -- A frame whose size has up to three digits, behind bytes without the start character and before any
    -- others, is found with its checksum intact: the decoder of its packet type gets its body, and the iterator
    -- stops right behind the frame.
    pub decode-ecu_frame :
        (before : ℕ) (junk : List ℕ) (name : PacketName) (body rest : List ℕ)
        → contains junk b'E' ≡ false
        → length body + 11 < 1000
        → decode crc map before (junk ++ (ecu_frame name body ++ rest))
          ≡ dispatch map
              (before + length junk + length (ecu_frame name body))
              (length body + 11)
              body
              (find_decoder (name_bytes name) map)
    decode-ecu_frame before [] name body rest e h =
        let here : before + (12 + (length body + 11)) ≡ before + 0 + length (ecu_frame name body) =
          omega (arith, length-ecu_frame name body) in
        let start : decode crc map before (ecu_frame name body ++ rest)
            ≡ decode_frame crc map before (ecu_frame name body ++ rest) =
          unfold decode ecu_frame frame_head in refl in
        start
        ∙ decode_frame-ecu_frame before name body rest h
        ∙ ap (λ k. dispatch map k (length body + 11) body (find_decoder (name_bytes name) map)) here
    decode-ecu_frame before (x ∷ junk) name body rest e h = elim (Bool-cases (x == b'E')) [
      | inl s ↦ absurd (ground (arith, s, e))
      | inr s ↦
          let clean : contains junk b'E' ≡ false = ground (arith, s, e) in
          let there : before + 1 + length junk + length (ecu_frame name body)
              ≡ before + length (x ∷ junk) + length (ecu_frame name body) =
            omega arith in
          let next : decode crc map before (x ∷ (junk ++ (ecu_frame name body ++ rest)))
              ≡ decode crc map (before + 1) (junk ++ (ecu_frame name body ++ rest)) =
            unfold decode in rw s in
          next
          ∙ decode-ecu_frame (before + 1) junk name body rest clean h
          ∙ ap (λ k. dispatch map k (length body + 11) body (find_decoder (name_bytes name) map))
              there
    ]
