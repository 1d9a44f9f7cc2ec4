-- ===== src/Ecu/Frame/Decoder/Progress.antt =====
-- Each call of `PowerEcuComFrameDecoder::Decode` stays inside its buffer, and moves on unless it waits for
-- more bytes; so the loop of `ReceiveAll` over the buffer ends.
use hsrb_drivers.Prelude.{
  ℕ, zero, suc, ◌+◌, ◌-◌, ◌≤◌, ◌<◌, ◌≡◌, ◌≢◌, refl, Bool, true, false, Option, none, some, List, [],
  ◌∷◌, not, ltb, ◌==◌, if◌then◌else◌, length, take, drop, arith, length-drop, ltb→le,
}
use hsrb_drivers.Ecu.Crc.{Crc32}
use hsrb_drivers.Ecu.Frame.{atoi, codes, Code, protocol_error, result_out_of_range}
use hsrb_drivers.Ecu.Frame.Decoder.{
  DataDecoder, DataDecoderMap, Decoded, dispatch, corrupt, skips, find_decoder, decode_body,
  decode_frame, decode, decode_all,
}

-- Where a call leaves the iterator, for a buffer that reaches from `before` to `limit`.
pub record Moves (before limit : ℕ) (r : Decoded) : Type 0 where
  pub least : before ≤ r.encoded
  pub most : r.encoded ≤ limit
  pub onward : r.code ≢ result_out_of_range → before < r.encoded

module _ {before limit : ℕ} where
  Moves-if :
      (b : Bool) (x y : Decoded)
      → (b ≡ true → Moves before limit x)
      → (b ≡ false → Moves before limit y)
      → Moves before limit (if b then x else y)
  Moves-if true x y t f = t refl
  Moves-if false x y t f = f refl

  forward :
      (map : DataDecoderMap) (code : Code) (encoded : ℕ)
      → before < encoded
      → encoded ≤ limit
      → Moves before limit (record { code = code; encoded = encoded; map = map })
  forward map code encoded h k = record { least = omega arith; most = k; onward = λ c. h }

  waits :
      (map : DataDecoderMap) (encoded : ℕ)
      → before ≤ encoded
      → encoded ≤ limit
      → Moves before limit (record { code = result_out_of_range; encoded = encoded; map = map })
  waits map encoded h k = record { least = h; most = k; onward = λ c. absurd (c refl) }

  dispatch-Moves :
      (map : DataDecoderMap) (encoded packet_size : ℕ) (body : List ℕ) (found : Option DataDecoder)
      → before < encoded
      → encoded ≤ limit
      → Moves before limit (dispatch map encoded packet_size body found)
  dispatch-Moves map encoded packet_size body none h k = forward map protocol_error encoded h k
  dispatch-Moves map encoded packet_size body (some d) h k =
      Moves-if (not (d.packet_size == packet_size)) _ _
        (λ _. forward map protocol_error encoded h k) (λ _. forward _ _ encoded h k)

module _ (crc : Crc32) (map : DataDecoderMap) where
  decode_body-Moves :
      (before : ℕ) (frame : List ℕ) (packet_size : ℕ)
      → 12 + packet_size ≤ length frame
      → Moves before (before + length frame) (decode_body crc map before frame packet_size)
  unfolding decode_body
  decode_body-Moves before frame packet_size h =
      Moves-if (corrupt crc frame packet_size) _ _
        (λ _. forward map protocol_error (before + (12 + packet_size)) (omega arith) (omega arith))
        (λ _.
          dispatch-Moves map (before + (12 + packet_size)) packet_size
            (take (packet_size - 11) (drop 12 frame)) (find_decoder (take 5 (drop 2 frame)) map)
            (omega arith) (omega arith))

  decode_frame-Moves :
      (before : ℕ) (frame : List ℕ)
      → Moves before (before + length frame) (decode_frame crc map before frame)
  unfolding decode_frame
  decode_frame-Moves before frame =
      Moves-if (ltb (length frame) 12) _ _ (λ _. waits map before (omega arith) (omega arith))
        λ long.
          let wide : 12 ≤ length frame = ltb→le _ _ long in
          Moves-if (not (skips (codes "E,") frame)) _ _
            (λ _. forward map protocol_error (before + 2) (omega arith) (omega arith))
            λ _.
              Moves-if (not (skips (codes ",") (drop 7 frame))) _ _
                (λ _. forward map protocol_error (before + 8) (omega arith) (omega arith))
                λ _.
                  Moves-if (ltb (atoi (take 3 (drop 8 frame))) 11) _ _
                    (λ _. forward map protocol_error (before + 11) (omega arith) (omega arith))
                    λ _.
                      Moves-if (not (skips (codes ",") (drop 11 frame))) _ _
                        (λ _. forward map protocol_error (before + 12) (omega arith) (omega arith))
                        λ _.
                          Moves-if (ltb (length frame - 12) (atoi (take 3 (drop 8 frame)))) _ _
                            (λ _. waits map before (omega arith) (omega arith))
                            λ here.
                              decode_body-Moves before frame _ (omega (arith, ltb→le _ _ here))

  -- `Decode` leaves its iterator inside the buffer, and moves it on with every code other than
  -- `result_out_of_range`.
  pub decode-Moves :
      (before : ℕ) (bytes : List ℕ)
      → Moves before (before + length bytes) (decode crc map before bytes)
  unfolding decode
  decode-Moves before [] = waits map before (omega arith) (omega arith)
  decode-Moves before (c ∷ cs) =
      let later : Moves (before + 1) (before + 1 + length cs) (decode crc map (before + 1) cs) =
        decode-Moves (before + 1) cs in
      Moves-if (c == b'E') _ _ (λ _. decode_frame-Moves before (c ∷ cs))
        (λ _. record {
          least = omega (arith, later.least);
          most = omega (arith, later.most);
          onward = λ k. omega (arith, later.onward k);
        })

-- The loop of `ReceiveAll` over the receive buffer ends: one round more than there are bytes is enough.
pub decode_all-ne-none :
    (crc : Crc32) (fuel : ℕ) (map : DataDecoderMap) (before : ℕ) (bytes : List ℕ) (corrupted : Bool)
    → length bytes < fuel
    → decode_all crc fuel map before bytes corrupted ≢ none
unfolding decode_all
decode_all-ne-none crc zero map before bytes corrupted h e = elim h [ ]
decode_all-ne-none crc (suc fuel) map before bytes corrupted h e =
    let r = decode crc map before bytes in
    let m : Moves before (before + length bytes) r = decode-Moves crc map before bytes in
    let rest = drop (r.encoded - before) bytes in
    ground (
      arith,
      m.least,
      m.most,
      m.onward,
      length-drop (r.encoded - before) bytes,
      decode_all-ne-none crc fuel r.map r.encoded rest corrupted,
      decode_all-ne-none crc fuel r.map r.encoded rest true,
    )
