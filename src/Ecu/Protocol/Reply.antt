-- ===== src/Ecu/Protocol/Reply.antt =====
-- The acknowledgement of a command: a frame of the type `rxack`, from the line to the command queue.
use hsrb_drivers.Prelude.{
  ℕ, zero, suc, ◌+◌, ◌-◌, ◌/◌, ◌%◌, ◌^◌, ◌<◌, ◌≤◌, ◌≡◌, ◌≢◌, refl, ap, ◌∙◌, Bool, true, false,
  Option, some, List, [], ◌∷◌, ◌++◌, All, length, drop, ◌==◌, if◌then◌else◌, contains, arith, inl,
  inr, Bool-cases, lt→ltb, ne→==, length-append,
}
use hsrb_drivers.Ecu.Crc.{Crc32}
use hsrb_drivers.Ecu.ErrorCounter.{register}
use hsrb_drivers.Ecu.Element.{hex_char, encode_hex_uint}
use hsrb_drivers.Ecu.Element.Digits.{digits}
use hsrb_drivers.Ecu.Element.RoundTrip.{encode_hex_uint_lem, decode_hex_uint-encode_hex_uint}
use hsrb_drivers.Ecu.Frame.{success, operation_canceled, result_out_of_range, codes, same_bytes}
use hsrb_drivers.Ecu.Frame.Decoder.{
  DataDecoder, DataDecoderMap, Decoded, hex_uint_decoder, number, split_comma, decode_elements,
  decode_element, decode_data, dispatch, decode, decode_all, find_decoder, put_decoder,
}
use hsrb_drivers.Ecu.Frame.RoundTrip.{PacketName, ecu_frame, length-ecu_frame, decode-ecu_frame}
use hsrb_drivers.Ecu.Packets.{rxack_data_decoder}
use hsrb_drivers.Ecu.Protocol.{INetwork, State, confirm, receive_all, counted}

-- The decoder of the acknowledgements, with the value and the flag that it holds.
abbrev pub rxack_holding : ℕ → Bool → DataDecoder
rxack_holding value flag = record rxack_data_decoder {
  values = number value ∷ [];
  is_receive = flag;
}

-- The packet type, and the body for a value of two hexadecimal digits.
abbrev pub rxack : PacketName
rxack = record { n1 = b'r'; n2 = b'x'; n3 = b'a'; n4 = b'c'; n5 = b'k' }

abbrev pub ack_body : ℕ → List ℕ
ack_body v = b'h' ∷ (digits 16 hex_char 2 v ++ b',' ∷ [])

split_comma-append :
    (front back : List ℕ)
    → All (λ c. c ≢ b',') front
    → split_comma (front ++ b',' ∷ back) ≡ some (front, back)
unfolding split_comma
split_comma-append [] back h = refl
split_comma-append (c ∷ cs) back (h, hs) = rw (ne→== c b',' h, split_comma-append cs back hs) refl

hex_char-ne : (d : ℕ) → d < 16 → hex_char d ≢ b','
hex_char-ne d h e = ground arith

decode_data-ack_body :
    (v old : ℕ) (flag : Bool)
    → v < 256
    → decode_data (rxack_holding old flag) (ack_body v) ≡ (success, rxack_holding v true)
decode_data-ack_body v old flag h =
    let made : encode_hex_uint v 2 ≡ some (b'h' ∷ digits 16 hex_char 2 v) =
      rw (lt→ltb v (16 ^ 2) h) at (encode_hex_uint_lem v 2 (omega arith)) in
    let read = (decode_hex_uint-encode_hex_uint v 2 8 _ (omega arith) (omega arith) made).0 in
    let split : split_comma (ack_body v) ≡ some (b'h' ∷ digits 16 hex_char 2 v, []) =
      split_comma-append (b'h' ∷ digits 16 hex_char 2 v) [] (
        unfold digits in
        (
          (λ e. omega arith),
          (hex_char-ne (v / 16 % 16) (omega arith), (hex_char-ne (v % 16) (omega arith), tt)),
        )) in
    let elements : decode_elements (hex_uint_decoder 8 2 ∷ []) (ack_body v)
        ≡ (true, number v ∷ []) =
      unfold decode_elements decode_element in ground (arith, split, read) in
    unfold decode_data in rw elements refl

find_decoder-put_decoder :
    (new d : DataDecoder) (map : DataDecoderMap)
    → same_bytes new.packet_name new.packet_name ≡ true
    → find_decoder new.packet_name map ≡ some d
    → find_decoder new.packet_name (put_decoder new map) ≡ some new
unfolding find_decoder put_decoder
find_decoder-put_decoder new d [] s f = absurd (ground arith)
find_decoder-put_decoder new d (x ∷ map) s f =
    elim (Bool-cases (same_bytes x.packet_name new.packet_name)) [
      | inl e ↦ rw (e, s) refl
      | inr e ↦ rw (e, e) (find_decoder-put_decoder new d map s (rw e at f))
    ]

drop_all : {A : Type 0} (xs : List A) → drop (length xs) xs ≡ []
drop_all [] = refl
drop_all (x ∷ xs) = drop_all xs

decode-nil :
    (crc : Crc32) (map : DataDecoderMap) (before : ℕ)
    → decode crc map before [] ≡ record { code = result_out_of_range; encoded = before; map = map }
unfolding decode
decode-nil crc map before = refl

-- What a round of the loop does with what `Decode` returns.
abbrev after_decode : Crc32 → ℕ → ℕ → List ℕ → Bool → Decoded → Option (Bool × ℕ × DataDecoderMap)
after_decode crc fuel before bytes corrupted r = elim r.code [
  | result_out_of_range ↦ some (corrupted, r.encoded, r.map)
  | success ↦ decode_all crc fuel r.map r.encoded (drop (r.encoded - before) bytes) corrupted
  | _ ↦ decode_all crc fuel r.map r.encoded (drop (r.encoded - before) bytes) true
]

decode_all-suc :
    (crc : Crc32) (fuel : ℕ) (map : DataDecoderMap) (before : ℕ) (bytes : List ℕ) (corrupted : Bool)
    → decode_all crc (suc fuel) map before bytes corrupted
      ≡ after_decode crc fuel before bytes corrupted (decode crc map before bytes)
unfolding decode_all
decode_all-suc crc fuel map before bytes corrupted = refl

decode_all-once :
    (crc : Crc32) (fuel : ℕ) (map new : DataDecoderMap) (bytes : List ℕ)
    → 2 ≤ fuel
    → decode crc map 0 bytes ≡ record { code = success; encoded = length bytes; map = new }
    → decode_all crc fuel map 0 bytes false ≡ some (false, length bytes, new)
decode_all-once crc zero map new bytes h e = absurd (omega arith)
decode_all-once crc (suc zero) map new bytes h e = absurd (omega arith)
decode_all-once crc (suc (suc fuel)) map new bytes h e =
    let z : length bytes - 0 ≡ length bytes = omega arith in
    let none_left : drop (length bytes - 0) bytes ≡ [] = rw z (drop_all bytes) in
    decode_all-suc crc (suc fuel) map 0 bytes false
    ∙ ap (after_decode crc (suc fuel) 0 bytes false) e
    ∙ ap (λ rest. decode_all crc (suc fuel) new (length bytes) rest false) none_left
    ∙ decode_all-suc crc fuel new (length bytes) [] false
    ∙ ap (after_decode crc fuel (length bytes) [] false) (decode-nil crc new (length bytes))

length-ack_body : (v : ℕ) → length (ack_body v) ≡ 4
unfolding digits
length-ack_body v = refl

module _ (crc : Crc32) (map : DataDecoderMap) (junk : List ℕ) (v old : ℕ) (flag : Bool)
    (small : v < 256) (clean : contains junk b'E' ≡ false)
    (there : find_decoder (codes "rxack") map ≡ some (rxack_holding old flag)) where
  abbrev buffer : List ℕ
  buffer = junk ++ (ecu_frame crc rxack (ack_body v) ++ [])

  dispatch-ack_body :
      (encoded : ℕ)
      → dispatch map encoded
          (length (ack_body v) + 11)
          (ack_body v)
          (find_decoder (codes "rxack") map)
        ≡ record { code = success; encoded = encoded; map = put_decoder (rxack_holding v true) map }
  dispatch-ack_body encoded =
      rw (there, length-ack_body v, decode_data-ack_body v old flag small) refl

  length-buffer : 0 + length junk + length (ecu_frame crc rxack (ack_body v)) ≡ length buffer
  length-buffer = omega (
    arith,
    length-append junk (ecu_frame crc rxack (ack_body v) ++ []),
    length-append (ecu_frame crc rxack (ack_body v)) [],
  )

  decode_all-buffer :
      decode_all crc (length buffer + 1) map 0 buffer false
      ≡ some (false, length buffer, put_decoder (rxack_holding v true) map)
  decode_all-buffer =
      let here =
        decode-ecu_frame crc map 0 junk rxack (ack_body v) [] clean
          (omega (arith, length-ack_body v)) in
      decode_all-once crc (length buffer + 1) map _ buffer
        (omega (arith, length-ecu_frame crc map rxack (ack_body v), length-buffer))
        (here
          ∙ dispatch-ack_body _
          ∙ ap
              (λ n. record {
                code = success;
                encoded = n;
                map = put_decoder (rxack_holding v true) map;
              })
              length-buffer)

module _ (crc : Crc32) (network : INetwork) (command : List ℕ) (queue : List (List ℕ)) where
  open network use {Line}

  confirm-rxack_holding :
      (time v : ℕ) (s : State crc network)
      → s.is_waiting_ack ≡ true
      → s.command_queue ≡ command ∷ queue
      → find_decoder (codes "rxack") s.decoder_map ≡ some (rxack_holding v true)
      → confirm crc network time success s
        ≡ some (
          if v == 0 then success else operation_canceled,
          record s { command_queue = queue; is_waiting_ack = false },
        )
  confirm-rxack_holding time v s waiting front there =
      rw (waiting, there, front)
        (elim (Bool-cases (v == 0)) [ inl e ↦ rw e refl | inr e ↦ rw e refl ])

  -- While the command at the front of the queue is awaited, and the decoder of acknowledgements is registered: if a
  -- reception leaves an acknowledgement with the value `v`, a byte, in the receive buffer, behind bytes without the
  -- start character, then `ReceiveAll` takes the command from the queue and no longer waits, empties the buffer,
  -- stores `v`, and returns success if it is 0 and `operation_canceled` otherwise, which the error counter records.
  pub receive_all-ecu_frame :
      (time v old : ℕ) (flag : Bool) (junk : List ℕ) (line : Line) (s : State crc network)
      → s.is_waiting_ack ≡ true
      → s.command_queue ≡ command ∷ queue
      → find_decoder (codes "rxack") s.decoder_map ≡ some (rxack_holding old flag)
      → v < 256
      → contains junk b'E' ≡ false
      → network.receive s.receive_buffer s.line
        ≡ (success, junk ++ (ecu_frame crc rxack (ack_body v) ++ []), line)
      → receive_all crc network time s
        ≡ some (
          if v == 0 then success else operation_canceled,
          record s {
            line = line;
            receive_buffer = [];
            decoder_map = put_decoder (rxack_holding v true) s.decoder_map;
            command_queue = queue;
            is_waiting_ack = false;
            read_error_counter = register (v == 0) s.read_error_counter;
          },
        )
  unfolding receive_all
  receive_all-ecu_frame time v old flag junk line s waiting front there small clean got =
      let bytes = buffer crc s.decoder_map junk v old flag small clean there in
      let map = put_decoder (rxack_holding v true) s.decoder_map in
      let again =
        find_decoder-put_decoder (rxack_holding v true) (rxack_holding old flag) s.decoder_map refl
          there in
      let read = record s { line = line; receive_buffer = []; decoder_map = map } in
      rw
        (got, decode_all-buffer crc s.decoder_map junk v old flag small clean there, drop_all bytes)
        (ap (counted crc network) (confirm-rxack_holding time v read waiting front again)
          ∙ elim (Bool-cases (v == 0)) [ inl e ↦ rw e refl | inr e ↦ rw e refl ])
