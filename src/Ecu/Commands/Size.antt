-- ===== src/Ecu/Commands/Size.antt =====
-- The size that the frame of a command announces.
use hsrb_drivers.Prelude.{
  ℕ, ◌+◌, ◌^◌, ◌<◌, ◌≤◌, ◌≡◌, refl, Bool, true, false, none, some, List, [], ◌∷◌, if◌then◌else◌,
  length, arith, length-append, lt→ltb, le→ltb, eq→==,
}
use hsrb_drivers.Ecu.Element.{
  BitMap, hex_char, dec_char, register_bit, bits_value, encode_hex_uint_bits, encode_string,
}
use hsrb_drivers.Ecu.Element.Digits.{digits, length-digits}
use hsrb_drivers.Ecu.Element.RoundTrip.{encode_uint_lem, encode_hex_uint_lem}
use hsrb_drivers.Ecu.Frame.{success, protocol_error, atoi}
use hsrb_drivers.Ecu.Frame.Encoder.{
  DataEncoder, ElementEncoder, uint_encoder, hex_uint_encoder, hex_uint_bits_encoder,
  string_encoder, encode_element, encode_elements,
}
use hsrb_drivers.Ecu.Commands.{
  register_bits, time_data_encoder, start_data_encoder, stop_data_encoder, heart_data_encoder,
  pump_data_encoder, pbmsw_data_encoder, ledc_data_encoder, g_res_data_encoder, solsw_data_encoder,
  pdcmd_data_encoder, mute_data_encoder, getv_data_encoder, undck_data_encoder,
  usb_12vu_data_encoder, d5vd3_data_encoder, d5vd4_data_encoder, d5vd5_data_encoder,
  rpros_data_encoder, rproe_data_encoder,
}

-- The data encoders of the commands, with packet data that the types of the fields hold, and switches below ten.
pub data IsCommand : DataEncoder → Type 0 where
  time : (start_time : List ℕ) → length start_time ≡ 14 → IsCommand (time_data_encoder start_time)
  start : (a b : Bool) → IsCommand (start_data_encoder a b)
  stop : IsCommand stop_data_encoder
  heart :
      (error_state counts : ℕ)
      → error_state < 2 ^ 16
      → counts < 2 ^ 32
      → IsCommand (heart_data_encoder error_state counts)
  pump : (v : ℕ) → v < 10 → IsCommand (pump_data_encoder v)
  pbmsw : (v : ℕ) → v < 10 → IsCommand (pbmsw_data_encoder v)
  ledc : (r g b : ℕ) → r < 256 → g < 256 → b < 256 → IsCommand (ledc_data_encoder r g b)
  g_res : (a b : Bool) → IsCommand (g_res_data_encoder a b)
  solsw : (v : ℕ) → v < 256 → IsCommand (solsw_data_encoder v)
  pdcmd : (a b c : Bool) → IsCommand (pdcmd_data_encoder a b c)
  mute : (a : Bool) → IsCommand (mute_data_encoder a)
  getv : IsCommand getv_data_encoder
  undck : IsCommand undck_data_encoder
  usb_12vu : (a : Bool) → IsCommand (usb_12vu_data_encoder a)
  d5vd3 : (a : Bool) → IsCommand (d5vd3_data_encoder a)
  d5vd4 : (a : Bool) → IsCommand (d5vd4_data_encoder a)
  d5vd5 : (a : Bool) → IsCommand (d5vd5_data_encoder a)
  rpros :
      (reserve : ℕ) (repro_version : List ℕ)
      → reserve < 10
      → length repro_version ≡ 41
      → IsCommand (rpros_data_encoder reserve repro_version)
  rproe : IsCommand rproe_data_encoder

-- The data encoders whose one decimal digit is given a byte above nine.
pub data IsTooLarge : DataEncoder → Type 0 where
  pump_above : (v : ℕ) → 9 < v → v < 256 → IsTooLarge (pump_data_encoder v)
  pbmsw_above : (v : ℕ) → 9 < v → v < 256 → IsTooLarge (pbmsw_data_encoder v)
  rpros_above :
      (reserve : ℕ) (repro_version : List ℕ)
      → 9 < reserve
      → reserve < 256
      → IsTooLarge (rpros_data_encoder reserve repro_version)

-- An element that is written as `n` characters.
record IsWritten (p : ElementEncoder) (n : ℕ) : Type 0 where
  chars : List ℕ
  encodes : encode_element p ≡ some chars
  long : length chars ≡ n

data IsBody : List ElementEncoder → ℕ → Type 0 where
  empty : IsBody [] 0
  more :
      {p : ElementEncoder} {ps : List ElementEncoder} (n m : ℕ)
      → IsWritten p n
      → IsBody ps m
      → IsBody (p ∷ ps) (n + (m + 1))

encode_elements-IsBody :
    {ps : List ElementEncoder} (n : ℕ)
    → IsBody ps n
    → ((encode_elements ps).0 ≡ success) × (length (encode_elements ps).1 ≡ n)
unfolding encode_elements
encode_elements-IsBody n empty = (refl, refl)
encode_elements-IsBody k (more {p} {ps} n m w b) =
    let (ok, l) = encode_elements-IsBody m b in
    rw (w.encodes, encode_elements)
      (ok, omega (arith, w.long, l, length-append w.chars (b',' ∷ (encode_elements ps).1)))

uint_IsWritten : (v n : ℕ) → v < 2 ^ 32 → v < 10 ^ n → IsWritten (uint_encoder v n) n
unfolding encode_element
uint_IsWritten v n w fits = record {
  chars = digits 10 dec_char n v;
  encodes = rw (encode_uint_lem v n w, lt→ltb v (10 ^ n) fits);
  long = length-digits 10 dec_char n v;
}

hex_uint_IsWritten : (v n : ℕ) → v < 2 ^ 32 → v < 16 ^ n → IsWritten (hex_uint_encoder v n) (n + 1)
unfolding encode_element
hex_uint_IsWritten v n w fits = record {
  chars = b'h' ∷ digits 16 hex_char n v;
  encodes = rw (encode_hex_uint_lem v n w, lt→ltb v (16 ^ n) fits);
  long = omega (arith, length-digits 16 hex_char n v);
}

string_IsWritten :
    (value : List ℕ) (n : ℕ) → length value ≡ n → IsWritten (string_encoder value n) n
unfolding encode_element encode_string
string_IsWritten value n e = record {
  chars = value;
  encodes = rw (eq→== (length value) n e);
  long = e;
}

bits_IsWritten :
    (bits : BitMap) → bits_value bits < 256 → IsWritten (hex_uint_bits_encoder bits 2) 3
unfolding encode_element encode_hex_uint_bits
bits_IsWritten bits h = record {
  chars = b'h' ∷ digits 16 hex_char 2 (bits_value bits);
  encodes = rw (
    encode_hex_uint_lem (bits_value bits) 2 (omega arith),
    lt→ltb (bits_value bits) (16 ^ 2) (omega arith),
  );
  long = omega (arith, length-digits 16 hex_char 2 (bits_value bits));
}

single : {p : ElementEncoder} (n : ℕ) → IsWritten p n → IsBody (p ∷ []) (n + 1)
single n w = more n 0 w empty

small : (b : Bool) → (if b then 1 else 0) < 10
small true = omega arith
small false = omega arith

bits_value-le :
    (bit : ℕ) (flag : Bool) (bits : BitMap)
    → bits_value ((bit, flag) ∷ bits) ≤ 2 ^ bit + bits_value bits
unfolding bits_value
bits_value-le bit true bits = ground arith
bits_value-le bit false bits = ground arith

no_bits : bits_value [] ≡ 0
unfolding bits_value
no_bits = refl

-- The elements are encoded without an error, and the body has the size that the header announces.
abbrev pub Announced : DataEncoder → Type 0
Announced e =
    ((encode_elements e.elements).0 ≡ success)
    × (length (encode_elements e.elements).1 + 11 ≡ atoi e.packet_size)

announced :
    (e : DataEncoder) (n : ℕ) → IsBody e.elements n → n + 11 ≡ atoi e.packet_size → Announced e
announced e n b s = let (ok, l) = encode_elements-IsBody n b in (ok, omega (arith, l, s))

IsCommand-Announced : {e : DataEncoder} → IsCommand e → Announced e
unfolding time_data_encoder start_data_encoder stop_data_encoder heart_data_encoder
    pump_data_encoder pbmsw_data_encoder ledc_data_encoder g_res_data_encoder solsw_data_encoder
    pdcmd_data_encoder mute_data_encoder getv_data_encoder undck_data_encoder usb_12vu_data_encoder
    d5vd3_data_encoder d5vd4_data_encoder d5vd5_data_encoder rpros_data_encoder rproe_data_encoder
    register_bits register_bit atoi
IsCommand-Announced (time t h) =
    announced (time_data_encoder t) 15 (single 14 (string_IsWritten t 14 h)) refl
IsCommand-Announced (start a b) =
    announced (start_data_encoder a b) 4
      (single 3 (
        bits_IsWritten _
          (omega (arith, bits_value-le 0 a ((1, b) ∷ []), bits_value-le 1 b [], no_bits))))
      refl
IsCommand-Announced stop = announced stop_data_encoder 0 empty refl
IsCommand-Announced (heart e c h k) =
    announced (heart_data_encoder e c) 16
      (more 5 10 (hex_uint_IsWritten e 4 (omega arith) (omega arith))
        (single 9 (hex_uint_IsWritten c 8 k (omega arith))))
      refl
IsCommand-Announced (pump v h) =
    announced (pump_data_encoder v) 2 (single 1 (uint_IsWritten v 1 (omega arith) (omega arith)))
      refl
IsCommand-Announced (pbmsw v h) =
    announced (pbmsw_data_encoder v) 2 (single 1 (uint_IsWritten v 1 (omega arith) (omega arith)))
      refl
IsCommand-Announced (ledc r g b h k l) =
    announced (ledc_data_encoder r g b) 12
      (more 3 8 (uint_IsWritten r 3 (omega arith) (omega arith)) (
        more 3 4 (uint_IsWritten g 3 (omega arith) (omega arith))
          (single 3 (uint_IsWritten b 3 (omega arith) (omega arith)))))
      refl
IsCommand-Announced (g_res a b) =
    announced (g_res_data_encoder a b) 4
      (single 3 (
        bits_IsWritten _
          (omega (arith, bits_value-le 1 b ((0, a) ∷ []), bits_value-le 0 a [], no_bits))))
      refl
IsCommand-Announced (solsw v h) =
    announced (solsw_data_encoder v) 4
      (single 3 (hex_uint_IsWritten v 2 (omega arith) (omega arith))) refl
IsCommand-Announced (pdcmd a b c) =
    announced (pdcmd_data_encoder a b c) 4
      (single 3 (
        bits_IsWritten _ (
          omega (
            arith,
            bits_value-le 2 c ((1, b) ∷ (0, a) ∷ []),
            bits_value-le 1 b ((0, a) ∷ []),
            bits_value-le 0 a [],
            no_bits,
          ))))
      refl
IsCommand-Announced (mute a) =
    announced (mute_data_encoder a) 4
      (single 3 (bits_IsWritten _ (omega (arith, bits_value-le 0 a [], no_bits)))) refl
IsCommand-Announced getv =
    announced getv_data_encoder 4 (single 3 (hex_uint_IsWritten 0 2 (omega arith) (omega arith)))
      refl
IsCommand-Announced undck = announced undck_data_encoder 0 empty refl
IsCommand-Announced (usb_12vu a) =
    announced (usb_12vu_data_encoder a) 2
      (single 1 (uint_IsWritten _ 1 (omega (arith, small a)) (omega (arith, small a)))) refl
IsCommand-Announced (d5vd3 a) =
    announced (d5vd3_data_encoder a) 2
      (single 1 (uint_IsWritten _ 1 (omega (arith, small a)) (omega (arith, small a)))) refl
IsCommand-Announced (d5vd4 a) =
    announced (d5vd4_data_encoder a) 2
      (single 1 (uint_IsWritten _ 1 (omega (arith, small a)) (omega (arith, small a)))) refl
IsCommand-Announced (d5vd5 a) =
    announced (d5vd5_data_encoder a) 2
      (single 1 (uint_IsWritten _ 1 (omega (arith, small a)) (omega (arith, small a)))) refl
IsCommand-Announced (rpros r v h k) =
    announced (rpros_data_encoder r v) 44
      (more 1 42 (uint_IsWritten r 1 (omega arith) (omega arith))
        (single 41 (string_IsWritten v 41 k)))
      refl
IsCommand-Announced rproe = announced rproe_data_encoder 0 empty refl

digit_above : (v : ℕ) → 9 < v → v < 256 → encode_element (uint_encoder v 1) ≡ none
unfolding encode_element
digit_above v h k = rw (encode_uint_lem v 1 (omega arith), le→ltb v (10 ^ 1) (omega arith)) refl

digit_refused :
    (v : ℕ) (ps : List ElementEncoder)
    → 9 < v
    → v < 256
    → encode_elements (uint_encoder v 1 ∷ ps) ≡ (protocol_error, [])
unfolding encode_elements
digit_refused v ps h k = rw (digit_above v h k, encode_elements) refl

IsTooLarge-refused :
    {e : DataEncoder} → IsTooLarge e → encode_elements e.elements ≡ (protocol_error, [])
unfolding pump_data_encoder pbmsw_data_encoder rpros_data_encoder
IsTooLarge-refused (pump_above v h k) = digit_refused v [] h k
IsTooLarge-refused (pbmsw_above v h k) = digit_refused v [] h k
IsTooLarge-refused (rpros_above r v h k) = digit_refused r (string_encoder v 41 ∷ []) h k

-- The data encoders, and whether their packet data fit.
pub data IsEncoder : DataEncoder → Bool → Type 0 where
  fitting : {e : DataEncoder} → IsCommand e → IsEncoder e true
  too_large : {e : DataEncoder} → IsTooLarge e → IsEncoder e false

abbrev pub Encoded : Bool → DataEncoder → Type 0
Encoded true e = Announced e
Encoded false e = encode_elements e.elements ≡ (protocol_error, [])

-- For the commands but `rprod`, whose Encode is its own: if the packet data fit their elements (each switch of `pump_` and
-- `pbmsw`, and the reserve of `rpros`, is one digit; the time and the version have their 14 and 41 characters), the
-- elements are encoded without an error, and the body that they make, with the eleven characters of the footer, has the
-- size that the header of the packet type announces. If such a digit is a byte above nine, the result is
-- `protocol_error`, with an empty body.
pub length-IsCommand : {e : DataEncoder} {fits : Bool} → IsEncoder e fits → Encoded fits e
length-IsCommand (fitting c) = IsCommand-Announced c
length-IsCommand (too_large t) = IsTooLarge-refused t
