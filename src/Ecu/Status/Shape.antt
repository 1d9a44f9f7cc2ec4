-- ===== src/Ecu/Status/Shape.antt =====
-- Every packet `ecu1_` that its decoder accepts has the values that `Update` reads.
use hsrb_drivers.Prelude.{ℤ, ℕ, ◌≡◌, Option, some, List, [], ◌∷◌, length}
use hsrb_drivers.Ecu.Element.Signed.{Limits}
use hsrb_drivers.Ecu.Frame.Decoder.{
  ElementDecoder, uint_decoder, hex_uint_decoder, int_decoder, string_decoder, Value, number,
  signed, text,
}
use hsrb_drivers.Ecu.Status.{power_ecu_state, Ecu1PacketData}

data Fits : List ElementDecoder → List Value → Type 0 where
  fits_none : Fits [] []
  fits_uint :
      {width size n : ℕ} {es : List ElementDecoder} {vs : List Value}
      → Fits es vs
      → Fits (uint_decoder width size ∷ es) (number n ∷ vs)
  fits_hex_uint :
      {width size n : ℕ} {es : List ElementDecoder} {vs : List Value}
      → Fits es vs
      → Fits (hex_uint_decoder width size ∷ es) (number n ∷ vs)
  fits_int :
      {limits : Limits} {size : ℕ} {n : ℤ} {es : List ElementDecoder} {vs : List Value}
      → Fits es vs
      → Fits (int_decoder limits size ∷ es) (signed n ∷ vs)
  fits_string :
      {size : ℕ} {chars : List ℕ} {es : List ElementDecoder} {vs : List Value}
      → length chars ≡ size
      → Fits es vs
      → Fits (string_decoder size ∷ es) (text chars ∷ vs)

-- What `Update` publishes of texts: the state is read from a text of 17 characters, and the others are as long as the
-- packet's description says, without the character in front of a number.
pub data IsPublished : Option Ecu1PacketData → Type 0 where
  published :
      (d : Ecu1PacketData) (status : List ℕ)
      → length status ≡ 17
      → length d.ecu1_date ≡ 14
      → length d.power_ecu_status_flag ≡ 2
      → length d.diag_status ≡ 64
      → length d.gyro_status ≡ 16
      → d.power_ecu ≡ power_ecu_state status
      → IsPublished (some d)
