-- ===== src/Servo/Reprograming/Xmodem.antt =====
-- `SendFlushBlockData` and `FlushXmodem` of exxx_reprograming.cpp: the sender of XMODEM with sums.
use hsrb_drivers.Prelude.{
  ℕ, zero, suc, ◌+◌, ◌-◌, ◌%◌, ◌^◌, Bool, true, false, ◌&&◌, ◌||◌, Option, none, some, List, [],
  ◌∷◌, ◌++◌, ltb, leb, ◌==◌, if◌then◌else◌, length, take, drop, codes, pure, never, ◌>>=◌,
}
use hsrb_drivers.Posix.{ErrorCode, timed_out}
use hsrb_drivers.Servo.Reprograming.{ISystem, Call, wait_nano_sec}
use hsrb_drivers.Servo.Reprograming.Transport.{is_success, send_data, receive_byte}
use hsrb_drivers.Servo.Reprograming.Lines.{send_command}

abbrev pub flush_xmodem_max_retry_count : ℕ
flush_xmodem_max_retry_count = 100

abbrev pub flush_interval_time : ℕ
flush_interval_time = 10000000

abbrev pub xmodem_soh : ℕ
xmodem_soh = 0x01

abbrev pub xmodem_eot : ℕ
xmodem_eot = 0x04

abbrev pub xmodem_ack : ℕ
xmodem_ack = 0x06

abbrev pub xmodem_nak : ℕ
xmodem_nak = 0x15

abbrev pub xmodem_can : ℕ
xmodem_can = 0x18

abbrev pub xmodem_eof : ℕ
xmodem_eof = 0xFF

abbrev pub xmodem_data_size : ℕ
xmodem_data_size = 128

abbrev pub flush_finish_message : List ℕ
flush_finish_message = codes "SUCCESS"

abbrev pub replicate {ℓ} : {A : Type ℓ} → ℕ → A → List A
replicate zero x = []
replicate (suc n) x = x ∷ replicate n x

abbrev pub sum : List ℕ → ℕ
sum [] = 0
sum (x ∷ xs) = x + sum xs

-- The data part of a block: up to 128 bytes of the firmware, filled up.
abbrev pub data_part : List ℕ → ℕ → List ℕ
data_part flush_data send_pos =
    let remaining = length flush_data - send_pos in
    let data_size = if ltb remaining xmodem_data_size then remaining else xmodem_data_size in
    take data_size (drop send_pos flush_data) ++ replicate (xmodem_data_size - data_size) xmodem_eof

-- `send_buffer` of `SendFlushBlockData`.
abbrev pub block_of : List ℕ → ℕ → ℕ → List ℕ
block_of flush_data send_pos block_number =
    let payload = data_part flush_data send_pos in
    (xmodem_soh ∷ block_number ∷ (255 - block_number) ∷ payload) ++ (sum payload % 256 ∷ [])

-- The variables of the loop of `FlushXmodem` at the end of a round.
pub record Round : Type 0 where
  pub error : ErrorCode
  pub retry_count : ℕ
  pub send_pos : ℕ
  pub block_number : ℕ
  pub is_flush_xmodem : Bool

abbrev pub is_nak : ErrorCode → Option ℕ → Bool
is_nak error none = false
is_nak error (some b) = is_success error && b == xmodem_nak

-- The end of a round that sends or receives nothing more.
abbrev pub counted : ErrorCode → ℕ → ℕ → ℕ → Round
counted error retry_count send_pos block_number = record {
  error = error;
  retry_count = retry_count;
  send_pos = send_pos;
  block_number = block_number;
  is_flush_xmodem = true;
}

module _ (sys : ISystem) (fuel : ℕ) (flush_data : List ℕ) where
  abbrev pub send_flush_block_data : ℕ → ℕ → Call sys fuel ErrorCode
  send_flush_block_data send_pos block_number =
      send_data sys fuel (block_of flush_data send_pos block_number)

  -- A round of the wait for the request.
  abbrev pub on_request :
      ℕ → (ℕ → Call sys fuel ErrorCode) → ErrorCode × Option ℕ → Call sys fuel ErrorCode
  on_request retry_count again (error, received) =
      if is_nak error received
      then pure error
      else (if is_success error || error == timed_out
          then (if leb flush_xmodem_max_retry_count (retry_count + 1)
              then pure timed_out
              else again (retry_count + 1))
          else pure error)

  -- The loop that waits for the request; it ends in the hundredth round at the latest.
  unfoldable pub request_loop : ℕ → ℕ → Call sys fuel ErrorCode
  request_loop zero retry_count = never
  request_loop (suc n) retry_count = do
    received ← receive_byte sys fuel
    on_request retry_count (request_loop n) received

  -- An acknowledged block: the next one is sent, or the end of the transfer. The progress that is printed divides
  -- by the size of the firmware, so an empty one ends the process.
  abbrev pub on_ack : ℕ → ℕ → Call sys fuel Round
  on_ack send_pos block_number =
      if length flush_data == 0
      then never
      else (if leb (length flush_data) send_pos
          then (do
            error ← send_command sys fuel xmodem_eot flush_finish_message
            pure (record (counted error 0 send_pos block_number) { is_flush_xmodem = false }))
          else (do
            error ← send_flush_block_data send_pos block_number
            pure (record (counted error 0 send_pos block_number) {
              is_flush_xmodem = is_success error;
            })))

  -- The block is sent again, unless that was the last attempt.
  abbrev pub on_nak : ErrorCode → ℕ → ℕ → ℕ → Call sys fuel Round
  on_nak error retry_count send_pos block_number =
      if ltb retry_count flush_xmodem_max_retry_count
      then (do
        error' ← send_flush_block_data send_pos block_number
        pure (record (counted error' retry_count send_pos block_number) {
          is_flush_xmodem = is_success error';
        }))
      else pure (counted error retry_count send_pos block_number)

  -- The `switch` over the byte that was received.
  abbrev pub on_byte : ErrorCode → ℕ → ℕ → ℕ → ℕ → Call sys fuel Round
  on_byte error receive_data retry_count send_pos block_number =
      if receive_data == xmodem_ack
      then on_ack ((send_pos + xmodem_data_size) % 2 ^ 32) ((block_number + 1) % 256)
      else (if receive_data == xmodem_nak
          then on_nak error (retry_count + 1) send_pos block_number
          else (if receive_data == xmodem_can
              then (pure (record (counted timed_out retry_count send_pos block_number) {
                is_flush_xmodem = false;
              }))
              else pure (counted error (retry_count + 1) send_pos block_number)))

  -- The end of a round: the retries are used up, the transfer has ended, or there is another round.
  abbrev pub round_end : Round → (ℕ → ℕ → ℕ → Call sys fuel ErrorCode) → Call sys fuel ErrorCode
  round_end r again =
      if leb flush_xmodem_max_retry_count r.retry_count
      then pure timed_out
      else (if r.is_flush_xmodem
          then (do
            waited ← wait_nano_sec sys fuel flush_interval_time
            if is_success waited
                then again r.retry_count r.send_pos r.block_number
                else pure waited)
          else pure r.error)

  abbrev pub on_received :
      ℕ
      → ℕ
      → ℕ
      → (ℕ → ℕ → ℕ → Call sys fuel ErrorCode)
      → ErrorCode × Option ℕ
      → Call sys fuel ErrorCode
  on_received retry_count send_pos block_number again (error, some b) = do
    r ← on_byte error b retry_count send_pos block_number
    round_end r again
  on_received retry_count send_pos block_number again (error, none) =
      if error == timed_out
      then round_end (counted error (retry_count + 1) send_pos block_number) again
      else pure error

  -- The loop over the blocks.
  unfoldable pub block_loop : ℕ → ℕ → ℕ → ℕ → Call sys fuel ErrorCode
  block_loop zero retry_count send_pos block_number = never
  block_loop (suc n) retry_count send_pos block_number = do
    received ← receive_byte sys fuel
    on_received retry_count send_pos block_number (block_loop n) received

  -- The loop is entered when the first block is sent and the device has had time to answer.
  abbrev pub first_sent : ErrorCode → Call sys fuel ErrorCode
  first_sent sent =
      if is_success sent
      then (do
        waited ← wait_nano_sec sys fuel flush_interval_time
        if is_success waited then block_loop fuel 0 0 1 else pure waited)
      else pure sent

  abbrev pub after_request : ErrorCode → Call sys fuel ErrorCode
  after_request error =
      if is_success error
      then (do sent ← send_flush_block_data 0 1; first_sent sent)
      else pure error

  unfoldable pub flush_xmodem : Call sys fuel ErrorCode
  unfolding request_loop block_loop
  flush_xmodem = do requested ← request_loop flush_xmodem_max_retry_count 0; after_request requested
