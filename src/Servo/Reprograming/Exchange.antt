-- ===== src/Servo/Reprograming/Exchange.antt =====
-- What `FlushXmodem` of exxx_reprograming.cpp exchanges with the boot loader, as bytes on the line.
use hsrb_drivers.Prelude.{ℕ, ◌+◌, ◌*◌, ◌%◌, ◌≤◌, ◌<◌, ◌≡◌, ◌≢◌, List, ◌∷◌, length}
use hsrb_drivers.Posix.{Event, got, put}
use hsrb_drivers.Servo.Reprograming.Xmodem.{
  xmodem_ack, xmodem_nak, xmodem_eot, flush_finish_message, block_of, xmodem_data_size,
}
use hsrb_drivers.Servo.Reprograming.Commands.{Confirmed}

-- The frame of block `k`, counted from 0.
abbrev pub numbered : List ℕ → ℕ → List ℕ
numbered flush_data k = block_of flush_data (xmodem_data_size * k) ((k + 1) % 256)

-- A later log.
pub data Extends (base : List Event) : List Event → Type 0 where
  same : Extends base base
  later : (e : Event) {l : List Event} → Extends base l → Extends base (e ∷ l)

-- The blocks up to `k` have been sent, all before `k` are acknowledged, and `k` is not yet. Each request of the boot
-- loader, a `NAK`, is followed by the block that is waited for.
pub data Waiting (base : List Event) (flush_data : List ℕ) : ℕ → List Event → Type 0 where
  first :
      (log : List Event)
      → Extends base log
      → Waiting base flush_data 0 (put (numbered flush_data 0) (got xmodem_nak ∷ log))
  resent :
      {k : ℕ} {l : List Event}
      → Waiting base flush_data k l
      → Waiting base flush_data k (put (numbered flush_data k) (got xmodem_nak ∷ l))
  ignored :
      {k : ℕ} {l : List Event} (b : ℕ)
      → b ≢ xmodem_ack
      → b ≢ xmodem_nak
      → Waiting base flush_data k l
      → Waiting base flush_data k (got b ∷ l)
  next :
      {k : ℕ} {l : List Event} (k' : ℕ)
      → k' ≡ k + 1
      → xmodem_data_size * k' < length flush_data
      → Waiting base flush_data k l
      → Waiting base flush_data k' (put (numbered flush_data k') (got xmodem_ack ∷ l))

-- The last block has been acknowledged, and then the end of the transfer was confirmed.
pub data Transferred (base : List Event) (flush_data : List ℕ) (log : List Event) : Type 0 where
  transferred :
      (k : ℕ) (l : List Event)
      → Waiting base flush_data k l
      → xmodem_data_size * k < length flush_data
      → length flush_data ≤ xmodem_data_size * (k + 1)
      → Confirmed xmodem_eot flush_finish_message (got xmodem_ack ∷ l) log
      → Transferred base flush_data log
