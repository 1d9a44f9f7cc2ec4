-- ===== src/Imu/Node/Driven.antt =====
-- A reset that the node has begun is driven to its end.
use hsrb_drivers.Prelude.{
  ◌∙◌, if◌then◌else◌, ℕ, ◌≡◌, ◌≢◌, refl, Bool, true, false, Option, none, some, Option-cases, inl,
  inr,
}
use hsrb_drivers.Imu.Protocol.{ImuNetwork, Tried, ProtocolStatus, status_waiting, read_state}
use hsrb_drivers.Imu.Protocol.Reset.{
  Outcome, stuck, not_sent, sent, resting, rested, listening, given_up, replied, try_reset-Outcome,
  status-read_state,
}
use hsrb_drivers.Imu.Node.{Mpu9150Node, reset_imu_callback, write, read, after_try, after_read}

module _ (network : ImuNetwork) where
  -- While a reset is under way, it is requested.
  abbrev pub IsDriven : Mpu9150Node network → Type 0
  IsDriven n = n.protocol.status ≢ status_waiting → n.reset_imu ≡ true

  -- A call that does not come back, or leaves the node so.
  pub data Drives : Option (Mpu9150Node network) → Type 0 where
    hangs : Drives none
    drives : (n : Mpu9150Node network) → IsDriven n → Drives (some n)

  Drives-if :
      (b : Bool) (x y : Option (Mpu9150Node network))
      → Drives x
      → Drives y
      → Drives (if b then x else y)
  Drives-if true x y p q = p
  Drives-if false x y p q = q

  tried :
      {status : ProtocolStatus} (n : Mpu9150Node network) (r : Tried network)
      → Outcome network status r
      → Drives (after_try network n r)
  tried n r (stuck st) = hangs
  tried n r (not_sent c s b w) = drives _ (λ h. absurd (h w))
  tried n r (sent s w) = drives _ (λ h. refl)
  tried n r (resting s w) = drives _ (λ h. refl)
  tried n r (rested s w) = drives _ (λ h. refl)
  tried n r (listening s w) = drives _ (λ h. refl)
  tried n r (given_up s w) = drives _ (λ h. absurd (h w))
  tried n r (replied s before w came y) = drives _ (λ h. absurd (h w))

  -- If no reset is under way without a request, then, when the calls of the network come back, `Write` leaves it
  -- so: a request is dropped only with the status back at waiting.
  pub write-Drives :
      (locked : Bool) (now now' : ℕ) (n : Mpu9150Node network)
      → IsDriven n
      → Drives (write network locked now now' n)
  unfolding write
  write-Drives locked now now' n d = Drives-if n.disable_imu _ _ (drives n d) (
      Drives-if locked _ _ (drives n d) (
        Drives-if n.reset_imu _ _ (tried n _ (try_reset-Outcome network now now' n.protocol))
          (drives n d)))

  pub reset_imu_callback-IsDriven :
      (n : Mpu9150Node network) → IsDriven (reset_imu_callback network n)
  unfolding reset_imu_callback
  reset_imu_callback-IsDriven n h = refl

  -- `Read` does not touch the request, and leaves a reset where it is.
  pub read-Drives : (n : Mpu9150Node network) → IsDriven n → Drives (read network n)
  unfolding read
  read-Drives n d =
      Drives-if n.disable_imu _ _ (drives n d)
        (elim (Option-cases (read_state network n.protocol)) [
          | inl out ↦ rw (out, after_read) hangs
          | inr ((code, reading, s), r) ↦
              rw (r, after_read)
                (drives _
                  (λ h. d (λ w. h (status-read_state network n.protocol code reading s r ∙ w))))
        ])
