-- ===== src/Ecu/Protocol/Ack.antt =====
-- A command of `PowerEcuProtocol` from its transmission to its acknowledgement.
use hsrb_drivers.Prelude.{
  ℕ, ◌+◌, ◌<◌, ◌≡◌, ◌≢◌, refl, ap, inl, inr, Bool, true, false, not, Option, none, some, List, [],
  ◌∷◌, ltb, if◌then◌else◌, length, arith, Bool-cases, lt→ltb, ltb→lt, ltb→le, ◌≤◌,
}
use hsrb_drivers.Ecu.Crc.{Crc32}
use hsrb_drivers.Ecu.ErrorCounter.{register}
use hsrb_drivers.Ecu.Element.{u32}
use hsrb_drivers.Ecu.Frame.{
  Code, success, protocol_error, result_out_of_range, invalid_argument, network_down,
  operation_canceled, timed_out, codes,
}
use hsrb_drivers.Ecu.Frame.Decoder.{DataDecoderMap}
use hsrb_drivers.Ecu.Frame.Decoder.Progress.{decode_all-ne-none}
use hsrb_drivers.Ecu.Frame.Encoder.{encode}
use hsrb_drivers.Ecu.Protocol.Queue.{send_command_made}
use hsrb_drivers.Ecu.Protocol.{
  INetwork, PowerEcuProtocol, State, encoder_map, send_command, send_all, confirm, receive_all,
  is_receive_ack, drop_receive_ack, command_timeout, heartbeat_duration, pop_command, counted,
  decoded, is_success, transmit, after_command, after_heartbeat, heartbeat, send_front,
}

-- In a call that returns, the awaited command has left the queue, and none is awaited.
pub data Leaves {Line : Type 0} (queue : List (List ℕ))
    : Option (Code × PowerEcuProtocol Line) → Type 0 where
  leaves :
      (code : Code) (s : PowerEcuProtocol Line)
      → s.is_waiting_ack ≡ false
      → s.command_queue ≡ queue
      → Leaves queue (some (code, s))

module _ (crc : Crc32) (network : INetwork) (command : List ℕ) (queue : List (List ℕ)) where
  -- With no command awaited, `SendAll` sends the front of the queue, if it can be encoded and the network takes
  -- it; the command stays at the front and is awaited, and the flag of an earlier acknowledgement is dropped.
  pub send_all-sends :
      (time : ℕ) (s : State crc network)
      → s.is_waiting_ack ≡ false
      → s.command_queue ≡ command ∷ queue
      → (encode crc (encoder_map crc network s) command).0 ≡ success
      → (network.send (encode crc (encoder_map crc network s) command).1 s.line).0 ≡ success
      → send_all crc network time s
        ≡ some (
          success,
          record s {
            line = (network.send (encode crc (encoder_map crc network s) command).1 s.line).1;
            decoder_map = drop_receive_ack s.decoder_map;
            is_waiting_ack = true;
            last_send_command_time = time;
            write_error_counter = register true s.write_error_counter;
          },
        )
  unfolding send_all send_command
  send_all-sends time s e q m n = rw (q, e, m, n) refl

  -- The frame of the next heartbeat.
  abbrev pub heartbeat_frame : State crc network → List ℕ
  heartbeat_frame s =
      (encode crc (encoder_map crc network (record s { counts = u32 (s.counts + 1) }))
        (codes "heart")).1

  -- The command is awaited at the front of the queue, since the time at which it was sent.
  abbrev IsAwaited : State crc network → State crc network → Type 0
  IsAwaited s s' =
      (s'.is_waiting_ack ≡ true)
      × (s'.command_queue ≡ command ∷ queue)
      × (s'.last_send_command_time ≡ s.last_send_command_time)

  -- What a call at the time `time` sends while the command is awaited: nothing before the heartbeat is due, and else the
  -- frame of the heartbeat, once.
  pub data Stays (time : ℕ) (s : State crc network)
      : Option (Code × State crc network) → Type 0 where
    nothing_due :
        (s' : State crc network)
        → time ≤ s.last_heartbeat_time + heartbeat_duration
        → s'.line ≡ s.line
        → IsAwaited s s'
        → Stays time s (some (success, s'))
    beaten :
        (s' : State crc network)
        → s.last_heartbeat_time + heartbeat_duration < time
        → network.send (heartbeat_frame s) s.line ≡ (success, s'.line)
        → IsAwaited s s'
        → Stays time s (some (success, s'))
    not_beaten :
        (s' : State crc network)
        → s.last_heartbeat_time + heartbeat_duration < time
        → (network.send (heartbeat_frame s) s.line).0 ≢ success
        → s'.line ≡ (network.send (heartbeat_frame s) s.line).1
        → IsAwaited s s'
        → Stays time s (some (network_down, s'))

  module _ (time : ℕ) (s : State crc network) (waiting : s.is_waiting_ack ≡ true)
      (front : s.command_queue ≡ command ∷ queue) where
    Stays-else :
        (b : Bool) (x y : Option (Code × State crc network))
        → b ≡ false
        → Stays time s y
        → Stays time s (if b then x else y)
    Stays-else b x y e h = rw e h

    success_of : (c : Code) → is_success c ≡ true → c ≡ success
    success_of success e = refl
    success_of protocol_error e = absurd (cc)
    success_of result_out_of_range e = absurd (cc)
    success_of invalid_argument e = absurd (cc)
    success_of network_down e = absurd (cc)
    success_of operation_canceled e = absurd (cc)
    success_of timed_out e = absurd (cc)

    transmit-Stays :
        s.last_heartbeat_time + heartbeat_duration < time
        → Stays time s (
            after_heartbeat crc network (
              some (
                transmit crc network
                  (heartbeat_frame s)
                  (record s { counts = u32 (s.counts + 1) }))))
    transmit-Stays due =
        elim (Bool-cases (is_success (network.send (heartbeat_frame s) s.line).0)) [
          | inl e ↦ rw e (
              beaten _ due
                (ap (λ c. (c, (network.send (heartbeat_frame s) s.line).1)) (success_of _ e))
                (waiting, front, refl))
          | inr e ↦
              rw e
                (not_beaten _ due (λ z. absurd (ground (arith, e, z))) refl (waiting, front, refl))
        ]

    heartbeat-Stays : Stays time s (heartbeat crc network time s)
    heartbeat-Stays = elim (Bool-cases (ltb (s.last_heartbeat_time + heartbeat_duration) time)) [
      | inl e ↦
          let s' = record s { counts = u32 (s.counts + 1) } in
          rw (e, send_command_made crc network (codes "heart") s' refl)
            (transmit-Stays (ltb→lt _ _ e))
      | inr e ↦ rw e (nothing_due _ (ltb→le _ _ e) refl (waiting, front, refl))
    ]

    send_front-Stays : (q : List (List ℕ)) → Stays time s (send_front crc network time q s)
    send_front-Stays [] = heartbeat-Stays
    send_front-Stays (c ∷ q) =
        Stays-else (not s.is_waiting_ack)
          (after_command crc network time (send_command crc network c s)) _ (ap not waiting)
          heartbeat-Stays

    -- While the command at the front of the queue is awaited, `SendAll` returns, the command stays at the front,
    -- awaited since the same time, and no command is sent: the line is untouched while the heartbeat is not due, and
    -- else it is what the transmission of the heartbeat's frame leaves, with `network_down` if that fails.
    pub send_all-Stays : Stays time s (send_all crc network time s)
    unfolding send_all
    send_all-Stays = send_front-Stays s.command_queue

    pop-Leaves :
        (result : Code) (s' : State crc network) (q : List (List ℕ))
        → q ≡ command ∷ queue
        → Leaves queue (pop_command crc network result s' q)
    pop-Leaves result s' q e = rw e (leaves result _ refl refl)

    confirm_late :
        (result : Code) (s' : State crc network)
        → s'.is_waiting_ack ≡ true
        → s'.command_queue ≡ command ∷ queue
        → s'.last_send_command_time + command_timeout < time
        → Leaves queue (confirm crc network time result s')
    confirm_late result s' w f late = elim (Bool-cases (is_receive_ack s'.decoder_map)) [
      | inl e ↦ rw (w, e) (pop-Leaves _ s' _ f)
      | inr e ↦ rw (w, e, lt→ltb _ _ late) (pop-Leaves timed_out s' _ f)
    ]

    counted-Leaves :
        (r : Option (Code × State crc network))
        → Leaves queue r
        → Leaves queue (counted crc network r)
    counted-Leaves r (leaves code s' w f) = leaves code _ w f

    decoded_late :
        (s' : State crc network) (buffer : List ℕ) (r : Option (Bool × ℕ × DataDecoderMap))
        → r ≢ none
        → s'.is_waiting_ack ≡ true
        → s'.command_queue ≡ command ∷ queue
        → s'.last_send_command_time + command_timeout < time
        → Leaves queue (decoded crc network time s' buffer r)
    decoded_late s' buffer none e w f late = absurd (e refl)
    decoded_late s' buffer (some (corrupted, encoded, map)) e w f late =
        counted-Leaves _ (confirm_late _ _ w f late)

    -- While the command at the front is awaited, a `ReceiveAll` whose reception succeeds later than ten seconds
    -- after the command was sent takes it from the queue, whatever is received.
    pub receive_all-Leaves :
        (network.receive s.receive_buffer s.line).0 ≡ success
        → s.last_send_command_time + command_timeout < time
        → Leaves queue (receive_all crc network time s)
    unfolding receive_all
    receive_all-Leaves ok late =
        let (_, buffer, line) = network.receive s.receive_buffer s.line in
        rw ok (
          decoded_late (record s { line = line; receive_buffer = buffer }) buffer _
            (decode_all-ne-none crc (length buffer + 1) s.decoder_map 0 buffer false (omega arith))
            waiting front late)
