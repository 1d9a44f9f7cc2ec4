-- ===== src/Ecu/Protocol/Wire.antt =====
-- `PowerEcuProtocol` over `SerialNetwork`: `SendCommand` of power_ecu_protocol.cpp on the line of serial_network.cpp.
use hsrb_drivers.Prelude.{
  ℕ, zero, suc, ◌<◌, ◌≡◌, refl, sym, true, if◌then◌else◌, Option, none, some, List, take, Returns,
  returns,
}
use mathlib.Core.Path.{subst}
use hsrb_drivers.Posix.{ErrorCode, put}
use hsrb_drivers.Ecu.Crc.{Crc32}
use hsrb_drivers.Ecu.Frame.{Code, success, network_down, timed_out}
use hsrb_drivers.Ecu.Frame.Encoder.{encode}
use hsrb_drivers.Ecu.Serial.{ISystemInterface, SerialNetwork, PacketBuffer, send, receive}
use hsrb_drivers.Ecu.Serial.Sending.{IsMonotonic, Sent, sent, failed, too_long, send-Sent}
use hsrb_drivers.Ecu.Protocol.{
  INetwork, State, encoder_map, send_command, drop_receive_ack, is_success,
}
use hsrb_drivers.Ecu.Protocol.Queue.{knows, send_command_made}

-- The protocol asks only whether a call of the network was a success.
abbrev code_of : ErrorCode → Code
code_of zero = success
code_of (suc e) = network_down

-- The calls come back if `fuel` is more than their times, and then the first clause is not used.
abbrev sent_on :
    {System : Type 0}
    → SerialNetwork System
    → Option (ErrorCode × SerialNetwork System)
    → Code × SerialNetwork System
sent_on s none = (timed_out, s)
sent_on s (some (e, s')) = (code_of e, s')

abbrev received_on :
    {System : Type 0}
    → List ℕ
    → SerialNetwork System
    → Option ((ErrorCode × PacketBuffer) × SerialNetwork System)
    → Code × List ℕ × SerialNetwork System
received_on buffer s none = (timed_out, buffer, s)
received_on buffer s (some ((e, b), s')) = (code_of e, b.content, s')

-- `SerialNetwork` as the network of the protocol, whose receive buffer has room for `capacity` bytes.
abbrev pub serial_network : ISystemInterface → ℕ → ℕ → INetwork
serial_network sys fuel capacity = record {
  Line = SerialNetwork sys.System;
  send = λ data_bytes s. sent_on s (send sys fuel data_bytes s);
  receive = λ buffer s.
      received_on buffer s (receive sys fuel (record { capacity = capacity; content = buffer }) s);
}

module _ (sys : ISystemInterface) (fuel capacity : ℕ) (crc : Crc32) where
  abbrev pub Protocol : Type 0
  Protocol = State crc (serial_network sys fuel capacity)

  -- What a call that sends a frame leaves: with success, all of the frame is on the line, and the last acknowledgement
  -- is forgotten; else a front of it is.
  pub data Transmitted (frame : List ℕ) (s : Protocol) : Option (Code × Protocol) → Type 0 where
    transmitted :
        (line : SerialNetwork sys.System)
        → line.log ≡ put frame s.line.log
        → Transmitted frame s
            (some (success, record s { line = line; decoder_map = drop_receive_ack s.decoder_map }))
    cut_off :
        (n : ℕ) (line : SerialNetwork sys.System)
        → line.log ≡ put (take n frame) s.line.log
        → Transmitted frame s (some (network_down, record s { line = line }))

  abbrev finished : Protocol → Code × SerialNetwork sys.System → Code × Protocol
  finished s (code, line) =
      if is_success code
      then (success, record s { line = line; decoder_map = drop_receive_ack s.decoder_map })
      else (network_down, record s { line = line })

  Sent-Transmitted :
      (frame : List ℕ) (s : Protocol) (r : Option (ErrorCode × SerialNetwork sys.System))
      → Returns (Sent frame s.line) r
      → Transmitted frame s (some (finished s (sent_on s.line r)))
  Sent-Transmitted frame s _ (returns _ _ (sent line _ l)) = transmitted line l
  Sent-Transmitted frame s _ (returns _ _ (failed zero n line _ f l)) = absurd (f refl)
  Sent-Transmitted frame s _ (returns _ _ (failed (suc e) n line _ f l)) = cut_off n line l
  Sent-Transmitted frame s _ (returns _ _ (too_long h)) = cut_off 0 s.line refl

  -- For a command that has an encoder, and rounds that are more than the times of the line, `SendCommand` over
  -- `SerialNetwork` comes back. If it reports success, the line has taken all of the command's frame, in order, and
  -- the last acknowledgement is forgotten; else it reports `network_down`, and the line has taken a front of the
  -- frame. The rest of the protocol is as before.
  pub send_command-Transmitted :
      (command : List ℕ) (s : Protocol)
      → IsMonotonic sys
      → s.line.timeout_ns < fuel
      → s.line.sleep_tick < fuel
      → knows s.encoders command ≡ true
      → Transmitted
          (encode crc (encoder_map crc (serial_network sys fuel capacity) s) command).1
          s
          (send_command crc (serial_network sys fuel capacity) command s)
  send_command-Transmitted command s m h k e =
      let frame : List ℕ =
        (encode crc (encoder_map crc (serial_network sys fuel capacity) s) command).1 in
      subst (Transmitted frame s)
        (sym (send_command_made crc (serial_network sys fuel capacity) command s e))
        (Sent-Transmitted frame s (send sys fuel frame s.line)
          (send-Sent sys fuel m frame s.line h k))
