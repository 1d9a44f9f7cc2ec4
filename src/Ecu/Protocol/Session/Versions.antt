-- ===== src/Ecu/Protocol/Session/Versions.antt =====
-- `GetPowerEcuVersions`: it returns, and does not try again after a send that failed.
use hsrb_drivers.Prelude.{
  ℕ, suc, ◌+◌, ◌<◌, ◌≡◌, ◌≢◌, refl, sym, ap, ◌∙◌, ◌⊎◌, inl, inr, Bool, true, false, Option, none,
  some, List, [], ◌∷◌, arith, Bool-cases,
}
use hsrb_drivers.Ecu.Crc.{Crc32}
use hsrb_drivers.Ecu.Frame.{Code, success, network_down, codes}
use hsrb_drivers.Ecu.Frame.Decoder.{DataDecoderMap}
use hsrb_drivers.Ecu.Frame.Encoder.{encode}
use hsrb_drivers.Ecu.Protocol.{
  INetwork, State, is_success, command_timeout, encoder_map, drop_receive_ack, transmit,
  send_command,
}
use hsrb_drivers.Ecu.Protocol.Queue.{
  IsWellFormed, IsFine, fine, knows, send_command_made, receive_all-IsWellFormed,
}
use hsrb_drivers.Ecu.Protocol.Session.{
  drop_receive_version, getv_sent, send_getv, receive_versions, after_getv, get_power_ecu_versions,
}

-- Some round ends later than `limit`.
abbrev pub Passes : ℕ → List (ℕ × ℕ) → Type 0
Passes limit [] = ⊥
Passes limit ((_, now) ∷ rounds) = (limit < now) ⊎ Passes limit rounds

module _ (crc : Crc32) (network : INetwork) where
  fine-some :
      (r : Option (Code × State crc network))
      → IsFine r
      → (code : Code) × (s : State crc network) × (r ≡ some (code, s)) × IsWellFormed s
  fine-some r (fine code s w) = (code, s, refl, w)

  receive_versions-ne-none :
      (start : ℕ) (s : State crc network) (rounds : List (ℕ × ℕ))
      → IsWellFormed s
      → Passes (start + command_timeout) rounds
      → receive_versions crc network start s rounds ≢ none
  unfolding receive_versions
  receive_versions-ne-none start s [] w p e = p
  receive_versions-ne-none start s ((time, now) ∷ rounds) w p e =
      let (code, s', r, w') = fine-some _ (receive_all-IsWellFormed crc network time s w) in
      ground (arith, r, p, receive_versions-ne-none start s' rounds w')

  -- What the send leaves.
  record IsSent (r : Option (Bool × State crc network)) : Type 0 where
    sent : Bool
    after : State crc network
    returns : r ≡ some (sent, after)
    keeps : IsWellFormed after

  send_getv-suc :
      (fuel : ℕ) (s : State crc network)
      → send_getv crc network (suc fuel) 0 s
        ≡ getv_sent crc network
            (send_command crc network (codes "getv_") s)
            true
            (send_getv crc network fuel 1)
  unfolding send_getv
  send_getv-suc fuel s = refl

  transmit_lost :
      (send_buffer : List ℕ) (s : State crc network)
      → is_success (network.send send_buffer s.line).0 ≡ false
      → transmit crc network send_buffer s
        ≡ (network_down, record s { line = (network.send send_buffer s.line).1 })
  transmit_lost send_buffer s e = rw e refl

  transmit_taken :
      (send_buffer : List ℕ) (s : State crc network)
      → is_success (network.send send_buffer s.line).0 ≡ true
      → transmit crc network send_buffer s ≡ (
        success,
        record s {
          line = (network.send send_buffer s.line).1;
          decoder_map = drop_receive_ack s.decoder_map;
        },
      )
  transmit_taken send_buffer s e = rw e refl

  send_getv-IsSent :
      (s : State crc network)
      → knows s.encoders (codes "getv_") ≡ true
      → IsWellFormed s
      → IsSent (send_getv crc network 1 0 s)
  send_getv-IsSent s k w =
      let send_buffer = (encode crc (encoder_map crc network s) (codes "getv_")).1 in
      let once =
        send_getv-suc 0 s
        ∙ ap (λ r. getv_sent crc network r true (send_getv crc network 0 1))
            (send_command_made crc network (codes "getv_") s k) in
      let kept : (line : network.Line) (map : DataDecoderMap)
          → IsWellFormed (record s { line = line; decoder_map = map }) =
        λ line map. record {
          awaited = w.awaited;
          known = w.known;
          reads = w.reads;
          writes = w.writes;
        } in
      elim (Bool-cases (is_success (network.send send_buffer s.line).0)) [
        | inl e ↦ record {
          sent = true;
          after = _;
          returns =
              once
              ∙ ap (λ r. getv_sent crc network (some r) true (send_getv crc network 0 1))
                  (transmit_taken send_buffer s e);
          keeps = kept _ _;
        }
        | inr e ↦ record {
          sent = false;
          after = _;
          returns =
              once
              ∙ ap (λ r. getv_sent crc network (some r) true (send_getv crc network 0 1))
                  (transmit_lost send_buffer s e);
          keeps = kept _ _;
        }
      ]

  after_getv-ne-none :
      (start : ℕ) (rounds : List (ℕ × ℕ)) (sent : Bool) (s : State crc network)
      → IsWellFormed s
      → Passes (start + command_timeout) rounds
      → after_getv crc network start rounds (some (sent, s)) ≢ none
  after_getv-ne-none start rounds false s w p e = cc
  after_getv-ne-none start rounds true s w p e = receive_versions-ne-none start s rounds w p e

  -- From a well-formed state with an encoder of the command, and whatever the network does, `GetPowerEcuVersions`
  -- returns if the clock of some round is later than ten seconds after the start.
  pub get_power_ecu_versions-ne-none :
      (start : ℕ) (s : State crc network) (rounds : List (ℕ × ℕ))
      → IsWellFormed s
      → knows s.encoders (codes "getv_") ≡ true
      → Passes (start + command_timeout) rounds
      → get_power_ecu_versions crc network start s rounds ≢ none
  unfolding get_power_ecu_versions
  get_power_ecu_versions-ne-none start s rounds w k p e =
      let begun = record s { decoder_map = drop_receive_version s.decoder_map } in
      let r =
        send_getv-IsSent begun k
          (record { awaited = w.awaited; known = w.known; reads = w.reads; writes = w.writes }) in
      after_getv-ne-none start rounds r.sent r.after r.keeps p (rw r.returns at e)

  getv_lost :
      (fuel : ℕ) (s : State crc network)
      → (encode crc (encoder_map crc network s) (codes "getv_")).0 ≡ success
      → is_success
          (network.send (encode crc (encoder_map crc network s) (codes "getv_")).1 s.line).0
        ≡ false
      → send_getv crc network (suc fuel) 0 s
        ≡ some (
          false,
          record s {
            line =
                (network.send (encode crc (encoder_map crc network s) (codes "getv_")).1 s.line).1;
          },
        )
  getv_lost fuel s made lost =
      let send_buffer = (encode crc (encoder_map crc network s) (codes "getv_")).1 in
      let sent : send_command crc network (codes "getv_") s
          ≡ some (transmit crc network send_buffer s) =
        unfold send_command in rw made refl in
      send_getv-suc fuel s
      ∙ ap (λ r. getv_sent crc network r true (send_getv crc network fuel 1)) sent
      ∙ ap (λ r. getv_sent crc network (some r) true (send_getv crc network fuel 1))
          (transmit_lost send_buffer s lost)

  -- If the first send fails, `GetPowerEcuVersions` gives up without another one, although its counter of retries
  -- stands at one of ten; with any fuel from 1 on its loop makes this one call.
  pub get_power_ecu_versions_gives_up :
      (start fuel : ℕ) (s : State crc network) (rounds : List (ℕ × ℕ))
      → (encode crc (encoder_map crc network s) (codes "getv_")).0 ≡ success
      → is_success
          (network.send (encode crc (encoder_map crc network s) (codes "getv_")).1 s.line).0
        ≡ false
      → (get_power_ecu_versions crc network start s rounds
          ≡ some (
            none,
            record s {
              line =
                  (network.send
                    (encode crc (encoder_map crc network s) (codes "getv_")).1
                    s.line).1;
              decoder_map = drop_receive_version s.decoder_map;
            },
          ))
        × (send_getv crc network (suc fuel) 0 s ≡ send_getv crc network 1 0 s)
  unfolding get_power_ecu_versions
  get_power_ecu_versions_gives_up start fuel s rounds made lost =
      let begun = record s { decoder_map = drop_receive_version s.decoder_map } in
      (
        ap (after_getv crc network start rounds) (getv_lost 0 begun made lost),
        getv_lost fuel s made lost ∙ sym (getv_lost 0 s made lost),
      )
