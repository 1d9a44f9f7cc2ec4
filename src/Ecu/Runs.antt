-- ===== src/Ecu/Runs.antt =====
-- Runs of the power ECU's packets and of the calls that wait for it.
use hsrb_drivers.Prelude.{
  ℕ, ◌-◌, ◌^◌, ◌≡◌, ◌≢◌, refl, true, false, none, some, List, [], ◌∷◌, ◌++◌, arith, inl,
}
use hsrb_drivers.Ecu.ErrorCounter.{register}
use hsrb_drivers.Ecu.Element.Signed.{Limits}
use hsrb_drivers.Ecu.Frame.{success, network_down, operation_canceled, codes}
use hsrb_drivers.Ecu.Frame.Decoder.{put_decoder, find_decoder}
use hsrb_drivers.Ecu.Frame.Encoder.{encode, find_encoder}
use hsrb_drivers.Ecu.Frame.RoundTrip.{ecu_frame}
use hsrb_drivers.Ecu.Commands.{getv_data_encoder, stop_data_encoder, heart_data_encoder}
use hsrb_drivers.Ecu.Status.{power_ecu_state}
use hsrb_drivers.Ecu.Status.Word.{word_text, power_ecu_state-word_text}
use hsrb_drivers.Ecu.Protocol.{INetwork, State, send_command, send_all, receive_all, encoder_map}
use hsrb_drivers.Ecu.Protocol.Queue.{IsWellFormed, IsFine}
use hsrb_drivers.Ecu.Protocol.Reply.{rxack_holding, ack_body, receive_all-ecu_frame}
use hsrb_drivers.Ecu.Protocol.Reply
use hsrb_drivers.Ecu.Protocol.Session.{
  retry_rate, process_rounds, process_command_queue, send_getv, get_power_ecu_versions,
  drop_receive_version,
}
use hsrb_drivers.Ecu.Protocol.Session.Resolve.{process_command_queue-IsWellFormed}
use hsrb_drivers.Ecu.Protocol.Session.Versions.{
  get_power_ecu_versions-ne-none, get_power_ecu_versions_gives_up,
}
use hsrb_drivers.Ecu.Samples.{
  sum_crc, decoders, line, opened, waiting, counter, opened-IsWellFormed,
}
use hsrb_drivers.Ecu.Diagnostics.{hex_digit, parse_diag_status, print_errors, print_diag_status}
use hsrb_drivers.Ecu.Diagnostics.Bits.{set_bits, hex_value, parse_diag_status-set_bits}

abbrev int16 : Limits
int16 = record { largest = 2 ^ 15 - 1; lowest = 2 ^ 15 }

-- A line that answers with an acknowledgement, behind two bytes of noise.
abbrev answering : ℕ → INetwork
answering v = record {
  Line = List (List ℕ);
  send = λ bytes taken. (success, bytes ∷ taken);
  receive = λ buffer taken.
      (success, codes "zz" ++ (ecu_frame sum_crc Reply.rxack (ack_body v) ++ []), taken);
}

receive_all-ecu_frame_example :
    receive_all sum_crc (answering 7) 3 waiting
    ≡ some (
      operation_canceled,
      record waiting {
        receive_buffer = [];
        decoder_map = put_decoder (rxack_holding 7 true) decoders;
        command_queue = [];
        is_waiting_ack = false;
        read_error_counter = register false counter;
      },
    )
receive_all-ecu_frame_example =
    receive_all-ecu_frame sum_crc (answering 7) (codes "stop_") [] 3 7 0 false (codes "zz") []
      waiting refl refl (unfold find_decoder in refl) (omega arith) refl refl

process_command_queue-IsWellFormed_example : IsFine (
    process_command_queue sum_crc line false 0 true retry_rate opened
      ((true, 1, 2, 6000000000) ∷ []))
process_command_queue-IsWellFormed_example =
    process_command_queue-IsWellFormed sum_crc line false 0 true retry_rate opened
      ((true, 1, 2, 6000000000) ∷ []) opened-IsWellFormed (inl (omega arith))

abbrev known : State sum_crc line
known = record opened { encoders = getv_data_encoder ∷ []; command_queue = [] }

known-IsWellFormed : IsWellFormed known
known-IsWellFormed = record {
  awaited = λ e. absurd (cc);
  known = tt;
  reads = opened-IsWellFormed.reads;
  writes = opened-IsWellFormed.writes;
}

get_power_ecu_versions-ne-none_example :
    get_power_ecu_versions sum_crc line 0 known ((1, 11000000000) ∷ []) ≢ none
unfolding find_encoder getv_data_encoder
get_power_ecu_versions-ne-none_example =
    get_power_ecu_versions-ne-none sum_crc line 0 known ((1, 11000000000) ∷ []) known-IsWellFormed
      refl (inl (omega arith))

-- A line that is down.
abbrev down : INetwork
down = record line { send = λ bytes taken. (network_down, taken) }

get_power_ecu_versions_gives_up_example :
    (get_power_ecu_versions sum_crc down 0 known []
      ≡ some (none, record known { decoder_map = drop_receive_version decoders }))
    × (send_getv sum_crc down 5 0 known ≡ send_getv sum_crc down 1 0 known)
unfolding encode find_encoder heart_data_encoder getv_data_encoder
get_power_ecu_versions_gives_up_example =
    get_power_ecu_versions_gives_up sum_crc down 0 4 known [] refl refl

-- The queued command is sent, and acknowledged with the value 0.
abbrev resolved : State sum_crc (answering 0)
resolved = record opened {
  line = (encode sum_crc (encoder_map sum_crc line opened) (codes "stop_")).1 ∷ [];
  decoder_map = put_decoder (rxack_holding 0 true) decoders;
  command_queue = [];
  read_error_counter = register true counter;
  write_error_counter = register true counter;
  last_send_command_time = 1;
}

abbrev sent : State sum_crc (answering 0)
sent = record opened {
  line = (encode sum_crc (encoder_map sum_crc line opened) (codes "stop_")).1 ∷ [];
  is_waiting_ack = true;
  write_error_counter = register true counter;
  last_send_command_time = 1;
}

sent_run : send_all sum_crc (answering 0) 1 opened ≡ some (success, sent)
unfolding send_all send_command encode find_encoder heart_data_encoder stop_data_encoder
    find_decoder put_decoder
sent_run = refl

received_run : receive_all sum_crc (answering 0) 2 sent ≡ some (success, resolved)
received_run =
    receive_all-ecu_frame sum_crc (answering 0) (codes "stop_") [] 2 0 0 false (codes "zz")
      ((encode sum_crc (encoder_map sum_crc line opened) (codes "stop_")).1 ∷ []) sent refl refl
      (unfold find_decoder in refl) (omega arith) refl refl

resolved_run :
    process_command_queue sum_crc
      (answering 0)
      false
      0
      false
      retry_rate
      opened
      ((true, 1, 2, 3) ∷ [])
    ≡ some (success, resolved)
unfolding process_command_queue process_rounds
resolved_run = rw (sent_run, received_run) refl

power_ecu_state-word_text_example : power_ecu_state (word_text 655361) ≡ record {
  power_ecu_internal_state = 10;
  is_powerecu_bat_stat = false;
  is_powerecu_sw_kinoko = true;
  is_powerecu_sw_pwr = false;
  is_powerecu_sw_drv = true;
  is_powerecu_sw_latch = false;
  is_powerecu_sw_w_sel = false;
  is_powerecu_sw_w_stop = false;
}
power_ecu_state-word_text_example = power_ecu_state-word_text 655361

-- The body of a packet `ecu1_`.
abbrev ecu1_body : List ℕ
ecu1_body =
    codes
      "0000012345,20170210095651,h07,h00000000000A0021,h0000000000000000000000000000000000000000000000000000000000000000, 12345, 06789,-01234, 25000, 025,h0010,13000,h0000,050,h41,h0000000000000000, 0000000000, 0000000000, 0000000000, 0000000000,-0000000001,-0000000001,-0000000001,-0000000001,-0000000001,-0000000001,h02,"

diag_status_bits : parse_diag_status (codes "8A01") ≡ some (0 ∷ 9 ∷ 11 ∷ 15 ∷ [])
unfolding parse_diag_status
diag_status_bits = refl

prints_messages : print_diag_status (codes "00000009") ≡ (
  codes "diag_status: 0000 0009",
  (
    codes "SPI1 communication error" ∷ codes "A/D converter (insulation secondary side) error" ∷ [],
    true,
  ),
)
unfolding print_diag_status
prints_messages = refl

-- There is no message for the bit 72.
unknown_error : print_errors (0 ∷ 72 ∷ []) ≡ (codes "SPI1 communication error" ∷ [], false)
unfolding print_errors
unknown_error = refl

parse_diag_status-set_bits_example :
    parse_diag_status (codes "8A01") ≡ some (set_bits 0 (hex_value 0 (codes "8A01")) 0 16)
unfolding hex_digit
parse_diag_status-set_bits_example =
    parse_diag_status-set_bits (codes "8A01")
      ((refl, omega arith), ((refl, omega arith), ((refl, omega arith), ((refl, omega arith), tt))))
