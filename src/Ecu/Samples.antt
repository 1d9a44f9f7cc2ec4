-- ===== src/Ecu/Samples.antt =====
-- Runs of the power ECU code on concrete packets and queues.
use hsrb_drivers.Prelude.{
  ℕ, ◌+◌, ◌*◌, ◌%◌, ◌^◌, ◌≡◌, refl, true, false, List, [], ◌∷◌, ◌++◌, length, arith, drop,
}
use hsrb_drivers.Ecu.Crc.{Crc32}
use hsrb_drivers.Ecu.ErrorCounter.{
  ErrorCounter, new, errors, register_all, new-IsConsistent, register_all_window,
}
use hsrb_drivers.Ecu.Frame.{success, codes}
use hsrb_drivers.Ecu.Frame.Decoder.{DataDecoderMap, dispatch, decode, find_decoder}
use hsrb_drivers.Ecu.Frame.RoundTrip.{name_bytes, ecu_frame, decode-ecu_frame}
use hsrb_drivers.Ecu.Frame.Encoder.{find_encoder}
use hsrb_drivers.Ecu.Commands.{pump_data_encoder, stop_data_encoder}
use hsrb_drivers.Ecu.Commands.Size.{pump, fitting, Encoded, length-IsCommand}
use hsrb_drivers.Ecu.Protocol.{INetwork, State, send_all, receive_all}
use hsrb_drivers.Ecu.Packets.{rxack_data_decoder}
use hsrb_drivers.Ecu.Protocol.Reply.{rxack}
use hsrb_drivers.Ecu.Protocol.Queue.{
  IsWellFormed, IsFine, send_all-IsWellFormed, receive_all-IsWellFormed,
}
use hsrb_drivers.Ecu.Protocol.Ack.{Stays, Leaves, send_all-Stays, receive_all-Leaves}

register_all_window_example :
    ((register_all (false ∷ true ∷ []) (new 3)).buffer
      ≡ drop 2 ((new 3).buffer ++ false ∷ true ∷ []))
    × ((register_all (false ∷ true ∷ []) (new 3)).error_count
        ≡ errors (drop 2 ((new 3).buffer ++ false ∷ true ∷ [])))
    × (length (drop 2 ((new 3).buffer ++ false ∷ true ∷ [])) ≡ (new 3).buffer_size)
register_all_window_example =
    register_all_window (false ∷ true ∷ []) (new 3) (new-IsConsistent 3 (omega arith) (omega arith))

-- A stand-in for the CRC.
abbrev pub sum_crc : Crc32
sum_crc = record {
  Register = ℕ;
  initial = 0;
  process_byte = λ r b. r * 31 + b;
  checksum = λ r. r % 2 ^ 32;
  checksum-lt = λ r. omega arith;
}

abbrev pub decoders : DataDecoderMap
decoders = rxack_data_decoder ∷ []

decode-ecu_frame_example :
    decode sum_crc decoders 0 (codes "zz" ++ (ecu_frame sum_crc rxack (codes "h00,") ++ codes "E,"))
    ≡ dispatch decoders
        (0 + 2 + length (ecu_frame sum_crc rxack (codes "h00,")))
        15
        (codes "h00,")
        (find_decoder (name_bytes rxack) decoders)
decode-ecu_frame_example =
    decode-ecu_frame sum_crc decoders 0 (codes "zz") rxack (codes "h00,") (codes "E,") refl
      (omega arith)

length-IsCommand_example : Encoded true (pump_data_encoder 1)
length-IsCommand_example = length-IsCommand (fitting (pump 1 (omega arith)))

-- A line that takes every frame and brings one more byte each time.
abbrev pub line : INetwork
line = record {
  Line = List (List ℕ);
  send = λ bytes taken. (success, bytes ∷ taken);
  receive = λ buffer taken. (success, buffer ++ b'z' ∷ [], taken);
}

abbrev pub counter : ErrorCounter
counter = new 1000

abbrev pub opened : State sum_crc line
opened = record {
  line = [];
  receive_buffer = [];
  decoder_map = decoders;
  encoders = stop_data_encoder ∷ [];
  error_state = 0;
  counts = 0;
  command_queue = codes "stop_" ∷ [];
  is_waiting_ack = false;
  read_error_counter = counter;
  write_error_counter = counter;
  last_send_command_time = 0;
  last_heartbeat_time = 0;
}

abbrev pub waiting : State sum_crc line
waiting = record opened { is_waiting_ack = true }

pub opened-IsWellFormed : IsWellFormed opened
unfolding find_encoder stop_data_encoder
opened-IsWellFormed = record {
  awaited = λ e. omega arith;
  known = (refl, tt);
  reads = new-IsConsistent 1000 (omega arith) (omega arith);
  writes = new-IsConsistent 1000 (omega arith) (omega arith);
}

send_all-IsWellFormed_example : IsFine (send_all sum_crc line 6000000000 opened)
send_all-IsWellFormed_example =
    send_all-IsWellFormed sum_crc line 6000000000 opened opened-IsWellFormed

receive_all-IsWellFormed_example : IsFine (receive_all sum_crc line 7 opened)
receive_all-IsWellFormed_example =
    receive_all-IsWellFormed sum_crc line 7 opened opened-IsWellFormed

send_all-Stays_example :
    Stays sum_crc line
      (codes "stop_")
      []
      6000000000
      waiting
      (send_all sum_crc line 6000000000 waiting)
send_all-Stays_example = send_all-Stays sum_crc line (codes "stop_") [] 6000000000 waiting refl refl

receive_all-Leaves_example : Leaves [] (receive_all sum_crc line 10000000001 waiting)
receive_all-Leaves_example =
    receive_all-Leaves sum_crc line (codes "stop_") [] 10000000001 waiting refl refl refl
      (omega arith)
