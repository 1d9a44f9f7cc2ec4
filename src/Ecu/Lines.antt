-- ===== src/Ecu/Lines.antt =====
-- Runs of serial_network.cpp on a device that takes and gives what a list says.
use hsrb_drivers.Prelude.{
  ℕ, zero, suc, ◌+◌, ◌≤◌, ◌≡◌, ◌≢◌, refl, ap, false, none, some, List, [], ◌∷◌, length, length-take,
  take, drop, codes, arith, Returns,
}
use hsrb_drivers.Posix.{
  errc_success, resource_unavailable, Written, wrote, write_failed, Polled, ready, poll_failed,
  nothing, slept, got, put,
}
use hsrb_drivers.Ecu.Serial.{
  ISystemInterface, SerialNetwork, PacketBuffer, opened, bytes, send, receive, open_port,
}
use hsrb_drivers.Ecu.Serial.Sending.{IsMonotonic, Sent, send-Sent}
use hsrb_drivers.Ecu.Serial.Receiving.{IsReader, Received, receive-Received}
use hsrb_drivers.Ecu.Frame.Encoder.{encode, find_encoder}
use hsrb_drivers.Ecu.Commands.{stop_data_encoder}
use hsrb_drivers.Ecu.Protocol.{encoder_map, send_command}
use hsrb_drivers.Ecu.Protocol.Wire.{Protocol, Transmitted, serial_network, send_command-Transmitted}
use hsrb_drivers.Ecu.Samples.{sum_crc, decoders, counter}

-- The clock, the sizes of the writes that are taken (0 for a busy device), and the bytes that come.
record Device : Type 0 where
  clock : ℕ
  writes : List ℕ
  incoming : List ℕ

abbrev written : List ℕ → Written
written [] = write_failed 5
written (zero ∷ writes) = write_failed resource_unavailable
written (suc n ∷ writes) = wrote (suc n)

abbrev awaited : List ℕ → Polled
awaited [] = nothing
awaited (b ∷ incoming) = ready

abbrev device : ISystemInterface
device = record {
  System = Device;
  now = λ d. (d.clock, record d { clock = d.clock + 1 });
  tcgetattr = λ fd d. (none, d);
  tcsetattr = λ fd d. (none, d);
  tcflush = λ fd d. (some 5, d);
  get_serial = λ fd d. (none, d);
  set_serial = λ fd d. (none, d);
  uname = λ d. (some (codes "5.4.0"), d);
  open_file = λ name d. (opened 3, d);
  close_file = λ fd d. d;
  read = λ fd n d. (bytes (take n d.incoming), record d { incoming = drop n d.incoming });
  write = λ fd data_bytes d. (written d.writes, record d { writes = drop 1 d.writes });
  sleep = λ nsec d. (slept, record d { clock = d.clock + nsec });
  poll = λ fd t d. (awaited d.incoming, d);
}

abbrev port : Device → SerialNetwork Device
port d = record {
  fd = 3;
  timeout_ns = 30;
  sleep_tick = 10;
  port_name = codes "/dev/ttyECU";
  system = d;
  log = [];
}

-- Two bytes, then a busy device, then the rest.
abbrev slow : Device
slow = record { clock = 100; writes = 2 ∷ 0 ∷ 3 ∷ []; incoming = 7 ∷ 8 ∷ 9 ∷ [] }

abbrev message : List ℕ
message = 1 ∷ 2 ∷ 3 ∷ 4 ∷ 5 ∷ []

sends_in_parts :
    send device 40 message (port slow)
    ≡ some (
      errc_success,
      record (port (record slow { clock = 113; writes = [] })) { log = put message [] },
    )
unfolding send
sends_in_parts = refl

-- The buffer has room for two bytes.
abbrev packet_buffer : PacketBuffer
packet_buffer = record { capacity = 4; content = 5 ∷ 6 ∷ [] }

receives_what_fits :
    receive device 40 packet_buffer (port slow)
    ≡ some (
      (errc_success, record packet_buffer { content = 5 ∷ 6 ∷ 7 ∷ 8 ∷ [] }),
      record (port (record slow { clock = 101; incoming = 9 ∷ [] })) { log = got 8 ∷ got 7 ∷ [] },
    )
unfolding receive
receives_what_fits = refl

-- The descriptor stays open when a call after `open` fails.
open_keeps_descriptor : open_port device 40 (record (port slow) { fd = 0 }) ≡ some (5, port slow)
unfolding open_port
open_keeps_descriptor = refl

written_errno : (writes : List ℕ) → written writes ≢ write_failed 0
written_errno [] h = absurd (cc)
written_errno (zero ∷ writes) h = absurd (cc)
written_errno (suc n ∷ writes) h = absurd (cc)

awaited_errno : (incoming : List ℕ) → awaited incoming ≢ poll_failed 0
awaited_errno [] h = absurd (cc)
awaited_errno (b ∷ incoming) h = absurd (cc)

bytes_taken : (n : ℕ) (xs bs : List ℕ) → bytes (take n xs) ≡ bytes bs → length bs ≤ n
bytes_taken n xs bs h = let e : take n xs ≡ bs = cc in omega (arith, ap length e, length-take n xs)

device-IsMonotonic : IsMonotonic device
device-IsMonotonic = record {
  at_least = λ d. d.clock;
  now_reads = λ d. omega arith;
  now_moves = λ d. omega arith;
  write_later = λ fd b d. omega arith;
  write_errno = λ fd b d. written_errno d.writes;
  sleep_later = λ n d. omega arith;
  sleep_less = λ n e left d h. absurd (cc);
}

device-IsReader : IsReader device
device-IsReader = record {
  read_bounded = λ fd n d bs h. bytes_taken n d.incoming bs h;
  read_errno = λ fd n d h. absurd (cc);
  poll_errno = λ fd t d. awaited_errno d.incoming;
}

send-Sent_example : Returns (Sent message (port slow)) (send device 40 message (port slow))
send-Sent_example =
    send-Sent device 40 device-IsMonotonic message (port slow) (omega arith) (omega arith)

receive-Received_example :
    Returns (Received packet_buffer (port slow)) (receive device 40 packet_buffer (port slow))
receive-Received_example =
    receive-Received device 40 device-IsReader packet_buffer (port slow) (omega arith)

-- The protocol on the port, with a buffer of 4000 bytes and one command in its queue.
abbrev on_port : Protocol device 40 4000 sum_crc
on_port = record {
  line = port slow;
  receive_buffer = [];
  decoder_map = decoders;
  encoders = stop_data_encoder ∷ [];
  error_state = 0;
  counts = 0;
  command_queue = codes "stop_" ∷ [];
  is_waiting_ack = false;
  read_error_counter = counter;
  write_error_counter = counter;
  last_send_command_time = 0;
  last_heartbeat_time = 0;
}

send_command-Transmitted_example :
    Transmitted device 40 4000 sum_crc
      (encode sum_crc
        (encoder_map sum_crc (serial_network device 40 4000) on_port)
        (codes "stop_")).1
      on_port
      (send_command sum_crc (serial_network device 40 4000) (codes "stop_") on_port)
unfolding find_encoder stop_data_encoder
send_command-Transmitted_example =
    send_command-Transmitted device 40 4000 sum_crc (codes "stop_") on_port device-IsMonotonic
      (omega arith) (omega arith) refl
