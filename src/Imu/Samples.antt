-- ===== src/Imu/Samples.antt =====
-- Runs of the code of the IMU on concrete packets and devices.
use hsrb_drivers.Prelude.{
  ℕ, zero, suc, ◌+◌, ◌*◌, ◌/◌, ◌≤◌, ◌<◌, ◌≡◌, ◌≢◌, refl, true, false, Option, none, some, List, [],
  ◌∷◌, ◌++◌, length, ltb, take, drop, arith, inl, inr,
}
use hsrb_drivers.Imu.PacketParser.{
  checksum, Mpu9150PacketParser, state_header1, state_checksum, try_parse,
}
use hsrb_drivers.Imu.PacketParser.Packets.{at}
use hsrb_drivers.Imu.Network.{
  ErrorCode, success, timed_out, Write, wrote, send, write_loop, build_packet, Read, got, no_data,
  consume, receive_loop, receive, Mpu9150PacketConverter, timestamp_at, Selection, selected,
  to_sensor_state, packet_size,
}
use hsrb_drivers.Imu.Network.Newest.{to_sensor_state_newest}
use hsrb_drivers.Imu.Network.Reception.{IsReception, receive-IsReception, receive_ends}
use hsrb_drivers.Imu.Protocol.{
  ImuNetwork, Mpu9150Protocol, status_waiting, status_wait_for_reset, status_receive_reset_return,
  is_error, kept, copied, read_state, try_reset, reset_loop, reset_duration, instruction_reset,
}
use hsrb_drivers.Imu.Protocol
use hsrb_drivers.Imu.Protocol.Link.{
  Mpu9150Network, mpu9150_network, receive_next, Serves, Serves-ComesBack,
}
use hsrb_drivers.Imu.Protocol.Reset.{reset-not_early, reset-IsReset, reset-ne-none}
use hsrb_drivers.Imu.Node.{Mpu9150Node, try_with_retry}
use hsrb_drivers.Imu.Node.Cycle.{Checks, repeat, start, run_cycles}
use hsrb_drivers.Imu.Node.Cycle.Window.{start-IsCounted, Ran, run_cycles-Ran}

abbrev fresh : Mpu9150PacketParser
fresh = at state_header1 [] [] 0 false

-- The reply to a reset, behind a byte of noise.
abbrev reply : List ℕ
reply = 0x40 ∷ 0x47 ∷ 0x01 ∷ 119 ∷ []

abbrev replied : Mpu9150PacketParser
replied = record {
  state = state_checksum;
  packet = [];
  all_packets = reply;
  packet_length = 1;
  is_reply_packet = true;
}

abbrev reply_rounds : List (Read × ℕ)
reply_rounds = (no_data, 1) ∷ (got (7 ∷ reply), 2) ∷ []

reply_run : receive 50 0 fresh reply_rounds ≡ some (success, replied)
unfolding receive receive_loop consume try_parse checksum
reply_run = refl

receive-IsReception_example : IsReception success replied
receive-IsReception_example = receive-IsReception 50 0 fresh reply_rounds success replied reply_run

receive_ends_example : receive 2 0 fresh reply_rounds ≢ none
receive_ends_example =
    receive_ends 2 0 fresh reply_rounds (omega arith, (omega arith, tt)) (omega arith)

-- A packet of 48 bytes with the low byte of its timestamp.
abbrev zeros : ℕ → List ℕ
zeros zero = []
zeros (suc n) = 0 ∷ zeros n

abbrev stamped : ℕ → List ℕ
stamped t = zeros 46 ++ t ∷ 0 ∷ []

abbrev two_packets : List ℕ
two_packets = stamped 5 ++ stamped 9

abbrev before : Mpu9150PacketConverter
before = record { last_timestamp = 4; last_packet_num = 0 }

to_sensor_state_newest_example :
    (k : ℕ) × (k < length two_packets / packet_size)
    × ((i : ℕ)
        → i < length two_packets / packet_size
        → timestamp_at two_packets i ≤ timestamp_at two_packets k)
    × (to_sensor_state two_packets before ≡ (
      selected (take packet_size (drop (k * packet_size) two_packets)),
      record { last_timestamp = timestamp_at two_packets k; last_packet_num = k },
    ))
unfolding timestamp_at
to_sensor_state_newest_example =
    to_sensor_state_newest two_packets before 1 (omega arith) refl (omega arith) (omega arith)

-- A network that answers every reception with a reply.
abbrev answering : ImuNetwork
answering = record {
  Line = ℕ;
  send = λ instruction data_in line. some (success, line + 1);
  receive = λ line. some (success, line);
  all_packets = λ line. reply;
  is_reply_packet = λ line. true;
}

abbrev idle : Mpu9150Protocol ℕ
idle = record {
  line = 0;
  packet_converter = before;
  status = status_waiting;
  instruction_end_time = 0;
  instruction_timeout = 0;
}

abbrev listening : Mpu9150Protocol ℕ
listening = record idle { status = status_receive_reset_return }

reset-not_early_example :
    Protocol.reset answering 0 5000000000 idle ((1, 1, 1) ∷ (2, 3000000001, 2) ∷ [])
    ≢ some (success, idle)
reset-not_early_example =
    reset-not_early answering 0 5000000000 1 1 1 idle ((2, 3000000001, 2) ∷ []) idle refl
      (omega arith, tt)

-- Three rounds: the command, the end of the rest, and the reply.
abbrev reset_rounds : List (ℕ × ℕ × ℕ)
reset_rounds = (1, 1, 1) ∷ (2, 3000000002, 2) ∷ (3, 3000000003, 3) ∷ []

abbrev taken : List (Write × ℕ)
taken = (wrote 5, 1) ∷ []

-- A device that takes the command and gives a reply, with calls to spare.
abbrev sensor : Mpu9150Protocol Mpu9150Network
sensor = record {
  line = record {
    timeout = 2;
    parser = fresh;
    sends = (0, taken) ∷ (0, taken) ∷ (0, taken) ∷ [];
    receives = (0, reply_rounds) ∷ (0, reply_rounds) ∷ (0, reply_rounds) ∷ [];
    wire = [];
  };
  packet_converter = before;
  status = status_waiting;
  instruction_end_time = 0;
  instruction_timeout = 0;
}

abbrev reset_done : Mpu9150Protocol Mpu9150Network
reset_done = record sensor {
  line = record {
    timeout = 2;
    parser = replied;
    sends = (0, taken) ∷ (0, taken) ∷ [];
    receives = (0, reply_rounds) ∷ (0, reply_rounds) ∷ [];
    wire = build_packet instruction_reset [];
  };
  instruction_end_time = 3000000001;
  instruction_timeout = 5000000001;
}

reset_run :
    Protocol.reset mpu9150_network 0 5000000000 sensor reset_rounds ≡ some (success, reset_done)
unfolding Protocol.reset reset_loop try_reset send write_loop build_packet receive receive_loop
    consume try_parse checksum
reset_run = refl

reset-IsReset_example :
    (reset_done.status ≡ status_waiting)
    × (replied.is_reply_packet ≡ true)
    × ((before : Mpu9150Network) × (receive_next before before.receives
          ≡ some (success, reset_done.line)))
reset-IsReset_example =
    reset-IsReset mpu9150_network 0 5000000000 sensor reset_rounds reset_done reset_run

taken_ends : send 2 0 instruction_reset [] taken ≢ none
unfolding send write_loop build_packet
taken_ends e = absurd (cc)

reply_ends : (p : Mpu9150PacketParser) → receive 2 0 p reply_rounds ≢ none
reply_ends p = receive_ends 2 0 p reply_rounds (omega arith, (omega arith, tt)) (omega arith)

sensor-Serves : Serves 3 sensor.line
sensor-Serves = record {
  sends_left = omega arith;
  receives_left = omega arith;
  sends_end = (taken_ends, (taken_ends, (taken_ends, tt)));
  receives_end = (reply_ends, (reply_ends, (reply_ends, tt)));
}

reset-ne-none_example : Protocol.reset mpu9150_network 0 2 sensor reset_rounds ≢ none
reset-ne-none_example =
    reset-ne-none mpu9150_network 0 2 sensor reset_rounds
      (Serves-ComesBack 3 sensor.line sensor-Serves) (inr (inl (omega arith)))

abbrev device : Mpu9150Protocol Mpu9150Network
device = record {
  line = record {
    timeout = 50;
    parser = fresh;
    sends = [];
    receives = (0, reply_rounds) ∷ [];
    wire = [];
  };
  packet_converter = before;
  status = status_waiting;
  instruction_end_time = 0;
  instruction_timeout = 0;
}

abbrev device_read : Mpu9150Protocol Mpu9150Network
device_read = record device {
  line = record { timeout = 50; parser = replied; sends = []; receives = []; wire = [] };
}

-- A late reply is no reading: the caller's state is overwritten all the same.
device_run :
    read_state mpu9150_network device ≡ some (success, copied Selection.ignored, device_read)
unfolding read_state receive receive_loop consume try_parse checksum to_sensor_state
device_run = refl

abbrev node : Mpu9150Node answering
node = record { disable_imu = false; reset_imu = true; protocol = idle; imu_output = none }

-- A function that fails until its third call.
abbrev third : ℕ → Option (ErrorCode × ℕ)
third zero = some (timed_out, 1)
third (suc zero) = some (timed_out, 2)
third n = some (success, n)

third_run : try_with_retry third 3 0 ≡ some (success, 2)
unfolding try_with_retry
third_run = refl

-- The rate is checked after a hundred cycles.
abbrev checks : Checks
checks = record { is_interval = λ n. ltb 100 n; is_error = λ n. ltb 50 n; check_cycle = true }

run_cycles-Ran_example :
    Ran checks
      (repeat 100)
      0
      (true ∷ false ∷ true ∷ [])
      (run_cycles checks (true ∷ false ∷ true ∷ []) start)
unfolding start
run_cycles-Ran_example =
    run_cycles-Ran checks (true ∷ false ∷ true ∷ []) (repeat 100) start start-IsCounted

cycles_run : (run_cycles checks (true ∷ false ∷ true ∷ []) start).1.cycle_over_count ≡ 2
unfolding run_cycles start
cycles_run = refl
