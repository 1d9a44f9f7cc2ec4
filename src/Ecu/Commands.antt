-- ===== src/Ecu/Commands.antt =====
-- The commands of power_ecu_com_data_encoder.cpp: the data encoder of each packet type, as its constructor
-- builds it, for the packet data that its elements refer to.
pub mod Size
use hsrb_drivers.Prelude.{ℕ, Bool, true, false, List, [], ◌∷◌, if◌then◌else◌}
use hsrb_drivers.Ecu.Element.{BitMap, register_bit}
use hsrb_drivers.Ecu.Frame.{codes}
use hsrb_drivers.Ecu.Frame.Encoder.{
  DataEncoder, ElementEncoder, uint_encoder, hex_uint_encoder, hex_uint_bits_encoder,
  string_encoder,
}

-- The `RegisterBit` calls of a constructor, in their order.
unfoldable pub register_bits : ℕ → BitMap → BitMap → BitMap
register_bits size [] map = map
register_bits size ((bit, flag) ∷ bits) map =
    register_bits size bits (register_bit size bit flag map).1

abbrev bits_encoder : ℕ → BitMap → ElementEncoder
bits_encoder size bits = hex_uint_bits_encoder (register_bits size bits []) size

abbrev bool_encoder : Bool → ElementEncoder
bool_encoder flag = uint_encoder (if flag then 1 else 0) 1

unfoldable pub time_data_encoder : List ℕ → DataEncoder
time_data_encoder start_time = record {
  packet_size = codes "026";
  packet_name = codes "time_";
  elements = string_encoder start_time 14 ∷ [];
}

unfoldable pub start_data_encoder : Bool → Bool → DataEncoder
unfolding register_bits
start_data_encoder is_enable_ecu1 is_enable_ecu2 = record {
  packet_size = codes "015";
  packet_name = codes "start";
  elements = bits_encoder 2 ((1, is_enable_ecu2) ∷ (0, is_enable_ecu1) ∷ []) ∷ [];
}

unfoldable pub stop_data_encoder : DataEncoder
stop_data_encoder = record { packet_size = codes "011"; packet_name = codes "stop_"; elements = [] }

unfoldable pub heart_data_encoder : ℕ → ℕ → DataEncoder
heart_data_encoder error_state counts = record {
  packet_size = codes "027";
  packet_name = codes "heart";
  elements = hex_uint_encoder error_state 4 ∷ hex_uint_encoder counts 8 ∷ [];
}

unfoldable pub pump_data_encoder : ℕ → DataEncoder
pump_data_encoder is_pump_enable = record {
  packet_size = codes "013";
  packet_name = codes "pump_";
  elements = uint_encoder is_pump_enable 1 ∷ [];
}

unfoldable pub pbmsw_data_encoder : ℕ → DataEncoder
pbmsw_data_encoder is_motor_enable = record {
  packet_size = codes "013";
  packet_name = codes "pbmsw";
  elements = uint_encoder is_motor_enable 1 ∷ [];
}

unfoldable pub ledc_data_encoder : ℕ → ℕ → ℕ → DataEncoder
ledc_data_encoder r g b = record {
  packet_size = codes "023";
  packet_name = codes "ledc_";
  elements = uint_encoder r 3 ∷ uint_encoder g 3 ∷ uint_encoder b 3 ∷ [];
}

unfoldable pub g_res_data_encoder : Bool → Bool → DataEncoder
unfolding register_bits
g_res_data_encoder is_quaternion_reset is_gyro_reset = record {
  packet_size = codes "015";
  packet_name = codes "g_res";
  elements = bits_encoder 2 ((0, is_quaternion_reset) ∷ (1, is_gyro_reset) ∷ []) ∷ [];
}

unfoldable pub solsw_data_encoder : ℕ → DataEncoder
solsw_data_encoder is_solenoid_enable = record {
  packet_size = codes "015";
  packet_name = codes "solsw";
  elements = hex_uint_encoder is_solenoid_enable 2 ∷ [];
}

unfoldable pub pdcmd_data_encoder : Bool → Bool → Bool → DataEncoder
unfolding register_bits
pdcmd_data_encoder is_cpu_shutdown is_gpu_shutdown is_ex1_shutdown = record {
  packet_size = codes "015";
  packet_name = codes "pdcmd";
  elements =
      bits_encoder 2 ((0, is_cpu_shutdown) ∷ (1, is_gpu_shutdown) ∷ (2, is_ex1_shutdown) ∷ []) ∷ [];
}

unfoldable pub mute_data_encoder : Bool → DataEncoder
unfolding register_bits
mute_data_encoder is_amp_mute = record {
  packet_size = codes "015";
  packet_name = codes "mute_";
  elements = bits_encoder 2 ((0, is_amp_mute) ∷ []) ∷ [];
}

abbrev getv_packet_data : ℕ
getv_packet_data = 0

unfoldable pub getv_data_encoder : DataEncoder
getv_data_encoder = record {
  packet_size = codes "015";
  packet_name = codes "getv_";
  elements = hex_uint_encoder getv_packet_data 2 ∷ [];
}

unfoldable pub undck_data_encoder : DataEncoder
undck_data_encoder = record {
  packet_size = codes "011";
  packet_name = codes "undck";
  elements = [];
}

unfoldable pub usb_12vu_data_encoder : Bool → DataEncoder
usb_12vu_data_encoder is_12vu_enable = record {
  packet_size = codes "013";
  packet_name = codes "12vu_";
  elements = bool_encoder is_12vu_enable ∷ [];
}

unfoldable pub d5vd3_data_encoder : Bool → DataEncoder
d5vd3_data_encoder is_5vd3_enable = record {
  packet_size = codes "013";
  packet_name = codes "5vd3_";
  elements = bool_encoder is_5vd3_enable ∷ [];
}

unfoldable pub d5vd4_data_encoder : Bool → DataEncoder
d5vd4_data_encoder is_5vd4_enable = record {
  packet_size = codes "013";
  packet_name = codes "5vd4_";
  elements = bool_encoder is_5vd4_enable ∷ [];
}

unfoldable pub d5vd5_data_encoder : Bool → DataEncoder
d5vd5_data_encoder is_5vd5_enable = record {
  packet_size = codes "013";
  packet_name = codes "5vd5_";
  elements = bool_encoder is_5vd5_enable ∷ [];
}

-- The commands that start and end a reprogramming.
unfoldable pub rpros_data_encoder : ℕ → List ℕ → DataEncoder
rpros_data_encoder reserve repro_version = record {
  packet_size = codes "055";
  packet_name = codes "rpros";
  elements = uint_encoder reserve 1 ∷ string_encoder repro_version 41 ∷ [];
}

unfoldable pub rproe_data_encoder : DataEncoder
rproe_data_encoder = record {
  packet_size = codes "011";
  packet_name = codes "rproe";
  elements = [];
}
