-- ===== src/Ecu/Packets.antt =====
-- The packets from the ECU: the data decoders of power_ecu_com_data_decoder.cpp.
pub mod Size
use hsrb_drivers.Prelude.{ℤ, pos, ℕ, zero, suc, true, false, List, [], ◌∷◌, ◌++◌, ◌-◌, ◌^◌, ◌*◌}
use hsrb_drivers.Ecu.Element.Signed.{Limits}
use hsrb_drivers.Ecu.Frame.{codes}
use hsrb_drivers.Ecu.Frame.Decoder.{
  ElementDecoder, uint_decoder, hex_uint_decoder, int_decoder, string_decoder, Value, number,
  signed, text, DataDecoder,
}

-- The limits of the output types.
abbrev int8 : Limits
int8 = record { largest = 2 ^ 7 - 1; lowest = 2 ^ 7 }

abbrev int16 : Limits
int16 = record { largest = 2 ^ 15 - 1; lowest = 2 ^ 15 }

abbrev uint16 : Limits
uint16 = record { largest = 2 ^ 16 - 1; lowest = 0 }

abbrev int32 : Limits
int32 = record { largest = 2 ^ 31 - 1; lowest = 2 ^ 31 }

-- A value of each element before the first packet.
abbrev initial_value : ElementDecoder → Value
initial_value (uint_decoder width size) = number 0
initial_value (hex_uint_decoder width size) = number 0
initial_value (int_decoder limits size) = signed (pos 0)
initial_value (string_decoder size) = text []

abbrev initial_values : List ElementDecoder → List Value
initial_values [] = []
initial_values (e ∷ es) = initial_value e ∷ initial_values es

-- `Update` returns true for every packet type.
abbrev data_decoder : List ℕ → ℕ → List ElementDecoder → DataDecoder
data_decoder name size elements = record {
  packet_name = name;
  packet_size = size;
  elements = elements;
  update = λ values. true;
  values = initial_values elements;
  is_receive = false;
}

-- The elements of `ecu1_`: time_stamp, date, power_ecu_status_flag, power_ecu_status, diag_status,
-- battery_total_capacity, battery_remaining_capacity, electric_current, battery_voltage,
-- battery_temperature, battery_state_flag, battery_initial_learning_capacity, battery_error_status,
-- battery_relative_capacity, bumper_status, gyro_status, quaternion_t, quaternion_x, quaternion_y,
-- quaternion_z, angular_velocity_x, angular_velocity_y, angular_velocity_z, acceleration_x,
-- acceleration_y, acceleration_z, charger_state.
abbrev pub ecu1_elements : List ElementDecoder
ecu1_elements =
    uint_decoder 32 10
    ∷ string_decoder 14
    ∷ string_decoder 3
    ∷ string_decoder 17
    ∷ string_decoder 65
    ∷ int_decoder uint16 5
    ∷ int_decoder uint16 5
    ∷ int_decoder int16 5
    ∷ int_decoder uint16 5
    ∷ int_decoder int8 3
    ∷ hex_uint_decoder 16 4
    ∷ uint_decoder 16 5
    ∷ hex_uint_decoder 16 4
    ∷ uint_decoder 8 3
    ∷ hex_uint_decoder 8 2
    ∷ string_decoder 17
    ∷ int_decoder int32 10
    ∷ int_decoder int32 10
    ∷ int_decoder int32 10
    ∷ int_decoder int32 10
    ∷ int_decoder int32 10
    ∷ int_decoder int32 10
    ∷ int_decoder int32 10
    ∷ int_decoder int32 10
    ∷ int_decoder int32 10
    ∷ int_decoder int32 10
    ∷ hex_uint_decoder 8 2
    ∷ []

-- `PowerEcuComEcu1DataDecoder`
abbrev pub ecu1_data_decoder : DataDecoder
ecu1_data_decoder = data_decoder (codes "ecu1_") 326 ecu1_elements

-- The elements of `ecu2_`: ecu2_date, d12V_D0_V, d12V_D0_A, d12V_D1_V, d12V_D1_A, d12V_D2_V, d12V_D2_A,
-- d12V_D3_V, d12V_D3_A, d12V_O1_V, d12V_O1_A, d12V_O2_V, d12V_O2_A, d5VA_V, d5VD1_V, d5VD1_A, d5VD2_V,
-- d5VD2_A, d5VD3_V, d5VD3_A, d5VD4_V, d5VD4_A, d5VD5_V, d5VD5_A, Chgsense, d2V5VDA1_V, d2V5VDA2_V, ACDC_V,
-- ADCD_A, BATT_V, BATT_A, BATT_A2, PBM_V, PBM_A, PBM_A2, PUMP_V, ECU_TEMP, ECU_TEMP1, ECU_TEMP2,
-- ECU_TEMP3.
abbrev ecu2_elements : List ElementDecoder
ecu2_elements =
    string_decoder 14
    ∷ int_decoder uint16 5
    ∷ int_decoder int16 5
    ∷ int_decoder uint16 5
    ∷ int_decoder int16 5
    ∷ int_decoder uint16 5
    ∷ int_decoder int16 5
    ∷ int_decoder uint16 5
    ∷ int_decoder int16 5
    ∷ int_decoder uint16 5
    ∷ int_decoder int16 5
    ∷ int_decoder uint16 5
    ∷ int_decoder int16 5
    ∷ int_decoder uint16 5
    ∷ int_decoder uint16 5
    ∷ int_decoder int16 5
    ∷ int_decoder uint16 5
    ∷ int_decoder int16 5
    ∷ int_decoder uint16 5
    ∷ int_decoder int16 5
    ∷ int_decoder uint16 5
    ∷ int_decoder int16 5
    ∷ int_decoder uint16 5
    ∷ int_decoder int16 5
    ∷ int_decoder uint16 5
    ∷ int_decoder uint16 5
    ∷ int_decoder uint16 5
    ∷ int_decoder uint16 5
    ∷ int_decoder int16 5
    ∷ int_decoder uint16 5
    ∷ int_decoder int16 5
    ∷ int_decoder int16 5
    ∷ int_decoder uint16 5
    ∷ int_decoder int16 5
    ∷ int_decoder int16 5
    ∷ int_decoder uint16 5
    ∷ int_decoder int16 3
    ∷ int_decoder int16 3
    ∷ int_decoder int16 3
    ∷ int_decoder int16 3
    ∷ []

-- `PowerEcuComEcu2DataDecoder`
abbrev pub ecu2_data_decoder : DataDecoder
ecu2_data_decoder = data_decoder (codes "ecu2_") 291 ecu2_elements

-- The elements of `rxack`: ack_value.
abbrev rxack_elements : List ElementDecoder
rxack_elements = hex_uint_decoder 8 2 ∷ []

-- `PowerEcuComRxackDataDecoder`
abbrev pub rxack_data_decoder : DataDecoder
rxack_data_decoder = data_decoder (codes "rxack") 15 rxack_elements

-- The elements of `ver__`: power_ecu_version_raw, power_ecu_com_version_raw.
abbrev ver_elements : List ElementDecoder
ver_elements = string_decoder 41 ∷ string_decoder 41 ∷ []

-- `PowerEcuComVerDataDecoder`
abbrev pub ver_data_decoder : DataDecoder
ver_data_decoder = data_decoder (codes "ver__") 95 ver_elements
