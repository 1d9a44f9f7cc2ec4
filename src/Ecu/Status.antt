-- ===== src/Ecu/Status.antt =====
-- What `PowerEcuComEcu1DataDecoder::Update` of power_ecu_com_data_decoder.cpp makes of the values of a packet
-- `ecu1_`. Values that the source scales in floating point are left in the unit of the packet.
pub mod Word
pub mod Shape
use hsrb_drivers.Prelude.{
  ℤ, ℕ, ◌+◌, ◌-◌, ◌*◌, ◌/◌, ◌%◌, ◌^◌, Bool, true, false, not, Option, none, some, List, [], ◌∷◌,
  ◌==◌, length, take, drop,
}
use hsrb_drivers.Ecu.Frame.{strtol_16}
use hsrb_drivers.Ecu.Frame.Decoder.{Value, number, signed, text}

-- `(n & (0x1 << k)) != 0`
abbrev pub bit : ℕ → ℕ → Bool
bit n k = n / 2 ^ k % 2 == 1

pub record BatteryFlags : Type 0 where
  pub is_battery_45par : Bool
  pub is_battery_sel : Bool
  pub is_battery_bal : Bool
  pub is_battery_crgov : Bool
  pub is_battery_23par : Bool
  pub is_battery_std : Bool
  pub is_battery_full : Bool
  pub is_battery_discov : Bool
  pub is_battery_chg : Bool
  pub is_battery_disc : Bool
  pub is_battery_0per : Bool

unfoldable pub battery_flags : ℕ → BatteryFlags
battery_flags flag = record {
  is_battery_45par = bit flag (8 + 2);
  is_battery_sel = bit flag (8 + 1);
  is_battery_bal = bit flag (8 + 0);
  is_battery_crgov = bit flag (0 + 7);
  is_battery_23par = bit flag (0 + 6);
  is_battery_std = bit flag (0 + 5);
  is_battery_full = bit flag (0 + 4);
  is_battery_discov = bit flag (0 + 3);
  is_battery_chg = bit flag (0 + 2);
  is_battery_disc = bit flag (0 + 1);
  is_battery_0per = bit flag (0 + 0);
}

pub record PowerEcuState : Type 0 where
  pub power_ecu_internal_state : ℕ
  pub is_powerecu_bat_stat : Bool
  pub is_powerecu_sw_kinoko : Bool
  pub is_powerecu_sw_pwr : Bool
  pub is_powerecu_sw_drv : Bool
  pub is_powerecu_sw_latch : Bool
  pub is_powerecu_sw_w_sel : Bool
  pub is_powerecu_sw_w_stop : Bool

-- The two characters that end `from` characters before the end of the text, as a `uint32_t`.
abbrev byte_at : ℕ → List ℕ → ℕ
byte_at from status = strtol_16 (take 2 (drop (length status - from) status))

unfoldable pub power_ecu_state : List ℕ → PowerEcuState
power_ecu_state power_ecu_status =
    let internal_state = byte_at 6 power_ecu_status in
    let bits = byte_at 2 power_ecu_status % 2 ^ 8 in
    record {
      power_ecu_internal_state = internal_state;
      is_powerecu_bat_stat = bit bits 6;
      is_powerecu_sw_kinoko = not (bit bits 5);
      is_powerecu_sw_pwr = bit bits 4;
      is_powerecu_sw_drv = not (internal_state == 9);
      is_powerecu_sw_latch = bit bits 2;
      is_powerecu_sw_w_sel = bit bits 1;
      is_powerecu_sw_w_stop = not (bit bits 0);
    }

pub record BumperFlags : Type 0 where
  pub is_bumper_bumper2 : Bool
  pub is_bumper_bumper1 : Bool
  pub is_bumper_prox5 : Bool
  pub is_bumper_prox4 : Bool
  pub is_bumper_prox3 : Bool
  pub is_bumper_prox2 : Bool
  pub is_bumper_prox1 : Bool

unfoldable pub bumper_flags : ℕ → BumperFlags
bumper_flags bumper_status = record {
  is_bumper_bumper2 = bit bumper_status 6;
  is_bumper_bumper1 = bit bumper_status 5;
  is_bumper_prox5 = bit bumper_status 4;
  is_bumper_prox4 = bit bumper_status 3;
  is_bumper_prox3 = bit bumper_status 2;
  is_bumper_prox2 = bit bumper_status 1;
  is_bumper_prox1 = bit bumper_status 0;
}

pub record Ecu1PacketData : Type 0 where
  pub time_stamp : ℕ
  pub ecu1_date : List ℕ
  pub power_ecu_status_flag : List ℕ
  pub diag_status : List ℕ
  pub battery_total_capacity : ℤ
  pub battery_remaining_capacity : ℤ
  pub electric_current : ℤ
  pub battery_voltage : ℤ
  pub battery_temperature : ℤ
  pub battery : BatteryFlags
  pub battery_initial_learning_capacity : ℕ
  pub battery_error_status : ℕ
  pub battery_relative_capacity : ℕ
  pub power_ecu : PowerEcuState
  pub bumper : BumperFlags
  pub gyro_status : List ℕ
  pub imu_quaternions : List ℤ
  pub imu_angular_velocities : List ℤ
  pub imu_accelerations : List ℤ
  pub charger_state : ℕ

-- `Update`, for the values of the 27 elements in their order; `none` for values of another shape.
unfoldable pub update : List Value → Option Ecu1PacketData
unfolding battery_flags power_ecu_state bumper_flags
update
      (number time_stamp
        ∷ text date
        ∷ text power_ecu_status_flag
        ∷ text power_ecu_status
        ∷ text diag_status
        ∷ signed total_capacity
        ∷ signed remaining_capacity
        ∷ signed electric_current
        ∷ signed voltage
        ∷ signed temperature
        ∷ number state_flag
        ∷ number initial_learning_capacity
        ∷ number error_status
        ∷ number relative_capacity
        ∷ number bumper_status
        ∷ text gyro_status
        ∷ signed quaternion_t
        ∷ signed quaternion_x
        ∷ signed quaternion_y
        ∷ signed quaternion_z
        ∷ signed velocity_x
        ∷ signed velocity_y
        ∷ signed velocity_z
        ∷ signed acceleration_x
        ∷ signed acceleration_y
        ∷ signed acceleration_z
        ∷ number charger_state
        ∷ []) =
    some (record {
      time_stamp = time_stamp;
      ecu1_date = date;
      power_ecu_status_flag = drop 1 power_ecu_status_flag;
      diag_status = drop 1 diag_status;
      battery_total_capacity = total_capacity;
      battery_remaining_capacity = remaining_capacity;
      electric_current = electric_current;
      battery_voltage = voltage;
      battery_temperature = temperature;
      battery = battery_flags state_flag;
      battery_initial_learning_capacity = initial_learning_capacity;
      battery_error_status = error_status;
      battery_relative_capacity = relative_capacity;
      power_ecu = power_ecu_state power_ecu_status;
      bumper = bumper_flags bumper_status;
      gyro_status = drop 1 gyro_status;
      imu_quaternions = quaternion_x ∷ quaternion_y ∷ quaternion_z ∷ quaternion_t ∷ [];
      imu_angular_velocities = velocity_x ∷ velocity_y ∷ velocity_z ∷ [];
      imu_accelerations = acceleration_x ∷ acceleration_y ∷ acceleration_z ∷ [];
      charger_state = charger_state;
    })
update _ = none
