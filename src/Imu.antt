-- ===== src/Imu.antt =====
-- hsrb_imu_sensor_protocol: the packets of the MPU9150, their reception, and the reset of the sensor.
pub mod PacketParser
pub mod Network
pub mod Protocol
pub mod Node
mod Samples
