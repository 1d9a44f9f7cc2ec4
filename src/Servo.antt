-- ===== src/Servo.antt =====
-- hsrb_servomotor_protocol: the EXXX servo amplifier's packets, network and protocol.
pub mod Checksum
pub mod PacketParser
pub mod Network
pub mod Protocol
pub mod Port
pub mod ControlTable
pub mod LoadControlTable
pub mod Reprograming
mod Samples
mod Tables
mod Boots
