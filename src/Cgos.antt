-- ===== src/Cgos.antt =====
-- hsrb_cgos_driver: the GPIO of the congatec board.
pub mod Driver
pub mod Gpio
pub mod Bits
pub mod Pins
mod Samples
