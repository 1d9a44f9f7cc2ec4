-- ===== src/Ecu.antt =====
-- hsrb_power_ecu: the packets of the power ECU, their elements, frames and commands.
pub mod Crc
pub mod ErrorCounter
pub mod Element
pub mod Frame
pub mod Commands
pub mod Packets
pub mod Status
pub mod Protocol
pub mod Serial
pub mod Diagnostics
mod Samples
mod Runs
mod Lines
