-- ===== src/Lib.antt =====
-- The drivers of the robot HSR-B: the servo amplifiers (hsrb_servomotor_protocol), the power ECU
-- (hsrb_power_ecu), the inertial sensor MPU9150 (hsrb_imu_sensor_protocol) and the GPIO of the congatec board
-- (hsrb_cgos_driver). Each of the first three speaks a packet protocol over a serial line: a parser that is fed
-- byte by byte, a network that sends and receives with a timeout, and a protocol over the network.
--
-- - Prelude: Boolean tests, lists, clocks and methods on a state. Not of the program. Posix: what system calls
--   return, and the bytes on a line.
-- - Servo.Checksum, Servo.PacketParser: `Checksum` and `ExxxPacketParser` of
--   hsrb_servomotor_protocol/include/hsrb_servomotor_protocol/exxx_packet_parser.hpp.
-- - Servo.Network: `ExxxNetwork::Send` and `ExxxNetwork::Receive` of
--   hsrb_servomotor_protocol/src/hsrb_servomotor_protocol/exxx_network.cpp.
-- - Servo.Protocol: `ExxxProtocol` of exxx_protocol.hpp and exxx_protocol.cpp, over the interface `INetwork` of
--   network.hpp; Servo.Port fills this interface with `ExxxNetwork`.
-- - Servo.ControlTable: `ControlTable` of control_table.cpp and the addresses of
--   control_table_item_descriptor.cpp. Servo.LoadControlTable: `LoadControlTable` of load_control_table.cpp, over
--   the files as a parameter.
-- - Servo.Reprograming: `ExxxReprograming` of exxx_reprograming.cpp. Transport, Lines, Xmodem and Boot are its
--   methods, over the system calls as an interface `ISystem`; the other modules below it prove what is exchanged
--   with the boot loader. The log of an object is the bytes that were sent and received, the newest first.
-- - Ecu.Crc, Ecu.ErrorCounter, Ecu.Element, Ecu.Frame, Ecu.Commands: hsrb_power_ecu/src/power_ecu_com_common.cpp,
--   error_counter.hpp, power_ecu_com_element_encoder.hpp and power_ecu_com_element_decoder.hpp,
--   power_ecu_com_frame_encoder.cpp and power_ecu_com_frame_decoder.cpp, power_ecu_com_data_encoder.cpp and
--   power_ecu_com_repro_data_encoder.cpp. Ecu.Packets, Ecu.Status: power_ecu_com_data_decoder.cpp.
-- - Ecu.Protocol: `PowerEcuProtocol` of hsrb_power_ecu/src/power_ecu_protocol.cpp, over `INetwork` of
--   hsrb_power_ecu/include/hsrb_power_ecu/i_network.hpp; Ecu.Protocol.Session has the calls that wait for the
--   ECU, and Ecu.Protocol.Wire is the protocol over `SerialNetwork`.
-- - Ecu.Serial: `SerialNetwork` of hsrb_power_ecu/src/serial_network.cpp, over `ISystemInterface` of
--   i_system_interface.hpp, with the bytes on the line as in Servo.Reprograming.
-- - Ecu.Diagnostics: the diagnostic information as hsrb_power_ecu/src/info_command.cpp reads and prints it.
-- - Imu.PacketParser, Imu.Network, Imu.Protocol, Imu.Node: `MPU9150PacketParser`, `MPU9150Network` with
--   `MPU9150PacketConverter`, `MPU9150Protocol` and `MPU9150Node` of
--   hsrb_imu_sensor_protocol/src/hsrb_imu_sensor_protocol/ and its headers. Imu.Protocol.Link is the protocol on
--   the device.
-- - Cgos.Driver, Cgos.Gpio: `HsrbCgosLib` of hsrb_cgos_driver/src/hsrb_cgos_driver/hsrb_cgos_lib.cpp and
--   `HsrbCgosHw` of hsrb_cgos_hw.cpp; Cgos.Bits and Cgos.Pins are about the word that is sent.
-- - The modules named Samples, Runs, Tables, Boots and Lines run the code on concrete inputs.
--
-- A class is a record of its members, and a method is a function that returns the changed record with its result;
-- error codes are values. Bytes and machine integers are natural numbers with the wrap-around written out. The
-- environment of a loop over a device (what each `read`, `write` and wait returns, and the clock after it) is a
-- list with an entry per round; a loop that uses up this list gives `none`. The lists are as long as one likes,
-- and the termination theorems say how many rounds are enough. The loops of `ExxxReprograming` and of the `Send`
-- of `SerialNetwork` take `fuel` rounds each, over any system. The decoding loop of the ECU takes fuel, one more
-- than there are bytes in the buffer. The CRC of Boost, the libraries that read the control table, the networks
-- below the protocols, `func` of the retries, and the system calls, `std::stoi` and `double` of the GPIO driver
-- are parameters.
--
-- Not modelled: the opening of the devices of the servos and of the IMU, floating point (the conversion of a
-- sensor packet, cycle times), ROS 2 parameters, publishers and subscribers, the conversions of control table
-- items, the data packet of the reprogramming of the ECU, the registration of encoders and decoders in `Init`,
-- the export of the GPIO handles to ROS 2, and the command line tools.
pub mod Prelude
pub mod Posix
pub mod Servo
pub mod Ecu
pub mod Imu
pub mod Cgos
