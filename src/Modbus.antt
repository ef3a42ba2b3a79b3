-- ===== src/Modbus.antt =====
-- Modbus, as the gateway reads its sensors: common/ModbusRtu.{h,cpp}, the frames, and
-- gateway_access/ModbusRtuDriver.cpp and ModbusTcpDriver.cpp, the two polling drivers.
pub mod Frames
pub mod Crc
pub mod Registers
pub mod Decode
pub mod Rtu
pub mod Suspend
pub mod Tcp
pub mod Stream
mod Tests
