-- ===== src/Modbus.antt =====
-- services/modbus.py: the SunSpec codec, the Modbus transport, the model blocks and their writes.
pub mod Codec
pub mod Transport
pub mod Registers
pub mod Blocks
pub mod Points
pub mod Models
mod Tests
