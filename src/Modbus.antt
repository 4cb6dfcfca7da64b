-- ===== src/Modbus.antt =====
-- src/edge_modbus.c.
pub mod Registers
pub mod Link
pub mod Poll
pub mod Codec
pub mod Connection
pub mod Backoff
pub mod History
pub mod Addressing
pub mod Outcomes
pub mod Polled
