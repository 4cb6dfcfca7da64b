-- ===== src/Tests.antt =====
-- The theorems at concrete inputs.
mod Data
mod Config
mod Modbus
mod Template
mod Store
mod Value
mod Startup
mod Events
mod Runtime
mod AddressSpace
