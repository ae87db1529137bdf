-- ===== src/Gateway.antt =====
-- The phone gateway (internal/gateway): pairing codes, paired devices and what a request may do.
pub mod Files
pub mod Allowlist
pub mod Pairing
pub mod Devices
pub mod Auth
mod Tests
