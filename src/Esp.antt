-- ===== src/Esp.antt =====
-- The ESP data path: esp/.
pub mod Suite
pub mod Errors
pub mod Replay
pub mod Inbound
pub mod Outbound
pub mod Trailer
pub mod Link
pub mod Examples
