-- ===== src/Transport.antt =====
-- The NAT-T transport: transport/.
pub mod Frame
pub mod Routing
