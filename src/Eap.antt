-- ===== src/Eap.antt =====
-- EAP: eap/.
pub mod Packet
pub mod Fragment
pub mod Avp
pub mod Mschapv2
pub mod Examples
