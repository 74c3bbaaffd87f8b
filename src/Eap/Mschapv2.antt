-- ===== src/Eap/Mschapv2.antt =====
-- EAP-MSCHAPv2: the package eap/mschapv2.
pub mod Md4
pub mod DesKey
pub mod Runes
pub mod Text
pub mod Derive
pub mod Machine
pub mod Examples
