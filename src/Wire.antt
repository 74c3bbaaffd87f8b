-- ===== src/Wire.antt =====
-- The codec of IKE messages: the package wire.
pub mod Consts
pub mod Errors
pub mod Be
pub mod Header
pub mod Message
pub mod Builder
pub mod Examples
