-- ===== src/Payload.antt =====
-- The codecs of the payload bodies: the package wire/payload.
pub mod Errors
pub mod Ip
pub mod Simple
pub mod Notify
pub mod Proposal
pub mod TrafficSelector
pub mod Config
pub mod Examples
