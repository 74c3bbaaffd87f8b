-- ===== src/Control.antt =====
-- The IKE control plane: control/.
pub mod Collision
pub mod Exchange
pub mod Protected
pub mod Reassembly
pub mod Opening
pub mod Assigned
pub mod Running
pub mod Examples
