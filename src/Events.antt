-- ===== src/Events.antt =====
-- Events: events/.
pub mod Event
pub mod Hub
pub mod Examples
