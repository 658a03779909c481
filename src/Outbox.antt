-- ===== src/Outbox.antt =====
-- The transactional outbox (crates/outbox/src).
pub mod Snapshot
pub mod Ring
pub mod Position
pub mod Table
pub mod Store
pub mod Reclaim
pub mod Relay
pub mod Examples
