-- ===== src/IdentityMap.antt =====
-- The identity map of the session crate (crates/session/src/identity_map). The map's memory is a
-- slot for each key, and a window over the keys whose slots are anchored.
pub mod Policy
pub mod Slot
pub mod Recency
pub mod Generations
pub mod Window
pub mod State
pub mod Map
mod Examples
