-- ===== src/Saga.antt =====
-- Sagas: work that is done step by step, and undone in reverse order when a step fails
-- (crates/saga/src).
pub mod RoutingSlip
pub mod Alternative
pub mod Fallback
pub mod ActivityHost
pub mod Resolver
pub mod Serialization
mod Examples
