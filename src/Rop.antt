-- ===== src/Rop.antt =====
-- Railway-oriented programming (crates/rop/src): results whose failures are lists of errors that
-- are never empty.
pub mod Errors
pub mod Adapters
mod Examples
