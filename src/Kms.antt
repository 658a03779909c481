-- ===== src/Kms.antt =====
-- The key management of the kms crate (crates/kms/src): keys wrapped by keys, and who may use them.
pub mod Key
pub mod Cipher
pub mod Kek
pub mod MasterKey
pub mod Service
pub mod Cache
pub mod Shredding
pub mod Examples
