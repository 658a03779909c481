-- ===== src/IdentityMap/Policy.antt =====
-- What a transaction may remember at each isolation level
-- (crates/session/src/identity_map/policy.rs, crates/session/src/isolation.rs).
use ascetic_ddd_rust.Prelude.{Bool, true, false}
use ascetic_ddd_rust.IdentityMap.Slot.{Kind, entity, absence}

pub data IsolationLevel : Type 0 where
  read_uncommitted read_committed repeatable_read serializable : IsolationLevel

unfoldable pub admits : IsolationLevel → Kind → Bool
admits read_uncommitted _ = false
admits read_committed _ = false
admits repeatable_read entity = true
admits repeatable_read absence = false
admits serializable _ = true
