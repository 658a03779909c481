-- ===== src/Outbox/Position.antt =====
-- Where a consumer group is in a slot (crates/outbox/src/message.rs).
use ascetic_ddd_rust.Prelude.{ℕ, List, Option}
use ascetic_ddd_rust.Outbox.Snapshot.{Snapshot}

pub record Generation : Type 0 where
  pub generation : ℕ
  pub first : ℕ
  pub last : ℕ

pub record Epoch : Type 0 where
  pub snapshot : Snapshot
  pub offset : ℕ
  pub end : Option ℕ
  pub generations : List Generation

pub record Position : Type 0 where
  pub delivered : Snapshot
  pub epoch : Option Epoch

-- Where an operator moves a selection.
pub data Move : Type 0 where
  start : Move
  from : ℕ → Move
  now : Move
