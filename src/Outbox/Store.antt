-- ===== src/Outbox/Store.antt =====
-- The outbox's tables (crates/outbox/src/pg/store.rs): the rows, every group's positions, and the
-- meta table, with what the server says of its transactions.
pub mod Moves
pub mod Slots
pub mod Landing
use Prim.Native.String.{String}
use ascetic_ddd_rust.Prelude.{
  ℕ, ◌-◌, min, max, List, [], ◌∷◌, Bool, true, false, ◌&&◌, ◌||◌, Option, none, some, ltb, leb,
  ◌==◌, if◌then◌else◌, retain, zero, suc, ◌++◌, map, not,
}
use mathlib.Core.Option
use ascetic_ddd_rust.Prelude.Result.{Result, ok, err, ◌>>=◌}
use ascetic_ddd_rust.Prelude.BTreeSet.{contains}
use ascetic_ddd_rust.Outbox.Snapshot.{Snapshot, sees, nothing, below}
use ascetic_ddd_rust.Outbox.Ring.{Ring, generation_of}
use ascetic_ddd_rust.Outbox.Position.{Position, Move, start, from, now}
use ascetic_ddd_rust.Outbox.Table.{OutboxMessage, Texts}

-- A row of the offsets table: a group's position of a selection in a slot.
pub record Offset : Type 0 where
  pub consumer_group : String
  pub uri : String
  pub slot : ℕ
  pub position : Position
  pub updated_at : ℕ

pub record Store (B : Type 0) : Type 0 where
  pub rows : List (OutboxMessage B)
  pub offsets : List Offset
  pub slots : ℕ
  pub refused : Bool
  pub gone_below : Option ℕ
  pub intact_from : Option ℕ
  -- When each generation was first found passed.
  pub passed_at : List (ℕ × ℕ)
  -- `pg_current_snapshot()`, the open transactions of this database, and the time.
  pub current : Snapshot
  pub open_here : List ℕ
  pub clock : ℕ

pub data Error : Type 0 where
  counter_reset : Error
  reclaimed : ℕ → ℕ → Error
  beyond_replay_horizon : ℕ → ℕ → ℕ → Error
  group_active : ℕ → Error

-- `below` in SQL: an id no lower than 1.
unfoldable pub kept_below : ℕ → Snapshot → Snapshot
kept_below xid s = below (max xid 1) s

unfoldable pub moved_to : Move → Snapshot → Snapshot → Snapshot
moved_to start current delivered = nothing
moved_to now current delivered = current
moved_to (from xid) current delivered = kept_below xid delivered

-- Where a move lands on the ring, or why it is refused.
unfoldable pub landing : Move → Option ℕ → Result Error Move
landing (from requested) (some intact_from) =
    if ltb requested intact_from then err (reclaimed requested intact_from) else ok (from requested)
landing start (some intact_from) = ok (from intact_from)
landing to none = ok to
landing now (some intact_from) = ok now

unfoldable pub past_horizon : ℕ → ℕ → Option ℕ → Result Error (Unit {0})
past_horizon requested horizon none = ok tt
past_horizon requested horizon (some age) =
    if ltb horizon age then err (beyond_replay_horizon requested age horizon) else ok tt

unfoldable pub last_moved : (Offset → Bool) → List Offset → Option ℕ
last_moved p [] = none
last_moved p (o ∷ offsets) =
    let rest = last_moved p offsets in
    if p o
    then elim rest [ none ↦ some o.updated_at | some t ↦ some (max o.updated_at t) ]
    else rest

module _ (texts : Texts) where
  unfoldable pub is_of : String → String → Offset → Bool
  is_of group uri o = texts.same o.consumer_group group && texts.same o.uri uri

  unfoldable pub has_slot : String → String → ℕ → List Offset → Bool
  has_slot group uri slot [] = false
  has_slot group uri slot (o ∷ offsets) =
      (is_of group uri o && o.slot == slot) || has_slot group uri slot offsets

  -- Where the group's selection of everything stands in the slot.
  unfoldable pub everything_at : String → ℕ → List Offset → Option Snapshot
  everything_at group slot [] = none
  everything_at group slot (o ∷ offsets) =
      if is_of group "" o && o.slot == slot
      then some o.position.delivered
      else everything_at group slot offsets

  -- The offsets that are forgotten: a group's, of one selection or of all.
  unfoldable pub is_selected : String → Option String → Offset → Bool
  is_selected group none o = texts.same o.consumer_group group
  is_selected group (some uri) o = is_of group uri o

module _ {B : Type 0} where
  -- How old the first row at or after a transaction is, by the order of `(transaction_id, position)`.
  unfoldable pub comes_first : OutboxMessage B → OutboxMessage B → Bool
  comes_first a b =
      ltb a.transaction_id b.transaction_id
      || (a.transaction_id == b.transaction_id && leb a.position b.position)

  unfoldable pub first_row : ℕ → List (OutboxMessage B) → Option (OutboxMessage B)
  first_row xid [] = none
  first_row xid (r ∷ rows) =
      let rest = first_row xid rows in
      if leb xid r.transaction_id
      then elim rest [ none ↦ some r | some q ↦ some (if comes_first r q then r else q) ]
      else rest

  unfoldable pub first_row_age : ℕ → Store B → Option ℕ
  first_row_age xid s =
      Option.map (λ (r : OutboxMessage B). s.clock - r.created_at) (first_row xid s.rows)

  unfoldable pub clear_passed : Move → Store B → Store B
  clear_passed start s = record s { passed_at = [] }
  clear_passed (from xid) s = record s { passed_at = [] }
  clear_passed now s = s

  unfoldable pub within_horizon : Option ℕ → Move → Store B → Result Error (Unit {0})
  within_horizon (some horizon) (from requested) s =
      past_horizon requested horizon (first_row_age requested s)
  within_horizon horizon to s = ok tt

  unfoldable pub dropped : (Offset → Bool) → Store B → Store B
  dropped p s = record s { offsets = retain (λ o. not (p o)) s.offsets }

module _ {B : Type 0} (texts : Texts) where
  unfoldable pub first_delivered : Store B → String → String → ℕ → Snapshot
  first_delivered s group uri slot =
      let ring_start : Snapshot = elim s.intact_from [
        | none ↦ nothing
        | some bound ↦ kept_below bound s.current
      ] in
      if texts.same uri ""
      then ring_start
      else elim (everything_at texts group slot s.offsets) [ none ↦ ring_start | some d ↦ d ]

  -- The positions of a selection, one to a slot, at its first contact.
  unfoldable pub missing : Store B → String → String → ℕ → List Offset
  missing s group uri zero = []
  missing s group uri (suc slot) =
      let rest = missing s group uri slot in
      if has_slot texts group uri slot s.offsets
      then rest
      else record {
        consumer_group = group;
        uri = uri;
        slot = slot;
        position = record { delivered = first_delivered s group uri slot; epoch = none };
        updated_at = s.clock;
      }
        ∷ rest

  unfoldable pub ensure_positions : String → String → Store B → Store B
  ensure_positions group uri s = record s { offsets = missing s group uri s.slots ++ s.offsets }

  unfoldable pub move_offset : String → String → Move → Store B → Offset → Offset
  move_offset group uri to s o =
      if is_of texts group uri o
      then record o {
        position = record { delivered = moved_to to s.current o.position.delivered; epoch = none };
        updated_at = s.clock;
      }
      else o

  unfoldable pub move_all : String → String → Move → Store B → Store B
  move_all group uri to s = record s { offsets = map (move_offset group uri to s) s.offsets }

  unfoldable pub set_position : Option ℕ → String → String → Move → Store B → Result Error (Store B)
  set_position replay_horizon group uri to s = do
    landed ← landing to s.intact_from
    _ ← within_horizon replay_horizon landed s
    ok (clear_passed landed (move_all group uri landed (ensure_positions group uri s)))

  unfoldable pub forget_positions : ℕ → String → Option String → Store B → Result Error (Store B)
  forget_positions margin_age group uri s =
      elim (last_moved (is_selected texts group uri) s.offsets) [
        | none ↦ ok (dropped (is_selected texts group uri) s)
        | some moved ↦
            if ltb (s.clock - moved) margin_age
            then err (group_active (s.clock - moved))
            else ok (dropped (is_selected texts group uri) s)
      ]
