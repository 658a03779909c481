-- ===== src/Outbox/Relay.antt =====
-- The relay of one slot of a selection (crates/outbox/src/pg/store.rs and dispatch.rs): an epoch's
-- start, its batches, and the position that is moved past them.
pub mod Batch
pub mod Groups
pub mod Opening
pub mod Lane
pub mod Counting
pub mod Delivery
pub mod Started
pub mod Steps
pub mod Runs
pub mod Progress
use Prim.Native.String.{String}
use ascetic_ddd_rust.Prelude.{
  ℕ, zero, suc, ◌+◌, ◌-◌, max, min, List, [], ◌∷◌, ◌++◌, Bool, true, false, not, ◌&&◌, ◌||◌, Option,
  none, some, map, ltb, leb, ◌==◌, if◌then◌else◌, length, take, retain,
}
use ascetic_ddd_rust.Prelude.Result.{Result, ok, err, ◌>>=◌}
use ascetic_ddd_rust.Prelude.BTreeSet.{contains}
use ascetic_ddd_rust.Outbox.Snapshot.{Snapshot, sees}
use ascetic_ddd_rust.Outbox.Ring.{Ring, generation_of, generations_new}
use ascetic_ddd_rust.Outbox.Position.{Generation, Epoch, Position}
use ascetic_ddd_rust.Outbox.Table.{OutboxMessage, View, Texts, selects, merge_all, last_position}

pub data Error : Type 0 where
  sequence_cache : Error
  subscriber : Error

-- An epoch's start: its snapshot, the bounds of its rows, and the generations it found them in.
pub record Start : Type 0 where
  pub epoch : Snapshot
  pub first : Option ℕ
  pub last : Option ℕ
  pub generations : List Generation

-- `iter().min()` and `iter().max()`.
unfoldable pub least : List ℕ → Option ℕ
least [] = none
least (x ∷ xs) = elim (least xs) [ none ↦ some x | some y ↦ some (min x y) ]

unfoldable pub greatest : List ℕ → Option ℕ
greatest [] = none
greatest (x ∷ xs) = elim (greatest xs) [ none ↦ some x | some y ↦ some (max x y) ]

unfoldable pub found_first : Option Generation → List Generation → List Generation
found_first none later = later
found_first (some found) later = found ∷ later

unfoldable pub start_of : Snapshot → List Generation → Start
start_of epoch generations = record {
  epoch = epoch;
  first = least (map (λ (g : Generation). g.first) generations);
  last = greatest (map (λ (g : Generation). g.last) generations);
  generations = generations;
}

-- `ack`: the epoch's offset, or `delivered` moved to it.
unfoldable pub ack : Option Snapshot → Option Epoch → Position → Position
ack none epoch position = record { delivered = position.delivered; epoch = epoch }
ack (some drained_to) epoch position = record { delivered = drained_to; epoch = epoch }

-- The epoch that is started with the bounds of its rows; none where nothing of the selection is new.
unfoldable pub opened : Start → Option ℕ → Option ℕ → Option Epoch
opened s (some first) (some last) = some (record {
  snapshot = s.epoch;
  offset = first - 1;
  end = some last;
  generations = s.generations;
})
opened s (some first) none = none
opened s none last = none

unfoldable pub begin_epoch : Start → Option Epoch
begin_epoch s = opened s s.first s.last

-- An epoch of the positions before the snapshots: its end and its generations, now.
unfoldable pub convert : Epoch → Start → Epoch
convert epoch s = record epoch {
  end = some (elim s.last [ none ↦ epoch.offset | some last ↦ max last epoch.offset ]);
  generations = s.generations;
}

module _ {B : Type 0} (ring : Ring) (texts : Texts) (slot : ℕ) (uri : String) where
  -- A row of the slot that the selection takes.
  unfoldable pub in_lane : OutboxMessage B → Bool
  in_lane r = r.slot == slot && selects texts uri r.uri

  -- The two branches of the statement's `members`: an id from the highest delivered on, or one
  -- that was in progress and has ended.
  unfoldable pub is_member : Snapshot → Snapshot → OutboxMessage B → Bool
  is_member delivered epoch r =
      in_lane r
      && ((leb delivered.xmax r.transaction_id
            && (ltb r.transaction_id epoch.xmax && sees r.transaction_id epoch))
          || (contains r.transaction_id delivered.xip && sees r.transaction_id epoch))

  -- `SELECT g, min(p), max(p) FROM members GROUP BY g`, for one name.
  unfoldable pub widen : ℕ → OutboxMessage B → Option Generation → Option Generation
  widen g r none = some (record { generation = g; first = r.position; last = r.position })
  widen g r (some rest) = some (record {
    generation = g;
    first = min r.position rest.first;
    last = max r.position rest.last;
  })

  unfoldable pub group : ℕ → List (OutboxMessage B) → Option Generation
  group g [] = none
  group g (r ∷ rows) =
      let rest = group g rows in
      if generation_of r.transaction_id ring == g then widen g r rest else rest

  unfoldable pub groups : List ℕ → List (OutboxMessage B) → List Generation
  groups [] rows = []
  groups (g ∷ names) rows = found_first (group g rows) (groups names rows)

  unfoldable pub start_rows : View B → Snapshot → Snapshot → Start
  start_rows view delivered epoch =
      start_of epoch (
        groups (generations_new ring delivered epoch)
          (retain (is_member delivered epoch) view.rows))

  unfoldable pub start_epoch : View B → Snapshot → Option Snapshot → Result Error Start
  start_epoch view delivered (some stored) = ok (start_rows view delivered stored)
  start_epoch view delivered none =
      if view.sequential then ok (start_rows view delivered view.now) else err sequence_cache

  -- A branch of a batch: one generation's rows, from the later of the offset and its first position
  -- up to its last.
  unfoldable pub in_branch : Epoch → Snapshot → Generation → OutboxMessage B → Bool
  in_branch epoch delivered g r =
      generation_of r.transaction_id ring == g.generation
      && (in_lane r
          && ((ltb (max epoch.offset (g.first - 1)) r.position && leb r.position g.last)
              && (sees r.transaction_id epoch.snapshot && not (sees r.transaction_id delivered))))

  unfoldable pub read_batch : ℕ → View B → Epoch → Snapshot → List (OutboxMessage B)
  read_batch limit view epoch delivered = take limit (
      merge_all (
        map (λ g. take limit (retain (in_branch epoch delivered g) view.rows))
          (retain (λ (g : Generation). ltb epoch.offset g.last) epoch.generations)))

  -- The subscriber is given each message, up to its first failure.
  unfoldable pub hand_on :
      (OutboxMessage B → Bool) → List (OutboxMessage B) → Result Error (Unit {0})
  hand_on accepts [] = ok tt
  hand_on accepts (r ∷ rows) =
      let later = hand_on accepts rows in if accepts r then later else err subscriber

  unfoldable pub acked : ℕ → List (OutboxMessage B) → Epoch → Position → Position
  acked limit messages epoch position =
      if ltb (length messages) limit
      then ack (some epoch.snapshot) none position
      else ack none (some (record epoch { offset = last_position epoch.offset messages })) position

  -- A batch of an epoch, read, handed on, and the position past it.
  unfoldable pub relay_batch :
      ℕ
      → (OutboxMessage B → Bool)
      → View B
      → Position
      → Epoch
      → Result Error (Position × List (OutboxMessage B))
  relay_batch limit accepts view position epoch =
      let messages = read_batch limit view epoch position.delivered in
      do _ ← hand_on accepts messages; ok (acked limit messages epoch position, messages)

  unfoldable pub relay_started :
      ℕ
      → (OutboxMessage B → Bool)
      → View B
      → Position
      → Start
      → Option Epoch
      → Result Error (Position × List (OutboxMessage B))
  relay_started limit accepts view position start none =
      ok (ack (some start.epoch) none position, [])
  relay_started limit accepts view position start (some epoch) =
      relay_batch limit accepts view position epoch

  -- An epoch in flight, by its end.
  unfoldable pub relay_in_flight :
      ℕ
      → (OutboxMessage B → Bool)
      → View B
      → View B
      → Position
      → Epoch
      → Option ℕ
      → Result Error (Position × List (OutboxMessage B))
  relay_in_flight limit accepts started read position epoch (some end) =
      relay_batch limit accepts read position epoch
  relay_in_flight limit accepts started read position epoch none = do
    start ← start_epoch started position.delivered (some epoch.snapshot)
    relay_batch limit accepts read position (convert epoch start)

  -- The part of `dispatch` once the look took the slot: two statements read, `started` and `read`,
  -- the one at the epoch's start and the one at the batch.
  unfoldable pub relay :
      ℕ
      → (OutboxMessage B → Bool)
      → View B
      → View B
      → Position
      → Option Epoch
      → Result Error (Position × List (OutboxMessage B))
  relay limit accepts started read position none = do
    start ← start_epoch started position.delivered none
    relay_started limit accepts read position start (begin_epoch start)
  relay limit accepts started read position (some epoch) =
      relay_in_flight limit accepts started read position epoch epoch.end
