-- ===== src/Outbox/Reclaim.antt =====
-- The ring's reclamation (crates/outbox/src/pg/reclaim.rs). Each statement of a pass reads the tables
-- as they stand at its time. Once the partition's lock is held, the rows of the generation are final
-- and no position moves back, so the statements under it read one state. The estimate of the rows
-- that were emptied is left out.
pub mod Pins
pub mod Passed
use Prim.Native.String.{String}
use ascetic_ddd_rust.Prelude.{
  ℕ, zero, suc, ◌+◌, ◌-◌, ◌/◌, min, max, List, [], ◌∷◌, Bool, true, false, not, ◌&&◌, ◌||◌, Option,
  none, some, ltb, leb, ◌==◌, if◌then◌else◌, retain,
}
use ascetic_ddd_rust.Prelude.BTreeMap
use ascetic_ddd_rust.Prelude.Result.{Result, ok, err, ◌>>=◌}
use ascetic_ddd_rust.Outbox.Snapshot.{Snapshot}
use ascetic_ddd_rust.Outbox.Ring.{Ring, generation_of}
use ascetic_ddd_rust.Outbox.Table.{OutboxMessage}
use ascetic_ddd_rust.Outbox.Store.{Offset, Store, Error, counter_reset}

pub record Reclaiming : Type 0 where
  pub margin : ℕ
  pub margin_age : ℕ

-- The generation that a pass may empty, with the ids of its oldest and newest rows.
pub record Candidate : Type 0 where
  pub generation : ℕ
  pub oldest : ℕ
  pub newest : ℕ

pub data Skipped : Type 0 where
  busy : Skipped
  empty : Skipped
  not_past : ℕ → ℕ → ℕ → Skipped
  not_closed : ℕ → ℕ → Skipped
  not_passed : ℕ → Offset → Skipped
  not_old_enough : ℕ → ℕ → Skipped
  held : ℕ → Skipped
  passed_no_more : ℕ → Skipped

-- The generation, the lowest and highest windows of its rows, and the two bounds.
pub data Reclamation : Type 0 where
  emptied : ℕ → ℕ × ℕ → ℕ → ℕ → Reclamation
  skipped : Skipped → Reclamation

-- The least of what is there.
unfoldable pub min_of : Option ℕ → ℕ → Option ℕ
min_of none x = some x
min_of (some y) x = some (min y x)

unfoldable pub max_of : Option ℕ → ℕ → Option ℕ
max_of none x = some x
max_of (some y) x = some (max y x)

unfoldable pub or_else : ℕ → Option ℕ → ℕ
or_else x none = x
or_else x (some y) = y

unfoldable pub min_in : ℕ → List ℕ → ℕ
min_in x [] = x
min_in x (y ∷ ys) = min_in (min x y) ys

unfoldable pub passes_over : ℕ → Option ℕ → ℕ
passes_over x none = x
passes_over x (some y) = min x y

-- The first of the generations with the oldest row: one loop over `0..generations`.
unfoldable pub older : ℕ → Option ℕ → Option (ℕ × ℕ) → Option (ℕ × ℕ)
older g none oldest = oldest
older g (some xid) none = some (g, xid)
older g (some xid) (some (h, least)) = if ltb xid least then some (g, xid) else some (h, least)

unfoldable pub is_reset : ℕ → List Offset → Bool
is_reset next [] = false
is_reset next (o ∷ offsets) = ltb next o.position.delivered.xmax || is_reset next offsets

unfoldable pub open_in : Ring → ℕ → List ℕ → Option ℕ
open_in ring g [] = none
open_in ring g (xid ∷ xids) =
    let rest = open_in ring g xids in if generation_of xid ring == g then some xid else rest

-- What the statements of a pass read: whether another pass holds the key and whether the lock is
-- granted, and the tables at each.
pub record Views (B : Type 0) : Type 0 where
  pub key_held : Bool
  pub lock_granted : Bool
  pub at_check : Store B
  pub at_candidate : Store B
  pub at_newest : Store B
  pub at_next : Store B
  pub at_open : Store B
  pub at_passed : Store B
  pub at_lock : Store B

module _ {B : Type 0} (ring : Ring) where
  unfoldable pub lies_in : ℕ → OutboxMessage B → Bool
  lies_in g r = generation_of r.transaction_id ring == g

  -- The least and the newest id of a generation.
  unfoldable pub least_of : ℕ → List (OutboxMessage B) → Option ℕ
  least_of g [] = none
  least_of g (r ∷ rows) =
      let rest = least_of g rows in if lies_in g r then min_of rest r.transaction_id else rest

  unfoldable pub newest_of : ℕ → List (OutboxMessage B) → Option ℕ
  newest_of g [] = none
  newest_of g (r ∷ rows) =
      let rest = newest_of g rows in if lies_in g r then max_of rest r.transaction_id else rest

  unfoldable pub oldest_from : ℕ → ℕ → List (OutboxMessage B) → Option (ℕ × ℕ) → Option (ℕ × ℕ)
  oldest_from g zero rows oldest = oldest
  oldest_from g (suc count) rows oldest =
      oldest_from (g + 1) count rows (older g (least_of g rows) oldest)

  -- Whether a position holds the candidate back: its highest delivered is not past the newest, or
  -- an id it has in progress has a row there.
  unfoldable pub has_row : ℕ → ℕ → List (OutboxMessage B) → Bool
  has_row g x [] = false
  has_row g x (r ∷ rows) = (lies_in g r && r.transaction_id == x) || has_row g x rows

  unfoldable pub owes_in_progress : ℕ → ℕ → List (OutboxMessage B) → List ℕ → Bool
  owes_in_progress g newest rows [] = false
  owes_in_progress g newest rows (x ∷ xip) =
      (leb x newest && has_row g x rows) || owes_in_progress g newest rows xip

  unfoldable pub pins : Candidate → List (OutboxMessage B) → Offset → Bool
  pins c rows o =
      leb o.position.delivered.xmax c.newest
      || owes_in_progress c.generation c.newest rows o.position.delivered.xip

  unfoldable pub pinned : Candidate → Store B → List Offset → Option Offset
  pinned c s [] = none
  pinned c s (o ∷ offsets) =
      let rest = pinned c s offsets in if pins c s.rows o then some o else rest

  -- `TRUNCATE` of a partition.
  unfoldable pub truncate : ℕ → Store B → Store B
  truncate g s = record s { rows = retain (λ r. not (lies_in g r)) s.rows }

  unfoldable pub least_left : ℕ → ℕ → List (OutboxMessage B) → ℕ → ℕ
  least_left g zero rows bound = bound
  least_left g (suc count) rows bound =
      least_left (g + 1) count rows (passes_over bound (least_of g rows))

  -- `gone_below`: the next id, no more than the least that is left, and than the oldest open.
  unfoldable pub gone_below_of : Store B → ℕ
  gone_below_of s = min_in (least_left 0 ring.generations s.rows s.current.xmax) s.open_here

  unfoldable pub record_bounds : ℕ → ℕ → ℕ → Store B → Store B
  record_bounds g gone_below newest s = record s {
    gone_below = some gone_below;
    intact_from = some (max (or_else (newest + 1) s.intact_from) (newest + 1));
    passed_at = BTreeMap.remove g s.passed_at;
  }

  -- Under the partition's lock.
  unfoldable pub empty_unless : Candidate → Store B → Option Offset → Store B × Reclamation
  empty_unless c s (some o) = (s, skipped (passed_no_more c.generation))
  empty_unless c s none =
      let left = truncate c.generation s in
      let gone_below = gone_below_of left in
      let recorded = record_bounds c.generation gone_below c.newest left in
      (
        recorded,
        emptied c.generation (c.oldest / ring.window, c.newest / ring.window) gone_below
            (or_else 0 recorded.intact_from),
      )

  unfoldable pub empty_locked : Candidate → Store B → Store B × Reclamation
  empty_locked c s = empty_unless c s (pinned c s s.offsets)

  unfoldable pub empty_generation : Candidate → Store B → Store B × Reclamation
  empty_generation c s =
      empty_locked (record c { newest = or_else c.newest (newest_of c.generation s.rows) }) s

  unfoldable pub candidate_of : Views B → Option (ℕ × ℕ) → Option Candidate
  candidate_of v none = none
  candidate_of v (some (g, oldest)) = some (record {
    generation = g;
    oldest = oldest;
    newest = or_else oldest (newest_of g v.at_newest.rows);
  })

  unfoldable pub candidate : Views B → Option Candidate
  candidate v = candidate_of v (oldest_from 0 ring.generations v.at_candidate.rows none)

  -- When a pass first found the generation passed: now, if none did.
  unfoldable pub first_passed : ℕ → Store B → ℕ
  first_passed g s = or_else s.clock (BTreeMap.find g s.passed_at)

  unfoldable pub note_passed : ℕ → ℕ → Store B → Store B
  note_passed g time s = record s { passed_at = BTreeMap.insert g time s.passed_at }

  unfoldable pub lock_and_empty : Views B → Candidate → Store B → Store B × Result Error Reclamation
  lock_and_empty v c s =
      let emptying = empty_generation c s in
      if v.lock_granted then (emptying.0, ok emptying.1) else (s, ok (skipped (held c.generation)))

  unfoldable pub when_passed : Reclaiming → Views B → Candidate → Store B × Result Error Reclamation
  when_passed reclaiming v c =
      let time = first_passed c.generation v.at_lock in
      let noted = note_passed c.generation time v.at_lock in
      let passed_for = v.at_lock.clock - time in
      if ltb passed_for reclaiming.margin_age
      then (noted, ok (skipped (not_old_enough c.generation passed_for)))
      else lock_and_empty v c noted

  -- A pass skips when it finds one, and goes on when it finds none.
  unfoldable pub or_skip :
      {A : Type 0}
      → Store B
      → (A → Skipped)
      → Option A
      → Store B × Result Error Reclamation
      → Store B × Result Error Reclamation
  or_skip s why none rest = rest
  or_skip s why (some x) rest = (s, ok (skipped (why x)))

  unfoldable pub with_candidate :
      Reclaiming → Views B → Option Candidate → Store B × Result Error Reclamation
  with_candidate reclaiming v none = (v.at_lock, ok (skipped empty))
  with_candidate reclaiming v (some c) =
      let newest_window = c.newest / ring.window in
      let next_window = v.at_next.current.xmax / ring.window in
      if ltb (next_window - newest_window) reclaiming.margin
      then (v.at_lock, ok (skipped (not_past c.generation newest_window next_window)))
      else or_skip v.at_lock (not_closed c.generation)
          (open_in ring c.generation v.at_open.open_here)
          (or_skip v.at_lock (not_passed c.generation) (pinned c v.at_passed v.at_passed.offsets)
            (when_passed reclaiming v c))

  unfoldable pub pass : Reclaiming → Views B → Store B × Result Error Reclamation
  pass reclaiming v =
      if v.key_held
      then (v.at_lock, ok (skipped busy))
      else if v.at_check.refused
      then (v.at_lock, err counter_reset)
      else if is_reset v.at_check.current.xmax v.at_check.offsets
      then (record v.at_lock { refused = true }, err counter_reset)
      else with_candidate reclaiming v (candidate v)
