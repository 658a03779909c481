-- ===== src/Outbox/Examples/Positions.antt =====
-- Runs of the outbox's operations on positions and of its reclamation.
use text.Mathlib.Text.{◌==◌ as str_eq}
use ascetic_ddd_rust.Prelude.{ℕ, List, [], ◌∷◌, true, false, none, some, ◌≡◌, refl, arith}
use ascetic_ddd_rust.Prelude.BTreeMap
use ascetic_ddd_rust.Prelude.BTreeSet.{contains}
use ascetic_ddd_rust.Prelude.Result.{ok}
use ascetic_ddd_rust.Outbox.Snapshot.{Snapshot, sees, nothing, below}
use ascetic_ddd_rust.Outbox.Ring.{Ring, generation_of}
use ascetic_ddd_rust.Outbox.Position.{start, from}
use ascetic_ddd_rust.Outbox.Table.{OutboxMessage, Texts}
use ascetic_ddd_rust.Outbox.Store.{
  Offset, Store, kept_below, moved_to, landing, past_horizon, is_of, has_slot, everything_at,
  comes_first, first_row, first_row_age, clear_passed, within_horizon, first_delivered, missing,
  ensure_positions, move_offset, move_all, set_position,
}
use ascetic_ddd_rust.Outbox.Store.Moves
use ascetic_ddd_rust.Outbox.Store.Moves.{AllOffsets, Sees, IsMoved}
use ascetic_ddd_rust.Outbox.Reclaim.{
  Reclaiming, Views, emptied, or_else, min_of, max_of, min_in, passes_over, older, is_reset,
  open_in, lies_in, least_of, newest_of, oldest_from, has_row, owes_in_progress, pins, pinned,
  truncate, least_left, gone_below_of, record_bounds, empty_unless, empty_locked, empty_generation,
  candidate_of, candidate, first_passed, note_passed, lock_and_empty, when_passed, or_skip,
  with_candidate, pass,
}
use ascetic_ddd_rust.Outbox.Reclaim.Passed
use ascetic_ddd_rust.Outbox.Reclaim.Passed.{KeepsOwed}

program : Unit {0}
unfolding contains sees nothing below generation_of kept_below moved_to landing past_horizon is_of
    has_slot everything_at comes_first first_row first_row_age clear_passed within_horizon
    first_delivered missing ensure_positions move_offset move_all set_position or_else min_of max_of
    min_in passes_over older is_reset open_in lies_in least_of newest_of oldest_from has_row
    owes_in_progress pins pinned truncate least_left gone_below_of record_bounds empty_unless
    empty_locked empty_generation candidate_of candidate first_passed note_passed lock_and_empty
    when_passed or_skip with_candidate pass BTreeMap.find BTreeMap.remove BTreeMap.insert
program = tt

abbrev ring : Ring
ring = record { generations = 4; window = 10 }

abbrev texts : Texts
texts = record { same = λ a b. str_eq a b; under = λ a b. false }

abbrev row : ℕ → ℕ → OutboxMessage ℕ
row position xid = record {
  position = position;
  transaction_id = xid;
  slot = 0;
  uri = "kafka://orders";
  created_at = 0;
  body = 7;
}

abbrev handed : Snapshot
handed = record { xmin = 30; xmax = 30; xip = [] }

abbrev offset : Snapshot → Offset
offset delivered = record {
  consumer_group = "billing";
  uri = "";
  slot = 0;
  position = record { delivered = delivered; epoch = none };
  updated_at = 0;
}

abbrev store : List (OutboxMessage ℕ) → Snapshot → Store ℕ
store rows delivered = record {
  rows = rows;
  offsets = offset delivered ∷ [];
  slots = 1;
  refused = false;
  gone_below = some 12;
  intact_from = some 10;
  passed_at = [];
  current = record { xmin = 45; xmax = 45; xip = [] };
  open_here = [];
  clock = 50;
}

abbrev before : Store ℕ
before = store (row 1 12 ∷ row 2 25 ∷ []) handed

moved :
    set_position texts none "billing" "" (from 15) before
    ≡ ok (record (store (row 1 12 ∷ row 2 25 ∷ []) (below 15 handed)) {
      offsets = record (offset (below 15 handed)) { updated_at = 50 } ∷ [];
    })
unfolding program
moved = refl

-- A selection that has no position gets one, and it is moved to the ring's bound, 10.
abbrev made : Offset
made = record (offset (record { xmin = 10; xmax = 10; xip = [] })) {
  uri = "kafka://orders";
  updated_at = 50;
}

started :
    set_position texts none "billing" "kafka://orders" start before
    ≡ ok (record before { offsets = made ∷ offset handed ∷ [] })
unfolding program
started = refl

sees_low : (sees 7 handed ≡ true) × (sees 7 before.current ≡ true)
unfolding program
sees_low = (refl, refl)

set_position-KeepsSeen_example :
    (before.rows ≡ before.rows)
    × AllOffsets
        (λ o. Sees 7 o × IsMoved texts "billing" "kafka://orders" start 10 before.current o)
        (made ∷ offset handed ∷ [])
    × (has_slot texts "billing" "kafka://orders" 0 (made ∷ offset handed ∷ []) ≡ true)
set_position-KeepsSeen_example =
    Moves.set_position-KeepsSeen texts "billing" "kafka://orders" none start before _ 10 7 refl
      (omega arith) sees_low.1 (sees_low.0, tt) refl refl 0 (omega arith) started

abbrev reclaiming : Reclaiming
reclaiming = record { margin = 1; margin_age = 0 }

abbrev views : Views ℕ
views = record {
  key_held = false;
  lock_granted = true;
  at_check = before;
  at_candidate = before;
  at_newest = before;
  at_next = before;
  at_open = before;
  at_passed = before;
  at_lock = before;
}

-- The generation of the row 12 is emptied, and the row 25 is kept.
passed : pass ring reclaiming views ≡ (
  record before { rows = row 2 25 ∷ []; gone_below = some 25; intact_from = some 13 },
  ok (emptied 1 (1, 1) 25 13),
)
unfolding program
passed = refl

pass-KeepsOwed_example : KeepsOwed ring before (pass ring reclaiming views).0
pass-KeepsOwed_example = Passed.pass-KeepsOwed ring reclaiming views
