-- ===== src/Outbox/Examples.antt =====
-- A relay of two rows, with a transaction that is still running.
pub mod Positions
use Prim.Native.String.{String}
use text.Mathlib.Text.{◌==◌ as str_eq}
use ascetic_ddd_rust.Prelude.{
  ℕ, ◌≤◌, List, [], ◌∷◌, ◌++◌, Bool, true, false, Option, none, some, ◌≡◌, ◌&&◌, ◌⊎◌, ◌↔◌, refl,
  arith, retain, take, inl, ltb, length,
}
use ascetic_ddd_rust.Prelude.BTreeSet
use ascetic_ddd_rust.Prelude.BTreeSet.{contains, insert, extend, collect}
use ascetic_ddd_rust.Prelude.Result.{ok}
use ascetic_ddd_rust.Outbox.Snapshot.{Snapshot, sees, nothing}
use ascetic_ddd_rust.Outbox.Ring.{Ring, generation_of, range, generations_between, generations_new}
use ascetic_ddd_rust.Outbox.Ring.Names
use ascetic_ddd_rust.Outbox.Ring.Names.{IsReady, IsNew}
use ascetic_ddd_rust.Outbox.Position.{Epoch, Position}
use ascetic_ddd_rust.Outbox.Table.{
  OutboxMessage, View, Texts, All, Above, times, one_if, selects, merge, merge_all, last_position,
}
use ascetic_ddd_rust.Outbox.Relay.{
  in_lane, is_member, widen, group, groups, found_first, start_of, start_rows, start_epoch, opened,
  begin_epoch, least, greatest, in_branch, read_batch, hand_on, ack, acked, relay_batch,
  relay_started, relay,
}
use ascetic_ddd_rust.Outbox.Relay.Batch
use ascetic_ddd_rust.Outbox.Relay.Batch.{Distinct, has_name, is_named, is_owed}
use ascetic_ddd_rust.Outbox.Relay.Progress
use ascetic_ddd_rust.Outbox.Relay.Progress.{drain, heads_for}
use ascetic_ddd_rust.Outbox.Relay.Lane.{Later, handed}
use ascetic_ddd_rust.Outbox.Relay.Runs
use ascetic_ddd_rust.Outbox.Relay.Runs.{Run, begin, hand_over, first_position}

abbrev ring : Ring
ring = record { generations = 4; window = 10 }

ring-IsReady : IsReady ring
ring-IsReady = omega arith

abbrev texts : Texts
texts = record { same = λ a b. str_eq a b; under = λ a b. false }

abbrev at_start : Snapshot
at_start = record { xmin = 10; xmax = 10; xip = [] }

-- Transaction 25 is still running.
abbrev running : Snapshot
running = record { xmin = 20; xmax = 30; xip = 25 ∷ [] }

abbrev row : ℕ → ℕ → OutboxMessage ℕ
row position xid = record {
  position = position;
  transaction_id = xid;
  slot = 0;
  uri = "kafka://orders";
  created_at = 0;
  body = 7;
}

abbrev rows : List (OutboxMessage ℕ)
rows = row 1 12 ∷ row 3 11 ∷ []

abbrev empty : View ℕ
empty = record { now = at_start; rows = []; sequential = true }

abbrev filled : View ℕ
filled = record { now = running; rows = rows; sequential = true }

abbrev after : Position
after = record { delivered = running; epoch = none }

program : Unit {0}
unfolding sees nothing generation_of range generations_between generations_new contains insert
    extend collect times selects merge merge_all last_position in_lane is_member widen group groups
    found_first start_of start_rows start_epoch opened begin_epoch least greatest in_branch
    read_batch hand_on ack acked relay_batch relay_started relay
program = tt

empty-filled : Later empty filled
unfolding program Above
empty-filled = record {
  order = omega arith;
  valid = omega arith;
  grows = λ x s. ground arith;
  kept = refl;
}

filled-filled : Later filled filled
unfolding program Above
filled-filled = record { order = omega arith; valid = omega arith; grows = λ x s. s; kept = refl }

relayed : relay ring texts 0 "" 10 (λ r. true) filled filled first_position none ≡ ok (after, rows)
unfolding program
relayed = refl

abbrev MyRun : View ℕ → Position → List (OutboxMessage ℕ) → Type 0
MyRun = Run ring texts 0 "" 10 (λ r. true)

first_run : MyRun empty first_position []
unfolding Above
first_run = begin empty first_position [] tt (omega arith) (omega arith) tt refl refl

second_run : MyRun filled after rows
second_run =
    hand_over empty filled filled first_position after [] rows rows first_run empty-filled
      filled-filled relayed refl

run-once_example :
    All (λ r. times r.position rows ≡ one_if (in_lane ring texts 0 "" r && handed after r)) rows
run-once_example =
    Runs.run-once ring ring-IsReady texts 0 "" 10 (λ r. true) filled after rows second_run

-- The ids from 25 up to 42 lie in windows 2, 3 and 4.
abbrev delivered : Snapshot
delivered = record { xmin = 3; xmax = 25; xip = [] }

abbrev epoch : Snapshot
epoch = record { xmin = 30; xmax = 42; xip = [] }

names : generations_new ring delivered epoch ≡ 0 ∷ 2 ∷ 3 ∷ []
unfolding program
names = refl

generations_new-exact_example :
    (contains 3 (generations_new ring delivered epoch) ≡ true)
    ↔ ((xid : ℕ) × (generation_of xid ring ≡ 3) × IsNew xid delivered epoch)
generations_new-exact_example = Names.generations_new-exact ring ring-IsReady 3 delivered epoch

seen : sees 31 epoch ≡ true
unfolding program
seen = refl

owed : sees 31 delivered ≡ false
unfolding program
owed = refl

-- An epoch of two generations, read in a batch of one row.
abbrev in_flight : Epoch
in_flight = record {
  snapshot = running;
  offset = 0;
  end = some 3;
  generations = record { generation = 1; first = 1; last = 3 } ∷ [];
}

one_name : Distinct in_flight.generations
unfolding Distinct has_name
one_name = (refl, tt)

rows-Above : Above 0 rows
unfolding Above
rows-Above = omega arith

rows_named :
    All
      (λ r.
        is_owed ring texts 0 "" in_flight at_start r ≡ true
        → is_named ring in_flight.generations r ≡ true)
      rows
unfolding program is_owed is_named
rows_named = ((λ e. refl), ((λ e. refl), tt))

read_batch_lem_example :
    read_batch ring texts 0 "" 1 filled in_flight at_start
    ≡ take 1 (retain (λ r. is_owed ring texts 0 "" in_flight at_start r && ltb 0 r.position) rows)
read_batch_lem_example =
    Batch.read_batch_lem ring texts 0 "" in_flight at_start 1 filled rows-Above one_name rows_named

-- Two batches of one row, the next relay finds nothing owed, and the epoch is drained.
relay-drains_example :
    drain ring texts 0 "" 1 (λ r. true) filled 4 first_position
    ≡ ok (record { delivered = running; epoch = none })
unfolding heads_for
relay-drains_example =
    Progress.relay-drains ring texts 0 "" 1 (λ r. true) filled (λ r. refl) (omega arith) refl 4
      first_position (omega arith)
