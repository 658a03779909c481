-- ===== src/Outbox/Relay/Runs.antt =====
-- Runs of a relay beside the transactions of the server.
use Prim.Native.String.{String}
use ascetic_ddd_rust.Prelude.{ℕ, ◌≤◌, ◌<◌, List, [], ◌++◌, Bool, ◌&&◌, none, ◌≡◌, refl, arith}
use ascetic_ddd_rust.Prelude.Result.{ok}
use ascetic_ddd_rust.Outbox.Snapshot.{sees, nothing}
use ascetic_ddd_rust.Outbox.Ring.{Ring}
use ascetic_ddd_rust.Outbox.Ring.Names.{IsReady}
use ascetic_ddd_rust.Outbox.Position.{Position}
use ascetic_ddd_rust.Outbox.Table.{OutboxMessage, View, Texts, All, Above, times, one_if}
use ascetic_ddd_rust.Outbox.Table.Counts.{All-map}
use ascetic_ddd_rust.Outbox.Relay.{in_lane, relay}
use ascetic_ddd_rust.Outbox.Relay.Lane.{Later, handed, IsRelayed, Later-IsRelayed}
use ascetic_ddd_rust.Outbox.Relay.Steps.{relay-IsRelayed}

abbrev pub first_position : Position
first_position = record { delivered = nothing; epoch = none }

-- What a relay of a lane did so far, beside the transactions of the server: the table as it was last
-- read, the position, and the rows that were handed on, one batch after the other. A batch whose
-- subscriber fails is rolled back, and changes none of these.
pub data Run {B : Type 0} (ring : Ring) (texts : Texts) (slot : ℕ) (uri : String) (limit : ℕ)
    (accepts : OutboxMessage B → Bool) : View B → Position → List (OutboxMessage B) → Type 0 where
  begin :
      (v : View B) (p : Position) (log : List (OutboxMessage B))
      → Above 0 v.rows
      → 0 < v.now.xmin
      → v.now.xmin ≤ v.now.xmax
      → All (λ (r : OutboxMessage B). 0 < r.transaction_id) v.rows
      → p ≡ first_position
      → log ≡ []
      → Run ring texts slot uri limit accepts v p log
  go_on :
      (before v : View B) (p : Position) (log : List (OutboxMessage B))
      → Run ring texts slot uri limit accepts before p log
      → Later before v
      → Run ring texts slot uri limit accepts v p log
  hand_over :
      (before started v : View B) (q p : Position) (earlier messages log : List (OutboxMessage B))
      → Run ring texts slot uri limit accepts before q earlier
      → Later before started
      → Later started v
      → relay ring texts slot uri limit accepts started v q q.epoch ≡ ok (p, messages)
      → log ≡ earlier ++ messages
      → Run ring texts slot uri limit accepts v p log

module _ {B : Type 0} (ring : Ring) (ready : IsReady ring) (texts : Texts) (slot : ℕ) (uri : String)
    (limit : ℕ) (accepts : OutboxMessage B → Bool) where
  begin-IsRelayed :
      (v : View B)
      → Above 0 v.rows
      → 0 < v.now.xmin
      → v.now.xmin ≤ v.now.xmax
      → All (λ (r : OutboxMessage B). 0 < r.transaction_id) v.rows
      → IsRelayed ring texts slot uri v first_position []
  unfolding nothing sees times
  begin-IsRelayed v order pos valid rows = record {
    order = order;
    valid = valid;
    past = λ x s. ground arith;
    in_flight = tt;
    once = All-map _ _ v.rows (λ r k. ground arith) rows;
    known = λ n z. refl;
  }

  run-IsRelayed :
      (v : View B) (p : Position) (log : List (OutboxMessage B))
      → Run ring texts slot uri limit accepts v p log
      → IsRelayed ring texts slot uri v p log
  run-IsRelayed v p log (begin _ _ _ order pos valid rows ep el) =
      rw (ep, el) (begin-IsRelayed v order pos valid rows)
  run-IsRelayed v p log (go_on before _ _ _ run later) =
      Later-IsRelayed ring texts slot uri before v p log later (run-IsRelayed before p log run)
  run-IsRelayed v p log (hand_over before started _ q _ earlier messages _ run l1 l2 step el) =
      rw el (
        relay-IsRelayed ring ready texts slot uri limit accepts started v l2 earlier p messages
          q.delivered q.epoch
          (Later-IsRelayed ring texts slot uri before started q earlier l1
            (run-IsRelayed before q earlier run))
          step)

  -- In any run of a relay from the start, while transactions end in any order, the rows of its lane
  -- that its position counts, those that `delivered` sees and those of the epoch in flight up to the
  -- offset, were handed on in committed batches once each; no other row of the table was.
  pub run-once :
      (v : View B) (p : Position) (log : List (OutboxMessage B))
      → Run ring texts slot uri limit accepts v p log
      → All
          (λ r. times r.position log ≡ one_if (in_lane ring texts slot uri r && handed p r))
          v.rows
  run-once v p log run = (run-IsRelayed v p log run).once
