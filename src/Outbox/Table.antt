-- ===== src/Outbox/Table.antt =====
-- The outbox's rows as a statement reads them (crates/outbox/src/pg/store.rs), and the selections of
-- consumer groups (crates/outbox/src/pg/mod.rs). The rows stand in the order of their positions.
pub mod Order
pub mod Counts
pub mod Past
use Prim.Native.String.{String}
use ascetic_ddd_rust.Prelude.{
  ℕ, ◌+◌, ◌<◌, suc, List, [], ◌∷◌, Bool, true, false, ◌||◌, Option, none, some, ◌==◌, if◌then◌else◌,
  ltb,
}
use ascetic_ddd_rust.Outbox.Snapshot.{Snapshot}

pub record OutboxMessage (B : Type 0) : Type 0 where
  pub position : ℕ
  pub transaction_id : ℕ
  pub slot : ℕ
  pub uri : String
  pub created_at : ℕ
  -- The payload and the metadata.
  pub body : B

-- What a statement reads: the rows of the transactions that its snapshot sees.
pub record View (B : Type 0) : Type 0 where
  pub now : Snapshot
  pub rows : List (OutboxMessage B)
  -- Whether the sequence of the positions caches one value, as `check_sequence` reads it.
  pub sequential : Bool

-- `$2 = '' OR uri = $2 OR uri LIKE $2 || '/%'`, with the server's comparison of texts.
pub record Texts : Type 0 where
  pub same : String → String → Bool
  pub under : String → String → Bool

unfoldable pub selects : Texts → String → String → Bool
selects t selection uri = t.same selection "" || (t.same uri selection || t.under uri selection)

abbrev pub one_if : Bool → ℕ
one_if true = 1
one_if false = 0

module _ {B : Type 0} where
  abbrev pub All {ℓ} : (OutboxMessage B → Type ℓ) → List (OutboxMessage B) → Type ℓ
  All P [] = Unit
  All P (r ∷ rows) = P r × All P rows

  -- How often the row at a position stands in a list.
  unfoldable pub times : ℕ → List (OutboxMessage B) → ℕ
  times p [] = 0
  times p (r ∷ rows) = if r.position == p then suc (times p rows) else times p rows

  -- Positions ascend, all above `low`.
  unfoldable pub Above : ℕ → List (OutboxMessage B) → Type 0
  Above low [] = Unit
  Above low (r ∷ rows) = (low < r.position) × Above r.position rows

  -- `ORDER BY "position"` over two branches that are in order.
  unfoldable pub merge : List (OutboxMessage B) → List (OutboxMessage B) → List (OutboxMessage B)
  merge [] ys = ys
  merge (x ∷ xs) [] = x ∷ xs
  merge (x ∷ xs) (y ∷ ys) = elim (ltb y.position x.position) [
    | true ↦ y ∷ merge (x ∷ xs) ys
    | false ↦ x ∷ merge xs (y ∷ ys)
  ]

  unfoldable pub merge_all : List (List (OutboxMessage B)) → List (OutboxMessage B)
  merge_all [] = []
  merge_all (branch ∷ branches) = merge branch (merge_all branches)

  -- The position of the last message of a batch, or the offset before it.
  unfoldable pub last_position : ℕ → List (OutboxMessage B) → ℕ
  last_position offset [] = offset
  last_position offset (r ∷ rows) = last_position r.position rows
