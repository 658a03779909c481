-- ===== src/Outbox/Reclaim/Pins.antt =====
-- The rows of a generation, and the positions that hold it back.
use ascetic_ddd_rust.Prelude.{
  ℕ, ◌≤◌, List, [], ◌∷◌, true, false, Option, none, some, ◌≡◌, refl, sym, subst, arith, ◌==◌,
  Bool-cases, inl, inr,
}
use ascetic_ddd_rust.Prelude.BTreeSet.{contains}
use ascetic_ddd_rust.Outbox.Snapshot.{sees}
use ascetic_ddd_rust.Outbox.Ring.{Ring}
use ascetic_ddd_rust.Outbox.Table.{OutboxMessage, All}
use ascetic_ddd_rust.Outbox.Table.Counts.{All-map}
use ascetic_ddd_rust.Outbox.Store.{Offset, Store}
use ascetic_ddd_rust.Outbox.Store.Moves.{AllOffsets}
use ascetic_ddd_rust.Outbox.Reclaim.{
  Candidate, or_else, max_of, lies_in, newest_of, has_row, owes_in_progress, pins, pinned,
}

abbrev pub AtMost : ℕ → Option ℕ → Type 0
AtMost x none = ⊥
AtMost x (some y) = x ≤ y

max_of-AtMost : (x y : ℕ) (o : Option ℕ) → AtMost x o → AtMost x (max_of o y)
unfolding max_of
max_of-AtMost x y none h = absurd h
max_of-AtMost x y (some z) h = omega arith

max_of-AtMost_self : (x : ℕ) (o : Option ℕ) → AtMost x (max_of o x)
unfolding max_of
max_of-AtMost_self x none = omega arith
max_of-AtMost_self x (some z) = omega arith

pub or_else-AtMost : (x d : ℕ) (o : Option ℕ) → AtMost x o → x ≤ or_else d o
unfolding or_else
or_else-AtMost x d none h = absurd h
or_else-AtMost x d (some y) h = h

pub AllOffsets-map :
    {P Q : Offset → Type 0} (offsets : List Offset)
    → ((o : Offset) → P o → Q o)
    → AllOffsets P offsets
    → AllOffsets Q offsets
AllOffsets-map [] f h = tt
AllOffsets-map (o ∷ offsets) f h = (f o h.0, AllOffsets-map offsets f h.1)

module _ {B : Type 0} (ring : Ring) where
  newest_of-here :
      (g : ℕ) (r : OutboxMessage B) (rows : List (OutboxMessage B))
      → lies_in ring g r ≡ true
      → newest_of ring g (r ∷ rows) ≡ max_of (newest_of ring g rows) r.transaction_id
  unfolding newest_of
  newest_of-here g r rows h = rw h refl

  newest_of-other :
      (g : ℕ) (r : OutboxMessage B) (rows : List (OutboxMessage B))
      → lies_in ring g r ≡ false
      → newest_of ring g (r ∷ rows) ≡ newest_of ring g rows
  unfolding newest_of
  newest_of-other g r rows h = rw h refl

  -- A row of a generation is no newer than its newest.
  abbrev pub NoNewer : ℕ → Option ℕ → OutboxMessage B → Type 0
  NoNewer g o q = lies_in ring g q ≡ true → AtMost q.transaction_id o

  pub newest_of-NoNewer :
      (g : ℕ) (rows : List (OutboxMessage B)) → All (NoNewer g (newest_of ring g rows)) rows
  newest_of-NoNewer g [] = tt
  newest_of-NoNewer g (r ∷ rows) =
      let rest = newest_of ring g rows in
      elim (Bool-cases (lies_in ring g r)) [
        | inl here ↦
            subst (λ o. All (NoNewer g o) (r ∷ rows)) (sym (newest_of-here g r rows here))
              (
                (λ e. max_of-AtMost_self r.transaction_id rest),
                All-map _ _ rows
                    (λ q k e. max_of-AtMost q.transaction_id r.transaction_id rest (k e))
                    (newest_of-NoNewer g rows),
              )
        | inr other ↦
            subst (λ o. All (NoNewer g o) (r ∷ rows)) (sym (newest_of-other g r rows other))
              ((λ e. absurd (cc)), newest_of-NoNewer g rows)
      ]

  -- A position that does not hold the candidate back sees each of its rows.
  in_progress-owes :
      (g newest : ℕ) (rows : List (OutboxMessage B)) (xip : List ℕ) (x : ℕ)
      → contains x xip ≡ true
      → x ≤ newest
      → has_row ring g x rows ≡ true
      → owes_in_progress ring g newest rows xip ≡ true
  unfolding contains owes_in_progress
  in_progress-owes g newest rows [] x m le h = absurd (cc)
  in_progress-owes g newest rows (y ∷ xip) x m le h = elim (Bool-cases (y == x)) [
    | inl here ↦ let e : y ≡ x = ground arith in rw e (rw h (ground arith))
    | inr later ↦ ground (arith, in_progress-owes g newest rows xip x)
  ]

  pub not_pins-sees :
      (c : Candidate) (rows : List (OutboxMessage B)) (o : Offset) (xid : ℕ)
      → pins ring c rows o ≡ false
      → xid ≤ c.newest
      → has_row ring c.generation xid rows ≡ true
      → sees xid o.position.delivered ≡ true
  unfolding pins sees
  not_pins-sees c rows o xid h le row = elim (Bool-cases (contains xid o.position.delivered.xip)) [
    | inl still ↦ absurd (
        ground (
          arith,
          in_progress-owes c.generation c.newest rows o.position.delivered.xip xid still le row,
        ))
    | inr ended ↦ ground arith
  ]

  pub pinned-none :
      (c : Candidate) (s : Store B) (offsets : List Offset)
      → pinned ring c s offsets ≡ none
      → AllOffsets (λ o. pins ring c s.rows o ≡ false) offsets
  unfolding pinned
  pinned-none c s [] h = tt
  pinned-none c s (o ∷ offsets) h = elim (Bool-cases (pins ring c s.rows o)) [
    | inl pinning ↦ let found : some o ≡ none = rw pinning at h in absurd (cc)
    | inr passed ↦ (passed, pinned-none c s offsets (rw passed at h))
  ]

  pub rows-has_row :
      (g : ℕ) (rows : List (OutboxMessage B))
      → All (λ r. lies_in ring g r ≡ true → has_row ring g r.transaction_id rows ≡ true) rows
  unfolding has_row
  rows-has_row g [] = tt
  rows-has_row g (r ∷ rows) =
      ((λ e. ground arith), All-map _ _ rows (λ q k e. ground (arith, k e)) (rows-has_row g rows))
