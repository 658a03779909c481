-- ===== src/Outbox/Table/Past.antt =====
-- The rows of a table past an offset, and what holds of the rows of a batch.
use ascetic_ddd_rust.Prelude.{
  ℕ, zero, suc, ◌≤◌, ◌<◌, List, [], ◌∷◌, Bool, true, ◌≡◌, inl, inr, arith, ltb, length, take,
  retain, Bool-cases,
}
use ascetic_ddd_rust.Outbox.Table.{OutboxMessage, All, merge, last_position}
use ascetic_ddd_rust.Outbox.Table.Counts.{All-map}

module _ {B : Type 0} where
  -- The rows past an offset, counted.
  pub left : ℕ → List (OutboxMessage B) → ℕ
  left offset rows = length (retain (λ r. ltb offset r.position) rows)

  pub left-le : (offset : ℕ) (rows : List (OutboxMessage B)) → left offset rows ≤ length rows
  unfolding left
  left-le offset [] = omega arith
  left-le offset (r ∷ rows) = ground (arith, left-le offset rows)

  left_mono :
      (low high : ℕ) (rows : List (OutboxMessage B)) → low ≤ high → left high rows ≤ left low rows
  unfolding left
  left_mono low high [] h = omega arith
  left_mono low high (r ∷ rows) h = ground (arith, left_mono low high rows h)

  -- Past a row that is past the offset there are fewer.
  pub left-lt :
      (offset : ℕ) (rows : List (OutboxMessage B))
      → All (λ r. ltb offset r.position ≡ true → left r.position rows < left offset rows) rows
  unfolding left
  left-lt offset [] = tt
  left-lt offset (x ∷ xs) = (
    (λ past. ground (arith, left_mono offset x.position xs)),
    All-map _ _ xs (λ r k past. ground (arith, k past)) (left-lt offset xs),
  )

  pub All-take {ℓ} :
      (Q : OutboxMessage B → Type ℓ) (n : ℕ) (rows : List (OutboxMessage B))
      → All Q rows
      → All Q (take n rows)
  All-take Q zero rows h = tt
  All-take Q (suc n) [] h = tt
  All-take Q (suc n) (r ∷ rows) h = (h.0, All-take Q n rows h.1)

  pub retain-All {ℓ} :
      (Q : OutboxMessage B → Type ℓ) (f : OutboxMessage B → Bool) (rows : List (OutboxMessage B))
      → All (λ r. f r ≡ true → Q r) rows
      → All Q (retain f rows)
  retain-All Q f [] h = tt
  retain-All Q f (r ∷ rows) h = elim (Bool-cases (f r)) [
    | inl kept ↦ rw kept (h.0 kept, retain-All Q f rows h.1)
    | inr dropped ↦ rw dropped (retain-All Q f rows h.1)
  ]

  pub All-merge {ℓ} :
      (Q : OutboxMessage B → Type ℓ) (xs ys : List (OutboxMessage B))
      → All Q xs
      → All Q ys
      → All Q (merge xs ys)
  unfolding merge
  All-merge Q [] ys h k = k
  All-merge Q (x ∷ xs) [] h k = h
  All-merge Q (x ∷ xs) (y ∷ ys) h k = elim (Bool-cases (ltb y.position x.position)) [
    | inl before ↦ rw (before, All) (k.0, All-merge Q (x ∷ xs) ys h k.1)
    | inr after ↦ rw (after, All) (h.0, All-merge Q xs (y ∷ ys) h.1 k)
  ]

  last_position-Holds {ℓ} :
      (Q : ℕ → Type ℓ) (offset : ℕ) (rows : List (OutboxMessage B))
      → Q offset
      → All (λ r. Q r.position) rows
      → Q (last_position offset rows)
  unfolding last_position
  last_position-Holds Q offset [] q h = q
  last_position-Holds Q offset (r ∷ rows) q h = last_position-Holds Q r.position rows h.0 h.1

  pub left-last_position :
      (m offset : ℕ) (all rows : List (OutboxMessage B))
      → 0 < length rows
      → All (λ r. left r.position all < m) rows
      → left (last_position offset rows) all < m
  unfolding last_position
  left-last_position m offset all [] h k = absurd (omega arith)
  left-last_position m offset all (r ∷ rows) h k =
      last_position-Holds (λ n. left n all < m) r.position rows k.0 k.1
