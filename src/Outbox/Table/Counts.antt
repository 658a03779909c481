-- ===== src/Outbox/Table/Counts.antt =====
-- How often the rows of a table stand in selections of it.
use ascetic_ddd_rust.Prelude.{
  ℕ, zero, suc, ◌+◌, ◌≤◌, ◌<◌, List, [], ◌∷◌, ◌++◌, Bool, true, false, ◌&&◌, ◌≡◌, refl, ap, arith,
  ltb, leb, if◌then◌else◌, length, take, retain, Bool-cases, inl, inr,
}
use ascetic_ddd_rust.Outbox.Table.{OutboxMessage, All, Above, times, one_if, last_position}
use ascetic_ddd_rust.Outbox.Table.Order.{Above-weaken, retain-Above}

module _ {B : Type 0} where
  pub All-map {ℓ κ} :
      (P : OutboxMessage B → Type ℓ) (Q : OutboxMessage B → Type κ) (rows : List (OutboxMessage B))
      → ((r : OutboxMessage B) → P r → Q r)
      → All P rows
      → All Q rows
  All-map P Q [] f h = tt
  All-map P Q (r ∷ rows) f h = (f r h.0, All-map P Q rows f h.1)

  pub All-zip {ℓ κ} :
      (P : OutboxMessage B → Type ℓ) (Q : OutboxMessage B → Type κ) (rows : List (OutboxMessage B))
      → All P rows
      → All Q rows
      → All (λ r. P r × Q r) rows
  All-zip P Q [] h k = tt
  All-zip P Q (r ∷ rows) h k = ((h.0, k.0), All-zip P Q rows h.1 k.1)

  -- What holds of the rows that are kept holds of each row that passes.
  pub All-retain {ℓ} :
      (P : OutboxMessage B → Type ℓ) (f : OutboxMessage B → Bool) (rows : List (OutboxMessage B))
      → All P (retain f rows)
      → All (λ r. f r ≡ true → P r) rows
  All-retain P f [] h = tt
  All-retain P f (r ∷ rows) h = elim (Bool-cases (f r)) [
    | inl kept ↦
        let k : P r × All P (retain f rows) = rw kept at h in (λ e. k.0, All-retain P f rows k.1)
    | inr dropped ↦
        let k : All P (retain f rows) = rw dropped at h in
        (λ e. absurd (ground arith), All-retain P f rows k)
  ]

  pub retain_ext :
      (f g : OutboxMessage B → Bool) (rows : List (OutboxMessage B))
      → All (λ r. f r ≡ g r) rows
      → retain f rows ≡ retain g rows
  retain_ext f g [] h = refl
  retain_ext f g (r ∷ rows) h = rw (h.0, retain_ext f g rows h.1) refl

  pub All-above :
      (low : ℕ) (rows : List (OutboxMessage B)) → Above low rows → All (λ r. low < r.position) rows
  unfolding Above
  All-above low [] h = tt
  All-above low (r ∷ rows) h =
      (h.0, All-above low rows (Above-weaken r.position low rows (omega arith) h.1))

  pub times-append :
      (p : ℕ) (xs ys : List (OutboxMessage B)) → times p (xs ++ ys) ≡ times p xs + times p ys
  unfolding times
  times-append p [] ys = omega arith
  times-append p (x ∷ xs) ys = ground (arith, times-append p xs ys)

  pub times-below :
      (p low : ℕ) (rows : List (OutboxMessage B)) → Above low rows → p ≤ low → times p rows ≡ 0
  unfolding times Above
  times-below p low [] h le = refl
  times-below p low (r ∷ rows) h le = ground (arith, times-below p r.position rows h.1)

  -- A row stands once in a selection that takes it, and not in another.
  pub times-retain :
      (f : OutboxMessage B → Bool) (low : ℕ) (rows : List (OutboxMessage B))
      → Above low rows
      → All (λ r. times r.position (retain f rows) ≡ one_if (f r)) rows
  unfolding times Above
  times-retain f low [] h = tt
  times-retain f low (r ∷ rows) h = (
    ground (
      arith,
      times-below r.position r.position (retain f rows) (retain-Above f r.position rows h.1),
    ),
    All-map _ _ rows (λ s k. ground (arith, k.0, k.1))
        (All-zip _ _ rows (All-above r.position rows h.1) (times-retain f r.position rows h.1)),
  )

  pub times-retain_absent :
      (f : OutboxMessage B → Bool) (n : ℕ) (rows : List (OutboxMessage B))
      → times n rows ≡ 0
      → times n (retain f rows) ≡ 0
  unfolding times
  times-retain_absent f n [] h = h
  times-retain_absent f n (r ∷ rows) h = ground (arith, times-retain_absent f n rows)

  pub last_position-le :
      (n offset : ℕ) (rows : List (OutboxMessage B))
      → Above offset rows
      → offset ≤ last_position offset (take n rows)
  unfolding last_position Above
  last_position-le zero offset rows h = omega arith
  last_position-le (suc n) offset [] h = omega arith
  last_position-le (suc n) offset (r ∷ rows) h =
      omega (arith, last_position-le n r.position rows h.1)

  pub take-Above : (m low : ℕ) (xs : List (OutboxMessage B)) → Above low xs → Above low (take m xs)
  unfolding Above
  take-Above zero low xs a = tt
  take-Above (suc m) low [] a = tt
  take-Above (suc m) low (x ∷ xs) a = (a.0, take-Above m x.position xs a.1)

  pub times-take_absent :
      (m n : ℕ) (rows : List (OutboxMessage B)) → times n rows ≡ 0 → times n (take m rows) ≡ 0
  unfolding times
  times-take_absent zero n rows h = refl
  times-take_absent (suc m) n [] h = refl
  times-take_absent (suc m) n (r ∷ rows) h = ground (arith, times-take_absent m n rows)

  -- The first rows are those up to the last of them.
  pub times-take :
      (n q offset : ℕ) (rows : List (OutboxMessage B))
      → Above offset rows
      → offset < q
      → times q (take n rows)
        ≡ (if leb q (last_position offset (take n rows)) then times q rows else 0)
  unfolding times last_position Above
  times-take zero q offset rows h lt = ground arith
  times-take (suc n) q offset [] h lt = ground arith
  times-take (suc n) q offset (r ∷ rows) h lt = ground (
    arith,
    last_position-le n r.position rows h.1,
    times-below q r.position rows h.1,
    times-take n q r.position rows h.1,
    times-below q r.position (take n rows) (take-Above n r.position rows h.1),
  )

  -- So a row past an offset stands among the first if it is there and no further than the last.
  pub times-take_first :
      (n q offset : ℕ) (b : Bool) (rows : List (OutboxMessage B))
      → Above offset rows
      → (ltb offset q ≡ false → b ≡ false)
      → times q rows ≡ one_if b
      → times q (take n rows) ≡ one_if (b && leb q (last_position offset (take n rows)))
  times-take_first n q offset b rows h past e = elim (Bool-cases (ltb offset q)) [
    | inl later ↦ ground (arith, times-take n q offset rows h)
    | inr before ↦
        ground (arith, past before, times-below q offset (take n rows) (take-Above n offset rows h))
  ]

  -- A selection of rows past an offset.
  pub retain-Above_past :
      (f : OutboxMessage B → Bool) (offset low : ℕ) (rows : List (OutboxMessage B))
      → ((r : OutboxMessage B) → f r ≡ true → offset < r.position)
      → Above low rows
      → Above offset (retain f rows)
  unfolding Above
  retain-Above_past f offset low [] past h = tt
  retain-Above_past f offset low (r ∷ rows) past h = elim (Bool-cases (f r)) [
    | inl kept ↦ rw kept (past r kept, retain-Above f r.position rows h.1)
    | inr dropped ↦ rw dropped (retain-Above_past f offset r.position rows past h.1)
  ]

  pub take-all :
      (n : ℕ) (rows : List (OutboxMessage B)) → length (take n rows) < n → take n rows ≡ rows
  take-all zero rows h = absurd (omega arith)
  take-all (suc n) [] h = refl
  take-all (suc n) (r ∷ rows) h = ap (◌∷◌ r) (take-all n rows (omega arith))
