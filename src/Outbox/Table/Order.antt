-- ===== src/Outbox/Table/Order.antt =====
-- Rows in the order of their positions, and merges of selections of them.
use ascetic_ddd_rust.Prelude.{
  ℕ, zero, suc, ◌≤◌, List, [], ◌∷◌, Bool, true, false, ◌&&◌, ◌||◌, ◌≡◌, refl, sym, ap, ◌∙◌, arith,
  ltb, take, retain, Bool-cases, inl, inr,
}
use ascetic_ddd_rust.Outbox.Table.{OutboxMessage, Above, merge}

module _ {B : Type 0} where
  pub take-take : (n m : ℕ) (xs : List (OutboxMessage B)) → n ≤ m → take n (take m xs) ≡ take n xs
  take-take zero m xs h = refl
  take-take (suc n) zero xs h = absurd (omega arith)
  take-take (suc n) (suc m) [] h = refl
  take-take (suc n) (suc m) (x ∷ xs) h = ap (◌∷◌ x) (take-take n m xs (omega arith))

  merge-cons_lt :
      (x y : OutboxMessage B) (xs ys : List (OutboxMessage B))
      → ltb y.position x.position ≡ true
      → merge (x ∷ xs) (y ∷ ys) ≡ y ∷ merge (x ∷ xs) ys
  unfolding merge
  merge-cons_lt x y xs ys e = rw (e, merge) refl

  merge-cons_ge :
      (x y : OutboxMessage B) (xs ys : List (OutboxMessage B))
      → ltb y.position x.position ≡ false
      → merge (x ∷ xs) (y ∷ ys) ≡ x ∷ merge xs (y ∷ ys)
  unfolding merge
  merge-cons_ge x y xs ys e = rw (e, merge) refl

  -- The first rows of a merge depend on the first of its sides.
  pub take-merge :
      (n m k : ℕ) (xs ys : List (OutboxMessage B))
      → n ≤ m
      → n ≤ k
      → take n (merge (take m xs) (take k ys)) ≡ take n (merge xs ys)
  unfolding merge
  take-merge zero m k xs ys h i = refl
  take-merge (suc n) zero k xs ys h i = absurd (omega arith)
  take-merge (suc n) (suc m) zero xs ys h i = absurd (omega arith)
  take-merge (suc n) (suc m) (suc k) [] ys h i = take-take (suc n) (suc k) ys i
  take-merge (suc n) (suc m) (suc k) (x ∷ xs) [] h i = ap (◌∷◌ x) (take-take n m xs (omega arith))
  take-merge (suc n) (suc m) (suc k) (x ∷ xs) (y ∷ ys) h i =
      elim (Bool-cases (ltb y.position x.position)) [
        | inl below ↦
            ap (take (suc n)) (merge-cons_lt x y (take m xs) (take k ys) below)
            ∙ ap (◌∷◌ y) (take-merge n (suc m) k (x ∷ xs) ys (omega arith) (omega arith))
            ∙ sym (ap (take (suc n)) (merge-cons_lt x y xs ys below))
        | inr above ↦
            ap (take (suc n)) (merge-cons_ge x y (take m xs) (take k ys) above)
            ∙ ap (◌∷◌ x) (take-merge n m (suc k) xs (y ∷ ys) (omega arith) (omega arith))
            ∙ sym (ap (take (suc n)) (merge-cons_ge x y xs ys above))
      ]

  -- A row in order goes before those above it.
  merge-below_left :
      (x : OutboxMessage B) (xs ys : List (OutboxMessage B))
      → Above x.position ys
      → merge (x ∷ xs) ys ≡ x ∷ merge xs ys
  unfolding merge Above
  merge-below_left x [] [] h = refl
  merge-below_left x (z ∷ xs) [] h = refl
  merge-below_left x xs (y ∷ ys) h = merge-cons_ge x y xs ys (ground arith)

  merge-below_right :
      (y : OutboxMessage B) (xs ys : List (OutboxMessage B))
      → Above y.position xs
      → merge xs (y ∷ ys) ≡ y ∷ merge xs ys
  unfolding merge Above
  merge-below_right y [] ys h = refl
  merge-below_right y (x ∷ xs) ys h = merge-cons_lt x y xs ys (ground arith)

  pub Above-weaken :
      (low low' : ℕ) (rows : List (OutboxMessage B)) → low' ≤ low → Above low rows → Above low' rows
  unfolding Above
  Above-weaken low low' [] le h = h
  Above-weaken low low' (r ∷ rows) le h = (omega arith, h.1)

  pub retain-Above :
      (p : OutboxMessage B → Bool) (low : ℕ) (rows : List (OutboxMessage B))
      → Above low rows
      → Above low (retain p rows)
  unfolding Above
  retain-Above p low [] h = h
  retain-Above p low (r ∷ rows) h = elim (Bool-cases (p r)) [
    | inl yes_p ↦ rw yes_p (h.0, retain-Above p r.position rows h.1)
    | inr no_p ↦ rw no_p (
        Above-weaken r.position low (retain p rows) (omega arith)
          (retain-Above p r.position rows h.1))
  ]

  -- The merge of two disjoint selections of rows in order is the selection of both.
  pub merge-retain :
      (p q : OutboxMessage B → Bool) (low : ℕ) (rows : List (OutboxMessage B))
      → ((r : OutboxMessage B) → (p r && q r) ≡ false)
      → Above low rows
      → merge (retain p rows) (retain q rows) ≡ retain (λ r. p r || q r) rows
  unfolding Above
  merge-retain p q low [] apart h = unfold merge in refl
  merge-retain p q low (r ∷ rows) apart h =
      let rest = merge-retain p q r.position rows apart h.1 in
      let apart_r = apart r in
      elim (Bool-cases (p r)) [
        | inl in_p ↦
            let out_q : q r ≡ false = ground arith in
            rw (in_p, out_q)
              (merge-below_left r (retain p rows) (retain q rows)
                  (retain-Above q r.position rows h.1)
                ∙ ap (◌∷◌ r) rest)
        | inr out_p ↦ elim (Bool-cases (q r)) [
          | inl in_q ↦
              rw (out_p, in_q)
                (merge-below_right r (retain p rows) (retain q rows)
                    (retain-Above p r.position rows h.1)
                  ∙ ap (◌∷◌ r) rest)
          | inr out_q ↦ rw (out_p, out_q) rest
        ]
      ]
