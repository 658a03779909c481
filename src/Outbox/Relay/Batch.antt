-- ===== src/Outbox/Relay/Batch.antt =====
-- A batch that is read by generations is the batch of the whole table.
use Prim.Native.String.{String}
use ascetic_ddd_rust.Prelude.{
  ℕ, ◌-◌, ◌<◌, max, List, [], ◌∷◌, Bool, true, false, not, ◌&&◌, ◌||◌, ◌≡◌, refl, sym, ap, ◌∙◌,
  arith, map, ltb, leb, ◌==◌, take, retain, Bool-cases, inl, inr,
}
use ascetic_ddd_rust.Outbox.Snapshot.{Snapshot, sees}
use ascetic_ddd_rust.Outbox.Ring.{Ring, generation_of}
use ascetic_ddd_rust.Outbox.Position.{Generation, Epoch}
use ascetic_ddd_rust.Outbox.Table.{OutboxMessage, View, Texts, All, Above, merge, merge_all}
use ascetic_ddd_rust.Outbox.Table.Order.{take-take, take-merge, merge-retain}
use ascetic_ddd_rust.Outbox.Table.Counts.{All-map, All-zip, All-above, retain_ext}
use ascetic_ddd_rust.Outbox.Relay.{in_lane, in_branch, read_batch}

unfoldable pub has_name : ℕ → List Generation → Bool
has_name n [] = false
has_name n (g ∷ gens) = g.generation == n || has_name n gens

-- No generation stands twice.
unfoldable pub Distinct : List Generation → Type 0
Distinct [] = Unit
Distinct (g ∷ gens) = (has_name g.generation gens ≡ false) × Distinct gens

has_name-retain :
    (n : ℕ) (p : Generation → Bool) (gens : List Generation)
    → has_name n gens ≡ false
    → has_name n (retain p gens) ≡ false
unfolding has_name
has_name-retain n p [] h = refl
has_name-retain n p (g ∷ gens) h = ground (arith, has_name-retain n p gens)

retain-Distinct :
    (p : Generation → Bool) (gens : List Generation) → Distinct gens → Distinct (retain p gens)
unfolding Distinct
retain-Distinct p [] d = d
retain-Distinct p (g ∷ gens) d =
    ground (arith, has_name-retain g.generation p gens, retain-Distinct p gens d.1)

-- The later of the offset and the position before the first.
past_both :
    (offset first position : ℕ)
    → 0 < position
    → ltb (max offset (first - 1)) position ≡ (ltb offset position && leb first position)
past_both offset first position h = ground arith

regroup :
    (live g lane past lo hi owed : Bool)
    → ((past && hi) ≡ true → live ≡ true)
    → (live && (g && (lane && (((past && lo) && hi) && owed))))
      ≡ (((g && (lo && hi)) || false) && ((lane && owed) && past))
regroup true g lane past lo hi owed h = ground arith
regroup false g lane true lo true owed h = absurd (ground (arith, h refl))
regroup false g lane false lo hi owed h = ground arith
regroup false g lane true lo false owed h = ground arith

distribute : (a b c : Bool) → (((a || false) && c) || (b && c)) ≡ ((a || b) && c)
distribute true b true = refl
distribute true b false = ground arith
distribute false b c = refl

module _ {B : Type 0} (ring : Ring) where
  -- A row lies in one of the generations, within its bounds.
  unfoldable pub is_named : List Generation → OutboxMessage B → Bool
  is_named [] r = false
  is_named (g ∷ gens) r =
      (generation_of r.transaction_id ring == g.generation
        && (leb g.first r.position && leb r.position g.last))
      || is_named gens r

module _ {B : Type 0} (ring : Ring) (texts : Texts) (slot : ℕ) (uri : String) (epoch : Epoch)
    (delivered : Snapshot) where
  -- A row that an epoch owes the lane.
  unfoldable pub is_owed : OutboxMessage B → Bool
  is_owed r =
      in_lane ring texts slot uri r
      && (sees r.transaction_id epoch.snapshot && not (sees r.transaction_id delivered))

  any_branch : List Generation → OutboxMessage B → Bool
  any_branch [] r = false
  any_branch (g ∷ gens) r = in_branch ring texts slot uri epoch delivered g r || any_branch gens r

  branch-apart :
      (g : Generation) (gens : List Generation) (r : OutboxMessage B)
      → has_name g.generation gens ≡ false
      → (in_branch ring texts slot uri epoch delivered g r && any_branch gens r) ≡ false
  unfolding in_branch any_branch has_name
  branch-apart g [] r h = ground arith
  branch-apart g (g' ∷ gens) r h = ground (arith, branch-apart g gens r)

  retain-none : (rows : List (OutboxMessage B)) → retain (λ r. false) rows ≡ []
  retain-none [] = refl
  retain-none (r ∷ rows) = retain-none rows

  take-merge_all :
      (n low : ℕ) (gens : List Generation) (rows : List (OutboxMessage B))
      → Distinct gens
      → Above low rows
      → take n (
          merge_all (
            map (λ g. take n (retain (in_branch ring texts slot uri epoch delivered g) rows)) gens))
        ≡ take n (retain (any_branch gens) rows)
  unfolding merge_all any_branch Distinct
  take-merge_all n low [] rows d h = ap (take n) (sym (retain-none rows))
  take-merge_all n low (g ∷ gens) rows d h =
      let branch =
        λ (g : Generation). retain (in_branch ring texts slot uri epoch delivered g) rows in
      let later = merge_all (map (λ g. take n (branch g)) gens) in
      let rest = retain (any_branch gens) rows in
      sym (take-merge n n n (take n (branch g)) later (omega arith) (omega arith))
      ∙ ap (λ v. take n (merge (take n (take n (branch g))) v))
          (take-merge_all n low gens rows d.1 h)
      ∙ ap (λ v. take n (merge v (take n rest))) (take-take n n (branch g) (omega arith))
      ∙ take-merge n n n (branch g) rest (omega arith) (omega arith)
      ∙ ap (take n) (merge-retain _ _ low rows (λ r. branch-apart g gens r d.0) h)

  -- A generation that is passed by has no row past the offset.
  branch_live :
      (g : Generation) (r : OutboxMessage B)
      → 0 < r.position
      → (ltb epoch.offset g.last && in_branch ring texts slot uri epoch delivered g r)
        ≡ (is_named ring (g ∷ []) r && (is_owed r && ltb epoch.offset r.position))
  unfolding in_branch is_named is_owed
  branch_live g r pos = rw (past_both epoch.offset g.first r.position pos) (
      regroup (ltb epoch.offset g.last) (generation_of r.transaction_id ring == g.generation)
        (in_lane ring texts slot uri r) (ltb epoch.offset r.position) (leb g.first r.position)
        (leb r.position g.last)
        (sees r.transaction_id epoch.snapshot && not (sees r.transaction_id delivered))
        (λ h. ground arith))

  any_branch-retain :
      (p : Generation → Bool) (g : Generation) (gens : List Generation) (r : OutboxMessage B)
      → any_branch (retain p (g ∷ gens)) r ≡ (
          (p g && in_branch ring texts slot uri epoch delivered g r)
          || any_branch (retain p gens) r)
  unfolding any_branch
  any_branch-retain p g gens r = elim (Bool-cases (p g)) [
    | inl kept ↦ rw kept refl
    | inr dropped ↦ rw dropped refl
  ]

  any_branch_live :
      (gens : List Generation) (r : OutboxMessage B)
      → 0 < r.position
      → any_branch (retain (λ (g : Generation). ltb epoch.offset g.last) gens) r
        ≡ (is_named ring gens r && (is_owed r && ltb epoch.offset r.position))
  unfolding is_named
  any_branch_live [] r pos = unfold any_branch in refl
  any_branch_live (g ∷ gens) r pos =
      any_branch-retain (λ (g : Generation). ltb epoch.offset g.last) g gens r
      ∙ rw (branch_live g r pos, any_branch_live gens r pos)
          (distribute _ (is_named ring gens r) (is_owed r && ltb epoch.offset r.position))

  -- On a table in order, with generations of which none stands twice and that name every row owed,
  -- the batch that is merged from limited branches is the first rows owed past the offset.
  pub read_batch_lem :
      (limit : ℕ) (view : View B)
      → Above 0 view.rows
      → Distinct epoch.generations
      → All (λ r. is_owed r ≡ true → is_named ring epoch.generations r ≡ true) view.rows
      → read_batch ring texts slot uri limit view epoch delivered
        ≡ take limit (retain (λ r. is_owed r && ltb epoch.offset r.position) view.rows)
  unfolding read_batch
  read_batch_lem limit view h d named =
      take-merge_all limit 0 _ view.rows (retain-Distinct _ epoch.generations d) h
      ∙ ap (take limit) (
          retain_ext _ _ view.rows (
            All-map _ _ view.rows
              (λ r k. any_branch_live epoch.generations r k.0 ∙ ground (arith, k.1))
              (All-zip _ _ view.rows (All-above 0 view.rows h) named)))
