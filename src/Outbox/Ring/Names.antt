-- ===== src/Outbox/Ring/Names.antt =====
-- The generations that an epoch names are those of its new ids.
use ascetic_ddd_rust.Prelude.{
  ℕ, ◌+◌, ◌-◌, ◌/◌, ◌%◌, ◌≤◌, ◌<◌, List, [], ◌∷◌, true, false, ◌&&◌, ◌||◌, ◌⊎◌, ◌↔◌, inl, inr, ◌≡◌,
  refl, ap, ◌∙◌, arith, leb, leb→le, map, retain, ◌==◌, Bool-cases,
}
use native.Mathlib.Nat.{mod-lt}
use ascetic_ddd_rust.Prelude.BTreeSet
use ascetic_ddd_rust.Prelude.BTreeSet.{contains}
use ascetic_ddd_rust.Outbox.Snapshot.{Snapshot, sees}
use ascetic_ddd_rust.Outbox.Ring.{Ring, generation_of, range, generations_between, generations_new}
use ascetic_ddd_rust.Outbox.Ring.Windows.{
  contains-map_mod, map_mod-contains, contains-range, lap-window, id-in_window, window-in_range,
}

pub record IsReady (r : Ring) : Type 0 where
  pub generations_pos : 0 < r.generations
  pub window_pos : 0 < r.window

-- An id that an epoch may see and what was delivered does not.
pub IsNew : ℕ → Snapshot → Snapshot → Type 0
IsNew xid delivered epoch =
    ((delivered.xmax ≤ xid) × (xid < epoch.xmax))
    ⊎ ((contains xid delivered.xip ≡ true) × (sees xid epoch ≡ true))

owed-IsNew :
    (xid : ℕ) (delivered epoch : Snapshot)
    → epoch.xmin ≤ epoch.xmax
    → sees xid epoch ≡ true
    → sees xid delivered ≡ false
    → IsNew xid delivered epoch
unfolding IsNew sees
owed-IsNew xid delivered epoch le seen owed = elim (Bool-cases (leb delivered.xmax xid)) [
  | inl above ↦ inl (leb→le _ _ above, ground arith)
  | inr inside ↦ inr (ground arith, seen)
]

pub generations_new-From :
    (r : Ring) (delivered epoch : Snapshot) → BTreeSet.From 0 (generations_new r delivered epoch)
unfolding generations_new generations_between
generations_new-From r delivered epoch =
    BTreeSet.extend-From
      (map (λ xid. generation_of xid r) (retain (λ xid. sees xid epoch) delivered.xip))
      (generations_between r delivered.xmax epoch.xmax)
      (elim (Bool-cases (leb epoch.xmax delivered.xmax)) [
        | inl empty ↦ rw empty (unfold BTreeSet.From in tt)
        | inr some_new ↦
            rw some_new
              (elim (Bool-cases
                (leb r.generations ((epoch.xmax - 1) / r.window - delivered.xmax / r.window + 1))) [
                  | inl lap ↦ rw lap (BTreeSet.collect-From _)
                  | inr part ↦ rw part (BTreeSet.collect-From _)
                ])
      ])

module _ (r : Ring) (h : IsReady r) where
  between-lt : (g from to : ℕ) → contains g (generations_between r from to) ≡ true → from < to
  unfolding generations_between contains
  between-lt g from to c = ground arith

  -- A generation is named by a window of the range.
  between-window :
      (g from to : ℕ)
      → from < to
      → contains g (generations_between r from to) ≡ true
      → (w : ℕ) × (from / r.window ≤ w) × (w ≤ (to - 1) / r.window) × (w % r.generations ≡ g)
  unfolding generations_between
  between-window g from to lt c =
      let in_range = window-in_range r.window from to from h.window_pos (omega arith) lt in
      elim (Bool-cases (leb r.generations ((to - 1) / r.window - from / r.window + 1))) [
        | inl lap ↦
            let below : g < r.generations = ground (
              arith,
              BTreeSet.contains-collect g (range 0 r.generations),
              contains-range g 0 r.generations,
            ) in
            let (w, lo, hi, e) = lap-window g r.generations (from / r.window) below in
            (w, lo, ground arith, e)
        | inr part ↦
            let (w, lo, hi, e) =
              contains-map_mod g r.generations (from / r.window)
                ((to - 1) / r.window + 1 - from / r.window)
                (ground (
                  arith,
                  BTreeSet.contains-collect g (
                      map (λ w. w % r.generations)
                        (range (from / r.window) ((to - 1) / r.window + 1 - from / r.window))),
                )) in
            (w, lo, omega (arith, in_range), e)
      ]

  between-id :
      (g from to : ℕ)
      → contains g (generations_between r from to) ≡ true
      → (xid : ℕ) × (from ≤ xid) × (xid < to) × (generation_of xid r ≡ g)
  unfolding generation_of
  between-id g from to c =
      let lt = between-lt g from to c in
      let (w, lo, hi, e) = between-window g from to lt c in
      let (xid, after, before, in_w) = id-in_window r.window from to w h.window_pos lt lo hi in
      (xid, after, before, ap (λ v. v % r.generations) in_w ∙ e)

  id-between :
      (from to xid : ℕ)
      → from ≤ xid
      → xid < to
      → contains (generation_of xid r) (generations_between r from to) ≡ true
  unfolding generations_between generation_of
  id-between from to xid lo hi =
      let (first, last) = window-in_range r.window from to xid h.window_pos lo hi in
      ground (
        arith,
        BTreeSet.contains-collect (xid / r.window % r.generations) (range 0 r.generations),
        contains-range (xid / r.window % r.generations) 0 r.generations,
        mod-lt (xid / r.window) h.generations_pos,
        BTreeSet.contains-collect (xid / r.window % r.generations) (
            map (λ w. w % r.generations)
              (range (from / r.window) ((to - 1) / r.window + 1 - from / r.window))),
        map_mod-contains r.generations (xid / r.window) (from / r.window)
            ((to - 1) / r.window + 1 - from / r.window),
      )

  -- The generations of the ids in progress that the epoch sees.
  ended-id :
      (g : ℕ) (epoch : Snapshot) (xs : List ℕ)
      → contains g (map (λ xid. generation_of xid r) (retain (λ xid. sees xid epoch) xs)) ≡ true
      → (xid : ℕ) × (contains xid xs ≡ true) × (sees xid epoch ≡ true) × (generation_of xid r ≡ g)
  unfolding contains
  ended-id g epoch [] c = cc
  ended-id g epoch (x ∷ xs) c = elim (Bool-cases (sees x epoch && generation_of x r == g)) [
    | inl here ↦ (x, ground arith, ground arith, ground arith)
    | inr later ↦
        let (xid, m, s, e) = ended-id g epoch xs (ground arith) in (xid, ground arith, s, e)
  ]

  id-ended :
      (epoch : Snapshot) (xs : List ℕ) (xid : ℕ)
      → contains xid xs ≡ true
      → sees xid epoch ≡ true
      → contains
          (generation_of xid r)
          (map (λ x. generation_of x r) (retain (λ x. sees x epoch) xs))
        ≡ true
  unfolding contains
  id-ended epoch [] xid m s = cc
  id-ended epoch (x ∷ xs) xid m s = ground (arith, id-ended epoch xs xid)

  contains-generations_new :
      (g : ℕ) (delivered epoch : Snapshot)
      → contains g (generations_new r delivered epoch) ≡ (
          contains g
            (map (λ xid. generation_of xid r) (retain (λ xid. sees xid epoch) delivered.xip))
          || contains g (generations_between r delivered.xmax epoch.xmax))
  unfolding generations_new
  contains-generations_new g delivered epoch = BTreeSet.contains-extend g _ _

  -- On a ring of at least one generation and one id to a window, an epoch names a generation
  -- exactly when the rows of some new id land in it: of an id from the highest that was delivered
  -- up to that of the epoch, or of one that was in progress and that the epoch sees.
  pub generations_new-exact :
      (g : ℕ) (delivered epoch : Snapshot)
      → (contains g (generations_new r delivered epoch) ≡ true)
        ↔ ((xid : ℕ) × (generation_of xid r ≡ g) × IsNew xid delivered epoch)
  unfolding IsNew
  generations_new-exact g delivered epoch = (named, new)
    where
      named :
          contains g (generations_new r delivered epoch) ≡ true
          → (xid : ℕ) × (generation_of xid r ≡ g) × IsNew xid delivered epoch
      named c = elim (Bool-cases (contains g (generations_between r delivered.xmax epoch.xmax))) [
        | inl between ↦
            let (xid, lo, hi, e) = between-id g delivered.xmax epoch.xmax between in
            (xid, e, inl (lo, hi))
        | inr ended ↦
            let (xid, m, s, e) =
              ended-id g epoch delivered.xip
                (ground (arith, contains-generations_new g delivered epoch)) in
            (xid, e, inr (m, s))
      ]

      new :
          ((xid : ℕ) × (generation_of xid r ≡ g) × IsNew xid delivered epoch)
          → contains g (generations_new r delivered epoch) ≡ true
      new (xid, e, inl (lo, hi)) =
          rw (← e, contains-generations_new)
            (ground (arith, id-between delivered.xmax epoch.xmax xid lo hi))
      new (xid, e, inr (m, s)) =
          rw (← e, contains-generations_new) (ground (arith, id-ended epoch delivered.xip xid m s))

  -- So every row that an epoch sees and that was not delivered lies in a generation it names, where
  -- the lower bound of its snapshot is no higher than the upper.
  pub generations_new-cover :
      (xid : ℕ) (delivered epoch : Snapshot)
      → epoch.xmin ≤ epoch.xmax
      → sees xid epoch ≡ true
      → sees xid delivered ≡ false
      → contains (generation_of xid r) (generations_new r delivered epoch) ≡ true
  generations_new-cover xid delivered epoch le seen owed =
      (generations_new-exact _ delivered epoch).1
        (xid, refl, owed-IsNew xid delivered epoch le seen owed)
