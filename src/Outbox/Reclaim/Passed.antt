-- ===== src/Outbox/Reclaim/Passed.antt =====
-- A pass of the reclamation empties only rows that every group has handed on.
use ascetic_ddd_rust.Prelude.{
  List, [], ◌∷◌, Bool, true, false, not, Option, none, some, ◌≡◌, refl, ap, ◌∙◌, arith,
  if◌then◌else◌, retain,
}
use ascetic_ddd_rust.Prelude.Result.{Result}
use ascetic_ddd_rust.Outbox.Snapshot.{sees}
use ascetic_ddd_rust.Outbox.Ring.{Ring}
use ascetic_ddd_rust.Outbox.Table.{OutboxMessage, All}
use ascetic_ddd_rust.Outbox.Table.Counts.{All-map, All-zip}
use ascetic_ddd_rust.Outbox.Store.{Offset, Store, Error}
use ascetic_ddd_rust.Outbox.Store.Moves.{AllOffsets}
use ascetic_ddd_rust.Outbox.Reclaim.{
  Candidate, Reclaiming, Views, Reclamation, Skipped, or_skip, lies_in, pins, pinned, truncate,
  record_bounds, empty_unless, empty_locked, empty_generation, note_passed, lock_and_empty,
  when_passed, with_candidate, candidate, pass, first_passed,
}
use ascetic_ddd_rust.Outbox.Reclaim.Pins.{
  or_else-AtMost, AllOffsets-map, NoNewer, newest_of-NoNewer, not_pins-sees, pinned-none,
  rows-has_row,
}

module _ {B : Type 0} (ring : Ring) where
  -- What a pass leaves of the rows: those of a selection, and what it drops was handed on.
  abbrev pub KeepsOwed : Store B → Store B → Type 0
  KeepsOwed s s' =
      (keep : (OutboxMessage B → Bool)) × (s'.rows ≡ retain keep s.rows)
      × (s'.offsets ≡ s.offsets)
      × All
          (λ r.
            keep r ≡ false
            → AllOffsets (λ o. sees r.transaction_id o.position.delivered ≡ true) s.offsets)
          s.rows

  retain-all : (rows : List (OutboxMessage B)) → rows ≡ retain (λ r. true) rows
  retain-all [] = refl
  retain-all (r ∷ rows) = ap (λ rest. r ∷ rest) (retain-all rows)

  All-kept :
      (P : OutboxMessage B → Type 0) (rows : List (OutboxMessage B))
      → All (λ r. true ≡ false → P r) rows
  All-kept P [] = tt
  All-kept P (r ∷ rows) = ((λ e. absurd (cc)), All-kept P rows)

  -- A step that leaves the rows and the positions alone.
  KeepsOwed-same : (s s' : Store B) → s'.rows ≡ s.rows → s'.offsets ≡ s.offsets → KeepsOwed s s'
  KeepsOwed-same s s' h k = ((λ r. true), h ∙ retain-all s.rows, k, All-kept _ s.rows)

  if-KeepsOwed :
      (s : Store B) (b : Bool) (x y : Store B × Result Error Reclamation)
      → KeepsOwed s x.0
      → KeepsOwed s y.0
      → KeepsOwed s (if b then x else y).0
  if-KeepsOwed s true x y h k = h
  if-KeepsOwed s false x y h k = k

  or_skip-KeepsOwed :
      {A : Type 0} (s : Store B) (why : A → Skipped) (found : Option A)
      (rest : Store B × Result Error Reclamation)
      → KeepsOwed s rest.0
      → KeepsOwed s (or_skip ring s why found rest).0
  unfolding or_skip
  or_skip-KeepsOwed s why none rest h = h
  or_skip-KeepsOwed s why (some x) rest h = KeepsOwed-same s s refl refl

  -- With the newest id read under the lock, each row of the generation was handed on.
  emptied-passed :
      (c : Candidate) (s : Store B)
      → All (NoNewer ring c.generation (some c.newest)) s.rows
      → AllOffsets (λ o. pins ring c s.rows o ≡ false) s.offsets
      → All
          (λ r.
            not (lies_in ring c.generation r) ≡ false
            → AllOffsets (λ o. sees r.transaction_id o.position.delivered ≡ true) s.offsets)
          s.rows
  emptied-passed c s newest passed =
      All-map _ _ s.rows
        (λ r k dropped.
          let here : lies_in ring c.generation r ≡ true = ground arith in
          AllOffsets-map s.offsets
            (λ o unpinned.
              not_pins-sees ring c s.rows o r.transaction_id unpinned (k.0 here) (k.1 here))
            passed)
        (All-zip _ _ s.rows newest (rows-has_row ring c.generation s.rows))

  empty_unless-KeepsOwed :
      (c : Candidate) (s : Store B) (found : Option Offset)
      → pinned ring c s s.offsets ≡ found
      → All (NoNewer ring c.generation (some c.newest)) s.rows
      → KeepsOwed s (empty_unless ring c s found).0
  unfolding empty_unless truncate record_bounds
  empty_unless-KeepsOwed c s none h newest = (
    (λ r. not (lies_in ring c.generation r)),
    refl,
    refl,
    emptied-passed c s newest (pinned-none ring c s s.offsets h),
  )
  empty_unless-KeepsOwed c s (some o) h newest = KeepsOwed-same s s refl refl

  empty_generation-KeepsOwed :
      (c : Candidate) (s : Store B) → KeepsOwed s (empty_generation ring c s).0
  unfolding empty_generation empty_locked
  empty_generation-KeepsOwed c s = empty_unless-KeepsOwed _ s _ refl (
      All-map _ _ s.rows (λ r k here. or_else-AtMost r.transaction_id c.newest _ (k here))
        (newest_of-NoNewer ring c.generation s.rows))

  when_passed-KeepsOwed :
      (reclaiming : Reclaiming) (v : Views B) (c : Candidate)
      → KeepsOwed v.at_lock (when_passed ring reclaiming v c).0
  unfolding when_passed lock_and_empty note_passed
  when_passed-KeepsOwed reclaiming v c =
      let noted =
        note_passed ring c.generation (first_passed ring c.generation v.at_lock) v.at_lock in
      if-KeepsOwed v.at_lock _ _ _ (KeepsOwed-same v.at_lock noted refl refl) (
        if-KeepsOwed v.at_lock v.lock_granted _ _ (empty_generation-KeepsOwed c noted)
          (KeepsOwed-same v.at_lock noted refl refl))

  with_candidate-KeepsOwed :
      (reclaiming : Reclaiming) (v : Views B) (found : Option Candidate)
      → KeepsOwed v.at_lock (with_candidate ring reclaiming v found).0
  unfolding with_candidate
  with_candidate-KeepsOwed reclaiming v none = KeepsOwed-same v.at_lock v.at_lock refl refl
  with_candidate-KeepsOwed reclaiming v (some c) =
      if-KeepsOwed v.at_lock _ _ _ (KeepsOwed-same v.at_lock v.at_lock refl refl) (
        or_skip-KeepsOwed v.at_lock _ _ _
          (or_skip-KeepsOwed v.at_lock _ _ _ (when_passed-KeepsOwed reclaiming v c)))

  -- A pass, whatever its statements read before the partition's lock, and whether it empties a
  -- generation, skips or is refused, moves no position, adds no row, and drops only rows that every
  -- group's position sees.
  pub pass-KeepsOwed :
      (reclaiming : Reclaiming) (v : Views B) → KeepsOwed v.at_lock (pass ring reclaiming v).0
  unfolding pass
  pass-KeepsOwed reclaiming v =
      if-KeepsOwed v.at_lock v.key_held _ _ (KeepsOwed-same v.at_lock v.at_lock refl refl) (
        if-KeepsOwed v.at_lock v.at_check.refused _ _ (KeepsOwed-same v.at_lock v.at_lock refl refl)
          (if-KeepsOwed v.at_lock _ _ _
            (KeepsOwed-same v.at_lock (record v.at_lock { refused = true }) refl refl)
            (with_candidate-KeepsOwed reclaiming v (candidate ring v))))
