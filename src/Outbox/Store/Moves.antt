-- ===== src/Outbox/Store/Moves.antt =====
-- The moves of a selection's positions, where the meta table bounds the rows that are kept.
use Prim.Native.String.{String}
use ascetic_ddd_rust.Prelude.{
  ℕ, zero, suc, ◌<◌, List, [], ◌∷◌, ◌++◌, true, ◌&&◌, Option, none, some, ◌≡◌, refl, sym, lt→ltb,
  subst, ap, ◌∙◌, arith, ◌==◌, map, Bool-cases, inl, inr,
}
use ascetic_ddd_rust.Prelude.Result.{ok, err, bind-eq_ok}
use ascetic_ddd_rust.Outbox.Snapshot.{Snapshot, sees, below}
use ascetic_ddd_rust.Outbox.Position.{Move, start, from, now}
use ascetic_ddd_rust.Outbox.Table.{Texts}
use ascetic_ddd_rust.Outbox.Store.{
  Offset, Store, reclaimed, kept_below, is_of, has_slot, everything_at, first_delivered, missing,
  ensure_positions, move_offset, move_all, clear_passed, landing, within_horizon, set_position,
}
use ascetic_ddd_rust.Outbox.Store.Landing.{
  IsAt, Bounded, Lands, Lands-Bounded, landing-Lands, sees-kept_below, moved_to-sees, moved_to-IsAt,
}
use ascetic_ddd_rust.Outbox.Store.Slots.{has_slot-moved}

abbrev pub AllOffsets {ℓ} : (Offset → Type ℓ) → List Offset → Type ℓ
AllOffsets P [] = Unit
AllOffsets P (o ∷ offsets) = P o × AllOffsets P offsets

-- A transaction that a position sees.
abbrev pub Sees : ℕ → Offset → Type 0
Sees x o = sees x o.position.delivered ≡ true

AllOffsets-append :
    (P : Offset → Type 0) (xs ys : List Offset)
    → AllOffsets P xs
    → AllOffsets P ys
    → AllOffsets P (xs ++ ys)
AllOffsets-append P [] ys h k = k
AllOffsets-append P (o ∷ xs) ys h k = (h.0, AllOffsets-append P xs ys h.1 k)

AllOffsets-map :
    (P Q : Offset → Type 0) (f : Offset → Offset) (offsets : List Offset)
    → ((o : Offset) → P o → Q (f o))
    → AllOffsets P offsets
    → AllOffsets Q (map f offsets)
AllOffsets-map P Q f [] step h = tt
AllOffsets-map P Q f (o ∷ offsets) step h = (step o h.0, AllOffsets-map P Q f offsets step h.1)

clear_passed-offsets :
    {B : Type 0} (landed : Move) (s : Store B)
    → ((clear_passed landed s).offsets ≡ s.offsets) × ((clear_passed landed s).rows ≡ s.rows)
unfolding clear_passed
clear_passed-offsets start s = (refl, refl)
clear_passed-offsets (from xid) s = (refl, refl)
clear_passed-offsets now s = (refl, refl)

module _ (texts : Texts) (group uri : String) where
  -- A position of the selection after a move: no epoch in flight, and where it was asked to be.
  abbrev pub IsMoved : Move → ℕ → Snapshot → Offset → Type 0
  IsMoved to b current o =
      is_of texts group uri o ≡ true
      → (o.position.epoch ≡ none) × IsAt to b current o.position.delivered

  everything_at-sees :
      (x slot : ℕ) (at_start : Snapshot) (offsets : List Offset)
      → sees x at_start ≡ true
      → AllOffsets (Sees x) offsets
      → sees x (elim (everything_at texts group slot offsets) [ none ↦ at_start | some d ↦ d ])
        ≡ true
  unfolding everything_at
  everything_at-sees x slot at_start [] seen h = seen
  everything_at-sees x slot at_start (o ∷ offsets) seen h =
      elim (Bool-cases (is_of texts group "" o && o.slot == slot)) [
        | inl here ↦ rw here h.0
        | inr other ↦ rw other (everything_at-sees x slot at_start offsets seen h.1)
      ]

module _ {B : Type 0} (texts : Texts) (group uri : String) where
  -- A first contact below the bound.
  module _ (s : Store B) (b x : ℕ) (intact : s.intact_from ≡ some b) (low : x < b)
      (seen : sees x s.current ≡ true) (all_see : AllOffsets (Sees x) s.offsets) where
    first_delivered-sees : (slot : ℕ) → sees x (first_delivered texts s group uri slot) ≡ true
    unfolding first_delivered
    first_delivered-sees slot =
        let ring_start : sees x (kept_below b s.current) ≡ true =
          ground (arith, sees-kept_below x b s.current) in
        elim (Bool-cases (texts.same uri "")) [
          | inl everything ↦ rw (everything, intact) ring_start
          | inr part ↦
              rw part (
                everything_at-sees texts group uri x slot _ s.offsets (rw intact ring_start)
                  all_see)
        ]

    missing-Sees : (slots : ℕ) → AllOffsets (Sees x) (missing texts s group uri slots)
    unfolding missing
    missing-Sees zero = tt
    missing-Sees (suc slot) = elim (Bool-cases (has_slot texts group uri slot s.offsets)) [
      | inl there ↦ rw there (missing-Sees slot)
      | inr absent ↦ rw absent (first_delivered-sees slot, missing-Sees slot)
    ]

  move_offset-Sees :
      (b x : ℕ) (landed : Move) (s : Store B) (o : Offset)
      → Bounded b landed
      → x < b
      → sees x s.current ≡ true
      → Sees x o
      → Sees x (move_offset texts group uri landed s o)
  unfolding move_offset
  move_offset-Sees b x landed s o bound low seen h = elim (Bool-cases (is_of texts group uri o)) [
    | inl mine ↦ rw mine (moved_to-sees b x landed s.current o.position.delivered bound low seen h)
    | inr other ↦ rw other h
  ]

  move_offset-IsMoved :
      (b : ℕ) (to landed : Move) (s : Store B) (o : Offset)
      → Lands b to landed
      → IsMoved texts group uri to b s.current (move_offset texts group uri landed s o)
  unfolding move_offset Lands
  move_offset-IsMoved b to landed s o (bound, there) = elim (Bool-cases (is_of texts group uri o)) [
    | inl mine ↦ rw mine (λ _.
        (refl, there s.current _ (moved_to-IsAt b landed s.current o.position.delivered bound)))
    | inr other ↦ rw other (λ mine. absurd (cc))
  ]

  offsets-IsMoved :
      (b x : ℕ) (to landed : Move) (s : Store B) (offsets : List Offset)
      → Lands b to landed
      → x < b
      → sees x s.current ≡ true
      → AllOffsets (Sees x) offsets
      → AllOffsets
          (λ o. Sees x o × IsMoved texts group uri to b s.current o)
          (map (move_offset texts group uri landed s) offsets)
  offsets-IsMoved b x to landed s offsets lands low seen h =
      AllOffsets-map (Sees x) _ (move_offset texts group uri landed s) offsets
        (λ o k. (
          move_offset-Sees b x landed s o (Lands-Bounded b to landed lands) low seen k,
          move_offset-IsMoved b to landed s o lands,
        ))
        h

  -- Where the bound `intact_from` is known, take a transaction below it that the server sees and that
  -- every position sees as delivered, as those are whose rows were emptied. If the texts of the group
  -- and of the selection equal themselves and a move succeeds, it keeps the rows; every position
  -- afterwards, those that the move makes for slots that had none included, still sees the
  -- transaction as delivered; every position of the selection has no epoch in flight and stands
  -- where the move asks (no transaction with an id above 0 is delivered from the one named on, or for
  -- `start` from `intact_from` on; or what is delivered is what the server sees now); and every slot
  -- has a position of the selection.
  pub set_position-KeepsSeen :
      (replay_horizon : Option ℕ) (to : Move) (s s' : Store B) (b x : ℕ)
      → s.intact_from ≡ some b
      → x < b
      → sees x s.current ≡ true
      → AllOffsets (Sees x) s.offsets
      → texts.same group group ≡ true
      → texts.same uri uri ≡ true
      → (slot : ℕ) → slot < s.slots
      → set_position texts replay_horizon group uri to s ≡ ok s'
      → (s'.rows ≡ s.rows)
        × AllOffsets (λ o. Sees x o × IsMoved texts group uri to b s.current o) s'.offsets
        × (has_slot texts group uri slot s'.offsets ≡ true)
  unfolding set_position move_all ensure_positions missing move_offset
  set_position-KeepsSeen replay_horizon to s s' b x intact low seen all_see g u slot lt h =
      let (landed, el, h1) = bind-eq_ok (landing to s.intact_from) _ s' h in
      let (within, eh, h2) = bind-eq_ok (within_horizon replay_horizon landed s) _ s' h1 in
      let moved = move_all texts group uri landed (ensure_positions texts group uri s) in
      let done : clear_passed landed moved ≡ s' = cc in
      let kept = clear_passed-offsets landed moved in
      let lands = landing-Lands b to landed (subst (λ o. landing to o ≡ ok landed) intact el) in
      let offsets = sym kept.0 ∙ ap (λ (t : Store B). t.offsets) done in
      (
        sym (ap (λ (t : Store B). t.rows) done) ∙ kept.1,
        subst (AllOffsets (λ o. Sees x o × IsMoved texts group uri to b s.current o)) offsets (
            offsets-IsMoved b x to landed s _ lands low seen (
              AllOffsets-append (Sees x) (missing texts s group uri s.slots) s.offsets
                (missing-Sees s b x intact low seen all_see s.slots) all_see)),
        subst (λ o. has_slot texts group uri slot o ≡ true) offsets
            (has_slot-moved texts group uri s g u landed slot lt),
      )

  -- A rewind below the bound is refused, and moves nothing.
  pub set_position-refused :
      (replay_horizon : Option ℕ) (xid b : ℕ) (s : Store B)
      → s.intact_from ≡ some b
      → xid < b
      → set_position texts replay_horizon group uri (from xid) s ≡ err (reclaimed xid b)
  unfolding set_position landing
  set_position-refused replay_horizon xid b s intact below = rw (intact, lt→ltb xid b below) refl
