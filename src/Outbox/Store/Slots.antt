-- ===== src/Outbox/Store/Slots.antt =====
-- The slots in which a selection has a position, after a move.
use Prim.Native.String.{String}
use ascetic_ddd_rust.Prelude.{
  ℕ, zero, suc, ◌<◌, List, [], ◌∷◌, ◌++◌, true, ◌||◌, ◌≡◌, refl, ◌∙◌, subst, arith, ltb, map,
  Bool-cases, inl, inr,
}
use ascetic_ddd_rust.Outbox.Position.{Move}
use ascetic_ddd_rust.Outbox.Table.{Texts}
use ascetic_ddd_rust.Outbox.Store.{Offset, Store, is_of, has_slot, missing, move_offset}

module _ (texts : Texts) (group uri : String) where
  has_slot-append :
      (slot : ℕ) (xs ys : List Offset)
      → has_slot texts group uri slot (xs ++ ys)
        ≡ (has_slot texts group uri slot xs || has_slot texts group uri slot ys)
  unfolding has_slot
  has_slot-append slot [] ys = refl
  has_slot-append slot (o ∷ xs) ys = ground (arith, has_slot-append slot xs ys)

module _ {B : Type 0} (texts : Texts) (group uri : String) where
  -- A move leaves a position in its slot, and of its selection.
  move_offset-is_of :
      (landed : Move) (s : Store B) (o : Offset)
      → is_of texts group uri (move_offset texts group uri landed s o) ≡ is_of texts group uri o
  unfolding move_offset is_of
  move_offset-is_of landed s o = ground arith

  move_offset-slot :
      (landed : Move) (s : Store B) (o : Offset)
      → (move_offset texts group uri landed s o).slot ≡ o.slot
  unfolding move_offset
  move_offset-slot landed s o = ground arith

  has_slot-move_all :
      (slot : ℕ) (landed : Move) (s : Store B) (offsets : List Offset)
      → has_slot texts group uri slot (map (move_offset texts group uri landed s) offsets)
        ≡ has_slot texts group uri slot offsets
  unfolding has_slot
  has_slot-move_all slot landed s [] = refl
  has_slot-move_all slot landed s (o ∷ offsets) =
      rw
        (
          move_offset-is_of landed s o,
          move_offset-slot landed s o,
          has_slot-move_all slot landed s offsets,
        )
        refl

  -- The slots that had no position of the selection get one.
  module _ (s : Store B) (g : texts.same group group ≡ true) (u : texts.same uri uri ≡ true) where
    has_slot-made :
        (slot : ℕ)
        → (has_slot texts group uri slot (missing texts s group uri (suc slot))
            || has_slot texts group uri slot s.offsets)
          ≡ true
    unfolding has_slot missing is_of
    has_slot-made slot = ground arith

    has_slot-more :
        (slot slots : ℕ)
        → (has_slot texts group uri slot (missing texts s group uri slots)
            || has_slot texts group uri slot s.offsets)
          ≡ true
        → (has_slot texts group uri slot (missing texts s group uri (suc slots))
            || has_slot texts group uri slot s.offsets)
          ≡ true
    unfolding has_slot missing
    has_slot-more slot slots h = ground arith

    has_slot-missing :
        (slot slots : ℕ)
        → slot < slots
        → (has_slot texts group uri slot (missing texts s group uri slots)
            || has_slot texts group uri slot s.offsets)
          ≡ true
    has_slot-missing slot zero lt = absurd (omega arith)
    has_slot-missing slot (suc k) lt = elim (Bool-cases (ltb slot k)) [
      | inl less ↦ has_slot-more slot k (has_slot-missing slot k (ground arith))
      | inr last ↦
          let here : slot ≡ k = ground arith in
          subst
            (λ n.
              (has_slot texts group uri slot (missing texts s group uri (suc n))
                || has_slot texts group uri slot s.offsets)
              ≡ true)
            here (has_slot-made slot)
    ]

    -- After a first contact and a move every slot has one.
    pub has_slot-moved :
        (landed : Move) (slot : ℕ)
        → slot < s.slots
        → has_slot texts group uri slot (
            map
              (move_offset texts group uri landed s)
              (missing texts s group uri s.slots ++ s.offsets))
          ≡ true
    has_slot-moved landed slot lt =
        has_slot-move_all slot landed s (missing texts s group uri s.slots ++ s.offsets)
        ∙ has_slot-append texts group uri slot (missing texts s group uri s.slots) s.offsets
        ∙ has_slot-missing slot s.slots lt
