-- ===== src/IdentityMap/State/Slots.antt =====
-- What releasing, sweeping and recalling do to the slot of one key.
use ascetic_ddd_rust.Prelude.{
  ℕ, ◌≤◌, List, [], ◌∷◌, Option, none, some, Bool, true, false, not, ◌&&◌, ◌≡◌, refl, inl, inr, ◌⊎◌,
  arith, if◌then◌else◌,
}
use ascetic_ddd_rust.Prelude.HashMap
use ascetic_ddd_rust.Prelude.HashMap.{kept}
use ascetic_ddd_rust.Prelude.HashSet
use ascetic_ddd_rust.Prelude.HashSet.{same}
use ascetic_ddd_rust.IdentityMap.Slot.{
  Arc, of_entity, of_absence, Slot, anchored, released, is_alive,
}
use ascetic_ddd_rust.IdentityMap.State.{strong, put_back, release_slot, release_key, release_keys}

abbrev pub is_anchored : Option Slot → Bool
is_anchored none = false
is_anchored (some (anchored _)) = true
is_anchored (some (released _)) = false

-- The entity that a slot keeps.
abbrev pub entity_of : Option Slot → Option Arc
entity_of none = none
entity_of (some (anchored (of_entity e))) = some e
entity_of (some (anchored of_absence)) = none
entity_of (some (released e)) = some e

pub held-le-strong :
    {K : Type 0} (held : Arc → ℕ) (slots : List (K × Slot)) (e : Arc) → held e ≤ strong held slots e
unfolding strong
held-le-strong held [] e = omega arith
held-le-strong held ((k, s) ∷ slots) e = omega (arith, held-le-strong held slots e)

module _ {K : Type 0} (dec : Discrete K) (held : Arc → ℕ) where
  find-put_back :
      (key j : K) (o : Option Slot) (slots : List (K × Slot))
      → HashMap.find dec j (put_back dec held key o (HashMap.remove dec key slots))
        ≡ (if same dec key j then o else HashMap.find dec j slots)
  unfolding put_back
  find-put_back key j none slots = ground (arith, HashMap.find-remove dec j key slots)
  find-put_back key j (some s) slots = ground (
    arith,
    HashMap.find-insert dec j key s (HashMap.remove dec key slots),
    HashMap.find-remove dec j key slots,
  )

  find-release_key :
      (key j : K) (slots : List (K × Slot))
      → HashMap.find dec j (release_key dec held key slots) ≡ (
          if same dec key j
          then release_slot dec held
              (strong held (HashMap.remove dec key slots))
              (HashMap.find dec key slots)
          else HashMap.find dec j slots)
  unfolding release_key
  find-release_key key j slots = find-put_back key j _ slots

  put_back-Distinct :
      (key : K) (o : Option Slot) (slots : List (K × Slot))
      → HashMap.Distinct dec slots
      → HashMap.Distinct dec (put_back dec held key o slots)
  unfolding put_back
  put_back-Distinct key none slots d = d
  put_back-Distinct key (some s) slots d = HashMap.insert-Distinct dec key s slots d

  pub release_keys-Distinct :
      (gone : List K) (slots : List (K × Slot))
      → HashMap.Distinct dec slots
      → HashMap.Distinct dec (release_keys dec held gone slots)
  unfolding release_keys release_key
  release_keys-Distinct [] slots d = d
  release_keys-Distinct (k ∷ gone) slots d =
      release_keys-Distinct gone _ (put_back-Distinct k _ _ (HashMap.remove-Distinct dec k slots d))

  is_anchored-release_slot :
      (count : Arc → ℕ) (o : Option Slot) → is_anchored (release_slot dec held count o) ≡ false
  unfolding release_slot
  is_anchored-release_slot count none = refl
  is_anchored-release_slot count (some s) = ground arith

  -- Exactly the keys that the window lets go leave the anchored state.
  pub is_anchored-release_keys :
      (j : K) (gone : List K) (slots : List (K × Slot))
      → is_anchored (HashMap.find dec j (release_keys dec held gone slots))
        ≡ (is_anchored (HashMap.find dec j slots) && not (HashSet.contains dec j gone))
  unfolding release_keys HashSet.contains
  is_anchored-release_keys j [] slots = ground arith
  is_anchored-release_keys j (k ∷ gone) slots = ground (
    arith,
    is_anchored-release_keys j gone (release_key dec held k slots),
    find-release_key k j slots,
    is_anchored-release_slot (strong held (HashMap.remove dec k slots)) (HashMap.find dec k slots),
  )

  -- The slot of an entity keeps it, or is gone, and then nobody holds the entity.
  abbrev pub Keeps : Arc → Option Slot → Type 0
  Keeps e after =
      (after ≡ some (anchored (of_entity e)))
      ⊎ (after ≡ some (released e))
      ⊎ ((after ≡ none) × (held e ≡ 0))

  -- What a slot may become while nothing new is told of its key.
  abbrev pub Fades : Option Slot → Option Slot → Type 0
  Fades none after = after ≡ none
  Fades (some (anchored (of_entity e))) after = Keeps e after
  Fades (some (anchored of_absence)) after = (after ≡ some (anchored of_absence)) ⊎ (after ≡ none)
  Fades (some (released e)) after = Keeps e after

  pub Fades-refl : (o : Option Slot) → Fades o o
  Fades-refl none = refl
  Fades-refl (some (anchored (of_entity e))) = inl refl
  Fades-refl (some (anchored of_absence)) = inl refl
  Fades-refl (some (released e)) = inr (inl refl)

  Keeps-trans : (e : Arc) (b c : Option Slot) → Keeps e b → Fades b c → Keeps e c
  Keeps-trans e b c (inl p) q = rw p at q
  Keeps-trans e b c (inr (inl p)) q = rw p at q
  Keeps-trans e b c (inr (inr p)) q = inr (inr (rw p.0 at q, p.1))

  pub Fades-trans : (a b c : Option Slot) → Fades a b → Fades b c → Fades a c
  Fades-trans none b c p q = rw p at q
  Fades-trans (some (anchored (of_entity e))) b c p q = Keeps-trans e b c p q
  Fades-trans (some (anchored of_absence)) b c (inl p) q = rw p at q
  Fades-trans (some (anchored of_absence)) b c (inr p) q = inr (rw p at q)
  Fades-trans (some (released e)) b c p q = Keeps-trans e b c p q

  Fades-release_slot :
      (rest : List (K × Slot)) (o : Option Slot)
      → Fades o (release_slot dec held (strong held rest) o)
  unfolding release_slot
  Fades-release_slot rest none = refl
  Fades-release_slot rest (some (anchored (of_entity e))) =
      ground (arith, held-le-strong held rest e)
  Fades-release_slot rest (some (anchored of_absence)) = ground arith
  Fades-release_slot rest (some (released e)) = ground arith

  release_key-Fades :
      (k j : K) (slots : List (K × Slot))
      → Fades (HashMap.find dec j slots) (HashMap.find dec j (release_key dec held k slots))
  release_key-Fades k j slots =
      let after =
        release_slot dec held (strong held (HashMap.remove dec k slots))
          (HashMap.find dec k slots) in
      rw (find-release_key k j slots)
        (elim (dec k j)
          as (λ d.
            Fades (HashMap.find dec j slots) (
              if elim d [ yes _ ↦ true | no _ ↦ false ] then after else HashMap.find dec j slots)) [
                | yes p ↦ rw (← p) (Fades-release_slot _ (HashMap.find dec k slots))
                | no _ ↦ Fades-refl _
              ])

  pub release_keys-Fades :
      (j : K) (gone : List K) (slots : List (K × Slot))
      → Fades (HashMap.find dec j slots) (HashMap.find dec j (release_keys dec held gone slots))
  unfolding release_keys
  release_keys-Fades j [] slots = Fades-refl _
  release_keys-Fades j (k ∷ gone) slots =
      Fades-trans (HashMap.find dec j slots) (HashMap.find dec j (release_key dec held k slots)) _
        (release_key-Fades k j slots) (release_keys-Fades j gone (release_key dec held k slots))

  -- A sweep keeps the slots that are alive.
  pub kept-Fades :
      (rest : List (K × Slot)) (o : Option Slot) → Fades o (kept (is_alive (strong held rest)) o)
  kept-Fades rest none = refl
  kept-Fades rest (some (anchored (of_entity e))) = inl refl
  kept-Fades rest (some (anchored of_absence)) = inl refl
  kept-Fades rest (some (released e)) = ground (arith, held-le-strong held rest e)

  pub is_anchored-kept :
      (count : Arc → ℕ) (o : Option Slot) → is_anchored (kept (is_alive count) o) ≡ is_anchored o
  is_anchored-kept count none = refl
  is_anchored-kept count (some (anchored f)) = refl
  is_anchored-kept count (some (released e)) = ground arith
