-- ===== src/IdentityMap/State/Knowledge.antt =====
-- What an operation of the map's memory does to the slot of each key.
use ascetic_ddd_rust.Prelude.{
  ℕ, suc, ◌≤◌, List, Option, none, some, true, false, ◌≡◌, refl, arith, ltb, length, if◌then◌else◌,
  Bool-cases, inl, inr,
}
use ascetic_ddd_rust.Prelude.HashMap
use ascetic_ddd_rust.Prelude.HashMap.{kept}
use ascetic_ddd_rust.Prelude.HashSet.{same}
use ascetic_ddd_rust.IdentityMap.Slot
use ascetic_ddd_rust.IdentityMap.Slot.{
  Arc, Fact, of_entity, of_absence, Lookup, found, absent, unknown, Slot, anchored, released,
  is_alive, answer_of,
}
use ascetic_ddd_rust.IdentityMap.Window
use ascetic_ddd_rust.IdentityMap.Window.{Window}
use ascetic_ddd_rust.IdentityMap.State.{
  State, hold, strong, release, sweep, sweep_when_due, remember, len, resize, recall_slot,
  recall_found, recall,
}
use ascetic_ddd_rust.IdentityMap.State.Slots.{
  held-le-strong, Keeps, Fades, Fades-refl, Fades-trans, release_keys-Distinct, release_keys-Fades,
  kept-Fades,
}

module _ {K : Type 0} (dec : Discrete K) (held : Arc → ℕ) where
  sweep_when_due-Fades :
      (j : K) (s : State K)
      → HashMap.Distinct dec s.slots
      → Fades dec held
          (HashMap.find dec j s.slots)
          (HashMap.find dec j (sweep_when_due dec held s).slots)
  unfolding sweep_when_due sweep
  sweep_when_due-Fades j s d = elim (Bool-cases (ltb (length s.slots) (suc s.since_sweep))) [
    | inl due ↦
        rw (due, HashMap.find-retain dec (is_alive (strong held s.slots)) j s.slots d)
          (kept-Fades dec held s.slots (HashMap.find dec j s.slots))
    | inr early ↦ rw early (Fades-refl dec held (HashMap.find dec j s.slots))
  ]

  -- To release what a window lets go, and to sweep.
  settle-Fades :
      (j : K) (res : Window K × List K) (slots : List (K × Slot)) (since : ℕ)
      → HashMap.Distinct dec slots
      → Fades dec held
          (HashMap.find dec j slots)
          (HashMap.find dec j (sweep_when_due dec held (release dec held res slots since)).slots)
  unfolding release
  settle-Fades j (w, gone) slots since d =
      Fades-trans dec held (HashMap.find dec j slots) _ _ (release_keys-Fades dec held j gone slots)
        (sweep_when_due-Fades j _ (release_keys-Distinct dec held gone slots d))

  pub remember-Fades :
      (key j : K) (fact : Fact) (s : State K)
      → HashMap.Distinct dec s.slots
      → Fades dec held
          (HashMap.find dec j (HashMap.insert dec key (anchored fact) s.slots))
          (HashMap.find dec j (remember dec held key fact s).slots)
  unfolding remember
  remember-Fades key j fact s d =
      settle-Fades j (Window.admit dec key s.window) _ s.since_sweep
        (HashMap.insert-Distinct dec key (anchored fact) s.slots d)

  pub resize-Fades :
      (n : ℕ) (j : K) (s : State K)
      → Fades dec held (HashMap.find dec j s.slots) (HashMap.find dec j (resize dec held n s).slots)
  unfolding resize release
  resize-Fades n j s = release_keys-Fades dec held j (Window.resize dec n s.window).1 s.slots

  pub len-Fades :
      (j : K) (s : State K)
      → HashMap.Distinct dec s.slots
      → Fades dec held (HashMap.find dec j s.slots) (HashMap.find dec j (len dec held s).0.slots)
  unfolding len sweep
  len-Fades j s d =
      rw (HashMap.find-retain dec (is_alive (strong held s.slots)) j s.slots d)
        (kept-Fades dec held s.slots (HashMap.find dec j s.slots))

held-le-hold : (a : Lookup) (held : Arc → ℕ) (e : Arc) → held e ≤ hold a held e
held-le-hold (found d) held e = ground arith
held-le-hold absent held e = omega arith
held-le-hold unknown held e = omega arith

module _ {K : Type 0} (dec : Discrete K) (held : Arc → ℕ) where
  Keeps-hold :
      (a : Lookup) (e : Arc) (after : Option Slot)
      → Keeps dec (hold a held) e after
      → Keeps dec held e after
  Keeps-hold a e after (inl p) = inl p
  Keeps-hold a e after (inr (inl p)) = inr (inl p)
  Keeps-hold a e after (inr (inr p)) = inr (inr (p.0, omega (arith, held-le-hold a held e)))

  -- More handles outside only keep more.
  Fades-hold :
      (a : Lookup) (o after : Option Slot)
      → Fades dec (hold a held) o after
      → Fades dec held o after
  Fades-hold a none after p = p
  Fades-hold a (some (anchored (of_entity e))) after p = Keeps-hold a e after p
  Fades-hold a (some (anchored of_absence)) after p = p
  Fades-hold a (some (released e)) after p = Keeps-hold a e after p

  -- What a lookup answers for a slot.
  unfoldable pub answer : List (K × Slot) → Option Slot → Lookup
  answer rest none = unknown
  answer rest (some slot) = (Slot.recall (strong held rest) slot).1

  pub recall-answer :
      (key : K) (s : State K)
      → (recall dec held key s).1
        ≡ answer (HashMap.remove dec key s.slots) (HashMap.find dec key s.slots)
  unfolding recall recall_found recall_slot answer
  recall-answer key s = ground arith

  -- To enter at a key what its slot may become.
  replaced-Fades :
      (key j : K) (next o : Option Slot) (slots : List (K × Slot))
      → HashMap.find dec key slots ≡ o
      → Fades dec held o next
      → Fades dec held
          (HashMap.find dec j slots)
          (if same dec key j then next else HashMap.find dec j slots)
  replaced-Fades key j next o slots e f =
      elim (dec key j)
        as (λ d.
          Fades dec held (HashMap.find dec j slots)
            (if elim d [ yes _ ↦ true | no _ ↦ false ] then next else HashMap.find dec j slots)) [
              | yes p ↦ rw (← p, e) f
              | no _ ↦ Fades-refl dec held _
            ]

  module _ (key j : K) (s : State K) (distinct : HashMap.Distinct dec s.slots) where
    abbrev rest : List (K × Slot)
    rest = HashMap.remove dec key s.slots

    rest-Distinct : HashMap.Distinct dec rest
    rest-Distinct = HashMap.remove-Distinct dec key s.slots distinct

    recall_slot-Fades :
        (o next : Option Slot) (a : Lookup)
        → HashMap.find dec key s.slots ≡ o
        → Fades dec held o next
        → Fades dec held
            (HashMap.find dec j s.slots)
            (HashMap.find dec j (recall_slot dec held key (next, a) rest s).0.slots)
    unfolding recall_slot
    recall_slot-Fades o (some slot) a e f =
        let there : HashMap.find dec j (HashMap.insert dec key slot rest)
            ≡ (if same dec key j then some slot else HashMap.find dec j s.slots) =
          ground (
            arith,
            HashMap.find-insert dec j key slot rest,
            HashMap.find-remove dec j key s.slots,
          ) in
        Fades-trans dec held (HashMap.find dec j s.slots) _ _
          (rw there (replaced-Fades key j (some slot) o s.slots e f))
          (Fades-hold a _ _ (
            settle-Fades dec (hold a held) j (Window.admit dec key s.window)
              (HashMap.insert dec key slot rest) s.since_sweep
              (HashMap.insert-Distinct dec key slot rest rest-Distinct)))
    recall_slot-Fades o none a e f =
        let there : HashMap.find dec j rest
            ≡ (if same dec key j then none else HashMap.find dec j s.slots) =
          ground (arith, HashMap.find-remove dec j key s.slots) in
        Fades-trans dec held (HashMap.find dec j s.slots) _ _
          (rw there (replaced-Fades key j none o s.slots e f))
          (Fades-hold a _ _ (
            sweep_when_due-Fades dec (hold a held) j
              (record s { slots = rest; window = Window.remove dec key s.window }) rest-Distinct))

    found-Fades :
        (o : Option Slot)
        → HashMap.find dec key s.slots ≡ o
        → Fades dec held
            (HashMap.find dec j s.slots)
            (HashMap.find dec j (recall_found dec held key o s).0.slots)
    unfolding recall_found
    found-Fades none e = Fades-refl dec held _
    found-Fades (some (anchored fact)) e =
        recall_slot-Fades _ _ _ e (Fades-refl dec held (some (anchored fact)))
    found-Fades (some (released d)) e = elim (Bool-cases (ltb 0 (strong held rest d))) [
      | inl alive ↦ rw alive (recall_slot-Fades _ _ _ e (inl refl))
      | inr dead ↦
          rw dead (
            recall_slot-Fades _ _ _ e
              (inr (inr (refl, ground (arith, held-le-strong held rest d)))))
    ]

    -- In a state where no key has two slots, a lookup leaves of every slot what it was, or less: an
    -- entity is still kept, or its slot is gone and no handle of it stands outside the map; an
    -- absence is still kept, or is gone; and what was not there is not there.
    pub recall-Fades :
        Fades dec held
          (HashMap.find dec j s.slots)
          (HashMap.find dec j (recall dec held key s).0.slots)
    unfolding recall
    recall-Fades = found-Fades (HashMap.find dec key s.slots) refl
