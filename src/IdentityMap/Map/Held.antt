-- ===== src/IdentityMap/Map/Held.antt =====
-- An entity that the domain holds is found for as long as it is held.
use ascetic_ddd_rust.Prelude.{
  ℕ, suc, ◌+◌, ◌<◌, List, [], ◌∷◌, Option, some, true, ◌≡◌, ◌∙◌, arith, length, Bool-cases, inl,
  inr, ◌⊎◌, ◌≢◌,
}
use ascetic_ddd_rust.Prelude.HashMap
use ascetic_ddd_rust.IdentityMap.Slot.{
  Arc, Fact, of_entity, of_absence, found, Slot, anchored, released, entity, kind,
}
use ascetic_ddd_rust.IdentityMap.Policy.{IsolationLevel, admits}
use ascetic_ddd_rust.IdentityMap.Recency.{u64_mod}
use ascetic_ddd_rust.IdentityMap.State
use ascetic_ddd_rust.IdentityMap.State.Slots.{Keeps, Fades, held-le-strong}
use ascetic_ddd_rust.IdentityMap.Map
use ascetic_ddd_rust.IdentityMap.Map.{IdentityMap, new, generational, over}
use ascetic_ddd_rust.IdentityMap.Map.Calls.{
  Call, add, add_absent, get, has, remove, clear, len, is_empty, set_size, step, run,
}
use ascetic_ddd_rust.IdentityMap.Map.Invariant.{
  IsReady, step-IsReady, run-IsReady, new-IsReady, generational-IsReady, isolation-step,
  isolation-run,
}

-- The slot keeps the entity.
abbrev pub IsOf : Arc → Option Slot → Type 0
IsOf e o = (o ≡ some (anchored (of_entity e))) ⊎ (o ≡ some (released e))

module _ {K : Type 0} (dec : Discrete K) (key : K) (e : Arc) where
  -- The call neither removes the key nor tells another fact of it, and the entity is held.
  abbrev pub Spares : (Arc → ℕ) × Call K → Type 0
  Spares (held, add k d) = (k ≢ key) × (0 < held e)
  Spares (held, add_absent k) = (k ≢ key) × (0 < held e)
  Spares (held, remove k) = (k ≢ key) × (0 < held e)
  Spares (held, clear) = ⊥
  Spares (held, get k) = 0 < held e
  Spares (held, has k) = 0 < held e
  Spares (held, len) = 0 < held e
  Spares (held, is_empty) = 0 < held e
  Spares (held, set_size n) = 0 < held e

  abbrev pub AllSpare : List ((Arc → ℕ) × Call K) → Type 0
  AllSpare [] = Unit
  AllSpare (c ∷ calls) = Spares c × AllSpare calls

  pub IsKept : IdentityMap K → Type 0
  IsKept m = IsOf e (HashMap.find dec key m.state.slots)

  keep : (held : Arc → ℕ) (o : Option Slot) → 0 < held e → Keeps dec held e o → IsOf e o
  keep held o h (inl p) = inl p
  keep held o h (inr (inl p)) = inr p
  keep held o h (inr (inr p)) = absurd (omega arith)

  Fades-IsOf :
      (held : Arc → ℕ) (a b : Option Slot) → 0 < held e → Fades dec held a b → IsOf e a → IsOf e b
  Fades-IsOf held a b h f (inl p) = keep held b h (rw p at f)
  Fades-IsOf held a b h f (inr p) = keep held b h (rw p at f)

  remember-IsKept :
      (held : Arc → ℕ) (k : K) (fact : Fact) (m : IdentityMap K)
      → IsReady dec 1 m
      → k ≢ key
      → 0 < held e
      → IsKept m
      → IsKept (Map.remember dec held k fact m)
  unfolding IsKept Map.remember
  remember-IsKept held k fact m r ne h kept = elim (Bool-cases (admits m.isolation (kind fact))) [
    | inl yes' ↦
        let there : HashMap.find dec key (HashMap.insert dec k (anchored fact) m.state.slots)
            ≡ HashMap.find dec key m.state.slots =
          ground (arith, HashMap.find-insert dec key k (anchored fact) m.state.slots) in
        rw yes' (
          Fades-IsOf held _ _ h
            (State.Knowledge.remember-Fades dec held k key fact m.state r.valid.distinct)
            (rw there kept))
    | inr no' ↦ rw no' kept
  ]

  recall-IsKept :
      (held : Arc → ℕ) (k : K) (m : IdentityMap K)
      → IsReady dec 1 m
      → 0 < held e
      → IsKept m
      → IsKept (Map.recall dec held k m).0
  unfolding IsKept Map.recall
  recall-IsKept held k m r h kept =
      Fades-IsOf held _ _ h (State.Knowledge.recall-Fades dec held k key m.state r.valid.distinct)
        kept

  len-IsKept :
      (held : Arc → ℕ) (m : IdentityMap K)
      → IsReady dec 1 m
      → 0 < held e
      → IsKept m
      → IsKept (Map.len dec held m).0
  unfolding IsKept Map.len
  len-IsKept held m r h kept =
      Fades-IsOf held _ _ h (State.Knowledge.len-Fades dec held key m.state r.valid.distinct) kept

  step-IsKept :
      (held : Arc → ℕ) (call : Call K) (m : IdentityMap K)
      → IsReady dec 1 m
      → Spares (held, call)
      → IsKept m
      → IsKept (step dec held call m)
  unfolding step Map.add Map.add_absent Map.get Map.has Map.is_empty
  step-IsKept held (add k d) m r h kept = remember-IsKept held k (of_entity d) m r h.0 h.1 kept
  step-IsKept held (add_absent k) m r h kept = remember-IsKept held k of_absence m r h.0 h.1 kept
  step-IsKept held (get k) m r h kept = recall-IsKept held k m r h kept
  step-IsKept held (has k) m r h kept = recall-IsKept held k m r h kept
  step-IsKept held (remove k) m r h kept =
      unfold IsKept Map.remove State.forget in
      let there : HashMap.find dec key (HashMap.remove dec k m.state.slots)
          ≡ HashMap.find dec key m.state.slots =
        ground (arith, HashMap.find-remove dec key k m.state.slots) in
      rw there kept
  step-IsKept held clear m r h kept = absurd h
  step-IsKept held len m r h kept = len-IsKept held m r h kept
  step-IsKept held is_empty m r h kept = len-IsKept held m r h kept
  step-IsKept held (set_size n) m r h kept =
      unfold IsKept Map.set_size in
      Fades-IsOf held _ _ h (State.Knowledge.resize-Fades dec held n key m.state) kept

  run-IsKept :
      (calls : List ((Arc → ℕ) × Call K)) (m : IdentityMap K)
      → IsReady dec (length calls) m
      → AllSpare calls
      → IsKept m
      → IsKept (run dec calls m)
  unfolding run
  run-IsKept [] m r h kept = kept
  run-IsKept ((held, call) ∷ calls) m r h kept =
      run-IsKept calls (step dec held call m) (step-IsReady dec (length calls) held call m r) h.1
        (step-IsKept held call m (record { valid = r.valid; in_time = omega arith }) h.0 kept)

  add-IsKept :
      (held : Arc → ℕ) (m : IdentityMap K)
      → IsReady dec 1 m
      → admits m.isolation entity ≡ true
      → 0 < held e
      → IsKept (Map.add dec held key e m)
  unfolding IsKept Map.add Map.remember
  add-IsKept held m r a h =
      let there : HashMap.find dec key
            (HashMap.insert dec key (anchored (of_entity e)) m.state.slots)
          ≡ some (anchored (of_entity e)) =
        ground (arith, HashMap.find-insert dec key key (anchored (of_entity e)) m.state.slots) in
      rw a (
        Fades-IsOf held _ _ h
          (State.Knowledge.remember-Fades dec held key key (of_entity e) m.state r.valid.distinct)
          (inl there))

  get-IsKept :
      (held : Arc → ℕ) (m : IdentityMap K)
      → admits m.isolation entity ≡ true
      → 0 < held e
      → IsKept m
      → (Map.get dec held key m).1 ≡ found e
  unfolding IsKept Map.get Map.recall State.Knowledge.answer
  get-IsKept held m a h kept = ground (
    arith,
    kept,
    State.Knowledge.recall-answer dec held key m.state,
    held-le-strong held (HashMap.remove dec key m.state.slots) e,
  )

  step_add :
      (held : Arc → ℕ) (m : IdentityMap K) {n : ℕ}
      → IsReady dec (suc n) m
      → IsReady dec n (Map.add dec held key e m)
  unfolding step
  step_add held m {n} r = step-IsReady dec n held (add key e) m r

  isolation-add :
      (held : Arc → ℕ) (m : IdentityMap K) → (Map.add dec held key e m).isolation ≡ m.isolation
  unfolding step
  isolation-add held m = isolation-step dec held (add key e) m

  -- An entity is found after it was added to a map, whose clock has a tick left for each call.
  found_from :
      (start : IdentityMap K) (before after : List ((Arc → ℕ) × Call K)) (held held' : Arc → ℕ)
      → IsReady dec (length before + suc (length after)) start
      → admits start.isolation entity ≡ true
      → 0 < held e
      → AllSpare after
      → 0 < held' e
      → (Map.get dec held' key (run dec after (Map.add dec held key e (run dec before start)))).1
        ≡ found e
  found_from start before after held held' fresh a h spare h' =
      let m = run dec before start in
      let ready : IsReady dec (suc (length after)) m =
        run-IsReady dec (suc (length after)) before start fresh in
      let same_level = isolation-run dec before start in
      let added = Map.add dec held key e m in
      let added_ready : IsReady dec (length after) added = step_add held m ready in
      let same_after = isolation-run dec after added ∙ isolation-add held m ∙ same_level in
      get-IsKept held' _ (rw same_after a) h' (
        run-IsKept after added added_ready spare (
          add-IsKept held m (record { valid = ready.valid; in_time = omega arith })
            (rw same_level a) h))

  -- After any calls of a new map of either kind, an entity is added at a level that admits
  -- entities. Then it is found after any further calls that neither remove its key, nor tell
  -- another fact of it, nor clear the map, whatever the window lets go, if a handle of it stands
  -- outside the map at each of these calls and at the lookup. There are fewer than 2^64 calls in
  -- all.
  pub get_held :
      (size : ℕ) (level : IsolationLevel) (before after : List ((Arc → ℕ) × Call K))
      (held held' : Arc → ℕ)
      → length before + suc (length after) < u64_mod
      → admits level entity ≡ true
      → 0 < held e
      → AllSpare after
      → 0 < held' e
      → ((Map.get dec held' key
            (run dec after (Map.add dec held key e (run dec before (new size level))))).1
          ≡ found e)
        × ((Map.get dec held' key
              (run dec after (Map.add dec held key e (run dec before (generational size level))))).1
            ≡ found e)
  unfolding new over generational
  get_held size level before after held held' fits a h spare h' =
      let n : ℕ = length before + suc (length after) in
      (
        found_from (new size level) before after held held' (new-IsReady dec n size level fits) a h
            spare h',
        found_from (generational size level) before after held held'
            (generational-IsReady dec n size level fits) a h spare h',
      )
