-- ===== src/IdentityMap/Map/Truth.antt =====
-- The map never answers what it was not told.
use ascetic_ddd_rust.Prelude.{
  ℕ, ◌+◌, ◌<◌, List, [], ◌∷◌, Option, none, some, true, false, ◌≡◌, arith, subst, length, ltb,
  if◌then◌else◌, Bool-cases, inl, inr,
}
use ascetic_ddd_rust.Prelude.HashMap
use ascetic_ddd_rust.IdentityMap.Slot.{
  Arc, Fact, of_entity, of_absence, Lookup, found, absent, unknown, Slot, anchored, released, kind,
  admitted, entity, absence,
}
use ascetic_ddd_rust.IdentityMap.Policy.{IsolationLevel, admits}
use ascetic_ddd_rust.IdentityMap.Recency.{u64_mod}
use ascetic_ddd_rust.IdentityMap.State
use ascetic_ddd_rust.IdentityMap.State.{State}
use ascetic_ddd_rust.IdentityMap.State.Slots.{Keeps, Fades}
use ascetic_ddd_rust.IdentityMap.Map
use ascetic_ddd_rust.IdentityMap.Map.{IdentityMap, new, generational, over}
use ascetic_ddd_rust.IdentityMap.Map.Calls.{
  Call, add, add_absent, get, has, remove, clear, len, is_empty, set_size, step, run, Told, update,
  tell, tell_all,
}
use ascetic_ddd_rust.IdentityMap.Map.Invariant.{
  IsReady, isolation-step, step-IsReady, new-IsReady, generational-IsReady,
}

-- A slot knows only what was told of its key.
abbrev pub Agrees : Option Slot → Option Fact → Type 0
Agrees none t = Unit
Agrees (some (anchored f)) t = t ≡ some f
Agrees (some (released e)) t = t ≡ some (of_entity e)

-- An answer says only what was told of its key.
abbrev pub Says : Lookup → Option Fact → Type 0
Says (found e) t = t ≡ some (of_entity e)
Says absent t = t ≡ some of_absence
Says unknown t = Unit

module _ {K : Type 0} (dec : Discrete K) where
  Keeps-Agrees :
      (held : Arc → ℕ) (e : Arc) (b : Option Slot) (t : Option Fact)
      → Keeps dec held e b
      → t ≡ some (of_entity e)
      → Agrees b t
  Keeps-Agrees held e b t (inl p) a = rw p a
  Keeps-Agrees held e b t (inr (inl p)) a = rw p a
  Keeps-Agrees held e b t (inr (inr p)) a = rw p.0 tt

  Fades-Agrees :
      (held : Arc → ℕ) (a b : Option Slot) (t : Option Fact)
      → Fades dec held a b
      → Agrees a t
      → Agrees b t
  Fades-Agrees held none b t f a = rw f tt
  Fades-Agrees held (some (anchored (of_entity e))) b t f a = Keeps-Agrees held e b t f a
  Fades-Agrees held (some (anchored of_absence)) b t (inl f) a = rw f a
  Fades-Agrees held (some (anchored of_absence)) b t (inr f) a = rw f tt
  Fades-Agrees held (some (released e)) b t f a = Keeps-Agrees held e b t f a

  pub Coherent : Told K → IdentityMap K → Type 0
  Coherent told m = (k : K) → Agrees (HashMap.find dec k m.state.slots) (told k)

  remember-Coherent :
      (held : Arc → ℕ) (key : K) (fact : Fact) (told : Told K) (m : IdentityMap K)
      → IsReady dec 1 m
      → Coherent told m
      → Coherent
          (if admits m.isolation (kind fact) then update dec key (some fact) told else told)
          (Map.remember dec held key fact m)
  unfolding Coherent Map.remember update
  remember-Coherent held key fact told m r c = elim (Bool-cases (admits m.isolation (kind fact))) [
    | inl admitted ↦ rw admitted (λ k.
        Fades-Agrees held _ _ (update dec key (some fact) told k)
          (State.Knowledge.remember-Fades dec held key k fact m.state r.valid.distinct)
          (ground (arith, HashMap.find-insert dec k key (anchored fact) m.state.slots, c k)))
    | inr refused ↦ rw refused c
  ]

  recall-Coherent :
      (held : Arc → ℕ) (key : K) (told : Told K) (m : IdentityMap K)
      → IsReady dec 1 m
      → Coherent told m
      → Coherent told (Map.recall dec held key m).0
  unfolding Coherent Map.recall
  recall-Coherent held key told m r c k =
      Fades-Agrees held _ _ (told k)
        (State.Knowledge.recall-Fades dec held key k m.state r.valid.distinct) (c k)

  len-Coherent :
      (held : Arc → ℕ) (told : Told K) (m : IdentityMap K)
      → IsReady dec 1 m
      → Coherent told m
      → Coherent told (Map.len dec held m).0
  unfolding Coherent Map.len
  len-Coherent held told m r c k =
      Fades-Agrees held _ _ (told k) (State.Knowledge.len-Fades dec held k m.state r.valid.distinct)
        (c k)

  step-Coherent :
      (held : Arc → ℕ) (call : Call K) (told : Told K) (m : IdentityMap K)
      → IsReady dec 1 m
      → Coherent told m
      → Coherent (tell dec m.isolation call told) (step dec held call m)
  unfolding step tell Map.add Map.add_absent Map.get Map.has Map.is_empty
  step-Coherent held (add key e) told m r c = remember-Coherent held key (of_entity e) told m r c
  step-Coherent held (add_absent key) told m r c = remember-Coherent held key of_absence told m r c
  step-Coherent held (get key) told m r c = recall-Coherent held key told m r c
  step-Coherent held (has key) told m r c = recall-Coherent held key told m r c
  step-Coherent held (remove key) told m r c =
      unfold Coherent Map.remove State.forget update in
      λ k. ground (arith, HashMap.find-remove dec k key m.state.slots, c k)
  step-Coherent held clear told m r c =
      unfold Coherent Map.clear State.forget_all HashMap.find in λ k. tt
  step-Coherent held len told m r c = len-Coherent held told m r c
  step-Coherent held is_empty told m r c = len-Coherent held told m r c
  step-Coherent held (set_size size) told m r c =
      unfold Coherent Map.set_size in
      λ k.
        Fades-Agrees held _ _ (told k) (State.Knowledge.resize-Fades dec held size k m.state) (c k)

  run-Coherent :
      (n : ℕ) (calls : List ((Arc → ℕ) × Call K)) (told : Told K) (m : IdentityMap K)
      → IsReady dec (length calls + n) m
      → Coherent told m
      → Coherent (tell_all dec m.isolation calls told) (run dec calls m)
  unfolding run tell_all
  run-Coherent n [] told m r c = c
  run-Coherent n ((held, call) ∷ calls) told m r c =
      let next =
        step-IsReady dec (length calls + n) held call m
          (record { valid = r.valid; in_time = omega arith }) in
      let now =
        step-Coherent held call told m (record { valid = r.valid; in_time = omega arith }) c in
      let told' = tell dec m.isolation call told in
      subst (λ l. Coherent (tell_all dec l calls told') (run dec calls (step dec held call m)))
        (isolation-step dec held call m)
        (run-Coherent n calls told' (step dec held call m) next now)

  answer-Says :
      (held : Arc → ℕ) (rest : List (K × Slot)) (o : Option Slot) (t : Option Fact)
      → Agrees o t
      → Says (State.Knowledge.answer dec held rest o) t
  unfolding State.Knowledge.answer
  answer-Says held rest none t a = tt
  answer-Says held rest (some (anchored (of_entity e))) t a = a
  answer-Says held rest (some (anchored of_absence)) t a = a
  answer-Says held rest (some (released e)) t a =
      elim (ltb 0 (State.strong held rest e))
        as (λ b.
          Says
            (if◌then◌else◌ {A = Option Slot × Lookup} b (some (anchored (of_entity e)), found e)
              (none, unknown)).1
            t) [ true ↦ a | false ↦ tt ]

  admitted-Says :
      (level : IsolationLevel) (a : Lookup) (t : Option Fact)
      → Says a t
      → Says (admitted (admits level) a) t
  admitted-Says level (found e) t h =
      elim (admits level entity) as (λ b. Says (if b then found e else unknown) t) [
        | true ↦ h
        | false ↦ tt
      ]
  admitted-Says level absent t h =
      elim (admits level absence) as (λ b. Says (if b then absent else unknown) t) [
        | true ↦ h
        | false ↦ tt
      ]
  admitted-Says level unknown t h = tt

  get-Says :
      (held : Arc → ℕ) (key : K) (told : Told K) (m : IdentityMap K)
      → Coherent told m
      → Says (Map.get dec held key m).1 (told key)
  unfolding Map.get Map.recall Coherent
  get-Says held key told m c = admitted-Says m.isolation _ (told key) (
      rw (State.Knowledge.recall-answer dec held key m.state)
        (answer-Says held _ (HashMap.find dec key m.state.slots) (told key) (c key)))

  new-Coherent : (size : ℕ) (level : IsolationLevel) → Coherent (λ _. none) (new size level)
  unfolding Coherent new over State.new HashMap.find
  new-Coherent size level k = tt

  generational-Coherent :
      (size : ℕ) (level : IsolationLevel) → Coherent (λ _. none) (generational size level)
  unfolding Coherent generational over State.new HashMap.find
  generational-Coherent size level k = tt

  -- After any calls of a new map of either kind, fewer than 2^64 of them, a lookup answers an
  -- entity only if it is the entity that was last told of the key and has not been taken back, and
  -- an absence only if that was last told; it may answer that it does not know.
  pub get_truthful :
      (size : ℕ) (level : IsolationLevel) (calls : List ((Arc → ℕ) × Call K)) (held : Arc → ℕ)
      (key : K)
      → length calls < u64_mod
      → Says
          (Map.get dec held key (run dec calls (new size level))).1
          (tell_all dec level calls (λ _. none) key)
        × Says
            (Map.get dec held key (run dec calls (generational size level))).1
            (tell_all dec level calls (λ _. none) key)
  unfolding new over generational
  get_truthful size level calls held key h =
      let fits : length calls + 0 < u64_mod = omega arith in
      (
        get-Says held key _ _ (
            run-Coherent 0 calls (λ _. none) (new size level)
              (new-IsReady dec (length calls + 0) size level fits) (new-Coherent size level)),
        get-Says held key _ _ (
            run-Coherent 0 calls (λ _. none) (generational size level)
              (generational-IsReady dec (length calls + 0) size level fits)
              (generational-Coherent size level)),
      )
