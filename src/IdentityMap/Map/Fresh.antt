-- ===== src/IdentityMap/Map/Fresh.antt =====
-- What the map was just told, it answers.
use ascetic_ddd_rust.Prelude.{ℕ, ◌+◌, ◌<◌, List, [], ◌∷◌, true, ◌≡◌, refl, arith, length}
use ascetic_ddd_rust.IdentityMap.Slot.{Arc, Fact, of_entity, of_absence, kind, answer_of, admitted}
use ascetic_ddd_rust.IdentityMap.Policy.{IsolationLevel, admits}
use ascetic_ddd_rust.IdentityMap.Recency
use ascetic_ddd_rust.IdentityMap.Recency.{u64_mod}
use ascetic_ddd_rust.IdentityMap.Generations
use ascetic_ddd_rust.IdentityMap.Window
use ascetic_ddd_rust.IdentityMap.State
use ascetic_ddd_rust.IdentityMap.Map
use ascetic_ddd_rust.IdentityMap.Map.{IdentityMap, new, generational, over}
use ascetic_ddd_rust.IdentityMap.Map.Calls.{
  Call, add, add_absent, get, has, remove, clear, len, is_empty, set_size, step, run,
}
use ascetic_ddd_rust.IdentityMap.Map.Invariant.{
  IsReady, run-IsReady, new-IsReady, generational-IsReady, isolation-run,
}

-- The call that tells a fact of a key.
abbrev pub telling : {K : Type 0} → K → Fact → Call K
telling key (of_entity e) = add key e
telling key of_absence = add_absent key

module _ {K : Type 0} (dec : Discrete K) where
  step-telling :
      (held : Arc → ℕ) (key : K) (fact : Fact) (m : IdentityMap K)
      → step dec held (telling key fact) m ≡ Map.remember dec held key fact m
  unfolding step Map.add Map.add_absent
  step-telling held key (of_entity e) m = refl
  step-telling held key of_absence m = refl

  admitted-answer_of :
      (level : IsolationLevel) (fact : Fact)
      → admits level (kind fact) ≡ true
      → admitted (admits level) (answer_of fact) ≡ answer_of fact
  admitted-answer_of level (of_entity e) a = rw a refl
  admitted-answer_of level of_absence a = rw a refl

  abbrev pub size_of : IdentityMap K → ℕ
  size_of m = Window.Laws.size_of m.state.window

  get-remember :
      (held held' : Arc → ℕ) (key : K) (fact : Fact) (m : IdentityMap K)
      → IsReady dec 1 m
      → admits m.isolation (kind fact) ≡ true
      → 0 < size_of m
      → (Map.get dec held' key (Map.remember dec held key fact m)).1 ≡ answer_of fact
  unfolding Map.get Map.recall Map.remember State.Knowledge.answer
  get-remember held held' key fact m r a positive =
      rw
        (
          a,
          State.Knowledge.recall-answer dec held' key (State.remember dec held key fact m.state),
          State.Freshness.find-remember dec held key fact m.state r.valid (omega (arith, r.in_time))
              positive,
        )
        (admitted-answer_of m.isolation fact a)

  -- From any map whose clock has a tick left for each call.
  get-told :
      (start : IdentityMap K) (calls : List ((Arc → ℕ) × Call K)) (held held' : Arc → ℕ) (key : K)
      (fact : Fact)
      → IsReady dec (length calls + 1) start
      → admits start.isolation (kind fact) ≡ true
      → 0 < size_of (run dec calls start)
      → (Map.get dec held' key (step dec held (telling key fact) (run dec calls start))).1
        ≡ answer_of fact
  get-told start calls held held' key fact r a positive =
      rw (step-telling held key fact (run dec calls start)) (
        get-remember held held' key fact (run dec calls start) (run-IsReady dec 1 calls start r)
          (rw (isolation-run dec calls start) a) positive)

  -- No call sets the size to 0.
  abbrev pub ArePositive : List ((Arc → ℕ) × Call K) → Type 0
  ArePositive [] = Unit
  ArePositive ((held, set_size n) ∷ calls) = (0 < n) × ArePositive calls
  ArePositive ((held, _) ∷ calls) = ArePositive calls

  size-remember :
      (held : Arc → ℕ) (key : K) (fact : Fact) (m : IdentityMap K)
      → size_of (Map.remember dec held key fact m) ≡ size_of m
  unfolding Map.remember
  size-remember held key fact m =
      ground (arith, State.Freshness.size-remember dec held key fact m.state)

  size-step :
      (held : Arc → ℕ) (call : Call K) (m : IdentityMap K)
      → size_of (step dec held call m) ≡ elim call [ set_size n ↦ n | _ ↦ size_of m ]
  unfolding step Map.add Map.add_absent Map.get Map.has Map.is_empty Map.recall Map.len Map.remove
      Map.clear Map.set_size
  size-step held (add k e) m = size-remember held k (of_entity e) m
  size-step held (add_absent k) m = size-remember held k of_absence m
  size-step held (get k) m = State.Freshness.size-recall dec held k m.state
  size-step held (has k) m = State.Freshness.size-recall dec held k m.state
  size-step held (remove k) m = State.Freshness.size-forget dec held k m.state
  size-step held clear m = State.Freshness.size-forget_all dec held m.state
  size-step held len m = State.Freshness.size-len dec held m.state
  size-step held is_empty m = State.Freshness.size-len dec held m.state
  size-step held (set_size n) m = State.Freshness.size-resize dec held n m.state

  size-run :
      (calls : List ((Arc → ℕ) × Call K)) (m : IdentityMap K)
      → ArePositive calls
      → 0 < size_of m
      → 0 < size_of (run dec calls m)
  unfolding run
  size-run [] m p h = h
  size-run ((held, set_size n) ∷ calls) m p h =
      size-run calls (step dec held (set_size n) m) p.1
        (omega (arith, p.0, size-step held (set_size n) m))
  size-run ((held, call) ∷ calls) m p h =
      size-run calls (step dec held call m) p (omega (arith, size-step held call m))

  -- After any calls of a new map of either kind, a fact is told of a key, an entity or an absence,
  -- at a level that admits it, where neither the first size nor one that was set is 0. Then a lookup
  -- of the key answers that fact, whether or not a handle of the entity stands outside the map.
  -- There are fewer than 2^64 calls in all.
  pub get_fresh :
      (size : ℕ) (level : IsolationLevel) (calls : List ((Arc → ℕ) × Call K)) (held held' : Arc → ℕ)
      (key : K) (fact : Fact)
      → length calls + 1 < u64_mod
      → admits level (kind fact) ≡ true
      → ArePositive calls
      → 0 < size
      → ((Map.get dec held' key
            (step dec held (telling key fact) (run dec calls (new size level)))).1
          ≡ answer_of fact)
        × ((Map.get dec held' key
              (step dec held (telling key fact) (run dec calls (generational size level)))).1
            ≡ answer_of fact)
  unfolding new over generational Recency.new Generations.new State.new
  get_fresh size level calls held held' key fact fits a p h = (
    get-told (new size level) calls held held' key fact
        (new-IsReady dec (length calls + 1) size level fits) a
        (size-run calls (new size level) p h),
    get-told (generational size level) calls held held' key fact
        (generational-IsReady dec (length calls + 1) size level fits) a
        (size-run calls (generational size level) p h),
  )
