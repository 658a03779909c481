-- ===== src/IdentityMap/Map/Invariant.antt =====
-- The invariant of the map's memory holds after any calls.
use ascetic_ddd_rust.Prelude.{
  ℕ, suc, ◌+◌, ◌<◌, List, [], ◌∷◌, ◌≡◌, refl, ◌∙◌, arith, length, Bool-cases, inl, inr,
}
use ascetic_ddd_rust.IdentityMap.Slot.{Arc, Fact, of_entity, of_absence, kind}
use ascetic_ddd_rust.IdentityMap.Policy.{IsolationLevel, admits}
use ascetic_ddd_rust.IdentityMap.Recency
use ascetic_ddd_rust.IdentityMap.Recency.{u64_mod}
use ascetic_ddd_rust.IdentityMap.Generations
use ascetic_ddd_rust.IdentityMap.Window
use ascetic_ddd_rust.IdentityMap.Window.{Window, recency, generations}
use ascetic_ddd_rust.IdentityMap.State
use ascetic_ddd_rust.IdentityMap.Map.{IdentityMap, over, new, generational}
use ascetic_ddd_rust.IdentityMap.Map
use ascetic_ddd_rust.IdentityMap.Map.Calls.{
  Call, add, add_absent, get, has, remove, clear, len, is_empty, set_size, step, run,
}

module _ {K : Type 0} (dec : Discrete K) where
  -- The map is valid, and its clock has a tick left for each of `n` calls.
  pub record IsReady (n : ℕ) (m : IdentityMap K) : Type 0 where
    pub valid : State.Laws.IsValid dec m.state
    pub in_time : Window.Laws.clock_of m.state.window + n < u64_mod

  -- No call changes the level.
  pub isolation-step :
      (held : Arc → ℕ) (call : Call K) (m : IdentityMap K)
      → (step dec held call m).isolation ≡ m.isolation
  unfolding step Map.add Map.add_absent Map.get Map.has Map.is_empty Map.remember Map.recall Map.len
      Map.remove Map.clear Map.set_size
  isolation-step held (add key e) m = ground arith
  isolation-step held (add_absent key) m = ground arith
  isolation-step held (get key) m = refl
  isolation-step held (has key) m = refl
  isolation-step held _ m = refl

  pub isolation-run :
      (calls : List ((Arc → ℕ) × Call K)) (m : IdentityMap K)
      → (run dec calls m).isolation ≡ m.isolation
  unfolding run
  isolation-run [] m = refl
  isolation-run ((held, call) ∷ calls) m =
      isolation-run calls (step dec held call m) ∙ isolation-step held call m

  remember-IsReady :
      (n : ℕ) (held : Arc → ℕ) (key : K) (fact : Fact) (m : IdentityMap K)
      → IsReady (suc n) m
      → IsReady n (Map.remember dec held key fact m)
  unfolding Map.remember
  remember-IsReady n held key fact m h = elim (Bool-cases (admits m.isolation (kind fact))) [
    | inl told ↦ rw told (record {
      valid = State.Laws.remember-IsValid dec held key fact m.state h.valid (omega arith);
      in_time = omega (arith, State.Clock.clock-remember-le dec held key fact m.state);
    })
    | inr not_told ↦ rw not_told (record { valid = h.valid; in_time = omega arith })
  ]

  recall-IsReady :
      (n : ℕ) (held : Arc → ℕ) (key : K) (m : IdentityMap K)
      → IsReady (suc n) m
      → IsReady n (Map.recall dec held key m).0
  unfolding Map.recall
  recall-IsReady n held key m h = record {
    valid = State.Laws.recall-IsValid dec held key m.state h.valid (omega arith);
    in_time = omega (arith, State.Clock.clock-recall-le dec held key m.state);
  }

  pub step-IsReady :
      (n : ℕ) (held : Arc → ℕ) (call : Call K) (m : IdentityMap K)
      → IsReady (suc n) m
      → IsReady n (step dec held call m)
  unfolding step Map.add Map.add_absent Map.get Map.has Map.remove Map.clear Map.len Map.is_empty
      Map.set_size
  step-IsReady n held (add key e) m h = remember-IsReady n held key (of_entity e) m h
  step-IsReady n held (add_absent key) m h = remember-IsReady n held key of_absence m h
  step-IsReady n held (get key) m h = recall-IsReady n held key m h
  step-IsReady n held (has key) m h = recall-IsReady n held key m h
  step-IsReady n held (remove key) m h = record {
    valid = State.Laws.forget-IsValid dec held key m.state h.valid;
    in_time = omega (arith, State.Clock.clock-forget dec held key m.state);
  }
  step-IsReady n held clear m h = record {
    valid = State.Laws.forget_all-IsValid dec held m.state;
    in_time = omega (arith, State.Clock.clock-forget_all dec held m.state);
  }
  step-IsReady n held len m h = record {
    valid = State.Laws.len-IsValid dec held m.state h.valid;
    in_time = omega (arith, State.Clock.clock-len dec held m.state);
  }
  step-IsReady n held is_empty m h = record {
    valid = State.Laws.len-IsValid dec held m.state h.valid;
    in_time = omega (arith, State.Clock.clock-len dec held m.state);
  }
  step-IsReady n held (set_size size) m h = record {
    valid = State.Laws.resize-IsValid dec held size m.state h.valid;
    in_time = omega (arith, State.Clock.clock-resize dec held size m.state);
  }

  pub run-IsReady :
      (n : ℕ) (calls : List ((Arc → ℕ) × Call K)) (m : IdentityMap K)
      → IsReady (length calls + n) m
      → IsReady n (run dec calls m)
  unfolding run
  run-IsReady n [] m h = record { valid = h.valid; in_time = omega arith }
  run-IsReady n ((held, call) ∷ calls) m h = run-IsReady n calls (step dec held call m) (
      step-IsReady (length calls + n) held call m
        (record { valid = h.valid; in_time = omega arith }))

  pub new-IsReady : (n size : ℕ) (level : IsolationLevel) → n < u64_mod → IsReady n (new size level)
  unfolding new over State.new Recency.new
  new-IsReady n size level h =
      let w = Window.Laws.new_recency dec size in
      record {
        valid = State.Laws.new-IsValid dec (recency (Recency.new size)) w.0 w.1;
        in_time = omega arith;
      }

  pub generational-IsReady :
      (n size : ℕ) (level : IsolationLevel) → n < u64_mod → IsReady n (generational size level)
  unfolding generational over State.new
  generational-IsReady n size level h =
      let w = Window.Laws.new_generations dec size in
      record {
        valid = State.Laws.new-IsValid dec (generations (Generations.new size)) w.0 w.1;
        in_time = omega arith;
      }

  -- After any calls of a new map of either kind, fewer than 2^64 of them, exactly the keys in the
  -- window have an anchored slot, no key has two slots, and the window is well formed.
  pub run-IsValid :
      (size : ℕ) (level : IsolationLevel) (calls : List ((Arc → ℕ) × Call K))
      → length calls < u64_mod
      → State.Laws.IsValid dec (run dec calls (new size level)).state
        × State.Laws.IsValid dec (run dec calls (generational size level)).state
  run-IsValid size level calls h =
      let fits : length calls + 0 < u64_mod = omega arith in
      (
        (run-IsReady 0 calls (new size level)
            (new-IsReady (length calls + 0) size level fits)).valid,
        (run-IsReady 0 calls (generational size level)
            (generational-IsReady (length calls + 0) size level fits)).valid,
      )
