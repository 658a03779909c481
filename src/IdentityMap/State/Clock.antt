-- ===== src/IdentityMap/State/Clock.antt =====
-- The clock of the window under the operations of the memory: each counts at most one use.
use ascetic_ddd_rust.Prelude.{
  ℕ, suc, ◌+◌, ◌≤◌, List, Option, none, some, ◌≡◌, refl, arith, ltb, length, Bool-cases,
  Option-cases, inl, inr,
}
use ascetic_ddd_rust.Prelude.HashMap
use ascetic_ddd_rust.Prelude.HashMap.{kept}
use ascetic_ddd_rust.IdentityMap.Slot
use ascetic_ddd_rust.IdentityMap.Slot.{
  Arc, Fact, of_entity, of_absence, Lookup, Slot, anchored, released, is_alive,
}
use ascetic_ddd_rust.IdentityMap.Window
use ascetic_ddd_rust.IdentityMap.Window.{Window}
use ascetic_ddd_rust.IdentityMap.State.{
  State, hold, strong, release, sweep, sweep_when_due, remember, forget, forget_all, len, resize,
  recall_slot, recall_found, recall,
}

module _ {K : Type 0} (dec : Discrete K) where
  module _ (held : Arc → ℕ) where
    clock-sweep_when_due :
        (s : State K)
        → Window.Laws.clock_of (sweep_when_due dec held s).window ≡ Window.Laws.clock_of s.window
    unfolding sweep_when_due sweep
    clock-sweep_when_due s = elim (Bool-cases (ltb (length s.slots) (suc s.since_sweep))) [
      | inl due ↦ rw due
      | inr early ↦ rw early
    ]

    pub clock-remember-le :
        (key : K) (fact : Fact) (s : State K)
        → Window.Laws.clock_of (remember dec held key fact s).window
          ≤ Window.Laws.clock_of s.window + 1
    unfolding remember release
    clock-remember-le key fact s =
        omega (arith, clock-sweep_when_due _, Window.Laws.clock_of-admit-le dec key s.window)

  clock-recall_slot-le :
      (held : Arc → ℕ) (key : K) (res : Option Slot × Lookup) (rest : List (K × Slot)) (s : State K)
      → Window.Laws.clock_of (recall_slot dec held key res rest s).0.window
        ≤ Window.Laws.clock_of s.window + 1
  unfolding recall_slot release
  clock-recall_slot-le held key (some next, a) rest s =
      omega (
        arith,
        clock-sweep_when_due (hold a held) _,
        Window.Laws.clock_of-admit-le dec key s.window,
      )
  clock-recall_slot-le held key (none, a) rest s =
      omega
        (arith, clock-sweep_when_due (hold a held) _, Window.Laws.clock_of-remove dec key s.window)

  pub clock-recall-le :
      (held : Arc → ℕ) (key : K) (s : State K)
      → Window.Laws.clock_of (recall dec held key s).0.window ≤ Window.Laws.clock_of s.window + 1
  unfolding recall recall_found
  clock-recall-le held key s = elim (Option-cases (HashMap.find dec key s.slots)) [
    | inl e ↦ rw (e, recall_found) (omega arith)
    | inr (slot, e) ↦
        let rest = HashMap.remove dec key s.slots in
        rw (e, recall_found)
          (clock-recall_slot-le held key (Slot.recall (strong held rest) slot) rest s)
  ]

  pub clock-forget :
      (held : Arc → ℕ) (key : K) (s : State K)
      → Window.Laws.clock_of (forget dec held key s).window ≡ Window.Laws.clock_of s.window
  unfolding forget
  clock-forget held key s = Window.Laws.clock_of-remove dec key s.window

  pub clock-forget_all :
      (held : Arc → ℕ) (s : State K)
      → Window.Laws.clock_of (forget_all dec held s).window ≡ Window.Laws.clock_of s.window
  unfolding forget_all
  clock-forget_all held s = Window.Laws.clock_of-clear dec s.window

  pub clock-len :
      (held : Arc → ℕ) (s : State K)
      → Window.Laws.clock_of (len dec held s).0.window ≡ Window.Laws.clock_of s.window
  unfolding len sweep
  clock-len held s = refl

  pub clock-resize :
      (held : Arc → ℕ) (n : ℕ) (s : State K)
      → Window.Laws.clock_of (resize dec held n s).window ≡ Window.Laws.clock_of s.window
  unfolding resize release
  clock-resize held n s = Window.Laws.clock_of-resize dec n s.window
