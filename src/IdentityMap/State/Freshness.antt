-- ===== src/IdentityMap/State/Freshness.antt =====
-- What was just remembered is anchored, if the window has a size at all.
use ascetic_ddd_rust.Prelude.{ℕ, ◌<◌, true, List, Option, none, some, ◌≡◌, refl, ◌∙◌, arith}
use ascetic_ddd_rust.Prelude.HashMap
use ascetic_ddd_rust.IdentityMap.Slot.{Arc, Fact, of_entity, of_absence, Slot, anchored, Lookup}
use ascetic_ddd_rust.IdentityMap.Window
use ascetic_ddd_rust.IdentityMap.State.{
  State, hold, release, sweep, sweep_when_due, remember, forget, forget_all, len, resize,
  recall_slot, recall_found, recall,
}
use ascetic_ddd_rust.IdentityMap.State.Slots.{is_anchored, Fades}
use ascetic_ddd_rust.IdentityMap.State.Laws
use ascetic_ddd_rust.IdentityMap.State.Knowledge

module _ {K : Type 0} (dec : Discrete K) (held : Arc → ℕ) where
  window-sweep_when_due : (s : State K) → (sweep_when_due dec held s).window ≡ s.window
  unfolding sweep_when_due sweep
  window-sweep_when_due s = ground arith

  window-remember :
      (key : K) (fact : Fact) (s : State K)
      → (remember dec held key fact s).window ≡ (Window.admit dec key s.window).0
  unfolding remember release
  window-remember key fact s = window-sweep_when_due _

  still_anchored :
      (fact : Fact) (o : Option Slot)
      → Fades dec held (some (anchored fact)) o
      → is_anchored o ≡ true
      → o ≡ some (anchored fact)
  still_anchored (of_entity e) o f a = ground arith
  still_anchored of_absence o f a = ground arith

  pub find-remember :
      (key : K) (fact : Fact) (s : State K)
      → Laws.IsValid dec s
      → Window.Laws.InTime s.window
      → 0 < Window.Laws.size_of s.window
      → HashMap.find dec key (remember dec held key fact s).slots ≡ some (anchored fact)
  find-remember key fact s h t positive =
      let there : HashMap.find dec key (HashMap.insert dec key (anchored fact) s.slots)
          ≡ some (anchored fact) =
        ground (arith, HashMap.find-insert dec key key (anchored fact) s.slots) in
      let fades = Knowledge.remember-Fades {K = K} dec held key key fact s h.distinct in
      still_anchored fact _ (rw there at fades) (
        (Laws.remember-IsValid dec held key fact s h t).in_window key
        ∙ rw (window-remember key fact s)
            (Window.Laws.holds-admit_self dec key s.window h.window_valid t positive))

  pub size-remember :
      (key : K) (fact : Fact) (s : State K)
      → Window.Laws.size_of (remember dec held key fact s).window ≡ Window.Laws.size_of s.window
  size-remember key fact s =
      rw (window-remember key fact s) (Window.Size.size_of-admit dec key s.window)

  pub size-forget :
      (key : K) (s : State K)
      → Window.Laws.size_of (forget dec held key s).window ≡ Window.Laws.size_of s.window
  unfolding forget
  size-forget key s = Window.Size.size_of-remove dec key s.window

  pub size-forget_all :
      (s : State K)
      → Window.Laws.size_of (forget_all dec held s).window ≡ Window.Laws.size_of s.window
  unfolding forget_all
  size-forget_all s = Window.Size.size_of-clear dec s.window

  pub size-len :
      (s : State K) → Window.Laws.size_of (len dec held s).0.window ≡ Window.Laws.size_of s.window
  unfolding len sweep
  size-len s = refl

  pub size-resize : (n : ℕ) (s : State K) → Window.Laws.size_of (resize dec held n s).window ≡ n
  unfolding resize release
  size-resize n s = Window.Size.size_of-resize dec n s.window

module _ {K : Type 0} (dec : Discrete K) (held : Arc → ℕ) where
  size-recall_slot :
      (key : K) (res : Option Slot × Lookup) (rest : List (K × Slot)) (s : State K)
      → Window.Laws.size_of (recall_slot dec held key res rest s).0.window
        ≡ Window.Laws.size_of s.window
  unfolding recall_slot release
  size-recall_slot key (some next, a) rest s =
      rw (window-sweep_when_due dec (hold a held) _) (Window.Size.size_of-admit dec key s.window)
  size-recall_slot key (none, a) rest s =
      rw (window-sweep_when_due dec (hold a held) _) (Window.Size.size_of-remove dec key s.window)

  size-recall_found :
      (key : K) (o : Option Slot) (s : State K)
      → Window.Laws.size_of (recall_found dec held key o s).0.window ≡ Window.Laws.size_of s.window
  unfolding recall_found
  size-recall_found key none s = refl
  size-recall_found key (some slot) s = size-recall_slot key _ _ s

  pub size-recall :
      (key : K) (s : State K)
      → Window.Laws.size_of (recall dec held key s).0.window ≡ Window.Laws.size_of s.window
  unfolding recall
  size-recall key s = size-recall_found key (HashMap.find dec key s.slots) s
