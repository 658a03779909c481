-- ===== src/IdentityMap/State/Laws.antt =====
-- The map's memory keeps its invariant: a key is in the window exactly when its slot is anchored.
use ascetic_ddd_rust.Prelude.{
  ℕ, suc, List, Option, none, some, false, not, ◌&&◌, ◌||◌, ◌≡◌, ◌∙◌, sym, arith, ltb, length,
  Bool-cases, inl, inr,
}
use ascetic_ddd_rust.Prelude.HashMap
use ascetic_ddd_rust.Prelude.HashMap.{kept}
use ascetic_ddd_rust.Prelude.HashSet
use ascetic_ddd_rust.Prelude.HashSet.{same}
use ascetic_ddd_rust.IdentityMap.Slot.{
  Arc, Fact, of_entity, Lookup, Slot, anchored, released, is_alive,
}
use ascetic_ddd_rust.IdentityMap.Window
use ascetic_ddd_rust.IdentityMap.Window.{Window}
use ascetic_ddd_rust.IdentityMap.State.{
  State, new, hold, strong, release, sweep, sweep_when_due, remember, forget, forget_all, len,
  resize, recall_slot, recall_found, recall,
}
use ascetic_ddd_rust.IdentityMap.State.Slots.{
  is_anchored, release_keys-Distinct, is_anchored-release_keys, is_anchored-kept,
}

module _ {K : Type 0} (dec : Discrete K) where
  pub record IsValid (s : State K) : Type 0 where
    pub distinct : HashMap.Distinct dec s.slots
    pub window_valid : Window.Laws.IsValid dec s.window
    pub in_window :
        (k : K) → is_anchored (HashMap.find dec k s.slots) ≡ Window.Laws.holds dec k s.window

  module _ (held : Arc → ℕ) where
    sweep-IsValid : (s : State K) → IsValid s → IsValid (sweep dec held s)
    unfolding sweep
    sweep-IsValid s h = record {
      distinct = HashMap.retain-Distinct dec (is_alive (strong held s.slots)) s.slots h.distinct;
      window_valid = h.window_valid;
      in_window = λ k.
          rw (HashMap.find-retain dec (is_alive (strong held s.slots)) k s.slots h.distinct) (
            is_anchored-kept dec held (strong held s.slots) (HashMap.find dec k s.slots)
            ∙ h.in_window k);
    }

    sweep_when_due-IsValid : (s : State K) → IsValid s → IsValid (sweep_when_due dec held s)
    unfolding sweep_when_due
    sweep_when_due-IsValid s h =
        let counted : State K = record s { since_sweep = suc s.since_sweep } in
        let c : IsValid counted = record {
          distinct = h.distinct;
          window_valid = h.window_valid;
          in_window = h.in_window;
        } in
        elim (Bool-cases (ltb (length s.slots) (suc s.since_sweep))) [
          | inl due ↦ rw due (sweep-IsValid counted c)
          | inr early ↦ rw early c
        ]

    -- Slots where exactly the keys of a window and those that it let go are anchored.
    release-IsValid :
        (res : Window K × List K) (slots : List (K × Slot)) (since : ℕ)
        → HashMap.Distinct dec slots
        → Window.Laws.IsValid dec res.0
        → ((k : K)
            → Window.Laws.holds dec k res.0
              ≡ (is_anchored (HashMap.find dec k slots) && not (HashSet.contains dec k res.1)))
        → IsValid (release dec held res slots since)
    unfolding release
    release-IsValid (w, gone) slots since d v e = record {
      distinct = release_keys-Distinct dec held gone slots d;
      window_valid = v;
      in_window = λ k. is_anchored-release_keys dec held k gone slots ∙ sym (e k);
    }

    -- To enter an anchored slot, admit its key and release what goes.
    anchor-IsValid :
        (s : State K) (slots : List (K × Slot)) (key : K) (fact : Fact)
        → HashMap.Distinct dec slots
        → ((k : K)
            → is_anchored (HashMap.find dec k (HashMap.insert dec key (anchored fact) slots))
              ≡ (same dec key k || Window.Laws.holds dec k s.window))
        → IsValid s
        → Window.Laws.InTime s.window
        → IsValid (
            release dec held
              (Window.admit dec key s.window)
              (HashMap.insert dec key (anchored fact) slots)
              s.since_sweep)
    anchor-IsValid s slots key fact d e h t =
        release-IsValid (Window.admit dec key s.window) _ s.since_sweep
          (HashMap.insert-Distinct dec key (anchored fact) slots d)
          (Window.Laws.admit-IsValid dec key s.window h.window_valid t)
          (λ k. rw (e k) (Window.Laws.holds-admit dec key k s.window h.window_valid t))

    -- In a state where no key has two slots, the window is well formed, and exactly its keys have
    -- anchored slots, this is so after a fact is remembered, if the clock has a tick left.
    pub remember-IsValid :
        (key : K) (fact : Fact) (s : State K)
        → IsValid s
        → Window.Laws.InTime s.window
        → IsValid (remember dec held key fact s)
    unfolding remember
    remember-IsValid key fact s h t = sweep_when_due-IsValid _ (
        anchor-IsValid s s.slots key fact h.distinct
          (λ k.
            ground (arith, HashMap.find-insert dec k key (anchored fact) s.slots, h.in_window k))
          h t)

    pub resize-IsValid : (n : ℕ) (s : State K) → IsValid s → IsValid (resize dec held n s)
    unfolding resize
    resize-IsValid n s h =
        release-IsValid (Window.resize dec n s.window) s.slots s.since_sweep h.distinct
          (Window.Laws.resize-IsValid dec n s.window h.window_valid)
          (λ k. rw (h.in_window k) (Window.Laws.holds-resize dec n k s.window h.window_valid))

    pub forget-IsValid : (key : K) (s : State K) → IsValid s → IsValid (forget dec held key s)
    unfolding forget
    forget-IsValid key s h = record {
      distinct = HashMap.remove-Distinct dec key s.slots h.distinct;
      window_valid = Window.Laws.remove-IsValid dec key s.window h.window_valid;
      in_window = λ k. ground (
        arith,
        HashMap.find-remove dec k key s.slots,
        h.in_window k,
        Window.Laws.holds-remove dec key k s.window h.window_valid,
      );
    }

    pub forget_all-IsValid : (s : State K) → IsValid (forget_all dec held s)
    unfolding forget_all HashMap.find HashMap.Distinct
    forget_all-IsValid s = record {
      distinct = tt;
      window_valid = Window.Laws.clear-IsValid dec s.window;
      in_window = λ k. sym (Window.Laws.holds-clear dec k s.window);
    }

    pub len-IsValid : (s : State K) → IsValid s → IsValid (len dec held s).0
    unfolding len
    len-IsValid s h = sweep-IsValid s h

  module _ (held : Arc → ℕ) (key : K) (s : State K) (h : IsValid s)
      (t : Window.Laws.InTime s.window) where
    -- To anchor again a slot that was taken out.
    again-IsValid :
        (answer : Lookup) (fact : Fact)
        → IsValid
            (recall_slot dec held key
              (some (anchored fact), answer)
              (HashMap.remove dec key s.slots)
              s).0
    unfolding recall_slot
    again-IsValid answer fact = sweep_when_due-IsValid (hold answer held) _ (
        anchor-IsValid (hold answer held) s (HashMap.remove dec key s.slots) key fact
          (HashMap.remove-Distinct dec key s.slots h.distinct)
          (λ k. ground (
            arith,
            HashMap.find-insert dec k key (anchored fact) (HashMap.remove dec key s.slots),
            HashMap.find-remove dec k key s.slots,
            h.in_window k,
          ))
          h t)

    gone-IsValid :
        (answer : Lookup)
        → IsValid (recall_slot dec held key (none, answer) (HashMap.remove dec key s.slots) s).0
    unfolding recall_slot forget
    gone-IsValid answer = sweep_when_due-IsValid (hold answer held) _ (
        let f = forget-IsValid held key s h in
        record { distinct = f.distinct; window_valid = f.window_valid; in_window = f.in_window })

    found-IsValid : (o : Option Slot) → IsValid (recall_found dec held key o s).0
    unfolding recall_found
    found-IsValid none = h
    found-IsValid (some (anchored fact)) = again-IsValid _ fact
    found-IsValid (some (released e)) =
        elim (Bool-cases (ltb 0 (strong held (HashMap.remove dec key s.slots) e))) [
          | inl alive ↦ rw alive (again-IsValid _ (of_entity e))
          | inr dead ↦ rw dead (gone-IsValid _)
        ]

    -- In a state where no key has two slots, the window is well formed, and exactly its keys have
    -- anchored slots, this is so after a lookup, if the clock has a tick left.
    pub recall-IsValid : IsValid (recall dec held key s).0
    unfolding recall
    recall-IsValid = found-IsValid (HashMap.find dec key s.slots)

  pub new-IsValid :
      (w : Window K)
      → Window.Laws.IsValid dec w
      → ((k : K) → Window.Laws.holds dec k w ≡ false)
      → IsValid (new w)
  unfolding new HashMap.find HashMap.Distinct
  new-IsValid w v e = record { distinct = tt; window_valid = v; in_window = λ k. sym (e k) }
