-- ===== src/IdentityMap/State.antt =====
-- The map's memory: a slot per key, and a window over the anchored ones
-- (crates/session/src/identity_map/state.rs). The strong handles that stand outside the map are
-- the argument `held`; those inside are the anchored slots.
pub mod Slots
pub mod Laws
pub mod Clock
pub mod Knowledge
pub mod Freshness
use ascetic_ddd_rust.Prelude.{
  ℕ, ◌+◌, suc, List, [], ◌∷◌, Option, none, some, Bool, length, retain, ltb, ◌==◌, if◌then◌else◌,
}
use ascetic_ddd_rust.Prelude.HashMap
use ascetic_ddd_rust.IdentityMap.Slot
use ascetic_ddd_rust.IdentityMap.Slot.{
  Arc, Fact, of_entity, of_absence, Lookup, found, absent, unknown, Slot, anchored, released,
  is_alive,
}
use ascetic_ddd_rust.IdentityMap.Window
use ascetic_ddd_rust.IdentityMap.Window.{Window}

pub record State (K : Type 0) : Type 0 where
  pub slots : List (K × Slot)
  pub window : Window K
  pub since_sweep : ℕ

unfoldable pub new : {K : Type 0} → Window K → State K
new window = record { slots = []; window = window; since_sweep = 0 }

-- The strong handles of an address that a slot holds.
abbrev pub handles : Arc → Slot → ℕ
handles e (anchored (of_entity d)) = if d == e then 1 else 0
handles e _ = 0

-- `Arc::strong_count`: the handles held outside, and those of the slots.
pub strong : {K : Type 0} → (Arc → ℕ) → List (K × Slot) → Arc → ℕ
strong held [] e = held e
strong held ((k, s) ∷ slots) e = handles e s + strong held slots e

-- The handles outside the map while an answer is on its way to the caller.
abbrev pub hold : Lookup → (Arc → ℕ) → Arc → ℕ
hold (found d) held e = if d == e then suc (held e) else held e
hold absent held e = held e
hold unknown held e = held e

module _ {K : Type 0} (dec : Discrete K) (held : Arc → ℕ) where
  -- One round of the loop of `release`.
  pub put_back : K → Option Slot → List (K × Slot) → List (K × Slot)
  put_back key none rest = rest
  put_back key (some next) rest = HashMap.insert dec key next rest

  pub release_slot : (Arc → ℕ) → Option Slot → Option Slot
  release_slot count none = none
  release_slot count (some slot) = Slot.release count slot

  pub release_key : K → List (K × Slot) → List (K × Slot)
  release_key key slots =
      let rest = HashMap.remove dec key slots in
      put_back key (release_slot (strong held rest) (HashMap.find dec key slots)) rest

  pub release_keys : List K → List (K × Slot) → List (K × Slot)
  release_keys [] slots = slots
  release_keys (key ∷ gone) slots = release_keys gone (release_key key slots)

  pub release : Window K × List K → List (K × Slot) → ℕ → State K
  release (window, gone) slots since = record {
    slots = release_keys gone slots;
    window = window;
    since_sweep = since;
  }

  pub sweep : State K → State K
  sweep s = record s {
    slots = retain (λ e. is_alive (strong held s.slots) e.1) s.slots;
    since_sweep = 0;
  }

  pub sweep_when_due : State K → State K
  sweep_when_due s =
      let counted = record s { since_sweep = suc s.since_sweep } in
      if ltb (length s.slots) (suc s.since_sweep) then sweep counted else counted

  pub remember : K → Fact → State K → State K
  remember key fact s = sweep_when_due (
      release (Window.admit dec key s.window) (HashMap.insert dec key (anchored fact) s.slots)
        s.since_sweep)

  unfoldable pub forget : K → State K → State K
  forget key s = record s {
    slots = HashMap.remove dec key s.slots;
    window = Window.remove dec key s.window;
  }

  unfoldable pub forget_all : State K → State K
  forget_all s = record s { slots = []; window = Window.clear dec s.window }

  pub len : State K → State K × ℕ
  len s = let swept = sweep s in (swept, length swept.slots)

  pub resize : ℕ → State K → State K
  resize size s = release (Window.resize dec size s.window) s.slots s.since_sweep

module _ {K : Type 0} (dec : Discrete K) (held : Arc → ℕ) where
  -- `recall` once the slot is taken out of the slots: the answer is held while keys are released.
  recall_slot : K → Option Slot × Lookup → List (K × Slot) → State K → State K × Lookup
  recall_slot key (some next, answer) rest s = (
    sweep_when_due dec (hold answer held) (
        release dec (hold answer held) (Window.admit dec key s.window)
          (HashMap.insert dec key next rest) s.since_sweep),
    answer,
  )
  recall_slot key (none, answer) rest s = (
    sweep_when_due dec (hold answer held)
        (record s { slots = rest; window = Window.remove dec key s.window }),
    answer,
  )

  recall_found : K → Option Slot → State K → State K × Lookup
  recall_found key none s = (s, unknown)
  recall_found key (some slot) s =
      let rest = HashMap.remove dec key s.slots in
      recall_slot key (Slot.recall (strong held rest) slot) rest s

  pub recall : K → State K → State K × Lookup
  recall key s = recall_found key (HashMap.find dec key s.slots) s
