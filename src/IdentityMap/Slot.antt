-- ===== src/IdentityMap/Slot.antt =====
-- What the map knows about one key, and how that knowledge changes
-- (crates/session/src/identity_map/slot.rs). An entity stands for the address that its `Arc`s
-- share. The strong handles of an address are counted: those held outside the map are given by a
-- function `held`, and `others` counts those of the other slots.
use ascetic_ddd_rust.Prelude.{ℕ, Bool, true, Option, none, some, ltb, if◌then◌else◌}

-- The address that the handles of one entity share.
abbrev pub Arc : Type 0
Arc = ℕ

pub data Kind : Type 0 where
  entity absence : Kind

pub data Fact : Type 0 where
  of_entity : Arc → Fact
  of_absence : Fact

pub data Lookup : Type 0 where
  found : Arc → Lookup
  absent unknown : Lookup

pub data Slot : Type 0 where
  anchored : Fact → Slot
  released : Arc → Slot

abbrev pub kind : Fact → Kind
kind (of_entity _) = entity
kind of_absence = absence

-- `Fact::recall`
abbrev pub answer_of : Fact → Lookup
answer_of (of_entity e) = found e
answer_of of_absence = absent

-- `Lookup::is_known`
abbrev pub is_known : Lookup → Bool
is_known unknown = Bool.false
is_known _ = true

-- `Lookup::admitted`
abbrev pub admitted : (Kind → Bool) → Lookup → Lookup
admitted admits (found e) = if admits entity then found e else unknown
admitted admits absent = if admits absence then absent else unknown
admitted admits unknown = unknown

-- `Weak::strong_count` is positive: `strong` gives the number of strong handles of an address.
abbrev pub is_alive : (Arc → ℕ) → Slot → Bool
is_alive strong (anchored _) = true
is_alive strong (released e) = ltb 0 (strong e)

-- `Slot::release`; `strong` counts the handles that are left when this slot's own is dropped.
abbrev pub release : (Arc → ℕ) → Slot → Option Slot
release strong (anchored (of_entity e)) = if ltb 0 (strong e) then some (released e) else none
release strong (anchored of_absence) = none
release strong (released e) = some (released e)

-- `Slot::recall`
abbrev pub recall : (Arc → ℕ) → Slot → Option Slot × Lookup
recall strong (anchored fact) = (some (anchored fact), answer_of fact)
recall strong (released e) =
    if ltb 0 (strong e) then (some (anchored (of_entity e)), found e) else (none, unknown)
