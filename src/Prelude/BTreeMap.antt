-- ===== src/Prelude/BTreeMap.antt =====
-- `std::collections::BTreeMap` over numbers: entries in ascending order of their keys.
use Prim.Native.Nat.{ℕ, ◌<◌}
use mathlib.Core.Option.{Option, none, some}
use mathlib.Core.List.{List, [], ◌∷◌}
use ascetic_ddd_rust.Prelude.Tests.{if◌then◌else◌, ◌==◌, ltb}

module _ {ℓ} {V : Type ℓ} where
  unfoldable pub find : ℕ → List (ℕ × V) → Option V
  find k [] = none
  find k ((j, v) ∷ m) = if j == k then some v else find k m

  unfoldable pub remove : ℕ → List (ℕ × V) → List (ℕ × V)
  remove k [] = []
  remove k ((j, v) ∷ m) = if j == k then m else (j, v) ∷ remove k m

  -- An insertion in place: it replaces the value of the key, or goes before the first greater key.
  unfoldable pub insert : ℕ → V → List (ℕ × V) → List (ℕ × V)
  insert k v [] = (k, v) ∷ []
  insert k v ((j, w) ∷ m) =
      let later = insert k v m in
      if k == j then (k, v) ∷ m else if ltb k j then (k, v) ∷ (j, w) ∷ m else (j, w) ∷ later

  -- The keys ascend, and each is above `low`.
  unfoldable pub Above : ℕ → List (ℕ × V) → Type 0
  Above low [] = Unit
  Above low ((j, v) ∷ m) = (low < j) × Above j m
