-- ===== src/Prelude/HashMap.antt =====
-- `std::collections::HashMap` as an association list with distinct keys. An insertion replaces
-- what the key had.
use mathlib.Core.Path.{◌≡◌, refl}
use mathlib.Core.Bool.{Bool}
use mathlib.Core.Option.{Option, none, some}
use mathlib.Core.List.{List, [], ◌∷◌}
use mathlib.Core.Logic.{ite}
use native.Mathlib.Omega.{arith}
use ascetic_ddd_rust.Prelude.Lists.{retain}
use ascetic_ddd_rust.Prelude.Tests.{if◌then◌else◌}

-- What `retain` leaves of the value of a key.
abbrev pub kept {ℓ} : {V : Type ℓ} → (V → Bool) → Option V → Option V
kept p none = none
kept p (some v) = if p v then some v else none

module _ {ℓ} {K V : Type ℓ} (dec : Discrete K) where
  unfoldable pub find : K → List (K × V) → Option V
  find k [] = none
  find k ((j, v) ∷ m) = ite (dec j k) (some v) (find k m)

  unfoldable pub remove : K → List (K × V) → List (K × V)
  remove k [] = []
  remove k ((j, v) ∷ m) = ite (dec j k) (remove k m) ((j, v) ∷ remove k m)

  unfoldable pub insert : K → V → List (K × V) → List (K × V)
  insert k v m = (k, v) ∷ remove k m

  -- No key stands twice.
  unfoldable pub Distinct : List (K × V) → Type ℓ
  Distinct [] = Unit
  Distinct ((k, v) ∷ m) = (find k m ≡ none) × Distinct m

  pub find-nil : (j : K) → find j [] ≡ none
  unfolding find
  find-nil j = refl

  pub find-remove :
      (j k : K) (m : List (K × V)) → find j (remove k m) ≡ ite (dec k j) none (find j m)
  unfolding find remove
  find-remove j k [] = ground arith
  find-remove j k ((i, v) ∷ m) = ground (arith, find-remove j k m)

  pub find-insert :
      (j k : K) (v : V) (m : List (K × V))
      → find j (insert k v m) ≡ ite (dec k j) (some v) (find j m)
  unfolding find insert
  find-insert j k v m = ground (arith, find-remove j k m)

  pub remove-Distinct : (k : K) (m : List (K × V)) → Distinct m → Distinct (remove k m)
  unfolding Distinct remove
  remove-Distinct k [] d = d
  remove-Distinct k ((i, v) ∷ m) d = ground (arith, find-remove i k m, remove-Distinct k m d.1)

  pub insert-Distinct : (k : K) (v : V) (m : List (K × V)) → Distinct m → Distinct (insert k v m)
  unfolding Distinct insert
  insert-Distinct k v m d = (ground (arith, find-remove k k m), remove-Distinct k m d)

  pub find-retain :
      (p : V → Bool) (j : K) (m : List (K × V))
      → Distinct m
      → find j (retain (λ e. p e.1) m) ≡ kept p (find j m)
  unfolding find Distinct
  find-retain p j [] d = refl
  find-retain p j ((i, v) ∷ m) d = ground (arith, find-retain p j m d.1)

  pub retain-Distinct :
      (p : V → Bool) (m : List (K × V)) → Distinct m → Distinct (retain (λ e. p e.1) m)
  unfolding Distinct
  retain-Distinct p [] d = d
  retain-Distinct p ((i, v) ∷ m) d = ground (arith, find-retain p i m d.1, retain-Distinct p m d.1)
