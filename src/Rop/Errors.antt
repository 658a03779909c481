-- ===== src/Rop/Errors.antt =====
-- The failure track (crates/rop/src/errors.rs).
use mathlib.Core.List.{append_assoc}
use ascetic_ddd_rust.Prelude.{ℕ, ◌+◌, List, [], ◌∷◌, ◌++◌, map, Option, none, some, ◌≡◌, ap, length}

pub record Errors (E : Type 0) : Type 0 where
  pub head : E
  pub tail : List E

module _ {E : Type 0} where
  unfoldable pub new : E → Errors E
  new error = record { head = error; tail = [] }

  -- `into_vec`, and what `iter` yields.
  abbrev pub into_vec : Errors E → List E
  into_vec errors = errors.head ∷ errors.tail

  pub from_vec : List E → Option (Errors E)
  from_vec [] = none
  from_vec (head ∷ tail) = some (record { head = head; tail = tail })

  pub first : Errors E → E
  first errors = errors.head

  pub count : Errors E → ℕ
  count errors = 1 + length errors.tail

  pub push : Errors E → E → Errors E
  push errors error = record errors { tail = errors.tail ++ error ∷ [] }

  unfoldable pub merge : Errors E → Errors E → Errors E
  merge errors other = record errors { tail = errors.tail ++ into_vec other }

pub map_errors : {E F : Type 0} → (E → F) → Errors E → Errors F
map_errors f errors = record { head = f errors.head; tail = map f errors.tail }

module _ {E : Type 0} where
  -- How merges are nested makes no difference.
  pub merge_assoc : (a b c : Errors E) → merge (merge a b) c ≡ merge a (merge b c)
  unfolding merge
  merge_assoc a b c =
      ap (λ t. record { head = a.head; tail = t }) (append_assoc a.tail (into_vec b) (into_vec c))
