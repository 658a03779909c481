-- ===== src/Prelude/BTreeSet.antt =====
-- `std::collections::BTreeSet` of numbers: its elements in ascending order.
use mathlib.Core.Path.{◌≡◌, refl}
use mathlib.Core.Bool.{Bool, false, ◌||◌}
use mathlib.Core.List.{List, [], ◌∷◌}
use Prim.Native.Nat.{ℕ, suc, ◌<◌, ◌≤◌}
use native.Mathlib.Omega.{arith}
use ascetic_ddd_rust.Prelude.Tests.{if◌then◌else◌, ◌==◌, ltb}

unfoldable pub contains : ℕ → List ℕ → Bool
contains a [] = false
contains a (x ∷ xs) = x == a || contains a xs

unfoldable pub insert : ℕ → List ℕ → List ℕ
insert a [] = a ∷ []
insert a (x ∷ xs) =
    let later = insert a xs in if a == x then x ∷ xs else if ltb a x then a ∷ x ∷ xs else x ∷ later

unfoldable pub extend : List ℕ → List ℕ → List ℕ
extend [] set = set
extend (x ∷ xs) set = extend xs (insert x set)

unfoldable pub collect : List ℕ → List ℕ
collect xs = extend xs []

pub contains-insert : (j a : ℕ) (xs : List ℕ) → contains j (insert a xs) ≡ (a == j || contains j xs)
unfolding contains insert
contains-insert j a [] = refl
contains-insert j a (x ∷ xs) = ground (arith, contains-insert j a xs)

pub contains-extend :
    (j : ℕ) (xs set : List ℕ) → contains j (extend xs set) ≡ (contains j xs || contains j set)
unfolding contains extend
contains-extend j [] set = refl
contains-extend j (x ∷ xs) set =
    ground (arith, contains-extend j xs (insert x set), contains-insert j x set)

pub contains-collect : (j : ℕ) (xs : List ℕ) → contains j (collect xs) ≡ contains j xs
unfolding collect contains
contains-collect j xs = ground (arith, contains-extend j xs [])

-- The elements ascend, none below `low`.
unfoldable pub From : ℕ → List ℕ → Type 0
From low [] = Unit
From low (x ∷ xs) = (low ≤ x) × From (suc x) xs

insert-From : (low a : ℕ) (xs : List ℕ) → From low xs → low ≤ a → From low (insert a xs)
unfolding From insert
insert-From low a [] h le = (le, tt)
insert-From low a (x ∷ xs) h le = ground (arith, insert-From (suc x) a xs h.1)

pub extend-From : (xs set : List ℕ) → From 0 set → From 0 (extend xs set)
unfolding extend
extend-From [] set h = h
extend-From (x ∷ xs) set h = extend-From xs (insert x set) (insert-From 0 x set h (omega arith))

pub collect-From : (xs : List ℕ) → From 0 (collect xs)
unfolding collect From
collect-From xs = extend-From xs [] tt

pub contains-From : (j low : ℕ) (xs : List ℕ) → From low xs → j < low → contains j xs ≡ false
unfolding From contains
contains-From j low [] h lt = refl
contains-From j low (x ∷ xs) h lt = ground (arith, contains-From j (suc x) xs h.1)
