-- ===== src/Prelude/HashSet.antt =====
-- `std::collections::HashSet`, as a list of elements whose order stands for the order of iteration.
use Prim.Native.Nat.{ℕ, zero, suc, ◌≤◌}
use mathlib.Core.Path.{◌≡◌, refl}
use mathlib.Core.Bool.{Bool, true, false, not, ◌&&◌, ◌||◌}
use mathlib.Core.List.{List, [], ◌∷◌, ◌++◌}
use mathlib.Core.Logic.{ite}
use native.Mathlib.Omega.{arith}
use ascetic_ddd_rust.Prelude.Lists.{length, take, drop, retain}
use ascetic_ddd_rust.Prelude.Tests.{if◌then◌else◌}

-- Whether two elements are equal: `==` of the element's type.
abbrev pub same {ℓ} : {A : Type ℓ} (dec : Discrete A) → A → A → Bool
same dec a b = elim (dec a b) [ yes _ ↦ true | no _ ↦ false ]

module _ {ℓ} {A : Type ℓ} (dec : Discrete A) where
  unfoldable pub contains : A → List A → Bool
  contains a [] = false
  contains a (x ∷ xs) = same dec x a || contains a xs

  pub insert : A → List A → List A
  insert a xs = if contains a xs then xs else a ∷ xs

  unfoldable pub remove : A → List A → List A
  remove a [] = []
  remove a (x ∷ xs) = ite (dec x a) (remove a xs) (x ∷ remove a xs)

  -- `iter.collect::<HashSet<_>>()`
  pub collect : List A → List A
  collect [] = []
  collect (x ∷ xs) = insert x (collect xs)

  pub contains-nil : (a : A) → contains a [] ≡ false
  unfolding contains
  contains-nil a = refl

  pub contains-cons :
      (a x : A) (xs : List A) → contains a (x ∷ xs) ≡ (same dec x a || contains a xs)
  unfolding contains
  contains-cons a x xs = refl

  pub contains-insert :
      (j a : A) (xs : List A) → contains j (insert a xs) ≡ (same dec a j || contains j xs)
  unfolding contains insert
  contains-insert j a xs = ground arith

  pub contains-remove :
      (j a : A) (xs : List A) → contains j (remove a xs) ≡ (not (same dec a j) && contains j xs)
  unfolding contains remove
  contains-remove j a [] = ground arith
  contains-remove j a (x ∷ xs) = ground (arith, contains-remove j a xs)

  pub contains-collect : (j : A) (xs : List A) → contains j (collect xs) ≡ contains j xs
  unfolding contains collect
  contains-collect j [] = refl
  contains-collect j (x ∷ xs) =
      ground (arith, contains-insert j x (collect xs), contains-collect j xs)

  pub contains-append :
      (j : A) (xs ys : List A) → contains j (xs ++ ys) ≡ (contains j xs || contains j ys)
  unfolding contains
  contains-append j [] ys = refl
  contains-append j (x ∷ xs) ys = ground (arith, contains-append j xs ys)

  pub contains-retain :
      (p : A → Bool) (j : A) (xs : List A) → contains j (retain p xs) ≡ (p j && contains j xs)
  unfolding contains
  contains-retain p j [] = ground arith
  contains-retain p j (x ∷ xs) = ground (arith, contains-retain p j xs)

  pub contains-take :
      (n : ℕ) (j : A) (xs : List A) → contains j (take n xs) ≡ true → contains j xs ≡ true
  unfolding contains
  contains-take zero j xs h = cc
  contains-take (suc n) j [] h = cc
  contains-take (suc n) j (x ∷ xs) h = ground (arith, contains-take n j xs)

  -- No element stands twice.
  abbrev pub Nodup : List A → Type 0
  Nodup [] = Unit
  Nodup (x ∷ xs) = (contains x xs ≡ false) × Nodup xs

  pub remove_absent : (a : A) (xs : List A) → contains a xs ≡ false → remove a xs ≡ xs
  unfolding contains remove
  remove_absent a [] h = refl
  remove_absent a (x ∷ xs) h = ground (arith, remove_absent a xs)

  pub remove-Nodup : (a : A) (xs : List A) → Nodup xs → Nodup (remove a xs)
  unfolding remove
  remove-Nodup a [] d = d
  remove-Nodup a (x ∷ xs) d = ground (arith, contains-remove x a xs, remove-Nodup a xs d.1)

  pub snoc-Nodup : (a : A) (xs : List A) → contains a xs ≡ false → Nodup xs → Nodup (xs ++ a ∷ [])
  unfolding contains
  snoc-Nodup a [] h d = (refl, tt)
  snoc-Nodup a (x ∷ xs) h d = ground (arith, contains-append x xs (a ∷ []), snoc-Nodup a xs)

  pub drop-Nodup : (n : ℕ) (xs : List A) → Nodup xs → Nodup (drop n xs)
  drop-Nodup zero xs d = d
  drop-Nodup (suc n) [] d = d
  drop-Nodup (suc n) (x ∷ xs) d = drop-Nodup n xs d.1

  contains-drop_le :
      (n : ℕ) (j : A) (xs : List A) → contains j xs ≡ false → contains j (drop n xs) ≡ false
  unfolding contains
  contains-drop_le zero j xs h = h
  contains-drop_le (suc n) j [] h = h
  contains-drop_le (suc n) j (x ∷ xs) h = ground (arith, contains-drop_le n j xs)

  -- What is not among the first `n` stays.
  pub contains-drop :
      (n : ℕ) (j : A) (xs : List A)
      → Nodup xs
      → contains j (drop n xs) ≡ (contains j xs && not (contains j (take n xs)))
  unfolding contains
  contains-drop zero j xs d = ground arith
  contains-drop (suc n) j [] d = refl
  contains-drop (suc n) j (x ∷ xs) d =
      ground (arith, contains-drop n j xs d.1, contains-drop_le n j xs)

  pub length-remove-le : (a : A) (xs : List A) → length (remove a xs) ≤ length xs
  unfolding remove
  length-remove-le a [] = omega arith
  length-remove-le a (x ∷ xs) = ground (arith, length-remove-le a xs)

  pub length-insert-le : (a : A) (xs : List A) → length (insert a xs) ≤ suc (length xs)
  unfolding insert
  length-insert-le a xs = ground arith

  pub length-collect-le : (xs : List A) → length (collect xs) ≤ length xs
  unfolding collect
  length-collect-le [] = omega arith
  length-collect-le (x ∷ xs) = omega (arith, length-insert-le x (collect xs), length-collect-le xs)

  pub contains_of_length : (j : A) (xs : List A) → length xs ≤ 0 → contains j xs ≡ false
  unfolding contains
  contains_of_length j [] h = refl
  contains_of_length j (x ∷ xs) h = absurd (omega arith)
