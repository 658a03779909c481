-- ===== src/IdentityMap/Generations/Survival.antt =====
-- How long a key stays in the window of generations.
use ascetic_ddd_rust.Prelude.{
  ℕ, suc, ◌+◌, ◌≤◌, ◌<◌, List, [], ◌∷◌, true, ◌≡◌, arith, length, ◌⊎◌, inl,
}
use ascetic_ddd_rust.Prelude.HashSet
use ascetic_ddd_rust.IdentityMap.Generations.{Generations, bump, admit_new, admit}
use ascetic_ddd_rust.IdentityMap.Generations.Laws.{holds}

module _ {K : Type 0} (dec : Discrete K) where
  -- The window after the keys are admitted in turn.
  pub admit_all : List K → Generations K → Generations K
  admit_all [] g = g
  admit_all (key ∷ keys) g = admit_all keys (admit dec key g).0

  module _ (key : K) where
    -- The key stays for `n` more admissions.
    IsSafe : ℕ → Generations K → Type 0
    IsSafe n g =
        (HashSet.contains dec key g.young ≡ true)
        ⊎ ((HashSet.contains dec key g.old ≡ true) × (length g.young + n ≤ g.size))

    admit-IsSafe :
        (n : ℕ) (j : K) (g : Generations K)
        → n + 1 ≤ g.size
        → IsSafe (suc n) g
        → IsSafe n (admit dec j g).0
    unfolding IsSafe admit admit_new bump
    admit-IsSafe n j g fits h = ground (
      arith,
      HashSet.contains-insert dec key j g.young,
      HashSet.contains-insert dec key j [],
      HashSet.length-insert-le dec j g.young,
      HashSet.length-insert-le dec j [],
    )

    size-admit : (j : K) (g : Generations K) → (admit dec j g).0.size ≡ g.size
    unfolding admit admit_new bump
    size-admit j g = ground arith

    admit_all-IsSafe :
        (keys : List K) (g : Generations K)
        → length keys ≤ g.size
        → IsSafe (length keys) g
        → IsSafe 0 (admit_all keys g)
    unfolding admit_all
    admit_all-IsSafe [] g fits h = h
    admit_all-IsSafe (j ∷ keys) g fits h =
        admit_all-IsSafe keys (admit dec j g).0 (omega (arith, size-admit j g))
          (admit-IsSafe (length keys) j g (omega arith) h)

    admitted-IsSafe : (n : ℕ) (g : Generations K) → 0 < g.size → IsSafe n (admit dec key g).0
    unfolding IsSafe admit admit_new bump
    admitted-IsSafe n g h = inl (
        ground (
          arith,
          HashSet.contains-insert dec key key g.young,
          HashSet.contains-insert dec key key [],
        ))

    IsSafe-holds : (g : Generations K) → IsSafe 0 g → holds dec key g ≡ true
    unfolding IsSafe holds
    IsSafe-holds g h = ground arith

    -- A key that is admitted to a window of positive size is still in it after as many further
    -- admissions, of any keys, as the size.
    pub admit_all-holds :
        (keys : List K) (g : Generations K)
        → 0 < g.size
        → length keys ≤ g.size
        → holds dec key (admit_all keys (admit dec key g).0) ≡ true
    admit_all-holds keys g h fits = IsSafe-holds _ (
        admit_all-IsSafe keys (admit dec key g).0 (omega (arith, size-admit key g))
          (admitted-IsSafe (length keys) g h))
