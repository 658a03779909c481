-- ===== src/IdentityMap/Generations/Laws.antt =====
-- What the generations hold after each operation.
use ascetic_ddd_rust.Prelude.{
  ℕ, ◌≤◌, ◌<◌, true, List, [], ◌++◌, Bool, false, not, ◌&&◌, ◌||◌, length, take, retain, ◌≡◌, refl,
  arith, length-take-le,
}
use ascetic_ddd_rust.Prelude.HashSet
use ascetic_ddd_rust.Prelude.HashSet.{same}
use ascetic_ddd_rust.IdentityMap.Generations.{
  Generations, new, bump, admit_new, admit, remove, clear, resize,
}

module _ {K : Type 0} (dec : Discrete K) where
  -- The young generation fits the size, and a window of size 0 is empty.
  pub record IsValid (g : Generations K) : Type 0 where
    pub bounded : length g.young ≤ g.size
    pub none_old : g.size ≡ 0 → g.old ≡ []

  unfoldable pub holds : K → Generations K → Bool
  holds j g = HashSet.contains dec j g.young || HashSet.contains dec j g.old

  pub new-IsValid : (n : ℕ) → IsValid (new n)
  unfolding new
  new-IsValid n = record { bounded = omega arith; none_old = λ _. refl }

  pub clear-IsValid : (g : Generations K) → IsValid (clear dec g)
  unfolding clear
  clear-IsValid g = record { bounded = omega arith; none_old = λ _. refl }

  pub remove-IsValid : (g : Generations K) (k : K) → IsValid g → IsValid (remove dec k g)
  unfolding remove HashSet.remove
  remove-IsValid g k h = record {
    bounded = omega (arith, HashSet.length-remove-le dec k g.young);
    none_old = λ e. rw (h.none_old e) refl;
  }

  abbrev candidates : Generations K → ℕ → List K
  candidates g n = take n (g.young ++ retain (λ key. not (HashSet.contains dec key g.young)) g.old)

  pub resize-IsValid : (n : ℕ) (g : Generations K) → IsValid (resize dec n g).0
  unfolding resize
  resize-IsValid n g = record {
    bounded = omega (
      arith,
      HashSet.length-collect-le dec (candidates g n),
      length-take-le n (g.young ++ retain (λ key. not (HashSet.contains dec key g.young)) g.old),
    );
    none_old = λ _. refl;
  }

  pub admit-IsValid : (k : K) (g : Generations K) → IsValid g → IsValid (admit dec k g).0
  unfolding admit admit_new bump
  admit-IsValid k g h = record {
    bounded =
        ground (arith, HashSet.length-insert-le dec k g.young, HashSet.length-insert-le dec k []);
    none_old = λ e. ground (arith, h.none_old);
  }

  pub holds-admit :
      (k j : K) (g : Generations K)
      → IsValid g
      → holds j (admit dec k g).0
        ≡ ((same dec k j || holds j g) && not (HashSet.contains dec j (admit dec k g).1))
  unfolding holds admit admit_new bump
  holds-admit k j g h = ground (
    arith,
    h.none_old,
    HashSet.contains_of_length dec j g.young,
    HashSet.contains-nil dec j,
    HashSet.contains-cons dec j k [],
    HashSet.contains-insert dec j k [],
    HashSet.contains-insert dec j k g.young,
    HashSet.contains-retain dec (λ key. not (HashSet.contains dec key g.young)) j g.old,
    HashSet.contains-retain dec (λ other. not (same dec other k)) j
        (retain (λ key. not (HashSet.contains dec key g.young)) g.old),
  )

  -- A window of positive size holds the key that it admits.
  pub holds-admit_self : (k : K) (g : Generations K) → 0 < g.size → holds k (admit dec k g).0 ≡ true
  unfolding holds admit admit_new bump
  holds-admit_self k g positive =
      ground (arith, HashSet.contains-insert dec k k g.young, HashSet.contains-insert dec k k [])

  pub holds-resize :
      (n : ℕ) (j : K) (g : Generations K)
      → holds j (resize dec n g).0 ≡ (holds j g && not (HashSet.contains dec j (resize dec n g).1))
  unfolding holds resize
  holds-resize n j g = ground (
    arith,
    HashSet.contains-nil dec j,
    HashSet.contains-collect dec j (candidates g n),
    HashSet.contains-collect dec j (
        retain (λ key. not (HashSet.contains dec key (HashSet.collect dec (candidates g n))))
          (g.young ++ g.old)),
    HashSet.contains-retain dec
        (λ key. not (HashSet.contains dec key (HashSet.collect dec (candidates g n)))) j
        (g.young ++ g.old),
    HashSet.contains-append dec j g.young g.old,
    HashSet.contains-take dec n j
        (g.young ++ retain (λ key. not (HashSet.contains dec key g.young)) g.old),
    HashSet.contains-append dec j g.young
        (retain (λ key. not (HashSet.contains dec key g.young)) g.old),
    HashSet.contains-retain dec (λ key. not (HashSet.contains dec key g.young)) j g.old,
  )

  pub holds-remove :
      (k j : K) (g : Generations K) → holds j (remove dec k g) ≡ (not (same dec k j) && holds j g)
  unfolding holds remove
  holds-remove k j g =
      ground (arith, HashSet.contains-remove dec j k g.young, HashSet.contains-remove dec j k g.old)

  pub holds-clear : (j : K) (g : Generations K) → holds j (clear dec g) ≡ false
  unfolding holds clear HashSet.contains
  holds-clear j g = refl

  pub holds-new : (n : ℕ) (j : K) → holds j (new n) ≡ false
  unfolding holds new HashSet.contains
  holds-new n j = refl

  pub size-admit : (k : K) (g : Generations K) → (admit dec k g).0.size ≡ g.size
  unfolding admit admit_new bump
  size-admit k g = ground arith

  pub size-remove : (k : K) (g : Generations K) → (remove dec k g).size ≡ g.size
  unfolding remove
  size-remove k g = refl

  pub size-clear : (g : Generations K) → (clear dec g).size ≡ g.size
  unfolding clear
  size-clear g = refl

  pub size-resize : (n : ℕ) (g : Generations K) → (resize dec n g).0.size ≡ n
  unfolding resize
  size-resize n g = refl
