-- ===== src/IdentityMap/Window/Laws.antt =====
-- What either window promises to the map's memory.
use ascetic_ddd_rust.Prelude.{
  ℕ, ◌+◌, ◌<◌, ◌≤◌, arith, Bool, true, false, not, ◌&&◌, ◌||◌, ◌≡◌, refl,
}
use ascetic_ddd_rust.Prelude.HashSet
use ascetic_ddd_rust.Prelude.HashSet.{same}
use ascetic_ddd_rust.IdentityMap.Recency
use ascetic_ddd_rust.IdentityMap.Recency.{u64_mod}
use ascetic_ddd_rust.IdentityMap.Recency.Lru
use ascetic_ddd_rust.IdentityMap.Recency.Members
use ascetic_ddd_rust.IdentityMap.Generations
use ascetic_ddd_rust.IdentityMap.Window.{Window, recency, generations, admit, remove, clear, resize}

-- The uses that a window has counted; generations count none.
abbrev pub clock_of : {K : Type 0} → Window K → ℕ
clock_of (recency r) = r.clock
clock_of (generations g) = 0

abbrev pub size_of : {K : Type 0} → Window K → ℕ
size_of (recency r) = r.size
size_of (generations g) = g.size

-- The clock has a tick left.
abbrev pub InTime : {K : Type 0} → Window K → Type 0
InTime w = clock_of w + 1 < u64_mod

module _ {K : Type 0} (dec : Discrete K) where
  abbrev pub IsValid : Window K → Type 0
  IsValid (recency r) = Lru.IsValid dec r
  IsValid (generations g) = Generations.Laws.IsValid dec g

  pub holds : K → Window K → Bool
  holds k (recency r) = Members.holds dec k r
  holds k (generations g) = Generations.Laws.holds dec k g

  pub admit-IsValid : (k : K) (w : Window K) → IsValid w → InTime w → IsValid (admit dec k w).0
  unfolding admit
  admit-IsValid k (recency r) h t = Lru.admit-IsValid dec r k h t
  admit-IsValid k (generations g) h t = Generations.Laws.admit-IsValid dec k g h

  pub remove-IsValid : (k : K) (w : Window K) → IsValid w → IsValid (remove dec k w)
  unfolding remove
  remove-IsValid k (recency r) h = Lru.remove-IsValid dec r k h
  remove-IsValid k (generations g) h = Generations.Laws.remove-IsValid dec g k h

  pub clear-IsValid : (w : Window K) → IsValid (clear dec w)
  unfolding clear
  clear-IsValid (recency r) = Lru.clear-IsValid dec r
  clear-IsValid (generations g) = Generations.Laws.clear-IsValid dec g

  pub resize-IsValid : (n : ℕ) (w : Window K) → IsValid w → IsValid (resize dec n w).0
  unfolding resize
  resize-IsValid n (recency r) h = Lru.resize-IsValid dec n r h
  resize-IsValid n (generations g) h = Generations.Laws.resize-IsValid dec n g

  -- In a well-formed window of either kind whose clock has a tick left, an admission leaves the key
  -- and what was held, less exactly the keys that it reports gone.
  pub holds-admit :
      (k j : K) (w : Window K)
      → IsValid w
      → InTime w
      → holds j (admit dec k w).0
        ≡ ((same dec k j || holds j w) && not (HashSet.contains dec j (admit dec k w).1))
  unfolding holds admit
  holds-admit k j (recency r) h t = Members.holds-admit dec r k j h t
  holds-admit k j (generations g) h t = Generations.Laws.holds-admit dec k j g h

  pub holds-admit_self :
      (k : K) (w : Window K)
      → IsValid w
      → InTime w
      → 0 < size_of w
      → holds k (admit dec k w).0 ≡ true
  unfolding holds admit
  holds-admit_self k (recency r) h t positive = Members.holds-admit_self dec r k h t positive
  holds-admit_self k (generations g) h t positive =
      Generations.Laws.holds-admit_self dec k g positive

  pub holds-remove :
      (k j : K) (w : Window K)
      → IsValid w
      → holds j (remove dec k w) ≡ (not (same dec k j) && holds j w)
  unfolding holds remove
  holds-remove k j (recency r) h = Members.holds-remove dec r k j h
  holds-remove k j (generations g) h = Generations.Laws.holds-remove dec k j g

  pub holds-clear : (j : K) (w : Window K) → holds j (clear dec w) ≡ false
  unfolding holds clear
  holds-clear j (recency r) = Members.holds-clear dec r j
  holds-clear j (generations g) = Generations.Laws.holds-clear dec j g

  -- In a well-formed window of either kind, a new size leaves what was held, less exactly the keys
  -- that it reports gone.
  pub holds-resize :
      (n : ℕ) (j : K) (w : Window K)
      → IsValid w
      → holds j (resize dec n w).0 ≡ (holds j w && not (HashSet.contains dec j (resize dec n w).1))
  unfolding holds resize
  holds-resize n j (recency r) h = Members.holds-resize dec n r j h
  holds-resize n j (generations g) h = Generations.Laws.holds-resize dec n j g

  pub clock_of-admit-le : (k : K) (w : Window K) → clock_of (admit dec k w).0 ≤ clock_of w + 1
  unfolding admit
  clock_of-admit-le k (recency r) = Members.clock-admit-le dec k r
  clock_of-admit-le k (generations g) = omega arith

  pub clock_of-remove : (k : K) (w : Window K) → clock_of (remove dec k w) ≡ clock_of w
  unfolding remove
  clock_of-remove k (recency r) = Members.clock-remove dec k r
  clock_of-remove k (generations g) = refl

  pub clock_of-clear : (w : Window K) → clock_of (clear dec w) ≡ clock_of w
  unfolding clear
  clock_of-clear (recency r) = Members.clock-clear dec r
  clock_of-clear (generations g) = refl

  pub clock_of-resize : (n : ℕ) (w : Window K) → clock_of (resize dec n w).0 ≡ clock_of w
  unfolding resize
  clock_of-resize n (recency r) = Members.clock-resize dec n r
  clock_of-resize n (generations g) = refl

  pub new_recency :
      (n : ℕ)
      → IsValid (recency (Recency.new n)) × ((j : K) → holds j (recency (Recency.new n)) ≡ false)
  unfolding holds
  new_recency n = (Lru.new-IsValid dec n, Members.holds-new dec n)

  pub new_generations :
      (n : ℕ)
      → IsValid (generations (Generations.new n))
        × ((j : K) → holds j (generations (Generations.new n)) ≡ false)
  unfolding holds
  new_generations n = (Generations.Laws.new-IsValid dec n, Generations.Laws.holds-new dec n)
