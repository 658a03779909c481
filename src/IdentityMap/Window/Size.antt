-- ===== src/IdentityMap/Window/Size.antt =====
-- The size of a window, which only `resize` changes.
use ascetic_ddd_rust.Prelude.{ℕ, ◌≡◌}
use ascetic_ddd_rust.IdentityMap.Recency.Members
use ascetic_ddd_rust.IdentityMap.Generations
use ascetic_ddd_rust.IdentityMap.Window.{Window, recency, generations, admit, remove, clear, resize}
use ascetic_ddd_rust.IdentityMap.Window.Laws.{size_of}

module _ {K : Type 0} (dec : Discrete K) where
  pub size_of-admit : (k : K) (w : Window K) → size_of (admit dec k w).0 ≡ size_of w
  unfolding admit
  size_of-admit k (recency r) = Members.size-admit dec k r
  size_of-admit k (generations g) = Generations.Laws.size-admit dec k g

  pub size_of-remove : (k : K) (w : Window K) → size_of (remove dec k w) ≡ size_of w
  unfolding remove
  size_of-remove k (recency r) = Members.size-remove dec k r
  size_of-remove k (generations g) = Generations.Laws.size-remove dec k g

  pub size_of-clear : (w : Window K) → size_of (clear dec w) ≡ size_of w
  unfolding clear
  size_of-clear (recency r) = Members.size-clear dec r
  size_of-clear (generations g) = Generations.Laws.size-clear dec g

  pub size_of-resize : (n : ℕ) (w : Window K) → size_of (resize dec n w).0 ≡ n
  unfolding resize
  size_of-resize n (recency r) = Members.size-resize dec n r
  size_of-resize n (generations g) = Generations.Laws.size-resize dec n g
