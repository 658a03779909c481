-- ===== src/IdentityMap/Window.antt =====
-- The window: which keys the map keeps alive on its own, and which it lets go
-- (crates/session/src/identity_map/window.rs).
pub mod Laws
pub mod Size
use ascetic_ddd_rust.Prelude.{ℕ, List}
use ascetic_ddd_rust.IdentityMap.Recency
use ascetic_ddd_rust.IdentityMap.Recency.{Recency}
use ascetic_ddd_rust.IdentityMap.Generations
use ascetic_ddd_rust.IdentityMap.Generations.{Generations}

pub data Window (K : Type 0) : Type 0 where
  recency : Recency K → Window K
  generations : Generations K → Window K

module _ {K : Type 0} (dec : Discrete K) where
  recency_of : Recency K × List K → Window K × List K
  recency_of (r, gone) = (recency r, gone)

  generations_of : Generations K × List K → Window K × List K
  generations_of (g, gone) = (generations g, gone)

  pub admit : K → Window K → Window K × List K
  unfolding recency_of generations_of
  admit key (recency r) = recency_of (Recency.admit dec key r)
  admit key (generations g) = generations_of (Generations.admit dec key g)

  pub remove : K → Window K → Window K
  remove key (recency r) = recency (Recency.remove dec key r)
  remove key (generations g) = generations (Generations.remove dec key g)

  pub clear : Window K → Window K
  clear (recency r) = recency (Recency.clear dec r)
  clear (generations g) = generations (Generations.clear dec g)

  pub resize : ℕ → Window K → Window K × List K
  unfolding recency_of generations_of
  resize size (recency r) = recency_of (Recency.resize dec size r)
  resize size (generations g) = generations_of (Generations.resize dec size g)
