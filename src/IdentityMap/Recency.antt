-- ===== src/IdentityMap/Recency.antt =====
-- The window as an exact order of last use (crates/session/src/identity_map/recency.rs). A key is
-- any type with a decidable equality, as `KeyBox` has it; the clock is a `u64` that wraps.
pub mod Entries
pub mod Lru
pub mod Members
use ascetic_ddd_rust.Prelude.{
  ℕ, ◌+◌, ◌%◌, ◌^◌, suc, List, [], ◌∷◌, Option, none, some, length, ltb, if◌then◌else◌,
}
use ascetic_ddd_rust.Prelude.HashMap
use ascetic_ddd_rust.Prelude.BTreeMap

abbrev pub u64_mod : ℕ
u64_mod = 2 ^ 64

pub record Recency (K : Type 0) : Type 0 where
  pub size : ℕ
  pub clock : ℕ
  -- The tick of each key's last use.
  pub ticks : List (K × ℕ)
  -- Keys by tick, oldest first.
  pub order : List (ℕ × K)

unfoldable pub new : {K : Type 0} → ℕ → Recency K
new size = record { size = size; clock = 0; ticks = []; order = [] }

-- `order.remove(&tick)`, for the tick that a map gave, if it gave one.
pub unstamp : {K : Type 0} → Option ℕ → List (ℕ × K) → List (ℕ × K)
unstamp none order = order
unstamp (some tick) order = BTreeMap.remove tick order

module _ {K : Type 0} (dec : Discrete K) where
  -- The loop of `evict`: the ticks and the order that are left, and the keys that go.
  evict_loop : ℕ → List (K × ℕ) → List (ℕ × K) → List (K × ℕ) × List (ℕ × K) × List K
  evict_loop size ticks [] = (ticks, [], [])
  evict_loop size ticks ((t, k) ∷ order) =
      let later = evict_loop size (HashMap.remove dec k ticks) order in
      if ltb size (suc (length order))
      then (later.0, later.1, k ∷ later.2)
      else (ticks, (t, k) ∷ order, [])

  evict : Recency K → Recency K × List K
  evict r =
      let (ticks, order, gone) = evict_loop r.size r.ticks r.order in
      (record r { ticks = ticks; order = order }, gone)

  pub admit : K → Recency K → Recency K × List K
  admit key r =
      let now : ℕ = (r.clock + 1) % u64_mod in
      evict (record r {
        clock = now;
        ticks = HashMap.insert dec key now r.ticks;
        order = BTreeMap.insert now key (unstamp (HashMap.find dec key r.ticks) r.order);
      })

  pub remove : K → Recency K → Recency K
  remove key r = record r {
    ticks = HashMap.remove dec key r.ticks;
    order = unstamp (HashMap.find dec key r.ticks) r.order;
  }

  pub clear : Recency K → Recency K
  clear r = record r { ticks = []; order = [] }

  pub resize : ℕ → Recency K → Recency K × List K
  resize size r = evict (record r { size = size })
