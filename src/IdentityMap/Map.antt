-- ===== src/IdentityMap/Map.antt =====
-- The identity map that a session hands to its repositories
-- (crates/session/src/identity_map/mod.rs). The lock makes each call one step; `held` gives the
-- strong handles of an entity that stand outside the map when the call is made.
pub mod Calls
pub mod Invariant
pub mod Truth
pub mod Held
pub mod Fresh
use ascetic_ddd_rust.Prelude.{ℕ, ◌==◌, Bool, if◌then◌else◌}
use ascetic_ddd_rust.IdentityMap.Slot.{
  Arc, Fact, of_entity, of_absence, Lookup, kind, is_known, admitted,
}
use ascetic_ddd_rust.IdentityMap.Policy.{IsolationLevel, serializable, admits}
use ascetic_ddd_rust.IdentityMap.Recency
use ascetic_ddd_rust.IdentityMap.Generations
use ascetic_ddd_rust.IdentityMap.Window.{Window, recency, generations}
use ascetic_ddd_rust.IdentityMap.State
use ascetic_ddd_rust.IdentityMap.State.{State}

pub record IdentityMap (K : Type 0) : Type 0 where
  pub isolation : IsolationLevel
  pub state : State K

abbrev pub default_cache_size : ℕ
default_cache_size = 100

over : {K : Type 0} → Window K → IsolationLevel → IdentityMap K
over window isolation = record { isolation = isolation; state = State.new window }

pub new : {K : Type 0} → ℕ → IsolationLevel → IdentityMap K
new cache_size isolation = over (recency (Recency.new cache_size)) isolation

pub generational : {K : Type 0} → ℕ → IsolationLevel → IdentityMap K
generational cache_size isolation = over (generations (Generations.new cache_size)) isolation

pub with_isolation : {K : Type 0} → IsolationLevel → IdentityMap K
with_isolation isolation = new default_cache_size isolation

pub default : {K : Type 0} → IdentityMap K
default = with_isolation serializable

module _ {K : Type 0} (dec : Discrete K) (held : Arc → ℕ) where
  pub remember : K → Fact → IdentityMap K → IdentityMap K
  remember key fact m =
      if admits m.isolation (kind fact)
      then record m { state = State.remember dec held key fact m.state }
      else m

  pub recall : K → IdentityMap K → IdentityMap K × Lookup
  recall key m =
      let (state, answer) = State.recall dec held key m.state in
      (record m { state = state }, admitted (admits m.isolation) answer)

  pub add : K → Arc → IdentityMap K → IdentityMap K
  add key entity m = remember key (of_entity entity) m

  pub add_absent : K → IdentityMap K → IdentityMap K
  add_absent key m = remember key of_absence m

  -- The downcast to the key's entity type cannot fail, and is left out.
  pub get : K → IdentityMap K → IdentityMap K × Lookup
  get key m = recall key m

  pub has : K → IdentityMap K → IdentityMap K × Bool
  has key m = let (m', answer) = recall key m in (m', is_known answer)

  pub remove : K → IdentityMap K → IdentityMap K
  remove key m = record m { state = State.forget dec held key m.state }

  pub clear : IdentityMap K → IdentityMap K
  clear m = record m { state = State.forget_all dec held m.state }

  pub len : IdentityMap K → IdentityMap K × ℕ
  len m = let (state, n) = State.len dec held m.state in (record m { state = state }, n)

  pub is_empty : IdentityMap K → IdentityMap K × Bool
  is_empty m = let (m', n) = len m in (m', n == 0)

  pub set_size : ℕ → IdentityMap K → IdentityMap K
  set_size size m = record m { state = State.resize dec held size m.state }
