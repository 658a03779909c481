-- ===== src/IdentityMap/Generations.antt =====
-- The window as two generations (crates/session/src/identity_map/generations.rs). The order of a
-- list stands for the order in which the `HashSet` is iterated.
pub mod Laws
pub mod Survival
use ascetic_ddd_rust.Prelude.{
  ℕ, List, [], ◌∷◌, ◌++◌, Bool, not, length, take, retain, ltb, leb, ◌==◌, if◌then◌else◌,
}
use ascetic_ddd_rust.Prelude.HashSet
use ascetic_ddd_rust.Prelude.HashSet.{same}

pub record Generations (K : Type 0) : Type 0 where
  pub size : ℕ
  pub young : List K
  pub old : List K

unfoldable pub new : {K : Type 0} → ℕ → Generations K
new size = record { size = size; young = []; old = [] }

module _ {K : Type 0} (dec : Discrete K) where
  -- The young generation grows old, and the old one goes, but for what the young one held.
  bump : Generations K → Generations K × List K
  bump g = (
    record g { young = []; old = g.young },
    retain (λ key. not (HashSet.contains dec key g.young)) g.old,
  )

  -- The part of `admit` behind its two early returns.
  admit_new : K → Generations K × List K → Generations K × List K
  admit_new key (g, gone) = (
    record g { young = HashSet.insert dec key g.young },
    retain (λ other. not (same dec other key)) gone,
  )

  pub admit : K → Generations K → Generations K × List K
  admit key g =
      if g.size == 0
      then (g, key ∷ [])
      else if HashSet.contains dec key g.young
      then (g, [])
      else admit_new key (if leb g.size (length g.young) then bump g else (g, []))

  pub remove : K → Generations K → Generations K
  remove key g = record g {
    young = HashSet.remove dec key g.young;
    old = HashSet.remove dec key g.old;
  }

  pub clear : Generations K → Generations K
  clear g = record g { young = []; old = [] }

  pub resize : ℕ → Generations K → Generations K × List K
  resize size g =
      let kept =
        HashSet.collect dec
          (take size (g.young ++ retain (λ key. not (HashSet.contains dec key g.young)) g.old)) in
      let gone =
        HashSet.collect dec
          (retain (λ key. not (HashSet.contains dec key kept)) (g.young ++ g.old)) in
      (record { size = size; young = kept; old = [] }, gone)
