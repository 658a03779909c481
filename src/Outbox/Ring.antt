-- ===== src/Outbox/Ring.antt =====
-- The ring that the outbox's table is cut into (crates/outbox/src/pg/ring.rs): which generation the
-- rows of a transaction land in, and which generations an epoch names.
pub mod Windows
pub mod Names
use ascetic_ddd_rust.Prelude.{
  ℕ, zero, suc, ◌+◌, ◌-◌, ◌/◌, ◌%◌, ◌^◌, min, max, List, [], ◌∷◌, leb, map, retain, if◌then◌else◌,
}
use ascetic_ddd_rust.Prelude.BTreeSet
use ascetic_ddd_rust.Outbox.Snapshot.{Snapshot, sees}

pub record Ring : Type 0 where
  pub generations : ℕ
  pub window : ℕ

pub default : Ring
default = record { generations = 8; window = 2 ^ 23 }

-- `clamp(2, i16::MAX as u32)`, and a window of one id at least.
unfoldable pub new : ℕ → ℕ → Ring
new generations window = record {
  generations = min (max generations 2) (2 ^ 15 - 1);
  window = max window 1;
}

unfoldable pub generation_of : ℕ → Ring → ℕ
generation_of xid r = (xid / r.window) % r.generations

-- `count` numbers from `first` on.
unfoldable pub range : ℕ → ℕ → List ℕ
range first zero = []
range first (suc count) = first ∷ range (first + 1) count

unfoldable pub generations_between : Ring → ℕ → ℕ → List ℕ
generations_between r from to =
    let first : ℕ = from / r.window in
    let last : ℕ = (to - 1) / r.window in
    if leb to from
    then []
    else if leb r.generations (last - first + 1)
    then BTreeSet.collect (range 0 r.generations)
    else BTreeSet.collect (map (λ w. w % r.generations) (range first (last + 1 - first)))

unfoldable pub generations_new : Ring → Snapshot → Snapshot → List ℕ
generations_new r delivered epoch =
    BTreeSet.extend
      (map (λ xid. generation_of xid r) (retain (λ xid. sees xid epoch) delivered.xip))
      (generations_between r delivered.xmax epoch.xmax)
