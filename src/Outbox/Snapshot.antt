-- ===== src/Outbox/Snapshot.antt =====
-- Snapshots of the server's transactions (crates/outbox/src/message.rs).
use ascetic_ddd_rust.Prelude.{
  ℕ, min, List, [], ◌∷◌, Bool, not, ◌&&◌, ◌||◌, ◌≡◌, refl, arith, ltb, retain,
}
use ascetic_ddd_rust.Prelude.BTreeSet.{contains}

pub record Snapshot : Type 0 where
  pub xmin : ℕ
  pub xmax : ℕ
  pub xip : List ℕ

unfoldable pub nothing : Snapshot
nothing = record { xmin = 1; xmax = 1; xip = [] }

unfoldable pub sees : ℕ → Snapshot → Bool
sees xid s = ltb xid s.xmin || (ltb xid s.xmax && not (contains xid s.xip))

unfoldable pub below : ℕ → Snapshot → Snapshot
below xid s = record {
  xmin = min s.xmin xid;
  xmax = min s.xmax xid;
  xip = retain (λ x. ltb x xid) s.xip;
}

contains-below :
    (x xid : ℕ) (xs : List ℕ)
    → contains x (retain (λ y. ltb y xid) xs) ≡ (contains x xs && ltb x xid)
unfolding contains
contains-below x xid [] = refl
contains-below x xid (y ∷ ys) = ground (arith, contains-below x xid ys)

-- A rewind to a transaction keeps, of what a snapshot sees, exactly what lies below it.
pub sees-below : (x xid : ℕ) (s : Snapshot) → sees x (below xid s) ≡ (sees x s && ltb x xid)
unfolding sees below
sees-below x xid s = ground (arith, contains-below x xid s.xip)
