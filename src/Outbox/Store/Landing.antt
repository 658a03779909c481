-- ===== src/Outbox/Store/Landing.antt =====
-- Where a move of a position lands on the ring.
use ascetic_ddd_rust.Prelude.{
  ℕ, ◌≤◌, ◌<◌, max, true, false, ◌&&◌, some, ◌≡◌, refl, subst, arith, ltb, Bool-cases, inl, inr,
}
use ascetic_ddd_rust.Prelude.Result.{ok}
use ascetic_ddd_rust.Outbox.Snapshot.{Snapshot, sees, sees-below}
use ascetic_ddd_rust.Outbox.Position.{Move, start, from, now}
use ascetic_ddd_rust.Outbox.Store.{kept_below, moved_to, landing}

-- Where a move asks a position to stand: at a transaction, from which on nothing is delivered, for
-- `start` at the ring's bound, or at what the server sees.
abbrev pub IsAt : Move → ℕ → Snapshot → Snapshot → Type 0
IsAt start b current delivered = (y : ℕ) → 0 < y → b ≤ y → sees y delivered ≡ false
IsAt (from xid) b current delivered = (y : ℕ) → 0 < y → xid ≤ y → sees y delivered ≡ false
IsAt now b current delivered = delivered ≡ current

-- The bound of a move on the ring.
abbrev pub Bounded : ℕ → Move → Type 0
Bounded b start = ⊥
Bounded b (from xid) = b ≤ xid
Bounded b now = Unit

-- A move lands within the bound, and where it is asked to.
unfoldable pub Lands : ℕ → Move → Move → Type 0
Lands b to landed =
    Bounded b landed
    × ((current delivered : Snapshot)
        → IsAt landed b current delivered
        → IsAt to b current delivered)

pub Lands-Bounded : (b : ℕ) (to landed : Move) → Lands b to landed → Bounded b landed
unfolding Lands
Lands-Bounded b to landed lands = lands.0

pub landing-Lands : (b : ℕ) (to landed : Move) → landing to (some b) ≡ ok landed → Lands b to landed
unfolding landing Lands
landing-Lands b (from xid) landed h = elim (Bool-cases (ltb xid b)) [
  | inl low ↦ absurd (cc (rw low at h))
  | inr high ↦
      let e : from xid ≡ landed = cc (rw high at h) in
      subst (Lands b (from xid)) e (ground arith, λ current delivered at. at)
]
landing-Lands b start landed h =
    let e : from b ≡ landed = cc in
    subst (Lands b start) e (omega arith, λ current delivered at. at)
landing-Lands b now landed h =
    let e : now ≡ landed = cc in subst (Lands b now) e (tt, λ current delivered at. at)

pub sees-kept_below :
    (x xid : ℕ) (s : Snapshot) → sees x (kept_below xid s) ≡ (sees x s && ltb x (max xid 1))
unfolding kept_below
sees-kept_below x xid s = sees-below x (max xid 1) s

-- A move within the bound keeps what is seen below it.
pub moved_to-sees :
    (b x : ℕ) (landed : Move) (current delivered : Snapshot)
    → Bounded b landed
    → x < b
    → sees x current ≡ true
    → sees x delivered ≡ true
    → sees x (moved_to landed current delivered) ≡ true
unfolding moved_to
moved_to-sees b x start current delivered bound lt now_seen seen = absurd bound
moved_to-sees b x (from xid) current delivered bound lt now_seen seen =
    ground (arith, sees-kept_below x xid delivered)
moved_to-sees b x now current delivered bound lt now_seen seen = now_seen

pub moved_to-IsAt :
    (b : ℕ) (landed : Move) (current delivered : Snapshot)
    → Bounded b landed
    → IsAt landed b current (moved_to landed current delivered)
unfolding moved_to
moved_to-IsAt b start current delivered bound = absurd bound
moved_to-IsAt b (from xid) current delivered bound =
    λ y pos le. ground (arith, sees-kept_below y xid delivered)
moved_to-IsAt b now current delivered bound = refl
