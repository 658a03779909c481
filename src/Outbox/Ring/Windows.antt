-- ===== src/Outbox/Ring/Windows.antt =====
-- The windows of a range of ids, and the generations they name.
use ascetic_ddd_rust.Prelude.{
  ℕ, zero, suc, ◌+◌, ◌-◌, ◌*◌, ◌/◌, ◌%◌, ◌≤◌, ◌<◌, true, ◌&&◌, inl, inr, ◌≡◌, sym, arith, leb,
  leb→le, ap, ◌∙◌, map, ◌==◌, ==_iff, Bool-cases,
}
use native.Mathlib.Nat.{
  div-mul-le_self, le-div_iff_mul-le, mul-div_left, mod-lt, mod-add-mod, add-mod_left, mod-eq_of_lt,
}
use ascetic_ddd_rust.Prelude.BTreeSet.{contains}
use ascetic_ddd_rust.Outbox.Ring.{range}

-- What a set of generations, as a list, is taken from.
pub contains-map_mod :
    (g k first count : ℕ)
    → contains g (map (λ w. w % k) (range first count)) ≡ true
    → (w : ℕ) × (first ≤ w) × (w < first + count) × (w % k ≡ g)
unfolding contains range
contains-map_mod g k first zero h = cc
contains-map_mod g k first (suc count) h = elim (Bool-cases (first % k == g)) [
  | inl here ↦ (first, omega arith, omega arith, (==_iff _ _).0 here)
  | inr later ↦
      let (w, lo, hi, e) = contains-map_mod g k (first + 1) count (ground arith) in
      (w, omega arith, omega arith, e)
]

pub map_mod-contains :
    (k w first count : ℕ)
    → first ≤ w
    → w < first + count
    → contains (w % k) (map (λ v. v % k) (range first count)) ≡ true
unfolding contains range
map_mod-contains k w first zero lo hi = absurd (omega arith)
map_mod-contains k w first (suc count) lo hi =
    ground (arith, map_mod-contains k w (first + 1) count)

pub contains-range :
    (g first count : ℕ)
    → contains g (range first count) ≡ (leb first g && leb (g + 1) (first + count))
unfolding contains range
contains-range g first zero = ground arith
contains-range g first (suc count) = ground (arith, contains-range g (first + 1) count)

-- Among as many windows as there are generations, there is one of each.
pub lap-window : (g k first : ℕ) → g < k → (w : ℕ) × (first ≤ w) × (w < first + k) × (w % k ≡ g)
lap-window g k first h =
    let f : first % k < k = mod-lt first (omega arith) in
    elim (Bool-cases (leb (first % k) g)) [
      | inl ahead ↦
          let d : first % k + (g - first % k) ≡ g = ground arith in
          (
            first + (g - first % k),
            omega arith,
            ground arith,
            sym (mod-add-mod first k (g - first % k)) ∙ ap (λ n. n % k) d ∙ mod-eq_of_lt h,
          )
      | inr behind ↦
          let d : first % k + (k + g - first % k) ≡ k + g = ground arith in
          (
            first + (k + g - first % k),
            omega arith,
            ground arith,
            sym (mod-add-mod first k (k + g - first % k))
                ∙ ap (λ n. n % k) d
                ∙ add-mod_left k g
                ∙ mod-eq_of_lt h,
          )
    ]

-- In each window of a range lies an id of the range.
pub id-in_window :
    (r from to w : ℕ)
    → 0 < r
    → from < to
    → from / r ≤ w
    → w ≤ (to - 1) / r
    → (xid : ℕ) × (from ≤ xid) × (xid < to) × (xid / r ≡ w)
id-in_window r from to w pos h lo hi = elim (Bool-cases (leb (w * r) from)) [
  | inl early ↦ (from, omega arith, h, omega (arith, (le-div_iff_mul-le pos).1 (leb→le _ _ early)))
  | inr late ↦
      (w * r, ground arith, omega (arith, (le-div_iff_mul-le pos).0 hi), mul-div_left w pos)
]

-- And the window of an id of a range lies in it.
pub window-in_range :
    (r from to xid : ℕ)
    → 0 < r
    → from ≤ xid
    → xid < to
    → (from / r ≤ xid / r) × (xid / r ≤ (to - 1) / r)
window-in_range r from to xid pos lo hi = (
  (le-div_iff_mul-le pos).1 (omega (arith, div-mul-le_self from r)),
  (le-div_iff_mul-le pos).1 (omega (arith, div-mul-le_self xid r)),
)
