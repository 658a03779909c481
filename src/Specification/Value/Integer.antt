-- ===== src/Specification/Value/Integer.antt =====
-- The arithmetic of the 64-bit integers of a specification
-- (crates/specification/src/domain/value.rs).
use ascetic_ddd_rust.Prelude.{
  ℕ, suc, ◌%◌, ◌^◌, ◌<◌, Bool, true, ltb, ◌==◌, if◌then◌else◌, ◌≡◌, refl, arith,
}
use native.Mathlib.Nat.{mod-le, mod-lt, div-le_self, div-add-mod'}
use ascetic_ddd_rust.Prelude.Int.{
  ℤ, pos, negsuc, sub_ℕ, ◌+ℤ◌, ◌-ℤ◌, ◌*ℤ◌, magnitude, quotient, remainder, floor_div, floor_mod,
}
use ascetic_ddd_rust.Prelude.Result.{Result, ok, err}
use ascetic_ddd_rust.Specification.Operator.{Arithmetic, add, sub, mul, div, rem, shl, shr}
use ascetic_ddd_rust.Specification.Operand.{OperandError, division_by_zero, out_of_range}

-- Whether an integer is an `i64`.
unfoldable pub in_range : ℤ → Bool
in_range (pos n) = ltb n (2 ^ 63)
in_range (negsuc n) = ltb n (2 ^ 63)

-- The `i64` of the low 64 bits of an integer.
pub wrap : ℤ → ℤ
wrap a = sub_ℕ (floor_mod (a +ℤ pos (2 ^ 63)) (2 ^ 64)) (2 ^ 63)

-- The results of `checked_add` and the like.
unfoldable pub checked : ℤ → Result OperandError ℤ
checked a = if in_range a then ok a else err out_of_range

-- `right as u32`, of which a wrapping shift takes the count modulo 64.
pub count : ℤ → ℕ
count right = floor_mod right (2 ^ 32) % 64

-- `left.checked_rem(right).unwrap_or(0)`
unfoldable pub rem_or_zero : ℤ → ℤ → ℤ
rem_or_zero left right = if in_range (quotient left right) then remainder left right else pos 0

unfoldable pub integer : Arithmetic → ℤ → ℤ → Result OperandError ℤ
integer add left right = checked (left +ℤ right)
integer sub left right = checked (left -ℤ right)
integer mul left right = checked (left *ℤ right)
integer div left right =
    if magnitude right == 0 then err division_by_zero else checked (quotient left right)
integer rem left right =
    if magnitude right == 0 then err division_by_zero else ok (rem_or_zero left right)
integer shl left right = ok (wrap (left *ℤ pos (2 ^ count right)))
integer shr left right = ok (floor_div left (2 ^ count right))

floor_mod-lt : (a : ℤ) (n : ℕ) → 0 < n → floor_mod a n < n
unfolding floor_mod
floor_mod-lt (pos a) n h = omega (arith, mod-lt a h)
floor_mod-lt (negsuc a) n h = omega arith

-- A difference of a number below 2^64 and 2^63 is an `i64`.
in_range-sub_ℕ : (n : ℕ) → n < 2 ^ 64 → in_range (sub_ℕ n (2 ^ 63)) ≡ true
unfolding in_range
in_range-sub_ℕ n h = ground arith

wrap-in_range : (a : ℤ) → in_range (wrap a) ≡ true
unfolding wrap
wrap-in_range a = in_range-sub_ℕ _ (floor_mod-lt (a +ℤ pos (2 ^ 63)) (2 ^ 64) (omega arith))

remainder-in_range : (a b : ℤ) → in_range a ≡ true → in_range (remainder a b) ≡ true
unfolding in_range remainder
remainder-in_range (pos a) b h = ground (arith, mod-le a (magnitude b))
remainder-in_range (negsuc a) b h = ground (arith, mod-le (suc a) (magnitude b))

floor_div-in_range : (a : ℤ) (n : ℕ) → in_range a ≡ true → in_range (floor_div a n) ≡ true
unfolding in_range floor_div
floor_div-in_range (pos a) n h = ground (arith, div-le_self a n)
floor_div-in_range (negsuc a) n h = ground (arith, div-le_self a n)

pub checked-in_range : (a c : ℤ) → checked a ≡ ok c → in_range c ≡ true
unfolding checked
checked-in_range a c h = ground arith

zero-in_range : in_range (pos 0) ≡ true
unfolding in_range
zero-in_range = refl

-- Every result of the arithmetic of `i64`s is an `i64`: of a sum, a difference, a product or a
-- quotient because it is checked, of a remainder and of a shift to the right because it is no
-- greater than the left operand, and of a shift to the left because it wraps.
pub integer-in_range :
    (op : Arithmetic) (left right result : ℤ)
    → in_range left ≡ true
    → integer op left right ≡ ok result
    → in_range result ≡ true
unfolding integer rem_or_zero
integer-in_range add left right c h e = checked-in_range _ c e
integer-in_range sub left right c h e = checked-in_range _ c e
integer-in_range mul left right c h e = checked-in_range _ c e
integer-in_range div left right c h e = ground (arith, checked-in_range (quotient left right) c)
integer-in_range rem left right c h e =
    ground (arith, remainder-in_range left right h, zero-in_range)
integer-in_range shl left right c h e =
    ground (arith, wrap-in_range (left *ℤ pos (2 ^ count right)))
integer-in_range shr left right c h e = ground (arith, floor_div-in_range left (2 ^ count right) h)

-- The quotient and the remainder of a division that truncates make the dividend.
quotient-remainder : (a b : ℤ) → quotient a b *ℤ b +ℤ remainder a b ≡ a
unfolding quotient remainder ◌*ℤ◌ ◌+ℤ◌
quotient-remainder (pos a) (pos b) = grind (arith, div-add-mod' a b)
quotient-remainder (pos a) (negsuc b) = grind (arith, div-add-mod' a (suc b))
quotient-remainder (negsuc a) (pos b) = grind (arith, div-add-mod' (suc a) b)
quotient-remainder (negsuc a) (negsuc b) = grind (arith, div-add-mod' (suc a) (suc b))

magnitude-remainder : (a b : ℤ) → magnitude (remainder a b) ≡ magnitude a % magnitude b
unfolding remainder
magnitude-remainder (pos a) b = refl
magnitude-remainder (negsuc a) b = ground arith

-- Where a division and its remainder both have a result, the quotient times the divisor plus the
-- remainder is the dividend, and the remainder is smaller in magnitude than the divisor.
pub integer-div_rem :
    (left right q m : ℤ)
    → integer div left right ≡ ok q
    → integer rem left right ≡ ok m
    → (q *ℤ right +ℤ m ≡ left) × (magnitude m < magnitude right)
unfolding integer rem_or_zero checked
integer-div_rem left right q m eq er =
    let positive : 0 < magnitude right = ground arith in
    let is_q : quotient left right ≡ q = ground arith in
    let is_m : remainder left right ≡ m = ground arith in
    (
      rw (← is_q, ← is_m) (quotient-remainder left right),
      rw (← is_m, magnitude-remainder left right) (mod-lt (magnitude left) positive),
    )
