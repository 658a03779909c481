-- ===== src/Specification/Value/Examples.antt =====
-- Integers and times of a specification, with numbers for floats and UUIDs.
use Prim.Native.Nat.{compare}
use ascetic_ddd_rust.Prelude.{ℕ, ◌+◌, ◌*◌, ◌/◌, ◌<◌, true, false, none, some, ◌≡◌, refl, ◌==◌}
use ascetic_ddd_rust.Prelude.Int.{pos, negsuc, ◌+ℤ◌, ◌*ℤ◌, ◌-ℤ◌, magnitude, quotient, remainder}
use ascetic_ddd_rust.Prelude.Result.{ok}
use ascetic_ddd_rust.Specification.Operator
use ascetic_ddd_rust.Specification.Value.{
  timestamp, interval, Floats, Readers, compute, defined, temporal, wrapped,
}
use ascetic_ddd_rust.Specification.Value.Integer
use ascetic_ddd_rust.Specification.Value.Integer.{in_range, checked, integer, rem_or_zero}
use ascetic_ddd_rust.Specification.Value.Laws
use ascetic_ddd_rust.Specification.Value.Laws.{is_valid}

abbrev floats : Floats ℕ
floats = record {
  of_int = magnitude;
  negated = λ a. a;
  plus = λ a b. a + b;
  minus = λ a b. a;
  times = λ a b. a * b;
  divided_by = λ a b. a / b;
  partial_cmp = λ a b. some (compare a b);
  is_nan = λ a. false;
  is_zero = λ a. a == 0;
  is_finite = λ a. true;
  is_infinite = λ a. false;
}

abbrev readers : Readers ℕ
readers = record {
  compare_uuid = compare;
  point_in_time = λ t. none;
  calendar_date = λ t. none;
  read_uuid = λ t. none;
  point_in_time_form = "a point in time";
  uuid_form = "a uuid";
}

program : Unit {0}
unfolding integer in_range checked compute defined temporal wrapped is_valid ◌+ℤ◌ ◌*ℤ◌ ◌-ℤ◌ quotient
    remainder
program = tt

-- -7 / 2 is -3, and leaves -1.
seventh : integer Operator.div (negsuc 6) (pos 2) ≡ ok (negsuc 2)
unfolding program
seventh = refl

left_over : integer Operator.rem (negsuc 6) (pos 2) ≡ ok (negsuc 0)
unfolding program rem_or_zero
left_over = refl

integer-div_rem_example :
    (negsuc 2 *ℤ pos 2 +ℤ negsuc 0 ≡ negsuc 6) × (magnitude (negsuc 0) < magnitude (pos 2))
integer-div_rem_example =
    Integer.integer-div_rem (negsuc 6) (pos 2) (negsuc 2) (negsuc 0) seventh left_over

seven_in_range : in_range (negsuc 6) ≡ true
unfolding program
seven_in_range = refl

sum :
    compute floats readers Operator.add (timestamp (pos 5)) (interval (pos 7))
    ≡ ok (timestamp (pos 12))
unfolding program
sum = refl

five_is_valid : is_valid {U = ℕ} {F = ℕ} (timestamp (pos 5)) ≡ true
unfolding program
five_is_valid = refl

compute-is_valid_example : is_valid {U = ℕ} {F = ℕ} (timestamp (pos 12)) ≡ true
compute-is_valid_example =
    Laws.compute-is_valid floats readers Operator.add (timestamp (pos 5)) (interval (pos 7))
      (timestamp (pos 12)) five_is_valid sum

span :
    compute floats readers Operator.sub (timestamp (pos 3)) (timestamp (pos 5))
    ≡ ok (interval (negsuc 1))
unfolding program
span = refl

three_in_range : in_range (pos 3) ≡ true
unfolding program
three_in_range = refl

compute-span_example :
    (compute floats readers Operator.add (timestamp (pos 5)) (interval (negsuc 1))
      ≡ ok (timestamp (pos 3)))
    × (compute floats readers Operator.add (interval (negsuc 1)) (timestamp (pos 5))
        ≡ ok (timestamp (pos 3)))
compute-span_example =
    Laws.compute-span floats readers (pos 5) (pos 3) (interval (negsuc 1)) three_in_range span
