-- ===== src/Specification/Value.antt =====
-- The scalar values of specifications (crates/specification/src/domain/value.rs). Integers, points
-- in time, dates and spans are the integers that they hold. The floats of the machine, the UUIDs and
-- the readers of texts are parameters.
pub mod Integer
pub mod Laws
mod Examples
use Prim.Native.Nat.{Ordering, compare as compare_ℕ}
use Prim.Native.String.{String, compare as compare_text}
use ascetic_ddd_rust.Prelude.{
  ◌+◌, Bool, true, false, not, ◌&&◌, ◌||◌, Option, none, some, if◌then◌else◌,
}
use ascetic_ddd_rust.Prelude.Int.{ℤ, pos, negsuc, pos_part, neg_part, sub_ℕ, ◌+ℤ◌, ◌-ℤ◌}
use ascetic_ddd_rust.Prelude.Result.{Result, ok, err, ◌>>=◌}
use ascetic_ddd_rust.Specification.Operator
use ascetic_ddd_rust.Specification.Operator.{
  Arithmetic, add, sub, mul, div, rem, shl, shr, print_prefix, print_comparison, print_arithmetic,
}
use ascetic_ddd_rust.Specification.Operand.{
  Operand, OperandError, unsupported, division_by_zero, out_of_range, unreadable,
}
use ascetic_ddd_rust.Specification.Value.Integer.{checked, integer}

-- `U` are the UUIDs, and `F` the floats.
pub data Value (U F : Type 0) : Type 0 where
  null : Value U F
  bool : Bool → Value U F
  int : ℤ → Value U F
  float : F → Value U F
  text : String → Value U F
  timestamp date interval : ℤ → Value U F
  uuid : U → Value U F

-- `f64`: what the code uses of it.
pub record Floats (F : Type 0) : Type 0 where
  pub of_int : ℤ → F
  pub negated : F → F
  pub plus : F → F → F
  pub minus : F → F → F
  pub times : F → F → F
  pub divided_by : F → F → F
  -- `partial_cmp`
  pub partial_cmp : F → F → Option Ordering
  pub is_nan : F → Bool
  pub is_zero : F → Bool
  pub is_finite : F → Bool
  pub is_infinite : F → Bool

-- What the code uses of the packages of UUIDs and of times.
pub record Readers (U : Type 0) : Type 0 where
  pub compare_uuid : U → U → Ordering
  pub point_in_time : String → Option ℤ
  pub calendar_date : String → Option ℤ
  pub read_uuid : String → Option U
  pub point_in_time_form : String
  pub uuid_form : String

abbrev pub compare_bool : Bool → Bool → Ordering
compare_bool false true = Ordering.lt
compare_bool true false = Ordering.gt
compare_bool _ _ = Ordering.eq

abbrev pub compare_ℤ : ℤ → ℤ → Ordering
compare_ℤ a b = compare_ℕ (pos_part a + neg_part b) (pos_part b + neg_part a)

abbrev is_eq : Ordering → Bool
is_eq Ordering.eq = true
is_eq _ = false

-- The negation of an `i64`, `checked_neg`.
pub checked_neg : ℤ → Result OperandError ℤ
checked_neg a = checked (sub_ℕ (neg_part a) (pos_part a))

module _ {U F : Type 0} (f : Floats F) (r : Readers U) where
  pub kind : Value U F → String
  kind null = "null"
  kind (bool _) = "boolean"
  kind (int _) = "integer"
  kind (float _) = "float"
  kind (text _) = "text"
  kind (timestamp _) = "timestamp"
  kind (date _) = "date"
  kind (interval _) = "interval"
  kind (uuid _) = "uuid"

  pub is_null : Value U F → Bool
  is_null null = true
  is_null _ = false

  pub as_bool : Value U F → Option Bool
  as_bool (bool b) = some b
  as_bool _ = none

  -- `float_order`: NaN equals itself and is greater than everything else.
  pub float_order : F → F → Ordering
  float_order a b = elim (f.partial_cmp a b) [
    | some x ↦ x
    | none ↦ compare_bool (f.is_nan a) (f.is_nan b)
  ]

  pub compare : Value U F → Value U F → Result OperandError Ordering
  compare (bool a) (bool b) = ok (compare_bool a b)
  compare (int a) (int b) = ok (compare_ℤ a b)
  compare (float a) (float b) = ok (float_order a b)
  compare (int a) (float b) = ok (float_order (f.of_int a) b)
  compare (float a) (int b) = ok (float_order a (f.of_int b))
  compare (text a) (text b) = ok (compare_text a b)
  compare (timestamp a) (timestamp b) = ok (compare_ℤ a b)
  compare (date a) (date b) = ok (compare_ℤ a b)
  compare (interval a) (interval b) = ok (compare_ℤ a b)
  compare (uuid a) (uuid b) = ok (r.compare_uuid a b)
  compare a b = err (unsupported (print_comparison Operator.lt) (kind a) (some (kind b)))

  pub equals : Value U F → Value U F → Result OperandError Bool
  equals a b = do x ← compare a b; ok (is_eq x)

  pub negate : Value U F → Result OperandError (Value U F)
  negate (int a) = do n ← checked_neg a; ok (int n)
  negate (float a) = ok (float (f.negated a))
  negate (interval a) = do n ← checked_neg a; ok (interval n)
  negate a = err (unsupported (print_prefix Operator.neg) (kind a) none)

  -- The end of `float`: a result that is out of range is an error.
  fits : Bool → Bool → F → Option (Result OperandError (Value U F))
  fits overflow underflow result =
      some (if overflow || underflow then err out_of_range else ok (float result))

  overflows : F → F → F → Bool
  overflows left right result = f.is_infinite result && f.is_finite left && f.is_finite right

  -- `float`
  pub compute_float : Arithmetic → F → F → Option (Result OperandError (Value U F))
  compute_float add a b = let x = f.plus a b in fits (overflows a b x) false x
  compute_float sub a b = let x = f.minus a b in fits (overflows a b x) false x
  compute_float mul a b =
      let x = f.times a b in
      fits (overflows a b x) (f.is_zero x && not (f.is_zero a) && not (f.is_zero b)) x
  compute_float div a b =
      if f.is_zero b && not (f.is_nan a)
      then some (err division_by_zero)
      else (let x = f.divided_by a b in
          fits (overflows a b x) (f.is_zero x && not (f.is_zero a) && f.is_finite b) x)
  compute_float _ a b = none

  -- The closure `checked` of `temporal`.
  wrapped : (ℤ → Value U F) → ℤ → Option (Result OperandError (Value U F))
  wrapped wrap a = some (do n ← checked a; ok (wrap n))

  pub temporal : Value U F → Arithmetic → Value U F → Option (Result OperandError (Value U F))
  temporal (timestamp l) sub (timestamp r) = wrapped interval (l -ℤ r)
  temporal (timestamp l) add (interval r) = wrapped timestamp (l +ℤ r)
  temporal (interval r) add (timestamp l) = wrapped timestamp (l +ℤ r)
  temporal (timestamp l) sub (interval r) = wrapped timestamp (l -ℤ r)
  temporal (interval l) add (interval r) = wrapped interval (l +ℤ r)
  temporal (interval l) sub (interval r) = wrapped interval (l -ℤ r)
  temporal _ _ _ = none

  -- `defined`, in `compute`.
  defined : Arithmetic → Value U F → Value U F → Option (Result OperandError (Value U F))
  defined op (int a) (int b) = some (do n ← integer op a b; ok (int n))
  defined op (float a) (float b) = compute_float op a b
  defined op (int a) (float b) = compute_float op (f.of_int a) b
  defined op (float a) (int b) = compute_float op a (f.of_int b)
  defined op a b = temporal a op b

  pub compute : Arithmetic → Value U F → Value U F → Result OperandError (Value U F)
  compute op a b = elim (defined op a b) [
    | some result ↦ result
    | none ↦ err (unsupported (print_arithmetic op) (kind a) (some (kind b)))
  ]

  -- A text that is read as a kind, or is not of its form.
  read_as :
      {X : Type 0}
      → (X → Value U F)
      → String
      → String
      → String
      → Option X
      → Result OperandError (Option (Value U F))
  read_as wrap t kind form (some x) = ok (some (wrap x))
  read_as wrap t kind form none = err (unreadable t kind form)

  pub read_beside : Value U F → Value U F → Result OperandError (Option (Value U F))
  read_beside (text t) (timestamp x) =
      read_as timestamp t "timestamp" r.point_in_time_form (r.point_in_time t)
  read_beside (text t) (date x) = read_as date t "date" r.point_in_time_form (r.calendar_date t)
  read_beside (text t) (uuid x) = read_as uuid t "uuid" r.uuid_form (r.read_uuid t)
  read_beside _ _ = ok none

  -- `impl Operand for Value`
  pub value_operand : Operand (Value U F)
  value_operand = record {
    null = null;
    is_null = is_null;
    from_bool = bool;
    as_bool = as_bool;
    kind = kind;
    equals = equals;
    compare = compare;
    negate = negate;
    compute = compute;
    read_beside = read_beside;
  }
