-- ===== src/Specification/Operand.antt =====
-- What the evaluator needs of a value (crates/specification/src/domain/operand.rs).
use Prim.Native.String.{String}
use Prim.Native.Nat.{Ordering}
use ascetic_ddd_rust.Prelude.{Bool, true, false, Option, some, ◌≡◌}
use ascetic_ddd_rust.Prelude.Result.{Result}
use ascetic_ddd_rust.Specification.Operator.{Arithmetic}

pub data OperandError : Type 0 where
  unsupported : String → String → Option String → OperandError
  division_by_zero out_of_range : OperandError
  -- The text, the kind it was to be read as, and the form of that kind.
  unreadable : String → String → String → OperandError

-- The trait `Operand`.
pub record Operand (V : Type 0) : Type 0 where
  pub null : V
  pub is_null : V → Bool
  pub from_bool : Bool → V
  pub as_bool : V → Option Bool
  pub kind : V → String
  pub equals : V → V → Result OperandError Bool
  pub compare : V → V → Result OperandError Ordering
  pub negate : V → Result OperandError V
  pub compute : Arithmetic → V → V → Result OperandError V
  pub read_beside : V → V → Result OperandError (Option V)

-- What the trait's documentation says of the null and of the truth values.
pub record IsLawful {V : Type 0} (o : Operand V) : Type 0 where
  pub null_is_null : o.is_null o.null ≡ true
  pub bool_not_null : (b : Bool) → o.is_null (o.from_bool b) ≡ false
  pub as_bool-from_bool : (b : Bool) → o.as_bool (o.from_bool b) ≡ some b
