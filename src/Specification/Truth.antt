-- ===== src/Specification/Truth.antt =====
-- Truth values in three-valued logic (crates/specification/src/domain/evaluate.rs).
pub mod Kleene
use ascetic_ddd_rust.Prelude.{Option, none, some, Bool, true, false, not, if◌then◌else◌}
use ascetic_ddd_rust.Prelude.Result.{Result, ok, err, ◌>>=◌}
use ascetic_ddd_rust.Specification.Operator.{Logical, and, or}
use ascetic_ddd_rust.Specification.Operand.{Operand}
use ascetic_ddd_rust.Specification.Scope.{EvalError, not_boolean}

-- True, false, or unknown.
unfoldable pub truth : {V : Type 0} → Operand V → V → Result EvalError (Option Bool)
truth o v =
    if o.is_null v
    then ok none
    else elim (o.as_bool v) [ some b ↦ ok (some b) | none ↦ err (not_boolean (o.kind v)) ]

unfoldable pub from_truth : {V : Type 0} → Operand V → Option Bool → V
from_truth o none = o.null
from_truth o (some b) = o.from_bool b

-- `left == Some(deciding)`
unfoldable pub is_some_of : Bool → Option Bool → Bool
is_some_of b none = false
is_some_of true (some c) = c
is_some_of false (some c) = not c

-- `map(|value| !value)`
abbrev pub negate_truth : Option Bool → Option Bool
negate_truth none = none
negate_truth (some b) = some (not b)

unfoldable pub deciding : Logical → Bool
deciding and = false
deciding or = true

-- The match at the end of `connective`.
unfoldable pub join_truths : Bool → Option Bool → Option Bool → Option Bool
join_truths d left none = none
join_truths d none (some r) = if is_some_of d (some r) then some d else none
join_truths d (some l) (some r) = if is_some_of d (some r) then some d else some (not d)

-- Three-valued `AND` and `OR`; the right side is looked at only if the left does not decide.
unfoldable pub connective :
    Logical → Option Bool → Result EvalError (Option Bool) → Result EvalError (Option Bool)
connective op left right =
    if is_some_of (deciding op) left
    then ok left
    else right >>= λ r. ok (join_truths (deciding op) left r)
