-- ===== src/Specification/Examples.antt =====
-- Specifications over numbers, of which 0 is the null.
use Prim.Native.Nat.{compare}
use ascetic_ddd_rust.Prelude.{
  ℕ, ◌+◌, ◌-◌, [], Option, none, some, Bool, true, false, ◌≡◌, refl, ◌==◌,
}
use ascetic_ddd_rust.Prelude.Result.{Result, ok, err, ◌>>=◌, traverse}
use ascetic_ddd_rust.Specification.Operator
use ascetic_ddd_rust.Specification.Operand.{Operand, out_of_range}
use ascetic_ddd_rust.Specification.MemberPath.{Root}
use ascetic_ddd_rust.Specification.Scope.{EvalError, no_current_item}
use ascetic_ddd_rust.Specification.Truth.{connective, negate_truth}
use ascetic_ddd_rust.Specification.Truth.Kleene
use ascetic_ddd_rust.Specification.Ast
use ascetic_ddd_rust.Specification.Ast.{Expr, value, field, try_map_values}
use ascetic_ddd_rust.Specification.Ast.Values
use ascetic_ddd_rust.Specification.Ast.Values.{constants}
use ascetic_ddd_rust.Specification.NullTest
use ascetic_ddd_rust.Specification.NullTest.{throughout, is_settled, Reads}

abbrev numbers : Operand ℕ
numbers = record {
  null = 0;
  is_null = λ n. n == 0;
  from_bool = λ b. elim b [ true ↦ 2 | false ↦ 1 ];
  as_bool = λ n. some (n == 2);
  kind = λ _. "number";
  equals = λ a b. ok (a == b);
  compare = λ a b. ok (compare a b);
  negate = λ _. err out_of_range;
  compute = λ _ a b. ok (a + b);
  read_beside = λ _ _. ok none;
}

abbrev total : Expr ℕ
total = field (record { root = Root.global; objects = []; name = "total" })

-- `NOT (total = null) AND total = 5`
abbrev tree : Expr ℕ
tree = Ast.and (Ast.not (Ast.equal total (value 0))) (Ast.equal total (value 5))

abbrev settled : Expr ℕ
settled = Ast.and (Ast.not (Ast.is_null total)) (Ast.equal total (value 5))

throughout_settles_example :
    Reads numbers tree (throughout numbers tree)
    × (is_settled numbers (throughout numbers tree) ≡ true)
    × (throughout numbers (throughout numbers tree) ≡ throughout numbers tree)
throughout_settles_example = NullTest.throughout_settles numbers tree

is_settled-settled : is_settled numbers settled ≡ true
unfolding is_settled Ast.and Ast.not Ast.is_null Ast.equal
is_settled-settled = refl

-- Fails on 0.
abbrev positive : ℕ → Result EvalError ℕ
positive n = elim (n == 0) [ true ↦ err no_current_item | false ↦ ok (n - 1) ]

constants-try_map_values_example :
    (try_map_values positive tree >>= λ e. ok (constants e)) ≡ traverse positive (constants tree)
constants-try_map_values_example = Values.constants-try_map_values positive tree

abbrev truth_rank : Option Bool → ℕ
truth_rank = Kleene.rank

connective-bound_example :
    ((connective Operator.and none (ok (some false)) >>= λ c. ok (truth_rank c))
      ≡ ok (Kleene.bound Operator.and (truth_rank none) (truth_rank (some false))))
    × (truth_rank (negate_truth none) ≡ 2 - truth_rank none)
connective-bound_example = Kleene.connective-bound Operator.and none (some false)
