-- ===== src/Specification/Truth/Kleene.antt =====
-- Three-valued logic as an order: false, unknown, true.
use ascetic_ddd_rust.Prelude.{
  ℕ, ◌-◌, min, max, Option, none, some, Bool, true, false, ◌≡◌, arith, if◌then◌else◌,
}
use ascetic_ddd_rust.Prelude.Result.{Result, ok, err, ◌>>=◌}
use ascetic_ddd_rust.Specification.Operator.{Logical, and, or}
use ascetic_ddd_rust.Specification.Scope.{EvalError}
use ascetic_ddd_rust.Specification.Truth.{
  is_some_of, deciding, join_truths, negate_truth, connective,
}

-- The place of a truth value in the order.
pub rank : Option Bool → ℕ
rank (some false) = 0
rank none = 1
rank (some true) = 2

-- The lesser of two truth values for `AND`, the greater for `OR`.
pub bound : Logical → ℕ → ℕ → ℕ
bound and a b = min a b
bound or a b = max a b

-- Of two truth values the connectives make the lesser and the greater, in the order false,
-- unknown, true; and negation turns the order around.
pub connective-bound :
    (op : Logical) (a b : Option Bool)
    → ((connective op a (ok b) >>= λ c. ok (rank c)) ≡ ok (bound op (rank a) (rank b)))
      × (rank (negate_truth a) ≡ 2 - rank a)
unfolding connective rank bound is_some_of deciding join_truths
connective-bound op a b = ground arith

-- The right side of a connective matters only where the left does not decide.
pub connective-err :
    (op : Logical) (a : Option Bool) (e : EvalError)
    → connective op a (err e) ≡ (if is_some_of (deciding op) a then ok a else err e)
unfolding connective
connective-err op a e = ground arith

-- De Morgan's law, where a side fails too.
pub negate_connective :
    (a : Option Bool) (b : Result EvalError (Option Bool))
    → (connective and a b >>= λ c. ok (negate_truth c))
      ≡ connective or (negate_truth a) (b >>= λ c. ok (negate_truth c))
unfolding connective is_some_of deciding join_truths
negate_connective a b = ground arith
