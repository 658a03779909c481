-- ===== src/Specification/Evaluate.antt =====
-- The reader that decides in memory whether a candidate satisfies a specification
-- (crates/specification/src/domain/evaluate.rs).
pub mod Logic
pub mod Quantifier
mod Examples
use Prim.Native.Nat.{Ordering}
use Prim.Native.String.{String}
use ascetic_ddd_rust.Prelude.{
  List, [], ◌∷◌, Option, none, some, Bool, true, false, ◌&&◌, ◌||◌, not, map, if◌then◌else◌,
}
use ascetic_ddd_rust.Prelude.Result.{Result, ok, err, ◌>>=◌, map_err}
use ascetic_ddd_rust.Specification.Operator
use ascetic_ddd_rust.Specification.Operator.{
  Prefix, Postfix, Comparison, Logical, Infix, comparison, logical, arithmetic, print_infix, eq, ne,
  gt, lt, ge, le, neg, is_not_null,
}
use ascetic_ddd_rust.Specification.Operand.{Operand, OperandError, unsupported}
use ascetic_ddd_rust.Specification.MemberPath.{MemberPath}
use ascetic_ddd_rust.Specification.Scope.{
  ContextError, not_a_value, Element, Context, EvalError, context, operand, Scope, itself, owner,
  member,
}
use ascetic_ddd_rust.Specification.Truth.{truth, from_truth, is_some_of, negate_truth, connective}
use ascetic_ddd_rust.Specification.Ast.{Expr, value, field, prefix, infix', postfix, any, item}

-- `named`: the error names the operator that the tree has.
named : Infix → OperandError → EvalError
named op (unsupported _ left right) = operand (unsupported (print_infix op) left right)
named op e = operand e

is_gt : Ordering → Bool
is_gt x = elim x [ Ordering.gt ↦ true | _ ↦ false ]

is_lt : Ordering → Bool
is_lt x = elim x [ Ordering.lt ↦ true | _ ↦ false ]

is_ge : Ordering → Bool
is_ge x = elim x [ Ordering.lt ↦ false | _ ↦ true ]

is_le : Ordering → Bool
is_le x = elim x [ Ordering.gt ↦ false | _ ↦ true ]

module _ {V : Type 0} (o : Operand V) where
  -- `compare`
  pub compare_values : V → Comparison → V → Result OperandError Bool
  compare_values l eq r = o.equals l r
  compare_values l ne r = do b ← o.equals l r; ok (not b)
  compare_values l gt r = do x ← o.compare l r; ok (is_gt x)
  compare_values l lt r = do x ← o.compare l r; ok (is_lt x)
  compare_values l ge r = do x ← o.compare l r; ok (is_ge x)
  compare_values l le r = do x ← o.compare l r; ok (is_le x)

  -- `strict`: the function sees only values.
  pub strict : V → V → (V → V → Result OperandError V) → Result OperandError V
  strict l r f = if o.is_null l || o.is_null r then ok o.null else f l r

  is_constant : Expr V → Bool
  is_constant (value v) = true
  is_constant _ = false

  -- The right half of `read_constants`.
  read_right : Expr V → V → V → Result OperandError (V × V)
  read_right right_expr left right =
      if is_constant right_expr
      then (o.read_beside right left >>= λ read. elim read [
        | some r ↦ ok (left, r)
        | none ↦ ok (left, right)
      ])
      else ok (left, right)

  pub read_constants : Expr V → Expr V → V → V → Result OperandError (V × V)
  read_constants left_expr right_expr left right =
      if is_constant left_expr
      then (o.read_beside left right >>= λ read. elim read [
        | some l ↦ ok (l, right)
        | none ↦ read_right right_expr left right
      ])
      else read_right right_expr left right

  -- `IS`, of two operands that are read.
  identical : V × V → Result OperandError V
  identical (l, r) =
      if o.is_null l || o.is_null r
      then ok (o.from_bool (o.is_null l && o.is_null r))
      else (do b ← o.equals l r; ok (o.from_bool b))

  -- `logical`, of the values of the two sides.
  pub logical_of : Logical → Result EvalError V → Result EvalError V → Result EvalError V
  logical_of op left right = do
    l ← left
    t ← truth o l
    b ← connective op t (right >>= truth o)
    ok (from_truth o b)

  -- `infix` once both operands are evaluated. `eval` gives it no connective.
  infix_of : Infix → Expr V → Expr V → V → V → Result EvalError V
  infix_of Operator.is left_expr right_expr l r =
      map_err (named Operator.is) (read_constants left_expr right_expr l r >>= identical)
  infix_of (comparison op) left_expr right_expr l r = map_err (named (comparison op)) (
      read_constants left_expr right_expr l r >>= λ p.
      strict p.0 p.1 (λ x y. do b ← compare_values x op y; ok (o.from_bool b)))
  infix_of (arithmetic op) left_expr right_expr l r =
      map_err (named (arithmetic op)) (strict l r (λ x y. o.compute op x y))
  infix_of (logical op) left_expr right_expr l r = logical_of op (ok l) (ok r)

  prefix_of : Prefix → V → Result EvalError V
  prefix_of Operator.not v = do t ← truth o v; ok (from_truth o (negate_truth t))
  prefix_of neg v = if o.is_null v then ok o.null else map_err operand (o.negate v)

  postfix_of : Postfix → Bool → V
  postfix_of Operator.is_null null = o.from_bool null
  postfix_of is_not_null null = o.from_bool (not null)

  -- The outcomes of the items, up to the first that is not `Ok(false)`.
  find_outcome : List (Result EvalError Bool) → Result EvalError Bool
  find_outcome [] = ok false
  find_outcome (ok false ∷ outcomes) = find_outcome outcomes
  find_outcome (outcome ∷ outcomes) = outcome

  -- Whether the value of a predicate makes its item a witness.
  witness : Result EvalError V → Result EvalError Bool
  witness outcome = do v ← outcome; t ← truth o v; ok (is_some_of true t)

module _ {C V : Type 0} (k : Context C V) (o : Operand V) where
  -- A member asked whether it is null: an object that is there is not.
  null_member : MemberPath → C → Result ContextError V → Result EvalError Bool
  null_member path c (ok v) = ok (o.is_null v)
  null_member path c (err (not_a_value _)) =
      map_err context (k.object c path.name >>= λ _. ok false)
  null_member path c (err e) = err (context e)

  -- `is_null`, given the value of the operand.
  null_test : Expr V → Scope C V → Result EvalError V → Result EvalError Bool
  null_test (field path) scope _ = do
    c ← owner k path scope
    null_member path c (k.field c path.name)
  null_test _ scope outcome = do v ← outcome; ok (o.is_null v)

  -- The scope of an item of a collection.
  enter : String → Scope C V → Element C V → Scope C V
  enter name scope element = record scope { frames = (element, name) ∷ scope.frames }

  pub items : MemberPath → Scope C V → Result EvalError (List (Element C V))
  items source scope = do c ← owner k source scope; map_err context (k.collection c source.name)

  pub eval : Expr V → Scope C V → Result EvalError V
  eval (value v) scope = ok v
  eval (field path) scope = member k path scope
  eval (item up) scope = itself up scope
  eval (prefix op e) scope = do v ← eval e scope; prefix_of o op v
  eval (postfix e op) scope = do null ← null_test e scope (eval e scope); ok (postfix_of o op null)
  eval (infix' l (logical op) r) scope = logical_of o op (eval l scope) (eval r scope)
  eval (infix' l op r) scope = do x ← eval l scope; y ← eval r scope; infix_of o op l r x y
  eval (any source p) scope = do
    elements ← items source scope
    b ←
        find_outcome o
          (map (λ element. witness o (eval p (enter source.name scope element))) elements)
    ok (o.from_bool b)

  pub evaluate : Expr V → C → Result EvalError V
  evaluate e candidate = eval e (record { global = candidate; frames = [] })

  pub is_satisfied_by : Expr V → C → Result EvalError Bool
  is_satisfied_by e candidate = do v ← evaluate e candidate; t ← truth o v; ok (is_some_of true t)
