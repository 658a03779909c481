-- ===== src/Specification/Ast.antt =====
-- The tree of a specification (crates/specification/src/domain/ast.rs).
pub mod Values
use ascetic_ddd_rust.Prelude.{ℕ, List, [], ◌∷◌}
use ascetic_ddd_rust.Prelude.Result.{Result, ok, err, ◌>>=◌}
use ascetic_ddd_rust.Specification.MemberPath.{MemberPath}
use ascetic_ddd_rust.Specification.Operator
use ascetic_ddd_rust.Specification.Operator.{
  Prefix, Postfix, Infix, comparison, logical, arithmetic, eq, ne, gt, lt, ge, le,
}

pub data Expr (V : Type 0) : Type 0 where
  value : V → Expr V
  field : MemberPath → Expr V
  prefix : Prefix → Expr V → Expr V
  infix' : Expr V → Infix → Expr V → Expr V
  postfix : Expr V → Postfix → Expr V
  any : MemberPath → Expr V → Expr V
  item : ℕ → Expr V

-- `Expr::try_map_values`
pub try_map_values : {V W E : Type 0} → (V → Result E W) → Expr V → Result E (Expr W)
try_map_values f (value v) = do w ← f v; ok (value w)
try_map_values f (field path) = ok (field path)
try_map_values f (item up) = ok (item up)
try_map_values f (prefix op e) = do e' ← try_map_values f e; ok (prefix op e')
try_map_values f (infix' l op r) = do
  l' ← try_map_values f l
  r' ← try_map_values f r
  ok (infix' l' op r')
try_map_values f (postfix e op) = do e' ← try_map_values f e; ok (postfix e' op)
try_map_values f (any source p) = do p' ← try_map_values f p; ok (any source p')

module _ {V : Type 0} where
  unfoldable pub not : Expr V → Expr V
  not e = prefix Operator.not e

  pub neg : Expr V → Expr V
  neg e = prefix Operator.neg e

  unfoldable pub equal : Expr V → Expr V → Expr V
  equal l r = infix' l (comparison eq) r

  unfoldable pub not_equal : Expr V → Expr V → Expr V
  not_equal l r = infix' l (comparison ne) r

  pub greater_than : Expr V → Expr V → Expr V
  greater_than l r = infix' l (comparison gt) r

  pub less_than : Expr V → Expr V → Expr V
  less_than l r = infix' l (comparison lt) r

  pub greater_than_equal : Expr V → Expr V → Expr V
  greater_than_equal l r = infix' l (comparison ge) r

  pub less_than_equal : Expr V → Expr V → Expr V
  less_than_equal l r = infix' l (comparison le) r

  unfoldable pub is : Expr V → Expr V → Expr V
  is l r = infix' l Operator.is r

  unfoldable pub and : Expr V → Expr V → Expr V
  and l r = infix' l (logical Operator.and) r

  unfoldable pub or : Expr V → Expr V → Expr V
  or l r = infix' l (logical Operator.or) r

  unfoldable pub and_all : Expr V → List (Expr V) → Expr V
  unfolding and
  and_all first [] = first
  and_all first (e ∷ rest) = and_all (and first e) rest

  unfoldable pub or_all : Expr V → List (Expr V) → Expr V
  unfolding or
  or_all first [] = first
  or_all first (e ∷ rest) = or_all (or first e) rest

  pub add : Expr V → Expr V → Expr V
  add l r = infix' l (arithmetic Operator.add) r

  pub sub : Expr V → Expr V → Expr V
  sub l r = infix' l (arithmetic Operator.sub) r

  pub mul : Expr V → Expr V → Expr V
  mul l r = infix' l (arithmetic Operator.mul) r

  pub div : Expr V → Expr V → Expr V
  div l r = infix' l (arithmetic Operator.div) r

  pub modulo : Expr V → Expr V → Expr V
  modulo l r = infix' l (arithmetic Operator.rem) r

  pub left_shift : Expr V → Expr V → Expr V
  left_shift l r = infix' l (arithmetic Operator.shl) r

  pub right_shift : Expr V → Expr V → Expr V
  right_shift l r = infix' l (arithmetic Operator.shr) r

  unfoldable pub is_null : Expr V → Expr V
  is_null e = postfix e Operator.is_null

  unfoldable pub is_not_null : Expr V → Expr V
  is_not_null e = postfix e Operator.is_not_null

  -- No item fails the predicate: `NOT any(source, NOT predicate)`.
  unfoldable pub all : MemberPath → Expr V → Expr V
  unfolding not
  all source p = not (any source (not p))
