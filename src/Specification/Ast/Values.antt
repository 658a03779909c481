-- ===== src/Specification/Ast/Values.antt =====
-- The constants of a tree, in order, and what goes through them.
use ascetic_ddd_rust.Prelude.{List, [], ◌∷◌, ◌++◌, ◌≡◌, refl, arith}
use ascetic_ddd_rust.Prelude.Result.{Result, ok, ◌>>=◌, traverse}
use ascetic_ddd_rust.Specification.Ast.{
  Expr, value, field, prefix, infix', postfix, any, item, try_map_values,
}

-- The constants, left to right.
pub constants : {V : Type 0} → Expr V → List V
constants (value v) = v ∷ []
constants (field path) = []
constants (item up) = []
constants (prefix op e) = constants e
constants (infix' l op r) = constants l ++ constants r
constants (postfix e op) = constants e
constants (any source p) = constants p

module _ {V W E : Type 0} (f : V → Result E W) where
  traverse-append :
      (xs ys : List V)
      → traverse f (xs ++ ys) ≡ (traverse f xs >>= λ us. traverse f ys >>= λ vs. ok (us ++ vs))
  traverse-append [] ys = ground arith
  traverse-append (x ∷ xs) ys = ground (arith, traverse-append xs ys)

  -- Each constant goes through the function, in order, up to the first failure, which is the
  -- result; where there is none, the constants of the new tree are the results.
  pub constants-try_map_values :
      (e : Expr V) → (try_map_values f e >>= λ e'. ok (constants e')) ≡ traverse f (constants e)
  unfolding constants try_map_values
  constants-try_map_values (value v) = ground arith
  constants-try_map_values (field path) = refl
  constants-try_map_values (item up) = refl
  constants-try_map_values (prefix op e) = ground (arith, constants-try_map_values e)
  constants-try_map_values (infix' l op r) = ground (
    arith,
    constants-try_map_values l,
    constants-try_map_values r,
    traverse-append (constants l) (constants r),
  )
  constants-try_map_values (postfix e op) = ground (arith, constants-try_map_values e)
  constants-try_map_values (any source p) = ground (arith, constants-try_map_values p)
