-- ===== src/Specification/NullTest.antt =====
-- Equality with the null, for the notations in which null is a value
-- (crates/specification/src/domain/null_test.rs).
use ascetic_ddd_rust.Prelude.{
  ℕ, Bool, true, false, ◌&&◌, ◌||◌, not, ◌≡◌, ◌⊎◌, inl, inr, refl, arith, if◌then◌else◌, Bool-cases,
}
use ascetic_ddd_rust.Specification.MemberPath.{MemberPath}
use ascetic_ddd_rust.Specification.Operator
use ascetic_ddd_rust.Specification.Operator.{Prefix, Postfix, Infix, comparison, eq, ne}
use ascetic_ddd_rust.Specification.Operand.{Operand}
use ascetic_ddd_rust.Specification.Ast
use ascetic_ddd_rust.Specification.Ast.{Expr, value, field, prefix, infix', postfix, any, item}

module _ {V : Type 0} (o : Operand V) where
  is_null_constant : Expr V → Bool
  is_null_constant (value v) = o.is_null v
  is_null_constant _ = false

  test_or_compare : Expr V → Expr V → (Expr V → Expr V) → (Expr V → Expr V → Expr V) → Expr V
  test_or_compare left right test compare =
      if is_null_constant right
      then test left
      else if is_null_constant left
      then test right
      else compare left right

  pub equal : Expr V → Expr V → Expr V
  equal left right = test_or_compare left right Ast.is_null Ast.equal

  pub not_equal : Expr V → Expr V → Expr V
  not_equal left right = test_or_compare left right Ast.is_not_null Ast.not_equal

  -- The arms of `throughout` for an infix operator, once both operands are read.
  equality : Infix → Expr V → Expr V → Expr V
  equality (comparison eq) l r = equal l r
  equality (comparison ne) l r = not_equal l r
  equality op l r = infix' l op r

  pub throughout : Expr V → Expr V
  throughout (infix' l op r) = equality op (throughout l) (throughout r)
  throughout (prefix op e) = prefix op (throughout e)
  throughout (postfix e op) = postfix (throughout e) op
  throughout (any source p) = any source (throughout p)
  throughout (value v) = value v
  throughout (field path) = field path
  throughout (item up) = item up

  abbrev is_equality : Infix → Bool
  is_equality (comparison eq) = true
  is_equality (comparison ne) = true
  is_equality _ = false

  -- No equality of the tree stands beside the null constant.
  unfoldable pub is_settled : Expr V → Bool
  unfolding is_null_constant
  is_settled (infix' l op r) =
      is_settled l
      && is_settled r
      && not (is_equality op && (is_null_constant l || is_null_constant r))
  is_settled (prefix op e) = is_settled e
  is_settled (postfix e op) = is_settled e
  is_settled (any source p) = is_settled p
  is_settled (value v) = true
  is_settled (field path) = true
  is_settled (item up) = true

  equality-settled :
      (op : Infix) (l r : Expr V)
      → is_settled l ≡ true
      → is_settled r ≡ true
      → is_settled (equality op l r) ≡ true
  unfolding equality equal not_equal test_or_compare is_settled Ast.is_null Ast.is_not_null
      Ast.equal Ast.not_equal
  equality-settled (comparison op) l r hl hr = ground arith
  equality-settled op l r hl hr = ground arith

  throughout-settled : (e : Expr V) → is_settled (throughout e) ≡ true
  unfolding throughout is_settled
  throughout-settled (infix' l op r) =
      equality-settled op (throughout l) (throughout r) (throughout-settled l)
        (throughout-settled r)
  throughout-settled (prefix op e) = throughout-settled e
  throughout-settled (postfix e op) = throughout-settled e
  throughout-settled (any source p) = throughout-settled p
  throughout-settled (value v) = refl
  throughout-settled (field path) = refl
  throughout-settled (item up) = refl

  equality_settled :
      (op : Infix) (l r : Expr V)
      → (is_equality op && (is_null_constant l || is_null_constant r)) ≡ false
      → equality op l r ≡ infix' l op r
  unfolding equality equal not_equal test_or_compare Ast.equal Ast.not_equal
  equality_settled (comparison op) l r h = ground arith
  equality_settled op l r h = refl

  -- The reading changes nothing of a tree in which no equality or inequality stands beside the null
  -- constant.
  pub settled-throughout : (e : Expr V) → is_settled e ≡ true → throughout e ≡ e
  unfolding throughout is_settled
  settled-throughout (infix' l op r) h =
      ground (arith, settled-throughout l, settled-throughout r, equality_settled op l r)
  settled-throughout (prefix op e) h = ground (arith, settled-throughout e)
  settled-throughout (postfix e op) h = ground (arith, settled-throughout e)
  settled-throughout (any source p) h = ground (arith, settled-throughout p)
  settled-throughout (value v) h = refl
  settled-throughout (field path) h = refl
  settled-throughout (item up) h = refl

  abbrev pub IsNullConstant : Expr V → Type 0
  IsNullConstant (value v) = o.is_null v ≡ true
  IsNullConstant _ = ⊥

  -- What a tree means where null is a value: an equality with the null constant is `IS NULL` of what
  -- stands beside it, an inequality `IS NOT NULL`, of two nulls of the left one; the rest says what
  -- it says.
  pub data Reads : Expr V → Expr V → Type 0 where
    reads_value : (v : V) → Reads (value v) (value v)
    reads_field : (path : MemberPath) → Reads (field path) (field path)
    reads_item : (up : ℕ) → Reads (item up) (item up)
    reads_prefix : (op : Prefix) (e e' : Expr V) → Reads e e' → Reads (prefix op e) (prefix op e')
    reads_postfix :
        (op : Postfix) (e e' : Expr V) → Reads e e' → Reads (postfix e op) (postfix e' op)
    reads_any :
        (source : MemberPath) (p p' : Expr V) → Reads p p' → Reads (any source p) (any source p')
    reads_infix :
        (op : Infix) (l l' r r' : Expr V)
        → Reads l l'
        → Reads r r'
        → ((op ≡ comparison eq) ⊎ (op ≡ comparison ne) → ¬ IsNullConstant l' × ¬ IsNullConstant r')
        → Reads (infix' l op r) (infix' l' op r')
    eq_null :
        (l l' r r' : Expr V)
        → Reads l l'
        → Reads r r'
        → IsNullConstant r'
        → Reads (infix' l (comparison eq) r) (postfix l' Operator.is_null)
    null_eq :
        (l l' r r' : Expr V)
        → Reads l l'
        → Reads r r'
        → IsNullConstant l'
        → ¬ IsNullConstant r'
        → Reads (infix' l (comparison eq) r) (postfix r' Operator.is_null)
    ne_null :
        (l l' r r' : Expr V)
        → Reads l l'
        → Reads r r'
        → IsNullConstant r'
        → Reads (infix' l (comparison ne) r) (postfix l' Operator.is_not_null)
    null_ne :
        (l l' r r' : Expr V)
        → Reads l l'
        → Reads r r'
        → IsNullConstant l'
        → ¬ IsNullConstant r'
        → Reads (infix' l (comparison ne) r) (postfix r' Operator.is_not_null)

  -- The test for the null constant decides what it stands for.
  is_null_constant-IsNullConstant :
      (e : Expr V)
      → ((is_null_constant e ≡ true) × IsNullConstant e)
        ⊎ ((is_null_constant e ≡ false) × ¬ IsNullConstant e)
  unfolding is_null_constant
  is_null_constant-IsNullConstant (value v) = elim (Bool-cases (o.is_null v)) [
    | inl null ↦ inl (null, null)
    | inr other ↦ inr (other, λ h. ground arith)
  ]
  is_null_constant-IsNullConstant _ = inr (refl, λ h. h)

  equality-Reads :
      (op : Infix) (l l' r r' : Expr V)
      → Reads l l'
      → Reads r r'
      → Reads (infix' l op r) (equality op l' r')
  unfolding equality equal not_equal test_or_compare Ast.is_null Ast.is_not_null Ast.equal
      Ast.not_equal
  equality-Reads (comparison eq) l l' r r' hl hr = elim (is_null_constant-IsNullConstant r') [
    | inl right ↦ rw right.0 (eq_null l l' r r' hl hr right.1)
    | inr right ↦ elim (is_null_constant-IsNullConstant l') [
      | inl left ↦ rw (right.0, left.0) (null_eq l l' r r' hl hr left.1 right.1)
      | inr left ↦
          rw (right.0, left.0)
            (reads_infix (comparison eq) l l' r r' hl hr (λ _. (left.1, right.1)))
    ]
  ]
  equality-Reads (comparison ne) l l' r r' hl hr = elim (is_null_constant-IsNullConstant r') [
    | inl right ↦ rw right.0 (ne_null l l' r r' hl hr right.1)
    | inr right ↦ elim (is_null_constant-IsNullConstant l') [
      | inl left ↦ rw (right.0, left.0) (null_ne l l' r r' hl hr left.1 right.1)
      | inr left ↦
          rw (right.0, left.0)
            (reads_infix (comparison ne) l l' r r' hl hr (λ _. (left.1, right.1)))
    ]
  ]
  equality-Reads op l l' r r' hl hr =
      reads_infix op l l' r r' hl hr (λ h. elim h [ inl e ↦ absurd (cc) | inr e ↦ absurd (cc) ])

  throughout-Reads : (e : Expr V) → Reads e (throughout e)
  unfolding throughout
  throughout-Reads (infix' l op r) =
      equality-Reads op l (throughout l) r (throughout r) (throughout-Reads l) (throughout-Reads r)
  throughout-Reads (prefix op e) = reads_prefix op e (throughout e) (throughout-Reads e)
  throughout-Reads (postfix e op) = reads_postfix op e (throughout e) (throughout-Reads e)
  throughout-Reads (any source p) = reads_any source p (throughout p) (throughout-Reads p)
  throughout-Reads (value v) = reads_value v
  throughout-Reads (field path) = reads_field path
  throughout-Reads (item up) = reads_item up

  -- The reading of a tree is what the tree means where null is a value: every equality with the null
  -- constant is the null test of the other operand, an inequality its negation, and every other node
  -- stays. It leaves no equality or inequality beside the null constant, anywhere in the tree,
  -- and so a second reading changes nothing.
  pub throughout_settles :
      (e : Expr V)
      → Reads e (throughout e)
        × (is_settled (throughout e) ≡ true)
        × (throughout (throughout e) ≡ throughout e)
  throughout_settles e = (
    throughout-Reads e,
    throughout-settled e,
    settled-throughout (throughout e) (throughout-settled e),
  )
