-- ===== src/Specification/Evaluate/Logic.antt =====
-- The logic of the evaluator: connectives, negation, and what null does.
use ascetic_ddd_rust.Prelude.{
  [], Option, none, some, Bool, true, false, not, ◌&&◌, ◌||◌, ◌≡◌, refl, ◌∙◌, ap, arith,
}
use ascetic_ddd_rust.Prelude.Result.{Result, ok, err, ◌>>=◌, map_err, bind_assoc}
use ascetic_ddd_rust.Specification.Operator
use ascetic_ddd_rust.Specification.Operator.{
  Logical, Infix, Arithmetic, Comparison, comparison, arithmetic, logical, and, or,
}
use ascetic_ddd_rust.Specification.Operand.{Operand, OperandError, IsLawful}
use ascetic_ddd_rust.Specification.MemberPath.{MemberPath}
use ascetic_ddd_rust.Specification.Scope.{Context, Scope, EvalError}
use ascetic_ddd_rust.Specification.Truth.{
  truth, from_truth, is_some_of, negate_truth, deciding, join_truths, connective,
}
use ascetic_ddd_rust.Specification.Truth.Kleene
use ascetic_ddd_rust.Specification.Ast
use ascetic_ddd_rust.Specification.Ast.{Expr, value, infix', any}
use ascetic_ddd_rust.Specification.Evaluate.{
  eval, evaluate, is_satisfied_by, logical_of, prefix_of, postfix_of, infix_of, strict, identical,
  read_constants, named, null_test, items, find_outcome,
}

-- The truth value of a tree.
unfoldable pub truth_of :
    {C V : Type 0} → Context C V → Operand V → Expr V → Scope C V → Result EvalError (Option Bool)
truth_of k o e s = eval k o e s >>= truth o

and_table :
    (p q : Option Bool)
    → (connective and p (ok q) >>= λ t. ok (is_some_of true t))
      ≡ ok (is_some_of true p && is_some_of true q)
unfolding connective is_some_of deciding join_truths
and_table p q = ground arith

or_table :
    (p q : Option Bool)
    → (connective or p (ok q) >>= λ t. ok (is_some_of true t))
      ≡ ok (is_some_of true p || is_some_of true q)
unfolding connective is_some_of deciding join_truths
or_table p q = ground arith

not_table :
    (p : Option Bool)
    → ◌≡◌ {A = Result EvalError Bool}
        (ok (is_some_of true (negate_truth p)))
        (ok (is_some_of false p))
unfolding is_some_of
not_table p = ground arith

module _ {V : Type 0} (o : Operand V) (lawful : IsLawful o) where
  -- A truth value that is made into a value is read back.
  pub truth-from_truth : (t : Option Bool) → truth o (from_truth o t) ≡ ok t
  unfolding truth from_truth
  truth-from_truth none = rw lawful.null_is_null
  truth-from_truth (some b) = ground (arith, lawful.bool_not_null b, lawful.as_bool-from_bool b)

  truth-from_truth_all :
      (r : Result EvalError (Option Bool)) → (r >>= (λ t. ok (from_truth o t)) >>= truth o) ≡ r
  truth-from_truth_all (ok t) = truth-from_truth t
  truth-from_truth_all (err e) = refl

  truth-logical_of :
      (op : Logical) (l r : Result EvalError V)
      → (logical_of o op l r >>= truth o) ≡ (l >>= truth o >>= λ t. connective op t (r >>= truth o))
  unfolding logical_of
  truth-logical_of op (err e) r = refl
  truth-logical_of op (ok x) r = truth-after (truth o x)
    where
      truth-after :
          (t : Result EvalError (Option Bool))
          → (t >>= (λ u. connective op u (r >>= truth o) >>= λ b. ok (from_truth o b)) >>= truth o)
            ≡ (t >>= λ u. connective op u (r >>= truth o))
      truth-after (ok u) = truth-from_truth_all (connective op u (r >>= truth o))
      truth-after (err e) = refl

  truth-prefix_not :
      (r : Result EvalError V)
      → (r >>= prefix_of o Operator.not >>= truth o) ≡ (r >>= truth o >>= λ t. ok (negate_truth t))
  unfolding prefix_of
  truth-prefix_not (err e) = refl
  truth-prefix_not (ok x) = truth-after (truth o x)
    where
      truth-after :
          (t : Result EvalError (Option Bool))
          → (t >>= (λ u. ok (from_truth o (negate_truth u))) >>= truth o)
            ≡ (t >>= λ u. ok (negate_truth u))
      truth-after (ok u) = truth-from_truth (negate_truth u)
      truth-after (err e) = refl

  bool-not_null :
      (r : Result EvalError Bool) (f : Bool → Bool) (v : V)
      → (r >>= λ b. ok (o.from_bool (f b))) ≡ ok v
      → o.is_null v ≡ false
  bool-not_null (ok b) f v h = ground (arith, lawful.bool_not_null (f b))
  bool-not_null (err e) f v h = cc

  after-not_null :
      {A : Type 0} (r : Result EvalError A) (f : A → Result EvalError V)
      → ((a : A) (v : V) → f a ≡ ok v → o.is_null v ≡ false)
      → (v : V) → (r >>= f) ≡ ok v
      → o.is_null v ≡ false
  after-not_null (ok a) f rule v h = rule a v h
  after-not_null (err e) f rule v h = cc

  identical-not_null :
      (r : Result OperandError (V × V)) (g : OperandError → EvalError) (v : V)
      → map_err g (r >>= identical o) ≡ ok v
      → o.is_null v ≡ false
  unfolding identical
  identical-not_null (ok (x, y)) g v h =
      ground (arith, lawful.bool_not_null true, lawful.bool_not_null false)
  identical-not_null (err e) g v h = cc

  -- Asked whether it is null, the value of a result is not, if there is one.
  abbrev pub IsNeverNull : Result EvalError V → Type 0
  IsNeverNull r = (r >>= λ v. ok (o.is_null v)) ≡ (r >>= λ v. ok false)

  all-not_null :
      (r : Result EvalError V) → ((v : V) → r ≡ ok v → o.is_null v ≡ false) → IsNeverNull r
  all-not_null (ok v) h = ap ok (h v refl)
  all-not_null (err e) h = refl

  module _ {C : Type 0} (k : Context C V) where
    pub truth_of-logical :
        (op : Logical) (a b : Expr V) (s : Scope C V)
        → truth_of k o (infix' a (logical op) b) s
          ≡ (truth_of k o a s >>= λ t. connective op t (truth_of k o b s))
    unfolding truth_of eval
    truth_of-logical op a b s = truth-logical_of op (eval k o a s) (eval k o b s)

    pub truth_of-not :
        (a : Expr V) (s : Scope C V)
        → truth_of k o (Ast.not a) s ≡ (truth_of k o a s >>= λ t. ok (negate_truth t))
    unfolding truth_of eval Ast.not
    truth_of-not a s = truth-prefix_not (eval k o a s)

    pub eval-not :
        (a : Expr V) (s : Scope C V)
        → eval k o (Ast.not a) s ≡ (truth_of k o a s >>= λ t. ok (from_truth o (negate_truth t)))
    unfolding truth_of eval Ast.not prefix_of
    eval-not a s = bind_assoc (eval k o a s) (truth o) _

    eval-logical :
        (op : Logical) (a b : Expr V) (s : Scope C V)
        → eval k o (infix' a (logical op) b) s ≡ (
            truth_of k o a s >>= λ t.
            connective op t (truth_of k o b s) >>= λ c. ok (from_truth o c))
    unfolding truth_of eval logical_of
    eval-logical op a b s = bind_assoc (eval k o a s) (truth o) _

    de_morgan_of :
        (a b : Result EvalError (Option Bool))
        → (a >>= (λ t. connective and t b) >>= λ t. ok (from_truth o (negate_truth t))) ≡ (
            a >>= (λ t. ok (negate_truth t)) >>= λ t.
            connective or t (b >>= λ u. ok (negate_truth u)) >>= λ c. ok (from_truth o c))
    de_morgan_of (err e) b = refl
    de_morgan_of (ok t) b =
        bind_assoc (connective and t b) (λ u. ok (negate_truth u)) (λ c. ok (from_truth o c))
        ∙ ap (λ r. r >>= λ c. ok (from_truth o c)) (Kleene.negate_connective t b)

    -- `NOT (a AND b)` and `NOT a OR NOT b` evaluate alike everywhere: to the same value, with
    -- nulls, and to the same failure, whatever is left unevaluated on either side.
    pub de_morgan :
        (a b : Expr V) (s : Scope C V)
        → eval k o (Ast.not (Ast.and a b)) s ≡ eval k o (Ast.or (Ast.not a) (Ast.not b)) s
    unfolding Ast.and Ast.or
    de_morgan a b s =
        rw
          (
            eval-not (infix' a (logical and) b) s,
            truth_of-logical and a b s,
            eval-logical or (Ast.not a) (Ast.not b) s,
            truth_of-not a s,
            truth_of-not b s,
          )
          (de_morgan_of (truth_of k o a s) (truth_of k o b s))

    satisfied-truth_of :
        (e : Expr V) (c : C)
        → is_satisfied_by k o e c
          ≡ (truth_of k o e (record { global = c; frames = [] }) >>= λ t. ok (is_some_of true t))
    unfolding is_satisfied_by evaluate truth_of
    satisfied-truth_of e c =
        bind_assoc (eval k o e (record { global = c; frames = [] })) (truth o) _

    -- Of candidates on which both sides have a truth value, null included, those that satisfy
    -- `a AND b` satisfy both and those that satisfy `a OR b` satisfy one; `NOT a` is satisfied
    -- where `a` is false, so by no candidate on which `a` is true or null.
    pub satisfied_connectives :
        (a b : Expr V) (c : C) (p q : Option Bool)
        → truth_of k o a (record { global = c; frames = [] }) ≡ ok p
        → truth_of k o b (record { global = c; frames = [] }) ≡ ok q
        → (is_satisfied_by k o (Ast.and a b) c ≡ ok (is_some_of true p && is_some_of true q))
          × (is_satisfied_by k o (Ast.or a b) c ≡ ok (is_some_of true p || is_some_of true q))
          × (is_satisfied_by k o (Ast.not a) c ≡ ok (is_some_of false p))
    unfolding Ast.and Ast.or
    satisfied_connectives a b c p q ha hb =
        let top : Scope C V = record { global = c; frames = [] } in
        (
          rw (satisfied-truth_of (infix' a (logical and) b) c, truth_of-logical and a b top, ha, hb)
              (and_table p q),
          rw (satisfied-truth_of (infix' a (logical or) b) c, truth_of-logical or a b top, ha, hb)
              (or_table p q),
          rw (satisfied-truth_of (Ast.not a) c, truth_of-not a top, ha) (not_table p),
        )

    -- `IS NULL`, `IS NOT NULL`, `IS` and `any` are never null: where they have a value at all, it is
    -- not the null.
    pub never_null :
        (a b : Expr V) (source : MemberPath) (s : Scope C V)
        → IsNeverNull (eval k o (Ast.is_null a) s)
          × IsNeverNull (eval k o (Ast.is_not_null a) s)
          × IsNeverNull (eval k o (Ast.is a b) s)
          × IsNeverNull (eval k o (any source a) s)
    unfolding eval Ast.is_null Ast.is_not_null Ast.is postfix_of infix_of identical
    never_null a b source s = (
      all-not_null _ (bool-not_null (null_test k o a s (eval k o a s)) (λ n. n)),
      all-not_null _ (bool-not_null (null_test k o a s (eval k o a s)) not),
      all-not_null _ (
          after-not_null (eval k o a s) _ (λ x.
            after-not_null (eval k o b s) _
              (λ y. identical-not_null (read_constants o a b x y) (named Operator.is)))),
      all-not_null _ (
          after-not_null (items k o source s) _
            (λ elements. bool-not_null (find_outcome o _) (λ n. n))),
    )

    -- Arithmetic on a null is null, whatever the operator and the other operand.
    pub arithmetic_null :
        (op : Arithmetic) (a b : Expr V) (s : Scope C V) (x y : V)
        → eval k o a s ≡ ok x
        → eval k o b s ≡ ok y
        → (o.is_null x || o.is_null y) ≡ true
        → eval k o (infix' a (arithmetic op) b) s ≡ ok o.null
    unfolding eval infix_of strict
    arithmetic_null op a b s x y ha hb h = ground (arith, ha, hb, h)
