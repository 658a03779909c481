-- ===== src/Specification/Evaluate/Quantifier.antt =====
-- The quantifiers of the evaluator: `any` and `all` over the items of a collection.
use ascetic_ddd_rust.Prelude.{
  List, [], ◌∷◌, Option, none, some, Bool, true, false, not, map, ◌≡◌, refl, ap, ◌⊎◌, ◌↔◌, arith,
}
use ascetic_ddd_rust.Prelude.Result.{Result, ok, err, ◌>>=◌, bind_assoc}
use ascetic_ddd_rust.Specification.Operand.{Operand, IsLawful}
use ascetic_ddd_rust.Specification.MemberPath.{MemberPath}
use ascetic_ddd_rust.Specification.Scope.{Element, Context, Scope, EvalError}
use ascetic_ddd_rust.Specification.Truth.{truth, from_truth, is_some_of, negate_truth}
use ascetic_ddd_rust.Specification.Ast
use ascetic_ddd_rust.Specification.Ast.{Expr, any}
use ascetic_ddd_rust.Specification.Evaluate.{eval, items, enter, witness, find_outcome}
use ascetic_ddd_rust.Specification.Evaluate.Logic.{truth_of, truth_of-not, eval-not}

-- The truth values of a predicate on items, in order: whether some item is the first on which it
-- is true, after items on which it is false or null.
abbrev pub HasWitness : List (Result EvalError (Option Bool)) → Type 0
HasWitness [] = ⊥
HasWitness (t ∷ ts) =
    (t ≡ ok (some true)) ⊎ (((t ≡ ok none) ⊎ (t ≡ ok (some false))) × HasWitness ts)

-- Whether it is true on no item, and fails on none.
abbrev pub HasNone : List (Result EvalError (Option Bool)) → Type 0
HasNone [] = Unit
HasNone (t ∷ ts) = ((t ≡ ok none) ⊎ (t ≡ ok (some false))) × HasNone ts

-- Whether it is false on no item, and fails on none.
abbrev pub HoldsThroughout : List (Result EvalError (Option Bool)) → Type 0
HoldsThroughout [] = Unit
HoldsThroughout (t ∷ ts) = ((t ≡ ok none) ⊎ (t ≡ ok (some true))) × HoldsThroughout ts

module _ {V : Type 0} (o : Operand V) (lawful : IsLawful o) where
  outcome_of : Result EvalError (Option Bool) → Result EvalError Bool
  outcome_of t = t >>= λ u. ok (is_some_of true u)

  find-true :
      (ts : List (Result EvalError (Option Bool)))
      → (find_outcome o (map outcome_of ts) ≡ ok true) ↔ HasWitness ts
  unfolding find_outcome outcome_of is_some_of
  find-true [] = (λ h. cc, λ h. absurd h)
  find-true (t ∷ ts) = (ground (arith, (find-true ts).0), ground (arith, (find-true ts).1))

  find-false :
      (ts : List (Result EvalError (Option Bool)))
      → (find_outcome o (map outcome_of ts) ≡ ok false) ↔ HasNone ts
  unfolding find_outcome outcome_of is_some_of
  find-false [] = (λ h. tt, λ h. refl)
  find-false (t ∷ ts) = (ground (arith, (find-false ts).0), ground (arith, (find-false ts).1))

  from_bool-injective : (b c : Bool) → o.from_bool b ≡ o.from_bool c → b ≡ c
  from_bool-injective b c h = ground (arith, lawful.as_bool-from_bool b, lawful.as_bool-from_bool c)

  -- A result that is made into a value is known by it.
  from_bool_iff :
      (r : Result EvalError Bool) (b : Bool)
      → ((r >>= λ c. ok (o.from_bool c)) ≡ ok (o.from_bool b)) ↔ (r ≡ ok b)
  from_bool_iff (ok c) b = (λ h. ground (arith, from_bool-injective c b), λ h. ground arith)
  from_bool_iff (err e) b = (λ h. cc, λ h. cc)

  iff_trans : {A B D : Type 0} → A ↔ B → B ↔ D → A ↔ D
  iff_trans f g = (λ a. g.0 (f.0 a), λ d. f.1 (g.1 d))

  negated_iff :
      (r : Result EvalError (Option Bool))
      → ((r >>= λ t. ok (from_truth o (negate_truth t))) ≡ ok (o.from_bool true))
        ↔ (r ≡ ok (some false))
  unfolding from_truth
  negated_iff (ok (some b)) =
      (λ h. ground (arith, from_bool-injective (not b) true), λ h. ground arith)
  negated_iff (ok none) =
      (λ h. ground (arith, lawful.null_is_null, lawful.bool_not_null true), λ h. cc)
  negated_iff (err e) = (λ h. cc, λ h. cc)

  false_iff :
      (r : Result EvalError Bool)
      → ((r >>= (λ b. ok (o.from_bool b)) >>= truth o) ≡ ok (some false)) ↔ (r ≡ ok false)
  unfolding truth
  false_iff (ok b) = (
    λ h. ground (arith, lawful.bool_not_null b, lawful.as_bool-from_bool b),
    λ h. ground (arith, lawful.bool_not_null b, lawful.as_bool-from_bool b),
  )
  false_iff (err e) = (λ h. cc, λ h. cc)

  module _ {C : Type 0} (k : Context C V) where
    -- The truth values of a predicate on the items of a collection.
    pub truths :
        MemberPath → Expr V → Scope C V → List (Element C V) → List (Result EvalError (Option Bool))
    truths source p s elements =
        map (λ element. truth_of k o p (enter k o source.name s element)) elements

    outcomes-truths :
        (source : MemberPath) (p : Expr V) (s : Scope C V) (elements : List (Element C V))
        → map (λ element. witness o (eval k o p (enter k o source.name s element))) elements
          ≡ map outcome_of (truths source p s elements)
    unfolding truths witness outcome_of truth_of
    outcomes-truths source p s [] = refl
    outcomes-truths source p s (x ∷ xs) = rw (outcomes-truths source p s xs) (
        ap (λ y. y ∷ map outcome_of (truths source p s xs))
          (bind_assoc (eval k o p (enter k o source.name s x)) (truth o)
            (λ u. ok (is_some_of true u))))

    eval-any :
        (source : MemberPath) (p : Expr V) (s : Scope C V) (elements : List (Element C V))
        → items k o source s ≡ ok elements
        → eval k o (any source p) s ≡ (
            find_outcome o (map outcome_of (truths source p s elements)) >>= λ b.
            ok (o.from_bool b))
    unfolding eval
    eval-any source p s elements h = rw (h, outcomes-truths source p s elements)

    -- Where the collection is read, `any` is true exactly when the predicate is true on some item
    -- and false or null on each before it, and false exactly when the predicate is false or null
    -- on every item. (An item on which the predicate fails, before any witness, fails it.)
    pub any_witness :
        (source : MemberPath) (p : Expr V) (s : Scope C V) (elements : List (Element C V))
        → items k o source s ≡ ok elements
        → ((eval k o (any source p) s ≡ ok (o.from_bool true))
            ↔ HasWitness (truths source p s elements))
          × ((eval k o (any source p) s ≡ ok (o.from_bool false))
              ↔ HasNone (truths source p s elements))
    any_witness source p s elements h =
        let ts = truths source p s elements in
        rw (eval-any source p s elements h) (
          iff_trans (from_bool_iff _ true) (find-true ts),
          iff_trans (from_bool_iff _ false) (find-false ts),
        )

    none-holds :
        (source : MemberPath) (p : Expr V) (s : Scope C V) (elements : List (Element C V))
        → HasNone (truths source (Ast.not p) s elements)
          ↔ HoldsThroughout (truths source p s elements)
    unfolding truths
    none-holds source p s [] = (λ h. tt, λ h. tt)
    none-holds source p s (x ∷ xs) =
        let there = truth_of-not o lawful k p (enter k o source.name s x) in
        (
          ground (arith, there, (none-holds source p s xs).0),
          ground (arith, there, (none-holds source p s xs).1),
        )

    eval-not_iff :
        (e : Expr V) (s : Scope C V)
        → (eval k o (Ast.not e) s ≡ ok (o.from_bool true)) ↔ (truth_of k o e s ≡ ok (some false))
    eval-not_iff e s = rw (eval-not o lawful k e s) (negated_iff (truth_of k o e s))

    -- Where the collection is read, `all`, which is `NOT any(NOT …)`, is true exactly when the
    -- predicate is true or null on every item, so on every item of none.
    pub all_holds :
        (source : MemberPath) (p : Expr V) (s : Scope C V) (elements : List (Element C V))
        → items k o source s ≡ ok elements
        → (eval k o (Ast.all source p) s ≡ ok (o.from_bool true))
          ↔ HoldsThroughout (truths source p s elements)
    unfolding Ast.all truth_of
    all_holds source p s elements h =
        let ts = truths source (Ast.not p) s elements in
        iff_trans (eval-not_iff (any source (Ast.not p)) s) (
          rw (eval-any source (Ast.not p) s elements h) (
            iff_trans (false_iff (find_outcome o (map outcome_of ts)))
              (iff_trans (find-false ts) (none-holds source p s elements))))
