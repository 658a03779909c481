-- ===== src/Specification/Scope.antt =====
-- What a specification is evaluated against, and what the paths of the tree name in it
-- (crates/specification/src/domain/evaluate.rs). A `dyn Context` is a value of the carrier of a
-- `Context`; the chain of frames is the list of the items under test, the nearest first.
use Prim.Native.String.{String, ◌++◌ as text_append}
use ascetic_ddd_rust.Prelude.{ℕ, zero, suc, List, [], ◌∷◌}
use ascetic_ddd_rust.Prelude.Result.{Result, ok, err, ◌>>=◌, map_err}
use ascetic_ddd_rust.Specification.Operand.{OperandError}
use ascetic_ddd_rust.Specification.MemberPath.{MemberPath, Root}

pub data ContextError : Type 0 where
  missing not_a_value not_an_object not_a_collection : String → ContextError

-- An item of a collection.
pub data Element (C V : Type 0) : Type 0 where
  object : C → Element C V
  of_value : V → Element C V

-- The trait `Context`, over the type of the contexts.
pub record Context (C V : Type 0) : Type 0 where
  pub field : C → String → Result ContextError V
  pub object : C → String → Result ContextError C
  pub collection : C → String → Result ContextError (List (Element C V))

pub data EvalError : Type 0 where
  context : ContextError → EvalError
  no_current_item : EvalError
  not_boolean : String → EvalError
  operand : OperandError → EvalError

pub record Scope (C V : Type 0) : Type 0 where
  pub global : C
  -- The items under test, each with the name of its collection.
  pub frames : List (Element C V × String)

-- `format!("{collection}[*]")`
each : String → String
each name = text_append name "[*]"

module _ {C V : Type 0} where
  -- `frame`
  pub frame : ℕ → List (Element C V × String) → Result EvalError (Element C V × String)
  frame up [] = err no_current_item
  frame zero (f ∷ outer) = ok f
  frame (suc up) (f ∷ outer) = frame up outer

  object_of : Element C V × String → Result EvalError C
  object_of (object c, name) = ok c
  object_of (of_value v, name) = err (context (not_an_object (each name)))

  value_of : Element C V × String → Result EvalError V
  value_of (of_value v, name) = ok v
  value_of (object c, name) = err (context (not_a_value (each name)))

  -- The root of a path, at this point of the tree.
  root_of : Root → Scope C V → Result EvalError C
  root_of Root.global scope = ok scope.global
  root_of (Root.item up) scope = do f ← frame up scope.frames; object_of f

  -- `itself`
  unfoldable pub itself : ℕ → Scope C V → Result EvalError V
  unfolding frame value_of each
  itself up scope = do f ← frame up scope.frames; value_of f

  module _ (k : Context C V) where
    -- The objects of a path, walked through from the root.
    walk : List String → C → Result ContextError C
    walk [] c = ok c
    walk (name ∷ names) c = do d ← k.object c name; walk names d

    unfoldable pub owner : MemberPath → Scope C V → Result EvalError C
    unfolding root_of walk frame object_of each
    owner path scope = do c ← root_of path.root scope; map_err context (walk path.objects c)

    unfoldable pub member : MemberPath → Scope C V → Result EvalError V
    unfolding owner
    member path scope = do c ← owner path scope; map_err context (k.field c path.name)
