-- ===== src/Specification/Evaluate/Examples.antt =====
-- A specification of an order and its lines, over values that are null, a truth value or a number.
use Prim.Native.Nat.{Ordering, compare}
use Prim.Native.String.{String}
use ascetic_ddd_rust.Prelude.{
  ℕ, ◌+◌, List, [], ◌∷◌, Option, none, some, Bool, true, false, ◌&&◌, ◌||◌, ◌≡◌, refl, ◌==◌, ◌↔◌,
}
use ascetic_ddd_rust.Prelude.Result.{Result, ok, err}
use ascetic_ddd_rust.Specification.Operator
use ascetic_ddd_rust.Specification.Operator.{Arithmetic}
use ascetic_ddd_rust.Specification.Operand.{Operand, OperandError, IsLawful, out_of_range}
use ascetic_ddd_rust.Specification.MemberPath.{MemberPath, Root}
use ascetic_ddd_rust.Specification.Record.{
  Record, record_context, no_member, member_of, no_item, item_of,
}
use ascetic_ddd_rust.Specification.Scope.{Scope, Element, owner, member}
use ascetic_ddd_rust.Specification.Truth.{truth, is_some_of}
use ascetic_ddd_rust.Specification.Ast
use ascetic_ddd_rust.Specification.Ast.{Expr, value, field, any, infix'}
use ascetic_ddd_rust.Specification.Evaluate.{
  eval, is_satisfied_by, infix_of, items, strict, read_constants, compare_values, is_constant,
  read_right,
}
use ascetic_ddd_rust.Specification.Evaluate.Logic
use ascetic_ddd_rust.Specification.Evaluate.Logic.{truth_of, IsNeverNull}
use ascetic_ddd_rust.Specification.Evaluate.Quantifier
use ascetic_ddd_rust.Specification.Evaluate.Quantifier.{
  truths, HasWitness, HasNone, HoldsThroughout,
}

data Plain : Type 0 where
  nothing : Plain
  truth_value : Bool → Plain
  number : ℕ → Plain

abbrev equals : Plain → Plain → Result OperandError Bool
equals (number a) (number b) = ok (a == b)
equals _ _ = err out_of_range

abbrev compare_numbers : Plain → Plain → Result OperandError Ordering
compare_numbers (number a) (number b) = ok (compare a b)
compare_numbers _ _ = err out_of_range

abbrev compute : Arithmetic → Plain → Plain → Result OperandError Plain
compute Operator.add (number a) (number b) = ok (number (a + b))
compute _ _ _ = err out_of_range

abbrev is_nothing : Plain → Bool
is_nothing nothing = true
is_nothing _ = false

abbrev as_bool : Plain → Option Bool
as_bool (truth_value b) = some b
as_bool _ = none

abbrev plain : Operand Plain
plain = record {
  null = nothing;
  is_null = is_nothing;
  from_bool = truth_value;
  as_bool = as_bool;
  kind = λ _. "plain";
  equals = equals;
  compare = compare_numbers;
  negate = λ _. err out_of_range;
  compute = compute;
  read_beside = λ _ _. ok none;
}

plain-IsLawful : IsLawful plain
plain-IsLawful = record {
  null_is_null = refl;
  bool_not_null = λ b. refl;
  as_bool-from_bool = λ b. refl;
}

abbrev line : Plain → Record Plain
line price = Record.object (member_of "price" (Record.value price) no_member)

-- An order of two lines, of which the first has no price.
abbrev order : Record Plain
order = Record.object (
    member_of "lines"
      (Record.collection (item_of (line nothing) (item_of (line (number 5)) no_item)))
      (member_of "open" (Record.value (truth_value true))
        (member_of "total" (Record.value nothing) no_member)))

abbrev top : Scope (Record Plain) Plain
top = record { global = order; frames = [] }

abbrev path : Root → String → MemberPath
path root name = record { root = root; objects = []; name = name }

abbrev is_open : Expr Plain
is_open = field (path Root.global "open")

abbrev total : Expr Plain
total = field (path Root.global "total")

abbrev has_total : Expr Plain
has_total = Ast.equal total (value (number 5))

abbrev price : Expr Plain
price = field (path (Root.item 0) "price")

abbrev is_five : Expr Plain
is_five = Ast.equal price (value (number 5))

abbrev lines : MemberPath
lines = path Root.global "lines"

program : Unit {0}
unfolding eval truth_of member owner record_context truth infix_of strict read_constants
    compare_values items is_constant read_right is_some_of Ast.equal
program = tt

open_true : truth_of (record_context Plain) plain is_open top ≡ ok (some true)
unfolding program
open_true = refl

has_total_null : truth_of (record_context Plain) plain has_total top ≡ ok none
unfolding program
has_total_null = refl

abbrev line_elements : List (Element (Record Plain) Plain)
line_elements = Element.object (line nothing) ∷ Element.object (line (number 5)) ∷ []

lines-items : items (record_context Plain) plain lines top ≡ ok line_elements
unfolding program
lines-items = refl

satisfied_connectives_example :
    (is_satisfied_by (record_context Plain) plain (Ast.and is_open has_total) order
      ≡ ok (is_some_of true (some true) && is_some_of true none))
    × (is_satisfied_by (record_context Plain) plain (Ast.or is_open has_total) order
        ≡ ok (is_some_of true (some true) || is_some_of true none))
    × (is_satisfied_by (record_context Plain) plain (Ast.not is_open) order
        ≡ ok (is_some_of false (some true)))
satisfied_connectives_example =
    Logic.satisfied_connectives plain plain-IsLawful (record_context Plain) is_open has_total order
      (some true) none open_true has_total_null

de_morgan_example :
    eval (record_context Plain) plain (Ast.not (Ast.and is_open has_total)) top
    ≡ eval (record_context Plain) plain (Ast.or (Ast.not is_open) (Ast.not has_total)) top
de_morgan_example =
    Logic.de_morgan plain plain-IsLawful (record_context Plain) is_open has_total top

total_null : eval (record_context Plain) plain total top ≡ ok nothing
unfolding program
total_null = refl

five : eval (record_context Plain) plain (value (number 5)) top ≡ ok (number 5)
unfolding program
five = refl

any_witness_example :
    ((eval (record_context Plain) plain (any lines is_five) top ≡ ok (truth_value true))
      ↔ HasWitness
          (truths plain plain-IsLawful (record_context Plain) lines is_five top line_elements))
    × ((eval (record_context Plain) plain (any lines is_five) top ≡ ok (truth_value false))
        ↔ HasNone
            (truths plain plain-IsLawful (record_context Plain) lines is_five top line_elements))
any_witness_example =
    Quantifier.any_witness plain plain-IsLawful (record_context Plain) lines is_five top
      line_elements lines-items

all_holds_example :
    (eval (record_context Plain) plain (Ast.all lines is_five) top ≡ ok (truth_value true))
    ↔ HoldsThroughout
        (truths plain plain-IsLawful (record_context Plain) lines is_five top line_elements)
all_holds_example =
    Quantifier.all_holds plain plain-IsLawful (record_context Plain) lines is_five top line_elements
      lines-items
