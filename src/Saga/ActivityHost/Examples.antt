-- ===== src/Saga/ActivityHost/Examples.antt =====
-- Two hosts, of which the second fails.
use Prim.Native.String.{String}
use text.Mathlib.Text.{◌==◌ as str_eq}
use ascetic_ddd_rust.Prelude.{
  ℕ, List, [], ◌∷◌, Bool, true, false, ◌||◌, none, some, ◌≡◌, refl, arith,
}
use ascetic_ddd_rust.Prelude.Result.{ok, err}
use ascetic_ddd_rust.Saga.RoutingSlip.{SagaError, WorkItem, WorkLog, RoutingSlip, Activity, new}
use ascetic_ddd_rust.Saga.Alternative.Atomic.{IsReversible, all_done}
use ascetic_ddd_rust.Saga.ActivityHost.Delivery
use ascetic_ddd_rust.Saga.ActivityHost.Network.{IsRouting, deliver, world_or}

abbrev pop : List ℕ → List ℕ
pop [] = []
pop (x ∷ xs) = xs

-- Two types of activities, with addresses of their own.
abbrev work_address : Bool → String
work_address true = "sb://./a"
work_address false = "sb://./b"

abbrev undo_address : Bool → String
undo_address true = "sb://./undo-a"
undo_address false = "sb://./undo-b"

abbrev route : String → Bool
route uri = str_eq uri "sb://./a" || str_eq uri "sb://./undo-a"

-- The first type puts 3 on the list, and the second fails.
abbrev two_types : Bool → Activity Bool (Unit {0}) (Unit {0}) (List ℕ)
two_types t = record {
  do_work = λ item w. elim t [
    | true ↦ (3 ∷ w, ok (some (record { activity_type = true; result = tt })))
    | false ↦ (w, ok none)
  ];
  compensate = λ log slip w. (pop w, slip, ok true);
  work_item_queue_address = work_address t;
  compensation_queue_address = undo_address t;
}

undone_type :
    (t : Bool) (work : WorkItem Bool (Unit {0})) (log : WorkLog Bool (Unit {0}))
    (slip : RoutingSlip Bool (Unit {0}) (Unit {0})) (w w' : List ℕ)
    → (two_types t).do_work work w ≡ (w', ok (some log))
    → (two_types log.activity_type).compensate log slip w' ≡ (w, slip, ok true)
undone_type true work log slip w w' e = ground arith
undone_type false work log slip w w' e = absurd (ground arith)

failed_type :
    (t : Bool) (work : WorkItem Bool (Unit {0})) (w w' : List ℕ)
    → (two_types t).do_work work w ≡ (w', ok none)
    → w' ≡ w
failed_type true work w w' e = absurd (ground arith)
failed_type false work w w' e = ground arith

error_type :
    (t : Bool) (work : WorkItem Bool (Unit {0})) (w w' : List ℕ) (x : SagaError)
    → (two_types t).do_work work w ≡ (w', err x)
    → w' ≡ w
error_type true work w w' x e = absurd (ground arith)
error_type false work w w' x e = absurd (ground arith)

two_types-IsReversible : IsReversible two_types
two_types-IsReversible = record {
  failed_changes_nothing = λ item w w' e. failed_type item.activity_type item w w' e;
  error_changes_nothing = λ item w w' x e. error_type item.activity_type item w w' x e;
  undone = λ item log slip w w' e. undone_type item.activity_type item log slip w w' e;
}

two_types-IsRouting : IsRouting two_types (λ a b. str_eq a b) route
two_types-IsRouting = record {
  route_work = λ t. elim t as (λ t. route (work_address t) ≡ t) [ true ↦ refl | false ↦ refl ];
  route_undo = λ t. elim t as (λ t. route (undo_address t) ≡ t) [ true ↦ refl | false ↦ refl ];
  same_work = λ t. elim t as (λ t. str_eq (work_address t) (work_address t) ≡ true) [
    | true ↦ refl
    | false ↦ refl
  ];
  same_undo = λ t. elim t as (λ t. str_eq (undo_address t) (undo_address t) ≡ true) [
    | true ↦ refl
    | false ↦ refl
  ];
  apart = λ t. elim t as (λ t. str_eq (undo_address t) (work_address t) ≡ false) [
    | true ↦ refl
    | false ↦ refl
  ];
}

abbrev of_type : Bool → WorkItem Bool (Unit {0})
of_type t = record { activity_type = t; arguments = tt }

deliver-all_done_example :
    deliver two_types
      (λ a b. str_eq a b)
      route
      6
      (7 ∷ [], some (work_address true, new (of_type true ∷ of_type true ∷ of_type false ∷ [])))
    ≡ (
      world_or
          (7 ∷ [])
          (all_done two_types (of_type true ∷ of_type true ∷ of_type false ∷ []) (7 ∷ [])),
      none,
    )
deliver-all_done_example =
    Delivery.deliver-all_done two_types (λ a b. str_eq a b) route two_types-IsRouting
      two_types-IsReversible 6 (of_type true) (of_type true ∷ of_type false ∷ []) (7 ∷ [])
      (omega arith)
