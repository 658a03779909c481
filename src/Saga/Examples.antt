-- ===== src/Saga/Examples.antt =====
-- A saga that puts numbers on a list. Work on a number that is not below 9 fails.
use Prim.Native.String.{String}
use ascetic_ddd_rust.Prelude.{
  ℕ, zero, suc, List, [], ◌∷◌, true, false, Option, none, some, ◌≡◌, refl, ltb, arith, inl,
  ℕ_discrete as dec,
}
use ascetic_ddd_rust.Prelude.HashMap
use ascetic_ddd_rust.Prelude.Result.{Result, ok}
use ascetic_ddd_rust.Saga.RoutingSlip.{
  SagaError, WorkItem, WorkLog, RoutingSlip, Activity, new, completed_work_logs,
}
use ascetic_ddd_rust.Saga.Alternative.{execute}
use ascetic_ddd_rust.Saga.Alternative.Atomic
use ascetic_ddd_rust.Saga.Alternative.Atomic.{IsReversible, IsAtomic, all_done}
use ascetic_ddd_rust.Saga.Fallback
use ascetic_ddd_rust.Saga.Fallback.{Store}
use ascetic_ddd_rust.Saga.Fallback.Recovery
use ascetic_ddd_rust.Saga.Fallback.Recovery.{IsRecovery, chosen}
use ascetic_ddd_rust.Saga.Resolver
use ascetic_ddd_rust.Saga.Resolver.{
  MapBasedResolver, register, register_all, resolver_of, IsConsistent,
}
use ascetic_ddd_rust.Saga.Resolver.Registrations
use ascetic_ddd_rust.Saga.Resolver.Registrations.{Registered}
use ascetic_ddd_rust.Saga.Serialization.{
  SerializableRoutingSlip, to_serializable, from_serializable, IsInverse, name_log, name_item,
}
use ascetic_ddd_rust.Saga.Serialization.RoundTrip

abbrev work : ℕ → List ℕ → List ℕ × Result SagaError (Option (WorkLog ℕ ℕ))
work t w = elim (ltb t 9) [
  | true ↦ (t ∷ w, ok (some (record { activity_type = t; result = t })))
  | false ↦ (w, ok none)
]

abbrev pop : List ℕ → List ℕ
pop [] = []
pop (x ∷ xs) = xs

abbrev create : ℕ → Activity ℕ (Unit {0}) ℕ (List ℕ)
create t = record {
  do_work = λ item w. work t w;
  compensate = λ log slip w. (pop w, slip, ok true);
  work_item_queue_address = "sb://./work";
  compensation_queue_address = "sb://./undo";
}

create-IsReversible : IsReversible create
create-IsReversible = record {
  failed_changes_nothing = λ item w w' e. ground arith;
  error_changes_nothing = λ item w w' x e. ground arith;
  undone = λ item log slip w w' e. ground arith;
}

abbrev item : ℕ → WorkItem ℕ (Unit {0})
item t = record { activity_type = t; arguments = tt }

-- The last work item fails.
abbrev items : List (WorkItem ℕ (Unit {0}))
items = item 3 ∷ item 5 ∷ item 12 ∷ []

execute-IsAtomic_example :
    IsAtomic create
      (all_done create items (7 ∷ []))
      3
      3
      (7 ∷ [])
      (execute create 3 3 (new items) (7 ∷ []))
execute-IsAtomic_example =
    Atomic.execute-IsAtomic create create-IsReversible 3 3 items (7 ∷ []) (omega arith)
      (omega arith)

-- The slip at 0 fails, that at 1 does not.
abbrev store : Store ℕ (Unit {0}) ℕ
store zero = new items
store (suc h) = new (item 4 ∷ [])

do_work-IsRecovery_example :
    IsRecovery create 3
      (chosen create 3 (0 ∷ 1 ∷ []) store (7 ∷ []))
      (7 ∷ [])
      (Fallback.do_work create 3 (0 ∷ 1 ∷ []) store (7 ∷ []))
unfolding new
do_work-IsRecovery_example =
    Recovery.do_work-IsRecovery create 3 create-IsReversible (0 ∷ 1 ∷ []) store (7 ∷ [])
      (refl, omega arith, (λ e. omega arith, tt), (refl, omega arith, tt, tt))

abbrev registry : MapBasedResolver ℕ ℕ
registry = register dec dec 20 3 (register dec dec 21 4 Resolver.empty)

registry-IsConsistent : IsConsistent dec dec registry
unfolding register HashMap.find HashMap.insert HashMap.remove dec Resolver.empty
registry-IsConsistent =
    Resolver.register-IsConsistent dec dec 20 3 (register dec dec 21 4 Resolver.empty) (inl refl) (
      Resolver.register-IsConsistent dec dec 21 4 Resolver.empty (inl refl)
        (Resolver.empty-IsConsistent dec dec))

abbrev as_text : ℕ → String
as_text n = "a name"

abbrev no_own_name : ℕ → Option ℕ
no_own_name t = none

registry-get_name : (resolver_of dec dec as_text as_text no_own_name registry).get_name 3 ≡ ok 20
unfolding resolver_of register HashMap.find HashMap.insert HashMap.remove dec Resolver.empty
registry-get_name = refl

-- Type 3 is registered under two names, of which it has the later one.
abbrev registrations : List (ℕ × ℕ)
registrations = (20, 3) ∷ (21, 4) ∷ (22, 3) ∷ []

one_type :
    (n : ℕ) (u u' : ℕ) → Registered registrations n u → Registered registrations n u' → u ≡ u'
one_type n u u' h h' = ground arith

resolve-register_all_example :
    let r =
      resolver_of dec dec as_text as_text no_own_name
        (register_all dec dec registrations Resolver.empty) in
    (r.resolve 20 ≡ ok 3)
    × ((own : ℕ) × (r.get_name 3 ≡ ok own)
        × Registered registrations own 3
        × (r.resolve own ≡ ok 3))
resolve-register_all_example =
    Registrations.resolve-register_all dec dec as_text as_text no_own_name registrations 20 3
      one_type (inl (refl, refl))

registry-IsInverse : IsInverse (resolver_of dec dec as_text as_text no_own_name registry)
unfolding IsInverse
registry-IsInverse =
    Resolver.resolve-get_name dec dec as_text as_text no_own_name registry registry-IsConsistent
      (λ t name e. absurd (ground arith))

-- One work item done, and one to do.
abbrev half_done : RoutingSlip ℕ (Unit {0}) ℕ
half_done = record {
  completed = record { activity_type = 3; result = 3 } ∷ [];
  next_work_items = item 4 ∷ [];
}

abbrev on_the_wire : SerializableRoutingSlip ℕ (Unit {0}) ℕ
on_the_wire = record {
  completed_work_logs = record { activity_type_name = 20; result = 3 } ∷ [];
  next_work_items = record { activity_type_name = 21; arguments = tt } ∷ [];
}

half_done-to_serializable :
    to_serializable (resolver_of dec dec as_text as_text no_own_name registry) half_done
    ≡ ok on_the_wire
unfolding to_serializable resolver_of register HashMap.find HashMap.insert HashMap.remove dec
    Resolver.empty completed_work_logs name_log name_item
half_done-to_serializable = refl

from_serializable-to_serializable_example :
    from_serializable (resolver_of dec dec as_text as_text no_own_name registry) on_the_wire
    ≡ ok half_done
from_serializable-to_serializable_example =
    RoundTrip.from_serializable-to_serializable
      (resolver_of dec dec as_text as_text no_own_name registry) registry-IsInverse half_done
      on_the_wire half_done-to_serializable
