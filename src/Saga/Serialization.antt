-- ===== src/Saga/Serialization.antt =====
-- Slips as they go over the wire (crates/saga/src/serializable_routing_slip.rs,
-- crates/saga/src/routing_slip_serialization.rs).
pub mod RoundTrip
use ascetic_ddd_rust.Prelude.{List, [], ◌∷◌, ◌≡◌}
use ascetic_ddd_rust.Prelude.Result.{Result, ok, err, ◌>>=◌, traverse}
use ascetic_ddd_rust.Saga.RoutingSlip.{
  SagaError, WorkItem, WorkLog, RoutingSlip, new, completed_work_logs, add_work_item,
  add_completed_work_log,
}
use ascetic_ddd_rust.Saga.Resolver.{ActivityTypeResolver}

pub record SerializableWorkItem (N A : Type 0) : Type 0 where
  pub activity_type_name : N
  pub arguments : A

pub record SerializableWorkLog (N R : Type 0) : Type 0 where
  pub activity_type_name : N
  pub result : R

pub record SerializableRoutingSlip (N A R : Type 0) : Type 0 where
  pub completed_work_logs : List (SerializableWorkLog N R)
  pub next_work_items : List (SerializableWorkItem N A)

module _ {N T : Type 0} (resolver : ActivityTypeResolver N T) where
  -- What is supposed of a resolver: a name that it gives for a type is resolved to the type.
  unfoldable pub IsInverse : Type 0
  IsInverse = (t : T) (name : N) → resolver.get_name t ≡ ok name → resolver.resolve name ≡ ok t

  unfoldable pub name_item :
      {A : Type 0} → WorkItem T A → Result SagaError (SerializableWorkItem N A)
  name_item item = do
    name ← resolver.get_name item.activity_type
    ok (record { activity_type_name = name; arguments = item.arguments })

  unfoldable pub name_log : {R : Type 0} → WorkLog T R → Result SagaError (SerializableWorkLog N R)
  name_log log = do
    name ← resolver.get_name log.activity_type
    ok (record { activity_type_name = name; result = log.result })

module _ {N T A R : Type 0} (resolver : ActivityTypeResolver N T) where
  unfoldable pub to_serializable :
      RoutingSlip T A R → Result SagaError (SerializableRoutingSlip N A R)
  unfolding name_log name_item
  to_serializable slip = do
    logs ← traverse (name_log resolver) (completed_work_logs slip)
    items ← traverse (name_item resolver) slip.next_work_items
    ok (record { completed_work_logs = logs; next_work_items = items })

  -- The loops of `from_serializable`.
  pub add_items :
      List (SerializableWorkItem N A) → RoutingSlip T A R → Result SagaError (RoutingSlip T A R)
  add_items [] slip = ok slip
  add_items (item ∷ items) slip = do
    t ← resolver.resolve item.activity_type_name
    add_items items (add_work_item (record { activity_type = t; arguments = item.arguments }) slip)

  pub add_logs :
      List (SerializableWorkLog N R) → RoutingSlip T A R → Result SagaError (RoutingSlip T A R)
  add_logs [] slip = ok slip
  add_logs (log ∷ logs) slip = do
    t ← resolver.resolve log.activity_type_name
    add_logs logs (add_completed_work_log (record { activity_type = t; result = log.result }) slip)

  pub from_serializable : SerializableRoutingSlip N A R → Result SagaError (RoutingSlip T A R)
  from_serializable s = do
    slip ← add_items s.next_work_items (new [])
    add_logs s.completed_work_logs slip
