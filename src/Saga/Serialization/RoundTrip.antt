-- ===== src/Saga/Serialization/RoundTrip.antt =====
-- A slip comes back from its serializable form.
use ascetic_ddd_rust.Prelude.{List, [], ◌∷◌, ◌++◌, ◌≡◌, refl, ap, sym, ◌∙◌, arith}
use mathlib.Core.List.{append_assoc, append-nil}
use ascetic_ddd_rust.Prelude.Result.{ok, traverse}
use ascetic_ddd_rust.Saga.RoutingSlip.{
  WorkItem, WorkLog, RoutingSlip, new, reversed, completed_work_logs, add_work_item,
  add_completed_work_log,
}
use ascetic_ddd_rust.Saga.Resolver.{ActivityTypeResolver}
use ascetic_ddd_rust.Saga.Serialization.{
  SerializableWorkItem, SerializableWorkLog, SerializableRoutingSlip, IsInverse, name_item,
  name_log, to_serializable, add_items, add_logs, from_serializable,
}

reversed-append : {X : Type 0} (xs ys : List X) → reversed (xs ++ ys) ≡ reversed ys ++ reversed xs
reversed-append [] ys = simp append-nil
reversed-append (x ∷ xs) ys =
    rw (reversed-append xs ys) (append_assoc (reversed ys) (reversed xs) (x ∷ []))

reversed-reversed : {X : Type 0} (xs : List X) → reversed (reversed xs) ≡ xs
reversed-reversed [] = refl
reversed-reversed (x ∷ xs) =
    reversed-append (reversed xs) (x ∷ []) ∙ ap (λ ys. x ∷ ys) (reversed-reversed xs)

module _ {N T A : Type 0} (resolver : ActivityTypeResolver N T) where
  -- Each work item with its serializable form.
  abbrev AreItems : List (WorkItem T A) → List (SerializableWorkItem N A) → Type 0
  AreItems [] [] = Unit
  AreItems (x ∷ xs) (y ∷ ys) =
      (resolver.resolve y.activity_type_name ≡ ok x.activity_type)
      × (y.arguments ≡ x.arguments)
      × AreItems xs ys
  AreItems _ _ = ⊥

  traverse-AreItems :
      IsInverse resolver
      → (xs : List (WorkItem T A)) (ys : List (SerializableWorkItem N A))
      → traverse (name_item resolver) xs ≡ ok ys
      → AreItems xs ys
  unfolding name_item IsInverse
  traverse-AreItems inverse [] [] e = tt
  traverse-AreItems inverse [] (y ∷ ys) e = cc
  traverse-AreItems inverse (x ∷ xs) [] e = ground arith
  traverse-AreItems inverse (x ∷ xs) (y ∷ ys) e = (
    inverse x.activity_type y.activity_type_name (ground arith),
    ground arith,
    traverse-AreItems inverse xs ys (ground arith),
  )

module _ {N T R : Type 0} (resolver : ActivityTypeResolver N T) where
  -- Each work log with its serializable form.
  abbrev AreLogs : List (WorkLog T R) → List (SerializableWorkLog N R) → Type 0
  AreLogs [] [] = Unit
  AreLogs (x ∷ xs) (y ∷ ys) =
      (resolver.resolve y.activity_type_name ≡ ok x.activity_type)
      × (y.result ≡ x.result)
      × AreLogs xs ys
  AreLogs _ _ = ⊥

  traverse-AreLogs :
      IsInverse resolver
      → (xs : List (WorkLog T R)) (ys : List (SerializableWorkLog N R))
      → traverse (name_log resolver) xs ≡ ok ys
      → AreLogs xs ys
  unfolding name_log IsInverse
  traverse-AreLogs inverse [] [] e = tt
  traverse-AreLogs inverse [] (y ∷ ys) e = cc
  traverse-AreLogs inverse (x ∷ xs) [] e = ground arith
  traverse-AreLogs inverse (x ∷ xs) (y ∷ ys) e = (
    inverse x.activity_type y.activity_type_name (ground arith),
    ground arith,
    traverse-AreLogs inverse xs ys (ground arith),
  )

module _ {N T A R : Type 0} (resolver : ActivityTypeResolver N T) where
  add_items-AreItems :
      (xs : List (WorkItem T A)) (ys : List (SerializableWorkItem N A)) (slip : RoutingSlip T A R)
      → AreItems resolver xs ys
      → add_items resolver ys slip
        ≡ ok (record slip { next_work_items = slip.next_work_items ++ xs })
  unfolding add_items add_work_item
  add_items-AreItems [] [] slip h =
      ap (λ l. ok (record slip { next_work_items = l })) (sym (append-nil slip.next_work_items))
  add_items-AreItems [] (y ∷ ys) slip h = absurd h
  add_items-AreItems (x ∷ xs) [] slip h = absurd h
  add_items-AreItems (x ∷ xs) (y ∷ ys) slip (r, a, h) =
      rw (r, a)
        (add_items-AreItems xs ys (add_work_item x slip) h
          ∙ ap (λ l. ok (record slip { next_work_items = l }))
              (append_assoc slip.next_work_items (x ∷ []) xs))

  add_logs-AreLogs :
      (xs : List (WorkLog T R)) (ys : List (SerializableWorkLog N R)) (slip : RoutingSlip T A R)
      → AreLogs resolver xs ys
      → add_logs resolver ys slip ≡ ok (record slip { completed = reversed xs ++ slip.completed })
  unfolding add_logs add_completed_work_log
  add_logs-AreLogs [] [] slip h = refl
  add_logs-AreLogs [] (y ∷ ys) slip h = absurd h
  add_logs-AreLogs (x ∷ xs) [] slip h = absurd h
  add_logs-AreLogs (x ∷ xs) (y ∷ ys) slip (r, a, h) =
      rw (r, a)
        (add_logs-AreLogs xs ys (add_completed_work_log x slip) h
          ∙ ap (λ l. ok (record slip { completed = l }))
              (sym (append_assoc (reversed xs) (x ∷ []) slip.completed)))

  -- Where the resolver resolves every name that it gives for a type to that type, a slip that can be
  -- made serializable comes back from its serializable form as it was: the same work items, and the
  -- same work logs, in the same orders.
  pub from_serializable-to_serializable :
      IsInverse resolver
      → (slip : RoutingSlip T A R) (s : SerializableRoutingSlip N A R)
      → to_serializable resolver slip ≡ ok s
      → from_serializable resolver s ≡ ok slip
  unfolding from_serializable to_serializable completed_work_logs new
  from_serializable-to_serializable inverse slip s e =
      let logs =
        traverse-AreLogs resolver inverse (reversed slip.completed) s.completed_work_logs
          (ground arith) in
      let items =
        traverse-AreItems resolver inverse slip.next_work_items s.next_work_items (ground arith) in
      rw (add_items-AreItems slip.next_work_items s.next_work_items (new []) items) (
        add_logs-AreLogs (reversed slip.completed) s.completed_work_logs
          (record { completed = []; next_work_items = slip.next_work_items }) logs
        ∙ ap (λ l. ok (record slip { completed = l }))
            (append-nil (reversed (reversed slip.completed)) ∙ reversed-reversed slip.completed))
