-- ===== src/Saga/ActivityHost/Delivery.antt =====
-- Hosts that pass a slip on to each other do what one process does.
use Prim.Native.String.{String}
use ascetic_ddd_rust.Prelude.{
  ℕ, zero, suc, ◌+◌, ◌*◌, ◌≤◌, List, [], ◌∷◌, Bool, true, Option, none, some, ◌≡◌, refl, ◌∙◌, ap,
  arith, length,
}
use ascetic_ddd_rust.Prelude.Result.{Result, ok, err}
use ascetic_ddd_rust.Saga.RoutingSlip.{
  SagaError, WorkItem, WorkLog, RoutingSlip, Activity, Move, new, is_completed, is_in_progress,
  process_next, undo_last, log_outcome, progress_uri, compensation_uri,
}
use ascetic_ddd_rust.Saga.Alternative.Atomic.{IsReversible, Undoes, all_done, on_done}
use ascetic_ddd_rust.Saga.ActivityHost.{
  after_work, after_undo, process_forward_message, process_backward_message, accept_message,
  accepted,
}
use ascetic_ddd_rust.Saga.ActivityHost.Network.{Network, lifted, post, world_or, IsRouting, deliver}

module _ {T A R W : Type 0} (create : T → Activity T A R W) (same_text : String → String → Bool)
    (route : String → T) where
  module _ (routing : IsRouting create same_text route) where
    delivered_none : (n : ℕ) (w : W) → deliver create same_text route n (w, none) ≡ (w, none)
    unfolding deliver
    delivered_none zero w = refl
    delivered_none (suc n) w = refl

    accepted_world :
        (m : Move T A R (Network T A R W) (Unit {0}))
        → (accepted (λ t. lifted (create t)) post same_text m).0 ≡ m.0
    accepted_world (w, slip, ok x) = refl
    accepted_world (w, slip, err e) = refl

    accept_undo :
        (t : T) (slip : RoutingSlip T A R) (w : W)
        → (accept_message
            (λ t. lifted (create t))
            post
            same_text
            (route (create t).compensation_queue_address)
            (create t).compensation_queue_address
            slip
            (w, none)).0
          ≡ (process_backward_message (λ t. lifted (create t)) post same_text slip (w, none)).0
    unfolding accept_message
    accept_undo t slip w = rw (routing.route_undo t, routing.same_undo t) (accepted_world _)

    accept_work :
        (t : T) (slip : RoutingSlip T A R) (w : W)
        → (accept_message
            (λ t. lifted (create t))
            post
            same_text
            (route (create t).work_item_queue_address)
            (create t).work_item_queue_address
            slip
            (w, none)).0
          ≡ (process_forward_message (λ t. lifted (create t)) post same_text slip (w, none)).0
    unfolding accept_message
    accept_work t slip w =
        rw (routing.route_work t, routing.apart t, routing.same_work t) (accepted_world _)

    -- The message that calls for compensation of the top of a stack.
    abbrev undo_message :
        WorkLog T R → List (WorkLog T R) → List (WorkItem T A) → String × RoutingSlip T A R
    undo_message log logs items = (
      (create log.activity_type).compensation_queue_address,
      record { completed = log ∷ logs; next_work_items = items },
    )

    -- The message that follows a compensation, if there is one.
    abbrev undo_mail :
        List (WorkLog T R) → List (WorkItem T A) → Option (String × RoutingSlip T A R)
    undo_mail [] items = none
    undo_mail (log ∷ logs) items = some (undo_message log logs items)

    backward-undo :
        (log : WorkLog T R) (logs : List (WorkLog T R)) (items : List (WorkItem T A)) (w before : W)
        → ((slip : RoutingSlip T A R)
            → (create log.activity_type).compensate log slip w ≡ (before, slip, ok true))
        → (process_backward_message
            (λ t. lifted (create t))
            post
            same_text
            (record { completed = log ∷ logs; next_work_items = items })
            (w, none)).0
          ≡ (before, undo_mail logs items)
    unfolding process_backward_message after_undo is_in_progress undo_last compensation_uri
    backward-undo log [] items w before step =
        rw (step (record { completed = []; next_work_items = items })) refl
    backward-undo log (next ∷ logs) items w before step =
        rw (step (record { completed = next ∷ logs; next_work_items = items })) refl

    deliver-undo :
        (n : ℕ) (log : WorkLog T R) (logs : List (WorkLog T R)) (items : List (WorkItem T A))
        (w start : W)
        → suc (length logs) ≤ n
        → Undoes create (log ∷ logs) w start
        → deliver create same_text route n (w, some (undo_message log logs items)) ≡ (start, none)
    unfolding deliver Undoes
    deliver-undo zero log logs items w start h u = absurd (omega arith)
    deliver-undo (suc n) log [] items w start h (before, step, rest) =
        ap (deliver create same_text route n)
          (accept_undo log.activity_type _ w ∙ backward-undo log [] items w before step)
        ∙ delivered_none n before
        ∙ ap (λ v. (v, none)) rest
    deliver-undo (suc n) log (next ∷ logs) items w start h (before, step, rest) =
        ap (deliver create same_text route n)
          (accept_undo log.activity_type _ w ∙ backward-undo log (next ∷ logs) items w before step)
        ∙ deliver-undo n next logs items before start (omega arith) rest

    -- The stack of a slip that failed is undone, if there is one.
    deliver-undo_mail :
        (n : ℕ) (logs : List (WorkLog T R)) (items : List (WorkItem T A)) (w start : W)
        → length logs ≤ n
        → Undoes create logs w start
        → deliver create same_text route n (w, undo_mail logs items) ≡ (start, none)
    unfolding Undoes
    deliver-undo_mail n [] items w start h u = delivered_none n w ∙ ap (λ v. (v, none)) u
    deliver-undo_mail n (log ∷ logs) items w start h u = deliver-undo n log logs items w start h u

    -- The message that calls for the work of the next item.
    abbrev work_mail :
        List (WorkLog T R) → List (WorkItem T A) → Option (String × RoutingSlip T A R)
    work_mail logs [] = none
    work_mail logs (item ∷ items) = some (
      (create item.activity_type).work_item_queue_address,
      record { completed = logs; next_work_items = item ∷ items },
    )

    -- The message that follows the answer of an activity.
    abbrev next_mail :
        List (WorkLog T R)
        → List (WorkItem T A)
        → Result SagaError (Option (WorkLog T R))
        → Option (String × RoutingSlip T A R)
    next_mail logs items (ok (some log)) = work_mail (log ∷ logs) items
    next_mail logs items _ = undo_mail logs items

    forward-work :
        (item : WorkItem T A) (items : List (WorkItem T A)) (logs : List (WorkLog T R)) (w w' : W)
        (outcome : Result SagaError (Option (WorkLog T R)))
        → (create item.activity_type).do_work item w ≡ (w', outcome)
        → (process_forward_message
            (λ t. lifted (create t))
            post
            same_text
            (record { completed = logs; next_work_items = item ∷ items })
            (w, none)).0
          ≡ (w', next_mail logs items outcome)
    unfolding process_forward_message after_work is_completed process_next progress_uri
        compensation_uri log_outcome
    forward-work item [] logs w w' (ok (some log)) e = rw e refl
    forward-work item (next ∷ items) logs w w' (ok (some log)) e = rw e refl
    forward-work item items [] w w' (ok none) e = rw e refl
    forward-work item items (log ∷ logs) w w' (ok none) e = rw e refl
    forward-work item items [] w w' (err x) e = rw e refl
    forward-work item items (log ∷ logs) w w' (err x) e = rw e refl

    -- What `n` deliveries make of a message that calls for work.
    abbrev Delivers : ℕ → Type 0
    Delivers n =
        (logs : List (WorkLog T R)) (items : List (WorkItem T A)) (w start : W)
        → length logs + 2 * length items ≤ n
        → Undoes create logs w start
        → deliver create same_text route n (w, work_mail logs items)
          ≡ (world_or start (all_done create items w), none)

    deliver-answered :
        IsReversible create
        → (n : ℕ) → Delivers n
        → (logs : List (WorkLog T R)) (item : WorkItem T A) (items : List (WorkItem T A))
          (w w' start : W) (outcome : Result SagaError (Option (WorkLog T R)))
        → length logs + 2 * length items + 1 ≤ n
        → Undoes create logs w start
        → (create item.activity_type).do_work item w ≡ (w', outcome)
        → deliver create same_text route n (w', next_mail logs items outcome)
          ≡ (world_or start (on_done (λ v. all_done create items v) (w', outcome)), none)
    deliver-answered r n ih logs item items w w' start (ok (some log)) h u e =
        ih (log ∷ logs) items w' start (omega arith)
          (unfold Undoes in (w, (λ slip. r.undone item log slip w w' e), u))
    deliver-answered r n ih logs item items w w' start (ok none) h u e =
        deliver-undo_mail n logs items w' start (omega arith)
          (rw (r.failed_changes_nothing item w w' e) u)
    deliver-answered r n ih logs item items w w' start (err x) h u e =
        deliver-undo_mail n logs items w' start (omega arith)
          (rw (r.error_changes_nothing item w w' x e) u)

    deliver-work : IsReversible create → (n : ℕ) → Delivers n
    unfolding all_done deliver
    deliver-work r n logs [] w start h u = delivered_none n w
    deliver-work r zero logs (item ∷ items) w start h u = absurd (omega arith)
    deliver-work r (suc n) logs (item ∷ items) w start h u =
        ap (deliver create same_text route n)
          (accept_work item.activity_type _ w ∙ forward-work item items logs w _ _ refl)
        ∙ deliver-answered r n (deliver-work r n) logs item items w _ start _ (omega arith) u refl

  -- Suppose that messages come to the hosts whose addresses they have, that work that fails changes
  -- nothing, and that the compensation of work that was done, in the world that it left, brings back
  -- the world before it and leaves the slip as it is. Let a message call for the work of the first
  -- item of a new slip. Then no message is under way any more after twice as many deliveries as the
  -- slip has work items; and the world is the one that the work of the items, in turn, leaves, or,
  -- if one of them fails, the one before it all.
  pub deliver-all_done :
      IsRouting create same_text route
      → IsReversible create
      → (n : ℕ) (item : WorkItem T A) (items : List (WorkItem T A)) (w : W)
      → 2 * length (item ∷ items) ≤ n
      → deliver create same_text route n
          (w, some ((create item.activity_type).work_item_queue_address, new (item ∷ items)))
        ≡ (world_or w (all_done create (item ∷ items) w), none)
  unfolding new
  deliver-all_done routing r n item items w h =
      deliver-work routing r n [] (item ∷ items) w w (omega arith) (unfold Undoes in refl)
