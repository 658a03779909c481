-- ===== src/Saga/RoutingSlip.antt =====
-- The document that flows through a saga, and what it asks of activities
-- (crates/saga/src/routing_slip.rs, crates/saga/src/activity.rs, crates/saga/src/work_item.rs,
-- crates/saga/src/work_log.rs, crates/saga/src/error.rs). What activities do to the world outside is
-- a state of type `W` that they pass on. The types of activities, of arguments and of results are
-- parameters.
use Prim.Native.String.{String}
use ascetic_ddd_rust.Prelude.{List, [], ◌∷◌, ◌++◌, Bool, true, false, Option, none, some, not}
use ascetic_ddd_rust.Prelude.Result.{Result, ok, err}

-- A boxed error stands for its text.
pub data SagaError : Type 0 where
  invalid_operation activity_type_not_registered missing_key activity : String → SagaError
  unexpected_type : String → String → SagaError

pub record WorkItem (T A : Type 0) : Type 0 where
  pub activity_type : T
  pub arguments : A

pub record WorkLog (T R : Type 0) : Type 0 where
  pub activity_type : T
  pub result : R

-- The stack of completed work has its top first.
pub record RoutingSlip (T A R : Type 0) : Type 0 where
  pub completed : List (WorkLog T R)
  pub next_work_items : List (WorkItem T A)

-- The trait `Activity`.
pub record Activity (T A R W : Type 0) : Type 0 where
  pub do_work : WorkItem T A → W → W × Result SagaError (Option (WorkLog T R))
  pub compensate :
      WorkLog T R → RoutingSlip T A R → W → W × RoutingSlip T A R × Result SagaError Bool
  pub work_item_queue_address : String
  pub compensation_queue_address : String

abbrev is_empty {ℓ} : {X : Type ℓ} → List X → Bool
is_empty [] = true
is_empty (x ∷ xs) = false

-- The oldest first.
abbrev pub reversed {ℓ} : {X : Type ℓ} → List X → List X
reversed [] = []
reversed (x ∷ xs) = reversed xs ++ x ∷ []

module _ {T A R : Type 0} where
  unfoldable pub new : List (WorkItem T A) → RoutingSlip T A R
  new work_items = record { completed = []; next_work_items = work_items }

  unfoldable pub is_completed : RoutingSlip T A R → Bool
  is_completed slip = is_empty slip.next_work_items

  unfoldable pub is_in_progress : RoutingSlip T A R → Bool
  is_in_progress slip = not (is_empty slip.completed)

  unfoldable pub completed_work_logs : RoutingSlip T A R → List (WorkLog T R)
  completed_work_logs slip = reversed slip.completed

  unfoldable pub add_work_item : WorkItem T A → RoutingSlip T A R → RoutingSlip T A R
  add_work_item item slip = record slip { next_work_items = slip.next_work_items ++ item ∷ [] }

  pub add_next_work_item : WorkItem T A → RoutingSlip T A R → RoutingSlip T A R
  add_next_work_item item slip = record slip { next_work_items = item ∷ slip.next_work_items }

  unfoldable pub add_completed_work_log : WorkLog T R → RoutingSlip T A R → RoutingSlip T A R
  add_completed_work_log log slip = record slip { completed = log ∷ slip.completed }

-- What an asynchronous method of a slip leaves: the world, the slip, and its result.
abbrev pub Move : Type 0 → Type 0 → Type 0 → Type 0 → Type 0 → Type 0
Move T A R W X = W × RoutingSlip T A R × Result SagaError X

-- `ActivityType::create` is the argument `create`.
module _ {T A R W : Type 0} (create : T → Activity T A R W) where
  -- The match of `process_next`.
  unfoldable pub log_outcome :
      RoutingSlip T A R → W × Result SagaError (Option (WorkLog T R)) → Move T A R W Bool
  log_outcome slip (w, ok (some log)) =
      (w, record slip { completed = log ∷ slip.completed }, ok true)
  log_outcome slip (w, ok none) = (w, slip, ok false)
  log_outcome slip (w, err e) = (w, slip, ok false)

  pub process_items : List (WorkItem T A) → RoutingSlip T A R → W → Move T A R W Bool
  process_items [] slip w = (w, slip, err (invalid_operation "No more work items to process"))
  process_items (item ∷ items) slip w =
      log_outcome (record slip { next_work_items = items })
        ((create item.activity_type).do_work item w)

  unfoldable pub process_next : RoutingSlip T A R → W → Move T A R W Bool
  unfolding process_items log_outcome
  process_next slip w = process_items slip.next_work_items slip w

  pub undo_logs : List (WorkLog T R) → RoutingSlip T A R → W → Move T A R W Bool
  undo_logs [] slip w = (w, slip, err (invalid_operation "No work to undo"))
  undo_logs (log ∷ logs) slip w =
      (create log.activity_type).compensate log (record slip { completed = logs }) w

  unfoldable pub undo_last : RoutingSlip T A R → W → Move T A R W Bool
  unfolding undo_logs
  undo_last slip w = undo_logs slip.completed slip w

  abbrev pub progress_of : List (WorkItem T A) → Option String
  progress_of [] = none
  progress_of (item ∷ items) = some (create item.activity_type).work_item_queue_address

  unfoldable pub progress_uri : RoutingSlip T A R → Option String
  progress_uri slip = progress_of slip.next_work_items

  abbrev pub compensation_of : List (WorkLog T R) → Option String
  compensation_of [] = none
  compensation_of (log ∷ logs) = some (create log.activity_type).compensation_queue_address

  unfoldable pub compensation_uri : RoutingSlip T A R → Option String
  compensation_uri slip = compensation_of slip.completed
