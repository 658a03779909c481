-- ===== src/Saga/Alternative/Atomic.antt =====
-- A nested slip of activities that can be undone is atomic.
use ascetic_ddd_rust.Prelude.{
  ℕ, zero, suc, ◌+◌, ◌≤◌, List, [], ◌∷◌, Bool, true, false, Option, none, some, ◌≡◌, refl, subst,
  ◌∙◌, arith, length, ap,
}
use ascetic_ddd_rust.Prelude.Result.{Result, ok, err}
use ascetic_ddd_rust.Saga.RoutingSlip.{
  SagaError, WorkItem, WorkLog, RoutingSlip, Activity, new, is_completed, is_in_progress,
  process_next, undo_last, log_outcome,
}
use ascetic_ddd_rust.Saga.Alternative.{Run, undo_all, undo_on, execute, execute_on, report_failure}

-- What is done once the work of an item was done: the rest, in the world that it left.
abbrev pub on_done :
    {T R W : Type 0} → (W → Option W) → W × Result SagaError (Option (WorkLog T R)) → Option W
on_done again (w, ok (some log)) = again w
on_done again (w, ok none) = none
on_done again (w, err e) = none

module _ {T A R W : Type 0} (create : T → Activity T A R W) where
  -- What is supposed of the activities: work that fails, by giving no log or an error, changes
  -- nothing; and the compensation of work that was done, in the world that it left, succeeds, leaves
  -- the slip as it is, and brings back the world before it.
  pub record IsReversible : Type 0 where
    pub failed_changes_nothing :
        (item : WorkItem T A) (w w' : W)
        → (create item.activity_type).do_work item w ≡ (w', ok none)
        → w' ≡ w
    pub error_changes_nothing :
        (item : WorkItem T A) (w w' : W) (e : SagaError)
        → (create item.activity_type).do_work item w ≡ (w', err e)
        → w' ≡ w
    pub undone :
        (item : WorkItem T A) (log : WorkLog T R) (slip : RoutingSlip T A R) (w w' : W)
        → (create item.activity_type).do_work item w ≡ (w', ok (some log))
        → (create log.activity_type).compensate log slip w' ≡ (w, slip, ok true)

  -- Undoing the logs, the first first, leads from one world to another, and leaves slips as they are.
  unfoldable pub Undoes : List (WorkLog T R) → W → W → Type 0
  Undoes [] w start = w ≡ start
  Undoes (log ∷ logs) w start =
      (before : W) × ((slip : RoutingSlip T A R)
        → (create log.activity_type).compensate log slip w ≡ (before, slip, ok true))
      × Undoes logs before start

  undo_all-Undoes :
      (fuel : ℕ) (logs : List (WorkLog T R)) (items : List (WorkItem T A)) (w start : W)
      → length logs ≤ fuel
      → Undoes logs w start
      → undo_all create fuel (record { completed = logs; next_work_items = items }) w
        ≡ (start, record { completed = []; next_work_items = items }, some (ok tt))
  unfolding undo_all Undoes is_in_progress undo_last
  undo_all-Undoes zero [] items w start h u = rw u refl
  undo_all-Undoes (suc n) [] items w start h u = rw u refl
  undo_all-Undoes zero (log ∷ logs) items w start h u = absurd (omega arith)
  undo_all-Undoes (suc n) (log ∷ logs) items w start h (before, step, rest) =
      ap (undo_on (λ s v. undo_all create n s v))
        (step (record { completed = logs; next_work_items = items }))
      ∙ undo_all-Undoes n logs items before start (omega arith) rest

  -- The world after the work of each item in turn, if none fails.
  unfoldable pub all_done : List (WorkItem T A) → W → Option W
  all_done [] w = some w
  all_done (item ∷ items) w =
      on_done (λ v. all_done items v) ((create item.activity_type).do_work item w)

  -- How running a slip ends: in the expected world, with a log for each work item and for each log
  -- that was there, and its work can be undone; or, where none is expected, it failed, and everything
  -- is undone.
  pub Ends : Option W → ℕ → W → Run T A R W Bool → Type 0
  Ends (some end) n start (w, slip, outcome) =
      (outcome ≡ some (ok true))
      × (w ≡ end)
      × (slip.next_work_items ≡ [])
      × (length slip.completed ≡ n)
      × Undoes slip.completed w start
  Ends none n start (w, slip, outcome) =
      (outcome ≡ some (ok false)) × (w ≡ start) × (slip.completed ≡ [])

  -- A slip that gave up is undone.
  failed-Ends :
      (undo_fuel n : ℕ) (logs : List (WorkLog T R)) (items : List (WorkItem T A)) (w start : W)
      → length logs ≤ undo_fuel
      → Undoes logs w start
      → Ends none n start (
          report_failure
            (undo_all create undo_fuel (record { completed = logs; next_work_items = items }) w))
  unfolding Ends
  failed-Ends undo_fuel n logs items w start h u =
      rw (undo_all-Undoes undo_fuel logs items w start h u) (refl, refl, refl)

  -- The end of the rest of the loop, as far as it is known.
  abbrev Continues : ℕ → ℕ → Type 0
  Continues undo_fuel fuel =
      (logs : List (WorkLog T R)) (items : List (WorkItem T A)) (w start : W)
      → length items ≤ fuel
      → length logs + length items ≤ undo_fuel
      → Undoes logs w start
      → Ends (all_done items w) (length logs + length items) start
          (execute create undo_fuel fuel (record { completed = logs; next_work_items = items }) w)

  -- The end, once the activity of a work item has answered.
  answered-Ends :
      IsReversible
      → (undo_fuel fuel : ℕ) → Continues undo_fuel fuel
      → (logs : List (WorkLog T R)) (item : WorkItem T A) (items : List (WorkItem T A))
        (w start : W)
      → length items ≤ fuel
      → length logs + suc (length items) ≤ undo_fuel
      → Undoes logs w start
      → (outcome : W × Result SagaError (Option (WorkLog T R)))
      → (create item.activity_type).do_work item w ≡ outcome
      → Ends (on_done (λ v. all_done items v) outcome) (length logs + suc (length items)) start (
          execute_on
            (λ s v. execute create undo_fuel fuel s v)
            (λ s v. report_failure (undo_all create undo_fuel s v))
            (log_outcome create (record { completed = logs; next_work_items = items }) outcome))
  unfolding log_outcome
  answered-Ends r undo_fuel fuel ih logs item items w start h hu u (w', ok (some log)) e =
      let same : length (log ∷ logs) + length items ≡ length logs + suc (length items) =
        omega arith in
      subst
        (λ n. Ends (all_done items w') n start (
          execute create undo_fuel fuel (record { completed = log ∷ logs; next_work_items = items })
            w'))
        same
        (ih (log ∷ logs) items w' start h (omega arith)
          (unfold Undoes in (w, (λ slip. r.undone item log slip w w' e), u)))
  answered-Ends r undo_fuel fuel ih logs item items w start h hu u (w', ok none) e =
      failed-Ends undo_fuel _ logs items w' start (omega arith)
        (rw (r.failed_changes_nothing item w w' e) u)
  answered-Ends r undo_fuel fuel ih logs item items w start h hu u (w', err x) e =
      failed-Ends undo_fuel _ logs items w' start (omega arith)
        (rw (r.error_changes_nothing item w w' x e) u)

  execute-Ends : IsReversible → (undo_fuel fuel : ℕ) → Continues undo_fuel fuel
  unfolding execute Ends is_completed process_next all_done
  execute-Ends r undo_fuel zero logs [] w start h hu u = (refl, refl, refl, omega arith, u)
  execute-Ends r undo_fuel (suc n) logs [] w start h hu u = (refl, refl, refl, omega arith, u)
  execute-Ends r undo_fuel zero logs (item ∷ items) w start h hu u = absurd (omega arith)
  execute-Ends r undo_fuel (suc n) logs (item ∷ items) w start h hu u =
      answered-Ends r undo_fuel n (execute-Ends r undo_fuel n) logs item items w start (omega arith)
        hu u _ refl

  -- A slip ends in the expected world, all done, and can then be undone; or, where none is
  -- expected, with nothing done.
  abbrev pub IsAtomic : Option W → ℕ → ℕ → W → Run T A R W Bool → Type 0
  IsAtomic (some end) undo_fuel n start (w, slip, outcome) =
      (outcome ≡ some (ok true))
      × (w ≡ end)
      × (slip.next_work_items ≡ [])
      × (length slip.completed ≡ n)
      × (undo_all create undo_fuel slip w ≡ (start, record slip { completed = [] }, some (ok tt)))
  IsAtomic none undo_fuel n start (w, slip, outcome) =
      (outcome ≡ some (ok false)) × (w ≡ start) × (slip.completed ≡ [])

  Ends-IsAtomic :
      (expected : Option W) (undo_fuel n : ℕ) (start : W) (run : Run T A R W Bool)
      → n ≤ undo_fuel
      → Ends expected n start run
      → IsAtomic expected undo_fuel n start run
  unfolding Ends
  Ends-IsAtomic (some end) undo_fuel n start (w, slip, outcome) h
        (done, world, none_left, count, u) =
      (
        done,
        world,
        none_left,
        count,
        undo_all-Undoes undo_fuel slip.completed slip.next_work_items w start (omega arith) u,
      )
  Ends-IsAtomic none undo_fuel n start (w, slip, outcome) h failed = failed

  -- Suppose that work that fails changes nothing, and that the compensation of work that was done,
  -- in the world that it left, brings back the world before it and leaves the slip as it is. Then a
  -- new slip runs to an end within as many rounds as it has work items. If the work of the items, in
  -- turn, succeeds, the slip succeeds in the world that they leave, with a log for each, and undoing
  -- it brings back the world before it all. If one fails, the slip reports a failure, no log is left,
  -- and the world is the one before it all.
  pub execute-IsAtomic :
      IsReversible
      → (undo_fuel fuel : ℕ) (items : List (WorkItem T A)) (w : W) → length items ≤ fuel
      → length items ≤ undo_fuel
      → IsAtomic
          (all_done items w)
          undo_fuel
          (length items)
          w
          (execute create undo_fuel fuel (new items) w)
  unfolding new
  execute-IsAtomic r undo_fuel fuel items w h hu =
      let none_logged : 0 + length items ≡ length items = omega arith in
      Ends-IsAtomic (all_done items w) undo_fuel (length items) w _ hu (
        subst (λ n. Ends (all_done items w) n w (execute create undo_fuel fuel (new items) w))
          none_logged
          (execute-Ends r undo_fuel fuel [] items w w h (omega arith) (unfold Undoes in refl)))
