-- ===== src/Saga/Alternative.antt =====
-- A nested slip run to its end, or undone to its start: the loops that the activities of several
-- slips share (crates/saga/src/fallback_activity.rs, crates/saga/src/parallel_activity.rs). A loop
-- has fuel, and gives no result where it runs out of it.
pub mod Atomic
use ascetic_ddd_rust.Prelude.{ℕ, zero, suc, Bool, true, false, Option, none, some}
use ascetic_ddd_rust.Prelude.Result.{Result, ok, err}
use ascetic_ddd_rust.Saga.RoutingSlip.{
  SagaError, RoutingSlip, Activity, Move, is_completed, is_in_progress, process_next, undo_last,
}

-- What a loop leaves: the world, the slip, and its result unless the fuel ran out.
abbrev pub Run : Type 0 → Type 0 → Type 0 → Type 0 → Type 0 → Type 0
Run T A R W X = W × RoutingSlip T A R × Option (Result SagaError X)

-- The rest of the loop that undoes, after one round.
abbrev pub undo_on :
    {T A R W : Type 0}
    → (RoutingSlip T A R → W → Run T A R W (Unit {0}))
    → Move T A R W Bool
    → Run T A R W (Unit {0})
undo_on again (w, slip, ok _) = again slip w
undo_on again (w, slip, err e) = (w, slip, some (err e))

-- The rest of the loop that executes, after one round: `give_up` where a work item failed.
abbrev pub execute_on :
    {T A R W : Type 0}
    → (RoutingSlip T A R → W → Run T A R W Bool)
    → (RoutingSlip T A R → W → Run T A R W Bool)
    → Move T A R W Bool
    → Run T A R W Bool
execute_on again give_up (w, slip, ok true) = again slip w
execute_on again give_up (w, slip, ok false) = give_up slip w
execute_on again give_up (w, slip, err e) = (w, slip, some (err e))

-- Once all is undone, the failure is reported.
abbrev pub report_failure : {T A R W : Type 0} → Run T A R W (Unit {0}) → Run T A R W Bool
report_failure (w, slip, none) = (w, slip, none)
report_failure (w, slip, some (ok _)) = (w, slip, some (ok false))
report_failure (w, slip, some (err e)) = (w, slip, some (err e))

module _ {T A R W : Type 0} (create : T → Activity T A R W) where
  -- `while slip.is_in_progress() { slip.undo_last().await?; }`
  pub undo_all : ℕ → RoutingSlip T A R → W → Run T A R W (Unit {0})
  undo_all zero slip w = elim (is_in_progress slip) [
    | true ↦ (w, slip, none)
    | false ↦ (w, slip, some (ok tt))
  ]
  undo_all (suc n) slip w = elim (is_in_progress slip) [
    | true ↦ undo_on (λ s v. undo_all n s v) (undo_last create slip w)
    | false ↦ (w, slip, some (ok tt))
  ]

  -- `execute_alternative`, and `execute_branch`, whose code is the same. The inner loop has the fuel
  -- `undo_fuel`.
  pub execute : ℕ → ℕ → RoutingSlip T A R → W → Run T A R W Bool
  execute undo_fuel zero slip w = elim (is_completed slip) [
    | true ↦ (w, slip, some (ok true))
    | false ↦ (w, slip, none)
  ]
  execute undo_fuel (suc n) slip w = elim (is_completed slip) [
    | true ↦ (w, slip, some (ok true))
    | false ↦
        execute_on (λ s v. execute undo_fuel n s v) (λ s v. report_failure (undo_all undo_fuel s v))
          (process_next create slip w)
  ]
