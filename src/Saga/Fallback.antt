-- ===== src/Saga/Fallback.antt =====
-- The activity that tries alternative slips until one succeeds
-- (crates/saga/src/fallback_activity.rs). Shared slips live in a store, and the work item carries
-- their addresses; the work log carries the address of the one that succeeded. The loops over a
-- slip have the fuel `fuel`.
pub mod Recovery
use ascetic_ddd_rust.Prelude.{
  ℕ, List, [], ◌∷◌, Bool, true, false, Option, none, some, ◌==◌, if◌then◌else◌,
}
use ascetic_ddd_rust.Prelude.Result.{Result, ok, err}
use ascetic_ddd_rust.Saga.RoutingSlip.{SagaError, RoutingSlip, Activity}
use ascetic_ddd_rust.Saga.Alternative.{Run, undo_all, execute}

-- `SharedRoutingSlip`
abbrev pub SharedRoutingSlip : Type 0
SharedRoutingSlip = ℕ

abbrev pub Store : Type 0 → Type 0 → Type 0 → Type 0
Store T A R = SharedRoutingSlip → RoutingSlip T A R

abbrev pub put :
    {T A R : Type 0} → SharedRoutingSlip → RoutingSlip T A R → Store T A R → Store T A R
put h slip store k = if h == k then slip else store k

-- What a method of the activity leaves: the world, the slips, and its result.
abbrev pub Outcome : Type 0 → Type 0 → Type 0 → Type 0 → Type 0 → Type 0
Outcome T A R W X = W × Store T A R × Option (Result SagaError X)

module _ {T A R W : Type 0} (create : T → Activity T A R W) (fuel : ℕ) where
  -- `execute_alternative(..).await?`, and then the rest of the loop of `do_work`, if it failed.
  abbrev pub try_next :
      SharedRoutingSlip
      → Store T A R
      → (Store T A R → W → Outcome T A R W (Option SharedRoutingSlip))
      → Run T A R W Bool
      → Outcome T A R W (Option SharedRoutingSlip)
  try_next h store again (w, slip, some (ok true)) = (w, put h slip store, some (ok (some h)))
  try_next h store again (w, slip, some (ok false)) = again (put h slip store) w
  try_next h store again (w, slip, some (err e)) = (w, put h slip store, some (err e))
  try_next h store again (w, slip, none) = (w, put h slip store, none)

  -- `FallbackActivity::do_work`, once the alternatives are read from the work item.
  pub do_work :
      List SharedRoutingSlip → Store T A R → W → Outcome T A R W (Option SharedRoutingSlip)
  do_work [] store w = (w, store, some (ok none))
  do_work (h ∷ alternatives) store w =
      try_next h store (λ s v. do_work alternatives s v) (execute create fuel fuel (store h) w)

  undone_in : SharedRoutingSlip → Store T A R → Run T A R W (Unit {0}) → Outcome T A R W Bool
  undone_in h store (w, slip, some (ok _)) = (w, put h slip store, some (ok true))
  undone_in h store (w, slip, some (err e)) = (w, put h slip store, some (err e))
  undone_in h store (w, slip, none) = (w, put h slip store, none)

  -- `FallbackActivity::compensate`, once the alternative that succeeded is read from the work log.
  pub compensate : SharedRoutingSlip → Store T A R → W → Outcome T A R W Bool
  unfolding undone_in
  compensate h store w = undone_in h store (undo_all create fuel (store h) w)
