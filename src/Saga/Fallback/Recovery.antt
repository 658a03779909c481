-- ===== src/Saga/Fallback/Recovery.antt =====
-- Alternatives that can be undone make a recovery block: at most one of them takes effect.
use ascetic_ddd_rust.Prelude.{
  if◌then◌else◌, false, ℕ, ◌≤◌, List, [], ◌∷◌, Bool, true, Option, none, some, ◌≡◌, ◌≢◌, refl,
  arith, length,
}
use ascetic_ddd_rust.Prelude.Result.{ok}
use ascetic_ddd_rust.Saga.RoutingSlip.{WorkItem, WorkLog, RoutingSlip, Activity, new}
use ascetic_ddd_rust.Saga.Alternative.{Run, execute}
use ascetic_ddd_rust.Saga.Alternative.Atomic.{IsReversible, IsAtomic, all_done, execute-IsAtomic}
use ascetic_ddd_rust.Saga.Fallback.{
  SharedRoutingSlip, Store, put, Outcome, try_next, do_work, compensate,
}

-- The address is not among the others.
abbrev pub IsApart : SharedRoutingSlip → List SharedRoutingSlip → Type 0
IsApart h [] = Unit
IsApart h (k ∷ ks) = (h ≢ k) × IsApart h ks

abbrev succeeds : {T A R W : Type 0} → Run T A R W Bool → Bool
succeeds (w, slip, some (ok true)) = true
succeeds _ = false

module _ {T A R W : Type 0} (create : T → Activity T A R W) (fuel : ℕ) where
  -- The slips are new, none stands twice among the alternatives, and none is longer than the fuel.
  abbrev pub AreFresh : List SharedRoutingSlip → Store T A R → Type 0
  AreFresh [] store = Unit
  AreFresh (h ∷ hs) store =
      ((store h).completed ≡ [])
      × (length (store h).next_work_items ≤ fuel)
      × IsApart h hs
      × AreFresh hs store

  find-put :
      (h : SharedRoutingSlip) (slip : RoutingSlip T A R) (store : Store T A R)
      → put h slip store h ≡ slip
  find-put h slip store = ground arith

  find-put_apart :
      (h k : SharedRoutingSlip) (slip : RoutingSlip T A R) (store : Store T A R)
      → h ≢ k
      → put h slip store k ≡ store k
  find-put_apart h k slip store ne = ground arith

  put-AreFresh :
      (h : SharedRoutingSlip) (slip : RoutingSlip T A R) (hs : List SharedRoutingSlip)
      (store : Store T A R)
      → IsApart h hs
      → AreFresh hs store
      → AreFresh hs (put h slip store)
  put-AreFresh h slip [] store apart f = tt
  put-AreFresh h slip (k ∷ ks) store apart f =
      rw (find-put_apart h k slip store apart.0)
        (f.0, f.1, f.2, put-AreFresh h slip ks store apart.1 f.3)

  -- The first alternative that, run alone in a world, succeeds.
  pub chosen : List SharedRoutingSlip → Store T A R → W → Option SharedRoutingSlip
  chosen [] store w = none
  chosen (h ∷ hs) store w =
      if succeeds (execute create fuel fuel (store h) w) then some h else chosen hs store w

  chosen-put :
      (h : SharedRoutingSlip) (slip : RoutingSlip T A R) (hs : List SharedRoutingSlip)
      (store : Store T A R) (w : W)
      → IsApart h hs
      → chosen hs (put h slip store) w ≡ chosen hs store w
  unfolding chosen
  chosen-put h slip [] store w apart = refl
  chosen-put h slip (k ∷ ks) store w apart =
      rw (find-put_apart h k slip store apart.0, chosen-put h slip ks store w apart.1) refl

  -- What took effect can be undone: nothing, or one alternative, done to its end.
  abbrev pub IsUndoable : W → Option SharedRoutingSlip → W → Store T A R → Type 0
  IsUndoable start none w store = w ≡ start
  IsUndoable start (some h) w store =
      ((store h).next_work_items ≡ [])
      × ((compensate create fuel h store w).0 ≡ start)
      × ((compensate create fuel h store w).2 ≡ some (ok true))

  -- The alternatives end in the expected one.
  abbrev pub IsRecovery :
      Option SharedRoutingSlip → W → Outcome T A R W (Option SharedRoutingSlip) → Type 0
  IsRecovery expected start (w, store, outcome) =
      (outcome ≡ some (ok expected)) × IsUndoable start expected w store

  tried-IsRecovery :
      (h : SharedRoutingSlip) (n : ℕ) (store : Store T A R)
      (again : Store T A R → W → Outcome T A R W (Option SharedRoutingSlip)) (start : W)
      (rest : Option SharedRoutingSlip)
      → ((slip : RoutingSlip T A R) → IsRecovery rest start (again (put h slip store) start))
      → (run : Run T A R W Bool) → (end : Option W) → IsAtomic create end fuel n start run
      → IsRecovery
          (if succeeds run then some h else rest)
          start
          (try_next create fuel h store again run)
  unfolding compensate
  tried-IsRecovery h n store again start rest ih (w, slip, outcome) (some end)
        (done, _, none_left, _, undone) =
      rw done (
        refl,
        (
          rw (find-put h slip store) none_left,
          rw (find-put h slip store, undone) refl,
          rw (find-put h slip store, undone) refl,
        ),
      )
  tried-IsRecovery h n store again start rest ih (w, slip, outcome) none (failed, same, _) =
      rw (failed, same) (ih slip)

  executed :
      IsReversible create
      → (logs : List (WorkLog T R)) (items : List (WorkItem T A)) (w : W) → logs ≡ []
      → length items ≤ fuel
      → IsAtomic create
          (all_done create items w)
          fuel
          (length items)
          w
          (execute create fuel fuel (record { completed = logs; next_work_items = items }) w)
  unfolding new
  executed r logs items w e h = rw e (execute-IsAtomic create r fuel fuel items w h h)

  -- Suppose that work that fails changes nothing, and that the compensation of work that was done,
  -- in the world that it left, brings back the world before it and leaves the slip as it is. Let the
  -- alternatives be new slips, none twice, and no longer than the fuel. Then trying them gives the
  -- first one that succeeds when it is run alone in the world before; it is done to its end, and
  -- compensating it succeeds and brings back that world. If there is none, trying them gives none,
  -- and the world is as before.
  pub do_work-IsRecovery :
      IsReversible create
      → (alternatives : List SharedRoutingSlip) (store : Store T A R) (w : W)
      → AreFresh alternatives store
      → IsRecovery (chosen alternatives store w) w (do_work create fuel alternatives store w)
  unfolding do_work chosen
  do_work-IsRecovery r [] store w f = (refl, refl)
  do_work-IsRecovery r (h ∷ hs) store w (new_slip, fits, apart, f) =
      tried-IsRecovery h (length (store h).next_work_items) store
        (λ s v. do_work create fuel hs s v) w (chosen hs store w)
        (λ slip.
          rw (← chosen-put h slip hs store w apart)
            (do_work-IsRecovery r hs (put h slip store) w (put-AreFresh h slip hs store apart f)))
        _ _ (executed r (store h).completed (store h).next_work_items w new_slip fits)
