-- ===== src/Saga/ActivityHost.antt =====
-- The host that processes the messages of one type of activity
-- (crates/saga/src/activity_host.rs). The sender is the argument `send`.
pub mod Network
pub mod Delivery
mod Examples
use Prim.Native.String.{String}
use ascetic_ddd_rust.Prelude.{Bool, true, false, Option, none, some, if◌then◌else◌}
use ascetic_ddd_rust.Prelude.Result.{Result, ok, err}
use ascetic_ddd_rust.Saga.RoutingSlip.{
  SagaError, RoutingSlip, Activity, Move, is_completed, is_in_progress, process_next, undo_last,
  progress_uri, compensation_uri,
}

-- The trait `MessageSender`: what a message does to the world.
abbrev pub MessageSender : Type 0 → Type 0 → Type 0 → Type 0 → Type 0
MessageSender T A R W = String → RoutingSlip T A R → W → W × Result SagaError (Unit {0})

module _ {T A R W : Type 0} (create : T → Activity T A R W) (send : MessageSender T A R W)
    (same_text : String → String → Bool) where
  -- `if let Some(uri) = uri { self.sender.send(&uri, routing_slip).await?; }`
  abbrev pub forward : Option String → RoutingSlip T A R → W → Move T A R W (Unit {0})
  forward none slip w = (w, slip, ok tt)
  forward (some uri) slip w = let sent = send uri slip w in (sent.0, slip, sent.1)

  -- The address that a forward message is passed on to.
  pub after_work : Move T A R W Bool → Move T A R W (Unit {0})
  after_work (w, slip, ok true) = forward (progress_uri create slip) slip w
  after_work (w, slip, ok false) = forward (compensation_uri create slip) slip w
  after_work (w, slip, err e) = (w, slip, err e)

  pub process_forward_message : RoutingSlip T A R → W → Move T A R W (Unit {0})
  process_forward_message slip w = elim (is_completed slip) [
    | true ↦ (w, slip, ok tt)
    | false ↦ after_work (process_next create slip w)
  ]

  -- The address that a backward message is passed on to.
  pub after_undo : Move T A R W Bool → Move T A R W (Unit {0})
  after_undo (w, slip, ok true) = forward (compensation_uri create slip) slip w
  after_undo (w, slip, ok false) = forward (progress_uri create slip) slip w
  after_undo (w, slip, err e) = (w, slip, err e)

  pub process_backward_message : RoutingSlip T A R → W → Move T A R W (Unit {0})
  process_backward_message slip w = elim (is_in_progress slip) [
    | true ↦ after_undo (undo_last create slip w)
    | false ↦ (w, slip, ok tt)
  ]

  -- `?; return Ok(true)`
  abbrev pub accepted : Move T A R W (Unit {0}) → Move T A R W Bool
  accepted (w, slip, ok _) = (w, slip, ok true)
  accepted (w, slip, err e) = (w, slip, err e)

  -- The host of the type of activities `t`.
  pub accept_message : T → String → RoutingSlip T A R → W → Move T A R W Bool
  accept_message t uri slip w =
      if same_text (create t).compensation_queue_address uri
      then accepted (process_backward_message slip w)
      else if same_text (create t).work_item_queue_address uri
      then accepted (process_forward_message slip w)
      else (w, slip, ok false)
