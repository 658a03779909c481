-- ===== src/Saga/ActivityHost/Network.antt =====
-- A network of hosts (crates/saga/src/activity_host.rs): the message that is under way goes to the
-- host whose address it has, which may put the next one under way.
use Prim.Native.String.{String}
use ascetic_ddd_rust.Prelude.{ℕ, zero, suc, Bool, true, false, Option, none, some, ◌≡◌}
use ascetic_ddd_rust.Prelude.Result.{ok}
use ascetic_ddd_rust.Saga.RoutingSlip.{RoutingSlip, Activity}
use ascetic_ddd_rust.Saga.ActivityHost.{MessageSender, accept_message}

-- The world, and the message that is under way, with its address.
abbrev pub Network : Type 0 → Type 0 → Type 0 → Type 0 → Type 0
Network T A R W = W × Option (String × RoutingSlip T A R)

module _ {T A R W : Type 0} where
  -- An activity of the world, where messages are under way.
  abbrev pub lifted : Activity T A R W → Activity T A R (Network T A R W)
  lifted a = record {
    do_work = λ item n. let (w, outcome) = a.do_work item n.0 in ((w, n.1), outcome);
    compensate = λ log slip n.
        let (w, slip', outcome) = a.compensate log slip n.0 in ((w, n.1), slip', outcome);
    work_item_queue_address = a.work_item_queue_address;
    compensation_queue_address = a.compensation_queue_address;
  }

  abbrev pub post : MessageSender T A R (Network T A R W)
  post uri slip n = ((n.0, some (uri, slip)), ok tt)

-- The world that is left: the expected one, or the one before.
abbrev pub world_or : {W : Type 0} → W → Option W → W
world_or start none = start
world_or start (some end) = end

module _ {T A R W : Type 0} (create : T → Activity T A R W) (same_text : String → String → Bool)
    (route : String → T) where
  -- What is supposed of addresses: a message comes to the host of the type whose address it has, and
  -- the two addresses of a type differ.
  pub record IsRouting : Type 0 where
    pub route_work : (t : T) → route (create t).work_item_queue_address ≡ t
    pub route_undo : (t : T) → route (create t).compensation_queue_address ≡ t
    pub same_work :
        (t : T)
        → same_text (create t).work_item_queue_address (create t).work_item_queue_address ≡ true
    pub same_undo :
        (t : T)
        → same_text (create t).compensation_queue_address (create t).compensation_queue_address
          ≡ true
    pub apart :
        (t : T)
        → same_text (create t).compensation_queue_address (create t).work_item_queue_address ≡ false

  -- The message that is under way is delivered, `n` times over.
  unfoldable pub deliver : ℕ → Network T A R W → Network T A R W
  deliver zero net = net
  deliver (suc n) (w, none) = (w, none)
  deliver (suc n) (w, some (uri, slip)) =
      deliver n
        (accept_message (λ t. lifted (create t)) post same_text (route uri) uri slip (w, none)).0
