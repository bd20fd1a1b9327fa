-- ===== src/Abi/Joint.antt =====
-- The C interface of addon/src/lib.rs together with the threads of src/service.rs: calls, callbacks that
-- the dispatcher makes, and everything in between, one step after the other.
--
-- A call of the interface is one step here, with the critical section of the controller's call: what it
-- still does after that section is a thread of the controller. A `start` that finds its own options
-- running always reaches the dispatcher, which receives as long as the service lives.
pub mod Callbacks
pub mod Outstanding
pub mod Active
pub mod Booked
pub mod Tracks
use Prim.Native.Nat.{ℕ}
use bare_arti.Base.{
  ◌≡◌, Bool, true, false, not, ◌||◌, Option, none, some, List, [], ◌∷◌, ◌++◌, is_none, String, ◌==◌,
  if◌then◌else◌,
}
use bare_arti.Service.Types.{ServiceOptions, ServiceError, ServiceEvent, Result, ok, err}
use bare_arti.Service.Dispatch.{Completion, CompletionItem, CompletionDispatcher}
use bare_arti.Service.Controller.{StartOutcome, StopOutcome, start_locked, stop_locked, u64_max}
use bare_arti.Service.Supervisor.{Action, Next}
use bare_arti.Service.System.{Runs, System, call_start, call_stop, dispatch_round, new_system}
use bare_arti.Service.Told.Items.{Request}
use bare_arti.Abi.{
  RequestState, default_requests, is_active, start_status, stop_status, start_completed,
  stop_completed,
}

pub record Joint : Type 0 where
  pub system : System
  pub requests : RequestState
  -- the mutex of the requests is poisoned
  pub lost : Bool

abbrev pub start_result : StartOutcome → Result (Unit {0})
start_result (StartOutcome.rejected error) = err error
start_result outcome = ok tt

abbrev pub stop_result : StopOutcome → Result (Unit {0})
stop_result (StopOutcome.rejected error) = err error
stop_result outcome = ok tt

-- `start_impl` with options that were copied.
unfoldable pub joint_start : ServiceOptions → Completion → Joint → Joint
unfolding start_status call_start start_locked
joint_start options c j =
    if j.lost then j else if not (is_none j.requests.active_generation) then j else record j {
      system = call_start options c j.system;
      requests =
          (start_status options.generation j.lost
            (record j.requests {
              active_generation = some options.generation;
              start_pending = true;
            })
            (start_result (start_locked options c j.system.world).2)).0;
    }

-- `stop_impl` with a callback.
unfoldable pub joint_stop : ℕ → Completion → Joint → Joint
unfolding stop_status call_stop stop_locked
joint_stop g c j =
    if g == 0 || g == u64_max
    then j
    else if j.lost
    then j
    else if not (is_active j.requests.active_generation g) || j.requests.stop_pending
    then j
    else record j {
      system = call_stop g c j.system;
      requests =
          (stop_status j.lost (record j.requests { stop_pending = true })
            (stop_result (stop_locked g c j.system.world).2)).0;
    }

-- What the closure given with a request does to the requests.
unfoldable pub completed : Request → ServiceEvent → RequestState → RequestState
unfolding start_completed stop_completed
completed (Request.start g) event state = start_completed event state
completed (Request.stop g) event state = stop_completed g state

-- The dispatcher calls the next completion.
unfoldable pub joint_callback : (Completion → Request) → CompletionItem → Joint → Joint
unfolding completed dispatch_round
joint_callback request item j = record j {
  system = record j.system { world = dispatch_round j.system.world };
  requests =
      if j.lost then j.requests else completed (request item.completion) item.event j.requests;
}

abbrev pub next_items : Option CompletionDispatcher → List CompletionItem
next_items none = []
next_items (some d) = d.sent

-- Each completion is known by the request that it was handed over with.
pub data JointStep (request : Completion → Request) : Joint → Joint → Type 0 where
  start :
      (options : ServiceOptions) (c : Completion) (j : Joint)
      → request c ≡ Request.start options.generation
      → JointStep request j (joint_start options c j)
  stop :
      (g : ℕ) (c : Completion) (j : Joint)
      → request c ≡ Request.stop g
      → JointStep request j (joint_stop g c j)
  callback :
      (item : CompletionItem) (items : List CompletionItem) (j : Joint)
      → next_items j.system.world.dispatcher ≡ item ∷ items
      → JointStep request j (joint_callback request item j)
  run :
      (before after : List (List Action)) (a : Action) (rest : List Action) {n : Next} (j : Joint)
      → j.system.threads ≡ before ++ (a ∷ rest) ∷ after
      → Runs j.system.world a n
      → JointStep request j (record j {
        system = record {
          world = n.world;
          threads = before ++ (n.rest ++ rest) ∷ (n.threads ++ after);
          accepted = j.system.accepted;
        };
      })
  -- a panic that holds the controller's lock, or that of the requests
  poison :
      (j : Joint)
      → JointStep request j (record j {
        system = record j.system { world = record j.system.world { poisoned = true } };
      })
  lose : (j : Joint) → JointStep request j (record j { lost = true })

abbrev pub new_joint : ℕ → Option String → Joint
new_joint timeout failure = record {
  system = new_system timeout failure;
  requests = default_requests;
  lost = false;
}

pub data JointReach (request : Completion → Request) (timeout : ℕ) (failure : Option String)
    : Joint → Type 0 where
  here : JointReach request timeout failure (new_joint timeout failure)
  next :
      {j k : Joint}
      → JointReach request timeout failure j
      → JointStep request j k
      → JointReach request timeout failure k
