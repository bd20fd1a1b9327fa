-- ===== src/Service/World.antt =====
-- The shared state of src/service.rs: `Shared`, the state machine behind its mutex, and the objects
-- behind the `Arc`s, each a store read and written at handles.
use bare_arti.Base.{ℕ, Bool, true, false, Option, none, some, List, String, update, if◌then◌else◌}
use bare_arti.Service.Types.{
  ServiceOptions, ServiceEvent, ServiceError, Result, ok, err, shutdown_error,
}
use bare_arti.Service.Lifecycle
use bare_arti.Service.Lifecycle.{LifecycleState}
use bare_arti.Service.Owner.{WorkerSlot}
use bare_arti.Service.Dispatch
use bare_arti.Service.Dispatch.{Completion, CompletionDispatcher, CompletionItem}

-- A handle names an object of one of the stores below.
abbrev pub Handle : Type 0
Handle = ℕ

pub record Active : Type 0 where
  pub options : ServiceOptions
  pub cancel : Handle
  pub lifecycle : Handle
  pub startup_waker : Handle
  pub start_completions : List Completion

pub record Running : Type 0 where
  pub options : ServiceOptions
  pub cancel : Handle
  pub lifecycle : Handle
  pub port : ℕ

pub record Stopping : Type 0 where
  pub generation : ℕ
  pub was_running : Bool
  pub cancel : Handle
  pub lifecycle : Handle
  pub start_completions : List Completion
  pub stop_completions : List Completion
  pub reason : ServiceError

-- `quarantine` is the handle of a `WorkerOwner`.
pub record FailedState : Type 0 where
  pub error : ServiceError
  pub quarantine : Option Handle

pub data State : Type 0 where
  stopped : State
  starting : Active → State
  running : Running → State
  stopping : Stopping → State
  failed : FailedState → State

pub record Inner : Type 0 where
  pub state : State
  pub last_generation : ℕ

-- `CancelSender`: is the sender still in its slot, and has the receiver been told.
pub record CancelSender : Type 0 where
  pub held : Bool
  pub sent : Bool

-- The `sync_channel(1)` of a start: its buffer, and whether the receiver lives.
pub record ReadyChannel : Type 0 where
  pub buffer : Option (Result ℕ)
  pub receiving : Bool

pub record World : Type 0 where
  pub inner : Inner
  pub poisoned : Bool
  pub next : Handle
  pub cancels : Handle → CancelSender
  pub lifecycles : Handle → LifecycleState
  pub channels : Handle → ReadyChannel
  pub owners : Handle → WorkerSlot
  pub shutdown_timeout : ℕ
  pub dispatcher : Option CompletionDispatcher

abbrev pub with_state : State → World → World
with_state s w = record w {
  inner = record { state = s; last_generation = w.inner.last_generation };
}

initial_state : Result CompletionDispatcher → State
initial_state (ok d) = State.stopped
initial_state (err e) = State.failed (record { error = e; quarantine = none })

available : Result CompletionDispatcher → Option CompletionDispatcher
available (ok d) = some d
available (err e) = none

-- `with_dependencies`; `failure` is the system's refusal of the dispatcher's thread.
unfoldable pub with_dependencies : (shutdown_timeout : ℕ) → (failure : Option String) → World
unfolding initial_state available Dispatch.new Lifecycle.new
with_dependencies timeout failure = record {
  inner = record { state = initial_state (Dispatch.new failure); last_generation = 0 };
  poisoned = false;
  next = 0;
  cancels = λ h. record { held = false; sent = false };
  lifecycles = λ h. Lifecycle.new;
  channels = λ h. record { buffer = none; receiving = false };
  owners = λ h. none;
  shutdown_timeout = timeout;
  dispatcher = available (Dispatch.new failure);
}

-- `cancel_once`: the first call takes the sender and tells the receiver, later ones find nothing.
fire : CancelSender → CancelSender
fire c = if c.held then record { held = false; sent = true } else c

unfoldable pub cancel_once : Handle → World → World
unfolding fire
cancel_once h w = record w { cancels = update w.cancels h (fire (w.cancels h)) }

unfoldable pub request_stop : Handle → World → World
unfolding Lifecycle.request_stop
request_stop h w = record w {
  lifecycles = update w.lifecycles h (Lifecycle.request_stop (w.lifecycles h));
}

-- `try_send` on a channel of capacity one: nothing happens if it is full or has no receiver.
offer : Option (Result ℕ) → Bool → Result ℕ → ReadyChannel → ReadyChannel
offer none true r c = record c { buffer = some r }
offer _ _ r c = c

unfoldable pub try_send : Handle → Result ℕ → World → World
unfolding offer
try_send h r w =
    let c = w.channels h in
    record w { channels = update w.channels h (offer c.buffer c.receiving r c) }

-- `Sender::send` of the dispatcher, with its error mapped.
sent_result : Option CompletionItem → Result (Unit {0})
sent_result none = ok tt
sent_result (some item) = err (shutdown_error "completion dispatcher has stopped")

unfoldable pub queue_on :
    Option CompletionDispatcher → Completion → ServiceEvent → World → World × Result (Unit {0})
unfolding Dispatch.send sent_result
queue_on none completion event w = (w, err (shutdown_error "completion dispatcher is unavailable"))
queue_on (some d) completion event w =
    let (d', back) = Dispatch.send completion event d in
    (record w { dispatcher = some d' }, sent_result back)

unfoldable pub queue_completion : Completion → ServiceEvent → World → World × Result (Unit {0})
unfolding queue_on
queue_completion completion event w = queue_on w.dispatcher completion event w
