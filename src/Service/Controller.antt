-- ===== src/Service/Controller.antt =====
-- `ServiceController::start` and `stop` of src/service.rs.
--
-- `start_locked` and `stop_locked` are the blocks that hold the mutex, with what the function does
-- next as an outcome. `start` and `stop` are the whole functions, with no other thread in between;
-- `System.antt` has the same steps interleaved. What the spawner of supervisors does is an argument.
use bare_arti.Base.{
  ℕ, ◌+◌, ◌-◌, ◌^◌, Bool, true, false, ◌||◌, Option, none, some, List, [], ◌∷◌, ◌++◌, ◌==◌, ltb,
  leb, if◌then◌else◌, update,
}
use bare_arti.Service.Types.{
  ServiceOptions, ServiceError, ServiceEvent, Result, ok, err, options_eq, conflict_error,
  cancelled_error, generation_error, shutdown_error,
}
use bare_arti.Service.Lifecycle
use bare_arti.Service.Dispatch.{Completion}
use bare_arti.Service.World
use bare_arti.Service.World.{
  World, Handle, Active, State, Inner, stopped, starting, running, stopping, failed, with_state,
}
use bare_arti.Service.Effects.{Effect, cancel_once, request_stop, wake, perform_all, settle}
use bare_arti.Service.Lock.{locked, poison_error}
use bare_arti.Service.Sections.{cancel_current, finish_creation_failure}

abbrev pub u64_max : ℕ
u64_max = 2 ^ 64 - 1

-- What the closure given to the supervisor's thread owns: `cancel` is also the receiver's object,
-- `ready` the channel with its receiver.
pub record SupervisorTask : Type 0 where
  pub options : ServiceOptions
  pub cancel : Handle
  pub lifecycle : Handle
  pub ready : Handle

-- A call of a spawner returns, hands the task back with an error, or panics.
pub data SpawnOutcome : Type 0 where
  spawned : SpawnOutcome
  refused : ServiceError → SpawnOutcome
  panicked : SpawnOutcome

pub data StartOutcome : Type 0 where
  rejected : ServiceError → StartOutcome
  joined : StartOutcome
  already_running : ServiceEvent → StartOutcome
  launch : SupervisorTask → StartOutcome

-- The objects of a new start, each at a handle that was never used.
unfoldable pub allocate : World → World
unfolding Lifecycle.new
allocate w = record w {
  next = w.next + 3;
  cancels = update w.cancels w.next (record { held = true; sent = false });
  lifecycles = update w.lifecycles (w.next + 1) Lifecycle.new;
  channels = update w.channels (w.next + 2) (record { buffer = none; receiving = true });
}

unfoldable pub bad_generation : (last requested : ℕ) → Bool
bad_generation last requested = requested == 0 || (requested == u64_max || leb requested last)

unfoldable pub start_stopped :
    ServiceOptions → Completion → World → World × List Effect × StartOutcome
unfolding allocate bad_generation
start_stopped options completion w =
    if bad_generation w.inner.last_generation options.generation
    then (w, [], rejected (generation_error w.inner.last_generation options.generation))
    else (
      record (allocate w) {
        inner = record {
          state = starting (record {
            options = options;
            cancel = w.next;
            lifecycle = w.next + 1;
            startup_waker = w.next + 2;
            start_completions = completion ∷ [];
          });
          last_generation = options.generation;
        };
      },
      [],
      launch (record {
        options = options;
        cancel = w.next;
        lifecycle = w.next + 1;
        ready = w.next + 2;
      }),
    )

unfoldable pub start_match :
    State → ServiceOptions → Completion → World → World × List Effect × StartOutcome
unfolding start_stopped
start_match (failed f) options completion w = (w, [], rejected f.error)
start_match (stopping s) options completion w = (w, [], rejected cancelled_error)
start_match (starting a) options completion w =
    if options_eq a.options options
    then (
      with_state
          (starting (record a { start_completions = a.start_completions ++ completion ∷ [] })) w,
      [],
      joined,
    )
    else (w, [], rejected conflict_error)
start_match (running r) options completion w =
    if options_eq r.options options
    then (w, [], already_running (ServiceEvent.running options.generation r.port))
    else (w, [], rejected conflict_error)
start_match stopped options completion w = start_stopped options completion w

unfoldable pub start_locked :
    ServiceOptions → Completion → World → World × List Effect × StartOutcome
unfolding start_match locked
start_locked options completion w =
    locked w (rejected poison_error) (λ v. start_match v.inner.state options completion v)

-- `drop(failure.task)` drops the receiver of the ready channel.
unfoldable pub drop_task : SupervisorTask → World → World
drop_task task w = record w {
  channels = update w.channels task.ready (record (w.channels task.ready) { receiving = false });
}

unfoldable pub spawner_panic : ServiceError
spawner_panic = shutdown_error "supervisor spawner panicked"

-- The call of the spawner and its `match`; a supervisor's task is left to run, or none.
unfoldable pub spawn_supervisor :
    SpawnOutcome → SupervisorTask → World → World × Option SupervisorTask
unfolding drop_task cancel_current finish_creation_failure settle
spawn_supervisor spawned task w = (w, some task)
spawn_supervisor (refused error) task w = (
  settle (
      finish_creation_failure task.options.generation error true none
        (drop_task task (settle (cancel_current task.options.generation w)))),
  none,
)
spawn_supervisor panicked task w = (
  settle (
      finish_creation_failure task.options.generation spawner_panic true none
        (settle (cancel_current task.options.generation (drop_task task w)))),
  none,
)

unfoldable pub finish_start :
    Completion
    → SpawnOutcome
    → StartOutcome
    → World
    → World × Result (Unit {0}) × Option SupervisorTask
unfolding spawn_supervisor World.queue_completion
finish_start completion outcome (rejected error) w = (w, err error, none)
finish_start completion outcome joined w = (w, ok tt, none)
finish_start completion outcome (already_running event) w =
    let (w', result) = World.queue_completion completion event w in (w', result, none)
finish_start completion outcome (launch task) w =
    let (w', left) = spawn_supervisor outcome task w in (w', ok tt, left)

unfoldable pub start :
    SpawnOutcome
    → ServiceOptions
    → Completion
    → World
    → World × Result (Unit {0}) × Option SupervisorTask
unfolding finish_start start_locked perform_all
start outcome options completion w =
    let (w', effects, next) = start_locked options completion w in
    finish_start completion outcome next (perform_all effects w')

pub data StopOutcome : Type 0 where
  rejected : ServiceError → StopOutcome
  accepted : StopOutcome
  stale : StopOutcome

-- `generation` is below, above, or that of the active start.
abbrev pub stop_compare :
    (generation active : ℕ)
    → World
    → World × List Effect × StopOutcome
    → World × List Effect × StopOutcome
stop_compare generation active w same =
    if ltb generation active
    then (w, [], stale)
    else if ltb active generation
    then (w, [], rejected (generation_error w.inner.last_generation generation))
    else same

unfoldable pub stop_match : State → ℕ → Completion → World → World × List Effect × StopOutcome
stop_match (failed f) generation completion w = (w, [], rejected f.error)
stop_match stopped generation completion w =
    if ltb w.inner.last_generation generation
    then (w, [], rejected (generation_error w.inner.last_generation generation))
    else (w, [], stale)
stop_match (starting a) generation completion w = stop_compare generation a.options.generation w (
  with_state
      (stopping (record {
        generation = generation;
        was_running = false;
        cancel = a.cancel;
        lifecycle = a.lifecycle;
        start_completions = a.start_completions;
        stop_completions = completion ∷ [];
        reason = cancelled_error;
      }))
      w,
  cancel_once a.cancel ∷ request_stop a.lifecycle ∷ wake a.startup_waker cancelled_error ∷ [],
  accepted,
)
stop_match (running r) generation completion w = stop_compare generation r.options.generation w (
  with_state
      (stopping (record {
        generation = generation;
        was_running = true;
        cancel = r.cancel;
        lifecycle = r.lifecycle;
        start_completions = [];
        stop_completions = completion ∷ [];
        reason = cancelled_error;
      }))
      w,
  cancel_once r.cancel ∷ request_stop r.lifecycle ∷ [],
  accepted,
)
stop_match (stopping s) generation completion w = stop_compare generation s.generation w (
  with_state (stopping (record s { stop_completions = s.stop_completions ++ completion ∷ [] })) w,
  [],
  accepted,
)

unfoldable pub stop_locked : ℕ → Completion → World → World × List Effect × StopOutcome
unfolding stop_match locked
stop_locked generation completion w =
    locked w (rejected poison_error) (λ v. stop_match v.inner.state generation completion v)

unfoldable pub finish_stop : ℕ → Completion → StopOutcome → World → World × Result (Unit {0})
unfolding World.queue_completion
finish_stop generation completion (rejected error) w = (w, err error)
finish_stop generation completion accepted w = (w, ok tt)
finish_stop generation completion stale w =
    World.queue_completion completion (ServiceEvent.stopped generation) w

unfoldable pub stop : ℕ → Completion → World → World × Result (Unit {0})
unfolding finish_stop stop_locked perform_all
stop generation completion w =
    let (w', effects, next) = stop_locked generation completion w in
    finish_stop generation completion next (perform_all effects w')
