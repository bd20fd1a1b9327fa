-- ===== src/Service/Supervisor.antt =====
-- `run_supervisor`, `supervise` and the reaper of src/service.rs, cut at the points where they block
-- or take a mutex: each function below is one such piece, and returns the world, what the thread
-- does next, and the threads that it has started.
--
-- What the environment decides (the factory, the reaper's spawner, the startup gate, the end of the
-- worker's thread, the expiry of a wait) is an argument of the piece that asks for it.
mod Actions
pub mod Workers
unfoldable pub use Actions.*
use mathlib.Core.Option
use bare_arti.Base.{
  ℕ, ◌+◌, Bool, true, false, Option, none, some, List, [], ◌∷◌, ◌++◌, map, ◌==◌, if◌then◌else◌,
  update, String, ◌⋯◌,
}
use bare_arti.Service.Types.{
  ServiceOptions, ServiceError, ServiceEvent, WorkerResult, Result, ok, err, shutdown_error,
}
use bare_arti.Service.Lifecycle
use bare_arti.Service.Lifecycle.{LifecycleState, RunningOutcome}
use bare_arti.Service.Owner
use bare_arti.Service.Owner.{WorkerHandle}
use bare_arti.Service.Dispatch.{Completion}
use bare_arti.Service.World.{World, Handle}
use bare_arti.Service.Effects.{Effect, queue_all}
use bare_arti.Service.Sections
use bare_arti.Service.Sections.{ShutdownObservation}
use bare_arti.Service.Controller.{SupervisorTask, SpawnOutcome}
use bare_arti.Service.Controller
use bare_arti.Service.Supervisor.Workers.{bootstrap_error}

-- The `match` of `supervise` on the gate's outcome.
unfoldable pub after_gate : SupervisorTask → Handle → GateOutcome → List Action
after_gate task owner GateOutcome.panicked =
    stop_startup task (shutdown_error "Arti startup gate panicked") ∷ []
after_gate task owner (GateOutcome.waited (StartupOutcome.ready (ok port))) =
    if port == 0
    then stop_startup task
        (record { code = "ERR_ARTI_BIND"; message = "worker returned an invalid SOCKS port" })
      ∷ []
    else become_running task owner port ∷ []
after_gate task owner (GateOutcome.waited (StartupOutcome.ready (err error))) =
    stop_startup task error ∷ []
after_gate task owner (GateOutcome.waited StartupOutcome.timeout) =
    stop_startup task (record { code = "ERR_ARTI_TIMEOUT"; message = "Arti bootstrap timed out" })
    ∷ []
after_gate task owner (GateOutcome.waited StartupOutcome.worker_exited) =
    stop_startup task (bootstrap_error "Arti worker exited before readiness") ∷ []

-- `shared.gate.wait(ready, options.timeout)` takes the receiver, which is gone when it returns.
unfoldable pub gate_section : SupervisorTask → Handle → GateOutcome → World → Next
unfolding Controller.drop_task after_gate
gate_section task owner outcome w = record {
  world = Controller.drop_task task w;
  rest = after_gate task owner outcome;
  threads = [];
}

-- The start's completions are answered and the worker awaited, or the worker is told to stop.
unfoldable pub after_mark : SupervisorTask → Handle → ℕ → Option (List Completion) → List Action
after_mark task owner port (some completions) =
    map effect (queue_all completions (ServiceEvent.running task.options.generation port))
    ++ wait_running task owner ∷ []
after_mark task owner port none =
    effect (Effect.cancel_once task.cancel)
    ∷ effect (Effect.request_stop task.lifecycle)
    ∷ wait_stopping task.lifecycle (finish task.options.generation none)
    ∷ []

unfoldable pub mark_next :
    SupervisorTask → Handle → ℕ → World × List Effect × Option (List Completion) → Next
unfolding after_mark
mark_next task owner port (w, effects, completions) = record {
  world = w;
  rest = map effect effects ++ after_mark task owner port completions;
  threads = [];
}

unfoldable pub mark_section : SupervisorTask → Handle → ℕ → World → Next
unfolding mark_next Sections.mark_running
mark_section task owner port w =
    mark_next task owner port (Sections.mark_running task.options port w)

-- `lifecycle.wait_running()`: nothing to do but wait while this is `none`.
unfoldable pub running_next : SupervisorTask → World → LifecycleState × RunningOutcome → Next
running_next task w (state, RunningOutcome.exited result) = record {
  world = record w { lifecycles = update w.lifecycles task.lifecycle state };
  rest = observe result (finish task.options.generation none) ∷ [];
  threads = [];
}
running_next task w (state, RunningOutcome.stop_requested) = record {
  world = record w { lifecycles = update w.lifecycles task.lifecycle state };
  rest = wait_stopping task.lifecycle (finish task.options.generation none) ∷ [];
  threads = [];
}

unfoldable pub wait_running_section : SupervisorTask → World → Option Next
unfolding running_next Lifecycle.wait_running
wait_running_section task w =
    Option.map (running_next task w) (Lifecycle.wait_running (w.lifecycles task.lifecycle))

-- `lifecycle.wait_stopping(shared.shutdown_timeout)`.
unfoldable pub wait_stopping_section : Handle → AfterStop → Bool → World → Option Next
unfolding Lifecycle.wait_stopping
wait_stopping_section lifecycle after timed_out w =
    Option.map
      (λ found. record {
        world = record w { lifecycles = update w.lifecycles lifecycle found.0 };
        rest = observe found.1 after ∷ [];
        threads = [];
      })
      (Lifecycle.wait_stopping w.shutdown_timeout timed_out (w.lifecycles lifecycle))

-- `owner.filter(WorkerOwner::has_worker)`.
filter_owner : World → Option Handle → Option Handle
unfolding Owner.has_worker
filter_owner w none = none
filter_owner w (some owner) = if Owner.has_worker (w.owners owner) then some owner else none

unfoldable pub after_stop : WorkerResult → AfterStop → World → List Action
unfolding filter_owner
after_stop result (finish generation owner) w =
    finish_worker generation (record { result = result; quarantine = filter_owner w owner }) ∷ []
after_stop result discard w = []

-- The critical section of `stop_after_startup` and what follows it.
unfoldable pub stop_wait : ℕ → Bool → AfterStop
stop_wait generation true = discard
stop_wait generation false = finish generation none

unfoldable pub stop_startup_next : SupervisorTask → World × List Effect × Bool → Next
unfolding stop_wait
stop_startup_next task (w, effects, poisoned) = record {
  world = w;
  rest =
      map effect effects
      ++ wait_stopping task.lifecycle (stop_wait task.options.generation poisoned) ∷ [];
  threads = [];
}

unfoldable pub stop_startup_section : SupervisorTask → ServiceError → World → Next
unfolding stop_startup_next Sections.stop_after_startup
stop_startup_section task reason w =
    stop_startup_next task
      (Sections.stop_after_startup task.options.generation task.cancel task.lifecycle reason w)

-- What `run_supervisor` does when its body has panicked with `owner` in the recovery slot.
unfoldable pub supervisor_panicked : SupervisorTask → Handle → List Action
supervisor_panicked task owner =
    effect (Effect.cancel_once task.cancel)
    ∷ effect (Effect.request_stop task.lifecycle)
    ∷ transition_to_stopping task.options.generation (shutdown_error "Arti supervisor panicked")
    ∷ wait_stopping task.lifecycle (finish task.options.generation (some owner))
    ∷ []

-- The spawner of supervisors is called by `start`; the task it refuses is cancelled and dropped.
unfoldable pub spawn_supervisor_section : SupervisorTask → SpawnOutcome → World → Next
unfolding Controller.drop_task
spawn_supervisor_section task SpawnOutcome.spawned w = record {
  world = w;
  rest = [];
  threads = (spawn_worker task ∷ []) ∷ [];
}
spawn_supervisor_section task (SpawnOutcome.refused error) w = record {
  world = w;
  rest =
      cancel_current task.options.generation
      ∷ drop_task task
      ∷ finish_creation_failure task.options.generation error true none
      ∷ [];
  threads = [];
}
spawn_supervisor_section task SpawnOutcome.panicked w = record {
  world = Controller.drop_task task w;
  rest =
      cancel_current task.options.generation
      ∷ finish_creation_failure task.options.generation Controller.spawner_panic true none
      ∷ [];
  threads = [];
}
