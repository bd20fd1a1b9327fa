-- ===== src/Service/Supervisor/Workers.antt =====
-- The pieces of src/service.rs that create a worker and its reaper, and the reaper's own: each returns
-- the world, what the thread does next, and the threads that it has started.
use bare_arti.Base.{◌+◌, true, false, Option, none, some, List, [], ◌∷◌, update, String}
use bare_arti.Service.Types.{ServiceError, WorkerResult, ok, err, shutdown_error}
use bare_arti.Service.Lifecycle
use bare_arti.Service.Lifecycle.{LifecycleState, RunningOutcome}
use bare_arti.Service.Owner
use bare_arti.Service.Owner.{WorkerHandle}
use bare_arti.Service.World.{World, Handle}
use bare_arti.Service.Effects.{Effect}
use bare_arti.Service.Supervisor.Actions.{
  FactoryOutcome, Action, Next, own_worker, spawn_reaper, wait_gate, join, effect,
  finish_creation_failure, report, reap,
}
use bare_arti.Service.Controller.{SupervisorTask, SpawnOutcome}

abbrev pub bootstrap_error : String → ServiceError
bootstrap_error text = record { code = "ERR_ARTI_BOOTSTRAP"; message = text }

-- `shared.factory.spawn`.
unfoldable pub spawn_worker_section : SupervisorTask → FactoryOutcome → World → Next
spawn_worker_section task (FactoryOutcome.spawned worker) w = record {
  world = w;
  rest = own_worker task worker ∷ [];
  threads = [];
}
spawn_worker_section task (FactoryOutcome.refused error) w = record {
  world = w;
  rest = finish_creation_failure task.options.generation error false none ∷ [];
  threads = [];
}
spawn_worker_section task FactoryOutcome.panicked w = record {
  world = w;
  rest =
      finish_creation_failure task.options.generation (bootstrap_error "worker factory panicked")
        false none
      ∷ [];
  threads = [];
}

-- `owner.store(worker)` on a new owner, and the branch for its error.
own_result : SupervisorTask → Handle → Option (ServiceError × WorkerHandle) → World → Next
unfolding Owner.store Owner.new
own_result task owner none w = record {
  world = w;
  rest = spawn_reaper task owner ∷ [];
  threads = [];
}
own_result task owner (some (error, worker)) w = record {
  world = record w {
    next = w.next + 1;
    owners = update w.owners w.next (Owner.store worker Owner.new).0;
  };
  rest =
      effect (Effect.cancel_once task.cancel)
      ∷ finish_creation_failure task.options.generation error true (some w.next)
      ∷ [];
  threads = [];
}

unfoldable pub own_worker_section : SupervisorTask → WorkerHandle → World → Next
unfolding own_result
own_worker_section task worker w =
    let (slot, failure) = Owner.store worker Owner.new in
    own_result task w.next failure
      (record w { next = w.next + 1; owners = update w.owners w.next slot })

-- `shared.reaper.spawn(reaper_task)`.
unfoldable pub spawn_reaper_section : SupervisorTask → Handle → SpawnOutcome → World → Next
spawn_reaper_section task owner SpawnOutcome.spawned w = record {
  world = w;
  rest = wait_gate task owner ∷ [];
  threads = (reap owner task.lifecycle task.ready ∷ []) ∷ [];
}
spawn_reaper_section task owner (SpawnOutcome.refused error) w = record {
  world = w;
  rest =
      effect (Effect.cancel_once task.cancel)
      ∷ finish_creation_failure task.options.generation error true (some owner)
      ∷ [];
  threads = [];
}
spawn_reaper_section task owner SpawnOutcome.panicked w = record {
  world = w;
  rest =
      effect (Effect.cancel_once task.cancel)
      ∷ finish_creation_failure task.options.generation
          (shutdown_error "worker reaper spawner panicked") true (some owner)
      ∷ [];
  threads = [];
}

-- The reaper's closure: it takes the worker out of its owner, joins it, and reports its result.
unfoldable pub reap_taken : Option WorkerHandle → Handle → Handle → List Action
reap_taken (some worker) lifecycle channel = join worker lifecycle channel ∷ []
reap_taken none lifecycle channel =
    report (err (shutdown_error "worker owner was empty")) lifecycle channel ∷ []

unfoldable pub reap_section : Handle → Handle → Handle → World → Next
unfolding Owner.take reap_taken
reap_section owner lifecycle channel w =
    let (slot, taken) = Owner.take (w.owners owner) in
    record {
      world = record w { owners = update w.owners owner slot };
      rest = reap_taken taken lifecycle channel;
      threads = [];
    }

-- `worker.join()`: the worker's result, or an error where its thread panicked.
unfoldable pub joined : Option WorkerResult → WorkerResult
joined (some result) = result
joined none = err (shutdown_error "Arti worker thread panicked")

unfoldable pub startup_error : WorkerResult → ServiceError
startup_error (ok u) = bootstrap_error "Arti worker exited before readiness"
startup_error (err error) = error

unfoldable pub report_section : WorkerResult → Handle → Handle → World → Next
unfolding Lifecycle.worker_exited startup_error
report_section result lifecycle channel w = record {
  world = record w {
    lifecycles =
        update w.lifecycles lifecycle (Lifecycle.worker_exited result (w.lifecycles lifecycle));
  };
  rest = effect (Effect.wake channel (startup_error result)) ∷ [];
  threads = [];
}
