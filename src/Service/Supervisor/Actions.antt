-- ===== src/Service/Supervisor/Actions.antt =====
-- What a thread of src/service.rs may be about to do, and what its environment may answer.
use bare_arti.Base.{ℕ, Bool, Option, none, some, List, String, ◌⋯◌}
use bare_arti.Service.Types.{ServiceError, WorkerResult, Result, shutdown_error}
use bare_arti.Service.Owner.{WorkerHandle}
use bare_arti.Service.World.{World, Handle}
use bare_arti.Service.Effects.{Effect}
use bare_arti.Service.Sections.{ShutdownObservation}
use bare_arti.Service.Controller.{SupervisorTask, SpawnOutcome}

pub data StartupOutcome : Type 0 where
  ready : Result ℕ → StartupOutcome
  timeout : StartupOutcome
  worker_exited : StartupOutcome

-- The call of a gate returns an outcome, or panics.
pub data GateOutcome : Type 0 where
  waited : StartupOutcome → GateOutcome
  panicked : GateOutcome

pub data FactoryOutcome : Type 0 where
  spawned : WorkerHandle → FactoryOutcome
  refused : ServiceError → FactoryOutcome
  panicked : FactoryOutcome

-- What follows a `wait_stopping`: `finish_worker` with the owner to be kept if it still has a worker,
-- or nothing.
pub data AfterStop : Type 0 where
  finish : (generation : ℕ) → Option Handle → AfterStop
  discard : AfterStop

pub data Action : Type 0 where
  effect : Effect → Action
  -- the rest of `start` after the block
  spawn_supervisor : SupervisorTask → Action
  -- the supervisor
  spawn_worker : SupervisorTask → Action
  own_worker : SupervisorTask → WorkerHandle → Action
  spawn_reaper : SupervisorTask → Handle → Action
  wait_gate : SupervisorTask → Handle → Action
  become_running : SupervisorTask → Handle → ℕ → Action
  wait_running : SupervisorTask → Handle → Action
  stop_startup : SupervisorTask → ServiceError → Action
  wait_stopping : Handle → AfterStop → Action
  observe : WorkerResult → AfterStop → Action
  -- critical sections
  cancel_current : ℕ → Action
  drop_task : SupervisorTask → Action
  finish_creation_failure : ℕ → ServiceError → Bool → Option Handle → Action
  finish_worker : ℕ → ShutdownObservation → Action
  transition_to_stopping : ℕ → ServiceError → Action
  -- the reaper
  reap : (owner lifecycle channel : Handle) → Action
  join : WorkerHandle → (lifecycle channel : Handle) → Action
  report : WorkerResult → (lifecycle channel : Handle) → Action

-- The world after a piece, what the thread does next, and the threads that it has started.
pub record Next : Type 0 where
  pub world : World
  pub rest : List Action
  pub threads : List (List Action)

-- `recv_timeout` of the production gate.
pub data RecvOutcome : Type 0 where
  received : Result ℕ → RecvOutcome
  timeout disconnected : RecvOutcome

-- `ProductionStartupGate::wait`.
unfoldable pub production_gate : RecvOutcome → StartupOutcome
production_gate (RecvOutcome.received result) = StartupOutcome.ready result
production_gate RecvOutcome.timeout = StartupOutcome.timeout
production_gate RecvOutcome.disconnected = StartupOutcome.worker_exited

-- `ProductionWorkerReaper::spawn`, by the system's refusal of a thread if there is one. The task that
-- its error hands back is the one that was given.
unfoldable pub production_reaper : Option String → SpawnOutcome
production_reaper none = SpawnOutcome.spawned
production_reaper (some error) =
    SpawnOutcome.refused (shutdown_error ("could not create worker reaper: " ⋯ error))

-- `ProductionSupervisorSpawner::spawn`.
unfoldable pub production_spawner : Option String → SpawnOutcome
production_spawner none = SpawnOutcome.spawned
production_spawner (some error) = SpawnOutcome.refused (shutdown_error error)
