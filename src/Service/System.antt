-- ===== src/Service/System.antt =====
-- The threads of src/service.rs and their interleavings.
--
-- A thread is the list of what it is still to do. A step is a call of `start` or `stop` by some
-- thread of the program (its critical section, with the rest of the call as a new thread), one piece
-- of one thread, one round of the dispatcher, or the poisoning of the mutex by a panic elsewhere.
use mathlib.Core.Option
use bare_arti.Base.{ℕ, Bool, true, Option, some, List, [], ◌∷◌, ◌++◌, map, ◌≡◌, String}
use bare_arti.Service.Types.{ServiceOptions, ServiceError, ServiceEvent, WorkerResult}
use bare_arti.Service.Owner.{WorkerHandle}
use bare_arti.Service.Dispatch
use bare_arti.Service.Dispatch.{Completion}
use bare_arti.Service.World.{World, Handle, with_dependencies}
use bare_arti.Service.Effects.{Effect, perform}
use bare_arti.Service.Sections
use bare_arti.Service.Sections.{ShutdownObservation}
use bare_arti.Service.Controller
use bare_arti.Service.Controller.{
  SupervisorTask, SpawnOutcome, StartOutcome, StopOutcome, start_locked, stop_locked,
}
use bare_arti.Service.Supervisor.{
  Action, AfterStop, GateOutcome, FactoryOutcome, Next, gate_section, mark_section,
  wait_running_section, wait_stopping_section, after_stop, stop_startup_section,
  supervisor_panicked, spawn_supervisor_section,
}
use bare_arti.Service.Supervisor.Workers.{
  spawn_worker_section, own_worker_section, spawn_reaper_section, reap_section, joined,
  report_section,
}

-- A piece that ends with nothing more to do than its effects.
abbrev pub section : World × List Effect → Next
section r = record { world = r.0; rest = map Action.effect r.1; threads = [] }

-- The pieces, each with what the environment answers.
pub data Runs (w : World) : Action → Next → Type 0 where
  effect : (e : Effect) → Runs w (Action.effect e) (section (perform e w, []))
  spawn_supervisor :
      (task : SupervisorTask) (answer : SpawnOutcome)
      → Runs w (Action.spawn_supervisor task) (spawn_supervisor_section task answer w)
  spawn_worker :
      (task : SupervisorTask) (answer : FactoryOutcome)
      → Runs w (Action.spawn_worker task) (spawn_worker_section task answer w)
  own_worker :
      (task : SupervisorTask) (worker : WorkerHandle)
      → Runs w (Action.own_worker task worker) (own_worker_section task worker w)
  spawn_reaper :
      (task : SupervisorTask) (owner : Handle) (answer : SpawnOutcome)
      → Runs w (Action.spawn_reaper task owner) (spawn_reaper_section task owner answer w)
  wait_gate :
      (task : SupervisorTask) (owner : Handle) (answer : GateOutcome)
      → Runs w (Action.wait_gate task owner) (gate_section task owner answer w)
  become_running :
      (task : SupervisorTask) (owner : Handle) (port : ℕ)
      → Runs w (Action.become_running task owner port) (mark_section task owner port w)
  wait_running :
      (task : SupervisorTask) (owner : Handle) {n : Next}
      → wait_running_section task w ≡ some n
      → Runs w (Action.wait_running task owner) n
  stop_startup :
      (task : SupervisorTask) (reason : ServiceError)
      → Runs w (Action.stop_startup task reason) (stop_startup_section task reason w)
  wait_stopping :
      (lifecycle : Handle) (after : AfterStop) (timed_out : Bool) {n : Next}
      → wait_stopping_section lifecycle after timed_out w ≡ some n
      → Runs w (Action.wait_stopping lifecycle after) n
  observe :
      (result : WorkerResult) (after : AfterStop)
      → Runs w
          (Action.observe result after)
          (record { world = w; rest = after_stop result after w; threads = [] })
  cancel_current :
      (generation : ℕ)
      → Runs w (Action.cancel_current generation) (section (Sections.cancel_current generation w))
  drop_task :
      (task : SupervisorTask)
      → Runs w (Action.drop_task task) (section (Controller.drop_task task w, []))
  finish_creation_failure :
      (generation : ℕ) (error : ServiceError) (terminal : Bool) (quarantine : Option Handle)
      → Runs w
          (Action.finish_creation_failure generation error terminal quarantine)
          (section (Sections.finish_creation_failure generation error terminal quarantine w))
  finish_worker :
      (generation : ℕ) (o : ShutdownObservation)
      → Runs w (Action.finish_worker generation o) (section (Sections.finish_worker generation o w))
  transition_to_stopping :
      (generation : ℕ) (reason : ServiceError)
      → Runs w
          (Action.transition_to_stopping generation reason)
          (section (Sections.transition_to_stopping generation reason w))
  reap :
      (owner lifecycle channel : Handle)
      → Runs w (Action.reap owner lifecycle channel) (reap_section owner lifecycle channel w)
  -- the worker's thread has ended, by a panic if the answer is `none`
  join :
      (worker : WorkerHandle) (lifecycle channel : Handle) (answer : Option WorkerResult)
      → Runs w (Action.join worker lifecycle channel) (record {
        world = w;
        rest = Action.report (joined answer) lifecycle channel ∷ [];
        threads = [];
      })
  report :
      (result : WorkerResult) (lifecycle channel : Handle)
      → Runs w (Action.report result lifecycle channel) (report_section result lifecycle channel w)
  -- the body of the supervisor panics where it waits
  panic_gate :
      (task : SupervisorTask) (owner : Handle)
      → Runs w
          (Action.wait_gate task owner)
          (record { world = w; rest = supervisor_panicked task owner; threads = [] })
  panic_running :
      (task : SupervisorTask) (owner : Handle)
      → Runs w
          (Action.wait_running task owner)
          (record { world = w; rest = supervisor_panicked task owner; threads = [] })

-- What a call of `start` or `stop` does after its effects.
abbrev pub start_rest : Completion → StartOutcome → List Action
start_rest c (StartOutcome.rejected error) = []
start_rest c StartOutcome.joined = []
start_rest c (StartOutcome.already_running event) =
    Action.effect (Effect.queue_completion c event) ∷ []
start_rest c (StartOutcome.launch task) = Action.spawn_supervisor task ∷ []

abbrev pub stop_rest : ℕ → Completion → StopOutcome → List Action
stop_rest generation c (StopOutcome.rejected error) = []
stop_rest generation c StopOutcome.accepted = []
stop_rest generation c StopOutcome.stale =
    Action.effect (Effect.queue_completion c (ServiceEvent.stopped generation)) ∷ []

-- The completions that a call has taken over: those of a call that was not rejected.
abbrev pub start_accepts : Completion → StartOutcome → List Completion
start_accepts c (StartOutcome.rejected error) = []
start_accepts c _ = c ∷ []

abbrev pub stop_accepts : Completion → StopOutcome → List Completion
stop_accepts c (StopOutcome.rejected error) = []
stop_accepts c _ = c ∷ []

-- `accepted` lists the completions of all calls that were not rejected.
pub record System : Type 0 where
  pub world : World
  pub threads : List (List Action)
  pub accepted : List Completion

unfoldable pub call_start : ServiceOptions → Completion → System → System
call_start options c s =
    let (w, effects, outcome) = start_locked options c s.world in
    record {
      world = w;
      threads = (map Action.effect effects ++ start_rest c outcome) ∷ s.threads;
      accepted = start_accepts c outcome ++ s.accepted;
    }

unfoldable pub call_stop : ℕ → Completion → System → System
call_stop generation c s =
    let (w, effects, outcome) = stop_locked generation c s.world in
    record {
      world = w;
      threads = (map Action.effect effects ++ stop_rest generation c outcome) ∷ s.threads;
      accepted = stop_accepts c outcome ++ s.accepted;
    }

unfoldable pub dispatch_round : World → World
unfolding Dispatch.dispatch_round
dispatch_round w = record w { dispatcher = Option.map Dispatch.dispatch_round w.dispatcher }

pub data Step : System → System → Type 0 where
  start : (options : ServiceOptions) (c : Completion) (s : System) → Step s (call_start options c s)
  stop : (generation : ℕ) (c : Completion) (s : System) → Step s (call_stop generation c s)
  run :
      (w : World) (before after : List (List Action)) (a : Action) (rest : List Action)
      (accepted : List Completion) {n : Next}
      → Runs w a n
      → Step
          (record { world = w; threads = before ++ (a ∷ rest) ∷ after; accepted = accepted })
          (record {
            world = n.world;
            threads = before ++ (n.rest ++ rest) ∷ (n.threads ++ after);
            accepted = accepted;
          })
  dispatch : (s : System) → Step s (record s { world = dispatch_round s.world })
  poison : (s : System) → Step s (record s { world = record s.world { poisoned = true } })

abbrev pub new_system : ℕ → Option String → System
new_system timeout failure = record {
  world = with_dependencies timeout failure;
  threads = [];
  accepted = [];
}

-- The states that a controller made by `with_dependencies` can come to.
pub data Reach (timeout : ℕ) (failure : Option String) : System → Type 0 where
  here : Reach timeout failure (new_system timeout failure)
  next : {s t : System} → Reach timeout failure s → Step s t → Reach timeout failure t
