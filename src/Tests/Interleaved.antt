-- ===== src/Tests/Interleaved.antt =====
-- The theorems on the threads of src/service.rs, at short runs.
use bare_arti.Tests.{options_one, fresh}
use bare_arti.Service.Stops.{IsTold, stop_of_active}
use bare_arti.Service.Completions.Count.{pending, failure, called}
use bare_arti.Service.Diagram.Edges.{Phase, phase}
use bare_arti.Service.Types.{ok, ServiceError, ServiceEvent, err, shutdown_error}
use bare_arti.Service.Controller.{stop, stop_locked, u64_max, start_locked, SpawnOutcome, start}
use bare_arti.Base.{◌≡◌, ◌<◌, ◌≤◌, ◌≢◌, refl, none, some, [], ◌∷◌, count, ◌+◌, true}
use bare_arti.Service.Dispatch
use bare_arti.Service.World.{with_dependencies, World}
use bare_arti.Service.Effects.{Effect, perform}
use bare_arti.Service.Supervisor.{Action}
use bare_arti.Service.System.{
  System, Step, Reach, Runs, new_system, call_start, call_stop, dispatch_round,
}
use bare_arti.Service.Requests.{IsDispatching}
use bare_arti.Service.Starts.{Joins, start-Joins}
use bare_arti.Service.Recovery.{Refuses, poisoned_call_recovers}
use bare_arti.Service.Progress.Bound.{WorkRun, measure, work_bounded}
use bare_arti.Service.Terminal.{Steps, failed_forever, failed_refuses}
use bare_arti.Service.Diagram.Refines.{step_refines_diagram}
use bare_arti.Service.Diagram.Pieces.{Move, view}
use bare_arti.Service.Diagram.Generations.{active_is_last, generation_never_returns}
use bare_arti.Service.Completions.Reachable.{
  completions_conserved, called_at_most_once, settled_all_called,
}
use bare_arti.Service.Completions.Accounts.{places}

-- A stop of generation 0, from the call to the callback.
abbrev asked : System
asked = call_stop 0 7 fresh

abbrev queued_up : System
queued_up = record {
  world = perform (Effect.queue_completion 7 (ServiceEvent.stopped 0)) fresh.world;
  threads = [] ∷ [];
  accepted = 7 ∷ [];
}

abbrev answered : System
answered = record queued_up { world = dispatch_round queued_up.world }

asked-Reach : Reach 10 none asked
asked-Reach = Reach.next Reach.here (Step.stop 0 7 fresh)

answered-Reach : Reach 10 none answered
unfolding call_stop with_dependencies stop_locked
answered-Reach =
    Reach.next
      (Reach.next asked-Reach (
        Step.run fresh.world [] []
          (Action.effect (Effect.queue_completion 7 (ServiceEvent.stopped 0))) [] (7 ∷ [])
          (Runs.effect _)))
      (Step.dispatch queued_up)

completions_conserved_example : count 7 answered.accepted ≡ places 7 answered.world answered.threads
completions_conserved_example = completions_conserved answered-Reach 7

called_at_most_once_example : count 7 (called answered.world.dispatcher) ≤ 1
called_at_most_once_example = called_at_most_once answered-Reach 7 refl

settled_all_called_example : count 7 answered.accepted ≡ count 7 (called answered.world.dispatcher)
unfolding perform dispatch_round with_dependencies
settled_all_called_example = settled_all_called answered-Reach tt refl refl 7

-- A start of generation 1.
abbrev begun : System
begun = call_start options_one 8 fresh

begun-Steps : Steps fresh begun
begun-Steps = Steps.then Steps.here (Step.start options_one 8 fresh)

step_refines_diagram_example : Move (view fresh.world) (view begun.world)
step_refines_diagram_example = step_refines_diagram (Step.start options_one 8 fresh)

active_is_last_example : (1 ≡ begun.world.inner.last_generation) × (0 < 1) × (1 ≢ u64_max)
unfolding call_start start_locked with_dependencies
active_is_last_example =
    active_is_last {timeout = 10} {failure = none}
      (Reach.next Reach.here (Step.start options_one 8 fresh)) 1 refl

generation_never_returns_example : fresh.world.inner.last_generation < 1
unfolding call_start start_locked with_dependencies
generation_never_returns_example = generation_never_returns begun-Steps refl 1 refl

-- A service without a dispatcher.
abbrev broken_error : ServiceError
broken_error = shutdown_error "could not create completion dispatcher: no thread"

abbrev dead : System
dead = new_system 10 (some "no thread")

abbrev tried : System
tried = call_start options_one 8 dead

tried-Steps : Steps dead tried
tried-Steps = Steps.then Steps.here (Step.start options_one 8 dead)

failed_forever_example : failure tried.world.inner.state ≡ some broken_error
unfolding with_dependencies Dispatch.new shutdown_error
failed_forever_example = failed_forever tried-Steps refl

failed_refuses_example :
    (start SpawnOutcome.spawned options_one 9 tried.world ≡ (tried.world, err broken_error, none))
    × (stop 1 9 tried.world ≡ (tried.world, err broken_error))
unfolding call_start start_locked with_dependencies Dispatch.new shutdown_error
failed_refuses_example = failed_refuses tried-Steps refl refl SpawnOutcome.spawned options_one 1 9

stop_of_active_example :
    let r = stop 1 9 begun.world in
    (r.1 ≡ ok tt)
    × (phase r.0.inner.state ≡ Phase.stopping 1)
    × (pending r.0.inner.state ≡ 8 ∷ 9 ∷ [])
    × IsTold begun.world.inner.state r.0
unfolding call_start start_locked with_dependencies
stop_of_active_example = stop_of_active 1 9 begun.world refl refl

-- The thread of a stop sends its completion, and the dispatcher takes it.
asked_run : WorkRun 1 asked answered
unfolding call_stop with_dependencies stop_locked
asked_run =
    WorkRun.run fresh.world [] []
      (Action.effect (Effect.queue_completion 7 (ServiceEvent.stopped 0))) [] (7 ∷ [])
      (Runs.effect _) (WorkRun.dispatch WorkRun.here)

work_bounded_example :
    1 + measure answered.world answered.threads ≤ measure asked.world asked.threads
work_bounded_example = work_bounded asked_run

begun-IsDispatching : IsDispatching begun.world
unfolding call_start start_locked with_dependencies Dispatch.new
begun-IsDispatching = record {
  dispatcher = record { sent = []; called = []; receiving = true };
  here = refl;
  receives = refl;
}

start-Joins_example :
    Joins options_one options_one 9 begun.world
      (start SpawnOutcome.spawned options_one 9 begun.world)
unfolding call_start start_locked with_dependencies
start-Joins_example =
    start-Joins SpawnOutcome.spawned options_one 9 begun.world {mine = options_one} refl refl
      begun-IsDispatching

-- A generation that is starting when a panic poisons the mutex.
abbrev poisoned : World
poisoned = record begun.world { poisoned = true }

poisoned-IsDispatching : IsDispatching poisoned
unfolding call_start start_locked with_dependencies Dispatch.new
poisoned-IsDispatching = record {
  dispatcher = record { sent = []; called = []; receiving = true };
  here = refl;
  receives = refl;
}

poisoned_call_recovers_example : Refuses SpawnOutcome.spawned options_one 1 9 poisoned
poisoned_call_recovers_example =
    poisoned_call_recovers SpawnOutcome.spawned options_one 1 9 poisoned refl poisoned-IsDispatching
