-- ===== src/Tests/Reaping.antt =====
-- The theorems on the workers' owners, at the start of a worker.
use bare_arti.Tests.{options_one, fresh}
use bare_arti.Base.{◌≡◌, refl, arith, none, some, List, [], ◌∷◌, ◌++◌}
use bare_arti.Service.Owner.{WorkerHandle}
use bare_arti.Service.World.{with_dependencies}
use bare_arti.Service.Controller.{SupervisorTask, SpawnOutcome, start_locked}
use bare_arti.Service.Supervisor.{Action, FactoryOutcome, Next, spawn_supervisor_section}
use bare_arti.Service.Supervisor.Workers
use bare_arti.Service.Supervisor.Workers.{
  spawn_worker_section, own_worker_section, spawn_reaper_section, reap_section, reap_taken,
}
use bare_arti.Service.System.{System, Step, Reach, Runs, call_start}
use bare_arti.Service.Terminal.{Steps}
use bare_arti.Service.Reaping.Takes.{takes_threads}
use bare_arti.Service.Reaping.Reachable.{reaper_finds_worker, taken_stays_taken}

abbrev task : SupervisorTask
task = record { options = options_one; cancel = 0; lifecycle = 1; ready = 2 }

-- The state after a piece of the last thread.
abbrev after_piece : List (List Action) → Next → System → System
after_piece before n s = record {
  world = n.world;
  threads = before ++ (n.rest ++ []) ∷ (n.threads ++ []);
  accepted = s.accepted;
}

abbrev begun : System
begun = call_start options_one 1 fresh

abbrev supervised : System
supervised = after_piece [] (spawn_supervisor_section task SpawnOutcome.spawned begun.world) begun

abbrev spawned : System
spawned =
    after_piece ([] ∷ []) (spawn_worker_section task (FactoryOutcome.spawned 7) supervised.world)
      supervised

abbrev owned : System
owned = after_piece ([] ∷ []) (own_worker_section task 7 spawned.world) spawned

abbrev ready_to_reap : System
ready_to_reap =
    after_piece ([] ∷ []) (spawn_reaper_section task 3 SpawnOutcome.spawned owned.world) owned

abbrev others : List (List Action)
others = [] ∷ (Action.wait_gate task 3 ∷ []) ∷ []

abbrev reaped : System
reaped = after_piece others (reap_section 3 1 2 ready_to_reap.world) ready_to_reap

ready_to_reap-Reach : Reach 10 none ready_to_reap
unfolding call_start start_locked with_dependencies spawn_supervisor_section spawn_worker_section
    own_worker_section
ready_to_reap-Reach =
    Reach.next
      (Reach.next
        (Reach.next
          (Reach.next (Reach.next Reach.here (Step.start options_one 1 fresh)) (
            Step.run begun.world [] [] (Action.spawn_supervisor task) [] (1 ∷ [])
              (Runs.spawn_supervisor task SpawnOutcome.spawned)))
          (Step.run supervised.world ([] ∷ []) [] (Action.spawn_worker task) [] (1 ∷ [])
            (Runs.spawn_worker task (FactoryOutcome.spawned 7))))
        (Step.run spawned.world ([] ∷ []) [] (Action.own_worker task 7) [] (1 ∷ [])
          (Runs.own_worker task 7)))
      (Step.run owned.world ([] ∷ []) [] (Action.spawn_reaper task 3) [] (1 ∷ [])
        (Runs.spawn_reaper task 3 SpawnOutcome.spawned))

reaper_finds_worker_example :
    ((worker : WorkerHandle) × (ready_to_reap.world.owners 3 ≡ some worker)
      × ((reap_section 3 1 2 ready_to_reap.world).rest ≡ Action.join worker 1 2 ∷ []))
    × (takes_threads 3 (others ++ [] ∷ []) ≡ 0)
unfolding call_start start_locked with_dependencies spawn_supervisor_section spawn_worker_section
    own_worker_section spawn_reaper_section
reaper_finds_worker_example = reaper_finds_worker ready_to_reap-Reach others [] 3 1 2 [] refl

-- The worker is taken, and its thread has panicked.
abbrev joined : System
joined =
    after_piece others
      (record {
        world = reaped.world;
        rest = Action.report (Workers.joined none) 1 2 ∷ [];
        threads = [];
      })
      reaped

reaped-Reach : Reach 10 none reaped
unfolding call_start start_locked with_dependencies spawn_supervisor_section spawn_worker_section
    own_worker_section spawn_reaper_section
reaped-Reach =
    Reach.next ready_to_reap-Reach
      (Step.run ready_to_reap.world others [] (Action.reap 3 1 2) [] (1 ∷ []) (Runs.reap 3 1 2))

joined-Steps : Steps reaped joined
unfolding call_start start_locked with_dependencies spawn_supervisor_section spawn_worker_section
    own_worker_section spawn_reaper_section reap_section reap_taken
joined-Steps =
    Steps.then Steps.here
      (Step.run reaped.world others [] (Action.join 7 1 2) [] (1 ∷ []) (Runs.join 7 1 2 none))

taken_stays_taken_example : (joined.world.owners 3 ≡ none) × (takes_threads 3 joined.threads ≡ 0)
unfolding call_start start_locked with_dependencies spawn_supervisor_section spawn_worker_section
    own_worker_section spawn_reaper_section reap_section reap_taken
taken_stays_taken_example = taken_stays_taken reaped-Reach joined-Steps 3 (omega arith) refl
