-- ===== src/Tests/Joint.antt =====
-- The theorems on the C interface together with the threads, at short runs; and a run in which the
-- interface loses track of the generation that the controller has.
use bare_arti.Tests.{options_one}
use bare_arti.Base.{if◌then◌else◌, ◌==◌, ◌≡◌, refl, false, none, some, List, [], ◌∷◌, ◌++◌}
use bare_arti.Service.Types.{ServiceOptions, ServiceError, ServiceEvent, failed_event}
use bare_arti.Service.Dispatch.{Completion}
use bare_arti.Service.World.{with_dependencies}
use bare_arti.Service.Effects.{Effect, perform, queue_all}
use bare_arti.Service.Controller.{SupervisorTask, SpawnOutcome, start_locked, stop_locked}
use bare_arti.Service.Sections
use bare_arti.Service.Supervisor.{Action, FactoryOutcome, Next, spawn_supervisor_section}
use bare_arti.Service.Supervisor.Workers.{spawn_worker_section}
use bare_arti.Service.System.{Runs, dispatch_round, section}
use bare_arti.Service.Diagram.Pieces.{view}
use bare_arti.Service.Told.Items.{Request, DispatcherTold}
use bare_arti.Abi.{default_requests}
use bare_arti.Abi.Joint.{
  Joint, JointStep, JointReach, joint_start, joint_stop, joint_callback, new_joint, completed,
}
use bare_arti.Abi.Joint.Active.{active_of}
use bare_arti.Abi.Joint.Callbacks.{JointReach-Labelled}
use bare_arti.Service.Told.Reachable.{LabelledReach, told_is_so}
use bare_arti.Abi.Joint.Tracks.{OrderlyReach, requests_track_controller}

-- Completion 2 is of a stop, the others are of starts.
abbrev request : Completion → Request
request c = if c == 1 then Request.start 1 else if c == 2 then Request.stop 1 else Request.start 2

abbrev options_two : ServiceOptions
options_two = record options_one { generation = 2 }

abbrev no_worker : ServiceError
no_worker = record { code = "ERR_ARTI_BOOTSTRAP"; message = "no worker" }

abbrev task : SupervisorTask
task = record { options = options_one; cancel = 0; lifecycle = 1; ready = 2 }

abbrev failure_event : ServiceEvent
failure_event = ServiceEvent.failed 1 "ERR_ARTI_BOOTSTRAP" "no worker"

-- The state after a piece of a thread.
abbrev after_piece : List (List Action) → List (List Action) → List Action → Next → Joint → Joint
after_piece before after rest n j = record j {
  system = record {
    world = n.world;
    threads = before ++ (n.rest ++ rest) ∷ (n.threads ++ after);
    accepted = j.system.accepted;
  };
}

-- Generation 1 starts, and its worker cannot be made.
abbrev begun : Joint
begun = joint_start options_one 1 (new_joint 10 none)

abbrev supervised : Joint
supervised =
    after_piece [] [] [] (spawn_supervisor_section task SpawnOutcome.spawned begun.system.world)
      begun

abbrev refused : Joint
refused =
    after_piece ([] ∷ []) [] []
      (spawn_worker_section task (FactoryOutcome.refused no_worker) supervised.system.world)
      supervised

-- The generation has ended, and its callback is still to be sent.
abbrev ended : Joint
ended =
    after_piece ([] ∷ []) [] []
      (section (Sections.finish_creation_failure 1 no_worker false none refused.system.world))
      refused

begun-JointReach : JointReach request 10 none begun
begun-JointReach =
    JointReach.next JointReach.here (JointStep.start options_one 1 (new_joint 10 none) refl)

ended-JointReach : JointReach request 10 none ended
unfolding joint_start start_locked with_dependencies default_requests spawn_supervisor_section
    spawn_worker_section
ended-JointReach =
    JointReach.next
      (JointReach.next
        (JointReach.next begun-JointReach (
          JointStep.run [] [] (Action.spawn_supervisor task) [] begun refl
            (Runs.spawn_supervisor task SpawnOutcome.spawned)))
        (JointStep.run ([] ∷ []) [] (Action.spawn_worker task) [] supervised refl
          (Runs.spawn_worker task (FactoryOutcome.refused no_worker))))
      (JointStep.run ([] ∷ []) [] (Action.finish_creation_failure 1 no_worker false none) [] refused
        refl (Runs.finish_creation_failure 1 no_worker false none))

-- Before that, a stop is called back at once, and generation 2 is started.
abbrev stopped : Joint
stopped = joint_stop 1 2 ended

abbrev sent : Joint
sent =
    after_piece [] ([] ∷ (Action.effect (Effect.queue_completion 1 failure_event) ∷ []) ∷ []) []
      (section
        (perform (Effect.queue_completion 2 (ServiceEvent.stopped 1)) stopped.system.world, []))
      stopped

abbrev free : Joint
free = joint_callback request (record { completion = 2; event = ServiceEvent.stopped 1 }) sent

abbrev second : Joint
second = joint_start options_two 3 free

abbrev waiting : List (List Action)
waiting =
    (Action.spawn_supervisor
        (record { options = options_two; cancel = 3; lifecycle = 4; ready = 5 })
      ∷ [])
    ∷ []
    ∷ []
    ∷ []

-- Then the first completion is sent and called, which says that generation 1 failed.
abbrev late : Joint
late =
    after_piece waiting [] []
      (section (perform (Effect.queue_completion 1 failure_event) second.system.world, [])) second

abbrev last : Joint
last = joint_callback request (record { completion = 1; event = failure_event }) late

last-JointReach : JointReach request 10 none last
unfolding joint_start joint_stop joint_callback completed start_locked stop_locked perform
    with_dependencies default_requests dispatch_round spawn_supervisor_section spawn_worker_section
    Sections.finish_creation_failure queue_all failed_event
last-JointReach =
    JointReach.next
      (JointReach.next
        (JointReach.next
          (JointReach.next
            (JointReach.next (JointReach.next ended-JointReach (JointStep.stop 1 2 ended refl)) (
              JointStep.run []
                ([] ∷ (Action.effect (Effect.queue_completion 1 failure_event) ∷ []) ∷ [])
                (Action.effect (Effect.queue_completion 2 (ServiceEvent.stopped 1))) [] stopped refl
                (Runs.effect (Effect.queue_completion 2 (ServiceEvent.stopped 1)))))
            (JointStep.callback (record { completion = 2; event = ServiceEvent.stopped 1 }) [] sent
              refl))
          (JointStep.start options_two 3 free refl))
        (JointStep.run waiting [] (Action.effect (Effect.queue_completion 1 failure_event)) []
          second refl (Runs.effect (Effect.queue_completion 1 failure_event))))
      (JointStep.callback (record { completion = 1; event = failure_event }) [] late refl)

-- The controller has generation 2 starting, and the interface has none that is active.
lost_generation :
    JointReach request 10 none last
    × (active_of last.system.world ≡ some 2)
    × (last.requests.active_generation ≡ none)
unfolding joint_start joint_stop joint_callback completed start_locked stop_locked perform
    with_dependencies default_requests dispatch_round spawn_supervisor_section spawn_worker_section
    Sections.finish_creation_failure queue_all failed_event
lost_generation = (last-JointReach, refl, refl)

-- A stop of generation 2 is then refused, and changes nothing.
lost_stop : joint_stop 2 4 last ≡ last
unfolding joint_start joint_stop joint_callback completed start_locked stop_locked perform
    with_dependencies default_requests dispatch_round spawn_supervisor_section spawn_worker_section
    Sections.finish_creation_failure queue_all failed_event
lost_stop = refl

begun-OrderlyReach : OrderlyReach request 10 none begun
begun-OrderlyReach =
    OrderlyReach.next OrderlyReach.here (JointStep.start options_one 1 (new_joint 10 none) refl) tt

requests_track_controller_example : begun.requests.active_generation ≡ some 1
unfolding joint_start start_locked default_requests with_dependencies
requests_track_controller_example = requests_track_controller request begun-OrderlyReach 1 refl

last-LabelledReach : LabelledReach request 10 none last.system
last-LabelledReach = JointReach-Labelled request 10 none last-JointReach

told_is_so_example : DispatcherTold request (view last.system.world) last.system.world.dispatcher
told_is_so_example = told_is_so request last-LabelledReach
