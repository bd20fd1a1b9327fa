-- ===== src/Service/Progress/Pieces.antt =====
-- Each piece of a thread of src/service.rs leaves less to do.
use bare_arti.Base.{
  ℕ, ◌+◌, ◌≤◌, ◌≡◌, subst, Bool, Option, none, some, List, [], ◌∷◌, ◌++◌, map, arith, if_split,
  if_both, map-eq_some, ◌==◌,
}
use bare_arti.Service.Types.{ServiceError, ServiceEvent, WorkerResult, ok, err}
use bare_arti.Service.Lifecycle.{LifecycleState, RunningOutcome}
use bare_arti.Service.Owner.{WorkerHandle}
use bare_arti.Service.Dispatch.{Completion}
use bare_arti.Service.World.{World, Handle}
use bare_arti.Service.Effects.{Effect, queue_all}
use bare_arti.Service.Lock.{recover}
use bare_arti.Service.Sections.{
  mark_running, stop_after_startup, cancel_current, finish_creation_failure, finish_worker,
  transition_to_stopping,
}
use bare_arti.Service.Controller.{SupervisorTask, SpawnOutcome, drop_task}
use bare_arti.Service.Supervisor.{
  Action, AfterStop, GateOutcome, FactoryOutcome, StartupOutcome, Next, running_next, gate_section,
  after_gate, mark_section, after_mark, wait_running_section, wait_stopping_section, after_stop,
  stop_startup_section, supervisor_panicked, spawn_supervisor_section,
}
use bare_arti.Service.Supervisor.Workers.{
  spawn_worker_section, own_worker_section, spawn_reaper_section, reap_section, reap_taken,
  report_section,
}
use bare_arti.Service.System.{Runs, section}
use bare_arti.Service.Completions.Pieces.{IsEffect}
use bare_arti.Service.Progress.Load.{
  signals-append, signals-queue_all, load, load_all, load_threads, load_all-append,
  load_all-effects, poison_load, Calm, signals-recover, finish_worker-Calm,
  finish_creation_failure-Calm, cancel_current-Calm, transition_to_stopping-Calm,
}

-- After a piece that was worth `k` there is less to do.
abbrev pub Lighter : ℕ → World → Next → Type 0
Lighter k w n =
    poison_load n.world.poisoned + load_all n.rest + load_threads n.threads + 1
    ≤ poison_load w.poisoned + k

section-Lighter :
    (k : ℕ) (w : World) (r : World × List Effect) → Calm k w r → Lighter (k + 1) w (section r)
section-Lighter k w r h = omega (arith, h, load_all-effects r.1)

spawn_supervisor-Lighter :
    (task : SupervisorTask) (answer : SpawnOutcome) (w : World)
    → Lighter 17 w (spawn_supervisor_section task answer w)
unfolding spawn_supervisor_section drop_task
spawn_supervisor-Lighter task SpawnOutcome.spawned w = omega arith
spawn_supervisor-Lighter task (SpawnOutcome.refused e) w = omega arith
spawn_supervisor-Lighter task SpawnOutcome.panicked w = omega arith

spawn_worker-Lighter :
    (task : SupervisorTask) (answer : FactoryOutcome) (w : World)
    → Lighter 16 w (spawn_worker_section task answer w)
unfolding spawn_worker_section
spawn_worker-Lighter task (FactoryOutcome.spawned h) w = omega arith
spawn_worker-Lighter task (FactoryOutcome.refused e) w = omega arith
spawn_worker-Lighter task FactoryOutcome.panicked w = omega arith

own_worker-Lighter :
    (task : SupervisorTask) (worker : WorkerHandle) (w : World)
    → Lighter 15 w (own_worker_section task worker w)
unfolding own_worker_section
own_worker-Lighter task worker w = omega arith

spawn_reaper-Lighter :
    (task : SupervisorTask) (owner : Handle) (answer : SpawnOutcome) (w : World)
    → Lighter 14 w (spawn_reaper_section task owner answer w)
unfolding spawn_reaper_section
spawn_reaper-Lighter task owner SpawnOutcome.spawned w = omega arith
spawn_reaper-Lighter task owner (SpawnOutcome.refused e) w = omega arith
spawn_reaper-Lighter task owner SpawnOutcome.panicked w = omega arith

after_gate_load :
    (task : SupervisorTask) (owner : Handle) (answer : GateOutcome)
    → load_all (after_gate task owner answer) ≤ 8
unfolding after_gate
after_gate_load task owner GateOutcome.panicked = omega arith
after_gate_load task owner (GateOutcome.waited (StartupOutcome.ready (ok port))) =
    if_both (λ (x : List Action). load_all x ≤ 8) (port == 0) (omega arith) (omega arith)
after_gate_load task owner (GateOutcome.waited (StartupOutcome.ready (err e))) = omega arith
after_gate_load task owner (GateOutcome.waited StartupOutcome.timeout) = omega arith
after_gate_load task owner (GateOutcome.waited StartupOutcome.worker_exited) = omega arith

gate-Lighter :
    (task : SupervisorTask) (owner : Handle) (answer : GateOutcome) (w : World)
    → Lighter 9 w (gate_section task owner answer w)
unfolding gate_section drop_task
gate-Lighter task owner answer w = omega (arith, after_gate_load task owner answer)

after_mark_load :
    (task : SupervisorTask) (owner : Handle) (port : ℕ) (o : Option (List Completion))
    → load_all (after_mark task owner port o) ≤ 7
unfolding after_mark
after_mark_load task owner port none = omega arith
after_mark_load task owner port (some cs) = ground (
  arith,
  load_all-append
      (map Action.effect (queue_all cs (ServiceEvent.running task.options.generation port)))
      (Action.wait_running task owner ∷ []),
  load_all-effects (queue_all cs (ServiceEvent.running task.options.generation port)),
  signals-queue_all cs (ServiceEvent.running task.options.generation port),
)

-- Signals of a section and what follows it.
split-Lighter :
    (k m : ℕ) (w v : World) (es : List Effect) (actions : List Action)
    → Calm k w (v, es)
    → load_all actions + k + 1 ≤ m
    → Lighter m w (record { world = v; rest = map Action.effect es ++ actions; threads = [] })
split-Lighter k m w v es actions c h =
    omega (arith, c, h, load_all-append (map Action.effect es) actions, load_all-effects es)

mark_running-Calm :
    (task : SupervisorTask) (port : ℕ) (w : World)
    → let r = mark_running task.options port w in Calm 0 w (r.0, r.1)
unfolding mark_running
mark_running-Calm task port w =
    if_split (λ (r : World × List Effect × Option (List Completion)). Calm 0 w (r.0, r.1))
      w.poisoned (λ p. ground (arith, signals-recover w)) (λ p. omega arith)

mark-Lighter :
    (task : SupervisorTask) (owner : Handle) (port : ℕ) (w : World)
    → Lighter 8 w (mark_section task owner port w)
unfolding mark_section
mark-Lighter task owner port w =
    let r = mark_running task.options port w in
    split-Lighter 0 8 w r.0 r.1 (after_mark task owner port r.2) (mark_running-Calm task port w)
      (omega (arith, after_mark_load task owner port r.2))

stop_after_startup-Calm :
    (g : ℕ) (cancel lifecycle : Handle) (reason : ServiceError) (w : World)
    → let r = stop_after_startup g cancel lifecycle reason w in Calm 2 w (r.0, r.1)
unfolding stop_after_startup
stop_after_startup-Calm g cancel lifecycle reason w =
    if_split (λ (r : World × List Effect × Bool). Calm 2 w (r.0, r.1)) w.poisoned
      (λ p. ground (
        arith,
        signals-recover w,
        signals-append (recover w).1
            (Effect.cancel_once cancel ∷ Effect.request_stop lifecycle ∷ []),
      ))
      (λ p. omega arith)

stop_startup-Lighter :
    (task : SupervisorTask) (reason : ServiceError) (w : World)
    → Lighter 6 w (stop_startup_section task reason w)
unfolding stop_startup_section
stop_startup-Lighter task reason w =
    let r = stop_after_startup task.options.generation task.cancel task.lifecycle reason w in
    split-Lighter 2 6 w r.0 r.1 _
      (stop_after_startup-Calm task.options.generation task.cancel task.lifecycle reason w)
      (omega arith)

reap_taken_load :
    (taken : Option WorkerHandle) (lifecycle channel : Handle)
    → load_all (reap_taken taken lifecycle channel) ≤ 3
unfolding reap_taken
reap_taken_load none l c = omega arith
reap_taken_load (some h) l c = omega arith

reap-Lighter :
    (owner lifecycle channel : Handle) (w : World)
    → Lighter 4 w (reap_section owner lifecycle channel w)
unfolding reap_section
reap-Lighter o l c w = omega (arith, reap_taken_load (w.owners o) l c)

running_next-Lighter :
    (task : SupervisorTask) (w : World) (found : LifecycleState × RunningOutcome)
    → Lighter 7 w (running_next task w found)
unfolding running_next
running_next-Lighter task w (l, RunningOutcome.exited result) = omega arith
running_next-Lighter task w (l, RunningOutcome.stop_requested) = omega arith

wait_running-Lighter :
    (task : SupervisorTask) (w : World) {n : Next}
    → wait_running_section task w ≡ some n
    → Lighter 7 w n
unfolding wait_running_section
wait_running-Lighter task w h =
    let (found, here, e) = map-eq_some (running_next task w) _ h in
    subst (Lighter 7 w) e (running_next-Lighter task w found)

wait_stopping-Lighter :
    (lifecycle : Handle) (after : AfterStop) (timed_out : Bool) (w : World) {n : Next}
    → wait_stopping_section lifecycle after timed_out w ≡ some n
    → Lighter 3 w n
unfolding wait_stopping_section
wait_stopping-Lighter l after timed_out w h =
    let (found, here, e) = map-eq_some _ _ h in subst (Lighter 3 w) e (omega arith)

observe-Lighter :
    (result : WorkerResult) (after : AfterStop) (w : World)
    → Lighter 2 w (record { world = w; rest = after_stop result after w; threads = [] })
unfolding after_stop
observe-Lighter result (AfterStop.finish g owner) w = omega arith
observe-Lighter result AfterStop.discard w = omega arith

drop_task-Lighter :
    (task : SupervisorTask) (w : World) → Lighter 1 w (section (drop_task task w, []))
unfolding drop_task
drop_task-Lighter task w = omega arith

report-Lighter :
    (result : WorkerResult) (lifecycle channel : Handle) (w : World)
    → Lighter 2 w (report_section result lifecycle channel w)
unfolding report_section
report-Lighter result lifecycle channel w = omega arith

panicked-Lighter :
    (k : ℕ) (task : SupervisorTask) (owner : Handle) (w : World)
    → 7 ≤ k
    → Lighter k w (record { world = w; rest = supervisor_panicked task owner; threads = [] })
unfolding supervisor_panicked
panicked-Lighter k task owner w h = omega arith

-- Every piece but an effect.
pub Runs-Lighter :
    {w : World} {a : Action} {n : Next} → Runs w a n → ¬ IsEffect a → Lighter (load a) w n
Runs-Lighter (Runs.effect e) no_effect = absurd (no_effect tt)
Runs-Lighter {w} (Runs.spawn_supervisor task answer) _ = spawn_supervisor-Lighter task answer w
Runs-Lighter {w} (Runs.spawn_worker task answer) _ = spawn_worker-Lighter task answer w
Runs-Lighter {w} (Runs.own_worker task worker) _ = own_worker-Lighter task worker w
Runs-Lighter {w} (Runs.spawn_reaper task owner answer) _ = spawn_reaper-Lighter task owner answer w
Runs-Lighter {w} (Runs.wait_gate task owner answer) _ = gate-Lighter task owner answer w
Runs-Lighter {w} (Runs.become_running task owner port) _ = mark-Lighter task owner port w
Runs-Lighter {w} (Runs.wait_running task owner h) _ = wait_running-Lighter task w h
Runs-Lighter {w} (Runs.stop_startup task reason) _ = stop_startup-Lighter task reason w
Runs-Lighter {w} (Runs.wait_stopping lifecycle after timed_out h) _ =
    wait_stopping-Lighter lifecycle after timed_out w h
Runs-Lighter {w} (Runs.observe result after) _ = observe-Lighter result after w
Runs-Lighter {w} (Runs.cancel_current g) _ =
    section-Lighter 3 w (cancel_current g w) (cancel_current-Calm g w)
Runs-Lighter {w} (Runs.drop_task task) _ = drop_task-Lighter task w
Runs-Lighter {w} (Runs.finish_creation_failure g e t q) _ =
    section-Lighter 0 w (finish_creation_failure g e t q w) (finish_creation_failure-Calm g e t q w)
Runs-Lighter {w} (Runs.finish_worker g o) _ =
    section-Lighter 0 w (finish_worker g o w) (finish_worker-Calm g o w)
Runs-Lighter {w} (Runs.transition_to_stopping g reason) _ =
    section-Lighter 0 w (transition_to_stopping g reason w) (transition_to_stopping-Calm g reason w)
Runs-Lighter {w} (Runs.reap owner lifecycle channel) _ = reap-Lighter owner lifecycle channel w
Runs-Lighter (Runs.join worker lifecycle channel answer) _ = omega arith
Runs-Lighter {w} (Runs.report result lifecycle channel) _ =
    report-Lighter result lifecycle channel w
Runs-Lighter {w} (Runs.panic_gate task owner) _ = panicked-Lighter 9 task owner w (omega arith)
Runs-Lighter {w} (Runs.panic_running task owner) _ = panicked-Lighter 7 task owner w (omega arith)
