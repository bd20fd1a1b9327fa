-- ===== src/Service/Reaping/Pieces.antt =====
-- Each piece of a thread of src/service.rs takes a worker at most as often as it was to do.
use bare_arti.Base.{
  ℕ, ◌+◌, ◌≤◌, ◌<◌, ◌≡◌, refl, ap, ◌∙◌, subst, Bool, true, false, Option, none, some, List, [], ◌∷◌,
  ◌++◌, map, arith, if_split, if_both, map-eq_some, ◌==◌, if◌then◌else◌,
}
use bare_arti.Service.Types.{ServiceError, ServiceEvent, WorkerResult, ok, err}
use bare_arti.Service.Lifecycle.{LifecycleState, RunningOutcome}
use bare_arti.Service.Owner.{WorkerHandle, WorkerSlot}
use bare_arti.Service.Dispatch.{Completion}
use bare_arti.Service.World.{World, Handle}
use bare_arti.Service.Effects.{Effect, perform, queue_all}
use bare_arti.Service.Sections.{
  mark_running, stop_after_startup, cancel_current, finish_creation_failure, finish_worker,
  transition_to_stopping,
}
use bare_arti.Service.Controller.{SupervisorTask, SpawnOutcome, drop_task}
use bare_arti.Service.Supervisor.{
  Action, AfterStop, GateOutcome, FactoryOutcome, StartupOutcome, Next, running_next, gate_section,
  after_gate, mark_section, after_mark, wait_running_section, wait_stopping_section, after_stop,
  stop_startup_section, supervisor_panicked, spawn_supervisor_section,
}
use bare_arti.Service.Supervisor.Workers.{
  spawn_worker_section, own_worker_section, spawn_reaper_section, reap_section, reap_taken,
  report_section,
}
use bare_arti.Service.System.{Runs, section}
use bare_arti.Service.Reaping.Takes.{
  takes, takes_all, takes_threads, takes_all-append, takes_all-effects, gone, IsFresh, Same, same,
  Same-IsFresh, perform-Same, cancel_current-Same, transition_to_stopping-Same, finish_worker-Same,
  finish_creation_failure-Same, mark_running-Same, stop_after_startup-Same,
}

-- How often a piece and what follows it take the worker of an owner.
abbrev pub next_takes : Handle → Next → ℕ
next_takes h n = takes_all h n.rest + takes_threads h n.threads

-- A piece of an action that was to take the worker of an owner `h` so often as `k h`.
pub record PieceTakes (k : Handle → ℕ) (w : World) (n : Next) : Type 0 where
  pub grows : w.next ≤ n.world.next
  pub fresh : IsFresh w → IsFresh n.world
  pub share :
      IsFresh w → (h : Handle) → next_takes h n + gone (n.world.owners h) ≤ k h + gone (w.owners h)
  pub stays : (h : Handle) → h < w.next → w.owners h ≡ none → n.world.owners h ≡ none

same-PieceTakes :
    (k : Handle → ℕ) (w : World) (n : Next)
    → Same w n.world
    → ((h : Handle) → next_takes h n ≤ k h)
    → PieceTakes k w n
same-PieceTakes k w n s le = record {
  grows = s.grows;
  fresh = Same-IsFresh s;
  share = λ f h. omega (arith, le h, ap (λ o. gone (o h)) s.owners);
  stays = λ h below e. ap (λ o. o h) s.owners ∙ e;
}

section-PieceTakes :
    (k : Handle → ℕ) (w : World) (r : World × List Effect) → Same w r.0 → PieceTakes k w (section r)
section-PieceTakes k w r s =
    same-PieceTakes k w (section r) s (λ h. omega (arith, takes_all-effects h r.1))

split-PieceTakes :
    (k : Handle → ℕ) (w v : World) (es : List Effect) (actions : List Action)
    → Same w v
    → ((h : Handle) → takes_all h actions ≤ k h)
    → PieceTakes k w (record { world = v; rest = map Action.effect es ++ actions; threads = [] })
split-PieceTakes k w v es actions s le = same-PieceTakes k w _ s (λ h.
    omega (arith, le h, takes_all-append h (map Action.effect es) actions, takes_all-effects h es))

spawn_supervisor-PieceTakes :
    (k : Handle → ℕ) (task : SupervisorTask) (answer : SpawnOutcome) (w : World)
    → PieceTakes k w (spawn_supervisor_section task answer w)
unfolding spawn_supervisor_section drop_task
spawn_supervisor-PieceTakes k task SpawnOutcome.spawned w =
    same-PieceTakes k w _ same (λ h. omega arith)
spawn_supervisor-PieceTakes k task (SpawnOutcome.refused e) w =
    same-PieceTakes k w _ same (λ h. omega arith)
spawn_supervisor-PieceTakes k task SpawnOutcome.panicked w =
    same-PieceTakes k w _ (record { owners = refl; grows = omega arith }) (λ h. omega arith)

spawn_worker-PieceTakes :
    (k : Handle → ℕ) (task : SupervisorTask) (answer : FactoryOutcome) (w : World)
    → PieceTakes k w (spawn_worker_section task answer w)
unfolding spawn_worker_section
spawn_worker-PieceTakes k task (FactoryOutcome.spawned worker) w =
    same-PieceTakes k w _ same (λ h. omega arith)
spawn_worker-PieceTakes k task (FactoryOutcome.refused e) w =
    same-PieceTakes k w _ same (λ h. omega arith)
spawn_worker-PieceTakes k task FactoryOutcome.panicked w =
    same-PieceTakes k w _ same (λ h. omega arith)

filled :
    (b : Bool) (slot : WorkerSlot) (worker : WorkerHandle)
    → (b ≡ true → slot ≡ none)
    → (if b then 1 else 0) + gone (if b then some worker else slot) ≤ gone slot
filled true slot worker e = omega (arith, ap gone (e refl))
filled false slot worker e = omega arith

emptied :
    (b : Bool) (slot : WorkerSlot)
    → gone (if b then none else slot) ≤ (if b then 1 else 0) + gone slot
emptied true slot = omega arith
emptied false slot = omega arith

-- The new owner is the next handle, which held nothing.
own_worker-PieceTakes :
    (k : Handle → ℕ) (task : SupervisorTask) (worker : WorkerHandle) (w : World)
    → PieceTakes k w (own_worker_section task worker w)
unfolding own_worker_section
own_worker-PieceTakes k task worker w = record {
  grows = omega arith;
  fresh = λ f h le.
      if_split (λ (slot : WorkerSlot). slot ≡ none) (w.next == h) (λ t. ground (arith, t, le))
        (λ t. f h (omega (arith, le)));
  share =
      λ f h. omega (arith, filled (w.next == h) (w.owners h) worker (λ t. f h (ground (arith, t))));
  stays = λ h below e.
      if_split (λ (slot : WorkerSlot). slot ≡ none) (w.next == h) (λ t. ground (arith, t, below))
        (λ t. e);
}

spawn_reaper-PieceTakes :
    (task : SupervisorTask) (owner : Handle) (answer : SpawnOutcome) (w : World)
    → PieceTakes
        (λ h. takes h (Action.spawn_reaper task owner))
        w
        (spawn_reaper_section task owner answer w)
unfolding spawn_reaper_section
spawn_reaper-PieceTakes task owner SpawnOutcome.spawned w =
    same-PieceTakes _ w _ same (λ h. omega arith)
spawn_reaper-PieceTakes task owner (SpawnOutcome.refused e) w =
    same-PieceTakes _ w _ same (λ h. omega arith)
spawn_reaper-PieceTakes task owner SpawnOutcome.panicked w =
    same-PieceTakes _ w _ same (λ h. omega arith)

reap_taken_quiet :
    (h : Handle) (taken : Option WorkerHandle) (lifecycle channel : Handle)
    → takes_all h (reap_taken taken lifecycle channel) ≡ 0
unfolding reap_taken
reap_taken_quiet h none l c = refl
reap_taken_quiet h (some worker) l c = refl

-- The reaper empties its owner, and takes from no other.
reap-PieceTakes :
    (owner lifecycle channel : Handle) (w : World)
    → PieceTakes
        (λ h. takes h (Action.reap owner lifecycle channel))
        w
        (reap_section owner lifecycle channel w)
unfolding reap_section
reap-PieceTakes owner l c w = record {
  grows = omega arith;
  fresh = λ f h le. if_both (λ (slot : WorkerSlot). slot ≡ none) (owner == h) refl (f h le);
  share = λ f h.
      omega (arith, emptied (owner == h) (w.owners h), reap_taken_quiet h (w.owners owner) l c);
  stays = λ h below e. if_both (λ (slot : WorkerSlot). slot ≡ none) (owner == h) refl e;
}

after_gate_quiet :
    (h : Handle) (task : SupervisorTask) (owner : Handle) (answer : GateOutcome)
    → takes_all h (after_gate task owner answer) ≡ 0
unfolding after_gate
after_gate_quiet h task owner GateOutcome.panicked = refl
after_gate_quiet h task owner (GateOutcome.waited (StartupOutcome.ready (ok port))) =
    if_both (λ (x : List Action). takes_all h x ≡ 0) (port == 0) refl refl
after_gate_quiet h task owner (GateOutcome.waited (StartupOutcome.ready (err e))) = refl
after_gate_quiet h task owner (GateOutcome.waited StartupOutcome.timeout) = refl
after_gate_quiet h task owner (GateOutcome.waited StartupOutcome.worker_exited) = refl

gate-PieceTakes :
    (k : Handle → ℕ) (task : SupervisorTask) (owner : Handle) (answer : GateOutcome) (w : World)
    → PieceTakes k w (gate_section task owner answer w)
unfolding gate_section drop_task
gate-PieceTakes k task owner answer w =
    same-PieceTakes k w _ (record { owners = refl; grows = omega arith })
      (λ h. omega (arith, after_gate_quiet h task owner answer))

after_mark_quiet :
    (h : Handle) (task : SupervisorTask) (owner : Handle) (port : ℕ) (o : Option (List Completion))
    → takes_all h (after_mark task owner port o) ≡ 0
unfolding after_mark
after_mark_quiet h task owner port none = refl
after_mark_quiet h task owner port (some cs) =
    let es = queue_all cs (ServiceEvent.running task.options.generation port) in
    omega (
      arith,
      takes_all-append h (map Action.effect es) (Action.wait_running task owner ∷ []),
      takes_all-effects h es,
    )

mark-PieceTakes :
    (k : Handle → ℕ) (task : SupervisorTask) (owner : Handle) (port : ℕ) (w : World)
    → PieceTakes k w (mark_section task owner port w)
unfolding mark_section
mark-PieceTakes k task owner port w =
    let r = mark_running task.options port w in
    split-PieceTakes k w r.0 r.1 (after_mark task owner port r.2)
      (mark_running-Same task.options port w)
      (λ h. omega (arith, after_mark_quiet h task owner port r.2))

stop_startup-PieceTakes :
    (k : Handle → ℕ) (task : SupervisorTask) (reason : ServiceError) (w : World)
    → PieceTakes k w (stop_startup_section task reason w)
unfolding stop_startup_section
stop_startup-PieceTakes k task reason w =
    let r = stop_after_startup task.options.generation task.cancel task.lifecycle reason w in
    split-PieceTakes k w r.0 r.1 _
      (stop_after_startup-Same task.options.generation task.cancel task.lifecycle reason w)
      (λ h. omega arith)

running_next-PieceTakes :
    (k : Handle → ℕ) (task : SupervisorTask) (w : World) (found : LifecycleState × RunningOutcome)
    → PieceTakes k w (running_next task w found)
unfolding running_next
running_next-PieceTakes k task w (l, RunningOutcome.exited result) =
    same-PieceTakes k w _ (record { owners = refl; grows = omega arith }) (λ h. omega arith)
running_next-PieceTakes k task w (l, RunningOutcome.stop_requested) =
    same-PieceTakes k w _ (record { owners = refl; grows = omega arith }) (λ h. omega arith)

wait_running-PieceTakes :
    (k : Handle → ℕ) (task : SupervisorTask) (w : World) {n : Next}
    → wait_running_section task w ≡ some n
    → PieceTakes k w n
unfolding wait_running_section
wait_running-PieceTakes k task w e =
    let (found, here, q) = map-eq_some (running_next task w) _ e in
    subst (PieceTakes k w) q (running_next-PieceTakes k task w found)

wait_stopping-PieceTakes :
    (k : Handle → ℕ) (lifecycle : Handle) (after : AfterStop) (timed_out : Bool) (w : World)
    {n : Next}
    → wait_stopping_section lifecycle after timed_out w ≡ some n
    → PieceTakes k w n
unfolding wait_stopping_section
wait_stopping-PieceTakes k l after timed_out w e =
    let (found, here, q) = map-eq_some _ _ e in
    subst (PieceTakes k w) q
      (same-PieceTakes k w _ (record { owners = refl; grows = omega arith }) (λ h. omega arith))

observe-PieceTakes :
    (k : Handle → ℕ) (result : WorkerResult) (after : AfterStop) (w : World)
    → PieceTakes k w (record { world = w; rest = after_stop result after w; threads = [] })
unfolding after_stop
observe-PieceTakes k result (AfterStop.finish g owner) w =
    same-PieceTakes k w _ same (λ h. omega arith)
observe-PieceTakes k result AfterStop.discard w = same-PieceTakes k w _ same (λ h. omega arith)

drop_task-PieceTakes :
    (k : Handle → ℕ) (task : SupervisorTask) (w : World)
    → PieceTakes k w (section (drop_task task w, []))
unfolding drop_task
drop_task-PieceTakes k task w =
    section-PieceTakes k w (drop_task task w, []) (record { owners = refl; grows = omega arith })

report-PieceTakes :
    (k : Handle → ℕ) (result : WorkerResult) (lifecycle channel : Handle) (w : World)
    → PieceTakes k w (report_section result lifecycle channel w)
unfolding report_section
report-PieceTakes k result lifecycle channel w =
    same-PieceTakes k w _ (record { owners = refl; grows = omega arith }) (λ h. omega arith)

panicked-PieceTakes :
    (k : Handle → ℕ) (task : SupervisorTask) (owner : Handle) (w : World)
    → PieceTakes k w (record { world = w; rest = supervisor_panicked task owner; threads = [] })
unfolding supervisor_panicked
panicked-PieceTakes k task owner w = same-PieceTakes k w _ same (λ h. omega arith)

pub Runs-PieceTakes :
    {w : World} {a : Action} {n : Next} → Runs w a n → PieceTakes (λ h. takes h a) w n
Runs-PieceTakes {w} (Runs.effect e) = section-PieceTakes _ w (perform e w, []) (perform-Same e w)
Runs-PieceTakes {w} (Runs.spawn_supervisor task answer) =
    spawn_supervisor-PieceTakes _ task answer w
Runs-PieceTakes {w} (Runs.spawn_worker task answer) = spawn_worker-PieceTakes _ task answer w
Runs-PieceTakes {w} (Runs.own_worker task worker) = own_worker-PieceTakes _ task worker w
Runs-PieceTakes {w} (Runs.spawn_reaper task owner answer) =
    spawn_reaper-PieceTakes task owner answer w
Runs-PieceTakes {w} (Runs.wait_gate task owner answer) = gate-PieceTakes _ task owner answer w
Runs-PieceTakes {w} (Runs.become_running task owner port) = mark-PieceTakes _ task owner port w
Runs-PieceTakes {w} (Runs.wait_running task owner e) = wait_running-PieceTakes _ task w e
Runs-PieceTakes {w} (Runs.stop_startup task reason) = stop_startup-PieceTakes _ task reason w
Runs-PieceTakes {w} (Runs.wait_stopping lifecycle after timed_out e) =
    wait_stopping-PieceTakes _ lifecycle after timed_out w e
Runs-PieceTakes {w} (Runs.observe result after) = observe-PieceTakes _ result after w
Runs-PieceTakes {w} (Runs.cancel_current g) =
    section-PieceTakes _ w (cancel_current g w) (cancel_current-Same g w)
Runs-PieceTakes {w} (Runs.drop_task task) = drop_task-PieceTakes _ task w
Runs-PieceTakes {w} (Runs.finish_creation_failure g e t q) =
    section-PieceTakes _ w (finish_creation_failure g e t q w)
      (finish_creation_failure-Same g e t q w)
Runs-PieceTakes {w} (Runs.finish_worker g o) =
    section-PieceTakes _ w (finish_worker g o w) (finish_worker-Same g o w)
Runs-PieceTakes {w} (Runs.transition_to_stopping g reason) =
    section-PieceTakes _ w (transition_to_stopping g reason w)
      (transition_to_stopping-Same g reason w)
Runs-PieceTakes {w} (Runs.reap owner lifecycle channel) = reap-PieceTakes owner lifecycle channel w
Runs-PieceTakes {w} (Runs.join worker lifecycle channel answer) =
    same-PieceTakes _ w _ same (λ h. omega arith)
Runs-PieceTakes {w} (Runs.report result lifecycle channel) =
    report-PieceTakes _ result lifecycle channel w
Runs-PieceTakes {w} (Runs.panic_gate task owner) = panicked-PieceTakes _ task owner w
Runs-PieceTakes {w} (Runs.panic_running task owner) = panicked-PieceTakes _ task owner w
