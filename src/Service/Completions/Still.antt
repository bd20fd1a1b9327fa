-- ===== src/Service/Completions/Still.antt =====
-- The pieces of threads of src/service.rs that send no completion by themselves.
use bare_arti.Base.{
  ◌≡◌, refl, ap, ◌∙◌, Bool, Option, none, some, List, [], ◌++◌, append-nil, subst, map-eq_some,
  if_both, ◌==◌,
}
use bare_arti.Service.Types.{ServiceError, WorkerResult, ok, err}
use bare_arti.Service.Lifecycle.{LifecycleState, RunningOutcome}
use bare_arti.Service.Owner.{WorkerHandle}
use bare_arti.Service.World.{World, Handle}
use bare_arti.Service.Effects.{Effect}
use bare_arti.Service.Controller.{SupervisorTask, SpawnOutcome}
use bare_arti.Service.Supervisor.{
  AfterStop, GateOutcome, FactoryOutcome, StartupOutcome, Next, running_next, gate_section,
  after_gate, wait_running_section, wait_stopping_section, after_stop, spawn_supervisor_section,
}
use bare_arti.Service.Supervisor.Workers.{
  spawn_worker_section, own_worker_section, spawn_reaper_section, reap_section, reap_taken,
}
use bare_arti.Service.System.{section}
use bare_arti.Service.Completions.Count.{
  pending, action_completions, thread_completions, failure, action_completions-map_effect,
}
use bare_arti.Service.Completions.Sections.{Keeps}

-- A piece that starts with no completion of its own: those of the state are then in the state or
-- among what the thread does next.
pub record PieceKeeps (w : World) (n : Next) : Type 0 where
  pub kept : pending n.world.inner.state ++ action_completions n.rest ≡ pending w.inner.state
  pub quiet : thread_completions n.threads ≡ []
  pub same : n.world.dispatcher ≡ w.dispatcher
  pub stays :
      (e : ServiceError) → failure w.inner.state ≡ some e → failure n.world.inner.state ≡ some e

pub section-PieceKeeps :
    (w : World) (r : World × List Effect) → Keeps w r → PieceKeeps w (section r)
section-PieceKeeps w r k = record {
  kept =
      ap (λ cs. pending r.0.inner.state ++ cs) (action_completions-map_effect r.1) ∙ k.state.kept;
  quiet = refl;
  same = k.same;
  stays = k.state.stays;
}

-- A piece that leaves the state alone and has no completion to answer.
pub still-PieceKeeps :
    (w : World) (n : Next)
    → n.world.inner ≡ w.inner
    → n.world.dispatcher ≡ w.dispatcher
    → action_completions n.rest ≡ []
    → thread_completions n.threads ≡ []
    → PieceKeeps w n
still-PieceKeeps w n i d r t = record {
  kept = rw (i, r) (append-nil _);
  quiet = t;
  same = d;
  stays = λ x h. rw i h;
}

pub spawn_worker-PieceKeeps :
    (task : SupervisorTask) (answer : FactoryOutcome) (w : World)
    → PieceKeeps w (spawn_worker_section task answer w)
unfolding spawn_worker_section
spawn_worker-PieceKeeps task (FactoryOutcome.spawned h) w = still-PieceKeeps _ _ refl refl refl refl
spawn_worker-PieceKeeps task _ w = still-PieceKeeps _ _ refl refl refl refl

pub own_worker-PieceKeeps :
    (task : SupervisorTask) (worker : WorkerHandle) (w : World)
    → PieceKeeps w (own_worker_section task worker w)
unfolding own_worker_section
own_worker-PieceKeeps task worker w = still-PieceKeeps _ _ refl refl refl refl

pub spawn_reaper-PieceKeeps :
    (task : SupervisorTask) (owner : Handle) (answer : SpawnOutcome) (w : World)
    → PieceKeeps w (spawn_reaper_section task owner answer w)
unfolding spawn_reaper_section
spawn_reaper-PieceKeeps task owner SpawnOutcome.spawned w = still-PieceKeeps _ _ refl refl refl refl
spawn_reaper-PieceKeeps task owner _ w = still-PieceKeeps _ _ refl refl refl refl

pub spawn_supervisor-PieceKeeps :
    (task : SupervisorTask) (answer : SpawnOutcome) (w : World)
    → PieceKeeps w (spawn_supervisor_section task answer w)
unfolding spawn_supervisor_section
spawn_supervisor-PieceKeeps task SpawnOutcome.spawned w = still-PieceKeeps _ _ refl refl refl refl
spawn_supervisor-PieceKeeps task _ w = still-PieceKeeps _ _ refl refl refl refl

after_gate_quiet :
    (task : SupervisorTask) (owner : Handle) (answer : GateOutcome)
    → action_completions (after_gate task owner answer) ≡ []
unfolding after_gate
after_gate_quiet task owner GateOutcome.panicked = refl
after_gate_quiet task owner (GateOutcome.waited (StartupOutcome.ready (ok port))) =
    if_both (λ l. action_completions l ≡ []) (port == 0) refl refl
after_gate_quiet task owner (GateOutcome.waited (StartupOutcome.ready (err e))) = refl
after_gate_quiet task owner (GateOutcome.waited StartupOutcome.timeout) = refl
after_gate_quiet task owner (GateOutcome.waited StartupOutcome.worker_exited) = refl

pub gate-PieceKeeps :
    (task : SupervisorTask) (owner : Handle) (answer : GateOutcome) (w : World)
    → PieceKeeps w (gate_section task owner answer w)
unfolding gate_section
gate-PieceKeeps task owner answer w =
    still-PieceKeeps _ _ refl refl (after_gate_quiet task owner answer) refl

reap_taken_quiet :
    (taken : Option WorkerHandle) (lifecycle channel : Handle)
    → action_completions (reap_taken taken lifecycle channel) ≡ []
unfolding reap_taken
reap_taken_quiet none l c = refl
reap_taken_quiet (some h) l c = refl

pub reap-PieceKeeps :
    (owner lifecycle channel : Handle) (w : World)
    → PieceKeeps w (reap_section owner lifecycle channel w)
unfolding reap_section
reap-PieceKeeps o l c w = still-PieceKeeps _ _ refl refl (reap_taken_quiet (w.owners o) l c) refl

running_next-PieceKeeps :
    (task : SupervisorTask) (w : World) (found : LifecycleState × RunningOutcome)
    → PieceKeeps w (running_next task w found)
unfolding running_next
running_next-PieceKeeps task w (l, RunningOutcome.exited result) =
    still-PieceKeeps _ _ refl refl refl refl
running_next-PieceKeeps task w (l, RunningOutcome.stop_requested) =
    still-PieceKeeps _ _ refl refl refl refl

pub wait_running-PieceKeeps :
    (task : SupervisorTask) (w : World) {n : Next}
    → wait_running_section task w ≡ some n
    → PieceKeeps w n
unfolding wait_running_section
wait_running-PieceKeeps task w h =
    let (found, here, e) = map-eq_some (running_next task w) _ h in
    subst (PieceKeeps w) e (running_next-PieceKeeps task w found)

pub wait_stopping-PieceKeeps :
    (lifecycle : Handle) (after : AfterStop) (timed_out : Bool) (w : World) {n : Next}
    → wait_stopping_section lifecycle after timed_out w ≡ some n
    → PieceKeeps w n
unfolding wait_stopping_section
wait_stopping-PieceKeeps l after timed_out w h =
    let (found, here, e) = map-eq_some _ _ h in
    subst (PieceKeeps w) e (still-PieceKeeps _ _ refl refl refl refl)

pub observe-PieceKeeps :
    (result : WorkerResult) (after : AfterStop) (w : World)
    → PieceKeeps w (record { world = w; rest = after_stop result after w; threads = [] })
unfolding after_stop
observe-PieceKeeps result (AfterStop.finish g owner) w = still-PieceKeeps _ _ refl refl refl refl
observe-PieceKeeps result AfterStop.discard w = still-PieceKeeps _ _ refl refl refl refl
