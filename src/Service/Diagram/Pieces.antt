-- ===== src/Service/Diagram/Pieces.antt =====
-- That the pieces of the threads of src/service.rs follow the diagram.
use bare_arti.Base.{
  ℕ, ◌<◌, ◌≡◌, ◌≢◌, refl, sym, ap, Bool, Option, some, List, [], if_both, subst, map-eq_some,
}
use bare_arti.Service.Types.{ServiceOptions, ServiceError}
use bare_arti.Service.Dispatch.{Completion}
use bare_arti.Service.World.{World, Inner, Handle, with_state}
use bare_arti.Service.Effects.{Effect}
use bare_arti.Service.Lock.{recover, locked_or_return}
use bare_arti.Service.Sections
use bare_arti.Service.Controller.{
  SupervisorTask, SpawnOutcome, StartOutcome, StopOutcome, start_match, start_stopped, stop_match,
  start_locked, stop_locked, stop_compare, bad_generation, u64_max,
}
use bare_arti.Service.Supervisor.{
  Action, AfterStop, Next, gate_section, mark_section, wait_running_section, running_next,
  wait_stopping_section, stop_startup_section, spawn_supervisor_section,
}
use bare_arti.Service.Supervisor.Workers.{
  spawn_worker_section, own_worker_section, spawn_reaper_section, reap_section, report_section,
}
use bare_arti.Service.Lifecycle.{LifecycleState, RunningOutcome}
use bare_arti.Service.Supervisor
use bare_arti.Service.Controller
use bare_arti.Service.System.{Runs}
use bare_arti.Service.Terminal.{perform-inner}
use bare_arti.Service.Diagram.Edges.{
  Phase, phase, Edge, recover_state-Edge, finish_worker_state-Edge,
  finish_creation_failure_state-Edge, mark_running_state-Edge, stop_starting-Edge,
  transition_state-Edge,
}

-- What a client can see: the phase, and the last generation that was started.
pub record View : Type 0 where
  pub at : Phase
  pub last : ℕ

abbrev pub view : World → View
view w = record { at = phase w.inner.state; last = w.inner.last_generation }

-- An edge of the diagram, or the start of a generation that is above every earlier one.
pub data Move : View → View → Type 0 where
  edge :
      {p q : Phase} {n : ℕ}
      → Edge p q
      → Move (record { at = p; last = n }) (record { at = q; last = n })
  launch :
      {n : ℕ} (g : ℕ)
      → n < g
      → g ≢ u64_max
      → Move (record { at = Phase.idle; last = n }) (record { at = Phase.starting g; last = g })

-- A change of the world along an edge.
pub record Follows (w v : World) : Type 0 where
  pub along : Edge (phase w.inner.state) (phase v.inner.state)
  pub last : v.inner.last_generation ≡ w.inner.last_generation

pub Follows-Move : (w v : World) → Follows w v → Move (view w) (view v)
Follows-Move w v f =
    subst (λ n. Move (view w) (record { at = phase v.inner.state; last = n })) (sym f.last)
      (Move.edge f.along)

still-Follows : (w v : World) → v.inner ≡ w.inner → Follows w v
still-Follows w v e = record {
  along = subst (λ (i : Inner). Edge (phase w.inner.state) (phase i.state)) (sym e) Edge.stay;
  last = ap (λ (i : Inner). i.last_generation) e;
}

pub recover-Follows : (w : World) → Follows w (recover w).0
unfolding recover
recover-Follows w = record { along = recover_state-Edge w.inner.state; last = refl }

or_return-Follows :
    (w : World) (body : World → World × List Effect)
    → Follows w (body w).0
    → Follows w (locked_or_return w body).0
unfolding locked_or_return
or_return-Follows w body f =
    if_both (λ (r : World × List Effect). Follows w r.0) w.poisoned (recover-Follows w) f

mark-Follows :
    (options : ServiceOptions) (port : ℕ) (w : World)
    → Follows w (Sections.mark_running options port w).0
unfolding Sections.mark_running
mark-Follows options port w =
    if_both (λ (r : World × List Effect × Option (List Completion)). Follows w r.0) w.poisoned
      (recover-Follows w)
      (record { along = mark_running_state-Edge options port w.inner.state; last = refl })

stop_after_startup-Follows :
    (g : ℕ) (cancel lifecycle : Handle) (reason : ServiceError) (w : World)
    → Follows w (Sections.stop_after_startup g cancel lifecycle reason w).0
unfolding Sections.stop_after_startup
stop_after_startup-Follows g cancel lifecycle reason w =
    if_both (λ (r : World × List Effect × Bool). Follows w r.0) w.poisoned (recover-Follows w)
      (record { along = stop_starting-Edge g reason w.inner.state; last = refl })

running_next-Follows :
    (task : SupervisorTask) (w : World) (found : LifecycleState × RunningOutcome)
    → Follows w (running_next task w found).world
unfolding running_next
running_next-Follows task w (l, RunningOutcome.exited r) = still-Follows _ _ refl
running_next-Follows task w (l, RunningOutcome.stop_requested) = still-Follows _ _ refl

wait_running-Follows :
    (task : SupervisorTask) (w : World) {n : Next}
    → wait_running_section task w ≡ some n
    → Follows w n.world
unfolding wait_running_section
wait_running-Follows task w h =
    let (found, here, e) = map-eq_some (running_next task w) _ h in
    subst (λ (n : Next). Follows w n.world) e (running_next-Follows task w found)

wait_stopping-Follows :
    (lifecycle : Handle) (after : AfterStop) (timed_out : Bool) (w : World) {n : Next}
    → wait_stopping_section lifecycle after timed_out w ≡ some n
    → Follows w n.world
unfolding wait_stopping_section
wait_stopping-Follows l after timed_out w h =
    let (found, here, e) = map-eq_some _ _ h in
    subst (λ (n : Next). Follows w n.world) e (still-Follows _ _ refl)

pub spawn_worker-inner :
    (task : SupervisorTask) (answer : Supervisor.FactoryOutcome) (w : World)
    → (spawn_worker_section task answer w).world.inner ≡ w.inner
unfolding spawn_worker_section
spawn_worker-inner task (Supervisor.FactoryOutcome.spawned h) w = refl
spawn_worker-inner task _ w = refl

pub spawn_reaper-inner :
    (task : SupervisorTask) (owner : Handle) (answer : SpawnOutcome) (w : World)
    → (spawn_reaper_section task owner answer w).world.inner ≡ w.inner
unfolding spawn_reaper_section
spawn_reaper-inner task owner SpawnOutcome.spawned w = refl
spawn_reaper-inner task owner _ w = refl

pub spawn_supervisor-inner :
    (task : SupervisorTask) (answer : SpawnOutcome) (w : World)
    → (spawn_supervisor_section task answer w).world.inner ≡ w.inner
unfolding spawn_supervisor_section
spawn_supervisor-inner task SpawnOutcome.spawned w = refl
spawn_supervisor-inner task _ w = refl

pub Runs-Follows : {w : World} {a : Action} {n : Next} → Runs w a n → Follows w n.world
unfolding own_worker_section gate_section mark_section stop_startup_section reap_section
    report_section Controller.drop_task Sections.cancel_current Sections.finish_creation_failure
    Sections.finish_worker Sections.transition_to_stopping
Runs-Follows (Runs.effect e) = still-Follows _ _ (perform-inner e _)
Runs-Follows (Runs.spawn_supervisor task answer) =
    still-Follows _ _ (spawn_supervisor-inner task answer _)
Runs-Follows (Runs.spawn_worker task answer) = still-Follows _ _ (spawn_worker-inner task answer _)
Runs-Follows (Runs.own_worker task worker) = still-Follows _ _ refl
Runs-Follows (Runs.spawn_reaper task owner answer) =
    still-Follows _ _ (spawn_reaper-inner task owner answer _)
Runs-Follows (Runs.wait_gate task owner answer) = still-Follows _ _ refl
Runs-Follows (Runs.become_running task owner port) = mark-Follows task.options port _
Runs-Follows (Runs.wait_running task owner h) = wait_running-Follows task _ h
Runs-Follows (Runs.stop_startup task reason) =
    stop_after_startup-Follows task.options.generation task.cancel task.lifecycle reason _
Runs-Follows (Runs.wait_stopping lifecycle after timed_out h) =
    wait_stopping-Follows lifecycle after timed_out _ h
Runs-Follows (Runs.observe result after) = still-Follows _ _ refl
Runs-Follows {w} (Runs.cancel_current g) =
    or_return-Follows w (λ v. (v, Sections.cancel_current_effects g v.inner.state))
      (still-Follows _ _ refl)
Runs-Follows (Runs.drop_task task) = still-Follows _ _ refl
Runs-Follows {w} (Runs.finish_creation_failure g e t q) =
    or_return-Follows w (Sections.on_state (Sections.finish_creation_failure_state g e t q))
      (record { along = finish_creation_failure_state-Edge g e t q w.inner.state; last = refl })
Runs-Follows {w} (Runs.finish_worker g o) =
    or_return-Follows w (Sections.on_state (Sections.finish_worker_state g o))
      (record { along = finish_worker_state-Edge g o w.inner.state; last = refl })
Runs-Follows {w} (Runs.transition_to_stopping g reason) =
    or_return-Follows w (λ v. (with_state (Sections.transition_state g reason v.inner.state) v, []))
      (record { along = transition_state-Edge g reason w.inner.state; last = refl })
Runs-Follows (Runs.reap owner lifecycle channel) = still-Follows _ _ refl
Runs-Follows (Runs.join worker lifecycle channel answer) = still-Follows _ _ refl
Runs-Follows (Runs.report result lifecycle channel) = still-Follows _ _ refl
Runs-Follows (Runs.panic_gate task owner) = still-Follows _ _ refl
Runs-Follows (Runs.panic_running task owner) = still-Follows _ _ refl
