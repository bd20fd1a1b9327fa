-- ===== src/Service/Told/Pieces.antt =====
-- What the pieces of the threads of src/service.rs tell.
use bare_arti.Base.{
  ℕ, refl, subst, Bool, Option, none, some, List, [], map, if_both, if_split, All, All-append,
  All-map,
}
use bare_arti.Service.Types.{
  ServiceOptions, ServiceError, ServiceEvent, options_eq, options_eq-generation,
}
use bare_arti.Service.Dispatch.{Completion}
use bare_arti.Service.World.{World, Handle, State, with_state}
use bare_arti.Service.Effects.{Effect, queue_all}
use bare_arti.Service.Lock.{recover}
use bare_arti.Service.Sections
use bare_arti.Service.Controller.{SupervisorTask}
use bare_arti.Service.Controller
use bare_arti.Service.Supervisor.{
  Action, Next, gate_section, mark_section, after_mark, stop_startup_section,
}
use bare_arti.Service.Supervisor.Workers.{own_worker_section, reap_section, report_section}
use bare_arti.Service.System.{Runs}
use bare_arti.Service.Completions.Pieces.{IsEffect, Runs-PieceKeeps}
use bare_arti.Service.Diagram.Pieces.{
  View, view, spawn_worker-inner, spawn_reaper-inner, spawn_supervisor-inner,
}
use bare_arti.Service.Told.Items.{
  Request, IsLast, EffectTold, ActionTold, OwnedBy, IsOwned, queue_all-Told,
}
use bare_arti.Service.Told.Sections.{
  Tells, recover-Tells, or_return-Tells, on_state-Tells, finish_worker_state-Tells,
  finish_creation_failure_state-Tells, transition_state-IsOwned, stop_starting-IsOwned,
  cancel_current-told,
}
use bare_arti.Service.Told.Still.{
  wait_running-inner, wait_stopping-inner, NextTells, section-Tells, still-Tells,
}

module _ (request : Completion → Request) where
  -- What `mark_running` hands out belongs to the generation that now runs.
  abbrev MarkOwned : ℕ → Option (List Completion) → Type 0
  MarkOwned g none = Unit {0}
  MarkOwned g (some cs) = OwnedBy request (Request.start g) cs

  record MarkTells (g : ℕ) (r : World × List Effect × Option (List Completion)) : Type 0 where
    told : All (EffectTold request (view r.0)) r.1
    owned : IsOwned request r.0.inner.state
    handed : MarkOwned g r.2

  mark_state-IsOwned :
      (options : ServiceOptions) (port : ℕ) (s : State)
      → IsOwned request s
      → let r = Sections.mark_running_state options port s in
        IsOwned request r.0 × MarkOwned options.generation r.1
  unfolding Sections.mark_running_state
  mark_state-IsOwned options port (State.starting a) h =
      if_split
        (λ (r : State × Option (List Completion)).
          IsOwned request r.0 × MarkOwned options.generation r.1)
        (options_eq a.options options)
        (λ e. (
          tt,
          subst (λ k. OwnedBy request (Request.start k) a.start_completions)
              (options_eq-generation a.options options e) h,
        ))
        (λ e. (h, tt))
  mark_state-IsOwned options port State.stopped h = (h, tt)
  mark_state-IsOwned options port (State.running r) h = (h, tt)
  mark_state-IsOwned options port (State.stopping s) h = (h, tt)
  mark_state-IsOwned options port (State.failed f) h = (h, tt)

  mark_running-Tells :
      (options : ServiceOptions) (port : ℕ) (w : World)
      → IsLast (view w)
      → IsOwned request w.inner.state
      → MarkTells options.generation (Sections.mark_running options port w)
  unfolding Sections.mark_running
  mark_running-Tells options port w last h =
      let k = recover-Tells request w last h in
      let m = mark_state-IsOwned options port w.inner.state h in
      if_both (MarkTells options.generation) w.poisoned
        (record { told = k.told; owned = k.owned; handed = tt })
        (record { told = tt; owned = m.0; handed = m.1 })

  after_mark-Told :
      (v : View) (task : SupervisorTask) (own : Handle) (port : ℕ) (o : Option (List Completion))
      → MarkOwned task.options.generation o
      → All (ActionTold request v) (after_mark task own port o)
  unfolding after_mark
  after_mark-Told v task own port none h = (tt, (tt, (tt, tt)))
  after_mark-Told v task own port (some cs) h =
      All-append (ActionTold request v)
        (map Action.effect (queue_all cs (ServiceEvent.running task.options.generation port))) _
        (All-map (ActionTold request v) Action.effect
          (queue_all cs (ServiceEvent.running task.options.generation port))
          (queue_all-Told request v (Request.start task.options.generation) cs
            (ServiceEvent.running task.options.generation port) h refl tt))
        (tt, tt)

  mark-Tells :
      (task : SupervisorTask) (own : Handle) (port : ℕ) (w : World)
      → IsLast (view w)
      → IsOwned request w.inner.state
      → NextTells request (mark_section task own port w)
  unfolding mark_section
  mark-Tells task own port w last h =
      let k = mark_running-Tells task.options port w last h in
      let r = Sections.mark_running task.options port w in
      record {
        rest =
            All-append (ActionTold request (view r.0)) (map Action.effect r.1) _
              (All-map (ActionTold request (view r.0)) Action.effect r.1 k.told)
              (after_mark-Told (view r.0) task own port r.2 k.handed);
        owned = k.owned;
      }

  stop_after_startup-Tells :
      (g : ℕ) (cancel lifecycle : Handle) (reason : ServiceError) (w : World)
      → IsLast (view w)
      → IsOwned request w.inner.state
      → let r = Sections.stop_after_startup g cancel lifecycle reason w in Tells request (r.0, r.1)
  unfolding Sections.stop_after_startup
  stop_after_startup-Tells g cancel lifecycle reason w last h =
      let k = recover-Tells request w last h in
      if_both (λ (r : World × List Effect × Bool). Tells request (r.0, r.1)) w.poisoned
        (record {
          told =
              All-append (EffectTold request (view (recover w).0)) (recover w).1 _ k.told
                (tt, (tt, tt));
          owned = k.owned;
        })
        (record {
          told = (tt, (tt, tt));
          owned = stop_starting-IsOwned request g reason w.inner.state h;
        })

  stop_startup-Tells :
      (task : SupervisorTask) (reason : ServiceError) (w : World)
      → IsLast (view w)
      → IsOwned request w.inner.state
      → NextTells request (stop_startup_section task reason w)
  unfolding stop_startup_section
  stop_startup-Tells task reason w last h =
      let k =
        stop_after_startup-Tells task.options.generation task.cancel task.lifecycle reason w last
          h in
      let r =
        Sections.stop_after_startup task.options.generation task.cancel task.lifecycle reason w in
      record {
        rest =
            All-append (ActionTold request (view r.0)) (map Action.effect r.1) _
              (All-map (ActionTold request (view r.0)) Action.effect r.1 k.told) (tt, tt);
        owned = k.owned;
      }

  -- Every piece but an effect.
  pub Runs-Tells :
      {w : World} {a : Action} {n : Next}
      → Runs w a n
      → ¬ IsEffect a
      → IsLast (view w)
      → IsOwned request w.inner.state
      → NextTells request n
  unfolding own_worker_section gate_section reap_section report_section Controller.drop_task
      Sections.cancel_current Sections.finish_creation_failure Sections.finish_worker
      Sections.transition_to_stopping
  Runs-Tells (Runs.effect e) other last h = absurd (other tt)
  Runs-Tells {w} (Runs.become_running task own port) other last h =
      mark-Tells task own port w last h
  Runs-Tells {w} (Runs.stop_startup task reason) other last h =
      stop_startup-Tells task reason w last h
  Runs-Tells {w} (Runs.cancel_current g) other last h = section-Tells request _ (
      or_return-Tells request w (λ v. (v, Sections.cancel_current_effects g v.inner.state)) last h
        (record { told = cancel_current-told request (view w) g w.inner.state; owned = h }))
  Runs-Tells {w} (Runs.finish_creation_failure g e t q) other last h = section-Tells request _ (
      or_return-Tells request w (Sections.on_state (Sections.finish_creation_failure_state g e t q))
        last h
        (on_state-Tells request (Sections.finish_creation_failure_state g e t q) w (
          finish_creation_failure_state-Tells request g e t q w.inner.last_generation w.inner.state
            last h)))
  Runs-Tells {w} (Runs.finish_worker g o) other last h = section-Tells request _ (
      or_return-Tells request w (Sections.on_state (Sections.finish_worker_state g o)) last h (
        on_state-Tells request (Sections.finish_worker_state g o) w
          (finish_worker_state-Tells request g o w.inner.last_generation w.inner.state last h)))
  Runs-Tells {w} (Runs.transition_to_stopping g reason) other last h = section-Tells request _ (
      or_return-Tells request w
        (λ v. (with_state (Sections.transition_state g reason v.inner.state) v, [])) last h
        (record { told = tt; owned = transition_state-IsOwned request g reason w.inner.state h }))
  Runs-Tells {w} (Runs.spawn_supervisor task answer) other last h =
      still-Tells request w _ (Runs-PieceKeeps (Runs.spawn_supervisor task answer) (λ x. x)) h
        (spawn_supervisor-inner task answer w)
  Runs-Tells {w} (Runs.spawn_worker task answer) other last h =
      still-Tells request w _ (Runs-PieceKeeps (Runs.spawn_worker task answer) (λ x. x)) h
        (spawn_worker-inner task answer w)
  Runs-Tells {w} (Runs.own_worker task worker) other last h =
      still-Tells request w _ (Runs-PieceKeeps (Runs.own_worker task worker) (λ x. x)) h refl
  Runs-Tells {w} (Runs.spawn_reaper task own answer) other last h =
      still-Tells request w _ (Runs-PieceKeeps (Runs.spawn_reaper task own answer) (λ x. x)) h
        (spawn_reaper-inner task own answer w)
  Runs-Tells {w} (Runs.wait_gate task own answer) other last h =
      still-Tells request w _ (Runs-PieceKeeps (Runs.wait_gate task own answer) (λ x. x)) h refl
  Runs-Tells {w} (Runs.wait_running task own q) other last h =
      still-Tells request w _ (Runs-PieceKeeps (Runs.wait_running task own q) (λ x. x)) h
        (wait_running-inner task w q)
  Runs-Tells {w} (Runs.wait_stopping lifecycle after timed_out q) other last h =
      still-Tells request w _
        (Runs-PieceKeeps (Runs.wait_stopping lifecycle after timed_out q) (λ x. x)) h
        (wait_stopping-inner lifecycle after timed_out w q)
  Runs-Tells {w} (Runs.observe result after) other last h =
      still-Tells request w _ (Runs-PieceKeeps (Runs.observe result after) (λ x. x)) h refl
  Runs-Tells {w} (Runs.drop_task task) other last h =
      still-Tells request w _ (Runs-PieceKeeps (Runs.drop_task task) (λ x. x)) h refl
  Runs-Tells {w} (Runs.reap own lifecycle channel) other last h =
      still-Tells request w _ (Runs-PieceKeeps (Runs.reap own lifecycle channel) (λ x. x)) h refl
  Runs-Tells {w} (Runs.join worker lifecycle channel answer) other last h =
      still-Tells request w _ (Runs-PieceKeeps (Runs.join worker lifecycle channel answer) (λ x. x))
        h refl
  Runs-Tells {w} (Runs.report result lifecycle channel) other last h =
      still-Tells request w _ (Runs-PieceKeeps (Runs.report result lifecycle channel) (λ x. x)) h
        refl
  Runs-Tells {w} (Runs.panic_gate task own) other last h =
      still-Tells request w _ (Runs-PieceKeeps (Runs.panic_gate task own) (λ x. x)) h refl
  Runs-Tells {w} (Runs.panic_running task own) other last h =
      still-Tells request w _ (Runs-PieceKeeps (Runs.panic_running task own) (λ x. x)) h refl
