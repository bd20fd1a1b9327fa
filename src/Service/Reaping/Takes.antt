-- ===== src/Service/Reaping/Takes.antt =====
-- How often the worker of an owner of src/service.rs is still to be taken, and the functions that leave
-- every owner alone.
use bare_arti.Base.{
  ℕ, ◌+◌, ◌≤◌, ◌≡◌, refl, ap, ◌∙◌, Bool, Option, none, some, List, [], ◌∷◌, ◌++◌, map, arith,
  if_both, ◌==◌, ltb, if◌then◌else◌,
}
use bare_arti.Service.Types.{ServiceOptions, ServiceError, ServiceEvent, options_eq}
use bare_arti.Service.Owner.{WorkerSlot}
use bare_arti.Service.Dispatch.{Completion, CompletionDispatcher}
use bare_arti.Service.World.{World, Handle, State, queue_on, with_state}
use bare_arti.Service.Effects.{Effect, perform}
use bare_arti.Service.Lock.{recover, locked_or_return}
use bare_arti.Service.Sections.{
  ShutdownObservation, on_state, mark_running, stop_after_startup, cancel_current,
  finish_creation_failure, finish_worker, finish_worker_state, finish_creation_failure_state,
  cancel_current_effects, transition_state, transition_to_stopping,
}
use bare_arti.Service.Controller.{
  StartOutcome, StopOutcome, bad_generation, start_locked, start_match, start_stopped, allocate,
  stop_locked, stop_match, stop_compare,
}
use bare_arti.Service.Supervisor.{Action}

-- Whether an action is to start the reaper of an owner, or is the reaper's.
abbrev pub takes : Handle → Action → ℕ
takes h (Action.spawn_reaper task owner) = if owner == h then 1 else 0
takes h (Action.reap owner lifecycle channel) = if owner == h then 1 else 0
takes h _ = 0

abbrev pub takes_all : Handle → List Action → ℕ
takes_all h [] = 0
takes_all h (a ∷ as_) = takes h a + takes_all h as_

abbrev pub takes_threads : Handle → List (List Action) → ℕ
takes_threads h [] = 0
takes_threads h (t ∷ ts) = takes_all h t + takes_threads h ts

pub takes_all-append :
    (h : Handle) (xs ys : List Action) → takes_all h (xs ++ ys) ≡ takes_all h xs + takes_all h ys
takes_all-append h [] ys = omega arith
takes_all-append h (x ∷ xs) ys = omega (arith, takes_all-append h xs ys)

pub takes_threads-append :
    (h : Handle) (xs ys : List (List Action))
    → takes_threads h (xs ++ ys) ≡ takes_threads h xs + takes_threads h ys
takes_threads-append h [] ys = omega arith
takes_threads-append h (x ∷ xs) ys = omega (arith, takes_threads-append h xs ys)

pub takes_all-effects : (h : Handle) (es : List Effect) → takes_all h (map Action.effect es) ≡ 0
takes_all-effects h [] = refl
takes_all-effects h (e ∷ es) = omega (arith, takes_all-effects h es)

-- An owner that holds no worker.
abbrev pub gone : WorkerSlot → ℕ
gone none = 1
gone (some worker) = 0

-- The owners that were not made yet are empty.
abbrev pub IsFresh : World → Type 0
IsFresh w = (h : Handle) → w.next ≤ h → w.owners h ≡ none

-- Every owner holds what it held, and no handle was given back.
pub record Same (w v : World) : Type 0 where
  pub owners : v.owners ≡ w.owners
  pub grows : w.next ≤ v.next

abbrev pub same : {w : World} → Same w w
same = record { owners = refl; grows = omega arith }

with_state-Same : (s : State) (w : World) → Same w (with_state s w)
with_state-Same s w = record { owners = refl; grows = omega arith }

pub Same-IsFresh : {w v : World} → Same w v → IsFresh w → IsFresh v
Same-IsFresh s f h le = ap (λ o. o h) s.owners ∙ f h (omega (arith, s.grows, le))

pub recover-Same : (w : World) → Same w (recover w).0
unfolding recover
recover-Same w = record { owners = refl; grows = omega arith }

queue_on-Same :
    (d : Option CompletionDispatcher) (c : Completion) (event : ServiceEvent) (w : World)
    → Same w (queue_on d c event w).0
unfolding queue_on
queue_on-Same none c event w = same
queue_on-Same (some d) c event w = record { owners = refl; grows = omega arith }

pub perform-Same : (e : Effect) (w : World) → Same w (perform e w)
unfolding perform
perform-Same (Effect.cancel_once h) w = record { owners = refl; grows = omega arith }
perform-Same (Effect.request_stop h) w = record { owners = refl; grows = omega arith }
perform-Same (Effect.wake h error) w = record { owners = refl; grows = omega arith }
perform-Same (Effect.queue_completion c event) w = queue_on-Same w.dispatcher c event w

or_return-Same :
    (w : World) (body : World → World × List Effect)
    → Same w (body w).0
    → Same w (locked_or_return w body).0
unfolding locked_or_return
or_return-Same w body h =
    if_both (λ (r : World × List Effect). Same w r.0) w.poisoned (recover-Same w) h

on_state-Same :
    (w : World) (f : State → State × List Effect) → Same w (locked_or_return w (on_state f)).0
unfolding on_state
on_state-Same w f = or_return-Same w (on_state f) (record { owners = refl; grows = omega arith })

pub cancel_current-Same : (g : ℕ) (w : World) → Same w (cancel_current g w).0
unfolding cancel_current
cancel_current-Same g w = or_return-Same w (λ v. (v, cancel_current_effects g v.inner.state)) same

pub transition_to_stopping-Same :
    (g : ℕ) (reason : ServiceError) (w : World) → Same w (transition_to_stopping g reason w).0
unfolding transition_to_stopping
transition_to_stopping-Same g reason w =
    or_return-Same w (λ v. (with_state (transition_state g reason v.inner.state) v, []))
      (record { owners = refl; grows = omega arith })

pub finish_worker-Same :
    (g : ℕ) (o : ShutdownObservation) (w : World) → Same w (finish_worker g o w).0
unfolding finish_worker
finish_worker-Same g o w = on_state-Same w (finish_worker_state g o)

pub finish_creation_failure-Same :
    (g : ℕ) (e : ServiceError) (terminal : Bool) (q : Option Handle) (w : World)
    → Same w (finish_creation_failure g e terminal q w).0
unfolding finish_creation_failure
finish_creation_failure-Same g e terminal q w =
    on_state-Same w (finish_creation_failure_state g e terminal q)

pub mark_running-Same :
    (options : ServiceOptions) (port : ℕ) (w : World) → Same w (mark_running options port w).0
unfolding mark_running
mark_running-Same options port w =
    if_both (λ (r : World × List Effect × Option (List Completion)). Same w r.0) w.poisoned
      (recover-Same w) (record { owners = refl; grows = omega arith })

pub stop_after_startup-Same :
    (g : ℕ) (cancel lifecycle : Handle) (reason : ServiceError) (w : World)
    → Same w (stop_after_startup g cancel lifecycle reason w).0
unfolding stop_after_startup
stop_after_startup-Same g cancel lifecycle reason w =
    if_both (λ (r : World × List Effect × Bool). Same w r.0) w.poisoned (recover-Same w)
      (record { owners = refl; grows = omega arith })

start_stopped-Same :
    (options : ServiceOptions) (c : Completion) (w : World) → Same w (start_stopped options c w).0
unfolding start_stopped allocate
start_stopped-Same options c w =
    if_both (λ (r : World × List Effect × StartOutcome). Same w r.0)
      (bad_generation w.inner.last_generation options.generation) same
      (record { owners = refl; grows = omega arith })

abbrev StartSame : World → World × List Effect × StartOutcome → Type 0
StartSame w r = Same w r.0

start_match-Same :
    (s : State) (options : ServiceOptions) (c : Completion) (w : World)
    → StartSame w (start_match s options c w)
unfolding start_match
start_match-Same (State.failed f) options c w = same
start_match-Same (State.stopping s) options c w = same
start_match-Same (State.starting a) options c w =
    if_both (StartSame w) (options_eq a.options options) (with_state-Same _ w) same
start_match-Same (State.running r) options c w =
    if_both (StartSame w) (options_eq r.options options) same same
start_match-Same State.stopped options c w = start_stopped-Same options c w

pub start_locked-Same :
    (options : ServiceOptions) (c : Completion) (w : World) → Same w (start_locked options c w).0
unfolding start_locked
start_locked-Same options c w =
    if_both (StartSame w) w.poisoned (recover-Same w) (start_match-Same w.inner.state options c w)

abbrev StopSame : World → World × List Effect × StopOutcome → Type 0
StopSame w r = Same w r.0

stop_compare-Same :
    (g active : ℕ) (w : World) (r : World × List Effect × StopOutcome)
    → StopSame w r
    → StopSame w (stop_compare g active w r)
stop_compare-Same g active w r h =
    if_both (StopSame w) (ltb g active) same (if_both (StopSame w) (ltb active g) same h)

stop_match-Same : (s : State) (g : ℕ) (c : Completion) (w : World) → StopSame w (stop_match s g c w)
unfolding stop_match
stop_match-Same (State.failed f) g c w = same
stop_match-Same State.stopped g c w = if_both (StopSame w) (ltb w.inner.last_generation g) same same
stop_match-Same (State.starting a) g c w =
    stop_compare-Same g a.options.generation w _ (with_state-Same _ w)
stop_match-Same (State.running r) g c w =
    stop_compare-Same g r.options.generation w _ (with_state-Same _ w)
stop_match-Same (State.stopping s) g c w =
    stop_compare-Same g s.generation w _ (with_state-Same _ w)

pub stop_locked-Same : (g : ℕ) (c : Completion) (w : World) → Same w (stop_locked g c w).0
unfolding stop_locked
stop_locked-Same g c w =
    if_both (StopSame w) w.poisoned (recover-Same w) (stop_match-Same w.inner.state g c w)
