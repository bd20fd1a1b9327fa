-- ===== src/Service/Progress/Load.antt =====
-- How much a thread still has to do, at most, besides the completions that it sends.
use bare_arti.Base.{
  ℕ, ◌+◌, ◌≤◌, ◌≡◌, refl, ap, Bool, true, false, Option, none, some, List, [], ◌∷◌, ◌++◌, map,
  arith, if_split, if_both, ◌==◌,
}
use bare_arti.Service.Types.{ServiceError, ServiceEvent}
use bare_arti.Service.Dispatch.{Completion}
use bare_arti.Service.World.{World, Handle, State, Stopping, with_state}
use bare_arti.Service.Effects.{Effect, queue_all}
use bare_arti.Service.Lock.{recover, recover_state, locked_or_return}
use bare_arti.Service.Sections.{
  ShutdownObservation, on_state, finish_worker, finish_worker_state, finish_stopping,
  terminal_error, finish_creation_failure, finish_creation_failure_state, cancel_current,
  cancel_current_effects, transition_to_stopping, transition_state,
}
use bare_arti.Service.Supervisor.{Action}

-- The effects that send no completion.
abbrev pub signals : List Effect → ℕ
signals [] = 0
signals (Effect.queue_completion c event ∷ es) = signals es
signals (_ ∷ es) = 1 + signals es

pub signals-append : (xs ys : List Effect) → signals (xs ++ ys) ≡ signals xs + signals ys
signals-append [] ys = omega arith
signals-append (Effect.queue_completion c event ∷ xs) ys = signals-append xs ys
signals-append (Effect.cancel_once h ∷ xs) ys = omega (arith, signals-append xs ys)
signals-append (Effect.request_stop h ∷ xs) ys = omega (arith, signals-append xs ys)
signals-append (Effect.wake h e ∷ xs) ys = omega (arith, signals-append xs ys)

pub signals-queue_all :
    (cs : List Completion) (event : ServiceEvent) → signals (queue_all cs event) ≡ 0
unfolding queue_all
signals-queue_all [] event = refl
signals-queue_all (c ∷ cs) event = signals-queue_all cs event

signals-both :
    (xs ys : List Completion) (e f : ServiceEvent) → signals (queue_all xs e ++ queue_all ys f) ≡ 0
signals-both xs ys e f = omega (
  arith,
  signals-append (queue_all xs e) (queue_all ys f),
  signals-queue_all xs e,
  signals-queue_all ys f,
)

-- More than a thread can make of each action.
abbrev pub load : Action → ℕ
load (Action.effect (Effect.queue_completion c event)) = 0
load (Action.effect e) = 1
load (Action.spawn_supervisor task) = 17
load (Action.spawn_worker task) = 16
load (Action.own_worker task worker) = 15
load (Action.spawn_reaper task owner) = 14
load (Action.wait_gate task owner) = 9
load (Action.become_running task owner port) = 8
load (Action.wait_running task owner) = 7
load (Action.stop_startup task reason) = 6
load (Action.wait_stopping lifecycle after) = 3
load (Action.observe result after) = 2
load (Action.cancel_current g) = 4
load (Action.drop_task task) = 1
load (Action.finish_creation_failure g e t q) = 1
load (Action.finish_worker g o) = 1
load (Action.transition_to_stopping g reason) = 1
load (Action.reap owner lifecycle channel) = 4
load (Action.join worker lifecycle channel) = 3
load (Action.report result lifecycle channel) = 2

abbrev pub load_all : List Action → ℕ
load_all [] = 0
load_all (a ∷ as_) = load a + load_all as_

abbrev pub load_threads : List (List Action) → ℕ
load_threads [] = 0
load_threads (t ∷ ts) = load_all t + load_threads ts

pub load_all-append : (xs ys : List Action) → load_all (xs ++ ys) ≡ load_all xs + load_all ys
load_all-append [] ys = omega arith
load_all-append (x ∷ xs) ys = omega (arith, load_all-append xs ys)

pub load_threads-append :
    (xs ys : List (List Action)) → load_threads (xs ++ ys) ≡ load_threads xs + load_threads ys
load_threads-append [] ys = omega arith
load_threads-append (x ∷ xs) ys = omega (arith, load_threads-append xs ys)

pub load_all-effects : (es : List Effect) → load_all (map Action.effect es) ≡ signals es
load_all-effects [] = refl
load_all-effects (Effect.queue_completion c event ∷ es) = omega (arith, load_all-effects es)
load_all-effects (Effect.cancel_once h ∷ es) = omega (arith, load_all-effects es)
load_all-effects (Effect.request_stop h ∷ es) = omega (arith, load_all-effects es)
load_all-effects (Effect.wake h e ∷ es) = omega (arith, load_all-effects es)

-- A poisoned mutex makes the next section send at most three signals, once.
abbrev pub poison_load : Bool → ℕ
poison_load true = 4
poison_load false = 0

-- A section makes at most `k` signals, but for those of a recovery.
abbrev pub Calm : ℕ → World → World × List Effect → Type 0
Calm k w r = signals r.1 + poison_load r.0.poisoned ≤ poison_load w.poisoned + k

signals-recover_state : (s : State) → signals (recover_state s).1 ≤ 3
unfolding recover_state
signals-recover_state State.stopped = omega arith
signals-recover_state (State.failed f) = omega arith
signals-recover_state (State.running r) = omega arith
signals-recover_state (State.starting a) = omega (arith, signals-queue_all a.start_completions _)
signals-recover_state (State.stopping s) =
    omega (arith, signals-both s.start_completions s.stop_completions _ _)

pub signals-recover : (w : World) → signals (recover w).1 + poison_load (recover w).0.poisoned ≤ 3
unfolding recover
signals-recover w = omega (arith, signals-recover_state w.inner.state)

or_return-Calm :
    (k : ℕ) (w : World) (body : World → World × List Effect)
    → Calm k w (body w)
    → Calm k w (locked_or_return w body)
unfolding locked_or_return
or_return-Calm k w body h =
    if_split (Calm k w) w.poisoned (λ p. ground (arith, signals-recover w)) (λ p. h)

-- A body that keeps the poison and sends no signal.
silent-Calm :
    (w : World) (r : World × List Effect) → r.0.poisoned ≡ w.poisoned → signals r.1 ≡ 0 → Calm 0 w r
silent-Calm w r p s = omega (arith, ap poison_load p, s)

signals-finish_stopping :
    (g : ℕ) (s : Stopping) (q : Option Handle) (e : Option ServiceError)
    → signals (finish_stopping g s q e).1 ≡ 0
unfolding finish_stopping
signals-finish_stopping g s q none = signals-both s.start_completions s.stop_completions _ _
signals-finish_stopping g s q (some e) = signals-both s.start_completions s.stop_completions _ _

signals-finish_worker_state :
    (g : ℕ) (o : ShutdownObservation) (s : State) → signals (finish_worker_state g o s).1 ≡ 0
unfolding finish_worker_state
signals-finish_worker_state g o State.stopped = refl
signals-finish_worker_state g o (State.starting a) = refl
signals-finish_worker_state g o (State.failed f) = refl
signals-finish_worker_state g o (State.running r) =
    if_both (λ (r : State × List Effect). signals r.1 ≡ 0) (r.options.generation == g) refl refl
signals-finish_worker_state g o (State.stopping s) =
    if_both (λ (r : State × List Effect). signals r.1 ≡ 0) (s.generation == g)
      (signals-finish_stopping g s o.quarantine (terminal_error s o.result)) refl

failure_state_signals :
    (g : ℕ) (e : ServiceError) (t : Bool) (q : Option Handle) (s : State)
    → signals (finish_creation_failure_state g e t q s).1 ≡ 0
unfolding finish_creation_failure_state
failure_state_signals g e t q State.stopped = refl
failure_state_signals g e t q (State.running r) = refl
failure_state_signals g e t q (State.failed f) = refl
failure_state_signals g e t q (State.starting a) =
    if_both (λ (r : State × List Effect). signals r.1 ≡ 0) (a.options.generation == g)
      (signals-queue_all a.start_completions _) refl
failure_state_signals g e t q (State.stopping s) =
    if_both (λ (r : State × List Effect). signals r.1 ≡ 0) (s.generation == g)
      (signals-both s.start_completions s.stop_completions _ _) refl

cancel_effects_signals : (g : ℕ) (s : State) → signals (cancel_current_effects g s) ≤ 3
unfolding cancel_current_effects
cancel_effects_signals g (State.starting a) =
    if_both (λ (es : List Effect). signals es ≤ 3) (a.options.generation == g) (omega arith)
      (omega arith)
cancel_effects_signals g s = omega arith

pub finish_worker-Calm :
    (g : ℕ) (o : ShutdownObservation) (w : World) → Calm 0 w (finish_worker g o w)
unfolding finish_worker
finish_worker-Calm g o w = or_return-Calm 0 w (on_state (finish_worker_state g o)) (
    silent-Calm w (on_state (finish_worker_state g o) w) refl
      (signals-finish_worker_state g o w.inner.state))

pub finish_creation_failure-Calm :
    (g : ℕ) (e : ServiceError) (t : Bool) (q : Option Handle) (w : World)
    → Calm 0 w (finish_creation_failure g e t q w)
unfolding finish_creation_failure
finish_creation_failure-Calm g e t q w =
    or_return-Calm 0 w (on_state (finish_creation_failure_state g e t q)) (
      silent-Calm w (on_state (finish_creation_failure_state g e t q) w) refl
        (failure_state_signals g e t q w.inner.state))

pub cancel_current-Calm : (g : ℕ) (w : World) → Calm 3 w (cancel_current g w)
unfolding cancel_current
cancel_current-Calm g w =
    or_return-Calm 3 w (λ v. (v, cancel_current_effects g v.inner.state))
      (omega (arith, cancel_effects_signals g w.inner.state))

pub transition_to_stopping-Calm :
    (g : ℕ) (reason : ServiceError) (w : World) → Calm 0 w (transition_to_stopping g reason w)
unfolding transition_to_stopping
transition_to_stopping-Calm g reason w =
    or_return-Calm 0 w (λ v. (with_state (transition_state g reason v.inner.state) v, []))
      (silent-Calm w (with_state (transition_state g reason w.inner.state) w, []) refl refl)
