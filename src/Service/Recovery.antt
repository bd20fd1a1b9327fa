-- ===== src/Service/Recovery.antt =====
-- What a call does on a mutex that a panic has poisoned, in src/service.rs.
use bare_arti.Base.{
  ℕ, ◌≡◌, refl, sym, ap, ◌∙◌, Bool, true, false, some, List, [], ◌∷◌, ◌++◌, arith, append-nil,
  subst,
}
use bare_arti.Service.Dispatch.{CompletionItem, Completion}
use bare_arti.Service.Types.{failed_event, cancelled_error, ServiceOptions, ServiceError, err}
use bare_arti.Service.World.{World, State, Inner}
use bare_arti.Service.Effects.{
  Effect, cancel_once, request_stop, wake, perform, perform_all, queue_all,
}
use bare_arti.Service.Lock.{locked, poison_error, recover_state}
use bare_arti.Service.Controller.{
  SpawnOutcome, start, stop, start_locked, stop_locked, finish_start, finish_stop,
}
use bare_arti.Service.Requests.{IsDispatching}
use bare_arti.Service.Stops.{IsTold}
use bare_arti.Service.Completions.Count.{failure}
use bare_arti.Service.Sends.{Sent, Sent-then, items, perform_all-append, queue_all-Sent, with_event}

-- The error that is left: the first failure, or that of the mutex.
abbrev pub last_error : State → ServiceError
last_error (State.failed f) = f.error
last_error s = poison_error

-- What the pending completions are told: the failure of their generation.
abbrev pub answers : State → List CompletionItem
answers (State.starting a) =
    with_event a.start_completions (failed_event a.options.generation poison_error)
answers (State.stopping s) =
    with_event s.start_completions (failed_event s.generation poison_error)
    ++ with_event s.stop_completions (failed_event s.generation poison_error)
answers s = []

-- From `w` in state `s` to `v`: the mutex is usable and the service has failed, every completion that
-- was pending has been sent its failure, and the end of the worker has been asked for.
pub record IsRecovered (s : State) (w v : World) : Type 0 where
  pub usable : v.poisoned ≡ false
  pub has_failed : failure v.inner.state ≡ some (last_error s)
  pub answered : items v.dispatcher ≡ items w.dispatcher ++ answers s
  pub told : IsTold s v

IsTold-same :
    (s : State) (u v : World)
    → v.cancels ≡ u.cancels
    → v.lifecycles ≡ u.lifecycles
    → IsTold s u
    → IsTold s v
IsTold-same State.stopped u v c l h = tt
IsTold-same (State.starting a) u v c l h =
    (ap (λ f. (f a.cancel).held) c ∙ h.0, ap (λ f. (f a.lifecycle).stop_requested) l ∙ h.1)
IsTold-same (State.running r) u v c l h =
    (ap (λ f. (f r.cancel).held) c ∙ h.0, ap (λ f. (f r.lifecycle).stop_requested) l ∙ h.1)
IsTold-same (State.stopping s) u v c l h = tt
IsTold-same (State.failed f) u v c l h = tt

-- After the signals `u`, the completions are sent.
Sent-IsRecovered :
    (s : State) (w u v : World)
    → u.poisoned ≡ false
    → failure u.inner.state ≡ some (last_error s)
    → u.dispatcher ≡ w.dispatcher
    → IsTold s u
    → Sent u v (answers s)
    → IsRecovered s w v
Sent-IsRecovered s w u v usable failed d told t = record {
  usable = t.poisoned ∙ usable;
  has_failed = ap (λ (i : Inner). failure i.state) t.inner ∙ failed;
  answered = t.sent ∙ ap (λ x. items x ++ answers s) d;
  told = IsTold-same s u v t.cancels t.lifecycles told;
}

IsDispatching-same : (w u : World) → u.dispatcher ≡ w.dispatcher → IsDispatching w → IsDispatching u
IsDispatching-same w u e d = record {
  dispatcher = d.dispatcher;
  here = e ∙ d.here;
  receives = d.receives;
}

-- The mutex and the state that a recovery leaves.
abbrev reset : State → World → World
reset s w = record w {
  inner = record { state = (recover_state s).0; last_generation = w.inner.last_generation };
  poisoned = false;
}

abbrev settled_from : State → World → World
settled_from s w = perform_all (recover_state s).1 (reset s w)

-- What is sent to the worker and its gate, before the completions.
abbrev signals : State → List Effect
signals (State.starting a) =
    cancel_once a.cancel ∷ request_stop a.lifecycle ∷ wake a.startup_waker cancelled_error ∷ []
signals (State.stopping s) = cancel_once s.cancel ∷ request_stop s.lifecycle ∷ []
signals s = []

abbrev told_of : State → World → World
told_of s w = perform_all (signals s) (reset s w)

settled-IsRecovered : (s : State) (w : World) → IsDispatching w → IsRecovered s w (settled_from s w)
unfolding recover_state perform_all perform
settled-IsRecovered State.stopped w d = record {
  usable = refl;
  has_failed = refl;
  answered = sym (append-nil _);
  told = tt;
}
settled-IsRecovered (State.failed f) w d = record {
  usable = refl;
  has_failed = refl;
  answered = sym (append-nil _);
  told = tt;
}
settled-IsRecovered (State.running r) w d = record {
  usable = refl;
  has_failed = refl;
  answered = sym (append-nil _);
  told = ground arith;
}
settled-IsRecovered (State.starting a) w d =
    let u = told_of (State.starting a) w in
    Sent-IsRecovered (State.starting a) w u _ refl refl refl (ground arith)
      (queue_all-Sent a.start_completions _ u (IsDispatching-same w u refl d))
settled-IsRecovered (State.stopping s) w d =
    let u = told_of (State.stopping s) w in
    let event = failed_event s.generation poison_error in
    let first = queue_all-Sent s.start_completions event u (IsDispatching-same w u refl d) in
    Sent-IsRecovered (State.stopping s) w u _ refl refl refl tt (
      subst (λ v. Sent u v (answers (State.stopping s)))
        (sym (
          perform_all-append (queue_all s.start_completions event)
            (queue_all s.stop_completions event) u))
        (Sent-then first (queue_all-Sent s.stop_completions event _ first.dispatching)))

-- What a start and a stop give on a mutex that is poisoned: the error, and the recovery.
abbrev pub Refuses : SpawnOutcome → ServiceOptions → ℕ → Completion → World → Type 0
Refuses answer options g c w =
    let started = start answer options c w in
    let stopped = stop g c w in
    (started.1 ≡ err poison_error)
    × IsRecovered w.inner.state w started.0
    × (stopped.1 ≡ err poison_error)
    × IsRecovered w.inner.state w stopped.0

abbrev at_state : State → Bool → World → World
at_state s p w = record w {
  inner = record { state = s; last_generation = w.inner.last_generation };
  poisoned = p;
}

Refuses-at_poison :
    (answer : SpawnOutcome) (options : ServiceOptions) (g : ℕ) (c : Completion) (s : State)
    (p : Bool) (w : World)
    → p ≡ true
    → IsDispatching (at_state s p w)
    → Refuses answer options g c (at_state s p w)
unfolding start start_locked finish_start stop stop_locked finish_stop perform_all locked
Refuses-at_poison answer options g c s false w p d = cc
Refuses-at_poison answer options g c s true w p d =
    let r = settled-IsRecovered s (at_state s true w) d in (refl, r, refl, r)

-- A start and a stop that find the mutex poisoned by a panic, whatever the state is and whatever they
-- ask for, return the error of the poisoned mutex and recover it: it is usable again, the service has
-- failed, with the error of the mutex or its first failure, every completion that was pending has been
-- sent that its generation failed, in its order, and the end of the worker of a generation that was
-- starting or running has been asked for. The dispatcher is assumed to be receiving.
pub poisoned_call_recovers :
    (answer : SpawnOutcome) (options : ServiceOptions) (g : ℕ) (c : Completion) (w : World)
    → w.poisoned ≡ true
    → IsDispatching w
    → Refuses answer options g c w
poisoned_call_recovers answer options g c w =
    Refuses-at_poison answer options g c w.inner.state w.poisoned w
