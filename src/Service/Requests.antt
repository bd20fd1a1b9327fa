-- ===== src/Service/Requests.antt =====
-- What a caller of `start` and `stop` of src/service.rs can rely on.
use bare_arti.Base.{ℕ, ◌≡◌, refl, ap, sym, ◌∙◌, true, false, some, List, [], ltb, if_both}
use bare_arti.Service.Types.{
  ServiceOptions, ServiceError, ServiceEvent, Result, ok, err, options_eq,
}
use bare_arti.Service.Dispatch.{Completion, CompletionDispatcher}
use bare_arti.Service.World.{World, State, queue_completion}
use bare_arti.Service.Effects.{Effect, perform_all}
use bare_arti.Service.Controller.{
  SpawnOutcome, StartOutcome, StopOutcome, start, stop, start_match, stop_match, stop_compare,
  finish_start, finish_stop, bad_generation,
}
use bare_arti.Service.Completions.Send.{queue_completion_lem}

ok-ne-err : {A : Type 0} {a : A} {e : ServiceError} → ok a ≡ err e → ⊥
ok-ne-err h = cc

-- A dispatcher that receives.
pub record IsDispatching (w : World) : Type 0 where
  pub dispatcher : CompletionDispatcher
  pub here : w.dispatcher ≡ some dispatcher
  pub receives : dispatcher.receiving ≡ true

queue_completion_ok :
    (c : Completion) (event : ServiceEvent) (w : World)
    → IsDispatching w
    → (queue_completion c event w).1 ≡ ok tt
queue_completion_ok c event w d =
    ap (λ (r : World × Result (Unit {0})). r.1)
      (queue_completion_lem c event w d.dispatcher d.here d.receives)

-- A block that rejects leaves the world and has no effects.
abbrev StartQuiet : World → World × List Effect × StartOutcome → Type 0
StartQuiet w (v, es, StartOutcome.rejected e) = (v ≡ w) × (es ≡ [])
StartQuiet w (v, es, StartOutcome.already_running event) = (v ≡ w) × (es ≡ [])
StartQuiet w r = Unit {0}

start_match_quiet :
    (s : State) (options : ServiceOptions) (c : Completion) (w : World)
    → StartQuiet w (start_match s options c w)
unfolding start_match
start_match_quiet (State.failed f) options c w = (refl, refl)
start_match_quiet (State.stopping s) options c w = (refl, refl)
start_match_quiet (State.starting a) options c w =
    if_both (StartQuiet w) (options_eq a.options options) tt (refl, refl)
start_match_quiet (State.running r) options c w =
    if_both (StartQuiet w) (options_eq r.options options) (refl, refl) (refl, refl)
start_match_quiet State.stopped options c w =
    if_both (StartQuiet w) (bad_generation w.inner.last_generation options.generation) (refl, refl)
      tt

finish_start_err :
    (answer : SpawnOutcome) (c : Completion) (w : World) (r : World × List Effect × StartOutcome)
    (e : ServiceError)
    → IsDispatching w
    → StartQuiet w r
    → (finish_start c answer r.2 (perform_all r.1 r.0)).1 ≡ err e
    → (finish_start c answer r.2 (perform_all r.1 r.0)).0 ≡ w
unfolding finish_start perform_all
finish_start_err answer c w (v, es, StartOutcome.rejected f) e d q h = rw (q.1) q.0
finish_start_err answer c w (v, es, StartOutcome.joined) e d q h = absurd (ok-ne-err h)
finish_start_err answer c w (v, es, StartOutcome.already_running event) e d q h =
    absurd (ok-ne-err (sym accepted ∙ h))
  where
    accepted : (queue_completion c event (perform_all es v)).1 ≡ ok tt
    accepted = rw (q.1) (rw (q.0) (queue_completion_ok c event w d))
finish_start_err answer c w (v, es, StartOutcome.launch task) e d q h = absurd (ok-ne-err h)

-- Where the mutex is not poisoned and the dispatcher receives, a `start` that returns an error has
-- changed nothing at all: no state, no channel, no completion.
pub start_err_unchanged :
    (answer : SpawnOutcome) (options : ServiceOptions) (c : Completion) (w : World)
    {e : ServiceError}
    → w.poisoned ≡ false
    → IsDispatching w
    → (start answer options c w).1 ≡ err e
    → (start answer options c w).0 ≡ w
unfolding start
start_err_unchanged answer options c w {e} sound d = simp sound (
    finish_start_err answer c w (start_match w.inner.state options c w) e d
      (start_match_quiet w.inner.state options c w))

abbrev StopQuiet : World → World × List Effect × StopOutcome → Type 0
StopQuiet w (v, es, StopOutcome.accepted) = Unit {0}
StopQuiet w (v, es, outcome) = (v ≡ w) × (es ≡ [])

stop_compare_quiet :
    (g active : ℕ) (w : World) (same : World × List Effect × StopOutcome)
    → StopQuiet w same
    → StopQuiet w (stop_compare g active w same)
stop_compare_quiet g active w same h =
    if_both (StopQuiet w) (ltb g active) (refl, refl)
      (if_both (StopQuiet w) (ltb active g) (refl, refl) h)

stop_match_quiet :
    (s : State) (g : ℕ) (c : Completion) (w : World) → StopQuiet w (stop_match s g c w)
unfolding stop_match
stop_match_quiet (State.failed f) g c w = (refl, refl)
stop_match_quiet State.stopped g c w =
    if_both (StopQuiet w) (ltb w.inner.last_generation g) (refl, refl) (refl, refl)
stop_match_quiet (State.starting a) g c w = stop_compare_quiet g a.options.generation w _ tt
stop_match_quiet (State.running r) g c w = stop_compare_quiet g r.options.generation w _ tt
stop_match_quiet (State.stopping s) g c w = stop_compare_quiet g s.generation w _ tt

finish_stop_err :
    (g : ℕ) (c : Completion) (w : World) (r : World × List Effect × StopOutcome) (e : ServiceError)
    → IsDispatching w
    → StopQuiet w r
    → (finish_stop g c r.2 (perform_all r.1 r.0)).1 ≡ err e
    → (finish_stop g c r.2 (perform_all r.1 r.0)).0 ≡ w
unfolding finish_stop perform_all
finish_stop_err g c w (v, es, StopOutcome.rejected f) e d q h = rw (q.1) q.0
finish_stop_err g c w (v, es, StopOutcome.accepted) e d q h = absurd (ok-ne-err h)
finish_stop_err g c w (v, es, StopOutcome.stale) e d q h = absurd (ok-ne-err (sym answered ∙ h))
  where
    answered : (queue_completion c (ServiceEvent.stopped g) (perform_all es v)).1 ≡ ok tt
    answered = rw (q.1) (rw (q.0) (queue_completion_ok c (ServiceEvent.stopped g) w d))

-- Where the mutex is not poisoned and the dispatcher receives, a `stop` that returns an error has
-- changed nothing at all: no state, no channel, no completion.
pub stop_err_unchanged :
    (g : ℕ) (c : Completion) (w : World) {e : ServiceError}
    → w.poisoned ≡ false
    → IsDispatching w
    → (stop g c w).1 ≡ err e
    → (stop g c w).0 ≡ w
unfolding stop
stop_err_unchanged g c w {e} sound d = simp sound (
    finish_stop_err g c w (stop_match w.inner.state g c w) e d
      (stop_match_quiet w.inner.state g c w))
