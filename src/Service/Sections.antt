-- ===== src/Service/Sections.antt =====
-- The functions of src/service.rs that take the mutex of `Shared.inner`: each is one critical
-- section on the world, and returns the effects that follow the release of the mutex.
--
-- Helpers by clauses on the state stand for the `match` on `inner.state`.
mod Finish
unfoldable pub use Finish.*
use bare_arti.Base.{
  ℕ, Bool, true, false, ◌&&◌, Option, none, some, List, [], ◌∷◌, ◌++◌, ◌==◌, if◌then◌else◌,
}
use bare_arti.Service.Types.{ServiceOptions, ServiceError, options_eq, cancelled_error}
use bare_arti.Service.Dispatch.{Completion}
use bare_arti.Service.World.{
  World, Handle, State, stopped, starting, running, stopping, failed, with_state,
}
use bare_arti.Service.Effects.{Effect, cancel_once, request_stop, wake}
use bare_arti.Service.Lock.{recover, locked, locked_or_return}

-- `mark_running`: the completions of the start, or `none`.
unfoldable pub mark_running_state : ServiceOptions → ℕ → State → State × Option (List Completion)
mark_running_state options port (starting a) =
    if options_eq a.options options
    then (
      running
          (record { options = a.options; cancel = a.cancel; lifecycle = a.lifecycle; port = port }),
      some a.start_completions,
    )
    else (starting a, none)
mark_running_state options port s = (s, none)

unfoldable pub mark_running :
    ServiceOptions → ℕ → World → World × List Effect × Option (List Completion)
unfolding mark_running_state locked
mark_running options port w = locked w none (λ v.
    let (s, completions) = mark_running_state options port v.inner.state in
    (with_state s v, [], completions))

-- The block of `stop_after_startup` and the two calls after it; what follows is a wait. On a poisoned
-- mutex the same calls are made after the recovery.
unfoldable pub stop_starting : ℕ → ServiceError → State → State
stop_starting generation reason (starting a) =
    if a.options.generation == generation
    then stopping (record {
      generation = generation;
      was_running = false;
      cancel = a.cancel;
      lifecycle = a.lifecycle;
      start_completions = a.start_completions;
      stop_completions = [];
      reason = reason;
    })
    else starting a
stop_starting generation reason s = s

-- The last part is `true` where the mutex was poisoned: the wait's result is then thrown away.
unfoldable pub stop_after_startup :
    ℕ → (cancel lifecycle : Handle) → ServiceError → World → World × List Effect × Bool
unfolding stop_starting recover
stop_after_startup generation cancel lifecycle reason w =
    if w.poisoned
    then ((recover w).0, (recover w).1 ++ cancel_once cancel ∷ request_stop lifecycle ∷ [], true)
    else (
      with_state (stop_starting generation reason w.inner.state) w,
      cancel_once cancel ∷ request_stop lifecycle ∷ [],
      false,
    )

-- `cancel_current` leaves the state alone.
unfoldable pub cancel_current_effects : ℕ → State → List Effect
cancel_current_effects generation (starting a) =
    if a.options.generation == generation
    then cancel_once a.cancel ∷ request_stop a.lifecycle ∷ wake a.startup_waker cancelled_error ∷ []
    else []
cancel_current_effects generation s = []

unfoldable pub cancel_current : ℕ → World → World × List Effect
unfolding cancel_current_effects locked_or_return
cancel_current generation w =
    locked_or_return w (λ v. (v, cancel_current_effects generation v.inner.state))

unfoldable pub transition_state : ℕ → ServiceError → State → State
transition_state generation reason (starting a) =
    if a.options.generation == generation
    then stopping (record {
      generation = generation;
      was_running = false;
      cancel = a.cancel;
      lifecycle = a.lifecycle;
      start_completions = a.start_completions;
      stop_completions = [];
      reason = reason;
    })
    else starting a
transition_state generation reason (running r) =
    if r.options.generation == generation
    then stopping (record {
      generation = generation;
      was_running = true;
      cancel = r.cancel;
      lifecycle = r.lifecycle;
      start_completions = [];
      stop_completions = [];
      reason = reason;
    })
    else running r
transition_state generation reason s = s

unfoldable pub transition_to_stopping : ℕ → ServiceError → World → World × List Effect
unfolding transition_state locked_or_return
transition_to_stopping generation reason w =
    locked_or_return w (λ v. (with_state (transition_state generation reason v.inner.state) v, []))
