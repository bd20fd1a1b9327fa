-- ===== src/Service/Lock.antt =====
-- `lock_inner` of src/service.rs: the mutex of `Shared.inner`, and what is done when it is poisoned.
use bare_arti.Base.{false, none, List, [], ◌∷◌, ◌++◌, if◌then◌else◌}
use bare_arti.Service.Types.{ServiceError, shutdown_error, cancelled_error, failed_event}
use bare_arti.Service.World.{World, State}
use bare_arti.Service.Effects.{Effect, cancel_once, request_stop, wake, queue_all}

unfoldable pub poison_error : ServiceError
poison_error = shutdown_error "Arti service state mutex was poisoned"

abbrev terminal_state : State
terminal_state = State.failed (record { error = poison_error; quarantine = none })

-- The new state, and the effects: the owned worker is cancelled and every completion is answered.
-- The last two cases have no completion and nothing to cancel.
unfoldable pub recover_state : State → State × List Effect
recover_state (State.starting active) = (
  terminal_state,
  cancel_once active.cancel
      ∷ request_stop active.lifecycle
      ∷ wake active.startup_waker cancelled_error
      ∷ queue_all active.start_completions (failed_event active.options.generation poison_error),
)
recover_state (State.running active) =
    (terminal_state, cancel_once active.cancel ∷ request_stop active.lifecycle ∷ [])
recover_state (State.stopping active) = (
  terminal_state,
  cancel_once active.cancel
        ∷ request_stop active.lifecycle
        ∷ queue_all active.start_completions (failed_event active.generation poison_error)
      ++ queue_all active.stop_completions (failed_event active.generation poison_error),
)
recover_state (State.failed f) = (State.failed f, [])
recover_state State.stopped = (terminal_state, [])

-- The world with the poison cleared.
unfoldable pub recover : World → World × List Effect
unfolding recover_state
recover w =
    let (s, es) = recover_state w.inner.state in
    (
      record w {
        inner = record { state = s; last_generation = w.inner.last_generation };
        poisoned = false;
      },
      es,
    )

-- A critical section: `body` if the lock is granted, else the recovery and the `Err` of `lock_inner`.
unfoldable pub locked {ℓ} :
    {B : Type ℓ} → World → B → (World → World × List Effect × B) → World × List Effect × B
unfolding recover
locked w failed body = if w.poisoned then ((recover w).0, (recover w).1, failed) else body w

-- The same where an `Err` of `lock_inner` means `return`.
unfoldable pub locked_or_return : World → (World → World × List Effect) → World × List Effect
unfolding recover
locked_or_return w body = if w.poisoned then recover w else body w
