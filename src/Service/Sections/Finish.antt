-- ===== src/Service/Sections/Finish.antt =====
-- The sections that end a generation: `finish_worker` and `finish_creation_failure`.
use mathlib.Core.Option
use bare_arti.Base.{
  ℕ, Bool, true, false, Option, none, some, List, [], ◌++◌, ◌==◌, if◌then◌else◌, text_eq,
}
use bare_arti.Service.Types.{
  ServiceError, ServiceEvent, WorkerResult, err_of, shutdown_code, unexpected_exit_error,
  failed_event,
}
use bare_arti.Service.World.{World, Handle, State, Stopping, with_state}
use bare_arti.Service.Effects.{Effect, queue_all}
use bare_arti.Service.Lock.{locked_or_return}

pub record ShutdownObservation : Type 0 where
  pub result : WorkerResult
  pub quarantine : Option Handle

unfoldable pub is_shutdown : ServiceError → Bool
is_shutdown error = text_eq error.code shutdown_code

-- `Option::filter` by the shutdown code.
unfoldable pub only_shutdown : Option ServiceError → Option ServiceError
unfolding is_shutdown
only_shutdown none = none
only_shutdown (some error) = if is_shutdown error then some error else none

-- The error that makes the end of a stopping generation terminal, if there is one.
unfoldable pub terminal_error : Stopping → WorkerResult → Option ServiceError
unfolding only_shutdown is_shutdown
terminal_error s result =
    if is_shutdown s.reason
    then some s.reason
    else if s.was_running
    then Option.map (λ error. unexpected_exit_error (some error)) (err_of result)
    else only_shutdown (err_of result)

unfoldable pub finish_stopping :
    ℕ → Stopping → Option Handle → Option ServiceError → State × List Effect
finish_stopping generation s quarantine (some error) = (
  State.failed (record { error = error; quarantine = quarantine }),
  queue_all s.start_completions (failed_event generation error)
      ++ queue_all s.stop_completions (failed_event generation error),
)
finish_stopping generation s quarantine none = (
  State.stopped,
  queue_all s.start_completions (failed_event generation s.reason)
      ++ queue_all s.stop_completions (ServiceEvent.stopped generation),
)

-- `if failed._quarantine.is_none() { failed._quarantine = quarantine; }`
unfoldable pub keep_quarantine : Option Handle → Option Handle → Option Handle
keep_quarantine none new = new
keep_quarantine (some held) new = some held

unfoldable pub finish_worker_state : ℕ → ShutdownObservation → State → State × List Effect
unfolding finish_stopping terminal_error keep_quarantine
finish_worker_state generation o (State.stopping s) =
    if s.generation == generation
    then finish_stopping generation s o.quarantine (terminal_error s o.result)
    else (State.stopping s, [])
finish_worker_state generation o (State.running r) =
    if r.options.generation == generation
    then (
      State.failed
          (record { error = unexpected_exit_error (err_of o.result); quarantine = o.quarantine }),
      [],
    )
    else (State.running r, [])
finish_worker_state generation o (State.failed f) = (
  State.failed (record { error = f.error; quarantine = keep_quarantine f.quarantine o.quarantine }),
  [],
)
finish_worker_state generation o (State.starting a) = (State.starting a, [])
finish_worker_state generation o State.stopped = (State.stopped, [])

-- A section that only replaces the state.
unfoldable pub on_state : (State → State × List Effect) → World → World × List Effect
on_state f w = let (s, es) = f w.inner.state in (with_state s w, es)

unfoldable pub finish_worker : ℕ → ShutdownObservation → World → World × List Effect
unfolding finish_worker_state on_state locked_or_return
finish_worker generation o w = locked_or_return w (on_state (finish_worker_state generation o))

-- `terminal` says whether the service fails for good or may be started again.
abbrev pub end_state : ServiceError → Bool → Option Handle → State
end_state error true quarantine = State.failed (record { error = error; quarantine = quarantine })
end_state error false quarantine = State.stopped

abbrev pub stop_event : ℕ → ServiceError → Bool → ServiceEvent
stop_event generation error true = failed_event generation error
stop_event generation error false = ServiceEvent.stopped generation

unfoldable pub finish_creation_failure_state :
    ℕ → ServiceError → Bool → Option Handle → State → State × List Effect
finish_creation_failure_state generation error terminal quarantine (State.starting a) =
    if a.options.generation == generation
    then (
      end_state error terminal quarantine,
      queue_all a.start_completions (failed_event generation error),
    )
    else (State.starting a, [])
finish_creation_failure_state generation error terminal quarantine (State.stopping s) =
    if s.generation == generation
    then (
      end_state error terminal quarantine,
      queue_all s.start_completions (failed_event generation error)
          ++ queue_all s.stop_completions (stop_event generation error terminal),
    )
    else (State.stopping s, [])
finish_creation_failure_state generation error terminal quarantine (State.running r) =
    (State.running r, [])
finish_creation_failure_state generation error terminal quarantine (State.failed f) =
    (State.failed f, [])
finish_creation_failure_state generation error terminal quarantine State.stopped =
    (State.stopped, [])

unfoldable pub finish_creation_failure :
    ℕ → ServiceError → Bool → Option Handle → World → World × List Effect
unfolding finish_creation_failure_state on_state locked_or_return
finish_creation_failure generation error terminal quarantine w =
    locked_or_return w
      (on_state (finish_creation_failure_state generation error terminal quarantine))
