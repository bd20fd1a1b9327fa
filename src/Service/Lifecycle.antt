-- ===== src/Service/Lifecycle.antt =====
-- `WorkerLifecycle` of src/service.rs: what the controller and the reaper tell the supervisor.
--
-- The mutex of a lifecycle never fails (`lock_lifecycle` takes a poisoned one over), and each
-- method below is one critical section. A wait on the condition variable is a section that finds
-- nothing and is tried again: `wait_running` and `wait_stopping` return `none` for "still waiting".
use bare_arti.Base.{ℕ, Bool, true, false, Option, none, some}
use bare_arti.Service.Types.{WorkerResult, err, stop_timeout_error}

pub record LifecycleState : Type 0 where
  pub stop_requested : Bool
  pub worker_result : Option WorkerResult

pub data RunningOutcome : Type 0 where
  stop_requested : RunningOutcome
  exited : WorkerResult → RunningOutcome

unfoldable pub new : LifecycleState
new = record { stop_requested = false; worker_result = none }

unfoldable pub request_stop : LifecycleState → LifecycleState
request_stop state = record state { stop_requested = true }

unfoldable pub worker_exited : WorkerResult → LifecycleState → LifecycleState
worker_exited result state = record state { worker_result = some result }

-- The test of one round of the loop: the worker's result first, then the request.
unfoldable pub running_round :
    Option WorkerResult → Bool → LifecycleState → Option (LifecycleState × RunningOutcome)
running_round (some result) requested state =
    some (record state { worker_result = none }, RunningOutcome.exited result)
running_round none true state = some (state, RunningOutcome.stop_requested)
running_round none false state = none

unfoldable pub wait_running : LifecycleState → Option (LifecycleState × RunningOutcome)
unfolding running_round
wait_running state = running_round state.worker_result state.stop_requested state

-- One look of `wait_stopping`; `timed_out` says that the whole duration has gone by.
unfoldable pub stopping_round :
    (duration : ℕ)
    → Bool
    → Option WorkerResult
    → LifecycleState
    → Option (LifecycleState × WorkerResult)
stopping_round duration timed_out (some result) state =
    some (record state { worker_result = none }, result)
stopping_round duration true none state = some (state, err (stop_timeout_error duration))
stopping_round duration false none state = none

unfoldable pub wait_stopping :
    (duration : ℕ) → Bool → LifecycleState → Option (LifecycleState × WorkerResult)
unfolding stopping_round
wait_stopping duration timed_out state = stopping_round duration timed_out state.worker_result state
