-- ===== src/Tests/Calls.antt =====
-- The theorems on single sections and calls of src/service.rs, at concrete inputs.
use bare_arti.Tests.{options_one, fresh, fresh-IsDispatching}
use bare_arti.Base.{◌≡◌, refl, true, none, [], ◌∷◌, ◌++◌, ◌⊎◌}
use bare_arti.Service.Types.{
  ServiceOptions, ServiceError, ServiceEvent, err, generation_error, cancelled_error, failed_event,
}
use bare_arti.Service.World.{with_dependencies, State, Stopping}
use bare_arti.Service.Controller.{
  stop_locked, start_locked, SpawnOutcome, start, stop, finish_start, finish_stop,
}
use bare_arti.Service.Requests.{start_err_unchanged, stop_err_unchanged}
use bare_arti.Service.Sections.{ShutdownObservation, finish_worker_state}
use bare_arti.Service.Effects.{queue_all}
use bare_arti.Service.Verdict.{EndsWith, finish_worker_verdict}

-- A running worker that fails while it is stopped.
abbrev worker_error : ServiceError
worker_error = record { code = "ERR_ARTI_BIND"; message = "gone" }

abbrev stopping_one : Stopping
stopping_one = record {
  generation = 1;
  was_running = true;
  cancel = 0;
  lifecycle = 1;
  start_completions = 7 ∷ [];
  stop_completions = 8 ∷ [];
  reason = cancelled_error;
}

abbrev observed : ShutdownObservation
observed = record { result = err worker_error; quarantine = none }

finish_worker_verdict_example :
    let r = finish_worker_state 1 observed (State.stopping stopping_one) in
    (((e : ServiceError) → ¬ EndsWith stopping_one (err worker_error) e)
      × (r.0 ≡ State.stopped)
      × (r.1
          ≡ queue_all (7 ∷ []) (failed_event 1 cancelled_error)
            ++ queue_all (8 ∷ []) (ServiceEvent.stopped 1)))
    ⊎ ((e : ServiceError) × EndsWith stopping_one (err worker_error) e
        × (r.0 ≡ State.failed (record { error = e; quarantine = none }))
        × (r.1 ≡ queue_all (7 ∷ []) (failed_event 1 e) ++ queue_all (8 ∷ []) (failed_event 1 e)))
finish_worker_verdict_example = finish_worker_verdict 1 observed stopping_one refl

-- Calls with a generation that is not allowed.
abbrev options_zero : ServiceOptions
options_zero = record options_one { generation = 0 }

start_err_unchanged_example :
    (start SpawnOutcome.spawned options_zero 7 fresh.world).0 ≡ fresh.world
unfolding start start_locked finish_start with_dependencies
start_err_unchanged_example =
    start_err_unchanged SpawnOutcome.spawned options_zero 7 fresh.world {e = generation_error 0 0}
      refl fresh-IsDispatching refl

stop_err_unchanged_example : (stop 5 7 fresh.world).0 ≡ fresh.world
unfolding stop stop_locked finish_stop with_dependencies
stop_err_unchanged_example =
    stop_err_unchanged 5 7 fresh.world {e = generation_error 0 5} refl fresh-IsDispatching refl
