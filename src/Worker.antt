-- ===== src/Worker.antt =====
-- `run_production_worker` of src/service.rs, the body of the worker's thread.
--
-- The hooks, the runtime, the service that they make and the two channels belong to the environment:
-- their answers are a parameter. A `tokio::select!` on `cancel` is `biased`, so `cancelled` is the
-- answer wherever the cancellation has arrived when the select is polled. What the worker does to the
-- outside is the list of its events.
pub mod Protocol
pub mod Production
pub mod Codes
use bare_arti.Base.{
  ℕ, Bool, true, false, Option, none, some, List, [], ◌∷◌, ◌++◌, String, ◌⋯◌, ◌==◌, text_eq,
  if◌then◌else◌, Outcome, done, broken,
}
use bare_arti.Paths.{Bytes}
use bare_arti.Service.Types.{
  ServiceOptions, ServiceError, WorkerResult, Result, ok, err, cancelled_error, shutdown_error,
}
use bare_arti.DataDir.{FileSystem, prepare_data_dir}

-- The outcome of a `select!` between the cancellation and a future.
pub data Race {ℓ} (A : Type ℓ) : Type ℓ where
  cancelled : Race A
  finished : A → Race A

-- `Box<dyn ManagedSocksService>`: its port, the race between the cancellation and its `wait`, and what
-- its `shutdown` returns.
pub record ManagedSocksService : Type 0 where
  pub port : ℕ
  pub wait : Race WorkerResult
  pub shutdown : WorkerResult

pub record Environment (C : Type 0) : Type 0 where
  pub runtime : Outcome (Unit {0})
  pub euid : ℕ
  pub file_system : FileSystem
  pub bootstrap : Bytes → Option (List Bytes) → Race (Result C)
  pub bind_and_serve : C → Race (Result ManagedSocksService)
  -- does `ready.send(Ok(port))` find its receiver
  pub ready_open : Bool

-- A message on the ready channel, a service made, a service shut down.
pub data WorkerEvent : Type 0 where
  ready : Result ℕ → WorkerEvent
  served : ℕ → WorkerEvent
  shut_down : WorkerEvent

pub record WorkerRun : Type 0 where
  pub events : List WorkerEvent
  pub result : WorkerResult

unfoldable pub normalize_worker_error : (code context : String) → ServiceError → ServiceError
normalize_worker_error code context error =
    if text_eq error.code code
    then error
    else record { code = code; message = context ⋯ (": " ⋯ (error.code ⋯ (": " ⋯ error.message))) }

abbrev pub bootstrap_code : String
bootstrap_code = "ERR_ARTI_BOOTSTRAP"

abbrev pub bind_code : String
bind_code = "ERR_ARTI_BIND"

-- `let _ = ready.send(Err(error.clone())); return Err(error);`
abbrev fail_early : ServiceError → WorkerRun
fail_early error = record { events = ready (err error) ∷ []; result = err error }

-- The match on the results of `wait` and `shutdown`.
unfoldable pub exit_result : WorkerResult → WorkerResult → WorkerResult
exit_result (err error) shutdown = err error
exit_result (ok u) (err error) = err error
exit_result (ok u) (ok v) = err (shutdown_error "SOCKS service exited unexpectedly")

unfoldable pub normalize_wait : WorkerResult → WorkerResult
unfolding normalize_worker_error
normalize_wait (ok u) = ok u
normalize_wait (err error) =
    err (normalize_worker_error "ERR_ARTI_SHUTDOWN" "SOCKS service failed" error)

-- The last `select!`.
unfoldable pub wait_result : Race WorkerResult → WorkerResult → WorkerResult
unfolding exit_result normalize_wait
wait_result cancelled shutdown = shutdown
wait_result (finished result) shutdown = exit_result (normalize_wait result) shutdown

unfoldable pub invalid_port : ServiceError
invalid_port = record { code = bind_code; message = "SOCKS service returned an invalid port" }

-- From `ready.send(Ok(port))` on; the flag says whether it finds its receiver.
unfoldable pub announce : Bool → ManagedSocksService → WorkerRun
unfolding wait_result
announce true service = record {
  events = served service.port ∷ ready (ok service.port) ∷ shut_down ∷ [];
  result = wait_result service.wait service.shutdown;
}
announce false service = record {
  events = served service.port ∷ shut_down ∷ [];
  result = service.shutdown;
}

-- From the service on.
unfoldable pub run_service : Bool → ManagedSocksService → WorkerRun
unfolding announce
run_service ready_open service =
    if service.port == 0
    then record {
      events = served service.port ∷ ready (err invalid_port) ∷ shut_down ∷ [];
      result = err invalid_port;
    }
    else announce ready_open service

-- The second `select!`.
unfoldable pub bind_race : Bool → Race (Result ManagedSocksService) → WorkerRun
unfolding run_service normalize_worker_error cancelled_error
bind_race ready_open cancelled = fail_early cancelled_error
bind_race ready_open (finished (err error)) =
    fail_early (normalize_worker_error bind_code "could not bind loopback SOCKS service" error)
bind_race ready_open (finished (ok service)) = run_service ready_open service

module _ {C : Type 0} (env : Environment C) where
  -- The first `select!`.
  unfoldable pub bootstrap_race : Race (Result C) → WorkerRun
  unfolding bind_race normalize_worker_error cancelled_error
  bootstrap_race cancelled = fail_early cancelled_error
  bootstrap_race (finished (err error)) =
      fail_early (normalize_worker_error bootstrap_code "Arti bootstrap failed" error)
  bootstrap_race (finished (ok client)) = bind_race env.ready_open (env.bind_and_serve client)

  unfoldable pub after_prepare : ServiceOptions → Result Bytes → WorkerRun
  unfolding bootstrap_race
  after_prepare options (err error) = fail_early error
  after_prepare options (ok data_dir) =
      bootstrap_race (env.bootstrap data_dir options.reachable_addresses)

  unfoldable pub after_runtime : ServiceOptions → Outcome (Unit {0}) → WorkerRun
  unfolding after_prepare
  after_runtime options (broken error) = record {
    events = [];
    result =
        err
          (record { code = bootstrap_code; message = "could not create Tokio runtime: " ⋯ error });
  }
  after_runtime options (done u) =
      after_prepare options (prepare_data_dir env.euid env.file_system options.data_dir)

  unfoldable pub run_production_worker : ServiceOptions → WorkerRun
  unfolding after_runtime
  run_production_worker options = after_runtime options env.runtime
