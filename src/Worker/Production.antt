-- ===== src/Worker/Production.antt =====
-- `ProductionWorkerFactory`, `production_worker_factory` and the `ManagedSocksService` of
-- `SocksService`, of src/service.rs: the worker with the hooks of a release.
use bare_arti.Base.{
  ℕ, Bool, Option, none, some, List, String, ◌⋯◌, Outcome, done, broken, if◌then◌else◌,
}
use bare_arti.Paths.{Bytes}
use bare_arti.Service.Types.{WorkerResult, Result, ok, err}
use bare_arti.Service.Supervisor.{FactoryOutcome}
use bare_arti.Service.Owner.{WorkerHandle}
use bare_arti.DataDir.{FileSystem}
use bare_arti.Bootstrap.{Arti, bootstrap_in_with_reachable_addresses}
use bare_arti.Socks.Utf8.{is_utf8}
use bare_arti.Socks.Listener.{Listener, SocksService, new_service, serve_socks_with, wait, shutdown}
use bare_arti.Worker.{Race, ManagedSocksService, Environment}

-- `ProductionWorkerFactory::spawn`, by the system's refusal of a thread if there is one.
unfoldable pub factory_spawn : WorkerHandle → Option String → FactoryOutcome
factory_spawn worker none = FactoryOutcome.spawned worker
factory_spawn worker (some error) = FactoryOutcome.refused (record {
  code = "ERR_ARTI_BOOTSTRAP";
  message = "could not create native Arti worker: " ⋯ error;
})

-- `.map_err(|error| ServiceError::new(code, format!("{context}{error}")))`
abbrev pub map_error : {A : Type 0} → (code context : String) → Outcome A → Result A
map_error code context (done a) = ok a
map_error code context (broken error) = err (record { code = code; message = context ⋯ error })

-- The adaptor's `wait` and `shutdown`.
unfoldable pub managed_wait : SocksService → (signal : Bool) → WorkerResult
managed_wait s signal = map_error "ERR_ARTI_SHUTDOWN" "SOCKS service failed: " (wait s signal)

unfoldable pub managed_shutdown : SocksService → Outcome (Outcome (Unit {0})) → WorkerResult
managed_shutdown s task =
    map_error "ERR_ARTI_SHUTDOWN" "could not stop SOCKS service: " (shutdown s task)

-- What the accept task of a service does: when the cancellation wins the race against `wait` the
-- answer is `none`, else whether the signal came; and what a join of the task gives.
pub record Served : Type 0 where
  pub bind : Outcome (Unit {0})
  pub local_addr : Outcome ℕ
  pub waited : Option Bool
  pub joined : Outcome (Outcome (Unit {0}))

unfoldable pub managed : Served → SocksService → ManagedSocksService
unfolding managed_wait managed_shutdown
managed served s = record {
  port = s.port;
  wait = elim served.waited [
    | none ↦ Race.cancelled
    | some signal ↦ Race.finished (managed_wait s signal)
  ];
  shutdown = managed_shutdown s served.joined;
}

-- The hook that binds and serves.
unfoldable pub serve_result : Served → Result (ℕ × Listener) → Result ManagedSocksService
unfolding managed new_service
serve_result served (ok (port, listener)) = ok (managed served (new_service port))
serve_result served (err error) = err error

unfoldable pub serve_hook : Served → Result ManagedSocksService
unfolding serve_result serve_socks_with
serve_hook served =
    serve_result served
      (map_error "ERR_ARTI_BIND" "" (serve_socks_with served.bind served.local_addr))

-- The hook that bootstraps.
unfoldable pub bootstrap_hook :
    {P G C : Type 0} → Arti P G C → Bytes → Option (List Bytes) → Result C
unfolding bootstrap_in_with_reachable_addresses
bootstrap_hook arti data_dir reachable_addresses =
    if is_utf8 data_dir
    then map_error "ERR_ARTI_BOOTSTRAP" ""
        (bootstrap_in_with_reachable_addresses arti data_dir reachable_addresses)
    else err (record { code = "ERR_ARTI_CONFIG"; message = "dataDir must contain valid UTF-8" })

-- What the rest of the world answers a worker.
pub record Outside (P G C : Type 0) : Type 0 where
  pub arti : Arti P G C
  pub runtime : Outcome (Unit {0})
  pub euid : ℕ
  pub file_system : FileSystem
  -- does the cancellation win the race against each hook
  pub cancels_bootstrap : Bool
  pub cancels_bind : Bool
  pub served : C → Served
  pub ready_open : Bool

unfoldable pub production_environment : {P G C : Type 0} → Outside P G C → Environment C
unfolding bootstrap_hook serve_hook
production_environment o = record {
  runtime = o.runtime;
  euid = o.euid;
  file_system = o.file_system;
  bootstrap = λ dir addresses.
      if o.cancels_bootstrap
      then Race.cancelled
      else Race.finished (bootstrap_hook o.arti dir addresses);
  bind_and_serve = λ client.
      if o.cancels_bind then Race.cancelled else Race.finished (serve_hook (o.served client));
  ready_open = o.ready_open;
}
