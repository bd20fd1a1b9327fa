-- ===== src/Worker/Codes.antt =====
-- The errors of the production worker of src/service.rs: their codes, and what the end of the accept
-- task of src/lib.rs becomes.
use bare_arti.Base.{
  ℕ, ◌≡◌, ◌≢◌, ◌⊎◌, refl, sym, ap, subst, inl, inr, Bool, true, false, some, arith, String, ◌⋯◌,
  if_split, if_both, Outcome, done, broken, ◌==◌,
}
use bare_arti.Paths.{Bytes}
use bare_arti.Service.Types.{
  ServiceOptions, ServiceError, WorkerResult, Result, ok, err, shutdown_code, shutdown_error,
  cancelled_error,
}
use bare_arti.DataDir.{prepare_data_dir}
use bare_arti.DataDir.Private.{prepare_data_dir_err}
use bare_arti.Socks.Listener.{Phase, Listener, new_service, wait, shutdown}
use bare_arti.Socks.Listener.Steps.{Reach}
use bare_arti.Socks.Listener.Accounts.{Shape, Cause, Reach-IsSound}
use bare_arti.Worker.{
  Race, ManagedSocksService, Environment, WorkerRun, normalize_worker_error, exit_result,
  normalize_wait, wait_result, invalid_port, announce, run_service, bind_race, bootstrap_race,
  after_prepare, after_runtime, run_production_worker, bootstrap_code, bind_code,
}
use bare_arti.Worker.Protocol.{normalize_worker_error_lem}
use bare_arti.Worker.Production.{
  Served, Outside, managed, managed_wait, managed_shutdown, map_error, serve_result, serve_hook,
  production_environment,
}

-- The codes of the worker.
abbrev pub IsWorkerCode : String → Type 0
IsWorkerCode code =
    (code ≡ bootstrap_code)
    ⊎ (code ≡ "ERR_ARTI_CONFIG")
    ⊎ (code ≡ "ERR_ARTI_CANCELLED")
    ⊎ (code ≡ bind_code)
    ⊎ (code ≡ shutdown_code)

-- Every error of a result has a code of the worker.
abbrev HasCode : WorkerResult → Type 0
HasCode (ok u) = Unit {0}
HasCode (err e) = IsWorkerCode e.code

abbrev ShutdownErrors : WorkerResult → Type 0
ShutdownErrors (ok u) = Unit {0}
ShutdownErrors (err e) = e.code ≡ shutdown_code

stage_code :
    (code context : String) (e : ServiceError)
    → IsWorkerCode code
    → HasCode (err (normalize_worker_error code context e))
stage_code code context e h =
    subst IsWorkerCode (sym (normalize_worker_error_lem code context e).0) h

shutdown-HasCode : (r : WorkerResult) → ShutdownErrors r → HasCode r
shutdown-HasCode (ok u) h = tt
shutdown-HasCode (err e) h = inr (inr (inr (inr h)))

normalized_wait-ShutdownErrors : (r : WorkerResult) → ShutdownErrors (normalize_wait r)
unfolding normalize_wait
normalized_wait-ShutdownErrors (ok u) = tt
normalized_wait-ShutdownErrors (err e) =
    (normalize_worker_error_lem shutdown_code "SOCKS service failed" e).0

exit_result-ShutdownErrors :
    (r s : WorkerResult) → ShutdownErrors r → ShutdownErrors s → ShutdownErrors (exit_result r s)
unfolding exit_result shutdown_error
exit_result-ShutdownErrors (err e) s h k = h
exit_result-ShutdownErrors (ok u) (err e) h k = k
exit_result-ShutdownErrors (ok u) (ok v) h k = refl

wait_result-ShutdownErrors :
    (w : Race WorkerResult) (s : WorkerResult) → ShutdownErrors s → ShutdownErrors (wait_result w s)
unfolding wait_result
wait_result-ShutdownErrors Race.cancelled s h = h
wait_result-ShutdownErrors (Race.finished r) s h =
    exit_result-ShutdownErrors (normalize_wait r) s (normalized_wait-ShutdownErrors r) h

announce-ShutdownErrors :
    (heard : Bool) (s : ManagedSocksService)
    → ShutdownErrors s.shutdown
    → ShutdownErrors (announce heard s).result
unfolding announce
announce-ShutdownErrors true s h = wait_result-ShutdownErrors s.wait s.shutdown h
announce-ShutdownErrors false s h = h

run_service-HasCode :
    (heard : Bool) (s : ManagedSocksService)
    → ShutdownErrors s.shutdown
    → HasCode (run_service heard s).result
unfolding run_service invalid_port
run_service-HasCode heard s h =
    if_both (λ (r : WorkerRun). HasCode r.result) (s.port == 0) (inr (inr (inr (inl refl))))
      (shutdown-HasCode (announce heard s).result (announce-ShutdownErrors heard s h))

-- The services that an environment makes fail to shut down with the shutdown code only.
abbrev MakesServices : Race (Result ManagedSocksService) → Type 0
MakesServices (Race.finished (ok s)) = ShutdownErrors s.shutdown
MakesServices _ = Unit {0}

bind_race-HasCode :
    (heard : Bool) (r : Race (Result ManagedSocksService))
    → MakesServices r
    → HasCode (bind_race heard r).result
unfolding bind_race cancelled_error
bind_race-HasCode heard Race.cancelled h = inr (inr (inl refl))
bind_race-HasCode heard (Race.finished (err e)) h =
    stage_code bind_code _ e (inr (inr (inr (inl refl))))
bind_race-HasCode heard (Race.finished (ok s)) h = run_service-HasCode heard s h

module _ {C : Type 0} (env : Environment C)
    (makes : (c : C) → MakesServices (env.bind_and_serve c)) where
  bootstrap_race-HasCode : (r : Race (Result C)) → HasCode (bootstrap_race env r).result
  unfolding bootstrap_race cancelled_error
  bootstrap_race-HasCode Race.cancelled = inr (inr (inl refl))
  bootstrap_race-HasCode (Race.finished (err e)) = stage_code bootstrap_code _ e (inl refl)
  bootstrap_race-HasCode (Race.finished (ok c)) = bind_race-HasCode env.ready_open _ (makes c)

  after_prepare-HasCode :
      (options : ServiceOptions) (r : Result Bytes)
      → r ≡ prepare_data_dir env.euid env.file_system options.data_dir
      → HasCode (after_prepare env options r).result
  unfolding after_prepare
  after_prepare-HasCode options (ok dir) e = bootstrap_race-HasCode _
  after_prepare-HasCode options (err x) e =
      inr (inl (prepare_data_dir_err env.euid env.file_system options.data_dir (sym e)))

  after_runtime-HasCode :
      (options : ServiceOptions) (r : Outcome (Unit {0}))
      → HasCode (after_runtime env options r).result
  unfolding after_runtime
  after_runtime-HasCode options (broken e) = inl refl
  after_runtime-HasCode options (done u) = after_prepare-HasCode options _ refl

  run-HasCode : (options : ServiceOptions) → HasCode (run_production_worker env options).result
  unfolding run_production_worker
  run-HasCode options = after_runtime-HasCode options env.runtime

mapped-ShutdownErrors :
    (text : String) (o : Outcome (Unit {0})) → ShutdownErrors (map_error shutdown_code text o)
mapped-ShutdownErrors text (done u) = tt
mapped-ShutdownErrors text (broken e) = refl

serve_result-MakesServices :
    (served : Served) (r : Result (ℕ × Listener))
    → MakesServices (Race.finished (serve_result served r))
unfolding serve_result managed managed_shutdown
serve_result-MakesServices served (ok p) =
    mapped-ShutdownErrors _ (shutdown (new_service p.0) served.joined)
serve_result-MakesServices served (err e) = tt

production-MakesServices :
    {P G C : Type 0} (o : Outside P G C) (c : C)
    → MakesServices ((production_environment o).bind_and_serve c)
unfolding production_environment serve_hook
production-MakesServices o c =
    if_both MakesServices o.cancels_bind tt (serve_result-MakesServices (o.served c) _)

code_of : {e : ServiceError} (r : WorkerResult) → HasCode r → r ≡ err e → IsWorkerCode e.code
code_of (ok u) h k = cc
code_of (err x) h k = subst IsWorkerCode (ap ServiceError.code (err-injective k)) h
  where
    err-injective : {a b : ServiceError} → ◌≡◌ {A = WorkerResult} (err a) (err b) → a ≡ b
    err-injective q = cc

-- Whatever the network, the file system and the threads do, the worker of a release returns an error
-- with one of five codes: bootstrap, configuration, cancellation, bind, or shutdown.
pub production_error_code :
    {P G C : Type 0} (outside : Outside P G C) (options : ServiceOptions) {e : ServiceError}
    → (run_production_worker (production_environment outside) options).result ≡ err e
    → IsWorkerCode e.code
production_error_code outside options h =
    code_of _
      (run-HasCode (production_environment outside) (production-MakesServices outside) options) h

-- The outcome of an accept task that nobody told to stop.
unsignalled_outcome :
    (o : Outcome (Unit {0})) (signalled : Bool)
    → Cause o signalled
    → signalled ≡ false
    → (text : String) × (o ≡ broken text)
unsignalled_outcome (done u) b h e = cc
unsignalled_outcome (broken text) b h e = (text, refl)

abbrev lonely : ℕ → Bool → Outcome (Unit {0}) → ManagedSocksService
lonely port signal o =
    managed
      (record { bind = done tt; local_addr = done port; waited = some signal; joined = done o })
      (new_service port)

lonely_result :
    (port : ℕ) (text : String)
    → port ≢ 0
    → (run_service true (lonely port true (broken text))).result
      ≡ err (shutdown_error ("could not stop SOCKS service: " ⋯ text))
unfolding run_service announce wait_result normalize_wait exit_result managed managed_wait
    managed_shutdown new_service wait shutdown shutdown_error
lonely_result port text h =
    if_split
      (λ (r : WorkerRun). r.result ≡ err (shutdown_error ("could not stop SOCKS service: " ⋯ text)))
      (port == 0) (λ z. absurd (h (ground arith))) (λ nz. refl)

-- Where the accept task of a service ends although nobody told it to, its terminal signal wakes the
-- worker, and the worker returns a shutdown error with the text of the accept task's own error: it is
-- never taken for an orderly end.
pub lonely_end_is_reported :
    {l : Listener} (port : ℕ) (o : Outcome (Unit {0}))
    → Reach l
    → l.phase ≡ Phase.ended o
    → l.signalled ≡ false
    → port ≢ 0
    → (text : String) × (o ≡ broken text)
      × ((run_service true (
            managed
              (record {
                bind = done tt;
                local_addr = done port;
                waited = some l.terminal;
                joined = done o;
              })
              (new_service port))).result
          ≡ err (shutdown_error ("could not stop SOCKS service: " ⋯ text)))
lonely_end_is_reported {l} port o r ended alone h =
    let shape : Shape (Phase.ended o) l = subst (λ p. Shape p l) ended (Reach-IsSound r).shape in
    let (text, e) = unsignalled_outcome o l.signalled shape.4 alone in
    (text, e, rw (e, shape.3) (lonely_result port text h))
