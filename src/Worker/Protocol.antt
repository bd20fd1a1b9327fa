-- ===== src/Worker/Protocol.antt =====
-- The protocol of the worker of src/service.rs: what it says on the ready channel, and what it does
-- with the service that it has made.
use bare_arti.Base.{
  ℕ, ◌≡◌, ◌≢◌, ◌⊎◌, refl, subst, inl, inr, Bool, true, false, [], ◌∷◌, arith, Bool-cases, String,
  ◌==◌, text_eq, if◌then◌else◌, Outcome, done, broken,
}
use bare_arti.Paths.{Bytes}
use bare_arti.Service.Types.{ServiceOptions, ServiceError, WorkerResult, Result, ok, err}
use bare_arti.DataDir.{prepare_data_dir}
use bare_arti.Worker.{
  Race, cancelled, finished, ManagedSocksService, Environment, WorkerEvent, WorkerRun,
  normalize_worker_error, exit_result, normalize_wait, wait_result, invalid_port, announce,
  run_service, bind_race, bootstrap_race, after_prepare, after_runtime, run_production_worker,
}
use text.Mathlib.TextEquality.{eq_iff}

-- Every error is reported with the stage's code; one that has it already is passed on unchanged.
pub normalize_worker_error_lem :
    (code context : String) (error : ServiceError)
    → ((normalize_worker_error code context error).code ≡ code)
      × (error.code ≡ code → normalize_worker_error code context error ≡ error)
unfolding normalize_worker_error
normalize_worker_error_lem code context error = elim (Bool-cases (text_eq error.code code)) [
  | inl e ↦ simp e ((eq_iff error.code code).0 e, λ h. refl)
  | inr e ↦ simp e (refl, λ h. cc ((eq_iff error.code code).1 h))
]

exit_result-ne-ok : (r s : WorkerResult) → exit_result r s ≢ ok tt
unfolding exit_result
exit_result-ne-ok (err e) s h = cc
exit_result-ne-ok (ok u) (err e) h = cc
exit_result-ne-ok (ok u) (ok v) h = cc

wait_result_ok :
    (w : Race WorkerResult) (s : WorkerResult)
    → wait_result w s ≡ ok tt
    → (s ≡ ok tt) × (w ≡ cancelled)
unfolding wait_result
wait_result_ok cancelled s h = (h, refl)
wait_result_ok (finished r) s h = absurd (exit_result-ne-ok (normalize_wait r) s h)

announce_ok :
    (open_ : Bool) (s : ManagedSocksService)
    → (announce open_ s).result ≡ ok tt
    → (s.shutdown ≡ ok tt) × ((open_ ≡ false) ⊎ (s.wait ≡ cancelled))
unfolding announce
announce_ok true s h = let (clean, why) = wait_result_ok s.wait s.shutdown h in (clean, inr why)
announce_ok false s h = (h, inl refl)

-- A result without an error is not the one of an invalid port.
beyond_port :
    (z : Bool) (x y : WorkerRun)
    → x.result ≡ err invalid_port
    → (if z then x else y).result ≡ ok tt
    → (z ≡ false) × (y.result ≡ ok tt)
beyond_port true x y e h = cc
beyond_port false x y e h = (refl, h)

run_service_ok :
    (open_ : Bool) (s : ManagedSocksService)
    → (run_service open_ s).result ≡ ok tt
    → (s.port ≢ 0) × (s.shutdown ≡ ok tt) × ((open_ ≡ false) ⊎ (s.wait ≡ cancelled))
unfolding run_service
run_service_ok open_ s h =
    let (port, r) = beyond_port (s.port == 0) _ _ refl h in
    let (clean, why) = announce_ok open_ s r in (ground (arith, port), clean, why)

-- The runs that the protocol allows: the error is reported and returned and nothing was made; a
-- service was made and shut down, once, at the end.
pub data IsOrderly : WorkerRun → Type 0 where
  -- the thread had no runtime
  unborn : (e : ServiceError) → IsOrderly (record { events = []; result = err e })
  failed :
      (e : ServiceError)
      → IsOrderly (record { events = WorkerEvent.ready (err e) ∷ []; result = err e })
  no_port :
      (p : ℕ) (e : ServiceError)
      → IsOrderly (record {
        events = WorkerEvent.served p ∷ WorkerEvent.ready (err e) ∷ WorkerEvent.shut_down ∷ [];
        result = err e;
      })
  ran :
      (p : ℕ) (r : WorkerResult)
      → p ≢ 0
      → IsOrderly (record {
        events = WorkerEvent.served p ∷ WorkerEvent.ready (ok p) ∷ WorkerEvent.shut_down ∷ [];
        result = r;
      })
  unheard :
      (p : ℕ) (r : WorkerResult)
      → p ≢ 0
      → IsOrderly
          (record { events = WorkerEvent.served p ∷ WorkerEvent.shut_down ∷ []; result = r })

announce-IsOrderly :
    (open_ : Bool) (s : ManagedSocksService) → s.port ≢ 0 → IsOrderly (announce open_ s)
unfolding announce
announce-IsOrderly true s h = IsOrderly.ran s.port _ h
announce-IsOrderly false s h = IsOrderly.unheard s.port _ h

run_service-IsOrderly : (open_ : Bool) (s : ManagedSocksService) → IsOrderly (run_service open_ s)
unfolding run_service
run_service-IsOrderly open_ s = elim (Bool-cases (s.port == 0)) [
  | inl z ↦ simp z (IsOrderly.no_port s.port invalid_port)
  | inr nz ↦ simp nz (announce-IsOrderly open_ s (ground arith))
]

bind_race-IsOrderly :
    (open_ : Bool) (r : Race (Result ManagedSocksService)) → IsOrderly (bind_race open_ r)
unfolding bind_race
bind_race-IsOrderly open_ cancelled = IsOrderly.failed _
bind_race-IsOrderly open_ (finished (err e)) = IsOrderly.failed _
bind_race-IsOrderly open_ (finished (ok s)) = run_service-IsOrderly open_ s

module _ {C : Type 0} (env : Environment C) where
  bootstrap_race-IsOrderly : (r : Race (Result C)) → IsOrderly (bootstrap_race env r)
  unfolding bootstrap_race
  bootstrap_race-IsOrderly cancelled = IsOrderly.failed _
  bootstrap_race-IsOrderly (finished (err e)) = IsOrderly.failed _
  bootstrap_race-IsOrderly (finished (ok c)) =
      bind_race-IsOrderly env.ready_open (env.bind_and_serve c)

  after_prepare-IsOrderly :
      (options : ServiceOptions) (r : Result Bytes) → IsOrderly (after_prepare env options r)
  unfolding after_prepare
  after_prepare-IsOrderly options (err e) = IsOrderly.failed e
  after_prepare-IsOrderly options (ok d) = bootstrap_race-IsOrderly _

  after_runtime-IsOrderly :
      (options : ServiceOptions) (r : Outcome (Unit {0})) → IsOrderly (after_runtime env options r)
  unfolding after_runtime
  after_runtime-IsOrderly options (broken e) = IsOrderly.unborn _
  after_runtime-IsOrderly options (done u) = after_prepare-IsOrderly options _

  -- Every run of the worker is orderly: at most one message goes out on the ready channel, an error
  -- in it is the error that the thread returns, a port in it is not 0, and a service that was made is
  -- shut down exactly once, as the last thing.
  pub run_production_worker-IsOrderly :
      (options : ServiceOptions) → IsOrderly (run_production_worker env options)
  unfolding run_production_worker
  run_production_worker-IsOrderly options = after_runtime-IsOrderly options env.runtime

  -- The service of a run: the environment's own answers, each to the one before it.
  abbrev pub IsServed : ServiceOptions → C → ManagedSocksService → Type 0
  IsServed options client s =
      ((d : Bytes) × (prepare_data_dir env.euid env.file_system options.data_dir ≡ ok d)
        × (env.bootstrap d options.reachable_addresses ≡ finished (ok client)))
      × (env.bind_and_serve client ≡ finished (ok s))

  -- A run that returns `Ok` has come as far as its service.
  HasService : ServiceOptions → WorkerRun → Type 0
  HasService options r =
      (client : C) × (s : ManagedSocksService) × IsServed options client s
      × (r ≡ run_service env.ready_open s)

  bind_race_ok :
      (options : ServiceOptions) (client : C) (d : Bytes) (r : Race (Result ManagedSocksService))
      → prepare_data_dir env.euid env.file_system options.data_dir ≡ ok d
      → env.bootstrap d options.reachable_addresses ≡ finished (ok client)
      → env.bind_and_serve client ≡ r
      → (bind_race env.ready_open r).result ≡ ok tt
      → HasService options (bind_race env.ready_open r)
  unfolding bind_race HasService
  bind_race_ok options client d cancelled p b e h = cc
  bind_race_ok options client d (finished (err x)) p b e h = cc
  bind_race_ok options client d (finished (ok s)) p b e h = (client, s, ((d, p, b), e), refl)

  bootstrap_race_ok :
      (options : ServiceOptions) (d : Bytes) (r : Race (Result C))
      → prepare_data_dir env.euid env.file_system options.data_dir ≡ ok d
      → env.bootstrap d options.reachable_addresses ≡ r
      → (bootstrap_race env r).result ≡ ok tt
      → HasService options (bootstrap_race env r)
  unfolding bootstrap_race
  bootstrap_race_ok options d cancelled p b h = cc
  bootstrap_race_ok options d (finished (err x)) p b h = cc
  bootstrap_race_ok options d (finished (ok c)) p b h =
      bind_race_ok options c d (env.bind_and_serve c) p b refl h

  after_prepare_ok :
      (options : ServiceOptions) (r : Result Bytes)
      → prepare_data_dir env.euid env.file_system options.data_dir ≡ r
      → (after_prepare env options r).result ≡ ok tt
      → HasService options (after_prepare env options r)
  unfolding after_prepare
  after_prepare_ok options (err x) p h = cc
  after_prepare_ok options (ok d) p h =
      bootstrap_race_ok options d (env.bootstrap d options.reachable_addresses) p refl h

  after_runtime_ok :
      (options : ServiceOptions) (r : Outcome (Unit {0}))
      → (after_runtime env options r).result ≡ ok tt
      → HasService options (after_runtime env options r)
  unfolding after_runtime
  after_runtime_ok options (broken e) h = cc
  after_runtime_ok options (done u) h =
      after_prepare_ok options (prepare_data_dir env.euid env.file_system options.data_dir) refl h

  -- Where a worker returns `Ok`, its data directory was prepared, the environment bootstrapped a client in
  -- it and bound a service to that client, and that service's port is not 0. The service's own shutdown
  -- returned no error, and the worker was cancelled while it waited for the service, or nobody was left
  -- to hear of the port: a service that ends by itself never makes a worker return `Ok`.
  pub run_production_worker_ok :
      (options : ServiceOptions)
      → (run_production_worker env options).result ≡ ok tt
      → (client : C) × (s : ManagedSocksService) × IsServed options client s
        × (run_production_worker env options ≡ run_service env.ready_open s)
        × (s.port ≢ 0)
        × (s.shutdown ≡ ok tt)
        × ((env.ready_open ≡ false) ⊎ (s.wait ≡ cancelled))
  unfolding run_production_worker HasService
  run_production_worker_ok options h =
      let (client, s, served, e) = after_runtime_ok options env.runtime h in
      let (port, clean, why) =
        run_service_ok env.ready_open s (subst (λ (r : WorkerRun). r.result ≡ ok tt) e h) in
      (client, s, served, e, port, clean, why)
