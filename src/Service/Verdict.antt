-- ===== src/Service/Verdict.antt =====
-- How a generation of src/service.rs ends: when the service fails for good, and with which error.
use bare_arti.Base.{
  ℕ, ◌≡◌, ◌≢◌, ◌⋯◌, ◌↔◌, ◌⊎◌, refl, Bool, true, false, none, some, Bool-cases, inl, inr, ◌++◌, ◌==◌,
  ==_iff,
}
use bare_arti.Service.Types.{
  ServiceError, ServiceEvent, WorkerResult, ok, err, shutdown_code, unexpected_exit_error,
  failed_event,
}
use bare_arti.Service.World.{State, Stopping}
use bare_arti.Service.Effects.{queue_all}
use bare_arti.Service.Sections.{
  ShutdownObservation, terminal_error, is_shutdown, finish_worker_state,
}
use text.Mathlib.TextEquality.{eq_iff}

is_shutdown_code : (e : ServiceError) → (is_shutdown e ≡ true) ↔ (e.code ≡ shutdown_code)
unfolding is_shutdown
is_shutdown_code e = eq_iff e.code shutdown_code

-- The error of a worker that ended unasked, with the worker's own error in its text.
abbrev pub unexpected : ServiceError → ServiceError
unexpected e = record {
  code = "ERR_ARTI_SHUTDOWN";
  message = "Arti worker exited unexpectedly (" ⋯ (e.code ⋯ (": " ⋯ (e.message ⋯ ")")));
}

-- When a stopping generation ends in failure, and with which error, said without the code's order of
-- tests: with the reason, which is a shutdown error; or else with what is made of the error of the worker
-- of a running service, or with the error itself of a worker that never ran, which is a shutdown error.
pub data EndsWith (s : Stopping) : WorkerResult → ServiceError → Type 0 where
  reason : {result : WorkerResult} → s.reason.code ≡ shutdown_code → EndsWith s result s.reason
  ran :
      (e : ServiceError)
      → s.reason.code ≢ shutdown_code
      → s.was_running ≡ true
      → EndsWith s (err e) (unexpected e)
  never_ran :
      (e : ServiceError)
      → s.reason.code ≢ shutdown_code
      → s.was_running ≡ false
      → e.code ≡ shutdown_code
      → EndsWith s (err e) e

-- What `terminal_error` says of the end of a generation.
abbrev Verdict : Stopping → WorkerResult → Type 0
Verdict s result =
    ((terminal_error s result ≡ none) × ((e : ServiceError) → ¬ EndsWith s result e))
    ⊎ ((e : ServiceError) × (terminal_error s result ≡ some e) × EndsWith s result e)

ok-never_ends :
    (s : Stopping) (u : Unit {0}) (e : ServiceError)
    → s.reason.code ≢ shutdown_code
    → ¬ EndsWith s (ok u) e
ok-never_ends s u e n (EndsWith.reason c) = n c

calm-never_ends :
    (s : Stopping) (x e : ServiceError)
    → s.reason.code ≢ shutdown_code
    → s.was_running ≡ false
    → x.code ≢ shutdown_code
    → ¬ EndsWith s (err x) e
calm-never_ends s x e n idle other (EndsWith.reason c) = n c
calm-never_ends s x e n idle other (EndsWith.ran y m r) = cc
calm-never_ends s x e n idle other (EndsWith.never_ran y m r c) = other c

not_shutdown : (e : ServiceError) → is_shutdown e ≡ false → e.code ≢ shutdown_code
not_shutdown e h c = cc ((is_shutdown_code e).1 c)

-- The verdict where the reason is no shutdown error.
worker-Verdict :
    (s : Stopping) (result : WorkerResult)
    → is_shutdown s.reason ≡ false
    → (running : Bool) → s.was_running ≡ running
    → Verdict s result
unfolding terminal_error unexpected_exit_error
worker-Verdict s (ok u) h true r =
    inl (simp (h, r), λ e. ok-never_ends s u e (not_shutdown s.reason h))
worker-Verdict s (ok u) h false r =
    inl (simp (h, r), λ e. ok-never_ends s u e (not_shutdown s.reason h))
worker-Verdict s (err e) h true r =
    inr (unexpected e, simp (h, r), EndsWith.ran e (not_shutdown s.reason h) r)
worker-Verdict s (err e) h false r = elim (Bool-cases (is_shutdown e)) [
  | inl k ↦ inr (
    e,
    simp (h, r, k),
    EndsWith.never_ran e (not_shutdown s.reason h) r ((is_shutdown_code e).0 k),
  )
  | inr k ↦
      inl
        (simp (h, r, k), λ x. calm-never_ends s e x (not_shutdown s.reason h) r (not_shutdown e k))
]

terminal_error-Verdict : (s : Stopping) (result : WorkerResult) → Verdict s result
unfolding terminal_error
terminal_error-Verdict s result = elim (Bool-cases (is_shutdown s.reason)) [
  | inl h ↦ inr (s.reason, simp h, EndsWith.reason ((is_shutdown_code s.reason).0 h))
  | inr h ↦ worker-Verdict s result h s.was_running refl
]

-- The end of a stopping generation, on every branch. It ends in failure exactly when the reason is a
-- shutdown error, a running worker failed, or one that never ran failed with a shutdown error. Then the
-- service is failed with, in this order, the reason, the shutdown error that quotes the worker's code and
-- message, or the worker's own error, and every completion is told that error. Otherwise it is stopped,
-- may be started again, every start is told the reason and every stop that the service has stopped.
pub finish_worker_verdict :
    (g : ℕ) (o : ShutdownObservation) (s : Stopping)
    → s.generation ≡ g
    → let r = finish_worker_state g o (State.stopping s) in
      (((e : ServiceError) → ¬ EndsWith s o.result e)
        × (r.0 ≡ State.stopped)
        × (r.1
            ≡ queue_all s.start_completions (failed_event g s.reason)
              ++ queue_all s.stop_completions (ServiceEvent.stopped g)))
      ⊎ ((e : ServiceError) × EndsWith s o.result e
          × (r.0 ≡ State.failed (record { error = e; quarantine = o.quarantine }))
          × (r.1
              ≡ queue_all s.start_completions (failed_event g e)
                ++ queue_all s.stop_completions (failed_event g e)))
unfolding finish_worker_state
finish_worker_verdict g o s same = elim (terminal_error-Verdict s o.result) [
  | inl (t, calm) ↦ inl (calm, simp (here, t), simp (here, t))
  | inr (e, t, ends) ↦ inr (e, ends, simp (here, t), simp (here, t))
]
  where
    here : (s.generation == g) ≡ true
    here = (==_iff s.generation g).1 same
