-- ===== src/Abi/Requests.antt =====
-- The bookkeeping of requests in addon/src/lib.rs.
use Prim.Native.Nat.{ℕ}
use bare_arti.Base.{◌≡◌, ◌≢◌, ◌⊎◌, refl, Bool, true, false, Option, none, some, arith, inl, inr}
use bare_arti.Service.Types.{ServiceOptions, ServiceEvent, Result, ok, err}
use bare_arti.Service.Dispatch.{Completion}
use bare_arti.Service.World.{World}
use bare_arti.Service.Controller
use bare_arti.Service.Controller.{SupervisorTask, SpawnOutcome}
use bare_arti.Service.Requests.{IsDispatching, start_err_unchanged}
use bare_arti.Abi.{
  ok_status, BareArtiOptions, RequestState, AbiService, start_impl, start_accepted, copy_options,
  start_completed, stop_completed, start_status, start_copied,
}

-- Without an active generation nothing is pending.
pub record IsTidy (r : RequestState) : Type 0 where
  pub no_start : r.active_generation ≡ none → r.start_pending ≡ false
  pub no_stop : r.active_generation ≡ none → r.stop_pending ≡ false

pub start_completed-IsTidy :
    (event : ServiceEvent) (r : RequestState) → IsTidy r → IsTidy (start_completed event r)
unfolding start_completed
start_completed-IsTidy event r h = ground arith

pub stop_completed-IsTidy : (g : ℕ) (r : RequestState) → IsTidy r → IsTidy (stop_completed g r)
unfolding stop_completed
stop_completed-IsTidy g r h = ground arith

start_accepted-refused :
    (s : AbiService) (g : ℕ) (r : World × Result (Unit {0}) × Option SupervisorTask)
    → (r.1 ≡ ok tt) ⊎ (r.0 ≡ s.controller)
    → s.poisoned ≡ false
    → s.requests.active_generation ≡ none
    → IsTidy s.requests
    → let p =
        start_status g s.poisoned
          (record s.requests { active_generation = some g; start_pending = true })
          r.1 in
      (p.1 ≢ ok_status)
      → ◌≡◌ {A = AbiService} (record { controller = r.0; requests = p.0; poisoned = s.poisoned }) s
unfolding start_status
start_accepted-refused s g (w, ok u, t) k sound idle tidy n = absurd (n refl)
start_accepted-refused s g (w, err e, t) k sound idle tidy n = ground (arith, tidy.no_start idle)

start_result_cases :
    (answer : SpawnOutcome) (options : ServiceOptions) (c : Completion) (w : World)
    → w.poisoned ≡ false
    → IsDispatching w
    → ((Controller.start answer options c w).1 ≡ ok tt)
      ⊎ ((Controller.start answer options c w).0 ≡ w)
start_result_cases answer options c w sound d =
    by_result (Controller.start answer options c w).1 refl
  where
    by_result :
        (r : Result (Unit {0}))
        → (Controller.start answer options c w).1 ≡ r
        → ((Controller.start answer options c w).1 ≡ ok tt)
          ⊎ ((Controller.start answer options c w).0 ≡ w)
    by_result (ok u) e = inl e
    by_result (err x) e = inr (start_err_unchanged answer options c w sound d e)

abbrev service : World → Option ℕ → Bool → Bool → Bool → AbiService
service w active starting stopping p = record {
  controller = w;
  requests = record {
    active_generation = active;
    start_pending = starting;
    stop_pending = stopping;
  };
  poisoned = p;
}

start_fields-err :
    (answer : SpawnOutcome) (options : ServiceOptions) (c : Completion) (w : World)
    (active : Option ℕ) (starting stopping p : Bool)
    → w.poisoned ≡ false
    → IsDispatching w
    → IsTidy (service w active starting stopping p).requests
    → (start_accepted answer options c (service w active starting stopping p)).1 ≢ ok_status
    → (start_accepted answer options c (service w active starting stopping p)).0
      ≡ service w active starting stopping p
unfolding start_accepted
start_fields-err answer options c w active a b true sound d tidy n = refl
start_fields-err answer options c w (some g) a b false sound d tidy n = refl
start_fields-err answer options c w none a b false sound d tidy n =
    start_accepted-refused (service w none a b false) options.generation
      (Controller.start answer options c w) (start_result_cases answer options c w sound d) refl
      refl tidy n

-- A start whose status is not OK leaves the whole service as it was, its requests, its state machine and
-- its queue of completions: for every caller's options and callback, where the lock of the controller
-- is not poisoned, its dispatcher receives, and nothing is pending without an active generation.
pub start_impl-err :
    (answer : SpawnOutcome) (given : Option BareArtiOptions) (callback : Option Completion)
    (s : AbiService)
    → s.controller.poisoned ≡ false
    → IsDispatching s.controller
    → IsTidy s.requests
    → (start_impl answer given callback s).1 ≢ ok_status
    → (start_impl answer given callback s).0 ≡ s
unfolding start_impl start_copied
start_impl-err answer given none s sound d tidy = λ n. refl
start_impl-err answer given (some c) s sound d tidy = by_copy (copy_options given)
  where
    by_copy :
        (copied : Option ServiceOptions)
        → (start_copied answer copied c s).1 ≢ ok_status
        → (start_copied answer copied c s).0 ≡ s
    by_copy none n = refl
    by_copy (some options) n =
        start_fields-err answer options c s.controller s.requests.active_generation
          s.requests.start_pending s.requests.stop_pending s.poisoned sound d tidy n
