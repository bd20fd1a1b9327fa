-- ===== src/Abi/Sequence.antt =====
-- Sequences of requests and callbacks of addon/src/lib.rs.
use Prim.Native.Nat.{ℕ}
use bare_arti.Base.{
  ◌≡◌, ◌≢◌, ◌⊎◌, sym, ◌∙◌, refl, Bool, true, false, Option, none, some, arith, ◌==◌, if◌then◌else◌,
  if_both, ◌||◌, Bool-cases, Option-cases, inl, inr,
}
use bare_arti.Service.Types.{ServiceOptions, ServiceEvent, Result, ok, err}
use bare_arti.Service.Dispatch.{Completion}
use bare_arti.Service.World.{World}
use bare_arti.Service.Controller
use bare_arti.Service.Controller.{SpawnOutcome, SupervisorTask, u64_max}
use bare_arti.Abi.{
  BareArtiOptions, RequestState, AbiService, default_requests, start_impl, stop_impl,
  start_accepted, stop_accepted, copy_options, start_completed, stop_completed, start_status,
  stop_status, start_copied, is_active, Status, ok_status,
}
use bare_arti.Abi.Requests.{IsTidy, start_completed-IsTidy, stop_completed-IsTidy}

-- What a callback does to the requests, which it leaves alone where their lock is poisoned.
abbrev pub called_back : (RequestState → RequestState) → AbiService → AbiService
called_back f s = if s.poisoned then s else record s { requests = f s.requests }

-- A call of the interface, a callback, a move of the controller's threads, or a panic that holds the
-- lock of the requests.
pub data AbiStep : AbiService → AbiService → Type 0 where
  start :
      (answer : SpawnOutcome) (given : Option BareArtiOptions) (callback : Option Completion)
      (s : AbiService)
      → AbiStep s (start_impl answer given callback s).0
  stop :
      (g : ℕ) (callback : Option Completion) (s : AbiService) → AbiStep s (stop_impl g callback s).0
  start_called :
      (event : ServiceEvent) (s : AbiService) → AbiStep s (called_back (start_completed event) s)
  stop_called : (g : ℕ) (s : AbiService) → AbiStep s (called_back (stop_completed g) s)
  moved : (w : World) (s : AbiService) → AbiStep s (record s { controller = w })
  poison : (s : AbiService) → AbiStep s (record s { poisoned = true })

pub data AbiReach : AbiService → Type 0 where
  here :
      (w : World)
      → AbiReach (record { controller = w; requests = default_requests; poisoned = false })
  next : {s t : AbiService} → AbiReach s → AbiStep s t → AbiReach t

true-ne-false : true ≡ false → ⊥
true-ne-false h = cc

start_status-IsTidy :
    (g : ℕ) (p : Bool) (r : RequestState) (result : Result (Unit {0}))
    → r.active_generation ≡ none
    → p ≡ false
    → IsTidy r
    → IsTidy
        (start_status g p (record r { active_generation = some g; start_pending = true }) result).0
unfolding start_status
start_status-IsTidy g p r (ok u) idle sound h = ground arith
start_status-IsTidy g p r (err e) idle sound h = ground arith

stop_status-IsTidy :
    (p : Bool) (r : RequestState) (result : Result (Unit {0}))
    → IsTidy r
    → r.active_generation ≢ none
    → IsTidy (stop_status p (record r { stop_pending = true }) result).0
unfolding stop_status
stop_status-IsTidy p r (ok u) h busy = ground arith
stop_status-IsTidy p r (err e) h busy = ground arith

called_back-IsTidy :
    (f : RequestState → RequestState) (s : AbiService)
    → IsTidy s.requests
    → IsTidy (f s.requests)
    → IsTidy (called_back f s).requests
called_back-IsTidy f s h k = if_both (λ (x : AbiService). IsTidy x.requests) s.poisoned h k

start_accepted-IsTidy :
    (answer : SpawnOutcome) (options : ServiceOptions) (c : Completion) (w : World)
    (r : RequestState) (p : Bool)
    → IsTidy r
    → IsTidy
        (start_accepted answer options c
          (record { controller = w; requests = r; poisoned = p })).0.requests
unfolding start_accepted
start_accepted-IsTidy answer options c w r true h = h
start_accepted-IsTidy answer options c w r false h = elim (Option-cases r.active_generation) [
  | inl idle ↦ simp idle (
      start_status-IsTidy options.generation false r (Controller.start answer options c w).1 idle
        refl h)
  | inr (g, busy) ↦ simp busy h
]

start_impl-IsTidy :
    (answer : SpawnOutcome) (given : Option BareArtiOptions) (callback : Option Completion)
    (s : AbiService)
    → IsTidy s.requests
    → IsTidy (start_impl answer given callback s).0.requests
unfolding start_impl start_copied
start_impl-IsTidy answer given none s h = h
start_impl-IsTidy answer given (some c) s h = by_copy (copy_options given)
  where
    by_copy : (copied : Option ServiceOptions) → IsTidy (start_copied answer copied c s).0.requests
    by_copy none = h
    by_copy (some options) =
        start_accepted-IsTidy answer options c s.controller s.requests s.poisoned h

is_active-busy : (o : Option ℕ) (g : ℕ) → is_active o g ≡ true → o ≢ none
is_active-busy none g h e = cc
is_active-busy (some x) g h e = cc

stop_accepted-IsTidy :
    (g : ℕ) (c : Completion) (w : World) (r : RequestState) (p : Bool)
    → IsTidy r
    → IsTidy (stop_accepted g c (record { controller = w; requests = r; poisoned = p })).0.requests
unfolding stop_accepted
stop_accepted-IsTidy g c w r true h = h
stop_accepted-IsTidy g c w r false h = elim (Bool-cases (is_active r.active_generation g)) [
  | inl busy ↦ simp busy (
      if_both (λ (x : AbiService × Status). IsTidy x.0.requests) r.stop_pending h
        (stop_status-IsTidy false r (Controller.stop g c w).1 h
          (is_active-busy r.active_generation g busy)))
  | inr idle ↦ simp idle h
]

stop_impl-IsTidy :
    (g : ℕ) (callback : Option Completion) (s : AbiService)
    → IsTidy s.requests
    → IsTidy (stop_impl g callback s).0.requests
unfolding stop_impl
stop_impl-IsTidy g none s h = h
stop_impl-IsTidy g (some c) s h =
    if_both (λ (x : AbiService × Status). IsTidy x.0.requests) (g == 0 || g == u64_max) h
      (stop_accepted-IsTidy g c s.controller s.requests s.poisoned h)

AbiStep-IsTidy : {s t : AbiService} → AbiStep s t → IsTidy s.requests → IsTidy t.requests
AbiStep-IsTidy (AbiStep.start answer given callback s) h =
    start_impl-IsTidy answer given callback s h
AbiStep-IsTidy (AbiStep.stop g callback s) h = stop_impl-IsTidy g callback s h
AbiStep-IsTidy (AbiStep.start_called event s) h =
    called_back-IsTidy (start_completed event) s h (start_completed-IsTidy event s.requests h)
AbiStep-IsTidy (AbiStep.stop_called g s) h =
    called_back-IsTidy (stop_completed g) s h (stop_completed-IsTidy g s.requests h)
AbiStep-IsTidy (AbiStep.moved w s) h = h
AbiStep-IsTidy (AbiStep.poison s) h = h

-- After any sequence of starts, stops and callbacks, with any moves of the controller in between and
-- with panics that hold the lock, nothing is pending while no generation is active.
pub requests-IsTidy : {s : AbiService} → AbiReach s → IsTidy s.requests
unfolding default_requests
requests-IsTidy (AbiReach.here w) = record { no_start = λ h. refl; no_stop = λ h. refl }
requests-IsTidy (AbiReach.next r st) = AbiStep-IsTidy st (requests-IsTidy r)

tidy-busy :
    (r : RequestState)
    → IsTidy r
    → (r.start_pending ≡ true) ⊎ (r.stop_pending ≡ true)
    → r.active_generation ≢ none
tidy-busy r h (inl p) e = absurd (true-ne-false (sym p ∙ h.no_start e))
tidy-busy r h (inr p) e = absurd (true-ne-false (sym p ∙ h.no_stop e))

busy_refuses :
    (answer : SpawnOutcome) (options : ServiceOptions) (c : Completion) (s : AbiService)
    → s.requests.active_generation ≢ none
    → ((start_accepted answer options c s).0 ≡ s)
      × ((start_accepted answer options c s).1 ≢ ok_status)
unfolding start_accepted
busy_refuses answer options c s busy = elim (Option-cases s.requests.active_generation) [
  | inl idle ↦ absurd (busy idle)
  | inr (g, e) ↦ simp e (
      if_both (λ (x : AbiService × Status × Option SupervisorTask). (x.0 ≡ s) × (x.1 ≢ ok_status))
        s.poisoned (refl, λ h. cc) (refl, λ h. cc))
]

-- After any sequence of requests, while a start or a stop is pending, every further start is refused,
-- whatever its options and its callback, and changes nothing.
pub pending_refuses_start :
    {s : AbiService}
    → AbiReach s
    → (s.requests.start_pending ≡ true) ⊎ (s.requests.stop_pending ≡ true)
    → (answer : SpawnOutcome) (given : Option BareArtiOptions) (callback : Option Completion)
    → ((start_impl answer given callback s).0 ≡ s)
      × ((start_impl answer given callback s).1 ≢ ok_status)
unfolding start_impl start_copied
pending_refuses_start r p answer given none = (refl, λ h. cc)
pending_refuses_start {s} r p answer given (some c) = by_copy (copy_options given)
  where
    by_copy :
        (copied : Option ServiceOptions)
        → ((start_copied answer copied c s).0 ≡ s)
          × ((start_copied answer copied c s).1 ≢ ok_status)
    by_copy none = (refl, λ h. cc)
    by_copy (some options) =
        busy_refuses answer options c s (tidy-busy s.requests (requests-IsTidy r) p)
