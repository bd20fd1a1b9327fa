-- ===== src/Abi/StopRequests.antt =====
-- What a call of `stop_impl` of addon/src/lib.rs does to the service.
use Prim.Native.Nat.{ℕ}
use bare_arti.Base.{
  text_eq, ◌≡◌, ◌≢◌, ◌⊎◌, refl, ap, Bool, true, false, not, ◌||◌, Option, none, some, arith, inl,
  inr, if_split, if_both, ◌==◌, ==_iff,
}
use bare_arti.Service.Types.{ServiceError, shutdown_code, Result, ok, err}
use bare_arti.Service.Dispatch.{Completion}
use bare_arti.Service.World.{World}
use bare_arti.Service.Controller
use bare_arti.Service.Controller.{u64_max}
use bare_arti.Service.Requests.{IsDispatching, stop_err_unchanged}
use bare_arti.Abi.{
  Status, ok_status, invalid, rejected, shutdown, AbiService, is_active, status_for, stop_status,
  stop_accepted, stop_impl,
}

-- Why a stop is refused, and with which status: it has no callback, a generation that is never used, the
-- requests' lock is poisoned, another generation is active or a stop is pending, or the controller refuses.
pub data Refusal (g : ℕ) (s : AbiService) : Option Completion → Status → Type 0 where
  no_callback : Refusal g s none invalid
  bad_generation : (c : Completion) → (g ≡ 0) ⊎ (g ≡ u64_max) → Refusal g s (some c) invalid
  lost : (c : Completion) → s.poisoned ≡ true → Refusal g s (some c) shutdown
  busy :
      (c : Completion)
      → (s.requests.active_generation ≢ some g) ⊎ (s.requests.stop_pending ≡ true)
      → Refusal g s (some c) rejected
  by_controller :
      (c : Completion) (e : ServiceError)
      → (Controller.stop g c s.controller).1 ≡ err e
      → Refusal g s (some c) (status_for e)

-- Refused, with nothing changed; or accepted: the generation is the active one, no stop was pending, and
-- now one is; and the controller, asked to stop that generation with this callback, accepted and did so.
abbrev pub IsAnswered : ℕ → Option Completion → AbiService → AbiService × Status → Type 0
IsAnswered g callback s r =
    (Refusal g s callback r.1 × (r.1 ≢ ok_status) × (r.0 ≡ s))
    ⊎ ((c : Completion) × (callback ≡ some c)
        × (r.1 ≡ ok_status)
        × (s.requests.active_generation ≡ some g)
        × (s.requests.stop_pending ≡ false)
        × (r.0.requests ≡ record s.requests { stop_pending = true })
        × (Controller.stop g c s.controller ≡ (r.0.controller, ok tt)))

active_is : (a : Option ℕ) (g : ℕ) → is_active a g ≡ true → a ≡ some g
active_is none g h = cc
active_is (some k) g h = ap some (ground (arith, h))

active_is_not : (a : Option ℕ) (g : ℕ) → is_active a g ≡ false → a ≢ some g
active_is_not none g h e = cc
active_is_not (some k) g h e = ground (arith, h, some-injective e)
  where
    some-injective : {x y : ℕ} → some x ≡ some y → x ≡ y
    some-injective q = cc

status_for-refuses : (e : ServiceError) → status_for e ≢ ok_status
unfolding status_for
status_for-refuses e =
    if_both (λ status. status ≢ ok_status) (text_eq e.code shutdown_code) (λ h. cc) (λ h. cc)

err-ne-ok : {e : ServiceError} → ◌≡◌ {A = Result (Unit {0})} (err e) (ok tt) → ⊥
err-ne-ok h = cc

-- The controller's answer, where the request is the active generation's and none is pending.
controller_result :
    (g : ℕ) (c : Completion) (s : AbiService) (r : World × Result (Unit {0}))
    → Controller.stop g c s.controller ≡ r
    → (r.1 ≡ ok tt) ⊎ (r.0 ≡ s.controller)
    → s.poisoned ≡ false
    → s.requests.active_generation ≡ some g
    → s.requests.stop_pending ≡ false
    → let p = stop_status s.poisoned (record s.requests { stop_pending = true }) r.1 in
      IsAnswered g
        (some c)
        s
        (record { controller = r.0; requests = p.0; poisoned = s.poisoned }, p.1)
unfolding stop_status
controller_result g c s (w, ok u) q k sound active free = inr (c, refl, refl, active, free, refl, q)
controller_result g c s (w, err e) q k sound active free =
    inl (Refusal.by_controller c e (ap (λ p. p.1) q), status_for-refuses e, ground (arith, kept))
  where
    kept : w ≡ s.controller
    kept = elim k [ inl h ↦ absurd (err-ne-ok h) | inr h ↦ h ]

stop_result_cases :
    (g : ℕ) (c : Completion) (w : World)
    → w.poisoned ≡ false
    → IsDispatching w
    → ((Controller.stop g c w).1 ≡ ok tt) ⊎ ((Controller.stop g c w).0 ≡ w)
stop_result_cases g c w sound d = by_result (Controller.stop g c w).1 refl
  where
    by_result :
        (r : Result (Unit {0}))
        → (Controller.stop g c w).1 ≡ r
        → ((Controller.stop g c w).1 ≡ ok tt) ⊎ ((Controller.stop g c w).0 ≡ w)
    by_result (ok u) e = inl e
    by_result (err x) e = inr (stop_err_unchanged g c w sound d e)

not_refused : (a p : Bool) → (not a || p) ≡ false → (a ≡ true) × (p ≡ false)
not_refused a p h = ground arith

was_refused : (a p : Bool) → (not a || p) ≡ true → (a ≡ false) ⊎ (p ≡ true)
was_refused true p h = inr h
was_refused false p h = inl refl

accepted-IsAnswered :
    (g : ℕ) (c : Completion) (s : AbiService)
    → s.controller.poisoned ≡ false
    → IsDispatching s.controller
    → IsAnswered g (some c) s (stop_accepted g c s)
unfolding stop_accepted
accepted-IsAnswered g c s sound d =
    if_split (IsAnswered g (some c) s) s.poisoned
      (λ lost. inl (Refusal.lost c lost, (λ h. cc), refl))
      (λ held.
        if_split (IsAnswered g (some c) s)
          (not (is_active s.requests.active_generation g) || s.requests.stop_pending)
          (λ refused. inl (
            Refusal.busy c
                (elim (was_refused (is_active s.requests.active_generation g)
                  s.requests.stop_pending refused) [
                    | inl a ↦ inl (active_is_not s.requests.active_generation g a)
                    | inr p ↦ inr p
                  ]),
            (λ h. cc),
            refl,
          ))
          (λ free.
            let (active, idle) =
              not_refused (is_active s.requests.active_generation g) s.requests.stop_pending free in
            controller_result g c s (Controller.stop g c s.controller) refl
              (stop_result_cases g c s.controller sound d) held
              (active_is s.requests.active_generation g active) idle))

either_holds : (a b : Bool) → (a || b) ≡ true → (a ≡ true) ⊎ (b ≡ true)
either_holds true b h = inl refl
either_holds false b h = inr h

never_used : (g : ℕ) → (g == 0 || g == u64_max) ≡ true → (g ≡ 0) ⊎ (g ≡ u64_max)
never_used g h = elim (either_holds (g == 0) (g == u64_max) h) [
  | inl a ↦ inl ((==_iff g 0).0 a)
  | inr a ↦ inr ((==_iff g u64_max).0 a)
]

-- Where the controller's lock is not poisoned and its dispatcher receives, a stop is refused or accepted.
-- Refused, it has a status that is not OK, the one of its cause, and leaves the whole service as it was.
-- Accepted, its status is OK, it asked for the active generation while no stop was pending, a stop is
-- pending now and nothing else of the requests has changed, and the controller is as its own stop of that
-- generation with this callback, which returned OK, has left it.
pub stop_impl-IsAnswered :
    (g : ℕ) (callback : Option Completion) (s : AbiService)
    → s.controller.poisoned ≡ false
    → IsDispatching s.controller
    → IsAnswered g callback s (stop_impl g callback s)
unfolding stop_impl
stop_impl-IsAnswered g none s sound d = inl (Refusal.no_callback, (λ h. cc), refl)
stop_impl-IsAnswered g (some c) s sound d =
    if_split (IsAnswered g (some c) s) (g == 0 || g == u64_max)
      (λ bad. inl (Refusal.bad_generation c (never_used g bad), (λ h. cc), refl))
      (λ good. accepted-IsAnswered g c s sound d)
