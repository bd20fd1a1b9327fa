-- ===== src/Abi/Joint/Booked.antt =====
-- How the requests of addon/src/lib.rs stand to the controller of src/service.rs, and the calls.
use bare_arti.Base.{
  ℕ, ◌≡◌, ◌⊎◌, ◌≢◌, sym, ap, ◌∙◌, inl, inr, Bool, true, false, not, ◌||◌, Option, none, some, List,
  ◌++◌, arith, count, ◌==◌, if_both, if_split,
}
use bare_arti.Service.Types.{ServiceOptions}
use bare_arti.Service.Dispatch.{Completion}
use bare_arti.Service.World.{World}
use bare_arti.Service.Effects.{Effect}
use bare_arti.Service.Controller.{StartOutcome, StopOutcome, start_locked, stop_locked, u64_max}
use bare_arti.Service.Supervisor.{Action}
use bare_arti.Service.System.{System, start_accepts, stop_accepts}
use bare_arti.Service.Completions.Count.{called}
use bare_arti.Service.Completions.Calls.{start_locked-Keeps, stop_locked-Keeps}
use bare_arti.Service.Told.Items.{Request}
use bare_arti.Abi.{RequestState, start_status, stop_status}
use bare_arti.Abi.Joint.{Joint, joint_start, joint_stop, start_result, stop_result}
use bare_arti.Abi.Joint.Outstanding.{IsSettled, IsWaiting}
use bare_arti.Abi.Joint.Active.{
  active_of, AtMost, IsFresh, start_locked-IsFresh, stop_locked-KeepsActive, AtMost-keeps,
}

abbrev pub requests_of : Option ℕ → Bool → Bool → RequestState
requests_of a b c = record { active_generation = a; start_pending = b; stop_pending = c }

pub start-injective : {a b : ℕ} → Request.start a ≡ Request.start b → a ≡ b
start-injective e = cc

pub stop-injective : {a b : ℕ} → Request.stop a ≡ Request.stop b → a ≡ b
stop-injective e = cc

pub not_over : (g : ℕ) (w : World) → AtMost g w → active_of w ≢ some g → active_of w ≡ none
not_over g w (inl h) n = h
not_over g w (inr h) n = absurd (n h)

module _ (request : Completion → Request) where
  -- The requests are idle; or one generation is active, for which a start is pending, nothing is, or a
  -- stop is, and the pending one is the only callback to come; or their lock is poisoned.
  pub data IsBooked (s : System) : RequestState → Bool → Type 0 where
    idle : IsSettled s → active_of s.world ≡ none → IsBooked s (requests_of none false false) false
    starting :
        (g : ℕ) (c : Completion)
        → request c ≡ Request.start g
        → IsWaiting c s
        → AtMost g s.world
        → IsBooked s (requests_of (some g) true false) false
    held :
        (g : ℕ)
        → IsSettled s
        → AtMost g s.world
        → IsBooked s (requests_of (some g) false false) false
    stopping :
        (g : ℕ) (c : Completion)
        → request c ≡ Request.stop g
        → IsWaiting c s
        → AtMost g s.world
        → IsBooked s (requests_of (some g) false true) false
    frozen :
        (r : RequestState)
        → (active_of s.world ≡ none) ⊎ (active_of s.world ≡ r.active_generation)
        → IsBooked s r true

  abbrev pub Booked : Joint → Type 0
  Booked j = IsBooked j.system j.requests j.lost

  -- The start of a fresh controller, by its outcome.
  started :
      (g : ℕ) (c : Completion) (s : System) (r : World × List Effect × StartOutcome)
      (ts : List (List Action))
      → request c ≡ Request.start g
      → IsSettled s
      → r.0.dispatcher ≡ s.world.dispatcher
      → IsFresh g r
      → Booked (record {
        system = record { world = r.0; threads = ts; accepted = start_accepts c r.2 ++ s.accepted };
        requests = (start_status g false (requests_of (some g) true false) (start_result r.2)).0;
        lost = false;
      })
  unfolding start_status
  started g c s (w, es, StartOutcome.rejected e) ts own h same fresh =
      if_split
        (λ r. Booked (record {
          system = record { world = w; threads = ts; accepted = s.accepted };
          requests = r;
          lost = false;
        }))
        (g == g) (λ e. IsBooked.idle (λ d. h d ∙ ap (λ o. count d (called o)) (sym same)) fresh)
        (λ e. absurd (ground (arith, e)))
  started g c s (w, es, StartOutcome.launch task) ts own h same fresh =
      IsBooked.starting g c own (λ d. omega (arith, h d, ap (λ o. count d (called o)) same))
        (inr fresh)
  started g c s (w, es, StartOutcome.joined) ts own h same fresh = absurd fresh
  started g c s (w, es, StartOutcome.already_running event) ts own h same fresh = absurd fresh

  pub start-Booked :
      (options : ServiceOptions) (c : Completion) (s : System) {r : RequestState} {l : Bool}
      → request c ≡ Request.start options.generation
      → IsBooked s r l
      → Booked (joint_start options c (record { system = s; requests = r; lost = l }))
  unfolding joint_start
  start-Booked options c s own (IsBooked.idle h inactive) =
      started options.generation c s (start_locked options c s.world) _ own h
        (start_locked-Keeps options c s.world).same
        (start_locked-IsFresh options c s.world inactive)
  start-Booked options c s own (IsBooked.starting g d mine h most) =
      IsBooked.starting g d mine h most
  start-Booked options c s own (IsBooked.held g h most) = IsBooked.held g h most
  start-Booked options c s own (IsBooked.stopping g d mine h most) =
      IsBooked.stopping g d mine h most
  start-Booked options c s own (IsBooked.frozen r h) = IsBooked.frozen r h

  -- The stop of the active generation, by its outcome.
  stopped :
      (g : ℕ) (c : Completion) (s : System) (r : World × List Effect × StopOutcome)
      (ts : List (List Action))
      → request c ≡ Request.stop g
      → IsSettled s
      → r.0.dispatcher ≡ s.world.dispatcher
      → AtMost g r.0
      → Booked (record {
        system = record { world = r.0; threads = ts; accepted = stop_accepts c r.2 ++ s.accepted };
        requests = (stop_status false (requests_of (some g) false true) (stop_result r.2)).0;
        lost = false;
      })
  unfolding stop_status
  stopped g c s (w, es, StopOutcome.rejected e) ts own h same most =
      IsBooked.held g (λ d. omega (arith, h d, ap (λ o. count d (called o)) same)) most
  stopped g c s (w, es, StopOutcome.accepted) ts own h same most =
      IsBooked.stopping g c own (λ d. omega (arith, h d, ap (λ o. count d (called o)) same)) most
  stopped g c s (w, es, StopOutcome.stale) ts own h same most =
      IsBooked.stopping g c own (λ d. omega (arith, h d, ap (λ o. count d (called o)) same)) most

  same_of_active : (g k : ℕ) → (not (g == k) || false) ≡ false → g ≡ k
  same_of_active g k h = ground arith

  pub stop-Booked :
      (k : ℕ) (c : Completion) (s : System) {r : RequestState} {l : Bool}
      → request c ≡ Request.stop k
      → r.start_pending ≡ false
      → IsBooked s r l
      → Booked (joint_stop k c (record { system = s; requests = r; lost = l }))
  unfolding joint_stop
  stop-Booked k c s own orderly (IsBooked.idle h inactive) =
      if_both Booked (k == 0 || k == u64_max) (IsBooked.idle h inactive) (IsBooked.idle h inactive)
  stop-Booked k c s own orderly (IsBooked.starting g d mine h most) = cc
  stop-Booked k c s own orderly (IsBooked.held g h most) =
      if_both Booked (k == 0 || k == u64_max) (IsBooked.held g h most) (
        if_split Booked (not (g == k) || false) (λ refused. IsBooked.held g h most)
          (λ accepted.
            let same = same_of_active g k accepted in
            stopped g c s (stop_locked k c s.world) _ (own ∙ ap Request.stop (sym same)) h
              (stop_locked-Keeps k c s.world).same
              (AtMost-keeps g s.world (stop_locked k c s.world).0
                (stop_locked-KeepsActive k c s.world) most)))
  stop-Booked k c s own orderly (IsBooked.stopping g d mine h most) =
      if_both Booked (k == 0 || k == u64_max) (IsBooked.stopping g d mine h most) (
        if_split Booked (not (g == k) || true) (λ refused. IsBooked.stopping g d mine h most)
          (λ accepted. absurd (ground (arith, accepted))))
  stop-Booked k c s own orderly (IsBooked.frozen r h) =
      if_both Booked (k == 0 || k == u64_max) (IsBooked.frozen r h) (IsBooked.frozen r h)
