-- ===== src/Service/Told/Calls.antt =====
-- What the critical sections of `start` and `stop` of src/service.rs tell.
use bare_arti.Base.{
  ℕ, ◌≡◌, refl, sym, ap, ◌∙◌, subst, true, some, List, [], ◌∷◌, arith, if_both, if_split, ltb, All,
  All-append,
}
use bare_arti.Service.Types.{ServiceOptions, ServiceEvent, options_eq, options_eq-generation}
use bare_arti.Service.Dispatch.{Completion}
use bare_arti.Service.World.{World, State}
use bare_arti.Service.Effects.{Effect}
use bare_arti.Service.Lock.{recover}
use bare_arti.Service.Controller.{
  StartOutcome, StopOutcome, start_locked, stop_locked, start_match, stop_match, bad_generation,
  stop_compare,
}
use bare_arti.Service.Supervisor.{Action}
use bare_arti.Service.System.{start_rest, stop_rest}
use bare_arti.Service.Diagram.Edges.{phase}
use bare_arti.Service.Diagram.Pieces.{view}
use bare_arti.Service.Diagram.Generations.{active}
use bare_arti.Service.Told.Items.{
  Request, Fits, IsLast, IsOver, EffectTold, ActionTold, OwnedBy, IsOwned,
}
use bare_arti.Service.Told.Sections.{recover-Tells}

module _ (request : Completion → Request) where
  -- The thread of a call, and the state that it leaves.
  pub record CallTells (v : World) (es : List Effect) (more : List Action) : Type 0 where
    pub told : All (EffectTold request (view v)) es
    pub rest : All (ActionTold request (view v)) more
    pub owned : IsOwned request v.inner.state

  abbrev pub StartTells : Completion → World × List Effect × StartOutcome → Type 0
  StartTells c r = CallTells r.0 r.1 (start_rest c r.2)

  abbrev pub StopTells : ℕ → Completion → World × List Effect × StopOutcome → Type 0
  StopTells g c r = CallTells r.0 r.1 (stop_rest g c r.2)

  unchanged : (w : World) → IsOwned request w.inner.state → CallTells w [] []
  unchanged w h = record { told = tt; rest = tt; owned = h }

  recovered :
      (w : World)
      → IsLast (view w)
      → IsOwned request w.inner.state
      → CallTells (recover w).0 (recover w).1 []
  recovered w last h =
      let k = recover-Tells request w last h in record { told = k.told; rest = tt; owned = k.owned }

  start_match-Tells :
      (s : State) (options : ServiceOptions) (c : Completion) (w : World)
      → w.inner.state ≡ s
      → request c ≡ Request.start options.generation
      → IsOwned request w.inner.state
      → StartTells c (start_match s options c w)
  unfolding start_match
  start_match-Tells (State.failed f) options c w e own h = unchanged w h
  start_match-Tells (State.stopping f) options c w e own h = unchanged w h
  start_match-Tells (State.starting a) options c w e own h =
      if_split (StartTells c) (options_eq a.options options)
        (λ same. record {
          told = tt;
          rest = tt;
          owned =
              All-append (λ d. request d ≡ Request.start a.options.generation) a.start_completions
                (c ∷ []) (subst (IsOwned request) e h)
                (own ∙ ap Request.start (sym (options_eq-generation a.options options same)), tt);
        })
        (λ other. unchanged w h)
  start_match-Tells (State.running r) options c w e own h =
      if_both (StartTells c) (options_eq r.options options)
        (record {
          told = tt;
          rest = (
            record {
              own =
                  subst (λ q. Fits q (ServiceEvent.running options.generation r.port)) (sym own)
                    refl;
              so = tt;
            },
            tt,
          );
          owned = h;
        })
        (unchanged w h)
  start_match-Tells State.stopped options c w e own h =
      if_both (StartTells c) (bad_generation w.inner.last_generation options.generation)
        (unchanged w h) (record { told = tt; rest = (tt, tt); owned = (own, tt) })

  pub start_locked-Tells :
      (options : ServiceOptions) (c : Completion) (w : World)
      → request c ≡ Request.start options.generation
      → IsLast (view w)
      → IsOwned request w.inner.state
      → StartTells c (start_locked options c w)
  unfolding start_locked
  start_locked-Tells options c w own last h =
      if_both (StartTells c) w.poisoned (recovered w last h)
        (start_match-Tells w.inner.state options c w refl own h)

  -- The completion of a stale stop is told that its generation has stopped.
  stale :
      (g : ℕ) (c : Completion) (w : World)
      → request c ≡ Request.stop g
      → IsOver (view w) g
      → IsOwned request w.inner.state
      → StopTells g c (w, [], StopOutcome.stale)
  stale g c w own over h = record {
    told = tt;
    rest = (
      record { own = subst (λ q. Fits q (ServiceEvent.stopped g)) (sym own) refl; so = over },
      tt,
    );
    owned = h;
  }

  below-IsOver :
      (w : World) (g a : ℕ)
      → IsLast (view w)
      → active (phase w.inner.state) ≡ some a
      → ltb g a ≡ true
      → IsOver (view w) g
  below-IsOver w g a last e h = (ground (arith, last a e, h), λ q. ground (arith, e, q, h))

  stop_compare-Tells :
      (g a : ℕ) (c : Completion) (w : World) (same : World × List Effect × StopOutcome)
      → request c ≡ Request.stop g
      → IsLast (view w)
      → active (phase w.inner.state) ≡ some a
      → IsOwned request w.inner.state
      → (g ≡ a → StopTells g c same)
      → StopTells g c (stop_compare g a w same)
  stop_compare-Tells g a c w same own last e h k =
      if_split (StopTells g c) (ltb g a)
        (λ below. stale g c w own (below-IsOver w g a last e below) h)
        (λ not_below.
          if_split (StopTells g c) (ltb a g) (λ above. unchanged w h)
            (λ not_above. k (ground (arith, not_below, not_above))))

  stop_match-Tells :
      (s : State) (g : ℕ) (c : Completion) (w : World)
      → w.inner.state ≡ s
      → request c ≡ Request.stop g
      → IsLast (view w)
      → IsOwned request w.inner.state
      → StopTells g c (stop_match s g c w)
  unfolding stop_match
  stop_match-Tells (State.failed f) g c w e own last h = unchanged w h
  stop_match-Tells State.stopped g c w e own last h =
      if_split (StopTells g c) (ltb w.inner.last_generation g) (λ above. unchanged w h)
        (λ not_above. stale g c w own (ground (arith, not_above), λ q. idle q) h)
    where
      inactive : active (phase State.stopped) ≡ some g → ⊥
      inactive q = cc

      idle : active (phase w.inner.state) ≡ some g → ⊥
      idle q = inactive (subst (λ t. active (phase t) ≡ some g) e q)
  stop_match-Tells (State.starting a) g c w e own last h =
      stop_compare-Tells g a.options.generation c w _ own last (ap (λ t. active (phase t)) e) h
        (λ same. record {
          told = (tt, (tt, (tt, tt)));
          rest = tt;
          owned = (
            subst (λ k. OwnedBy request (Request.start k) a.start_completions) (sym same)
                (subst (IsOwned request) e h),
            (own, tt),
          );
        })
  stop_match-Tells (State.running r) g c w e own last h =
      stop_compare-Tells g r.options.generation c w _ own last (ap (λ t. active (phase t)) e) h
        (λ same. record { told = (tt, (tt, tt)); rest = tt; owned = (tt, (own, tt)) })
  stop_match-Tells (State.stopping s) g c w e own last h =
      let held = subst (IsOwned request) e h in
      stop_compare-Tells g s.generation c w _ own last (ap (λ t. active (phase t)) e) h (λ same.
        record {
          told = tt;
          rest = tt;
          owned = (
            held.0,
            All-append (λ d. request d ≡ Request.stop s.generation) s.stop_completions (c ∷ [])
                held.1 (own ∙ ap Request.stop same, tt),
          );
        })

  pub stop_locked-Tells :
      (g : ℕ) (c : Completion) (w : World)
      → request c ≡ Request.stop g
      → IsLast (view w)
      → IsOwned request w.inner.state
      → StopTells g c (stop_locked g c w)
  unfolding stop_locked
  stop_locked-Tells g c w own last h =
      if_both (StopTells g c) w.poisoned (recovered w last h)
        (stop_match-Tells w.inner.state g c w refl own last h)
