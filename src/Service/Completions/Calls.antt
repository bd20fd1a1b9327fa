-- ===== src/Service/Completions/Calls.antt =====
-- The critical sections of `start` and `stop` take over exactly the completion that they do not reject.
use bare_arti.Base.{
  ℕ, ◌+◌, ◌≡◌, refl, ap, none, some, List, [], ◌∷◌, ◌++◌, arith, count, count-append, if_both, ltb,
}
use bare_arti.Service.Types.{ServiceOptions, ServiceError, options_eq}
use bare_arti.Service.Dispatch.{Completion}
use bare_arti.Service.World.{World, State}
use bare_arti.Service.Effects.{Effect}
use bare_arti.Service.Lock.{recover}
use bare_arti.Service.Controller.{
  StartOutcome, StopOutcome, start_locked, stop_locked, start_match, stop_match, bad_generation,
  stop_compare,
}
use bare_arti.Service.System.{start_rest, stop_rest, start_accepts, stop_accepts}
use bare_arti.Service.Completions.Count.{pending, effect_completions, action_completions, failure}
use bare_arti.Service.Completions.Sections.{recover-Keeps}

-- The completions in the state, among the effects and among the rest are those of the state before
-- and those taken over. In a failed state nothing is taken over, and the state stays failed.
pub record CallKeeps (w v : World) (es : List Effect) (rest accepts : List Completion)
    : Type 0 where
  pub kept :
      (c : Completion)
      → count c (pending v.inner.state) + (count c (effect_completions es) + count c rest)
        ≡ count c accepts + count c (pending w.inner.state)
  pub same : v.dispatcher ≡ w.dispatcher
  pub stays : (e : ServiceError) → failure w.inner.state ≡ some e → failure v.inner.state ≡ some e
  pub refuses : (e : ServiceError) → failure w.inner.state ≡ some e → accepts ≡ []

abbrev pub StartKeeps : Completion → World → World × List Effect × StartOutcome → Type 0
StartKeeps c w r = CallKeeps w r.0 r.1 (action_completions (start_rest c r.2)) (start_accepts c r.2)

abbrev pub StopKeeps : ℕ → Completion → World → World × List Effect × StopOutcome → Type 0
StopKeeps g c w r =
    CallKeeps w r.0 r.1 (action_completions (stop_rest g c r.2)) (stop_accepts c r.2)

-- A refusal, or an answer that leaves the state alone.
unchanged : (w : World) → CallKeeps w w [] [] []
unchanged w = record {
  kept = λ c. omega arith;
  same = refl;
  stays = λ x h. h;
  refuses = λ x h. refl;
}

answered :
    (w : World) (c : Completion) → failure w.inner.state ≡ none → CallKeeps w w [] (c ∷ []) (c ∷ [])
answered w c live = record {
  kept = λ a. omega arith;
  same = refl;
  stays = λ x h. h;
  refuses = λ x h. cc;
}

recovered-CallKeeps : (w : World) → CallKeeps w (recover w).0 (recover w).1 [] []
recovered-CallKeeps w = record {
  kept = λ c. omega (
    arith,
    ap (count c) (recover-Keeps w).state.kept,
    count-append c (pending (recover w).0.inner.state) (effect_completions (recover w).1),
  );
  same = (recover-Keeps w).same;
  stays = (recover-Keeps w).state.stays;
  refuses = λ x h. refl;
}

start_match-Keeps :
    (s : State) (options : ServiceOptions) (c : Completion) (w : World)
    → w.inner.state ≡ s
    → StartKeeps c w (start_match s options c w)
unfolding start_match
start_match-Keeps (State.failed f) options c w e = unchanged w
start_match-Keeps (State.stopping f) options c w e = unchanged w
start_match-Keeps (State.starting a) options c w e =
    if_both (StartKeeps c w) (options_eq a.options options)
      (record {
        kept = λ b.
            omega
              (arith, count-append b a.start_completions (c ∷ []), ap (λ t. count b (pending t)) e);
        same = refl;
        stays = λ x h. cc;
        refuses = λ x h. cc;
      })
      (unchanged w)
start_match-Keeps (State.running r) options c w e =
    if_both (StartKeeps c w) (options_eq r.options options) (answered w c (rw e refl)) (unchanged w)
start_match-Keeps State.stopped options c w e =
    if_both (StartKeeps c w) (bad_generation w.inner.last_generation options.generation)
      (unchanged w)
      (record {
        kept = λ b. omega (arith, ap (λ t. count b (pending t)) e);
        same = refl;
        stays = λ x h. cc;
        refuses = λ x h. cc;
      })

pub start_locked-Keeps :
    (options : ServiceOptions) (c : Completion) (w : World)
    → StartKeeps c w (start_locked options c w)
unfolding start_locked
start_locked-Keeps options c w =
    if_both (StartKeeps c w) w.poisoned (recovered-CallKeeps w)
      (start_match-Keeps w.inner.state options c w refl)

-- The three ways of a generation against the active one.
stop_compare-Keeps :
    (g active : ℕ) (c : Completion) (w : World) (same : World × List Effect × StopOutcome)
    → failure w.inner.state ≡ none
    → StopKeeps g c w same
    → StopKeeps g c w (stop_compare g active w same)
stop_compare-Keeps g active c w same live h =
    if_both (StopKeeps g c w) (ltb g active) (answered w c live)
      (if_both (StopKeeps g c w) (ltb active g) (unchanged w) h)

stop_match-Keeps :
    (s : State) (g : ℕ) (c : Completion) (w : World)
    → w.inner.state ≡ s
    → StopKeeps g c w (stop_match s g c w)
unfolding stop_match
stop_match-Keeps (State.failed f) g c w e = unchanged w
stop_match-Keeps State.stopped g c w e =
    if_both (StopKeeps g c w) (ltb w.inner.last_generation g) (unchanged w)
      (answered w c (rw e refl))
stop_match-Keeps (State.starting a) g c w e =
    stop_compare-Keeps g a.options.generation c w _ (rw e refl) (record {
      kept = λ b.
          omega
            (arith, count-append b a.start_completions (c ∷ []), ap (λ t. count b (pending t)) e);
      same = refl;
      stays = λ x h. cc;
      refuses = λ x h. cc;
    })
stop_match-Keeps (State.running r) g c w e =
    stop_compare-Keeps g r.options.generation c w _ (rw e refl) (record {
      kept = λ b. omega (arith, ap (λ t. count b (pending t)) e);
      same = refl;
      stays = λ x h. cc;
      refuses = λ x h. cc;
    })
stop_match-Keeps (State.stopping s) g c w e =
    stop_compare-Keeps g s.generation c w _ (rw e refl) (record {
      kept = λ b. omega (
        arith,
        count-append b s.start_completions (s.stop_completions ++ c ∷ []),
        count-append b s.stop_completions (c ∷ []),
        count-append b s.start_completions s.stop_completions,
        ap (λ t. count b (pending t)) e,
      );
      same = refl;
      stays = λ x h. cc;
      refuses = λ x h. cc;
    })

pub stop_locked-Keeps : (g : ℕ) (c : Completion) (w : World) → StopKeeps g c w (stop_locked g c w)
unfolding stop_locked
stop_locked-Keeps g c w =
    if_both (StopKeeps g c w) w.poisoned (recovered-CallKeeps w)
      (stop_match-Keeps w.inner.state g c w refl)
