-- ===== src/Abi/Joint/Active.antt =====
-- Which generation the calls and the threads of src/service.rs leave active.
use bare_arti.Base.{
  ℕ, ◌≡◌, ◌⊎◌, refl, sym, ap, ◌∙◌, inl, inr, Option, none, some, List, arith, if_both, if_split,
  ltb,
}
use bare_arti.Service.Types.{ServiceOptions}
use bare_arti.Service.Dispatch.{Completion}
use bare_arti.Service.World.{World, State}
use bare_arti.Service.Effects.{Effect}
use bare_arti.Service.Lock.{recover}
use bare_arti.Service.Controller.{
  StartOutcome, StopOutcome, start_locked, stop_locked, start_match, stop_match, stop_compare,
  bad_generation,
}
use bare_arti.Service.Diagram.Edges.{phase, recover_state-Edge}
use bare_arti.Service.Diagram.Generations.{active, active-Edge}

abbrev pub active_of : World → Option ℕ
active_of w = active (phase w.inner.state)

-- No generation is active, or this one.
abbrev pub AtMost : ℕ → World → Type 0
AtMost g w = (active_of w ≡ none) ⊎ (active_of w ≡ some g)

-- A start of a controller where no generation is active.
abbrev pub IsFresh : ℕ → World × List Effect × StartOutcome → Type 0
IsFresh g (w, es, StartOutcome.rejected e) = active_of w ≡ none
IsFresh g (w, es, StartOutcome.launch task) = active_of w ≡ some g
IsFresh g (w, es, outcome) = ⊥

start_match-IsFresh :
    (s : State) (options : ServiceOptions) (c : Completion) (w : World)
    → w.inner.state ≡ s
    → active (phase s) ≡ none
    → IsFresh options.generation (start_match s options c w)
unfolding start_match
start_match-IsFresh (State.failed f) options c w e h = ap (λ s. active (phase s)) e
start_match-IsFresh (State.stopping s) options c w e h = cc
start_match-IsFresh (State.starting a) options c w e h = cc
start_match-IsFresh (State.running r) options c w e h = cc
start_match-IsFresh State.stopped options c w e h =
    if_both (IsFresh options.generation) (bad_generation w.inner.last_generation options.generation)
      (ap (λ s. active (phase s)) e) refl

recovered-inactive : (w : World) (k : ℕ) → active_of (recover w).0 ≡ some k → active_of w ≡ some k
unfolding recover
recovered-inactive w k h = active-Edge k (recover_state-Edge w.inner.state) h

pub none_of : (o p : Option ℕ) → ((k : ℕ) → p ≡ some k → o ≡ some k) → o ≡ none → p ≡ none
none_of o none f h = refl
none_of o (some k) f h = absurd (contra (f k refl) h)
  where
    contra : o ≡ some k → o ≡ none → ⊥
    contra a b = cc

pub start_locked-IsFresh :
    (options : ServiceOptions) (c : Completion) (w : World)
    → active_of w ≡ none
    → IsFresh options.generation (start_locked options c w)
unfolding start_locked
start_locked-IsFresh options c w h =
    if_both (IsFresh options.generation) w.poisoned
      (none_of (active_of w) (active_of (recover w).0) (recovered-inactive w) h)
      (start_match-IsFresh w.inner.state options c w refl h)

-- A stop makes no generation active.
abbrev pub KeepsActive : World → World × List Effect × StopOutcome → Type 0
KeepsActive w r = (k : ℕ) → active_of r.0 ≡ some k → active_of w ≡ some k

stop_compare-KeepsActive :
    (g a : ℕ) (w : World) (same : World × List Effect × StopOutcome)
    → (g ≡ a → KeepsActive w same)
    → KeepsActive w (stop_compare g a w same)
stop_compare-KeepsActive g a w same f =
    if_split (KeepsActive w) (ltb g a) (λ x k h. h)
      (λ not_below.
        if_split (KeepsActive w) (ltb a g) (λ x k h. h)
          (λ not_above. f (ground (arith, not_below, not_above))))

stop_match-KeepsActive :
    (s : State) (g : ℕ) (c : Completion) (w : World)
    → w.inner.state ≡ s
    → KeepsActive w (stop_match s g c w)
unfolding stop_match
stop_match-KeepsActive (State.failed f) g c w e = λ k h. h
stop_match-KeepsActive State.stopped g c w e =
    if_both (KeepsActive w) (ltb w.inner.last_generation g) (λ k h. h) (λ k h. h)
stop_match-KeepsActive (State.starting a) g c w e =
    stop_compare-KeepsActive g a.options.generation w _
      (λ same k h. ap (λ s. active (phase s)) e ∙ ap some (sym same) ∙ h)
stop_match-KeepsActive (State.running r) g c w e =
    stop_compare-KeepsActive g r.options.generation w _
      (λ same k h. ap (λ s. active (phase s)) e ∙ ap some (sym same) ∙ h)
stop_match-KeepsActive (State.stopping s) g c w e =
    stop_compare-KeepsActive g s.generation w _ (λ same k h. ap (λ s. active (phase s)) e ∙ h)

pub stop_locked-KeepsActive :
    (g : ℕ) (c : Completion) (w : World) → KeepsActive w (stop_locked g c w)
unfolding stop_locked
stop_locked-KeepsActive g c w =
    if_both (KeepsActive w) w.poisoned (recovered-inactive w)
      (stop_match-KeepsActive w.inner.state g c w refl)

pub AtMost-keeps :
    (g : ℕ) (w v : World)
    → ((k : ℕ) → active_of v ≡ some k → active_of w ≡ some k)
    → AtMost g w
    → AtMost g v
AtMost-keeps g w v f (inl h) = inl (none_of (active_of w) (active_of v) f h)
AtMost-keeps g w v f (inr h) = by_case (active_of v) refl
  where
    by_case : (o : Option ℕ) → active_of v ≡ o → (active_of v ≡ none) ⊎ (active_of v ≡ some g)
    by_case none e = inl e
    by_case (some k) e = inr (same (f k e))
      where
        same : active_of w ≡ some k → active_of v ≡ some g
        same q = cc
