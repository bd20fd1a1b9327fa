-- ===== src/Service/Diagram/Refines.antt =====
-- Every step of the threads follows the diagram and keeps or raises the last generation.
use bare_arti.Base.{ℕ, ◌<◌, ◌≡◌, ◌≢◌, refl, false, List, arith, Bool-cases, inl, inr, ltb, if_both}
use bare_arti.Service.Types.{ServiceOptions, options_eq}
use bare_arti.Service.Dispatch.{Completion}
use bare_arti.Service.World.{World, State}
use bare_arti.Service.Effects.{Effect}
use bare_arti.Service.Controller.{
  StartOutcome, StopOutcome, start_match, stop_match, start_locked, stop_locked, stop_compare,
  bad_generation, u64_max,
}
use bare_arti.Service.System.{System, Step, call_start, call_stop, dispatch_round}
use bare_arti.Service.Diagram.Edges.{Edge}
use bare_arti.Service.Diagram.Pieces.{Follows-Move, Move, Runs-Follows, recover-Follows, view}

-- What the two tests of a new generation say.
bad_generation_cases : (last g : ℕ) → bad_generation last g ≡ false → (last < g) × (g ≢ u64_max)
unfolding bad_generation
bad_generation_cases last g h = ground arith

abbrev StartMove : World → World × List Effect × StartOutcome → Type 0
StartMove w r = Move (view w) (view r.0)

abbrev StopMove : World → World × List Effect × StopOutcome → Type 0
StopMove w r = Move (view w) (view r.0)

unmoved : (w : World) → Move (view w) (view w)
unmoved w = Move.edge Edge.stay

start_match-Move :
    (s : State) (options : ServiceOptions) (c : Completion) (w : World)
    → w.inner.state ≡ s
    → StartMove w (start_match s options c w)
unfolding start_match
start_match-Move (State.failed f) options c w e = unmoved w
start_match-Move (State.stopping f) options c w e = unmoved w
start_match-Move (State.starting a) options c w e =
    if_both (StartMove w) (options_eq a.options options) (rw e (Move.edge Edge.stay)) (unmoved w)
start_match-Move (State.running r) options c w e =
    if_both (StartMove w) (options_eq r.options options) (unmoved w) (unmoved w)
start_match-Move State.stopped options c w e =
    elim (Bool-cases (bad_generation w.inner.last_generation options.generation)) [
      | inl bad ↦ rw bad (unmoved w)
      | inr good ↦
          let (above, allowed) = bad_generation_cases _ _ good in
          rw (good, e) (Move.launch options.generation above allowed)
    ]

start_locked-Move :
    (options : ServiceOptions) (c : Completion) (w : World) → StartMove w (start_locked options c w)
unfolding start_locked
start_locked-Move options c w =
    if_both (StartMove w) w.poisoned (Follows-Move w _ (recover-Follows w))
      (start_match-Move w.inner.state options c w refl)

-- Where neither test of `stop` holds, the generations agree.
same_of_compare : (g active : ℕ) → ltb g active ≡ false → ltb active g ≡ false → active ≡ g
same_of_compare g active h k = ground arith

stop_compare-Move :
    (g active : ℕ) (w : World) (same : World × List Effect × StopOutcome)
    → (active ≡ g → StopMove w same)
    → StopMove w (stop_compare g active w same)
stop_compare-Move g active w same h = elim (Bool-cases (ltb g active)) [
  | inl below ↦ rw below (unmoved w)
  | inr not_below ↦ rw not_below (elim (Bool-cases (ltb active g)) [
    | inl above ↦ rw above (unmoved w)
    | inr not_above ↦ rw not_above (h (same_of_compare g active not_below not_above))
  ])
]

stop_match-Move :
    (s : State) (g : ℕ) (c : Completion) (w : World)
    → w.inner.state ≡ s
    → StopMove w (stop_match s g c w)
unfolding stop_match
stop_match-Move (State.failed f) g c w e = unmoved w
stop_match-Move State.stopped g c w e =
    if_both (StopMove w) (ltb w.inner.last_generation g) (unmoved w) (unmoved w)
stop_match-Move (State.starting a) g c w e =
    stop_compare-Move g a.options.generation w _ (λ same. rw (e, same) (Move.edge Edge.abort))
stop_match-Move (State.running r) g c w e =
    stop_compare-Move g r.options.generation w _ (λ same. rw (e, same) (Move.edge Edge.halt))
stop_match-Move (State.stopping s) g c w e =
    stop_compare-Move g s.generation w _ (λ same. rw e (Move.edge Edge.stay))

stop_locked-Move : (g : ℕ) (c : Completion) (w : World) → StopMove w (stop_locked g c w)
unfolding stop_locked
stop_locked-Move g c w =
    if_both (StopMove w) w.poisoned (Follows-Move w _ (recover-Follows w))
      (stop_match-Move w.inner.state g c w refl)

-- Every step, of any thread and with any answer of the environment, moves along one edge of the
-- diagram and keeps the last generation, or starts from the idle phase a generation that is above
-- the last one and is not the largest `u64`.
pub step_refines_diagram : {s t : System} → Step s t → Move (view s.world) (view t.world)
unfolding call_start call_stop dispatch_round
step_refines_diagram (Step.start options c s) = start_locked-Move options c s.world
step_refines_diagram (Step.stop g c s) = stop_locked-Move g c s.world
step_refines_diagram (Step.run w before after a rest accepted r) = Follows-Move w _ (Runs-Follows r)
step_refines_diagram (Step.dispatch s) = unmoved s.world
step_refines_diagram (Step.poison s) = unmoved s.world
