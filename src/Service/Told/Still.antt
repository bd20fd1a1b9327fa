-- ===== src/Service/Told/Still.antt =====
-- What the pieces of threads of src/service.rs that leave the state alone tell the completions.
use bare_arti.Base.{
  ◌≡◌, refl, sym, subst, Bool, some, List, [], ◌∷◌, ◌++◌, map-eq_some, All, All-map,
}
use bare_arti.Service.Dispatch.{Completion}
use bare_arti.Service.World.{World, Inner, Handle}
use bare_arti.Service.Effects.{Effect}
use bare_arti.Service.Controller.{SupervisorTask}
use bare_arti.Service.Supervisor.{
  Action, AfterStop, Next, wait_running_section, running_next, wait_stopping_section,
}
use bare_arti.Service.Lifecycle.{LifecycleState, RunningOutcome}
use bare_arti.Service.System.{section}
use bare_arti.Service.Completions.Count.{pending, action_completions}
use bare_arti.Service.Completions.Still.{PieceKeeps}
use bare_arti.Service.Diagram.Pieces.{view}
use bare_arti.Service.Told.Items.{Request, ActionTold, IsOwned, silent-Told}
use bare_arti.Service.Told.Sections.{Tells}

append_same : (xs ys : List Completion) → xs ++ ys ≡ xs → ys ≡ []
append_same [] ys h = h
append_same (x ∷ xs) ys h = append_same xs ys (tail-injective h)
  where
    tail-injective : {us vs : List Completion} → x ∷ us ≡ x ∷ vs → us ≡ vs
    tail-injective e = cc

pub wait_running-inner :
    (task : SupervisorTask) (w : World) {n : Next}
    → wait_running_section task w ≡ some n
    → n.world.inner ≡ w.inner
unfolding wait_running_section running_next
wait_running-inner task w h =
    let (found, here, e) = map-eq_some (running_next task w) _ h in
    subst (λ (n : Next). n.world.inner ≡ w.inner) e (by_outcome found)
  where
    by_outcome :
        (found : LifecycleState × RunningOutcome)
        → (running_next task w found).world.inner ≡ w.inner
    by_outcome (l, RunningOutcome.exited r) = refl
    by_outcome (l, RunningOutcome.stop_requested) = refl

pub wait_stopping-inner :
    (lifecycle : Handle) (after : AfterStop) (timed_out : Bool) (w : World) {n : Next}
    → wait_stopping_section lifecycle after timed_out w ≡ some n
    → n.world.inner ≡ w.inner
unfolding wait_stopping_section
wait_stopping-inner l after timed_out w h =
    let (found, here, e) = map-eq_some _ _ h in subst (λ (n : Next). n.world.inner ≡ w.inner) e refl

module _ (request : Completion → Request) where
  pub record NextTells (n : Next) : Type 0 where
    pub rest : All (ActionTold request (view n.world)) n.rest
    pub owned : IsOwned request n.world.inner.state

  pub section-Tells : (r : World × List Effect) → Tells request r → NextTells (section r)
  section-Tells r k = record {
    rest = All-map (ActionTold request (view r.0)) Action.effect r.1 k.told;
    owned = k.owned;
  }

  -- A piece that leaves the state alone tells nothing, for it keeps the completions.
  pub still-Tells :
      (w : World) (n : Next)
      → PieceKeeps w n
      → IsOwned request w.inner.state
      → n.world.inner ≡ w.inner
      → NextTells n
  still-Tells w n k h e = record {
    rest = silent-Told request (view n.world) n.rest (
        append_same (pending w.inner.state) (action_completions n.rest) (
          subst
            (λ (i : Inner). pending i.state ++ action_completions n.rest ≡ pending w.inner.state) e
            k.kept));
    owned = subst (λ (i : Inner). IsOwned request i.state) (sym e) h;
  }
