-- ===== src/Service/Terminal.antt =====
-- A failed service of src/service.rs stays failed, with the same error.
use bare_arti.Base.{ℕ, ◌≡◌, refl, ap, ◌∙◌, false, Option, none, some, []}
use bare_arti.Service.Types.{ServiceOptions, ServiceError, ServiceEvent, err}
use bare_arti.Service.Dispatch.{Completion, CompletionDispatcher}
use bare_arti.Service.World.{World, Inner, State, queue_on}
use bare_arti.Service.Effects.{Effect, perform}
use bare_arti.Service.Controller.{
  SpawnOutcome, StartOutcome, StopOutcome, start, stop, start_match, stop_match,
}
use bare_arti.Service.Supervisor.{Action, Next}
use bare_arti.Service.System.{Runs, System, Step, call_start, call_stop, dispatch_round}
use bare_arti.Service.Completions.Count.{failure}
use bare_arti.Service.Completions.Pieces.{Runs-PieceKeeps}
use bare_arti.Service.Completions.Calls.{start_locked-Keeps, stop_locked-Keeps}

-- The steps from one state of the system to another.
pub data Steps : System → System → Type 0 where
  here : {s : System} → Steps s s
  then : {s t u : System} → Steps s t → Step t u → Steps s u

queue_on-inner :
    (d : Option CompletionDispatcher) (c : Completion) (event : ServiceEvent) (w : World)
    → (queue_on d c event w).0.inner ≡ w.inner
unfolding queue_on
queue_on-inner none c event w = refl
queue_on-inner (some d) c event w = refl

-- No effect touches the state machine.
pub perform-inner : (e : Effect) (w : World) → (perform e w).inner ≡ w.inner
unfolding perform
perform-inner (Effect.cancel_once h) w = refl
perform-inner (Effect.request_stop h) w = refl
perform-inner (Effect.wake h error) w = refl
perform-inner (Effect.queue_completion c event) w = queue_on-inner w.dispatcher c event w

Runs-failure :
    {w : World} (a : Action) {n : Next} (e : ServiceError)
    → Runs w a n
    → failure w.inner.state ≡ some e
    → failure n.world.inner.state ≡ some e
Runs-failure {w} (Action.effect f) e (Runs.effect g) h =
    ap (λ (i : Inner). failure i.state) (perform-inner f w) ∙ h
Runs-failure a e r h = (Runs-PieceKeeps r (λ x. x)).stays e h

Step-failure :
    {s t : System} (e : ServiceError)
    → Step s t
    → failure s.world.inner.state ≡ some e
    → failure t.world.inner.state ≡ some e
unfolding call_start call_stop dispatch_round
Step-failure e (Step.start options c s) h = (start_locked-Keeps options c s.world).stays e h
Step-failure e (Step.stop g c s) h = (stop_locked-Keeps g c s.world).stays e h
Step-failure e (Step.run w before after a rest accepted r) h = Runs-failure a e r h
Step-failure e (Step.dispatch s) h = h
Step-failure e (Step.poison s) h = h

-- Once the service has failed with an error, it is in the failed state with that same error after any
-- further steps.
pub failed_forever :
    {s t : System} {e : ServiceError}
    → Steps s t
    → failure s.world.inner.state ≡ some e
    → failure t.world.inner.state ≡ some e
failed_forever Steps.here h = h
failed_forever {e} (Steps.then r st) h = Step-failure e st (failed_forever r h)

match_failed :
    (s : State) (e : ServiceError) (options : ServiceOptions) (g : ℕ) (c : Completion) (w : World)
    → failure s ≡ some e
    → (start_match s options c w ≡ (w, [], StartOutcome.rejected e))
      × (stop_match s g c w ≡ (w, [], StopOutcome.rejected e))
unfolding start_match stop_match
match_failed (State.failed f) e options g c w h = (cc, cc)
match_failed (State.starting a) e options g c w h = cc
match_failed (State.running r) e options g c w h = cc
match_failed (State.stopping s) e options g c w h = cc
match_failed State.stopped e options g c w h = cc

-- Where the mutex is not poisoned, every `start` and every `stop` after a failure returns the error of
-- that failure and changes nothing: no completion is taken over, no event is sent.
pub failed_refuses :
    {s t : System} {e : ServiceError}
    → Steps s t
    → failure s.world.inner.state ≡ some e
    → t.world.poisoned ≡ false
    → (answer : SpawnOutcome) (options : ServiceOptions) (g : ℕ) (c : Completion)
    → (start answer options c t.world ≡ (t.world, err e, none))
      × (stop g c t.world ≡ (t.world, err e))
unfolding start stop
failed_refuses {t} {e} r h sound answer options g c =
    let (starts, stops) =
      match_failed t.world.inner.state e options g c t.world (failed_forever r h) in
    (simp (sound, starts), simp (sound, stops))
