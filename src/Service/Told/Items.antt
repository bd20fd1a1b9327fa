-- ===== src/Service/Told/Items.antt =====
-- Events against the state machine of src/service.rs: whether what a completion is told is so.
use bare_arti.Base.{
  ℕ, ◌≤◌, ◌≡◌, ◌≢◌, refl, sym, subst, Option, none, some, List, [], ◌∷◌, ◌++◌, arith, All,
  All-weaken,
}
use bare_arti.Service.Types.{ServiceEvent}
use bare_arti.Service.Dispatch.{Completion, CompletionItem, CompletionDispatcher}
use bare_arti.Service.World.{State}
use bare_arti.Service.Effects.{Effect, queue_all}
use bare_arti.Service.Supervisor.{Action}
use bare_arti.Service.Completions.Count.{action_completions, thread_completions}
use bare_arti.Service.Diagram.Pieces.{View, Move}
use bare_arti.Service.Diagram.Generations.{active, active-Edge}

-- The generation that an event is about.
abbrev pub generation_of : ServiceEvent → ℕ
generation_of (ServiceEvent.running g port) = g
generation_of (ServiceEvent.failed g code message) = g
generation_of (ServiceEvent.stopped g) = g

-- A generation that is neither starting, running nor stopping, and that cannot be started any more.
abbrev pub IsOver : View → ℕ → Type 0
IsOver v g = (g ≤ v.last) × (active v.at ≢ some g)

-- An event that says that its generation has ended, or failed, is right.
abbrev pub IsSo : View → ServiceEvent → Type 0
IsSo v (ServiceEvent.running g port) = Unit {0}
IsSo v (ServiceEvent.failed g code message) = IsOver v g
IsSo v (ServiceEvent.stopped g) = IsOver v g

-- The generation of an active phase is the last one.
abbrev pub IsLast : View → Type 0
IsLast v = (g : ℕ) → active v.at ≡ some g → g ≡ v.last

Move-IsOver : {v u : View} (g : ℕ) → Move v u → IsOver v g → IsOver u g
Move-IsOver g (Move.edge e) h = (h.0, λ q. h.1 (active-Edge g e q))
Move-IsOver g (Move.launch k above allowed) h = (omega (arith, h.0), λ q. ground (arith, h.0, q))

pub Move-IsSo : {v u : View} (event : ServiceEvent) → Move v u → IsSo v event → IsSo u event
Move-IsSo (ServiceEvent.running g port) m h = tt
Move-IsSo (ServiceEvent.failed g code message) m h = Move-IsOver g m h
Move-IsSo (ServiceEvent.stopped g) m h = Move-IsOver g m h

-- The call that a completion was handed over with, and the generation that it named.
pub data Request : Type 0 where
  start stop : (generation : ℕ) → Request

-- A start is told that its own generation runs or has failed, a stop that it has stopped or failed.
abbrev pub Fits : Request → ServiceEvent → Type 0
Fits (Request.start g) (ServiceEvent.stopped h) = ⊥
Fits (Request.start g) event = g ≡ generation_of event
Fits (Request.stop g) (ServiceEvent.running h port) = ⊥
Fits (Request.stop g) event = g ≡ generation_of event

module _ (request : Completion → Request) where
  -- A completion that is told an event: the event fits the completion's request, and it is so.
  pub record IsTold (v : View) (c : Completion) (event : ServiceEvent) : Type 0 where
    pub own : Fits (request c) event
    pub so : IsSo v event

  abbrev pub EffectTold : View → Effect → Type 0
  EffectTold v (Effect.queue_completion c event) = IsTold v c event
  EffectTold v _ = Unit {0}

  abbrev pub ActionTold : View → Action → Type 0
  ActionTold v (Action.effect e) = EffectTold v e
  ActionTold v _ = Unit {0}

  abbrev pub ItemTold : View → CompletionItem → Type 0
  ItemTold v i = IsTold v i.completion i.event

  abbrev pub DispatcherTold : View → Option CompletionDispatcher → Type 0
  DispatcherTold v none = Unit {0}
  DispatcherTold v (some d) = All (ItemTold v) d.sent × All (ItemTold v) d.called

  -- The completions that the state holds belong to its generation.
  abbrev pub OwnedBy : Request → List Completion → Type 0
  OwnedBy r cs = All (λ c. request c ≡ r) cs

  abbrev pub IsOwned : State → Type 0
  IsOwned (State.starting a) = OwnedBy (Request.start a.options.generation) a.start_completions
  IsOwned (State.stopping s) =
      OwnedBy (Request.start s.generation) s.start_completions
      × OwnedBy (Request.stop s.generation) s.stop_completions
  IsOwned _ = Unit {0}

  IsTold-Move :
      {v u : View} {c : Completion} {event : ServiceEvent}
      → Move v u
      → IsTold v c event
      → IsTold u c event
  IsTold-Move {event = event} m h = record { own = h.own; so = Move-IsSo event m h.so }

  pub ItemTold-Move : {v u : View} → Move v u → (i : CompletionItem) → ItemTold v i → ItemTold u i
  ItemTold-Move m i h = IsTold-Move m h

  EffectTold-Move : {v u : View} → Move v u → (e : Effect) → EffectTold v e → EffectTold u e
  EffectTold-Move m (Effect.queue_completion c event) h = IsTold-Move m h
  EffectTold-Move m (Effect.cancel_once k) h = tt
  EffectTold-Move m (Effect.request_stop k) h = tt
  EffectTold-Move m (Effect.wake k e) h = tt

  pub ActionTold-Move : {v u : View} → Move v u → (a : Action) → ActionTold v a → ActionTold u a
  ActionTold-Move m (Action.effect e) h = EffectTold-Move m e h
  ActionTold-Move m _ h = tt

  pub DispatcherTold-Move :
      {v u : View}
      → Move v u
      → (d : Option CompletionDispatcher) → DispatcherTold v d
      → DispatcherTold u d
  DispatcherTold-Move m none h = tt
  DispatcherTold-Move m (some d) h =
      (All-weaken d.sent (ItemTold-Move m) h.0, All-weaken d.called (ItemTold-Move m) h.1)

  pub queue_all-Told :
      (v : View) (r : Request) (cs : List Completion) (event : ServiceEvent)
      → OwnedBy r cs
      → Fits r event
      → IsSo v event
      → All (EffectTold v) (queue_all cs event)
  unfolding queue_all
  queue_all-Told v r [] event h fits so = tt
  queue_all-Told v r (c ∷ cs) event h fits so = (
    record { own = subst (λ q. Fits q event) (sym h.0) fits; so = so },
    queue_all-Told v r cs event h.1 fits so,
  )

  -- Actions without a completion tell nobody anything.
  pub silent-Told :
      (v : View) (acts : List Action) → action_completions acts ≡ [] → All (ActionTold v) acts
  silent-Told v [] h = tt
  silent-Told v (Action.effect (Effect.queue_completion c event) ∷ acts) h = cc
  silent-Told v (Action.effect (Effect.cancel_once k) ∷ acts) h = (tt, silent-Told v acts h)
  silent-Told v (Action.effect (Effect.request_stop k) ∷ acts) h = (tt, silent-Told v acts h)
  silent-Told v (Action.effect (Effect.wake k e) ∷ acts) h = (tt, silent-Told v acts h)
  silent-Told v (_ ∷ acts) h = (tt, silent-Told v acts h)

  append-nil_parts : (xs ys : List Completion) → xs ++ ys ≡ [] → (xs ≡ []) × (ys ≡ [])
  append-nil_parts [] ys h = (refl, h)
  append-nil_parts (x ∷ xs) ys h = cc

  pub silent_threads-Told :
      (v : View) (ts : List (List Action))
      → thread_completions ts ≡ []
      → All (All (ActionTold v)) ts
  silent_threads-Told v [] h = tt
  silent_threads-Told v (t ∷ ts) h =
      let (front, back) = append-nil_parts (action_completions t) (thread_completions ts) h in
      (silent-Told v t front, silent_threads-Told v ts back)
