-- ===== src/Service/Told/Truthful.antt =====
-- What holds of the completions in every state of src/service.rs that its threads come to, kept by each
-- piece of a thread.
use bare_arti.Base.{
  ◌≡◌, refl, sym, subst, Bool, true, false, Option, none, some, List, ◌∷◌, ◌++◌, map, All,
  All-append, All-front, All-back, All-map, All-weaken,
}
use bare_arti.Service.Types.{ServiceEvent}
use bare_arti.Service.Dispatch
use bare_arti.Service.Dispatch.{Completion, CompletionItem, CompletionDispatcher}
use bare_arti.Service.World.{World, Inner, queue_on}
use bare_arti.Service.Effects.{Effect, perform}
use bare_arti.Service.Supervisor.{Action, Next}
use bare_arti.Service.System.{Runs, System}
use bare_arti.Service.Completions.Pieces.{IsEffect, Runs-PieceKeeps}
use bare_arti.Service.Terminal.{perform-inner}
use bare_arti.Service.Diagram.Edges.{phase}
use bare_arti.Service.Diagram.Pieces.{View, Move, view}
use bare_arti.Service.Diagram.Generations.{active-Edge}
use bare_arti.Service.Told.Items.{
  Request, IsLast, IsTold, EffectTold, ActionTold, ItemTold, DispatcherTold, IsOwned,
  ActionTold-Move, DispatcherTold-Move, silent_threads-Told,
}
use bare_arti.Service.Told.Calls.{CallTells}
use bare_arti.Service.Told.Pieces.{Runs-Tells}

Move-IsLast : {v u : View} → Move v u → IsLast v → IsLast u
Move-IsLast (Move.edge e) h g q = h g (active-Edge g e q)
Move-IsLast (Move.launch k above allowed) h g q = cc

abbrev view_of : Inner → View
view_of i = record { at = phase i.state; last = i.last_generation }

module _ (request : Completion → Request) where
  pub record IsTruthful (s : System) : Type 0 where
    pub threads : All (All (ActionTold request (view s.world))) s.threads
    pub dispatcher : DispatcherTold request (view s.world) s.world.dispatcher
    pub owned : IsOwned request s.world.inner.state
    pub last : IsLast (view s.world)

  threads-Move :
      {v u : View} (ts : List (List Action))
      → Move v u
      → All (All (ActionTold request v)) ts
      → All (All (ActionTold request u)) ts
  threads-Move ts m h = All-weaken ts (λ t. All-weaken t (ActionTold-Move request m)) h

  pub call-IsTruthful :
      (s : System) (w : World) (es : List Effect) (more : List Action) (accepted : List Completion)
      → Move (view s.world) (view w)
      → w.dispatcher ≡ s.world.dispatcher
      → CallTells request w es more
      → IsTruthful s
      → IsTruthful (record {
        world = w;
        threads = (map Action.effect es ++ more) ∷ s.threads;
        accepted = accepted;
      })
  call-IsTruthful s w es more accepted m same k inv = record {
    threads = (
      All-append (ActionTold request (view w)) (map Action.effect es) more
          (All-map (ActionTold request (view w)) Action.effect es k.told) k.rest,
      threads-Move s.threads m inv.threads,
    );
    dispatcher =
        subst (DispatcherTold request (view w)) (sym same)
          (DispatcherTold-Move request m s.world.dispatcher inv.dispatcher);
    owned = k.owned;
    last = Move-IsLast m inv.last;
  }

  -- The threads with one of them replaced, and others started.
  replaced :
      (v : View) (before after fresh : List (List Action)) (t : List Action)
      → All (All (ActionTold request v)) before
      → All (ActionTold request v) t
      → All (All (ActionTold request v)) fresh
      → All (All (ActionTold request v)) after
      → All (All (ActionTold request v)) (before ++ t ∷ (fresh ++ after))
  replaced v before after fresh t hb ht hf ha =
      All-append (All (ActionTold request v)) before _ hb
        (ht, All-append (All (ActionTold request v)) fresh after hf ha)

  piece-IsTruthful :
      (w : World) (before after : List (List Action)) (a : Action) (rest : List Action)
      (accepted : List Completion) {n : Next}
      → Runs w a n
      → ¬ IsEffect a
      → Move (view w) (view n.world)
      → IsTruthful
          (record { world = w; threads = before ++ (a ∷ rest) ∷ after; accepted = accepted })
      → IsTruthful (record {
        world = n.world;
        threads = before ++ (n.rest ++ rest) ∷ (n.threads ++ after);
        accepted = accepted;
      })
  piece-IsTruthful w before after a rest accepted {n} r other m inv =
      let old = threads-Move (before ++ (a ∷ rest) ∷ after) m inv.threads in
      let back =
        All-back (All (ActionTold request (view n.world))) before ((a ∷ rest) ∷ after) old in
      let k = Runs-Tells request r other inv.last inv.owned in
      let keeps = Runs-PieceKeeps r other in
      record {
        threads =
            replaced (view n.world) before after n.threads (n.rest ++ rest)
              (All-front (All (ActionTold request (view n.world))) before ((a ∷ rest) ∷ after) old)
              (All-append (ActionTold request (view n.world)) n.rest rest k.rest back.0.1)
              (silent_threads-Told request (view n.world) n.threads keeps.quiet) back.1;
        dispatcher =
            subst (DispatcherTold request (view n.world)) (sym keeps.same)
              (DispatcherTold-Move request m w.dispatcher inv.dispatcher);
        owned = k.owned;
        last = Move-IsLast m inv.last;
      }

  queue_on-Told :
      (v : View) (o : Option CompletionDispatcher) (c : Completion) (event : ServiceEvent)
      (w : World)
      → w.dispatcher ≡ o
      → DispatcherTold request v o
      → IsTold request v c event
      → DispatcherTold request v (queue_on o c event w).0.dispatcher
  unfolding queue_on Dispatch.send
  queue_on-Told v none c event w e h k = subst (DispatcherTold request v) (sym e) h
  queue_on-Told v (some d) c event w e h k = by_receiver d.sent d.called d.receiving h.0 h.1
    where
      by_receiver :
          (sent called : List CompletionItem) (b : Bool)
          → All (ItemTold request v) sent
          → All (ItemTold request v) called
          → DispatcherTold request v
              (queue_on
                (some (record { sent = sent; called = called; receiving = b }))
                c
                event
                w).0.dispatcher
      by_receiver sent called true hs hc = (All-append (ItemTold request v) sent _ hs (k, tt), hc)
      by_receiver sent called false hs hc = (hs, hc)

  perform-Told :
      (e : Effect) (w : World)
      → EffectTold request (view w) e
      → DispatcherTold request (view w) w.dispatcher
      → DispatcherTold request (view w) (perform e w).dispatcher
  unfolding perform
  perform-Told (Effect.cancel_once k) w t h = h
  perform-Told (Effect.request_stop k) w t h = h
  perform-Told (Effect.wake k e) w t h = h
  perform-Told (Effect.queue_completion c event) w t h =
      queue_on-Told (view w) w.dispatcher c event w refl h t

  effect-IsTruthful :
      (e : Effect) (w : World) (before after : List (List Action)) (rest : List Action)
      (accepted : List Completion)
      → IsTruthful (record {
        world = w;
        threads = before ++ (Action.effect e ∷ rest) ∷ after;
        accepted = accepted;
      })
      → IsTruthful
          (record { world = perform e w; threads = before ++ rest ∷ after; accepted = accepted })
  effect-IsTruthful e w before after rest accepted inv =
      let back =
        All-back (All (ActionTold request (view w))) before ((Action.effect e ∷ rest) ∷ after)
          inv.threads in
      let same = perform-inner e w in
      (record {
        threads =
            subst
              (λ (i : Inner). All (All (ActionTold request (view_of i))) (before ++ rest ∷ after))
              (sym same)
              (All-append (All (ActionTold request (view w))) before _
                (All-front (All (ActionTold request (view w))) before
                  ((Action.effect e ∷ rest) ∷ after) inv.threads)
                (back.0.1, back.1));
        dispatcher =
            subst (λ (i : Inner). DispatcherTold request (view_of i) (perform e w).dispatcher)
              (sym same) (perform-Told e w back.0.0 inv.dispatcher);
        owned = subst (λ (i : Inner). IsOwned request i.state) (sym same) inv.owned;
        last = subst (λ (i : Inner). IsLast (view_of i)) (sym same) inv.last;
      })

  pub run-IsTruthful :
      (w : World) (before after : List (List Action)) (a : Action) (rest : List Action)
      (accepted : List Completion) {n : Next}
      → Runs w a n
      → Move (view w) (view n.world)
      → IsTruthful
          (record { world = w; threads = before ++ (a ∷ rest) ∷ after; accepted = accepted })
      → IsTruthful (record {
        world = n.world;
        threads = before ++ (n.rest ++ rest) ∷ (n.threads ++ after);
        accepted = accepted;
      })
  run-IsTruthful w before after (Action.effect e) rest accepted (Runs.effect f) m inv =
      effect-IsTruthful e w before after rest accepted inv
  run-IsTruthful w before after a rest accepted r m inv =
      piece-IsTruthful w before after a rest accepted r (λ h. h) m inv
