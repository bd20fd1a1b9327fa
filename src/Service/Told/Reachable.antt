-- ===== src/Service/Told/Reachable.antt =====
-- In every reachable state of src/service.rs, what the completions are told is so.
use mathlib.Core.Option
use bare_arti.Base.{ℕ, ◌≡◌, Option, none, some, List, [], ◌∷◌, String, All, All-append}
use bare_arti.Service.Dispatch
use bare_arti.Service.Dispatch.{Completion, CompletionItem, CompletionDispatcher}
use bare_arti.Service.World.{with_dependencies}
use bare_arti.Service.System.{System, Step, call_start, call_stop, dispatch_round, new_system}
use bare_arti.Service.Completions.Calls.{start_locked-Keeps, stop_locked-Keeps}
use bare_arti.Service.Diagram.Pieces.{View, view}
use bare_arti.Service.Diagram.Refines.{step_refines_diagram}
use bare_arti.Service.Told.Items.{Request, ItemTold, DispatcherTold}
use bare_arti.Service.Told.Calls.{start_locked-Tells, stop_locked-Tells}
use bare_arti.Service.Told.Truthful.{IsTruthful, call-IsTruthful, run-IsTruthful}

module _ (request : Completion → Request) where
  -- Each call hands over a completion that is known as its own.
  abbrev pub IsLabelled : {s t : System} → Step s t → Type 0
  IsLabelled (Step.start options c s) = request c ≡ Request.start options.generation
  IsLabelled (Step.stop g c s) = request c ≡ Request.stop g
  IsLabelled _ = Unit {0}

  -- The states that such calls lead to.
  pub data LabelledReach (timeout : ℕ) (failure : Option String) : System → Type 0 where
    here : LabelledReach timeout failure (new_system timeout failure)
    next :
        {s t : System}
        → LabelledReach timeout failure s
        → (step : Step s t) → IsLabelled step
        → LabelledReach timeout failure t

  dispatch-Told :
      (v : View) (o : Option CompletionDispatcher)
      → DispatcherTold request v o
      → DispatcherTold request v (Option.map Dispatch.dispatch_round o)
  unfolding Dispatch.dispatch_round
  dispatch-Told v none h = tt
  dispatch-Told v (some d) h = by_sent d.sent d.called h.0 h.1
    where
      by_sent :
          (sent called : List CompletionItem)
          → All (ItemTold request v) sent
          → All (ItemTold request v) called
          → DispatcherTold request v (
              some (
                Dispatch.dispatch_round
                  (record { sent = sent; called = called; receiving = d.receiving })))
      by_sent [] called hs hc = (tt, hc)
      by_sent (i ∷ is) called hs hc = (hs.1, All-append (ItemTold request v) called _ hc (hs.0, tt))

  Step-IsTruthful :
      {s t : System}
      → (step : Step s t) → IsLabelled step
      → IsTruthful request s
      → IsTruthful request t
  unfolding call_start call_stop dispatch_round
  Step-IsTruthful (Step.start options c s) own inv =
      call-IsTruthful request s _ _ _ _ (step_refines_diagram (Step.start options c s))
        (start_locked-Keeps options c s.world).same
        (start_locked-Tells request options c s.world own inv.last inv.owned) inv
  Step-IsTruthful (Step.stop g c s) own inv =
      call-IsTruthful request s _ _ _ _ (step_refines_diagram (Step.stop g c s))
        (stop_locked-Keeps g c s.world).same
        (stop_locked-Tells request g c s.world own inv.last inv.owned) inv
  Step-IsTruthful (Step.run w before after a rest accepted r) own inv =
      run-IsTruthful request w before after a rest accepted r
        (step_refines_diagram (Step.run w before after a rest accepted r)) inv
  Step-IsTruthful (Step.dispatch s) own inv = record {
    threads = inv.threads;
    dispatcher = dispatch-Told (view s.world) s.world.dispatcher inv.dispatcher;
    owned = inv.owned;
    last = inv.last;
  }
  Step-IsTruthful (Step.poison s) own inv = record {
    threads = inv.threads;
    dispatcher = inv.dispatcher;
    owned = inv.owned;
    last = inv.last;
  }

  new_system-IsTruthful :
      (timeout : ℕ) (failure : Option String) → IsTruthful request (new_system timeout failure)
  unfolding with_dependencies Dispatch.new
  new_system-IsTruthful timeout none = record {
    threads = tt;
    dispatcher = (tt, tt);
    owned = tt;
    last = λ g h. cc;
  }
  new_system-IsTruthful timeout (some e) = record {
    threads = tt;
    dispatcher = tt;
    owned = tt;
    last = λ g h. cc;
  }

  pub LabelledReach-IsTruthful :
      {timeout : ℕ} {failure : Option String} {s : System}
      → LabelledReach timeout failure s
      → IsTruthful request s
  LabelledReach-IsTruthful {timeout} {failure} LabelledReach.here =
      new_system-IsTruthful timeout failure
  LabelledReach-IsTruthful (LabelledReach.next r step own) =
      Step-IsTruthful step own (LabelledReach-IsTruthful r)

  -- In every state that a controller can come to, by any interleaving of calls, threads, the dispatcher,
  -- and panics at the points modelled, every completion that is sent or has been called is told an event
  -- that fits its request: a start, that its own generation runs or has failed; a stop, that its own
  -- generation has stopped or failed. Where it is told of an end, that generation is neither starting,
  -- running nor stopping, and not above the last one started. Each call is assumed to hand over a
  -- completion of its own kind and generation.
  pub told_is_so :
      {timeout : ℕ} {failure : Option String} {s : System}
      → LabelledReach timeout failure s
      → DispatcherTold request (view s.world) s.world.dispatcher
  told_is_so r = (LabelledReach-IsTruthful r).dispatcher
