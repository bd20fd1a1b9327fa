-- ===== src/Service/Completions/Reachable.antt =====
-- In every reachable state of src/service.rs, every completion that was taken over stands at exactly
-- one place: in the state, among the effects of a thread, at the dispatcher, or called.
use mathlib.Core.Option
use bare_arti.Base.{
  ℕ, ◌+◌, ◌≤◌, ◌≡◌, refl, sym, ap, ◌∙◌, Option, none, some, List, [], ◌∷◌, ◌++◌, arith, count,
  String, subst,
}
use bare_arti.Service.Dispatch
use bare_arti.Service.Dispatch.{Completion, CompletionItem, CompletionDispatcher}
use bare_arti.Service.World.{World, State, with_dependencies}
use bare_arti.Service.Effects.{Effect, perform}
use bare_arti.Service.Supervisor.{Action, Next}
use bare_arti.Service.System.{
  Runs, System, Step, Reach, call_start, call_stop, dispatch_round, new_system, section,
}
use bare_arti.Service.Completions.Count.{pending, thread_completions, queued, called}
use bare_arti.Service.Completions.Send.{dispatch_round-count}
use bare_arti.Service.Completions.Pieces.{Runs-PieceKeeps}
use bare_arti.Service.Completions.Calls.{start_locked-Keeps, stop_locked-Keeps}
use bare_arti.Service.Completions.Accounts.{
  IsAccounted, IsServed, call-IsAccounted, piece-IsAccounted, places, quiet_effect-IsAccounted,
  send-IsAccounted,
}

dispatch-IsAccounted :
    (s : System) → IsAccounted s → IsAccounted (record s { world = dispatch_round s.world })
unfolding dispatch_round
dispatch-IsAccounted s inv = record {
  balance = λ c. inv.balance c ∙ balanced c s.world.dispatcher;
  served = still s.world.dispatcher inv.served;
}
  where
    balanced :
        (c : Completion) (d : Option CompletionDispatcher)
        → count c (pending s.world.inner.state)
            + count c (thread_completions s.threads)
            + count c (queued d)
            + count c (called d)
          ≡ count c (pending s.world.inner.state)
            + count c (thread_completions s.threads)
            + count c (queued (Option.map Dispatch.dispatch_round d))
            + count c (called (Option.map Dispatch.dispatch_round d))
    balanced c none = refl
    balanced c (some d) = omega (arith, (dispatch_round-count c d).0)

    still :
        (d : Option CompletionDispatcher)
        → IsServed d s.world.inner.state s.accepted
        → IsServed (Option.map Dispatch.dispatch_round d) s.world.inner.state s.accepted
    still none h = h
    still (some d) h = (dispatch_round-count 0 d).1 ∙ h

effect-IsAccounted :
    (e : Effect) (w : World) (before after : List (List Action)) (rest : List Action)
    (accepted : List Completion)
    → IsAccounted (record {
      world = w;
      threads = before ++ (Action.effect e ∷ rest) ∷ after;
      accepted = accepted;
    })
    → IsAccounted
        (record { world = perform e w; threads = before ++ rest ∷ after; accepted = accepted })
unfolding perform
effect-IsAccounted (Effect.cancel_once h) w before after rest accepted inv =
    quiet_effect-IsAccounted w _ before after _ rest accepted refl refl refl inv
effect-IsAccounted (Effect.request_stop h) w before after rest accepted inv =
    quiet_effect-IsAccounted w _ before after _ rest accepted refl refl refl inv
effect-IsAccounted (Effect.wake h error) w before after rest accepted inv =
    quiet_effect-IsAccounted w _ before after _ rest accepted refl refl refl inv
effect-IsAccounted (Effect.queue_completion c event) w before after rest accepted inv =
    send-IsAccounted w.dispatcher w before after c event rest accepted refl inv

Runs-effect :
    {w : World} {e : Effect} {n : Next} → Runs w (Action.effect e) n → n ≡ section (perform e w, [])
Runs-effect (Runs.effect e) = refl

run-IsAccounted :
    (w : World) (before after : List (List Action)) (a : Action) (rest : List Action)
    (accepted : List Completion) {n : Next}
    → Runs w a n
    → IsAccounted
        (record { world = w; threads = before ++ (a ∷ rest) ∷ after; accepted = accepted })
    → IsAccounted (record {
      world = n.world;
      threads = before ++ (n.rest ++ rest) ∷ (n.threads ++ after);
      accepted = accepted;
    })
run-IsAccounted w before after (Action.effect e) rest accepted r inv =
    subst
      (λ (m : Next). IsAccounted (record {
        world = m.world;
        threads = before ++ (m.rest ++ rest) ∷ (m.threads ++ after);
        accepted = accepted;
      }))
      (sym (Runs-effect r)) (effect-IsAccounted e w before after rest accepted inv)
run-IsAccounted w before after a rest accepted {n} r inv =
    piece-IsAccounted w before after a rest accepted n (λ h. h) inv (Runs-PieceKeeps r (λ h. h))

Step-IsAccounted : {s t : System} → Step s t → IsAccounted s → IsAccounted t
unfolding call_start call_stop
Step-IsAccounted (Step.start options c s) inv =
    call-IsAccounted s _ _ _ _ inv (start_locked-Keeps options c s.world)
Step-IsAccounted (Step.stop g c s) inv =
    call-IsAccounted s _ _ _ _ inv (stop_locked-Keeps g c s.world)
Step-IsAccounted (Step.run w before after a rest accepted r) inv =
    run-IsAccounted w before after a rest accepted r inv
Step-IsAccounted (Step.dispatch s) inv = dispatch-IsAccounted s inv
Step-IsAccounted (Step.poison s) inv = record { balance = inv.balance; served = inv.served }

new_system-IsAccounted :
    (timeout : ℕ) (failure : Option String) → IsAccounted (new_system timeout failure)
unfolding with_dependencies
new_system-IsAccounted timeout none = record { balance = λ c. refl; served = refl }
new_system-IsAccounted timeout (some e) = record { balance = λ c. refl; served = (_, refl, refl) }

pub Reach-IsAccounted :
    {timeout : ℕ} {failure : Option String} {s : System} → Reach timeout failure s → IsAccounted s
Reach-IsAccounted {timeout} {failure} Reach.here = new_system-IsAccounted timeout failure
Reach-IsAccounted (Reach.next r st) = Step-IsAccounted st (Reach-IsAccounted r)

-- In every state that a controller can come to, by any interleaving of calls, threads, the
-- dispatcher, and panics at the points modelled, each completion has been taken over exactly as often
-- as it stands in the state, among a thread's effects, at the dispatcher and among the calls
-- together.
pub completions_conserved :
    {timeout : ℕ} {failure : Option String} {s : System}
    → Reach timeout failure s
    → (c : Completion) → count c s.accepted ≡ places c s.world s.threads
completions_conserved r = (Reach-IsAccounted r).balance

-- A completion that was handed over once is called at most once.
pub called_at_most_once :
    {timeout : ℕ} {failure : Option String} {s : System}
    → Reach timeout failure s
    → (c : Completion) → count c s.accepted ≡ 1
    → count c (called s.world.dispatcher) ≤ 1
called_at_most_once r c once = omega (arith, (Reach-IsAccounted r).balance c)

abbrev pub IsSettled : State → Type 0
IsSettled (State.starting a) = ⊥
IsSettled (State.stopping s) = ⊥
IsSettled _ = Unit {0}

pending_of_IsSettled : (s : State) → IsSettled s → pending s ≡ []
pending_of_IsSettled (State.starting a) h = absurd h
pending_of_IsSettled (State.stopping s) h = absurd h
pending_of_IsSettled _ h = refl

-- When the service is stopped, running or failed, no thread has a completion to send, and the dispatcher's
-- queue is empty, every completion that was taken over has been called exactly as often.
pub settled_all_called :
    {timeout : ℕ} {failure : Option String} {s : System}
    → Reach timeout failure s
    → IsSettled s.world.inner.state
    → thread_completions s.threads ≡ []
    → queued s.world.dispatcher ≡ []
    → (c : Completion) → count c s.accepted ≡ count c (called s.world.dispatcher)
settled_all_called {s} r settled idle empty c = omega (
  arith,
  (Reach-IsAccounted r).balance c,
  ap (count c) (pending_of_IsSettled s.world.inner.state settled),
  ap (count c) idle,
  ap (count c) empty,
)
