-- ===== src/Service/Completions/Accounts.antt =====
-- How the steps of src/service.rs other than the dispatcher's keep the account of completions.
use bare_arti.Base.{
  ℕ, suc, ◌+◌, ◌≡◌, refl, sym, ap, true, Option, none, some, List, [], ◌∷◌, ◌++◌, arith, map, count,
  count-append, subst,
}
use bare_arti.Service.Types.{ServiceError, ServiceEvent, Result, ok}
use bare_arti.Service.Dispatch.{Completion, CompletionDispatcher}
use bare_arti.Service.World.{World, Inner, State, queue_completion}
use bare_arti.Service.Effects.{Effect, perform}
use bare_arti.Service.Supervisor.{Action, Next}
use bare_arti.Service.System.{System}
use bare_arti.Service.Completions.Count.{
  pending, action_completions, thread_completions, queued, called, failure,
  action_completions-append, action_completions-map_effect, thread_completions-append,
}
use bare_arti.Service.Completions.Send.{with_item, queue_completion_lem, count-with_item}
use bare_arti.Service.Completions.Pieces.{IsEffect}
use bare_arti.Service.Completions.Still.{PieceKeeps}
use bare_arti.Service.Completions.Calls.{CallKeeps}

-- Without a dispatcher the service has failed from the start, and nothing was ever taken over.
abbrev pub IsServed : Option CompletionDispatcher → State → List Completion → Type 0
IsServed none s accepted = (e : ServiceError) × (failure s ≡ some e) × (accepted ≡ [])
IsServed (some d) s accepted = d.receiving ≡ true

-- How often `c` stands at the places where a completion can be.
abbrev pub places : Completion → World → List (List Action) → ℕ
places c w threads =
    count c (pending w.inner.state)
    + count c (thread_completions threads)
    + count c (queued w.dispatcher)
    + count c (called w.dispatcher)

pub record IsAccounted (s : System) : Type 0 where
  pub balance : (c : Completion) → count c s.accepted ≡ places c s.world s.threads
  pub served : IsServed s.world.dispatcher s.world.inner.state s.accepted

-- A new thread, and completions that are taken over.
pub call-IsAccounted :
    (s : System) (v : World) (es : List Effect) (rest : List Action) (accepts : List Completion)
    → IsAccounted s
    → CallKeeps s.world v es (action_completions rest) accepts
    → IsAccounted (record {
      world = v;
      threads = (map Action.effect es ++ rest) ∷ s.threads;
      accepted = accepts ++ s.accepted;
    })
call-IsAccounted s v es rest accepts inv k = record {
  balance = λ c. omega (
    arith,
    inv.balance c,
    k.kept c,
    count-append c accepts s.accepted,
    count-append c (action_completions (map Action.effect es ++ rest))
        (thread_completions s.threads),
    ap (count c) (action_completions-append (map Action.effect es) rest),
    count-append c (action_completions (map Action.effect es)) (action_completions rest),
    ap (count c) (action_completions-map_effect es),
    ap (λ d. count c (queued d)) k.same,
    ap (λ d. count c (called d)) k.same,
  );
  served = served-call s.world.dispatcher (sym k.same) inv.served;
}
  where
    served-call :
        (d : Option CompletionDispatcher)
        → d ≡ v.dispatcher
        → IsServed d s.world.inner.state s.accepted
        → IsServed v.dispatcher v.inner.state (accepts ++ s.accepted)
    served-call none e h = rw (← e) (h.0, k.stays h.0 h.1, rw (k.refuses h.0 h.1) h.2)
    served-call (some d) e h = rw (← e) h

-- The threads before, the running one and those after it.
count-split :
    (c : Completion) (before : List (List Action)) (t : List Action) (after : List (List Action))
    → count c (thread_completions (before ++ t ∷ after))
      ≡ count c (thread_completions before)
        + (count c (action_completions t) + count c (thread_completions after))
count-split c before t after = omega (
  arith,
  ap (count c) (thread_completions-append before (t ∷ after)),
  count-append c (thread_completions before) (action_completions t ++ thread_completions after),
  count-append c (action_completions t) (thread_completions after),
)

pub action_completions-other :
    (a : Action) (rest : List Action)
    → ¬ IsEffect a
    → action_completions (a ∷ rest) ≡ action_completions rest
action_completions-other (Action.effect e) rest h = absurd (h tt)
action_completions-other _ rest h = refl

pub piece-IsAccounted :
    (w : World) (before after : List (List Action)) (a : Action) (rest : List Action)
    (accepted : List Completion) (n : Next)
    → ¬ IsEffect a
    → IsAccounted
        (record { world = w; threads = before ++ (a ∷ rest) ∷ after; accepted = accepted })
    → PieceKeeps w n
    → IsAccounted (record {
      world = n.world;
      threads = before ++ (n.rest ++ rest) ∷ (n.threads ++ after);
      accepted = accepted;
    })
piece-IsAccounted w before after a rest accepted n other inv k = record {
  balance = λ c. omega (
    arith,
    inv.balance c,
    count-split c before (a ∷ rest) after,
    ap (count c) (action_completions-other a rest other),
    count-split c before (n.rest ++ rest) (n.threads ++ after),
    ap (count c) (action_completions-append n.rest rest),
    count-append c (action_completions n.rest) (action_completions rest),
    ap (count c) (thread_completions-append n.threads after),
    count-append c (thread_completions n.threads) (thread_completions after),
    ap (count c) k.quiet,
    ap (count c) k.kept,
    count-append c (pending n.world.inner.state) (action_completions n.rest),
    ap (λ d. count c (queued d)) k.same,
    ap (λ d. count c (called d)) k.same,
  );
  served = served-piece w.dispatcher (sym k.same) inv.served;
}
  where
    served-piece :
        (d : Option CompletionDispatcher)
        → d ≡ n.world.dispatcher
        → IsServed d w.inner.state accepted
        → IsServed n.world.dispatcher n.world.inner.state accepted
    served-piece none e h = rw (← e) (h.0, k.stays h.0 h.1, h.2)
    served-piece (some d) e h = rw (← e) h

-- An effect that sends no completion changes no place.
pub quiet_effect-IsAccounted :
    (w v : World) (before after : List (List Action)) (a : Action) (rest : List Action)
    (accepted : List Completion)
    → action_completions (a ∷ rest) ≡ action_completions rest
    → v.inner ≡ w.inner
    → v.dispatcher ≡ w.dispatcher
    → IsAccounted
        (record { world = w; threads = before ++ (a ∷ rest) ∷ after; accepted = accepted })
    → IsAccounted (record { world = v; threads = before ++ rest ∷ after; accepted = accepted })
quiet_effect-IsAccounted w v before after a rest accepted e i d inv = record {
  balance = λ c. omega (
    arith,
    inv.balance c,
    count-split c before (a ∷ rest) after,
    count-split c before rest after,
    ap (count c) e,
    ap (λ (x : Inner). count c (pending x.state)) i,
    ap (λ x. count c (queued x)) d,
    ap (λ x. count c (called x)) d,
  );
  served = rw (i, d) inv.served;
}

count_self : (c : Completion) (cs : List Completion) → count c (c ∷ cs) ≡ suc (count c cs)
count_self c cs = ground arith

-- The dispatcher takes the completion, for there is one and it receives.
pub send-IsAccounted :
    (d : Option CompletionDispatcher) (w : World) (before after : List (List Action))
    (c : Completion) (event : ServiceEvent) (rest : List Action) (accepted : List Completion)
    → w.dispatcher ≡ d
    → IsAccounted (record {
      world = w;
      threads = before ++ (Action.effect (Effect.queue_completion c event) ∷ rest) ∷ after;
      accepted = accepted;
    })
    → IsAccounted (record {
      world = perform (Effect.queue_completion c event) w;
      threads = before ++ rest ∷ after;
      accepted = accepted;
    })
unfolding perform
send-IsAccounted none w before after c event rest accepted e inv = absurd (
    omega (
      arith,
      inv.balance c,
      ap (count c) none_accepted.2,
      count-split c before (Action.effect (Effect.queue_completion c event) ∷ rest) after,
      count_self c (action_completions rest),
    ))
  where
    none_accepted : IsServed none w.inner.state accepted
    none_accepted = subst (λ d. IsServed d w.inner.state accepted) e inv.served
send-IsAccounted (some d) w before after c event rest accepted e inv = record {
  balance = λ b. omega (
    arith,
    inv.balance b,
    count-split b before (Action.effect (Effect.queue_completion c event) ∷ rest) after,
    count-split b before rest after,
    count-with_item b c event d,
    count-append b (c ∷ []) (action_completions rest),
    ap (λ (r : World × Result (Unit {0})). count b (pending r.0.inner.state)) sent,
    ap (λ (r : World × Result (Unit {0})). count b (queued r.0.dispatcher)) sent,
    ap (λ (r : World × Result (Unit {0})). count b (called r.0.dispatcher)) sent,
    ap (λ x. count b (queued x)) e,
    ap (λ x. count b (called x)) e,
  );
  served =
      subst (λ (r : World × Result (Unit {0})). IsServed r.0.dispatcher r.0.inner.state accepted)
        (sym sent) receives;
}
  where
    receives : d.receiving ≡ true
    receives = subst (λ x. IsServed x w.inner.state accepted) e inv.served

    sent :
        queue_completion c event w ≡ (record w { dispatcher = some (with_item c event d) }, ok tt)
    sent = queue_completion_lem c event w d e receives
