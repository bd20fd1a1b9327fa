-- ===== src/Abi/Joint/Outstanding.antt =====
-- Which callbacks are still to come, by counting: those of the completions taken over that have not
-- been called.
use mathlib.Core.Option
use bare_arti.Base.{
  ℕ, suc, ◌+◌, ◌≡◌, refl, ap, Bool, true, false, Option, none, some, List, [], ◌∷◌, arith, count,
  count-append, String,
}
use bare_arti.Service.Types.{ServiceEvent}
use bare_arti.Service.Dispatch
use bare_arti.Service.Dispatch.{Completion, CompletionItem, CompletionDispatcher}
use bare_arti.Service.World.{World, queue_on}
use bare_arti.Service.Effects.{Effect, perform}
use bare_arti.Service.Supervisor.{Action, Next}
use bare_arti.Service.System.{Runs, System, Reach, dispatch_round}
use bare_arti.Service.Completions.Count.{
  pending, thread_completions, queued, called, item_completions, item_completions-append,
}
use bare_arti.Service.Completions.Pieces.{Runs-PieceKeeps}
use bare_arti.Service.Completions.Reachable.{completions_conserved}
use bare_arti.Abi.Joint.{next_items}

-- Every completion that was taken over has been called.
abbrev pub IsSettled : System → Type 0
IsSettled s = (c : Completion) → count c s.accepted ≡ count c (called s.world.dispatcher)

-- All but `d` have.
abbrev pub IsWaiting : Completion → System → Type 0
IsWaiting d s =
    (c : Completion) → count c s.accepted ≡ count c (d ∷ []) + count c (called s.world.dispatcher)

count_self : (c : Completion) (cs : List Completion) → count c (c ∷ cs) ≡ suc (count c cs)
count_self c cs = ground arith

-- The item that the dispatcher takes next is one that was not called.
next_outstanding :
    {timeout : ℕ} {failure : Option String} (s : System) (item : CompletionItem)
    (items : List CompletionItem)
    → Reach timeout failure s
    → next_items s.world.dispatcher ≡ item ∷ items
    → (n : ℕ) × (count item.completion s.accepted
        ≡ suc n + count item.completion (called s.world.dispatcher))
next_outstanding s item items r e = (
  count item.completion (pending s.world.inner.state)
      + count item.completion (thread_completions s.threads)
      + count item.completion (item_completions items),
  omega (
    arith,
    completions_conserved r item.completion,
    ap (count item.completion) (queued_next s.world.dispatcher e),
    count_self item.completion (item_completions items),
  ),
)
  where
    queued_next :
        (d : Option CompletionDispatcher)
        → next_items d ≡ item ∷ items
        → queued d ≡ item_completions (item ∷ items)
    queued_next none q = cc
    queued_next (some d) q = ap item_completions q

pub settled-no_callback :
    {timeout : ℕ} {failure : Option String} (s : System) (item : CompletionItem)
    (items : List CompletionItem)
    → Reach timeout failure s
    → next_items s.world.dispatcher ≡ item ∷ items
    → IsSettled s
    → ⊥
settled-no_callback s item items r e h =
    let (n, k) = next_outstanding s item items r e in omega (arith, k, h item.completion)

pub waiting-callback :
    {timeout : ℕ} {failure : Option String} (s : System) (item : CompletionItem)
    (items : List CompletionItem) (d : Completion)
    → Reach timeout failure s
    → next_items s.world.dispatcher ≡ item ∷ items
    → IsWaiting d s
    → item.completion ≡ d
waiting-callback s item items d r e h =
    let (n, k) = next_outstanding s item items r e in ground (arith, k, h item.completion)

-- The callback is made.
called_next :
    (o : Option CompletionDispatcher) (item : CompletionItem) (items : List CompletionItem)
    (c : Completion)
    → next_items o ≡ item ∷ items
    → count c (called (Option.map Dispatch.dispatch_round o))
      ≡ count c (item.completion ∷ []) + count c (called o)
unfolding Dispatch.dispatch_round
called_next none item items c e = cc
called_next (some d) item items c e = by_sent d.sent e
  where
    by_sent :
        (sent : List CompletionItem)
        → sent ≡ item ∷ items
        → count c (
            called (
              some (
                Dispatch.dispatch_round
                  (record { sent = sent; called = d.called; receiving = d.receiving }))))
          ≡ count c (item.completion ∷ []) + count c (item_completions d.called)
    by_sent [] q = cc
    by_sent (i ∷ is) q = omega (
      arith,
      ap (count c) (item_completions-append d.called (i ∷ [])),
      count-append c (item_completions d.called) (i.completion ∷ []),
      ap (λ is'. count c (first is')) q,
    )
      where
        first : List CompletionItem → List Completion
        first [] = []
        first (x ∷ xs) = x.completion ∷ []

pub waiting-settles :
    (s : System) (item : CompletionItem) (items : List CompletionItem)
    → next_items s.world.dispatcher ≡ item ∷ items
    → IsWaiting item.completion s
    → IsSettled (record s { world = dispatch_round s.world })
unfolding dispatch_round
waiting-settles s item items e h c =
    omega (arith, h c, called_next s.world.dispatcher item items c e)

-- A piece of a thread calls nobody.
queue_on-called :
    (o : Option CompletionDispatcher) (c : Completion) (event : ServiceEvent) (w : World)
    → w.dispatcher ≡ o
    → called (queue_on o c event w).0.dispatcher ≡ called o
unfolding queue_on Dispatch.send
queue_on-called none c event w e = ap called e
queue_on-called (some d) c event w e = by_receiver d.receiving
  where
    by_receiver :
        (b : Bool)
        → called
            (queue_on
              (some (record { sent = d.sent; called = d.called; receiving = b }))
              c
              event
              w).0.dispatcher
          ≡ item_completions d.called
    by_receiver true = refl
    by_receiver false = refl

perform-called : (e : Effect) (w : World) → called (perform e w).dispatcher ≡ called w.dispatcher
unfolding perform
perform-called (Effect.cancel_once h) w = refl
perform-called (Effect.request_stop h) w = refl
perform-called (Effect.wake h e) w = refl
perform-called (Effect.queue_completion c event) w = queue_on-called w.dispatcher c event w refl

pub Runs-called :
    {w : World} (a : Action) {n : Next}
    → Runs w a n
    → called n.world.dispatcher ≡ called w.dispatcher
Runs-called {w} (Action.effect e) (Runs.effect f) = perform-called e w
Runs-called a r = ap called (Runs-PieceKeeps r (λ h. h)).same
