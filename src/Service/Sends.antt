-- ===== src/Service/Sends.antt =====
-- The completions that the effects of a critical section of src/service.rs send, and nothing else.
use bare_arti.Base.{
  Option, none, ◌≡◌, refl, sym, ap, ◌∙◌, some, List, [], ◌∷◌, ◌++◌, append_assoc, append-nil, subst,
}
use bare_arti.Service.Dispatch.{CompletionItem, CompletionDispatcher, Completion}
use bare_arti.Service.Types.{ServiceEvent, Result}
use bare_arti.Service.World.{World}
use bare_arti.Service.Effects.{Effect, perform, perform_all, queue_all}
use bare_arti.Service.Requests.{IsDispatching}
use bare_arti.Service.Completions.Send.{with_item, queue_completion_lem}

pub perform_all-append :
    (xs ys : List Effect) (w : World) → perform_all (xs ++ ys) w ≡ perform_all ys (perform_all xs w)
unfolding perform_all
perform_all-append [] ys w = refl
perform_all-append (x ∷ xs) ys w = perform_all-append xs ys (perform x w)

-- What the dispatcher has on its channel.
abbrev pub items : Option CompletionDispatcher → List CompletionItem
items none = []
items (some d) = d.sent

-- The same event for every completion.
abbrev pub with_event : List Completion → ServiceEvent → List CompletionItem
with_event [] event = []
with_event (c ∷ cs) event = record { completion = c; event = event } ∷ with_event cs event

-- From `w` to `v` nothing happens but that `is` are sent.
pub record Sent (w v : World) (is : List CompletionItem) : Type 0 where
  pub inner : v.inner ≡ w.inner
  pub poisoned : v.poisoned ≡ w.poisoned
  pub cancels : v.cancels ≡ w.cancels
  pub lifecycles : v.lifecycles ≡ w.lifecycles
  pub sent : items v.dispatcher ≡ items w.dispatcher ++ is
  pub dispatching : IsDispatching v

send-Sent :
    (c : Completion) (event : ServiceEvent) (w : World)
    → IsDispatching w
    → Sent w
        (perform (Effect.queue_completion c event) w)
        (record { completion = c; event = event } ∷ [])
unfolding perform
send-Sent c event w d =
    subst (λ (r : World × Result (Unit {0})). Sent w r.0 (with_event (c ∷ []) event))
      (sym (queue_completion_lem c event w d.dispatcher d.here d.receives))
      (record {
        inner = refl;
        poisoned = refl;
        cancels = refl;
        lifecycles = refl;
        sent = ap (λ x. items x ++ with_event (c ∷ []) event) (sym d.here);
        dispatching = record {
          dispatcher = with_item c event d.dispatcher;
          here = refl;
          receives = d.receives;
        };
      })

pub Sent-then :
    {w v u : World} {xs ys : List CompletionItem} → Sent w v xs → Sent v u ys → Sent w u (xs ++ ys)
Sent-then {xs = xs} {ys = ys} a b = record {
  inner = b.inner ∙ a.inner;
  poisoned = b.poisoned ∙ a.poisoned;
  cancels = b.cancels ∙ a.cancels;
  lifecycles = b.lifecycles ∙ a.lifecycles;
  sent = b.sent ∙ ap (λ q. q ++ ys) a.sent ∙ append_assoc _ xs ys;
  dispatching = b.dispatching;
}

pub queue_all-Sent :
    (cs : List Completion) (event : ServiceEvent) (w : World)
    → IsDispatching w
    → Sent w (perform_all (queue_all cs event) w) (with_event cs event)
unfolding perform_all queue_all
queue_all-Sent [] event w d = record {
  inner = refl;
  poisoned = refl;
  cancels = refl;
  lifecycles = refl;
  sent = sym (append-nil _);
  dispatching = d;
}
queue_all-Sent (c ∷ cs) event w d =
    let first = send-Sent c event w d in
    Sent-then first (queue_all-Sent cs event _ first.dispatching)
