-- ===== src/Service/Completions/Send.antt =====
-- What a dispatcher that receives does with a completion.
use bare_arti.Base.{◌+◌, ◌≡◌, refl, ap, true, some, List, [], ◌∷◌, ◌++◌, arith, count, count-append}
use bare_arti.Service.Types.{ServiceEvent, ok}
use bare_arti.Service.Dispatch
use bare_arti.Service.Dispatch.{Completion, CompletionItem, CompletionDispatcher}
use bare_arti.Service.World.{World, queue_completion}
use bare_arti.Service.Completions.Count.{item_completions, item_completions-append, queued, called}

abbrev pub with_item : Completion → ServiceEvent → CompletionDispatcher → CompletionDispatcher
with_item c event d = record d { sent = d.sent ++ record { completion = c; event = event } ∷ [] }

-- The completion is sent, and the call returns `Ok`.
pub queue_completion_lem :
    (c : Completion) (event : ServiceEvent) (w : World) (d : CompletionDispatcher)
    → w.dispatcher ≡ some d
    → d.receiving ≡ true
    → queue_completion c event w ≡ (record w { dispatcher = some (with_item c event d) }, ok tt)
unfolding queue_completion
queue_completion_lem c event w d e h = rw (e, h)

pub queued-with_item :
    (c : Completion) (event : ServiceEvent) (d : CompletionDispatcher)
    → queued (some (with_item c event d)) ≡ queued (some d) ++ c ∷ []
queued-with_item c event d =
    item_completions-append d.sent (record { completion = c; event = event } ∷ [])

pub count-with_item :
    (b c : Completion) (event : ServiceEvent) (d : CompletionDispatcher)
    → count b (queued (some (with_item c event d))) ≡ count b (queued (some d)) + count b (c ∷ [])
count-with_item b c event d = omega (
  arith,
  ap (count b) (queued-with_item c event d),
  count-append b (item_completions d.sent) (c ∷ []),
)

-- A round of the dispatcher moves one completion from the queue to the calls, or does nothing.
receive-count :
    (b : Completion) (items : List CompletionItem) (d : CompletionDispatcher)
    → d.sent ≡ items
    → let r = Dispatch.receive items d in
      (count b (item_completions r.sent) + count b (item_completions r.called)
        ≡ count b (item_completions items) + count b (item_completions d.called))
      × (r.receiving ≡ d.receiving)
unfolding Dispatch.receive
receive-count b [] d e = (omega (arith, ap (λ t. count b (item_completions t)) e), refl)
receive-count b (i ∷ items) d e = (
  omega (
    arith,
    ap (count b) (item_completions-append d.called (i ∷ [])),
    count-append b (item_completions d.called) (i.completion ∷ []),
  ),
  refl,
)

pub dispatch_round-count :
    (b : Completion) (d : CompletionDispatcher)
    → let r = Dispatch.dispatch_round d in
      (count b (queued (some r)) + count b (called (some r))
        ≡ count b (queued (some d)) + count b (called (some d)))
      × (r.receiving ≡ d.receiving)
unfolding Dispatch.dispatch_round
dispatch_round-count b d = receive-count b d.sent d refl
