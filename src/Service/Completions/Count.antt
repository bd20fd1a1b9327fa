-- ===== src/Service/Completions/Count.antt =====
-- Where a completion can be: in the state, among the effects of a thread, at the dispatcher.
use bare_arti.Base.{◌≡◌, refl, Option, none, some, List, [], ◌∷◌, ◌++◌, map, append_assoc}
use bare_arti.Service.Types.{ServiceError, ServiceEvent}
use bare_arti.Service.Dispatch.{Completion, CompletionItem, CompletionDispatcher}
use bare_arti.Service.World.{State}
use bare_arti.Service.Effects.{Effect, queue_all}
use bare_arti.Service.Supervisor.{Action}

-- The completions that a state holds.
abbrev pub pending : State → List Completion
pending (State.starting a) = a.start_completions
pending (State.stopping s) = s.start_completions ++ s.stop_completions
pending _ = []

abbrev pub effect_completions : List Effect → List Completion
effect_completions [] = []
effect_completions (Effect.queue_completion c event ∷ es) = c ∷ effect_completions es
effect_completions (_ ∷ es) = effect_completions es

abbrev pub action_completions : List Action → List Completion
action_completions [] = []
action_completions (Action.effect (Effect.queue_completion c event) ∷ acts) =
    c ∷ action_completions acts
action_completions (_ ∷ acts) = action_completions acts

abbrev pub thread_completions : List (List Action) → List Completion
thread_completions [] = []
thread_completions (t ∷ ts) = action_completions t ++ thread_completions ts

abbrev pub item_completions : List CompletionItem → List Completion
item_completions [] = []
item_completions (i ∷ is) = i.completion ∷ item_completions is

-- Sent to the dispatcher and not yet called; called.
abbrev pub queued : Option CompletionDispatcher → List Completion
queued none = []
queued (some d) = item_completions d.sent

abbrev pub called : Option CompletionDispatcher → List Completion
called none = []
called (some d) = item_completions d.called

-- The error of a failed state.
abbrev pub failure : State → Option ServiceError
failure (State.failed f) = some f.error
failure _ = none

pub effect_completions-append :
    (es fs : List Effect)
    → effect_completions (es ++ fs) ≡ effect_completions es ++ effect_completions fs
effect_completions-append [] fs = refl
effect_completions-append (Effect.queue_completion c event ∷ es) fs =
    cc (effect_completions-append es fs)
effect_completions-append (Effect.cancel_once h ∷ es) fs = effect_completions-append es fs
effect_completions-append (Effect.request_stop h ∷ es) fs = effect_completions-append es fs
effect_completions-append (Effect.wake h e ∷ es) fs = effect_completions-append es fs

pub effect_completions-queue_all :
    (cs : List Completion) (event : ServiceEvent) → effect_completions (queue_all cs event) ≡ cs
unfolding queue_all
effect_completions-queue_all [] event = refl
effect_completions-queue_all (c ∷ cs) event = cc (effect_completions-queue_all cs event)

-- The completions of two lists of answers, as every section that ends a generation makes them.
pub effect_completions-both :
    (cs ds : List Completion) (e f : ServiceEvent)
    → effect_completions (queue_all cs e ++ queue_all ds f) ≡ cs ++ ds
effect_completions-both cs ds e f = simp (effect_completions-append, effect_completions-queue_all)

pub action_completions-append :
    (acts bs : List Action)
    → action_completions (acts ++ bs) ≡ action_completions acts ++ action_completions bs
action_completions-append [] bs = refl
action_completions-append (Action.effect (Effect.queue_completion c event) ∷ acts) bs =
    cc (action_completions-append acts bs)
action_completions-append (Action.effect (Effect.cancel_once h) ∷ acts) bs =
    action_completions-append acts bs
action_completions-append (Action.effect (Effect.request_stop h) ∷ acts) bs =
    action_completions-append acts bs
action_completions-append (Action.effect (Effect.wake h e) ∷ acts) bs =
    action_completions-append acts bs
action_completions-append (_ ∷ acts) bs = action_completions-append acts bs

pub action_completions-map_effect :
    (es : List Effect) → action_completions (map Action.effect es) ≡ effect_completions es
action_completions-map_effect [] = refl
action_completions-map_effect (Effect.queue_completion c event ∷ es) =
    cc (action_completions-map_effect es)
action_completions-map_effect (Effect.cancel_once h ∷ es) = action_completions-map_effect es
action_completions-map_effect (Effect.request_stop h ∷ es) = action_completions-map_effect es
action_completions-map_effect (Effect.wake h e ∷ es) = action_completions-map_effect es

pub thread_completions-append :
    (ts us : List (List Action))
    → thread_completions (ts ++ us) ≡ thread_completions ts ++ thread_completions us
thread_completions-append [] us = refl
thread_completions-append (t ∷ ts) us = simp (thread_completions-append ts us, append_assoc)

pub item_completions-append :
    (is js : List CompletionItem)
    → item_completions (is ++ js) ≡ item_completions is ++ item_completions js
item_completions-append [] js = refl
item_completions-append (i ∷ is) js = cc (item_completions-append is js)
