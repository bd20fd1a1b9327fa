-- ===== src/Service/Starts.antt =====
-- What a `start` does in src/service.rs while a generation is starting or running.
use bare_arti.Base.{
  ◌≡◌, ◌⊎◌, refl, sym, ap, ◌∙◌, inl, inr, Bool, true, false, Option, none, some, List, [], ◌∷◌,
  ◌++◌, subst, if_split,
}
use bare_arti.Service.Types.{
  ServiceOptions, ServiceEvent, Result, ok, err, options_eq, conflict_error,
}
use bare_arti.Service.Dispatch.{Completion}
use bare_arti.Service.World.{World, State, Active, Running}
use bare_arti.Service.Effects.{Effect, perform_all}
use bare_arti.Service.Lock.{locked}
use bare_arti.Service.Controller.{
  SpawnOutcome, StartOutcome, SupervisorTask, start, start_locked, start_match, finish_start,
}
use bare_arti.Service.Requests.{IsDispatching}
use bare_arti.Service.Completions.Count.{pending, queued}
use bare_arti.Service.Completions.Send.{queue_completion_lem, queued-with_item}
use bare_arti.Service.Diagram.Edges.{phase}

-- The options of the generation that is starting or running.
abbrev pub held : State → Option ServiceOptions
held (State.starting a) = some a.options
held (State.running r) = some r.options
held _ = none

-- Where the completion of a start that was accepted went: with those of a starting generation it waits,
-- and of a running one it is sent.
abbrev pub IsTaken : Completion → State → World → World → Type 0
IsTaken c (State.starting a) w v =
    (pending v.inner.state ≡ a.start_completions ++ c ∷ [])
    × (queued v.dispatcher ≡ queued w.dispatcher)
IsTaken c s w v =
    (pending v.inner.state ≡ pending s) × (queued v.dispatcher ≡ queued w.dispatcher ++ c ∷ [])

abbrev Answer : Type 0
Answer = World × Result (Unit {0}) × Option SupervisorTask

-- What the start gives, where `mine` are the options of the generation.
abbrev pub Joins :
    ServiceOptions
    → ServiceOptions
    → Completion
    → World
    → World × Result (Unit {0}) × Option SupervisorTask
    → Type 0
Joins mine options c w r =
    (r.2 ≡ none)
    × (phase r.0.inner.state ≡ phase w.inner.state)
    × (((options_eq mine options ≡ true) × (r.1 ≡ ok tt) × IsTaken c w.inner.state w r.0)
        ⊎ ((options_eq mine options ≡ false) × (r.1 ≡ err conflict_error) × (r.0 ≡ w)))

abbrev at_state : State → Bool → World → World
at_state s p w = record w {
  inner = record { state = s; last_generation = w.inner.last_generation };
  poisoned = p;
}

abbrev finished : SpawnOutcome → Completion → World × List Effect × StartOutcome → Answer
finished answer c x = finish_start c answer x.2 (perform_all x.1 x.0)

some-injective : {x y : ServiceOptions} → some x ≡ some y → x ≡ y
some-injective h = cc

own-Joins-starting :
    (answer : SpawnOutcome) (options : ServiceOptions) (c : Completion) (a : Active) (w : World)
    → Joins a.options options c
        (at_state (State.starting a) false w)
        (start answer options c (at_state (State.starting a) false w))
unfolding start start_locked start_match finish_start perform_all locked
own-Joins-starting answer options c a w =
    if_split
      (λ x. Joins a.options options c (at_state (State.starting a) false w) (finished answer c x))
      (options_eq a.options options) (λ same. (refl, refl, inl (same, refl, (refl, refl))))
      (λ other. (refl, refl, inr (other, refl, refl)))

own-Joins-running :
    (answer : SpawnOutcome) (options : ServiceOptions) (c : Completion) (r : Running) (w : World)
    → IsDispatching (at_state (State.running r) false w)
    → Joins r.options options c
        (at_state (State.running r) false w)
        (start answer options c (at_state (State.running r) false w))
unfolding start start_locked start_match finish_start perform_all locked
own-Joins-running answer options c r w d =
    let v = at_state (State.running r) false w in
    let event = ServiceEvent.running options.generation r.port in
    if_split (λ x. Joins r.options options c v (finished answer c x)) (options_eq r.options options)
      (λ same.
        subst (λ (q : World × Result (Unit {0})). Joins r.options options c v (q.0, q.1, none))
          (sym (queue_completion_lem c event v d.dispatcher d.here d.receives))
          (
            refl,
            refl,
            inl (
              same,
              refl,
              (
                refl,
                queued-with_item c event d.dispatcher ∙ ap (λ x. queued x ++ c ∷ []) (sym d.here),
              ),
            ),
          ))
      (λ other. (refl, refl, inr (other, refl, refl)))

Joins-at_state :
    (answer : SpawnOutcome) (options : ServiceOptions) (c : Completion) (s : State) (p : Bool)
    (w : World) {mine : ServiceOptions}
    → p ≡ false
    → held s ≡ some mine
    → IsDispatching (at_state s p w)
    → Joins mine options c (at_state s p w) (start answer options c (at_state s p w))
Joins-at_state answer options c s true w p h d = cc
Joins-at_state answer options c State.stopped false w p h d = cc
Joins-at_state answer options c (State.failed f) false w p h d = cc
Joins-at_state answer options c (State.stopping s) false w p h d = cc
Joins-at_state answer options c (State.starting a) false w p h d =
    let v = at_state (State.starting a) false w in
    subst (λ mine. Joins mine options c v (start answer options c v)) (some-injective h)
      (own-Joins-starting answer options c a w)
Joins-at_state answer options c (State.running r) false w p h d =
    let v = at_state (State.running r) false w in
    subst (λ mine. Joins mine options c v (start answer options c v)) (some-injective h)
      (own-Joins-running answer options c r w d)

-- Where the mutex is not poisoned and the dispatcher receives, a start while a generation is starting
-- or running creates no supervisor and leaves the phase as it is. It is accepted exactly if its options
-- equal that generation's: then its completion waits after those that wait for the generation to start,
-- or is sent at once where the generation runs. Else it returns the conflict, and nothing changes.
pub start-Joins :
    (answer : SpawnOutcome) (options : ServiceOptions) (c : Completion) (w : World)
    {mine : ServiceOptions}
    → w.poisoned ≡ false
    → held w.inner.state ≡ some mine
    → IsDispatching w
    → Joins mine options c w (start answer options c w)
start-Joins answer options c w = Joins-at_state answer options c w.inner.state w.poisoned w
