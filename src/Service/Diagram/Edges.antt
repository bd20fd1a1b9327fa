-- ===== src/Service/Diagram/Edges.antt =====
-- The diagram: its states, its edges, and the critical sections that follow them.
use bare_arti.Base.{
  ℕ, ◌≡◌, Bool, true, false, Option, none, some, List, Bool-cases, inl, inr, ◌==◌, ==_iff, if_both,
  subst,
}
use bare_arti.Service.Types.{ServiceOptions, ServiceError, options_eq}
use bare_arti.Service.World.{Handle, State, Stopping}
use bare_arti.Service.Effects.{Effect}
use bare_arti.Service.Lock.{recover_state}
use bare_arti.Service.Sections.{
  ShutdownObservation, terminal_error, finish_worker_state, finish_stopping,
  finish_creation_failure_state, end_state, mark_running_state, transition_state, stop_starting,
}

pub data Phase : Type 0 where
  idle : Phase
  starting running stopping : (generation : ℕ) → Phase
  failed : Phase

abbrev pub phase : State → Phase
phase State.stopped = Phase.idle
phase (State.starting a) = Phase.starting a.options.generation
phase (State.running r) = Phase.running r.options.generation
phase (State.stopping s) = Phase.stopping s.generation
phase (State.failed f) = Phase.failed

-- A generation starts, runs, stops, in that order; it can stop or end early, and any state can fail.
pub data Edge : Phase → Phase → Type 0 where
  stay : {p : Phase} → Edge p p
  ready : {g : ℕ} → Edge (Phase.starting g) (Phase.running g)
  abort : {g : ℕ} → Edge (Phase.starting g) (Phase.stopping g)
  give_up : {g : ℕ} → Edge (Phase.starting g) Phase.idle
  halt : {g : ℕ} → Edge (Phase.running g) (Phase.stopping g)
  close : {g : ℕ} → Edge (Phase.stopping g) Phase.idle
  fail : {p : Phase} → Edge p Phase.failed

abbrev StateEdge : State → State → Type 0
StateEdge s t = Edge (phase s) (phase t)

pub recover_state-Edge : (s : State) → Edge (phase s) (phase (recover_state s).0)
unfolding recover_state
recover_state-Edge State.stopped = Edge.fail
recover_state-Edge _ = Edge.fail

finish_stopping-Edge :
    (g : ℕ) (s : Stopping) (q : Option Handle) (e : Option ServiceError)
    → Edge (Phase.stopping s.generation) (phase (finish_stopping g s q e).0)
unfolding finish_stopping
finish_stopping-Edge g s q none = Edge.close
finish_stopping-Edge g s q (some e) = Edge.fail

pub finish_worker_state-Edge :
    (g : ℕ) (o : ShutdownObservation) (s : State)
    → Edge (phase s) (phase (finish_worker_state g o s).0)
unfolding finish_worker_state
finish_worker_state-Edge g o State.stopped = Edge.stay
finish_worker_state-Edge g o (State.starting a) = Edge.stay
finish_worker_state-Edge g o (State.failed f) = Edge.fail
finish_worker_state-Edge g o (State.running r) =
    if_both (λ (x : State × List Effect). Edge (Phase.running r.options.generation) (phase x.0))
      (r.options.generation == g) Edge.fail Edge.stay
finish_worker_state-Edge g o (State.stopping s) =
    if_both (λ (x : State × List Effect). Edge (Phase.stopping s.generation) (phase x.0))
      (s.generation == g) (finish_stopping-Edge g s o.quarantine (terminal_error s o.result))
      Edge.stay

end_starting-Edge :
    (g : ℕ) (e : ServiceError) (terminal : Bool) (q : Option Handle)
    → Edge (Phase.starting g) (phase (end_state e terminal q))
end_starting-Edge g e true q = Edge.fail
end_starting-Edge g e false q = Edge.give_up

end_stopping-Edge :
    (g : ℕ) (e : ServiceError) (terminal : Bool) (q : Option Handle)
    → Edge (Phase.stopping g) (phase (end_state e terminal q))
end_stopping-Edge g e true q = Edge.fail
end_stopping-Edge g e false q = Edge.close

pub finish_creation_failure_state-Edge :
    (g : ℕ) (e : ServiceError) (t : Bool) (q : Option Handle) (s : State)
    → Edge (phase s) (phase (finish_creation_failure_state g e t q s).0)
unfolding finish_creation_failure_state
finish_creation_failure_state-Edge g e t q State.stopped = Edge.stay
finish_creation_failure_state-Edge g e t q (State.running r) = Edge.stay
finish_creation_failure_state-Edge g e t q (State.failed f) = Edge.stay
finish_creation_failure_state-Edge g e t q (State.starting a) =
    if_both (λ (x : State × List Effect). Edge (Phase.starting a.options.generation) (phase x.0))
      (a.options.generation == g) (end_starting-Edge a.options.generation e t q) Edge.stay
finish_creation_failure_state-Edge g e t q (State.stopping s) =
    if_both (λ (x : State × List Effect). Edge (Phase.stopping s.generation) (phase x.0))
      (s.generation == g) (end_stopping-Edge s.generation e t q) Edge.stay

pub mark_running_state-Edge :
    (options : ServiceOptions) (port : ℕ) (s : State)
    → Edge (phase s) (phase (mark_running_state options port s).0)
unfolding mark_running_state
mark_running_state-Edge options port (State.starting a) =
    if_both
      (λ (x : State × Option (List ℕ)). Edge (Phase.starting a.options.generation) (phase x.0))
      (options_eq a.options options) Edge.ready Edge.stay
mark_running_state-Edge options port s = Edge.stay

-- The two transitions that write the generation anew.
same_generation : (h g : ℕ) → (h == g) ≡ true → h ≡ g
same_generation h g e = (==_iff h g).0 e

pub stop_starting-Edge :
    (g : ℕ) (reason : ServiceError) (s : State) → Edge (phase s) (phase (stop_starting g reason s))
unfolding stop_starting
stop_starting-Edge g e (State.starting a) = elim (Bool-cases (a.options.generation == g)) [
  | inl h ↦ rw h (
      subst (λ n. Edge (Phase.starting a.options.generation) (Phase.stopping n))
        (same_generation _ g h) Edge.abort)
  | inr h ↦ rw h Edge.stay
]
stop_starting-Edge g e s = Edge.stay

pub transition_state-Edge :
    (g : ℕ) (reason : ServiceError) (s : State)
    → Edge (phase s) (phase (transition_state g reason s))
unfolding transition_state
transition_state-Edge g e (State.starting a) = elim (Bool-cases (a.options.generation == g)) [
  | inl h ↦ rw h (
      subst (λ n. Edge (Phase.starting a.options.generation) (Phase.stopping n))
        (same_generation _ g h) Edge.abort)
  | inr h ↦ rw h Edge.stay
]
transition_state-Edge g e (State.running r) = elim (Bool-cases (r.options.generation == g)) [
  | inl h ↦ rw h (
      subst (λ n. Edge (Phase.running r.options.generation) (Phase.stopping n))
        (same_generation _ g h) Edge.halt)
  | inr h ↦ rw h Edge.stay
]
transition_state-Edge g e s = Edge.stay
