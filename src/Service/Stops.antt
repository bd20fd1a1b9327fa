-- ===== src/Service/Stops.antt =====
-- What a `stop` of the active generation does in src/service.rs.
use bare_arti.Base.{
  ℕ, ◌≡◌, refl, Bool, true, false, some, [], ◌∷◌, ◌++◌, arith, append_assoc, subst, ltb,
}
use bare_arti.Service.Types.{ok}
use bare_arti.Service.Dispatch.{Completion}
use bare_arti.Service.World.{World, State, Active, Running, Stopping}
use bare_arti.Service.Effects.{perform, perform_all}
use bare_arti.Service.Controller.{stop, stop_locked, finish_stop}
use bare_arti.Service.Completions.Count.{pending}
use bare_arti.Service.Diagram.Edges.{Phase, phase}
use bare_arti.Service.Diagram.Generations.{active}

-- The end of a state's worker is asked for: the sender of its cancellation is used up, and its
-- lifecycle has the request.
abbrev pub IsTold : State → World → Type 0
IsTold (State.starting a) w =
    ((w.cancels a.cancel).held ≡ false) × ((w.lifecycles a.lifecycle).stop_requested ≡ true)
IsTold (State.running r) w =
    ((w.cancels r.cancel).held ≡ false) × ((w.lifecycles r.lifecycle).stop_requested ≡ true)
IsTold _ w = Unit {0}

abbrev at_state : State → Bool → World → World
at_state s p w = record w {
  inner = record { state = s; last_generation = w.inner.last_generation };
  poisoned = p;
}

-- The world, with its state and the poison of its mutex apart.
abbrev Stops : State → ℕ → Completion → World → Type 0
Stops s g c w =
    let r = stop g c (at_state s false w) in
    (r.1 ≡ ok tt)
    × (phase r.0.inner.state ≡ Phase.stopping g)
    × (pending r.0.inner.state ≡ pending s ++ c ∷ [])
    × IsTold s r.0

ltb_irrefl : (n : ℕ) → ltb n n ≡ false
ltb_irrefl n = ground arith

own-Stops-starting :
    (a : Active) (c : Completion) (w : World) → Stops (State.starting a) a.options.generation c w
unfolding stop stop_locked finish_stop perform_all perform
own-Stops-starting a c w = simp (ltb_irrefl a.options.generation) (refl, refl, refl, ground arith)

own-Stops-running :
    (r : Running) (c : Completion) (w : World) → Stops (State.running r) r.options.generation c w
unfolding stop stop_locked finish_stop perform_all perform
own-Stops-running r c w = simp (ltb_irrefl r.options.generation) (refl, refl, refl, ground arith)

own-Stops-stopping :
    (s : Stopping) (c : Completion) (w : World) → Stops (State.stopping s) s.generation c w
unfolding stop stop_locked finish_stop perform_all perform
own-Stops-stopping s c w = simp (ltb_irrefl s.generation) (refl, refl, simp append_assoc, tt)

some-injective : {A : Type 0} {x y : A} → some x ≡ some y → x ≡ y
some-injective h = cc

stops_at_state :
    (s : State) (p : Bool) (g : ℕ) (c : Completion) (w : World)
    → p ≡ false
    → active (phase s) ≡ some g
    → let r = stop g c (at_state s p w) in
      (r.1 ≡ ok tt)
      × (phase r.0.inner.state ≡ Phase.stopping g)
      × (pending r.0.inner.state ≡ pending s ++ c ∷ [])
      × IsTold s r.0
stops_at_state s true g c w p h = cc
stops_at_state State.stopped false g c w p h = cc
stops_at_state (State.failed f) false g c w p h = cc
stops_at_state (State.starting a) false g c w p h =
    subst (λ k. Stops (State.starting a) k c w) (some-injective h) (own-Stops-starting a c w)
stops_at_state (State.running r) false g c w p h =
    subst (λ k. Stops (State.running r) k c w) (some-injective h) (own-Stops-running r c w)
stops_at_state (State.stopping s) false g c w p h =
    subst (λ k. Stops (State.stopping s) k c w) (some-injective h) (own-Stops-stopping s c w)

-- Where the mutex is not poisoned, a stop of the generation that is starting, running or stopping
-- returns `Ok` and leaves that generation stopping, with its completion after all that were pending. If
-- the generation was starting or running, the sender of its worker's cancellation is used up and its
-- lifecycle is asked to stop.
pub stop_of_active :
    (g : ℕ) (c : Completion) (w : World)
    → w.poisoned ≡ false
    → active (phase w.inner.state) ≡ some g
    → let r = stop g c w in
      (r.1 ≡ ok tt)
      × (phase r.0.inner.state ≡ Phase.stopping g)
      × (pending r.0.inner.state ≡ pending w.inner.state ++ c ∷ [])
      × IsTold w.inner.state r.0
stop_of_active g c w = stops_at_state w.inner.state w.poisoned g c w
