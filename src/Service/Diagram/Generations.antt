-- ===== src/Service/Diagram/Generations.antt =====
-- What the diagram says of generations: the active one is the last one, and none comes back.
use bare_arti.Base.{ℕ, ◌<◌, ◌≤◌, ◌≡◌, ◌≢◌, ◌⊎◌, Option, none, some, arith, inl, inr, String}
use bare_arti.Service.Controller.{u64_max}
use bare_arti.Service.World.{with_dependencies}
use bare_arti.Service.System.{System, Reach, new_system}
use bare_arti.Service.Terminal.{Steps}
use bare_arti.Service.Diagram.Edges.{Phase, Edge, phase}
use bare_arti.Service.Diagram.Refines.{step_refines_diagram}
use bare_arti.Service.Diagram.Pieces.{View, Move, view}

-- The generation of a phase that has one.
abbrev pub active : Phase → Option ℕ
active (Phase.starting g) = some g
active (Phase.running g) = some g
active (Phase.stopping g) = some g
active _ = none

pub active-Edge : {p q : Phase} (g : ℕ) → Edge p q → active q ≡ some g → active p ≡ some g
active-Edge g Edge.stay h = h
active-Edge g Edge.ready h = h
active-Edge g Edge.abort h = h
active-Edge g Edge.halt h = h
active-Edge g Edge.give_up h = cc
active-Edge g Edge.close h = cc
active-Edge g Edge.fail h = cc

-- The generation of an active phase is the last one, and a valid one.
abbrev IsCurrent : View → Type 0
IsCurrent v = (g : ℕ) → active v.at ≡ some g → (g ≡ v.last) × (0 < g) × (g ≢ u64_max)

Move-IsCurrent : {v u : View} → Move v u → IsCurrent v → IsCurrent u
Move-IsCurrent (Move.edge e) h g q = h g (active-Edge g e q)
Move-IsCurrent (Move.launch k above allowed) h g q = ground arith

new_system-IsCurrent :
    (timeout : ℕ) (failure : Option String) → IsCurrent (view (new_system timeout failure).world)
unfolding with_dependencies
new_system-IsCurrent timeout none g h = cc
new_system-IsCurrent timeout (some e) g h = cc

-- In every state that a controller can come to, the generation that is starting, running or stopping
-- is the last one that was started; it is above zero and not the largest `u64`.
pub active_is_last :
    {timeout : ℕ} {failure : Option String} {s : System}
    → Reach timeout failure s
    → (g : ℕ) → active (phase s.world.inner.state) ≡ some g
    → (g ≡ s.world.inner.last_generation) × (0 < g) × (g ≢ u64_max)
active_is_last {timeout} {failure} Reach.here = new_system-IsCurrent timeout failure
active_is_last (Reach.next r st) = Move-IsCurrent (step_refines_diagram st) (active_is_last r)

-- Later views against an earlier one.
record Later (v u : View) : Type 0 where
  grows : v.last ≤ u.last
  fresh : (g : ℕ) → active u.at ≡ some g → (v.last < g) ⊎ (active v.at ≡ some g)

Move-Later : {v u t : View} → Later v u → Move u t → Later v t
Move-Later l (Move.edge e) = record {
  grows = l.grows;
  fresh = λ g h. l.fresh g (active-Edge g e h);
}
Move-Later l (Move.launch k above allowed) = record {
  grows = omega (arith, l.grows);
  fresh = λ g h. inl (ground (arith, l.grows));
}

Steps-Later : {s t : System} → Steps s t → Later (view s.world) (view t.world)
Steps-Later Steps.here = record { grows = omega arith; fresh = λ g h. inr h }
Steps-Later (Steps.then r st) = Move-Later (Steps-Later r) (step_refines_diagram st)

-- The last generation never falls.
last_generation_grows :
    {s t : System} → Steps s t → s.world.inner.last_generation ≤ t.world.inner.last_generation
last_generation_grows r = (Steps-Later r).grows

-- Once no generation is active, every generation that is active after any further steps is above the
-- last one of that moment: a generation never comes back.
pub generation_never_returns :
    {s t : System}
    → Steps s t
    → active (phase s.world.inner.state) ≡ none
    → (g : ℕ) → active (phase t.world.inner.state) ≡ some g
    → s.world.inner.last_generation < g
generation_never_returns r idle g h = ground (arith, (Steps-Later r).fresh g h)
