-- ===== src/Service/Reaping/Reachable.antt =====
-- In every state that src/service.rs can come to, the reaper of a worker finds it in its owner.
use bare_arti.Base.{
  ℕ, ◌+◌, ◌≤◌, ◌<◌, ◌≡◌, refl, ap, ◌∙◌, Option, none, some, List, [], ◌∷◌, ◌++◌, map, arith, String,
  ◌==◌, if_split,
}
use bare_arti.Service.Owner.{WorkerHandle, WorkerSlot}
use bare_arti.Service.Dispatch.{Completion}
use bare_arti.Service.World.{World, Handle, with_dependencies}
use bare_arti.Service.Effects.{Effect}
use bare_arti.Service.Controller.{StartOutcome, StopOutcome, start_locked, stop_locked}
use bare_arti.Service.Supervisor.{Action, Next}
use bare_arti.Service.Supervisor.Workers.{reap_section, reap_taken}
use bare_arti.Service.System.{
  System, Step, Reach, call_start, call_stop, dispatch_round, new_system, start_rest, stop_rest,
}
use bare_arti.Service.Terminal.{Steps}
use bare_arti.Service.Reaping.Takes.{
  takes, takes_all, takes_threads, takes_all-append, takes_all-effects, takes_threads-append, gone,
  IsFresh, Same, Same-IsFresh, start_locked-Same, stop_locked-Same,
}
use bare_arti.Service.Reaping.Pieces.{PieceTakes, Runs-PieceTakes}

-- The worker of an owner is to be taken at most once, and not at all where it is gone.
pub record IsOwning (s : System) : Type 0 where
  pub fresh : IsFresh s.world
  pub share : (h : Handle) → takes_threads h s.threads + gone (s.world.owners h) ≤ 1

start_rest_quiet :
    (h : Handle) (c : Completion) (o : StartOutcome) → takes_all h (start_rest c o) ≡ 0
start_rest_quiet h c (StartOutcome.rejected e) = refl
start_rest_quiet h c StartOutcome.joined = refl
start_rest_quiet h c (StartOutcome.already_running event) = refl
start_rest_quiet h c (StartOutcome.launch task) = refl

stop_rest_quiet :
    (h : Handle) (g : ℕ) (c : Completion) (o : StopOutcome) → takes_all h (stop_rest g c o) ≡ 0
stop_rest_quiet h g c (StopOutcome.rejected e) = refl
stop_rest_quiet h g c StopOutcome.accepted = refl
stop_rest_quiet h g c StopOutcome.stale = refl

call-IsOwning :
    (s : System) (w : World) (es : List Effect) (more : List Action) (accepted : List Completion)
    → Same s.world w
    → ((h : Handle) → takes_all h more ≡ 0)
    → IsOwning s
    → IsOwning (record {
      world = w;
      threads = (map Action.effect es ++ more) ∷ s.threads;
      accepted = accepted;
    })
call-IsOwning s w es more accepted same quiet inv = record {
  fresh = Same-IsFresh same inv.fresh;
  share = λ h. omega (
    arith,
    inv.share h,
    quiet h,
    takes_all-append h (map Action.effect es) more,
    takes_all-effects h es,
    ap (λ o. gone (o h)) same.owners,
  );
}

takes_self : (h lifecycle channel : Handle) → takes h (Action.reap h lifecycle channel) ≡ 1
takes_self h l c = if_split (λ (n : ℕ). n ≡ 1) (h == h) (λ t. refl) (λ t. ground (arith, t))

-- The threads with one of them in the middle.
takes-middle :
    (h : Handle) (before : List (List Action)) (t : List Action) (after : List (List Action))
    → takes_threads h (before ++ t ∷ after)
      ≡ takes_threads h before + takes_all h t + takes_threads h after
takes-middle h before t after = omega (arith, takes_threads-append h before (t ∷ after))

run-IsOwning :
    (w : World) (before after : List (List Action)) (a : Action) (rest : List Action)
    (accepted : List Completion) {n : Next}
    → PieceTakes (λ h. takes h a) w n
    → IsOwning (record { world = w; threads = before ++ (a ∷ rest) ∷ after; accepted = accepted })
    → IsOwning (record {
      world = n.world;
      threads = before ++ (n.rest ++ rest) ∷ (n.threads ++ after);
      accepted = accepted;
    })
run-IsOwning w before after a rest accepted {n} p inv = record {
  fresh = p.fresh inv.fresh;
  share = λ h. omega (
    arith,
    inv.share h,
    p.share inv.fresh h,
    takes-middle h before (a ∷ rest) after,
    takes-middle h before (n.rest ++ rest) (n.threads ++ after),
    takes_all-append h n.rest rest,
    takes_threads-append h n.threads after,
  );
}

Step-IsOwning : {s t : System} → Step s t → IsOwning s → IsOwning t
unfolding call_start call_stop dispatch_round
Step-IsOwning (Step.start options c s) inv =
    let r = start_locked options c s.world in
    call-IsOwning s r.0 r.1 (start_rest c r.2) _ (start_locked-Same options c s.world)
      (λ h. start_rest_quiet h c r.2) inv
Step-IsOwning (Step.stop g c s) inv =
    let r = stop_locked g c s.world in
    call-IsOwning s r.0 r.1 (stop_rest g c r.2) _ (stop_locked-Same g c s.world)
      (λ h. stop_rest_quiet h g c r.2) inv
Step-IsOwning (Step.run w before after a rest accepted r) inv =
    run-IsOwning w before after a rest accepted (Runs-PieceTakes r) inv
Step-IsOwning (Step.dispatch s) inv = record { fresh = inv.fresh; share = inv.share }
Step-IsOwning (Step.poison s) inv = record { fresh = inv.fresh; share = inv.share }

new_system-IsOwning :
    (timeout : ℕ) (failure : Option String) → IsOwning (new_system timeout failure)
unfolding with_dependencies
new_system-IsOwning timeout failure = record { fresh = λ h le. refl; share = λ h. omega arith }

pub Reach-IsOwning :
    {timeout : ℕ} {failure : Option String} {s : System} → Reach timeout failure s → IsOwning s
Reach-IsOwning {timeout} {failure} Reach.here = new_system-IsOwning timeout failure
Reach-IsOwning (Reach.next r step) = Step-IsOwning step (Reach-IsOwning r)

held : (slot : WorkerSlot) → gone slot ≡ 0 → (worker : WorkerHandle) × (slot ≡ some worker)
held (some worker) e = (worker, refl)
held none e = absurd (omega (arith, e))

-- In every reachable state, under any interleaving: a thread that goes on as the reaper of an owner finds
-- a worker in it, and goes on to join that worker, and nothing else is still to take the worker of that
-- owner, neither another thread nor the same one later. So "worker owner was empty" is never reported.
pub reaper_finds_worker :
    {timeout : ℕ} {failure : Option String} {s : System}
    → Reach timeout failure s
    → (before after : List (List Action)) (owner lifecycle channel : Handle) (rest : List Action)
    → s.threads ≡ before ++ (Action.reap owner lifecycle channel ∷ rest) ∷ after
    → ((worker : WorkerHandle) × (s.world.owners owner ≡ some worker)
        × ((reap_section owner lifecycle channel s.world).rest
            ≡ Action.join worker lifecycle channel ∷ []))
      × (takes_threads owner (before ++ rest ∷ after) ≡ 0)
unfolding reap_section reap_taken
reaper_finds_worker {s} r before after owner l c rest e =
    let share = (Reach-IsOwning r).share owner in
    let all =
      ap (takes_threads owner) e ∙ takes-middle owner before (Action.reap owner l c ∷ rest) after in
    let one = takes_self owner l c in
    let (worker, found) = held (s.world.owners owner) (omega (arith, share, all, one)) in
    (
      (worker, found, ap (λ slot. reap_taken slot l c) found),
      omega (arith, share, all, one, takes-middle owner before rest after),
    )

Step-stays :
    {s t : System} (h : Handle)
    → Step s t
    → h < s.world.next
    → s.world.owners h ≡ none
    → (h < t.world.next) × (t.world.owners h ≡ none)
unfolding call_start call_stop dispatch_round
Step-stays h (Step.start options c s) below e =
    let same = start_locked-Same options c s.world in
    (omega (arith, below, same.grows), ap (λ o. o h) same.owners ∙ e)
Step-stays h (Step.stop g c s) below e =
    let same = stop_locked-Same g c s.world in
    (omega (arith, below, same.grows), ap (λ o. o h) same.owners ∙ e)
Step-stays h (Step.run w before after a rest accepted r) below e =
    let p = Runs-PieceTakes r in (omega (arith, below, p.grows), p.stays h below e)
Step-stays h (Step.dispatch s) below e = (below, e)
Step-stays h (Step.poison s) below e = (below, e)

Steps-stays :
    {s t : System} (h : Handle)
    → Steps s t
    → h < s.world.next
    → s.world.owners h ≡ none
    → (h < t.world.next) × (t.world.owners h ≡ none)
Steps-stays h Steps.here below e = (below, e)
Steps-stays h (Steps.then r step) below e =
    let (below', e') = Steps-stays h r below e in Step-stays h step below' e'

Steps-IsOwning : {s t : System} → Steps s t → IsOwning s → IsOwning t
Steps-IsOwning Steps.here inv = inv
Steps-IsOwning (Steps.then r step) inv = Step-IsOwning step (Steps-IsOwning r inv)

-- A worker is taken from its owner once: an owner that was made and is empty in a reachable state is
-- empty after any further steps, and no thread is then still to take a worker from it.
pub taken_stays_taken :
    {timeout : ℕ} {failure : Option String} {s t : System}
    → Reach timeout failure s
    → Steps s t
    → (owner : Handle) → owner < s.world.next
    → s.world.owners owner ≡ none
    → (t.world.owners owner ≡ none) × (takes_threads owner t.threads ≡ 0)
taken_stays_taken {t} r more owner below e =
    let (below', empty) = Steps-stays owner more below e in
    (empty, omega (arith, (Steps-IsOwning more (Reach-IsOwning r)).share owner, ap gone empty))
