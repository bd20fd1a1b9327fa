-- ===== src/Service/Progress/Bound.antt =====
-- Without new calls the threads of src/service.rs take a bounded number of steps.
use bare_arti.Base.{
  ℕ, suc, ◌+◌, ◌≤◌, ◌<◌, ◌≡◌, refl, ap, Option, none, some, List, ◌∷◌, ◌++◌, arith, length,
  length-append,
}
use bare_arti.Service.Types.{ServiceEvent}
use bare_arti.Service.Dispatch.{Completion, CompletionDispatcher}
use bare_arti.Service.World.{World, Inner, queue_on}
use bare_arti.Service.Effects.{Effect, perform}
use bare_arti.Service.Supervisor.{Action, Next}
use bare_arti.Service.System.{Runs, System, dispatch_round}
use bare_arti.Service.Terminal.{perform-inner}
use bare_arti.Service.Completions.Count.{
  pending, action_completions, thread_completions, action_completions-append,
  thread_completions-append,
}
use bare_arti.Service.Completions.Pieces.{IsEffect, Runs-PieceKeeps}
use bare_arti.Service.Completions.Still.{PieceKeeps}
use bare_arti.Service.Completions.Accounts.{action_completions-other}
use bare_arti.Service.Progress.Load.{
  load, load_all, load_threads, load_all-append, load_threads-append, poison_load,
}
use bare_arti.Service.Progress.Pieces.{Lighter, Runs-Lighter}

-- What the threads can still do, at most: the recovery of a poisoned mutex, the completions that
-- they send or that wait in the state, and the rest of their actions.
pub measure : World → List (List Action) → ℕ
measure w threads =
    poison_load w.poisoned
    + length (pending w.inner.state)
    + length (thread_completions threads)
    + load_threads threads

queue_on-poisoned :
    (d : Option CompletionDispatcher) (c : Completion) (event : ServiceEvent) (w : World)
    → (queue_on d c event w).0.poisoned ≡ w.poisoned
unfolding queue_on
queue_on-poisoned none c event w = refl
queue_on-poisoned (some d) c event w = refl

perform-poisoned : (e : Effect) (w : World) → (perform e w).poisoned ≡ w.poisoned
unfolding perform
perform-poisoned (Effect.cancel_once h) w = refl
perform-poisoned (Effect.request_stop h) w = refl
perform-poisoned (Effect.wake h error) w = refl
perform-poisoned (Effect.queue_completion c event) w = queue_on-poisoned w.dispatcher c event w

-- What one thread is worth among the others.
thread_measure : List Action → ℕ
thread_measure t = length (action_completions t) + load_all t

measure-split :
    (w : World) (before : List (List Action)) (t : List Action) (after : List (List Action))
    → measure w (before ++ t ∷ after)
      ≡ poison_load w.poisoned
        + length (pending w.inner.state)
        + thread_measure t
        + (length (thread_completions before) + load_threads before)
        + (length (thread_completions after) + load_threads after)
unfolding measure thread_measure
measure-split w before t after = omega (
  arith,
  ap length (thread_completions-append before (t ∷ after)),
  length-append (thread_completions before) (action_completions t ++ thread_completions after),
  length-append (action_completions t) (thread_completions after),
  load_threads-append before (t ∷ after),
)

thread_measure-effect :
    (e : Effect) (rest : List Action)
    → thread_measure (Action.effect e ∷ rest) ≡ 1 + thread_measure rest
unfolding thread_measure
thread_measure-effect (Effect.cancel_once h) rest = omega arith
thread_measure-effect (Effect.request_stop h) rest = omega arith
thread_measure-effect (Effect.wake h error) rest = omega arith
thread_measure-effect (Effect.queue_completion c event) rest = omega arith

effect-lighter :
    (e : Effect) (w : World) (before after : List (List Action)) (rest : List Action)
    → measure (perform e w) (before ++ rest ∷ after)
      < measure w (before ++ (Action.effect e ∷ rest) ∷ after)
effect-lighter e w before after rest = omega (
  arith,
  measure-split w before (Action.effect e ∷ rest) after,
  measure-split (perform e w) before rest after,
  thread_measure-effect e rest,
  ap poison_load (perform-poisoned e w),
  ap (λ (i : Inner). length (pending i.state)) (perform-inner e w),
)

piece-Lighter :
    (w : World) (before after : List (List Action)) (a : Action) (rest : List Action) (n : Next)
    → ¬ IsEffect a
    → PieceKeeps w n
    → Lighter (load a) w n
    → measure n.world (before ++ (n.rest ++ rest) ∷ (n.threads ++ after))
      < measure w (before ++ (a ∷ rest) ∷ after)
unfolding thread_measure
piece-Lighter w before after a rest n other k l = omega (
  arith,
  measure-split w before (a ∷ rest) after,
  measure-split n.world before (n.rest ++ rest) (n.threads ++ after),
  ap length (action_completions-other a rest other),
  ap length (action_completions-append n.rest rest),
  length-append (action_completions n.rest) (action_completions rest),
  load_all-append n.rest rest,
  ap length (thread_completions-append n.threads after),
  length-append (thread_completions n.threads) (thread_completions after),
  load_threads-append n.threads after,
  ap length k.quiet,
  ap length k.kept,
  length-append (pending n.world.inner.state) (action_completions n.rest),
  l,
)

pub run-lighter :
    (w : World) (before after : List (List Action)) (a : Action) (rest : List Action) {n : Next}
    → Runs w a n
    → measure n.world (before ++ (n.rest ++ rest) ∷ (n.threads ++ after))
      < measure w (before ++ (a ∷ rest) ∷ after)
run-lighter w before after (Action.effect e) rest (Runs.effect f) =
    effect-lighter e w before after rest
run-lighter w before after a rest {n} r =
    piece-Lighter w before after a rest n (λ h. h) (Runs-PieceKeeps r (λ h. h))
      (Runs-Lighter r (λ h. h))

-- `n` pieces of threads, with any rounds of the dispatcher in between.
pub data WorkRun : ℕ → System → System → Type 0 where
  here : {s : System} → WorkRun 0 s s
  run :
      {k : ℕ} {t : System} (w : World) (before after : List (List Action)) (a : Action)
      (rest : List Action) (accepted : List Completion) {n : Next}
      → Runs w a n
      → WorkRun k
          (record {
            world = n.world;
            threads = before ++ (n.rest ++ rest) ∷ (n.threads ++ after);
            accepted = accepted;
          })
          t
      → WorkRun
          (suc k)
          (record { world = w; threads = before ++ (a ∷ rest) ∷ after; accepted = accepted })
          t
  dispatch :
      {k : ℕ} {s t : System}
      → WorkRun k (record s { world = dispatch_round s.world }) t
      → WorkRun k s t

-- Without new calls and new panics that hold the lock, whatever the environment answers and however
-- the threads take turns, they run at most as many pieces as the measure of the first state says.
pub work_bounded :
    {k : ℕ} {s t : System}
    → WorkRun k s t
    → k + measure t.world t.threads ≤ measure s.world s.threads
unfolding dispatch_round measure
work_bounded WorkRun.here = omega arith
work_bounded (WorkRun.run w before after a rest accepted r more) =
    omega (arith, run-lighter w before after a rest r, work_bounded more)
work_bounded (WorkRun.dispatch more) = work_bounded more
