-- ===== src/Service/Completions/Pieces.antt =====
-- The pieces of the threads of src/service.rs keep every completion.
use bare_arti.Base.{
  ℕ, ◌≡◌, refl, Bool, Option, none, some, List, [], ◌++◌, map, append-nil, Bool-cases, if_both, inl,
  inr,
}
use bare_arti.Service.Types.{ServiceOptions, ServiceError, WorkerResult, options_eq}
use bare_arti.Service.Dispatch.{Completion}
use bare_arti.Service.World.{World, Handle, State}
use bare_arti.Service.Effects.{Effect}
use bare_arti.Service.Sections.{mark_running, mark_running_state, stop_after_startup}
use bare_arti.Service.Controller.{SupervisorTask, drop_task}
use bare_arti.Service.Supervisor.{
  Action, Next, mark_section, after_mark, stop_startup_section, supervisor_panicked,
}
use bare_arti.Service.Supervisor.Workers.{report_section}
use bare_arti.Service.System.{Runs, section}
use bare_arti.Service.Completions.Count.{
  pending, effect_completions, action_completions, failure, action_completions-append,
  action_completions-map_effect, effect_completions-queue_all, effect_completions-append,
}
use bare_arti.Service.Completions.Sections.{
  recover-Keeps, stop_starting-Keeps, finish_worker-Keeps, finish_creation_failure-Keeps,
  cancel_current-Keeps, transition_to_stopping-Keeps,
}
use bare_arti.Service.Completions.Still.{
  PieceKeeps, gate-PieceKeeps, observe-PieceKeeps, own_worker-PieceKeeps, reap-PieceKeeps,
  section-PieceKeeps, spawn_reaper-PieceKeeps, spawn_supervisor-PieceKeeps, spawn_worker-PieceKeeps,
  still-PieceKeeps, wait_running-PieceKeeps, wait_stopping-PieceKeeps,
}

-- A world, its effects and more actions, as the two pieces with a longer rest make them.
record SplitKeeps (w : World) (v : World) (es : List Effect) (cs : List Completion) : Type 0 where
  kept : pending v.inner.state ++ (effect_completions es ++ cs) ≡ pending w.inner.state
  same : v.dispatcher ≡ w.dispatcher
  stays : (e : ServiceError) → failure w.inner.state ≡ some e → failure v.inner.state ≡ some e

split-PieceKeeps :
    (w v : World) (es : List Effect) (cs : List Completion) (actions : List Action)
    → SplitKeeps w v es cs
    → action_completions actions ≡ cs
    → PieceKeeps w (record { world = v; rest = map Action.effect es ++ actions; threads = [] })
split-PieceKeeps w v es cs actions k e = record {
  kept = rw (action_completions-append, action_completions-map_effect, e) k.kept;
  quiet = refl;
  same = k.same;
  stays = k.stays;
}

stop_after_startup_keeps :
    (g : ℕ) (cancel lifecycle : Handle) (reason : ServiceError) (w : World)
    → let r = stop_after_startup g cancel lifecycle reason w in SplitKeeps w r.0 r.1 []
unfolding stop_after_startup
stop_after_startup_keeps g cancel lifecycle reason w =
    if_both (λ (r : World × List Effect × Bool). SplitKeeps w r.0 r.1 []) w.poisoned
      (record {
        kept = simp (effect_completions-append, append-nil) (recover-Keeps w).state.kept;
        same = (recover-Keeps w).same;
        stays = (recover-Keeps w).state.stays;
      })
      (record {
        kept = (stop_starting-Keeps g reason w.inner.state).kept;
        same = refl;
        stays = (stop_starting-Keeps g reason w.inner.state).stays;
      })

stop_startup-PieceKeeps :
    (task : SupervisorTask) (reason : ServiceError) (w : World)
    → PieceKeeps w (stop_startup_section task reason w)
unfolding stop_startup_section
stop_startup-PieceKeeps task reason w =
    split-PieceKeeps w _ _ [] _
      (stop_after_startup_keeps task.options.generation task.cancel task.lifecycle reason w) refl

abbrev or_nil : Option (List Completion) → List Completion
or_nil none = []
or_nil (some cs) = cs

after_mark_completions :
    (task : SupervisorTask) (owner : Handle) (port : ℕ) (o : Option (List Completion))
    → action_completions (after_mark task owner port o) ≡ or_nil o
unfolding after_mark
after_mark_completions task owner port none = refl
after_mark_completions task owner port (some cs) = simp (
  action_completions-append, action_completions-map_effect, effect_completions-queue_all,
  append-nil,
)

mark_running_state_kept :
    (options : ServiceOptions) (port : ℕ) (s : State)
    → let r = mark_running_state options port s in
      (pending r.0 ++ or_nil r.1 ≡ pending s)
      × ((e : ServiceError) → failure s ≡ some e → failure r.0 ≡ some e)
unfolding mark_running_state
mark_running_state_kept options port (State.starting a) =
    elim (Bool-cases (options_eq a.options options)) [
      | inl e ↦ rw e (refl, λ x h. cc)
      | inr e ↦ rw e (append-nil _, λ x h. h)
    ]
mark_running_state_kept options port s = (append-nil _, λ x h. h)

mark_running_keeps :
    (options : ServiceOptions) (port : ℕ) (w : World)
    → let r = mark_running options port w in SplitKeeps w r.0 r.1 (or_nil r.2)
unfolding mark_running
mark_running_keeps options port w =
    if_both
      (λ (r : World × List Effect × Option (List Completion)). SplitKeeps w r.0 r.1 (or_nil r.2))
      w.poisoned
      (record {
        kept = rw append-nil (recover-Keeps w).state.kept;
        same = (recover-Keeps w).same;
        stays = (recover-Keeps w).state.stays;
      })
      (record {
        kept = (mark_running_state_kept options port w.inner.state).0;
        same = refl;
        stays = (mark_running_state_kept options port w.inner.state).1;
      })

mark-PieceKeeps :
    (task : SupervisorTask) (owner : Handle) (port : ℕ) (w : World)
    → PieceKeeps w (mark_section task owner port w)
unfolding mark_section
mark-PieceKeeps task owner port w =
    split-PieceKeeps w _ _ _ _ (mark_running_keeps task.options port w)
      (after_mark_completions task owner port _)

drop_task-PieceKeeps :
    (task : SupervisorTask) (w : World) → PieceKeeps w (section (drop_task task w, []))
unfolding drop_task
drop_task-PieceKeeps task w = still-PieceKeeps _ _ refl refl refl refl

report-PieceKeeps :
    (result : WorkerResult) (lifecycle channel : Handle) (w : World)
    → PieceKeeps w (report_section result lifecycle channel w)
unfolding report_section
report-PieceKeeps result lifecycle channel w = still-PieceKeeps _ _ refl refl refl refl

panicked-PieceKeeps :
    (task : SupervisorTask) (owner : Handle) (w : World)
    → PieceKeeps w (record { world = w; rest = supervisor_panicked task owner; threads = [] })
unfolding supervisor_panicked
panicked-PieceKeeps task owner w = still-PieceKeeps _ _ refl refl refl refl

-- The pieces but for the effects.
abbrev pub IsEffect : Action → Type 0
IsEffect (Action.effect e) = Unit {0}
IsEffect _ = ⊥

-- Every piece but an effect keeps the completions.
pub Runs-PieceKeeps :
    {w : World} {a : Action} {n : Next} → Runs w a n → ¬ IsEffect a → PieceKeeps w n
Runs-PieceKeeps (Runs.effect e) no_effect = absurd (no_effect tt)
Runs-PieceKeeps (Runs.spawn_supervisor task answer) _ = spawn_supervisor-PieceKeeps task answer _
Runs-PieceKeeps (Runs.spawn_worker task answer) _ = spawn_worker-PieceKeeps task answer _
Runs-PieceKeeps (Runs.own_worker task worker) _ = own_worker-PieceKeeps task worker _
Runs-PieceKeeps (Runs.spawn_reaper task owner answer) _ =
    spawn_reaper-PieceKeeps task owner answer _
Runs-PieceKeeps (Runs.wait_gate task owner answer) _ = gate-PieceKeeps task owner answer _
Runs-PieceKeeps (Runs.become_running task owner port) _ = mark-PieceKeeps task owner port _
Runs-PieceKeeps (Runs.wait_running task owner h) _ = wait_running-PieceKeeps task _ h
Runs-PieceKeeps (Runs.stop_startup task reason) _ = stop_startup-PieceKeeps task reason _
Runs-PieceKeeps (Runs.wait_stopping lifecycle after timed_out h) _ =
    wait_stopping-PieceKeeps lifecycle after timed_out _ h
Runs-PieceKeeps (Runs.observe result after) _ = observe-PieceKeeps result after _
Runs-PieceKeeps (Runs.cancel_current g) _ = section-PieceKeeps _ _ (cancel_current-Keeps g _)
Runs-PieceKeeps (Runs.drop_task task) _ = drop_task-PieceKeeps task _
Runs-PieceKeeps (Runs.finish_creation_failure g e t q) _ =
    section-PieceKeeps _ _ (finish_creation_failure-Keeps g e t q _)
Runs-PieceKeeps (Runs.finish_worker g o) _ = section-PieceKeeps _ _ (finish_worker-Keeps g o _)
Runs-PieceKeeps (Runs.transition_to_stopping g reason) _ =
    section-PieceKeeps _ _ (transition_to_stopping-Keeps g reason _)
Runs-PieceKeeps (Runs.reap owner lifecycle channel) _ = reap-PieceKeeps owner lifecycle channel _
Runs-PieceKeeps (Runs.join worker lifecycle channel answer) _ =
    still-PieceKeeps _ _ refl refl refl refl
Runs-PieceKeeps (Runs.report result lifecycle channel) _ =
    report-PieceKeeps result lifecycle channel _
Runs-PieceKeeps (Runs.panic_gate task owner) _ = panicked-PieceKeeps task owner _
Runs-PieceKeeps (Runs.panic_running task owner) _ = panicked-PieceKeeps task owner _
