-- ===== src/Abi/Joint/Callbacks.antt =====
-- What the callbacks of addon/src/lib.rs report, whatever the threads of src/service.rs do.
use bare_arti.Base.{
  ℕ, ◌≡◌, subst, not, ◌||◌, Option, List, ◌∷◌, ◌++◌, is_none, ◌==◌, if_both, String,
}
use bare_arti.Service.Types.{ServiceOptions}
use bare_arti.Service.Dispatch.{Completion}
use bare_arti.Service.Controller.{u64_max}
use bare_arti.Service.Supervisor.{Action, Next}
use bare_arti.Service.System.{Runs, System, Step, Reach}
use bare_arti.Service.Diagram.Pieces.{view}
use bare_arti.Service.Told.Items.{Request, DispatcherTold}
use bare_arti.Service.Told.Reachable.{LabelledReach, told_is_so}
use bare_arti.Abi.{is_active}
use bare_arti.Abi.Joint.{Joint, JointStep, JointReach, joint_start, joint_stop, joint_callback}

module _ (request : Completion → Request) (timeout : ℕ) (failure : Option String) where
  abbrev Labelled : Joint → Type 0
  Labelled j = LabelledReach request timeout failure j.system

  start-Labelled :
      (options : ServiceOptions) (c : Completion) (j : Joint)
      → request c ≡ Request.start options.generation
      → Labelled j
      → Labelled (joint_start options c j)
  unfolding joint_start
  start-Labelled options c j own r = if_both Labelled j.lost r (
      if_both Labelled (not (is_none j.requests.active_generation)) r
        (LabelledReach.next r (Step.start options c j.system) own))

  stop-Labelled :
      (g : ℕ) (c : Completion) (j : Joint)
      → request c ≡ Request.stop g
      → Labelled j
      → Labelled (joint_stop g c j)
  unfolding joint_stop
  stop-Labelled g c j own r = if_both Labelled (g == 0 || g == u64_max) r (
      if_both Labelled j.lost r (
        if_both Labelled (not (is_active j.requests.active_generation g) || j.requests.stop_pending)
          r (LabelledReach.next r (Step.stop g c j.system) own)))

  -- A piece of a thread, where the threads are put together by an equation.
  run-Labelled :
      (before after : List (List Action)) (a : Action) (rest : List Action) {n : Next} (s : System)
      → s.threads ≡ before ++ (a ∷ rest) ∷ after
      → Runs s.world a n
      → LabelledReach request timeout failure s
      → LabelledReach request timeout failure (record {
        world = n.world;
        threads = before ++ (n.rest ++ rest) ∷ (n.threads ++ after);
        accepted = s.accepted;
      })
  run-Labelled before after a rest s e x r =
      LabelledReach.next
        (subst
          (λ ts.
            LabelledReach request timeout failure
              (record { world = s.world; threads = ts; accepted = s.accepted }))
          e r)
        (Step.run s.world before after a rest s.accepted x) tt

  pub JointReach-Labelled : {j : Joint} → JointReach request timeout failure j → Labelled j
  unfolding joint_callback
  JointReach-Labelled JointReach.here = LabelledReach.here
  JointReach-Labelled (JointReach.next r (JointStep.start options c j own)) =
      start-Labelled options c j own (JointReach-Labelled r)
  JointReach-Labelled (JointReach.next r (JointStep.stop g c j own)) =
      stop-Labelled g c j own (JointReach-Labelled r)
  JointReach-Labelled (JointReach.next r (JointStep.callback item items j e)) =
      LabelledReach.next (JointReach-Labelled r) (Step.dispatch j.system) tt
  JointReach-Labelled (JointReach.next r (JointStep.run before after a rest j e x)) =
      run-Labelled before after a rest j.system e x (JointReach-Labelled r)
  JointReach-Labelled (JointReach.next r (JointStep.poison j)) =
      LabelledReach.next (JointReach-Labelled r) (Step.poison j.system) tt
  JointReach-Labelled (JointReach.next r (JointStep.lose j)) = JointReach-Labelled r

  -- After any calls of the C interface, one after the other, with the controller's threads, its dispatcher
  -- and panics in between: every callback that was made or is to be made reports the generation of its own
  -- request, a start that it runs or has failed, a stop that it has stopped or failed; and a generation
  -- that was reported to have ended is not starting, running or stopping, nor above the last one started.
  pub callbacks_tell_own :
      {j : Joint}
      → JointReach request timeout failure j
      → DispatcherTold request (view j.system.world) j.system.world.dispatcher
  callbacks_tell_own r = told_is_so request (JointReach-Labelled r)

  LabelledReach-Reach :
      {s : System} → LabelledReach request timeout failure s → Reach timeout failure s
  LabelledReach-Reach LabelledReach.here = Reach.here
  LabelledReach-Reach (LabelledReach.next r step own) = Reach.next (LabelledReach-Reach r) step

  pub JointReach-Reach :
      {j : Joint} → JointReach request timeout failure j → Reach timeout failure j.system
  JointReach-Reach r = LabelledReach-Reach (JointReach-Labelled r)
