-- ===== src/Service/Completions/Sections.antt =====
-- The critical sections of src/service.rs keep every completion, the dispatcher, and a failed state.
use bare_arti.Base.{
  ℕ, ◌≡◌, refl, ◌∙◌, Bool, true, false, Option, none, some, List, [], ◌++◌, append-nil, Bool-cases,
  if_both, inl, inr, ◌==◌,
}
use bare_arti.Service.Types.{ServiceError}
use bare_arti.Service.World.{World, Handle, State, Stopping, with_state}
use bare_arti.Service.Effects.{Effect}
use bare_arti.Service.Lock.{recover_state, recover, locked_or_return}
use bare_arti.Service.Sections.{
  ShutdownObservation, terminal_error, finish_worker_state, finish_worker, finish_stopping,
  end_state, finish_creation_failure_state, finish_creation_failure, on_state, cancel_current,
  cancel_current_effects, transition_state, transition_to_stopping, stop_starting,
}
use bare_arti.Service.Completions.Count.{
  pending, effect_completions, failure, effect_completions-queue_all, effect_completions-both,
}

-- From state `s` to the state and effects `r`: the completions of `s` are those of `r`, and a failed
-- state stays failed.
pub record StateKeeps (s : State) (r : State × List Effect) : Type 0 where
  pub kept : pending r.0 ++ effect_completions r.1 ≡ pending s
  pub stays : (e : ServiceError) → failure s ≡ some e → failure r.0 ≡ some e

pub record Keeps (w : World) (r : World × List Effect) : Type 0 where
  pub state : StateKeeps w.inner.state (r.0.inner.state, r.1)
  pub same : r.0.dispatcher ≡ w.dispatcher

pub recover_state-Keeps : (s : State) → StateKeeps s (recover_state s)
unfolding recover_state
recover_state-Keeps State.stopped = record { kept = refl; stays = λ x h. cc }
recover_state-Keeps (State.starting a) = record {
  kept = effect_completions-queue_all _ _;
  stays = λ x h. cc;
}
recover_state-Keeps (State.running r) = record { kept = refl; stays = λ x h. cc }
recover_state-Keeps (State.stopping s) = record {
  kept = effect_completions-both _ _ _ _;
  stays = λ x h. cc;
}
recover_state-Keeps (State.failed f) = record { kept = refl; stays = λ x h. h }

same_state : (s : State) → StateKeeps s (s, [])
same_state s = record { kept = append-nil _; stays = λ x h. h }

finish_stopping-Keeps :
    (generation : ℕ) (s : Stopping) (quarantine : Option Handle) (e : Option ServiceError)
    → StateKeeps (State.stopping s) (finish_stopping generation s quarantine e)
unfolding finish_stopping
finish_stopping-Keeps g s q none = record {
  kept = effect_completions-both _ _ _ _;
  stays = λ x h. cc;
}
finish_stopping-Keeps g s q (some e) = record {
  kept = effect_completions-both _ _ _ _;
  stays = λ x h. cc;
}

pub finish_worker_state-Keeps :
    (generation : ℕ) (o : ShutdownObservation) (s : State)
    → StateKeeps s (finish_worker_state generation o s)
unfolding finish_worker_state
finish_worker_state-Keeps g o State.stopped = same_state _
finish_worker_state-Keeps g o (State.starting a) = same_state _
finish_worker_state-Keeps g o (State.failed f) = record { kept = refl; stays = λ x h. h }
finish_worker_state-Keeps g o (State.running r) =
    if_both (StateKeeps _) (r.options.generation == g) (record { kept = refl; stays = λ x h. cc })
      (same_state _)
finish_worker_state-Keeps g o (State.stopping s) =
    if_both (StateKeeps _) (s.generation == g)
      (finish_stopping-Keeps g s o.quarantine (terminal_error s o.result)) (same_state _)

end-Keeps :
    (s : State)
    → failure s ≡ none
    → (e : ServiceError) (terminal : Bool) (q : Option Handle) (es : List Effect)
    → effect_completions es ≡ pending s
    → StateKeeps s (end_state e terminal q, es)
end-Keeps s live e true q es h = record { kept = h; stays = λ x f. cc }
end-Keeps s live e false q es h = record { kept = h; stays = λ x f. cc }

pub finish_creation_failure_state-Keeps :
    (generation : ℕ) (error : ServiceError) (terminal : Bool) (q : Option Handle) (s : State)
    → StateKeeps s (finish_creation_failure_state generation error terminal q s)
unfolding finish_creation_failure_state
finish_creation_failure_state-Keeps g e t q State.stopped = same_state _
finish_creation_failure_state-Keeps g e t q (State.running r) = same_state _
finish_creation_failure_state-Keeps g e t q (State.failed f) = same_state _
finish_creation_failure_state-Keeps g e t q (State.starting a) =
    if_both (StateKeeps _) (a.options.generation == g)
      (end-Keeps (State.starting a) refl e t q _ (effect_completions-queue_all _ _)) (same_state _)
finish_creation_failure_state-Keeps g e t q (State.stopping s) =
    if_both (StateKeeps _) (s.generation == g)
      (end-Keeps (State.stopping s) refl e t q _ (effect_completions-both _ _ _ _)) (same_state _)

pub transition_state-Keeps :
    (generation : ℕ) (reason : ServiceError) (s : State)
    → StateKeeps s (transition_state generation reason s, [])
unfolding transition_state
transition_state-Keeps g e State.stopped = same_state _
transition_state-Keeps g e (State.starting a) = elim (Bool-cases (a.options.generation == g)) [
  | inl h ↦ rw h (record { kept = append-nil _ ∙ append-nil _; stays = λ x f. cc })
  | inr h ↦ rw h (same_state _)
]
transition_state-Keeps g e (State.running r) = elim (Bool-cases (r.options.generation == g)) [
  | inl h ↦ rw h (record { kept = refl; stays = λ x f. cc })
  | inr h ↦ rw h (same_state _)
]
transition_state-Keeps g e (State.stopping s) = same_state _
transition_state-Keeps g e (State.failed f) = same_state _

pub stop_starting-Keeps :
    (generation : ℕ) (reason : ServiceError) (s : State)
    → StateKeeps s (stop_starting generation reason s, [])
unfolding stop_starting
stop_starting-Keeps g e State.stopped = same_state _
stop_starting-Keeps g e (State.starting a) = elim (Bool-cases (a.options.generation == g)) [
  | inl h ↦ rw h (record { kept = append-nil _ ∙ append-nil _; stays = λ x f. cc })
  | inr h ↦ rw h (same_state _)
]
stop_starting-Keeps g e (State.running r) = same_state _
stop_starting-Keeps g e (State.stopping s) = same_state _
stop_starting-Keeps g e (State.failed f) = same_state _

-- No completion stands in the effects of `cancel_current`.
pub cancel_current_effects-Keeps :
    (generation : ℕ) (s : State) → StateKeeps s (s, cancel_current_effects generation s)
unfolding cancel_current_effects
cancel_current_effects-Keeps g (State.starting a) = elim (Bool-cases (a.options.generation == g)) [
  | inl h ↦ rw h (record { kept = append-nil _; stays = λ x f. f })
  | inr h ↦ rw h (same_state _)
]
cancel_current_effects-Keeps g s = same_state _

pub recover-Keeps : (w : World) → Keeps w (recover w)
unfolding recover
recover-Keeps w = record { state = recover_state-Keeps w.inner.state; same = refl }

or_return-Keeps :
    (w : World) (body : World → World × List Effect)
    → Keeps w (body w)
    → Keeps w (locked_or_return w body)
unfolding locked_or_return
or_return-Keeps w body h = if_both (Keeps w) w.poisoned (recover-Keeps w) h

pub finish_worker-Keeps :
    (generation : ℕ) (o : ShutdownObservation) (w : World) → Keeps w (finish_worker generation o w)
unfolding finish_worker
finish_worker-Keeps g o w =
    or_return-Keeps w (on_state (finish_worker_state g o))
      (record { state = finish_worker_state-Keeps g o w.inner.state; same = refl })

pub finish_creation_failure-Keeps :
    (generation : ℕ) (error : ServiceError) (terminal : Bool) (q : Option Handle) (w : World)
    → Keeps w (finish_creation_failure generation error terminal q w)
unfolding finish_creation_failure
finish_creation_failure-Keeps g e t q w =
    or_return-Keeps w (on_state (finish_creation_failure_state g e t q))
      (record { state = finish_creation_failure_state-Keeps g e t q w.inner.state; same = refl })

pub cancel_current-Keeps : (generation : ℕ) (w : World) → Keeps w (cancel_current generation w)
unfolding cancel_current
cancel_current-Keeps g w =
    or_return-Keeps w (λ v. (v, cancel_current_effects g v.inner.state))
      (record { state = cancel_current_effects-Keeps g w.inner.state; same = refl })

pub transition_to_stopping-Keeps :
    (generation : ℕ) (reason : ServiceError) (w : World)
    → Keeps w (transition_to_stopping generation reason w)
unfolding transition_to_stopping
transition_to_stopping-Keeps g e w =
    or_return-Keeps w (λ v. (with_state (transition_state g e v.inner.state) v, []))
      (record { state = transition_state-Keeps g e w.inner.state; same = refl })
