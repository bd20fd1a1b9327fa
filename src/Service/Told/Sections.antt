-- ===== src/Service/Told/Sections.antt =====
-- What the critical sections of src/service.rs tell the completions that they answer.
use bare_arti.Base.{
  ℕ, ◌≡◌, refl, sym, subst, Bool, true, false, Option, none, some, List, [], ◌++◌, arith, if_both,
  if_split, ◌==◌, ==_iff, ◌∙◌, All, All-append,
}
use bare_arti.Service.Types.{ServiceError, ServiceEvent, failed_event}
use bare_arti.Service.Dispatch.{Completion}
use bare_arti.Service.World.{World, Handle, State, Stopping}
use bare_arti.Service.Effects.{Effect, queue_all}
use bare_arti.Service.Lock.{poison_error, recover_state, recover, locked_or_return}
use bare_arti.Service.Sections.{
  ShutdownObservation, terminal_error, finish_worker_state, finish_stopping, stop_event, end_state,
  finish_creation_failure_state, on_state, cancel_current_effects, transition_state, stop_starting,
}
use bare_arti.Service.Diagram.Edges.{phase}
use bare_arti.Service.Diagram.Pieces.{View, view}
use bare_arti.Service.Diagram.Generations.{active}
use bare_arti.Service.Told.Items.{
  Request, Fits, IsSo, IsOver, IsLast, EffectTold, OwnedBy, IsOwned, queue_all-Told,
}

abbrev pub at : State → ℕ → View
at s n = record { at = phase s; last = n }

-- What ends while no generation is active any more.
idle-IsOver : (s : State) (n g : ℕ) → active (phase s) ≡ none → g ≡ n → IsOver (at s n) g
idle-IsOver s n g idle e = (omega (arith, e), λ h. cc)

abbrev IsEnd : ServiceEvent → Type 0
IsEnd (ServiceEvent.running g port) = ⊥
IsEnd event = Unit {0}

failed-IsSo :
    (t : State) (n g : ℕ) (e : ServiceError)
    → active (phase t) ≡ none
    → g ≡ n
    → Fits (Request.stop g) (failed_event g e) × IsSo (at t n) (failed_event g e)
unfolding failed_event
failed-IsSo t n g e idle last = (refl, idle-IsOver t n g idle last)

module _ (request : Completion → Request) where
  -- A section on a state: what its effects tell is so in the state that it leaves, whose completions
  -- are its generation's own.
  pub record StateTells (n : ℕ) (r : State × List Effect) : Type 0 where
    pub told : All (EffectTold request (at r.0 n)) r.1
    pub owned : IsOwned request r.0

  -- The generation of `s` ends in `t`, with an answer for all its completions.
  end_starting :
      (t : State) (n g : ℕ) (cs : List Completion) (e : ServiceError)
      → active (phase t) ≡ none
      → IsOwned request t
      → g ≡ n
      → OwnedBy request (Request.start g) cs
      → StateTells n (t, queue_all cs (failed_event g e))
  unfolding failed_event
  end_starting t n g cs e idle o last h = record {
    told =
        queue_all-Told request (at t n) (Request.start g) cs (failed_event g e) h refl
          (idle-IsOver t n g idle last);
    owned = o;
  }

  end_stopping :
      (t : State) (n g : ℕ) (s : Stopping) (e : ServiceError) (event : ServiceEvent)
      → active (phase t) ≡ none
      → IsOwned request t
      → g ≡ n
      → IsOwned request (State.stopping s)
      → s.generation ≡ g
      → Fits (Request.stop g) event × IsSo (at t n) event
      → StateTells n (
        t,
        queue_all s.start_completions (failed_event g e) ++ queue_all s.stop_completions event,
      )
  unfolding failed_event
  end_stopping t n g s e event idle o last h same q = record {
    told =
        All-append (EffectTold request (at t n)) (queue_all s.start_completions (failed_event g e))
          _
          (queue_all-Told request (at t n) (Request.start g) s.start_completions (failed_event g e)
            (subst (λ k. OwnedBy request (Request.start k) s.start_completions) same h.0) refl
            (idle-IsOver t n g idle last))
          (queue_all-Told request (at t n) (Request.stop g) s.stop_completions event
            (subst (λ k. OwnedBy request (Request.stop k) s.stop_completions) same h.1) q.0 q.1);
    owned = o;
  }

  unchanged-Tells : (n : ℕ) (s : State) → IsOwned request s → StateTells n (s, [])
  unchanged-Tells n s h = record { told = tt; owned = h }

  pub recover_state-Tells :
      (n : ℕ) (s : State) → IsLast (at s n) → IsOwned request s → StateTells n (recover_state s)
  unfolding recover_state
  recover_state-Tells n State.stopped last h = record { told = tt; owned = tt }
  recover_state-Tells n (State.failed f) last h = record { told = tt; owned = tt }
  recover_state-Tells n (State.running r) last h = record { told = (tt, (tt, tt)); owned = tt }
  recover_state-Tells n (State.starting a) last h =
      let ended =
        end_starting (recover_state (State.starting a)).0 n a.options.generation a.start_completions
          poison_error refl tt (last _ refl) h in
      record { told = (tt, (tt, (tt, ended.told))); owned = tt }
  recover_state-Tells n (State.stopping s) last h =
      let t = (recover_state (State.stopping s)).0 in
      let ended =
        end_stopping t n s.generation s poison_error (failed_event s.generation poison_error) refl
          tt (last _ refl) h refl (failed-IsSo t n s.generation poison_error refl (last _ refl)) in
      record { told = (tt, (tt, ended.told)); owned = tt }

  terminal_stop_Tells :
      (g n : ℕ) (s : Stopping) (q : Option Handle) (o : Option ServiceError)
      → g ≡ n
      → s.generation ≡ g
      → IsOwned request (State.stopping s)
      → StateTells n (finish_stopping g s q o)
  unfolding finish_stopping
  terminal_stop_Tells g n s q none last same h =
      end_stopping State.stopped n g s s.reason (ServiceEvent.stopped g) refl tt last h same
        (refl, idle-IsOver State.stopped n g refl last)
  terminal_stop_Tells g n s q (some e) last same h =
      let t = (finish_stopping g s q (some e)).0 in
      end_stopping t n g s e (failed_event g e) refl tt last h same (failed-IsSo t n g e refl last)

  pub finish_worker_state-Tells :
      (g : ℕ) (o : ShutdownObservation) (n : ℕ) (s : State)
      → IsLast (at s n)
      → IsOwned request s
      → StateTells n (finish_worker_state g o s)
  unfolding finish_worker_state
  finish_worker_state-Tells g o n State.stopped last h = unchanged-Tells n _ h
  finish_worker_state-Tells g o n (State.starting a) last h = unchanged-Tells n _ h
  finish_worker_state-Tells g o n (State.failed f) last h = record { told = tt; owned = tt }
  finish_worker_state-Tells g o n (State.running r) last h =
      if_both (StateTells n) (r.options.generation == g) (record { told = tt; owned = tt })
        (unchanged-Tells n (State.running r) h)
  finish_worker_state-Tells g o n (State.stopping s) last h =
      if_split (StateTells n) (s.generation == g)
        (λ e.
          let same = (==_iff s.generation g).0 e in
          terminal_stop_Tells g n s o.quarantine (terminal_error s o.result)
            (sym same ∙ last _ refl) same h)
        (λ e. unchanged-Tells n (State.stopping s) h)

  end_state-idle :
      (e : ServiceError) (t : Bool) (q : Option Handle) → active (phase (end_state e t q)) ≡ none
  end_state-idle e true q = refl
  end_state-idle e false q = refl

  end_state-IsOwned :
      (e : ServiceError) (t : Bool) (q : Option Handle) → IsOwned request (end_state e t q)
  end_state-IsOwned e true q = tt
  end_state-IsOwned e false q = tt

  stop_event-IsSo :
      (g n : ℕ) (e : ServiceError) (t : Bool) (q : Option Handle)
      → g ≡ n
      → Fits (Request.stop g) (stop_event g e t) × IsSo (at (end_state e t q) n) (stop_event g e t)
  stop_event-IsSo g n e true q last = failed-IsSo (end_state e true q) n g e refl last
  stop_event-IsSo g n e false q last = (refl, idle-IsOver State.stopped n g refl last)

  pub finish_creation_failure_state-Tells :
      (g : ℕ) (e : ServiceError) (t : Bool) (q : Option Handle) (n : ℕ) (s : State)
      → IsLast (at s n)
      → IsOwned request s
      → StateTells n (finish_creation_failure_state g e t q s)
  unfolding finish_creation_failure_state
  finish_creation_failure_state-Tells g e t q n State.stopped last h = unchanged-Tells n _ h
  finish_creation_failure_state-Tells g e t q n (State.running r) last h = unchanged-Tells n _ h
  finish_creation_failure_state-Tells g e t q n (State.failed f) last h = unchanged-Tells n _ h
  finish_creation_failure_state-Tells g e t q n (State.starting a) last h =
      if_split (StateTells n) (a.options.generation == g)
        (λ x.
          let same = (==_iff a.options.generation g).0 x in
          end_starting (end_state e t q) n g a.start_completions e (end_state-idle e t q)
            (end_state-IsOwned e t q) (sym same ∙ last _ refl)
            (subst (λ k. OwnedBy request (Request.start k) a.start_completions) same h))
        (λ x. unchanged-Tells n (State.starting a) h)
  finish_creation_failure_state-Tells g e t q n (State.stopping s) last h =
      if_split (StateTells n) (s.generation == g)
        (λ x.
          let same = (==_iff s.generation g).0 x in
          let now = sym same ∙ last _ refl in
          end_stopping (end_state e t q) n g s e (stop_event g e t) (end_state-idle e t q)
            (end_state-IsOwned e t q) now h same (stop_event-IsSo g n e t q now))
        (λ x. unchanged-Tells n (State.stopping s) h)

  pub transition_state-IsOwned :
      (g : ℕ) (e : ServiceError) (s : State)
      → IsOwned request s
      → IsOwned request (transition_state g e s)
  unfolding transition_state
  transition_state-IsOwned g e (State.starting a) h =
      if_split (IsOwned request) (a.options.generation == g)
        (λ x. (
          subst (λ k. OwnedBy request (Request.start k) a.start_completions)
              ((==_iff a.options.generation g).0 x) h,
          tt,
        ))
        (λ x. h)
  transition_state-IsOwned g e (State.running r) h =
      if_both (IsOwned request) (r.options.generation == g) (tt, tt) tt
  transition_state-IsOwned g e State.stopped h = h
  transition_state-IsOwned g e (State.stopping s) h = h
  transition_state-IsOwned g e (State.failed f) h = h

  pub stop_starting-IsOwned :
      (g : ℕ) (e : ServiceError) (s : State)
      → IsOwned request s
      → IsOwned request (stop_starting g e s)
  unfolding stop_starting
  stop_starting-IsOwned g e (State.starting a) h =
      if_split (IsOwned request) (a.options.generation == g)
        (λ x. (
          subst (λ k. OwnedBy request (Request.start k) a.start_completions)
              ((==_iff a.options.generation g).0 x) h,
          tt,
        ))
        (λ x. h)
  stop_starting-IsOwned g e State.stopped h = h
  stop_starting-IsOwned g e (State.running r) h = h
  stop_starting-IsOwned g e (State.stopping s) h = h
  stop_starting-IsOwned g e (State.failed f) h = h

  pub cancel_current-told :
      (v : View) (g : ℕ) (s : State) → All (EffectTold request v) (cancel_current_effects g s)
  unfolding cancel_current_effects
  cancel_current-told v g (State.starting a) =
      if_both (All (EffectTold request v)) (a.options.generation == g) (tt, (tt, (tt, tt))) tt
  cancel_current-told v g s = tt

  -- The same of a section on the world.
  pub record Tells (r : World × List Effect) : Type 0 where
    pub told : All (EffectTold request (view r.0)) r.1
    pub owned : IsOwned request r.0.inner.state

  pub recover-Tells :
      (w : World) → IsLast (view w) → IsOwned request w.inner.state → Tells (recover w)
  unfolding recover
  recover-Tells w last h =
      let k = recover_state-Tells w.inner.last_generation w.inner.state last h in
      record { told = k.told; owned = k.owned }

  pub or_return-Tells :
      (w : World) (body : World → World × List Effect)
      → IsLast (view w)
      → IsOwned request w.inner.state
      → Tells (body w)
      → Tells (locked_or_return w body)
  unfolding locked_or_return
  or_return-Tells w body last h k = if_both Tells w.poisoned (recover-Tells w last h) k

  pub on_state-Tells :
      (f : State → State × List Effect) (w : World)
      → StateTells w.inner.last_generation (f w.inner.state)
      → Tells (on_state f w)
  unfolding on_state
  on_state-Tells f w k = record { told = k.told; owned = k.owned }
