-- ===== src/Abi/Joint/Tracks.antt =====
-- The requests of addon/src/lib.rs against the controller of src/service.rs: which generation is active.
use bare_arti.Base.{
  ℕ, ◌≡◌, ◌⊎◌, ◌≢◌, refl, sym, ap, ◌∙◌, subst, inl, inr, Bool, true, false, Option, none, some,
  List, ◌∷◌, arith, count, ◌==◌, if_split, String, All,
}
use bare_arti.Service.Types.{ServiceEvent}
use bare_arti.Service.Dispatch.{Completion, CompletionItem, CompletionDispatcher}
use bare_arti.Service.World.{World, with_dependencies}
use bare_arti.Service.System.{System, Reach, dispatch_round}
use bare_arti.Service.Completions.Count.{called}
use bare_arti.Service.Diagram.Pieces.{view, Runs-Follows}
use bare_arti.Service.Diagram.Generations.{active-Edge}
use bare_arti.Service.Told.Items.{Request, Fits, IsSo, IsTold, ItemTold, DispatcherTold}
use bare_arti.Abi.{RequestState, default_requests}
use bare_arti.Abi.Joint.{
  Joint, JointStep, JointReach, joint_callback, completed, new_joint, next_items,
}
use bare_arti.Abi.Joint.Callbacks.{JointReach-Reach, callbacks_tell_own}
use bare_arti.Abi.Joint.Outstanding.{
  IsSettled, IsWaiting, settled-no_callback, waiting-callback, waiting-settles, Runs-called,
}
use bare_arti.Abi.Joint.Active.{active_of, AtMost, none_of, AtMost-keeps}
use bare_arti.Abi.Joint.Booked.{
  requests_of, start-injective, stop-injective, not_over, IsBooked, Booked, start-Booked,
  stop-Booked,
}

module _ (request : Completion → Request) where
  -- The callback of the one start that is pending.
  start_called :
      (q : Request) (event : ServiceEvent) (g : ℕ) (s : System)
      → q ≡ Request.start g
      → Fits q event
      → IsSo (view s.world) event
      → IsSettled s
      → AtMost g s.world
      → IsBooked request s (completed q event (requests_of (some g) true false)) false
  unfolding completed
  start_called (Request.stop k) event g s e fits so h most = cc
  start_called (Request.start k) (ServiceEvent.running n port) g s e fits so h most =
      IsBooked.held g h most
  start_called (Request.start k) (ServiceEvent.stopped n) g s e fits so h most = absurd fits
  start_called (Request.start k) (ServiceEvent.failed n code message) g s e fits so h most =
      IsBooked.idle h
        (not_over g s.world most (λ a. so.1 (a ∙ ap some (sym (start-injective e) ∙ fits))))

  -- That of the one stop.
  stop_called :
      (q : Request) (event : ServiceEvent) (g : ℕ) (s : System)
      → q ≡ Request.stop g
      → Fits q event
      → IsSo (view s.world) event
      → IsSettled s
      → AtMost g s.world
      → IsBooked request s (completed q event (requests_of (some g) false true)) false
  unfolding completed default_requests
  stop_called (Request.start k) event g s e fits so h most = cc
  stop_called (Request.stop k) event g s e fits so h most =
      if_split (λ r. IsBooked request s r false) (g == k)
        (λ same. IsBooked.idle h (not_over g s.world most (ended event fits so)))
        (λ other. absurd (ground (arith, stop-injective e, other)))
    where
      ended :
          (v : ServiceEvent)
          → Fits (Request.stop k) v
          → IsSo (view s.world) v
          → active_of s.world ≢ some g
      ended (ServiceEvent.running n port) f o = absurd f
      ended (ServiceEvent.stopped n) f o = λ a. o.1 (a ∙ ap some (sym (stop-injective e) ∙ f))
      ended (ServiceEvent.failed n code message) f o =
          λ a. o.1 (a ∙ ap some (sym (stop-injective e) ∙ f))

  first_told :
      (o : Option CompletionDispatcher) (s : System) (item : CompletionItem)
      (items : List CompletionItem)
      → next_items o ≡ item ∷ items
      → DispatcherTold request (view s.world) o
      → IsTold request (view s.world) item.completion item.event
  first_told none s item items e h = cc
  first_told (some d) s item items e h = (subst (All (ItemTold request (view s.world))) e h.0).0

  callback-Booked :
      {timeout : ℕ} {failure : Option String} (item : CompletionItem) (items : List CompletionItem)
      (s : System) {r : RequestState} {l : Bool}
      → next_items s.world.dispatcher ≡ item ∷ items
      → Reach timeout failure s
      → IsTold request (view s.world) item.completion item.event
      → IsBooked request s r l
      → Booked request (joint_callback request item (record { system = s; requests = r; lost = l }))
  unfolding joint_callback dispatch_round
  callback-Booked item items s e reach told (IsBooked.idle h inactive) =
      absurd (settled-no_callback s item items reach e h)
  callback-Booked item items s e reach told (IsBooked.held g h most) =
      absurd (settled-no_callback s item items reach e h)
  callback-Booked item items s e reach told (IsBooked.frozen r h) = IsBooked.frozen r h
  callback-Booked item items s e reach told (IsBooked.starting g c own h most) =
      let same = waiting-callback s item items c reach e h in
      start_called (request item.completion) item.event g _ (ap request same ∙ own) told.own told.so
        (waiting-settles s item items e (subst (λ d. IsWaiting d s) (sym same) h)) most
  callback-Booked item items s e reach told (IsBooked.stopping g c own h most) =
      let same = waiting-callback s item items c reach e h in
      stop_called (request item.completion) item.event g _ (ap request same ∙ own) told.own told.so
        (waiting-settles s item items e (subst (λ d. IsWaiting d s) (sym same) h)) most

  -- A piece of a thread: it takes over no completion, calls none and starts no generation.
  moved-Booked :
      (s t : System) {r : RequestState} {l : Bool}
      → t.accepted ≡ s.accepted
      → called t.world.dispatcher ≡ called s.world.dispatcher
      → ((k : ℕ) → active_of t.world ≡ some k → active_of s.world ≡ some k)
      → IsBooked request s r l
      → IsBooked request t r l
  moved-Booked s t a d f (IsBooked.idle h inactive) =
      IsBooked.idle (λ c. omega (arith, h c, ap (count c) a, ap (count c) d))
        (none_of (active_of s.world) (active_of t.world) f inactive)
  moved-Booked s t a d f (IsBooked.held g h most) =
      IsBooked.held g (λ c. omega (arith, h c, ap (count c) a, ap (count c) d))
        (AtMost-keeps g s.world t.world f most)
  moved-Booked s t a d f (IsBooked.starting g c own h most) =
      IsBooked.starting g c own (λ b. omega (arith, h b, ap (count b) a, ap (count b) d))
        (AtMost-keeps g s.world t.world f most)
  moved-Booked s t a d f (IsBooked.stopping g c own h most) =
      IsBooked.stopping g c own (λ b. omega (arith, h b, ap (count b) a, ap (count b) d))
        (AtMost-keeps g s.world t.world f most)
  moved-Booked s t a d f (IsBooked.frozen r h) = IsBooked.frozen r (still (active_of t.world) refl)
    where
      still :
          (o : Option ℕ)
          → active_of t.world ≡ o
          → (active_of t.world ≡ none) ⊎ (active_of t.world ≡ r.active_generation)
      still none e = inl e
      still (some k) e = inr (by_case h)
        where
          by_case :
              (active_of s.world ≡ none) ⊎ (active_of s.world ≡ r.active_generation)
              → active_of t.world ≡ r.active_generation
          by_case (inl n) = absurd (contra n (f k e))
            where
              contra : active_of s.world ≡ none → active_of s.world ≡ some k → ⊥
              contra x y = cc
          by_case (inr q) = e ∙ sym (f k e) ∙ q

  lost-Booked :
      (s : System) {r : RequestState} {l : Bool}
      → IsBooked request s r l
      → IsBooked request s r true
  lost-Booked s (IsBooked.idle h inactive) = IsBooked.frozen _ (inl inactive)
  lost-Booked s (IsBooked.held g h most) = IsBooked.frozen _ most
  lost-Booked s (IsBooked.starting g c own h most) = IsBooked.frozen _ most
  lost-Booked s (IsBooked.stopping g c own h most) = IsBooked.frozen _ most
  lost-Booked s (IsBooked.frozen r h) = IsBooked.frozen r h

  -- A stop is asked for only when no start is pending.
  abbrev pub IsOrderly : {j k : Joint} → JointStep request j k → Type 0
  IsOrderly (JointStep.stop g c j own) = j.requests.start_pending ≡ false
  IsOrderly _ = Unit {0}

  pub data OrderlyReach (timeout : ℕ) (failure : Option String) : Joint → Type 0 where
    here : OrderlyReach timeout failure (new_joint timeout failure)
    next :
        {j k : Joint}
        → OrderlyReach timeout failure j
        → (step : JointStep request j k) → IsOrderly step
        → OrderlyReach timeout failure k

  OrderlyReach-JointReach :
      {timeout : ℕ} {failure : Option String} {j : Joint}
      → OrderlyReach timeout failure j
      → JointReach request timeout failure j
  OrderlyReach-JointReach OrderlyReach.here = JointReach.here
  OrderlyReach-JointReach (OrderlyReach.next r step o) =
      JointReach.next (OrderlyReach-JointReach r) step

  Step-Booked :
      (timeout : ℕ) (failure : Option String) {j k : Joint} (step : JointStep request j k)
      → IsOrderly step
      → JointReach request timeout failure j
      → Booked request j
      → Booked request k
  Step-Booked timeout failure (JointStep.start options c j own) o r b =
      start-Booked request options c j.system own b
  Step-Booked timeout failure (JointStep.stop g c j own) o r b =
      stop-Booked request g c j.system own o b
  Step-Booked timeout failure (JointStep.callback item items j e) o r b =
      callback-Booked item items j.system e (JointReach-Reach request timeout failure r)
        (first_told j.system.world.dispatcher j.system item items e
          (callbacks_tell_own request timeout failure r))
        b
  Step-Booked timeout failure (JointStep.run before after a rest j e x) o r b =
      moved-Booked j.system _ refl (Runs-called a x) (λ k h. active-Edge k (Runs-Follows x).along h)
        b
  Step-Booked timeout failure (JointStep.poison j) o r b =
      moved-Booked j.system _ refl refl (λ k h. h) b
  Step-Booked timeout failure (JointStep.lose j) o r b = lost-Booked j.system b

  new_joint-Booked :
      (timeout : ℕ) (failure : Option String) → Booked request (new_joint timeout failure)
  unfolding with_dependencies default_requests
  new_joint-Booked timeout none = IsBooked.idle (λ c. refl) refl
  new_joint-Booked timeout (some e) = IsBooked.idle (λ c. refl) refl

  OrderlyReach-Booked :
      {timeout : ℕ} {failure : Option String} {j : Joint}
      → OrderlyReach timeout failure j
      → Booked request j
  OrderlyReach-Booked {timeout} {failure} OrderlyReach.here = new_joint-Booked timeout failure
  OrderlyReach-Booked {timeout} {failure} (OrderlyReach.next r step o) =
      Step-Booked timeout failure step o (OrderlyReach-JointReach r) (OrderlyReach-Booked r)

  AtMost-active : (g k : ℕ) (w : World) → AtMost g w → active_of w ≡ some k → some g ≡ some k
  AtMost-active g k w (inl n) e = cc
  AtMost-active g k w (inr n) e = sym n ∙ e

  tracked :
      (s : System) {r : RequestState} {l : Bool} (k : ℕ)
      → IsBooked request s r l
      → active_of s.world ≡ some k
      → r.active_generation ≡ some k
  tracked s k (IsBooked.idle h inactive) e = cc
  tracked s k (IsBooked.held g h most) e = AtMost-active g k s.world most e
  tracked s k (IsBooked.starting g c own h most) e = AtMost-active g k s.world most e
  tracked s k (IsBooked.stopping g c own h most) e = AtMost-active g k s.world most e
  tracked s k (IsBooked.frozen r (inl n)) e = cc
  tracked s k (IsBooked.frozen r (inr n)) e = sym n ∙ e

  -- After any calls of the C interface, one after the other, in which a stop is asked for only when no start
  -- is pending, and with the controller's threads, its dispatcher, callbacks and panics in between: the
  -- generation that the controller has starting, running or stopping is the one that the interface has as
  -- its active one, so that it can be stopped and no other can be started.
  pub requests_track_controller :
      {timeout : ℕ} {failure : Option String} {j : Joint}
      → OrderlyReach timeout failure j
      → (g : ℕ) → active_of j.system.world ≡ some g
      → j.requests.active_generation ≡ some g
  requests_track_controller {j = j} r g e = tracked j.system g (OrderlyReach-Booked r) e
