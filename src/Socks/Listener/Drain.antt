-- ===== src/Socks/Listener/Drain.antt =====
-- After the loop of the accept task of src/lib.rs: nothing is accepted, and the task comes to its end.
use bare_arti.Base.{
  ℕ, suc, ◌+◌, ◌*◌, ◌<◌, ◌≤◌, ◌≡◌, refl, sym, subst, ap, ◌∙◌, Option, none, some, List, [], ◌∷◌,
  ◌++◌, arith, length, count, true, false, if_both, Outcome,
}
use bare_arti.Socks.Listener.{
  Completed, Task, Phase, Listener, SocksService, drain_round, take_out, end_task, signal,
}
use bare_arti.Socks.Listener.Steps.{Step, Internal, Later, Reach}
use bare_arti.Socks.Listener.Accounts.{
  IsClosing, closing-closed, ended-terminal, terminal_all_joined,
}

closing-ne-accepting : (p : Phase) → IsClosing p → p ≡ Phase.accepting → ⊥
closing-ne-accepting Phase.accepting h e = h
closing-ne-accepting (Phase.draining o) h e = cc
closing-ne-accepting (Phase.ended o) h e = cc

signal-same :
    (s : SocksService) (l : Listener)
    → ((signal s l).phase ≡ l.phase) × ((signal s l).accepted ≡ l.accepted)
unfolding signal
signal-same s l =
    if_both (λ (m : Listener). (m.phase ≡ l.phase) × (m.accepted ≡ l.accepted)) s.shutdown
      (refl, refl) (refl, refl)

Internal-IsClosing : {l m : Listener} → Internal l m → IsClosing l.phase → IsClosing m.phase
unfolding drain_round end_task
Internal-IsClosing (Internal.complete b t r a l e k c) h = h
Internal-IsClosing (Internal.drain b t r a o l p e k) h = tt
Internal-IsClosing (Internal.finish o l p e) h = tt

Internal-accepted : {l m : Listener} → Internal l m → m.accepted ≡ l.accepted
unfolding drain_round take_out end_task
Internal-accepted (Internal.complete b t r a l e k c) = refl
Internal-accepted (Internal.drain b t r a o l p e k) = refl
Internal-accepted (Internal.finish o l p e) = refl

Step-IsClosing :
    {l m : Listener} → Step l m → IsClosing l.phase → IsClosing m.phase × (m.accepted ≡ l.accepted)
Step-IsClosing (Step.select polled l e f) h = absurd (closing-ne-accepting l.phase h e)
Step-IsClosing (Step.signalled s l) h =
    (subst IsClosing (sym (signal-same s l).0) h, (signal-same s l).1)
Step-IsClosing (Step.internal i) h = (Internal-IsClosing i h, Internal-accepted i)

Later-IsClosing :
    {l m : Listener} → Later l m → IsClosing l.phase → IsClosing m.phase × (m.accepted ≡ l.accepted)
Later-IsClosing Later.here h = (h, refl)
Later-IsClosing (Later.then r st) h =
    let (c, e) = Later-IsClosing r h in let (d, f) = Step-IsClosing st c in (d, f ∙ e)

Later-Reach : {l m : Listener} → Later l m → Reach l → Reach m
Later-Reach Later.here r = r
Later-Reach (Later.then more st) r = Reach.next (Later-Reach more r) st

-- From a reachable state in which the accept task has left its loop, by any later steps: no further
-- connection is accepted, the listener stays dropped, and the connections' tasks stay aborted.
pub closing_accepts_nothing :
    {l m : Listener}
    → Reach l
    → Later l m
    → IsClosing l.phase
    → (m.accepted ≡ l.accepted) × (m.listening ≡ false) × (m.aborted ≡ true)
closing_accepts_nothing reach r h =
    let (closing, same) = Later-IsClosing r h in
    let (closed, aborted) = closing-closed (Later-Reach r reach) closing in (same, closed, aborted)

-- What the tasks still have to do: to end and to be joined.
abbrev work : Option Completed → ℕ
work none = 2
work (some result) = 1

abbrev weight : List Task → ℕ
weight [] = 0
weight (t ∷ ts) = work t.result + weight ts

weight-le : (ts : List Task) → weight ts ≤ 2 * length ts
weight-le [] = omega arith
weight-le (t ∷ ts) = ground (arith, weight-le ts)

abbrev last_step : Phase → ℕ
last_step (Phase.draining o) = 1
last_step p = 0

measure : Listener → ℕ
measure l = weight l.connections + last_step l.phase

weight-middle :
    (before : List Task) (t : Task) (after : List Task)
    → weight (before ++ t ∷ after) ≡ work t.result + weight (before ++ after)
weight-middle [] t after = omega arith
weight-middle (b ∷ before) t after = omega (arith, weight-middle before t after)

Internal-decreases : {l m : Listener} → Internal l m → measure m < measure l
unfolding measure drain_round take_out end_task
Internal-decreases (Internal.complete b t r a l e k c) = omega (
  arith,
  ap weight e,
  weight-middle b t a,
  weight-middle b (record t { result = some r }) a,
  ap work k,
)
Internal-decreases (Internal.drain b t r a o l p e k) =
    omega (arith, ap weight e, weight-middle b t a, ap work k, ap last_step p)
Internal-decreases (Internal.finish o l p e) = omega (arith, ap last_step p)

-- A run of `n` steps of the connections' tasks and of the accept task after its loop.
pub data Run : ℕ → Listener → Listener → Type 0 where
  here : {l : Listener} → Run 0 l l
  then : {n : ℕ} {l m k : Listener} → Internal l m → Run n m k → Run (suc n) l k

Run-bounded : {n : ℕ} {l m : Listener} → Run n l m → n + measure m ≤ measure l
Run-bounded Run.here = omega arith
Run-bounded (Run.then i r) = omega (arith, Internal-decreases i, Run-bounded r)

last_step-le : (p : Phase) → last_step p ≤ 1
last_step-le Phase.accepting = omega arith
last_step-le (Phase.draining o) = omega arith
last_step-le (Phase.ended o) = omega arith

-- A run of the connections' tasks and of the joins takes at most two steps for each connection, and one
-- more.
pub drain_bounded : {n : ℕ} {l m : Listener} → Run n l m → n ≤ 2 * length l.connections + 1
unfolding measure
drain_bounded {n} {l} r =
    omega (arith, Run-bounded r, weight-le l.connections, last_step-le l.phase)

Run-IsClosing : {n : ℕ} {l m : Listener} → Run n l m → IsClosing l.phase → IsClosing m.phase
Run-IsClosing Run.here h = h
Run-IsClosing (Run.then i r) h = Run-IsClosing r (Internal-IsClosing i h)

-- A step that happens whatever the connections wait for: an aborted task ends as cancelled, and the accept
-- task joins an ended one or comes to its end. That a task returns or panics is left out.
abbrev pub IsForced : {l m : Listener} → Internal l m → Type 0
IsForced (Internal.complete b t (Completed.failed true error) a l e k c) = Unit {0}
IsForced (Internal.complete b t result a l e k c) = ⊥
IsForced _ = Unit {0}

abbrev ForcedStep : Listener → Type 0
ForcedStep l = (m : Listener) × (i : Internal l m) × IsForced i

-- While the outcome is pending there is a step to make: a task is cancelled, is joined, or was the last.
draining_steps :
    (l : Listener) (o : Outcome (Unit {0}))
    → l.aborted ≡ true
    → l.phase ≡ Phase.draining o
    → ForcedStep l
draining_steps l o aborted p = by_set l.connections refl
  where
    by_result :
        (t : Task) (ts : List Task) (r : Option Completed)
        → l.connections ≡ t ∷ ts
        → t.result ≡ r
        → ForcedStep l
    by_result t ts none e k =
        (_, Internal.complete [] t (Completed.failed true "cancelled") ts l e k aborted, tt)
    by_result t ts (some r) e k = (_, Internal.drain [] t r ts o l p e k, tt)

    by_set : (ts : List Task) → l.connections ≡ ts → ForcedStep l
    by_set [] e = (_, Internal.finish o l p e, tt)
    by_set (t ∷ ts) e = by_result t ts t.result e refl

by_phase :
    (m : Listener) (p : Phase)
    → IsClosing p
    → m.aborted ≡ true
    → m.phase ≡ p
    → ((k : Listener) (i : Internal m k) → ¬ IsForced i)
    → (o : Outcome (Unit {0})) × (m.phase ≡ Phase.ended o)
by_phase m Phase.accepting c aborted e stuck = absurd c
by_phase m (Phase.draining o) c aborted e stuck =
    let (k, i, forced) = draining_steps m o aborted e in absurd (stuck k i forced)
by_phase m (Phase.ended o) c aborted e stuck = (o, e)

Run-Reach : {n : ℕ} {l m : Listener} → Run n l m → Reach l → Reach m
Run-Reach Run.here reach = reach
Run-Reach (Run.then i r) reach = Run-Reach r (Reach.next reach (Step.internal i))

-- After the loop of a reachable accept task, a run that has no forced step left has come to the end of the
-- accept task, with an outcome, even where no connection ever returns by itself: the terminal signal has
-- been sent, the listener is dropped, and every connection that was accepted has been joined.
pub stuck_is_ended :
    {n : ℕ} {l m : Listener}
    → Reach l
    → IsClosing l.phase
    → Run n l m
    → ((k : Listener) (i : Internal m k) → ¬ IsForced i)
    → (o : Outcome (Unit {0})) × (m.phase ≡ Phase.ended o)
      × (m.terminal ≡ true)
      × (m.listening ≡ false)
      × ((c : ℕ) → count c m.accepted ≡ count c m.joined)
stuck_is_ended {m = m} reach h r stuck =
    let here = Run-Reach r reach in
    let closing = Run-IsClosing r h in
    let (o, e) = by_phase m m.phase closing (closing-closed here closing).1 refl stuck in
    let signal = ended-terminal here e in
    (o, e, signal, (closing-closed here closing).0, λ c. (terminal_all_joined here signal c).1)
