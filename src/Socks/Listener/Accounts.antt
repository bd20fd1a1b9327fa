-- ===== src/Socks/Listener/Accounts.antt =====
-- What holds in every reachable state of the accept task of src/lib.rs.
use bare_arti.Base.{
  ℕ, ◌+◌, ◌≡◌, refl, sym, subst, ap, ◌∙◌, Bool, true, false, Option, none, some, List, [], ◌∷◌,
  ◌++◌, arith, count, if_split, if_both, Outcome, done, broken,
}
use bare_arti.Socks.Listener.{
  Completed, Task, Phase, Listener, Polled, SocksService, new_listener, select_round, on_polled,
  break_with, spawn_connection, take_out, after_join, drain_round, drained, end_task, signal,
}
use bare_arti.Socks.Listener.Steps.{Finds, with_result, Step, Internal, Reach}

abbrev pub ids : List Task → List ℕ
ids [] = []
ids (t ∷ ts) = t.id ∷ ids ts

-- An outcome without an error has a cause.
abbrev pub Cause : Outcome (Unit {0}) → Bool → Type 0
Cause (done u) signalled = signalled ≡ true
Cause (broken error) signalled = Unit {0}

abbrev pub Shape : Phase → Listener → Type 0
Shape Phase.accepting l = (l.listening ≡ true) × (l.aborted ≡ false) × (l.terminal ≡ false)
Shape (Phase.draining outcome) l =
    (l.listening ≡ false) × (l.aborted ≡ true) × (l.terminal ≡ false) × Cause outcome l.signalled
Shape (Phase.ended outcome) l =
    (l.listening ≡ false)
    × (l.aborted ≡ true)
    × (l.connections ≡ [])
    × (l.terminal ≡ true)
    × Cause outcome l.signalled

pub record IsSound (l : Listener) : Type 0 where
  pub balance : (c : ℕ) → count c l.accepted ≡ count c (ids l.connections) + count c l.joined
  pub shape : Shape l.phase l

count-middle :
    (c : ℕ) (before : List Task) (t : Task) (after : List Task)
    → count c (ids (before ++ t ∷ after)) ≡ count c (t.id ∷ []) + count c (ids (before ++ after))
count-middle c [] t after = ground arith
count-middle c (b ∷ before) t after = ground (arith, count-middle c before t after)

ids-spawn :
    (c id : ℕ) (ts : List Task)
    → count c (ids (ts ++ record { id = id; result = none } ∷ []))
      ≡ count c (ids ts) + count c (id ∷ [])
ids-spawn c id [] = ground arith
ids-spawn c id (t ∷ ts) = ground (arith, ids-spawn c id ts)

-- The set without a task, and the task among those joined.
take_out-balance :
    (c : ℕ) (before : List Task) (t : Task) (after : List Task) (l : Listener)
    → l.connections ≡ before ++ t ∷ after
    → count c l.accepted ≡ count c (ids l.connections) + count c l.joined
    → count c l.accepted ≡ count c (ids (before ++ after)) + count c (t.id ∷ l.joined)
take_out-balance c before t after l e h =
    ground (arith, ap (λ ts. count c (ids ts)) e, count-middle c before t after)

Shape-at : (l : Listener) {p : Phase} → l.phase ≡ p → Shape l.phase l → Shape p l
Shape-at l e h = subst (λ p. Shape p l) e h

break_with-IsSound :
    (outcome : Outcome (Unit {0})) (l : Listener)
    → ((c : ℕ) → count c l.accepted ≡ count c (ids l.connections) + count c l.joined)
    → Shape Phase.accepting l
    → Cause outcome l.signalled
    → IsSound (break_with outcome l)
unfolding break_with
break_with-IsSound outcome l b h cause = record { balance = b; shape = (refl, refl, h.2, cause) }

-- The branches of the `select!`, where the task stays in its loop or leaves it with an error.
on_polled-IsSound :
    (polled : Polled) (l : Listener)
    → l.phase ≡ Phase.accepting
    → Finds l polled
    → IsSound l
    → IsSound (on_polled polled l)
unfolding on_polled spawn_connection take_out after_join
on_polled-IsSound Polled.nothing l e f inv = inv
on_polled-IsSound (Polled.accepted id) l e f inv = record {
  balance = λ c. ground (arith, inv.balance c, ids-spawn c id l.connections);
  shape = subst (λ p. Shape p (spawn_connection id l)) (sym e) (Shape-at l e inv.shape);
}
on_polled-IsSound (Polled.accept_failed error) l e f inv =
    break_with-IsSound _ l inv.balance (Shape-at l e inv.shape) tt
on_polled-IsSound (Polled.completed before t Completed.returned after) l e f inv = record {
  balance = λ c. take_out-balance c before t after l f.0 (inv.balance c);
  shape = subst (λ p. Shape p (take_out before t after l)) (sym e) (Shape-at l e inv.shape);
}
on_polled-IsSound (Polled.completed before t (Completed.failed k error) after) l e f inv =
    break_with-IsSound _ (take_out before t after l)
      (λ c. take_out-balance c before t after l f.0 (inv.balance c)) (Shape-at l e inv.shape) tt

select_round-IsSound :
    (polled : Polled) (l : Listener)
    → l.phase ≡ Phase.accepting
    → Finds l polled
    → IsSound l
    → IsSound (select_round polled l)
unfolding select_round
select_round-IsSound polled l e f inv =
    if_split IsSound l.signalled
      (λ now. break_with-IsSound (done tt) l inv.balance (Shape-at l e inv.shape) now)
      (λ still. on_polled-IsSound polled l e f inv)

drained-Cause :
    (result : Completed) (outcome : Outcome (Unit {0})) (signalled : Bool)
    → Cause outcome signalled
    → Cause (drained result outcome) signalled
unfolding drained
drained-Cause Completed.returned outcome b h = h
drained-Cause (Completed.failed true error) outcome b h = h
drained-Cause (Completed.failed false error) (done u) b h = tt
drained-Cause (Completed.failed false error) (broken first) b h = tt

ids-with_result :
    (before : List Task) (t : Task) (r : Option Completed) (after : List Task)
    → ids (before ++ record t { result = r } ∷ after) ≡ ids (before ++ t ∷ after)
ids-with_result [] t r after = refl
ids-with_result (b ∷ before) t r after = ap (λ is. b.id ∷ is) (ids-with_result before t r after)

middle-ne-nil : (before : List Task) (t : Task) (after : List Task) → before ++ t ∷ after ≡ [] → ⊥
middle-ne-nil [] t after h = cc
middle-ne-nil (b ∷ before) t after h = cc

-- A task's end changes no identity, and happens only while there are tasks.
with_result-Shape :
    (p : Phase) (before : List Task) (t : Task) (result : Completed) (after : List Task)
    (l : Listener)
    → l.connections ≡ before ++ t ∷ after
    → Shape p l
    → Shape p (with_result before t result after l)
with_result-Shape Phase.accepting before t result after l e h = h
with_result-Shape (Phase.draining outcome) before t result after l e h = h
with_result-Shape (Phase.ended outcome) before t result after l e h =
    absurd (middle-ne-nil before t after (sym e ∙ h.2))

Internal-IsSound : {l m : Listener} → Internal l m → IsSound l → IsSound m
unfolding drain_round take_out end_task
Internal-IsSound (Internal.complete before t result after l e running can) inv = record {
  balance = λ c. omega (
    arith,
    inv.balance c,
    ap (λ ts. count c (ids ts)) e,
    ap (count c) (ids-with_result before t (some result) after),
  );
  shape = with_result-Shape l.phase before t result after l e inv.shape;
}
Internal-IsSound (Internal.drain before t result after outcome l p e found) inv =
    let h : Shape (Phase.draining outcome) l = Shape-at l p inv.shape in
    record {
      balance = λ c. take_out-balance c before t after l e (inv.balance c);
      shape = (h.0, h.1, h.2, drained-Cause result outcome l.signalled h.3);
    }
Internal-IsSound (Internal.finish outcome l p e) inv =
    let h : Shape (Phase.draining outcome) l = Shape-at l p inv.shape in
    record { balance = inv.balance; shape = (h.0, h.1, e, refl, h.3) }

Cause-signalled : (outcome : Outcome (Unit {0})) (b : Bool) → Cause outcome b → Cause outcome true
Cause-signalled (done u) b h = refl
Cause-signalled (broken error) b h = tt

signalled-Shape : (p : Phase) (l : Listener) → Shape p l → Shape p (record l { signalled = true })
signalled-Shape Phase.accepting l h = h
signalled-Shape (Phase.draining outcome) l h =
    (h.0, h.1, h.2, Cause-signalled outcome l.signalled h.3)
signalled-Shape (Phase.ended outcome) l h =
    (h.0, h.1, h.2, h.3, Cause-signalled outcome l.signalled h.4)

signal-IsSound : (s : SocksService) (l : Listener) → IsSound l → IsSound (signal s l)
unfolding signal
signal-IsSound s l inv =
    if_both IsSound s.shutdown
      (record { balance = inv.balance; shape = signalled-Shape l.phase l inv.shape }) inv

pub Step-IsSound : {l m : Listener} → Step l m → IsSound l → IsSound m
Step-IsSound (Step.select polled l e f) inv = select_round-IsSound polled l e f inv
Step-IsSound (Step.signalled s l) inv = signal-IsSound s l inv
Step-IsSound (Step.internal i) inv = Internal-IsSound i inv

pub Reach-IsSound : {l : Listener} → Reach l → IsSound l
unfolding new_listener
Reach-IsSound Reach.here = record { balance = λ c. refl; shape = (refl, refl, refl) }
Reach-IsSound (Reach.next r st) = Step-IsSound st (Reach-IsSound r)

-- In every reachable state of the accept task each connection has been accepted as often as it stands
-- in the set of tasks and among the joined ones together.
pub connections_conserved :
    {l : Listener}
    → Reach l
    → (c : ℕ) → count c l.accepted ≡ count c (ids l.connections) + count c l.joined
connections_conserved r = (Reach-IsSound r).balance

-- The loop has been left.
abbrev pub IsClosing : Phase → Type 0
IsClosing Phase.accepting = ⊥
IsClosing p = Unit {0}

closed-Shape :
    (p : Phase) (l : Listener)
    → Shape p l
    → IsClosing p
    → (l.listening ≡ false) × (l.aborted ≡ true)
closed-Shape Phase.accepting l h c = absurd c
closed-Shape (Phase.draining outcome) l h c = (h.0, h.1)
closed-Shape (Phase.ended outcome) l h c = (h.0, h.1)

-- In a reachable state after the loop the listener is dropped and the connections' tasks are aborted.
pub closing-closed :
    {l : Listener} → Reach l → IsClosing l.phase → (l.listening ≡ false) × (l.aborted ≡ true)
closing-closed {l} r c = closed-Shape l.phase l (Reach-IsSound r).shape c

pub ended-terminal :
    {l : Listener} {o : Outcome (Unit {0})} → Reach l → l.phase ≡ Phase.ended o → l.terminal ≡ true
ended-terminal {l} r e = (Shape-at l e (Reach-IsSound r).shape).3

terminal-Shape :
    (p : Phase) (l : Listener)
    → Shape p l
    → l.terminal ≡ true
    → (l.listening ≡ false) × (l.connections ≡ [])
terminal-Shape Phase.accepting l h t = cc
terminal-Shape (Phase.draining outcome) l h t = cc
terminal-Shape (Phase.ended outcome) l h t = (h.0, h.2)

-- When the terminal signal has been sent the listener is closed and every connection that was ever
-- accepted has been joined, as often as it was accepted.
pub terminal_all_joined :
    {l : Listener}
    → Reach l
    → l.terminal ≡ true
    → (c : ℕ) → (l.listening ≡ false) × (count c l.accepted ≡ count c l.joined)
terminal_all_joined {l} r t c =
    let (closed, empty) = terminal-Shape l.phase l (Reach-IsSound r).shape t in
    (closed, omega (arith, (Reach-IsSound r).balance c, ap (λ ts. count c (ids ts)) empty))

-- An accept task that ends without an error has been told to shut down, or its owner was dropped.
pub clean_end_was_signalled :
    {l : Listener} → Reach l → l.phase ≡ Phase.ended (done tt) → l.signalled ≡ true
clean_end_was_signalled {l} r e = (Shape-at l e (Reach-IsSound r).shape).4
