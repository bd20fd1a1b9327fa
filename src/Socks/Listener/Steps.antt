-- ===== src/Socks/Listener/Steps.antt =====
-- The steps of the accept task of src/lib.rs, of its connections and of its owner, and what they reach.
use bare_arti.Base.{◌≡◌, true, none, some, List, [], ◌∷◌, ◌++◌, Outcome}
use bare_arti.Socks.Listener.{
  Completed, Task, Phase, Listener, Polled, SocksService, new_listener, select_round, drain_round,
  end_task, signal,
}

-- A task that `join_next` may find: it has ended.
abbrev pub Finds : Listener → Polled → Type 0
Finds l (Polled.completed before task result after) =
    (l.connections ≡ before ++ task ∷ after) × (task.result ≡ some result)
Finds l polled = Unit {0}

-- A task is cancelled only after `abort_all`.
abbrev pub CanEnd : Listener → Completed → Type 0
CanEnd l (Completed.failed true error) = l.aborted ≡ true
CanEnd l result = Unit {0}

abbrev pub with_result : List Task → Task → Completed → List Task → Listener → Listener
with_result before task result after l = record l {
  connections = before ++ record task { result = some result } ∷ after;
}

-- Of the connections' tasks, and of the accept task after its loop.
pub data Internal : Listener → Listener → Type 0 where
  complete :
      (before : List Task) (task : Task) (result : Completed) (after : List Task) (l : Listener)
      → l.connections ≡ before ++ task ∷ after
      → task.result ≡ none
      → CanEnd l result
      → Internal l (with_result before task result after l)
  drain :
      (before : List Task) (task : Task) (result : Completed) (after : List Task)
      (outcome : Outcome (Unit {0})) (l : Listener)
      → l.phase ≡ Phase.draining outcome
      → l.connections ≡ before ++ task ∷ after
      → task.result ≡ some result
      → Internal l (drain_round before task result after outcome l)
  finish :
      (outcome : Outcome (Unit {0})) (l : Listener)
      → l.phase ≡ Phase.draining outcome
      → l.connections ≡ []
      → Internal l (end_task outcome l)

-- Of the accept task in its loop, and of its owner.
pub data Step : Listener → Listener → Type 0 where
  select :
      (polled : Polled) (l : Listener)
      → l.phase ≡ Phase.accepting
      → Finds l polled
      → Step l (select_round polled l)
  signalled : (s : SocksService) (l : Listener) → Step l (signal s l)
  internal : {l m : Listener} → Internal l m → Step l m

pub data Reach : Listener → Type 0 where
  here : Reach new_listener
  next : {l m : Listener} → Reach l → Step l m → Reach m

-- The steps from one state to another.
pub data Later : Listener → Listener → Type 0 where
  here : {l : Listener} → Later l l
  then : {l m n : Listener} → Later l m → Step m n → Later l n
