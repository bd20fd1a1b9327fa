-- ===== src/Socks/Listener.antt =====
-- `serve_socks_with` and `SocksService` of src/lib.rs: the task that accepts connections, the tasks of
-- the connections, and the handle that its owner has.
--
-- One round of the `select!` is one step. It is `biased`: the shutdown signal is looked at first, and
-- resolves also when its sender is dropped. What `accept` answers, when a connection's task ends and
-- which ended task `join_next` finds belong to the environment. `accepted` and `joined` are the history.
pub mod Steps
pub mod Accounts
pub mod Drain
use bare_arti.Base.{
  ℕ, Bool, true, false, Option, none, some, List, [], ◌∷◌, ◌++◌, String, ◌⋯◌, if◌then◌else◌,
  Outcome, done, broken,
}

-- How a task ended, as `join_next` tells: it returned, or a `JoinError` with its text, which is that of
-- a cancelled task or of one that panicked.
pub data Completed : Type 0 where
  returned : Completed
  failed : (is_cancelled : Bool) → (error : String) → Completed

pub record Task : Type 0 where
  pub id : ℕ
  pub result : Option Completed

-- Where the accept task is: in its loop, joining what is left with the loop's outcome, or at its end.
pub data Phase : Type 0 where
  accepting : Phase
  draining : Outcome (Unit {0}) → Phase
  ended : Outcome (Unit {0}) → Phase

pub record Listener : Type 0 where
  pub phase : Phase
  pub listening : Bool
  pub connections : List Task
  pub aborted : Bool
  -- the shutdown sender has sent or is gone
  pub signalled : Bool
  -- `terminal_tx` has sent
  pub terminal : Bool
  pub accepted : List ℕ
  pub joined : List ℕ

unfoldable pub new_listener : Listener
new_listener = record {
  phase = accepting;
  listening = true;
  connections = [];
  aborted = false;
  signalled = false;
  terminal = false;
  accepted = [];
  joined = [];
}

-- The result of `bind` and `local_addr`; `context` hides the text of the first error.
unfoldable pub serve_socks_with : Outcome (Unit {0}) → Outcome ℕ → Outcome (ℕ × Listener)
unfolding new_listener
serve_socks_with (broken error) address = broken "binding socks listener"
serve_socks_with (done bound) (broken error) = broken error
serve_socks_with (done bound) (done port) = done (port, new_listener)

-- What the branches of the `select!` find, besides the shutdown signal.
pub data Polled : Type 0 where
  nothing : Polled
  accepted : ℕ → Polled
  accept_failed : String → Polled
  completed : (before : List Task) → Task → Completed → (after : List Task) → Polled

-- `break`, then `drop(listener)` and `connections.abort_all()`.
unfoldable pub break_with : Outcome (Unit {0}) → Listener → Listener
break_with outcome l = record l { phase = draining outcome; listening = false; aborted = true }

unfoldable pub spawn_connection : ℕ → Listener → Listener
spawn_connection id l = record l {
  connections = l.connections ++ record { id = id; result = none } ∷ [];
  accepted = id ∷ l.accepted;
}

-- A task leaves the set when it is joined.
unfoldable pub take_out : List Task → Task → List Task → Listener → Listener
take_out before task after l = record l {
  connections = before ++ after;
  joined = task.id ∷ l.joined;
}

abbrev pub task_failed : String → Outcome (Unit {0})
task_failed error = broken ("SOCKS connection task failed: " ⋯ error)

-- A completion in the loop.
unfoldable pub after_join : Completed → Listener → Listener
unfolding break_with
after_join returned l = l
after_join (failed is_cancelled error) l = break_with (task_failed error) l

unfoldable pub on_polled : Polled → Listener → Listener
unfolding spawn_connection break_with after_join take_out
on_polled nothing l = l
on_polled (accepted id) l = spawn_connection id l
on_polled (accept_failed error) l = break_with (broken ("accepting SOCKS connection: " ⋯ error)) l
on_polled (completed before task result after) l = after_join result (take_out before task after l)

-- One round of the loop.
unfoldable pub select_round : Polled → Listener → Listener
unfolding on_polled break_with
select_round polled l = if l.signalled then break_with (done tt) l else on_polled polled l

-- A completion after the loop: the first error is kept, and a cancelled task is none.
unfoldable pub drained : Completed → Outcome (Unit {0}) → Outcome (Unit {0})
drained returned outcome = outcome
drained (failed true error) outcome = outcome
drained (failed false error) (broken first) = broken first
drained (failed false error) (done u) = task_failed error

unfoldable pub drain_round :
    List Task → Task → Completed → List Task → Outcome (Unit {0}) → Listener → Listener
unfolding take_out drained
drain_round before task result after outcome l = record (take_out before task after l) {
  phase = draining (drained result outcome);
}

-- `terminal_tx.send(())`, and the outcome is the task's result.
unfoldable pub end_task : Outcome (Unit {0}) → Listener → Listener
end_task outcome l = record l { phase = ended outcome; terminal = true }

-- The handle; each part is there until it is taken.
pub record SocksService : Type 0 where
  pub port : ℕ
  pub shutdown : Bool
  pub terminal : Bool
  pub accept_task : Bool

unfoldable pub new_service : ℕ → SocksService
new_service port = record { port = port; shutdown = true; terminal = true; accept_task = true }

-- What `terminal` resolves to: the signal, or its sender is gone.
unfoldable pub wait : SocksService → (signal : Bool) → Outcome (Unit {0})
wait s signal =
    if s.terminal
    then (if signal then done tt else broken "SOCKS service task ended without a terminal signal")
    else broken "SOCKS service terminal signal is unavailable"

-- `shutdown` first signals; dropping the handle does the same.
unfoldable pub signal : SocksService → Listener → Listener
signal s l = if s.shutdown then record l { signalled = true } else l

-- A join of the accept task: its result, or the text of a `JoinError`.
abbrev pub join_task : String → Outcome (Outcome (Unit {0})) → Outcome (Unit {0})
join_task context (done result) = result
join_task context (broken error) = broken (context ⋯ error)

-- What `shutdown` returns when the task is joined.
unfoldable pub shutdown : SocksService → Outcome (Outcome (Unit {0})) → Outcome (Unit {0})
shutdown s task =
    if s.accept_task
    then join_task "SOCKS service shutdown failed: " task
    else broken "SOCKS service task is unavailable"

-- `Future::poll`; `none` is `Pending`.
unfoldable pub poll :
    SocksService → Option (Outcome (Outcome (Unit {0}))) → Option (Outcome (Unit {0}))
poll s none = if s.accept_task then none else some (broken "SOCKS service task is unavailable")
poll s (some task) = some (
    if s.accept_task
    then join_task "SOCKS service task failed: " task
    else broken "SOCKS service task is unavailable")
