-- ===== src/Service/Dispatch.antt =====
-- `CompletionDispatcher` of src/service.rs: the channel of completions and the thread that calls
-- them one after the other.
--
-- A `Completion` is a boxed `FnOnce`; it is known here by its identity, a number. The thread's loop
-- ends only when every sender is gone, and a panicking completion does not end it.
use bare_arti.Base.{ℕ, Bool, true, false, Option, none, some, List, [], ◌∷◌, ◌++◌, ◌⋯◌, String}
use bare_arti.Service.Types.{ServiceEvent, Result, ok, err, shutdown_error}

abbrev pub Completion : Type 0
Completion = ℕ

pub record CompletionItem : Type 0 where
  pub completion : Completion
  pub event : ServiceEvent

-- The items sent and not yet received, the calls made, and whether the thread holds the receiver.
pub record CompletionDispatcher : Type 0 where
  pub sent : List CompletionItem
  pub called : List CompletionItem
  pub receiving : Bool

-- `thread::Builder::spawn` of the dispatcher's thread works, or fails with the system's text.
unfoldable pub new : Option String → Result CompletionDispatcher
new none = ok (record { sent = []; called = []; receiving = true })
new (some error) = err (shutdown_error ("could not create completion dispatcher: " ⋯ error))

-- `safe_completion`: the call is made, whether or not it panics.
unfoldable pub safe_completion : CompletionItem → CompletionDispatcher → CompletionDispatcher
safe_completion item d = record d { called = d.called ++ item ∷ [] }

-- One round of the thread: `receiver.recv()` and the call.
unfoldable pub receive : List CompletionItem → CompletionDispatcher → CompletionDispatcher
unfolding safe_completion
receive [] d = d
receive (item ∷ items) d = safe_completion item (record d { sent = items })

unfoldable pub dispatch_round : CompletionDispatcher → CompletionDispatcher
unfolding receive
dispatch_round d = receive d.sent d

-- A send fails exactly when the receiver is gone, and hands the item back.
deliver :
    Bool → CompletionItem → CompletionDispatcher → CompletionDispatcher × Option CompletionItem
deliver true item d = (record d { sent = d.sent ++ item ∷ [] }, none)
deliver false item d = (d, some item)

unfoldable pub send :
    Completion → ServiceEvent → CompletionDispatcher → CompletionDispatcher × Option CompletionItem
unfolding deliver
send completion event d = deliver d.receiving (record { completion = completion; event = event }) d
