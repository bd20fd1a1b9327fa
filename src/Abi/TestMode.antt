-- ===== src/Abi/TestMode.antt =====
-- The test mode of a debug build of addon/src/lib.rs: how it is enabled, the worker that it puts in the
-- place of the production one, and what it changes in `start_impl`.
--
-- A path is searched for ASCII names, so that `to_string_lossy` changes no answer.
use bare_arti.Base.{
  ℕ, ◌≡◌, ◌⊎◌, refl, inl, inr, Bool, true, false, ◌&&◌, ◌||◌, Option, none, some, List, [], ◌∷◌,
  ◌++◌, String, codes, is_nil, ◌==◌, if◌then◌else◌, arith,
}
use bare_arti.Paths.{Bytes}
use bare_arti.Service.Types.{
  ServiceOptions, ServiceError, ServiceEvent, WorkerResult, Result, ok, err,
}
use bare_arti.Service.Dispatch.{Completion}
use bare_arti.Service.Controller.{SupervisorTask, SpawnOutcome}
use bare_arti.Abi.{
  Status, ok_status, invalid, rejected, BareArtiOptions, BareArtiResult, AbiService, copy_options,
  start_copied, start_impl, invoke_once,
}

abbrev starts_with : Bytes → Bytes → Bool
starts_with [] bytes = true
starts_with (p ∷ ps) [] = false
starts_with (p ∷ ps) (b ∷ bs) = p == b && starts_with ps bs

-- `str::contains`
unfoldable pub contains : Bytes → Bytes → Bool
contains part [] = is_nil part
contains part (b ∷ bs) = starts_with part (b ∷ bs) || contains part bs

unfoldable pub names : String → ServiceOptions → Bool
unfolding contains
names part options = contains (codes part) options.data_dir

-- What the test worker does: a wait for the cancellation, a message on the ready channel, a sleep.
pub data TestEvent : Type 0 where
  awaited_cancel : TestEvent
  sent : Result ℕ → TestEvent
  slept : TestEvent

unfoldable pub test_failure : ServiceError
test_failure = record { code = "ERR_ARTI_BOOTSTRAP"; message = "test bootstrap failure" }

-- The closure of `TestWorkerFactory::spawn`.
unfoldable pub test_worker : ServiceOptions → List TestEvent × WorkerResult
unfolding names test_failure
test_worker options =
    if names "delay-start" options
    then (TestEvent.awaited_cancel ∷ [], ok tt)
    else if names "fail-bootstrap" options
    then (TestEvent.sent (err test_failure) ∷ [], err test_failure)
    else (
      (if names "slow-ready" options then TestEvent.slept ∷ [] else [])
          ++ (TestEvent.sent (ok 19050) ∷ TestEvent.awaited_cancel ∷ []),
      ok tt,
    )

-- `TEST_MODE`, whether `SERVICE` is set, and whether its factory is that of the tests.
pub record Mode : Type 0 where
  pub test_mode : Bool
  pub service : Bool
  pub test_factory : Bool

unfoldable pub new_mode : Mode
new_mode = record { test_mode = false; service = false; test_factory = false }

-- `bare_arti_enable_test_mode`
unfoldable pub enable_test_mode : Mode → Mode × Status
enable_test_mode m =
    if m.test_mode
    then (m, ok_status)
    else if m.service
    then (m, rejected)
    else (record m { test_mode = true }, ok_status)

-- `service()` with `worker_factory()`: the first call makes the service.
unfoldable pub get_service : Mode → Mode
get_service m = if m.service then m else record m { service = true; test_factory = m.test_mode }

-- `start_impl` of a debug build.
start_debug_copied :
    Bool
    → SpawnOutcome
    → Option ServiceOptions
    → Completion
    → AbiService
    → AbiService × Status × Option SupervisorTask
unfolding names start_copied
start_debug_copied test_mode answer none c s = (s, invalid, none)
start_debug_copied test_mode answer (some options) c s =
    if test_mode && names "native-rejection" options
    then (s, rejected, none)
    else start_copied answer (some options) c s

unfoldable pub start_debug :
    Bool
    → SpawnOutcome
    → Option BareArtiOptions
    → Option Completion
    → AbiService
    → AbiService × Status × Option SupervisorTask
unfolding start_debug_copied
start_debug test_mode answer options none s = (s, invalid, none)
start_debug test_mode answer options (some callback) s =
    start_debug_copied test_mode answer (copy_options options) callback s

-- The calls of the callback by one completion of `start`.
unfoldable pub start_callbacks : Bool → ServiceOptions → ServiceEvent → List BareArtiResult
unfolding names invoke_once
start_callbacks test_mode options event =
    if test_mode && names "duplicate-completion" options
    then invoke_once event ∷ invoke_once event ∷ []
    else invoke_once event ∷ []

-- With the test mode off a debug build starts as a release does, and calls back once.
pub start_debug-release :
    (answer : SpawnOutcome) (given : Option BareArtiOptions) (callback : Option Completion)
    (s : AbiService) (options : ServiceOptions) (event : ServiceEvent)
    → (start_debug false answer given callback s ≡ start_impl answer given callback s)
      × (start_callbacks false options event ≡ invoke_once event ∷ [])
unfolding start_debug start_debug_copied start_callbacks start_impl
start_debug-release answer given none s options event = (refl, refl)
start_debug-release answer given (some c) s options event = (by_copy (copy_options given), refl)
  where
    by_copy :
        (copied : Option ServiceOptions)
        → start_debug_copied false answer copied c s ≡ start_copied answer copied c s
    by_copy none = refl
    by_copy (some o) = refl

-- The calls that touch the mode, in any order.
pub data Call : Type 0 where
  enable request : Call

abbrev pub run_calls : List Call → Mode → Mode
run_calls [] m = m
run_calls (Call.enable ∷ calls) m = run_calls calls (enable_test_mode m).0
run_calls (Call.request ∷ calls) m = run_calls calls (get_service m)

-- The mode is settled when the service is made.
abbrev IsSettled : Mode → Type 0
IsSettled m = (m.service ≡ false) ⊎ (m.test_factory ≡ m.test_mode)

enable_test_mode-IsSettled : (m : Mode) → IsSettled m → IsSettled (enable_test_mode m).0
unfolding enable_test_mode
enable_test_mode-IsSettled m h = ground arith

get_service-IsSettled : (m : Mode) → IsSettled m → IsSettled (get_service m)
unfolding get_service
get_service-IsSettled m h = ground arith

run_calls-IsSettled : (calls : List Call) (m : Mode) → IsSettled m → IsSettled (run_calls calls m)
run_calls-IsSettled [] m h = h
run_calls-IsSettled (Call.enable ∷ calls) m h =
    run_calls-IsSettled calls (enable_test_mode m).0 (enable_test_mode-IsSettled m h)
run_calls-IsSettled (Call.request ∷ calls) m h =
    run_calls-IsSettled calls (get_service m) (get_service-IsSettled m h)

-- In whatever order the test mode is enabled and requests are made, one after the other, the service
-- that has been made has the test worker exactly if the test mode is on.
pub service_matches_mode :
    (calls : List Call)
    → (run_calls calls new_mode).service ≡ true
    → (run_calls calls new_mode).test_factory ≡ (run_calls calls new_mode).test_mode
unfolding new_mode
service_matches_mode calls made = by_case (run_calls-IsSettled calls new_mode (inl refl)) made
  where
    by_case : {m : Mode} → IsSettled m → m.service ≡ true → m.test_factory ≡ m.test_mode
    by_case (inl e) h = cc
    by_case (inr e) h = e
