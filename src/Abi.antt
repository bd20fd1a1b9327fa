-- ===== src/Abi.antt =====
-- The C interface of addon/src/lib.rs: `copy_options`, and `start_impl` and `stop_impl` over the
-- process-wide service, as they are in a release build (no test mode).
--
-- A C string is its bytes without the final NUL, a null pointer is `none`. A callback with its context
-- is known by its identity, the completion's. `catch_unwind` at the entry points is left out: nothing
-- in the model panics.
pub mod Options
pub mod Requests
pub mod Sequence
pub mod CString
pub mod Strings
pub mod StopRequests
pub mod Joint
pub mod TestMode
use Prim.Native.Nat.{ℕ}
use bare_arti.Base.{
  ◌*◌, ◌<◌, Bool, true, false, not, ◌&&◌, ◌||◌, Option, none, some, List, [], ◌∷◌, String, is_nil,
  is_none, ltb, leb, ◌==◌, text_eq, if◌then◌else◌,
}
use bare_arti.Paths.{Bytes, split_on, is_absolute}
use bare_arti.Socks.Utf8.{is_utf8}
use bare_arti.Addresses.{any_empty}
use bare_arti.Abi.CString.{c_string}
use bare_arti.Service.Types.{
  ServiceOptions, ServiceError, ServiceEvent, Result, ok, err, shutdown_code,
}
use bare_arti.Service.Dispatch.{Completion}
use bare_arti.Service.World.{World}
use bare_arti.Service.Controller
use bare_arti.Service.Controller.{SupervisorTask, SpawnOutcome, u64_max}

pub data Status : Type 0 where
  ok_status invalid rejected shutdown : Status

-- `BARE_ARTI_STATUS_OK` and the others.
abbrev pub status_code : Status → ℕ
status_code ok_status = 0
status_code invalid = 1
status_code rejected = 2
status_code shutdown = 3

abbrev pub min_timeout_ms : ℕ
min_timeout_ms = 1000

abbrev pub max_timeout_ms : ℕ
max_timeout_ms = 1800000

pub record BareArtiOptions : Type 0 where
  pub data_dir : Option Bytes
  pub reachable_addresses : Option Bytes
  pub timeout_ms : ℕ
  pub generation : ℕ

-- `CStr::to_str`
unfoldable pub to_str : Bytes → Option Bytes
to_str bytes = if is_utf8 bytes then some bytes else none

infixl 5 ◌>>=◌
abbrev ◌>>=◌ : {A B : Type 0} → Option A → (A → Option B) → Option B
none >>= f = none
some a >>= f = f a

abbrev refuse_if : Bool → Option (Unit {0})
refuse_if true = none
refuse_if false = some tt

-- The addresses after they are known to be text.
unfoldable pub copy_addresses : Bytes → Option (Option (List Bytes))
copy_addresses text =
    if is_nil text
    then some none
    else let patterns = split_on b',' text in
      if any_empty patterns then none else some (some patterns)

unfoldable pub in_range : BareArtiOptions → Bool
in_range options =
    leb min_timeout_ms options.timeout_ms
    && (leb options.timeout_ms max_timeout_ms
        && (not (options.generation == 0) && not (options.generation == u64_max)))

-- `copy_options`; `none` is its `Err(())`.
unfoldable pub copy_options : Option BareArtiOptions → Option ServiceOptions
unfolding to_str copy_addresses in_range
copy_options given = do
  options ← given
  dir ← options.data_dir
  reachable ← options.reachable_addresses
  u ← refuse_if (not (in_range options))
  data_dir ← to_str dir
  v ← refuse_if (not (is_absolute data_dir))
  text ← to_str reachable
  addresses ← copy_addresses text
  some (record {
    data_dir = data_dir;
    reachable_addresses = addresses;
    timeout = options.timeout_ms * 1000000;
    generation = options.generation;
  })

pub record RequestState : Type 0 where
  pub active_generation : Option ℕ
  pub start_pending : Bool
  pub stop_pending : Bool

unfoldable pub default_requests : RequestState
default_requests = record { active_generation = none; start_pending = false; stop_pending = false }

-- `AbiService`, with the poison of its own mutex.
pub record AbiService : Type 0 where
  pub controller : World
  pub requests : RequestState
  pub poisoned : Bool

unfoldable pub status_for : ServiceError → Status
status_for error = if text_eq error.code shutdown_code then shutdown else rejected

abbrev pub is_active : Option ℕ → ℕ → Bool
is_active none generation = false
is_active (some g) generation = g == generation

-- What the closure given to `controller.start` does to the requests when it is called.
unfoldable pub start_completed : ServiceEvent → RequestState → RequestState
start_completed (ServiceEvent.failed g code message) state =
    if state.stop_pending
    then record state { start_pending = false }
    else record state { start_pending = false; active_generation = none }
start_completed event state = record state { start_pending = false }

-- The same for `controller.stop`.
unfoldable pub stop_completed : ℕ → RequestState → RequestState
unfolding default_requests
stop_completed generation state =
    if is_active state.active_generation generation then default_requests else state

-- After `controller.start`.
unfoldable pub start_status : ℕ → Bool → RequestState → Result (Unit {0}) → RequestState × Status
unfolding status_for
start_status generation poisoned state (ok u) = (state, ok_status)
start_status generation poisoned state (err error) = (
  if not poisoned && is_active state.active_generation generation
      then record state { active_generation = none; start_pending = false }
      else state,
  status_for error,
)

-- From the lock of the requests on.
unfoldable pub start_accepted :
    SpawnOutcome
    → ServiceOptions
    → Completion
    → AbiService
    → AbiService × Status × Option SupervisorTask
unfolding start_status
start_accepted answer options c s =
    if s.poisoned
    then (s, shutdown, none)
    else if not (is_none s.requests.active_generation)
    then (s, rejected, none)
    else let (world, result, task) = Controller.start answer options c s.controller in
      let (requests, status) =
        start_status options.generation s.poisoned
          (record s.requests { active_generation = some options.generation; start_pending = true })
          result in
      (record { controller = world; requests = requests; poisoned = s.poisoned }, status, task)

unfoldable pub start_copied :
    SpawnOutcome
    → Option ServiceOptions
    → Completion
    → AbiService
    → AbiService × Status × Option SupervisorTask
unfolding start_accepted
start_copied answer none c s = (s, invalid, none)
start_copied answer (some options) c s = start_accepted answer options c s

-- `start_impl`; the callback is null where it is `none`.
unfoldable pub start_impl :
    SpawnOutcome
    → Option BareArtiOptions
    → Option Completion
    → AbiService
    → AbiService × Status × Option SupervisorTask
unfolding start_copied
start_impl answer options none s = (s, invalid, none)
start_impl answer options (some callback) s = start_copied answer (copy_options options) callback s

-- After `controller.stop`.
unfoldable pub stop_status : Bool → RequestState → Result (Unit {0}) → RequestState × Status
unfolding status_for
stop_status poisoned state (ok u) = (state, ok_status)
stop_status poisoned state (err error) =
    (if poisoned then state else record state { stop_pending = false }, status_for error)

unfoldable pub stop_accepted : ℕ → Completion → AbiService → AbiService × Status
unfolding stop_status
stop_accepted generation c s =
    if s.poisoned
    then (s, shutdown)
    else if not (is_active s.requests.active_generation generation) || s.requests.stop_pending
    then (s, rejected)
    else let (world, result) = Controller.stop generation c s.controller in
      let (requests, status) =
        stop_status s.poisoned (record s.requests { stop_pending = true }) result in
      (record { controller = world; requests = requests; poisoned = s.poisoned }, status)

unfoldable pub stop_impl : ℕ → Option Completion → AbiService → AbiService × Status
unfolding stop_accepted
stop_impl generation none s = (s, invalid)
stop_impl generation (some callback) s =
    if generation == 0 || generation == u64_max
    then (s, invalid)
    else stop_accepted generation callback s

-- What a callback is given; a null pointer is `none`.
pub record BareArtiResult : Type 0 where
  pub generation : ℕ
  pub port : ℕ
  pub error_code : Option String
  pub error_message : Option String

unfoldable pub invoke_once : ServiceEvent → BareArtiResult
unfolding c_string
invoke_once (ServiceEvent.running g port) = record {
  generation = g;
  port = port;
  error_code = none;
  error_message = none;
}
invoke_once (ServiceEvent.stopped g) = record {
  generation = g;
  port = 0;
  error_code = none;
  error_message = none;
}
invoke_once (ServiceEvent.failed g code message) = record {
  generation = g;
  port = 0;
  error_code = some (c_string code);
  error_message = some (c_string message);
}

-- `bare_arti_start` and `bare_arti_stop`: the status, or that of a panic where there was one.
unfoldable pub caught : Option Status → Status
caught (some status) = status
caught none = shutdown
