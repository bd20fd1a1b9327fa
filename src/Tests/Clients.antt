-- ===== src/Tests/Clients.antt =====
-- The theorems on what clients send, at concrete inputs.
use bare_arti.Tests.{options_one, fresh, fresh-IsDispatching}
use bare_arti.Base.{
  ◌≡◌, ◌<◌, ◌≤◌, ◌≢◌, refl, true, false, some, [], ◌∷◌, ◌++◌, arith, done, ◌*◌, inl,
}
use bare_arti.Paths.{Bytes, split_on, is_absolute}
use bare_arti.Service.Types.{ServiceOptions, ServiceEvent}
use bare_arti.Service.World.{with_dependencies, World}
use bare_arti.Service.Controller.{u64_max, SpawnOutcome, start_locked, finish_start}
use bare_arti.Socks.{Host, Tor, handle_conn, reply}
use bare_arti.Socks.Utf8.{is_utf8}
use bare_arti.Socks.Dialogue.{conn, encode, handle_conn-encode}
use bare_arti.Addresses.{any_empty, reachable_addresses_from_serialized}
use bare_arti.Addresses.Serialized.{join, from_serialized-join}
use bare_arti.Service.Controller
use bare_arti.Abi.{
  default_requests, ok_status, BareArtiOptions, AbiService, copy_options, start_impl, invoke_once,
  stop_impl,
}
use bare_arti.Abi.Requests.{start_impl-err}
use bare_arti.Abi.Sequence.{AbiReach, AbiStep, pending_refuses_start}
use bare_arti.Service.Dispatch
use bare_arti.Service.Requests.{IsDispatching}
use bare_arti.Abi.StopRequests.{IsAnswered, stop_impl-IsAnswered}
use bare_arti.Abi.Strings.{Shows, invoke_once-Shows}
use bare_arti.Abi.Options.{copy_options_ok}

-- A client that asks for port 443 of `ab`.
abbrev network : Tor
network = record { connect = λ host port. done tt; splice = done tt }

handle_conn-encode_example :
    handle_conn network
      (conn (encode (0 ∷ []) (Host.domain (97 ∷ 98 ∷ [])) 443 ++ (1 ∷ 2 ∷ [])) [] 2 [])
    ≡ (
      conn
          (1 ∷ 2 ∷ [])
          ((0x05 ∷ 0x00 ∷ []) ∷ reply 0x00 ∷ [])
          0
          ((Host.domain (97 ∷ 98 ∷ []), 443) ∷ []),
      done tt,
    )
unfolding is_utf8
handle_conn-encode_example =
    handle_conn-encode network (0 ∷ []) (Host.domain (97 ∷ 98 ∷ [])) 443 (1 ∷ 2 ∷ []) 0
      (omega arith, refl)

from_serialized-join_example :
    reachable_addresses_from_serialized (some (join ((42 ∷ []) ∷ (49 ∷ 50 ∷ []) ∷ [])))
    ≡ done (some ((42 ∷ []) ∷ (49 ∷ 50 ∷ []) ∷ []))
from_serialized-join_example =
    from_serialized-join (42 ∷ []) ((49 ∷ 50 ∷ []) ∷ []) ((refl, refl), ((refl, refl), tt))

abbrev star_one : Bytes
star_one = 42 ∷ b',' ∷ 49 ∷ []

-- Options as C code gives them.
abbrev raw : BareArtiOptions
raw = record {
  data_dir = some (47 ∷ 97 ∷ []);
  reachable_addresses = some star_one;
  timeout_ms = 1000;
  generation = 1;
}

abbrev copied : ServiceOptions
copied = record options_one { reachable_addresses = some ((42 ∷ []) ∷ (49 ∷ []) ∷ []) }

copied_lem : copy_options (some raw) ≡ some copied
unfolding copy_options is_utf8 split_on is_absolute any_empty
copied_lem = refl

copy_options_ok_example :
    (raw.data_dir ≡ some copied.data_dir)
    × (is_utf8 copied.data_dir ≡ true)
    × (is_absolute copied.data_dir ≡ true)
    × (1000 ≤ raw.timeout_ms)
    × (raw.timeout_ms ≤ 1800000)
    × (copied.timeout ≡ raw.timeout_ms * 1000000)
    × (copied.generation ≡ raw.generation)
    × (0 < copied.generation)
    × (copied.generation ≢ u64_max)
copy_options_ok_example = copy_options_ok raw copied_lem

-- A start with a generation that is in use.
abbrev busy : AbiService
busy = record {
  controller = fresh.world;
  requests = record { active_generation = some 1; start_pending = true; stop_pending = false };
  poisoned = false;
}

start_impl-err_example : (start_impl SpawnOutcome.spawned (some raw) (some 7) busy).0 ≡ busy
unfolding start_impl copy_options is_utf8 split_on is_absolute any_empty with_dependencies
start_impl-err_example =
    start_impl-err SpawnOutcome.spawned (some raw) (some 7) busy refl fresh-IsDispatching
      (record { no_start = λ h. cc; no_stop = λ h. refl }) (λ h. cc)

abbrev new_service : World → AbiService
new_service w = record { controller = w; requests = default_requests; poisoned = false }

-- A service on which a start is pending.
abbrev begun : AbiService
begun = (start_impl SpawnOutcome.spawned (some raw) (some 7) (new_service fresh.world)).0

begun-AbiReach : AbiReach begun
unfolding start_impl copy_options is_utf8 split_on is_absolute any_empty Controller.start
    start_locked with_dependencies
begun-AbiReach =
    AbiReach.next (AbiReach.here fresh.world)
      (AbiStep.start SpawnOutcome.spawned (some raw) (some 7) (new_service fresh.world))

pending_refuses_start_example :
    ((start_impl SpawnOutcome.spawned (some raw) (some 8) begun).0 ≡ begun)
    × ((start_impl SpawnOutcome.spawned (some raw) (some 8) begun).1 ≢ ok_status)
unfolding start_impl copy_options is_utf8 split_on is_absolute any_empty Controller.start
    start_locked finish_start with_dependencies default_requests
pending_refuses_start_example =
    pending_refuses_start begun-AbiReach (inl refl) SpawnOutcome.spawned (some raw) (some 8)

-- A stop of the generation that is starting.
begun-IsDispatching : IsDispatching begun.controller
unfolding start_impl copy_options is_utf8 split_on is_absolute any_empty Controller.start
    start_locked finish_start with_dependencies default_requests Dispatch.new
begun-IsDispatching = record {
  dispatcher = record { sent = []; called = []; receiving = true };
  here = refl;
  receives = refl;
}

stop_impl-IsAnswered_example : IsAnswered 1 (some 8) begun (stop_impl 1 (some 8) begun)
unfolding start_impl copy_options is_utf8 split_on is_absolute any_empty Controller.start
    start_locked finish_start with_dependencies default_requests
stop_impl-IsAnswered_example = stop_impl-IsAnswered 1 (some 8) begun refl begun-IsDispatching

-- An event whose message has a NUL byte.
abbrev bad_event : ServiceEvent
bad_event = ServiceEvent.failed 3 "ERR_ARTI_BIND" "in\0use"

invoke_once-Shows_example : Shows (invoke_once bad_event) bad_event
invoke_once-Shows_example = invoke_once-Shows bad_event
