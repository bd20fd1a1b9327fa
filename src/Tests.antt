-- ===== src/Tests.antt =====
-- Examples: the data that they share.
mod Interleaved
mod Calls
mod Production
mod Clients
mod Listener
mod Joint
mod Reaping
use bare_arti.Base.{refl, true, none, [], ◌∷◌}
use bare_arti.Service.Types.{ServiceOptions}
use bare_arti.Service.Dispatch
use bare_arti.Service.World.{with_dependencies}
use bare_arti.Service.System.{System, new_system}
use bare_arti.Service.Requests.{IsDispatching}

abbrev pub options_one : ServiceOptions
options_one = record {
  data_dir = 47 ∷ 97 ∷ [];
  reachable_addresses = none;
  timeout = 1000000000;
  generation = 1;
}

-- A new service.
abbrev pub fresh : System
fresh = new_system 10 none

pub fresh-IsDispatching : IsDispatching fresh.world
unfolding with_dependencies Dispatch.new
fresh-IsDispatching = record {
  dispatcher = record { sent = []; called = []; receiving = true };
  here = refl;
  receives = refl;
}
