-- ===== src/Tests/Production.antt =====
-- The theorems on the worker and the data directory, at concrete inputs.
use bare_arti.Tests.{options_one}
use bare_arti.Base.{ℕ, ◌≡◌, ◌≢◌, refl, true, false, [], ◌∷◌, done, ◌⊎◌, ◌↔◌}
use bare_arti.Service.Types.{ok}
use bare_arti.Paths.{is_absolute}
use bare_arti.DataDir.{Metadata, FileSystem, validate_data_dir_snapshots, prepare_data_dir}
use bare_arti.DataDir.Private.{
  IsPrivate, SameFile, validate_data_dir_snapshots_iff, prepare_data_dir_ok,
}
use bare_arti.Worker.{Race, ManagedSocksService, Environment, run_production_worker, run_service}
use bare_arti.Worker.Protocol.{
  IsOrderly, IsServed, run_production_worker-IsOrderly, run_production_worker_ok,
}

-- A worker whose service is cancelled and shut down.
abbrev home : Metadata
home = record { is_symlink = false; is_dir = true; mode = 0o40700; uid = 501; dev = 1; ino = 2 }

abbrev disk : FileSystem
disk = record {
  existed = false;
  create_dir_all = done tt;
  set_permissions = done tt;
  first = done home;
  canonicalize = done (47 ∷ 98 ∷ []);
  canonical_metadata = done home;
  final_metadata = done home;
}

abbrev socks_service : ManagedSocksService
socks_service = record { port = 9050; wait = Race.cancelled; shutdown = ok tt }

abbrev environment : Environment ℕ
environment = record {
  runtime = done tt;
  euid = 501;
  file_system = disk;
  bootstrap = λ dir addresses. Race.finished (ok 3);
  bind_and_serve = λ client. Race.finished (ok socks_service);
  ready_open = true;
}

run_production_worker-IsOrderly_example : IsOrderly (run_production_worker environment options_one)
run_production_worker-IsOrderly_example = run_production_worker-IsOrderly environment options_one

run_production_worker_ok_example :
    (client : ℕ) × (s : ManagedSocksService) × IsServed environment options_one client s
    × (run_production_worker environment options_one ≡ run_service true s)
    × (s.port ≢ 0)
    × (s.shutdown ≡ ok tt)
    × ((true ≡ false) ⊎ (s.wait ≡ Race.cancelled))
unfolding run_production_worker prepare_data_dir
run_production_worker_ok_example = run_production_worker_ok environment options_one refl

validate_data_dir_snapshots_iff_example :
    (validate_data_dir_snapshots 501 home home home ≡ ok tt) ↔ (
      IsPrivate 501 home
      × IsPrivate 501 home
      × IsPrivate 501 home
      × SameFile home home
      × SameFile home home)
validate_data_dir_snapshots_iff_example = validate_data_dir_snapshots_iff 501 home home home

prepare_data_dir_ok_example :
    (is_absolute (47 ∷ 97 ∷ []) ≡ true)
    × (disk.canonicalize ≡ done (47 ∷ 98 ∷ []))
    × ((disk.existed ≡ true) ⊎ (disk.set_permissions ≡ done tt))
    × ((a : Metadata) × (b : Metadata) × (c : Metadata) × (disk.first ≡ done a)
        × (disk.canonical_metadata ≡ done b)
        × (disk.final_metadata ≡ done c)
        × IsPrivate 501 a
        × IsPrivate 501 b
        × IsPrivate 501 c
        × SameFile a b
        × SameFile b c)
unfolding prepare_data_dir
prepare_data_dir_ok_example = prepare_data_dir_ok 501 disk (47 ∷ 97 ∷ []) refl
