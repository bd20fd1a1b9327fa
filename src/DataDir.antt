-- ===== src/DataDir.antt =====
-- `prepare_data_dir` and `validate_data_dir_snapshots` of src/service.rs on Unix: the data directory
-- must be a private directory of the user, and the same one throughout.
--
-- The file system is not modelled: the answers of its calls, in the order of the source, are a
-- parameter, and so is the number that `geteuid` returns.
pub mod Private
use Prim.Native.Nat.{bit_and}
use bare_arti.Base.{
  ℕ, Bool, true, false, not, ◌&&◌, ◌||◌, Option, none, some, List, [], ◌∷◌, String, ◌⋯◌, Outcome,
  done, broken, ◌==◌, if◌then◌else◌,
}
use bare_arti.Paths.{Bytes, is_absolute}
use bare_arti.Service.Types.{ServiceError, Result, ok, err}

pub record Metadata : Type 0 where
  pub is_symlink : Bool
  pub is_dir : Bool
  pub mode : ℕ
  pub uid : ℕ
  pub dev : ℕ
  pub ino : ℕ

-- The answers of the file system.
pub record FileSystem : Type 0 where
  pub existed : Bool
  pub create_dir_all : Outcome (Unit {0})
  pub set_permissions : Outcome (Unit {0})
  pub first : Outcome Metadata
  pub canonicalize : Outcome Bytes
  pub canonical_metadata : Outcome Metadata
  pub final_metadata : Outcome Metadata

abbrev pub config_error : String → ServiceError
config_error text = record { code = "ERR_ARTI_CONFIG"; message = text }

unfoldable pub config_fs_error : String → ServiceError
config_fs_error error = config_error ("could not validate dataDir: " ⋯ error)

infixl 5 ◌>>=◌ ◌>>◌
abbrev pub ◌>>=◌ : {A B : Type 0} → Result A → (A → Result B) → Result B
ok a >>= f = f a
err e >>= f = err e

abbrev pub ◌>>◌ : {B : Type 0} → Result (Unit {0}) → Result B → Result B
m >> k = m >>= λ _. k

-- `.map_err(…)?`
abbrev pub or_error : {A : Type 0} → (String → ServiceError) → Outcome A → Result A
or_error f (done a) = ok a
or_error f (broken error) = err (f error)

abbrev pub refuse_if : Bool → ServiceError → Result (Unit {0})
refuse_if true e = err e
refuse_if false e = ok tt

unfoldable pub set_owner_only_permissions : FileSystem → Result (Unit {0})
unfolding config_fs_error
set_owner_only_permissions fs = or_error config_fs_error fs.set_permissions

unfoldable pub ensure_owner_only_permissions : (euid : ℕ) → Metadata → Result (Unit {0})
ensure_owner_only_permissions euid metadata = do
  refuse_if (not (bit_and metadata.mode 0o077 == 0))
      (config_error "dataDir must not be accessible by group or other users")
  refuse_if (not (metadata.uid == euid)) (config_error "dataDir must be owned by the current user")
  ok tt

unfoldable pub same_file : Metadata → Metadata → Bool
same_file left right = left.dev == right.dev && left.ino == right.ino

-- The body of the loop over the three snapshots.
unfoldable pub check_snapshot : (euid : ℕ) → Metadata → Result (Unit {0})
unfolding ensure_owner_only_permissions
check_snapshot euid metadata = do
  refuse_if (metadata.is_symlink || not metadata.is_dir)
      (config_error "dataDir must be a directory and not a symbolic link")
  ensure_owner_only_permissions euid metadata

check_snapshots : (euid : ℕ) → List Metadata → Result (Unit {0})
unfolding check_snapshot
check_snapshots euid [] = ok tt
check_snapshots euid (metadata ∷ rest) = check_snapshot euid metadata >> check_snapshots euid rest

unfoldable pub validate_data_dir_snapshots :
    (euid : ℕ) (first canonical final_metadata : Metadata) → Result (Unit {0})
unfolding check_snapshots same_file
validate_data_dir_snapshots euid first canonical final_metadata = do
  check_snapshots euid (first ∷ canonical ∷ final_metadata ∷ [])
  refuse_if (not (same_file first canonical) || not (same_file canonical final_metadata))
      (config_error "dataDir changed during native validation")
  ok tt

unfoldable pub prepare_data_dir : (euid : ℕ) → FileSystem → Bytes → Result Bytes
unfolding is_absolute set_owner_only_permissions validate_data_dir_snapshots config_fs_error
prepare_data_dir euid fs data_dir = do
  refuse_if (not (is_absolute data_dir)) (config_error "dataDir must be an absolute path")
  or_error (λ error. config_error ("could not create dataDir: " ⋯ error)) fs.create_dir_all
  if fs.existed then ok tt else set_owner_only_permissions fs
  first ← or_error config_fs_error fs.first
  canonical ← or_error config_fs_error fs.canonicalize
  canonical_metadata ← or_error config_fs_error fs.canonical_metadata
  final_metadata ← or_error config_fs_error fs.final_metadata
  validate_data_dir_snapshots euid first canonical_metadata final_metadata
  ok canonical
