-- ===== src/DataDir/Private.antt =====
-- What a prepared data directory of src/service.rs is known to be.
use Prim.Native.Nat.{bit_and}
use bare_arti.Base.{ℕ, ◌≡◌, ◌↔◌, ◌⊎◌, true, false, arith, Outcome, done, broken}
use bare_arti.Paths.{Bytes, is_absolute}
use bare_arti.Service.Types.{ServiceError, ok, err}
use bare_arti.DataDir.{
  Metadata, FileSystem, validate_data_dir_snapshots, check_snapshot, prepare_data_dir,
}

-- A directory of the user, no link, with no permission for group or others.
pub record IsPrivate (euid : ℕ) (m : Metadata) : Type 0 where
  pub no_link : m.is_symlink ≡ false
  pub dir : m.is_dir ≡ true
  pub closed : bit_and m.mode 0o077 ≡ 0
  pub owned : m.uid ≡ euid

abbrev pub SameFile : Metadata → Metadata → Type 0
SameFile a b = (a.dev ≡ b.dev) × (a.ino ≡ b.ino)

check_snapshot_iff : (euid : ℕ) (m : Metadata) → (check_snapshot euid m ≡ ok tt) ↔ IsPrivate euid m
unfolding check_snapshot
check_snapshot_iff euid m = (λ h. ground arith, λ h. ground arith)

-- The three snapshots are accepted exactly when each is a private directory of the user and all three
-- are the same file.
pub validate_data_dir_snapshots_iff :
    (euid : ℕ) (a b c : Metadata)
    → (validate_data_dir_snapshots euid a b c ≡ ok tt)
      ↔ (IsPrivate euid a × IsPrivate euid b × IsPrivate euid c × SameFile a b × SameFile b c)
unfolding validate_data_dir_snapshots
validate_data_dir_snapshots_iff euid a b c = (λ h. ground arith, λ h. ground arith)

-- The snapshot that a call returned; the other case is not used.
snapshot_of : Outcome Metadata → Metadata
snapshot_of (done m) = m
snapshot_of (broken error) = record {
  is_symlink = true;
  is_dir = false;
  mode = 0;
  uid = 0;
  dev = 0;
  ino = 0;
}

validated_snapshots :
    (euid : ℕ) (a b c : Metadata)
    → validate_data_dir_snapshots euid a b c ≡ ok tt
    → IsPrivate euid a × IsPrivate euid b × IsPrivate euid c × SameFile a b × SameFile b c
validated_snapshots euid a b c = (validate_data_dir_snapshots_iff euid a b c).0

-- A data directory that is prepared was given by an absolute path and is returned by its canonical
-- one; it existed or its permissions have been set; and the snapshots before, at and after the
-- canonical path are of one private directory of the user.
pub prepare_data_dir_ok :
    (euid : ℕ) (fs : FileSystem) (d : Bytes) {p : Bytes}
    → prepare_data_dir euid fs d ≡ ok p
    → (is_absolute d ≡ true)
      × (fs.canonicalize ≡ done p)
      × ((fs.existed ≡ true) ⊎ (fs.set_permissions ≡ done tt))
      × ((a : Metadata) × (b : Metadata) × (c : Metadata) × (fs.first ≡ done a)
          × (fs.canonical_metadata ≡ done b)
          × (fs.final_metadata ≡ done c)
          × IsPrivate euid a
          × IsPrivate euid b
          × IsPrivate euid c
          × SameFile a b
          × SameFile b c)
unfolding prepare_data_dir snapshot_of
prepare_data_dir_ok euid fs d h = (
  ground arith,
  ground arith,
  ground arith,
  (
    snapshot_of fs.first,
    snapshot_of fs.canonical_metadata,
    snapshot_of fs.final_metadata,
    ground arith,
    ground arith,
    ground arith,
    ground arith,
    ground arith,
    ground arith,
    ground arith,
    ground arith,
  ),
)

-- Whatever goes wrong, the error has the configuration code.
pub prepare_data_dir_err :
    (euid : ℕ) (fs : FileSystem) (d : Bytes) {e : ServiceError}
    → prepare_data_dir euid fs d ≡ err e
    → e.code ≡ "ERR_ARTI_CONFIG"
unfolding prepare_data_dir
prepare_data_dir_err euid fs d h = ground arith
