-- ===== src/Abi/Options.antt =====
-- What the options of addon/src/lib.rs are known to be after `copy_options`.
use bare_arti.Base.{◌*◌, ◌<◌, ◌≤◌, ◌≡◌, ◌≢◌, ◌⊎◌, true, false, none, some, is_nil, arith}
use bare_arti.Paths.{Bytes, split_on, is_absolute}
use bare_arti.Socks.Utf8.{is_utf8}
use bare_arti.Addresses.{any_empty}
use bare_arti.Service.Types.{ServiceOptions}
use bare_arti.Service.Controller.{u64_max}
use bare_arti.Abi.{BareArtiOptions, copy_options}

-- Options that are copied have a path that is not null and is UTF-8 text; their timeout lies
-- between one second and thirty minutes and is kept in nanoseconds, their generation is kept and is
-- neither 0 nor the largest `u64`, and their path is kept and absolute.
pub copy_options_ok :
    (raw : BareArtiOptions) {o : ServiceOptions}
    → copy_options (some raw) ≡ some o
    → (raw.data_dir ≡ some o.data_dir)
      × (is_utf8 o.data_dir ≡ true)
      × (is_absolute o.data_dir ≡ true)
      × (1000 ≤ raw.timeout_ms)
      × (raw.timeout_ms ≤ 1800000)
      × (o.timeout ≡ raw.timeout_ms * 1000000)
      × (o.generation ≡ raw.generation)
      × (0 < o.generation)
      × (o.generation ≢ u64_max)
unfolding copy_options
copy_options_ok raw h = ground arith

-- The addresses of options that are copied are none where the text is empty, and else the pieces of a
-- UTF-8 text at the commas, none of them empty.
pub copy_options_addresses :
    (raw : BareArtiOptions) {o : ServiceOptions} (text : Bytes)
    → raw.reachable_addresses ≡ some text
    → copy_options (some raw) ≡ some o
    → ((is_nil text ≡ true) × (o.reachable_addresses ≡ none))
      ⊎ ((o.reachable_addresses ≡ some (split_on b',' text))
          × (any_empty (split_on b',' text) ≡ false)
          × (is_utf8 text ≡ true))
unfolding copy_options
copy_options_addresses raw text e h = ground arith
