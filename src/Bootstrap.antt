-- ===== src/Bootstrap.antt =====
-- `bootstrap`, `bootstrap_in` and `bootstrap_in_with_reachable_addresses` of src/lib.rs.
--
-- The configuration's builder, its patterns' parser and the Tor client are third-party code, and
-- parameters, as are the environment's variables and what the file system answers. An error's text is
-- what its `Display` prints: the outermost context. Choosing the cryptography provider is left out.
pub mod Reachable
use bare_arti.Base.{
  Bool, true, false, Option, none, some, List, [], ◌∷◌, ◌++◌, String, ◌⋯◌, ℕ, display, Outcome,
  done, broken,
}
use bare_arti.Paths.{Bytes}
use bare_arti.Addresses.{reachable_addresses_from_serialized, parse_reachable_address_patterns}

infixl 5 ◌>>=◌
abbrev pub ◌>>=◌ : {A B : Type 0} → Outcome A → (A → Outcome B) → Outcome B
done a >>= f = f a
broken e >>= f = broken e

-- `.context(…)`: the text of an error is replaced.
abbrev pub context : {A : Type 0} → String → Outcome A → Outcome A
context text (done a) = done a
context text (broken e) = broken text

-- The libraries: `P` are parsed patterns, `G` configurations, `C` clients.
pub record Arti (P G C : Type 0) : Type 0 where
  pub create_dir_all : Bytes → Outcome (Unit {0})
  pub parse : Bytes → Outcome P
  pub quoted : Bytes → String
  pub build : (state_dir cache_dir : Bytes) → Option (List P) → Outcome G
  pub create_bootstrapped : G → Outcome C

-- `{data_dir}/state` and `{data_dir}/cache`.
abbrev pub state_dir : Bytes → Bytes
state_dir dir = dir ++ (b'/' ∷ b's' ∷ b't' ∷ b'a' ∷ b't' ∷ b'e' ∷ [])

abbrev pub cache_dir : Bytes → Bytes
cache_dir dir = dir ++ (b'/' ∷ b'c' ∷ b'a' ∷ b'c' ∷ b'h' ∷ b'e' ∷ [])

-- `std::env::var`.
pub data Variable : Type 0 where
  present : Bytes → Variable
  not_present not_unicode : Variable

module _ {P G C : Type 0} (arti : Arti P G C) where
  -- The patterns, where there are any.
  unfoldable pub parse_given : Option (List Bytes) → Outcome (Option (List P))
  unfolding parse_reachable_address_patterns
  parse_given none = done none
  parse_given (some patterns) =
      parse_reachable_address_patterns arti.parse arti.quoted patterns >>= λ ps. done (some ps)

  unfoldable pub bootstrap_in_with_reachable_addresses : Bytes → Option (List Bytes) → Outcome C
  unfolding parse_given
  bootstrap_in_with_reachable_addresses data_dir reachable_addresses = do
    created ← context "creating Arti data directory" (arti.create_dir_all data_dir)
    patterns ← parse_given reachable_addresses
    config ←
        context "building tor config"
          (arti.build (state_dir data_dir) (cache_dir data_dir) patterns)
    context "bootstrapping embedded tor client" (arti.create_bootstrapped config)

  unfoldable pub bootstrap_in : Bytes → Outcome C
  unfolding bootstrap_in_with_reachable_addresses
  bootstrap_in data_dir = bootstrap_in_with_reachable_addresses data_dir none

  -- The variable `BARE_ARTI_DATA`, or the directory below the temporary one.
  abbrev data_dir_of : Variable → Bytes → Bytes
  data_dir_of (Variable.present dir) default = dir
  data_dir_of _ default = default

  abbrev serialized : Variable → Outcome (Option Bytes)
  serialized (Variable.present value) = done (some value)
  serialized Variable.not_present = done none
  serialized Variable.not_unicode = broken "BARE_ARTI_REACHABLE_ADDRESSES must contain valid UTF-8"

  unfoldable pub bootstrap : (data_dir addresses : Variable) → (default : Bytes) → Outcome C
  unfolding bootstrap_in_with_reachable_addresses reachable_addresses_from_serialized
  bootstrap data_dir addresses default = do
    value ← serialized addresses
    reachable_addresses ← reachable_addresses_from_serialized value
    bootstrap_in_with_reachable_addresses (data_dir_of data_dir default) reachable_addresses
