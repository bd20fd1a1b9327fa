-- ===== src/Addresses.antt =====
-- The allow-list of relay addresses: `reachable_addresses_from_serialized` and
-- `parse_reachable_address_patterns` of src/lib.rs.
--
-- The parser of one pattern is that of a third-party crate, and a parameter. The source quotes the
-- pattern in the error by its `Debug` form; that text is the parameter `quoted`.
pub mod Serialized
use bare_arti.Base.{
  ℕ, Bool, true, false, ◌||◌, Option, none, some, List, [], ◌∷◌, String, ◌⋯◌, Outcome, done, broken,
  is_nil, if◌then◌else◌,
}
use bare_arti.Paths.{Bytes, split_on}

-- `patterns.iter().any(|pattern| pattern.is_empty())`
unfoldable pub any_empty : List Bytes → Bool
any_empty [] = false
any_empty (p ∷ ps) = is_nil p || any_empty ps

unfoldable pub reachable_addresses_from_serialized : Option Bytes → Outcome (Option (List Bytes))
unfolding any_empty split_on
reachable_addresses_from_serialized none = done none
reachable_addresses_from_serialized (some value) =
    if is_nil value
    then broken "BARE_ARTI_REACHABLE_ADDRESSES must not be empty"
    else let patterns = split_on b',' value in
      if any_empty patterns
      then broken "reachable relay address patterns must not be empty"
      else done (some patterns)

module _ {P : Type 0} (parse : Bytes → Outcome P) (quoted : Bytes → String) where
  -- `.parse::<AddrPortPattern>().with_context(…)`
  unfoldable pub parse_pattern : Bytes → Outcome P → Outcome P
  parse_pattern pattern (done p) = done p
  parse_pattern pattern (broken e) =
      broken ("invalid reachable relay address pattern " ⋯ quoted pattern)

  unfoldable pub cons_outcome : Outcome P → Outcome (List P) → Outcome (List P)
  cons_outcome (broken e) rest = broken e
  cons_outcome (done p) (broken e) = broken e
  cons_outcome (done p) (done ps) = done (p ∷ ps)

  -- `collect` into a `Result`: the first error, or all values.
  unfoldable pub parse_all : List Bytes → Outcome (List P)
  unfolding parse_pattern cons_outcome
  parse_all [] = done []
  parse_all (p ∷ ps) = cons_outcome (parse_pattern p (parse p)) (parse_all ps)

  unfoldable pub parse_reachable_address_patterns : List Bytes → Outcome (List P)
  unfolding parse_all
  parse_reachable_address_patterns patterns =
      if is_nil patterns
      then broken "reachable relay addresses must not be empty"
      else parse_all patterns
