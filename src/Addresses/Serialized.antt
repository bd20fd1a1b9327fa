-- ===== src/Addresses/Serialized.antt =====
-- The serialized allow-list of src/lib.rs is read back as it was joined.
use bare_arti.Base.{
  ◌≡◌, refl, Bool, true, false, ◌&&◌, some, List, [], ◌∷◌, ◌++◌, arith, done, is_nil, ◌==◌,
  if◌then◌else◌,
}
use bare_arti.Paths.{Bytes, split_on}
use bare_arti.Addresses.{any_empty, reachable_addresses_from_serialized}

-- A pattern that can be serialized: not empty, without a comma.
abbrev no_comma : Bytes → Bool
no_comma [] = true
no_comma (b ∷ bs) = (if b == b',' then false else true) && no_comma bs

abbrev pub IsPattern : Bytes → Type 0
IsPattern p = (is_nil p ≡ false) × (no_comma p ≡ true)

abbrev pub AllPatterns : List Bytes → Type 0
AllPatterns [] = Unit
AllPatterns (p ∷ ps) = IsPattern p × AllPatterns ps

-- `patterns.join(",")`
abbrev pub join : List Bytes → Bytes
join [] = []
join (p ∷ []) = p
join (p ∷ q ∷ ps) = p ++ (b',' ∷ join (q ∷ ps))

split_on-piece : (p : Bytes) → no_comma p ≡ true → split_on b',' p ≡ p ∷ []
unfolding split_on
split_on-piece [] h = refl
split_on-piece (b ∷ p) h = ground (arith, split_on-piece p)

split_on-append :
    (p rest : Bytes)
    → no_comma p ≡ true
    → split_on b',' (p ++ (b',' ∷ rest)) ≡ p ∷ split_on b',' rest
unfolding split_on
split_on-append [] rest h = refl
split_on-append (b ∷ p) rest h = ground (arith, split_on-append p rest)

split_on-join :
    (p : Bytes) (ps : List Bytes) → AllPatterns (p ∷ ps) → split_on b',' (join (p ∷ ps)) ≡ p ∷ ps
split_on-join p [] h = split_on-piece p h.0.1
split_on-join p (q ∷ ps) h = rw (split_on-append p (join (q ∷ ps)) h.0.1, split_on-join q ps h.1)

any_empty-patterns : (ps : List Bytes) → AllPatterns ps → any_empty ps ≡ false
unfolding any_empty
any_empty-patterns [] h = refl
any_empty-patterns (p ∷ ps) h = ground (arith, any_empty-patterns ps h.1)

append-not_nil : (p q : Bytes) → is_nil p ≡ false → is_nil (p ++ q) ≡ false
append-not_nil [] q h = cc
append-not_nil (b ∷ p) q h = refl

join-not_nil : (p : Bytes) (ps : List Bytes) → is_nil p ≡ false → is_nil (join (p ∷ ps)) ≡ false
join-not_nil p [] h = h
join-not_nil p (q ∷ ps) h = append-not_nil p _ h

-- Patterns that are not empty and hold no comma are read back from their serialized form, whatever
-- their number above zero.
pub from_serialized-join :
    (p : Bytes) (ps : List Bytes)
    → AllPatterns (p ∷ ps)
    → reachable_addresses_from_serialized (some (join (p ∷ ps))) ≡ done (some (p ∷ ps))
unfolding reachable_addresses_from_serialized
from_serialized-join p ps h =
    rw (join-not_nil p ps h.0.0, split_on-join p ps h, any_empty-patterns (p ∷ ps) h)
