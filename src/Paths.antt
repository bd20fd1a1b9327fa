-- ===== src/Paths.antt =====
-- Paths as the sources use them (`std::path::Path` on Unix): bytes, absolute if they begin with a
-- slash, and compared component by component, as `PartialEq` of `PathBuf` does.
use bare_arti.Base.{
  ℕ, ◌≡◌, Bool, true, false, not, ◌&&◌, ◌||◌, List, [], ◌∷◌, arith, ◌==◌, ==_iff, is_nil, list_eq,
  list_eq_refl, list_eq_sound,
}

abbrev pub Bytes : Type 0
Bytes = List ℕ

unfoldable pub bytes_eq : Bytes → Bytes → Bool
bytes_eq = list_eq ◌==◌

pub bytes_eq_refl : (b : Bytes) → bytes_eq b b ≡ true
unfolding bytes_eq
bytes_eq_refl = list_eq_refl ◌==◌ (λ a. ground arith)

pub bytes_eq_sound : (b c : Bytes) → bytes_eq b c ≡ true → b ≡ c
unfolding bytes_eq
bytes_eq_sound = list_eq_sound ◌==◌ (λ a b. (==_iff a b).0)

-- One more byte at the front of the first piece, or a separator.
abbrev pub extend : Bool → ℕ → List Bytes → List Bytes
extend true c pieces = [] ∷ pieces
extend false c [] = (c ∷ []) ∷ []
extend false c (piece ∷ pieces) = (c ∷ piece) ∷ pieces

-- `str::split` at one separator: always at least one piece.
unfoldable pub split_on : ℕ → Bytes → List Bytes
split_on sep [] = [] ∷ []
split_on sep (b ∷ bs) = extend (b == sep) b (split_on sep bs)

unfoldable pub is_absolute : Bytes → Bool
is_absolute [] = false
is_absolute (b ∷ bs) = b == b'/'

abbrev is_dot : Bytes → Bool
is_dot (b ∷ []) = b == b'.'
is_dot _ = false

-- Empty pieces and `.` are no components.
normal_pieces : List Bytes → List Bytes
normal_pieces [] = []
normal_pieces (p ∷ ps) = keep (is_nil p || is_dot p) p (normal_pieces ps)
  where
    keep : Bool → Bytes → List Bytes → List Bytes
    keep true q qs = qs
    keep false q qs = q ∷ qs

-- A leading `.` of a relative path is a component.
relative_pieces : List Bytes → List Bytes
relative_pieces [] = []
relative_pieces (p ∷ ps) = keep_first (is_nil p) p (normal_pieces ps)
  where
    keep_first : Bool → Bytes → List Bytes → List Bytes
    keep_first true q qs = qs
    keep_first false q qs = q ∷ qs

components : Bytes → List Bytes
unfolding normal_pieces relative_pieces split_on is_absolute
components p = elim (is_absolute p) [
  | true ↦ normal_pieces (split_on b'/' p)
  | false ↦ relative_pieces (split_on b'/' p)
]

abbrev same_bool : Bool → Bool → Bool
same_bool true b = b
same_bool false b = not b

unfoldable pub path_eq : Bytes → Bytes → Bool
unfolding components bytes_eq list_eq
path_eq p q =
    same_bool (is_absolute p) (is_absolute q) && list_eq bytes_eq (components p) (components q)

same_bool_refl : (b : Bool) → same_bool b b ≡ true
same_bool_refl b = ground arith

pub path_eq_refl : (p : Bytes) → path_eq p p ≡ true
unfolding path_eq
path_eq_refl p =
    ground
      (arith, same_bool_refl (is_absolute p), list_eq_refl bytes_eq bytes_eq_refl (components p))
