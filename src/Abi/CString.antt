-- ===== src/Abi/CString.antt =====
-- `c_string` of addon/src/lib.rs: a text without NUL.
use Prim.Native.Char.{code, Char}
use Prim.Native.String.{String, [], ◌∷◌}
use bare_arti.Base.{◌≡◌, refl, Bool, false, ◌||◌, ◌==◌, if◌then◌else◌, if_split}

-- `CString::new` refuses a text with a NUL; then each NUL is replaced.
unfoldable pub has_nul : String → Bool
has_nul [] = false
has_nul (c ∷ s) = code c == 0 || has_nul s

abbrev replaced : Char → Char
replaced c = if code c == 0 then "�" else c

unfoldable pub replace_nul : String → String
replace_nul [] = []
replace_nul (c ∷ s) = replaced c ∷ replace_nul s

unfoldable pub c_string : String → String
unfolding has_nul replace_nul
c_string value = if has_nul value then replace_nul value else value

replaced-clean : (c : Char) → (code (replaced c) == 0) ≡ false
replaced-clean c = if_split (λ d. (code d == 0) ≡ false) (code c == 0) (λ z. refl) (λ nz. nz)

replace_nul-clean : (s : String) → has_nul (replace_nul s) ≡ false
unfolding has_nul replace_nul
replace_nul-clean [] = refl
replace_nul-clean (c ∷ s) = rw (replaced-clean c, replace_nul-clean s) (refl)

-- A C string has no NUL inside.
pub c_string-clean : (s : String) → has_nul (c_string s) ≡ false
unfolding c_string
c_string-clean s = if_split (λ t. has_nul t ≡ false) (has_nul s) (λ h. replace_nul-clean s) (λ h. h)

-- A text without NUL is passed on unchanged.
pub c_string-same : (s : String) → has_nul s ≡ false → c_string s ≡ s
unfolding c_string
c_string-same s h = rw h (refl)
