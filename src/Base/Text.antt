-- ===== src/Base/Text.antt =====
-- Text as the source formats it: concatenation, and decimal numbers.
use Prim.Native.Nat.{ℕ, zero, suc, ◌/◌, ◌%◌}
use Prim.Native.String
use Prim.Native.String.{String, [], ◌∷◌}
use Prim.Native.Char.{code}
use mathlib.Core.Path.{◌≡◌, refl}
use mathlib.Core.List.{List}
use mathlib.Core.Bool.{Bool}
use bare_arti.Base.Tests.{ltb, if◌then◌else◌}
use text.Mathlib.Text.{◌==◌}

infixr 66 ◌⋯◌
abbrev pub ◌⋯◌ : String → String → String
s ⋯ t = String.◌++◌ s t

abbrev pub text_eq : String → String → Bool
text_eq s t = s == t

-- The code points of a text: its bytes, if it is ASCII.
abbrev pub codes : String → List ℕ
codes [] = List.[]
codes (c ∷ s) = List.◌∷◌ (code c) (codes s)

digit : ℕ → String
digit zero = "0"
digit (suc zero) = "1"
digit (suc (suc zero)) = "2"
digit (suc (suc (suc zero))) = "3"
digit (suc (suc (suc (suc zero)))) = "4"
digit (suc (suc (suc (suc (suc zero))))) = "5"
digit (suc (suc (suc (suc (suc (suc zero)))))) = "6"
digit (suc (suc (suc (suc (suc (suc (suc zero))))))) = "7"
digit (suc (suc (suc (suc (suc (suc (suc (suc zero)))))))) = "8"
digit _ = "9"

-- The decimal digits of a number below ten to the fuel.
decimal : ℕ → ℕ → String
decimal zero n = ""
decimal (suc f) n =
    let rest = decimal f (n / 10) ⋯ digit (n % 10) in if ltb n 10 then digit n else rest

-- `{}` of an integer. Twenty digits hold every `u64`, and forty every `u128`.
unfoldable pub display : ℕ → String
unfolding decimal digit
display n = decimal 40 n

display_example : display 18446744073709551615 ≡ "18446744073709551615"
unfolding display
display_example = refl
