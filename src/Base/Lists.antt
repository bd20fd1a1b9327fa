-- ===== src/Base/Lists.antt =====
-- Lists measured by native numbers, occurrences of a number in a list, and stores as functions.
use Prim.Native.Nat.{ℕ, suc, ◌+◌}
use mathlib.Core.Path.{◌≡◌, refl}
use mathlib.Core.Bool.{Bool, true, false, ◌&&◌}
use mathlib.Core.Option.{Option, none, some}
use mathlib.Core.List.{List, [], ◌∷◌, ◌++◌}
use native.Mathlib.Omega.{arith}
use bare_arti.Base.Tests.{◌==◌, if◌then◌else◌}

module _ {ℓ} {A : Type ℓ} where
  abbrev pub length : List A → ℕ
  length [] = 0
  length (x ∷ xs) = suc (length xs)

  pub length-append : (xs ys : List A) → length (xs ++ ys) ≡ length xs + length ys
  length-append [] ys = omega arith
  length-append (x ∷ xs) ys = omega (arith, length-append xs ys)

  abbrev pub is_nil : List A → Bool
  is_nil [] = true
  is_nil (x ∷ xs) = false

  abbrev pub is_none : Option A → Bool
  is_none none = true
  is_none (some a) = false

  abbrev pub all : (A → Bool) → List A → Bool
  all p [] = true
  all p (x ∷ xs) = p x && all p xs

  -- A store of objects, written at one handle.
  abbrev pub update : (ℕ → A) → ℕ → A → ℕ → A
  update f h a j = if h == j then a else f j

  -- Equality of lists from that of the elements.
  unfoldable pub list_eq : (A → A → Bool) → List A → List A → Bool
  list_eq eq [] [] = true
  list_eq eq (x ∷ xs) (y ∷ ys) = eq x y && list_eq eq xs ys
  list_eq eq _ _ = false

  pub list_eq_refl :
      (eq : A → A → Bool) → ((a : A) → eq a a ≡ true) → (xs : List A) → list_eq eq xs xs ≡ true
  unfolding list_eq
  list_eq_refl eq r [] = refl
  list_eq_refl eq r (x ∷ xs) = ground (arith, r x, list_eq_refl eq r xs)

  pub list_eq_sound :
      (eq : A → A → Bool)
      → ((a b : A) → eq a b ≡ true → a ≡ b)
      → (xs ys : List A) → list_eq eq xs ys ≡ true
      → xs ≡ ys
  unfolding list_eq
  list_eq_sound eq s [] [] h = refl
  list_eq_sound eq s (x ∷ xs) (y ∷ ys) h = ground (arith, s x y, list_eq_sound eq s xs ys)
  list_eq_sound eq s [] (y ∷ ys) h = ground arith
  list_eq_sound eq s (x ∷ xs) [] h = ground arith

-- How often `a` stands in the list.
abbrev pub count : ℕ → List ℕ → ℕ
count a [] = 0
count a (x ∷ xs) = (if a == x then 1 else 0) + count a xs

pub count-append : (a : ℕ) (xs ys : List ℕ) → count a (xs ++ ys) ≡ count a xs + count a ys
count-append a [] ys = omega arith
count-append a (x ∷ xs) ys = ground (arith, count-append a xs ys)
