-- ===== src/Socks/Utf8.antt =====
-- `String::from_utf8`: is a sequence of bytes well-formed UTF-8.
use bare_arti.Base.{
  ℕ, zero, suc, ◌≡◌, refl, Bool, true, false, ◌&&◌, List, [], ◌∷◌, leb, ◌==◌, if◌then◌else◌,
}

abbrev within : ℕ → ℕ → ℕ → Bool
within lo hi b = leb lo b && leb b hi

-- How many continuation bytes are due, the range of the next one, and whether all is well so far.
record Decoder : Type 0 where
  due : ℕ
  lo : ℕ
  hi : ℕ
  valid : Bool

abbrev expect : ℕ → ℕ → ℕ → Decoder
expect n lo hi = record { due = n; lo = lo; hi = hi; valid = true }

abbrev bad : Decoder
bad = record { due = 0; lo = 0; hi = 0; valid = false }

lead : ℕ → Decoder
lead b =
    if leb b 0x7f
    then expect 0 0 0
    else if within 0xc2 0xdf b
    then expect 1 0x80 0xbf
    else if b == 0xe0
    then expect 2 0xa0 0xbf
    else if b == 0xed
    then expect 2 0x80 0x9f
    else if within 0xe1 0xef b
    then expect 2 0x80 0xbf
    else if b == 0xf0
    then expect 3 0x90 0xbf
    else if within 0xf1 0xf3 b
    then expect 3 0x80 0xbf
    else if b == 0xf4
    then expect 3 0x80 0x8f
    else bad

feed : ℕ → Decoder → ℕ → Decoder
unfolding lead
feed zero d b = lead b
feed (suc n) d b = if within d.lo d.hi b then expect n 0x80 0xbf else bad

utf8_from : Decoder → List ℕ → Bool
unfolding feed
utf8_from d [] = d.valid && d.due == 0
utf8_from d (b ∷ bs) = d.valid && utf8_from (feed d.due d b) bs

unfoldable pub is_utf8 : List ℕ → Bool
unfolding utf8_from
is_utf8 bs = utf8_from (expect 0 0 0) bs

two_bytes_valid : is_utf8 (0x61 ∷ 0xc3 ∷ 0xa9 ∷ []) ≡ true
unfolding is_utf8
two_bytes_valid = refl

surrogate_invalid : is_utf8 (0xed ∷ 0xa0 ∷ 0x80 ∷ []) ≡ false
unfolding is_utf8
surrogate_invalid = refl
