-- ===== src/Prelude/Utf8.antt =====
-- `String::from_utf8` and `str::from_utf8`: which sequences of bytes are texts.
use wiremirage.Prelude.Text.{Str}
use wiremirage.Prelude.{
  ℕ, ◌<◌, Bool, true, false, ◌&&◌, Option, none, some, List, [], ◌∷◌, ltb, leb, ◌==◌, if◌then◌else◌,
  All, ◌≡◌, refl, arith, Result, ok, err,
}

abbrev continuation : ℕ × ℕ
continuation = (128, 191)

-- The ranges of the bytes that follow a first byte.
unfoldable pub following : ℕ → Option (List (ℕ × ℕ))
following c =
    if ltb c 128
    then some []
    else if ltb c 194
    then none
    else if ltb c 224
    then some (continuation ∷ [])
    else if c == 224
    then some ((160, 191) ∷ continuation ∷ [])
    else if c == 237
    then some ((128, 159) ∷ continuation ∷ [])
    else if ltb c 240
    then some (continuation ∷ continuation ∷ [])
    else if c == 240
    then some ((144, 191) ∷ continuation ∷ continuation ∷ [])
    else if ltb c 244
    then some (continuation ∷ continuation ∷ continuation ∷ [])
    else if c == 244
    then some ((128, 143) ∷ continuation ∷ continuation ∷ [])
    else none

unfoldable pub utf8_from : List (ℕ × ℕ) → Str → Bool
utf8_from [] [] = true
utf8_from (range ∷ ranges) [] = false
utf8_from ((low, high) ∷ ranges) (c ∷ s) = leb low c && leb c high && utf8_from ranges s
utf8_from [] (c ∷ s) = elim (following c) [ none ↦ false | some ranges ↦ utf8_from ranges s ]

unfoldable pub is_utf8 : Str → Bool
is_utf8 = utf8_from []

-- What is only ASCII is a text.
pub is_utf8-ascii : (s : Str) → All (λ c. c < 128) s → is_utf8 s ≡ true
unfolding is_utf8 utf8_from following
is_utf8-ascii [] h = refl
is_utf8-ascii (c ∷ s) (small, h) = ground (arith, is_utf8-ascii s h)

-- `String::from_utf8`, with the error that the code makes of its own.
unfoldable pub from_utf8 : {E : Type 0} → Str → E → Result E Str
from_utf8 bytes e = if is_utf8 bytes then ok bytes else err e
