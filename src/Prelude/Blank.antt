-- ===== src/Prelude/Blank.antt =====
-- `s.trim().is_empty()`: the white space of Unicode, as UTF-8.
use mathlib.Core.List.{reverse}
use wiremirage.Prelude.Text.{Str}
use wiremirage.Prelude.{
  List, ◌++◌, ℕ, Bool, true, false, ◌&&◌, ◌||◌, [], ◌∷◌, leb, ◌==◌, if◌then◌else◌,
}

abbrev space : ℕ → Bool
space c = (leb 9 c && leb c 13) || c == 32

-- U+0085 and U+00A0
abbrev space_of_two : ℕ → ℕ → Bool
space_of_two c d = c == 194 && (d == 133 || d == 160)

-- U+1680, U+2000 to U+200A, U+2028, U+2029, U+202F, U+205F and U+3000
abbrev space_of_three : ℕ → ℕ → ℕ → Bool
space_of_three c d e =
    (c == 225 && d == 154 && e == 128)
    || (c == 226 && d == 128 && ((leb 128 e && leb e 138) || e == 168 || e == 169 || e == 175))
    || (c == 226 && d == 129 && e == 159)
    || (c == 227 && d == 128 && e == 128)

unfoldable pub is_blank : Str → Bool
is_blank [] = true
is_blank (c ∷ []) = space c
is_blank (c ∷ d ∷ []) = (space c && space d) || space_of_two c d
is_blank (c ∷ d ∷ e ∷ s) =
    let from_second = is_blank (d ∷ e ∷ s) in
    let from_third = is_blank (e ∷ s) in
    let from_fourth = is_blank s in
    if space c
    then from_second
    else if space_of_two c d
    then from_third
    else if space_of_three c d e
    then from_fourth
    else false

-- The text after its leading white space, for the white space of one byte, of two and of three.
unfoldable pub drop_space : (ℕ → ℕ → Bool) → (ℕ → ℕ → ℕ → Bool) → Str → Str
drop_space two three [] = []
drop_space two three (c ∷ []) = if space c then [] else c ∷ []
drop_space two three (c ∷ d ∷ []) =
    let from_second = drop_space two three (d ∷ []) in
    if space c then from_second else if two c d then [] else c ∷ d ∷ []
drop_space two three (c ∷ d ∷ e ∷ s) =
    let from_second = drop_space two three (d ∷ e ∷ s) in
    let from_third = drop_space two three (e ∷ s) in
    let from_fourth = drop_space two three s in
    if space c
    then from_second
    else if two c d
    then from_third
    else if three c d e
    then from_fourth
    else c ∷ d ∷ e ∷ s

-- `str::trim`; from the end, the bytes come in the other order.
unfoldable pub trim : Str → Str
trim s = reverse (
    drop_space (λ d c. space_of_two c d) (λ e d c. space_of_three c d e)
      (reverse (drop_space space_of_two space_of_three s)))

-- one more piece, unless it is empty
abbrev pub with_piece : Str → List Str → List Str
with_piece [] pieces = pieces
with_piece (c ∷ piece) pieces = (c ∷ piece) ∷ pieces

-- The pieces between white space, of which the first begins with the given one.
unfoldable pub pieces_from : Str → Str → List Str
pieces_from piece [] = with_piece piece []
pieces_from piece (c ∷ []) = with_piece (if space c then piece else piece ++ c ∷ []) []
pieces_from piece (c ∷ d ∷ []) =
    let ended = with_piece piece (pieces_from [] (d ∷ [])) in
    let longer = pieces_from (piece ++ c ∷ []) (d ∷ []) in
    if space c then ended else if space_of_two c d then with_piece piece [] else longer
pieces_from piece (c ∷ d ∷ e ∷ s) =
    let ended = with_piece piece (pieces_from [] (d ∷ e ∷ s)) in
    let ended_by_two = with_piece piece (pieces_from [] (e ∷ s)) in
    let ended_by_three = with_piece piece (pieces_from [] s) in
    let longer = pieces_from (piece ++ c ∷ []) (d ∷ e ∷ s) in
    if space c
    then ended
    else if space_of_two c d
    then ended_by_two
    else if space_of_three c d e
    then ended_by_three
    else longer

-- `str::split_whitespace`
unfoldable pub split_whitespace : Str → List Str
split_whitespace s = pieces_from [] s
