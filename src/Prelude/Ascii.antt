-- ===== src/Prelude/Ascii.antt =====
-- The ASCII case maps of the standard library.
use Prim.Native.Nat.{ℕ, ◌+◌, ◌-◌}
use mathlib.Core.Path.{◌≡◌, refl, ap₂}
use mathlib.Core.Bool.{Bool, true, ◌&&◌, not}
use mathlib.Core.List.{[], ◌∷◌, map}
use native.Mathlib.Omega.{arith}
use wiremirage.Prelude.Tests.{leb, if◌then◌else◌, and-eq-true}
use wiremirage.Prelude.Lists.{all}
use wiremirage.Prelude.Text.{Str, str_eq, str_eq→eq, str_eq_refl}

abbrev pub is_lower : ℕ → Bool
is_lower c = leb b'a' c && leb c b'z'

abbrev pub is_upper : ℕ → Bool
is_upper c = leb b'A' c && leb c b'Z'

abbrev pub is_digit : ℕ → Bool
is_digit c = leb b'0' c && leb c b'9'

-- `to_ascii_uppercase`, `to_ascii_lowercase`
unfoldable pub to_upper : ℕ → ℕ
to_upper c = if is_lower c then c - 32 else c

unfoldable pub to_lower : ℕ → ℕ
to_lower c = if is_upper c then c + 32 else c

-- `eq_ignore_ascii_case`
unfoldable pub eq_ignore_case : Str → Str → Bool
eq_ignore_case s t = str_eq (map to_lower s) (map to_lower t)

to_lower_inj :
    (x y : ℕ) → not (is_lower x) ≡ true → not (is_lower y) ≡ true → to_lower x ≡ to_lower y → x ≡ y
unfolding to_lower
to_lower_inj x y hx hy e = ground arith

map-to_lower_inj :
    (s t : Str)
    → all (λ c. not (is_lower c)) s ≡ true
    → all (λ c. not (is_lower c)) t ≡ true
    → map to_lower s ≡ map to_lower t
    → s ≡ t
map-to_lower_inj [] [] hs ht e = refl
map-to_lower_inj [] (y ∷ t) hs ht e = cc
map-to_lower_inj (x ∷ s) [] hs ht e = cc
map-to_lower_inj (x ∷ s) (y ∷ t) hs ht e =
    let (hx, hs') = and-eq-true (not (is_lower x)) _ hs in
    let (hy, ht') = and-eq-true (not (is_lower y)) _ ht in
    ap₂ (λ a b. a ∷ b) (to_lower_inj x y hx hy (cc)) (map-to_lower_inj s t hs' ht' (cc))

-- Texts with no lower-case letter that differ only in case are equal.
pub eq_ignore_case_same :
    (r s t : Str)
    → all (λ c. not (is_lower c)) r ≡ true
    → all (λ c. not (is_lower c)) s ≡ true
    → eq_ignore_case r t ≡ true
    → eq_ignore_case s t ≡ true
    → r ≡ s
unfolding eq_ignore_case
eq_ignore_case_same r s t hr hs er es = map-to_lower_inj r s hr hs (
    cc (
      str_eq→eq (map to_lower r) (map to_lower t) er,
      str_eq→eq (map to_lower s) (map to_lower t) es,
    ))

lower-upper : (c : ℕ) → to_lower (to_upper c) ≡ to_lower c
unfolding to_lower to_upper
lower-upper c = ground arith

map-lower-upper : (s : Str) → map to_lower (map to_upper s) ≡ map to_lower s
map-lower-upper [] = refl
map-lower-upper (c ∷ s) = ap₂ (λ a b. a ∷ b) (lower-upper c) (map-lower-upper s)

-- A text equals its upper-case form, up to case.
pub eq_ignore_case-upper : (s : Str) → eq_ignore_case s (map to_upper s) ≡ true
unfolding eq_ignore_case
eq_ignore_case-upper s = rw map-lower-upper (str_eq_refl (map to_lower s))
