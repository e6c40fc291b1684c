-- ===== src/Prelude/Text.antt =====
-- `&str` and `String` as their bytes, with the operations of the standard library that the code
-- calls. Every test in the code is on ASCII bytes, where bytes and characters agree.
use Prim.Native.Char.{code}
use Prim.Native.String.{String}
use Prim.Native.Nat.{ℕ}
use mathlib.Core.Path.{◌∙◌, ◌≡◌, refl, sym, ap, ap₂}
use mathlib.Core.Bool.{false≢true, Bool, true, false, ◌&&◌, ◌||◌}
use mathlib.Core.Logic.{◌↔◌, ◌≢◌, inl, inr}
use mathlib.Core.List.{List, [], ◌∷◌, ◌++◌}
use mathlib.Core.Option
use mathlib.Core.Option.{Option, none, some}
use native.Mathlib.Omega.{arith}
use wiremirage.Prelude.Tests.{◌==◌, ==_iff, if◌then◌else◌, Bool-cases, and-eq-true}
use wiremirage.Prelude.Lists.{length, length-append}

abbrev pub Str : Type 0
Str = List ℕ

-- The bytes of an ASCII literal.
abbrev pub codes : String → Str
codes String.[] = []
codes (String.◌∷◌ c s) = code c ∷ codes s

unfoldable pub str_eq : Str → Str → Bool
str_eq [] [] = true
str_eq [] (y ∷ t) = false
str_eq (x ∷ s) [] = false
str_eq (x ∷ s) (y ∷ t) = x == y && str_eq s t

pub str_eq→eq : (s t : Str) → str_eq s t ≡ true → s ≡ t
unfolding str_eq
str_eq→eq [] [] h = refl
str_eq→eq [] (y ∷ t) h = cc
str_eq→eq (x ∷ s) [] h = cc
str_eq→eq (x ∷ s) (y ∷ t) h = ground (arith, str_eq→eq s t)

pub str_eq_refl : (s : Str) → str_eq s s ≡ true
unfolding str_eq
str_eq_refl [] = refl
str_eq_refl (x ∷ s) = ground (arith, str_eq_refl s)

pub str_eq_iff : (s t : Str) → (str_eq s t ≡ true) ↔ (s ≡ t)
str_eq_iff s t = (str_eq→eq s t, λ e. rw e (str_eq_refl t))

pub str_eq_ne : (s t : Str) → s ≢ t → str_eq s t ≡ false
str_eq_ne s t n = ground (arith, str_eq→eq s t)

pub str_eq_comm : (s t : Str) → str_eq s t ≡ str_eq t s
unfolding str_eq
str_eq_comm [] [] = refl
str_eq_comm [] (y ∷ t) = refl
str_eq_comm (x ∷ s) [] = refl
str_eq_comm (x ∷ s) (y ∷ t) = ground (arith, str_eq_comm s t)

-- `HashSet::contains` on the names seen so far.
unfoldable pub mem_str : Str → List Str → Bool
mem_str k [] = false
mem_str k (j ∷ js) = str_eq k j || mem_str k js

-- `str::strip_prefix`.
unfoldable pub strip_prefix : Str → Str → Option Str
strip_prefix [] s = some s
strip_prefix (x ∷ p) [] = none
strip_prefix (x ∷ p) (y ∷ s) = let rest = strip_prefix p s in if x == y then rest else none

unfoldable pub starts_with : Str → Str → Bool
starts_with [] s = true
starts_with (x ∷ p) [] = false
starts_with (x ∷ p) (y ∷ s) = x == y && starts_with p s

-- `str::strip_suffix`.
unfoldable pub strip_suffix : Str → Str → Option Str
strip_suffix p [] = if str_eq p [] then some [] else none
strip_suffix p (y ∷ s) =
    if str_eq p (y ∷ s) then some [] else Option.map (λ t. y ∷ t) (strip_suffix p s)

unfoldable pub ends_with : Str → Str → Bool
ends_with p [] = str_eq p []
ends_with p (y ∷ s) = str_eq p (y ∷ s) || ends_with p s

-- `str::contains` of one byte.
unfoldable pub contains : ℕ → Str → Bool
contains c [] = false
contains c (x ∷ s) = x == c || contains c s

pub strip_prefix-eq-some : (p s : Str) {t : Str} → strip_prefix p s ≡ some t → s ≡ p ++ t
unfolding strip_prefix
strip_prefix-eq-some [] s h = ground arith
strip_prefix-eq-some (x ∷ p) [] h = cc
strip_prefix-eq-some (x ∷ p) (y ∷ s) {t} h = ground (arith, strip_prefix-eq-some p s {t = t})

pub strip_prefix-append : (p t : Str) → strip_prefix p (p ++ t) ≡ some t
unfolding strip_prefix
strip_prefix-append [] t = refl
strip_prefix-append (x ∷ p) t = ground (arith, strip_prefix-append p t)

pub starts_with→append : (p s : Str) → starts_with p s ≡ true → (t : Str) × (s ≡ p ++ t)
unfolding starts_with
starts_with→append [] s h = (s, refl)
starts_with→append (x ∷ p) [] h = cc
starts_with→append (x ∷ p) (y ∷ s) h =
    let (same, more) = and-eq-true (x == y) (starts_with p s) h in
    let (t, e) = starts_with→append p s more in
    (t, ap₂ (λ a b. a ∷ b) (sym ((==_iff x y).0 same)) e)

pub starts_with-append : (p t : Str) → starts_with p (p ++ t) ≡ true
unfolding starts_with
starts_with-append [] t = refl
starts_with-append (x ∷ p) t = ground (arith, starts_with-append p t)

-- Texts that one prefix starts both of are compared by what is left.
pub starts_with_iff : (p s : Str) → (starts_with p s ≡ true) ↔ ((t : Str) × (s ≡ p ++ t))
starts_with_iff p s = (starts_with→append p s, λ e. rw e.1 (starts_with-append p e.0))

pub strip_suffix-eq-some : (p s : Str) {t : Str} → strip_suffix p s ≡ some t → s ≡ t ++ p
unfolding strip_suffix
strip_suffix-eq-some p [] {t} h = ground (arith, str_eq→eq p [])
strip_suffix-eq-some p (y ∷ s) {t} h = elim (Bool-cases (str_eq p (y ∷ s))) [
  | inl same ↦ ground (arith, str_eq→eq p (y ∷ s) same)
  | inr other ↦
      let (u, found, e) = (Option.map-eq-some_iff _ _).0 (rw other at h) in
      rw (← e) (ap (λ r. y ∷ r) (strip_suffix-eq-some p s found))
]

str_eq-longer : (p t : Str) (x : ℕ) → str_eq p (x ∷ t ++ p) ≡ false
str_eq-longer p t x =
    str_eq_ne p (x ∷ t ++ p) λ e. absurd (omega (arith, ap length e, length-append t p))

pub strip_suffix-append : (p t : Str) → strip_suffix p (t ++ p) ≡ some t
unfolding strip_suffix
strip_suffix-append [] [] = rw (str_eq_refl [])
strip_suffix-append (y ∷ p) [] = rw (str_eq_refl (y ∷ p))
strip_suffix-append p (x ∷ t) = rw (str_eq-longer p t x, strip_suffix-append p t)

-- A text that the prefix does not start is none with the prefix.
pub prefix_outside :
    (prefix key j : Str) → starts_with prefix j ≡ false → str_eq (prefix ++ key) j ≡ false
prefix_outside prefix key j h = elim (Bool-cases (str_eq (prefix ++ key) j)) [
  | inl same ↦
      let reached = ap (starts_with prefix) ((str_eq_iff (prefix ++ key) j).0 same) in
      absurd (false≢true (sym h ∙ sym reached ∙ starts_with-append prefix key))
  | inr other ↦ other
]

-- A common prefix does not count.
pub prefix_cancel : (p s t : Str) → str_eq (p ++ s) (p ++ t) ≡ str_eq s t
unfolding str_eq
prefix_cancel [] s t = refl
prefix_cancel (x ∷ p) s t = ground (arith, prefix_cancel p s t)
