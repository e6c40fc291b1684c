-- ===== src/Filters/Glob.antt =====
-- The glob matching of crates/wm-host/src/api_filters.rs against its specification.
use mathlib.Core.Option.{none-ne-some}
use wiremirage.Prelude.Text.{
  Str, str_eq, str_eq_iff, str_eq_refl, contains, strip_prefix, strip_prefix-eq-some,
  strip_prefix-append, ends_with,
}
use wiremirage.Prelude.Split.{split, grow, split-ne-nil}
use wiremirage.Prelude.{
  ℕ, ◌≤◌, true, false, none, some, List, [], ◌∷◌, ◌++◌, length, drop, append-nil, length-append,
  append_assoc, ◌≡◌, ◌≢◌, ◌==◌, refl, sym, ap, ◌∙◌, subst, arith, ◌↔◌, inl, inr, Option-cases,
  Bool-cases, false≢true,
}
use wiremirage.Filters.{star, find_after, glob_rest, glob_parts, glob_match}

-- The text is the parts in order with any text before each of them, and ends with the last one.
pub data Fills : List Str → Str → Type 0 where
  at_end : (u part : Str) → Fills (part ∷ []) (u ++ part)
  between :
      (u part next : Str) (parts : List Str) (t : Str)
      → Fills (next ∷ parts) t
      → Fills (part ∷ next ∷ parts) (u ++ (part ++ t))

-- The text starts with the first part; only stars stand between the parts.
pub data IsGlob : List Str → Str → Type 0 where
  whole : (part : Str) → IsGlob (part ∷ []) part
  starred :
      (part next : Str) (parts : List Str) (t : Str)
      → Fills (next ∷ parts) t
      → IsGlob (part ∷ next ∷ parts) (part ++ t)

extend :
    (w : Str) (part : Str) (parts : List Str) (t : Str)
    → Fills (part ∷ parts) t
    → Fills (part ∷ parts) (w ++ t)
extend w part parts _ (at_end u _) =
    subst (Fills (part ∷ [])) (append_assoc w u part) (at_end (w ++ u) part)
extend w part parts _ (between u _ next more t f) =
    subst (Fills (part ∷ next ∷ more)) (append_assoc w u (part ++ t))
      (between (w ++ u) part next more t f)

find_after_sound :
    (part s r : Str) → find_after part s ≡ some r → (u : Str) × (s ≡ u ++ (part ++ r))
unfolding find_after
find_after_sound part [] r h = ([], strip_prefix-eq-some part [] h)
find_after_sound part (y ∷ s) r h = elim (Option-cases (strip_prefix part (y ∷ s))) [
  | inl later ↦
      let (u, e) = find_after_sound part s r (rw (later, find_after) at h) in
      (y ∷ u, ap (λ x. y ∷ x) e)
  | inr (q, here) ↦ ([], strip_prefix-eq-some part (y ∷ s) (here ∙ (rw (here, find_after) at h)))
]

-- Of two texts that end one text, the shorter one ends the longer one.
suffix : (a r b t : Str) → a ++ r ≡ b ++ t → length t ≤ length r → (w : Str) × (r ≡ w ++ t)
suffix [] r b t e h = (b, e)
suffix (x ∷ a) r [] t e h = absurd (omega (arith, ap length e, length-append a r))
suffix (x ∷ a) r (y ∷ b) t e h = suffix a r b t (ap (drop 1) e) h

at_once : (part s u t q : Str) → s ≡ part ++ q → s ≡ u ++ (part ++ t) → (w : Str) × (q ≡ w ++ t)
at_once part s u t q d e = suffix part q (u ++ part) t (sym d ∙ e ∙ sym (append_assoc u part t)) (
    omega (
      arith,
      ap length d,
      ap length e,
      length-append part q,
      length-append u (part ++ t),
      length-append part t,
    ))

moved :
    (part : Str) (y : ℕ) (s u t : Str)
    → strip_prefix part (y ∷ s) ≡ none
    → y ∷ s ≡ u ++ (part ++ t)
    → ((v : Str)
        → s ≡ v ++ (part ++ t)
        → (r : Str) × (find_after part s ≡ some r) × ((w : Str) × (r ≡ w ++ t)))
    → (r : Str) × (find_after part s ≡ some r) × ((w : Str) × (r ≡ w ++ t))
moved part y s [] t later e ih =
    absurd (none-ne-some t (sym later ∙ ap (strip_prefix part) e ∙ strip_prefix-append part t))
moved part y s (x ∷ u) t later e ih = ih u (ap (drop 1) e)

find_after_complete :
    (part s u t : Str)
    → s ≡ u ++ (part ++ t)
    → (r : Str) × (find_after part s ≡ some r) × ((w : Str) × (r ≡ w ++ t))
unfolding find_after
find_after_complete part [] [] t e =
    let found : strip_prefix part [] ≡ some t =
      ap (strip_prefix part) e ∙ strip_prefix-append part t in
    (t, found, ([], refl))
find_after_complete part [] (x ∷ u) t e = cc e
find_after_complete part (y ∷ s) u t e = elim (Option-cases (strip_prefix part (y ∷ s))) [
  | inr (q, here) ↦ (
    q,
    rw (here, find_after) refl,
    at_once part (y ∷ s) u t q (strip_prefix-eq-some part (y ∷ s) here) e,
  )
  | inl later ↦
      rw (later, find_after) (moved part y s u t later e (λ v. find_after_complete part s v t))
]

ends_with_sound : (part s : Str) → ends_with part s ≡ true → (u : Str) × (s ≡ u ++ part)
unfolding ends_with
ends_with_sound part [] h = ([], sym ((str_eq_iff part []).0 h))
ends_with_sound part (y ∷ s) h = elim (Bool-cases (str_eq part (y ∷ s))) [
  | inl same ↦ ([], sym ((str_eq_iff part (y ∷ s)).0 same))
  | inr other ↦ let (u, e) = ends_with_sound part s (ground arith) in (y ∷ u, ap (λ x. y ∷ x) e)
]

ends_with_self : (part : Str) → ends_with part part ≡ true
unfolding ends_with
ends_with_self [] = str_eq_refl []
ends_with_self (y ∷ part) = rw (str_eq_refl (y ∷ part)) refl

ends_with-append : (u part : Str) → ends_with part (u ++ part) ≡ true
unfolding ends_with
ends_with-append [] part = ends_with_self part
ends_with-append (y ∷ u) part = ground (arith, ends_with-append u part)

glob_rest_sound :
    (part : Str) (parts : List Str) (s : Str)
    → glob_rest (part ∷ parts) s ≡ true
    → Fills (part ∷ parts) s
unfolding glob_rest
glob_rest_sound [] [] s h = subst (Fills ([] ∷ [])) (append-nil s) (at_end s [])
glob_rest_sound (x ∷ p) [] s h =
    let (u, e) = ends_with_sound (x ∷ p) s h in
    subst (Fills ((x ∷ p) ∷ [])) (sym e) (at_end u (x ∷ p))
glob_rest_sound [] (next ∷ parts) s h = between [] [] next parts s (glob_rest_sound next parts s h)
glob_rest_sound (x ∷ p) (next ∷ parts) s h = elim (Option-cases (find_after (x ∷ p) s)) [
  | inl missing ↦ absurd (false≢true (rw (missing, glob_rest) at h))
  | inr (r, found) ↦
      let (u, e) = find_after_sound (x ∷ p) s r found in
      subst (Fills ((x ∷ p) ∷ next ∷ parts)) (sym e)
        (between u (x ∷ p) next parts r (glob_rest_sound next parts r (rw (found, glob_rest) at h)))
]

glob_rest_complete :
    (part : Str) (parts : List Str) (s : Str)
    → Fills (part ∷ parts) s
    → glob_rest (part ∷ parts) s ≡ true
unfolding glob_rest
glob_rest_complete [] [] s f = refl
glob_rest_complete (x ∷ p) [] _ (at_end u _) = ends_with-append u (x ∷ p)
glob_rest_complete [] (next ∷ parts) _ (between u _ _ _ t f) =
    glob_rest_complete next parts (u ++ t) (extend u next parts t f)
glob_rest_complete (x ∷ p) (next ∷ parts) _ (between u _ _ _ t f) =
    let (r, found, (w, e)) = find_after_complete (x ∷ p) (u ++ ((x ∷ p) ++ t)) u t refl in
    rw (found, glob_rest)
      (glob_rest_complete next parts r
        (subst (Fills (next ∷ parts)) (sym e) (extend w next parts t f)))

nonempty : (l : List Str) → l ≢ [] → (a : Str) × (ps : List Str) × (l ≡ a ∷ ps)
nonempty [] n = absurd (n refl)
nonempty (a ∷ ps) n = (a, ps, refl)

split-cons : (c : ℕ) (s : Str) → (a : Str) × (ps : List Str) × (split c s ≡ a ∷ ps)
split-cons c s = nonempty (split c s) (split-ne-nil c s)

split-starred :
    (c : ℕ) (s : Str)
    → contains c s ≡ true
    → (a : Str) × (b : Str) × (ps : List Str) × (split c s ≡ a ∷ b ∷ ps)
unfolding contains split
split-starred c [] h = cc h
split-starred c (x ∷ s) h = elim (Bool-cases (x == c)) [
  | inl here ↦ let (b, ps, e) = split-cons c s in ([], b, ps, rw here (ap (λ l. [] ∷ l) e))
  | inr later ↦
      let (a, b, ps, e) = split-starred c s (ground arith) in
      (x ∷ a, b, ps, rw later (ap (grow x) e))
]

split-plain : (c : ℕ) (s : Str) → contains c s ≡ false → split c s ≡ s ∷ []
unfolding contains split
split-plain c [] h = refl
split-plain c (x ∷ s) h = elim (Bool-cases (x == c)) [
  | inl here ↦ absurd (ground arith)
  | inr later ↦ rw later (ap (grow x) (split-plain c s (ground arith)))
]

glob_parts_sound :
    (a b : Str) (ps : List Str) (t : Str) → glob_parts (a ∷ b ∷ ps) t ≡ true → IsGlob (a ∷ b ∷ ps) t
unfolding glob_parts
glob_parts_sound a b ps t h = elim (Option-cases (strip_prefix a t)) [
  | inl missing ↦ absurd (false≢true (rw (missing, glob_parts) at h))
  | inr (r, found) ↦
      subst (IsGlob (a ∷ b ∷ ps)) (sym (strip_prefix-eq-some a t found))
        (starred a b ps r (glob_rest_sound b ps r (rw (found, glob_parts) at h)))
]

glob_parts_complete :
    (a b : Str) (ps : List Str) (t : Str) → IsGlob (a ∷ b ∷ ps) t → glob_parts (a ∷ b ∷ ps) t ≡ true
unfolding glob_parts
glob_parts_complete a b ps _ (starred _ _ _ r f) =
    rw (strip_prefix-append a r, glob_parts) (glob_rest_complete b ps r f)

plain-same : (p t : Str) → IsGlob (p ∷ []) t → str_eq p t ≡ true
plain-same p _ (whole _) = str_eq_refl p

-- A text matches a pattern exactly when it is the pattern's pieces between stars, in order, with any
-- text in place of each star.
pub glob_match_iff :
    (pattern target : Str) → (glob_match pattern target ≡ true) ↔ IsGlob (split star pattern) target
unfolding glob_match
glob_match_iff pattern target = elim (Bool-cases (contains star pattern)) [
  | inl stars ↦
      let (a, b, ps, e) = split-starred star pattern stars in
      rw (stars, e) (glob_parts_sound a b ps target, glob_parts_complete a b ps target)
  | inr plain ↦
      rw (plain, split-plain star pattern plain)
        (
          (λ h. subst (IsGlob (pattern ∷ [])) ((str_eq_iff pattern target).0 h) (whole pattern)),
          plain-same pattern target,
        )
]
