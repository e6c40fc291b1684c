-- ===== src/Pattern/Conflicts.antt =====
-- The conflict test says exactly when two patterns of one kind share a path.
use wiremirage.Prelude.Text.{Str, str_eq→eq, str_eq_refl, str_eq_comm}
use wiremirage.Prelude.{
  ◌≤◌, none, some, List, [], ◌∷◌, ◌≡◌, refl, ap, arith, length, init, drop, true, false, Bool-cases,
  Option-cases, inl, inr, sym, ◌∙◌, subst, append-nil, length-drop, if◌then◌else◌, all_zip,
}
use wiremirage.Pattern.{
  Segment, literal, param, tail, Captures, Pattern, trim_slash, misplaced_tail, tail_name,
  match_segment, match_zip, path_parts, match_path, has_tail, segments_compatible, same_shape,
  patterns_conflict,
}
use wiremirage.Pattern.Tails.{no_tail-IsTailFree, tail-split, length-init}
use wiremirage.Pattern.Accepts.{Accepts, Accepts→zip, done-inv, match_zip-cons}
use wiremirage.Pattern.Matching.{match_path_iff}

segments_compatible_comm : (a b : Segment) → segments_compatible a b ≡ segments_compatible b a
unfolding segments_compatible
segments_compatible_comm (literal x) (literal y) = str_eq_comm x y
segments_compatible_comm (literal x) (param y) = refl
segments_compatible_comm (literal x) (tail y) = refl
segments_compatible_comm (param x) (literal y) = refl
segments_compatible_comm (param x) (param y) = refl
segments_compatible_comm (param x) (tail y) = refl
segments_compatible_comm (tail x) (literal y) = refl
segments_compatible_comm (tail x) (param y) = refl
segments_compatible_comm (tail x) (tail y) = refl

all_zip_comm :
    (a b : List Segment) → all_zip segments_compatible a b ≡ all_zip segments_compatible b a
all_zip_comm [] [] = refl
all_zip_comm [] (t ∷ b) = refl
all_zip_comm (s ∷ a) [] = refl
all_zip_comm (s ∷ a) (t ∷ b) = rw (segments_compatible_comm s t, all_zip_comm a b)

-- The conflict test does not depend on the order of the two patterns.
pub patterns_conflict_comm : (a b : Pattern) → patterns_conflict a b ≡ patterns_conflict b a
unfolding patterns_conflict same_shape
patterns_conflict_comm a b =
    ground
      (arith, all_zip_comm a.segments b.segments, all_zip_comm (init a.segments) (init b.segments))

one_compatible :
    (s t : Segment) (p : Str) (c d : Captures)
    → match_segment s p ≡ some c
    → match_segment t p ≡ some d
    → segments_compatible s t ≡ true
unfolding match_segment segments_compatible
one_compatible s t [] c d h k = cc
one_compatible (literal x) (literal y) (o ∷ p) c d h k =
    ground (arith, str_eq→eq x (o ∷ p), str_eq→eq y (o ∷ p), str_eq_refl x)
one_compatible (literal x) (param y) (o ∷ p) c d h k = refl
one_compatible (literal x) (tail y) (o ∷ p) c d h k = cc
one_compatible (param x) (literal y) (o ∷ p) c d h k = refl
one_compatible (param x) (param y) (o ∷ p) c d h k = refl
one_compatible (param x) (tail y) (o ∷ p) c d h k = cc
one_compatible (tail x) t (o ∷ p) c d h k = cc

zips_compatible :
    (a b : List Segment) (parts : List Str) (c d : Captures)
    → length a ≤ length parts
    → match_zip a parts ≡ some c
    → match_zip b parts ≡ some d
    → all_zip segments_compatible a b ≡ true
zips_compatible [] b parts c d n h k = refl
zips_compatible (s ∷ a) [] parts c d n h k = refl
zips_compatible (s ∷ a) (t ∷ b) [] c d n h k = absurd (omega arith)
zips_compatible (s ∷ a) (t ∷ b) (p ∷ parts) c d n h k =
    let (c₁, c₂, h₁, h₂, _) = match_zip-cons s a p parts c h in
    let (d₁, d₂, k₁, k₂, _) = match_zip-cons t b p parts d k in
    let first = one_compatible s t p c₁ d₁ h₁ k₁ in
    let rest = zips_compatible a b parts c₂ d₂ (omega arith) h₂ k₂ in rw (first, rest)

-- The segments before the tail.
abbrev pub prefix : Pattern → List Segment
prefix p = if has_tail p then init p.segments else p.segments

-- What a match says of the loop over the prefix, for both kinds of pattern.
record IsMatched (p : Pattern) (parts : List Str) : Type 0 where
  captures : Captures
  enough : length (prefix p) ≤ length parts
  zipped : match_zip (prefix p) parts ≡ some captures
  exact : has_tail p ≡ false → length parts ≡ length p.segments

no_rest :
    (a : List Segment) (parts : List Str) {c : Captures}
    → length a ≤ length parts
    → Accepts [] (drop (length a) parts) c
    → length parts ≡ length a
no_rest a parts n d = omega (arith, ap length (done-inv d).0, length-drop (length a) parts)

accepted-IsMatched :
    (p : Pattern) (parts : List Str) (cs : Captures)
    → misplaced_tail p.segments ≡ none
    → Accepts p.segments parts cs
    → IsMatched p parts
unfolding has_tail
accepted-IsMatched p parts cs m d = elim (Option-cases (tail_name p.segments)) [
  | inl plain ↦
      let z =
        Accepts→zip p.segments [] (no_tail-IsTailFree p.segments m plain)
          (subst (λ x. Accepts x parts cs) (sym (append-nil p.segments)) d) in
      record {
        captures = z.first;
        enough = rw plain z.enough;
        zipped = rw plain z.zipped;
        exact = λ e. no_rest p.segments parts z.enough z.left;
      }
  | inr (name, tailed) ↦
      let (e, f) = tail-split p.segments name m tailed in
      let z =
        Accepts→zip (init p.segments) (tail name ∷ []) f (subst (λ x. Accepts x parts cs) e d) in
      record {
        captures = z.first;
        enough = rw tailed z.enough;
        zipped = rw tailed z.zipped;
        exact = λ e. ground arith;
      }
]

match_path-IsMatched :
    (p : Pattern) (path : Str) (cs : Captures)
    → misplaced_tail p.segments ≡ none
    → match_path p path ≡ some cs
    → IsMatched p (path_parts (trim_slash path))
match_path-IsMatched p path cs m h =
    accepted-IsMatched p _ cs m ((match_path_iff p path cs m).0 h).1

same_shape-zips :
    (a b : List Segment) (parts : List Str) (c d : Captures)
    → length a ≡ length b
    → length a ≤ length parts
    → match_zip a parts ≡ some c
    → match_zip b parts ≡ some d
    → same_shape a b ≡ true
unfolding same_shape
same_shape-zips a b parts c d e n h k = ground (arith, zips_compatible a b parts c d n h k)

prefix-length :
    (a b : Pattern)
    → has_tail a ≡ true
    → has_tail b ≡ true
    → length a.segments ≡ length b.segments
    → length (init a.segments) ≡ length (init b.segments)
unfolding has_tail
prefix-length a b ha hb e = elim (Option-cases (tail_name a.segments)) [
  | inl n ↦ absurd (ground arith)
  | inr (x, hx) ↦ elim (Option-cases (tail_name b.segments)) [
    | inl n ↦ absurd (ground arith)
    | inr (y, hy) ↦ omega (arith, length-init a.segments x hx, length-init b.segments y hy)
  ]
]

-- Two patterns of one kind that match the same path conflict: two without a tail always, two with
-- a tail if they have the same number of segments.
pub match_path-conflict :
    (a b : Pattern) (path : Str) (c d : Captures)
    → misplaced_tail a.segments ≡ none
    → misplaced_tail b.segments ≡ none
    → has_tail a ≡ has_tail b
    → (has_tail a ≡ true → length a.segments ≡ length b.segments)
    → match_path a path ≡ some c
    → match_path b path ≡ some d
    → patterns_conflict a b ≡ true
unfolding patterns_conflict
match_path-conflict a b path c d ma mb kind len h k =
    let za = match_path-IsMatched a path c ma h in
    let zb = match_path-IsMatched b path d mb k in
    elim (Bool-cases (has_tail a)) [
      | inl tailed ↦
          let tailed_b : has_tail b ≡ true = sym kind ∙ tailed in
          rw (tailed, tailed_b)
            (same_shape-zips _ _ _ _ _ (prefix-length a b tailed tailed_b (len tailed))
              (rw tailed at za.enough) (rw tailed at za.zipped) (rw tailed_b at zb.zipped))
      | inr plain ↦
          let plain_b : has_tail b ≡ false = sym kind ∙ plain in
          rw (plain, plain_b)
            (same_shape-zips _ _ _ _ _ (sym (za.exact plain) ∙ zb.exact plain_b)
              (rw plain at za.enough) (rw plain at za.zipped) (rw plain_b at zb.zipped))
    ]
