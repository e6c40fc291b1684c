-- ===== src/Pattern/Ambiguity.antt =====
-- Every conflict that is reported is real: some path matches both patterns.
use wiremirage.Prelude.Text.{Str, codes, str_eq, str_eq→eq}
use wiremirage.Prelude.Split.{join}
use wiremirage.Prelude.{
  none, some, List, [], ◌∷◌, ◌++◌, ◌≡◌, refl, arith, length, init, true, Option-cases, inl, inr,
  sym, subst, append-nil, All, all_zip, and-eq-true, ==_iff, ◌==◌,
}
use wiremirage.Pattern.{
  Segment, literal, param, tail, Captures, Pattern, slash, root, starts_with_slash, trim_slash,
  misplaced_tail, tail_name, path_parts, match_path, has_tail, segments_compatible, same_shape,
  patterns_conflict,
}
use wiremirage.Pattern.Shape.{IsSegment, IsWellFormed}
use wiremirage.Pattern.Tails.{IsTailFree, no_tail-IsTailFree, tail-split}
use wiremirage.Pattern.Accepts.{Accepts, done, same, capture, rest, Accepts→zip, zip→Accepts}
use wiremirage.Pattern.Matching.{match_path_iff}
use wiremirage.Pattern.Printing.{IsPart, join-parts}

-- Parts that both lists of segments accept.
common : List Segment → List Segment → List Str
common (literal x ∷ a) (t ∷ b) = x ∷ common a b
common (s ∷ a) (literal y ∷ b) = y ∷ common a b
common (s ∷ a) (t ∷ b) = codes "x" ∷ common a b
common _ _ = []

x-IsPart : IsPart (codes "x")
x-IsPart = ((λ e. cc e), (omega arith))

literal-IsPart : (x : Str) → IsSegment (literal x) → IsPart x
literal-IsPart x v = (v.0, v.1)

record IsShared (a b : List Segment) (parts : List Str) : Type 0 where
  left : Captures
  right : Captures
  accepts_left : Accepts a parts left
  accepts_right : Accepts b parts right
  good : All IsPart parts

common-IsShared :
    (a b : List Segment)
    → length a ≡ length b
    → IsTailFree a
    → IsTailFree b
    → All IsSegment a
    → All IsSegment b
    → all_zip segments_compatible a b ≡ true
    → IsShared a b (common a b)
unfolding common segments_compatible
common-IsShared [] [] n fa fb va vb h = record {
  left = [];
  right = [];
  accepts_left = done;
  accepts_right = done;
  good = tt;
}
common-IsShared [] (t ∷ b) n fa fb va vb h = absurd (omega arith)
common-IsShared (s ∷ a) [] n fa fb va vb h = absurd (omega arith)
common-IsShared (literal x ∷ a) (literal y ∷ b) n fa fb (v, va) (w, vb) h =
    let (e, h') = and-eq-true (str_eq x y) _ h in
    let r = common-IsShared a b (omega arith) fa fb va vb h' in
    let part = literal-IsPart x v in
    record {
      left = r.left;
      right = r.right;
      accepts_left = same part.0 refl r.accepts_left;
      accepts_right = same part.0 (sym (str_eq→eq x y e)) r.accepts_right;
      good = (part, r.good);
    }
common-IsShared (literal x ∷ a) (param m ∷ b) n fa fb (v, va) (w, vb) h =
    let r = common-IsShared a b (omega arith) fa fb va vb h in
    let part = literal-IsPart x v in
    record {
      left = r.left;
      right = (m, x) ∷ r.right;
      accepts_left = same part.0 refl r.accepts_left;
      accepts_right = capture part.0 r.accepts_right;
      good = (part, r.good);
    }
common-IsShared (param m ∷ a) (literal y ∷ b) n fa fb (v, va) (w, vb) h =
    let r = common-IsShared a b (omega arith) fa fb va vb h in
    let part = literal-IsPart y w in
    record {
      left = (m, y) ∷ r.left;
      right = r.right;
      accepts_left = capture part.0 r.accepts_left;
      accepts_right = same part.0 refl r.accepts_right;
      good = (part, r.good);
    }
common-IsShared (param m ∷ a) (param k ∷ b) n fa fb (v, va) (w, vb) h =
    let r = common-IsShared a b (omega arith) fa fb va vb h in
    record {
      left = (m, codes "x") ∷ r.left;
      right = (k, codes "x") ∷ r.right;
      accepts_left = capture x-IsPart.0 r.accepts_left;
      accepts_right = capture x-IsPart.0 r.accepts_right;
      good = (x-IsPart, r.good);
    }
common-IsShared (literal x ∷ a) (tail m ∷ b) n fa fb va vb h = absurd fb
common-IsShared (param x ∷ a) (tail m ∷ b) n fa fb va vb h = absurd fb
common-IsShared (tail x ∷ a) (t ∷ b) n fa fb va vb h = absurd fa

-- The path of a list of parts.
path_of : List Str → Str
path_of [] = root
path_of (p ∷ ps) = slash ∷ join slash (p ∷ ps)

path_of-parts :
    (parts : List Str)
    → All IsPart parts
    → (starts_with_slash (path_of parts) ≡ true) × (path_parts (trim_slash (path_of parts)) ≡ parts)
unfolding path_of path_parts starts_with_slash
path_of-parts [] h = (refl, unfold trim_slash str_eq in refl)
path_of-parts (p ∷ ps) h =
    let (kept, deeper, pieces) = join-parts p ps h in (refl, rw (kept, deeper, pieces))

with_tail :
    (a : List Segment) (name : Str) (parts : List Str) (c : Captures)
    → IsTailFree a
    → Accepts a parts c
    → (d : Captures) × Accepts (a ++ tail name ∷ []) parts d
with_tail a name parts c f d =
    let z = Accepts→zip a [] f (subst (λ x. Accepts x parts c) (sym (append-nil a)) d) in
    (_, zip→Accepts a (tail name ∷ []) parts z.first _ f z.enough z.zipped (rest name _))

All-left {ℓ κ} : {A : Type ℓ} (P : A → Type κ) (xs ys : List A) → All P (xs ++ ys) → All P xs
All-left P [] ys h = tt
All-left P (x ∷ xs) ys (p, h) = (p, All-left P xs ys h)

accepted-match :
    (p : Pattern) (parts : List Str) (c : Captures)
    → misplaced_tail p.segments ≡ none
    → All IsPart parts
    → Accepts p.segments parts c
    → match_path p (path_of parts) ≡ some c
accepted-match p parts c m h d =
    let (slashed, e) = path_of-parts parts h in
    (match_path_iff p (path_of parts) c m).1 (slashed, rw e d)

-- A path that both patterns match, with the captures of each.
abbrev pub SharePath : Pattern → Pattern → Type 0
SharePath a b =
    (path : Str) × (c : Captures) × (d : Captures) × (match_path a path ≡ some c)
    × (match_path b path ≡ some d)

same_shape-IsShared :
    (a b : List Segment)
    → IsTailFree a
    → IsTailFree b
    → All IsSegment a
    → All IsSegment b
    → same_shape a b ≡ true
    → IsShared a b (common a b)
unfolding same_shape
same_shape-IsShared a b fa fb va vb h =
    let (n, compatible) = and-eq-true (length a == length b) _ h in
    common-IsShared a b ((==_iff _ _).0 n) fa fb va vb compatible

plain-SharePath :
    (a b : Pattern)
    → IsWellFormed a
    → IsWellFormed b
    → tail_name a.segments ≡ none
    → tail_name b.segments ≡ none
    → same_shape a.segments b.segments ≡ true
    → SharePath a b
plain-SharePath a b wa wb na nb h =
    let s =
      same_shape-IsShared a.segments b.segments (no_tail-IsTailFree _ wa.tail_final na)
        (no_tail-IsTailFree _ wb.tail_final nb) wa.segments_valid wb.segments_valid h in
    (
      path_of (common a.segments b.segments),
      s.left,
      s.right,
      accepted-match a _ _ wa.tail_final s.good s.accepts_left,
      accepted-match b _ _ wb.tail_final s.good s.accepts_right,
    )

-- The prefix of a well-formed pattern with a tail, and what the pattern accepts through it.
record IsTailed (p : Pattern) (name : Str) : Type 0 where
  valid : All IsSegment (init p.segments)
  tail_free : IsTailFree (init p.segments)
  through :
      (parts : List Str) (c : Captures)
      → Accepts (init p.segments) parts c
      → (d : Captures) × Accepts p.segments parts d

split_final :
    (p : Pattern) (name : Str) → IsWellFormed p → tail_name p.segments ≡ some name → IsTailed p name
split_final p name w h =
    let (e, f) = tail-split p.segments name w.tail_final h in
    record {
      valid = All-left IsSegment (init p.segments) _ (subst (All IsSegment) e w.segments_valid);
      tail_free = f;
      through = λ parts c d.
          let (r, k) = with_tail (init p.segments) name parts c f d in
          (r, subst (λ x. Accepts x parts r) (sym e) k);
    }

tailed-SharePath :
    (a b : Pattern) (x y : Str)
    → IsWellFormed a
    → IsWellFormed b
    → tail_name a.segments ≡ some x
    → tail_name b.segments ≡ some y
    → same_shape (init a.segments) (init b.segments) ≡ true
    → SharePath a b
tailed-SharePath a b x y wa wb ha hb h =
    let ta = split_final a x wa ha in
    let tb = split_final b y wb hb in
    let s =
      same_shape-IsShared (init a.segments) (init b.segments) ta.tail_free tb.tail_free ta.valid
        tb.valid h in
    let (c, accepts_a) = ta.through _ s.left s.accepts_left in
    let (d, accepts_b) = tb.through _ s.right s.accepts_right in
    (
      path_of (common (init a.segments) (init b.segments)),
      c,
      d,
      accepted-match a _ c wa.tail_final s.good accepts_a,
      accepted-match b _ d wb.tail_final s.good accepts_b,
    )

-- Two well-formed patterns that conflict both match some path.
pub conflict-SharePath :
    (a b : Pattern) → IsWellFormed a → IsWellFormed b → patterns_conflict a b ≡ true → SharePath a b
unfolding patterns_conflict has_tail
conflict-SharePath a b wa wb h = elim (Option-cases (tail_name a.segments)) [
  | inl na ↦ elim (Option-cases (tail_name b.segments)) [
    | inl nb ↦ plain-SharePath a b wa wb na nb (ground arith)
    | inr (y, hb) ↦ absurd (ground arith)
  ]
  | inr (x, ha) ↦ elim (Option-cases (tail_name b.segments)) [
    | inl nb ↦ absurd (ground arith)
    | inr (y, hb) ↦ tailed-SharePath a b x y wa wb ha hb (ground arith)
  ]
]
