-- ===== src/Pattern/Parsing.antt =====
-- What `Pattern::parse` accepts is well formed.
use wiremirage.Prelude.Text.{
  Str, codes, str_eq, str_eq→eq, mem_str, contains, strip_suffix, strip_suffix-eq-some,
}
use wiremirage.Prelude.Split.{split, join, Lacks, join-split, split-ne-nil, split-All-Lacks}
use wiremirage.Prelude.{
  ℕ, Bool, true, false, not, none, List, [], ◌∷◌, ◌++◌, map, ◌≡◌, ◌≢◌, refl, sym, ap, ap₂, ◌∙◌, inl,
  inr, arith, require-eq-ok, ==_iff, ◌||◌, all, All, ok, ◌>>=◌, bind-eq-ok, Bool-cases,
  Option-cases, ◌==◌, init, is_empty, if◌then◌else◌,
}
use wiremirage.Pattern.{
  Segment, bad_param, invalid_param_name, duplicate_param, literal, param, tail, Pattern, slash,
  root, starts_with_slash, trim_slash, name_byte, split_dots, named_segment, param_segment,
  literal_segment, parse_part, parse_parts, misplaced_tail, check_tail, parse_trimmed, parse,
}
use wiremirage.Pattern.Shape.{text, render, IsName, IsSegment, HasFreshNames, IsWellFormed}

-- What one round of the loop has established of a part and its segment.
record IsParsed (seen : List Str) (part : Str) (s : Segment) (seen' : List Str) : Type 0 where
  valid : IsSegment s
  same_text : text s ≡ part
  fresh : (more : List Segment) → HasFreshNames seen' more → HasFreshNames seen (s ∷ more)

abbrev named : Bool → Str → Segment
named is_tail name = if is_tail then tail name else param name

named-IsParsed :
    (seen : List Str) (name : Str) (is_tail : Bool)
    → IsName name
    → mem_str name seen ≡ false
    → IsParsed seen (text (named is_tail name)) (named is_tail name) (name ∷ seen)
named-IsParsed seen name true n new = record {
  valid = n;
  same_text = refl;
  fresh = λ more f. (new, f);
}
named-IsParsed seen name false n new = record {
  valid = n;
  same_text = refl;
  fresh = λ more f. (new, f);
}

some_bytes : (name : Str) → not (is_empty name) ≡ true → name ≢ []
some_bytes [] h = cc
some_bytes (c ∷ name) h = λ e. cc

not-eq-true : (b : Bool) → not b ≡ true → b ≡ false
not-eq-true b h = ground arith

named_segment-IsParsed :
    (seen : List Str) (name : Str) (is_tail : Bool) (s : Segment) (seen' : List Str)
    → named_segment seen (name, is_tail) ≡ ok (s, seen')
    → IsParsed seen (text (named is_tail name)) s seen'
unfolding named_segment
named_segment-IsParsed seen name is_tail s seen' h =
    let (filled, h₁) = require-eq-ok (not (is_empty name)) bad_param _ h in
    let (good, h₂) = require-eq-ok (all name_byte name) (invalid_param_name name) _ h₁ in
    let (new, h₃) = require-eq-ok (not (mem_str name seen)) (duplicate_param name) _ h₂ in
    let same : named is_tail name ≡ s = cc h₃ in
    let names : ◌≡◌ {A = List Str} (name ∷ seen) seen' = cc h₃ in
    rw (← same, ← names)
      (named-IsParsed seen name is_tail (some_bytes name filled, good)
        (not-eq-true (mem_str name seen) new))

-- The name that `split_dots` finds stands for the text in braces.
split_dots-text :
    (inner : Str)
    → text (named (split_dots inner).1 (split_dots inner).0) ≡ b'{' ∷ inner ++ b'}' ∷ []
unfolding split_dots
split_dots-text inner = elim (Option-cases (strip_suffix (codes "...") inner)) [
  | inl plain ↦ let e : split_dots inner ≡ (inner, false) = rw (plain, split_dots) in rw e
  | inr (name, dotted) ↦
      let e : split_dots inner ≡ (name, true) = rw (dotted, split_dots) in
      rw e (rw (strip_suffix-eq-some (codes "...") inner dotted))
]

param_segment-IsParsed :
    (seen : List Str) (rest : Str) (s : Segment) (seen' : List Str)
    → param_segment seen rest ≡ ok (s, seen')
    → IsParsed seen (b'{' ∷ rest) s seen'
unfolding param_segment
param_segment-IsParsed seen rest s seen' h = elim (Option-cases (strip_suffix (codes "}") rest)) [
  | inl unclosed ↦ absurd (ground arith)
  | inr (inner, closed) ↦ elim (Bool-cases (is_empty inner)) [
    | inl nothing ↦ absurd (ground arith)
    | inr something ↦
        rw (strip_suffix-eq-some (codes "}") rest closed)
          (rw (← split_dots-text inner) (named_segment-IsParsed seen _ _ s seen' (ground arith)))
  ]
]

parse_part-IsParsed :
    (seen : List Str) (part : Str) (s : Segment) (seen' : List Str)
    → Lacks slash part
    → parse_part seen part ≡ ok (s, seen')
    → IsParsed seen part s seen'
unfolding parse_part literal_segment
parse_part-IsParsed seen [] s seen' lacks h = cc
parse_part-IsParsed seen (c ∷ rest) s seen' lacks h = elim (Bool-cases (c == b'{')) [
  | inl brace ↦
      rw ((==_iff c b'{').0 brace) (param_segment-IsParsed seen rest s seen' (ground arith))
  | inr plain ↦ elim (Bool-cases (contains b'{' (c ∷ rest) || contains b'}' (c ∷ rest))) [
    | inl braces ↦ absurd (ground arith)
    | inr clean ↦
        let same : literal (c ∷ rest) ≡ s = ground arith in
        let names : seen ≡ seen' = ground arith in
        rw (← same, ← names)
          (record {
            valid = (λ e. cc e, lacks, ground arith, ground arith);
            same_text = refl;
            fresh = λ more f. f;
          })
  ]
]

record AreParsed (seen : List Str) (parts : List Str) (segments : List Segment) : Type 0 where
  valid : All IsSegment segments
  same_texts : map text segments ≡ parts
  fresh : HasFreshNames seen segments

parse_parts-AreParsed :
    (seen : List Str) (parts : List Str) (segments : List Segment)
    → All (Lacks slash) parts
    → parse_parts seen parts ≡ ok segments
    → AreParsed seen parts segments
unfolding parse_parts
parse_parts-AreParsed seen [] segments lacks h =
    let e : [] ≡ segments = cc h in rw (← e) (record { valid = tt; same_texts = refl; fresh = tt })
parse_parts-AreParsed seen (part ∷ parts) segments (lack, lacks) h =
    let ((s, seen'), h₁, k) = bind-eq-ok (parse_part seen part) _ h in
    let (more, h₂, k₂) = bind-eq-ok (parse_parts seen' parts) _ k in
    let e : s ∷ more ≡ segments = cc k₂ in
    let first = parse_part-IsParsed seen part s seen' lack h₁ in
    let rest = parse_parts-AreParsed seen' parts more lacks h₂ in
    rw (← e) (record {
      valid = (first.valid, rest.valid);
      same_texts = ap₂ (λ a b. a ∷ b) first.same_text rest.same_texts;
      fresh = first.fresh more rest.fresh;
    })

starts_with_slash→cons : (raw : Str) → starts_with_slash raw ≡ true → (s : Str) × (raw ≡ slash ∷ s)
unfolding starts_with_slash
starts_with_slash→cons [] h = cc
starts_with_slash→cons (c ∷ s) h = (s, ap (λ x. x ∷ s) ((==_iff c slash).0 h))

if-cons : (b : Bool) (x : ℕ) (s t : Str) → (r : Str) × ((if b then x ∷ s else x ∷ t) ≡ x ∷ r)
if-cons true x s t = (s, refl)
if-cons false x s t = (t, refl)

-- Cutting the trailing slash leaves the leading one.
pub trim_slash-cons : (s : Str) → (t : Str) × (trim_slash (slash ∷ s) ≡ slash ∷ t)
unfolding trim_slash
trim_slash-cons [] = ([], refl)
trim_slash-cons (c ∷ s) = if-cons _ slash (init (c ∷ s)) (c ∷ s)

check_tail-eq-ok :
    (t : Str) (segments : List Segment) (p : Pattern)
    → check_tail t segments ≡ ok p
    → (misplaced_tail segments ≡ none) × (record { raw = t; segments = segments } ≡ p)
unfolding check_tail
check_tail-eq-ok t segments p h = elim (Option-cases (misplaced_tail segments)) [
  | inl final ↦ (final, ground arith)
  | inr (name, misplaced) ↦ absurd (ground arith)
]

render-join :
    (t : Str) (segments : List Segment)
    → map text segments ≡ split slash t
    → slash ∷ t ≡ render segments
unfolding render
render-join t [] e = absurd (split-ne-nil slash t (sym e))
render-join t (s ∷ segments) e =
    ap (λ r. slash ∷ r) (sym (join-split slash t) ∙ ap (join slash) (sym e))

IsWellFormed-root : IsWellFormed (record { raw = root; segments = [] })
unfolding render misplaced_tail
IsWellFormed-root = record {
  segments_valid = tt;
  tail_final = refl;
  names_fresh = tt;
  raw_renders = refl;
}

parse_trimmed-IsWellFormed :
    (t : Str) (p : Pattern)
    → parse_trimmed (slash ∷ t) ≡ ok p
    → IsWellFormed p × (p.raw ≡ slash ∷ t)
unfolding parse_trimmed
parse_trimmed-IsWellFormed t p h = elim (Bool-cases (str_eq (slash ∷ t) root)) [
  | inl is_root ↦
      let e : ◌≡◌ {A = Pattern} (record { raw = root; segments = [] }) p = ground arith in
      rw (← e, str_eq→eq (slash ∷ t) root is_root) (IsWellFormed-root, refl)
  | inr deeper ↦
      let h' : (parse_parts [] (split slash t) >>= check_tail (slash ∷ t)) ≡ ok p = ground arith in
      let (segments, parsed, checked) = bind-eq-ok (parse_parts [] (split slash t)) _ h' in
      let (final, e) = check_tail-eq-ok (slash ∷ t) segments p checked in
      let all_parsed = parse_parts-AreParsed [] _ segments (split-All-Lacks slash t) parsed in
      rw (← e) (
        record {
          segments_valid = all_parsed.valid;
          tail_final = final;
          names_fresh = all_parsed.fresh;
          raw_renders = render-join t segments all_parsed.same_texts;
        },
        refl,
      )
]

-- A pattern that the parser accepts is well formed, and its `raw` is the input without a trailing
-- slash.
pub parse-IsWellFormed :
    (raw : Str) (p : Pattern) → parse raw ≡ ok p → IsWellFormed p × (p.raw ≡ trim_slash raw)
unfolding parse
parse-IsWellFormed raw p h = elim (Bool-cases (starts_with_slash raw)) [
  | inl slashed ↦
      let (s, cons) = starts_with_slash→cons raw slashed in
      let (t, trimmed) = trim_slash-cons s in
      let e : trim_slash raw ≡ slash ∷ t = ap trim_slash cons ∙ trimmed in
      rw e (parse_trimmed-IsWellFormed t p (ground (arith, e)))
  | inr bare ↦ absurd (ground arith)
]
