-- ===== src/Pattern/Printing.antt =====
-- The normal form of a pattern parses back to the same pattern.
use wiremirage.Prelude.Text.{
  Str, codes, str_eq, str_eq_ne, mem_str, contains, strip_suffix, strip_suffix-eq-some,
  strip_suffix-append, ends_with,
}
use wiremirage.Prelude.Split.{split, join, Lacks, split-join}
use wiremirage.Prelude.{
  ℕ, Bool, true, false, none, List, [], ◌∷◌, ◌++◌, map, ◌≡◌, ◌≢◌, refl, sym, ap, false≢true, ◌∙◌,
  inl, inr, arith, all, All, ok, Option-cases, is_empty, and-eq-true, All-append, All-imp, All-map,
}
use wiremirage.Pattern.{
  Segment, literal, param, tail, Pattern, slash, root, starts_with_slash, trim_slash, name_byte,
  split_dots, named_segment, param_segment, literal_segment, parse_part, parse_parts,
  misplaced_tail, check_tail, parse_trimmed, parse,
}
use wiremirage.Pattern.Shape.{text, render, IsName, IsSegment, HasFreshNames, IsWellFormed}

module _ (p : ℕ → Bool) where
  all-right : (s t : Str) → all p (s ++ t) ≡ true → all p t ≡ true
  all-right [] t h = h
  all-right (x ∷ s) t h = all-right s t (and-eq-true (p x) _ h).1

  all→Lacks : (c : ℕ) (s : Str) → p c ≡ false → all p s ≡ true → Lacks c s
  all→Lacks c [] n h = tt
  all→Lacks c (x ∷ s) n h =
      let (px, ps) = and-eq-true (p x) _ h in
      (λ e. false≢true (sym n ∙ ap p (sym e) ∙ px), all→Lacks c s n ps)

no_dots : (name : Str) → all name_byte name ≡ true → strip_suffix (codes "...") name ≡ none
no_dots name h = elim (Option-cases (strip_suffix (codes "...") name)) [
  | inl e ↦ e
  | inr (t, e) ↦
      let dotted = strip_suffix-eq-some (codes "...") name e in
      let bad : all name_byte (codes "...") ≡ true = all-right name_byte t _ (rw dotted at h) in
      absurd (unfold name_byte in cc bad)
]

-- The names seen after a segment.
abbrev after : List Str → Segment → List Str
after seen (literal _) = seen
after seen (param name) = name ∷ seen
after seen (tail name) = name ∷ seen

named_segment-param :
    (seen : List Str) (name : Str)
    → IsName name
    → mem_str name seen ≡ false
    → (named_segment seen (name, false) ≡ ok (param name, name ∷ seen))
      × (named_segment seen (name, true) ≡ ok (tail name, name ∷ seen))
unfolding named_segment
named_segment-param seen [] (n, good) new = absurd (n refl)
named_segment-param seen (c ∷ name) (n, good) new = (rw (good, new), rw (good, new))

literal-parse :
    (seen : List Str) (lit : Str)
    → IsSegment (literal lit)
    → parse_part seen lit ≡ ok (literal lit, seen)
unfolding parse_part literal_segment contains
literal-parse seen [] (n, _, _, _) = absurd (n refl)
literal-parse seen (c ∷ lit) (n, lacks, no_open, no_close) = ground arith

append-is_empty : (name : Str) → name ≢ [] → (t : Str) → is_empty (name ++ t) ≡ false
append-is_empty [] n t = absurd (n refl)
append-is_empty (c ∷ name) n t = refl

split_dots-plain : (name : Str) → all name_byte name ≡ true → split_dots name ≡ (name, false)
unfolding split_dots
split_dots-plain name good = rw (no_dots name good, split_dots)

split_dots-dotted : (name : Str) → split_dots (name ++ codes "...") ≡ (name, true)
unfolding split_dots
split_dots-dotted name = rw (strip_suffix-append (codes "...") name, split_dots)

param_segment-closed :
    (seen : List Str) (inner : Str)
    → is_empty inner ≡ false
    → param_segment seen (inner ++ codes "}") ≡ named_segment seen (split_dots inner)
unfolding param_segment
param_segment-closed seen inner n = rw (strip_suffix-append (codes "}") inner, param_segment, n)

filled : (name : Str) → name ≢ [] → is_empty name ≡ false
filled [] n = absurd (n refl)
filled (c ∷ name) n = refl

parse_part-text :
    (seen : List Str) (s : Segment) (more : List Segment)
    → IsSegment s
    → HasFreshNames seen (s ∷ more)
    → (parse_part seen (text s) ≡ ok (s, after seen s)) × HasFreshNames (after seen s) more
unfolding parse_part
parse_part-text seen (literal lit) more v f = (literal-parse seen lit v, f)
parse_part-text seen (param name) more (n, good) (new, f) = (
  param_segment-closed seen name (filled name n)
      ∙ ap (named_segment seen) (split_dots-plain name good)
      ∙ (named_segment-param seen name (n, good) new).0,
  f,
)
parse_part-text seen (tail name) more (n, good) (new, f) = (
  param_segment-closed seen (name ++ codes "...") (append-is_empty name n (codes "..."))
      ∙ ap (named_segment seen) (split_dots-dotted name)
      ∙ (named_segment-param seen name (n, good) new).1,
  f,
)

parse_parts-texts :
    (seen : List Str) (segments : List Segment)
    → All IsSegment segments
    → HasFreshNames seen segments
    → parse_parts seen (map text segments) ≡ ok segments
unfolding parse_parts
parse_parts-texts seen [] v f = refl
parse_parts-texts seen (s ∷ segments) (v, vs) f =
    let (first, f') = parse_part-text seen s segments v f in
    rw (first, parse_parts-texts (after seen s) segments vs f')

-- The last byte decides `ends_with` on one byte.
ends_with-tail : (c x : ℕ) (t : Str) → t ≢ [] → ends_with (c ∷ []) (x ∷ t) ≡ ends_with (c ∷ []) t
unfolding ends_with str_eq
ends_with-tail c x [] n = absurd (n refl)
ends_with-tail c x (y ∷ t) n = ground arith

ends_with-append : (c : ℕ) (s t : Str) → t ≢ [] → ends_with (c ∷ []) (s ++ t) ≡ ends_with (c ∷ []) t
ends_with-append c [] t n = refl
ends_with-append c (x ∷ s) t n =
    ends_with-tail c x (s ++ t) (append-ne-nil s t n) ∙ ends_with-append c s t n
  where
    append-ne-nil : (s t : Str) → t ≢ [] → s ++ t ≢ []
    append-ne-nil [] t n = n
    append-ne-nil (y ∷ s) t n = λ e. cc e

ends_with-Lacks : (c : ℕ) (s : Str) → Lacks c s → ends_with (c ∷ []) s ≡ false
unfolding ends_with str_eq
ends_with-Lacks c [] h = refl
ends_with-Lacks c (x ∷ s) (n, h) = ground (arith, ends_with-Lacks c s h)

abbrev pub IsPart : Str → Type 0
IsPart p = (p ≢ []) × Lacks slash p

join-ne-nil : (p : Str) (ps : List Str) → p ≢ [] → join slash (p ∷ ps) ≢ []
unfolding join
join-ne-nil [] ps n = absurd (n refl)
join-ne-nil (c ∷ p) [] n = λ e. cc e
join-ne-nil (c ∷ p) (q ∷ ps) n = λ e. cc e

join-ends_with :
    (p : Str) (ps : List Str) → All IsPart (p ∷ ps) → ends_with root (join slash (p ∷ ps)) ≡ false
unfolding join
join-ends_with p [] ((_, lacks), _) = ends_with-Lacks slash p lacks
join-ends_with p (q ∷ ps) (_, ((n, l), h)) =
    ends_with-append slash p (slash ∷ join slash (q ∷ ps)) (λ e. cc e)
    ∙ ends_with-tail slash slash (join slash (q ∷ ps)) (join-ne-nil q ps n)
    ∙ join-ends_with q ps ((n, l), h)

-- A path of parts is left as it is, and splits into its parts.
pub join-parts :
    (p : Str) (ps : List Str)
    → All IsPart (p ∷ ps)
    → (trim_slash (slash ∷ join slash (p ∷ ps)) ≡ slash ∷ join slash (p ∷ ps))
      × (str_eq (slash ∷ join slash (p ∷ ps)) root ≡ false)
      × (split slash (join slash (p ∷ ps)) ≡ p ∷ ps)
unfolding trim_slash
join-parts p ps (part, parts) =
    let (n, lacks) = part in
    let ends : ends_with root (slash ∷ join slash (p ∷ ps)) ≡ false =
      ends_with-tail slash slash (join slash (p ∷ ps)) (join-ne-nil p ps n)
      ∙ join-ends_with p ps (part, parts) in
    (
      ground (arith, ends),
      str_eq_ne (slash ∷ join slash (p ∷ ps)) root (λ e. join-ne-nil p ps n (cc e)),
      split-join slash p ps (lacks, All-imp IsPart (Lacks slash) ps (λ x q. q.1) parts),
    )

Lacks-append : (s t : Str) → Lacks slash s → Lacks slash t → Lacks slash (s ++ t)
Lacks-append s t = All-append (λ x. x ≢ slash) s t

name-Lacks : (name : Str) → IsName name → Lacks slash name
unfolding name_byte
name-Lacks name (_, good) = all→Lacks name_byte slash name refl good

dots-Lacks : Lacks slash (codes "...")
dots-Lacks = omega arith

close-Lacks : Lacks slash (codes "}")
close-Lacks = omega arith

open_ne_slash : b'{' ≢ slash
open_ne_slash = omega arith

braces-IsPart : (inner : Str) → Lacks slash inner → IsPart (b'{' ∷ inner ++ codes "}")
braces-IsPart inner h = ((λ e. cc e), (open_ne_slash, Lacks-append inner (codes "}") h close-Lacks))

text-IsPart : (s : Segment) → IsSegment s → IsPart (text s)
text-IsPart (literal lit) v = (v.0, v.1)
text-IsPart (param name) v = braces-IsPart name (name-Lacks name v)
text-IsPart (tail name) v =
    braces-IsPart (name ++ codes "...")
      (Lacks-append name (codes "...") (name-Lacks name v) dots-Lacks)

check_tail-final :
    (t : Str) (segments : List Segment)
    → misplaced_tail segments ≡ none
    → check_tail t segments ≡ ok (record { raw = t; segments = segments })
unfolding check_tail
check_tail-final t segments h = rw (h, check_tail)

parse-root : parse root ≡ ok (record { raw = root; segments = [] })
unfolding parse parse_trimmed starts_with_slash trim_slash str_eq
parse-root = refl

parse-render :
    (segments : List Segment)
    → All IsSegment segments
    → HasFreshNames [] segments
    → misplaced_tail segments ≡ none
    → parse (render segments) ≡ ok (record { raw = render segments; segments = segments })
unfolding parse parse_trimmed render starts_with_slash
parse-render [] v f h = parse-root
parse-render (s ∷ segments) v f h =
    let (kept, deeper, pieces) = join-parts (text s) (map text segments) (
      text-IsPart s v.0,
      All-map text IsPart segments (All-imp IsSegment _ segments text-IsPart v.1),
    ) in
    let parsed = parse_parts-texts [] (s ∷ segments) v f in
    let final = check_tail-final (slash ∷ join slash (map text (s ∷ segments))) (s ∷ segments) h in
    rw (kept, deeper, pieces, parsed, final)

-- Parsing the normal form of a well-formed pattern gives the pattern back.
pub parse-raw : (p : Pattern) → IsWellFormed p → parse p.raw ≡ ok p
parse-raw p w =
    let whole = parse-render p.segments w.segments_valid w.names_fresh w.tail_final in
    rw w.raw_renders whole
