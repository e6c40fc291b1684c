-- ===== src/RouteTable/NearMisses/Truth.antt =====
-- What a near-miss tells is true of its route and of the request.
use mathlib.Core.Option.{none-ne-some}
use wiremirage.Prelude.Text.{Str, str_eq, str_eq→eq, str_eq_iff}
use wiremirage.Prelude.{
  ℕ, zero, suc, ◌≤◌, ◌+◌, true, false, Option, none, some, List, [], ◌∷◌, length, take, length-take,
  Result, ok, err, ◌≡◌, ◌≢◌, refl, sym, ap, ◌∙◌, arith, subst, inl, inr, Bool-cases, Option-cases,
  All, is_empty, false≢true,
}
use wiremirage.Pattern.{
  Segment, literal, param, tail, Pattern, PatternError, parse, match_path, trim_slash, path_parts,
  methods_match, has_tail,
}
use wiremirage.Registry.{Route}
use wiremirage.RouteTable.{in_scope, candidate, match_parsed, find_match_filtered}
use wiremirage.RouteTable.Candidates.{IsNoCandidate}
use wiremirage.RouteTable.Precedence.{find_match-none_iff}
use wiremirage.RouteTable.NearMisses.{
  NearMissReason, method_mismatch, prefix_match, NearMiss, near_miss_limit, Diff, prefixes,
  diff_from, prefix_segment_diff, prefix_miss, near_miss_parsed, near_miss, near_misses,
  compute_near_misses_filtered,
}

-- No part is empty.
abbrev pub HaveText : List Str → Type 0
HaveText parts = All (λ part. is_empty part ≡ false) parts

-- A literal equals its part; a parameter agrees with every part that is not empty.
abbrev Agrees : Segment → Str → Type 0
Agrees (literal lit) part = lit ≡ part
Agrees (param name) part = is_empty part ≡ false
Agrees (tail name) part = Unit

abbrev AgreeAll : List Segment → List Str → Type 0
AgreeAll (s ∷ segments) (part ∷ parts) = Agrees s part × AgreeAll segments parts
AgreeAll [] parts = Unit
AgreeAll (s ∷ segments) [] = Unit

-- The segments and the parts agree but at index `i`, where the segment is the literal `expected` and
-- the part is another text, `got`.
abbrev pub DiffersOnlyAt : ℕ → Str → Str → List Segment → List Str → Type 0
DiffersOnlyAt zero expected got (s ∷ segments) (part ∷ parts) =
    (s ≡ literal expected) × (part ≡ got) × (expected ≢ got) × AgreeAll segments parts
DiffersOnlyAt (suc i) expected got (s ∷ segments) (part ∷ parts) =
    Agrees s part × DiffersOnlyAt i expected got segments parts
DiffersOnlyAt _ expected got _ _ = ⊥

-- Once a difference is found, the rest has to agree.
diff_from-some :
    (i : ℕ) (d r : Diff) (segments : List Segment) (parts : List Str)
    → HaveText parts
    → diff_from i (some d) segments parts ≡ some r
    → AgreeAll segments parts × (d ≡ r)
unfolding diff_from
diff_from-some i d r [] parts texts h = (tt, cc)
diff_from-some i d r (s ∷ segments) [] texts h = (tt, cc)
diff_from-some i d r (param name ∷ segments) (part ∷ parts) (text, texts) h =
    let (a, e) = diff_from-some (i + 1) d r segments parts texts h in ((text, a), e)
diff_from-some i d r (tail name ∷ segments) (part ∷ parts) (text, texts) h =
    let (a, e) = diff_from-some (i + 1) d r segments parts texts h in ((tt, a), e)
diff_from-some i d r (literal lit ∷ segments) (part ∷ parts) (text, texts) h =
    elim (Bool-cases (str_eq lit part)) [
      | inl same ↦
          let (a, e) = diff_from-some (i + 1) d r segments parts texts (ground arith) in
          ((str_eq→eq lit part same, a), e)
      | inr other ↦ absurd (ground arith)
    ]

-- A difference that is found behind `i` agreeing segments.
abbrev FoundAt : ℕ → Diff → List Segment → List Str → Type 0
FoundAt i (j, e, g) segments parts =
    (k : ℕ) × (j ≡ i + k) × DiffersOnlyAt k e g segments parts × (prefixes e g ≡ true)

found_later :
    (i : ℕ) (d : Diff) (s : Segment) (segments : List Segment) (part : Str) (parts : List Str)
    → Agrees s part
    → FoundAt (i + 1) d segments parts
    → FoundAt i d (s ∷ segments) (part ∷ parts)
found_later i d s segments part parts a (k, e, differs, p) = (suc k, omega arith, (a, differs), p)

diff_from-none :
    (i : ℕ) (r : Diff) (segments : List Segment) (parts : List Str)
    → HaveText parts
    → diff_from i none segments parts ≡ some r
    → FoundAt i r segments parts
unfolding diff_from
diff_from-none i r [] parts texts h = absurd (none-ne-some r h)
diff_from-none i r (s ∷ segments) [] texts h = absurd (none-ne-some r h)
diff_from-none i r (param name ∷ segments) (part ∷ parts) (text, texts) h =
    found_later i r (param name) segments part parts text
      (diff_from-none (i + 1) r segments parts texts h)
diff_from-none i r (tail name ∷ segments) (part ∷ parts) (text, texts) h =
    found_later i r (tail name) segments part parts tt
      (diff_from-none (i + 1) r segments parts texts h)
diff_from-none i r (literal lit ∷ segments) (part ∷ parts) (text, texts) h =
    elim (Bool-cases (str_eq lit part)) [
      | inl same ↦
          found_later i r (literal lit) segments part parts (str_eq→eq lit part same)
            (diff_from-none (i + 1) r segments parts texts (ground arith))
      | inr other ↦
          let (a, e) =
            diff_from-some (i + 1) (i, lit, part) r segments parts texts (ground arith) in
          let close : prefixes lit part ≡ true = ground arith in
          subst (λ d. FoundAt i d (literal lit ∷ segments) (part ∷ parts)) e
            (
              zero,
              omega arith,
              (refl, refl, (λ same. false≢true (sym other ∙ (str_eq_iff lit part).1 same)), a),
              close,
            )
    ]

-- What the reason of a near-miss says of its route and the request.
abbrev pub IsTrueReason : Str → Str → Route → Pattern → NearMissReason → Type 0
IsTrueReason method path route pattern (method_mismatch expected got) =
    (expected ≡ route.methods)
    × (got ≡ method)
    × (match_path pattern path ≢ none)
    × (methods_match route.methods method ≡ false)
IsTrueReason method path route pattern (prefix_match i expected got) =
    DiffersOnlyAt i expected got pattern.segments (path_parts (trim_slash path))
    × (prefixes expected got ≡ true)
    × (length (path_parts (trim_slash path)) ≡ length pattern.segments)
    × (has_tail pattern ≡ false)

-- A near-miss is a route in scope, and its reason is true.
pub record IsTruthful (group : Option Str) (method path : Str) (x : NearMiss) : Type 0 where
  pub pattern : Pattern
  pub parsed : parse x.route.path ≡ ok pattern
  pub in_group : in_scope group x.route ≡ true
  pub reason_true : IsTrueReason method path x.route pattern x.reason

module _ (group : Option Str) (method path : Str)
    (texts : HaveText (path_parts (trim_slash path))) where
  diff-true :
      (p : Pattern) (i : ℕ) (e g : Str)
      → prefix_segment_diff p path ≡ some (i, e, g)
      → DiffersOnlyAt i e g p.segments (path_parts (trim_slash path))
        × (prefixes e g ≡ true)
        × (length (path_parts (trim_slash path)) ≡ length p.segments)
        × (has_tail p ≡ false)
  unfolding prefix_segment_diff
  diff-true p i e g h =
      let loop : diff_from 0 none p.segments (path_parts (trim_slash path)) ≡ some (i, e, g) =
        ground arith in
      let (k, at, differs, close) = diff_from-none 0 (i, e, g) p.segments _ texts loop in
      let same : k ≡ i = omega (arith, at) in
      (
        subst (λ n. DiffersOnlyAt n e g p.segments (path_parts (trim_slash path))) same differs,
        close,
        ground arith,
        ground arith,
      )

  prefix-true :
      (r : Route) (p : Pattern) (d : Option Diff) (x : NearMiss)
      → prefix_segment_diff p path ≡ d
      → prefix_miss r d ≡ some x
      → (x.route ≡ r) × IsTrueReason method path r p x.reason
  unfolding prefix_miss
  prefix-true r p none x q h = absurd (none-ne-some x h)
  prefix-true r p (some (i, e, g)) x q h =
      let same : record { route = r; reason = prefix_match i e g } ≡ x = cc h in
      subst (λ y. (NearMiss.route y ≡ r) × IsTrueReason method path r p (NearMiss.reason y)) same
        (refl, diff-true p i e g q)

  reason_true :
      (r : Route) (p : Pattern) (x : NearMiss)
      → match_parsed method path r (ok p) ≡ none
      → near_miss_parsed method path r (ok p) ≡ some x
      → (x.route ≡ r) × IsTrueReason method path r p x.reason
  unfolding near_miss_parsed match_parsed
  reason_true r p x c h = elim (Option-cases (match_path p path)) [
    | inl missed ↦ prefix-true r p (prefix_segment_diff p path) x refl (ground arith)
    | inr (captures, found) ↦
        let same : record { route = r; reason = method_mismatch r.methods method } ≡ x =
          ground arith in
        subst (λ y. (NearMiss.route y ≡ r) × IsTrueReason method path r p (NearMiss.reason y)) same
          (refl, (refl, refl, (λ e. none-ne-some captures (sym e ∙ found)), ground arith))
  ]

  parsed-IsTruthful :
      (r : Route) (parsed : Result PatternError Pattern) (x : NearMiss)
      → in_scope group r ≡ true
      → parse r.path ≡ parsed
      → match_parsed method path r parsed ≡ none
      → near_miss_parsed method path r parsed ≡ some x
      → IsTruthful group method path x
  parsed-IsTruthful r (err e) x s q c h = absurd (unfold near_miss_parsed in none-ne-some x h)
  parsed-IsTruthful r (ok p) x s q c h =
      let (same, t) = reason_true r p x c h in
      record {
        pattern = p;
        parsed = ap (λ y. parse (Route.path y)) same ∙ q;
        in_group = ap (in_scope group) same ∙ s;
        reason_true = subst (λ y. IsTrueReason method path y p x.reason) (sym same) t;
      }

  near_miss-IsTruthful :
      (r : Route) (x : NearMiss)
      → IsNoCandidate group method path r
      → near_miss group method path r ≡ some x
      → IsTruthful group method path x
  unfolding near_miss candidate
  near_miss-IsTruthful r x c h = elim (Bool-cases (in_scope group r)) [
    | inl s ↦
        parsed-IsTruthful r (parse r.path) x s refl (rw (s, candidate) at c)
          (rw (s, near_miss) at h)
    | inr out ↦ absurd (ground arith)
  ]

  near_misses-IsTruthful :
      (routes : List Route)
      → All (IsNoCandidate group method path) routes
      → All (IsTruthful group method path) (near_misses group method path routes)
  unfolding near_misses
  near_misses-IsTruthful [] a = tt
  near_misses-IsTruthful (r ∷ routes) (c, a) = elim (Option-cases (near_miss group method path r)) [
    | inl away ↦ rw (away, near_misses) (near_misses-IsTruthful routes a)
    | inr (x, yes_miss) ↦
        rw (yes_miss, near_misses)
          (near_miss-IsTruthful r x c yes_miss, near_misses-IsTruthful routes a)
  ]

All-take {ℓ κ} : {A : Type ℓ} (P : A → Type κ) (n : ℕ) (xs : List A) → All P xs → All P (take n xs)
All-take P zero xs h = tt
All-take P (suc n) [] h = tt
All-take P (suc n) (x ∷ xs) (p, h) = (p, All-take P n xs h)

-- When no route answers the request and no segment of its path is empty, at most twenty near-misses are
-- reported, each one a route of the group asked for whose reason is true of the request: its pattern
-- matches the path and its methods do not, or it has no tail and as many segments as the path, one literal segment and its part differ, one starting
-- with the other, and every other segment is equal to its part or a parameter.
pub compute_near_misses-IsTruthful :
    (group : Option Str) (method path : Str) (routes : List Route)
    → HaveText (path_parts (trim_slash path))
    → find_match_filtered group method path routes ≡ none
    → (length (compute_near_misses_filtered group method path routes) ≤ near_miss_limit)
      × All (IsTruthful group method path) (compute_near_misses_filtered group method path routes)
unfolding compute_near_misses_filtered
compute_near_misses-IsTruthful group method path routes texts h =
    let misses = near_misses group method path routes in
    (
      omega (arith, length-take near_miss_limit misses),
      All-take (IsTruthful group method path) near_miss_limit misses (
          near_misses-IsTruthful group method path texts routes
            ((find_match-none_iff group method path routes).0 h)),
    )
