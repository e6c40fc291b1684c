-- ===== src/RouteTable/Candidates.antt =====
-- When a route of crates/wm-host/src/route_table.rs is a candidate for a request, and what it has
-- passed then.
use mathlib.Core.Option.{none-ne-some}
use wiremirage.Prelude.Text.{Str}
use wiremirage.Prelude.{
  true, Option, none, some, ◌∙◌, ◌≡◌, refl, sym, ap, arith, inl, inr, Bool-cases, Result, ok, err,
  bind_option-eq-some,
}
use wiremirage.Pattern.{Pattern, PatternError, parse, match_path, methods_match}
use wiremirage.Registry.{Route}
use wiremirage.RouteTable.{MatchedRoute, in_scope, matched, match_parsed, candidate}

module _ (group : Option Str) (method path : Str) where
  abbrev pub IsCandidate : Route → Pattern → MatchedRoute → Type 0
  IsCandidate r p m = candidate group method path r ≡ some (p, m)

  abbrev pub IsNoCandidate : Route → Type 0
  IsNoCandidate s = candidate group method path s ≡ none

  -- What a candidate has passed.
  pub record HasMatched (r : Route) (p : Pattern) (m : MatchedRoute) : Type 0 where
    pub in_group : in_scope group r ≡ true
    pub parsed : parse r.path ≡ ok p
    pub accepted : methods_match r.methods method ≡ true
    pub captured : match_path p path ≡ some m.path_params
    pub same_route : m.route ≡ r
    pub same_pattern : m.matched_pattern ≡ p.raw

  match_parsed-ok :
      (r : Route) (q p : Pattern) (m : MatchedRoute)
      → match_parsed method path r (ok q) ≡ some (p, m)
      → (q ≡ p)
        × (methods_match r.methods method ≡ true)
        × (match_path p path ≡ some m.path_params)
        × (m.route ≡ r)
        × (m.matched_pattern ≡ p.raw)
  unfolding match_parsed matched
  match_parsed-ok r q p m h = elim (Bool-cases (methods_match r.methods method)) [
    | inl accepted ↦
        let (captures, found, e) = bind_option-eq-some (match_path q path) _ (rw accepted at h) in
        let same : q ≡ p = cc e in
        let got : record { route = r; matched_pattern = q.raw; path_params = captures } ≡ m =
          cc e in
        (
          same,
          accepted,
          sym (ap (λ x. match_path x path) same)
              ∙ found
              ∙ ap (λ x. some (MatchedRoute.path_params x)) got,
          sym (ap (λ x. MatchedRoute.route x) got),
          sym (ap (λ x. MatchedRoute.matched_pattern x) got) ∙ ap (λ x. Pattern.raw x) same,
        )
    | inr refused ↦ absurd (ground arith)
  ]

  parsed-HasMatched :
      (r : Route) (parsed : Result PatternError Pattern) (p : Pattern) (m : MatchedRoute)
      → in_scope group r ≡ true
      → parse r.path ≡ parsed
      → match_parsed method path r parsed ≡ some (p, m)
      → HasMatched r p m
  parsed-HasMatched r (err e) p m s q h = absurd (unfold match_parsed in none-ne-some (p, m) h)
  parsed-HasMatched r (ok x) p m s q h =
      let (same, accepted, captured, route, pattern) = match_parsed-ok r x p m h in
      record {
        in_group = s;
        parsed = q ∙ ap ok same;
        accepted = accepted;
        captured = captured;
        same_route = route;
        same_pattern = pattern;
      }

  pub candidate-HasMatched :
      (r : Route) (p : Pattern) (m : MatchedRoute) → IsCandidate r p m → HasMatched r p m
  unfolding candidate
  candidate-HasMatched r p m h = elim (Bool-cases (in_scope group r)) [
    | inl s ↦ parsed-HasMatched r (parse r.path) p m s refl (rw (s, candidate) at h)
    | inr out ↦ absurd (ground arith)
  ]
