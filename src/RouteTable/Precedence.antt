-- ===== src/RouteTable/Precedence.antt =====
-- Which route `find_match_filtered` chooses: a route without a tail if there is one that matches,
-- else a tail with the longest prefix.
use mathlib.Core.List.{Memᴰ}
use mathlib.Core.Option.{none-ne-some}
use wiremirage.Prelude.Text.{Str}
use wiremirage.Prelude.{
  ℕ, ◌≤◌, ◌<◌, true, false, Option, none, some, List, [], ◌∷◌, ltb, ltb→lt, ◌∙◌, subst, length, ◌≡◌,
  refl, sym, ap, arith, inl, inr, All, false≢true, ◌↔◌, ◌≢◌, Bool-cases, Option-cases, ◌⊎◌,
}
use wiremirage.Pattern.{Pattern, has_tail}
use wiremirage.Registry.{Route}
use wiremirage.RouteTable.{
  MatchedRoute, candidate, longer, keep_longer, winner, find_from, find_match_filtered,
}
use wiremirage.RouteTable.Candidates.{IsCandidate, IsNoCandidate, candidate-HasMatched}

module _ (group : Option Str) (method path : Str) where
  -- Every candidate that the route may be is a tail with at most `len` segments.
  abbrev pub Loses : ℕ → Route → Type 0
  Loses len s =
      (q : Pattern) (n : MatchedRoute)
      → IsCandidate group method path s q n
      → (has_tail q ≡ true) × (length q.segments ≤ len)

  abbrev Below : Option (ℕ × MatchedRoute) → ℕ → Type 0
  Below none len = Unit
  Below (some (l, m)) len = l < len

  -- How a result of the loop came about.
  data Outcome (rs : List Route) (best : Option (ℕ × MatchedRoute)) (m : MatchedRoute)
      : Type 0 where
    specific :
        (r : Route) (p : Pattern)
        → Memᴰ r rs
        → IsCandidate group method path r p m
        → has_tail p ≡ false
        → Outcome rs best m
    tail :
        (r : Route) (p : Pattern)
        → Memᴰ r rs
        → IsCandidate group method path r p m
        → has_tail p ≡ true
        → All (Loses (length p.segments)) rs
        → Below best (length p.segments)
        → Outcome rs best m
    kept : (l : ℕ) → best ≡ some (l, m) → All (Loses l) rs → Outcome rs best m

  no_candidate_outranked : (r : Route) (l : ℕ) → IsNoCandidate group method path r → Loses l r
  no_candidate_outranked r l h q n e = absurd (none-ne-some (q, n) (sym h ∙ e))

  same_outranked :
      (r : Route) (p : Pattern) (m : MatchedRoute) (l : ℕ)
      → IsCandidate group method path r p m
      → has_tail p ≡ true
      → length p.segments ≤ l
      → Loses l r
  same_outranked r p m l c t n q k e = let same : p ≡ q = cc (sym c ∙ e) in rw (← same) (t, n)

  step_none :
      (r : Route) {rs : List Route} {best : Option (ℕ × MatchedRoute)} {m : MatchedRoute}
      → IsNoCandidate group method path r
      → Outcome rs best m
      → Outcome (r ∷ rs) best m
  step_none r h (specific s p i c t) = specific s p (Memᴰ.tail i) c t
  step_none r h (tail s p i c t a b) =
      tail s p (Memᴰ.tail i) c t (no_candidate_outranked r (length p.segments) h, a) b
  step_none r h (kept l e a) = kept l e (no_candidate_outranked r l h, a)

  keep_longer-cases :
      (len : ℕ) (m : MatchedRoute) (best : Option (ℕ × MatchedRoute))
      → (Below best len × (keep_longer len m best ≡ some (len, m)))
        ⊎ ((l : ℕ) × (k : MatchedRoute) × (best ≡ some (l, k))
            × (len ≤ l)
            × (keep_longer len m best ≡ some (l, k)))
  unfolding keep_longer longer
  keep_longer-cases len m none = inl (tt, refl)
  keep_longer-cases len m (some (l, k)) = elim (Bool-cases (ltb l len)) [
    | inl more ↦ inl (ltb→lt l len more, rw more)
    | inr less ↦ inr (l, k, refl, ground arith, rw less)
  ]

  longer_under :
      (len : ℕ) (n : MatchedRoute) (best : Option (ℕ × MatchedRoute)) (l : ℕ)
      → Below (keep_longer len n best) l
      → (len ≤ l) × Below best l
  unfolding keep_longer longer
  longer_under len n none l h = (omega arith, tt)
  longer_under len n (some (k, o)) l h = ground arith

  find_from-specific :
      (r : Route) (p : Pattern) (n : MatchedRoute) (rs : List Route)
      (best : Option (ℕ × MatchedRoute))
      → IsCandidate group method path r p n
      → has_tail p ≡ false
      → find_from group method path (r ∷ rs) best ≡ some n
  unfolding find_from
  find_from-specific r p n rs best c t = rw (c, find_from, t)

  step_tail :
      (r : Route) (p : Pattern) (n : MatchedRoute) {rs : List Route}
      (best : Option (ℕ × MatchedRoute)) {m : MatchedRoute}
      → IsCandidate group method path r p n
      → has_tail p ≡ true
      → Outcome rs (keep_longer (length p.segments) n best) m
      → Outcome (r ∷ rs) best m
  step_tail r p n best c t (specific s q i d u) = specific s q (Memᴰ.tail i) d u
  step_tail r p n best c t (tail s q i d u a b) =
      let (shorter, below) = longer_under (length p.segments) n best (length q.segments) b in
      tail s q (Memᴰ.tail i) d u (same_outranked r p n (length q.segments) c t shorter, a) below
  step_tail r p n {rs} best {m} c t (kept l e a) =
      elim (keep_longer-cases (length p.segments) n best) [
        | inl (below, kept_new) ↦
            let pair : ◌≡◌ {A = Option (ℕ × MatchedRoute)} (some (length p.segments, n))
                (some (l, m)) =
              sym kept_new ∙ e in
            let len : length p.segments ≡ l = cc pair in
            let same : n ≡ m = cc pair in
            tail r p (Memᴰ.head refl) (c ∙ ap (λ x. some (p, x)) same) t
              (
                same_outranked r p n (length p.segments) c t (omega arith),
                subst (λ x. All (Loses x) rs) (sym len) a,
              )
              below
        | inr (k, o, old, fits, kept_old) ↦
            let pair : ◌≡◌ {A = Option (ℕ × MatchedRoute)} (some (k, o)) (some (l, m)) =
              sym kept_old ∙ e in
            let len : k ≡ l = cc pair in
            kept l (old ∙ pair) (same_outranked r p n l c t (omega arith), a)
      ]

  find_from-Outcome :
      (rs : List Route) (best : Option (ℕ × MatchedRoute)) (m : MatchedRoute)
      → find_from group method path rs best ≡ some m
      → Outcome rs best m
  unfolding find_from winner
  find_from-Outcome [] none m h = cc
  find_from-Outcome [] (some (l, k)) m h =
      let same : k ≡ m = cc h in kept l (ap (λ x. some (l, x)) same) tt
  find_from-Outcome (r ∷ rs) best m h = elim (Option-cases (candidate group method path r)) [
    | inl c ↦ step_none r c (find_from-Outcome rs best m (rw (c, find_from) at h))
    | inr ((p, n), c) ↦ elim (Bool-cases (has_tail p)) [
      | inl t ↦
          step_tail r p n best c t
            (find_from-Outcome rs (keep_longer (length p.segments) n best) m (ground arith))
      | inr t ↦
          let same : n ≡ m = cc (sym (find_from-specific r p n rs best c t) ∙ h) in
          specific r p (Memᴰ.head refl) (c ∙ ap (λ x. some (p, x)) same) t
    ]
  ]

  -- The chosen route: a listed candidate, and if it is a tail, then every other candidate is a tail
  -- that is not longer.
  pub record IsChosen (routes : List Route) (m : MatchedRoute) : Type 0 where
    pub pattern : Pattern
    pub listed : Memᴰ m.route routes
    pub is_candidate : IsCandidate group method path m.route pattern m
    pub best : has_tail pattern ≡ true → All (Loses (length pattern.segments)) routes

  Outcome-IsChosen :
      (routes : List Route) (m : MatchedRoute) → Outcome routes none m → IsChosen routes m
  Outcome-IsChosen routes m (specific r p i c t) =
      let e = sym (candidate-HasMatched group method path r p m c).same_route in
      record {
        pattern = p;
        listed = subst (λ x. Memᴰ x routes) e i;
        is_candidate = subst (λ x. IsCandidate group method path x p m) e c;
        best = λ u. absurd (false≢true (sym t ∙ u));
      }
  Outcome-IsChosen routes m (tail r p i c t a b) =
      let e = sym (candidate-HasMatched group method path r p m c).same_route in
      record {
        pattern = p;
        listed = subst (λ x. Memᴰ x routes) e i;
        is_candidate = subst (λ x. IsCandidate group method path x p m) e c;
        best = λ u. a;
      }
  Outcome-IsChosen routes m (kept l e a) = cc e

  -- The route that answers is a listed candidate, and a tail answers only if no candidate is without
  -- a tail or has more segments.
  pub find_match-IsChosen :
      (routes : List Route) (m : MatchedRoute)
      → find_match_filtered group method path routes ≡ some m
      → IsChosen routes m
  unfolding find_match_filtered
  find_match-IsChosen routes m h = Outcome-IsChosen routes m (find_from-Outcome routes none m h)

  keep_longer-some :
      (len : ℕ) (m : MatchedRoute) (best : Option (ℕ × MatchedRoute))
      → keep_longer len m best ≢ none
  unfolding keep_longer longer
  keep_longer-some len m none e = cc e
  keep_longer-some len m (some (l, k)) e = ground arith

  find_from-none :
      (rs : List Route) (best : Option (ℕ × MatchedRoute))
      → find_from group method path rs best ≡ none
      → (best ≡ none) × All (IsNoCandidate group method path) rs
  unfolding find_from winner
  find_from-none [] none h = (refl, tt)
  find_from-none [] (some (l, k)) h = cc
  find_from-none (r ∷ rs) best h = elim (Option-cases (candidate group method path r)) [
    | inl c ↦ let (e, a) = find_from-none rs best (rw (c, find_from) at h) in (e, (c, a))
    | inr ((p, n), c) ↦ elim (Bool-cases (has_tail p)) [
      | inl t ↦
          let (e, a) = find_from-none rs (keep_longer (length p.segments) n best) (ground arith) in
          absurd (keep_longer-some (length p.segments) n best e)
      | inr t ↦ absurd (none-ne-some n (sym h ∙ find_from-specific r p n rs best c t))
    ]
  ]

  none-find_from :
      (rs : List Route)
      → All (IsNoCandidate group method path) rs
      → find_from group method path rs none ≡ none
  unfolding find_from winner
  none-find_from [] a = refl
  none-find_from (r ∷ rs) (c, a) = rw (c, find_from, none-find_from rs a)

  -- A request has no match exactly when no route is a candidate for it.
  pub find_match-none_iff :
      (routes : List Route)
      → (find_match_filtered group method path routes ≡ none)
        ↔ All (IsNoCandidate group method path) routes
  unfolding find_match_filtered
  find_match-none_iff routes = ((λ h. (find_from-none routes none h).1), none-find_from routes)
