-- ===== src/RouteTable/Unambiguous.antt =====
-- Among routes of which no two conflict, the route that answers does not depend on their order.
use mathlib.Core.List.{Memᴰ}
use mathlib.Core.Option.{none-ne-some}
use wiremirage.Prelude.Text.{Str, str_eq→eq}
use wiremirage.Prelude.Members.{All-Memᴰ}
use wiremirage.Prelude.{
  ℕ, ◌≤◌, Bool, true, false, none, some, List, ◌≡◌, ◌↔◌, ◌⊎◌, refl, sym, ap, ◌∙◌, arith, inl, inr,
  All, Option-cases, ok, length,
}
use wiremirage.Pattern.{
  Pattern, parse, has_tail, misplaced_tail, patterns_conflict, routes_conflict, overlaps,
}
use wiremirage.Pattern.Parsing.{parse-IsWellFormed}
use wiremirage.Pattern.Conflicts.{match_path-conflict}
use wiremirage.Pattern.Overlaps.{IsUpperCase, methods_match-overlaps}
use wiremirage.Registry.{Route}
use wiremirage.RouteTable.{
  MatchedRoute, in_scope, candidate, find_match_filtered, find_match_in_group,
}
use wiremirage.RouteTable.Candidates.{IsCandidate, IsNoCandidate, candidate-HasMatched}
use wiremirage.RouteTable.Precedence.{Loses, IsChosen, find_match-IsChosen, find_match-none_iff}

-- The conflict test that a route passes against every stored route of its group.
abbrev pub NoConflict : Route → Route → Type 0
NoConflict r s =
    (p q : Pattern)
    → parse r.path ≡ ok p
    → parse s.path ≡ ok q
    → routes_conflict r.methods p s.methods q ≡ false

-- Two different routes of one group do not conflict, and every method is upper case.
pub record IsUnambiguous (routes : List Route) : Type 0 where
  pub separate :
      (r s : Route)
      → Memᴰ r routes
      → Memᴰ s routes
      → r.group_name ≡ s.group_name
      → (r ≡ s) ⊎ NoConflict r s
  pub upper_case : All (λ r. All IsUpperCase r.methods) routes

abbrev pub SameRoutes : List Route → List Route → Type 0
SameRoutes routes others = (r : Route) → Memᴰ r routes ↔ Memᴰ r others

parsed-final : (raw : Str) (p : Pattern) → parse raw ≡ ok p → misplaced_tail p.segments ≡ none
parsed-final raw p h = (parse-IsWellFormed raw p h).0.tail_final

same_kind : (a b : Bool) → (a ≡ true → b ≡ true) → (b ≡ true → a ≡ true) → a ≡ b
same_kind true b f k = sym (f refl)
same_kind false true f k = k refl
same_kind false false f k = refl

antisymm : {m n : ℕ} → m ≤ n → n ≤ m → m ≡ n
antisymm h k = omega arith

module _ (g method path : Str) (routes : List Route) (clear : IsUnambiguous routes) where
  same_group :
      (r s : Route)
      → in_scope (some g) r ≡ true
      → in_scope (some g) s ≡ true
      → r.group_name ≡ s.group_name
  unfolding in_scope
  same_group r s h k = str_eq→eq r.group_name g h ∙ sym (str_eq→eq s.group_name g k)

  -- Two routes that both match, of one kind and, if they are tails, of one length, are the same.
  matched-same :
      (r s : Route) (p q : Pattern) (m n : MatchedRoute)
      → Memᴰ r routes
      → Memᴰ s routes
      → IsCandidate (some g) method path r p m
      → IsCandidate (some g) method path s q n
      → has_tail p ≡ has_tail q
      → (has_tail p ≡ true → length p.segments ≡ length q.segments)
      → m ≡ n
  unfolding routes_conflict
  matched-same r s p q m n ir is c d kind len =
      let a = candidate-HasMatched (some g) method path r p m c in
      let b = candidate-HasMatched (some g) method path s q n d in
      elim (clear.separate r s ir is (same_group r s a.in_group b.in_group)) [
        | inl e ↦ cc (sym c ∙ ap (candidate (some g) method path) e ∙ d)
        | inr none_conflicts ↦
            let clash : patterns_conflict p q ≡ true =
              match_path-conflict p q path m.path_params n.path_params
                (parsed-final r.path p a.parsed) (parsed-final s.path q b.parsed) kind len
                a.captured b.captured in
            let shared : overlaps r.methods s.methods ≡ true =
              methods_match-overlaps r.methods s.methods method (All-Memᴰ _ ir clear.upper_case)
                (All-Memᴰ _ is clear.upper_case) a.accepted b.accepted in
            absurd (ground (arith, none_conflicts p q a.parsed b.parsed))
      ]

  chosen-same :
      (others : List Route) (m n : MatchedRoute)
      → SameRoutes routes others
      → IsChosen (some g) method path routes m
      → IsChosen (some g) method path others n
      → m ≡ n
  chosen-same others m n same cm cn =
      let listed_n = (same n.route).1 cn.listed in
      let listed_m = (same m.route).0 cm.listed in
      let n_loses = λ (t : has_tail cm.pattern ≡ true).
        All-Memᴰ (Loses (some g) method path (length cm.pattern.segments)) listed_n (cm.best t)
          cn.pattern n cn.is_candidate in
      let m_loses = λ (t : has_tail cn.pattern ≡ true).
        All-Memᴰ (Loses (some g) method path (length cn.pattern.segments)) listed_m (cn.best t)
          cm.pattern m cm.is_candidate in
      let kind =
        same_kind (has_tail cm.pattern) (has_tail cn.pattern) (λ t. (n_loses t).0)
          (λ t. (m_loses t).0) in
      matched-same m.route n.route cm.pattern cn.pattern m n cm.listed listed_n cm.is_candidate
        cn.is_candidate kind λ t. antisymm (m_loses (sym kind ∙ t)).1 (n_loses t).1

  -- Two tables with the same routes, whatever their order, give the same answer to every request for
  -- the group, if no two routes of one group conflict and all their methods are upper case.
  pub find_match_in_group-SameRoutes :
      (others : List Route)
      → SameRoutes routes others
      → find_match_in_group g method path routes ≡ find_match_in_group g method path others
  unfolding find_match_in_group
  find_match_in_group-SameRoutes others same =
      let found = find_match_filtered (some g) method path in
      elim (Option-cases (found routes)) [
        | inl missed ↦ elim (Option-cases (found others)) [
          | inl missed' ↦ missed ∙ sym missed'
          | inr (n, hit) ↦
              let cn = find_match-IsChosen (some g) method path others n hit in
              let refused =
                All-Memᴰ (IsNoCandidate (some g) method path) ((same n.route).1 cn.listed)
                  ((find_match-none_iff (some g) method path routes).0 missed) in
              absurd (none-ne-some (cn.pattern, n) (sym refused ∙ cn.is_candidate))
        ]
        | inr (m, hit) ↦
            let cm = find_match-IsChosen (some g) method path routes m hit in
            elim (Option-cases (found others)) [
              | inl missed' ↦
                  let refused =
                    All-Memᴰ (IsNoCandidate (some g) method path) ((same m.route).0 cm.listed)
                      ((find_match-none_iff (some g) method path others).0 missed') in
                  absurd (none-ne-some (cm.pattern, m) (sym refused ∙ cm.is_candidate))
              | inr (n, hit') ↦
                  let cn = find_match-IsChosen (some g) method path others n hit' in
                  hit ∙ ap some (chosen-same others m n same cm cn) ∙ sym hit'
            ]
      ]
