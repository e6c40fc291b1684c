-- ===== src/RouteTable/Tests.antt =====
-- Runs of crates/wm-host/src/route_table.rs on concrete tables, and instances of its theorems.
use mathlib.Core.List.{Memᴰ}
use wiremirage.Prelude.Text.{codes, starts_with}
use wiremirage.Prelude.Members.{Memᴰ_singleton}
use wiremirage.Prelude.{
  ◌≤◌, false, none, some, [], ◌∷◌, ◌≡◌, ◌⊎◌, refl, sym, ◌∙◌, subst₂, ok, All, length, inl, inr,
}
use wiremirage.Pattern.{path_parts, trim_slash, Pattern, parse, routes_conflict}
use wiremirage.Pattern.Run.{parser, conflicts}
use wiremirage.Registry.{Route}
use wiremirage.RouteTable.{find_match_filtered, find_match_in_group}
use wiremirage.RouteTable.Precedence.{IsChosen, find_match-IsChosen}
use wiremirage.RouteTable.Unambiguous.{NoConflict, IsUnambiguous, find_match_in_group-SameRoutes}
use wiremirage.RouteTable.NearMisses.{
  near_miss_limit, compute_near_misses_filtered, prefix_match, suggester,
}
use wiremirage.RouteTable.NearMisses.Truth.{HaveText, IsTruthful, compute_near_misses-IsTruthful}
use wiremirage.RouteTable.Sample.{
  charges, backstop, routes, charges_match, request, finder, charges_pattern, backstop_pattern,
}

specific_wins :
    find_match_filtered (some (codes "shop")) (codes "GET") request routes ≡ some charges_match
unfolding finder
specific_wins = refl

backstop_answers :
    find_match_filtered (some (codes "shop")) (codes "GET") (codes "/v1/a/b") routes
    ≡ some (record {
      route = backstop;
      matched_pattern = codes "/v1/{rest...}";
      path_params = (codes "rest", codes "a/b") ∷ [];
    })
unfolding finder
backstop_answers = refl

find_match-IsChosen_example :
    IsChosen (some (codes "shop")) (codes "GET") request routes charges_match
find_match-IsChosen_example =
    find_match-IsChosen (some (codes "shop")) (codes "GET") request routes charges_match
      specific_wins

nothing_found : find_match_filtered none (codes "GET") (codes "/v1/charge") (charges ∷ []) ≡ none
unfolding finder
nothing_found = refl

typo :
    compute_near_misses_filtered none (codes "GET") (codes "/v1/charge") (charges ∷ [])
    ≡ record { route = charges; reason = prefix_match 1 (codes "charges") (codes "charge") } ∷ []
unfolding suggester starts_with finder
typo = refl

has_text : HaveText (path_parts (trim_slash (codes "/v1/charge")))
unfolding finder
has_text = (refl, (refl, tt))

compute_near_misses-IsTruthful_example :
    (length (compute_near_misses_filtered none (codes "GET") (codes "/v1/charge") (charges ∷ []))
      ≤ near_miss_limit)
    × All
        (IsTruthful none (codes "GET") (codes "/v1/charge"))
        (compute_near_misses_filtered none (codes "GET") (codes "/v1/charge") (charges ∷ []))
compute_near_misses-IsTruthful_example =
    compute_near_misses-IsTruthful none (codes "GET") (codes "/v1/charge") (charges ∷ []) has_text
      nothing_found

parsed : (parse backstop.path ≡ ok backstop_pattern) × (parse charges.path ≡ ok charges_pattern)
unfolding parser
parsed = (refl, refl)

apart :
    (routes_conflict backstop.methods backstop_pattern charges.methods charges_pattern ≡ false)
    × (routes_conflict charges.methods charges_pattern backstop.methods backstop_pattern ≡ false)
unfolding conflicts
apart = (refl, refl)

known_patterns :
    (r s : Route) (a b : Pattern)
    → parse r.path ≡ ok a
    → parse s.path ≡ ok b
    → routes_conflict r.methods a s.methods b ≡ false
    → NoConflict r s
known_patterns r s a b ha hb h p q hp hq =
    let same : a ≡ p = cc (sym ha ∙ hp) in
    let same_too : b ≡ q = cc (sym hb ∙ hq) in
    subst₂ (λ x y. routes_conflict r.methods x s.methods y ≡ false) same same_too h

one_of : (r : Route) → Memᴰ r routes → (r ≡ backstop) ⊎ (r ≡ charges)
one_of r (Memᴰ.head e) = inl e
one_of r (Memᴰ.tail m) = inr (Memᴰ_singleton m)

separate_routes :
    (r s : Route)
    → (r ≡ backstop) ⊎ (r ≡ charges)
    → (s ≡ backstop) ⊎ (s ≡ charges)
    → (r ≡ s) ⊎ NoConflict r s
separate_routes r s (inl e) (inl f) = inl (e ∙ sym f)
separate_routes r s (inr e) (inr f) = inl (e ∙ sym f)
separate_routes r s (inl e) (inr f) = inr (
    subst₂ NoConflict (sym e) (sym f)
      (known_patterns backstop charges backstop_pattern charges_pattern parsed.0 parsed.1 apart.0))
separate_routes r s (inr e) (inl f) = inr (
    subst₂ NoConflict (sym e) (sym f)
      (known_patterns charges backstop charges_pattern backstop_pattern parsed.1 parsed.0 apart.1))

unambiguous : IsUnambiguous routes
unambiguous = record {
  separate = λ r s i j same. separate_routes r s (one_of r i) (one_of s j);
  upper_case = ((refl, tt), ((refl, tt), tt));
}

swap : {x a b : Route} → Memᴰ x (a ∷ b ∷ []) → Memᴰ x (b ∷ a ∷ [])
swap (Memᴰ.head e) = Memᴰ.tail (Memᴰ.head e)
swap (Memᴰ.tail m) = Memᴰ.head (Memᴰ_singleton m)

find_match_in_group-SameRoutes_example :
    find_match_in_group (codes "shop") (codes "GET") request routes
    ≡ find_match_in_group (codes "shop") (codes "GET") request (charges ∷ backstop ∷ [])
find_match_in_group-SameRoutes_example =
    find_match_in_group-SameRoutes (codes "shop") (codes "GET") request routes unambiguous
      (charges ∷ backstop ∷ []) (λ r. (swap, swap))
