-- ===== src/Registry/Routes/Creation.antt =====
-- crates/wm-host/src/registry.rs: what `create_route` has checked of a route that it made.
use mathlib.Core.List.{Memᴰ}
use wiremirage.Prelude.Text.{Str, codes}
use wiremirage.Prelude.Decimal.{pos}
use wiremirage.Prelude.Members.{All-Memᴰ}
use wiremirage.Prelude.{
  ℕ, Option, none, some, List, ◌∷◌, ok, err-ne-ok, ok-injective, All, ◌≡◌, ◌⊎◌, refl, sym, ap,
  subst, ◌∙◌, inl, inr, Result-cases,
}
use wiremirage.Pattern.{Methods, Pattern, parse, routes_conflict}
use wiremirage.Pattern.Parsing.{parse-IsWellFormed}
use wiremirage.Pattern.Printing.{parse-raw}
use wiremirage.Pattern.Overlaps.{IsUpperCase, routes_conflict_comm}
use wiremirage.Store.{MemStore}
use wiremirage.RouteTable.Unambiguous.{NoConflict, IsUnambiguous}
use wiremirage.Registry.{Route, Group, Codec, NewRoute, validate_methods}
use wiremirage.Registry.Action.{registry_error, hash_incr}
use wiremirage.Store.Reads.{IsReading, bind-IsReading, bind-eq-ok, reading-eq-ok, checked-eq-ok}
use wiremirage.Registry.Stored.{counters_key}
use wiremirage.Registry.Names.{Draws, resolved}
use wiremirage.Registry.Groups.{list_routes_in_group}
use wiremirage.Registry.Routes.{
  parsed_path, scan_pattern_conflict, group_for, new_route, as_u32, store_route, add_route,
  create_route,
}
use wiremirage.Registry.Routes.Reads.{
  read_group-IsReading, resolved-IsReading, list_routes_in_group-IsReading,
}
use wiremirage.Registry.Routes.Conflicts.{
  IsCleared, first_conflict-IsCleared, validate_methods-IsUpperCase,
}

-- The route has a valid pattern and valid methods, and no route of its group, as the group was before,
-- conflicts with it.
record IsChecked (codec : Codec) (m : MemStore) (r : Route) : Type 0 where
  routes : List Route
  listed : list_routes_in_group codec r.group_id m ≡ (ok routes, m)
  pattern : Pattern
  parsed : parse r.path ≡ ok pattern
  cleared : All (IsCleared r.methods pattern) routes
  upper_case : All IsUpperCase r.methods

pub parsed_path-ok : (path : Str) (p : Pattern) → parsed_path path ≡ ok p → parse path ≡ ok p
unfolding parsed_path
parsed_path-ok path p h = elim (Result-cases (parse path)) [
  | inl (e, bad) ↦ err-ne-ok _ p (rw (bad, parsed_path) at h)
  | inr (q, good) ↦ good ∙ ap ok (ok-injective q p (rw (good, parsed_path) at h))
]

raw_parsed : (path : Str) (p : Pattern) → parsed_path path ≡ ok p → parse p.raw ≡ ok p
raw_parsed path p h = parse-raw p (parse-IsWellFormed path p (parsed_path-ok path p h)).0

cleared-NoConflict :
    (r s : Route) (p : Pattern) → parse r.path ≡ ok p → IsCleared r.methods p s → NoConflict r s
cleared-NoConflict r s p parsed clear p' q again other =
    ap (λ x. routes_conflict r.methods x s.methods q) (ok-injective p' p (sym again ∙ parsed))
    ∙ clear q other

NoConflict-comm : (r s : Route) → NoConflict r s → NoConflict s r
NoConflict-comm r s clear q p other parsed =
    routes_conflict_comm s.methods r.methods q p ∙ clear p q parsed other

separated :
    {r : Route} {routes : List Route} {a b : Route}
    → ((s : Route) → Memᴰ s routes → NoConflict r s)
    → IsUnambiguous routes
    → Memᴰ a (r ∷ routes)
    → Memᴰ b (r ∷ routes)
    → a.group_name ≡ b.group_name
    → (a ≡ b) ⊎ NoConflict a b
separated clear old (Memᴰ.head e) (Memᴰ.head f) same = inl (e ∙ sym f)
separated {r} {b = b} clear old (Memᴰ.head e) (Memᴰ.tail b_in) same =
    inr (subst (λ x. NoConflict x b) (sym e) (clear b b_in))
separated {r} {a = a} clear old (Memᴰ.tail a_in) (Memᴰ.head f) same =
    inr (subst (λ x. NoConflict a x) (sym f) (NoConflict-comm r a (clear a a_in)))
separated {a = a} {b = b} clear old (Memᴰ.tail a_in) (Memᴰ.tail b_in) same =
    old.separate a b a_in b_in same

cleared-IsUnambiguous :
    (r : Route) (p : Pattern) (routes : List Route)
    → parse r.path ≡ ok p
    → All (IsCleared r.methods p) routes
    → All IsUpperCase r.methods
    → IsUnambiguous routes
    → IsUnambiguous (r ∷ routes)
cleared-IsUnambiguous r p routes parsed cleared upper old = record {
  separate = λ a b a_in b_in same.
      separated
        (λ s s_in. cleared-NoConflict r s p parsed (All-Memᴰ (IsCleared r.methods p) s_in cleared))
        old a_in b_in same;
  upper_case = (upper, old.upper_case);
}

module _ (codec : Codec) where
  pub scan-IsReading :
      (id : Str) (methods : Methods) (p : Pattern) (exclude : Option Str)
      → IsReading (scan_pattern_conflict codec id methods p exclude)
  unfolding scan_pattern_conflict
  scan-IsReading id methods p exclude =
      bind-IsReading (list_routes_in_group codec id) _ (list_routes_in_group-IsReading codec id)
        λ routes m. refl

  add_route-made :
      (route_id raw : Str) (now : ℕ) (params : NewRoute) (group : Group) (m after : MemStore)
      (r : Route)
      → add_route codec route_id now params group raw m ≡ (ok r, after)
      → (n : ℕ) × (r ≡ new_route route_id now params group raw n)
  unfolding add_route
  add_route-made route_id raw now params group m after r h =
      bind-eq-ok _ (hash_incr (counters_key group.id) (codes "next_route_number") (pos 1)) _ m h
        λ n s e rest.
          bind-eq-ok _ (store_route codec (new_route route_id now params group raw (as_u32 n))) _ s
            rest λ u t e' rest'. (as_u32 n, sym (ok-injective _ r (ap (λ q. q.0) rest')))

  scan-IsChecked :
      (id : Str) (methods : Methods) (p : Pattern) (m : MemStore)
      → scan_pattern_conflict codec id methods p none m ≡ (ok tt, m)
      → (routes : List Route) × (list_routes_in_group codec id m ≡ (ok routes, m))
        × All (IsCleared methods p) routes
  unfolding scan_pattern_conflict
  scan-IsChecked id methods p m h =
      reading-eq-ok _ (list_routes_in_group codec id) _ m (list_routes_in_group-IsReading codec id)
        h
        λ routes listed rest.
          (routes, listed, first_conflict-IsCleared methods p routes (ap (λ q. q.0) rest))

  module _ (draws : Draws) (group_id : Str) (now : ℕ) (params : NewRoute) where
    group_for-IsReading :
        (reference : Str)
        → params.group ≡ some reference
        → IsReading (group_for codec draws group_id now params)
    unfolding group_for
    group_for-IsReading reference named =
        rw (named, group_for)
          (bind-IsReading (resolved codec reference) _ (resolved-IsReading codec reference)
            λ id. read_group-IsReading codec id)

    create_route-IsChecked :
        (route_id reference : Str) (m after : MemStore) (r : Route)
        → params.group ≡ some reference
        → create_route codec draws group_id route_id now params m ≡ (ok r, after)
        → IsChecked codec m r
    unfolding create_route new_route
    create_route-IsChecked route_id reference m after r named h =
        checked-eq-ok _ (parsed_path params.path) _ m h λ p parsed h₁.
          checked-eq-ok _ (validate_methods params.methods) _ m h₁ λ methods valid h₂.
            reading-eq-ok _ (group_for codec draws group_id now params) _ m
              (group_for-IsReading reference named) h₂
              λ group found h₃.
                reading-eq-ok _ (scan_pattern_conflict codec group.id methods p none) _ m
                  (scan-IsReading group.id methods p none) h₃
                  λ done scanned h₄.
                    let (n, made) = add_route-made route_id p.raw now params group m after r h₄ in
                    let (kept, upper) = validate_methods-IsUpperCase params.methods methods valid in
                    let (routes, listed, cleared) = scan-IsChecked group.id methods p m scanned in
                    subst (IsChecked codec m) (sym made) (record {
                      routes = routes;
                      listed = listed;
                      pattern = p;
                      parsed = raw_parsed params.path p parsed;
                      cleared = subst (λ accepted. All (IsCleared accepted p) routes) kept cleared;
                      upper_case = upper;
                    })

    -- If `create_route` makes a route in a named group, then the routes of that group were read before
    -- it, and if these were unambiguous, they are so together with the new one.
    pub create_route-IsUnambiguous :
        (route_id reference : Str) (m after : MemStore) (r : Route)
        → params.group ≡ some reference
        → create_route codec draws group_id route_id now params m ≡ (ok r, after)
        → (routes : List Route) × (list_routes_in_group codec r.group_id m ≡ (ok routes, m))
          × (IsUnambiguous routes → IsUnambiguous (r ∷ routes))
    create_route-IsUnambiguous route_id reference m after r named h =
        let c = create_route-IsChecked route_id reference m after r named h in
        (
          c.routes,
          c.listed,
          cleared-IsUnambiguous r c.pattern c.routes c.parsed c.cleared c.upper_case,
        )
