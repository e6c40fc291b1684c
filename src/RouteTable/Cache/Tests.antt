-- ===== src/RouteTable/Cache/Tests.antt =====
-- Runs of the caches of crates/wm-host/src/route_table.rs, and instances of their theorems.
use mathlib.Core.List.{Memᴰ}
use wiremirage.Prelude.Text.{Str, codes, str_eq}
use wiremirage.Prelude.Assoc.{lookup, insert, remove}
use wiremirage.Prelude.{ℕ, false, none, some, List, [], ◌∷◌, ◌≡◌, ◌≢◌, ◌++◌, refl, Result, ok}
use wiremirage.RouteTable.{candidate}
use wiremirage.RouteTable.Cache.{
  RouteReads, Table, too_soon, component_for, engine_source_for, revalidate_and_rematch,
  revalidate_group, reload_group, claim, in_group, refresh_after_update, replace_route, has_id,
}
use wiremirage.RouteTable.Cache.RateLimit.{
  reads_storage, Miss, IsSpaced, read_times, read_times-IsSpaced, revalidate_and_rematch-ready,
}
use wiremirage.Registry.{Route}
use wiremirage.RouteTable.Cache.Ids.{HasDistinctIds}
use wiremirage.Prelude.{not, keep, All, subst, ok-injective, inl}
use wiremirage.RouteTable.Cache.{cached, for_group}
use wiremirage.RouteTable.Cache.Preserved.{IsKnown, IsAnnounced, component_of, script_of}
use wiremirage.RouteTable.Cache.Steps.{Reachable, Step, component_for-current}
use wiremirage.RouteTable.Sample.{charges, routes, charges_match, request, finder, charges_pattern}

-- A table that has not seen the routes that the storage has.
abbrev table : Table Str
table = record {
  routes = [];
  components = [];
  engine_js = [];
  revalidated_at = [];
  revalidate_interval = 5000;
}

abbrev reads : RouteReads Str
reads = record { list_routes = ok routes; routes_in_group = λ _. ok routes }

abbrev two_misses : List (Miss Str)
two_misses =
    record { reads = reads; group_id = codes "g"; now = 7000 }
    ∷ record { reads = reads; group_id = codes "g"; now = 8000 }
    ∷ record { reads = reads; group_id = codes "g"; now = 12000 }
    ∷ []

one_refused : read_times (codes "g") two_misses table ≡ 7000 ∷ 12000 ∷ []
unfolding revalidate_group reload_group claim too_soon lookup insert remove str_eq in_group
one_refused = refl

read_times-IsSpaced_example :
    IsSpaced 5000 (lookup (codes "g") []) (read_times (codes "g") two_misses table)
    × ((reads : RouteReads Str) (id : Str) (now : ℕ) (u : Table Str)
        → reads_storage Str id now u ≡ false
        → revalidate_group reads id now u ≡ (false, u))
read_times-IsSpaced_example = read_times-IsSpaced (codes "g") two_misses table

free : too_soon (lookup (codes "g") table.revalidated_at) 7000 5000 ≡ false
unfolding too_soon lookup
free = refl

candidate_run :
    candidate (some (codes "shop")) (codes "GET") request charges
    ≡ some (charges_pattern, charges_match)
unfolding finder
candidate_run = refl

revalidate_and_rematch-ready_example :
    (revalidate_and_rematch reads (codes "g") (codes "shop") (codes "GET") request 7000 table).0
    ≢ none
revalidate_and_rematch-ready_example =
    revalidate_and_rematch-ready reads (codes "g") (codes "shop") (codes "GET") request 7000 table
      routes charges charges_pattern charges_match free refl (Memᴰ.tail (Memᴰ.head refl))
      candidate_run

abbrev compiler : Str → Result Str Str
compiler bytes = ok (codes "component:" ++ bytes)

abbrev loaded : Table Str
loaded = record table { routes = charges ∷ [] }

-- The route is compiled, updated, and compiled again; then a miss reloads its group, where another
-- replica has counted a hit.
abbrev compiled : Table Str
compiled = (component_for compiler charges loaded).1

abbrev changed : Route
changed = record charges { compiled_wasm = codes "new" }

abbrev hit : Route
hit = record changed { hits_total = 1 }

abbrev updated : Table Str
updated = (refresh_after_update changed compiled).0

abbrev recompiled : Table Str
recompiled = (component_for compiler changed updated).1

abbrev storage : RouteReads Str
storage = record { list_routes = ok (hit ∷ []); routes_in_group = λ _. ok (hit ∷ []) }

abbrev reloaded : Table Str
reloaded = (revalidate_group storage changed.group_id 7000 recompiled).1

changed_listed : Memᴰ changed updated.routes
unfolding component_for cached refresh_after_update replace_route has_id str_eq
changed_listed = Memᴰ.head refl

changed-IsKnown : IsKnown compiler compiler (λ id. id) recompiled hit
unfolding component_for cached refresh_after_update replace_route has_id str_eq
changed-IsKnown = (changed, Memᴰ.head refl, refl, refl, refl)

no_other : HasDistinctIds (keep (λ r. not (in_group hit.group_id r)) recompiled.routes ++ hit ∷ [])
unfolding component_for cached refresh_after_update replace_route has_id in_group str_eq
no_other = (tt, tt)

one_hit :
    (fresh : List Route)
    → storage.routes_in_group changed.group_id ≡ ok fresh
    → All (IsAnnounced compiler compiler (λ id. id) (for_group changed.group_id) recompiled) fresh
      × HasDistinctIds (keep (λ r. not (in_group changed.group_id r)) recompiled.routes ++ fresh)
one_hit fresh read =
    subst
      (λ fresh.
        All (IsAnnounced compiler compiler (λ id. id) (for_group changed.group_id) recompiled) fresh
        × HasDistinctIds (keep (λ r. not (in_group changed.group_id r)) recompiled.routes ++ fresh))
      (ok-injective (hit ∷ []) fresh read) ((inl changed-IsKnown, tt), no_other)

reloaded-Reachable : Reachable compiler compiler (λ id. id) reloaded
unfolding for_group
reloaded-Reachable =
    let first : Reachable compiler compiler (λ id. id) loaded =
      Reachable.start loaded (tt, tt) refl refl in
    let second : Reachable compiler compiler (λ id. id) compiled =
      Reachable.next loaded compiled first (Step.component loaded charges (Memᴰ.head refl)) in
    let third : Reachable compiler compiler (λ id. id) updated =
      Reachable.next compiled updated second (Step.updated compiled changed) in
    let fourth : Reachable compiler compiler (λ id. id) recompiled =
      Reachable.next updated recompiled third (Step.component updated changed changed_listed) in
    Reachable.next recompiled reloaded fourth
      (Step.revalidated recompiled storage changed.group_id 7000 one_hit)

unfoldable caching : Unit {0}
unfolding revalidate_group reload_group claim too_soon lookup insert remove component_for cached
    refresh_after_update replace_route has_id in_group str_eq
caching = tt

still_listed : Memᴰ hit reloaded.routes
unfolding caching
still_listed = Memᴰ.head refl

-- The cache has the component of the new bytes.
cached_component : lookup hit.id reloaded.components ≡ some (codes "component:new")
unfolding caching
cached_component = refl

component_for-current_example :
    ((component_for compiler hit reloaded).0 ≡ component_of compiler compiler (λ id. id) hit)
    × ((engine_source_for compiler (λ id. id) hit reloaded).0
        ≡ script_of compiler compiler (λ id. id) hit)
component_for-current_example =
    component_for-current compiler compiler (λ id. id) reloaded hit reloaded-Reachable still_listed
