-- ===== src/Replica.antt =====
-- The registry of crates/wm-host/src/registry.rs behind the route table of
-- crates/wm-host/src/route_table.rs: a replica that reads its groups from the shared store.
mod Tests
use mathlib.Core.List.{Memᴰ}
use wiremirage.Prelude.Text.{Str, str_eq}
use wiremirage.Prelude.Members.{Memᴰ_right}
use wiremirage.Prelude.{true, not, List, ◌∷◌, ◌++◌, keep, Result, ok, All, ◌≡◌, refl, ap}
use wiremirage.Store.{MemStore}
use wiremirage.Store.Memory
use wiremirage.Registry.Stored.{in_group_key}
use wiremirage.Registry.{Route, Codec, RegistryError}
use wiremirage.Registry.Laws.{IsCodec, IsNewRoute}
use wiremirage.Registry.Stored.Keys.{IsUlid}
use wiremirage.Registry.Groups.{list_routes_in_group}
use wiremirage.Registry.Routes.{list_routes, routes_in_group, store_route}
use wiremirage.Registry.Routes.Written.{IsReady}
use wiremirage.Registry.Routes.Listed.{IsOther, listed_first}
use wiremirage.RouteTable.Cache.{RouteReads, Table, in_group, reload_group}

-- What the table reads, out of a store.
abbrev pub reads_of : Codec → MemStore → RouteReads RegistryError
reads_of codec m = record {
  list_routes = (list_routes codec m).0;
  routes_in_group = λ group_id. (routes_in_group codec group_id m).0;
}

module _ {C : Type 0} (codec : Codec) (t : Table C) where
  reload_group-routes :
      (m n : MemStore) (group_id : Str) (routes : List Route)
      → list_routes_in_group codec group_id m ≡ (ok routes, n)
      → (reload_group (reads_of codec m) group_id t).1.routes
        ≡ keep (λ r. not (in_group group_id r)) t.routes ++ routes
  unfolding reload_group routes_in_group
  reload_group-routes m n group_id routes listed = rw (listed, reload_group) refl

  -- A replica that reloads a group after a new route of it was stored keeps the routes of the other
  -- groups, and has of this group the new route and those that were listed before, if the new id is a
  -- ULID that no route of the group has, nothing stood under its key, its indexes were sets or missing,
  -- and the codec reads what it printed.
  pub store_route-reload_group :
      (route : Route) (m : MemStore) (ulid : IsUlid route.id) (ready : IsReady route m)
      (routes : List Route) (siblings : List Str)
      → IsCodec codec
      → IsNewRoute route
      → Memory.set_members m (in_group_key route.group_id) ≡ ok siblings
      → All (IsOther route) siblings
      → list_routes_in_group codec route.group_id m ≡ (ok routes, m)
      → (after : MemStore) × (store_route codec route m ≡ (ok tt, after))
        × ((reload_group (reads_of codec after) route.group_id t).1.routes
            ≡ keep (λ r. not (in_group route.group_id r)) t.routes ++ (route ∷ routes))
  store_route-reload_group route m ulid ready routes siblings laws new known others listed =
      let (after, run, ids, members, together) =
        listed_first codec route m ulid ready routes siblings laws new known others listed in
      (after, run, reload_group-routes after after route.group_id (route ∷ routes) together)
