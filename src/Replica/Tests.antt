-- ===== src/Replica/Tests.antt =====
-- A second route of the sample store, and a replica that reloads its group.
use wiremirage.Prelude.Text.{str_eq}
use wiremirage.Prelude.{not, [], ◌∷◌, ◌++◌, keep, ok, All, ◌≡◌, refl, ap₂}
use wiremirage.Store.{MemStore}
use wiremirage.Store.Memory
use wiremirage.Registry.Stored.{in_group_key}
use wiremirage.Registry.{Route}
use wiremirage.Registry.Run.{everything}
use wiremirage.Registry.Stored.Keys.{IsUlid}
use wiremirage.Registry.Groups.{list_routes_in_group}
use wiremirage.Registry.Routes.{new_route, store_route}
use wiremirage.Registry.Routes.Listed.{IsListing, IsOther, store_route-listed}
use wiremirage.Registry.Routes.Reads.{list_routes_in_group-IsReading}
use wiremirage.Registry.Sample.{
  plain, group_id, route_id, second, hello, demo_group, with_route, plain-IsCodec, second-IsReady,
  second-IsNewRoute,
}
use wiremirage.RouteTable.Cache.{Table, in_group, reload_group}
use wiremirage.Replica.{reads_of, store_route-reload_group}

abbrev first : Route
first = new_route route_id 200 hello demo_group hello.path 1

listed_answer : (list_routes_in_group plain group_id with_route).0 ≡ ok (first ∷ [])
unfolding everything
listed_answer = refl

listed : list_routes_in_group plain second.group_id with_route ≡ (ok (first ∷ []), with_route)
unfolding new_route
listed =
    ap₂ (λ r m. (r, m)) listed_answer (list_routes_in_group-IsReading plain group_id with_route)

second-IsUlid : IsUlid second.id
unfolding new_route
second-IsUlid = record { full = refl; letters = refl }

siblings_known : Memory.set_members with_route (in_group_key second.group_id) ≡ ok (route_id ∷ [])
unfolding everything
siblings_known = refl

-- No other route of the group has the new id.
others : All (IsOther second) (route_id ∷ [])
unfolding new_route str_eq
others = ((record { full = refl; letters = refl }, refl), tt)

store_route-listed_example :
    (after : MemStore) × (store_route plain second with_route ≡ (ok tt, after))
    × IsListing plain second.group_id after (second ∷ first ∷ [])
store_route-listed_example =
    store_route-listed plain second with_route second-IsUlid second-IsReady (first ∷ [])
      (route_id ∷ []) plain-IsCodec second-IsNewRoute siblings_known others listed

abbrev table : Table (Unit {0})
table = record {
  routes = first ∷ [];
  components = [];
  engine_js = [];
  revalidated_at = [];
  revalidate_interval = 5000;
}

store_route-reload_group_example :
    (after : MemStore) × (store_route plain second with_route ≡ (ok tt, after))
    × ((reload_group (reads_of plain after) second.group_id table).1.routes
        ≡ keep (λ r. not (in_group second.group_id r)) table.routes ++ (second ∷ first ∷ []))
store_route-reload_group_example =
    store_route-reload_group plain table second with_route second-IsUlid second-IsReady (first ∷ [])
      (route_id ∷ []) plain-IsCodec second-IsNewRoute siblings_known others listed
