-- ===== src/Registry/Tests.antt =====
-- The registry on a small store, with a codec of plain functions.
use wiremirage.Prelude.Text.{Str, codes}
use wiremirage.Prelude.Assoc.{lookup}
use wiremirage.Prelude.{none, some, List, [], ◌∷◌, ok, err, ◌≡◌, refl, ap₂, arith}
use wiremirage.Store.{MemStore}
use wiremirage.Store.Memory
use wiremirage.Store.Memory.{hash_keys}
use wiremirage.Registry.{RegistryError, Route, malformed}
use wiremirage.Registry.Run.{everything}
use wiremirage.Registry.Routes.{create_route}
use wiremirage.Registry.Deletion.{delete_route, cascade_delete_group}
use wiremirage.Registry.Deletion.Gone.{delete_route-not_found}
use wiremirage.Registry.{not_found}
use wiremirage.Registry.Stored.{group_key, route_key}
use wiremirage.Registry.Stored.Groups.{write_group-read_group}
use wiremirage.Registry.Action.{registry_error, ◌>>◌}
use wiremirage.Registry.Stored.{write_group, read_group, read_route}
use wiremirage.Registry.Groups.{list_routes_in_group}
use wiremirage.Registry.Routes.{
  new_route, store_route, route_id_at, add_route, precheck_create_conflict,
}
use wiremirage.Registry.Routes.Written.{store_route-read_route}
use wiremirage.Registry.Routes.Reads.{
  read_group-IsReading, read_route-IsReading, resolve_group-IsReading, resolved-IsReading,
  route_id_at-IsReading,
}
use wiremirage.Registry.Routes.Creation.{create_route-IsUnambiguous}
use wiremirage.Registry.Routes.Precheck.{create_route-precheck}
use wiremirage.RouteTable.Unambiguous.{IsUnambiguous}
use wiremirage.Pattern.{trim_slash}
use wiremirage.Registry.Names.{by_name, resolve_group, resolved, generate_group_name}
use wiremirage.Registry.Names.Free.{IsFree, generate_group_name-IsFree}
use wiremirage.Registry.Sample.{
  bye, demo_group, draws, group_id, hello, plain, plain-IsCodec, route_id, second,
  second-IsNewRoute, second-IsReady, second_id, team, team-IsNewGroup, team_id, with_group,
  with_route, with_second,
}

abbrev after_cascade : MemStore
after_cascade = (cascade_delete_group plain group_id with_route).1

-- The cascade leaves a field of each record, so that a second one meets a group that cannot be read.
cascade_tests :
    (hash_keys after_cascade (group_key group_id) ≡ ok (codes "callout_enabled" ∷ []))
    × (hash_keys after_cascade (route_key route_id) ≡ ok (codes "source" ∷ []))
    × ((cascade_delete_group plain group_id after_cascade).0 ≡ err (malformed (codes "id")))
unfolding everything
cascade_tests = (refl, refl, refl)

generate_group_name-IsFree_example :
    (name : Str) × (generate_group_name draws [] ≡ (ok name, [])) × IsFree [] name
unfolding Memory.get Memory.get_value lookup
generate_group_name-IsFree_example =
    generate_group_name-IsFree [] (λ name. (none, refl)) draws (omega arith)

write_group-read_group_example :
    (after : MemStore) × (write_group plain team with_group ≡ (ok tt, after))
    × (read_group plain team_id after ≡ (ok team, after))
    × (by_name (codes "team") after ≡ (ok (some team_id), after))
unfolding everything
write_group-read_group_example =
    write_group-read_group plain team with_group (record { full = refl; letters = refl })
      plain-IsCodec team-IsNewGroup (group_id ∷ []) (group_id ∷ []) refl refl refl

store_route-read_route_example :
    (after : MemStore) × (store_route plain second with_route ≡ (ok tt, after))
    × (read_route plain second_id after ≡ (ok second, after))
    × (route_id_at group_id 2 after ≡ (ok second_id, after))
unfolding new_route
store_route-read_route_example =
    store_route-read_route plain second with_route (record { full = refl; letters = refl })
      second-IsReady plain-IsCodec second-IsNewRoute

second_made :
    create_route plain draws team_id second_id 300 bye with_route ≡ (ok second, with_second)
unfolding everything
second_made = refl

create_route-IsUnambiguous_example :
    (routes : List Route) × (list_routes_in_group plain second.group_id with_route
      ≡ (ok routes, with_route))
    × (IsUnambiguous routes → IsUnambiguous (second ∷ routes))
create_route-IsUnambiguous_example =
    create_route-IsUnambiguous plain draws team_id 300 bye second_id (codes "demo") with_route
      with_second second refl second_made

found_answer : (resolve_group plain (codes "demo") with_route).0 ≡ ok (some group_id)
unfolding everything
found_answer = refl

read_answer : (read_group plain group_id with_route).0 ≡ ok demo_group
unfolding everything
read_answer = refl

demo_found : resolve_group plain (codes "demo") with_route ≡ (ok (some group_id), with_route)
demo_found =
    ap₂ (λ r m. (r, m)) found_answer (resolve_group-IsReading plain (codes "demo") with_route)

demo_read : read_group plain group_id with_route ≡ (ok demo_group, with_route)
demo_read = ap₂ (λ r m. (r, m)) read_answer (read_group-IsReading plain group_id with_route)

create_route-precheck_example :
    (create_route plain draws team_id second_id 300 hello with_route
      ≡ (precheck_create_conflict plain (some (codes "demo")) hello.methods hello.path
            >> add_route plain second_id 300 hello demo_group (trim_slash hello.path))
          with_route)
    × ((e : RegistryError)
        → (precheck_create_conflict plain
            (some (codes "demo"))
            hello.methods
            hello.path
            with_route).0
          ≡ err e
        → create_route plain draws team_id second_id 300 hello with_route ≡ (err e, with_route))
create_route-precheck_example =
    create_route-precheck plain draws team_id 300 hello (codes "demo") demo_group with_route
      second_id refl demo_found demo_read

-- The route of the store, as it was made.
abbrev first : Route
first = new_route route_id 200 hello demo_group hello.path 1

first_listed : (route_id_at group_id 1 with_route).0 ≡ ok route_id
unfolding everything
first_listed = refl

first_read : (read_route plain route_id with_route).0 ≡ ok first
unfolding everything
first_read = refl

resolved_answer : (resolved plain (codes "demo") with_route).0 ≡ ok group_id
unfolding everything
resolved_answer = refl

demo_resolved : resolved plain (codes "demo") with_route ≡ (ok group_id, with_route)
demo_resolved =
    ap₂ (λ r m. (r, m)) resolved_answer (resolved-IsReading plain (codes "demo") with_route)

delete_route-not_found_example :
    route_id_at group_id 1 (delete_route plain (codes "demo") 1 with_route).1
    ≡ (err not_found, (delete_route plain (codes "demo") 1 with_route).1)
unfolding new_route
delete_route-not_found_example =
    delete_route-not_found group_id 1 plain (codes "demo") route_id first with_route
      (record { full = refl; letters = refl }) demo_resolved
      (ap₂ (λ r m. (r, m)) first_listed (route_id_at-IsReading group_id 1 with_route))
      (ap₂ (λ r m. (r, m)) first_read (read_route-IsReading plain route_id with_route)) refl refl
