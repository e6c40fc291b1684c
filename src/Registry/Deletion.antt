-- ===== src/Registry/Deletion.antt =====
-- crates/wm-host/src/registry.rs: the deletion of a route, and of a group with all that it holds.
pub mod Gone
use wiremirage.Prelude.Text.{Str, codes}
use wiremirage.Prelude.{ℕ, Option, none, some, List, [], ◌∷◌, ◌++◌, length}
use wiremirage.Store.Bucket.{route_prefix, group_prefix}
use wiremirage.Store.Action.{delete_fields}
use wiremirage.Registry.{Route, Group, Codec}
use wiremirage.Registry.Action.{
  registry_error, Action, ◌>>=◌, ◌>>◌, return, attempt, if_found, for_each, delete,
  delete_with_prefix, hash_delete, set_remove, set_members,
}
use wiremirage.Registry.Stored.{
  group_key, route_key, by_name_key, group_owner_key, in_group_key, counters_key, all_groups,
  all_routes, strip_route_indexes, read_group, read_route,
}
use wiremirage.Registry.Names.{resolved}
use wiremirage.Registry.Routes.{route_id_at}

-- The fields that `delete_route` deletes.
abbrev pub route_fields : List Str
route_fields =
    codes "id"
    ∷ codes "group_id"
    ∷ codes "group_name"
    ∷ codes "number"
    ∷ codes "methods"
    ∷ codes "path"
    ∷ codes "language"
    ∷ codes "bindings_version"
    ∷ codes "compiled_wasm"
    ∷ codes "source"
    ∷ codes "created_at"
    ∷ codes "owner_id"
    ∷ codes "hits_total"
    ∷ codes "last_hit_at"
    ∷ []

-- The fields that the cascade deletes of a route, and of the group.
abbrev pub cascade_route_fields : List Str
cascade_route_fields =
    codes "id"
    ∷ codes "group_id"
    ∷ codes "group_name"
    ∷ codes "number"
    ∷ codes "methods"
    ∷ codes "path"
    ∷ codes "language"
    ∷ codes "bindings_version"
    ∷ codes "compiled_wasm"
    ∷ codes "created_at"
    ∷ codes "owner_id"
    ∷ codes "hits_total"
    ∷ codes "last_hit_at"
    ∷ []

abbrev pub cascade_group_fields : List Str
cascade_group_fields =
    codes "id"
    ∷ codes "name"
    ∷ codes "implicit"
    ∷ codes "created_at"
    ∷ codes "owner_id"
    ∷ codes "ttl_seconds"
    ∷ codes "sliding_ttl"
    ∷ codes "last_activity_at"
    ∷ []

-- the indexes of a route, if its record was read
unfoldable pub strip_found : Option Route → Action (Unit {0})
strip_found none = return tt
strip_found (some route) = strip_route_indexes route

unfoldable pub drop_group_record : Str → Option Group → Action (Unit {0})
drop_group_record group_id none = return tt
drop_group_record group_id (some group) = do
  delete (by_name_key group.name)
  set_remove (group_owner_key group.owner_id) group_id
  delete_fields (group_key group_id) cascade_group_fields

module _ (codec : Codec) where
  unfoldable pub delete_route : Str → ℕ → Action (Unit {0})
  delete_route group_ref number = do
    group_id ← resolved codec group_ref
    route_id ← route_id_at group_id number
    route ← read_route codec route_id
    strip_route_indexes route
    n ← delete_with_prefix (route_prefix (codes "") route.group_id route.id)
    delete_fields (route_key route_id) route_fields

  unfoldable pub drop_route : Str → Str → Action (Unit {0})
  drop_route group_id route_id = do
    found ← attempt (read_route codec route_id)
    strip_found found
    n ← delete_with_prefix (route_prefix (codes "") group_id route_id)
    delete_fields (route_key route_id) cascade_route_fields
    set_remove all_routes route_id

  unfoldable pub cascade_delete_group : Str → Action ℕ
  cascade_delete_group group_id = do
    group ← if_found (read_group codec group_id)
    route_ids ← set_members (in_group_key group_id)
    for_each (drop_route group_id) route_ids
    delete (in_group_key group_id)
    a ← delete_with_prefix (group_prefix (codes "") group_id)
    b ← delete_with_prefix (codes "journal:" ++ (group_id ++ codes ":"))
    c ← delete_with_prefix (codes "journal:by-number:" ++ (group_id ++ codes ":"))
    delete (counters_key group_id)
    drop_group_record group_id group
    set_remove all_groups group_id
    return (length route_ids)
