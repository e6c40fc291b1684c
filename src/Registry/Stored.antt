-- ===== src/Registry/Stored.antt =====
-- crates/wm-host/src/registry.rs: the writes and reads of the records, with the keys they stand under.
pub mod Groups
pub mod Keys
pub mod Routes
use wiremirage.Prelude.Text.{Str, codes}
use wiremirage.Prelude.Decimal.{print}
use wiremirage.Prelude.{ℕ, zero, suc, Option, none, some, [], ◌∷◌, ◌++◌, is_empty, if◌then◌else◌}
use wiremirage.Store.Action.{set_ttl}
use wiremirage.Registry.{Route, Group, RegistryError, not_found, malformed, Codec}
use wiremirage.Registry.Action.{
  registry_error, Action, ◌>>=◌, ◌>>◌, fail, return, checked, require_some, get, set, delete,
  hash_get_all, hash_set, hash_delete, set_add, set_remove,
}
use wiremirage.Registry.Records.{flag, decode_group, decode_route}
use wiremirage.Prelude.Utf8.{from_utf8}

unfoldable pub group_key : Str → Str
group_key id = codes "group:" ++ id

unfoldable pub route_key : Str → Str
route_key id = codes "route:" ++ id

unfoldable pub by_name_key : Str → Str
by_name_key name = codes "group:by-name:" ++ name

unfoldable pub group_owner_key : Str → Str
group_owner_key owner_id = codes "group:owner:" ++ owner_id

unfoldable pub in_group_key : Str → Str
in_group_key group_id = codes "route:in-group:" ++ group_id

unfoldable pub by_owner_key : Str → Str
by_owner_key owner_id = codes "route:by-owner:" ++ owner_id

unfoldable pub by_number_key : Str → ℕ → Str
by_number_key group_id number = codes "route:by-number:" ++ (group_id ++ (b':' ∷ print number))

unfoldable pub counters_key : Str → Str
counters_key group_id = codes "group:counters:" ++ group_id

abbrev pub all_groups : Str
all_groups = codes "group:all"

abbrev pub all_routes : Str
all_routes = codes "route:all"

-- The in-memory store has no times to live: `clear_ttl` leaves it as it is.
unfoldable pub clear_ttl : Str → Action (Unit {0})
clear_ttl key = return tt

unfoldable pub arm_group_ttl : Str → ℕ → Action (Unit {0})
arm_group_ttl key zero = clear_ttl key
arm_group_ttl key (suc n) = set_ttl key (suc n)

unfoldable pub arm_group_ttls : Str → Str → ℕ → Action (Unit {0})
arm_group_ttls group_id name ttl_seconds = do
  arm_group_ttl (group_key group_id) ttl_seconds
  arm_group_ttl (by_name_key name) ttl_seconds

unfoldable pub strip_route_indexes : Route → Action (Unit {0})
strip_route_indexes route = do
  delete (by_number_key route.group_id route.number)
  set_remove (in_group_key route.group_id) route.id
  set_remove all_routes route.id
  set_remove (by_owner_key route.owner_id) route.id

unfoldable pub write_source : Str → Option Str → Action (Unit {0})
write_source key none = hash_delete key (codes "source")
write_source key (some src) = hash_set key (codes "source") src

module _ (codec : Codec) where
  -- the fields of the hash
  unfoldable pub write_group_fields : Str → Group → Action (Unit {0})
  write_group_fields key group = do
    hash_set key (codes "id") group.id
    hash_set key (codes "name") group.name
    hash_set key (codes "implicit") (flag group.implicit)
    hash_set key (codes "created_at") (codec.to_rfc3339 group.created_at)
    hash_set key (codes "owner_id") group.owner_id
    hash_set key (codes "ttl_seconds") (print group.ttl_seconds)
    hash_set key (codes "sliding_ttl") (flag group.sliding_ttl)
    hash_set key (codes "callout_enabled") (flag group.callout_enabled)

  unfoldable pub write_group : Group → Action (Unit {0})
  write_group group = do
    write_group_fields (group_key group.id) group
    set (by_name_key group.name) group.id
    set_add (group_owner_key group.owner_id) group.id
    set_add all_groups group.id

  unfoldable pub write_route_fields : Str → Route → Action (Unit {0})
  write_route_fields key route = do
    hash_set key (codes "id") route.id
    hash_set key (codes "group_id") route.group_id
    hash_set key (codes "group_name") route.group_name
    hash_set key (codes "number") (print route.number)
    json ← require_some (malformed (codes "methods")) (codec.to_vec route.methods)
    hash_set key (codes "methods") json
    hash_set key (codes "path") route.path
    hash_set key (codes "language") route.language
    hash_set key (codes "bindings_version") route.bindings_version
    hash_set key (codes "compiled_wasm") route.compiled_wasm
    write_source key route.source
    hash_set key (codes "created_at") (codec.to_rfc3339 route.created_at)
    hash_set key (codes "owner_id") route.owner_id

  unfoldable pub write_route : Route → Action (Unit {0})
  write_route route = write_route_fields (route_key route.id) route

  unfoldable pub read_group : Str → Action Group
  read_group group_id = do
    fields ← hash_get_all (group_key group_id)
    if is_empty fields then fail not_found else checked (decode_group codec fields)

  unfoldable pub read_route : Str → Action Route
  read_route route_id = do
    fields ← hash_get_all (route_key route_id)
    if is_empty fields then fail not_found else checked (decode_route codec fields)
