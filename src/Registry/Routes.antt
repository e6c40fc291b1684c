-- ===== src/Registry/Routes.antt =====
-- crates/wm-host/src/registry.rs: the operations on routes. New ids and times are arguments: those of
-- the route and those of the group that is made for a route without one.
pub mod Written
pub mod Reads
pub mod Conflicts
pub mod Creation
pub mod Precheck
pub mod Listed
use wiremirage.Prelude.Text.{Str, codes, str_eq}
use wiremirage.Prelude.Assoc.{Assoc}
use wiremirage.Prelude.Decimal.{ℤ, pos, negsuc, max_u32}
use wiremirage.Prelude.{
  ℕ, suc, ◌+◌, ◌-◌, ◌%◌, ◌^◌, Bool, true, false, ◌||◌, Option, none, some, List, [], ◌∷◌, ◌++◌,
  is_some, if◌then◌else◌, Result, ok, err,
}
use wiremirage.Pattern.{Methods, Pattern, PatternError, parse, routes_conflict}
use wiremirage.Store.Bucket
use wiremirage.Registry.{
  Route, Group, RegistryError, not_found, conflict, malformed, invalid_path, NewRoute, PatchRoute,
  Codec, render_slug, validate_methods,
}
use wiremirage.Registry.Action.{
  registry_error, Action, ◌>>=◌, ◌>>◌, fail, return, checked, require_some, for_each, collect, get,
  set, delete_with_prefix, hash_set, hash_delete, hash_incr, set_add, set_members,
}
use wiremirage.Registry.Records.{unwrap_or}
use wiremirage.Prelude.Utf8.{from_utf8}
use wiremirage.Registry.Stored.{
  route_key, in_group_key, by_owner_key, by_number_key, counters_key, all_routes, write_route,
  write_source, read_group, read_route,
}
use wiremirage.Registry.Names.{Draws, resolve_group, resolved}
use wiremirage.Registry.Groups.{create_implicit_group, list_routes_in_group, set_under}

-- `as u32`
unfoldable pub as_u32 : ℤ → ℕ
as_u32 (pos n) = n % 2 ^ 32
as_u32 (negsuc n) = (2 ^ 64 - suc n) % 2 ^ 32

-- `RegistryError::InvalidPath`, by `From`
unfoldable pub parsed_path : Str → Result RegistryError Pattern
parsed_path path = elim (parse path) [ ok p ↦ ok p | err e ↦ err (invalid_path e) ]

unfoldable pub is_excluded : Option Str → Route → Bool
is_excluded none existing = false
is_excluded (some id) existing = str_eq id existing.id

-- The scan of the routes of one group.
unfoldable pub first_conflict :
    Methods → Pattern → Option Str → List Route → Result RegistryError (Unit {0})
first_conflict new_methods new_pattern exclude_id [] = ok tt
first_conflict new_methods new_pattern exclude_id (existing ∷ routes) =
    let rest = first_conflict new_methods new_pattern exclude_id routes in
    if is_excluded exclude_id existing then rest else elim (parsed_path existing.path) [
      | err e ↦ err e
      | ok existing_pattern ↦
          if routes_conflict new_methods new_pattern existing.methods existing_pattern
          then err (conflict (render_slug existing.group_name existing.number))
          else rest
    ]

unfoldable pub or_same {ℓ} : {A : Type ℓ} → Option A → A → A
or_same none a = a
or_same (some b) a = b

-- `PatchRoute`, one field: nothing, or a write to the hash
unfoldable pub patch_field : Str → Str → Option Str → Action (Unit {0})
patch_field key name none = return tt
patch_field key name (some value) = hash_set key name value

unfoldable pub patch_source : Str → Option (Option Str) → Action (Unit {0})
patch_source key none = return tt
patch_source key (some src) = write_source key src

-- the methods of a patch, if there are any
unfoldable pub patched_methods : Option Methods → Methods → Result RegistryError Methods
patched_methods none methods = ok methods
patched_methods (some new_methods) methods = validate_methods new_methods

unfoldable pub patched_path : Option Str → Str → Result RegistryError Str
patched_path none path = ok path
patched_path (some new_path) path = elim (parsed_path new_path) [ ok p ↦ ok p.raw | err e ↦ err e ]

unfoldable pub new_route : Str → ℕ → NewRoute → Group → Str → ℕ → Route
new_route id now params group raw number = record {
  id = id;
  group_id = group.id;
  group_name = group.name;
  number = number;
  methods = params.methods;
  path = raw;
  language = params.language;
  bindings_version = params.bindings_version;
  compiled_wasm = params.compiled_wasm;
  source = params.source;
  created_at = now;
  owner_id = params.owner_id;
  hits_total = 0;
  last_hit_at = none;
}

-- the id under a number of a group
unfoldable pub route_id_at : Str → ℕ → Action Str
route_id_at group_id number = do
  entry ← get (by_number_key group_id number)
  bytes ← require_some not_found entry
  checked (from_utf8 bytes (malformed (codes "route ulid")))

module _ (codec : Codec) where
  unfoldable pub scan_pattern_conflict : Str → Methods → Pattern → Option Str → Action (Unit {0})
  scan_pattern_conflict group_id new_methods new_pattern exclude_id = do
    routes ← list_routes_in_group codec group_id
    checked (first_conflict new_methods new_pattern exclude_id routes)

  unfoldable pub group_for : Draws → Str → ℕ → NewRoute → Action Group
  group_for draws group_id now params = elim params.group [
    | none ↦ create_implicit_group codec draws group_id now params.owner_id
    | some reference ↦ do id ← resolved codec reference; read_group codec id
  ]

  -- the record and the indexes of a new route
  unfoldable pub store_route : Route → Action (Unit {0})
  store_route route = do
    write_route codec route
    set (by_number_key route.group_id route.number) route.id
    set_add (in_group_key route.group_id) route.id
    set_add all_routes route.id
    set_add (by_owner_key route.owner_id) route.id

  -- the numbering of a route that passed the checks
  unfoldable pub add_route : Str → ℕ → NewRoute → Group → Str → Action Route
  add_route route_id now params group raw = do
    n ← hash_incr (counters_key group.id) (codes "next_route_number") (pos 1)
    let route = new_route route_id now params group raw (as_u32 n)
    store_route route
    return route

  unfoldable pub create_route : Draws → Str → Str → ℕ → NewRoute → Action Route
  create_route draws group_id route_id now params = do
    new_pattern ← checked (parsed_path params.path)
    new_methods ← checked (validate_methods params.methods)
    group ← group_for draws group_id now params
    scan_pattern_conflict group.id new_methods new_pattern none
    add_route route_id now params group new_pattern.raw

  unfoldable pub get_route_by_slug : Str → ℕ → Action Route
  get_route_by_slug group_ref number = do
    group_id ← resolved codec group_ref
    route_id ← route_id_at group_id number
    read_route codec route_id

  unfoldable pub list_routes : Action (List Route)
  list_routes = do ids ← set_members all_routes; collect (read_route codec) ids

  unfoldable pub list_routes_by_owner : Str → Action (List Route)
  list_routes_by_owner owner_id = do
    ids ← set_members (by_owner_key owner_id)
    collect (read_route codec) ids

  unfoldable pub routes_in_group : Str → Action (List Route)
  routes_in_group group_id = list_routes_in_group codec group_id

  unfoldable pub resolve_optional : Option Str → Action (Option Str)
  resolve_optional none = return none
  resolve_optional (some reference) = resolve_group codec reference

  unfoldable pub precheck_create_conflict : Option Str → Methods → Str → Action (Unit {0})
  precheck_create_conflict group_ref methods path = do
    new_pattern ← checked (parsed_path path)
    new_methods ← checked (validate_methods methods)
    found ← resolve_optional group_ref
    elim found [
      | none ↦ return tt
      | some group_id ↦ scan_pattern_conflict group_id new_methods new_pattern none
    ]

  unfoldable pub clear_route_state : Str → ℕ → Action ℕ
  clear_route_state group_ref number = do
    route ← get_route_by_slug group_ref number
    delete_with_prefix (Bucket.route_prefix (codes "") route.group_id route.id)

  unfoldable pub set_route_state : Str → ℕ → Assoc Str → Action (Unit {0})
  set_route_state group_ref number entries = do
    route ← get_route_by_slug group_ref number
    for_each (set_under (Bucket.route_prefix (codes "") route.group_id route.id)) entries

  unfoldable pub patch_methods : Str → Option Methods → Action (Unit {0})
  patch_methods key none = return tt
  patch_methods key (some methods) = do
    json ← require_some (malformed (codes "methods")) (codec.to_vec methods)
    hash_set key (codes "methods") json

  -- the scan for a patch, which is left out if neither methods nor path change
  unfoldable pub patch_conflict : PatchRoute → Route → Methods → Str → Action (Unit {0})
  patch_conflict patch route new_methods new_path =
      if is_some patch.methods || is_some patch.path
      then (do
        new_pattern ← checked (parsed_path new_path)
        scan_pattern_conflict route.group_id new_methods new_pattern (some route.id))
      else return tt

  unfoldable pub apply_patch : PatchRoute → Str → Str → Route → Action Route
  apply_patch patch route_id new_path route = do
    let key = route_key route_id
    patch_methods key patch.methods
    patch_field key (codes "path") (if is_some patch.path then some new_path else none)
    patch_field key (codes "language") patch.language
    patch_field key (codes "bindings_version") patch.bindings_version
    patch_field key (codes "compiled_wasm") patch.compiled_wasm
    patch_source key patch.source
    return (record route {
      methods = or_same patch.methods route.methods;
      path = new_path;
      language = or_same patch.language route.language;
      bindings_version = or_same patch.bindings_version route.bindings_version;
      compiled_wasm = or_same patch.compiled_wasm route.compiled_wasm;
      source = or_same patch.source route.source;
    })

  unfoldable pub update_route : Str → ℕ → PatchRoute → Action Route
  update_route group_ref number patch = do
    group_id ← resolved codec group_ref
    route_id ← route_id_at group_id number
    route ← read_route codec route_id
    new_methods ← checked (patched_methods patch.methods route.methods)
    new_path ← checked (patched_path patch.path route.path)
    patch_conflict patch route new_methods new_path
    apply_patch patch route_id new_path route
