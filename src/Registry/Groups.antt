-- ===== src/Registry/Groups.antt =====
-- crates/wm-host/src/registry.rs: the operations on groups. The new id and the time of a creation are
-- arguments.
use wiremirage.Prelude.Text.{Str, codes, str_eq}
use wiremirage.Prelude.Blank.{is_blank}
use wiremirage.Prelude.Assoc.{Assoc}
use wiremirage.Prelude.Decimal.{pos, print}
use wiremirage.Prelude.{
  ℕ, Bool, true, false, not, Option, none, some, List, ◌==◌, ◌++◌, if◌then◌else◌,
}
use wiremirage.Naming.{is_valid_label}
use wiremirage.Store.Bucket
use wiremirage.Registry.{
  Route, Group, conflict, invalid_name, invalid_ttl, NewGroup, Codec, normalize_ttl,
  default_group_ttl_seconds, default_group_sliding_ttl,
}
use wiremirage.Registry.Action.{
  registry_error, Action, ◌>>=◌, ◌>>◌, fail, return, checked, if_found, for_each, collect_ok,
  collect, set, delete, delete_with_prefix, hash_set, hash_incr, set_members, from_answer,
}
use wiremirage.Registry.Records.{flag, unwrap_or}
use wiremirage.Registry.Stored.{
  group_key, route_key, by_name_key, group_owner_key, in_group_key, counters_key, all_groups,
  arm_group_ttl, arm_group_ttls, write_group, read_group, read_route,
}
use wiremirage.Registry.Names.{Draws, is_free, generate_group_name, resolved}

-- the name that a request asks for, or a generated one
unfoldable pub chosen_name : Draws → Str → Action Str
chosen_name draws name =
    if is_blank name
    then generate_group_name draws
    else if not (is_valid_label name)
    then fail (invalid_name name)
    else (do free ← is_free name; if free then return name else fail (conflict name))

unfoldable pub clear_group_state : Str → Action (Unit {0})
clear_group_state group_id = do
  n ← delete_with_prefix (codes "kv:" ++ (group_id ++ codes ":"))
  m ← delete_with_prefix (codes "gkv:" ++ (group_id ++ codes ":"))
  return tt

unfoldable pub clear_group_journal : Str → Action (Unit {0})
clear_group_journal group_id = do
  n ← delete_with_prefix (codes "journal:" ++ (group_id ++ codes ":"))
  m ← delete_with_prefix (codes "journal:by-number:" ++ (group_id ++ codes ":"))
  delete (counters_key group_id)

-- one entry of a bucket under a prefix
unfoldable pub set_under : Str → Str × Str → Action (Unit {0})
set_under prefix (key, value) store = from_answer (Bucket.set prefix store key value)

unfoldable pub set_group_state : Str → Assoc Str → Action (Unit {0})
set_group_state group_id entries =
    for_each (set_under (Bucket.group_prefix (codes "") group_id)) entries

module _ (codec : Codec) where
  unfoldable pub create_group : Draws → Str → ℕ → NewGroup → Action Group
  create_group draws id now params = do
    name ← chosen_name draws params.name
    ttl_seconds ← checked (normalize_ttl (unwrap_or default_group_ttl_seconds params.ttl_seconds))
    let group : Group = record {
      id = id;
      name = name;
      implicit = false;
      created_at = now;
      owner_id = params.owner_id;
      ttl_seconds = ttl_seconds;
      sliding_ttl = unwrap_or default_group_sliding_ttl params.sliding_ttl;
      callout_enabled = false;
      last_activity_at = none;
    }
    write_group codec group
    arm_group_ttls id name ttl_seconds
    return group

  unfoldable pub create_implicit_group : Draws → Str → ℕ → Str → Action Group
  create_implicit_group draws id now owner_id = do
    name ← generate_group_name draws
    let group : Group = record {
      id = id;
      name = name;
      implicit = true;
      created_at = now;
      owner_id = owner_id;
      ttl_seconds = default_group_ttl_seconds;
      sliding_ttl = default_group_sliding_ttl;
      callout_enabled = false;
      last_activity_at = none;
    }
    write_group codec group
    arm_group_ttls id name default_group_ttl_seconds
    return group

  unfoldable pub list_groups : Action (List Group)
  list_groups = do ids ← set_members all_groups; collect_ok (read_group codec) ids

  unfoldable pub list_groups_by_owner : Str → Action (List Group)
  list_groups_by_owner owner_id = do
    ids ← set_members (group_owner_key owner_id)
    collect_ok (read_group codec) ids

  unfoldable pub patch_ttl : Str → Option ℕ → Group → Action Group
  patch_ttl group_id none group = return group
  patch_ttl group_id (some seconds) group = do
    ttl ← checked (normalize_ttl seconds)
    hash_set (group_key group_id) (codes "ttl_seconds") (print ttl)
    arm_group_ttls group_id group.name ttl
    return (record group { ttl_seconds = ttl })

  unfoldable pub patch_sliding : Str → Option Bool → Group → Action Group
  patch_sliding group_id none group = return group
  patch_sliding group_id (some on) group = do
    hash_set (group_key group_id) (codes "sliding_ttl") (flag on)
    return (record group { sliding_ttl = on })

  unfoldable pub patch_callout : Str → Option Bool → Group → Action Group
  patch_callout group_id none group = return group
  patch_callout group_id (some on) group = do
    hash_set (group_key group_id) (codes "callout_enabled") (flag on)
    return (record group { callout_enabled = on })

  unfoldable pub patch_group : Str → Option ℕ → Option Bool → Option Bool → Action Group
  patch_group group_id ttl_seconds sliding_ttl callout_enabled = do
    group ← read_group codec group_id
    with_ttl ← patch_ttl group_id ttl_seconds group
    with_sliding ← patch_sliding group_id sliding_ttl with_ttl
    patch_callout group_id callout_enabled with_sliding

  unfoldable pub list_routes_in_group : Str → Action (List Route)
  list_routes_in_group group_id = do
    ids ← set_members (in_group_key group_id)
    collect (read_route codec) ids

  unfoldable pub write_group_name : Str → Route → Action (Unit {0})
  write_group_name new_name route = hash_set (route_key route.id) (codes "group_name") new_name

  unfoldable pub renamed : Str → Str → Group → Action Group
  renamed group_id new_name group = do
    free ← is_free new_name
    if not free then fail (conflict new_name) else (do
      hash_set (group_key group_id) (codes "name") new_name
      delete (by_name_key group.name)
      set (by_name_key new_name) group_id
      arm_group_ttl (by_name_key new_name) group.ttl_seconds
      routes ← list_routes_in_group group_id
      for_each (write_group_name new_name) routes
      return (record group { name = new_name }))

  unfoldable pub rename_group : Str → Str → Action Group
  rename_group group_ref new_name = do
    group_id ← resolved codec group_ref
    group ← read_group codec group_id
    if str_eq group.name new_name
        then return group
        else (if not (is_valid_label new_name)
            then fail (invalid_name new_name)
            else renamed group_id new_name group)

  unfoldable pub refresh_group_if_sliding : Str → Action Bool
  refresh_group_if_sliding group_id = do
    found ← if_found (read_group codec group_id)
    elim found [
      | none ↦ return false
      | some group ↦
          if not group.sliding_ttl
          then return false
          else if group.ttl_seconds == 0
          then return false
          else (do arm_group_ttls group_id group.name group.ttl_seconds; return true)
    ]

  unfoldable pub refresh_group : Str → Action Group
  refresh_group group_id = do
    group ← read_group codec group_id
    if group.ttl_seconds == 0
        then fail invalid_ttl
        else (do arm_group_ttls group_id group.name group.ttl_seconds; return group)

  unfoldable pub record_route_hit : Str → Str → ℕ → Action (Unit {0})
  record_route_hit group_id route_id when = do
    hash_set (route_key route_id) (codes "last_hit_at") (codec.to_rfc3339 when)
    hits ← hash_incr (route_key route_id) (codes "hits_total") (pos 1)
    hash_set (group_key group_id) (codes "last_activity_at") (codec.to_rfc3339 when)
