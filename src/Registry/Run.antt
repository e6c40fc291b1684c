-- ===== src/Registry/Run.antt =====
-- The definitions that a test of the registry runs: `unfolding everything` opens them all.
use wiremirage.Prelude.Text.{
  starts_with, ends_with, strip_prefix, str_eq, strip_suffix, mem_str, contains,
}
use wiremirage.Prelude.Assoc.{lookup, insert, remove}
use wiremirage.Prelude.Decimal.{
  emit, print, scan_digits, parse_digits, parse_unsigned, difference, ◌+ℤ◌, in_i64, checked_add,
  print_i64, negated, parsed_pos, parsed_neg, parse_i64,
}
use wiremirage.Prelude.Utf8.{following, utf8_from, is_utf8}
use wiremirage.Prelude.Blank.{is_blank}
use wiremirage.Naming.{generate, label_byte, is_valid_label}
use wiremirage.Pattern.Run.{parser, conflicts}
use wiremirage.Store.Memory
use wiremirage.Store.Memory.{
  kind_of, mismatch, get_value, hash_value, hash_delete_value, set_value, set_remove_value,
  with_member, without_member, entry_keys,
}
use wiremirage.Store.Counters
use wiremirage.Store.Counters.{increased, stored, incr_field, write_field}
use wiremirage.Store.Bucket
use wiremirage.Store.Bucket.{strip, restore_user_key, restored, answer, route_prefix, group_prefix}
use wiremirage.Store.Action.{set_ttl}
use wiremirage.Registry.{render_slug, valid_method, check_methods, validate_methods, normalize_ttl}
use wiremirage.Registry.Action.{registry_error, for_each, collect, collect_ok}
use wiremirage.Registry.Records.{
  required, utf8, only_utf8, utf8_opt, parsed, transposed, unwrap_or, flag, is_one, parse_ts,
  decode_group, parse_hits, decode_route,
}
use wiremirage.Prelude.Utf8.{from_utf8}
use wiremirage.Registry.Stored.{
  group_key, route_key, by_name_key, group_owner_key, in_group_key, by_owner_key, by_number_key,
  counters_key, clear_ttl, arm_group_ttl, arm_group_ttls, strip_route_indexes, write_source,
  write_group_fields, write_group, write_route_fields, write_route, read_group, read_route,
}
use wiremirage.Registry.Names.{
  drawn, is_free, first_free, numbered, numbered_free, generate_group_name, named_id, by_name,
  resolve_group, resolved, read_group_by_ref,
}
use wiremirage.Registry.Groups.{
  chosen_name, clear_group_state, clear_group_journal, set_under, set_group_state, create_group,
  create_implicit_group, list_groups, list_groups_by_owner, patch_ttl, patch_sliding, patch_callout,
  patch_group, list_routes_in_group, write_group_name, renamed, rename_group,
  refresh_group_if_sliding, refresh_group, record_route_hit,
}
use wiremirage.Registry.Routes.{
  as_u32, parsed_path, is_excluded, first_conflict, or_same, patch_field, patch_source,
  patched_methods, patched_path, new_route, route_id_at, scan_pattern_conflict, group_for,
  store_route, add_route, create_route, get_route_by_slug, list_routes, list_routes_by_owner,
  routes_in_group, resolve_optional, precheck_create_conflict, clear_route_state, set_route_state,
  patch_methods, patch_conflict, apply_patch, update_route,
}
use wiremirage.Registry.Deletion.{
  strip_found, drop_group_record, delete_route, drop_route, cascade_delete_group,
}
use wiremirage.Store.Action.{delete_fields}

-- Everything.
unfoldable pub everything : Unit {0}
unfolding starts_with ends_with strip_prefix str_eq strip_suffix mem_str contains lookup insert
    remove emit print scan_digits parse_digits parse_unsigned difference ◌+ℤ◌ in_i64 checked_add
    print_i64 negated parsed_pos parsed_neg parse_i64 following utf8_from is_utf8 is_blank generate
    label_byte is_valid_label parser conflicts Memory.hash_keys Memory.get Memory.set Memory.delete
    Memory.hash_set Memory.hash_delete Memory.hash_get_all Memory.set_add Memory.set_remove
    Memory.set_members kind_of mismatch get_value hash_value hash_delete_value set_value
    set_remove_value with_member without_member entry_keys Counters.hash_incr increased stored
    incr_field write_field Bucket.get Bucket.set Bucket.delete Bucket.scan Bucket.list_keys
    Bucket.delete_keys Bucket.delete_with_prefix Bucket.hash_set Bucket.hash_delete
    Bucket.hash_get_all Bucket.hash_incr Bucket.set_add Bucket.set_remove Bucket.set_members strip
    restore_user_key restored answer route_prefix group_prefix render_slug valid_method
    check_methods validate_methods normalize_ttl for_each collect collect_ok from_utf8 required utf8
    only_utf8 utf8_opt parsed transposed unwrap_or flag is_one parse_ts decode_group parse_hits
    decode_route group_key route_key by_name_key group_owner_key in_group_key by_owner_key
    by_number_key counters_key set_ttl clear_ttl arm_group_ttl arm_group_ttls strip_route_indexes
    write_source write_group_fields write_group write_route_fields write_route read_group read_route
    drawn is_free first_free numbered numbered_free generate_group_name named_id by_name
    resolve_group resolved read_group_by_ref chosen_name clear_group_state clear_group_journal
    set_under set_group_state create_group create_implicit_group list_groups list_groups_by_owner
    patch_ttl patch_sliding patch_callout patch_group list_routes_in_group write_group_name renamed
    rename_group refresh_group_if_sliding refresh_group record_route_hit as_u32 parsed_path
    is_excluded first_conflict or_same patch_field patch_source patched_methods patched_path
    new_route route_id_at scan_pattern_conflict group_for store_route add_route create_route
    get_route_by_slug list_routes list_routes_by_owner routes_in_group resolve_optional
    precheck_create_conflict clear_route_state set_route_state patch_methods patch_conflict
    apply_patch update_route delete_fields strip_found drop_group_record delete_route drop_route
    cascade_delete_group
everything = tt
