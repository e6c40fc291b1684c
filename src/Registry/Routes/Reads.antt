-- ===== src/Registry/Routes/Reads.antt =====
-- crates/wm-host/src/registry.rs: the lookups of groups and routes leave the store as it is.
use wiremirage.Prelude.Text.{Str}
use wiremirage.Prelude.{ℕ, Option, none, some, is_empty, is_some, ◌&&◌, not, refl}
use wiremirage.Prelude.Assoc.{lookup}
use wiremirage.Registry.{Codec, not_found}
use wiremirage.Registry.Action.{
  registry_error, hash_get_all, get, set_members, fail, checked, require_some,
}
use wiremirage.Store.Reads.{
  IsReading, bind-IsReading, if-IsReading, require_some-IsReading, collect-IsReading,
}
use wiremirage.Prelude.Utf8.{from_utf8}
use wiremirage.Registry.Stored.{
  read_group, read_route, group_key, route_key, by_name_key, by_number_key, in_group_key,
}
use wiremirage.Registry.Names.{named_id, by_name, resolve_group, resolved}
use wiremirage.Registry.Routes.{route_id_at}
use wiremirage.Registry.Groups.{list_routes_in_group}

named_id-IsReading : (entry : Option Str) → IsReading (named_id entry)
unfolding named_id
named_id-IsReading none m = refl
named_id-IsReading (some bytes) m =
    bind-IsReading (checked (from_utf8 bytes _)) _ (λ m. refl) (λ id n. refl) m

by_name-IsReading : (reference : Str) → IsReading (by_name reference)
unfolding by_name
by_name-IsReading reference =
    bind-IsReading (get (by_name_key reference)) _ (λ m. refl) named_id-IsReading

module _ (codec : Codec) where
  pub read_group-IsReading : (id : Str) → IsReading (read_group codec id)
  unfolding read_group
  read_group-IsReading id =
      bind-IsReading (hash_get_all (group_key id)) _ (λ m. refl)
        λ fields. if-IsReading (is_empty fields) (fail not_found) _ (λ m. refl) λ m. refl

  pub read_route-IsReading : (id : Str) → IsReading (read_route codec id)
  unfolding read_route
  read_route-IsReading id =
      bind-IsReading (hash_get_all (route_key id)) _ (λ m. refl)
        λ fields. if-IsReading (is_empty fields) (fail not_found) _ (λ m. refl) λ m. refl

  pub resolve_group-IsReading : (reference : Str) → IsReading (resolve_group codec reference)
  unfolding resolve_group
  resolve_group-IsReading reference =
      if-IsReading (codec.is_ulid reference && not (is_empty reference)) _ (by_name reference)
        (bind-IsReading (hash_get_all (group_key reference)) _ (λ m. refl)
          λ fields.
            if-IsReading (is_some (lookup _ fields)) _ (by_name reference) (λ m. refl)
              (by_name-IsReading reference))
        (by_name-IsReading reference)

  pub resolved-IsReading : (reference : Str) → IsReading (resolved codec reference)
  unfolding resolved
  resolved-IsReading reference =
      bind-IsReading (resolve_group codec reference) _ (resolve_group-IsReading reference)
        λ found. require_some-IsReading not_found found

  pub list_routes_in_group-IsReading : (id : Str) → IsReading (list_routes_in_group codec id)
  unfolding list_routes_in_group
  list_routes_in_group-IsReading id =
      bind-IsReading (set_members (in_group_key id)) _ (λ m. refl)
        λ ids. collect-IsReading (read_route codec) ids read_route-IsReading

pub route_id_at-IsReading : (group_id : Str) (number : ℕ) → IsReading (route_id_at group_id number)
unfolding route_id_at
route_id_at-IsReading group_id number =
    bind-IsReading (get (by_number_key group_id number)) _ (λ m. refl)
      λ entry.
        bind-IsReading (require_some not_found entry) _ (require_some-IsReading not_found entry)
          λ bytes m. refl
