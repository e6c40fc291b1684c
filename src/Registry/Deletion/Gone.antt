-- ===== src/Registry/Deletion/Gone.antt =====
-- crates/wm-host/src/registry.rs: the number of a deleted route leads to nothing.
use wiremirage.Prelude.Text.{Str, codes, str_eq_comm, starts_with}
use wiremirage.Prelude.Assoc.{lookup, remove, lookup-remove_self}
use wiremirage.Prelude.{ℕ, false, none, ok, err, ◌≡◌, refl, ap, ap₂, ◌∙◌}
use wiremirage.Store.{MemStore}
use wiremirage.Store.Memory
use wiremirage.Store.Memory.{get_value}
use wiremirage.Store.Bucket
use wiremirage.Store.Bucket.{route_prefix}
use wiremirage.Registry.{RegistryError, Route, Codec, not_found}
use wiremirage.Registry.Action.{
  registry_error, ◌>>=◌, ◌>>◌, delete_with_prefix, hash_delete, set_remove,
}
use wiremirage.Registry.Stored.{
  route_key, in_group_key, by_owner_key, by_number_key, all_routes, strip_route_indexes, read_route,
}
use wiremirage.Registry.Stored.Keys.{
  IsUlid, by_number-route, number-in_group, number-all, number-owner,
}
use wiremirage.Registry.Names.{resolved}
use wiremirage.Registry.Routes.{route_id_at}
use wiremirage.Store.Keeps.{
  Keeps, after-Keeps, bind-Keeps, for_each-Keeps, set_remove-Keeps, hash_delete-Keeps,
  delete_with_prefix-Keeps,
}
use wiremirage.Registry.Deletion.{route_fields, delete_route}
use wiremirage.Store.Action.{delete_fields}

module _ (group_id : Str) (number : ℕ) where
  abbrev number_key : Str
  number_key = by_number_key group_id number

  indexes-Keeps :
      (route : Route)
      → Keeps {E = RegistryError} number_key (
          set_remove (in_group_key route.group_id) route.id
          >> (set_remove all_routes route.id >> set_remove (by_owner_key route.owner_id) route.id))
  indexes-Keeps route =
      let in_group = in_group_key route.group_id in
      let owner = by_owner_key route.owner_id in
      bind-Keeps {E = RegistryError} number_key (set_remove in_group route.id) _
        (set_remove-Keeps registry_error in_group route.id number_key
          (str_eq_comm in_group number_key ∙ number-in_group group_id route.group_id number))
        λ u.
          bind-Keeps {E = RegistryError} number_key (set_remove all_routes route.id) _
            (set_remove-Keeps registry_error all_routes route.id number_key
              (str_eq_comm all_routes number_key ∙ number-all group_id number))
            λ v.
              set_remove-Keeps registry_error owner route.id number_key
                (str_eq_comm owner number_key ∙ number-owner group_id route.owner_id number)

  kv-outside :
      (route : Route)
      → starts_with (route_prefix (codes "") route.group_id route.id) number_key ≡ false
  unfolding route_prefix by_number_key starts_with
  kv-outside route = refl

  record-Keeps :
      (route : Route) (route_id : Str)
      → IsUlid route_id
      → Keeps {E = RegistryError} number_key (
          delete_with_prefix (route_prefix (codes "") route.group_id route.id) >>= λ n.
          delete_fields (route_key route_id) route_fields)
  unfolding delete_fields
  record-Keeps route route_id ulid =
      let prefix = route_prefix (codes "") route.group_id route.id in
      bind-Keeps {E = RegistryError} number_key (delete_with_prefix prefix) _
        (delete_with_prefix-Keeps registry_error prefix number_key (kv-outside route))
        λ n.
          for_each-Keeps {E = RegistryError} number_key (hash_delete (route_key route_id))
            route_fields
            λ field. hash_delete-Keeps registry_error (route_key route_id) field number_key (
              str_eq_comm (route_key route_id) number_key
              ∙ by_number-route route_id group_id ulid number)

  stripped :
      (route : Route) (m : MemStore)
      → route.group_id ≡ group_id
      → route.number ≡ number
      → lookup number_key (strip_route_indexes route m).1 ≡ none
  unfolding strip_route_indexes Bucket.delete Memory.delete
  stripped route m same_group same_number =
      indexes-Keeps route (remove (by_number_key route.group_id route.number) m)
      ∙ ap (λ k. lookup number_key (remove k m)) (ap₂ by_number_key same_group same_number)
      ∙ lookup-remove_self number_key m

  missing :
      (m : MemStore)
      → lookup number_key m ≡ none
      → route_id_at group_id number m ≡ (err not_found, m)
  unfolding route_id_at Bucket.get Bucket.restored Memory.get get_value
  missing m gone = rw gone refl

  -- After the deletion of a route that its group and number lead to, and whose record names them, the
  -- number leads to nothing in that group, be it that a later step of the deletion fails, if the id is
  -- one of a ULID.
  pub delete_route-not_found :
      (codec : Codec) (group_ref route_id : Str) (route : Route) (m : MemStore)
      → IsUlid route_id
      → resolved codec group_ref m ≡ (ok group_id, m)
      → route_id_at group_id number m ≡ (ok route_id, m)
      → read_route codec route_id m ≡ (ok route, m)
      → route.group_id ≡ group_id
      → route.number ≡ number
      → route_id_at group_id number (delete_route codec group_ref number m).1
        ≡ (err not_found, (delete_route codec group_ref number m).1)
  unfolding delete_route
  delete_route-not_found codec group_ref route_id route m ulid found listed read same_group
        same_number =
      missing (delete_route codec group_ref number m).1 (
        rw (found, listed, read)
          (after-Keeps number_key _ (strip_route_indexes route m)
              (λ u. record-Keeps route route_id ulid)
            ∙ stripped route m same_group same_number))
