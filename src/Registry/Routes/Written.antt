-- ===== src/Registry/Routes/Written.antt =====
-- crates/wm-host/src/registry.rs: a new route is written, and found by its id and by its number.
use wiremirage.Prelude.Text.{Str, str_eq}
use wiremirage.Prelude.Assoc.{lookup, insert, lookup-insert_self}
use wiremirage.Prelude.{some, false, List, [], ok, ok-injective, ◌≡◌, refl, sym, ap, ◌∙◌}
use wiremirage.Store.{MemStore, bytes, member_set}
use wiremirage.Store.Memory
use wiremirage.Store.Memory.{with_member, get_value}
use wiremirage.Store.Bucket
use wiremirage.Registry.Action.{registry_error}
use wiremirage.Registry.{Codec, Route}
use wiremirage.Prelude.Utf8.{from_utf8}
use wiremirage.Registry.Laws.{IsCodec, IsNewRoute}
use wiremirage.Registry.Stored.{
  route_key, in_group_key, by_owner_key, by_number_key, all_routes, write_route, read_route,
}
use wiremirage.Registry.Stored.Keys.{
  IsUlid, in_group-route, by_owner-route, by_number-route, all-route, route-route, number-in_group,
  number-all, number-owner, in_group-all, in_group-owner, all-owner,
}
use wiremirage.Store.Runs.{
  set-run, set_add-run, members_kept, members_framed, fields_kept, fields_framed, members_inserted,
  members_apart, lookup-insert_apart,
}
use wiremirage.Registry.Stored.Routes.{
  stored_fields, write_route_fields-Runs, stored_fields-not-empty, decode_route-fields,
}
use wiremirage.Store.Runs.{Holds}
use wiremirage.Registry.Routes.{store_route, route_id_at}

-- The indexes that a new route is added to are sets, or are not there.
pub record IsReady (route : Route) (m : MemStore) : Type 0 where
  pub siblings : List Str
  pub every : List Str
  pub owned : List Str
  pub fresh : Holds (route_key route.id) m []
  pub siblings_set : Memory.set_members m (in_group_key route.group_id) ≡ ok siblings
  pub all_set : Memory.set_members m all_routes ≡ ok every
  pub owned_set : Memory.set_members m (by_owner_key route.owner_id) ≡ ok owned

-- The store that `store_route` leaves, and the run that gives it.
pub record HasStored (codec : Codec) (json : Str) (route : Route) (m : MemStore) : Type 0 where
  pub result : MemStore
  pub run : store_route codec route m ≡ (ok tt, result)
  pub holds : Holds (route_key route.id) result (stored_fields codec json route [])
  pub numbered : lookup (by_number_key route.group_id route.number) result ≡ some (bytes route.id)
  pub members :
      (siblings : List Str)
      → Memory.set_members m (in_group_key route.group_id) ≡ ok siblings
      → Memory.set_members result (in_group_key route.group_id) ≡ ok (with_member route.id siblings)
  pub others :
      (id : Str)
      → IsUlid id
      → str_eq route.id id ≡ false
      → Memory.hash_get_all result (route_key id) ≡ Memory.hash_get_all m (route_key id)

pub found_first :
    (codec : Codec) (route : Route) (m : MemStore) (json : Str)
    → IsCodec codec
    → IsNewRoute route
    → codec.from_slice json ≡ some route.methods
    → Holds (route_key route.id) m (stored_fields codec json route [])
    → read_route codec route.id m ≡ (ok route, m)
unfolding read_route Bucket.hash_get_all Bucket.restored
found_first codec route m json laws new decoded holds = rw holds (
    rw
      (
        stored_fields-not-empty codec json route [],
        decode_route-fields codec json laws route new decoded,
      )
      refl)

module _ (codec : Codec) (route : Route) (m : MemStore) (ulid : IsUlid route.id)
    (ready : IsReady route m) where
  pub store_route-HasStored :
      (json : Str) → codec.to_vec route.methods ≡ some json → HasStored codec json route m
  unfolding store_route write_route
  store_route-HasStored json encoded =
      let key = route_key route.id in
      let number_key = by_number_key route.group_id route.number in
      let group_key = in_group_key route.group_id in
      let owner_key = by_owner_key route.owner_id in
      let fields = write_route_fields-Runs codec json key route encoded m [] ready.fresh in
      let m₁ = insert number_key (bytes route.id) fields.result in
      let m₂ = insert group_key (member_set (with_member route.id ready.siblings)) m₁ in
      let m₃ = insert all_routes (member_set (with_member route.id ready.every)) m₂ in
      let siblings_there : Memory.set_members m₁ group_key ≡ ok ready.siblings =
        members_kept number_key group_key _ fields.result
          (number-in_group route.group_id route.group_id route.number)
        ∙ members_framed key group_key m fields.result fields.frame
            (in_group-route route.id route.group_id ulid)
        ∙ ready.siblings_set in
      let all_there : Memory.set_members m₂ all_routes ≡ ok ready.every =
        members_kept group_key all_routes _ m₁ (in_group-all route.group_id)
        ∙ members_kept number_key all_routes _ fields.result
            (number-all route.group_id route.number)
        ∙ members_framed key all_routes m fields.result fields.frame (all-route route.id ulid)
        ∙ ready.all_set in
      let owned_there : Memory.set_members m₃ owner_key ≡ ok ready.owned =
        members_kept all_routes owner_key _ m₂ (all-owner route.owner_id)
        ∙ members_kept group_key owner_key _ m₁ (in_group-owner route.group_id route.owner_id)
        ∙ members_kept number_key owner_key _ fields.result
            (number-owner route.group_id route.owner_id route.number)
        ∙ members_framed key owner_key m fields.result fields.frame
            (by_owner-route route.id route.owner_id ulid)
        ∙ ready.owned_set in
      record {
        result = insert owner_key (member_set (with_member route.id ready.owned)) m₃;
        run =
            rw
              (
                fields.run,
                set-run registry_error number_key route.id fields.result,
                set_add-run registry_error group_key route.id m₁ siblings_there,
                set_add-run registry_error all_routes route.id m₂ all_there,
                set_add-run registry_error owner_key route.id m₃ owned_there,
              )
              refl;
        holds =
            fields_kept owner_key key _ m₃ (by_owner-route route.id route.owner_id ulid)
            ∙ fields_kept all_routes key _ m₂ (all-route route.id ulid)
            ∙ fields_kept group_key key _ m₁ (in_group-route route.id route.group_id ulid)
            ∙ fields_kept number_key key _ fields.result
                (by_number-route route.id route.group_id ulid route.number)
            ∙ fields.holds;
        numbered =
            lookup-insert_apart number_key owner_key _ m₃
              (number-owner route.group_id route.owner_id route.number)
            ∙ lookup-insert_apart number_key all_routes _ m₂
                (number-all route.group_id route.number)
            ∙ lookup-insert_apart number_key group_key _ m₁
                (number-in_group route.group_id route.group_id route.number)
            ∙ lookup-insert_self number_key (bytes route.id) fields.result;
        members = λ siblings known.
            members_apart group_key owner_key _ m₃ (in_group-owner route.group_id route.owner_id)
            ∙ members_apart group_key all_routes _ m₂ (in_group-all route.group_id)
            ∙ members_inserted group_key (with_member route.id ready.siblings) m₁
            ∙ ap (λ s. ok (with_member route.id s))
                (ok-injective ready.siblings siblings (sym ready.siblings_set ∙ known));
        others = λ id its apart.
            fields_kept owner_key (route_key id) _ m₃ (by_owner-route id route.owner_id its)
            ∙ fields_kept all_routes (route_key id) _ m₂ (all-route id its)
            ∙ fields_kept group_key (route_key id) _ m₁ (in_group-route id route.group_id its)
            ∙ fields_kept number_key (route_key id) _ fields.result
                (by_number-route id route.group_id its route.number)
            ∙ fields_framed key (route_key id) m fields.result fields.frame
                (route-route route.id id apart);
      }

  -- A new route with the id of a ULID, stored where nothing stands under its key and its indexes are
  -- sets or missing, is stored without an error, is read back as it was, and is what its number in
  -- its group leads to, if the codec reads what it printed.
  pub store_route-read_route :
      IsCodec codec
      → IsNewRoute route
      → (after : MemStore) × (store_route codec route m ≡ (ok tt, after))
        × (read_route codec route.id after ≡ (ok route, after))
        × (route_id_at route.group_id route.number after ≡ (ok route.id, after))
  unfolding read_route route_id_at from_utf8 Bucket.get Bucket.hash_get_all Bucket.restored
      Memory.get get_value
  store_route-read_route laws new =
      let (json, encoded, decoded) = laws.methods_read route.methods in
      let stored = store_route-HasStored json encoded in
      (
        stored.result,
        stored.run,
        found_first codec route stored.result json laws new decoded stored.holds,
        rw (stored.numbered) (rw (new.id_text) refl),
      )
