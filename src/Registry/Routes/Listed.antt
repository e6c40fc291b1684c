-- ===== src/Registry/Routes/Listed.antt =====
-- crates/wm-host/src/registry.rs: a route that was stored is listed with the others of its group.
use wiremirage.Prelude.Text.{Str, str_eq, mem_str}
use wiremirage.Prelude.{
  false, List, [], ◌∷◌, is_empty, ok, All, All-imp, inl, inr, Bool-cases, Result-cases, ◌≡◌, refl,
  sym, ap, ◌∙◌, arith,
}
use wiremirage.Store.{MemStore}
use wiremirage.Store.Memory
use wiremirage.Store.Memory.{with_member}
use wiremirage.Store.Bucket
use wiremirage.Registry.{Codec, Route}
use wiremirage.Registry.Action.{registry_error, collect}
use wiremirage.Store.Orders.{collect-permuted}
use mathlib.Core.List.{Permᴰ}
use wiremirage.Store.Reads.{collect-same, collect-IsReading, reading-run}
use wiremirage.Registry.Laws.{IsCodec, IsNewRoute}
use wiremirage.Registry.Stored.{in_group_key, route_key, read_route}
use wiremirage.Registry.Stored.Keys.{IsUlid}
use wiremirage.Registry.Groups.{list_routes_in_group}
use wiremirage.Registry.Routes.{store_route}
use wiremirage.Registry.Routes.Reads.{read_route-IsReading}
use wiremirage.Registry.Routes.Written.{IsReady, found_first, store_route-HasStored}

-- The id is one of a ULID, and not the route's.
abbrev pub IsOther : Route → Str → Type 0
IsOther route id = IsUlid id × (str_eq route.id id ≡ false)

others-not-member :
    (route : Route) (ids : List Str) → All (IsOther route) ids → mem_str route.id ids ≡ false
unfolding mem_str
others-not-member route [] h = refl
others-not-member route (id ∷ ids) ((ulid, apart), h) =
    ground (arith, apart, others-not-member route ids h)

added_first :
    (route : Route) (ids : List Str)
    → All (IsOther route) ids
    → with_member route.id ids ≡ route.id ∷ ids
unfolding with_member
added_first route ids h = rw (others-not-member route ids h, with_member) refl

module _ (codec : Codec) where
  read_route-same :
      (id : Str) (m n : MemStore)
      → Memory.hash_get_all n (route_key id) ≡ Memory.hash_get_all m (route_key id)
      → (read_route codec id n).0 ≡ (read_route codec id m).0
  unfolding read_route Bucket.hash_get_all Bucket.restored
  read_route-same id m n e = elim (Result-cases (Memory.hash_get_all m (route_key id))) [
    | inl (bad, h) ↦ rw (e ∙ h, h) refl
    | inr (fields, h) ↦ elim (Bool-cases (is_empty fields)) [
      | inl nothing ↦ rw (e ∙ h, h) (rw nothing refl)
      | inr some_fields ↦ rw (e ∙ h, h) (rw some_fields refl)
    ]
  ]

  list-members :
      (group_id : Str) (m : MemStore) (ids : List Str)
      → Memory.set_members m (in_group_key group_id) ≡ ok ids
      → list_routes_in_group codec group_id m ≡ collect (read_route codec) ids m
  unfolding list_routes_in_group Bucket.set_members Bucket.restored
  list-members group_id m ids e = rw e refl

  -- In whatever order the set of the group's routes gives its members, the listing reads a permutation
  -- of the routes.
  abbrev pub IsListing : Str → MemStore → List Route → Type 0
  IsListing group_id m routes =
      (ids : List Str) × (Memory.set_members m (in_group_key group_id) ≡ ok ids)
      × (list_routes_in_group codec group_id m ≡ collect (read_route codec) ids m)
      × ((order : List Str)
          → Permᴰ ids order
          → (listed : List Route) × (collect (read_route codec) order m ≡ (ok listed, m))
            × Permᴰ routes listed)

  -- In the order that the model keeps, the new route comes first.
  pub listed_first :
      (route : Route) (m : MemStore) (ulid : IsUlid route.id) (ready : IsReady route m)
      (routes : List Route) (siblings : List Str)
      → IsCodec codec
      → IsNewRoute route
      → Memory.set_members m (in_group_key route.group_id) ≡ ok siblings
      → All (IsOther route) siblings
      → list_routes_in_group codec route.group_id m ≡ (ok routes, m)
      → (after : MemStore) × (store_route codec route m ≡ (ok tt, after))
        × (ids : List Str) × (Memory.set_members after (in_group_key route.group_id) ≡ ok ids)
        × (list_routes_in_group codec route.group_id after ≡ (ok (route ∷ routes), after))
  unfolding collect read_route Bucket.hash_get_all Bucket.restored
  listed_first route m ulid ready routes siblings laws new known others listed =
      let (json, encoded, decoded) = laws.methods_read route.methods in
      let stored = store_route-HasStored codec route m ulid ready json encoded in
      let after = stored.result in
      let members = stored.members siblings known ∙ ap ok (added_first route siblings others) in
      let reads = read_route-IsReading codec in
      let before : (collect (read_route codec) siblings m).0 ≡ ok routes =
        ap (λ r. r.0) (sym (list-members route.group_id m siblings known) ∙ listed) in
      let kept = collect-same (read_route codec) m after siblings reads (
        All-imp (IsOther route) _ siblings
          (λ id other. read_route-same id m after (stored.others id other.0 other.1)) others) in
      let rest =
        reading-run (collect (read_route codec) siblings) after (ok routes)
          (collect-IsReading (read_route codec) siblings reads) (kept ∙ before) in
      (
        after,
        stored.run,
        route.id ∷ siblings,
        members,
        list-members route.group_id after (route.id ∷ siblings) members
            ∙ rw (found_first codec route after json laws new decoded stored.holds, rest) refl,
      )

  -- A new route with the id of a ULID that no route of its group has, stored where nothing stands under
  -- its key and its indexes are sets or missing, is listed with just the routes that its group had, in
  -- whatever order the set of the group's routes gives its members, if the codec reads what it printed.
  pub store_route-listed :
      (route : Route) (m : MemStore) (ulid : IsUlid route.id) (ready : IsReady route m)
      (routes : List Route) (siblings : List Str)
      → IsCodec codec
      → IsNewRoute route
      → Memory.set_members m (in_group_key route.group_id) ≡ ok siblings
      → All (IsOther route) siblings
      → list_routes_in_group codec route.group_id m ≡ (ok routes, m)
      → (after : MemStore) × (store_route codec route m ≡ (ok tt, after))
        × IsListing route.group_id after (route ∷ routes)
  store_route-listed route m ulid ready routes siblings laws new known others listed =
      let (after, run, ids, members, together) =
        listed_first route m ulid ready routes siblings laws new known others listed in
      let read = list-members route.group_id after ids members in
      (
        after,
        run,
        (
          ids,
          members,
          read,
          λ order shuffled.
              collect-permuted (read_route codec) after (read_route-IsReading codec) ids order
                (route ∷ routes) shuffled (sym read ∙ together),
        ),
      )
