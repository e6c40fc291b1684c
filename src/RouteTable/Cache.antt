-- ===== src/RouteTable/Cache.antt =====
-- crates/wm-host/src/route_table.rs: the table as it is kept in step with the storage, and the
-- artifacts derived from its routes. The mutexes and the lock are not modelled: each operation is
-- one step. Times are numbers of milliseconds; `C` stands for wasmtime's `Component`.
pub mod RateLimit
pub mod Coherence
pub mod Ids
pub mod Preserved
pub mod Announced
pub mod Steps
pub mod Cascade
mod Tests
use wiremirage.Prelude.Text.{Str, str_eq}
use wiremirage.Prelude.Assoc.{Assoc, lookup, insert, remove}
use wiremirage.Prelude.{
  ℕ, ◌-◌, Bool, true, false, not, Option, none, some, List, [], ◌∷◌, ◌++◌, map, keep, is_empty, ltb,
  if◌then◌else◌, Result, ok, err,
}
use wiremirage.Registry.{Route}
use wiremirage.RouteTable.{MatchedRoute, find_match_filtered}

-- What the table reads of the registry (registry.rs, `list_routes` and `routes_in_group`).
pub record RouteReads (E : Type 0) : Type 0 where
  pub list_routes : Result E (List Route)
  pub routes_in_group : Str → Result E (List Route)

-- bus.rs: the message to the other replicas.
pub record RouteInvalidation : Type 0 where
  pub group_id : Str
  pub route_ids : List Str

unfoldable pub for_group : Str → RouteInvalidation
for_group group_id = record { group_id = group_id; route_ids = [] }

unfoldable pub with_routes : RouteInvalidation → List Str → RouteInvalidation
with_routes event ids = record event { route_ids = ids }

pub record Table (C : Type 0) : Type 0 where
  pub routes : List Route
  pub components : Assoc C
  pub engine_js : Assoc Str
  pub revalidated_at : Assoc ℕ
  pub revalidate_interval : ℕ

unfoldable pub in_group : Str → Route → Bool
in_group group_id r = str_eq r.group_id group_id

unfoldable pub has_id : Str → Route → Bool
has_id id r = str_eq r.id id

unfoldable pub remove_all {ℓ} : {V : Type ℓ} → List Str → Assoc V → Assoc V
remove_all [] m = m
remove_all (k ∷ ks) m = remove_all ks (remove k m)

-- `seen.get(group_id)` with less than the interval since then
unfoldable pub too_soon : Option ℕ → ℕ → ℕ → Bool
too_soon none now interval = false
too_soon (some last) now interval = ltb (now - last) interval

module _ {C : Type 0} where
  unfoldable pub claim : Str → ℕ → Table C → Table C
  claim group_id now t = record t { revalidated_at = insert group_id now t.revalidated_at }

  unfoldable pub evict : List Str → Table C → Table C
  evict ids t = record t {
    components = remove_all ids t.components;
    engine_js = remove_all ids t.engine_js;
  }

module _ {C E : Type 0} where
  unfoldable pub warm_with_revalidate_interval : RouteReads E → ℕ → Result E (Table C)
  warm_with_revalidate_interval reads interval = elim reads.list_routes [
    | err e ↦ err e
    | ok routes ↦ ok record {
      routes = routes;
      components = [];
      engine_js = [];
      revalidated_at = [];
      revalidate_interval = interval;
    }
  ]

  unfoldable pub reload_group : RouteReads E → Str → Table C → Bool × Table C
  reload_group reads group_id t = elim (reads.routes_in_group group_id) [
    | err e ↦ (false, t)
    | ok fresh ↦
        (true, record t { routes = keep (λ r. not (in_group group_id r)) t.routes ++ fresh })
  ]

  unfoldable pub revalidate_group : RouteReads E → Str → ℕ → Table C → Bool × Table C
  revalidate_group reads group_id now t =
      let reloaded = reload_group reads group_id (claim group_id now t) in
      if too_soon (lookup group_id t.revalidated_at) now t.revalidate_interval
      then (false, t)
      else reloaded

  unfoldable pub revalidate_and_rematch :
      RouteReads E → Str → Str → Str → Str → ℕ → Table C → Option MatchedRoute × Table C
  revalidate_and_rematch reads group_id group_name method path now t =
      let (reloaded, u) = revalidate_group reads group_id now t in
      (if reloaded then find_match_filtered (some group_name) method path u.routes else none, u)

  unfoldable pub reload_all : RouteReads E → Table C → Table C
  reload_all reads t = elim reads.list_routes [
    | err e ↦ t
    | ok fresh ↦ record t { routes = fresh; components = []; engine_js = []; revalidated_at = [] }
  ]

  unfoldable pub apply_invalidation : RouteReads E → RouteInvalidation → ℕ → Table C → Table C
  apply_invalidation reads event now t =
      let (reloaded, u) = reload_group reads event.group_id (evict event.route_ids t) in
      if reloaded then claim event.group_id now u else u

-- What a cache answers: the artifact it has, or the one derived now, which it then keeps.
unfoldable pub cached {ε ℓ} :
    {E : Type ε} {V : Type ℓ} → Str → Result E V → Assoc V → Result E V × Assoc V
cached id (err e) cache = elim (lookup id cache) [ none ↦ (err e, cache) | some v ↦ (ok v, cache) ]
cached id (ok derived) cache = elim (lookup id cache) [
  | none ↦ (ok derived, insert id derived cache)
  | some v ↦ (ok v, cache)
]

module _ {C E : Type 0} (from_binary : Str → Result E C) where
  unfoldable pub component_for : Route → Table C → Result E C × Table C
  component_for r t =
      let (answer, cache) = cached r.id (from_binary r.compiled_wasm) t.components in
      (answer, record t { components = cache })

module _ {C E : Type 0} (transpile : Str → Result E Str) (no_source : Str → E) where
  unfoldable pub engine_source_for : Route → Table C → Result E Str × Table C
  engine_source_for r t = elim r.source [
    | none ↦ (err (no_source r.id), t)
    | some source ↦
        let (answer, cache) = cached r.id (transpile source) t.engine_js in
        (answer, record t { engine_js = cache })
  ]

-- The first record with the route's id is replaced; if there is none, the route is added.
unfoldable pub replace_route : Route → List Route → List Route
replace_route r [] = r ∷ []
replace_route r (s ∷ routes) =
    let rest = replace_route r routes in if has_id r.id s then r ∷ routes else s ∷ rest

unfoldable pub rename_route : Str → Str → Route → Route
rename_route group_id name r = if in_group group_id r then record r { group_name = name } else r

-- The operations after a write; each gives the message that it publishes.
module _ {C : Type 0} where
  unfoldable pub refresh_after_create : Route → Table C → Table C × RouteInvalidation
  refresh_after_create r t = (record t { routes = t.routes ++ r ∷ [] }, for_group r.group_id)

  unfoldable pub refresh_after_delete : Str → Str → Table C → Table C × RouteInvalidation
  refresh_after_delete group_id id t = (
    record t {
      routes = keep (λ r. not (has_id id r)) t.routes;
      components = remove id t.components;
      engine_js = remove id t.engine_js;
    },
    with_routes (for_group group_id) (id ∷ []),
  )

  unfoldable pub refresh_after_update : Route → Table C → Table C × RouteInvalidation
  refresh_after_update r t = (
    record t {
      routes = replace_route r t.routes;
      components = remove r.id t.components;
      engine_js = remove r.id t.engine_js;
    },
    with_routes (for_group r.group_id) (r.id ∷ []),
  )

  unfoldable pub drop_group : Str → List Str → Table C → Table C
  drop_group group_id to_drop t = if is_empty to_drop then t else record t {
    routes = keep (λ r. not (in_group group_id r)) t.routes;
    components = remove_all to_drop t.components;
    engine_js = remove_all to_drop t.engine_js;
  }

  unfoldable pub refresh_after_group_cascade : Str → Table C → Table C × RouteInvalidation
  refresh_after_group_cascade group_id t =
      let to_drop = map Route.id (keep (in_group group_id) t.routes) in
      let u = drop_group group_id to_drop t in
      (
        record u { revalidated_at = remove group_id u.revalidated_at },
        with_routes (for_group group_id) to_drop,
      )

  unfoldable pub refresh_after_group_rename : Str → Str → Table C → Table C × RouteInvalidation
  refresh_after_group_rename group_id name t =
      (record t { routes = map (rename_route group_id name) t.routes }, for_group group_id)
