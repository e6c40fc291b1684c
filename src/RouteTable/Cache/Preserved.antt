-- ===== src/RouteTable/Cache/Preserved.antt =====
-- What each operation of crates/wm-host/src/route_table.rs does to caches that fit the listed routes:
-- they fit the routes afterwards.
use mathlib.Core.List.{Memᴰ}
use wiremirage.Prelude.Text.{Str}
use wiremirage.Prelude.Assoc.{lookup}
use wiremirage.Prelude.Members.{keep-Memᴰ}
use wiremirage.Prelude.{
  not, none, some, List, [], ◌∷◌, map, Result, err, ◌≡◌, refl, ap, ◌⊎◌, inl, inr, keep, All,
  Bool-cases, subst, Option-cases,
}
use wiremirage.Registry.{Route}
use wiremirage.RouteTable.Cache.{
  RouteInvalidation, Table, component_for, engine_source_for, refresh_after_create,
  refresh_after_delete, refresh_after_update, refresh_after_group_cascade,
  refresh_after_group_rename, rename_route, cached, in_group, has_id, drop_group,
}
use wiremirage.RouteTable.Cache.Coherence.{
  IsFresh, IsFunctional, added-IsFresh, renamed-IsFresh, remove-IsFresh, remove_all-IsFresh,
  cached-IsFresh,
}
use wiremirage.RouteTable.Cache.Ids.{
  HasDistinctIds, DiffersFrom, same_id-eq, keep-HasDistinctIds, added-HasDistinctIds,
  replace_route-Memᴰ, replace_route-HasDistinctIds, rename_route-HasDistinctIds,
}

module _ {C E : Type 0} (from_binary : Str → Result E C) (transpile : Str → Result E Str)
    (no_source : Str → E) where
  abbrev pub component_of : Route → Result E C
  component_of r = from_binary r.compiled_wasm

  abbrev pub script_of : Route → Result E Str
  script_of r = elim r.source [ none ↦ err (no_source r.id) | some source ↦ transpile source ]

  -- The ids are distinct, and each cached artifact of a listed route is the one of its record.
  pub record IsCoherent (t : Table C) : Type 0 where
    pub distinct : HasDistinctIds t.routes
    pub components : IsFresh component_of t.routes t.components
    pub scripts : IsFresh script_of t.routes t.engine_js

  -- Nothing is cached under the id.
  abbrev pub IsUncached : Str → Table C → Type 0
  IsUncached id t = (lookup id t.components ≡ none) × (lookup id t.engine_js ≡ none)

  -- A listed route has the id, the component's bytes and the source.
  abbrev pub IsKnown : Table C → Route → Type 0
  IsKnown t r =
      (s : Route) × Memᴰ s t.routes
      × (r.id ≡ s.id)
      × (r.compiled_wasm ≡ s.compiled_wasm)
      × (r.source ≡ s.source)

  -- A route read from the storage has the id and the artifacts of a listed one, or its artifacts are
  -- named by the message, or nothing is cached for it.
  abbrev pub IsAnnounced : RouteInvalidation → Table C → Route → Type 0
  IsAnnounced event t r = IsKnown t r ⊎ (Memᴰ r.id event.route_ids ⊎ IsUncached r.id t)

  distinct-IsFunctional :
      {V : Type 0} (derive : Route → Result E V) (routes : List Route)
      → HasDistinctIds routes
      → IsFunctional derive routes
  distinct-IsFunctional derive routes d r s i j same = ap derive (same_id-eq routes r s d i j same)

  pub created-IsCoherent :
      (t : Table C) (r : Route)
      → All (λ s. DiffersFrom s r) t.routes
      → IsUncached r.id t
      → IsCoherent t
      → IsCoherent (refresh_after_create r t).0
  unfolding refresh_after_create
  created-IsCoherent t r new (no_component, no_script) c = record {
    distinct = added-HasDistinctIds r t.routes new c.distinct;
    components = added-IsFresh component_of r t.routes t.components no_component c.components;
    scripts = added-IsFresh script_of r t.routes t.engine_js no_script c.scripts;
  }

  pub deleted-IsCoherent :
      (t : Table C) (group_id id : Str)
      → IsCoherent t
      → IsCoherent (refresh_after_delete group_id id t).0
  unfolding refresh_after_delete
  deleted-IsCoherent t group_id id c =
      let sub = λ (r : Route) (i : Memᴰ r (keep (λ s. not (has_id id s)) t.routes)).
        inl (keep-Memᴰ (λ s. not (has_id id s)) t.routes i).0 in
      record {
        distinct = keep-HasDistinctIds (λ s. not (has_id id s)) t.routes c.distinct;
        components = remove-IsFresh component_of id t.routes _ t.components sub c.components;
        scripts = remove-IsFresh script_of id t.routes _ t.engine_js sub c.scripts;
      }

  pub updated-IsCoherent :
      (t : Table C) (r : Route) → IsCoherent t → IsCoherent (refresh_after_update r t).0
  unfolding refresh_after_update
  updated-IsCoherent t r c = record {
    distinct = replace_route-HasDistinctIds r t.routes c.distinct;
    components =
        remove-IsFresh component_of r.id t.routes _ t.components (replace_route-Memᴰ r t.routes)
          c.components;
    scripts =
        remove-IsFresh script_of r.id t.routes _ t.engine_js (replace_route-Memᴰ r t.routes)
          c.scripts;
  }

  dropped-IsCoherent :
      (t : Table C) (group_id : Str) (ids : List Str)
      → IsCoherent t
      → IsCoherent (drop_group group_id ids t)
  unfolding drop_group
  dropped-IsCoherent t group_id [] c = c
  dropped-IsCoherent t group_id (id ∷ ids) c =
      let stays = λ (s : Route). not (in_group group_id s) in
      record {
        distinct = keep-HasDistinctIds stays t.routes c.distinct;
        components =
            remove_all-IsFresh component_of (id ∷ ids) t.routes _ t.components
              (λ r i. inl (r, (keep-Memᴰ stays t.routes i).0, refl, refl)) c.components;
        scripts =
            remove_all-IsFresh script_of (id ∷ ids) t.routes _ t.engine_js
              (λ r i. inl (r, (keep-Memᴰ stays t.routes i).0, refl, refl)) c.scripts;
      }

  pub cascaded-IsCoherent :
      (t : Table C) (group_id : Str)
      → IsCoherent t
      → IsCoherent (refresh_after_group_cascade group_id t).0
  unfolding refresh_after_group_cascade
  cascaded-IsCoherent t group_id c =
      let d = dropped-IsCoherent t group_id (map Route.id (keep (in_group group_id) t.routes)) c in
      record { distinct = d.distinct; components = d.components; scripts = d.scripts }

  rename_route-artifacts :
      (group_id name : Str) (r : Route)
      → (component_of (rename_route group_id name r) ≡ component_of r)
        × (script_of (rename_route group_id name r) ≡ script_of r)
  unfolding rename_route
  rename_route-artifacts group_id name r = elim (Bool-cases (in_group group_id r)) [
    | inl inside ↦ rw inside (refl, refl)
    | inr other ↦ rw other (refl, refl)
  ]

  pub renamed-IsCoherent :
      (t : Table C) (group_id name : Str)
      → IsCoherent t
      → IsCoherent (refresh_after_group_rename group_id name t).0
  unfolding refresh_after_group_rename
  renamed-IsCoherent t group_id name c = record {
    distinct = rename_route-HasDistinctIds group_id name t.routes c.distinct;
    components =
        renamed-IsFresh component_of group_id name t.routes t.components
          (λ r. (rename_route-artifacts group_id name r).0) c.components;
    scripts =
        renamed-IsFresh script_of group_id name t.routes t.engine_js
          (λ r. (rename_route-artifacts group_id name r).1) c.scripts;
  }

  pub component-IsCoherent :
      (t : Table C) (r : Route)
      → Memᴰ r t.routes
      → IsCoherent t
      → IsCoherent (component_for from_binary r t).1
  unfolding component_for
  component-IsCoherent t r listed c = record {
    distinct = c.distinct;
    components =
        cached-IsFresh component_of r t.routes t.components listed
          (distinct-IsFunctional component_of t.routes c.distinct) c.components;
    scripts = c.scripts;
  }

  pub script-IsCoherent :
      (t : Table C) (r : Route)
      → Memᴰ r t.routes
      → IsCoherent t
      → IsCoherent (engine_source_for transpile no_source r t).1
  unfolding engine_source_for
  script-IsCoherent t r listed c = elim (Option-cases r.source) [
    | inl missing ↦ rw (missing, engine_source_for) c
    | inr (source, e) ↦
        let fresh =
          cached-IsFresh script_of r t.routes t.engine_js listed
            (distinct-IsFunctional script_of t.routes c.distinct) c.scripts in
        let same : script_of r ≡ transpile source = rw e refl in
        rw (e, engine_source_for)
          record {
            distinct = c.distinct;
            components = c.components;
            scripts =
                subst (λ x. IsFresh script_of t.routes (cached r.id x t.engine_js).1) same fresh;
          }
  ]
