-- ===== src/RouteTable/Cache/Steps.antt =====
-- The operations of crates/wm-host/src/route_table.rs in any order, and what the caches answer then.
use mathlib.Core.List.{Memᴰ}
use wiremirage.Prelude.Text.{Str}
use wiremirage.Prelude.{ℕ, List, [], Result, ok, ◌≡◌, refl, sym, inl, inr, All, subst, Option-cases}
use wiremirage.Registry.{Route}
use wiremirage.RouteTable.Cache.{
  RouteReads, RouteInvalidation, Table, for_group, revalidate_group, reload_all, apply_invalidation,
  component_for, engine_source_for, refresh_after_create, refresh_after_delete,
  refresh_after_update, refresh_after_group_cascade, refresh_after_group_rename, cached,
}
use wiremirage.RouteTable.Cache.Coherence.{IsFresh, empty-IsFresh, cached-derive}
use wiremirage.RouteTable.Cache.Ids.{HasDistinctIds, DiffersFrom}
use wiremirage.RouteTable.Cache.Preserved.{
  component_of, script_of, IsCoherent, IsUncached, created-IsCoherent, deleted-IsCoherent,
  updated-IsCoherent, cascaded-IsCoherent, renamed-IsCoherent, component-IsCoherent,
  script-IsCoherent,
}
use wiremirage.RouteTable.Cache.Announced.{
  IsReload, resynced-IsCoherent, announced-IsCoherent, revalidated-IsCoherent,
}

module _ {C E : Type 0} (from_binary : Str → Result E C) (transpile : Str → Result E Str)
    (no_source : Str → E) where
  -- One operation on the table.
  pub data Step : Table C → Table C → Type 0 where
    created :
        (t : Table C) (r : Route)
        → All (λ s. DiffersFrom s r) t.routes
        → IsUncached from_binary transpile no_source r.id t
        → Step t (refresh_after_create r t).0
    deleted : (t : Table C) (group_id id : Str) → Step t (refresh_after_delete group_id id t).0
    updated : (t : Table C) (r : Route) → Step t (refresh_after_update r t).0
    cascaded : (t : Table C) (group_id : Str) → Step t (refresh_after_group_cascade group_id t).0
    renamed :
        (t : Table C) (group_id name : Str) → Step t (refresh_after_group_rename group_id name t).0
    resynced :
        (t : Table C) (reads : RouteReads E)
        → ((routes : List Route) → reads.list_routes ≡ ok routes → HasDistinctIds routes)
        → Step t (reload_all reads t)
    announced :
        (t : Table C) (reads : RouteReads E) (event : RouteInvalidation) (now : ℕ)
        → IsReload from_binary transpile no_source reads event t
        → Step t (apply_invalidation reads event now t)
    revalidated :
        (t : Table C) (reads : RouteReads E) (group_id : Str) (now : ℕ)
        → IsReload from_binary transpile no_source reads (for_group group_id) t
        → Step t (revalidate_group reads group_id now t).1
    component :
        (t : Table C) (r : Route) → Memᴰ r t.routes → Step t (component_for from_binary r t).1
    script :
        (t : Table C) (r : Route)
        → Memᴰ r t.routes
        → Step t (engine_source_for transpile no_source r t).1

  pub Step-IsCoherent :
      (t u : Table C)
      → Step t u
      → IsCoherent from_binary transpile no_source t
      → IsCoherent from_binary transpile no_source u
  Step-IsCoherent _ _ (created t r new uncached) c =
      created-IsCoherent from_binary transpile no_source t r new uncached c
  Step-IsCoherent _ _ (deleted t group_id id) c =
      deleted-IsCoherent from_binary transpile no_source t group_id id c
  Step-IsCoherent _ _ (updated t r) c = updated-IsCoherent from_binary transpile no_source t r c
  Step-IsCoherent _ _ (cascaded t group_id) c =
      cascaded-IsCoherent from_binary transpile no_source t group_id c
  Step-IsCoherent _ _ (renamed t group_id name) c =
      renamed-IsCoherent from_binary transpile no_source t group_id name c
  Step-IsCoherent _ _ (resynced t reads d) c =
      resynced-IsCoherent from_binary transpile no_source t reads d c
  Step-IsCoherent _ _ (announced t reads event now brings) c =
      announced-IsCoherent from_binary transpile no_source t reads event now brings c
  Step-IsCoherent _ _ (revalidated t reads group_id now brings) c =
      revalidated-IsCoherent from_binary transpile no_source t reads group_id now brings c
  Step-IsCoherent _ _ (component t r listed) c =
      component-IsCoherent from_binary transpile no_source t r listed c
  Step-IsCoherent _ _ (script t r listed) c =
      script-IsCoherent from_binary transpile no_source t r listed c

  -- Tables that operations lead to from a table with nothing cached.
  pub data Reachable : Table C → Type 0 where
    start :
        (t : Table C) → HasDistinctIds t.routes → t.components ≡ [] → t.engine_js ≡ [] → Reachable t
    next : (t u : Table C) → Reachable t → Step t u → Reachable u

  Reachable-IsCoherent : (t : Table C) → Reachable t → IsCoherent from_binary transpile no_source t
  Reachable-IsCoherent _ (start t d no_components no_scripts) = record {
    distinct = d;
    components =
        subst (IsFresh (component_of from_binary transpile no_source) t.routes) (sym no_components)
          (empty-IsFresh (component_of from_binary transpile no_source) t.routes);
    scripts =
        subst (IsFresh (script_of from_binary transpile no_source) t.routes) (sym no_scripts)
          (empty-IsFresh (script_of from_binary transpile no_source) t.routes);
  }
  Reachable-IsCoherent _ (next t u reachable step) =
      Step-IsCoherent t u step (Reachable-IsCoherent t reachable)

  -- From a table with distinct ids and nothing cached, after any operations that keep to the
  -- conditions of `Step`, the caches answer for each listed route what its own record compiles to, or
  -- transpiles to, the errors included. The conditions are that a route is created under an id that
  -- no listed route has and nothing is cached for; that the routes a reload reads, where it does not
  -- fail, have ids that differ from each other and from those of the other groups, and that each has
  -- the bytes and the source of the listed route of its id, or is named by the message, or has nothing
  -- cached, unless everything is reloaded; and that an artifact is asked for only for a route that is
  -- listed at that time.
  pub component_for-current :
      (t : Table C) (r : Route)
      → Reachable t
      → Memᴰ r t.routes
      → ((component_for from_binary r t).0 ≡ component_of from_binary transpile no_source r)
        × ((engine_source_for transpile no_source r t).0
            ≡ script_of from_binary transpile no_source r)
  unfolding component_for engine_source_for
  component_for-current t r reachable listed =
      let c = Reachable-IsCoherent t reachable in
      (
        cached-derive (component_of from_binary transpile no_source) r t.routes t.components listed
            c.components,
        elim (Option-cases r.source) [
          | inl missing ↦ rw (missing, engine_source_for) refl
          | inr (source, e) ↦
              let same : script_of from_binary transpile no_source r ≡ transpile source =
                rw e refl in
              let answer =
                cached-derive (script_of from_binary transpile no_source) r t.routes t.engine_js
                  listed c.scripts in
              rw (e, engine_source_for) (subst (λ x. (cached r.id x t.engine_js).0 ≡ x) same answer)
        ],
      )
