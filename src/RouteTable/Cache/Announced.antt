-- ===== src/RouteTable/Cache/Announced.antt =====
-- What a reload of routes in crates/wm-host/src/route_table.rs does to caches that fit the listed
-- routes, as a message, a missed request or a restart asks for it: they fit the routes afterwards.
use mathlib.Core.List.{Memᴰ}
use wiremirage.Prelude.Text.{Str}
use wiremirage.Prelude.Assoc.{lookup}
use wiremirage.Prelude.Members.{keep-Memᴰ, Memᴰ_append-cases, All-Memᴰ}
use wiremirage.Prelude.{
  ℕ, not, none, List, [], ◌++◌, Result, ok, ◌≡◌, ◌⊎◌, inl, inr, keep, All, Bool-cases, Result-cases,
  Option-cases, err, ap, refl, ◌∙◌,
}
use wiremirage.Registry.{Route}
use wiremirage.RouteTable.Cache.{
  RouteReads, RouteInvalidation, Table, for_group, too_soon, remove_all, revalidate_group,
  reload_group, reload_all, apply_invalidation, in_group, evict, claim,
}
use wiremirage.RouteTable.Cache.Coherence.{SameArtifact, empty-IsFresh, remove_all-IsFresh}
use wiremirage.RouteTable.Cache.Ids.{HasDistinctIds}
use wiremirage.RouteTable.Cache.Preserved.{component_of, script_of, IsCoherent, IsAnnounced}

module _ {C E : Type 0} (from_binary : Str → Result E C) (transpile : Str → Result E Str)
    (no_source : Str → E) where
  pub resynced-IsCoherent :
      (t : Table C) (reads : RouteReads E)
      → ((routes : List Route) → reads.list_routes ≡ ok routes → HasDistinctIds routes)
      → IsCoherent from_binary transpile no_source t
      → IsCoherent from_binary transpile no_source (reload_all reads t)
  unfolding reload_all
  resynced-IsCoherent t reads d c = elim (Result-cases reads.list_routes) [
    | inl (e, failed) ↦ rw (failed, reload_all) c
    | inr (routes, read) ↦
        rw (read, reload_all)
          record {
            distinct = d routes read;
            components = empty-IsFresh (component_of from_binary transpile no_source) routes;
            scripts = empty-IsFresh (script_of from_binary transpile no_source) routes;
          }
  ]

  known_routes :
      (event : RouteInvalidation) (t : Table C) (fresh : List Route)
      → All (IsAnnounced from_binary transpile no_source event t) fresh
      → (r : Route) → Memᴰ r (keep (λ s. not (in_group event.group_id s)) t.routes ++ fresh)
      → IsAnnounced from_binary transpile no_source event t r
  known_routes event t fresh known r i =
      let stays = λ (s : Route). not (in_group event.group_id s) in
      elim (Memᴰ_append-cases (keep stays t.routes) i) [
        | inl old ↦ inl (r, (keep-Memᴰ stays t.routes old).0, refl, refl, refl)
        | inr new ↦ All-Memᴰ (IsAnnounced from_binary transpile no_source event t) new known
      ]

  script-same :
      (r s : Route)
      → r.id ≡ s.id
      → r.source ≡ s.source
      → script_of from_binary transpile no_source r ≡ script_of from_binary transpile no_source s
  script-same r s id source = elim (Option-cases s.source) [
    | inl missing ↦ rw (source ∙ missing, missing) (ap (λ i. err (no_source i)) id)
    | inr (text, there) ↦ rw (source ∙ there, there) refl
  ]

  announced_component :
      (event : RouteInvalidation) (t : Table C) (r : Route)
      → IsAnnounced from_binary transpile no_source event t r
      → SameArtifact (component_of from_binary transpile no_source) r t.routes
        ⊎ (Memᴰ r.id event.route_ids ⊎ (lookup r.id t.components ≡ none))
  announced_component event t r (inl (s, old, id, wasm, source)) =
      inl (s, old, id, ap from_binary wasm)
  announced_component event t r (inr (inl named)) = inr (inl named)
  announced_component event t r (inr (inr new)) = inr (inr new.0)

  announced_script :
      (event : RouteInvalidation) (t : Table C) (r : Route)
      → IsAnnounced from_binary transpile no_source event t r
      → SameArtifact (script_of from_binary transpile no_source) r t.routes
        ⊎ (Memᴰ r.id event.route_ids ⊎ (lookup r.id t.engine_js ≡ none))
  announced_script event t r (inl (s, old, id, wasm, source)) =
      inl (s, old, id, script-same r s id source)
  announced_script event t r (inr (inl named)) = inr (inl named)
  announced_script event t r (inr (inr new)) = inr (inr new.1)

  evicted-IsCoherent :
      (t : Table C) (ids : List Str)
      → IsCoherent from_binary transpile no_source t
      → IsCoherent from_binary transpile no_source (evict ids t)
  unfolding evict
  evicted-IsCoherent t ids c = record {
    distinct = c.distinct;
    components =
        remove_all-IsFresh (component_of from_binary transpile no_source) ids t.routes t.routes
          t.components (λ r i. inl (r, i, refl, refl)) c.components;
    scripts =
        remove_all-IsFresh (script_of from_binary transpile no_source) ids t.routes t.routes
          t.engine_js (λ r i. inl (r, i, refl, refl)) c.scripts;
  }

  -- A reload that fails leaves the routes, and the message has evicted what it names.
  failed_message-IsCoherent :
      (t : Table C) (reads : RouteReads E) (event : RouteInvalidation) (now : ℕ) (e : E)
      → reads.routes_in_group event.group_id ≡ err e
      → IsCoherent from_binary transpile no_source t
      → IsCoherent from_binary transpile no_source (apply_invalidation reads event now t)
  unfolding apply_invalidation reload_group
  failed_message-IsCoherent t reads event now e failed c =
      rw (failed, apply_invalidation, reload_group) (evicted-IsCoherent t event.route_ids c)

  failed_reload-IsCoherent :
      (t : Table C) (reads : RouteReads E) (group_id : Str) (now : ℕ) (e : E)
      → reads.routes_in_group group_id ≡ err e
      → IsCoherent from_binary transpile no_source t
      → IsCoherent from_binary transpile no_source
          (reload_group reads group_id (claim group_id now t)).1
  unfolding reload_group claim
  failed_reload-IsCoherent t reads group_id now e failed c =
      rw (failed, reload_group)
        record { distinct = c.distinct; components = c.components; scripts = c.scripts }

  -- What a reload of a group may bring.
  abbrev pub IsReload : RouteReads E → RouteInvalidation → Table C → Type 0
  IsReload reads event t =
      (fresh : List Route)
      → reads.routes_in_group event.group_id ≡ ok fresh
      → All (IsAnnounced from_binary transpile no_source event t) fresh
        × HasDistinctIds (keep (λ r. not (in_group event.group_id r)) t.routes ++ fresh)

  message-IsCoherent :
      (t : Table C) (reads : RouteReads E) (event : RouteInvalidation) (now : ℕ)
      (fresh : List Route)
      → reads.routes_in_group event.group_id ≡ ok fresh
      → All (IsAnnounced from_binary transpile no_source event t) fresh
      → HasDistinctIds (keep (λ r. not (in_group event.group_id r)) t.routes ++ fresh)
      → IsCoherent from_binary transpile no_source t
      → IsCoherent from_binary transpile no_source (apply_invalidation reads event now t)
  unfolding apply_invalidation reload_group claim evict
  message-IsCoherent t reads event now fresh read known d c =
      let others = keep (λ r. not (in_group event.group_id r)) t.routes in
      rw (read, apply_invalidation, reload_group)
        record {
          distinct = d;
          components =
              remove_all-IsFresh (component_of from_binary transpile no_source) event.route_ids
                t.routes (others ++ fresh) t.components
                (λ r i. announced_component event t r (known_routes event t fresh known r i))
                c.components;
          scripts =
              remove_all-IsFresh (script_of from_binary transpile no_source) event.route_ids
                t.routes (others ++ fresh) t.engine_js
                (λ r i. announced_script event t r (known_routes event t fresh known r i))
                c.scripts;
        }

  reloaded-IsCoherent :
      (t : Table C) (reads : RouteReads E) (group_id : Str) (now : ℕ) (fresh : List Route)
      → reads.routes_in_group group_id ≡ ok fresh
      → All (IsAnnounced from_binary transpile no_source (for_group group_id) t) fresh
      → HasDistinctIds (keep (λ r. not (in_group group_id r)) t.routes ++ fresh)
      → IsCoherent from_binary transpile no_source t
      → IsCoherent from_binary transpile no_source
          (reload_group reads group_id (claim group_id now t)).1
  unfolding reload_group claim for_group remove_all
  reloaded-IsCoherent t reads group_id now fresh read known d c =
      let others = keep (λ r. not (in_group group_id r)) t.routes in
      rw (read, reload_group)
        record {
          distinct = d;
          components =
              remove_all-IsFresh (component_of from_binary transpile no_source) [] t.routes
                (others ++ fresh) t.components
                (λ r i.
                  announced_component (for_group group_id) t r
                    (known_routes (for_group group_id) t fresh known r i))
                c.components;
          scripts =
              remove_all-IsFresh (script_of from_binary transpile no_source) [] t.routes
                (others ++ fresh) t.engine_js
                (λ r i.
                  announced_script (for_group group_id) t r
                    (known_routes (for_group group_id) t fresh known r i))
                c.scripts;
        }

  pub announced-IsCoherent :
      (t : Table C) (reads : RouteReads E) (event : RouteInvalidation) (now : ℕ)
      → IsReload reads event t
      → IsCoherent from_binary transpile no_source t
      → IsCoherent from_binary transpile no_source (apply_invalidation reads event now t)
  announced-IsCoherent t reads event now brings c =
      elim (Result-cases (reads.routes_in_group event.group_id)) [
        | inl (e, failed) ↦ failed_message-IsCoherent t reads event now e failed c
        | inr (fresh, read) ↦
            let (known, d) = brings fresh read in
            message-IsCoherent t reads event now fresh read known d c
      ]

  group_reload-IsCoherent :
      (t : Table C) (reads : RouteReads E) (group_id : Str) (now : ℕ)
      → IsReload reads (for_group group_id) t
      → IsCoherent from_binary transpile no_source t
      → IsCoherent from_binary transpile no_source
          (reload_group reads group_id (claim group_id now t)).1
  unfolding for_group
  group_reload-IsCoherent t reads group_id now brings c =
      elim (Result-cases (reads.routes_in_group group_id)) [
        | inl (e, failed) ↦ failed_reload-IsCoherent t reads group_id now e failed c
        | inr (fresh, read) ↦
            let (known, d) = brings fresh read in
            reloaded-IsCoherent t reads group_id now fresh read known d c
      ]

  pub revalidated-IsCoherent :
      (t : Table C) (reads : RouteReads E) (group_id : Str) (now : ℕ)
      → IsReload reads (for_group group_id) t
      → IsCoherent from_binary transpile no_source t
      → IsCoherent from_binary transpile no_source (revalidate_group reads group_id now t).1
  unfolding revalidate_group
  revalidated-IsCoherent t reads group_id now brings c =
      elim (Bool-cases (too_soon (lookup group_id t.revalidated_at) now t.revalidate_interval)) [
        | inl soon ↦ rw (soon, revalidate_group) c
        | inr free ↦
            rw (free, revalidate_group) (group_reload-IsCoherent t reads group_id now brings c)
      ]
