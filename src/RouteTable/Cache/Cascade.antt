-- ===== src/RouteTable/Cache/Cascade.antt =====
-- What the deletion of a group leaves in the table of crates/wm-host/src/route_table.rs.
use mathlib.Core.List.{Memᴰ}
use wiremirage.Prelude.Text.{Str}
use wiremirage.Prelude.Assoc.{Assoc, lookup, lookup-remove_self}
use wiremirage.Prelude.Members.{keep-Memᴰ, Memᴰ-keep, Memᴰ_map}
use wiremirage.Prelude.{
  true, false, not, none, List, [], ◌∷◌, map, keep, ◌≡◌, ◌↔◌, refl, subst, inl, inr, Bool-cases,
  Option-cases, arith,
}
use wiremirage.Registry.{Route}
use wiremirage.RouteTable.Cache.{
  Table, in_group, remove_all, drop_group, refresh_after_group_cascade, with_routes, for_group,
}
use wiremirage.RouteTable.Cache.Coherence.{left_by-remove_all}

module _ {C : Type 0} (group_id : Str) (t : Table C) where
  abbrev to_drop : List Str
  to_drop = map Route.id (keep (in_group group_id) t.routes)

  -- The second table has the routes of the other groups, and no artifact of the group's routes.
  pub record IsWithoutGroup (u : Table C) : Type 0 where
    pub others : (r : Route) → Memᴰ r u.routes ↔ (Memᴰ r t.routes × (in_group group_id r ≡ false))
    pub evicted :
        (r : Route)
        → Memᴰ r t.routes
        → in_group group_id r ≡ true
        → (lookup r.id u.components ≡ none) × (lookup r.id u.engine_js ≡ none)

  named : (r : Route) → Memᴰ r t.routes → in_group group_id r ≡ true → Memᴰ r.id to_drop
  named r i inside = Memᴰ_map Route.id (Memᴰ-keep (in_group group_id) i inside)

  all_removed :
      {V : Type 0} (ids : List Str) (cache : Assoc V) (id : Str)
      → Memᴰ id ids
      → lookup id (remove_all ids cache) ≡ none
  all_removed ids cache id i = elim (Option-cases (lookup id (remove_all ids cache))) [
    | inl gone ↦ gone
    | inr (v, kept) ↦ absurd ((left_by-remove_all ids cache id v kept).1 i)
  ]

  drop_group-IsWithoutGroup :
      (ids : List Str) → to_drop ≡ ids → IsWithoutGroup (drop_group group_id ids t)
  unfolding drop_group
  drop_group-IsWithoutGroup [] e =
      let nobody = λ (r : Route) (i : Memᴰ r t.routes) (inside : in_group group_id r ≡ true).
        subst (λ ids. Memᴰ r.id ids) e (named r i inside) in
      record {
        others = λ r. (
          (λ i. (
            i,
            elim (Bool-cases (in_group group_id r)) [
              | inl inside ↦ elim (nobody r i inside) [ ]
              | inr outside ↦ outside
            ],
          )),
          λ h. h.0,
        );
        evicted = λ r i inside. elim (nobody r i inside) [ ];
      }
  drop_group-IsWithoutGroup (id ∷ ids) e =
      let stays = λ (r : Route). not (in_group group_id r) in
      record {
        others = λ r. (
          (λ i. let (j, outside) = keep-Memᴰ stays t.routes i in (j, ground arith)),
          λ h. Memᴰ-keep stays h.0 (ground (arith, h.1)),
        );
        evicted = λ r i inside.
            let j = subst (λ l. Memᴰ r.id l) e (named r i inside) in
            (all_removed (id ∷ ids) t.components r.id j, all_removed (id ∷ ids) t.engine_js r.id j);
      }

  -- After the deletion of a group the table lists the routes of the other groups and only these, has
  -- no artifact of the group's routes and no slot of the group, and the other replicas are told of
  -- the group and of each of its routes that was listed.
  pub refresh_after_group_cascade-IsWithoutGroup :
      IsWithoutGroup (refresh_after_group_cascade group_id t).0
      × (lookup group_id (refresh_after_group_cascade group_id t).0.revalidated_at ≡ none)
      × ((refresh_after_group_cascade group_id t).1.group_id ≡ group_id)
      × ((r : Route)
          → Memᴰ r t.routes
          → in_group group_id r ≡ true
          → Memᴰ r.id (refresh_after_group_cascade group_id t).1.route_ids)
  unfolding refresh_after_group_cascade with_routes for_group
  refresh_after_group_cascade-IsWithoutGroup =
      let d = drop_group-IsWithoutGroup to_drop refl in
      (
        record { others = d.others; evicted = d.evicted },
        lookup-remove_self group_id _,
        refl,
        named,
      )
