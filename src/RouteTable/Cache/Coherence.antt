-- ===== src/RouteTable/Cache/Coherence.antt =====
-- The caches of crates/wm-host/src/route_table.rs against the records they were derived from.
use mathlib.Core.List.{Memᴰ}
use mathlib.Core.Option.{none-ne-some, some-injective}
use wiremirage.Prelude.Text.{Str, str_eq, str_eq_iff}
use wiremirage.Prelude.Assoc.{
  Assoc, lookup, insert, remove, lookup-insert, lookup-remove, lookup-empty,
}
use wiremirage.Prelude.Members.{Memᴰ_append-cases, Memᴰ_singleton, map-Memᴰ}
use wiremirage.Prelude.{
  false, none, some, List, [], ◌∷◌, ◌++◌, map, Result, ok, Bool-cases, Option-cases, Result-cases,
  ◌≡◌, refl, sym, ◌∙◌, ap, arith, ◌⊎◌, inl, inr,
}
use wiremirage.Registry.{Route}
use wiremirage.RouteTable.Cache.{remove_all, cached, rename_route}
use wiremirage.RouteTable.Cache.Ids.{rename_route-id}

not_listed : (k j : Str) (ids : List Str) → str_eq k j ≡ false → (¬ Memᴰ j ids) → ¬ Memᴰ j (k ∷ ids)
not_listed k j ids other absent (Memᴰ.head e) = absurd (ground (arith, str_eq_iff k j, sym e))
not_listed k j ids other absent (Memᴰ.tail m) = absent m

pub left_by-remove_all :
    {V : Type 0} (ids : List Str) (cache : Assoc V) (j : Str) (v : V)
    → lookup j (remove_all ids cache) ≡ some v
    → (lookup j cache ≡ some v) × (¬ Memᴰ j ids)
unfolding remove_all
left_by-remove_all [] cache j v h = (h, λ m. elim m [ ])
left_by-remove_all (k ∷ ids) cache j v h =
    let (kept, absent) = left_by-remove_all ids (remove k cache) j v h in
    elim (Bool-cases (str_eq k j)) [
      | inl same ↦ absurd (none-ne-some v (sym (lookup-remove k j cache ∙ rw same refl) ∙ kept))
      | inr other ↦ (
        sym (lookup-remove k j cache ∙ rw other refl) ∙ kept,
        λ m. not_listed k j ids other absent m,
      )
    ]

module _ {E : Type 0} {V : Type 0} (derive : Route → Result E V) where
  -- What the cache has under the id of a listed route is what is derived from the route.
  abbrev pub IsFresh : List Route → Assoc V → Type 0
  IsFresh routes cache =
      (r : Route) (v : V) → Memᴰ r routes → lookup r.id cache ≡ some v → derive r ≡ ok v

  pub empty-IsFresh : (routes : List Route) → IsFresh routes []
  empty-IsFresh routes r v listed h = absurd (none-ne-some v (sym (lookup-empty r.id) ∙ h))

  pub subset-IsFresh :
      (routes others : List Route) (cache : Assoc V)
      → ((r : Route) → Memᴰ r others → Memᴰ r routes)
      → IsFresh routes cache
      → IsFresh others cache
  subset-IsFresh routes others cache sub fresh r v listed = fresh r v (sub r listed)

  -- Under another id than the one removed nothing changes, and under that one nothing is left.
  pub remove-IsFresh :
      (id : Str) (routes others : List Route) (cache : Assoc V)
      → ((r : Route) → Memᴰ r others → Memᴰ r routes ⊎ (r.id ≡ id))
      → IsFresh routes cache
      → IsFresh others (remove id cache)
  remove-IsFresh id routes others cache sub fresh r v listed h =
      elim (Bool-cases (str_eq id r.id)) [
        | inl same ↦ absurd (none-ne-some v (sym (lookup-remove id r.id cache ∙ rw same refl) ∙ h))
        | inr other ↦
            let kept : lookup r.id cache ≡ some v =
              sym (lookup-remove id r.id cache ∙ rw other refl) ∙ h in
            elim (sub r listed) [
              | inl old ↦ fresh r v old kept
              | inr named ↦ absurd (ground (arith, str_eq_iff id r.id, sym named))
            ]
      ]

  -- A listed route has the id and the artifact.
  abbrev pub SameArtifact : Route → List Route → Type 0
  SameArtifact r routes = (s : Route) × Memᴰ s routes × (r.id ≡ s.id) × (derive r ≡ derive s)

  pub remove_all-IsFresh :
      (ids : List Str) (routes others : List Route) (cache : Assoc V)
      → ((r : Route)
          → Memᴰ r others
          → SameArtifact r routes ⊎ (Memᴰ r.id ids ⊎ (lookup r.id cache ≡ none)))
      → IsFresh routes cache
      → IsFresh others (remove_all ids cache)
  remove_all-IsFresh ids routes others cache sub fresh r v listed h =
      let (kept, absent) = left_by-remove_all ids cache r.id v h in
      elim (sub r listed) [
        | inl (s, old, id, same) ↦ same ∙ fresh s v old (ap (λ i. lookup i cache) (sym id) ∙ kept)
        | inr (inl named) ↦ absurd (absent named)
        | inr (inr new) ↦ absurd (none-ne-some v (sym new ∙ kept))
      ]

  pub added-IsFresh :
      (r : Route) (routes : List Route) (cache : Assoc V)
      → lookup r.id cache ≡ none
      → IsFresh routes cache
      → IsFresh (routes ++ r ∷ []) cache
  added-IsFresh r routes cache new fresh s v listed h = elim (Memᴰ_append-cases routes listed) [
    | inl old ↦ fresh s v old h
    | inr same ↦
        absurd (
          none-ne-some v
            (sym (ap (λ x. lookup (Route.id x) cache) (Memᴰ_singleton same) ∙ new) ∙ h))
  ]

  pub renamed-IsFresh :
      (group_id name : Str) (routes : List Route) (cache : Assoc V)
      → ((r : Route) → derive (rename_route group_id name r) ≡ derive r)
      → IsFresh routes cache
      → IsFresh (map (rename_route group_id name) routes) cache
  renamed-IsFresh group_id name routes cache unaffected fresh r v listed h =
      let (s, old, e) = map-Memᴰ (rename_route group_id name) routes listed in
      let id : r.id ≡ s.id = ap Route.id e ∙ rename_route-id group_id name s in
      ap derive e ∙ unaffected s ∙ fresh s v old (ap (λ i. lookup i cache) (sym id) ∙ h)

  -- Two listed routes with one id have the same artifact.
  abbrev pub IsFunctional : List Route → Type 0
  IsFunctional routes =
      (r s : Route) → Memᴰ r routes → Memᴰ s routes → r.id ≡ s.id → derive r ≡ derive s

  -- The answer for a listed route is what is derived from it, an error included.
  pub cached-derive :
      (r : Route) (routes : List Route) (cache : Assoc V)
      → Memᴰ r routes
      → IsFresh routes cache
      → (cached r.id (derive r) cache).0 ≡ derive r
  unfolding cached
  cached-derive r routes cache listed fresh = elim (Option-cases (lookup r.id cache)) [
    | inl empty ↦ elim (Result-cases (derive r)) [
      | inl (e, d) ↦ rw (d, cached, empty) refl
      | inr (v, d) ↦ rw (d, cached, empty) refl
    ]
    | inr (w, hit) ↦ rw (fresh r w listed hit, cached, hit) refl
  ]

  pub cached-IsFresh :
      (r : Route) (routes : List Route) (cache : Assoc V)
      → Memᴰ r routes
      → IsFunctional routes
      → IsFresh routes cache
      → IsFresh routes (cached r.id (derive r) cache).1
  unfolding cached
  cached-IsFresh r routes cache listed functional fresh s v listed_s h =
      elim (Option-cases (lookup r.id cache)) [
        | inl empty ↦ elim (Result-cases (derive r)) [
          | inl (e, d) ↦ fresh s v listed_s (rw (d, cached, empty) at h)
          | inr (w, d) ↦ elim (Bool-cases (str_eq r.id s.id)) [
            | inl same ↦
                let found : lookup s.id (insert r.id w cache) ≡ some v =
                  rw (d, cached, empty) at h in
                let stored : some w ≡ some v =
                  sym (lookup-insert r.id s.id w cache ∙ rw same refl) ∙ found in
                sym (functional r s listed listed_s ((str_eq_iff r.id s.id).0 same))
                ∙ d
                ∙ ap ok (some-injective w v stored)
            | inr other ↦
                let found : lookup s.id (insert r.id w cache) ≡ some v =
                  rw (d, cached, empty) at h in
                fresh s v listed_s (sym (lookup-insert r.id s.id w cache ∙ rw other refl) ∙ found)
          ]
        ]
        | inr (w, hit) ↦ fresh s v listed_s (rw (fresh r w listed hit, cached, hit) at h)
      ]
