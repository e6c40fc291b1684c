-- ===== src/Registry/Routes/Precheck.antt =====
-- crates/wm-host/src/registry.rs: the probe that the API makes before it compiles a handler.
use wiremirage.Prelude.Text.{Str}
use wiremirage.Prelude.{
  ℕ, Option, none, err, ap, ◌∙◌, some, ok, ◌≡◌, refl, sym, inl, inr, Result-cases,
}
use wiremirage.Pattern.{trim_slash, Methods, Pattern}
use wiremirage.Pattern.Parsing.{parse-IsWellFormed}
use wiremirage.Store.{MemStore}
use wiremirage.Registry.{RegistryError, Group, Codec, NewRoute, validate_methods}
use wiremirage.Registry.Action.{registry_error, ◌>>◌, checked, return, after}
use wiremirage.Store.Reads.{IsReading, bind-IsReading, reading-run}
use wiremirage.Registry.Routes.Reads.{resolve_group-IsReading}
use wiremirage.Registry.Stored.{read_group}
use wiremirage.Registry.Names.{Draws, resolve_group, resolved}
use wiremirage.Registry.Routes.{
  parsed_path, group_for, add_route, create_route, scan_pattern_conflict, resolve_optional,
  precheck_create_conflict,
}
use wiremirage.Registry.Routes.Creation.{parsed_path-ok, scan-IsReading}

module _ (codec : Codec) where
  scanned-IsReading :
      (methods : Methods) (p : Pattern) (found : Option Str)
      → IsReading {E = RegistryError} {A = Unit {0}} (elim found [
        | none ↦ return tt
        | some id ↦ scan_pattern_conflict codec id methods p none
      ])
  scanned-IsReading methods p none m = refl
  scanned-IsReading methods p (some id) m = scan-IsReading codec id methods p none m

  -- The probe only reads.
  precheck-IsReading :
      (reference : Str) (methods : Methods) (path : Str)
      → IsReading (precheck_create_conflict codec (some reference) methods path)
  unfolding precheck_create_conflict resolve_optional
  precheck-IsReading reference methods path =
      bind-IsReading (checked (parsed_path path)) _ (λ m. refl)
        λ p.
          bind-IsReading (checked (validate_methods methods)) _ (λ m. refl)
            λ valid.
              bind-IsReading (resolve_group codec reference) _
                (resolve_group-IsReading codec reference) λ found. scanned-IsReading valid p found

module _ (codec : Codec) (draws : Draws) (group_id : Str) (now : ℕ) (params : NewRoute)
    (reference : Str) (group : Group) (m : MemStore) where
  group_for-found :
      params.group ≡ some reference
      → resolve_group codec reference m ≡ (ok (some group.id), m)
      → read_group codec group.id m ≡ (ok group, m)
      → group_for codec draws group_id now params m ≡ (ok group, m)
  unfolding group_for resolved
  group_for-found named found read = rw (named, group_for, found) (rw read refl)

  same_run :
      (route_id : Str)
      → params.group ≡ some reference
      → resolve_group codec reference m ≡ (ok (some group.id), m)
      → read_group codec group.id m ≡ (ok group, m)
      → create_route codec draws group_id route_id now params m
        ≡ (precheck_create_conflict codec (some reference) params.methods params.path
              >> add_route codec route_id now params group (trim_slash params.path))
            m
  unfolding create_route precheck_create_conflict resolve_optional
  same_run route_id named found read = elim (Result-cases (parsed_path params.path)) [
    | inl (e, bad) ↦ rw bad refl
    | inr (p, good) ↦ elim (Result-cases (validate_methods params.methods)) [
      | inl (e, bad) ↦ rw (good, bad) refl
      | inr (methods, valid) ↦
          let trimmed : p.raw ≡ trim_slash params.path =
            (parse-IsWellFormed params.path p (parsed_path-ok params.path p good)).1 in
          rw (good, valid, group_for-found named found read, found, sym trimmed) refl
    ]
  ]

  -- In a group that exists and can be read, `create_route` does what `precheck_create_conflict` does
  -- and, if that reports nothing, numbers and stores the route; and where the probe reports an error,
  -- `create_route` ends with the same one and leaves the store as it was.
  pub create_route-precheck :
      (route_id : Str)
      → params.group ≡ some reference
      → resolve_group codec reference m ≡ (ok (some group.id), m)
      → read_group codec group.id m ≡ (ok group, m)
      → (create_route codec draws group_id route_id now params m
          ≡ (precheck_create_conflict codec (some reference) params.methods params.path
                >> add_route codec route_id now params group (trim_slash params.path))
              m)
        × ((e : RegistryError)
            → (precheck_create_conflict codec (some reference) params.methods params.path m).0
              ≡ err e
            → create_route codec draws group_id route_id now params m ≡ (err e, m))
  create_route-precheck route_id named found read =
      let same = same_run route_id named found read in
      (
        same,
        λ e refused.
            let probe =
              precheck_create_conflict codec (some reference) params.methods params.path in
            let add = add_route codec route_id now params group (trim_slash params.path) in
            let ended : probe m ≡ (err e, m) =
              reading-run probe m (err e)
                (precheck-IsReading codec reference params.methods params.path) refused in
            same ∙ ap (after (λ u. add)) ended,
      )
