-- ===== src/RouteTable/Cache/Ids.antt =====
-- Lists of routes with distinct ids, as crates/wm-host/src/route_table.rs changes them.
use mathlib.Core.List.{Memᴰ}
use wiremirage.Prelude.Text.{Str, str_eq, str_eq_iff}
use wiremirage.Prelude.Members.{All-Memᴰ}
use wiremirage.Prelude.{
  Bool, List, [], ◌∷◌, ◌++◌, map, Bool-cases, ◌≡◌, sym, ◌∙◌, ap, subst, arith, ◌≢◌, ◌⊎◌, inl, inr,
  keep, All, All-append,
}
use wiremirage.Registry.{Route}
use wiremirage.RouteTable.Cache.{has_id, replace_route, rename_route}

abbrev pub DiffersFrom : Route → Route → Type 0
DiffersFrom r s = r.id ≢ s.id

abbrev pub HasDistinctIds : List Route → Type 0
HasDistinctIds [] = Unit
HasDistinctIds (r ∷ routes) = All (DiffersFrom r) routes × HasDistinctIds routes

pub same_id-eq :
    (routes : List Route) (r s : Route)
    → HasDistinctIds routes
    → Memᴰ r routes
    → Memᴰ s routes
    → r.id ≡ s.id
    → r ≡ s
same_id-eq [] r s d i _ same = elim i [ ]
same_id-eq (x ∷ routes) r s d (Memᴰ.head e) (Memᴰ.head f) same = e ∙ sym f
same_id-eq (x ∷ routes) r s d (Memᴰ.head e) (Memᴰ.tail j) same =
    absurd (All-Memᴰ (DiffersFrom x) j d.0 (sym (ap Route.id e) ∙ same))
same_id-eq (x ∷ routes) r s d (Memᴰ.tail i) (Memᴰ.head f) same =
    absurd (All-Memᴰ (DiffersFrom x) i d.0 (sym (ap Route.id f) ∙ sym same))
same_id-eq (x ∷ routes) r s d (Memᴰ.tail i) (Memᴰ.tail j) same = same_id-eq routes r s d.1 i j same

All-keep :
    (P : Route → Type 0) (p : Route → Bool) (routes : List Route)
    → All P routes
    → All P (keep p routes)
All-keep P p [] h = tt
All-keep P p (r ∷ routes) (pr, h) = elim (Bool-cases (p r)) [
  | inl kept ↦ rw (kept, keep) (pr, All-keep P p routes h)
  | inr dropped ↦ rw (dropped, keep) (All-keep P p routes h)
]

pub keep-HasDistinctIds :
    (p : Route → Bool) (routes : List Route)
    → HasDistinctIds routes
    → HasDistinctIds (keep p routes)
keep-HasDistinctIds p [] d = tt
keep-HasDistinctIds p (r ∷ routes) (differs, d) = elim (Bool-cases (p r)) [
  | inl kept ↦
      rw (kept, keep) (All-keep (DiffersFrom r) p routes differs, keep-HasDistinctIds p routes d)
  | inr dropped ↦ rw (dropped, keep) (keep-HasDistinctIds p routes d)
]

pub added-HasDistinctIds :
    (r : Route) (routes : List Route)
    → All (λ s. DiffersFrom s r) routes
    → HasDistinctIds routes
    → HasDistinctIds (routes ++ r ∷ [])
added-HasDistinctIds r [] new d = (tt, tt)
added-HasDistinctIds r (s ∷ routes) (differs, new) (apart, d) = (
  All-append (DiffersFrom s) routes (r ∷ []) apart (differs, tt),
  added-HasDistinctIds r routes new d,
)

replaced :
    (r x : Route) (routes : List Route) (s : Route)
    → Memᴰ s (r ∷ routes)
    → Memᴰ s (x ∷ routes) ⊎ (s.id ≡ r.id)
replaced r x routes s (Memᴰ.head e) = inr (ap Route.id e)
replaced r x routes s (Memᴰ.tail m) = inl (Memᴰ.tail m)

skipped :
    (r x : Route) (routes : List Route) (s : Route)
    → (Memᴰ s (replace_route r routes) → Memᴰ s routes ⊎ (s.id ≡ r.id))
    → Memᴰ s (x ∷ replace_route r routes)
    → Memᴰ s (x ∷ routes) ⊎ (s.id ≡ r.id)
skipped r x routes s ih (Memᴰ.head e) = inl (Memᴰ.head e)
skipped r x routes s ih (Memᴰ.tail m) = elim (ih m) [ inl i ↦ inl (Memᴰ.tail i) | inr e ↦ inr e ]

-- A listed route after the replacement is the new one, or an old one with another id.
pub replace_route-Memᴰ :
    (r : Route) (routes : List Route) (s : Route)
    → Memᴰ s (replace_route r routes)
    → Memᴰ s routes ⊎ (s.id ≡ r.id)
unfolding replace_route
replace_route-Memᴰ r [] s (Memᴰ.head e) = inr (ap Route.id e)
replace_route-Memᴰ r [] s (Memᴰ.tail i) = elim i [ ]
replace_route-Memᴰ r (x ∷ routes) s m = elim (Bool-cases (has_id r.id x)) [
  | inl same ↦ replaced r x routes s (rw (same) at m)
  | inr other ↦ skipped r x routes s (replace_route-Memᴰ r routes s) (rw (other) at m)
]

replace-All :
    (P : Str → Type 0) (r : Route) (routes : List Route)
    → P r.id
    → All (λ s. P (Route.id s)) routes
    → All (λ s. P (Route.id s)) (replace_route r routes)
unfolding replace_route
replace-All P r [] pr h = (pr, tt)
replace-All P r (s ∷ routes) pr (ps, h) = elim (Bool-cases (has_id r.id s)) [
  | inl same ↦ rw same (pr, h)
  | inr other ↦ rw other (ps, replace-All P r routes pr h)
]

pub replace_route-HasDistinctIds :
    (r : Route) (routes : List Route)
    → HasDistinctIds routes
    → HasDistinctIds (replace_route r routes)
unfolding replace_route has_id
replace_route-HasDistinctIds r [] d = (tt, tt)
replace_route-HasDistinctIds r (s ∷ routes) (apart, d) = elim (Bool-cases (str_eq s.id r.id)) [
  | inl same ↦
      rw same
        (subst (λ i. All (λ x. i ≢ Route.id x) routes) ((str_eq_iff s.id r.id).0 same) apart, d)
  | inr other ↦ rw other (
    replace-All (λ i. s.id ≢ i) r routes (λ e. absurd (ground (arith, str_eq_iff s.id r.id, e)))
        apart,
    replace_route-HasDistinctIds r routes d,
  )
]

pub rename_route-id : (group_id name : Str) (r : Route) → (rename_route group_id name r).id ≡ r.id
unfolding rename_route
rename_route-id group_id name r = ground arith

renamed-All :
    (P : Str → Type 0) (group_id name : Str) (routes : List Route)
    → All (λ s. P (Route.id s)) routes
    → All (λ s. P (Route.id s)) (map (rename_route group_id name) routes)
renamed-All P group_id name [] h = tt
renamed-All P group_id name (r ∷ routes) (pr, h) =
    (subst P (sym (rename_route-id group_id name r)) pr, renamed-All P group_id name routes h)

pub rename_route-HasDistinctIds :
    (group_id name : Str) (routes : List Route)
    → HasDistinctIds routes
    → HasDistinctIds (map (rename_route group_id name) routes)
rename_route-HasDistinctIds group_id name [] d = tt
rename_route-HasDistinctIds group_id name (r ∷ routes) (apart, d) = (
  subst (λ i. All (λ x. i ≢ Route.id x) (map (rename_route group_id name) routes))
      (sym (rename_route-id group_id name r))
      (renamed-All (λ i. r.id ≢ i) group_id name routes apart),
  rename_route-HasDistinctIds group_id name routes d,
)
