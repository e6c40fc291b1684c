-- ===== src/RouteTable/NearMisses.antt =====
-- The near-misses of crates/wm-host/src/route_table.rs: the routes that almost answered a request.
pub mod Truth
use wiremirage.Prelude.Text.{Str, str_eq, str_eq→eq, str_eq_refl, starts_with}
use wiremirage.Prelude.{
  ℕ, zero, suc, ◌≤◌, ◌+◌, min, Bool, true, false, not, ◌&&◌, ◌||◌, Option, none, some, List, [],
  ◌∷◌, ltb, ◌==◌, length, take, length-take, if◌then◌else◌, Result, ok, err, is_some, ◌≡◌, ◌≢◌,
  refl, sym, ap, ◌∙◌, arith, inl, inr, ◌⊎◌, Bool-cases, Option-cases, All,
}
use wiremirage.Pattern.{
  Segment, literal, param, tail, Pattern, PatternError, parse, has_tail, match_path,
  starts_with_slash, trim_slash, path_parts, methods_match, Methods,
}
use wiremirage.Registry.{Route}
use wiremirage.RouteTable.{MatchedRoute, in_scope, candidate, match_parsed, find_match_filtered}

pub data NearMissReason : Type 0 where
  method_mismatch : Methods → Str → NearMissReason
  prefix_match : ℕ → Str → Str → NearMissReason

pub record NearMiss : Type 0 where
  pub route : Route
  pub reason : NearMissReason

abbrev pub near_miss_limit : ℕ
near_miss_limit = 20

abbrev Diff : Type 0
Diff = ℕ × Str × Str

-- `expected.starts_with(req_seg) || req_seg.starts_with(expected)`
pub prefixes : Str → Str → Bool
prefixes expected got = starts_with got expected || starts_with expected got

-- the loop over the zipped segments; a `return None` is `none`
diff_from : ℕ → Option Diff → List Segment → List Str → Option Diff
diff_from i diff [] parts = diff
diff_from i diff (s ∷ segments) [] = diff
diff_from i diff (param _ ∷ segments) (part ∷ parts) = diff_from (i + 1) diff segments parts
diff_from i diff (tail _ ∷ segments) (part ∷ parts) = diff_from (i + 1) diff segments parts
diff_from i diff (literal expected ∷ segments) (part ∷ parts) =
    let same = diff_from (i + 1) diff segments parts in
    let differs = diff_from (i + 1) (some (i, expected, part)) segments parts in
    if str_eq expected part
    then same
    else if not (prefixes expected part) || is_some diff
    then none
    else differs

pub prefix_segment_diff : Pattern → Str → Option Diff
prefix_segment_diff pattern path =
    if has_tail pattern || not (starts_with_slash (trim_slash path))
    then none
    else if length (path_parts (trim_slash path)) == length pattern.segments
    then diff_from 0 none pattern.segments (path_parts (trim_slash path))
    else none

-- the body of the loop over the routes
prefix_miss : Route → Option Diff → Option NearMiss
prefix_miss route none = none
prefix_miss route (some (i, expected, got)) =
    some (record { route = route; reason = prefix_match i expected got })

near_miss_parsed : Str → Str → Route → Result PatternError Pattern → Option NearMiss
near_miss_parsed method path route (err e) = none
near_miss_parsed method path route (ok pattern) =
    if is_some (match_path pattern path)
    then some (record { route = route; reason = method_mismatch route.methods method })
    else prefix_miss route (prefix_segment_diff pattern path)

pub near_miss : Option Str → Str → Str → Route → Option NearMiss
near_miss group method path route =
    if in_scope group route then near_miss_parsed method path route (parse route.path) else none

near_misses : Option Str → Str → Str → List Route → List NearMiss
near_misses group method path [] = []
near_misses group method path (route ∷ routes) =
    let rest = near_misses group method path routes in
    elim (near_miss group method path route) [ none ↦ rest | some miss ↦ miss ∷ rest ]

-- `near.truncate(NEAR_MISS_LIMIT)`
pub compute_near_misses_filtered : Option Str → Str → Str → List Route → List NearMiss
compute_near_misses_filtered group method path routes =
    take near_miss_limit (near_misses group method path routes)

pub data MatchProbe : Type 0 where
  hit : MatchedRoute → MatchProbe
  miss : List NearMiss → MatchProbe

probe_filtered : Option Str → Str → Str → List Route → MatchProbe
probe_filtered group method path routes = elim (find_match_filtered group method path routes) [
  | some m ↦ hit m
  | none ↦ miss (compute_near_misses_filtered group method path routes)
]

pub probe : Str → Str → List Route → MatchProbe
probe = probe_filtered none

pub probe_in_group : Str → Str → Str → List Route → MatchProbe
probe_in_group group = probe_filtered (some group)

-- The set of definitions, to run the code on concrete inputs.
unfoldable pub suggester : Unit {0}
unfolding compute_near_misses_filtered near_misses near_miss near_miss_parsed prefix_miss
    prefix_segment_diff diff_from prefixes
suggester = tt
