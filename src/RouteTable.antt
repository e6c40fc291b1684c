-- ===== src/RouteTable.antt =====
-- crates/wm-host/src/route_table.rs: the in-memory route table and the choice of the route that
-- answers a request.
pub mod Candidates
pub mod Precedence
pub mod Unambiguous
pub mod NearMisses
pub mod Cache
mod Sample
mod Tests
use wiremirage.Prelude.Text.{Str, str_eq}
use wiremirage.Prelude.{
  ℕ, Bool, true, false, not, ◌&&◌, ◌||◌, Option, none, some, List, [], ◌∷◌, ltb, length,
  if◌then◌else◌, Result, ok, err, bind_option,
}
use wiremirage.Pattern.{Captures, Pattern, PatternError, parse, has_tail, match_path, methods_match}
use wiremirage.Registry.{Route}

pub record MatchedRoute : Type 0 where
  pub route : Route
  pub matched_pattern : Str
  pub path_params : Captures

-- `if let Some(g) = group && route.group_name != g { continue }`
pub in_scope : Option Str → Route → Bool
in_scope none route = true
in_scope (some g) route = str_eq route.group_name g

matched : Route → Pattern → Captures → Pattern × MatchedRoute
matched route pattern captures =
    (pattern, record { route = route; matched_pattern = pattern.raw; path_params = captures })

match_parsed : Str → Str → Route → Result PatternError Pattern → Option (Pattern × MatchedRoute)
match_parsed method path route (err e) = none
match_parsed method path route (ok pattern) =
    if methods_match route.methods method
    then bind_option (match_path pattern path) (λ captures. some (matched route pattern captures))
    else none

-- the checks of one round of the loop; `none` is a `continue`
pub candidate : Option Str → Str → Str → Route → Option (Pattern × MatchedRoute)
candidate group method path route =
    if in_scope group route then match_parsed method path route (parse route.path) else none

-- `best_tail.as_ref().is_none_or(|(len, _)| prefix_len > *len)`
longer : ℕ → Option (ℕ × MatchedRoute) → Bool
longer len none = true
longer len (some (best, m)) = ltb best len

keep_longer : ℕ → MatchedRoute → Option (ℕ × MatchedRoute) → Option (ℕ × MatchedRoute)
keep_longer len m best = if longer len best then some (len, m) else best

winner : Option (ℕ × MatchedRoute) → Option MatchedRoute
winner none = none
winner (some (len, m)) = some m

find_from : Option Str → Str → Str → List Route → Option (ℕ × MatchedRoute) → Option MatchedRoute
find_from group method path [] best = winner best
find_from group method path (route ∷ routes) best = elim (candidate group method path route) [
  | none ↦ find_from group method path routes best
  | some (pattern, m) ↦
      let later =
        find_from group method path routes (keep_longer (length pattern.segments) m best) in
      if has_tail pattern then later else some m
]

pub find_match_filtered : Option Str → Str → Str → List Route → Option MatchedRoute
find_match_filtered group method path routes = find_from group method path routes none

pub find_match : Str → Str → List Route → Option MatchedRoute
find_match = find_match_filtered none

pub find_match_in_group : Str → Str → Str → List Route → Option MatchedRoute
find_match_in_group group = find_match_filtered (some group)
