-- ===== src/RouteTable/Sample.antt =====
-- Two routes, a request and what they parse to: the data of the runs of the table.
use wiremirage.Prelude.Text.{Str, codes}
use wiremirage.Prelude.{none, List, [], ◌∷◌}
use wiremirage.Pattern.{literal, tail, Pattern}
use wiremirage.Pattern.Run.{parser, matcher, conflicts}
use wiremirage.Registry.{Route}
use wiremirage.RouteTable.{
  MatchedRoute, in_scope, matched, match_parsed, candidate, longer, keep_longer, winner, find_from,
  find_match_filtered, find_match_in_group,
}

abbrev pub stored : Str → Str → Route
stored id path = record {
  id = id;
  group_id = codes "g";
  group_name = codes "shop";
  number = 1;
  methods = codes "ANY" ∷ [];
  path = path;
  language = codes "wasm";
  bindings_version = codes "1";
  compiled_wasm = codes "bytes";
  source = none;
  created_at = 0;
  owner_id = codes "u";
  hits_total = 0;
  last_hit_at = none;
}

abbrev pub charges : Route
charges = stored (codes "1") (codes "/v1/charges")

abbrev pub backstop : Route
backstop = stored (codes "2") (codes "/v1/{rest...}")

abbrev pub routes : List Route
routes = backstop ∷ charges ∷ []

abbrev pub charges_match : MatchedRoute
charges_match = record { route = charges; matched_pattern = codes "/v1/charges"; path_params = [] }

abbrev pub request : Str
request = codes "/v1/charges"

unfoldable pub finder : Unit {0}
unfolding find_match_in_group find_match_filtered find_from winner keep_longer longer candidate
    match_parsed matched in_scope parser matcher conflicts
finder = tt

abbrev pub charges_pattern : Pattern
charges_pattern = record {
  raw = request;
  segments = literal (codes "v1") ∷ literal (codes "charges") ∷ [];
}

abbrev pub backstop_pattern : Pattern
backstop_pattern = record {
  raw = codes "/v1/{rest...}";
  segments = literal (codes "v1") ∷ tail (codes "rest") ∷ [];
}
