-- ===== src/Journal/Tests.antt =====
-- Runs of crates/wm-host/src/journal_filter.rs on a concrete record, and an instance of its theorem.
use wiremirage.Prelude.Text.{codes, str_eq}
use wiremirage.Prelude.Ascii.{eq_ignore_case, to_lower}
use wiremirage.Prelude.{none, some, [], false, true, ok, err, ◌≡◌, refl, arith}
use wiremirage.Journal.{RequestEnvelope, JournalEvent, handled, unmatched}
use wiremirage.Journal.Filter.{
  JournalFilter, two_xx, four_xx, exact, within, status_matches, accepts, in_route, matches_handled,
  matches_unmatched, matches,
}
use wiremirage.Journal.Filter.Parsing.{
  bad_status, parse_slug, either_case, exact_status, parse_status, parse_slug-render_slug,
}
use wiremirage.Registry.{render_slug}
use wiremirage.Prelude.Decimal.{scan_digits, parse_digits, parse_unsigned}

abbrev sent : RequestEnvelope
sent = record {
  method = codes "GET";
  path = codes "/v1/a";
  headers = [];
  body = [];
  body_truncated = false;
  original_body_size = 0;
}

abbrev answered : JournalEvent
answered = handled record {
  id = codes "1";
  number = 1;
  trace_id = none;
  group_id = codes "g1";
  group_name = codes "shop";
  route_id = codes "r1";
  route_number = 4;
  matched_pattern = codes "/v1/{id}";
  request = sent;
  response = record {
    status = 204;
    headers = [];
    body = [];
    body_truncated = false;
    original_body_size = 0;
  };
  path_params = [];
  query = [];
  handler_logs = [];
  duration_ms = 3;
  resources = record { fuel_consumed = 0; memory_peak_bytes = 0; wall_clock_ms = 3 };
  error = none;
  dropped_response_headers = [];
  created_at = 5000;
}

abbrev missed : JournalEvent
missed = unmatched record {
  id = codes "2";
  number = 1;
  group_id = codes "g1";
  group_name = codes "shop";
  trace_id = none;
  created_at = 6000;
  request = sent;
  near_misses = [];
}

abbrev everything : JournalFilter
everything = record {
  group = none;
  route = none;
  method = none;
  path_pattern = none;
  status = none;
  since = none;
  until = none;
}

abbrev shop_pages : JournalFilter
shop_pages = record everything {
  group = some (codes "shop");
  method = some (codes "get");
  status = some two_xx;
  since = some 5000;
}

-- A filter on the group hides the unmatched requests, those of that group included.
filter_tests :
    (matches shop_pages answered ≡ true)
    × (matches everything missed ≡ true)
    × (matches (record everything { group = some (codes "shop") }) missed ≡ false)
unfolding matches matches_handled matches_unmatched accepts in_route status_matches within str_eq
    eq_ignore_case to_lower
filter_tests = (refl, refl, refl)

status_tests :
    (parse_status (codes "4xx") ≡ ok four_xx)
    × (parse_status (codes "404") ≡ ok (exact 404))
    × (parse_status (codes "99") ≡ err (bad_status (codes "99")))
    × (parse_status (codes "70000") ≡ err (bad_status (codes "70000")))
unfolding parse_status either_case exact_status parse_unsigned parse_digits scan_digits within
    str_eq
status_tests = (refl, refl, refl, refl)

parse_slug-render_slug_example :
    parse_slug (render_slug (codes "demo") 42)
    ≡ ok (record { group_ref = codes "demo"; number = 42 })
parse_slug-render_slug_example = parse_slug-render_slug (codes "demo") 42 (λ e. cc e) (omega arith)
