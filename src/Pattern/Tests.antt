-- ===== src/Pattern/Tests.antt =====
-- Runs of crates/wm-host/src/pattern.rs on concrete inputs, and instances of its theorems.
use wiremirage.Prelude.Text.{Str, codes}
use wiremirage.Prelude.{none, some, true, false, List, [], ◌∷◌, ◌≡◌, ◌↔◌, refl, ok, err}
use wiremirage.Pattern.{
  literal, param, tail, Pattern, missing_leading_slash, empty_segment, bad_param, duplicate_param,
  tail_not_final, starts_with_slash, trim_slash, misplaced_tail, parse, has_tail, path_parts,
  match_path, patterns_conflict, methods_match, overlaps,
}
use wiremirage.Pattern.Run.{parser, matcher, conflicts}
use wiremirage.Pattern.Shape.{IsWellFormed}
use wiremirage.Pattern.Parsing.{parse-IsWellFormed}
use wiremirage.Pattern.Printing.{parse-raw}
use wiremirage.Pattern.Accepts.{Accepts}
use wiremirage.Pattern.Matching.{match_path_iff}
use wiremirage.Pattern.Conflicts.{match_path-conflict}
use wiremirage.Pattern.Ambiguity.{SharePath, conflict-SharePath}

abbrev user_posts : Pattern
user_posts = record {
  raw = codes "/users/{id}";
  segments = literal (codes "users") ∷ param (codes "id") ∷ [];
}

abbrev user_me : Pattern
user_me = record {
  raw = codes "/users/me";
  segments = literal (codes "users") ∷ literal (codes "me") ∷ [];
}

abbrev backstop : Pattern
backstop = record {
  raw = codes "/v1/{rest...}";
  segments = literal (codes "v1") ∷ tail (codes "rest") ∷ [];
}

parse_tests :
    (parse (codes "/users/{id}/") ≡ ok user_posts)
    × (parse (codes "/v1/{rest...}") ≡ ok backstop)
    × (parse (codes "v1") ≡ err missing_leading_slash)
    × (parse (codes "/v1//a") ≡ err empty_segment)
    × (parse (codes "/{}") ≡ err bad_param)
    × (parse (codes "/{id") ≡ err bad_param)
    × (parse (codes "/{id}/{id}") ≡ err (duplicate_param (codes "id")))
    × (parse (codes "/{p...}/a") ≡ err (tail_not_final (codes "p")))
unfolding parser
parse_tests = (refl, refl, refl, refl, refl, refl, refl, refl)

match_tests :
    (match_path user_posts (codes "/users/7/") ≡ some ((codes "id", codes "7") ∷ []))
    × (match_path user_posts (codes "/users") ≡ none)
    × (match_path backstop (codes "/v1") ≡ some ((codes "rest", []) ∷ []))
    × (match_path backstop (codes "/v1/a/b") ≡ some ((codes "rest", codes "a/b") ∷ []))
    × (match_path user_me (codes "/users/me") ≡ some [])
unfolding matcher
match_tests = (refl, refl, refl, refl, refl)

-- Two slashes alone are the root, although consecutive slashes are refused elsewhere.
double_slash : parse (codes "//") ≡ parse (codes "/")
unfolding parser
double_slash = refl

conflict_tests :
    (patterns_conflict user_posts user_me ≡ true)
    × (patterns_conflict backstop user_me ≡ false)
    × (overlaps (codes "GET" ∷ []) (codes "ANY" ∷ []) ≡ true)
    × (overlaps (codes "GET" ∷ []) (codes "POST" ∷ []) ≡ false)
    × (methods_match (codes "GET" ∷ []) (codes "get") ≡ true)
unfolding conflicts
conflict_tests = (refl, refl, refl, refl, refl)

abbrev get_post : List Str
get_post = codes "GET" ∷ codes "POST" ∷ []

parse-IsWellFormed_example :
    IsWellFormed user_posts × (user_posts.raw ≡ trim_slash (codes "/users/{id}/"))
parse-IsWellFormed_example = parse-IsWellFormed (codes "/users/{id}/") user_posts parse_tests.0

user_posts-IsWellFormed : IsWellFormed user_posts
user_posts-IsWellFormed = (parse-IsWellFormed (codes "/users/{id}/") user_posts parse_tests.0).0

parse-raw_example : parse (codes "/users/{id}") ≡ ok user_posts
parse-raw_example = parse-raw user_posts user_posts-IsWellFormed

final_tail : misplaced_tail backstop.segments ≡ none
unfolding misplaced_tail
final_tail = refl

match_path_iff_example :
    (match_path backstop (codes "/v1/a") ≡ some ((codes "rest", codes "a") ∷ [])) ↔ (
      (starts_with_slash (codes "/v1/a") ≡ true)
      × Accepts backstop.segments
          (path_parts (trim_slash (codes "/v1/a")))
          ((codes "rest", codes "a") ∷ []))
match_path_iff_example =
    match_path_iff backstop (codes "/v1/a") ((codes "rest", codes "a") ∷ []) final_tail

me_matches :
    (match_path user_posts (codes "/users/me") ≡ some ((codes "id", codes "me") ∷ []))
    × (match_path user_me (codes "/users/me") ≡ some [])
unfolding matcher
me_matches = (refl, refl)

me_kinds :
    (misplaced_tail user_posts.segments ≡ none)
    × (misplaced_tail user_me.segments ≡ none)
    × (has_tail user_posts ≡ has_tail user_me)
unfolding misplaced_tail conflicts
me_kinds = (refl, refl, refl)

match_path-conflict_example : patterns_conflict user_posts user_me ≡ true
match_path-conflict_example =
    match_path-conflict user_posts user_me (codes "/users/me") _ _ me_kinds.0 me_kinds.1 me_kinds.2
      (λ e. refl) me_matches.0 me_matches.1

me_parses : parse (codes "/users/me") ≡ ok user_me
unfolding parser
me_parses = refl

conflict-SharePath_example : SharePath user_posts user_me
conflict-SharePath_example =
    conflict-SharePath user_posts user_me user_posts-IsWellFormed
      (parse-IsWellFormed (codes "/users/me") user_me me_parses).0 conflict_tests.0

method_tests :
    (methods_match get_post (codes "get") ≡ true)
    × (methods_match (codes "GET" ∷ []) (codes "get") ≡ true)
    × (overlaps get_post (codes "POST" ∷ []) ≡ true)
unfolding conflicts
method_tests = (refl, refl, refl)
