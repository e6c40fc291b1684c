-- ===== src/Filters/Tests.antt =====
-- Runs of the glob matching of crates/wm-host/src/api_filters.rs, and an instance of its theorem.
use wiremirage.Prelude.Text.{codes, contains, strip_prefix, ends_with, str_eq}
use wiremirage.Prelude.Split.{split}
use wiremirage.Prelude.{true, false, ◌≡◌, ◌↔◌, refl}
use wiremirage.Filters.{star, find_after, glob_rest, glob_parts, glob_match}
use wiremirage.Filters.Glob.{IsGlob, glob_match_iff}

glob_tests :
    (glob_match (codes "/v1/*/x*") (codes "/v1/a/x") ≡ true)
    × (glob_match (codes "/v1/*") (codes "/v2/a") ≡ false)
    × (glob_match (codes "*") (codes "/any") ≡ true)
    × (glob_match (codes "a*a") (codes "a") ≡ false)
    × (glob_match (codes "/v1") (codes "/v1/a") ≡ false)
unfolding glob_match glob_parts glob_rest find_after split contains strip_prefix ends_with str_eq
glob_tests = (refl, refl, refl, refl, refl)

glob_match_iff_example :
    (glob_match (codes "/v1/*/x*") (codes "/v1/a/x") ≡ true)
    ↔ IsGlob (split star (codes "/v1/*/x*")) (codes "/v1/a/x")
glob_match_iff_example = glob_match_iff (codes "/v1/*/x*") (codes "/v1/a/x")
