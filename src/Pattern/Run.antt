-- ===== src/Pattern/Run.antt =====
-- Sets of definitions, to run the code of crates/wm-host/src/pattern.rs on concrete inputs.
use wiremirage.Prelude.Text.{str_eq, mem_str, strip_suffix, ends_with, contains}
use wiremirage.Prelude.Split.{split, join}
use wiremirage.Prelude.Ascii.{to_upper, to_lower, eq_ignore_case}
use wiremirage.Pattern.{
  starts_with_slash, trim_slash, name_byte, split_dots, named_segment, param_segment,
  literal_segment, parse_part, parse_parts, misplaced_tail, check_tail, parse_trimmed, parse,
  tail_name, has_tail, path_parts, match_segment, match_zip, match_tail, match_exact, match_trimmed,
  match_path, segments_compatible, same_shape, patterns_conflict, methods_match, overlaps,
  routes_conflict,
}

unfoldable pub parser : Unit {0}
unfolding parse parse_trimmed starts_with_slash trim_slash name_byte split_dots named_segment
    param_segment literal_segment parse_part parse_parts misplaced_tail check_tail str_eq mem_str
    strip_suffix ends_with contains split
parser = tt

unfoldable pub matcher : Unit {0}
unfolding match_path match_trimmed match_exact match_tail match_zip match_segment path_parts
    tail_name starts_with_slash trim_slash str_eq ends_with split join
matcher = tt

unfoldable pub conflicts : Unit {0}
unfolding routes_conflict patterns_conflict same_shape segments_compatible has_tail tail_name
    overlaps methods_match eq_ignore_case to_lower to_upper str_eq
conflicts = tt
