-- ===== src/Pattern.antt =====
-- crates/wm-host/src/pattern.rs: path patterns, their parser, the match of a request path, method
-- lists and the conflict test. The `unreachable!` arms for a tail before the last segment are
-- `none`; `Pattern/Parsing` shows that no parsed pattern has such a tail.
pub mod Shape
pub mod Parsing
pub mod Printing
pub mod Tails
pub mod Accepts
pub mod Matching
pub mod Conflicts
pub mod Ambiguity
pub mod Overlaps
pub mod Run
mod Tests
use wiremirage.Prelude.Text.{Str, codes, str_eq, mem_str, strip_suffix, ends_with, contains}
use wiremirage.Prelude.Split.{split, join}
use wiremirage.Prelude.Ascii.{to_upper, eq_ignore_case}
use wiremirage.Prelude.{
  ℕ, Bool, true, false, ◌&&◌, ◌||◌, not, Option, none, some, List, [], ◌∷◌, ◌++◌, map, ltb, leb,
  ◌==◌, if◌then◌else◌, length, is_empty, drop, init, all, any, all_zip, is_some, Result, ok, err,
  ◌>>=◌, ◌>>◌, require, bind_option,
}

pub data PatternError : Type 0 where
  missing_leading_slash empty_segment bad_param : PatternError
  duplicate_param invalid_param_name tail_not_final : Str → PatternError

pub data Segment : Type 0 where
  literal param tail : Str → Segment

pub record Pattern : Type 0 where
  pub raw : Str
  pub segments : List Segment

abbrev pub Captures : Type 0
Captures = List (Str × Str)

abbrev pub slash : ℕ
slash = b'/'

abbrev pub root : Str
root = slash ∷ []

unfoldable pub starts_with_slash : Str → Bool
starts_with_slash [] = false
starts_with_slash (c ∷ s) = c == slash

-- "drop trailing slash unless the path is exactly `/`"
unfoldable pub trim_slash : Str → Str
trim_slash path = if ltb 1 (length path) && ends_with root path then init path else path

-- a name byte: `[A-Za-z0-9_-]`
unfoldable pub name_byte : ℕ → Bool
name_byte c =
    (leb b'a' c && leb c b'z')
    || (leb b'A' c && leb c b'Z')
    || (leb b'0' c && leb c b'9')
    || c == b'_'
    || c == b'-'

-- the name in braces and whether it had the `...` suffix
split_dots : Str → Str × Bool
split_dots inner = elim (strip_suffix (codes "...") inner) [
  | none ↦ (inner, false)
  | some name ↦ (name, true)
]

-- the checks on a name, and the segment that is pushed
named_segment : List Str → Str × Bool → Result PatternError (Segment × List Str)
named_segment seen (name, is_tail) = do
  require (not (is_empty name)) bad_param
  require (all name_byte name) (invalid_param_name name)
  require (not (mem_str name seen)) (duplicate_param name)
  ok ((if is_tail then tail name else param name), name ∷ seen)

-- the part behind `{`
param_segment : List Str → Str → Result PatternError (Segment × List Str)
param_segment seen rest = elim (strip_suffix (codes "}") rest) [
  | none ↦ err bad_param
  | some inner ↦ if is_empty inner then err bad_param else named_segment seen (split_dots inner)
]

literal_segment : List Str → Str → Result PatternError (Segment × List Str)
literal_segment seen part =
    if contains b'{' part || contains b'}' part then err bad_param else ok (literal part, seen)

-- the body of the loop over the parts; the names seen so far go round
parse_part : List Str → Str → Result PatternError (Segment × List Str)
parse_part seen [] = err empty_segment
parse_part seen (c ∷ rest) =
    if c == b'{' then param_segment seen rest else literal_segment seen (c ∷ rest)

parse_parts : List Str → List Str → Result PatternError (List Segment)
parse_parts seen [] = ok []
parse_parts seen (part ∷ parts) = do
  (segment, seen') ← parse_part seen part
  segments ← parse_parts seen' parts
  ok (segment ∷ segments)

-- the name of the first tail, if it is not the last segment
pub misplaced_tail : List Segment → Option Str
misplaced_tail [] = none
misplaced_tail (tail name ∷ []) = none
misplaced_tail (tail name ∷ _ ∷ _) = some name
misplaced_tail (literal _ ∷ segments) = misplaced_tail segments
misplaced_tail (param _ ∷ segments) = misplaced_tail segments

check_tail : Str → List Segment → Result PatternError Pattern
check_tail trimmed segments = elim (misplaced_tail segments) [
  | none ↦ ok (record { raw = trimmed; segments = segments })
  | some name ↦ err (tail_not_final name)
]

parse_trimmed : Str → Result PatternError Pattern
parse_trimmed trimmed =
    if str_eq trimmed root
    then ok (record { raw = root; segments = [] })
    else parse_parts [] (split slash (drop 1 trimmed)) >>= check_tail trimmed

pub parse : Str → Result PatternError Pattern
parse raw =
    if starts_with_slash raw then parse_trimmed (trim_slash raw) else err missing_leading_slash

-- the name of the last segment, if it is a tail
pub tail_name : List Segment → Option Str
tail_name [] = none
tail_name (tail name ∷ []) = some name
tail_name (literal _ ∷ []) = none
tail_name (param _ ∷ []) = none
tail_name (_ ∷ s ∷ segments) = tail_name (s ∷ segments)

pub has_tail : Pattern → Bool
has_tail p = is_some (tail_name p.segments)

-- the parts of a request path behind its leading slash
pub path_parts : Str → List Str
path_parts trimmed = if str_eq trimmed root then [] else split slash (drop 1 trimmed)

-- the body of the matching loop
pub match_segment : Segment → Str → Option Captures
match_segment segment [] = none
match_segment (literal lit) (c ∷ part) = if str_eq lit (c ∷ part) then some [] else none
match_segment (param name) (c ∷ part) = some ((name, c ∷ part) ∷ [])
match_segment (tail name) (c ∷ part) = none

-- the loop over the zipped segments and parts
pub match_zip : List Segment → List Str → Option Captures
match_zip [] parts = some []
match_zip (segment ∷ segments) [] = some []
match_zip (segment ∷ segments) (part ∷ parts) =
    bind_option (match_segment segment part)
      λ first. bind_option (match_zip segments parts) λ rest. some (first ++ rest)

match_tail : List Segment → Str → List Str → Option Captures
match_tail prefix name parts =
    if ltb (length parts) (length prefix)
    then none
    else bind_option (match_zip prefix parts)
        λ captures. some (captures ++ (name, join slash (drop (length prefix) parts)) ∷ [])

match_exact : List Segment → Str → List Str → Option Captures
match_exact segments trimmed parts =
    if str_eq trimmed root
    then (if is_empty segments then some [] else none)
    else if length parts == length segments
    then match_zip segments parts
    else none

match_trimmed : List Segment → Str → Option Captures
match_trimmed segments trimmed = elim (tail_name segments) [
  | some name ↦ match_tail (init segments) name (path_parts trimmed)
  | none ↦ match_exact segments trimmed (path_parts trimmed)
]

pub match_path : Pattern → Str → Option Captures
match_path p path =
    if starts_with_slash path then match_trimmed p.segments (trim_slash path) else none

segments_compatible : Segment → Segment → Bool
segments_compatible (literal x) (literal y) = str_eq x y
segments_compatible (literal _) (param _) = true
segments_compatible (param _) (literal _) = true
segments_compatible (param _) (param _) = true
segments_compatible (tail _) _ = false
segments_compatible _ (tail _) = false

same_shape : List Segment → List Segment → Bool
same_shape a b = length a == length b && all_zip segments_compatible a b

pub patterns_conflict : Pattern → Pattern → Bool
patterns_conflict a b =
    if has_tail a
    then (if has_tail b then same_shape (init a.segments) (init b.segments) else false)
    else (if has_tail b then false else same_shape a.segments b.segments)

-- `Methods(pub Vec<String>)`
abbrev pub Methods : Type 0
Methods = List Str

abbrev pub any_method : Str
any_method = codes "ANY"

-- `methods.matches(method)`
pub methods_match : Methods → Str → Bool
methods_match methods method =
    any (λ x. str_eq x any_method || eq_ignore_case x (map to_upper method)) methods

-- `methods.overlaps(other)`
pub overlaps : Methods → Methods → Bool
overlaps a b =
    if any (λ m. str_eq m any_method) a || any (λ m. str_eq m any_method) b
    then true
    else any (λ x. any (str_eq x) b) a

unfoldable pub routes_conflict : Methods → Pattern → Methods → Pattern → Bool
routes_conflict methods_a a methods_b b = overlaps methods_a methods_b && patterns_conflict a b
