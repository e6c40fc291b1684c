-- ===== src/Filters.antt =====
-- crates/wm-host/src/api_filters.rs and crates/wm-host/src/journal_filter.rs: the filters of the list
-- endpoints.
pub mod Glob
mod Tests
use wiremirage.Prelude.Text.{Str, str_eq, contains, strip_prefix, ends_with}
use wiremirage.Prelude.Split.{split}
use wiremirage.Prelude.{
  ℕ, Bool, true, false, not, Option, none, some, List, [], ◌∷◌, is_empty, if◌then◌else◌,
}

abbrev pub star : ℕ
star = b'*'

-- What is behind the first occurrence: `find`, and the cursor moved behind it.
unfoldable pub find_after : Str → Str → Option Str
find_after part [] = strip_prefix part []
find_after part (y ∷ s) =
    let later = find_after part s in
    elim (strip_prefix part (y ∷ s)) [ none ↦ later | some rest ↦ some rest ]

-- the rounds after the first, on what is behind the cursor
unfoldable pub glob_rest : List Str → Str → Bool
glob_rest [] rest = true
glob_rest (part ∷ []) rest = if is_empty part then true else ends_with part rest
glob_rest (part ∷ next ∷ parts) rest =
    if is_empty part then glob_rest (next ∷ parts) rest else elim (find_after part rest) [
      | none ↦ false
      | some behind ↦ glob_rest (next ∷ parts) behind
    ]

unfoldable pub glob_parts : List Str → Str → Bool
glob_parts [] target = true
glob_parts (part ∷ parts) target = elim (strip_prefix part target) [
  | none ↦ false
  | some rest ↦ glob_rest parts rest
]

unfoldable pub glob_match : Str → Str → Bool
glob_match pattern target =
    if contains star pattern then glob_parts (split star pattern) target else str_eq pattern target
