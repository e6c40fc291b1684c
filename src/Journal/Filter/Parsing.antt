-- ===== src/Journal/Filter/Parsing.antt =====
-- crates/wm-host/src/journal_filter.rs: the slug of a route and the status filter, out of their texts.
use wiremirage.Prelude.Text.{Str, codes, str_eq}
use wiremirage.Prelude.Split.{Lacks, rsplit_once, rsplit_once-last}
use wiremirage.Prelude.Decimal.{print, parse_unsigned, max_u16, max_u32}
use wiremirage.Prelude.Decimal.RoundTrip.{IsDigit, print-digits, parse_unsigned-print}
use wiremirage.Prelude.{
  ℕ, ◌≤◌, ◌≢◌, ◌||◌, Bool, false, none, some, [], ◌∷◌, is_empty, if◌then◌else◌, Result, ok, err,
  All, ◌≡◌, refl, arith,
}
use wiremirage.Registry.{render_slug}
use wiremirage.Journal.Filter.{
  RouteSlug, StatusFilter, two_xx, three_xx, four_xx, five_xx, exact, within,
}

pub data FilterParseError : Type 0 where
  bad_slug bad_route_number bad_status : Str → FilterParseError

-- the number of a slug
unfoldable pub numbered_slug : Str → Str → Result FilterParseError RouteSlug
numbered_slug group num = elim (parse_unsigned max_u32 num) [
  | none ↦ err (bad_route_number num)
  | some number ↦ ok (record { group_ref = group; number = number })
]

-- `RouteSlug::parse`
unfoldable pub parse_slug : Str → Result FilterParseError RouteSlug
parse_slug slug = elim (rsplit_once b'/' slug) [
  | none ↦ err (bad_slug slug)
  | some (group, num) ↦ if is_empty group then err (bad_slug slug) else numbered_slug group num
]

unfoldable pub either_case : Str → Str → Str → Bool
either_case s lower upper = str_eq s lower || str_eq s upper

unfoldable pub exact_status : Str → Result FilterParseError StatusFilter
exact_status s = elim (parse_unsigned max_u16 s) [
  | none ↦ err (bad_status s)
  | some code ↦ if within 100 599 code then ok (exact code) else err (bad_status s)
]

-- `StatusFilter::parse`
unfoldable pub parse_status : Str → Result FilterParseError StatusFilter
parse_status s =
    if either_case s (codes "2xx") (codes "2XX")
    then ok two_xx
    else if either_case s (codes "3xx") (codes "3XX")
    then ok three_xx
    else if either_case s (codes "4xx") (codes "4XX")
    then ok four_xx
    else if either_case s (codes "5xx") (codes "5XX")
    then ok five_xx
    else exact_status s

digits-Lacks : (s : Str) → All IsDigit s → Lacks b'/' s
digits-Lacks [] h = tt
digits-Lacks (c ∷ s) ((low, high), h) = (λ e. absurd (omega arith), digits-Lacks s h)

not_empty : (s : Str) → s ≢ [] → is_empty s ≡ false
not_empty [] h = absurd (h refl)
not_empty (c ∷ s) h = refl

-- The slug that is rendered for a route, of a group with a name and a number of 32 bits, is parsed to
-- that name and that number, whatever slashes the name has.
pub parse_slug-render_slug :
    (group : Str) (number : ℕ)
    → group ≢ []
    → number ≤ max_u32
    → parse_slug (render_slug group number) ≡ ok (record { group_ref = group; number = number })
unfolding parse_slug render_slug numbered_slug
parse_slug-render_slug group number named fits =
    rw
      (
        rsplit_once-last b'/' group (print number)
            (digits-Lacks (print number) (print-digits number)),
        parse_slug,
        not_empty group named,
        parse_unsigned-print max_u32 number fits,
        numbered_slug,
      )
      refl
