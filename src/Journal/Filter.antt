-- ===== src/Journal/Filter.antt =====
-- crates/wm-host/src/journal_filter.rs: which events of the journal a reader asks for.
pub mod Narrowing
pub mod Parsing
use wiremirage.Prelude.Text.{Str, str_eq}
use wiremirage.Prelude.Ascii.{eq_ignore_case}
use wiremirage.Prelude.{
  ℕ, Bool, true, false, not, ◌&&◌, ◌||◌, ◌==◌, leb, Option, none, some, is_some, if◌then◌else◌,
}
use wiremirage.Filters.{glob_match}
use wiremirage.Journal.{JournalRecord, UnmatchedRecord, JournalEvent, handled, unmatched}

pub record RouteSlug : Type 0 where
  pub group_ref : Str
  pub number : ℕ

pub data StatusFilter : Type 0 where
  two_xx three_xx four_xx five_xx : StatusFilter
  exact : ℕ → StatusFilter

pub record JournalFilter : Type 0 where
  pub group : Option Str
  pub route : Option RouteSlug
  pub method : Option Str
  pub path_pattern : Option Str
  pub status : Option StatusFilter
  pub since : Option ℕ
  pub until : Option ℕ

unfoldable pub within : ℕ → ℕ → ℕ → Bool
within low high n = leb low n && leb n high

unfoldable pub status_matches : StatusFilter → ℕ → Bool
status_matches two_xx status = within 200 299 status
status_matches three_xx status = within 300 399 status
status_matches four_xx status = within 400 499 status
status_matches five_xx status = within 500 599 status
status_matches (exact code) status = code == status

-- `if let Some(x) = … && refused(x) { return false }`, turned to what is accepted
unfoldable pub accepts {ℓ} : {A : Type ℓ} → (A → Bool) → Option A → Bool
accepts test none = true
accepts test (some x) = test x

unfoldable pub in_route : JournalRecord → RouteSlug → Bool
in_route r route =
    (str_eq r.group_name route.group_ref || str_eq r.group_id route.group_ref)
    && r.route_number == route.number

unfoldable pub matches_handled : JournalFilter → JournalRecord → Bool
matches_handled f r =
    accepts (λ group. str_eq r.group_name group || str_eq r.group_id group) f.group
    && accepts (in_route r) f.route
    && accepts (λ method. eq_ignore_case method r.request.method) f.method
    && accepts (λ pattern. glob_match pattern r.matched_pattern) f.path_pattern
    && accepts (λ status. status_matches status r.response.status) f.status
    && accepts (λ since. leb since r.created_at) f.since
    && accepts (λ until. leb r.created_at until) f.until

unfoldable pub matches_unmatched : JournalFilter → UnmatchedRecord → Bool
matches_unmatched f u =
    if is_some f.route || is_some f.status
    then false
    else if is_some f.group
    then false
    else accepts (λ method. eq_ignore_case method u.request.method) f.method
      && accepts (λ pattern. glob_match pattern u.request.path) f.path_pattern
      && accepts (λ since. leb since u.created_at) f.since
      && accepts (λ until. leb u.created_at until) f.until

unfoldable pub matches : JournalFilter → JournalEvent → Bool
matches f (handled r) = matches_handled f r
matches f (unmatched u) = matches_unmatched f u
