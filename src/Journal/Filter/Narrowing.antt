-- ===== src/Journal/Filter/Narrowing.antt =====
-- The filters of crates/wm-host/src/journal_filter.rs are conjunctive: a criterion more only takes
-- events away.
use wiremirage.Prelude.Text.{str_eq}
use wiremirage.Prelude.Ascii.{eq_ignore_case}
use wiremirage.Filters.{glob_match}
use wiremirage.Prelude.{
  leb, Bool, true, false, ◌||◌, Option, none, is_some, ◌≡◌, refl, ap, ◌∙◌, ◌⊎◌, inl, inr, arith,
}
use wiremirage.Journal.{JournalEvent, handled, unmatched, JournalRecord, UnmatchedRecord}
use wiremirage.Journal.Filter.{
  JournalFilter, status_matches, accepts, in_route, matches_handled, matches_unmatched, matches,
}

-- The first criterion is absent or the second one.
abbrev pub Weaker : {A : Type 0} → Option A → Option A → Type 0
Weaker a b = (a ≡ none) ⊎ (a ≡ b)

-- Each criterion of the first filter is absent or as in the second.
pub record IsWeaker (f g : JournalFilter) : Type 0 where
  pub group : Weaker f.group g.group
  pub route : Weaker f.route g.route
  pub method : Weaker f.method g.method
  pub path_pattern : Weaker f.path_pattern g.path_pattern
  pub status : Weaker f.status g.status
  pub since : Weaker f.since g.since
  pub until : Weaker f.until g.until

accepts-Weaker :
    {A : Type 0} (test : A → Bool) (a b : Option A)
    → Weaker a b
    → accepts test b ≡ true
    → accepts test a ≡ true
unfolding accepts
accepts-Weaker test a b (inl e) h = rw e refl
accepts-Weaker test a b (inr e) h = rw e h

absent : {A : Type 0} (a b : Option A) → Weaker a b → is_some b ≡ false → is_some a ≡ false
absent a b (inl e) h = ap is_some e
absent a b (inr e) h = ap is_some e ∙ h

handled-IsWeaker :
    (f g : JournalFilter) (r : JournalRecord)
    → IsWeaker f g
    → matches_handled g r ≡ true
    → matches_handled f r ≡ true
unfolding matches_handled
handled-IsWeaker f g r w h = ground (
  arith,
  accepts-Weaker (λ group. str_eq r.group_name group || str_eq r.group_id group) f.group g.group
      w.group,
  accepts-Weaker (in_route r) f.route g.route w.route,
  accepts-Weaker (λ method. eq_ignore_case method r.request.method) f.method g.method w.method,
  accepts-Weaker (λ pattern. glob_match pattern r.matched_pattern) f.path_pattern g.path_pattern
      w.path_pattern,
  accepts-Weaker (λ status. status_matches status r.response.status) f.status g.status w.status,
  accepts-Weaker (λ since. leb since r.created_at) f.since g.since w.since,
  accepts-Weaker (λ until. leb r.created_at until) f.until g.until w.until,
)

unmatched-IsWeaker :
    (f g : JournalFilter) (u : UnmatchedRecord)
    → IsWeaker f g
    → matches_unmatched g u ≡ true
    → matches_unmatched f u ≡ true
unfolding matches_unmatched
unmatched-IsWeaker f g u w h = ground (
  arith,
  absent f.group g.group w.group,
  absent f.route g.route w.route,
  absent f.status g.status w.status,
  accepts-Weaker (λ method. eq_ignore_case method u.request.method) f.method g.method w.method,
  accepts-Weaker (λ pattern. glob_match pattern u.request.path) f.path_pattern g.path_pattern
      w.path_pattern,
  accepts-Weaker (λ since. leb since u.created_at) f.since g.since w.since,
  accepts-Weaker (λ until. leb u.created_at until) f.until g.until w.until,
)

-- An event that a filter lets through passes every filter that has some of its criteria, and no
-- others.
pub matches-IsWeaker :
    (f g : JournalFilter) (e : JournalEvent)
    → IsWeaker f g
    → matches g e ≡ true
    → matches f e ≡ true
unfolding matches
matches-IsWeaker f g (handled r) w h = handled-IsWeaker f g r w h
matches-IsWeaker f g (unmatched u) w h = unmatched-IsWeaker f g u w h
