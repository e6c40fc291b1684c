-- ===== src/RouteTable/Cache/RateLimit.antt =====
-- How often the read-through of crates/wm-host/src/route_table.rs reads the storage, and what it
-- makes reachable.
use mathlib.Core.List.{Memᴰ}
use mathlib.Core.Option.{none-ne-some}
use wiremirage.Prelude.Text.{Str, str_eq, str_eq_iff}
use wiremirage.Prelude.Assoc.{lookup, lookup-insert}
use wiremirage.Prelude.Members.{All-Memᴰ, Memᴰ_right}
use wiremirage.Prelude.{
  ℕ, ◌-◌, ◌≤◌, Bool, true, false, not, ◌&&◌, Option, none, some, List, [], ◌∷◌, if◌then◌else◌, ok,
  Bool-cases, Option-cases, ◌≡◌, refl, sym, ◌∙◌, ap, arith, ◌≢◌, keep, subst₂, inl, inr,
  Result-cases,
}
use wiremirage.Pattern.{Pattern}
use wiremirage.Registry.{Route}
use wiremirage.RouteTable.{MatchedRoute, candidate}
use wiremirage.RouteTable.Candidates.{IsNoCandidate}
use wiremirage.RouteTable.Precedence.{find_match-none_iff}
use wiremirage.RouteTable.Cache.{
  RouteReads, Table, reload_group, too_soon, claim, revalidate_group, revalidate_and_rematch,
  in_group,
}

-- One miss: what the storage answers then, the group and the time.
pub record Miss (E : Type 0) : Type 0 where
  pub reads : RouteReads E
  pub group_id : Str
  pub now : ℕ

-- A storage that has no routes, and answers.
abbrev pub answering : {E : Type 0} → RouteReads E
answering = record { list_routes = ok []; routes_in_group = λ group_id. ok [] }

-- Whether the code reads the storage for a miss: whether it reports a reload where the storage answers.
abbrev pub reads_storage : {C : Type 0} → (E : Type 0) → Str → ℕ → Table C → Bool
reads_storage E group_id now t = (revalidate_group {E = E} answering group_id now t).0

reads_storage-too_soon :
    {C : Type 0} (E : Type 0) (group_id : Str) (now : ℕ) (t : Table C)
    → reads_storage E group_id now t
      ≡ not (too_soon (lookup group_id t.revalidated_at) now t.revalidate_interval)
unfolding revalidate_group reload_group
reads_storage-too_soon E group_id now t = ground arith

-- Each time is at least the interval after the one before it.
abbrev pub IsSpaced : ℕ → Option ℕ → List ℕ → Type 0
IsSpaced interval last [] = Unit
IsSpaced interval none (x ∷ xs) = IsSpaced interval (some x) xs
IsSpaced interval (some last) (x ∷ xs) = (interval ≤ x - last) × IsSpaced interval (some x) xs

module _ {C E : Type 0} where
  abbrev pub after : Miss E → Table C → Table C
  after c t = (revalidate_group c.reads c.group_id c.now t).1

  -- The times at which the storage is read for the group `g`.
  abbrev pub read_times : Str → List (Miss E) → Table C → List ℕ
  read_times g [] t = []
  read_times g (c ∷ calls) t =
      let later = read_times g calls (after c t) in
      if str_eq c.group_id g && reads_storage E c.group_id c.now t then c.now ∷ later else later

  reload-slots :
      (reads : RouteReads E) (g : Str) (t : Table C)
      → ((reload_group reads g t).1.revalidated_at ≡ t.revalidated_at)
        × ((reload_group reads g t).1.revalidate_interval ≡ t.revalidate_interval)
  unfolding reload_group
  reload-slots reads g t = elim (Result-cases (reads.routes_in_group g)) [
    | inl (e, q) ↦ rw (q, reload_group) (refl, refl)
    | inr (fresh, q) ↦ rw (q, reload_group) (refl, refl)
  ]

  revalidate_group-soon :
      (c : Miss E) (t : Table C) → reads_storage E c.group_id c.now t ≡ false → after c t ≡ t
  unfolding revalidate_group
  revalidate_group-soon c t h =
      let soon = sym (reads_storage-too_soon E c.group_id c.now t) ∙ h in ground (arith, soon)

  revalidate_group-free :
      (c : Miss E) (t : Table C)
      → reads_storage E c.group_id c.now t ≡ true
      → after c t ≡ (reload_group c.reads c.group_id (claim c.group_id c.now t)).1
  unfolding revalidate_group
  revalidate_group-free c t h =
      let free = sym (reads_storage-too_soon E c.group_id c.now t) ∙ h in ground (arith, free)

  after-interval :
      (c : Miss E) (t : Table C) → (after c t).revalidate_interval ≡ t.revalidate_interval
  unfolding revalidate_group claim
  after-interval c t = elim (Bool-cases (reads_storage E c.group_id c.now t)) [
    | inr soon ↦ ap Table.revalidate_interval (revalidate_group-soon c t soon)
    | inl free ↦
        ap Table.revalidate_interval (revalidate_group-free c t free)
        ∙ ((reload-slots c.reads c.group_id (claim c.group_id c.now t)).1)
  ]

  after-slot :
      (g : Str) (c : Miss E) (t : Table C)
      → lookup g (after c t).revalidated_at ≡ (
          if str_eq c.group_id g && reads_storage E c.group_id c.now t
          then some c.now
          else lookup g t.revalidated_at)
  unfolding revalidate_group claim
  after-slot g c t = elim (Bool-cases (reads_storage E c.group_id c.now t)) [
    | inr soon ↦
        ap (λ u. lookup g (Table.revalidated_at u)) (revalidate_group-soon c t soon) ∙ ground arith
    | inl free ↦
        ap (λ u. lookup g (Table.revalidated_at u)) (revalidate_group-free c t free)
        ∙ ap (lookup g) (reload-slots c.reads c.group_id (claim c.group_id c.now t)).0
        ∙ lookup-insert c.group_id g c.now t.revalidated_at
        ∙ ground arith
  ]

  first_read :
      (g : Str) (c : Miss E) (t : Table C) (xs : List ℕ)
      → str_eq c.group_id g && reads_storage E c.group_id c.now t ≡ true
      → IsSpaced t.revalidate_interval (some c.now) xs
      → IsSpaced t.revalidate_interval (lookup g t.revalidated_at) (c.now ∷ xs)
  unfolding too_soon
  first_read g c t xs h rest =
      let guarded = rw (reads_storage-too_soon E c.group_id c.now t) at h in
      elim (Option-cases (lookup g t.revalidated_at)) [
        | inl e ↦ rw e rest
        | inr (last, e) ↦ rw e (ground (arith, guarded, str_eq_iff c.group_id g), rest)
      ]

  -- Without a read the storage has no part in the answer.
  unread_same :
      (reads : RouteReads E) (id : Str) (now : ℕ) (t : Table C)
      → reads_storage E id now t ≡ false
      → revalidate_group reads id now t ≡ (false, t)
  unfolding revalidate_group
  unread_same reads id now t h =
      let soon = sym (reads_storage-too_soon E id now t) ∙ h in ground (arith, soon)

  spaced :
      (g : Str) (calls : List (Miss E)) (t : Table C)
      → IsSpaced t.revalidate_interval (lookup g t.revalidated_at) (read_times g calls t)
  spaced g [] t = tt
  spaced g (c ∷ calls) t =
      let ih = spaced g calls (after c t) in
      let later =
        subst₂ (λ i l. IsSpaced i l (read_times g calls (after c t))) (after-interval c t)
          (after-slot g c t) ih in
      elim (Bool-cases (str_eq c.group_id g && reads_storage E c.group_id c.now t)) [
        | inl read ↦
            rw read (first_read g c t (read_times g calls (after c t)) read (rw read at later))
        | inr unread ↦ rw unread (rw unread at later)
      ]

  -- However many misses there are and for whichever groups, two reads of the storage for one group
  -- are at least the interval apart, the read before the first miss included. A miss reads where it
  -- reports a reload if the storage answers; any other miss reports none and leaves the table as it
  -- is, whatever the storage has.
  pub read_times-IsSpaced :
      (g : Str) (calls : List (Miss E)) (t : Table C)
      → IsSpaced t.revalidate_interval (lookup g t.revalidated_at) (read_times g calls t)
        × ((reads : RouteReads E) (id : Str) (now : ℕ) (u : Table C)
            → reads_storage E id now u ≡ false
            → revalidate_group reads id now u ≡ (false, u))
  read_times-IsSpaced g calls t = (spaced g calls t, unread_same)

  -- A route that the storage has for the group and that answers the request makes the rematch
  -- succeed, unless the group's slot is taken.
  pub revalidate_and_rematch-ready :
      (reads : RouteReads E) (id name method path : Str) (now : ℕ) (t : Table C)
      (fresh : List Route) (r : Route) (p : Pattern) (m : MatchedRoute)
      → too_soon (lookup id t.revalidated_at) now t.revalidate_interval ≡ false
      → reads.routes_in_group id ≡ ok fresh
      → Memᴰ r fresh
      → candidate (some name) method path r ≡ some (p, m)
      → (revalidate_and_rematch reads id name method path now t).0 ≢ none
  unfolding revalidate_and_rematch revalidate_group reload_group claim
  revalidate_and_rematch-ready reads id name method path now t fresh r p m free read listed c
        missed =
      absurd (
        none-ne-some (p, m)
          (sym (
              All-Memᴰ (IsNoCandidate (some name) method path)
                (Memᴰ_right (keep (λ s. not (in_group id s)) t.routes) listed)
                ((find_match-none_iff (some name) method path _).0
                  (rw (free, read, reload_group) at missed)))
            ∙ c))
