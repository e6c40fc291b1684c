-- ===== src/Egress/Config/Reading.antt =====
-- The policy of crates/wm-host/src/egress.rs against its settings: what each entry stands for, and
-- which entry is reported.
use wiremirage.Prelude.Text.{Str, codes}
use wiremirage.Prelude.{
  Option, none, some, ◌>>=◌, List, [], ◌∷◌, Result, ok, err, ◌≡◌, ◌⊎◌, inl, inr, refl, Result-cases,
  Option-cases,
}
use wiremirage.Egress.{IpAddr, EgressPolicy}
use wiremirage.Egress.Config.{
  EgressConfigError, entries, listed, is_on, parse_entry, parse_entries, parse_cidrs, from_parts,
}

module _ {Net E : Type 0} (parse_net : Str → Result E Net) (parse_ip : Str → Option IpAddr)
    (host_net : IpAddr → Net) where
  -- A net is written as such, or as an address that is no net.
  abbrev pub Denotes : Str → Net → Type 0
  Denotes s net =
      (parse_net s ≡ ok net)
      ⊎ ((e : E) × (ip : IpAddr) × (parse_net s ≡ err e)
          × (parse_ip s ≡ some ip)
          × (host_net ip ≡ net))

  abbrev pub Denote : List Str → List Net → Type 0
  Denote [] [] = Unit
  Denote (s ∷ texts) (net ∷ nets) = Denotes s net × Denote texts nets
  Denote _ _ = ⊥

  -- The error is about the first entry that is neither a net nor an address.
  pub data IsFirstBad (e : EgressConfigError E) : List Str → Type 0 where
    here :
        {s : Str} {texts : List Str}
        → e.entry ≡ s
        → parse_net s ≡ err e.source
        → parse_ip s ≡ none
        → IsFirstBad e (s ∷ texts)
    later :
        {s : Str} {net : Net} {texts : List Str}
        → Denotes s net
        → IsFirstBad e texts
        → IsFirstBad e (s ∷ texts)

  abbrev IsListRead : Str → List Str → Result (EgressConfigError E) (List Net) → Type 0
  IsListRead var texts (ok nets) = Denote texts nets
  IsListRead var texts (err e) = (e.var ≡ var) × IsFirstBad e texts

  -- What the settings make of a policy, or of an error.
  abbrev pub IsConfigured :
      Option Str
      → Option Str
      → Option Str
      → Result (EgressConfigError E) (EgressPolicy Net)
      → Type 0
  IsConfigured enabled allow deny (ok policy) =
      (policy.enabled ≡ is_on enabled)
      × Denote (listed allow) policy.allow
      × Denote (listed deny) policy.deny
  IsConfigured enabled allow deny (err e) =
      ((e.var ≡ codes "WM_EGRESS_ALLOW") × IsFirstBad e (listed allow))
      ⊎ ((nets : List Net) × Denote (listed allow) nets
          × (e.var ≡ codes "WM_EGRESS_DENY")
          × IsFirstBad e (listed deny))

  abbrev IsEntryRead : Str → Str → Result (EgressConfigError E) Net → Type 0
  IsEntryRead var s (ok net) = Denotes s net
  IsEntryRead var s (err e) =
      (e.var ≡ var) × (e.entry ≡ s) × (parse_net s ≡ err e.source) × (parse_ip s ≡ none)

  parse_entry-IsEntryRead :
      (var s : Str) → IsEntryRead var s (parse_entry parse_net parse_ip host_net var s)
  unfolding parse_entry
  parse_entry-IsEntryRead var s = elim (Result-cases (parse_net s)) [
    | inr (net, e) ↦ rw (e, parse_entry) (inl e)
    | inl (x, e) ↦ elim (Option-cases (parse_ip s)) [
      | inl n ↦ rw (e, parse_entry, n) (refl, refl, e, n)
      | inr (ip, i) ↦ rw (e, parse_entry, i) (inr (x, ip, e, i, refl))
    ]
  ]

  entry_listed :
      (var s : Str) (texts : List Str) (net : Net) (rest : Result (EgressConfigError E) (List Net))
      → Denotes s net
      → IsListRead var texts rest
      → IsListRead var (s ∷ texts) (rest >>= λ nets. ok (net ∷ nets))
  entry_listed var s texts net (ok nets) d r = (d, r)
  entry_listed var s texts net (err e) d (same, bad) = (same, later d bad)

  list_from :
      (var s : Str) (texts : List Str) (entry : Result (EgressConfigError E) Net)
      (rest : Result (EgressConfigError E) (List Net))
      → IsEntryRead var s entry
      → IsListRead var texts rest
      → IsListRead var (s ∷ texts) (entry >>= λ net. rest >>= λ nets. ok (net ∷ nets))
  list_from var s texts (ok net) rest d r = entry_listed var s texts net rest d r
  list_from var s texts (err e) rest (same, entry, net, ip) r = (same, here entry net ip)

  parse_entries-IsListRead :
      (var : Str) (texts : List Str)
      → IsListRead var texts (parse_entries parse_net parse_ip host_net var texts)
  unfolding parse_entries
  parse_entries-IsListRead var [] = tt
  parse_entries-IsListRead var (s ∷ texts) =
      list_from var s texts _ _ (parse_entry-IsEntryRead var s) (parse_entries-IsListRead var texts)

  parse_cidrs-IsListRead :
      (var : Str) (raw : Option Str)
      → IsListRead var (listed raw) (parse_cidrs parse_net parse_ip host_net var raw)
  unfolding parse_cidrs
  parse_cidrs-IsListRead var none = tt
  parse_cidrs-IsListRead var (some raw) = parse_entries-IsListRead var (entries raw)

  policy_from :
      (enabled allow deny : Option Str) (nets others : Result (EgressConfigError E) (List Net))
      → IsListRead (codes "WM_EGRESS_ALLOW") (listed allow) nets
      → IsListRead (codes "WM_EGRESS_DENY") (listed deny) others
      → IsConfigured enabled allow deny (
          nets >>= λ a.
          others >>= λ d. ok (record { enabled = is_on enabled; allow = a; deny = d }))
  policy_from enabled allow deny (ok nets) (ok others) a d = (refl, a, d)
  policy_from enabled allow deny (ok nets) (err e) a (same, bad) = inr (nets, a, same, bad)
  policy_from enabled allow deny (err e) others bad d = inl bad

  -- The settings give the policy whose nets their entries stand for, in their order, or else the error
  -- about the first entry, of the allowed ones before the denied ones, that is neither a net nor an
  -- address.
  pub from_parts-IsConfigured :
      (enabled allow deny : Option Str)
      → IsConfigured enabled allow deny (from_parts parse_net parse_ip host_net enabled allow deny)
  unfolding from_parts
  from_parts-IsConfigured enabled allow deny =
      policy_from enabled allow deny _ _ (parse_cidrs-IsListRead (codes "WM_EGRESS_ALLOW") allow)
        (parse_cidrs-IsListRead (codes "WM_EGRESS_DENY") deny)
