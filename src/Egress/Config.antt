-- ===== src/Egress/Config.antt =====
-- crates/wm-host/src/egress.rs: the policy out of the texts of its three settings. The parsing of a net
-- and of an address, and the net of one address, are parameters: the crate ipnet's and the standard
-- library's.
pub mod Reading
use wiremirage.Prelude.Text.{Str, codes, str_eq}
use wiremirage.Prelude.Ascii.{to_lower}
use wiremirage.Prelude.Blank.{trim}
use wiremirage.Prelude.Split.{split}
use wiremirage.Prelude.Members.{Memᴰ_singleton}
use wiremirage.Prelude.{
  Bool, true, false, ◌||◌, not, Option, none, some, List, [], ◌∷◌, map, keep, is_empty, Result, ok,
  err, ◌>>=◌, ◌≡◌, ◌⊎◌, inl, inr, refl, bind-eq-ok, Result-cases, Option-cases, ◌↔◌,
}
use wiremirage.Egress.{IpAddr, EgressPolicy}
use mathlib.Core.List.{Memᴰ}

pub record EgressConfigError (E : Type 0) : Type 0 where
  pub var : Str
  pub entry : Str
  pub source : E

-- the entries between commas, without the blank ones
unfoldable pub entries : Str → List Str
entries raw = keep (λ s. not (is_empty s)) (map trim (split b',' raw))

abbrev pub listed : Option Str → List Str
listed none = []
listed (some raw) = entries raw

unfoldable pub is_on : Option Str → Bool
is_on none = false
is_on (some text) =
    let word = map to_lower (trim text) in
    str_eq word (codes "on")
    || str_eq word (codes "true")
    || str_eq word (codes "1")
    || str_eq word (codes "yes")

module _ {Net E : Type 0} (parse_net : Str → Result E Net) (parse_ip : Str → Option IpAddr)
    (host_net : IpAddr → Net) where
  unfoldable pub parse_entry : Str → Str → Result (EgressConfigError E) Net
  parse_entry var entry = elim (parse_net entry) [
    | ok net ↦ ok net
    | err e ↦ elim (parse_ip entry) [
      | none ↦ err (record { var = var; entry = entry; source = e })
      | some ip ↦ ok (host_net ip)
    ]
  ]

  unfoldable pub parse_entries : Str → List Str → Result (EgressConfigError E) (List Net)
  parse_entries var [] = ok []
  parse_entries var (entry ∷ rest) = do
    net ← parse_entry var entry
    nets ← parse_entries var rest
    ok (net ∷ nets)

  unfoldable pub parse_cidrs : Str → Option Str → Result (EgressConfigError E) (List Net)
  parse_cidrs var none = ok []
  parse_cidrs var (some raw) = parse_entries var (entries raw)

  unfoldable pub from_parts :
      Option Str → Option Str → Option Str → Result (EgressConfigError E) (EgressPolicy Net)
  from_parts enabled allow deny = do
    allow_nets ← parse_cidrs (codes "WM_EGRESS_ALLOW") allow
    deny_nets ← parse_cidrs (codes "WM_EGRESS_DENY") deny
    ok (record { enabled = is_on enabled; allow = allow_nets; deny = deny_nets })
