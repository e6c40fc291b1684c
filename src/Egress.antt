-- ===== src/Egress.antt =====
-- crates/wm-host/src/egress.rs: which addresses a handler may call. An address is its number of 32 or
-- 128 bits. The nets are those of the crate ipnet: their type, `contains` and the parsing are
-- parameters.
pub mod Config
pub mod Decisions
mod Tests
use wiremirage.Prelude.Text.{Str, codes, str_eq}
use wiremirage.Prelude.Ascii.{to_lower}
use wiremirage.Prelude.Split.{split}
use wiremirage.Prelude.{
  ℕ, ◌+◌, ◌*◌, ◌/◌, ◌%◌, ◌^◌, Bool, true, false, ◌||◌, Option, none, some, List, [], ◌∷◌, map, any,
  is_empty, ◌==◌, if◌then◌else◌, Result, ok, err,
}

pub data IpAddr : Type 0 where
  v4 v6 : ℕ → IpAddr

pub data Reason : Type 0 where
  egress_disabled denied_by_operator special_use_address unresolved : Reason

pub data EgressDecision : Type 0 where
  allow : EgressDecision
  deny : Reason → EgressDecision

-- `::ffff:0:0/96`, the addresses that `Ipv6Addr::to_ipv4_mapped` takes to their last 32 bits
unfoldable pub normalize : IpAddr → IpAddr
normalize (v4 n) = v4 n
normalize (v6 n) = if n / 2 ^ 32 == 65535 then v4 (n % 2 ^ 32) else v6 n

abbrev pub special_use : List Str
special_use =
    codes "0.0.0.0/8"
    ∷ codes "10.0.0.0/8"
    ∷ codes "100.64.0.0/10"
    ∷ codes "127.0.0.0/8"
    ∷ codes "169.254.0.0/16"
    ∷ codes "172.16.0.0/12"
    ∷ codes "192.0.0.0/24"
    ∷ codes "192.168.0.0/16"
    ∷ codes "198.18.0.0/15"
    ∷ codes "224.0.0.0/4"
    ∷ codes "240.0.0.0/4"
    ∷ codes "::1/128"
    ∷ codes "::/128"
    ∷ codes "fc00::/7"
    ∷ codes "fe80::/10"
    ∷ codes "ff00::/8"
    ∷ []

pub record EgressPolicy (Net : Type 0) : Type 0 where
  pub enabled : Bool
  pub allow : List Net
  pub deny : List Net

unfoldable pub disabled : {Net : Type 0} → EgressPolicy Net
disabled = record { enabled = false; allow = []; deny = [] }

unfoldable pub covers : {Net : Type 0} → (Net → IpAddr → Bool) → List Net → IpAddr → Bool
covers contains nets ip = any (λ net. contains net ip) nets

module _ {Net : Type 0} (parse_net : Str → Option Net) where
  -- The parse of literals that cannot fail; a failure would panic.
  unfoldable pub parsed_ranges : List Str → List Net
  parsed_ranges [] = []
  parsed_ranges (s ∷ literals) = elim (parse_net s) [
    | none ↦ parsed_ranges literals
    | some net ↦ net ∷ parsed_ranges literals
  ]

  unfoldable pub special_use_ranges : List Net
  special_use_ranges = parsed_ranges special_use

module _ {Net : Type 0} (parse_net : Str → Option Net) (contains : Net → IpAddr → Bool) where
  unfoldable pub evaluate : EgressPolicy Net → IpAddr → EgressDecision
  evaluate policy ip =
      if policy.enabled
      then (if covers contains policy.deny (normalize ip)
          then deny denied_by_operator
          else if covers contains policy.allow (normalize ip)
          then allow
          else if covers contains (special_use_ranges parse_net) (normalize ip)
          then deny special_use_address
          else allow)
      else deny egress_disabled

  unfoldable pub first_denied : EgressPolicy Net → List IpAddr → EgressDecision
  first_denied policy [] = allow
  first_denied policy (ip ∷ ips) =
      let rest = first_denied policy ips in
      elim (evaluate policy ip) [ allow ↦ rest | deny reason ↦ deny reason ]

  unfoldable pub check_resolved : EgressPolicy Net → List IpAddr → EgressDecision
  check_resolved policy ips = if is_empty ips then deny unresolved else first_denied policy ips
