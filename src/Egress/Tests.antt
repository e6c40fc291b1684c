-- ===== src/Egress/Tests.antt =====
-- The policy on concrete addresses, with nets that are their ranges.
use wiremirage.Prelude.Text.{Str, codes, str_eq}
use wiremirage.Prelude.Ascii.{to_lower}
use wiremirage.Prelude.Blank.{trim, drop_space}
use wiremirage.Prelude.Split.{split}
use wiremirage.Egress.Config.{entries, is_on, parse_entry, parse_entries, parse_cidrs, from_parts}
use wiremirage.Egress.Config.Reading.{IsConfigured, from_parts-IsConfigured}
use wiremirage.Prelude.Assoc.{lookup}
use wiremirage.Prelude.{
  ℕ, ◌+◌, ◌-◌, ◌*◌, ◌^◌, true, false, Option, none, some, Result, ok, err, [], ◌∷◌, All, ◌≡◌, ◌≢◌,
  ◌↔◌, refl,
}
use wiremirage.Egress.{
  IpAddr, v4, v6, allow, deny, special_use_address, denied_by_operator, normalize, EgressPolicy,
  special_use_ranges, parsed_ranges, covers, evaluate, check_resolved,
}
use wiremirage.Egress.Decisions.{
  Range, inside, special_use_addresses, IsNetOf, IsOutside, IsPermitted, check_resolved-IsPermitted,
  evaluate-IsOutside,
}

abbrev parse_range : Str → Option Range
parse_range text = lookup text special_use_addresses

abbrev open_policy : EgressPolicy Range
open_policy = record { enabled = true; allow = []; deny = [] }

-- 1.1.1.1
abbrev public_address : IpAddr
public_address = v4 (2 ^ 24 + 2 ^ 16 + 2 ^ 8 + 1)

-- 169.254.169.254
abbrev metadata : ℕ
metadata = 169 * 2 ^ 24 + 254 * 2 ^ 16 + 169 * 2 ^ 8 + 254

evaluate_tests :
    (evaluate parse_range inside open_policy public_address ≡ allow)
    × (evaluate parse_range inside open_policy (v4 metadata) ≡ deny special_use_address)
    × (evaluate parse_range inside open_policy (v6 1) ≡ deny special_use_address)
    × (evaluate parse_range inside
          (record open_policy { deny = (false, 0, 2 ^ 32) ∷ [] })
          public_address
        ≡ deny denied_by_operator)
unfolding evaluate covers special_use_ranges parsed_ranges normalize lookup str_eq
evaluate_tests = (refl, refl, refl, refl)

nets : All (IsNetOf parse_range inside) special_use_addresses
unfolding lookup str_eq
nets = (
  (_, refl, λ ip. refl),
  (
    (_, refl, λ ip. refl),
    (
      (_, refl, λ ip. refl),
      (
        (_, refl, λ ip. refl),
        (
          (_, refl, λ ip. refl),
          (
            (_, refl, λ ip. refl),
            (
              (_, refl, λ ip. refl),
              (
                (_, refl, λ ip. refl),
                (
                  (_, refl, λ ip. refl),
                  (
                    (_, refl, λ ip. refl),
                    (
                      (_, refl, λ ip. refl),
                      (
                        (_, refl, λ ip. refl),
                        (
                          (_, refl, λ ip. refl),
                          (
                            (_, refl, λ ip. refl),
                            ((_, refl, λ ip. refl), ((_, refl, λ ip. refl), tt)),
                          ),
                        ),
                      ),
                    ),
                  ),
                ),
              ),
            ),
          ),
        ),
      ),
    ),
  ),
)

allowed : evaluate parse_range inside open_policy public_address ≡ allow
allowed = evaluate_tests.0

evaluate-IsOutside_example :
    All (IsOutside parse_range inside (normalize public_address)) special_use_addresses
evaluate-IsOutside_example =
    evaluate-IsOutside parse_range inside open_policy public_address nets refl allowed

check_resolved-IsPermitted_example :
    (check_resolved parse_range inside open_policy (public_address ∷ v4 metadata ∷ []) ≡ allow) ↔ (
      ((public_address ∷ v4 metadata ∷ []) ≢ [])
      × All
          (λ ip. IsPermitted parse_range inside open_policy (normalize ip))
          (public_address ∷ v4 metadata ∷ []))
check_resolved-IsPermitted_example =
    check_resolved-IsPermitted parse_range inside open_policy (public_address ∷ v4 metadata ∷ [])

abbrev read_net : Str → Result Str Range
read_net text = elim (parse_range text) [ none ↦ err text | some net ↦ ok net ]

abbrev read_address : Str → Option IpAddr
read_address text = lookup text ((codes "1.1.1.1", public_address) ∷ [])

abbrev host_range : IpAddr → Range
host_range (v4 n) = (false, n, n)
host_range (v6 n) = (true, n, n)

from_parts_tests :
    (from_parts read_net read_address host_range
        (some (codes " On"))
        (some (codes " 127.0.0.0/8, ,1.1.1.1,"))
        none
      ≡ ok (record {
        enabled = true;
        allow = (false, 127 * 2 ^ 24, 128 * 2 ^ 24 - 1) ∷ host_range public_address ∷ [];
        deny = [];
      }))
    × (from_parts read_net read_address host_range none none (some (codes "1.1.1.1,10/8,x"))
        ≡ err
            (record { var = codes "WM_EGRESS_DENY"; entry = codes "10/8"; source = codes "10/8" }))
unfolding from_parts parse_cidrs parse_entries parse_entry entries is_on trim drop_space split
    lookup str_eq to_lower
from_parts_tests = (refl, refl)

from_parts-IsConfigured_example :
    IsConfigured read_net read_address host_range
      (some (codes " On"))
      (some (codes " 127.0.0.0/8, ,1.1.1.1,"))
      (some (codes "1.1.1.1,10/8,x"))
      (from_parts read_net read_address host_range
        (some (codes " On"))
        (some (codes " 127.0.0.0/8, ,1.1.1.1,"))
        (some (codes "1.1.1.1,10/8,x")))
from_parts-IsConfigured_example =
    from_parts-IsConfigured read_net read_address host_range (some (codes " On"))
      (some (codes " 127.0.0.0/8, ,1.1.1.1,")) (some (codes "1.1.1.1,10/8,x"))
