-- ===== src/Egress/Decisions.antt =====
-- crates/wm-host/src/egress.rs: what is allowed is public, or was allowed by the operator.
use wiremirage.Prelude.Text.{Str, codes}
use wiremirage.Prelude.{
  ℕ, ◌+◌, ◌-◌, ◌*◌, ◌/◌, ◌%◌, ◌^◌, ◌<◌, Bool, true, false, not, ◌&&◌, ◌||◌, leb, Option, some, List,
  [], ◌∷◌, map, if◌then◌else◌, All, ◌≡◌, ◌≢◌, ◌↔◌, ◌⊎◌, refl, sym, ap, ◌∙◌, arith, inl, inr,
  Bool-cases, false≢true,
}
use wiremirage.Egress.{
  IpAddr, v4, v6, EgressDecision, Reason, allow, deny, normalize, EgressPolicy, special_use_ranges,
  parsed_ranges, covers, evaluate, first_denied, check_resolved,
}

-- The first and the last address of a range, and whether it is one of IPv6.
abbrev pub Range : Type 0
Range = Bool × ℕ × ℕ

abbrev pub inside : Range → IpAddr → Bool
inside (six, low, high) (v4 n) = not six && (leb low n && leb n high)
inside (six, low, high) (v6 n) = six && (leb low n && leb n high)

-- The special-use nets as the ranges of addresses that they stand for.
abbrev pub special_use_addresses : List (Str × Range)
special_use_addresses =
    (codes "0.0.0.0/8", (false, 0, 2 ^ 24 - 1))
    ∷ (codes "10.0.0.0/8", (false, 10 * 2 ^ 24, 11 * 2 ^ 24 - 1))
    ∷ (codes "100.64.0.0/10", (false, 100 * 2 ^ 24 + 64 * 2 ^ 16, 100 * 2 ^ 24 + 128 * 2 ^ 16 - 1))
    ∷ (codes "127.0.0.0/8", (false, 127 * 2 ^ 24, 128 * 2 ^ 24 - 1))
    ∷ (
      codes "169.254.0.0/16",
      (false, 169 * 2 ^ 24 + 254 * 2 ^ 16, 169 * 2 ^ 24 + 255 * 2 ^ 16 - 1),
    )
    ∷ (codes "172.16.0.0/12", (false, 172 * 2 ^ 24 + 16 * 2 ^ 16, 172 * 2 ^ 24 + 32 * 2 ^ 16 - 1))
    ∷ (codes "192.0.0.0/24", (false, 192 * 2 ^ 24, 192 * 2 ^ 24 + 2 ^ 8 - 1))
    ∷ (
      codes "192.168.0.0/16",
      (false, 192 * 2 ^ 24 + 168 * 2 ^ 16, 192 * 2 ^ 24 + 169 * 2 ^ 16 - 1),
    )
    ∷ (codes "198.18.0.0/15", (false, 198 * 2 ^ 24 + 18 * 2 ^ 16, 198 * 2 ^ 24 + 20 * 2 ^ 16 - 1))
    ∷ (codes "224.0.0.0/4", (false, 224 * 2 ^ 24, 240 * 2 ^ 24 - 1))
    ∷ (codes "240.0.0.0/4", (false, 240 * 2 ^ 24, 2 ^ 32 - 1))
    ∷ (codes "::1/128", (true, 1, 1))
    ∷ (codes "::/128", (true, 0, 0))
    ∷ (codes "fc00::/7", (true, 252 * 2 ^ 120, 254 * 2 ^ 120 - 1))
    ∷ (codes "fe80::/10", (true, 65152 * 2 ^ 112, 65216 * 2 ^ 112 - 1))
    ∷ (codes "ff00::/8", (true, 255 * 2 ^ 120, 2 ^ 128 - 1))
    ∷ []

allow-ne-deny : {P : Type 0} (reason : Reason) → deny reason ≡ allow → P
allow-ne-deny reason h = cc h

Decision-cases : (d : EgressDecision) → (d ≡ allow) ⊎ ((reason : Reason) × (d ≡ deny reason))
Decision-cases allow = inl refl
Decision-cases (deny reason) = inr (reason, refl)

both_false : (a b : Bool) → (a || b) ≡ false → (a ≡ false) × (b ≡ false)
both_false a b h = ground arith

quotient : (n : ℕ) → n < 2 ^ 32 → (65535 * 2 ^ 32 + n) / 2 ^ 32 ≡ 65535
quotient n small = omega arith

remainder : (n : ℕ) → n < 2 ^ 32 → (65535 * 2 ^ 32 + n) % 2 ^ 32 ≡ n
remainder n small = omega arith

normalize-mapped : (n : ℕ) → n < 2 ^ 32 → normalize (v6 (65535 * 2 ^ 32 + n)) ≡ normalize (v4 n)
unfolding normalize
normalize-mapped n small = rw (quotient n small, remainder n small) refl

either_way : (b : Bool) → (if b then allow else allow) ≡ allow
either_way b = ground arith

module _ {Net : Type 0} (parse_net : Str → Option Net) (contains : Net → IpAddr → Bool) where
  -- ipnet: the text of a net is parsed to the net of its addresses.
  abbrev pub IsNetOf : Str × Range → Type 0
  IsNetOf (text, range) =
      (net : Net) × (parse_net text ≡ some net)
      × ((ip : IpAddr) → contains net ip ≡ inside range ip)

  abbrev pub IsOutside : IpAddr → Str × Range → Type 0
  IsOutside ip (text, range) = inside range ip ≡ false

  -- Callouts are on, no deny covers the address, and an allow covers it or no special-use net does.
  pub record IsPermitted (policy : EgressPolicy Net) (ip : IpAddr) : Type 0 where
    pub enabled : policy.enabled ≡ true
    pub not_denied : covers contains policy.deny ip ≡ false
    pub public_or_allowed :
        (covers contains policy.allow ip ≡ true)
        ⊎ (covers contains (special_use_ranges parse_net) ip ≡ false)

  evaluate_sound :
      (policy : EgressPolicy Net) (ip : IpAddr)
      → evaluate parse_net contains policy ip ≡ allow
      → IsPermitted policy (normalize ip)
  unfolding evaluate
  evaluate_sound policy ip h = elim (Bool-cases policy.enabled) [
    | inr off ↦ allow-ne-deny _ (rw (off, evaluate) at h)
    | inl on ↦ elim (Bool-cases (covers contains policy.deny (normalize ip))) [
      | inl denied ↦ allow-ne-deny _ (rw (on, evaluate, denied) at h)
      | inr free ↦ elim (Bool-cases (covers contains policy.allow (normalize ip))) [
        | inl allowed ↦ record { enabled = on; not_denied = free; public_or_allowed = inl allowed }
        | inr other ↦
            elim (Bool-cases (covers contains (special_use_ranges parse_net) (normalize ip))) [
              | inl special ↦ allow-ne-deny _ (rw (on, evaluate, free, other, special) at h)
              | inr public ↦ record {
                enabled = on;
                not_denied = free;
                public_or_allowed = inr public;
              }
            ]
      ]
    ]
  ]

  evaluate_complete :
      (policy : EgressPolicy Net) (ip : IpAddr)
      → IsPermitted policy (normalize ip)
      → evaluate parse_net contains policy ip ≡ allow
  unfolding evaluate
  evaluate_complete policy ip p = elim p.public_or_allowed [
    | inl allowed ↦ rw (p.enabled, evaluate, p.not_denied, allowed) refl
    | inr public ↦ rw (p.enabled, evaluate, p.not_denied, public) (either_way _)
  ]

  first_denied-All :
      (policy : EgressPolicy Net) (ips : List IpAddr)
      → (first_denied parse_net contains policy ips ≡ allow)
        ↔ All (λ ip. IsPermitted policy (normalize ip)) ips
  unfolding first_denied
  first_denied-All policy [] = (λ h. tt, λ h. refl)
  first_denied-All policy (ip ∷ ips) = (
    λ h. elim (Decision-cases (evaluate parse_net contains policy ip)) [
      | inl good ↦ (
        evaluate_sound policy ip good,
        (first_denied-All policy ips).0 (rw (good, first_denied) at h),
      )
      | inr (reason, bad) ↦ allow-ne-deny reason (rw (bad, first_denied) at h)
    ],
    λ (p, ps).
        rw (evaluate_complete policy ip p, first_denied) ((first_denied-All policy ips).1 ps),
  )

  -- A target is allowed just if it was resolved and every address of it, an IPv4-mapped one as its IPv4
  -- address, is permitted: callouts are on, no deny of the operator covers it, and an allow does or no
  -- special-use net does.
  pub check_resolved-IsPermitted :
      (policy : EgressPolicy Net) (ips : List IpAddr)
      → (check_resolved parse_net contains policy ips ≡ allow)
        ↔ ((ips ≢ []) × All (λ ip. IsPermitted policy (normalize ip)) ips)
  unfolding check_resolved
  check_resolved-IsPermitted policy [] =
      (λ h. allow-ne-deny _ h, λ (some_ip, h). absurd (some_ip refl))
  check_resolved-IsPermitted policy (ip ∷ ips) = (
    λ h. (λ e. cc e, (first_denied-All policy (ip ∷ ips)).0 h),
    λ (some_ip, h). (first_denied-All policy (ip ∷ ips)).1 h,
  )

  covers_none :
      (nets : List (Str × Range)) (ip : IpAddr)
      → All IsNetOf nets
      → covers contains (parsed_ranges parse_net (map (λ n. n.0) nets)) ip ≡ false
      → All (IsOutside ip) nets
  unfolding covers parsed_ranges
  covers_none [] ip h none_covers = tt
  covers_none ((text, range) ∷ nets) ip ((net, parses, same), h) none_covers =
      let apart = rw (parses) at none_covers in
      let (first, rest) = both_false (contains net ip) _ apart in
      (sym (same ip) ∙ first, covers_none nets ip h rest)

  -- A policy without an allow of the operator allows no address in the special-use ranges, and none
  -- that is mapped into them, if ipnet parses each net of the list to the net of its addresses.
  pub evaluate-IsOutside :
      (policy : EgressPolicy Net) (ip : IpAddr)
      → All IsNetOf special_use_addresses
      → policy.allow ≡ []
      → evaluate parse_net contains policy ip ≡ allow
      → All (IsOutside (normalize ip)) special_use_addresses
  unfolding special_use_ranges covers
  evaluate-IsOutside policy ip nets nothing h =
      elim ((evaluate_sound policy ip h).public_or_allowed) [
        | inl allowed ↦
            absurd (false≢true (sym (ap (λ a. covers contains a (normalize ip)) nothing) ∙ allowed))
        | inr public ↦ covers_none special_use_addresses (normalize ip) nets public
      ]

  evaluate_same :
      (policy : EgressPolicy Net) (a b : IpAddr)
      → normalize a ≡ normalize b
      → evaluate parse_net contains policy a ≡ evaluate parse_net contains policy b
  unfolding evaluate
  evaluate_same policy a b e = rw e refl

  -- An IPv4-mapped address of IPv6 is decided like the IPv4 address in it.
  pub evaluate-mapped :
      (policy : EgressPolicy Net) (n : ℕ)
      → n < 2 ^ 32
      → evaluate parse_net contains policy (v6 (65535 * 2 ^ 32 + n))
        ≡ evaluate parse_net contains policy (v4 n)
  evaluate-mapped policy n small =
      evaluate_same policy (v6 (65535 * 2 ^ 32 + n)) (v4 n) (normalize-mapped n small)
