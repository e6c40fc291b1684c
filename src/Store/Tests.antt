-- ===== src/Store/Tests.antt =====
-- Runs of crates/wm-host/src/store/ on concrete stores, and instances of its theorems.
use wiremirage.Prelude.Text.{Str, codes, str_eq, starts_with, strip_prefix}
use wiremirage.Prelude.Assoc.{lookup}
use wiremirage.Prelude.Decimal.{
  pos, negsuc, ◌+ℤ◌, in_i64, checked_add, scan_digits, parse_digits, parse_unsigned, parsed_pos,
  parse_i64,
}
use wiremirage.Prelude.{
  ℕ, not, ltb, true, Option, none, some, if◌then◌else◌, [], ◌∷◌, ◌++◌, ok, ◌≡◌, refl,
}
use wiremirage.Store.{MemStore, bytes, list, wrong_type}
use wiremirage.Store.Memory
use wiremirage.Store.Counters.{incr, stored, incr_value, increased}
use wiremirage.Store.Memory.{
  mismatch, list_value, list_push, list_pop, list_pop_value, list_range, range_of, normalize,
  kind_of,
}
use wiremirage.Store.Memory.Lists.{HoldsList}
use wiremirage.Store.Bucket.{
  strip, restore_user_key, restored, answer, route_prefix, group_prefix, get, delete_with_prefix,
}
use wiremirage.Store.Bucket
use wiremirage.Store.Bucket.Writes.{Write, outcome, perform, perform-failed}
use wiremirage.Store.Bucket.Isolation.{Scope, IsNamed, prefix_of, perform-isolated}
use wiremirage.Store.Bucket.Deletion.{delete_with_prefix-lookup}
use wiremirage.Prelude.Decimal.{ℤ}
use wiremirage.Prelude.{arith, ◌+◌, ◌*◌}
use wiremirage.Store.Bucket.Lease.{
  Chrono, IsChrono, as_i64, deadline, claim_lease, lease_end, holds, try_acquire_lease,
  try_acquire_lease-exclusive,
}

abbrev held : MemStore
held =
    (codes "k", bytes (codes "v")) ∷ (codes "l", list (codes "a" ∷ codes "b" ∷ codes "c" ∷ [])) ∷ []

range_tests :
    (list_range held (codes "l") (pos 0) (negsuc 0) ≡ ok (codes "a" ∷ codes "b" ∷ codes "c" ∷ []))
    × (list_range held (codes "l") (pos 1) (pos 1) ≡ ok (codes "b" ∷ []))
    × (list_range held (codes "l") (pos 7) (pos 9) ≡ ok (codes "c" ∷ []))
    × (list_range held (codes "x") (pos 0) (pos 9) ≡ ok [])
unfolding list_range list_value range_of normalize lookup str_eq
range_tests = (refl, refl, refl, refl)

no_list : HoldsList (codes "q") [] held
unfolding list_value lookup str_eq
no_list = refl

-- The error names the key without the bucket's prefix.
refused :
    (perform [] (Write.push (codes "k") (codes "x")) held).0
    ≡ some (wrong_type (codes "k") (codes "bytes") (codes "list"))
unfolding perform outcome Bucket.list_push answer restored restore_user_key strip strip_prefix
    list_push list_value mismatch kind_of lookup str_eq
refused = refl

perform-failed_example : (perform [] (Write.push (codes "k") (codes "x")) held).1 ≡ held
perform-failed_example = perform-failed [] (Write.push (codes "k") (codes "x")) held _ refused

abbrev own : Scope
own = Scope.of_route (codes "G") (codes "R")

abbrev shared : Scope
shared = Scope.of_group (codes "G")

own-IsNamed : IsNamed own
own-IsNamed = ((λ e. cc e, tt), (λ e. cc e, tt))

shared-IsNamed : IsNamed shared
shared-IsNamed = (λ e. cc e, tt)

perform-isolated_example :
    lookup
      (prefix_of [] shared ++ codes "n")
      (perform (prefix_of [] own) (Write.delete_all []) held).1
    ≡ lookup (prefix_of [] shared ++ codes "n") held
perform-isolated_example =
    perform-isolated [] own shared (Write.delete_all []) held (codes "n") own-IsNamed shared-IsNamed
      (λ e. cc e)

delete_with_prefix-lookup_example :
    lookup (codes "k") (delete_with_prefix [] held (codes "k")).1
    ≡ (if starts_with (codes "k") (codes "k") then none else lookup (codes "k") held)
delete_with_prefix-lookup_example = delete_with_prefix-lookup [] (codes "k") held (codes "k")

-- A clock whose times are printed as one byte.
abbrev print_time : ℕ → Str
print_time t = t ∷ []

abbrev parse_time : Str → Option ℕ
parse_time [] = none
parse_time (t ∷ s) = some t

abbrev plus : ℕ → ℤ → Option ℕ
plus t (pos seconds) = some (t + 1000 * seconds)
plus t (negsuc n) = none

abbrev chrono : Chrono
chrono = record { to_rfc3339 = print_time; parse_from_rfc3339 = parse_time; plus_seconds = plus }

chrono-IsChrono : IsChrono chrono
chrono-IsChrono = record { parsed = λ t early. refl; added = λ t seconds early. refl }

won : (try_acquire_lease chrono [] held (codes "sweep") 30 0 0).0 ≡ ok true
unfolding try_acquire_lease claim_lease deadline as_i64 holds get restored Memory.get
    Memory.get_value lookup str_eq
won = refl

try_acquire_lease-exclusive_example :
    (try_acquire_lease chrono []
      (try_acquire_lease chrono [] held (codes "sweep") 30 0 0).1
      (codes "sweep")
      30
      29000
      29999).0
    ≡ ok (not (ltb 29999 (lease_end 30 0)))
try_acquire_lease-exclusive_example =
    try_acquire_lease-exclusive chrono [] held (codes "sweep") 30 0 0 30 29000 29999 chrono-IsChrono
      (omega arith) (omega arith) won

-- A counter that starts at a text of its own.
abbrev counting : MemStore
counting = (codes "n", bytes (codes "41")) ∷ held

counted : (incr counting (codes "n") (pos 1)).0 ≡ ok (pos 42)
unfolding incr stored incr_value increased parse_i64 parse_unsigned parse_digits scan_digits
    parsed_pos checked_add in_i64 ◌+ℤ◌ lookup str_eq
counted = refl

fits : in_i64 (pos 1) ≡ true
unfolding in_i64
fits = refl
