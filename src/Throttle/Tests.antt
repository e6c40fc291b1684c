-- ===== src/Throttle/Tests.antt =====
-- The throttle on a store of one address, with a clock whose times are printed as one byte.
use wiremirage.Prelude.Text.{Str, codes, str_eq}
use wiremirage.Prelude.Assoc.{lookup}
use wiremirage.Prelude.{ℕ, true, false, Option, none, some, [], ◌∷◌, ltb, ◌≡◌, refl, arith}
use wiremirage.Store.{MemStore, bytes}
use wiremirage.Store.Memory
use wiremirage.Store.Bucket.Lease.{Chrono, IsChrono, lease_end, is_held, holds}
use wiremirage.Prelude.Decimal.{ℤ, pos, negsuc}
use wiremirage.Prelude.{◌+◌, ◌*◌}
use wiremirage.Throttle.{
  window_key, lock_key, Clock, is_locked_out, record_failures, lockout_seconds,
}
use wiremirage.Throttle.Lockout.{IsLapsed, record_failures-is_locked_out}

abbrev print_time : ℕ → Str
print_time t = t ∷ []

abbrev parse_time : Str → Option ℕ
parse_time [] = none
parse_time (t ∷ s) = some t

abbrev plus : ℕ → ℤ → Option ℕ
plus t (pos seconds) = some (t + 1000 * seconds)
plus t (negsuc n) = none

abbrev chrono : Chrono
chrono = record { to_rfc3339 = print_time; parse_from_rfc3339 = parse_time; plus_seconds = plus }

chrono-IsChrono : IsChrono chrono
chrono-IsChrono = record { parsed = λ t early. refl; added = λ t seconds early. refl }

abbrev at : ℕ → Clock
at t k = t

abbrev ip : Str
ip = codes "192.0.2.7"

abbrev other : Str
other = codes "192.0.2.8"

-- A window of the address that is over.
abbrev before : MemStore
before = (codes "throttle:window:192.0.2.7", bytes (print_time 500)) ∷ []

window_over : IsLapsed chrono (window_key ip) before 1000
unfolding window_key Memory.get Memory.get_value lookup str_eq holds is_held
window_over = (some (print_time 500), refl, refl)

unlocked : IsLapsed chrono (lock_key ip) before 5000
unfolding lock_key Memory.get Memory.get_value lookup str_eq holds
unlocked = (none, refl, refl)

record_failures-is_locked_out_example :
    (after : MemStore) × (record_failures chrono ip
        (at 1000 ∷ at 2000 ∷ at 3000 ∷ at 4000 ∷ at 5000 ∷ [])
        before
      ≡ (false ∷ false ∷ false ∷ false ∷ true ∷ [], after))
    × ((t : ℕ) → is_locked_out chrono ip t after ≡ ltb t (lease_end lockout_seconds 5000))
record_failures-is_locked_out_example =
    record_failures-is_locked_out chrono chrono-IsChrono ip before (at 1000) (at 2000) (at 3000)
      (at 4000) (at 5000) (λ k. omega arith) (λ k. omega arith) (λ k. omega arith)
      (λ k. omega arith) (λ k. omega arith) window_over unlocked (omega arith) (omega arith)
      (omega arith) (omega arith)
