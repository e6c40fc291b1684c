-- ===== src/Throttle.antt =====
-- crates/wm-host/src/login_throttle.rs: the throttle of password logins, over the bucket without a
-- prefix. The readings of the clock are arguments, as numbers of milliseconds, in the order of the
-- calls; chrono is a parameter. Where an addition of seconds to a time would panic, past chrono's last
-- time, the model goes on with `false`. Log lines are not modelled, and neither is
-- `set_ttl`, which the in-memory store ignores.
pub mod Lockout
pub mod Separate
mod Tests
use wiremirage.Prelude.Text.{Str, codes}
use wiremirage.Prelude.Decimal.{ℤ, pos, negsuc}
use wiremirage.Prelude.{
  ℕ, Bool, true, false, Option, none, some, List, [], ◌∷◌, ◌++◌, ltb, if◌then◌else◌, Result, ok,
  err,
}
use wiremirage.Store.{MemStore, StoreError}
use wiremirage.Store.Memory.{Answer}
use wiremirage.Store.Bucket.{get, set, delete, incr}
use wiremirage.Store.Bucket.Lease.{Chrono, LeaseAnswer, holds, try_acquire_lease}

abbrev pub window_seconds : ℕ
window_seconds = 60

abbrev pub max_fails : ℕ
max_fails = 5

abbrev pub lockout_seconds : ℕ
lockout_seconds = 60

unfoldable pub fails_key : Str → Str
fails_key ip = codes "throttle:fails:" ++ ip

unfoldable pub window_key : Str → Str
window_key ip = codes "throttle:window:" ++ ip

unfoldable pub lock_key : Str → Str
lock_key ip = codes "throttle:lock:" ++ ip

-- The k-th reading of the clock in one call.
abbrev pub Clock : Type 0
Clock = ℕ → ℕ

-- `unwrap_or_else` with a log line and `false`
unfoldable pub or_false : LeaseAnswer → Bool × MemStore
or_false (ok b, m) = (b, m)
or_false (err e, m) = (false, m)

-- `fails < MAX_FAILS`
unfoldable pub below_max : ℤ → Bool
below_max (pos n) = ltb n max_fails
below_max (negsuc n) = true

unfoldable pub forget : Str → MemStore → MemStore
forget ip m = (delete [] (delete [] m (fails_key ip)).1 (window_key ip)).1

unfoldable pub record_success : Str → MemStore → MemStore
record_success ip m = forget ip m

-- the count after a failure, which starts again in a new window
unfoldable pub count_failure : Str → Bool × MemStore → Answer ℤ
count_failure ip (true, m) = (ok (pos 1), (set [] m (fails_key ip) (codes "1")).1)
count_failure ip (false, m) = incr [] m (fails_key ip) (pos 1)

-- the end of a lockout that was just tried
unfoldable pub locked : Str → Bool × MemStore → Bool × MemStore
locked ip (newly_locked, m) = (newly_locked, forget ip m)

module _ (chrono : Chrono) where
  unfoldable pub held_at : ℕ → Result StoreError (Option Str) → Bool
  held_at now (err e) = false
  held_at now (ok raw) = holds chrono raw now

  unfoldable pub is_locked_out : Str → ℕ → MemStore → Bool
  is_locked_out ip now m = held_at now (get [] m (lock_key ip))

  unfoldable pub lease : Str → ℕ → ℕ → ℕ → MemStore → Bool × MemStore
  lease key seconds now later m = or_false (try_acquire_lease chrono [] m key seconds now later)

  -- the lockout, if there were too many failures
  unfoldable pub judge : Str → Clock → Answer ℤ → Bool × MemStore
  judge ip clock (err e, m) = (false, m)
  judge ip clock (ok fails, m) =
      if below_max fails
      then (false, m)
      else locked ip (lease (lock_key ip) lockout_seconds (clock 2) (clock 3) m)

  unfoldable pub record_failure : Str → Clock → MemStore → Bool × MemStore
  record_failure ip clock m =
      judge ip clock (count_failure ip (lease (window_key ip) window_seconds (clock 0) (clock 1) m))

  unfoldable pub record_failures : Str → List Clock → MemStore → List Bool × MemStore
  record_failures ip [] m = ([], m)
  record_failures ip (clock ∷ clocks) m =
      let (newly_locked, n) = record_failure ip clock m in
      let (rest, last) = record_failures ip clocks n in (newly_locked ∷ rest, last)
