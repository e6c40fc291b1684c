-- ===== src/Throttle/Lockout.antt =====
-- crates/wm-host/src/login_throttle.rs: five failures in a window lock an address out.
use wiremirage.Prelude.Text.{Str, codes, str_eq}
use wiremirage.Prelude.Assoc.{
  lookup, insert, remove, lookup-insert_self, lookup-insert_other, lookup-remove_other,
}
use wiremirage.Prelude.Decimal.{pos, print, emit, print_i64, in_i64, max_i64, ◌+ℤ◌}
use wiremirage.Prelude.{
  ℕ, ◌+◌, ◌<◌, true, false, Option, some, [], ◌∷◌, ltb, lt→ltb, ok, ◌≡◌, refl, ap, ◌∙◌, arith,
}
use wiremirage.Store.{MemStore, bytes}
use wiremirage.Store.Memory
use wiremirage.Store.Memory.{get_value}
use wiremirage.Store.Bucket
use wiremirage.Store.Counters.Sums.{incr-step}
use wiremirage.Store.Bucket.Lease.{
  Chrono, IsChrono, end_of_9999, lease_end, holds, acquired, acquire_held, acquire_free,
  held-parsed,
}
use wiremirage.Throttle.{
  fails_key, window_key, lock_key, Clock, or_false, below_max, forget, count_failure, locked,
  held_at, is_locked_out, lease, judge, record_failure, record_failures, window_seconds,
  lockout_seconds, max_fails,
}

fails-window : (ip : Str) → str_eq (fails_key ip) (window_key ip) ≡ false
unfolding fails_key window_key str_eq
fails-window ip = refl

pub fails-lock : (ip : Str) → str_eq (fails_key ip) (lock_key ip) ≡ false
unfolding fails_key lock_key str_eq
fails-lock ip = refl

pub window-lock : (ip : Str) → str_eq (window_key ip) (lock_key ip) ≡ false
unfolding window_key lock_key str_eq
window-lock ip = refl

-- Each reading of the clock is so far before the year 10000 that a lease of a minute ends before it.
abbrev pub IsEarly : Clock → Type 0
IsEarly clock = (k : ℕ) → lease_end 60 (clock k) < end_of_9999

module _ (chrono : Chrono) where
  -- No lease is held under the key at a time: it is free, or what it has is over or no time.
  abbrev pub IsLapsed : Str → MemStore → ℕ → Type 0
  IsLapsed key m t =
      (existing : Option Str) × (Memory.get m key ≡ ok existing) × (holds chrono existing t ≡ false)

  lease-free :
      (key : Str) (seconds now later : ℕ) (m : MemStore)
      → IsChrono chrono
      → lease_end seconds now < end_of_9999
      → IsLapsed key m later
      → lease chrono key seconds now later m
        ≡ (true, insert key (bytes (chrono.to_rfc3339 (lease_end seconds now))) m)
  unfolding lease or_false Bucket.get Bucket.restored Memory.set
  lease-free key seconds now later m laws fits (existing, found, over) =
      rw
        (
          acquired chrono [] m key seconds now later laws fits,
          acquire_free chrono [] m key (lease_end seconds now) later existing (rw found refl) over,
        )
        refl

  module _ (laws : IsChrono chrono) where
    lease-held :
        (key : Str) (seconds now later until : ℕ) (m : MemStore)
        → lookup key m ≡ some (bytes (chrono.to_rfc3339 until))
        → later < until
        → until < end_of_9999
        → lease_end seconds now < end_of_9999
        → lease chrono key seconds now later m ≡ (false, m)
    unfolding lease or_false Bucket.get Bucket.restored Memory.get get_value
    lease-held key seconds now later until m found early fits fits' =
        rw
          (
            acquired chrono [] m key seconds now later laws fits',
            acquire_held chrono [] m key (lease_end seconds now) later
                (some (chrono.to_rfc3339 until)) (rw found refl)
                (held-parsed chrono until later (laws.parsed until fits) ∙ ground arith),
          )
          refl

    -- A window that runs until a time, with a number of failures, and the lock as it was.
    record IsCounting (ip : Str) (until n : ℕ) (m₀ m : MemStore) : Type 0 where
      early : until < end_of_9999
      window : lookup (window_key ip) m ≡ some (bytes (chrono.to_rfc3339 until))
      fails : lookup (fails_key ip) m ≡ some (bytes (print n))
      lock : lookup (lock_key ip) m ≡ lookup (lock_key ip) m₀

    record_failure-first :
        (ip : Str) (clock : Clock) (m : MemStore)
        → IsEarly clock
        → IsLapsed (window_key ip) m (clock 1)
        → (after : MemStore) × (record_failure chrono ip clock m ≡ (false, after))
          × IsCounting ip (lease_end window_seconds (clock 0)) 1 m after
    unfolding record_failure count_failure judge below_max Bucket.set Memory.set print emit
    record_failure-first ip clock m fits lapsed =
        let lease_text = bytes (chrono.to_rfc3339 (lease_end window_seconds (clock 0))) in
        let m₁ = insert (window_key ip) lease_text m in
        (
          insert (fails_key ip) (bytes (codes "1")) m₁,
          rw (lease-free (window_key ip) window_seconds (clock 0) (clock 1) m laws (fits 0) lapsed)
              refl,
          record {
            early = fits 0;
            window =
                lookup-insert_other (fails_key ip) (window_key ip) _ m₁ (fails-window ip)
                ∙ lookup-insert_self (window_key ip) lease_text m;
            fails = lookup-insert_self (fails_key ip) (bytes (codes "1")) m₁;
            lock =
                lookup-insert_other (fails_key ip) (lock_key ip) _ m₁ (fails-lock ip)
                ∙ lookup-insert_other (window_key ip) (lock_key ip) _ m (window-lock ip);
          },
        )

    -- the count in a window that runs
    counted :
        (ip : Str) (clock : Clock) (until n : ℕ) (m₀ m : MemStore)
        → IsEarly clock
        → IsCounting ip until n m₀ m
        → clock 1 < until
        → n < max_i64
        → count_failure ip (lease chrono (window_key ip) window_seconds (clock 0) (clock 1) m)
          ≡ (ok (pos (n + 1)), insert (fails_key ip) (bytes (print (n + 1))) m)
    unfolding count_failure Bucket.incr Bucket.answer Bucket.restored in_i64 ◌+ℤ◌ print_i64
    counted ip clock until n m₀ m fits c early small =
        rw
          (lease-held (window_key ip) window_seconds (clock 0) (clock 1) until m c.window early
            c.early (fits 0))
          (rw (incr-step m (fails_key ip) (pos n) (pos 1) c.fails (ground arith) (ground arith))
            refl)

    record_failure-next :
        (ip : Str) (clock : Clock) (until n : ℕ) (m₀ m : MemStore)
        → IsEarly clock
        → IsCounting ip until n m₀ m
        → clock 1 < until
        → n + 1 < max_fails
        → (after : MemStore) × (record_failure chrono ip clock m ≡ (false, after))
          × IsCounting ip until (n + 1) m₀ after
    unfolding record_failure judge below_max
    record_failure-next ip clock until n m₀ m fits c early few = (
      insert (fails_key ip) (bytes (print (n + 1))) m,
      rw (counted ip clock until n m₀ m fits c early (omega arith))
          (rw (lt→ltb (n + 1) max_fails few) refl),
      record {
        early = c.early;
        window =
            lookup-insert_other (fails_key ip) (window_key ip) _ m (fails-window ip) ∙ c.window;
        fails = lookup-insert_self (fails_key ip) (bytes (print (n + 1))) m;
        lock = lookup-insert_other (fails_key ip) (lock_key ip) _ m (fails-lock ip) ∙ c.lock;
      },
    )

    record_failure-last :
        (ip : Str) (clock : Clock) (until : ℕ) (m₀ m : MemStore)
        → IsEarly clock
        → IsCounting ip until 4 m₀ m
        → clock 1 < until
        → IsLapsed (lock_key ip) m₀ (clock 3)
        → (after : MemStore) × (record_failure chrono ip clock m ≡ (true, after))
          × (lookup (lock_key ip) after
              ≡ some (bytes (chrono.to_rfc3339 (lease_end lockout_seconds (clock 2)))))
    unfolding record_failure judge below_max locked forget Bucket.delete Memory.delete Memory.get
    record_failure-last ip clock until m₀ m fits c early (existing, found, over) =
        let m₁ = insert (fails_key ip) (bytes (print 5)) m in
        let lock_text = bytes (chrono.to_rfc3339 (lease_end lockout_seconds (clock 2))) in
        let m₂ = insert (lock_key ip) lock_text m₁ in
        let unlocked : IsLapsed (lock_key ip) m₁ (clock 3) = (
          existing,
          ap (get_value (lock_key ip))
                (lookup-insert_other (fails_key ip) (lock_key ip) _ m (fails-lock ip) ∙ c.lock)
              ∙ found,
          over,
        ) in
        (
          remove (window_key ip) (remove (fails_key ip) m₂),
          rw (counted ip clock until 4 m₀ m fits c early (omega arith)) (
              rw
                (lease-free (lock_key ip) lockout_seconds (clock 2) (clock 3) m₁ laws (fits 2)
                  unlocked)
                refl),
          lookup-remove_other (window_key ip) (lock_key ip) (remove (fails_key ip) m₂)
                (window-lock ip)
              ∙ lookup-remove_other (fails_key ip) (lock_key ip) m₂ (fails-lock ip)
              ∙ lookup-insert_self (lock_key ip) lock_text m₁,
        )

    locked_until :
        (ip : Str) (until t : ℕ) (m : MemStore)
        → lookup (lock_key ip) m ≡ some (bytes (chrono.to_rfc3339 until))
        → until < end_of_9999
        → is_locked_out chrono ip t m ≡ ltb t until
    unfolding is_locked_out held_at Bucket.get Bucket.restored Memory.get get_value
    locked_until ip until t m found fits =
        rw found (held-parsed chrono until t (laws.parsed until fits))

    -- Five failures, of which the first finds no window and the other four come before the end of the
    -- window that the first one opens, answer that the address is locked out at the fifth and not
    -- before, if no lockout runs; the address is locked out then for 60 seconds from the fifth one and
    -- no longer. The readings of the clock are more than a minute before the year 10000, up to which
    -- chrono adds seconds and parses what it printed.
    pub record_failures-is_locked_out :
        (ip : Str) (m : MemStore) (c₁ c₂ c₃ c₄ c₅ : Clock)
        → IsEarly c₁
        → IsEarly c₂
        → IsEarly c₃
        → IsEarly c₄
        → IsEarly c₅
        → IsLapsed (window_key ip) m (c₁ 1)
        → IsLapsed (lock_key ip) m (c₅ 3)
        → c₂ 1 < lease_end window_seconds (c₁ 0)
        → c₃ 1 < lease_end window_seconds (c₁ 0)
        → c₄ 1 < lease_end window_seconds (c₁ 0)
        → c₅ 1 < lease_end window_seconds (c₁ 0)
        → (after : MemStore) × (record_failures chrono ip (c₁ ∷ c₂ ∷ c₃ ∷ c₄ ∷ c₅ ∷ []) m
            ≡ (false ∷ false ∷ false ∷ false ∷ true ∷ [], after))
          × ((t : ℕ) → is_locked_out chrono ip t after ≡ ltb t (lease_end lockout_seconds (c₅ 2)))
    unfolding record_failures
    record_failures-is_locked_out ip m c₁ c₂ c₃ c₄ c₅ f₁ f₂ f₃ f₄ f₅ opens unlocked e₂ e₃ e₄ e₅ =
        let until = lease_end window_seconds (c₁ 0) in
        let (m₁, run₁, one) = record_failure-first ip c₁ m f₁ opens in
        let (m₂, run₂, two) = record_failure-next ip c₂ until 1 m m₁ f₂ one e₂ (omega arith) in
        let (m₃, run₃, three) = record_failure-next ip c₃ until 2 m m₂ f₃ two e₃ (omega arith) in
        let (m₄, run₄, four) = record_failure-next ip c₄ until 3 m m₃ f₄ three e₄ (omega arith) in
        let (m₅, run₅, lock) = record_failure-last ip c₅ until m m₄ f₅ four e₅ unlocked in
        (
          m₅,
          rw (run₁, run₂, run₃, run₄, run₅) refl,
          λ t. locked_until ip (lease_end lockout_seconds (c₅ 2)) t m₅ lock (f₅ 2),
        )
