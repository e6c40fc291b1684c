-- ===== src/Throttle/Separate.antt =====
-- crates/wm-host/src/login_throttle.rs: an address has its own counters, and a success is no way out of
-- a lockout.
use wiremirage.Prelude.Text.{Str, codes, str_eq, prefix_cancel}
use wiremirage.Prelude.Assoc.{lookup, lookup-insert_other, lookup-remove_other}
use wiremirage.Prelude.Decimal.{ℤ, pos}
use wiremirage.Prelude.{
  ℕ, Bool, true, false, List, [], ◌∷◌, Result, ok, err, ◌≡◌, refl, ◌∙◌, inl, inr, Bool-cases,
  Result-cases, Option-cases,
}
use wiremirage.Store.{MemStore, StoreError}
use wiremirage.Store.Memory
use wiremirage.Store.Memory.{Answer, get_value}
use wiremirage.Store.Memory.Frame.{OnlyAt}
use wiremirage.Store.Counters.Sums.{incr-frame}
use wiremirage.Store.Bucket
use wiremirage.Store.Bucket.Lease.{Chrono, deadline, holds, claim_lease, try_acquire_lease}
use wiremirage.Throttle.Lockout.{fails-lock, window-lock}
use wiremirage.Throttle.{
  fails_key, window_key, lock_key, Clock, or_false, below_max, forget, count_failure, locked, lease,
  judge, record_failure, record_success, window_seconds, lockout_seconds,
}

-- Under these keys two stores agree.
abbrev pub Agree : List Str → MemStore → MemStore → Type 0
Agree [] m n = Unit {0}
Agree (key ∷ keys) m n = (lookup key n ≡ lookup key m) × Agree keys m n

-- The three keys of an address.
abbrev pub keys_of : Str → List Str
keys_of ip = fails_key ip ∷ window_key ip ∷ lock_key ip ∷ []

-- No key of an address is this one.
record IsApart (key ip : Str) : Type 0 where
  fails : str_eq key (fails_key ip) ≡ false
  window : str_eq key (window_key ip) ≡ false
  lock : str_eq key (lock_key ip) ≡ false

fails_key-IsApart : (ip other : Str) → str_eq ip other ≡ false → IsApart (fails_key ip) other
unfolding fails_key window_key lock_key str_eq
fails_key-IsApart ip other apart = record {
  fails = prefix_cancel (codes "throttle:fails:") ip other ∙ apart;
  window = refl;
  lock = refl;
}

window_key-IsApart : (ip other : Str) → str_eq ip other ≡ false → IsApart (window_key ip) other
unfolding fails_key window_key lock_key str_eq
window_key-IsApart ip other apart = record {
  fails = refl;
  window = prefix_cancel (codes "throttle:window:") ip other ∙ apart;
  lock = refl;
}

lock_key-IsApart : (ip other : Str) → str_eq ip other ≡ false → IsApart (lock_key ip) other
unfolding fails_key window_key lock_key str_eq
lock_key-IsApart ip other apart = record {
  fails = refl;
  window = refl;
  lock = prefix_cancel (codes "throttle:lock:") ip other ∙ apart;
}

only-Agree :
    (key other : Str) (m n : MemStore)
    → IsApart key other
    → OnlyAt key m n
    → Agree (keys_of other) m n
only-Agree key other m n apart only = (
  only (fails_key other) apart.fails,
  (only (window_key other) apart.window, (only (lock_key other) apart.lock, tt)),
)

trans-Agree :
    (keys : List Str) (l m n : MemStore) → Agree keys l m → Agree keys m n → Agree keys l n
trans-Agree [] l m n a b = tt
trans-Agree (key ∷ keys) l m n (a, rest) (b, others) = (b ∙ a, trans-Agree keys l m n rest others)

same-Agree : (keys : List Str) (m : MemStore) → Agree keys m m
same-Agree [] m = tt
same-Agree (key ∷ keys) m = (refl, same-Agree keys m)

own_lock : (ip : Str) (m : MemStore) → lookup (lock_key ip) (forget ip m) ≡ lookup (lock_key ip) m
unfolding forget Bucket.delete Memory.delete
own_lock ip m =
    lookup-remove_other (window_key ip) (lock_key ip) _ (window-lock ip)
    ∙ lookup-remove_other (fails_key ip) (lock_key ip) m (fails-lock ip)

module _ (ip other : Str) (apart : str_eq ip other ≡ false) where
  forget-Agree : (m : MemStore) → Agree (keys_of other) m (forget ip m)
  unfolding forget Bucket.delete Memory.delete
  forget-Agree m =
      let f = fails_key-IsApart ip other apart in
      let w = window_key-IsApart ip other apart in
      trans-Agree (keys_of other) m _ _
        (only-Agree (fails_key ip) other m _ f
          (λ j far. lookup-remove_other (fails_key ip) j m far))
        (only-Agree (window_key ip) other _ _ w
          (λ j far. lookup-remove_other (window_key ip) j _ far))

  module _ (chrono : Chrono) where
    claimed-only :
        (key : Str) (until later : ℕ) (m : MemStore)
        → OnlyAt key m (or_false (claim_lease chrono [] m key until later)).1
    unfolding or_false claim_lease Memory.set
    claimed-only key until later m j far = elim (Result-cases (Bucket.get [] m key)) [
      | inl (e, bad) ↦ rw (bad, claim_lease) refl
      | inr (existing, good) ↦ elim (Bool-cases (holds chrono existing later)) [
        | inl held ↦ rw (good, claim_lease, held) refl
        | inr free ↦ rw (good, claim_lease, free) (lookup-insert_other key j _ m far)
      ]
    ]

    lease-only :
        (key : Str) (seconds now later : ℕ) (m : MemStore)
        → OnlyAt key m (lease chrono key seconds now later m).1
    unfolding lease or_false try_acquire_lease
    lease-only key seconds now later m j far = elim (Option-cases (deadline chrono seconds now)) [
      | inl late ↦ rw (late, try_acquire_lease) refl
      | inr (until, fits) ↦ rw (fits, try_acquire_lease) (claimed-only key until later m j far)
    ]

    count_failure-Agree :
        (fresh : Bool) (m : MemStore) → Agree (keys_of other) m (count_failure ip (fresh, m)).1
    unfolding count_failure Bucket.set Memory.set Bucket.incr Bucket.answer
    count_failure-Agree true m =
        only-Agree (fails_key ip) other m _ (fails_key-IsApart ip other apart)
          λ j far. lookup-insert_other (fails_key ip) j _ m far
    count_failure-Agree false m =
        only-Agree (fails_key ip) other m _ (fails_key-IsApart ip other apart)
          (incr-frame m (fails_key ip) (pos 1)).0

    judge-Agree :
        (clock : Clock) (r : Result StoreError ℤ) (m : MemStore)
        → Agree (keys_of other) m (judge chrono ip clock (r, m)).1
    unfolding judge locked
    judge-Agree clock (err e) m = same-Agree (keys_of other) m
    judge-Agree clock (ok n) m = elim (Bool-cases (below_max n)) [
      | inl few ↦ rw (few, judge) (same-Agree (keys_of other) m)
      | inr many ↦
          rw (many, judge)
            (trans-Agree (keys_of other) m _ _
              (only-Agree (lock_key ip) other m _ (lock_key-IsApart ip other apart)
                (lease-only (lock_key ip) lockout_seconds (clock 2) (clock 3) m))
              (forget-Agree _))
    ]

    failure_kept :
        (clock : Clock) (m : MemStore)
        → Agree (keys_of other) m (record_failure chrono ip clock m).1
    unfolding record_failure
    failure_kept clock m =
        let leased = lease chrono (window_key ip) window_seconds (clock 0) (clock 1) m in
        let counted = count_failure ip leased in
        trans-Agree (keys_of other) m leased.1 _
          (only-Agree (window_key ip) other m leased.1 (window_key-IsApart ip other apart)
            (lease-only (window_key ip) window_seconds (clock 0) (clock 1) m))
          (trans-Agree (keys_of other) leased.1 counted.1 _ (count_failure-Agree leased.0 leased.1)
            (judge-Agree clock counted.0 counted.1))

    -- A failure of one address, and a success of any, leave the counters and the lockout of another
    -- address as they were; a success leaves the lockout of its own address too.
    pub record_failure-Agree :
        (clock : Clock) (m : MemStore)
        → Agree (keys_of other) m (record_failure chrono ip clock m).1
          × Agree (keys_of other) m (record_success ip m)
          × (lookup (lock_key ip) (record_success ip m) ≡ lookup (lock_key ip) m)
    unfolding record_success
    record_failure-Agree clock m = (failure_kept clock m, forget-Agree m, own_lock ip m)
