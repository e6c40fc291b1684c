-- ===== src/Store/Bucket/Lease.antt =====
-- `try_acquire_lease` of crates/wm-host/src/store/mod.rs. The crate chrono is the parameter
-- `Chrono`; the decoding of UTF-8 is part of its parsing. Times are numbers of milliseconds, and the
-- two times are the two calls of `Utc::now`.
use wiremirage.Prelude.Text.{Str}
use wiremirage.Prelude.Assoc.{lookup-insert_self}
use wiremirage.Prelude.Decimal.{ℤ, pos, negsuc}
use wiremirage.Prelude.{
  ℕ, ◌+◌, ◌*◌, ◌-◌, ◌^◌, ◌<◌, lt→ltb, arith, max, Bool, true, false, not, Option, none, some, ltb,
  if◌then◌else◌, ok, err, Result, Result-cases, Bool-cases, ◌++◌, ◌≡◌, refl, sym, ap, ◌∙◌, inl, inr,
}
use wiremirage.Store.{MemStore, StoreError, bytes}
use wiremirage.Store.Memory
use wiremirage.Store.Memory.{Answer}
use wiremirage.Store.Bucket.{get, restored}

-- How chrono prints and parses a time, and the time some seconds after another, unless that is out of
-- its range and panics.
pub record Chrono : Type 0 where
  pub to_rfc3339 : ℕ → Str
  pub parse_from_rfc3339 : Str → Option ℕ
  pub plus_seconds : ℕ → ℤ → Option ℕ

-- The first time of the year 10000, which RFC 3339 has no form for.
abbrev pub end_of_9999 : ℕ
end_of_9999 = 253402300800000

-- Up to the year 9999, a printed time is parsed to itself, and seconds are added.
pub record IsChrono (chrono : Chrono) : Type 0 where
  pub parsed : (t : ℕ) → t < end_of_9999 → chrono.parse_from_rfc3339 (chrono.to_rfc3339 t) ≡ some t
  pub added :
      (t seconds : ℕ)
      → t + 1000 * seconds < end_of_9999
      → chrono.plus_seconds t (pos seconds) ≡ some (t + 1000 * seconds)

-- `ttl_seconds as i64` of a `u64`
unfoldable pub as_i64 : ℕ → ℤ
as_i64 n = if ltb n (2 ^ 63) then pos n else negsuc (2 ^ 64 - 1 - n)

-- `out_of_range` is no error of the code: it is a panic of chrono.
pub data LeaseError : Type 0 where
  storage : StoreError → LeaseError
  out_of_range : LeaseError

abbrev pub LeaseAnswer : Type 0
LeaseAnswer = Result LeaseError Bool × MemStore

-- The time at which a lease ends that runs for at least a second.
abbrev pub lease_end : ℕ → ℕ → ℕ
lease_end ttl_seconds now = now + 1000 * max ttl_seconds 1

-- `held_until > Utc::now()`; what cannot be parsed is not a lease
unfoldable pub is_held : Option ℕ → ℕ → Bool
is_held none now = false
is_held (some held_until) now = ltb now held_until

module _ (chrono : Chrono) where
  unfoldable pub deadline : ℕ → ℕ → Option ℕ
  deadline ttl_seconds now = chrono.plus_seconds now (as_i64 (max ttl_seconds 1))

  unfoldable pub holds : Option Str → ℕ → Bool
  holds none now = false
  holds (some text) now = is_held (chrono.parse_from_rfc3339 text) now

  -- the lease until a time, unless one is held
  unfoldable pub claim_lease : Str → MemStore → Str → ℕ → ℕ → LeaseAnswer
  claim_lease prefix store key until later = elim (get prefix store key) [
    | err e ↦ (err (storage e), store)
    | ok existing ↦
        if holds existing later
        then (ok false, store)
        else (ok true, Memory.set store (prefix ++ key) (chrono.to_rfc3339 until))
  ]

  unfoldable pub try_acquire_lease : Str → MemStore → Str → ℕ → ℕ → ℕ → LeaseAnswer
  try_acquire_lease prefix store key ttl_seconds now later = elim (deadline ttl_seconds now) [
    | none ↦ (err out_of_range, store)
    | some until ↦ claim_lease prefix store key until later
  ]

  pub deadline-lease_end :
      (ttl now : ℕ)
      → IsChrono chrono
      → lease_end ttl now < end_of_9999
      → deadline ttl now ≡ some (lease_end ttl now)
  unfolding deadline as_i64
  deadline-lease_end ttl now laws fits =
      let small : ltb (max ttl 1) (2 ^ 63) ≡ true = lt→ltb (max ttl 1) (2 ^ 63) (omega arith) in
      rw (small, deadline, as_i64) (laws.added now (max ttl 1) fits)

  pub acquired :
      (prefix : Str) (m : MemStore) (key : Str) (ttl now later : ℕ)
      → IsChrono chrono
      → lease_end ttl now < end_of_9999
      → try_acquire_lease prefix m key ttl now later
        ≡ claim_lease prefix m key (lease_end ttl now) later
  unfolding try_acquire_lease
  acquired prefix m key ttl now later laws fits =
      rw (deadline-lease_end ttl now laws fits, try_acquire_lease) refl

  pub acquire_held :
      (prefix : Str) (m : MemStore) (key : Str) (until later : ℕ) (existing : Option Str)
      → get prefix m key ≡ ok existing
      → holds existing later ≡ true
      → claim_lease prefix m key until later ≡ (ok false, m)
  unfolding claim_lease
  acquire_held prefix m key until later existing good held = rw (good, claim_lease, held) refl

  pub acquire_free :
      (prefix : Str) (m : MemStore) (key : Str) (until later : ℕ) (existing : Option Str)
      → get prefix m key ≡ ok existing
      → holds existing later ≡ false
      → claim_lease prefix m key until later
        ≡ (ok true, Memory.set m (prefix ++ key) (chrono.to_rfc3339 until))
  unfolding claim_lease
  acquire_free prefix m key until later existing good free = rw (good, claim_lease, free) refl

  acquire_failed :
      (prefix : Str) (m : MemStore) (key : Str) (until later : ℕ) (e : StoreError)
      → get prefix m key ≡ err e
      → claim_lease prefix m key until later ≡ (err (storage e), m)
  unfolding claim_lease
  acquire_failed prefix m key until later e bad = rw (bad, claim_lease) refl

  won_store :
      (prefix : Str) (m : MemStore) (key : Str) (until later : ℕ)
      → (claim_lease prefix m key until later).0 ≡ ok true
      → (claim_lease prefix m key until later).1
        ≡ Memory.set m (prefix ++ key) (chrono.to_rfc3339 until)
  won_store prefix m key until later h = elim (Result-cases (get prefix m key)) [
    | inl (e, bad) ↦
        let other : err (storage e) ≡ ok true =
          sym (ap (λ a. a.0) (acquire_failed prefix m key until later e bad)) ∙ h in
        cc other
    | inr (existing, good) ↦ elim (Bool-cases (holds existing later)) [
      | inl held ↦
          let other : ok false ≡ ok true =
            sym (ap (λ a. a.0) (acquire_held prefix m key until later existing good held)) ∙ h in
          cc other
      | inr free ↦ ap (λ a. a.1) (acquire_free prefix m key until later existing good free)
    ]
  ]

  pub get-set :
      (prefix key value : Str) (m : MemStore)
      → get prefix (Memory.set m (prefix ++ key) value) key ≡ ok (some value)
  unfolding get Memory.set Memory.get Memory.get_value restored
  get-set prefix key value m = rw (lookup-insert_self (prefix ++ key) (bytes value) m) refl

  pub held-parsed :
      (t later : ℕ)
      → chrono.parse_from_rfc3339 (chrono.to_rfc3339 t) ≡ some t
      → holds (some (chrono.to_rfc3339 t)) later ≡ ltb later t
  unfolding holds is_held
  held-parsed t later h = rw h refl

  claimed :
      (prefix : Str) (m : MemStore) (key : Str) (until later until' later' : ℕ)
      → chrono.parse_from_rfc3339 (chrono.to_rfc3339 until) ≡ some until
      → (claim_lease prefix m key until later).0 ≡ ok true
      → (claim_lease prefix (claim_lease prefix m key until later).1 key until' later').0
        ≡ ok (not (ltb later' until))
  claimed prefix m key until later until' later' parsed h =
      let winner = Memory.set m (prefix ++ key) (chrono.to_rfc3339 until) in
      let stored = get-set prefix key (chrono.to_rfc3339 until) m in
      ap (λ n. (claim_lease prefix n key until' later').0) (won_store prefix m key until later h)
      ∙ elim (Bool-cases (ltb later' until)) [
        | inl early ↦
            ap (λ a. a.0)
              (acquire_held prefix winner key until' later' _ stored
                (held-parsed until later' parsed ∙ early))
            ∙ ap (λ b. ok (not b)) (sym early)
        | inr late ↦
            ap (λ a. a.0)
              (acquire_free prefix winner key until' later' _ stored
                (held-parsed until later' parsed ∙ late))
            ∙ ap (λ b. ok (not b)) (sym late)
      ]

  -- After a lease has been won, another attempt for the same key is refused until the winner's lease
  -- ends, its seconds (one at least) after the winner's time, and is won from then on, if both leases
  -- end before the year 10000, up to which chrono adds seconds and parses what it printed.
  pub try_acquire_lease-exclusive :
      (prefix : Str) (m : MemStore) (key : Str) (ttl now later ttl' now' later' : ℕ)
      → IsChrono chrono
      → lease_end ttl now < end_of_9999
      → lease_end ttl' now' < end_of_9999
      → (try_acquire_lease prefix m key ttl now later).0 ≡ ok true
      → (try_acquire_lease prefix
          (try_acquire_lease prefix m key ttl now later).1
          key
          ttl'
          now'
          later').0
        ≡ ok (not (ltb later' (lease_end ttl now)))
  try_acquire_lease-exclusive prefix m key ttl now later ttl' now' later' laws fits fits' h =
      let first = acquired prefix m key ttl now later laws fits in
      let again = λ (n : MemStore). acquired prefix n key ttl' now' later' laws fits' in
      ap (λ a. (try_acquire_lease prefix a.1 key ttl' now' later').0) first
      ∙ ap (λ a. a.0) (again (claim_lease prefix m key (lease_end ttl now) later).1)
      ∙ claimed prefix m key (lease_end ttl now) later (lease_end ttl' now') later'
          (laws.parsed (lease_end ttl now) fits) (sym (ap (λ a. a.0) first) ∙ h)
