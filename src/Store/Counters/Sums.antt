-- ===== src/Store/Counters/Sums.antt =====
-- The counters of crates/wm-host/src/store/memory.rs add up.
use mathlib.Core.Option.{none-ne-some, some-injective}
use wiremirage.Prelude.Text.{Str}
use wiremirage.Prelude.Assoc.{Assoc, lookup, insert, lookup-insert_self}
use wiremirage.Prelude.Decimal.{ℤ, ◌+ℤ◌, in_i64, checked_add, print_i64, parse_i64}
use wiremirage.Prelude.Decimal.RoundTrip.{parse_i64-print_i64}
use wiremirage.Prelude.{
  true, Option, none, some, Result, ok, err, err-ne-ok, ok-injective, ◌≡◌, refl, sym, ap, ◌∙◌, inl,
  inr, Option-cases, Result-cases, Bool-cases,
}
use wiremirage.Store.{MemStore, MemValue, StoreError, incr_overflow, bytes, hash}
use wiremirage.Store.Memory.{mismatch, hash_value}
use wiremirage.Store.Memory.Frame.{OnlyAt, FailsClean, insert-OnlyAt, same-OnlyAt}
use wiremirage.Store.Counters.{
  increased, stored, write_bytes, incr_value, incr, incr_field, write_field, hash_incr,
}

-- The sum, or the overflow that is reported instead.
unfoldable pub sum_or_overflow : Str → ℤ → ℤ → Result StoreError ℤ
sum_or_overflow name a b = elim (checked_add a b) [
  | none ↦ err (incr_overflow name)
  | some n ↦ ok n
]

checked_add-in_i64 : (a b n : ℤ) → checked_add a b ≡ some n → in_i64 n ≡ true
unfolding checked_add
checked_add-in_i64 a b n h = elim (Bool-cases (in_i64 (a +ℤ b))) [
  | inl fits ↦
      let same : a +ℤ b ≡ n = some-injective (a +ℤ b) n (rw (fits) at h) in
      sym (ap in_i64 same) ∙ fits
  | inr over ↦ absurd (none-ne-some n (rw (over) at h))
]

increased-print :
    (name : Str) (by n : ℤ)
    → in_i64 n ≡ true
    → increased name by (print_i64 n) ≡ sum_or_overflow name n by
unfolding increased sum_or_overflow
increased-print name by n h = rw (parse_i64-print_i64 n h, increased) refl

increased-in_i64 : (name text : Str) (by n : ℤ) → increased name by text ≡ ok n → in_i64 n ≡ true
unfolding increased
increased-in_i64 name text by n h = elim (Option-cases (parse_i64 text)) [
  | inl bad ↦ err-ne-ok _ n (rw (bad, increased) at h)
  | inr (c, good) ↦ elim (Option-cases (checked_add c by)) [
    | inl over ↦ err-ne-ok _ n (rw (good, increased, over) at h)
    | inr (m, e) ↦
        checked_add-in_i64 c by n (e ∙ ap some (ok-injective m n (rw (good, increased, e) at h)))
  ]
]

stored-frame :
    (key : Str) (write : ℤ → MemStore) (m : MemStore) (r : Result StoreError ℤ)
    → ((n : ℤ) → OnlyAt key m (write n))
    → OnlyAt key m (stored write m r).1 × FailsClean m (stored write m r)
unfolding stored
stored-frame key write m (ok n) only = (only n, λ e h. cc h)
stored-frame key write m (err e) only = (same-OnlyAt key m, λ f h. refl)

incr_value-in_i64 :
    (key : Str) (by n : ℤ) (o : Option MemValue)
    → in_i64 by ≡ true
    → incr_value key by o ≡ ok n
    → in_i64 n ≡ true
unfolding incr_value mismatch
incr_value-in_i64 key by n none fits h = sym (ap in_i64 (ok-injective by n h)) ∙ fits
incr_value-in_i64 key by n (some (bytes b)) fits h = increased-in_i64 key b by n h
incr_value-in_i64 key by n (some (MemValue.list q)) fits h = err-ne-ok _ n h
incr_value-in_i64 key by n (some (hash q)) fits h = err-ne-ok _ n h
incr_value-in_i64 key by n (some (MemValue.member_set q)) fits h = err-ne-ok _ n h

stored-ok :
    (write : ℤ → MemStore) (m : MemStore) (r : Result StoreError ℤ) (n : ℤ)
    → (stored write m r).0 ≡ ok n
    → (r ≡ ok n) × ((stored write m r).1 ≡ write n)
unfolding stored
stored-ok write m (ok k) n h = (h, ap write (ok-injective k n h))
stored-ok write m (err e) n h = err-ne-ok e n h

stored-answer :
    (write : ℤ → MemStore) (m : MemStore) (r : Result StoreError ℤ) → (stored write m r).0 ≡ r
unfolding stored
stored-answer write m (ok n) = refl
stored-answer write m (err e) = refl

-- After an increment has answered with a number, the next one answers with that number plus its own,
-- or with an overflow if the sum is not an `i64`.
pub incr-incr :
    (m : MemStore) (key : Str) (by next n : ℤ)
    → in_i64 by ≡ true
    → (incr m key by).0 ≡ ok n
    → (incr (incr m key by).1 key next).0 ≡ sum_or_overflow key n next
unfolding incr write_bytes
incr-incr m key by next n fits h =
    let write = write_bytes key m in
    let (value, wrote) = stored-ok write m (incr_value key by (lookup key m)) n h in
    let held : lookup key (incr m key by).1 ≡ some (bytes (print_i64 n)) =
      ap (lookup key) wrote ∙ lookup-insert_self key (bytes (print_i64 n)) m in
    stored-answer (write_bytes key (incr m key by).1) (incr m key by).1 _
    ∙ ap (incr_value key next) held
    ∙ unfold incr_value in
      increased-print key next n (incr_value-in_i64 key by n (lookup key m) fits value)

-- A key that holds a counter's text answers with the sum, and holds the text of the sum then.
pub incr-step :
    (m : MemStore) (key : Str) (n by : ℤ)
    → lookup key m ≡ some (bytes (print_i64 n))
    → in_i64 n ≡ true
    → in_i64 (n +ℤ by) ≡ true
    → incr m key by ≡ (ok (n +ℤ by), insert key (bytes (print_i64 (n +ℤ by))) m)
unfolding incr incr_value stored increased checked_add write_bytes
incr-step m key n by found fits sum_fits =
    rw
      (
        found,
        incr,
        incr_value,
        parse_i64-print_i64 n fits,
        increased,
        checked_add,
        sum_fits,
        stored,
        write_bytes,
      )
      refl

pub incr-frame :
    (m : MemStore) (key : Str) (by : ℤ)
    → OnlyAt key m (incr m key by).1 × FailsClean m (incr m key by)
unfolding incr write_bytes
incr-frame m key by =
    stored-frame key (write_bytes key m) m _ (λ n. insert-OnlyAt key (bytes (print_i64 n)) m)

pub hash_incr-frame :
    (m : MemStore) (key field : Str) (by : ℤ)
    → OnlyAt key m (hash_incr m key field by).1 × FailsClean m (hash_incr m key field by)
unfolding hash_incr write_field
hash_incr-frame m key field by = elim (Result-cases (hash_value key (lookup key m))) [
  | inl (e, bad) ↦ rw (bad, hash_incr) (same-OnlyAt key m, λ f h. refl)
  | inr (h, good) ↦
      rw (good, hash_incr)
        (stored-frame key (write_field key field h m) m _
          (λ n. insert-OnlyAt key (hash (insert field (print_i64 n) h)) m))
]

-- A field that holds a counter's text answers with the sum, and holds the text of the sum then.
pub hash_incr-step :
    (m : MemStore) (key field : Str) (h : Assoc Str) (n by : ℤ)
    → hash_value key (lookup key m) ≡ ok h
    → lookup field h ≡ some (print_i64 n)
    → in_i64 n ≡ true
    → in_i64 (n +ℤ by) ≡ true
    → hash_incr m key field by
      ≡ (ok (n +ℤ by), insert key (hash (insert field (print_i64 (n +ℤ by)) h)) m)
unfolding hash_incr incr_field stored increased checked_add write_field
hash_incr-step m key field h n by holds found fits sum_fits =
    rw
      (
        holds,
        hash_incr,
        found,
        incr_field,
        parse_i64-print_i64 n fits,
        increased,
        checked_add,
        sum_fits,
        stored,
        write_field,
      )
      refl
