-- ===== src/Store/Action.antt =====
-- crates/wm-host/src/store/mod.rs: what an operation of a component over its bucket is. It reads and
-- writes the store step by step; an error ends it, and what was written before stays written. The
-- bucket is the one without a prefix.
use wiremirage.Prelude.Text.{Str}
use wiremirage.Prelude.Assoc.{Assoc}
use wiremirage.Prelude.Decimal.{ℤ}
use wiremirage.Prelude.{ℕ, Bool, Option, none, some, List, [], ◌∷◌, Result, ok, err}
use wiremirage.Store.{StoreError, MemStore}
use wiremirage.Store.Memory.{Answer}
use wiremirage.Store.Bucket

abbrev pub Action : Type 0 → Type 0 → Type 0
Action E A = MemStore → Result E A × MemStore

-- The errors of a component, which those of the store are some of: `#[from] StoreError`.
pub record StorageError (E : Type 0) : Type 0 where
  pub storage : StoreError → E

-- what an answer leads to
abbrev pub after :
    {E A B : Type 0} → (A → Action E B) → Result E A × MemStore → Result E B × MemStore
after f (ok a, store) = f a store
after f (err e, store) = (err e, store)

infixl 5 ◌>>=◌ ◌>>◌
abbrev pub ◌>>=◌ : {E A B : Type 0} → Action E A → (A → Action E B) → Action E B
◌>>=◌ m f store = after f (m store)

abbrev pub ◌>>◌ : {E B : Type 0} → Action E (Unit {0}) → Action E B → Action E B
m >> k = m >>= λ _. k

abbrev pub return : {E A : Type 0} → A → Action E A
return a store = (ok a, store)

abbrev pub fail : {E A : Type 0} → E → Action E A
fail e store = (err e, store)

-- `?` on a result that needs no store
abbrev pub checked : {E A : Type 0} → Result E A → Action E A
checked r store = (r, store)

-- `ok_or`
abbrev pub require_some : {E A : Type 0} → E → Option A → Action E A
require_some e none = fail e
require_some e (some a) = return a

-- the `Storage` error, by `From`
abbrev pub from_store : {E A : Type 0} ⦃from : StorageError E⦄ → Result StoreError A → Result E A
from_store (ok a) = ok a
from_store ⦃from⦄ (err e) = err (from.storage e)

abbrev pub from_answer : {E A : Type 0} ⦃from : StorageError E⦄ → Answer A → Result E A × MemStore
from_answer (result, store) = (from_store result, store)

-- `if let Ok(a)`
abbrev pub ok_or_none : {E A : Type 0} → Result E A × MemStore → Result E (Option A) × MemStore
ok_or_none (ok a, store) = (ok (some a), store)
ok_or_none (err e, store) = (ok none, store)

abbrev pub attempt : {E A : Type 0} → Action E A → Action E (Option A)
attempt m store = ok_or_none (m store)

unfoldable pub for_each : {E A : Type 0} → (A → Action E (Unit {0})) → List A → Action E (Unit {0})
for_each f [] = return tt
for_each f (x ∷ xs) = do f x; for_each f xs

-- Every answer, up to the first error.
unfoldable pub collect : {E A B : Type 0} → (A → Action E B) → List A → Action E (List B)
collect f [] = return []
collect f (x ∷ xs) = do y ← f x; ys ← collect f xs; return (y ∷ ys)

-- Every answer that is no error.
unfoldable pub collect_ok : {E A B : Type 0} → (A → Action E B) → List A → Action E (List B)
collect_ok f [] = return []
collect_ok f (x ∷ xs) = do
  found ← attempt (f x)
  ys ← collect_ok f xs
  elim found [ none ↦ return ys | some y ↦ return (y ∷ ys) ]

-- The operations of the bucket, which has no prefix.
abbrev pub get : {E : Type 0} ⦃from : StorageError E⦄ → Str → Action E (Option Str)
get key store = (from_store (Bucket.get [] store key), store)

abbrev pub set : {E : Type 0} ⦃from : StorageError E⦄ → Str → Str → Action E (Unit {0})
set key value store = from_answer (Bucket.set [] store key value)

abbrev pub delete : {E : Type 0} ⦃from : StorageError E⦄ → Str → Action E (Unit {0})
delete key store = from_answer (Bucket.delete [] store key)

abbrev pub delete_with_prefix : {E : Type 0} ⦃from : StorageError E⦄ → Str → Action E ℕ
delete_with_prefix key store = from_answer (Bucket.delete_with_prefix [] store key)

abbrev pub hash_get_all : {E : Type 0} ⦃from : StorageError E⦄ → Str → Action E (Assoc Str)
hash_get_all key store = (from_store (Bucket.hash_get_all [] store key), store)

abbrev pub hash_set : {E : Type 0} ⦃from : StorageError E⦄ → Str → Str → Str → Action E (Unit {0})
hash_set key field value store = from_answer (Bucket.hash_set [] store key field value)

abbrev pub hash_delete : {E : Type 0} ⦃from : StorageError E⦄ → Str → Str → Action E (Unit {0})
hash_delete key field store = from_answer (Bucket.hash_delete [] store key field)

abbrev pub hash_incr : {E : Type 0} ⦃from : StorageError E⦄ → Str → Str → ℤ → Action E ℤ
hash_incr key field by store = from_answer (Bucket.hash_incr [] store key field by)

abbrev pub set_add : {E : Type 0} ⦃from : StorageError E⦄ → Str → Str → Action E (Unit {0})
set_add key member store = from_answer (Bucket.set_add [] store key member)

abbrev pub set_remove : {E : Type 0} ⦃from : StorageError E⦄ → Str → Str → Action E (Unit {0})
set_remove key member store = from_answer (Bucket.set_remove [] store key member)

abbrev pub set_members : {E : Type 0} ⦃from : StorageError E⦄ → Str → Action E (List Str)
set_members key store = (from_store (Bucket.set_members [] store key), store)

-- `set_if_absent`: whether the key was free
abbrev pub set_if_absent : {E : Type 0} ⦃from : StorageError E⦄ → Str → Str → Action E Bool
set_if_absent key value store = from_answer (Bucket.set_if_absent [] store key value)

abbrev pub hash_get : {E : Type 0} ⦃from : StorageError E⦄ → Str → Str → Action E (Option Str)
hash_get key field store = (from_store (Bucket.hash_get [] store key field), store)

unfoldable pub delete_fields :
    {E : Type 0} ⦃from : StorageError E⦄ → Str → List Str → Action E (Unit {0})
delete_fields key fields = for_each (hash_delete key) fields

-- The in-memory store has no times to live: `set_ttl` leaves it as it is.
unfoldable pub set_ttl : {E : Type 0} → Str → ℕ → Action E (Unit {0})
set_ttl key ttl_seconds = return tt

-- `let _ =`: whatever the answer is
abbrev pub ignored : {E A : Type 0} → Action E A → Action E (Unit {0})
ignored m store = (ok tt, (m store).1)

-- `map_err`
abbrev pub with_error : {E F A : Type 0} → (E → F) → Result E A → Result F A
with_error f (ok a) = ok a
with_error f (err e) = err (f e)

abbrev pub map_err : {E F A : Type 0} → (E → F) → Action E A → Action F A
map_err f m store = let (result, rest) = m store in (with_error f result, rest)
