-- ===== src/Store/Bucket.antt =====
-- crates/wm-host/src/store/mod.rs: a bucket, which is a prefix of the keys in the one store. Each
-- operation is the one of the in-memory backend under the full key, with the prefix taken off the
-- key that an error names.
pub mod Writes
pub mod Isolation
pub mod Lease
pub mod Deletion
use wiremirage.Prelude.Text.{Str, codes, strip_prefix, starts_with}
use wiremirage.Prelude.Assoc.{Assoc}
use wiremirage.Prelude.Decimal.{ℤ, pos, negsuc}
use wiremirage.Prelude.{
  ℕ, Bool, true, false, Option, none, some, List, [], ◌∷◌, ◌++◌, map, keep, length, is_some,
  if◌then◌else◌, Result, ok, err,
}
use wiremirage.Store.{StoreError, wrong_type, not_integer, incr_overflow, backend, MemStore}
use wiremirage.Store.Memory
use wiremirage.Store.Counters
use wiremirage.Store.Memory.{Answer, entry_keys}

unfoldable pub strip : Str → Str → Str
strip full prefix = elim (strip_prefix prefix full) [ none ↦ full | some rest ↦ rest ]

unfoldable pub restore_user_key : Str → StoreError → StoreError
restore_user_key prefix (wrong_type key actual expected) =
    wrong_type (strip key prefix) actual expected
restore_user_key prefix (not_integer key) = not_integer (strip key prefix)
restore_user_key prefix (incr_overflow key) = incr_overflow (strip key prefix)
restore_user_key prefix (backend text) = backend text

unfoldable pub restored : {A : Type 0} → Str → Result StoreError A → Result StoreError A
restored prefix (ok a) = ok a
restored prefix (err e) = err (restore_user_key prefix e)

unfoldable pub answer : {A : Type 0} → Str → Answer A → Answer A
answer prefix (result, store) = (restored prefix result, store)

-- The prefix of a route's own bucket, and the one of its group's.
unfoldable pub route_prefix : Str → Str → Str → Str
route_prefix root group route =
    root ++ (codes "kv:" ++ (group ++ (codes ":" ++ (route ++ codes ":"))))

unfoldable pub group_prefix : Str → Str → Str
group_prefix root group = root ++ (codes "gkv:" ++ (group ++ codes ":"))

module _ (prefix : Str) where
  unfoldable pub get : MemStore → Str → Result StoreError (Option Str)
  get store key = restored prefix (Memory.get store (prefix ++ key))

  unfoldable pub set : MemStore → Str → Str → Answer (Unit {0})
  set store key value = (ok tt, Memory.set store (prefix ++ key) value)

  unfoldable pub delete : MemStore → Str → Answer (Unit {0})
  delete store key = (ok tt, Memory.delete store (prefix ++ key))

  unfoldable pub set_if_absent : MemStore → Str → Str → Answer Bool
  set_if_absent store key value = elim (get store key) [
    | err e ↦ (err e, store)
    | ok none ↦ (ok true, Memory.set store (prefix ++ key) value)
    | ok (some held) ↦ (ok false, store)
  ]

  unfoldable pub kind : MemStore → Str → Option Str
  kind store key = Memory.kind store (prefix ++ key)

  unfoldable pub scan : MemStore → Str → List Str
  scan store full_prefix = keep (starts_with full_prefix) (entry_keys store)

  unfoldable pub list_keys : MemStore → Option Str → List Str
  list_keys store none = map (λ k. strip k prefix) (scan store prefix)
  list_keys store (some user) = map (λ k. strip k prefix) (scan store (prefix ++ user))

  unfoldable pub delete_keys : List Str → MemStore → MemStore
  delete_keys [] store = store
  delete_keys (key ∷ keys) store = delete_keys keys (Memory.delete store (prefix ++ key))

  unfoldable pub delete_with_prefix : MemStore → Str → Answer ℕ
  delete_with_prefix store user =
      let keys = list_keys store (some user) in (ok (length keys), delete_keys keys store)

  unfoldable pub list_push : MemStore → Str → Str → Answer (Unit {0})
  list_push store key value = answer prefix (Memory.list_push store (prefix ++ key) value)

  unfoldable pub list_pop : MemStore → Str → Answer (Option Str)
  list_pop store key = answer prefix (Memory.list_pop store (prefix ++ key))

  unfoldable pub list_range : MemStore → Str → ℤ → ℤ → Result StoreError (List Str)
  list_range store key start stop =
      restored prefix (Memory.list_range store (prefix ++ key) start stop)

  unfoldable pub list_length : MemStore → Str → Result StoreError ℕ
  list_length store key = restored prefix (Memory.list_length store (prefix ++ key))

  unfoldable pub hash_get : MemStore → Str → Str → Result StoreError (Option Str)
  hash_get store key field = restored prefix (Memory.hash_get store (prefix ++ key) field)

  unfoldable pub hash_set : MemStore → Str → Str → Str → Answer (Unit {0})
  hash_set store key field value = answer prefix (Memory.hash_set store (prefix ++ key) field value)

  unfoldable pub hash_delete : MemStore → Str → Str → Answer (Unit {0})
  hash_delete store key field = answer prefix (Memory.hash_delete store (prefix ++ key) field)

  unfoldable pub hash_keys : MemStore → Str → Result StoreError (List Str)
  hash_keys store key = restored prefix (Memory.hash_keys store (prefix ++ key))

  unfoldable pub hash_get_all : MemStore → Str → Result StoreError (Assoc Str)
  hash_get_all store key = restored prefix (Memory.hash_get_all store (prefix ++ key))

  unfoldable pub set_add : MemStore → Str → Str → Answer (Unit {0})
  set_add store key member = answer prefix (Memory.set_add store (prefix ++ key) member)

  unfoldable pub set_remove : MemStore → Str → Str → Answer (Unit {0})
  set_remove store key member = answer prefix (Memory.set_remove store (prefix ++ key) member)

  unfoldable pub set_contains : MemStore → Str → Str → Result StoreError Bool
  set_contains store key member = restored prefix (Memory.set_contains store (prefix ++ key) member)

  unfoldable pub set_members : MemStore → Str → Result StoreError (List Str)
  set_members store key = restored prefix (Memory.set_members store (prefix ++ key))

  unfoldable pub incr : MemStore → Str → ℤ → Answer ℤ
  incr store key by = answer prefix (Counters.incr store (prefix ++ key) by)

  unfoldable pub hash_incr : MemStore → Str → Str → ℤ → Answer ℤ
  hash_incr store key field by = answer prefix (Counters.hash_incr store (prefix ++ key) field by)
