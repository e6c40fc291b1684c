-- ===== src/Store/Memory.antt =====
-- crates/wm-host/src/store/memory.rs: the operations on the in-memory store. An operation that
-- changes the store gives its answer and the store after it; a `HashSet` is a list without
-- repetitions.
pub mod Frame
pub mod Lists
use wiremirage.Prelude.Text.{Str, str_eq, codes, mem_str}
use wiremirage.Prelude.Assoc.{Assoc, lookup, insert, remove}
use wiremirage.Prelude.Decimal.{ℤ, pos, negsuc}
use wiremirage.Prelude.{
  ℕ, suc, ◌+◌, ◌-◌, min, Bool, true, false, not, Option, none, some, List, [], ◌∷◌, ◌++◌, map, keep,
  length, take, drop, ltb, if◌then◌else◌, Result, ok, err,
}
use wiremirage.Store.{StoreError, wrong_type, MemValue, bytes, list, hash, member_set, MemStore}

unfoldable pub kind_of : MemValue → Str
kind_of (bytes b) = codes "bytes"
kind_of (list q) = codes "list"
kind_of (hash h) = codes "hash"
kind_of (member_set s) = codes "set"

unfoldable pub kind : MemStore → Str → Option Str
kind store key = elim (lookup key store) [ none ↦ none | some value ↦ some (kind_of value) ]

abbrev pub Answer : Type 0 → Type 0
Answer A = Result StoreError A × MemStore

unfoldable pub mismatch : {A : Type 0} → Str → MemValue → Str → Result StoreError A
mismatch key value expected = err (wrong_type key (kind_of value) expected)

unfoldable pub get_value : Str → Option MemValue → Result StoreError (Option Str)
get_value key none = ok none
get_value key (some (bytes b)) = ok (some b)
get_value key (some (list q)) = mismatch key (list q) (codes "bytes")
get_value key (some (hash h)) = mismatch key (hash h) (codes "bytes")
get_value key (some (member_set s)) = mismatch key (member_set s) (codes "bytes")

unfoldable pub get : MemStore → Str → Result StoreError (Option Str)
get store key = get_value key (lookup key store)

unfoldable pub set : MemStore → Str → Str → MemStore
set store key value = insert key (bytes value) store

unfoldable pub delete : MemStore → Str → MemStore
delete store key = remove key store

-- The value of a list, a hash or a set; a key without one has the empty one.
unfoldable pub list_value : Str → Option MemValue → Result StoreError (List Str)
list_value key none = ok []
list_value key (some (list q)) = ok q
list_value key (some (bytes b)) = mismatch key (bytes b) (codes "list")
list_value key (some (hash h)) = mismatch key (hash h) (codes "list")
list_value key (some (member_set s)) = mismatch key (member_set s) (codes "list")

unfoldable pub list_push : MemStore → Str → Str → Answer (Unit {0})
list_push store key value = elim (list_value key (lookup key store)) [
  | ok q ↦ (ok tt, insert key (list (q ++ value ∷ [])) store)
  | err e ↦ (err e, store)
]

-- `None` in the store stays so; the last element leaves an empty list behind.
unfoldable pub list_pop_value : Str → Option MemValue → MemStore → Answer (Option Str)
list_pop_value key none store = (ok none, store)
list_pop_value key (some (list [])) store = (ok none, store)
list_pop_value key (some (list (v ∷ q))) store = (ok (some v), insert key (list q) store)
list_pop_value key (some (bytes b)) store = (mismatch key (bytes b) (codes "list"), store)
list_pop_value key (some (hash h)) store = (mismatch key (hash h) (codes "list"), store)
list_pop_value key (some (member_set s)) store = (mismatch key (member_set s) (codes "list"), store)

unfoldable pub list_pop : MemStore → Str → Answer (Option Str)
list_pop store key = list_pop_value key (lookup key store) store

-- `(len + i).max(0)` or `i.min(len - 1)`, for a length that is not zero
unfoldable pub normalize : ℕ → ℤ → ℕ
normalize len (pos i) = min i (len - 1)
normalize len (negsuc i) = len - suc i

unfoldable pub range_of : ℤ → ℤ → List Str → List Str
range_of start stop [] = []
range_of start stop (v ∷ q) =
    let s = normalize (length (v ∷ q)) start in
    let e = normalize (length (v ∷ q)) stop in
    if ltb e s then [] else take (e - s + 1) (drop s (v ∷ q))

unfoldable pub list_range : MemStore → Str → ℤ → ℤ → Result StoreError (List Str)
list_range store key start stop = elim (list_value key (lookup key store)) [
  | ok q ↦ ok (range_of start stop q)
  | err e ↦ err e
]

unfoldable pub list_length : MemStore → Str → Result StoreError ℕ
list_length store key = elim (list_value key (lookup key store)) [
  | ok q ↦ ok (length q)
  | err e ↦ err e
]

unfoldable pub hash_value : Str → Option MemValue → Result StoreError (Assoc Str)
hash_value key none = ok []
hash_value key (some (hash h)) = ok h
hash_value key (some (bytes b)) = mismatch key (bytes b) (codes "hash")
hash_value key (some (list q)) = mismatch key (list q) (codes "hash")
hash_value key (some (member_set s)) = mismatch key (member_set s) (codes "hash")

unfoldable pub hash_get : MemStore → Str → Str → Result StoreError (Option Str)
hash_get store key field = elim (hash_value key (lookup key store)) [
  | ok h ↦ ok (lookup field h)
  | err e ↦ err e
]

unfoldable pub hash_set : MemStore → Str → Str → Str → Answer (Unit {0})
hash_set store key field value = elim (hash_value key (lookup key store)) [
  | ok h ↦ (ok tt, insert key (hash (insert field value h)) store)
  | err e ↦ (err e, store)
]

-- A missing key stays missing; a hash stays, be it empty.
unfoldable pub hash_delete_value : Str → Str → Option MemValue → MemStore → Answer (Unit {0})
hash_delete_value key field none store = (ok tt, store)
hash_delete_value key field (some value) store = elim (hash_value key (some value)) [
  | ok h ↦ (ok tt, insert key (hash (remove field h)) store)
  | err e ↦ (err e, store)
]

unfoldable pub hash_delete : MemStore → Str → Str → Answer (Unit {0})
hash_delete store key field = hash_delete_value key field (lookup key store) store

unfoldable pub hash_get_all : MemStore → Str → Result StoreError (Assoc Str)
hash_get_all store key = hash_value key (lookup key store)

unfoldable pub entry_keys {ℓ} : {V : Type ℓ} → Assoc V → List Str
entry_keys [] = []
entry_keys ((k, v) ∷ m) = k ∷ entry_keys m

unfoldable pub hash_keys : MemStore → Str → Result StoreError (List Str)
hash_keys store key = elim (hash_value key (lookup key store)) [
  | ok h ↦ ok (entry_keys h)
  | err e ↦ err e
]

unfoldable pub set_value : Str → Option MemValue → Result StoreError (List Str)
set_value key none = ok []
set_value key (some (member_set s)) = ok s
set_value key (some (bytes b)) = mismatch key (bytes b) (codes "set")
set_value key (some (list q)) = mismatch key (list q) (codes "set")
set_value key (some (hash h)) = mismatch key (hash h) (codes "set")

unfoldable pub set_members : MemStore → Str → Result StoreError (List Str)
set_members store key = set_value key (lookup key store)

-- `HashSet::insert`. A set has no order; the model keeps one, which stands for any.
unfoldable pub with_member : Str → List Str → List Str
with_member member s = if mem_str member s then s else member ∷ s

unfoldable pub without_member : Str → List Str → List Str
without_member member s = keep (λ x. not (str_eq member x)) s

unfoldable pub set_add : MemStore → Str → Str → Answer (Unit {0})
set_add store key member = elim (set_value key (lookup key store)) [
  | ok s ↦ (ok tt, insert key (member_set (with_member member s)) store)
  | err e ↦ (err e, store)
]

-- A missing key stays missing; a set stays, be it empty.
unfoldable pub set_remove_value : Str → Str → Option MemValue → MemStore → Answer (Unit {0})
set_remove_value key member none store = (ok tt, store)
set_remove_value key member (some value) store = elim (set_value key (some value)) [
  | ok s ↦ (ok tt, insert key (member_set (without_member member s)) store)
  | err e ↦ (err e, store)
]

unfoldable pub set_remove : MemStore → Str → Str → Answer (Unit {0})
set_remove store key member = set_remove_value key member (lookup key store) store

unfoldable pub set_contains : MemStore → Str → Str → Result StoreError Bool
set_contains store key member = elim (set_value key (lookup key store)) [
  | ok s ↦ ok (mem_str member s)
  | err e ↦ err e
]
