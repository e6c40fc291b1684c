-- ===== src/Store/Counters.antt =====
-- crates/wm-host/src/store/memory.rs: the counters, which are texts of decimal digits, and the copy
-- of a prefix. What is not UTF-8 is not a number either, so the two tests of the code are one.
pub mod Sums
pub mod Copies
use wiremirage.Prelude.Text.{Str, codes, starts_with}
use wiremirage.Prelude.Assoc.{Assoc, lookup, insert}
use wiremirage.Prelude.Decimal.{ℤ, checked_add, print_i64, parse_i64}
use wiremirage.Prelude.{
  ℕ, Option, none, some, List, [], ◌∷◌, ◌++◌, length, drop, if◌then◌else◌, Result, ok, err,
}
use wiremirage.Store.{
  StoreError, not_integer, incr_overflow, MemValue, bytes, list, hash, member_set, MemStore,
}
use wiremirage.Store.Memory.{Answer, mismatch, hash_value}

-- the text of a counter plus a number, under the name that an error has
unfoldable pub increased : Str → ℤ → Str → Result StoreError ℤ
increased name by text = elim (parse_i64 text) [
  | none ↦ err (not_integer name)
  | some current ↦ elim (checked_add current by) [
    | none ↦ err (incr_overflow name)
    | some next ↦ ok next
  ]
]

unfoldable pub stored : (ℤ → MemStore) → MemStore → Result StoreError ℤ → Answer ℤ
stored write store (ok next) = (ok next, write next)
stored write store (err e) = (err e, store)

unfoldable pub write_bytes : Str → MemStore → ℤ → MemStore
write_bytes key store n = insert key (bytes (print_i64 n)) store

unfoldable pub incr_value : Str → ℤ → Option MemValue → Result StoreError ℤ
incr_value key by none = ok by
incr_value key by (some (bytes b)) = increased key by b
incr_value key by (some (list q)) = mismatch key (list q) (codes "bytes")
incr_value key by (some (hash h)) = mismatch key (hash h) (codes "bytes")
incr_value key by (some (member_set s)) = mismatch key (member_set s) (codes "bytes")

unfoldable pub incr : MemStore → Str → ℤ → Answer ℤ
incr store key by = stored (write_bytes key store) store (incr_value key by (lookup key store))

unfoldable pub incr_field : Str → Str → ℤ → Option Str → Result StoreError ℤ
incr_field key field by none = ok by
incr_field key field by (some b) = increased (key ++ (codes "." ++ field)) by b

unfoldable pub write_field : Str → Str → Assoc Str → MemStore → ℤ → MemStore
write_field key field h store n = insert key (hash (insert field (print_i64 n) h)) store

unfoldable pub hash_incr : MemStore → Str → Str → ℤ → Answer ℤ
hash_incr store key field by = elim (hash_value key (lookup key store)) [
  | err e ↦ (err e, store)
  | ok h ↦ stored (write_field key field h store) store (incr_field key field by (lookup field h))
]

-- The entries under the first prefix, with the second one in its place.
unfoldable pub moved_entries : Str → Str → MemStore → MemStore
moved_entries src_prefix dst_prefix [] = []
moved_entries src_prefix dst_prefix ((k, v) ∷ store) =
    let rest = moved_entries src_prefix dst_prefix store in
    if starts_with src_prefix k then (dst_prefix ++ drop (length src_prefix) k, v) ∷ rest else rest

-- The insertions, in an order that is free as it is in a `HashMap`: the last entry first.
unfoldable pub insert_all : MemStore → MemStore → MemStore
insert_all [] store = store
insert_all ((k, v) ∷ pairs) store = insert k v (insert_all pairs store)

unfoldable pub copy_with_prefix : MemStore → Str → Str → ℕ × MemStore
copy_with_prefix store src_prefix dst_prefix =
    let pairs = moved_entries src_prefix dst_prefix store in (length pairs, insert_all pairs store)
