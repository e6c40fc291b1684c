-- ===== src/Store/Bucket/Deletion.antt =====
-- `delete_with_prefix` of crates/wm-host/src/store/mod.rs empties a part of a bucket.
use wiremirage.Prelude.Text.{
  Str, str_eq_iff, str_eq_comm, mem_str, starts_with, starts_with→append, strip_prefix,
  strip_prefix-append,
}
use wiremirage.Prelude.Assoc.{lookup, remove, lookup-remove}
use wiremirage.Prelude.{
  Bool, true, false, none, some, List, [], ◌∷◌, ◌++◌, ◌&&◌, map, keep, if◌then◌else◌, ◌≡◌, refl,
  sym, ap, ap₂, ◌∙◌, arith, inl, inr, Bool-cases, append_assoc,
}
use wiremirage.Store.{MemStore}
use wiremirage.Store.Memory
use wiremirage.Store.Memory.{entry_keys}
use wiremirage.Store.Bucket.{strip, scan, list_keys, delete_keys, delete_with_prefix}

delete_keys-lookup :
    (prefix : Str) (keys : List Str) (m : MemStore) (j : Str)
    → lookup j (delete_keys prefix keys m)
      ≡ (if mem_str j (map (λ k. prefix ++ k) keys) then none else lookup j m)
unfolding delete_keys Memory.delete mem_str
delete_keys-lookup prefix [] m j = refl
delete_keys-lookup prefix (key ∷ keys) m j =
    delete_keys-lookup prefix keys (remove (prefix ++ key) m) j
    ∙ ground (arith, lookup-remove (prefix ++ key) j m, str_eq_comm (prefix ++ key) j)

strip-key :
    (prefix user k : Str) → starts_with (prefix ++ user) k ≡ true → prefix ++ strip k prefix ≡ k
unfolding strip
strip-key prefix user k h =
    let (t, e) = starts_with→append (prefix ++ user) k h in
    let cut : k ≡ prefix ++ (user ++ t) = e ∙ append_assoc prefix user t in
    let found : strip_prefix prefix k ≡ some (user ++ t) =
      ap (strip_prefix prefix) cut ∙ strip_prefix-append prefix (user ++ t) in
    rw (found, strip) (sym cut)

strip-scan :
    (prefix user : Str) (keys : List Str)
    → map (λ k. prefix ++ k) (map (λ k. strip k prefix) (keep (starts_with (prefix ++ user)) keys))
      ≡ keep (starts_with (prefix ++ user)) keys
strip-scan prefix user [] = refl
strip-scan prefix user (k ∷ keys) = elim (Bool-cases (starts_with (prefix ++ user) k)) [
  | inl kept ↦
      rw (kept, keep)
        (ap₂ (λ a b. a ∷ b) (strip-key prefix user k kept) (strip-scan prefix user keys))
  | inr dropped ↦ rw (dropped, keep) (strip-scan prefix user keys)
]

mem_str-keep :
    (p : Str → Bool) (keys : List Str) (j : Str) → mem_str j (keep p keys) ≡ p j && mem_str j keys
unfolding mem_str
mem_str-keep p [] j = ground arith
mem_str-keep p (k ∷ keys) j = elim (Bool-cases (p k)) [
  | inl kept ↦
      rw (kept, keep) (ground (arith, mem_str-keep p keys j, str_eq_iff j k, λ (e : j ≡ k). ap p e))
  | inr dropped ↦
      rw (dropped, keep)
        (ground (arith, mem_str-keep p keys j, str_eq_iff j k, λ (e : j ≡ k). ap p e))
]

lookup-missing : (m : MemStore) (j : Str) → mem_str j (entry_keys m) ≡ false → lookup j m ≡ none
unfolding lookup mem_str entry_keys
lookup-missing [] j h = refl
lookup-missing ((k, v) ∷ m) j h = ground (arith, lookup-missing m j, str_eq_comm k j)

-- After the deletion of a prefix, a key that the bucket's prefix and the given one start is absent,
-- and every other key of the store, in the bucket or not, has the value that it had.
pub delete_with_prefix-lookup :
    (prefix user : Str) (m : MemStore) (j : Str)
    → lookup j (delete_with_prefix prefix m user).1
      ≡ (if starts_with (prefix ++ user) j then none else lookup j m)
unfolding delete_with_prefix list_keys scan
delete_with_prefix-lookup prefix user m j =
    let keys = keep (starts_with (prefix ++ user)) (entry_keys m) in
    let listed : mem_str j (map (λ k. prefix ++ k) (map (λ k. strip k prefix) keys))
        ≡ starts_with (prefix ++ user) j && mem_str j (entry_keys m) =
      ap (mem_str j) (strip-scan prefix user (entry_keys m))
      ∙ mem_str-keep (starts_with (prefix ++ user)) (entry_keys m) j in
    delete_keys-lookup prefix (map (λ k. strip k prefix) keys) m j
    ∙ ground (arith, listed, lookup-missing m j)
