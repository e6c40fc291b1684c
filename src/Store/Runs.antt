-- ===== src/Store/Runs.antt =====
-- crates/wm-host/src/store/: what runs of writes leave behind, under the keys written and the others.
use wiremirage.Prelude.Text.{Str, str_eq, str_eq_comm, str_eq→eq, mem_str}
use wiremirage.Prelude.Assoc.{lookup-remove_self, lookup-remove_other}
use wiremirage.Prelude.Assoc.{
  Assoc, lookup, insert, remove, lookup-insert_self, lookup-insert_other,
}
use wiremirage.Prelude.{
  true, sym, subst, Bool-cases, inl, inr, if◌then◌else◌, ◌∷◌, List, false, Option, none, some, [],
  ok, ok-injective, ◌≡◌, refl, ap, ◌∙◌,
}
use wiremirage.Store.{MemStore, MemValue, hash, bytes, member_set}
use wiremirage.Store.Memory
use wiremirage.Store.Memory.{get_value, hash_value, hash_delete_value, set_value, with_member}
use wiremirage.Store.Memory.Frame.{OnlyAt, insert-OnlyAt, same-OnlyAt}
use wiremirage.Store.Bucket
use wiremirage.Store.Action.{
  Action, StorageError, ◌>>◌, ◌>>=◌, hash_set, hash_delete, require_some, delete_fields, for_each,
  set, set_if_absent, set_add,
}

-- The key has the fields, be it as a missing key without any.
abbrev pub Holds : Str → MemStore → Assoc Str → Type 0
Holds key m h = Memory.hash_get_all m key ≡ ok h

-- An action on one hash: where the key has fields, the action ends well, changes them so, and leaves
-- the other keys alone.
pub record HasRun {E : Type 0} (key : Str) (f : Assoc Str → Assoc Str) (a : Action E (Unit {0}))
    (m : MemStore) (h : Assoc Str) : Type 0 where
  pub result : MemStore
  pub run : a m ≡ (ok tt, result)
  pub holds : Holds key result (f h)
  pub frame : OnlyAt key m result

abbrev pub Runs : {E : Type 0} → Str → (Assoc Str → Assoc Str) → Action E (Unit {0}) → Type 0
Runs key f a = (m : MemStore) (h : Assoc Str) → Holds key m h → HasRun key f a m h

pub then-Runs :
    {E : Type 0} (key : Str) {f g : Assoc Str → Assoc Str} {a b : Action E (Unit {0})}
    → Runs key f a
    → Runs key g b
    → Runs key (λ h. g (f h)) (a >> b)
then-Runs key {f} {g} {a} {b} ra rb m h holds =
    let first = ra m h holds in
    let second = rb first.result (f h) first.holds in
    record {
      result = second.result;
      run = rw (first.run) second.run;
      holds = second.holds;
      frame = λ j other. second.frame j other ∙ first.frame j other;
    }

pub inserted-Holds :
    (key : Str) (h : Assoc Str) (m : MemStore) → Holds key (insert key (hash h) m) h
unfolding Memory.hash_get_all hash_value
inserted-Holds key h m = rw (lookup-insert_self key (hash h) m) refl

pub hash_set-Runs :
    {E : Type 0} ⦃from : StorageError E⦄ (key name value : Str)
    → Runs {E = E} key (insert name value) (hash_set key name value)
unfolding Memory.hash_get_all Memory.hash_set Bucket.hash_set Bucket.answer Bucket.restored
hash_set-Runs key name value m h holds = record {
  result = insert key (hash (insert name value h)) m;
  run = rw (holds, Memory.hash_set) refl;
  holds = inserted-Holds key (insert name value h) m;
  frame = insert-OnlyAt key (hash (insert name value h)) m;
}

deleted-HasRun :
    {E : Type 0} ⦃from : StorageError E⦄ (key name : Str) (m : MemStore) (h : Assoc Str)
    (o : Option MemValue)
    → lookup key m ≡ o
    → hash_value key o ≡ ok h
    → HasRun {E = E} key (remove name) (hash_delete key name) m h
unfolding Memory.hash_get_all hash_value Memory.hash_delete hash_delete_value Bucket.hash_delete
    Bucket.answer Bucket.restored remove
deleted-HasRun key name m h none e holds = record {
  result = m;
  run = rw (e, Memory.hash_delete, hash_delete_value) refl;
  holds = ap (hash_value key) e ∙ ap (λ g. ok (remove name g)) (ok-injective [] h holds);
  frame = same-OnlyAt key m;
}
deleted-HasRun key name m h (some v) e holds = record {
  result = insert key (hash (remove name h)) m;
  run = rw (e, Memory.hash_delete, hash_delete_value, holds) refl;
  holds = inserted-Holds key (remove name h) m;
  frame = insert-OnlyAt key (hash (remove name h)) m;
}

pub hash_delete-Runs :
    {E : Type 0} ⦃from : StorageError E⦄ (key name : Str)
    → Runs {E = E} key (remove name) (hash_delete key name)
unfolding Memory.hash_get_all
hash_delete-Runs key name m h holds = deleted-HasRun key name m h (lookup key m) refl holds

-- `?` on a value that is there.
pub some-Runs :
    {E A : Type 0} (key : Str) {f : Assoc Str → Assoc Str} (e : E) (o : Option A) (a : A)
    (k : A → Action E (Unit {0}))
    → o ≡ some a
    → Runs key f (k a)
    → Runs key f (require_some e o >>= k)
some-Runs key e o a k found runs m h holds = rw found (runs m h holds)

pub set-run :
    {E : Type 0} (from : StorageError E) (key value : Str) (m : MemStore)
    → set ⦃from = from⦄ key value m ≡ (ok tt, insert key (bytes value) m)
unfolding Bucket.set Memory.set
set-run from key value m = refl

pub set_add-run :
    {E : Type 0} (from : StorageError E) (key member : Str) (m : MemStore) {s : _}
    → Memory.set_members m key ≡ ok s
    → set_add ⦃from = from⦄ key member m ≡ (ok tt, insert key (member_set (with_member member s)) m)
unfolding Memory.set_members Memory.set_add Bucket.set_add Bucket.answer Bucket.restored
set_add-run from key member m holds = rw (holds, Memory.set_add) refl

-- The members of a set after a write under another key.
pub members_kept :
    (k j : Str) (v : MemValue) (m : MemStore)
    → str_eq k j ≡ false
    → Memory.set_members (insert k v m) j ≡ Memory.set_members m j
unfolding Memory.set_members
members_kept k j v m other = ap (set_value j) (lookup-insert_other k j v m other)

pub members_framed :
    (k j : Str) (m n : MemStore)
    → OnlyAt k m n
    → str_eq j k ≡ false
    → Memory.set_members n j ≡ Memory.set_members m j
unfolding Memory.set_members
members_framed k j m n frame other = ap (set_value j) (frame j (str_eq_comm k j ∙ other))

pub fields_kept :
    (k j : Str) (v : MemValue) (m : MemStore)
    → str_eq k j ≡ false
    → Memory.hash_get_all (insert k v m) j ≡ Memory.hash_get_all m j
unfolding Memory.hash_get_all
fields_kept k j v m other = ap (hash_value j) (lookup-insert_other k j v m other)

-- A lookup from the side of the key that is read.
pub lookup-insert_apart :
    (j k : Str) (v : MemValue) (m : MemStore)
    → str_eq j k ≡ false
    → lookup j (insert k v m) ≡ lookup j m
lookup-insert_apart j k v m other = lookup-insert_other k j v m (str_eq_comm k j ∙ other)

pub fields_framed :
    (k j : Str) (m n : MemStore)
    → OnlyAt k m n
    → str_eq k j ≡ false
    → Memory.hash_get_all n j ≡ Memory.hash_get_all m j
unfolding Memory.hash_get_all
fields_framed k j m n frame other = ap (hash_value j) (frame j other)

pub members_inserted :
    (k : Str) (s : List Str) (m : MemStore)
    → Memory.set_members (insert k (member_set s) m) k ≡ ok s
unfolding Memory.set_members set_value
members_inserted k s m = ap (set_value k) (lookup-insert_self k (member_set s) m)

pub members_apart :
    (j k : Str) (v : MemValue) (m : MemStore)
    → str_eq j k ≡ false
    → Memory.set_members (insert k v m) j ≡ Memory.set_members m j
members_apart j k v m other = members_kept k j v m (str_eq_comm k j ∙ other)

-- the fields without the names
unfoldable pub removed : List Str → Assoc Str → Assoc Str
removed [] h = h
removed (name ∷ names) h = removed names (remove name h)

pub delete_fields-Runs :
    {E : Type 0} (from : StorageError E) (key : Str) (names : List Str)
    → Runs {E = E} key (removed names) (delete_fields ⦃from = from⦄ key names)
unfolding delete_fields for_each removed
delete_fields-Runs from key [] m h holds = record {
  result = m;
  run = refl;
  holds = holds;
  frame = same-OnlyAt key m;
}
delete_fields-Runs from key (name ∷ names) m h holds =
    then-Runs key (hash_delete-Runs ⦃from = from⦄ key name) (delete_fields-Runs from key names) m h
      holds

lookup-removed-none :
    (j : Str) (names : List Str) (h : Assoc Str)
    → lookup j h ≡ none
    → lookup j (removed names h) ≡ none
unfolding removed
lookup-removed-none j [] h e = e
lookup-removed-none j (name ∷ names) h e = elim (Bool-cases (str_eq name j)) [
  | inl this ↦ lookup-removed-none j names (remove name h) (
      subst (λ k. lookup k (remove name h) ≡ none) (str_eq→eq name j this)
        (lookup-remove_self name h))
  | inr other ↦ lookup-removed-none j names (remove name h) (lookup-remove_other name j h other ∙ e)
]

pub lookup-removed :
    (j : Str) (names : List Str) (h : Assoc Str)
    → lookup j (removed names h) ≡ (if mem_str j names then none else lookup j h)
unfolding removed mem_str
lookup-removed j [] h = refl
lookup-removed j (name ∷ names) h = elim (Bool-cases (str_eq j name)) [
  | inl this ↦ rw this (
      lookup-removed-none j names (remove name h) (
        subst (λ k. lookup k (remove name h) ≡ none) (sym (str_eq→eq j name this))
          (lookup-remove_self name h)))
  | inr other ↦ rw other (
      lookup-removed j names (remove name h)
      ∙ ap (λ o. if mem_str j names then none else o)
          (lookup-remove_other name j h (str_eq_comm name j ∙ other)))
]

-- A key that is free is claimed.
pub set_if_absent-run :
    {E : Type 0} (from : StorageError E) (key value : Str) (m : MemStore)
    → lookup key m ≡ none
    → set_if_absent ⦃from = from⦄ key value m ≡ (ok true, insert key (bytes value) m)
unfolding Bucket.set_if_absent Bucket.get Bucket.answer Bucket.restored Memory.get get_value
    Memory.set
set_if_absent-run from key value m free = rw (ap (get_value key) free, Bucket.set_if_absent) refl
