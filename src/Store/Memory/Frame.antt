-- ===== src/Store/Memory/Frame.antt =====
-- What the operations of crates/wm-host/src/store/memory.rs leave alone: every other key, and the
-- whole store when they answer with an error.
use wiremirage.Prelude.Text.{Str, str_eq}
use wiremirage.Prelude.Assoc.{lookup, insert, remove, lookup-insert, lookup-remove}
use wiremirage.Prelude.{
  false, Option, none, some, [], ◌∷◌, err, Result-cases, ◌≡◌, refl, ◌∙◌, inl, inr,
}
use wiremirage.Store.{MemStore, MemValue, bytes, list, hash, member_set, StoreError}
use wiremirage.Store.Memory.{
  Answer, mismatch, list_value, list_push, list_pop_value, list_pop, hash_value, hash_set,
  hash_delete_value, hash_delete, set_value, set_add, set_remove_value, set_remove,
}

-- The second store differs from the first under the key only.
abbrev pub OnlyAt : Str → MemStore → MemStore → Type 0
OnlyAt key m n = (j : Str) → str_eq key j ≡ false → lookup j n ≡ lookup j m

pub insert-OnlyAt : (key : Str) (v : MemValue) (m : MemStore) → OnlyAt key m (insert key v m)
insert-OnlyAt key v m j other = lookup-insert key j v m ∙ rw other refl

pub remove-OnlyAt : (key : Str) (m : MemStore) → OnlyAt key m (remove key m)
remove-OnlyAt key m j other = lookup-remove key j m ∙ rw other refl

pub same-OnlyAt : (key : Str) (m : MemStore) → OnlyAt key m m
same-OnlyAt key m j other = refl

-- An error leaves the store as it was.
abbrev pub FailsClean : {A : Type 0} → MemStore → Answer A → Type 0
FailsClean m a = (e : StoreError) → a.0 ≡ err e → a.1 ≡ m

module _ (m : MemStore) (key : Str) where
  pub list_push-frame :
      (v : Str) → OnlyAt key m (list_push m key v).1 × FailsClean m (list_push m key v)
  unfolding list_push
  list_push-frame v = elim (Result-cases (list_value key (lookup key m))) [
    | inl (e, bad) ↦ rw (bad, list_push) (same-OnlyAt key m, λ f h. refl)
    | inr (q, good) ↦ rw (good, list_push) (insert-OnlyAt key _ m, λ f h. cc h)
  ]

  list_pop_value-frame :
      (o : Option MemValue)
      → OnlyAt key m (list_pop_value key o m).1 × FailsClean m (list_pop_value key o m)
  unfolding list_pop_value mismatch
  list_pop_value-frame none = (same-OnlyAt key m, λ f h. refl)
  list_pop_value-frame (some (list [])) = (same-OnlyAt key m, λ f h. refl)
  list_pop_value-frame (some (list (v ∷ q))) = (insert-OnlyAt key (list q) m, λ f h. cc h)
  list_pop_value-frame (some (bytes b)) = (same-OnlyAt key m, λ f h. refl)
  list_pop_value-frame (some (hash h)) = (same-OnlyAt key m, λ f h. refl)
  list_pop_value-frame (some (member_set s)) = (same-OnlyAt key m, λ f h. refl)

  pub list_pop-frame : OnlyAt key m (list_pop m key).1 × FailsClean m (list_pop m key)
  unfolding list_pop
  list_pop-frame = list_pop_value-frame (lookup key m)

  pub hash_set-frame :
      (field v : Str)
      → OnlyAt key m (hash_set m key field v).1 × FailsClean m (hash_set m key field v)
  unfolding hash_set
  hash_set-frame field v = elim (Result-cases (hash_value key (lookup key m))) [
    | inl (e, bad) ↦ rw (bad, hash_set) (same-OnlyAt key m, λ f h. refl)
    | inr (h, good) ↦ rw (good, hash_set) (insert-OnlyAt key _ m, λ f h. cc h)
  ]

  hash_delete_value-frame :
      (field : Str) (o : Option MemValue)
      → OnlyAt key m (hash_delete_value key field o m).1
        × FailsClean m (hash_delete_value key field o m)
  unfolding hash_delete_value
  hash_delete_value-frame field none = (same-OnlyAt key m, λ f h. refl)
  hash_delete_value-frame field (some x) = elim (Result-cases (hash_value key (some x))) [
    | inl (e, bad) ↦ rw (bad, hash_delete_value) (same-OnlyAt key m, λ f h. refl)
    | inr (h, good) ↦ rw (good, hash_delete_value) (insert-OnlyAt key _ m, λ f h. cc h)
  ]

  pub hash_delete-frame :
      (field : Str)
      → OnlyAt key m (hash_delete m key field).1 × FailsClean m (hash_delete m key field)
  unfolding hash_delete
  hash_delete-frame field = hash_delete_value-frame field (lookup key m)

  pub set_add-frame : (x : Str) → OnlyAt key m (set_add m key x).1 × FailsClean m (set_add m key x)
  unfolding set_add
  set_add-frame x = elim (Result-cases (set_value key (lookup key m))) [
    | inl (e, bad) ↦ rw (bad, set_add) (same-OnlyAt key m, λ f h. refl)
    | inr (h, good) ↦ rw (good, set_add) (insert-OnlyAt key _ m, λ f h. cc h)
  ]

  set_remove_value-frame :
      (x : Str) (o : Option MemValue)
      → OnlyAt key m (set_remove_value key x o m).1 × FailsClean m (set_remove_value key x o m)
  unfolding set_remove_value
  set_remove_value-frame x none = (same-OnlyAt key m, λ f h. refl)
  set_remove_value-frame x (some v) = elim (Result-cases (set_value key (some v))) [
    | inl (e, bad) ↦ rw (bad, set_remove_value) (same-OnlyAt key m, λ f h. refl)
    | inr (h, good) ↦ rw (good, set_remove_value) (insert-OnlyAt key _ m, λ f h. cc h)
  ]

  pub set_remove-frame :
      (x : Str) → OnlyAt key m (set_remove m key x).1 × FailsClean m (set_remove m key x)
  unfolding set_remove
  set_remove-frame x = set_remove_value-frame x (lookup key m)
