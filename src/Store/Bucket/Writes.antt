-- ===== src/Store/Bucket/Writes.antt =====
-- The operations of a bucket of crates/wm-host/src/store/mod.rs that may change the store: what they
-- leave alone, and what their errors do.
use mathlib.Core.Option.{none-ne-some}
use wiremirage.Prelude.Text.{prefix_outside, Str, starts_with}
use wiremirage.Prelude.Assoc.{lookup}
use wiremirage.Prelude.{
  false, Option, none, some, List, [], ◌∷◌, ◌++◌, ◌≡◌, refl, ap, ◌∙◌, inl, inr, ok, err,
  Result-cases, Option-cases,
}
use wiremirage.Store.{MemStore, StoreError}
use wiremirage.Store.Memory
use wiremirage.Store.Memory.{Answer}
use wiremirage.Store.Memory.Frame.{
  OnlyAt, FailsClean, insert-OnlyAt, remove-OnlyAt, same-OnlyAt, list_push-frame, list_pop-frame,
  hash_set-frame, hash_delete-frame, set_add-frame, set_remove-frame,
}
use wiremirage.Prelude.Decimal.{ℤ}
use wiremirage.Store.Counters.Sums.{incr-frame, hash_incr-frame}
use wiremirage.Store.Bucket.{
  incr, hash_incr, restored, answer, get, set, delete, set_if_absent, delete_keys,
  delete_with_prefix, list_push, list_pop, hash_set, hash_delete, set_add, set_remove,
}

-- An operation of a bucket that may change the store.
pub data Write : Type 0 where
  set_key add_if_absent push : (key value : Str) → Write
  delete_key pop : (key : Str) → Write
  delete_all : (user_prefix : Str) → Write
  set_field : (key field value : Str) → Write
  delete_field add_member remove_member : (key name : Str) → Write
  increment : (key : Str) → (by : ℤ) → Write
  increment_field : (key field : Str) → (by : ℤ) → Write

unfoldable pub outcome : {A : Type 0} → Answer A → Option StoreError × MemStore
outcome (ok a, m) = (none, m)
outcome (err e, m) = (some e, m)

-- The error, if there is one, and the store after the operation on the bucket with the prefix.
unfoldable pub perform : Str → Write → MemStore → Option StoreError × MemStore
perform prefix (set_key key value) m = outcome (set prefix m key value)
perform prefix (add_if_absent key value) m = outcome (set_if_absent prefix m key value)
perform prefix (push key value) m = outcome (list_push prefix m key value)
perform prefix (delete_key key) m = outcome (delete prefix m key)
perform prefix (pop key) m = outcome (list_pop prefix m key)
perform prefix (delete_all user) m = outcome (delete_with_prefix prefix m user)
perform prefix (set_field key field value) m = outcome (hash_set prefix m key field value)
perform prefix (delete_field key name) m = outcome (hash_delete prefix m key name)
perform prefix (add_member key name) m = outcome (set_add prefix m key name)
perform prefix (remove_member key name) m = outcome (set_remove prefix m key name)
perform prefix (increment key by) m = outcome (incr prefix m key by)
perform prefix (increment_field key field by) m = outcome (hash_incr prefix m key field by)

outcome-store : {A : Type 0} (a : Answer A) → (outcome a).1 ≡ a.1
unfolding outcome
outcome-store (ok a, m) = refl
outcome-store (err e, m) = refl

delete_keys-frame :
    (prefix : Str) (keys : List Str) (m : MemStore) (j : Str)
    → starts_with prefix j ≡ false
    → lookup j (delete_keys prefix keys m) ≡ lookup j m
unfolding delete_keys Memory.delete
delete_keys-frame prefix [] m j h = refl
delete_keys-frame prefix (key ∷ keys) m j h =
    delete_keys-frame prefix keys _ j h
    ∙ remove-OnlyAt (prefix ++ key) m j (prefix_outside prefix key j h)

set_if_absent-OnlyAt :
    (prefix key value : Str) (m : MemStore)
    → OnlyAt (prefix ++ key) m (set_if_absent prefix m key value).1
unfolding set_if_absent Memory.set
set_if_absent-OnlyAt prefix key value m = elim (Result-cases (get prefix m key)) [
  | inl (e, bad) ↦ rw (bad, set_if_absent) (same-OnlyAt (prefix ++ key) m)
  | inr (held, good) ↦ elim (Option-cases held) [
    | inl absent ↦ rw (good, set_if_absent, absent) (insert-OnlyAt (prefix ++ key) _ m)
    | inr (v, present) ↦ rw (good, set_if_absent, present) (same-OnlyAt (prefix ++ key) m)
  ]
]

-- No operation of a bucket changes what the store holds for a key that the bucket's prefix does not
-- start.
pub perform-frame :
    (prefix : Str) (w : Write) (m : MemStore) (j : Str)
    → starts_with prefix j ≡ false
    → lookup j (perform prefix w m).1 ≡ lookup j m
unfolding perform set delete list_push list_pop hash_set incr hash_incr hash_delete set_add
    set_remove answer delete_with_prefix Memory.set Memory.delete
perform-frame prefix (set_key key value) m j h =
    ap (lookup j) (outcome-store (set prefix m key value))
    ∙ insert-OnlyAt (prefix ++ key) _ m j (prefix_outside prefix key j h)
perform-frame prefix (add_if_absent key value) m j h =
    ap (lookup j) (outcome-store (set_if_absent prefix m key value))
    ∙ set_if_absent-OnlyAt prefix key value m j (prefix_outside prefix key j h)
perform-frame prefix (push key value) m j h =
    ap (lookup j) (outcome-store (list_push prefix m key value))
    ∙ (list_push-frame m (prefix ++ key) value).0 j (prefix_outside prefix key j h)
perform-frame prefix (delete_key key) m j h =
    ap (lookup j) (outcome-store (delete prefix m key))
    ∙ remove-OnlyAt (prefix ++ key) m j (prefix_outside prefix key j h)
perform-frame prefix (pop key) m j h =
    ap (lookup j) (outcome-store (list_pop prefix m key))
    ∙ (list_pop-frame m (prefix ++ key)).0 j (prefix_outside prefix key j h)
perform-frame prefix (delete_all user) m j h =
    ap (lookup j) (outcome-store (delete_with_prefix prefix m user))
    ∙ delete_keys-frame prefix _ m j h
perform-frame prefix (set_field key field value) m j h =
    ap (lookup j) (outcome-store (hash_set prefix m key field value))
    ∙ (hash_set-frame m (prefix ++ key) field value).0 j (prefix_outside prefix key j h)
perform-frame prefix (delete_field key name) m j h =
    ap (lookup j) (outcome-store (hash_delete prefix m key name))
    ∙ (hash_delete-frame m (prefix ++ key) name).0 j (prefix_outside prefix key j h)
perform-frame prefix (add_member key name) m j h =
    ap (lookup j) (outcome-store (set_add prefix m key name))
    ∙ (set_add-frame m (prefix ++ key) name).0 j (prefix_outside prefix key j h)
perform-frame prefix (remove_member key name) m j h =
    ap (lookup j) (outcome-store (set_remove prefix m key name))
    ∙ (set_remove-frame m (prefix ++ key) name).0 j (prefix_outside prefix key j h)
perform-frame prefix (increment key by) m j h =
    ap (lookup j) (outcome-store (incr prefix m key by))
    ∙ (incr-frame m (prefix ++ key) by).0 j (prefix_outside prefix key j h)
perform-frame prefix (increment_field key field by) m j h =
    ap (lookup j) (outcome-store (hash_incr prefix m key field by))
    ∙ (hash_incr-frame m (prefix ++ key) field by).0 j (prefix_outside prefix key j h)

answer-FailsClean :
    {A : Type 0} (prefix : Str) (m : MemStore) (a : Answer A)
    → FailsClean m a
    → FailsClean m (answer prefix a)
unfolding answer restored
answer-FailsClean prefix m (ok x, n) clean e h = cc h
answer-FailsClean prefix m (err x, n) clean e h = clean x refl

outcome-failed :
    {A : Type 0} (m : MemStore) (a : Answer A) (e : StoreError)
    → FailsClean m a
    → (outcome a).0 ≡ some e
    → (outcome a).1 ≡ m
unfolding outcome
outcome-failed m (ok x, n) e clean h = absurd (none-ne-some e h)
outcome-failed m (err x, n) e clean h = clean x refl

set_if_absent-FailsClean :
    (prefix key value : Str) (m : MemStore) → FailsClean m (set_if_absent prefix m key value)
unfolding set_if_absent
set_if_absent-FailsClean prefix key value m = elim (Result-cases (get prefix m key)) [
  | inl (e, bad) ↦ rw (bad, set_if_absent) (λ f h. refl)
  | inr (held, good) ↦ elim (Option-cases held) [
    | inl absent ↦ rw (good, set_if_absent, absent) (λ f h. cc h)
    | inr (v, present) ↦ rw (good, set_if_absent, present) (λ f h. refl)
  ]
]

-- An operation that fails leaves the store as it was.
pub perform-failed :
    (prefix : Str) (w : Write) (m : MemStore) (e : StoreError)
    → (perform prefix w m).0 ≡ some e
    → (perform prefix w m).1 ≡ m
unfolding perform list_push list_pop hash_set incr hash_incr hash_delete set_add set_remove set
    delete delete_with_prefix
perform-failed prefix (set_key key value) m e h =
    outcome-failed m (set prefix m key value) e (λ f k. cc k) h
perform-failed prefix (add_if_absent key value) m e h =
    outcome-failed m _ e (set_if_absent-FailsClean prefix key value m) h
perform-failed prefix (delete_key key) m e h =
    outcome-failed m (delete prefix m key) e (λ f k. cc k) h
perform-failed prefix (delete_all user) m e h =
    outcome-failed m (delete_with_prefix prefix m user) e (λ f k. cc k) h
perform-failed prefix (push key value) m e h =
    outcome-failed m (list_push prefix m key value) e
      (answer-FailsClean prefix m _ (list_push-frame m (prefix ++ key) value).1) h
perform-failed prefix (pop key) m e h =
    outcome-failed m (list_pop prefix m key) e
      (answer-FailsClean prefix m _ (list_pop-frame m (prefix ++ key)).1) h
perform-failed prefix (set_field key field value) m e h =
    outcome-failed m (hash_set prefix m key field value) e
      (answer-FailsClean prefix m _ (hash_set-frame m (prefix ++ key) field value).1) h
perform-failed prefix (delete_field key name) m e h =
    outcome-failed m (hash_delete prefix m key name) e
      (answer-FailsClean prefix m _ (hash_delete-frame m (prefix ++ key) name).1) h
perform-failed prefix (add_member key name) m e h =
    outcome-failed m (set_add prefix m key name) e
      (answer-FailsClean prefix m _ (set_add-frame m (prefix ++ key) name).1) h
perform-failed prefix (remove_member key name) m e h =
    outcome-failed m (set_remove prefix m key name) e
      (answer-FailsClean prefix m _ (set_remove-frame m (prefix ++ key) name).1) h
perform-failed prefix (increment key by) m e h =
    outcome-failed m (incr prefix m key by) e
      (answer-FailsClean prefix m _ (incr-frame m (prefix ++ key) by).1) h
perform-failed prefix (increment_field key field by) m e h =
    outcome-failed m (hash_incr prefix m key field by) e
      (answer-FailsClean prefix m _ (hash_incr-frame m (prefix ++ key) field by).1) h
