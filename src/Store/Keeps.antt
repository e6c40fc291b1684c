-- ===== src/Store/Keeps.antt =====
-- crates/wm-host/src/store/: which keys a run of operations leaves alone.
use wiremirage.Prelude.Text.{Str, str_eq, starts_with}
use wiremirage.Prelude.Assoc.{Assoc, lookup, lookup-remove_other}
use wiremirage.Prelude.{
  Bool, true, if◌then◌else◌, Option, none, some, false, List, [], ◌∷◌, Result, ok, err, ◌≡◌, refl,
  ap, ◌∙◌,
}
use wiremirage.Store.{MemStore}
use wiremirage.Store.Memory
use wiremirage.Store.Memory.{get_value}
use wiremirage.Store.Memory.Frame.{
  set_remove-frame, hash_delete-frame, hash_set-frame, set_add-frame,
}
use wiremirage.Store.Bucket
use wiremirage.Store.Bucket.Deletion.{delete_with_prefix-lookup}
use wiremirage.Store.Action.{
  Action, StorageError, after, ◌>>=◌, for_each, delete_with_prefix, hash_delete, set_remove, delete,
  hash_set, set_add, require_some,
}
use wiremirage.Store.Reads.{IsReading}
use wiremirage.Store.Runs.{Holds, Runs}

-- The action leaves what the key has, be it that it ends with an error.
abbrev pub Keeps : {E A : Type 0} → Str → Action E A → Type 0
Keeps j a = (m : MemStore) → lookup j (a m).1 ≡ lookup j m

pub after-Keeps :
    {E A B : Type 0} (j : Str) (f : A → Action E B) (r : Result E A × MemStore)
    → ((x : A) → Keeps j (f x))
    → lookup j (after f r).1 ≡ lookup j r.1
after-Keeps j f (ok x, m) keeps = keeps x m
after-Keeps j f (err e, m) keeps = refl

pub bind-Keeps :
    {E A B : Type 0} (j : Str) (a : Action E A) (f : A → Action E B)
    → Keeps j a
    → ((x : A) → Keeps j (f x))
    → Keeps j (a >>= f)
bind-Keeps j a f first rest m = after-Keeps j f (a m) rest ∙ first m

pub for_each-Keeps :
    {E A : Type 0} (j : Str) (f : A → Action E (Unit {0})) (xs : List A)
    → ((x : A) → Keeps j (f x))
    → Keeps j (for_each f xs)
unfolding for_each
for_each-Keeps j f [] keeps m = refl
for_each-Keeps j f (x ∷ xs) keeps m =
    bind-Keeps j (f x) _ (keeps x) (λ u. for_each-Keeps j f xs keeps) m

pub set_remove-Keeps :
    {E : Type 0} (from : StorageError E) (key member j : Str)
    → str_eq key j ≡ false
    → Keeps {E = E} j (set_remove ⦃from = from⦄ key member)
unfolding Bucket.set_remove Bucket.answer
set_remove-Keeps from key member j apart m = (set_remove-frame m key member).0 j apart

pub hash_delete-Keeps :
    {E : Type 0} (from : StorageError E) (key field j : Str)
    → str_eq key j ≡ false
    → Keeps {E = E} j (hash_delete ⦃from = from⦄ key field)
unfolding Bucket.hash_delete Bucket.answer
hash_delete-Keeps from key field j apart m = (hash_delete-frame m key field).0 j apart

pub hash_set-Keeps :
    {E : Type 0} (from : StorageError E) (key field value j : Str)
    → str_eq key j ≡ false
    → Keeps {E = E} j (hash_set ⦃from = from⦄ key field value)
unfolding Bucket.hash_set Bucket.answer
hash_set-Keeps from key field value j apart m = (hash_set-frame m key field value).0 j apart

pub set_add-Keeps :
    {E : Type 0} (from : StorageError E) (key member j : Str)
    → str_eq key j ≡ false
    → Keeps {E = E} j (set_add ⦃from = from⦄ key member)
unfolding Bucket.set_add Bucket.answer
set_add-Keeps from key member j apart m = (set_add-frame m key member).0 j apart

pub require_some-Keeps :
    {E A : Type 0} (j : Str) (e : E) (o : Option A) → Keeps j (require_some e o)
require_some-Keeps j e none m = refl
require_some-Keeps j e (some a) m = refl

pub if-Keeps :
    {E A : Type 0} (j : Str) (b : Bool) (a c : Action E A)
    → Keeps j a
    → Keeps j c
    → Keeps j (if b then a else c)
if-Keeps j true a c first other = first
if-Keeps j false a c first other = other

pub delete_with_prefix-Keeps :
    {E : Type 0} (from : StorageError E) (prefix j : Str)
    → starts_with prefix j ≡ false
    → Keeps {E = E} j (delete_with_prefix ⦃from = from⦄ prefix)
delete_with_prefix-Keeps from prefix j outside m =
    delete_with_prefix-lookup [] prefix m j ∙ rw outside refl

pub delete-Keeps :
    {E : Type 0} (from : StorageError E) (key j : Str)
    → str_eq key j ≡ false
    → Keeps {E = E} j (delete ⦃from = from⦄ key)
unfolding Bucket.delete Memory.delete
delete-Keeps from key j apart m = lookup-remove_other key j m apart

-- Where the key has fields and the action ends well, the key has the changed fields afterwards.
abbrev pub Leaves : {E A : Type 0} → Str → (Assoc Str → Assoc Str) → Action E A → Type 0
Leaves {E} {A} key f a =
    (m : MemStore) (h : Assoc Str) (x : A)
    → Holds key m h
    → (a m).0 ≡ ok x
    → Holds key (a m).1 (f h)

after-Leaves :
    {E A B : Type 0} (key : Str) {f : Assoc Str → Assoc Str} (k : A → Action E B)
    (r : Result E A × MemStore) (h : Assoc Str) (x : B)
    → ((y : A) → Leaves key f (k y))
    → Holds key r.1 h
    → (after k r).0 ≡ ok x
    → Holds key (after k r).1 (f h)
after-Leaves key k (ok y, m) h x leaves holds done = leaves y m h x holds done
after-Leaves key k (err e, m) h x leaves holds done = cc done

pub bind-Leaves :
    {E A B : Type 0} (key : Str) {f : Assoc Str → Assoc Str} (a : Action E A) (k : A → Action E B)
    → Keeps key a
    → ((y : A) → Leaves key f (k y))
    → Leaves key f (a >>= k)
unfolding Memory.hash_get_all
bind-Leaves key a k keeps leaves m h x holds done =
    after-Leaves key k (a m) h x leaves (ap (Memory.hash_value key) (keeps m) ∙ holds) done

pub Runs-Leaves :
    {E : Type 0} (key : Str) (f : Assoc Str → Assoc Str) (a : Action E (Unit {0}))
    → Runs key f a
    → Leaves key f a
Runs-Leaves key f a runs m h x holds done = let ran = runs m h holds in rw (ran.run) (ran.holds)

pub reading-Keeps : {E A : Type 0} (j : Str) (a : Action E A) → IsReading a → Keeps j a
reading-Keeps j a reads m = ap (lookup j) (reads m)
