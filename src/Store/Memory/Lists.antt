-- ===== src/Store/Memory/Lists.antt =====
-- The lists of crates/wm-host/src/store/memory.rs are queues.
use wiremirage.Prelude.Text.{Str}
use wiremirage.Prelude.Assoc.{lookup, insert, lookup-insert_self}
use wiremirage.Prelude.{
  some, Option, List, [], ◌∷◌, ◌++◌, Result, ok, ◌≡◌, refl, ap, ◌∙◌, append_assoc, ap₂,
}
use wiremirage.Store.{MemStore, list, StoreError}
use wiremirage.Store.Memory.{list_value, list_push, list_pop, list_pop_value}

abbrev pub push_all : Str → List Str → MemStore → MemStore
push_all key [] m = m
push_all key (v ∷ vs) m = push_all key vs (list_push m key v).1

-- The answers of one pop after the other, as many as there are elements in the first list.
abbrev pub pop_all : Str → List Str → MemStore → List (Result StoreError (Option Str))
pop_all key [] m = []
pop_all key (_ ∷ vs) m = (list_pop m key).0 ∷ pop_all key vs (list_pop m key).1

abbrev pub popped : List Str → List (Result StoreError (Option Str))
popped [] = []
popped (v ∷ vs) = ok (some v) ∷ popped vs

-- What the store holds for the key counts as the list.
abbrev pub HoldsList : Str → List Str → MemStore → Type 0
HoldsList key q m = list_value key (lookup key m) ≡ ok q

list_push-HoldsList :
    (key v : Str) (q : List Str) (m : MemStore)
    → HoldsList key q m
    → lookup key (list_push m key v).1 ≡ some (list (q ++ v ∷ []))
unfolding list_push
list_push-HoldsList key v q m h = rw (h, list_push) (lookup-insert_self key _ m)

listed-HoldsList :
    (key : Str) (q : List Str) (m : MemStore) → lookup key m ≡ some (list q) → HoldsList key q m
unfolding list_value
listed-HoldsList key q m h = rw h refl

push_all-list :
    (key v : Str) (vs q : List Str) (m : MemStore)
    → HoldsList key q m
    → lookup key (push_all key (v ∷ vs) m) ≡ some (list (q ++ v ∷ vs))
push_all-list key v [] q m h = list_push-HoldsList key v q m h
push_all-list key v (w ∷ vs) q m h =
    let pushed = list_push-HoldsList key v q m h in
    let rest =
      push_all-list key w vs (q ++ v ∷ []) (list_push m key v).1
        (listed-HoldsList key (q ++ v ∷ []) (list_push m key v).1 pushed) in
    rest ∙ ap (λ l. some (list l)) (append_assoc q (v ∷ []) (w ∷ vs))

list_pop-list :
    (key v : Str) (vs : List Str) (m : MemStore)
    → lookup key m ≡ some (list (v ∷ vs))
    → list_pop m key ≡ (ok (some v), insert key (list vs) m)
unfolding list_pop list_pop_value
list_pop-list key v vs m h = rw h refl

pop_all-list :
    (key : Str) (vs : List Str) (m : MemStore)
    → lookup key m ≡ some (list vs)
    → pop_all key vs m ≡ popped vs
pop_all-list key [] m h = refl
pop_all-list key (v ∷ vs) m h =
    let first = list_pop-list key v vs m h in
    let left : lookup key (list_pop m key).1 ≡ some (list vs) =
      ap (λ a. lookup key a.1) first ∙ lookup-insert_self key (list vs) m in
    ap₂ (λ a b. a ∷ b) (ap (λ a. a.0) first) (pop_all-list key vs (list_pop m key).1 left)

-- Values pushed on a key that has no list, or an empty one, are popped in the order in which they
-- were pushed.
pub push_all-pop_all :
    (key v : Str) (vs : List Str) (m : MemStore)
    → HoldsList key [] m
    → pop_all key (v ∷ vs) (push_all key (v ∷ vs) m) ≡ popped (v ∷ vs)
push_all-pop_all key v vs m h = pop_all-list key (v ∷ vs) _ (push_all-list key v vs [] m h)
