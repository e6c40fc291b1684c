-- ===== src/Store/Reads.antt =====
-- crates/wm-host/src/store/: operations that only read, and what an operation that ended well did.
use wiremirage.Prelude.{
  Option, none, some, List, [], ◌∷◌, Bool, true, false, if◌then◌else◌, Result, ok, err, ◌≡◌, refl,
  sym, ap, ◌∙◌, ap₂, inl, inr, All, Result-cases,
}
use wiremirage.Store.{MemStore}
use wiremirage.Store.Action.{Action, after, ◌>>=◌, return, checked, require_some, collect}

abbrev pub IsReading : {E A : Type 0} → Action E A → Type 0
IsReading a = (m : MemStore) → (a m).1 ≡ m

after-IsReading :
    {E A B : Type 0} (f : A → Action E B) (r : Result E A × MemStore) (m : MemStore)
    → r.1 ≡ m
    → ((x : A) → IsReading (f x))
    → (after f r).1 ≡ m
after-IsReading f (ok x, s) m e reads = reads x s ∙ e
after-IsReading f (err x, s) m e reads = e

pub bind-IsReading :
    {E A B : Type 0} (a : Action E A) (f : A → Action E B)
    → IsReading a
    → ((x : A) → IsReading (f x))
    → IsReading (a >>= f)
bind-IsReading a f reads then_reads m = after-IsReading f (a m) m (reads m) then_reads

pub if-IsReading :
    {E A : Type 0} (b : Bool) (a c : Action E A)
    → IsReading a
    → IsReading c
    → IsReading (if b then a else c)
if-IsReading true a c ra rc = ra
if-IsReading false a c ra rc = rc

pub require_some-IsReading : {E A : Type 0} (e : E) (o : Option A) → IsReading (require_some e o)
require_some-IsReading e none m = refl
require_some-IsReading e (some a) m = refl

pub collect-IsReading :
    {E A B : Type 0} (f : A → Action E B) (xs : List A)
    → ((x : A) → IsReading (f x))
    → IsReading (collect f xs)
unfolding collect
collect-IsReading f [] reads m = refl
collect-IsReading f (x ∷ xs) reads m =
    bind-IsReading (f x) _ (reads x)
      (λ y. bind-IsReading (collect f xs) _ (collect-IsReading f xs reads) (λ ys n. refl)) m

after-eq-ok :
    {E A B : Type 0} (f : A → Action E B) (r : Result E A × MemStore) {b : B} {s : MemStore}
    → after f r ≡ (ok b, s)
    → (a : A) × (t : MemStore) × (r ≡ (ok a, t)) × (f a t ≡ (ok b, s))
after-eq-ok f (ok a, t) h = (a, t, refl, h)
after-eq-ok f (err e, t) h = cc (ap (λ p. p.0) h)

-- Each of two steps of an operation that ended well ended well.
pub bind-eq-ok {ℓ} :
    {E A B : Type 0} (P : Type ℓ) (a : Action E A) (f : A → Action E B) (m : MemStore) {b : B}
    {s : MemStore}
    → (a >>= f) m ≡ (ok b, s)
    → ((x : A) (t : MemStore) → a m ≡ (ok x, t) → f x t ≡ (ok b, s) → P)
    → P
bind-eq-ok P a f m h k = let (x, t, e, rest) = after-eq-ok f (a m) h in k x t e rest

-- A step that only reads left the store as it was.
pub reading-eq-ok {ℓ} :
    {E A B : Type 0} (P : Type ℓ) (a : Action E A) (f : A → Action E B) (m : MemStore) {b : B}
    {s : MemStore}
    → IsReading a
    → (a >>= f) m ≡ (ok b, s)
    → ((x : A) → a m ≡ (ok x, m) → f x m ≡ (ok b, s) → P)
    → P
reading-eq-ok P a f m reads h k = bind-eq-ok P a f m h λ x t e rest.
    let same : t ≡ m = sym (ap (λ p. p.1) e) ∙ reads m in
    k x (e ∙ ap (λ n. (ok x, n)) same) (sym (ap (f x) same) ∙ rest)

-- `checked` hands on its result.
pub checked-eq-ok {ℓ} :
    {E A B : Type 0} (P : Type ℓ) (r : Result E A) (f : A → Action E B) (m : MemStore) {b : B}
    {s : MemStore}
    → (checked r >>= f) m ≡ (ok b, s)
    → ((x : A) → r ≡ ok x → f x m ≡ (ok b, s) → P)
    → P
checked-eq-ok P r f m h k =
    reading-eq-ok P (checked r) f m (λ n. refl) h λ x e rest. k x (ap (λ p. p.0) e) rest

-- The answer of a loop depends on the answers of its rounds.
mapped : {E A B : Type 0} → (A → B) → Result E A → Result E B
mapped h (ok a) = ok (h a)
mapped h (err e) = err e

after-return :
    {E A B : Type 0} (h : A → B) (r : Result E A × MemStore)
    → (after (λ a. return (h a)) r).0 ≡ mapped h r.0
unfolding mapped
after-return h (ok a, s) = refl
after-return h (err e, s) = refl

pub reading-run :
    {E A : Type 0} (a : Action E A) (m : MemStore) (r : Result E A)
    → IsReading a
    → (a m).0 ≡ r
    → a m ≡ (r, m)
reading-run a m r reads e = ap₂ (λ x y. (x, y)) e (reads m)

pub collect-same :
    {E A B : Type 0} (f : A → Action E B) (m n : MemStore) (xs : List A)
    → ((x : A) → IsReading (f x))
    → All (λ x. (f x n).0 ≡ (f x m).0) xs
    → (collect f xs n).0 ≡ (collect f xs m).0
unfolding collect
collect-same f m n [] reads same = refl
collect-same f m n (x ∷ xs) reads (e, same) = elim (Result-cases (f x m).0) [
  | inl (bad, h) ↦
      rw
        (reading-run (f x) n (err bad) (reads x) (e ∙ h), reading-run (f x) m (err bad) (reads x) h)
        refl
  | inr (y, h) ↦
      rw (reading-run (f x) n (ok y) (reads x) (e ∙ h), reading-run (f x) m (ok y) (reads x) h)
        (after-return (λ ys. y ∷ ys) (collect f xs n)
          ∙ ap (mapped (λ ys. y ∷ ys)) (collect-same f m n xs reads same)
          ∙ sym (after-return (λ ys. y ∷ ys) (collect f xs m)))
]

-- `?` on a missing value ends an operation with an error.
pub some-eq-ok :
    {E A B : Type 0} (e : E) (o : Option A) (f : A → Action E B) (m : MemStore) {b : B}
    {s : MemStore}
    → (require_some e o >>= f) m ≡ (ok b, s)
    → (a : A) × (o ≡ some a) × (f a m ≡ (ok b, s))
some-eq-ok e none f m h = cc (ap (λ p. p.0) h)
some-eq-ok e (some a) f m h = (a, refl, h)
