-- ===== src/Prelude/Results.antt =====
-- `Result` and `Option` with their binds, for the code's `?` and early returns.
use mathlib.Core.Path.{◌≡◌, refl}
use mathlib.Core.Logic.{◌⊎◌, inl, inr}
use mathlib.Core.Bool.{Bool, true, false}
use mathlib.Core.Option.{Option, none, some}

pub data Result {ℓ κ} (E : Type ℓ) (A : Type κ) : Type (ℓ ⊔ κ) where
  ok : A → Result E A
  err : E → Result E A

infixl 5 ◌>>=◌
abbrev pub ◌>>=◌ {ε ℓ κ} :
    {E : Type ε} {A : Type ℓ} {B : Type κ} → Result E A → (A → Result E B) → Result E B
ok a >>= f = f a
err e >>= f = err e

infixl 5 ◌>>◌
abbrev pub ◌>>◌ {ε κ} : {E : Type ε} {B : Type κ} → Result E (Unit {0}) → Result E B → Result E B
m >> k = m >>= λ _. k

-- `if !test { return Err(e) }`
abbrev pub require {ε} : {E : Type ε} → Bool → E → Result E (Unit {0})
require true e = ok tt
require false e = err e

pub bind-eq-ok {ε ℓ κ} :
    {E : Type ε} {A : Type ℓ} {B : Type κ} (m : Result E A) (f : A → Result E B) {b : B}
    → (m >>= f) ≡ ok b
    → (a : A) × (m ≡ ok a) × (f a ≡ ok b)
bind-eq-ok (ok a) f h = (a, refl, h)
bind-eq-ok (err e) f h = cc

abbrev pub bind_option {ℓ κ} : {A : Type ℓ} {B : Type κ} → Option A → (A → Option B) → Option B
bind_option none f = none
bind_option (some a) f = f a

pub bind_option-eq-some {ℓ κ} :
    {A : Type ℓ} {B : Type κ} (m : Option A) (f : A → Option B) {b : B}
    → bind_option m f ≡ some b
    → (a : A) × (m ≡ some a) × (f a ≡ some b)
bind_option-eq-some none f h = cc
bind_option-eq-some (some a) f h = (a, refl, h)

pub require-eq-ok {ε κ} :
    {E : Type ε} {B : Type κ} (b : Bool) (e : E) (k : Result E B) {r : B}
    → (require b e >> k) ≡ ok r
    → (b ≡ true) × (k ≡ ok r)
require-eq-ok true e k h = (refl, h)
require-eq-ok false e k h = cc

pub Result-cases {ε κ} :
    {E : Type ε} {B : Type κ} (r : Result E B) → ((e : E) × (r ≡ err e)) ⊎ ((b : B) × (r ≡ ok b))
Result-cases (ok b) = inr (b, refl)
Result-cases (err e) = inl (e, refl)

pub err-ne-ok {ε κ ℓ} : {E : Type ε} {A : Type κ} {P : Type ℓ} (e : E) (a : A) → err e ≡ ok a → P
err-ne-ok e a h = cc h

pub ok-injective {ε κ} :
    {E : Type ε} {A : Type κ} (a b : A) → ◌≡◌ {A = Result E A} (ok a) (ok b) → a ≡ b
ok-injective a b h = cc h
