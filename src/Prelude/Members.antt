-- ===== src/Prelude/Members.antt =====
-- Members of lists, against the Boolean searches.
use mathlib.Core.Path.{◌≡◌, refl, sym, subst, ap, ◌∙◌}
use mathlib.Core.Logic.{inl, inr, ◌⊎◌}
use mathlib.Core.Bool.{Bool, true}
use mathlib.Core.List.{List, [], ◌∷◌, ◌++◌, Memᴰ, map}
use native.Mathlib.Omega.{arith}
use wiremirage.Prelude.Tests.{Bool-cases}
use wiremirage.Prelude.Lists.{any, All, keep}

module _ {ℓ} {A : Type ℓ} where
  pub any→Memᴰ : (p : A → Bool) (xs : List A) → any p xs ≡ true → (x : A) × Memᴰ x xs × (p x ≡ true)
  any→Memᴰ p [] h = cc
  any→Memᴰ p (x ∷ xs) h = elim (Bool-cases (p x)) [
    | inl px ↦ (x, Memᴰ.head refl, px)
    | inr npx ↦ let (y, m, py) = any→Memᴰ p xs (ground arith) in (y, Memᴰ.tail m, py)
  ]

  pub Memᴰ→any : (p : A → Bool) {x : A} {xs : List A} → Memᴰ x xs → p x ≡ true → any p xs ≡ true
  Memᴰ→any p (Memᴰ.head e) px = ground (arith, ap p e)
  Memᴰ→any p (Memᴰ.tail m) px = ground (arith, Memᴰ→any p m px)

  pub All-Memᴰ {κ} : (P : A → Type κ) {x : A} {xs : List A} → Memᴰ x xs → All P xs → P x
  All-Memᴰ P (Memᴰ.head e) h = subst P (sym e) h.0
  All-Memᴰ P (Memᴰ.tail m) h = All-Memᴰ P m h.1

  -- A member that the test keeps stays, and what is kept was a member that passes the test.
  pub Memᴰ-keep : (p : A → Bool) {x : A} {xs : List A} → Memᴰ x xs → p x ≡ true → Memᴰ x (keep p xs)
  Memᴰ-keep p (Memᴰ.head {xs} e) px = rw (ap p (sym e) ∙ px, keep) (Memᴰ.head e)
  Memᴰ-keep p (Memᴰ.tail {x = y} m) px = elim (Bool-cases (p y)) [
    | inl py ↦ rw (py, keep) (Memᴰ.tail (Memᴰ-keep p m px))
    | inr npy ↦ rw (npy, keep) (Memᴰ-keep p m px)
  ]

  cons_case :
      (p : A → Bool) {x y : A} {xs : List A}
      → p y ≡ true
      → (Memᴰ x (keep p xs) → Memᴰ x xs × (p x ≡ true))
      → Memᴰ x (y ∷ keep p xs)
      → Memᴰ x (y ∷ xs) × (p x ≡ true)
  cons_case p py ih (Memᴰ.head e) = (Memᴰ.head e, ap p e ∙ py)
  cons_case p py ih (Memᴰ.tail m) = let (h, px) = ih m in (Memᴰ.tail h, px)

  pub keep-Memᴰ :
      (p : A → Bool) {x : A} (xs : List A) → Memᴰ x (keep p xs) → Memᴰ x xs × (p x ≡ true)
  keep-Memᴰ p [] m = elim m [ ]
  keep-Memᴰ p (y ∷ xs) m = elim (Bool-cases (p y)) [
    | inl py ↦ cons_case p py (keep-Memᴰ p xs) (rw (py, keep) at m)
    | inr npy ↦ let (h, px) = keep-Memᴰ p xs (rw (npy, keep) at m) in (Memᴰ.tail h, px)
  ]

  -- Members of two lists one after the other.
  pub Memᴰ_left : {x : A} {xs : List A} (ys : List A) → Memᴰ x xs → Memᴰ x (xs ++ ys)
  Memᴰ_left ys (Memᴰ.head e) = Memᴰ.head e
  Memᴰ_left ys (Memᴰ.tail m) = Memᴰ.tail (Memᴰ_left ys m)

  pub Memᴰ_right : {x : A} (xs : List A) {ys : List A} → Memᴰ x ys → Memᴰ x (xs ++ ys)
  Memᴰ_right [] m = m
  Memᴰ_right (y ∷ xs) m = Memᴰ.tail (Memᴰ_right xs m)

  pub Memᴰ_append-cases :
      {x : A} (xs : List A) {ys : List A} → Memᴰ x (xs ++ ys) → Memᴰ x xs ⊎ Memᴰ x ys
  Memᴰ_append-cases [] m = inr m
  Memᴰ_append-cases (y ∷ xs) (Memᴰ.head e) = inl (Memᴰ.head e)
  Memᴰ_append-cases (y ∷ xs) (Memᴰ.tail m) = elim (Memᴰ_append-cases xs m) [
    | inl i ↦ inl (Memᴰ.tail i)
    | inr i ↦ inr i
  ]

pub Memᴰ_map {ℓ κ} :
    {A : Type ℓ} {B : Type κ} (f : A → B) {x : A} {xs : List A} → Memᴰ x xs → Memᴰ (f x) (map f xs)
Memᴰ_map f (Memᴰ.head e) = Memᴰ.head (ap f e)
Memᴰ_map f (Memᴰ.tail m) = Memᴰ.tail (Memᴰ_map f m)

pub map-Memᴰ {ℓ κ} :
    {A : Type ℓ} {B : Type κ} (f : A → B) {y : B} (xs : List A)
    → Memᴰ y (map f xs)
    → (x : A) × Memᴰ x xs × (y ≡ f x)
map-Memᴰ f [] m = elim m [ ]
map-Memᴰ f (x ∷ xs) (Memᴰ.head e) = (x, Memᴰ.head refl, e)
map-Memᴰ f (x ∷ xs) (Memᴰ.tail m) = let (z, i, e) = map-Memᴰ f xs m in (z, Memᴰ.tail i, e)

pub Memᴰ_singleton {ℓ} : {A : Type ℓ} {x y : A} → Memᴰ x (y ∷ []) → x ≡ y
Memᴰ_singleton (Memᴰ.head e) = e
Memᴰ_singleton (Memᴰ.tail m) = elim m [ ]
