-- ===== src/Store/Orders.antt =====
-- crates/wm-host/src/store/: the members of a set come in no order of their own, so what is read for each
-- of them may come in any.
use mathlib.Core.List.{Permᴰ}
use wiremirage.Prelude.{List, [], ◌∷◌, ok, ◌≡◌, refl, ap, ok-injective, subst}
use wiremirage.Store.{MemStore}
use wiremirage.Store.Action.{Action, collect}
use wiremirage.Store.Reads.{IsReading, reading-eq-ok, reading-run, collect-IsReading}

module _ {E A B : Type 0} (f : A → Action E B) (m : MemStore)
    (reads : (x : A) → IsReading (f x)) where
  -- each answer, one for each argument
  Answers : List A → List B → Type 0
  Answers [] [] = Unit
  Answers (x ∷ xs) (y ∷ ys) = ((f x m).0 ≡ ok y) × Answers xs ys
  Answers [] (y ∷ ys) = ⊥
  Answers (x ∷ xs) [] = ⊥

  permuted-Answers :
      {xs zs : List A} (ys : List B)
      → Permᴰ xs zs
      → Answers xs ys
      → (ws : List B) × Answers zs ws × Permᴰ ys ws
  unfolding Answers
  permuted-Answers [] Permᴰ.nil a = ([], tt, Permᴰ.nil)
  permuted-Answers (y ∷ ys) Permᴰ.nil a = absurd a
  permuted-Answers [] (Permᴰ.cons e d) a = absurd a
  permuted-Answers (y ∷ ys) (Permᴰ.cons e d) (given, a) =
      let (ws, b, p) = permuted-Answers ys d a in
      (y ∷ ws, (subst (λ x. (f x m).0 ≡ ok y) e given, b), Permᴰ.cons refl p)
  permuted-Answers [] (Permᴰ.swap e₁ e₂) a = absurd a
  permuted-Answers (y ∷ []) (Permᴰ.swap e₁ e₂) (given, a) = absurd a
  permuted-Answers (y ∷ (z ∷ ys)) (Permᴰ.swap e₁ e₂) (first, (second, a)) = (
    z ∷ (y ∷ ys),
    (subst (λ x. (f x m).0 ≡ ok z) e₂ second, (subst (λ x. (f x m).0 ≡ ok y) e₁ first, a)),
    Permᴰ.swap refl refl,
  )
  permuted-Answers ys (Permᴰ.trans d₁ d₂) a =
      let (ws, b, p) = permuted-Answers ys d₁ a in
      let (vs, c, q) = permuted-Answers ws d₂ b in (vs, c, Permᴰ.trans p q)

  collect-Answers :
      (xs : List A) (ys : List B) (n : MemStore) → collect f xs m ≡ (ok ys, n) → Answers xs ys
  unfolding collect Answers
  collect-Answers [] ys n h = subst (Answers []) (ok-injective [] ys (ap (λ r. r.0) h)) tt
  collect-Answers (x ∷ xs) ys n h =
      reading-eq-ok (Answers (x ∷ xs) ys) (f x) _ m (reads x) h λ y given rest.
        reading-eq-ok (Answers (x ∷ xs) ys) (collect f xs) _ m (collect-IsReading f xs reads) rest
          λ zs more last.
            subst (Answers (x ∷ xs)) (ok-injective (y ∷ zs) ys (ap (λ r. r.0) last))
              (ap (λ r. r.0) given, collect-Answers xs zs m more)

  Answers-collect : (xs : List A) (ys : List B) → Answers xs ys → collect f xs m ≡ (ok ys, m)
  unfolding collect Answers
  Answers-collect [] [] a = refl
  Answers-collect [] (y ∷ ys) a = absurd a
  Answers-collect (x ∷ xs) [] a = absurd a
  Answers-collect (x ∷ xs) (y ∷ ys) (given, a) =
      rw (reading-run (f x) m (ok y) (reads x) given, Answers-collect xs ys a) refl

  -- Reads that end well for some order of their arguments do so for every order, with the same answers.
  pub collect-permuted :
      (xs zs : List A) (ys : List B)
      → Permᴰ xs zs
      → collect f xs m ≡ (ok ys, m)
      → (ws : List B) × (collect f zs m ≡ (ok ws, m)) × Permᴰ ys ws
  collect-permuted xs zs ys p h =
      let (ws, a, q) = permuted-Answers ys p (collect-Answers xs ys m h) in
      (ws, Answers-collect zs ws a, q)
