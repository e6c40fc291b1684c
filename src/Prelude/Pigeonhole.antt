-- ===== src/Prelude/Pigeonhole.antt =====
-- A map with n different keys has at least n entries.
use wiremirage.Prelude.Text.{Str, str_eq_ne}
use wiremirage.Prelude.Assoc.{Assoc, lookup, remove, lookup-remove_other}
use wiremirage.Prelude.{ℕ, zero, suc, ◌≤◌, ◌<◌, true, is_some, [], ◌∷◌, length, ◌≡◌, ap, ◌∙◌, arith}

module _ {ℓ} {V : Type ℓ} where
  length-remove : (k : Str) (m : Assoc V) → length (remove k m) ≤ length m
  unfolding remove
  length-remove k [] = omega arith
  length-remove k ((j, v) ∷ m) = ground (arith, length-remove k m)

  length-remove_held :
      (k : Str) (m : Assoc V) → is_some (lookup k m) ≡ true → length (remove k m) < length m
  unfolding remove lookup
  length-remove_held k [] h = cc h
  length-remove_held k ((j, v) ∷ m) h = ground (arith, length-remove_held k m, length-remove k m)

  pub keys-le-length :
      (key : ℕ → Str) (n : ℕ) (m : Assoc V)
      → ((i j : ℕ) → i < n → j < n → key i ≡ key j → i ≡ j)
      → ((i : ℕ) → i < n → is_some (lookup (key i) m) ≡ true)
      → n ≤ length m
  keys-le-length key zero m distinct held = omega arith
  keys-le-length key (suc n) m distinct held =
      let smaller = length-remove_held (key n) m (held n (omega arith)) in
      let rest =
        keys-le-length key n (remove (key n) m)
          (λ i j hi hj. distinct i j (omega arith) (omega arith))
          λ i hi.
            ap is_some (
              lookup-remove_other (key n) (key i) m (
                str_eq_ne (key n) (key i) λ e.
                  let same : n ≡ i = distinct n i (omega arith) (omega arith) e in
                  absurd (omega arith)))
            ∙ held i (omega arith) in
      omega arith
