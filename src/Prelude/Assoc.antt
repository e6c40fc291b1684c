-- ===== src/Prelude/Assoc.antt =====
-- `HashMap<String, V>` as an association list. The laws are all that the other modules use: the
-- order of the entries, which the code never relies on, is not part of them.
use mathlib.Core.Path.{◌≡◌, refl, ◌∙◌}
use mathlib.Core.Bool.{false}
use mathlib.Core.List.{List, [], ◌∷◌}
use mathlib.Core.Option.{Option, none, some}
use native.Mathlib.Omega.{arith}
use wiremirage.Prelude.Tests.{if◌then◌else◌}
use wiremirage.Prelude.Lists.{is_empty}
use wiremirage.Prelude.Text.{Str, str_eq, str_eq_iff, str_eq_refl}

abbrev pub Assoc {ℓ} : Type ℓ → Type ℓ
Assoc V = List (Str × V)

module _ {ℓ} {V : Type ℓ} where
  unfoldable pub lookup : Str → Assoc V → Option V
  lookup k [] = none
  lookup k ((j, v) ∷ m) = if str_eq j k then some v else lookup k m

  unfoldable pub remove : Str → Assoc V → Assoc V
  remove k [] = []
  remove k ((j, v) ∷ m) = let rest = remove k m in if str_eq j k then rest else (j, v) ∷ rest

  unfoldable pub insert : Str → V → Assoc V → Assoc V
  insert k v m = (k, v) ∷ remove k m

  pub lookup-remove :
      (k j : Str) (m : Assoc V) → lookup j (remove k m) ≡ (if str_eq k j then none else lookup j m)
  unfolding lookup remove
  lookup-remove k j [] = ground arith
  lookup-remove k j ((i, v) ∷ m) =
      ground (arith, lookup-remove k j m, str_eq_iff i k, str_eq_iff i j, str_eq_iff k j)

  pub lookup-insert :
      (k j : Str) (v : V) (m : Assoc V)
      → lookup j (insert k v m) ≡ (if str_eq k j then some v else lookup j m)
  unfolding lookup insert
  lookup-insert k j v m = ground (arith, lookup-remove k j m)

  pub lookup-insert_self : (k : Str) (v : V) (m : Assoc V) → lookup k (insert k v m) ≡ some v
  lookup-insert_self k v m = rw (lookup-insert, str_eq_refl k)

  pub lookup-remove_self : (k : Str) (m : Assoc V) → lookup k (remove k m) ≡ none
  lookup-remove_self k m = rw (lookup-remove, str_eq_refl k)

  -- What is under another key stays.
  pub lookup-insert_other :
      (k j : Str) (v : V) (m : Assoc V) → str_eq k j ≡ false → lookup j (insert k v m) ≡ lookup j m
  lookup-insert_other k j v m other = lookup-insert k j v m ∙ rw other refl

  pub lookup-remove_other :
      (k j : Str) (m : Assoc V) → str_eq k j ≡ false → lookup j (remove k m) ≡ lookup j m
  lookup-remove_other k j m other = lookup-remove k j m ∙ rw other refl

pub lookup-not_empty {ℓ} :
    {V : Type ℓ} (k : Str) (m : Assoc V) {v : V} → lookup k m ≡ some v → is_empty m ≡ false
unfolding lookup
lookup-not_empty k [] h = cc
lookup-not_empty k (e ∷ m) h = refl

pub lookup-empty {ℓ} : {V : Type ℓ} (k : Str) → lookup {V = V} k [] ≡ none
unfolding lookup
lookup-empty k = refl

pub ruleset assoc_laws = (lookup-empty, lookup-remove, lookup-insert)
