-- ===== src/Store/Counters/Copies.antt =====
-- `copy_with_prefix` of crates/wm-host/src/store/memory.rs takes a snapshot.
use wiremirage.Prelude.Text.{
  Str, str_eq, str_eq_comm, prefix_outside, prefix_cancel, starts_with, starts_with-append,
  starts_with→append,
}
use wiremirage.Prelude.Assoc.{lookup, lookup-insert}
use wiremirage.Prelude.{
  false, Option, none, some, [], ◌∷◌, ◌++◌, length, drop, drop-append, ◌≡◌, subst, refl, sym, ap,
  ◌∙◌, inl, inr, Bool-cases,
}
use wiremirage.Store.{MemStore, MemValue}
use wiremirage.Store.Counters.{moved_entries, insert_all, copy_with_prefix}

-- The first one, or else the second one.
abbrev pub first_of : {A : Type 0} → Option A → Option A → Option A
first_of none b = b
first_of (some a) b = some a

lookup-insert_all :
    (pairs m : MemStore) (j : Str)
    → lookup j (insert_all pairs m) ≡ first_of (lookup j pairs) (lookup j m)
unfolding insert_all lookup
lookup-insert_all [] m j = refl
lookup-insert_all ((k, v) ∷ pairs) m j = elim (Bool-cases (str_eq k j)) [
  | inl same ↦ lookup-insert k j v (insert_all pairs m) ∙ rw same refl
  | inr other ↦ lookup-insert k j v (insert_all pairs m) ∙ rw other (lookup-insert_all pairs m j)
]

inside_step :
    (src dst k t : Str) (v : MemValue) (m : MemStore)
    → lookup (dst ++ k) (moved_entries src dst m) ≡ lookup (src ++ k) m
    → lookup (dst ++ k) (moved_entries src dst ((src ++ t, v) ∷ m))
      ≡ lookup (src ++ k) ((src ++ t, v) ∷ m)
unfolding lookup moved_entries
inside_step src dst k t v m ih =
    rw (
      starts_with-append src t,
      drop-append src t,
      prefix_cancel dst t k,
      prefix_cancel src t k,
      ih,
    )

-- A moved entry is found under the new prefix exactly where it was under the old one.
lookup-moved_entries :
    (src dst k : Str) (m : MemStore)
    → lookup (dst ++ k) (moved_entries src dst m) ≡ lookup (src ++ k) m
unfolding lookup moved_entries
lookup-moved_entries src dst k [] = refl
lookup-moved_entries src dst k ((j, v) ∷ m) = elim (Bool-cases (starts_with src j)) [
  | inl inside ↦
      let (t, e) = starts_with→append src j inside in
      subst
        (λ x.
          lookup (dst ++ k) (moved_entries src dst ((x, v) ∷ m)) ≡ lookup (src ++ k) ((x, v) ∷ m))
        (sym e) (inside_step src dst k t v m (lookup-moved_entries src dst k m))
  | inr outside ↦
      rw (outside, str_eq_comm j (src ++ k), prefix_outside src k j outside)
        (lookup-moved_entries src dst k m)
]

elsewhere :
    (src dst j : Str) (m : MemStore)
    → starts_with dst j ≡ false
    → lookup j (moved_entries src dst m) ≡ none
unfolding lookup moved_entries
elsewhere src dst j [] h = refl
elsewhere src dst j ((k, v) ∷ m) h = elim (Bool-cases (starts_with src k)) [
  | inl inside ↦ rw (inside, prefix_outside dst (drop (length src) k) j h) (elsewhere src dst j m h)
  | inr outside ↦ rw outside (elsewhere src dst j m h)
]

-- After a copy each suffix has under the second prefix what it had under the first one before, if it
-- had anything, and else what it had under the second one; every other key is as before.
pub copy_with_prefix-lookup :
    (m : MemStore) (src dst : Str)
    → ((k : Str)
        → lookup (dst ++ k) (copy_with_prefix m src dst).1
          ≡ first_of (lookup (src ++ k) m) (lookup (dst ++ k) m))
      × ((j : Str)
          → starts_with dst j ≡ false
          → lookup j (copy_with_prefix m src dst).1 ≡ lookup j m)
unfolding copy_with_prefix
copy_with_prefix-lookup m src dst =
    let pairs = moved_entries src dst m in
    (
      (λ k.
          lookup-insert_all pairs m (dst ++ k)
          ∙ ap (λ o. first_of o (lookup (dst ++ k) m)) (lookup-moved_entries src dst k m)),
      (λ j h.
          lookup-insert_all pairs m j
          ∙ ap (λ o. first_of o (lookup j m)) (elsewhere src dst j m h)),
    )
