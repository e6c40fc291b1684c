-- ===== src/Registry/Names/Free.antt =====
-- crates/wm-host/src/registry.rs: `generate_group_name` ends, with a name that is not taken.
use mathlib.Core.Option.{some-injective}
use wiremirage.Prelude.Text.{Str, codes, str_eq→eq, str_eq_iff, prefix_cancel}
use wiremirage.Prelude.Assoc.{lookup}
use wiremirage.Prelude.Decimal.{print, parse_unsigned, max_u32}
use wiremirage.Prelude.Decimal.RoundTrip.{parse_unsigned-print}
use wiremirage.Prelude.Pigeonhole.{keys-le-length}
use wiremirage.Prelude.{
  ℕ, zero, suc, ◌+◌, ◌%◌, ◌≤◌, ◌<◌, true, false, Option, none, some, is_some, [], ◌∷◌, ◌++◌, length,
  Result, ok, ◌≡◌, ◌⊎◌, refl, sym, ap, ◌∙◌, arith, inl, inr, Option-cases,
}
use wiremirage.Store.{MemStore, StoreError}
use wiremirage.Store.Memory
use wiremirage.Store.Memory.{get_value}
use wiremirage.Store.Bucket
use wiremirage.Registry.Stored.{by_name_key}
use wiremirage.Registry.Names.{
  Draws, drawn, is_free, first_free, numbered, numbered_free, generate_group_name,
}

-- Every entry under a name can be read: none is a list, a hash or a set.
abbrev pub HasNames : MemStore → Type 0
HasNames m = (name : Str) → (entry : Option Str) × (Memory.get m (by_name_key name) ≡ ok entry)

abbrev pub IsFree : MemStore → Str → Type 0
IsFree m name = Memory.get m (by_name_key name) ≡ ok none

print_inj : (a b : ℕ) → a ≤ max_u32 → b ≤ max_u32 → print a ≡ print b → a ≡ b
print_inj a b ha hb e = some-injective a b (
    sym (parse_unsigned-print max_u32 a ha)
    ∙ ap (parse_unsigned max_u32) e
    ∙ parse_unsigned-print max_u32 b hb)

cancel : (p s t : Str) → p ++ s ≡ p ++ t → s ≡ t
cancel p s t e = str_eq→eq s t (sym (prefix_cancel p s t) ∙ (str_eq_iff (p ++ s) (p ++ t)).1 e)

numbered_inj :
    (base : Str) (a b : ℕ)
    → a ≤ max_u32
    → b ≤ max_u32
    → by_name_key (numbered base a) ≡ by_name_key (numbered base b)
    → a ≡ b
unfolding by_name_key numbered
numbered_inj base a b ha hb e = print_inj a b ha hb (
    cancel (b'-' ∷ []) (print a) (print b) (
      cancel base (b'-' ∷ print a) (b'-' ∷ print b)
        (cancel (codes "group:by-name:") (base ++ (b'-' ∷ print a)) (base ++ (b'-' ∷ print b)) e)))

ok-none-ne-some :
    {P : Type 0} (value : Str)
    → ◌≡◌ {A = Result StoreError (Option Str)} (ok none) (ok (some value))
    → P
ok-none-ne-some value h = cc (h)

held-is_some :
    (m : MemStore) (key value : Str)
    → Memory.get m key ≡ ok (some value)
    → is_some (lookup key m) ≡ true
unfolding Memory.get get_value
held-is_some m key value h = elim (Option-cases (lookup key m)) [
  | inl missing ↦ ok-none-ne-some value (rw (missing) at h)
  | inr (v, there) ↦ ap is_some there
]

none_more : (n : ℕ) → n + 0 ≡ n
none_more n = omega arith

shift : (n i : ℕ) → n + 1 + i ≡ n + suc i
shift n i = omega arith

plus-inj : (i j : ℕ) → 2 + i ≡ 2 + j → i ≡ j
plus-inj i j e = omega arith

module _ (m : MemStore) (names : HasNames m) where
  is_free-cases :
      (name : Str)
      → ((is_free name m ≡ (ok true, m)) × IsFree m name)
        ⊎ ((is_free name m ≡ (ok false, m)) × (is_some (lookup (by_name_key name) m) ≡ true))
  unfolding is_free Bucket.get Bucket.restored
  is_free-cases name = elim (Option-cases (names name).0) [
    | inl free ↦ inl (rw ((names name).1 ∙ ap ok free) refl, (names name).1 ∙ ap ok free)
    | inr (value, taken) ↦ inr (
      rw ((names name).1 ∙ ap ok taken) refl,
      held-is_some m (by_name_key name) value ((names name).1 ∙ ap ok taken),
    )
  ]

  first_free-cases :
      (rounds : ℕ) (draws : Draws) (k : ℕ)
      → (first_free rounds draws k m ≡ (ok none, m))
        ⊎ ((name : Str) × (first_free rounds draws k m ≡ (ok (some name), m)) × IsFree m name)
  unfolding first_free
  first_free-cases zero draws k = inl refl
  first_free-cases (suc rounds) draws k = elim (is_free-cases (drawn draws k)) [
    | inl (free_now, free) ↦ inr (drawn draws k, rw free_now refl, free)
    | inr (in_use, taken) ↦ elim (first_free-cases rounds draws (k + 1)) [
      | inl nothing ↦ inl (rw (in_use) nothing)
      | inr (name, found, free) ↦ inr (name, rw (in_use) found, free)
    ]
  ]

  all_taken :
      (base : Str) (n fuel : ℕ)
      → is_some (lookup (by_name_key (numbered base n)) m) ≡ true
      → ((i : ℕ) → i < fuel → is_some (lookup (by_name_key (numbered base (n + 1 + i))) m) ≡ true)
      → (i : ℕ) → i < suc fuel
      → is_some (lookup (by_name_key (numbered base (n + i))) m) ≡ true
  all_taken base n fuel taken rest zero h = rw (none_more n) taken
  all_taken base n fuel taken rest (suc i) h = rw (sym (shift n i)) (rest i (omega arith))

  -- The second loop finds a name, or all its candidates are taken.
  numbered_free-cases :
      (fuel : ℕ) (base : Str) (n : ℕ)
      → n + fuel ≤ max_u32
      → ((name : Str) × (numbered_free fuel base n m ≡ (ok name, m)) × IsFree m name)
        ⊎ ((i : ℕ) → i < fuel → is_some (lookup (by_name_key (numbered base (n + i))) m) ≡ true)
  unfolding numbered_free
  numbered_free-cases zero base n fits = inr λ i h. absurd (omega arith)
  numbered_free-cases (suc fuel) base n fits = elim (is_free-cases (numbered base n)) [
    | inl (free_now, free) ↦ inl (numbered base n, rw free_now refl, free)
    | inr (in_use, taken) ↦
        let step : (n + 1) % (max_u32 + 1) ≡ n + 1 = omega arith in
        elim (numbered_free-cases fuel base (n + 1) (omega arith)) [
          | inl (name, found, free) ↦ inl (name, rw (in_use, step) found, free)
          | inr rest ↦ inr (all_taken base n fuel taken rest)
        ]
  ]

  -- With fewer than 2³² - 3 entries in the store, which all can be read, the loops end with a name that
  -- no group has, and change nothing.
  pub generate_group_name-IsFree :
      (draws : Draws)
      → length m + 3 ≤ max_u32
      → (name : Str) × (generate_group_name draws m ≡ (ok name, m)) × IsFree m name
  unfolding generate_group_name
  generate_group_name-IsFree draws small = elim (first_free-cases 8 draws 0) [
    | inr (name, found, free) ↦ (name, rw found refl, free)
    | inl nothing ↦ elim (numbered_free-cases (suc (length m)) (drawn draws 8) 2 (omega arith)) [
      | inl (name, found, free) ↦ (name, rw nothing found, free)
      | inr taken ↦
          let many =
            keys-le-length (λ i. by_name_key (numbered (drawn draws 8) (2 + i))) (suc (length m)) m
              (λ i j hi hj e.
                plus-inj i j
                  (numbered_inj (drawn draws 8) (2 + i) (2 + j) (omega arith) (omega arith) e))
              taken in
          absurd (omega arith)
    ]
  ]
