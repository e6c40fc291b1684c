-- ===== src/Pattern/Overlaps.antt =====
-- `Methods::overlaps` says exactly when some request method is accepted by both lists.
use mathlib.Core.List.{Memᴰ}
use wiremirage.Prelude.Text.{Str, str_eq, str_eq→eq, str_eq_refl}
use wiremirage.Prelude.Ascii.{
  is_lower, to_upper, eq_ignore_case, eq_ignore_case_same, eq_ignore_case-upper,
}
use wiremirage.Prelude.Members.{any→Memᴰ, Memᴰ→any, All-Memᴰ}
use wiremirage.Prelude.{
  true, not, ◌||◌, [], ◌∷◌, map, ◌≡◌, ◌≢◌, refl, ap₂, ◌&&◌, arith, all, any, All, Bool-cases, inl,
  inr, Bool,
}
use wiremirage.Pattern.Conflicts.{patterns_conflict_comm}
use wiremirage.Pattern.{Methods, Pattern, any_method, methods_match, overlaps, routes_conflict}

-- No lower-case letter, as in every method that a route is stored with.
abbrev pub IsUpperCase : Str → Type 0
IsUpperCase m = all (λ c. not (is_lower c)) m ≡ true

abbrev is_any : Str → Bool
is_any m = str_eq m any_method

-- Two lists of upper-case methods that accept one request method overlap.
pub methods_match-overlaps :
    (a b : Methods) (method : Str)
    → All IsUpperCase a
    → All IsUpperCase b
    → methods_match a method ≡ true
    → methods_match b method ≡ true
    → overlaps a b ≡ true
unfolding methods_match overlaps
methods_match-overlaps a b method ua ub ha hb =
    let (x, x_in, hx) = any→Memᴰ (λ x. is_any x || eq_ignore_case x (map to_upper method)) a ha in
    let (y, y_in, hy) = any→Memᴰ (λ x. is_any x || eq_ignore_case x (map to_upper method)) b hb in
    elim (Bool-cases (is_any x)) [
      | inl any_x ↦ ground (arith, Memᴰ→any is_any x_in any_x)
      | inr named_x ↦ elim (Bool-cases (is_any y)) [
        | inl any_y ↦ ground (arith, Memᴰ→any is_any y_in any_y)
        | inr named_y ↦
            let e : x ≡ y =
              eq_ignore_case_same x y (map to_upper method) (All-Memᴰ IsUpperCase x_in ua)
                (All-Memᴰ IsUpperCase y_in ub) (ground arith) (ground arith) in
            let shared : any (str_eq x) b ≡ true =
              Memᴰ→any (str_eq x) y_in (rw e (str_eq_refl y)) in
            let found : any (λ x. any (str_eq x) b) a ≡ true =
              Memᴰ→any (λ x. any (str_eq x) b) x_in shared in
            ground arith
      ]
    ]

abbrev takes : Str → Str → Bool
takes method x = is_any x || eq_ignore_case x (map to_upper method)

own_method : (b : Methods) {y : Str} → Memᴰ y b → methods_match b y ≡ true
unfolding methods_match
own_method b {y} y_in = Memᴰ→any (takes y) y_in (ground (arith, eq_ignore_case-upper y))

any_method-match :
    (a : Methods) (method : Str) → any is_any a ≡ true → methods_match a method ≡ true
unfolding methods_match
any_method-match a method h =
    let (x, x_in, is) = any→Memᴰ is_any a h in Memᴰ→any (takes method) x_in (ground arith)

-- A method that both lists accept.
abbrev pub ShareMethod : Methods → Methods → Type 0
ShareMethod a b = (method : Str) × (methods_match a method ≡ true) × (methods_match b method ≡ true)

named_ShareMethod : (a b : Methods) → any (λ x. any (str_eq x) b) a ≡ true → ShareMethod a b
named_ShareMethod a b h =
    let (x, x_in, hx) = any→Memᴰ (λ x. any (str_eq x) b) a h in
    let (y, y_in, same) = any→Memᴰ (str_eq x) b hx in
    (x, own_method a x_in, rw (str_eq→eq x y same) (own_method b y_in))

-- Two lists that overlap, neither of them empty, accept a common request method.
pub overlaps-ShareMethod : (a b : Methods) → a ≢ [] → b ≢ [] → overlaps a b ≡ true → ShareMethod a b
unfolding overlaps
overlaps-ShareMethod [] b na nb h = absurd (na refl)
overlaps-ShareMethod a [] na nb h = absurd (nb refl)
overlaps-ShareMethod (x ∷ a) (y ∷ b) na nb h = elim (Bool-cases (any is_any (x ∷ a))) [
  | inl any_a ↦ (y, any_method-match (x ∷ a) y any_a, own_method (y ∷ b) (Memᴰ.head refl))
  | inr named_a ↦ elim (Bool-cases (any is_any (y ∷ b))) [
    | inl any_b ↦ (x, own_method (x ∷ a) (Memᴰ.head refl), any_method-match (y ∷ b) x any_b)
    | inr named_b ↦ named_ShareMethod (x ∷ a) (y ∷ b) (ground arith)
  ]
]

named_comm :
    (a b : Methods) → any (λ x. any (str_eq x) b) a ≡ true → any (λ x. any (str_eq x) a) b ≡ true
named_comm a b h =
    let (x, x_in, hx) = any→Memᴰ (λ x. any (str_eq x) b) a h in
    let (y, y_in, same) = any→Memᴰ (str_eq x) b hx in
    Memᴰ→any (λ y. any (str_eq y) a) y_in
      (Memᴰ→any (str_eq y) x_in (rw (str_eq→eq x y same) (str_eq_refl y)))

overlaps_comm : (a b : Methods) → overlaps a b ≡ overlaps b a
unfolding overlaps
overlaps_comm a b = ground (arith, named_comm a b, named_comm b a)

-- The conflict test does not depend on which of the two routes is the new one.
pub routes_conflict_comm :
    (a b : Methods) (p q : Pattern) → routes_conflict a p b q ≡ routes_conflict b q a p
unfolding routes_conflict
routes_conflict_comm a b p q = ap₂ (λ x y. x && y) (overlaps_comm a b) (patterns_conflict_comm p q)
