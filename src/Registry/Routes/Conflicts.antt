-- ===== src/Registry/Routes/Conflicts.antt =====
-- crates/wm-host/src/registry.rs: a route that the scan lets through keeps the group unambiguous.
use wiremirage.Prelude.Text.{Str, str_eq, str_eq→eq}
use wiremirage.Prelude.Ascii.{is_upper, is_digit}
use wiremirage.Prelude.{
  true, false, ◌||◌, ◌==◌, none, List, [], ◌∷◌, all, ok, All, ◌≡◌, refl, sym, ap, ◌∙◌, arith, inl,
  inr, Bool-cases, Result-cases, err-ne-ok, ok-injective,
}
use wiremirage.Pattern.{Methods, Pattern, parse, routes_conflict, any_method}
use wiremirage.Pattern.Overlaps.{IsUpperCase}
use wiremirage.Registry.{Route, check_methods, validate_methods, valid_method}
use wiremirage.Registry.Routes.{parsed_path, is_excluded, first_conflict}

-- The stored route has another pattern, or other methods, than the new one.
abbrev pub IsCleared : Methods → Pattern → Route → Type 0
IsCleared methods p s =
    (q : Pattern) → parse s.path ≡ ok q → routes_conflict methods p s.methods q ≡ false

pub first_conflict-IsCleared :
    (methods : Methods) (p : Pattern) (routes : List Route)
    → first_conflict methods p none routes ≡ ok tt
    → All (IsCleared methods p) routes
unfolding first_conflict is_excluded parsed_path
first_conflict-IsCleared methods p [] h = tt
first_conflict-IsCleared methods p (s ∷ routes) h = elim (Result-cases (parse s.path)) [
  | inl (e, bad) ↦ err-ne-ok _ tt (rw (bad, first_conflict) at h)
  | inr (q, good) ↦ elim (Bool-cases (routes_conflict methods p s.methods q)) [
    | inl clash ↦ err-ne-ok _ tt (rw (good, first_conflict, clash) at h)
    | inr clear ↦ (
      λ q' again.
          ap (routes_conflict methods p s.methods) (ok-injective q' q (sym again ∙ good)) ∙ clear,
      first_conflict-IsCleared methods p routes (rw (good, first_conflict, clear) at h),
    )
  ]
]

letter-upper : (m : Str) → all (λ c. is_upper c || is_digit c || c == b'-') m ≡ true → IsUpperCase m
letter-upper [] h = refl
letter-upper (c ∷ m) h = ground (arith, letter-upper m)

any-upper : (m : Str) → str_eq m any_method ≡ true → IsUpperCase m
any-upper m e = rw (str_eq→eq m any_method e) refl

valid_method-IsUpperCase : (m : Str) → valid_method m ≡ true → IsUpperCase m
unfolding valid_method
valid_method-IsUpperCase m h =
    ground (arith, letter-upper m, λ (e : str_eq m any_method ≡ true). any-upper m e)

check_methods-All : (methods : Methods) → check_methods methods ≡ ok tt → All IsUpperCase methods
unfolding check_methods
check_methods-All [] h = tt
check_methods-All (m ∷ methods) h = elim (Bool-cases (valid_method m)) [
  | inl good ↦
      (valid_method-IsUpperCase m good, check_methods-All methods (rw (good, check_methods) at h))
  | inr bad ↦ err-ne-ok _ tt (rw (bad, check_methods) at h)
]

-- Methods that are accepted are kept as they are, and have no lower-case letter.
pub validate_methods-IsUpperCase :
    (methods : Methods) (accepted : Methods)
    → validate_methods methods ≡ ok accepted
    → (accepted ≡ methods) × All IsUpperCase methods
unfolding validate_methods
validate_methods-IsUpperCase [] accepted h = cc h
validate_methods-IsUpperCase (m ∷ methods) accepted h =
    elim (Result-cases (check_methods (m ∷ methods))) [
      | inl (e, bad) ↦ err-ne-ok e accepted (rw (bad, validate_methods) at h)
      | inr (done, good) ↦ (
        sym (ok-injective _ accepted (rw (good, validate_methods) at h)),
        check_methods-All (m ∷ methods) good,
      )
    ]
