-- ===== src/Prelude/Decimal/RoundTrip.antt =====
-- A printed number is parsed to itself, and is a text of digits.
use wiremirage.Prelude.Text.{Str}
use wiremirage.Prelude.{
  ℕ, zero, suc, ◌+◌, ◌/◌, ◌%◌, ◌≤◌, true, some, [], ◌∷◌, All, ◌≡◌, ◌≢◌, refl, ap, ◌∙◌, arith,
}
use wiremirage.Prelude.Decimal.{
  emit, print, scan_digits, parse_digits, parse_unsigned, max_i64, ℤ, pos, negsuc, in_i64,
  print_i64, negated, parsed_pos, parsed_neg, parse_i64,
}

abbrev pub IsDigit : ℕ → Type 0
IsDigit c = (b'0' ≤ c) × (c ≤ b'9')

-- Reading the last digit behind the others gives the number.
scan_last :
    (max n : ℕ) (out : Str)
    → n ≤ max
    → scan_digits max (n / 10) ((b'0' + n % 10) ∷ out) ≡ scan_digits max n out
unfolding scan_digits
scan_last max n out h = ground arith

scan_digits-emit :
    (max fuel n : ℕ) (out : Str)
    → n ≤ fuel
    → n ≤ max
    → scan_digits max 0 (emit fuel n out) ≡ scan_digits max n out
unfolding emit
scan_digits-emit max zero n out enough fits = ground arith
scan_digits-emit max (suc fuel) n out enough fits =
    ground (arith, scan_digits-emit max fuel (n / 10) ((b'0' + n % 10) ∷ out), scan_last max n out)

emit-digits : (fuel n : ℕ) (out : Str) → All IsDigit out → All IsDigit (emit fuel n out)
unfolding emit
emit-digits zero n out h = h
emit-digits (suc fuel) n out h =
    ground
      (arith, emit-digits fuel (n / 10) ((b'0' + n % 10) ∷ out) ((omega arith, omega arith), h))

pub print-digits : (n : ℕ) → All IsDigit (print n)
unfolding print
print-digits n = ground (arith, emit-digits n n [] tt)

emit-cons-ne-nil : (fuel n c : ℕ) (out : Str) → emit fuel n (c ∷ out) ≢ []
unfolding emit
emit-cons-ne-nil zero n c out e = cc e
emit-cons-ne-nil (suc fuel) n c out e =
    ground (arith, emit-cons-ne-nil fuel (n / 10) (b'0' + n % 10) (c ∷ out))

print-ne-nil : (n : ℕ) → print n ≢ []
unfolding print emit
print-ne-nil zero e = cc e
print-ne-nil (suc n) e = emit-cons-ne-nil n (suc n / 10) (b'0' + suc n % 10) [] (ground arith)

scan_digits-print : (max n : ℕ) → n ≤ max → scan_digits max 0 (print n) ≡ some n
unfolding print scan_digits
scan_digits-print max n fits = ground (arith, scan_digits-emit max n n [])

parse_digits-cons : (max : ℕ) (s : Str) → s ≢ [] → parse_digits max s ≡ scan_digits max 0 s
unfolding parse_digits
parse_digits-cons max [] h = absurd (h refl)
parse_digits-cons max (c ∷ s) h = refl

pub parse_digits-print : (max n : ℕ) → n ≤ max → parse_digits max (print n) ≡ some n
parse_digits-print max n fits =
    parse_digits-cons max (print n) (print-ne-nil n) ∙ scan_digits-print max n fits

parse_unsigned-digits :
    (max : ℕ) (s : Str) → All IsDigit s → parse_unsigned max s ≡ parse_digits max s
unfolding parse_unsigned parse_digits
parse_unsigned-digits max [] h = refl
parse_unsigned-digits max (c ∷ s) (d, h) = ground arith

pub parse_unsigned-print : (max n : ℕ) → n ≤ max → parse_unsigned max (print n) ≡ some n
parse_unsigned-print max n fits =
    parse_unsigned-digits max (print n) (print-digits n) ∙ parse_digits-print max n fits

parse_i64-digits : (s : Str) → All IsDigit s → parse_i64 s ≡ parsed_pos (parse_unsigned max_i64 s)
unfolding parse_i64 parse_unsigned parsed_pos
parse_i64-digits [] h = refl
parse_i64-digits (c ∷ s) (d, h) = ground arith

pub parse_i64-print_i64 : (z : ℤ) → in_i64 z ≡ true → parse_i64 (print_i64 z) ≡ some z
unfolding print_i64 in_i64 parsed_pos
parse_i64-print_i64 (pos n) h =
    parse_i64-digits (print n) (print-digits n)
    ∙ ap parsed_pos (parse_unsigned-print max_i64 n (ground arith))
parse_i64-print_i64 (negsuc n) h =
    unfold parse_i64 parsed_neg negated in
    ap parsed_neg (parse_digits-print (suc max_i64) (suc n) (ground arith))
