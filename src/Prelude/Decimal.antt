-- ===== src/Prelude/Decimal.antt =====
-- The decimal forms of integers: `to_string`, and `parse` of the unsigned types and of `i64`.
pub mod RoundTrip
use wiremirage.Prelude.Text.{Str}
use wiremirage.Prelude.{
  ℕ, zero, suc, ◌+◌, ◌-◌, ◌*◌, ◌/◌, ◌%◌, ◌^◌, Bool, ◌&&◌, ◌||◌, Option, none, some, [], ◌∷◌, ltb,
  leb, ◌==◌, if◌then◌else◌,
}

abbrev pub max_u16 : ℕ
max_u16 = 2 ^ 16 - 1

abbrev pub max_u32 : ℕ
max_u32 = 2 ^ 32 - 1

abbrev pub max_u64 : ℕ
max_u64 = 2 ^ 64 - 1

abbrev pub max_i64 : ℕ
max_i64 = 2 ^ 63 - 1

-- The digits of a number in front of a text; the fuel is at least the number.
unfoldable pub emit : ℕ → ℕ → Str → Str
emit zero n out = out
emit (suc fuel) n out =
    let rest = emit fuel (n / 10) ((b'0' + n % 10) ∷ out) in if n == 0 then out else rest

unfoldable pub print : ℕ → Str
print n = if n == 0 then b'0' ∷ [] else emit n n []

-- The digits behind the number read so far, unless it passes the maximum.
unfoldable pub scan_digits : ℕ → ℕ → Str → Option ℕ
scan_digits max n [] = some n
scan_digits max n (c ∷ s) =
    let rest = scan_digits max (n * 10 + (c - b'0')) s in
    if ltb c b'0' || ltb b'9' c then none else if ltb max (n * 10 + (c - b'0')) then none else rest

-- Digits, at least one.
unfoldable pub parse_digits : ℕ → Str → Option ℕ
parse_digits max [] = none
parse_digits max (c ∷ s) = scan_digits max 0 (c ∷ s)

-- `str::parse` to an unsigned type with the maximum; a plus may stand in front.
unfoldable pub parse_unsigned : ℕ → Str → Option ℕ
parse_unsigned max [] = none
parse_unsigned max (c ∷ s) = if c == b'+' then parse_digits max s else parse_digits max (c ∷ s)

-- Integers: `pos n` is n, `negsuc n` is -(n + 1).
pub data ℤ : Type 0 where
  pos : ℕ → ℤ
  negsuc : ℕ → ℤ

-- a - b
unfoldable pub difference : ℕ → ℕ → ℤ
difference a b = if leb b a then pos (a - b) else negsuc (b - a - 1)

infixl 65 ◌+ℤ◌
unfoldable pub ◌+ℤ◌ : ℤ → ℤ → ℤ
pos a +ℤ pos b = pos (a + b)
pos a +ℤ negsuc b = difference a (suc b)
negsuc a +ℤ pos b = difference b (suc a)
negsuc a +ℤ negsuc b = negsuc (suc (a + b))

unfoldable pub in_i64 : ℤ → Bool
in_i64 (pos n) = leb n max_i64
in_i64 (negsuc n) = leb n max_i64

-- `i64::checked_add`
unfoldable pub checked_add : ℤ → ℤ → Option ℤ
checked_add a b = if in_i64 (a +ℤ b) then some (a +ℤ b) else none

unfoldable pub print_i64 : ℤ → Str
print_i64 (pos n) = print n
print_i64 (negsuc n) = b'-' ∷ print (suc n)

-- The number with a minus in front; -0 is 0.
unfoldable pub negated : ℕ → ℤ
negated zero = pos 0
negated (suc n) = negsuc n

unfoldable pub parsed_pos : Option ℕ → Option ℤ
parsed_pos none = none
parsed_pos (some n) = some (pos n)

unfoldable pub parsed_neg : Option ℕ → Option ℤ
parsed_neg none = none
parsed_neg (some n) = some (negated n)

-- `str::parse::<i64>`
unfoldable pub parse_i64 : Str → Option ℤ
parse_i64 [] = none
parse_i64 (c ∷ s) =
    if c == b'-'
    then parsed_neg (parse_digits (suc max_i64) s)
    else parsed_pos (parse_unsigned max_i64 (c ∷ s))
