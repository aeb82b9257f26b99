-- ===== src/Jwt/Numbers.antt =====
-- `str(n)` and `int(s)` for integers.
use mathlib.Core.List.{◌++◌}
use fastdjango.Base.{
  not, any, ℕ, zero, suc, ◌+◌, ◌*◌, ◌/◌, ◌%◌, Bool, true, false, ◌&&◌, [], ◌∷◌, Option, none, some,
  Text, ◌==◌, nat_eq, leb, ltb, strip, if◌then◌else◌,
}
use fastdjango.Base.Int.{ℤ, pos, negsuc}

-- The decimal digits of a number, with as much fuel as the number itself.
unfoldable pub digits_of : ℕ → ℕ → Text
digits_of zero n = (48 + n) ∷ []
digits_of (suc fuel) n =
    let front = digits_of fuel (n / 10) in
    if ltb n 10 then (48 + n) ∷ [] else front ++ (48 + n % 10) ∷ []

unfoldable pub str_of_int : ℤ → Text
unfolding digits_of
str_of_int (pos n) = digits_of n n
str_of_int (negsuc n) = b'-' ∷ digits_of (suc n) (suc n)

-- The digits of `int(s)`, with single underscores between them. `decimal` gives the value of a
-- decimal digit of Unicode; `count` is the number of digits so far, of which Python allows 4300.
unfoldable pub parse_digits : (ℕ → Option ℕ) → ℕ → ℕ → Bool → Text → Option ℕ
parse_digits decimal count acc after_digit [] =
    if after_digit && leb count 4300 then some acc else none
parse_digits decimal count acc after_digit (c ∷ s) = elim (decimal c) [
  | some d ↦ parse_digits decimal (suc count) (acc * 10 + d) true s
  | none ↦ elim (c == b'_' && after_digit) [
    | true ↦ parse_digits decimal count acc false s
    | false ↦ none
  ]
]

abbrev negated : ℕ → ℤ
negated zero = pos zero
negated (suc n) = negsuc n

abbrev as_pos : Option ℕ → Option ℤ
as_pos none = none
as_pos (some n) = some (pos n)

abbrev as_neg : Option ℕ → Option ℤ
as_neg none = none
as_neg (some n) = some (negated n)

unfoldable pub parse_signed : (ℕ → Option ℕ) → Text → Option ℤ
unfolding parse_digits
parse_signed decimal [] = none
parse_signed decimal (c ∷ s) =
    if c == b'-'
    then as_neg (parse_digits decimal 0 0 false s)
    else if c == b'+'
    then as_pos (parse_digits decimal 0 0 false s)
    else as_pos (parse_digits decimal 0 0 false (c ∷ s))

-- `int` removes the separators U+001C to U+001F only around a text that is not ASCII throughout.
abbrev pub is_separator : ℕ → Bool
is_separator c = leb 28 c && leb c 31

unfoldable pub keeps_separator : Text → Bool
keeps_separator s = not (any (λ c. leb 128 c) s) && any is_separator s

-- `int(s)`; `none` is a `ValueError`.
unfoldable pub parse_int : (ℕ → Option ℕ) → Text → Option ℤ
unfolding parse_signed strip keeps_separator
parse_int decimal s = if keeps_separator s then none else parse_signed decimal (strip s)
