-- ===== src/Jwt/RoundTrip.antt =====
-- `int(str(n))` is `n`.
use mathlib.Core.Path.{subst}
use mathlib.Core.List.{reverse, reverse_aux, reverse-reverse}
use fastdjango.Base.{
  any, ℕ, zero, suc, ◌+◌, ◌-◌, ◌*◌, ◌/◌, ◌%◌, ◌<◌, ◌≤◌, ◌≡◌, refl, ap, ◌∙◌, true, false, [], ◌∷◌,
  ◌++◌, Option, some, Text, All, length, ltb, nat_eq, eq_iff, is_space, lstrip, strip, Bool-cases,
  inl, inr, arith,
}
use fastdjango.Base.Int.{ℤ, pos, negsuc}
use fastdjango.Jwt.Numbers.{
  digits_of, str_of_int, parse_digits, parse_signed, parse_int, keeps_separator, is_separator,
}

-- The digits of ASCII have their values.
abbrev pub IsDecimal : (ℕ → Option ℕ) → Type 0
IsDecimal decimal = (d : ℕ) → d < 10 → decimal (48 + d) ≡ some d

abbrev IsDigit : ℕ → Type 0
IsDigit c = (48 ≤ c) × (c < 58)

-- The number that digits write, after the number that stands before them.
value : ℕ → Text → ℕ
value acc [] = acc
value acc (c ∷ s) = value (acc * 10 + (c - 48)) s

value-append : (acc : ℕ) (s : Text) (c : ℕ) → value acc (s ++ c ∷ []) ≡ value acc s * 10 + (c - 48)
unfolding value
value-append acc [] c = refl
value-append acc (d ∷ s) c = value-append (acc * 10 + (d - 48)) s c

All-snoc : (s : Text) (c : ℕ) → All IsDigit s → IsDigit c → All IsDigit (s ++ c ∷ [])
All-snoc [] c h k = (k, tt)
All-snoc (d ∷ s) c h k = (h.0, All-snoc s c h.1 k)

digits_of-All : (fuel n : ℕ) → n ≤ fuel → All IsDigit (digits_of fuel n)
unfolding digits_of
digits_of-All zero n h = ((ground arith, ground arith), tt)
digits_of-All (suc fuel) n h = elim (Bool-cases (ltb n 10)) [
  | inl e ↦ rw e ((ground arith, ground arith), tt)
  | inr e ↦ rw e (
      All-snoc (digits_of fuel (n / 10)) (48 + n % 10) (digits_of-All fuel (n / 10) (ground arith))
        (ground arith, ground arith))
]

digits_of-value : (fuel n : ℕ) → n ≤ fuel → value 0 (digits_of fuel n) ≡ n
unfolding digits_of value
digits_of-value zero n h = ground arith
digits_of-value (suc fuel) n h =
    ground
      (arith, digits_of-value fuel (n / 10), value-append 0 (digits_of fuel (n / 10)) (48 + n % 10))

-- Digits are read as the number that they write, if they are not too many.
parse_digits-value :
    (decimal : ℕ → Option ℕ) (count acc : ℕ) (s : Text)
    → IsDecimal decimal
    → All IsDigit s
    → count + length s ≤ 4300
    → parse_digits decimal count acc true s ≡ some (value acc s)
unfolding parse_digits value
parse_digits-value decimal count acc [] d h k = ground arith
parse_digits-value decimal count acc (c ∷ s) d h k =
    let digit : 48 + (c - 48) ≡ c = ground arith in
    let read : decimal c ≡ some (c - 48) =
      subst (λ x. decimal x ≡ some (c - 48)) digit (d (c - 48) (ground arith)) in
    rw (parse_digits, read)
      (parse_digits-value decimal (suc count) (acc * 10 + (c - 48)) s d h.1 (ground arith))

-- A number below a power of ten has no more digits than that.
unfoldable pub power_of_ten : ℕ → ℕ
power_of_ten zero = 1
power_of_ten (suc k) = 10 * power_of_ten k

length-snoc : (s : Text) (c : ℕ) → length (s ++ c ∷ []) ≡ suc (length s)
length-snoc [] c = refl
length-snoc (d ∷ s) c = ground (arith, length-snoc s c)

digits_of-length : (k fuel n : ℕ) → n < power_of_ten (suc k) → length (digits_of fuel n) ≤ suc k
unfolding digits_of power_of_ten
digits_of-length k zero n h = ground arith
digits_of-length zero (suc fuel) n h = ground arith
digits_of-length (suc k) (suc fuel) n h =
    ground
      (arith, digits_of-length k fuel (n / 10), length-snoc (digits_of fuel (n / 10)) (48 + n % 10))

-- White space is nothing that digits or a sign are.
IsSolid : ℕ → Type 0
unfolding is_space
IsSolid c = is_space c ≡ false

lstrip-solid : (s : Text) → All IsSolid s → lstrip s ≡ s
unfolding lstrip IsSolid
lstrip-solid [] h = refl
lstrip-solid (c ∷ s) h = ground arith

reverse_aux-All : (s t : Text) → All IsSolid s → All IsSolid t → All IsSolid (reverse_aux s t)
reverse_aux-All [] t h k = k
reverse_aux-All (c ∷ s) t h k = reverse_aux-All s (c ∷ t) h.1 (h.0, k)

strip-solid : (s : Text) → All IsSolid s → strip s ≡ s
unfolding strip
strip-solid s h =
    ap (λ t. reverse (lstrip (reverse t))) (lstrip-solid s h)
    ∙ ap reverse (lstrip-solid (reverse s) (reverse_aux-All s [] h tt))
    ∙ reverse-reverse s

no_separator : (s : Text) → All IsSolid s → any is_separator s ≡ false
unfolding is_space IsSolid
no_separator [] h = refl
no_separator (c ∷ s) h = ground (arith, no_separator s h.1)

solid-keeps_separator : (s : Text) → All IsSolid s → keeps_separator s ≡ false
unfolding keeps_separator
solid-keeps_separator s h = ground (arith, no_separator s h)

digit-IsSolid : (c : ℕ) → IsDigit c → IsSolid c
unfolding is_space IsSolid
digit-IsSolid c h = ground arith

digits-IsSolid : (s : Text) → All IsDigit s → All IsSolid s
digits-IsSolid [] h = tt
digits-IsSolid (c ∷ s) h = (digit-IsSolid c h.0, digits-IsSolid s h.1)

-- A digit begins no sign.
parse_signed-digits :
    (decimal : ℕ → Option ℕ) (s : Text) (n : ℕ)
    → IsDecimal decimal
    → All IsDigit s
    → length s ≤ 4300
    → value 0 s ≡ n
    → 1 ≤ length s
    → (parse_digits decimal 0 0 false s ≡ some n) × (parse_signed decimal s ≡ some (pos n))
unfolding parse_signed parse_digits value
parse_signed-digits decimal [] n d h k e l = ground arith
parse_signed-digits decimal (c ∷ s) n d h k e l =
    let digit : 48 + (c - 48) ≡ c = ground arith in
    let read : decimal c ≡ some (c - 48) =
      subst (λ x. decimal x ≡ some (c - 48)) digit (d (c - 48) (ground arith)) in
    let rest = parse_digits-value decimal 1 (0 * 10 + (c - 48)) s d h.1 (ground arith) in
    let parsed : parse_digits decimal 0 0 false (c ∷ s) ≡ some n = ground (arith, rest) in
    (parsed, ground (arith, eq_iff c b'-', eq_iff c b'+'))

digits_of-length_pos : (fuel n : ℕ) → 1 ≤ length (digits_of fuel n)
unfolding digits_of
digits_of-length_pos zero n = ground arith
digits_of-length_pos (suc fuel) n =
    ground (arith, length-snoc (digits_of fuel (n / 10)) (48 + n % 10))

parse_signed-minus :
    (decimal : ℕ → Option ℕ) (s : Text) (n : ℕ)
    → parse_digits decimal 0 0 false s ≡ some (suc n)
    → parse_signed decimal (b'-' ∷ s) ≡ some (negsuc n)
unfolding parse_signed
parse_signed-minus decimal s n e = rw e

minus-IsSolid : IsSolid b'-'
unfolding IsSolid is_space
minus-IsSolid = refl

-- The size of an integer.
abbrev pub magnitude : ℤ → ℕ
magnitude (pos n) = n
magnitude (negsuc n) = suc n

pub parse_int-str_of_int :
    (decimal : ℕ → Option ℕ) (k : ℕ) (n : ℤ)
    → IsDecimal decimal
    → suc k ≤ 4300
    → magnitude n < power_of_ten (suc k)
    → parse_int decimal (str_of_int n) ≡ some n
unfolding parse_int str_of_int
parse_int-str_of_int decimal k (pos n) d l h =
    let digits = digits_of-All n n (ground arith) in
    let size = digits_of-length k n n h in
    let solid = digits-IsSolid (digits_of n n) digits in
    rw (solid-keeps_separator (digits_of n n) solid, strip-solid (digits_of n n) solid)
      (parse_signed-digits decimal (digits_of n n) n d digits (ground arith)
        (digits_of-value n n (ground arith)) (digits_of-length_pos n n)).1
parse_int-str_of_int decimal k (negsuc n) d l h =
    let digits = digits_of-All (suc n) (suc n) (ground arith) in
    let size = digits_of-length k (suc n) (suc n) h in
    let (parsed, _) =
      parse_signed-digits decimal (digits_of (suc n) (suc n)) (suc n) d digits (ground arith)
        (digits_of-value (suc n) (suc n) (ground arith)) (digits_of-length_pos (suc n) (suc n)) in
    let solid : All IsSolid (b'-' ∷ digits_of (suc n) (suc n)) =
      (minus-IsSolid, digits-IsSolid (digits_of (suc n) (suc n)) digits) in
    rw
      (
        solid-keeps_separator (b'-' ∷ digits_of (suc n) (suc n)) solid,
        strip-solid (b'-' ∷ digits_of (suc n) (suc n)) solid,
      )
      (parse_signed-minus decimal (digits_of (suc n) (suc n)) n parsed)
