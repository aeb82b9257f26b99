-- ===== src/Updater/Scan.antt =====
-- The pieces of the regular expressions that the updater matches with.
use fastdjango.Base.{
  ℕ, ◌+◌, ◌*◌, Bool, true, false, ◌&&◌, ◌||◌, [], ◌∷◌, Option, none, some, Text, ◌==◌, nat_eq,
  if◌then◌else◌,
}

-- One match after another.
module _ {ℓ} {A B : Type ℓ} where
  infixl 5 ◌>>=◌
  abbrev pub ◌>>=◌ : Option A → (A → Option B) → Option B
  none >>= f = none
  (some a) >>= f = f a

abbrev pub newline : ℕ
newline = 10

-- `.*`, up to the end of the line
unfoldable pub line : Text → Text
line [] = []
line (c ∷ s) = let rest = line s in if c == newline then [] else c ∷ rest

-- `.*$`: the rest of the line, if it is the last one
unfoldable pub last_line : Text → Option Text
last_line [] = some []
last_line (c ∷ s) = elim (c == newline) [
  | true ↦ elim s [ [] ↦ some [] | _ ∷ _ ↦ none ]
  | false ↦ do rest ← last_line s; some (c ∷ rest)
]

-- one literal character
unfoldable pub literal : ℕ → Text → Option Text
literal d [] = none
literal d (c ∷ s) = if c == d then some s else none

-- a literal text
unfoldable pub literals : Text → Text → Option Text
unfolding literal
literals [] s = some s
literals (d ∷ p) s = do rest ← literal d s; literals p rest

-- `s.removeprefix(c)` for one character
unfoldable pub remove_prefix : ℕ → Text → Text
remove_prefix d [] = []
remove_prefix d (c ∷ s) = if c == d then s else c ∷ s

module _ (decimal : ℕ → Option ℕ) where
  -- `\d`
  abbrev pub is_digit : ℕ → Bool
  is_digit c = elim (decimal c) [ none ↦ false | some _ ↦ true ]

  unfoldable pub starts_digit : Text → Bool
  starts_digit [] = false
  starts_digit (c ∷ s) = is_digit c

  -- `\d`, with the number before it
  unfoldable pub digit : ℕ × Text → Option (ℕ × Text)
  digit (acc, []) = none
  digit (acc, c ∷ s) = do d ← decimal c; some (acc * 10 + d, s)

  -- `\d{2}`
  unfoldable pub two_digits : Text → Option (ℕ × Text)
  unfolding digit
  two_digits s = do first ← digit (0, s); digit first

  -- `\d{4}`
  unfoldable pub four_digits : Text → Option (ℕ × Text)
  unfolding digit two_digits
  four_digits s = do front ← two_digits s; third ← digit front; digit third

  -- `\d+` up to the end, after the digits that have been read
  unfoldable pub digits_to_end : ℕ → Text → Option ℕ
  digits_to_end acc [] = some acc
  digits_to_end acc (c ∷ s) = do d ← decimal c; digits_to_end (acc * 10 + d) s

  -- the longest `\d+(?:\.\d+)*` inside or after a number, and what follows it
  unfoldable pub release : Text → Text × Text
  unfolding starts_digit
  release [] = ([], [])
  release (c ∷ s) =
      let rest = release s in
      if is_digit c || c == b'.' && starts_digit s then (c ∷ rest.0, rest.1) else ([], c ∷ s)
