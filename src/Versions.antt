-- ===== src/Versions.antt =====
-- Release numbers in management/dependency_updater/sync_pyproject_dependency_versions.py: keys, their
-- comparison and upper bounds. `decimal` gives the value of a decimal digit of Unicode. The limit of 4300
-- digits that `int` has is left out.
pub mod Comparison
use fastdjango.Base.{
  ℕ, zero, suc, ◌+◌, ◌-◌, ◌*◌, Bool, true, false, not, ◌&&◌, ◌||◌, List, [], ◌∷◌, ◌++◌, Option,
  none, some, Text, ltb, leb, ◌==◌, nat_eq, length, if◌then◌else◌,
}
use fastdjango.Base.Int.{ℤ, pos, negsuc}

-- The numbers of `\d+(?:\.\d+)*` where it matches: `after_dot` if the last character was the dot after the
-- number `acc`, and else inside that number.
unfoldable pub release_parts : (ℕ → Option ℕ) → Bool → ℕ → Text → List ℕ
release_parts decimal after_dot acc [] = acc ∷ []
release_parts decimal after_dot acc (c ∷ s) = elim (decimal c) [
  | some d ↦
      if after_dot
      then acc ∷ release_parts decimal false d s
      else release_parts decimal false (acc * 10 + d) s
  | none ↦ if c == b'.' && not after_dot then release_parts decimal true acc s else acc ∷ []
]

-- `_version_key`
unfoldable pub version_key : (ℕ → Option ℕ) → Text → Option (List ℕ)
unfolding release_parts
version_key decimal [] = none
version_key decimal (c ∷ s) = elim (decimal c) [
  | some d ↦ some (release_parts decimal false d s)
  | none ↦ none
]

-- `(0,) * n`
abbrev pub zeros : ℕ → List ℕ
zeros zero = []
zeros (suc n) = 0 ∷ zeros n

abbrev pub max : ℕ → ℕ → ℕ
max a b = if leb a b then b else a

abbrev pub padded : ℕ → List ℕ → List ℕ
padded max_length key = key ++ zeros (max_length - length key)

-- `left < right` of tuples
unfoldable pub tuple_less : List ℕ → List ℕ → Bool
tuple_less xs [] = false
tuple_less [] (y ∷ ys) = true
tuple_less (x ∷ xs) (y ∷ ys) = ltb x y || x == y && tuple_less xs ys

abbrev minus_one : ℤ
minus_one = negsuc 0

-- the rest of `_compare_versions` on the two keys
unfoldable pub compare_keys : List ℕ → List ℕ → ℤ
unfolding tuple_less
compare_keys left right =
    let max_length = max (length left) (length right) in
    if tuple_less (padded max_length left) (padded max_length right)
    then minus_one
    else if tuple_less (padded max_length right) (padded max_length left)
    then pos 1
    else pos 0

abbrev compare_found : Option (List ℕ) → Option (List ℕ) → Option ℤ
unfolding compare_keys
compare_found (some left) (some right) = some (compare_keys left right)
compare_found _ _ = none

-- `_compare_versions`
unfoldable pub compare_versions : (ℕ → Option ℕ) → Text → Text → Option ℤ
unfolding version_key compare_found
compare_versions decimal left right =
    compare_found (version_key decimal left) (version_key decimal right)
