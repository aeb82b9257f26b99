-- ===== src/Versions/Comparison.antt =====
-- `_compare_versions` orders versions by their numbers, where a missing number counts as zero.
use fastdjango.Base.{
  ℕ, zero, suc, ◌+◌, ◌-◌, ◌≡◌, refl, ◌∙◌, ap, sym, ◌↔◌, Bool, true, false, ◌&&◌, ◌||◌, List, [],
  ◌∷◌, ◌++◌, ltb, ◌==◌, nat_eq, length, ◌≤◌, if◌then◌else◌, arith, Bool-cases, inl, inr,
}
use fastdjango.Base.Int.{ℤ, pos, negsuc}
use fastdjango.Versions.{zeros, max, padded, tuple_less, compare_keys}

-- The comparison by recursion, without padding: a missing number counts as zero.
unfoldable pub below : List ℕ → List ℕ → Bool
below xs [] = false
below [] (y ∷ ys) = ltb 0 y || below [] ys
below (x ∷ xs) (y ∷ ys) = ltb x y || x == y && below xs ys

pad : ℕ → List ℕ → List ℕ
pad zero xs = xs
pad (suc n) [] = 0 ∷ pad n []
pad (suc n) (x ∷ xs) = x ∷ pad n xs

zeros_lem : (n : ℕ) → zeros n ≡ pad n []
unfolding pad
zeros_lem zero = refl
zeros_lem (suc n) = ap (λ ys. 0 ∷ ys) (zeros_lem n)

padded_lem : (n : ℕ) (xs : List ℕ) → length xs ≤ n → padded n xs ≡ pad n xs
unfolding pad
padded_lem n [] h = let whole : n - 0 ≡ n = omega arith in ap zeros whole ∙ zeros_lem n
padded_lem zero (x ∷ xs) h = ground arith
padded_lem (suc n) (x ∷ xs) h =
    let rest : suc n - suc (length xs) ≡ n - length xs = omega arith in
    ap (λ k. x ∷ (xs ++ zeros k)) rest ∙ ap (λ ys. x ∷ ys) (padded_lem n xs (ground arith))

pad_less :
    (n : ℕ) (xs ys : List ℕ)
    → length xs ≤ n
    → length ys ≤ n
    → tuple_less (pad n xs) (pad n ys) ≡ below xs ys
unfolding tuple_less below pad
pad_less zero [] [] h k = refl
pad_less zero (x ∷ xs) ys h k = ground arith
pad_less zero [] (y ∷ ys) h k = ground arith
pad_less (suc n) [] [] h k = ground (arith, pad_less n [] [])
pad_less (suc n) [] (y ∷ ys) h k = ground (arith, pad_less n [] ys)
pad_less (suc n) (x ∷ xs) [] h k = ground (arith, pad_less n xs [])
pad_less (suc n) (x ∷ xs) (y ∷ ys) h k = ground (arith, pad_less n xs ys)

padded_less :
    (n : ℕ) (xs ys : List ℕ)
    → length xs ≤ n
    → length ys ≤ n
    → tuple_less (padded n xs) (padded n ys) ≡ below xs ys
padded_less n xs ys h k = rw (padded_lem n xs h, padded_lem n ys k) (pad_less n xs ys h k)

-- The comparison with padding is the one without.
compare_keys_lem :
    (left right : List ℕ)
    → compare_keys left right
      ≡ (if below left right then negsuc 0 else if below right left then pos 1 else pos 0)
unfolding compare_keys
compare_keys_lem left right = rw (
  padded_less (max (length left) (length right)) left right (ground arith) (ground arith),
  padded_less (max (length left) (length right)) right left (ground arith) (ground arith),
)

asymmetric : (xs ys : List ℕ) → below xs ys ≡ true → below ys xs ≡ false
unfolding below
asymmetric xs [] h = ground arith
asymmetric [] (y ∷ ys) h = refl
asymmetric (x ∷ xs) (y ∷ ys) h = ground (arith, asymmetric xs ys)

abbrev pub opposite : ℤ → ℤ
opposite (pos zero) = pos zero
opposite (pos (suc n)) = negsuc n
opposite (negsuc n) = pos (suc n)

-- Exchanging the two keys changes the sign of the comparison.
compare_keys-swapped :
    (left right : List ℕ) → compare_keys right left ≡ opposite (compare_keys left right)
compare_keys-swapped left right = elim (Bool-cases (below left right)) [
  | inl less ↦
      rw
        (compare_keys_lem left right, compare_keys_lem right left, less, asymmetric left right less)
  | inr not_less ↦ elim (Bool-cases (below right left)) [
    | inl more ↦ rw (compare_keys_lem left right, compare_keys_lem right left, not_less, more)
    | inr same ↦ rw (compare_keys_lem left right, compare_keys_lem right left, not_less, same)
  ]
]

-- The number of a key at a place, zero where the key has ended.
abbrev pub part : List ℕ → ℕ → ℕ
part [] i = 0
part (x ∷ xs) zero = x
part (x ∷ xs) (suc i) = part xs i

-- At the first place where they differ, the left numbers are smaller.
abbrev pub IsLess : (ℕ → ℕ) → (ℕ → ℕ) → Type 0
IsLess left right = (i : ℕ) × ((j : ℕ) → j + 1 ≤ i → left j ≡ right j) × (left i + 1 ≤ right i)

-- The same first numbers are no difference.
IsLess-shift :
    (left right : ℕ → ℕ)
    → left 0 ≡ right 0
    → IsLess (λ i. left (suc i)) (λ i. right (suc i))
    → IsLess left right
IsLess-shift left right same (i, before, less) = (suc i, go, less)
  where
    go : (j : ℕ) → j + 1 ≤ suc i → left j ≡ right j
    go zero h = same
    go (suc j) h = before j (ground arith)

below-IsLess : (xs ys : List ℕ) → below xs ys ≡ true → IsLess (part xs) (part ys)
unfolding below
below-IsLess xs [] h = ground arith
below-IsLess [] (y ∷ ys) h = elim (Bool-cases (ltb 0 y)) [
  | inl here ↦ (0, λ j no. ground arith, ground arith)
  | inr equal ↦
      IsLess-shift (part []) (part (y ∷ ys)) (ground arith) (below-IsLess [] ys (ground arith))
]
below-IsLess (x ∷ xs) (y ∷ ys) h = elim (Bool-cases (ltb x y)) [
  | inl here ↦ (0, λ j no. ground arith, ground arith)
  | inr not_here ↦
      IsLess-shift (part (x ∷ xs)) (part (y ∷ ys)) (ground arith)
        (below-IsLess xs ys (ground arith))
]

-- A negative comparison means that the left key is smaller at the first place where the keys differ.
pub compare_keys-IsLess :
    (left right : List ℕ) (n : ℕ)
    → compare_keys left right ≡ negsuc n
    → IsLess (part left) (part right)
compare_keys-IsLess left right n h = elim (Bool-cases (below left right)) [
  | inl less ↦ below-IsLess left right less
  | inr not_less ↦ elim (Bool-cases (below right left)) [
    | inl more ↦ ground (arith, compare_keys_lem left right)
    | inr same ↦ ground (arith, compare_keys_lem left right)
  ]
]

same_parts :
    (xs ys : List ℕ) → below xs ys ≡ false → below ys xs ≡ false → (i : ℕ) → part xs i ≡ part ys i
unfolding below
same_parts [] [] h k i = refl
same_parts [] (y ∷ ys) h k zero = ground arith
same_parts [] (y ∷ ys) h k (suc i) = same_parts [] ys (ground arith) (ground arith) i
same_parts (x ∷ xs) [] h k zero = ground arith
same_parts (x ∷ xs) [] h k (suc i) = same_parts xs [] (ground arith) (ground arith) i
same_parts (x ∷ xs) (y ∷ ys) h k zero = ground arith
same_parts (x ∷ xs) (y ∷ ys) h k (suc i) = same_parts xs ys (ground arith) (ground arith) i

parts_same : (xs ys : List ℕ) → ((i : ℕ) → part xs i ≡ part ys i) → below xs ys ≡ false
unfolding below
parts_same xs [] h = refl
parts_same [] (y ∷ ys) h = ground (arith, h 0, parts_same [] ys (λ i. h (suc i)))
parts_same (x ∷ xs) (y ∷ ys) h = ground (arith, h 0, parts_same xs ys (λ i. h (suc i)))

not_below : (xs ys : List ℕ) → compare_keys xs ys ≡ pos 0 → below xs ys ≡ false
not_below xs ys equal = ground (arith, compare_keys_lem xs ys)

-- Two keys compare as equal exactly if they have the same number at every place, missing ones being zero.
pub compare_keys-equal :
    (left right : List ℕ)
    → (compare_keys left right ≡ pos 0) ↔ ((i : ℕ) → part left i ≡ part right i)
compare_keys-equal left right = (
  λ equal.
      same_parts left right (not_below left right equal) (not_below right left (swapped equal)),
  λ same. rw (
    compare_keys_lem left right,
    parts_same left right same,
    parts_same right left (λ i. sym (same i)),
  ),
)
  where
    swapped : compare_keys left right ≡ pos 0 → compare_keys right left ≡ pos 0
    swapped equal = compare_keys-swapped left right ∙ ap opposite equal
