-- ===== src/Updater/Requirements/Bounds.antt =====
-- What it means that a version is within the upper bounds of a requirement, and where the new lower bound stands.
use mathlib.Core.Path.{subst}
use fastdjango.Base.{
  sym, ℕ, zero, suc, ◌≡◌, ◌⊎◌, ◌≢◌, refl, ap, ◌∙◌, Bool, true, List, [], ◌∷◌, ◌++◌, Option, none,
  some, Text, codes, All, strip, partition, Option-cases, Bool-cases, inl, inr, arith,
}
use fastdjango.Base.Int.{ℤ, pos, negsuc}
use fastdjango.Versions.{version_key, compare_versions, compare_keys}
use fastdjango.Versions.Comparison.{part, IsLess, compare_keys-IsLess, compare_keys-equal}
use fastdjango.Updater.Requirements.{
  name_match, bound_at, with_first_bound, updated_specifier, with_lower_bound, upper_bounds, allows,
  all_allow, satisfies_upper_bounds,
}

module _ (decimal : ℕ → Option ℕ) where
  -- The numbers of the version come before those of the bound, or, for `<=`, are the same at every place.
  abbrev pub IsWithin : Text → Bool × Text → Type 0
  IsWithin version (inclusive, bound) =
      (left : List ℕ) × (right : List ℕ) × (version_key decimal version ≡ some left)
      × (version_key decimal bound ≡ some right)
      × (IsLess (part left) (part right)
          ⊎ ((inclusive ≡ true) × ((i : ℕ) → part left i ≡ part right i)))

  -- The upper bounds that are read in the part of a requirement in front of its marker.
  abbrev pub bounds_of : Text → List (Bool × Text)
  unfolding upper_bounds name_match strip partition
  bounds_of requirement = elim (name_match (partition b';' requirement).before) [
    | none ↦ []
    | some m ↦ upper_bounds zero true (strip m.rest)
  ]

  keys_within :
      (inclusive : Bool) (left right : List ℕ) (order : ℤ)
      → compare_keys left right ≡ order
      → allows inclusive (some order) ≡ true
      → IsLess (part left) (part right)
        ⊎ ((inclusive ≡ true) × ((i : ℕ) → part left i ≡ part right i))
  keys_within inclusive left right (negsuc n) e h = inl (compare_keys-IsLess left right n e)
  keys_within inclusive left right (pos zero) e h = inr (h, (compare_keys-equal left right).0 e)
  keys_within inclusive left right (pos (suc n)) e h = ground arith

  allows-IsWithin :
      (version bound : Text) (inclusive : Bool)
      → allows inclusive (compare_versions decimal version bound) ≡ true
      → IsWithin version (inclusive, bound)
  unfolding compare_versions
  allows-IsWithin version bound inclusive h = elim (Option-cases (version_key decimal version)) [
    | inl e ↦ ground arith
    | inr (left, e) ↦ elim (Option-cases (version_key decimal bound)) [
      | inl f ↦ ground arith
      | inr (right, f) ↦ (
        left,
        right,
        e,
        f,
        keys_within inclusive left right (compare_keys left right) refl (ground arith),
      )
    ]
  ]

  all_allow-IsWithin :
      (version : Text) (bounds : List (Bool × Text))
      → all_allow decimal version bounds ≡ true
      → All (IsWithin version) bounds
  unfolding all_allow
  all_allow-IsWithin version [] h = tt
  all_allow-IsWithin version ((inclusive, bound) ∷ bounds) h = (
    allows-IsWithin version bound inclusive (ground arith),
    all_allow-IsWithin version bounds (ground arith),
  )

  pub satisfies_upper_bounds-IsWithin :
      (requirement version : Text)
      → satisfies_upper_bounds decimal requirement version ≡ true
      → All (IsWithin version) (bounds_of requirement)
  unfolding satisfies_upper_bounds bounds_of
  satisfies_upper_bounds-IsWithin requirement version h =
      elim (Option-cases (name_match (partition b';' requirement).before)) [
        | inl e ↦
            let nothing : bounds_of requirement ≡ [] = rw (bounds_of, e) refl in
            subst (All (IsWithin version)) (sym nothing) tt
        | inr (m, e) ↦
            let bounds = upper_bounds zero true (strip m.rest) in
            let read : bounds_of requirement ≡ bounds = rw (bounds_of, e) refl in
            subst (All (IsWithin version)) (sym read)
              (all_allow-IsWithin version bounds (ground arith))
      ]

-- The text has this lower bound.
abbrev pub HasLowerBound : Text → Text → Type 0
HasLowerBound version text =
    (front : Text) × (back : Text) × (text ≡ front ++ (codes ">=" ++ (version ++ back)))

HasLowerBound-cons :
    (version text : Text) (c : ℕ) → HasLowerBound version text → HasLowerBound version (c ∷ text)
HasLowerBound-cons version text c (front, back, e) = (c ∷ front, back, ap (λ s. c ∷ s) e)

HasLowerBound-in_front :
    (version front text : Text) → HasLowerBound version text → HasLowerBound version (front ++ text)
HasLowerBound-in_front version [] text h = h
HasLowerBound-in_front version (c ∷ front) text h =
    HasLowerBound-cons version (front ++ text) c (HasLowerBound-in_front version front text h)

pub append_assoc : (a b c : Text) → a ++ b ++ c ≡ a ++ (b ++ c)
append_assoc [] b c = refl
append_assoc (x ∷ a) b c = ap (λ s. x ∷ s) (append_assoc a b c)

HasLowerBound-behind :
    (version text behind : Text)
    → HasLowerBound version text
    → HasLowerBound version (text ++ behind)
HasLowerBound-behind version text behind (front, back, e) = (
  front,
  back ++ behind,
  ap (λ s. s ++ behind) e
      ∙ (append_assoc front (codes ">=" ++ (version ++ back)) behind
          ∙ ap (λ s. front ++ (codes ">=" ++ s)) (append_assoc version back behind)),
)

with_first_bound_lem :
    (version s u : Text) → with_first_bound version s ≡ some u → HasLowerBound version u
unfolding with_first_bound
with_first_bound_lem version [] u h = ground arith
with_first_bound_lem version (c ∷ s) u h = elim (Option-cases (bound_at b'>' (c ∷ s))) [
  | inr ((inclusive, word, rest), e) ↦
      let written : codes ">=" ++ version ++ rest ≡ u = ground arith in ([], rest, sym written)
  | inl e ↦ elim (Option-cases (with_first_bound version s)) [
    | inl f ↦ ground arith
    | inr (updated, f) ↦
        let written : c ∷ updated ≡ u = ground arith in
        subst (HasLowerBound version) written
          (HasLowerBound-cons version updated c (with_first_bound_lem version s updated f))
  ]
]

updated_specifier_lem :
    (version specifier : Text) → HasLowerBound version (updated_specifier version specifier)
unfolding updated_specifier
updated_specifier_lem version [] = ([], [], sym (append_nil version))
  where
    append_nil : (s : Text) → codes ">=" ++ s ++ [] ≡ codes ">=" ++ s
    append_nil s = ap (λ t. codes ">=" ++ t) (go s)
      where
        go : (s : Text) → s ++ [] ≡ s
        go [] = refl
        go (x ∷ s) = ap (λ t. x ∷ t) (go s)
updated_specifier_lem version (c ∷ specifier) =
    elim (Option-cases (with_first_bound version (c ∷ specifier))) [
      | inl e ↦ rw (updated_specifier, e) ([], b',' ∷ c ∷ specifier, refl)
      | inr (u, e) ↦ rw (updated_specifier, e) (with_first_bound_lem version (c ∷ specifier) u e)
    ]

-- Where a requirement is changed, it has the new version as its lower bound.
pub with_lower_bound-HasLowerBound :
    (requirement version : Text)
    → with_lower_bound requirement version ≢ requirement
    → HasLowerBound version (with_lower_bound requirement version)
unfolding with_lower_bound
with_lower_bound-HasLowerBound requirement version changed =
    elim (Option-cases (name_match (partition b';' requirement).before)) [
      | inl e ↦ absurd (changed (rw (with_lower_bound, e) refl))
      | inr (m, e) ↦
          let front : Text = m.name ++ m.extras in
          let updated : Text = m.name ++ m.extras ++ updated_specifier version (strip m.rest) in
          let bound : HasLowerBound version updated =
            HasLowerBound-in_front version front _ (updated_specifier_lem version (strip m.rest)) in
          elim (Bool-cases (partition b';' requirement).found) [
            | inl f ↦
                let written : with_lower_bound requirement version
                    ≡ updated ++ b';' ∷ (partition b';' requirement).after =
                  rw (with_lower_bound, e, f) refl in
                subst (HasLowerBound version) (sym written)
                  (HasLowerBound-behind version updated _ bound)
            | inr f ↦
                let written : with_lower_bound requirement version ≡ updated =
                  rw (with_lower_bound, e, f) refl in
                subst (HasLowerBound version) (sym written) bound
          ]
    ]
