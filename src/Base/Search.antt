-- ===== src/Base/Search.antt =====
-- Searches in lists by a Boolean test: what `any` says of `keep`.
use mathlib.Core.Path.{◌≡◌, refl, subst}
use mathlib.Core.Logic.{◌⊎◌, inl, inr}
use mathlib.Core.Bool.{Bool, true, false}
use mathlib.Core.List.{List, [], ◌∷◌}
use native.Mathlib.Omega.{arith}
use fastdjango.Base.Tests.{Bool-cases}
use fastdjango.Base.Lists.{any, keep, All}

module _ {ℓ} {A : Type ℓ} where
  -- No element of `xs` passes `p`, or exactly one does.
  abbrev pub AtMostOne : (A → Bool) → List A → Type ℓ
  AtMostOne p xs = (keep p xs ≡ []) ⊎ ((x : A) × (keep p xs ≡ x ∷ []))

  pub keep-nil : (p : A → Bool) (xs : List A) → any p xs ≡ false → keep p xs ≡ []
  keep-nil p [] h = refl
  keep-nil p (x ∷ xs) h = ground (arith, keep-nil p xs)

  pub any-false : (p : A → Bool) (xs : List A) → keep p xs ≡ [] → any p xs ≡ false
  any-false p [] h = refl
  any-false p (x ∷ xs) h = ground (arith, any-false p xs)

  -- A test that is weaker on every element fails where the stronger one fails.
  pub any-weaken :
      (p q : A → Bool) (xs : List A)
      → ((x : A) → p x ≡ true → q x ≡ true)
      → any q xs ≡ false
      → any p xs ≡ false
  any-weaken p q [] imp h = refl
  any-weaken p q (x ∷ xs) imp h = ground (arith, imp x, any-weaken p q xs imp)

  pub keep-passes : (p : A → Bool) (xs : List A) (x : A) → keep p xs ≡ x ∷ [] → p x ≡ true
  keep-passes p [] x h = ground arith
  keep-passes p (y ∷ ys) x h = elim (Bool-cases (p y)) [
    | inl e ↦ ground arith
    | inr e ↦ keep-passes p ys x (ground arith)
  ]

  pub any-true : (p : A → Bool) (xs : List A) (x : A) → keep p xs ≡ x ∷ [] → any p xs ≡ true
  any-true p [] x h = ground arith
  any-true p (y ∷ ys) x h = ground (arith, any-true p ys x)

-- What holds of all elements holds of the one that is kept.
pub keep-All {ℓ κ} :
    {A : Type ℓ} (P : A → Type κ) (p : A → Bool) (xs : List A) (x : A)
    → All P xs
    → keep p xs ≡ x ∷ []
    → P x
keep-All P p [] x h e = ground arith
keep-All P p (y ∷ ys) x h e = elim (Bool-cases (p y)) [
  | inl t ↦ subst P (ground arith) h.0
  | inr t ↦ keep-All P p ys x h.1 (ground arith)
]

-- No element conflicts with a later one.
abbrev pub Separate {ℓ} : {A : Type ℓ} → (A → A → Bool) → List A → Type 0
Separate conflict [] = Unit
Separate conflict (x ∷ xs) = (any (conflict x) xs ≡ false) × Separate conflict xs

-- Where any two elements that pass `p` conflict, one at most passes.
pub AtMostOne-Separate {ℓ} :
    {A : Type ℓ} (p : A → Bool) (conflict : A → A → Bool) (xs : List A)
    → ((x y : A) → p x ≡ true → p y ≡ true → conflict x y ≡ true)
    → Separate conflict xs
    → AtMostOne p xs
AtMostOne-Separate p conflict [] clash h = inl refl
AtMostOne-Separate p conflict (x ∷ xs) clash h = elim (Bool-cases (p x)) [
  | inl e ↦
      let rest = keep-nil p xs (any-weaken p (conflict x) xs (λ y. clash x y e) h.0) in
      inr (x, rw (e, rest))
  | inr e ↦ rw e (AtMostOne-Separate p conflict xs clash h.1)
]

-- What no element passes.
pub any-All {ℓ} :
    {A : Type ℓ} (p : A → Bool) (xs : List A) → any p xs ≡ false → All (λ x. p x ≡ false) xs
any-All p [] h = tt
any-All p (x ∷ xs) h = (ground arith, any-All p xs (ground arith))

pub All-weaken {ℓ κ μ} :
    {A : Type ℓ} (P : A → Type κ) (Q : A → Type μ) (xs : List A)
    → ((x : A) → P x → Q x)
    → All P xs
    → All Q xs
All-weaken P Q [] f h = tt
All-weaken P Q (x ∷ xs) f h = (f x h.0, All-weaken P Q xs f h.1)
