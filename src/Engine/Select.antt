-- ===== src/Engine/Select.antt =====
-- What a result set in an unknown order determines.
use mathlib.Core.List.{Permᴰ}
use mathlib.Core.Path.{subst}
use fastdjango.Base.{◌≡◌, refl, sym, List, [], ◌∷◌, All, arith}

module _ {ℓ} {A : Type ℓ} where
  pub Permᴰ-nil : {xs ys : List A} → Permᴰ xs ys → ys ≡ [] → xs ≡ []
  Permᴰ-nil Permᴰ.nil e = refl
  Permᴰ-nil (Permᴰ.cons p h) e = ground arith
  Permᴰ-nil (Permᴰ.swap p q) e = ground arith
  Permᴰ-nil (Permᴰ.trans h k) e = Permᴰ-nil h (Permᴰ-nil k e)

  pub Permᴰ-singleton : {xs ys : List A} → Permᴰ xs ys → (a : A) → ys ≡ a ∷ [] → xs ≡ a ∷ []
  Permᴰ-singleton Permᴰ.nil a e = e
  Permᴰ-singleton (Permᴰ.cons p h) a e = ground (arith, Permᴰ-nil h)
  Permᴰ-singleton (Permᴰ.swap p q) a e = ground arith
  Permᴰ-singleton (Permᴰ.trans h k) a e = Permᴰ-singleton h a (Permᴰ-singleton k a e)

  pub Permᴰ-All {κ} : (P : A → Type κ) {xs ys : List A} → Permᴰ xs ys → All P ys → All P xs
  Permᴰ-All P Permᴰ.nil h = h
  Permᴰ-All P (Permᴰ.cons p r) h = (subst P (sym p) h.0, Permᴰ-All P r h.1)
  Permᴰ-All P (Permᴰ.swap p q) h = (subst P (sym p) h.1.0, (subst P (sym q) h.0, h.1.1))
  Permᴰ-All P (Permᴰ.trans r s) h = Permᴰ-All P r (Permᴰ-All P s h)
