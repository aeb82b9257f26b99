-- ===== src/Outcome.antt =====
-- Code that returns or raises, over a state: a `def` or `async def` is an action of `Exec`. What was
-- written before a raise stays written, so the state comes back beside the exception too.
pub mod Preserves
use fastdjango.Base.{◌≡◌, ◌⊎◌, refl, inl, inr}
use fastdjango.Errors.{Exception}

pub data Outcome {ℓ} (A : Type ℓ) : Type ℓ where
  ok : A → Outcome A
  raise : Exception → Outcome A

abbrev pub Exec {ℓ} : Type ℓ → Type ℓ → Type ℓ
Exec S A = S → Outcome A × S

module _ {ℓ} {S A : Type ℓ} where
  abbrev pub pure : A → Exec S A
  pure a s = (ok a, s)

  abbrev pub throw : Exception → Exec S A
  throw e s = (raise e, s)

  abbrev pub lift : Outcome A → Exec S A
  lift r s = (r, s)

module _ {ℓ} {S A B : Type ℓ} where
  abbrev pub continue : Outcome A → (A → Exec S B) → Exec S B
  continue (ok a) f s = f a s
  continue (raise e) f s = (raise e, s)

  infixl 5 ◌>>=◌ ◌>>◌
  abbrev pub ◌>>=◌ : Exec S A → (A → Exec S B) → Exec S B
  ◌>>=◌ m f s = continue (m s).0 f (m s).1

  abbrev pub ◌>>◌ : Exec S A → Exec S B → Exec S B
  m >> n = m >>= λ _. n

-- `try: m` with `except Exception as exception: handler`.
abbrev pub handle {ℓ} : {S A : Type ℓ} → (Exception → Exec S A) → Outcome A → Exec S A
handle handler (ok a) s = (ok a, s)
handle handler (raise e) s = handler e s

abbrev pub catch {ℓ} : {S A : Type ℓ} → Exec S A → (Exception → Exec S A) → Exec S A
catch m handler s = handle handler (m s).0 (m s).1

pub Outcome-cases {ℓ} :
    {A : Type ℓ} (r : Outcome A) → ((a : A) × (r ≡ ok a)) ⊎ ((e : Exception) × (r ≡ raise e))
Outcome-cases (ok a) = inl (a, refl)
Outcome-cases (raise e) = inr (e, refl)
