-- ===== src/Updater/Images/References.antt =====
-- A reference is its repository and its tag.
use mathlib.Core.Path.{subst}
use fastdjango.Base.{
  ℕ, suc, zero, ◌-◌, ◌≤◌, ◌≡◌, ◌≢◌, refl, ap, true, false, [], ◌∷◌, ◌++◌, Option, none, some, Text,
  codes, ◌==◌, nat_eq, text_eq, eq_iff, ltb, length, any, Parts, partition, starts_with, Bool-cases,
  inl, inr, arith, if◌then◌else◌,
}
use fastdjango.Updater.Images.{
  ContainerImage, image_of, rfind_end, before, from, split_tag, parse_container_image_ref,
  container_image_ref_with_tag,
}

-- This character stands nowhere in the text.
abbrev pub IsFreeOf : ℕ → Text → Type 0
IsFreeOf d s = any (λ c. c == d) s ≡ false

rfind-free : (d : ℕ) (s : Text) → IsFreeOf d s → rfind_end d s ≡ 0
unfolding rfind_end
rfind-free d [] h = refl
rfind-free d (c ∷ s) h = ground (arith, rfind-free d s)

rfind-at : (d : ℕ) (r t : Text) → IsFreeOf d t → rfind_end d (r ++ d ∷ t) ≡ suc (length r)
unfolding rfind_end
rfind-at d [] t h = ground (arith, rfind-free d t, eq_iff d d)
rfind-at d (c ∷ r) t h = ground (arith, rfind-at d r t)

rfind-before :
    (d e : ℕ) (r t : Text) → IsFreeOf e t → (d == e) ≡ false → rfind_end e (r ++ d ∷ t) ≤ length r
unfolding rfind_end
rfind-before d e [] t h k = ground (arith, rfind-free e t)
rfind-before d e (c ∷ r) t h k = ground (arith, rfind-before d e r t)

before-at : (r s : Text) → before (length r) (r ++ s) ≡ r
unfolding before
before-at [] s = refl
before-at (c ∷ r) s = ap (λ t. c ∷ t) (before-at r s)

from-at : (d : ℕ) (r s : Text) → from (suc (length r)) (r ++ d ∷ s) ≡ s
unfolding from
from-at d [] s = refl
from-at d (c ∷ r) s = from-at d r s

partition-free :
    (d : ℕ) (s : Text)
    → IsFreeOf d s
    → partition d s ≡ record { before = s; found = false; after = [] }
unfolding partition
partition-free d [] h = refl
partition-free d (c ∷ s) h =
    let other : (c == d) ≡ false = ground arith in rw (other, partition-free d s (ground arith))

before-IsFreeOf : (d n : ℕ) (s : Text) → IsFreeOf d s → IsFreeOf d (before n s)
unfolding before
before-IsFreeOf d zero s h = refl
before-IsFreeOf d (suc n) [] h = refl
before-IsFreeOf d (suc n) (c ∷ s) h = ground (arith, before-IsFreeOf d n s)

partition-IsFreeOf : (d : ℕ) (s : Text) → IsFreeOf d (partition d s).before
unfolding partition
partition-IsFreeOf d [] = refl
partition-IsFreeOf d (c ∷ s) = ground (arith, partition-IsFreeOf d s)

append-IsFreeOf :
    (e d : ℕ) (r t : Text)
    → IsFreeOf e r
    → (d == e) ≡ false
    → IsFreeOf e t
    → IsFreeOf e (r ++ d ∷ t)
append-IsFreeOf e d [] t h k f = ground arith
append-IsFreeOf e d (c ∷ r) t h k f = ground (arith, append-IsFreeOf e d r t)

starts_with-before :
    (n : ℕ) (s p : Text) → starts_with (before n s) p ≡ true → starts_with s p ≡ true
unfolding starts_with before
starts_with-before n s [] h = refl
starts_with-before zero s (d ∷ p) h = ground arith
starts_with-before (suc n) [] (d ∷ p) h = ground arith
starts_with-before (suc n) (c ∷ s) (d ∷ p) h = ground (arith, starts_with-before n s p)

starts_with-partition :
    (sep : ℕ) (s p : Text) → starts_with (partition sep s).before p ≡ true → starts_with s p ≡ true
unfolding starts_with partition
starts_with-partition sep s [] h = refl
starts_with-partition sep [] (d ∷ p) h = ground arith
starts_with-partition sep (c ∷ s) (d ∷ p) h = ground (arith, starts_with-partition sep s p)

-- A tag that a reference can carry.
abbrev pub IsTag : Text → Type 0
IsTag t = IsFreeOf b':' t × IsFreeOf b'/' t × IsFreeOf b'@' t

split_tag_lem :
    (repository : Text) (c : ℕ) (t : Text)
    → IsTag (c ∷ t)
    → split_tag (repository ++ b':' ∷ c ∷ t) ≡ (repository, some (c ∷ t))
unfolding split_tag
split_tag_lem repository c t (colons, slashes, ats) =
    let at = rfind-at b':' repository (c ∷ t) colons in
    let slash = rfind-before b':' b'/' repository (c ∷ t) slashes refl in
    let later : ltb (rfind_end b'/' (repository ++ b':' ∷ c ∷ t)) (suc (length repository)) ≡ true =
      ground arith in
    let index : suc (length repository) - 1 ≡ length repository = omega arith in
    rw (at, later, index, before-at repository (b':' ∷ c ∷ t), from-at b':' repository (c ∷ t))

starts_with-append :
    (r s : Text)
    → r ≢ []
    → starts_with r (codes "${") ≡ false
    → starts_with (r ++ b':' ∷ s) (codes "${") ≡ false
unfolding starts_with
starts_with-append [] s n h = absurd (n refl)
starts_with-append (c ∷ []) s n h = ground arith
starts_with-append (c ∷ d ∷ r) s n h = ground arith

image_of_lem :
    (parts : Text × Option Text) (digest : Option Text) (image : ContainerImage)
    → image_of parts digest ≡ some image
    → (parts.0 ≡ image.repository) × (image.repository ≢ [])
image_of_lem ([], tag) digest image h = ground arith
image_of_lem (c ∷ r, tag) digest image h = (ground arith, λ e. ground arith)

image_of-some :
    (r : Text) (tag : Option Text)
    → r ≢ []
    → image_of (r, tag) none ≡ some (record { repository = r; tag = tag; digest = none })
image_of-some [] tag n = absurd (n refl)
image_of-some (c ∷ r) tag n = refl

-- The repository that was parsed is part of the reference.
module _ (image_ref : Text) (image : ContainerImage)
    (parsed : parse_container_image_ref image_ref ≡ some image) where
  split_repository :
      (ref : Text)
      → starts_with ref (codes "${") ≡ false
      → IsFreeOf b'@' ref
      → (starts_with (split_tag ref).0 (codes "${") ≡ false) × IsFreeOf b'@' (split_tag ref).0
  unfolding split_tag
  split_repository ref h f = elim (Bool-cases (ltb (rfind_end b'/' ref) (rfind_end b':' ref))) [
    | inl e ↦
        let n : ℕ = rfind_end b':' ref - 1 in
        (
          rw e (ground (arith, starts_with-before n ref (codes "${"))),
          rw e (before-IsFreeOf b'@' n ref f),
        )
    | inr e ↦ (rw e h, rw e f)
  ]

  repository_lem :
      (image.repository ≢ [])
      × (starts_with image.repository (codes "${") ≡ false)
      × IsFreeOf b'@' image.repository
  unfolding parse_container_image_ref
  repository_lem = elim (Bool-cases (starts_with image_ref (codes "${"))) [
    | inl e ↦ ground arith
    | inr e ↦
        let parts : Parts = partition b'@' image_ref in
        let digest : Option Text = if parts.found then some parts.after else none in
        let made : image_of (split_tag parts.before) digest ≡ some image = ground arith in
        let (same, named) = image_of_lem (split_tag parts.before) digest image made in
        let (opens, free) =
          split_repository parts.before
            (ground (arith, starts_with-partition b'@' image_ref (codes "${")))
            (partition-IsFreeOf b'@' image_ref) in
        (
          named,
          subst (λ r. starts_with r (codes "${") ≡ false) same opens,
          subst (λ r. IsFreeOf b'@' r) same free,
        )
  ]

  -- If a reference was parsed, then the reference that the updater writes for a new tag (which holds no
  -- colon, slash or at sign and is not empty) is parsed to the same repository with the new tag, without
  -- a digest.
  pub parse-with_tag :
      (c : ℕ) (t : Text)
      → IsTag (c ∷ t)
      → parse_container_image_ref (container_image_ref_with_tag image (c ∷ t))
        ≡ some (record { repository = image.repository; tag = some (c ∷ t); digest = none })
  unfolding parse_container_image_ref container_image_ref_with_tag
  parse-with_tag c t ok =
      let (named, opens, free) = repository_lem in
      let ref : Text = image.repository ++ b':' ∷ c ∷ t in
      rw
        (
          parse_container_image_ref,
          starts_with-append image.repository (c ∷ t) named opens,
          partition-free b'@' ref
              (append-IsFreeOf b'@' b':' image.repository (c ∷ t) free refl ok.2),
          split_tag_lem image.repository c t ok,
        )
        (image_of-some image.repository (some (c ∷ t)) named)
