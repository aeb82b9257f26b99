-- ===== src/Updater/Choice/Variant.antt =====
-- The variant of a container tag: the text around its version, and its major version.
use mathlib.Core.Path.{subst}
use fastdjango.Base.{
  ℕ, ◌*◌, ◌+◌, suc, zero, ◌≡◌, ◌≢◌, refl, sym, ◌∙◌, ap, Bool, true, false, ◌&&◌, List, [], ◌∷◌,
  ◌++◌, Option, some, Text, codes, ◌==◌, text_eq, eq_iff, eq_refl, leb, length, keep, any, All,
  starts_with, Bool-cases, Option-cases, inl, inr, arith,
}
use fastdjango.Versions.{release_parts, version_key}
use fastdjango.Updater.Scan.{remove_prefix}
use fastdjango.Updater.Tags.{
  Groups, ContainerTagVersion, container_version_match, container_version_key,
  container_tag_version,
}
use fastdjango.Updater.Tags.Shape.{IsTail, IsVersion, IsCut, container_version_match-IsCut}
use fastdjango.Versions.Comparison.{part}
use fastdjango.Updater.Choice.{
  slice_to, is_python_runtime_repository, required_container_version_prefix, same_variant,
  matches_container_tag_variant,
}

-- What is kept was there, and passes the test.
pub any-keep :
    (p : Text → Bool) (t : Text) (xs : List Text)
    → any (λ x. x == t) (keep p xs) ≡ true
    → (any (λ x. x == t) xs ≡ true) × (p t ≡ true)
any-keep p t [] h = ground arith
any-keep p t (x ∷ xs) h = elim (Bool-cases (p x)) [
  | inr e ↦ let rest = any-keep p t xs (ground arith) in (ground arith, rest.1)
  | inl e ↦ elim (Bool-cases (x == t)) [
    | inl same ↦ (ground arith, subst (λ x. p x ≡ true) ((eq_iff x t).0 same) e)
    | inr other ↦ let rest = any-keep p t xs (ground arith) in (ground arith, rest.1)
  ]
]

-- What holds of all that are kept holds of each one that passes the test.
pub All-keep {ℓ} :
    (P : Text → Type ℓ) (p : Text → Bool) (t : Text) (xs : List Text)
    → All P (keep p xs)
    → any (λ x. x == t) xs ≡ true
    → p t ≡ true
    → P t
All-keep P p t [] h m k = ground arith
All-keep P p t (x ∷ xs) h m k = elim (Bool-cases (p x)) [
  | inl e ↦
      let here : keep p (x ∷ xs) ≡ x ∷ keep p xs = ground arith in
      let both = subst (All P) here h in
      elim (Bool-cases (x == t)) [
        | inl same ↦ subst P ((eq_iff x t).0 same) both.0
        | inr other ↦ All-keep P p t xs both.1 (ground arith) k
      ]
  | inr e ↦
      let gone : keep p (x ∷ xs) ≡ keep p xs = ground arith in
      let other : (x == t) ≡ false = elim (Bool-cases (x == t)) [
        | inr no_match ↦ no_match
        | inl same ↦ ground (arith, ap p ((eq_iff x t).0 same))
      ] in
      All-keep P p t xs (subst (All P) gone h) (ground arith) k
]

slice_to-slice_to : (n : ℕ) (v : List ℕ) → slice_to (length (slice_to n v)) v ≡ slice_to n v
unfolding slice_to
slice_to-slice_to zero v = refl
slice_to-slice_to (suc n) [] = refl
slice_to-slice_to (suc n) (x ∷ v) = ap (λ s. x ∷ s) (slice_to-slice_to n v)

-- The required prefix is a prefix of the current version, with its first number.
prefix_lem :
    (repository current_tag : Text) (version : List ℕ)
    → (n : ℕ) × (required_container_version_prefix repository current_tag version
        ≡ slice_to (suc n) version)
unfolding required_container_version_prefix
prefix_lem repository current_tag version =
    elim (Bool-cases (is_python_runtime_repository repository && leb 2 (length version))) [
      | inl e ↦ (1, rw e)
      | inr e ↦
          elim (Bool-cases (starts_with current_tag (codes "python") && leb 2 (length version))) [
            | inl f ↦ (1, rw (e, f))
            | inr f ↦ (0, rw (e, f))
          ]
    ]

-- Versions with the same prefix have the same first number.
first_number :
    (n : ℕ) (v w : List ℕ)
    → w ≢ []
    → slice_to (length (slice_to (suc n) w)) v ≡ slice_to (suc n) w
    → slice_to 1 v ≡ slice_to 1 w
unfolding slice_to
first_number n v [] some_number h = absurd (some_number refl)
first_number n [] (y ∷ w) some_number h = ground arith
first_number n (x ∷ v) (y ∷ w) some_number h = ground arith

release_parts-ne :
    (decimal : ℕ → Option ℕ) (after_dot : Bool) (acc : ℕ) (s : Text)
    → release_parts decimal after_dot acc s ≢ []
unfolding release_parts
release_parts-ne decimal after_dot acc [] h = ground arith
release_parts-ne decimal after_dot acc (c ∷ s) h = elim (Option-cases (decimal c)) [
  | inl e ↦ ground (arith, release_parts-ne decimal true acc s)
  | inr (d, e) ↦ ground (arith, release_parts-ne decimal false (acc * 10 + d) s)
]

-- A version has a number.
version_key-ne :
    (decimal : ℕ → Option ℕ) (s : Text) (v : List ℕ) → version_key decimal s ≡ some v → v ≢ []
unfolding version_key
version_key-ne decimal [] v h e = ground arith
version_key-ne decimal (c ∷ s) v h e = elim (Option-cases (decimal c)) [
  | inl d ↦ ground arith
  | inr (d, f) ↦ ground (arith, release_parts-ne decimal false d s)
]

container_tag_version-ne :
    (decimal : ℕ → Option ℕ) (tag : Text) (c : ContainerTagVersion)
    → container_tag_version decimal tag ≡ some c
    → c.version ≢ []
unfolding container_tag_version container_version_key
container_tag_version-ne decimal tag c h =
    elim (Option-cases (container_version_match decimal tag)) [
      | inl e ↦ ground arith
      | inr (groups, e) ↦
          elim (Option-cases (version_key decimal (remove_prefix b'v' groups.version))) [
            | inl f ↦ ground arith
            | inr (v, f) ↦
                let same : c.version ≡ v = ground arith in
                λ empty.
                  version_key-ne decimal (remove_prefix b'v' groups.version) v f (sym same ∙ empty)
          ]
    ]

module _ (decimal : ℕ → Option ℕ) (current_tag : Text) where
  -- The versions of this tag and of the current one, with the same parts around them.
  abbrev pub Agrees : Text → Type 0
  Agrees tag =
      (c : ContainerTagVersion) × (v : ContainerTagVersion) × (container_tag_version decimal
          current_tag
        ≡ some c)
      × (container_tag_version decimal tag ≡ some v)
      × (v.prefix ≡ c.prefix)
      × (v.suffix ≡ c.suffix)
      × (slice_to 1 v.version ≡ slice_to 1 c.version)

  -- This tag is of the current tag's variant: on the first line, the two differ in one place at most, where
  -- each has a version (digits, dots and the letter v), and both versions have the same major number.
  abbrev pub IsSameVariant : Text → Type 0
  IsSameVariant tag =
      (prefix : Text) × (suffix : Text) × (current_number : Text) × (number : Text)
      × (current_tail : Text) × (tail : Text) × (current_tag
          ≡ prefix ++ (current_number ++ (suffix ++ current_tail)))
      × (tag ≡ prefix ++ (number ++ (suffix ++ tail)))
      × (IsTail current_tail × IsTail tail)
      × (IsVersion decimal current_number × IsVersion decimal number)
      × ((current : List ℕ) × (new : List ℕ) × (container_version_key decimal current_number
            ≡ some current)
          × (container_version_key decimal number ≡ some new)
          × (part new 0 ≡ part current 0))

  -- Where the version of a tag stands in it.
  version-IsCut :
      (tag : Text) (v : ContainerTagVersion)
      → container_tag_version decimal tag ≡ some v
      → (groups : Groups) × IsCut decimal tag groups
        × (groups.prefix ≡ v.prefix)
        × (groups.suffix ≡ v.suffix)
        × (container_version_key decimal groups.version ≡ some v.version)
  unfolding container_tag_version
  version-IsCut tag v h = elim (Option-cases (container_version_match decimal tag)) [
    | inl e ↦ ground arith
    | inr (groups, e) ↦ elim (Option-cases (container_version_key decimal groups.version)) [
      | inl f ↦ ground arith
      | inr (version, f) ↦ (
        groups,
        container_version_match-IsCut decimal tag groups e,
        ground arith,
        ground arith,
        ground arith,
      )
    ]
  ]

  major : (v c : List ℕ) → slice_to 1 v ≡ slice_to 1 c → part v 0 ≡ part c 0
  unfolding slice_to
  major [] [] h = refl
  major [] (y ∷ c) h = ground arith
  major (x ∷ v) [] h = ground arith
  major (x ∷ v) (y ∷ c) h = ground arith

  pub variant_lem : (tag : Text) → Agrees tag → IsSameVariant tag
  variant_lem tag (c, v, e, f, prefix, suffix, first) =
      let (old, at, old_prefix, old_suffix, old_key) = version-IsCut current_tag c e in
      let (new, there, new_prefix, new_suffix, new_key) = version-IsCut tag v f in
      let same_prefix : old.prefix ≡ new.prefix = old_prefix ∙ sym (new_prefix ∙ prefix) in
      let same_suffix : old.suffix ≡ new.suffix = old_suffix ∙ sym (new_suffix ∙ suffix) in
      (
        new.prefix,
        new.suffix,
        old.version,
        new.version,
        at.tail,
        there.tail,
        at.cut
            ∙ (ap (λ p. p ++ (old.version ++ (old.suffix ++ at.tail))) same_prefix
                ∙ ap (λ s. new.prefix ++ (old.version ++ (s ++ at.tail))) same_suffix),
        there.cut,
        (at.ends, there.ends),
        (at.version, there.version),
        (c.version, v.version, old_key, new_key, major v.version c.version first),
      )

  -- A tag that matches agrees.
  pub matches-Agrees :
      (repository : Text) (c : ContainerTagVersion) (tag : Text)
      → container_tag_version decimal current_tag ≡ some c
      → matches_container_tag_variant decimal c
          (required_container_version_prefix repository current_tag c.version)
          tag
        ≡ true
      → Agrees tag
  unfolding matches_container_tag_variant same_variant
  matches-Agrees repository c tag e h = elim (Option-cases (container_tag_version decimal tag)) [
    | inl n ↦ ground arith
    | inr (v, f) ↦
        let required : List ℕ =
          required_container_version_prefix repository current_tag c.version in
        let (n, prefix) = prefix_lem repository current_tag c.version in
        let found : slice_to (length required) v.version ≡ required =
          ground (arith, eq_iff (slice_to (length required) v.version) required) in
        (
          c,
          v,
          e,
          f,
          ground (arith, eq_iff v.prefix c.prefix),
          ground (arith, eq_iff v.suffix c.suffix),
          first_number n v.version c.version (container_tag_version-ne decimal current_tag c e)
              (subst (λ p. slice_to (length p) v.version ≡ p) prefix found),
        )
  ]

  -- The current tag matches its own variant.
  pub matches-current :
      (repository : Text) (c : ContainerTagVersion)
      → container_tag_version decimal current_tag ≡ some c
      → matches_container_tag_variant decimal c
          (required_container_version_prefix repository current_tag c.version)
          current_tag
        ≡ true
  unfolding matches_container_tag_variant same_variant
  matches-current repository c e =
      let (n, prefix) = prefix_lem repository current_tag c.version in
      rw (
        e,
        eq_refl c.prefix,
        eq_refl c.suffix,
        prefix,
        slice_to-slice_to (suc n) c.version,
        eq_refl (slice_to (suc n) c.version),
      )
