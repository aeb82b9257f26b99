-- ===== src/Updater/Tags/Shape.antt =====
-- What `_CONTAINER_VERSION_RE` finds in a tag: the tag is the prefix, the version and the suffix, one after
-- another, up to the end of the line.
use mathlib.Core.Path.{subst}
use fastdjango.Base.{
  ℕ, ◌≡◌, refl, sym, ◌∙◌, ap, Bool, true, false, ◌&&◌, ◌||◌, [], ◌∷◌, ◌++◌, Option, some, Text,
  ◌==◌, nat_eq, eq_iff, All, Bool-cases, Option-cases, inl, inr, arith,
}
use fastdjango.Updater.Requirements.Bounds.{append_assoc}
use fastdjango.Updater.Scan.{newline, line, is_digit, starts_digit, release}
use fastdjango.Updater.Tags.{
  Groups, suffix_group, version_group, number_group, container_version_match,
}

-- Nothing, or what follows a newline.
abbrev pub IsTail : Text → Type 0
IsTail [] = Unit {0}
IsTail (c ∷ s) = c ≡ newline

line_lem : (s : Text) → (tail : Text) × (s ≡ line s ++ tail) × IsTail tail
unfolding line
line_lem [] = ([], refl, tt)
line_lem (c ∷ s) = elim (Bool-cases (c == newline)) [
  | inl e ↦ (c ∷ s, rw (line, e) refl, (eq_iff c newline).0 e)
  | inr e ↦ let (tail, cut, end) = line_lem s in (tail, rw (line, e) (ap (λ t. c ∷ t) cut), end)
]

suffix_lem :
    (s suffix : Text)
    → suffix_group s ≡ some suffix
    → (tail : Text) × (s ≡ suffix ++ tail) × IsTail tail
unfolding suffix_group
suffix_lem [] suffix h =
    let same : [] ≡ suffix = ground arith in
    subst (λ suffix. (tail : Text) × ([] ≡ suffix ++ tail) × IsTail tail) same ([], refl, tt)
suffix_lem (c ∷ s) suffix h = elim (Bool-cases (c == b'-' || c == b'_')) [
  | inl e ↦
      let same : c ∷ line s ≡ suffix = ground arith in
      let (tail, cut, end) = line_lem s in
      subst (λ suffix. (tail : Text) × (c ∷ s ≡ suffix ++ tail) × IsTail tail) same
        (tail, ap (λ t. c ∷ t) cut, end)
  | inr e ↦ at_end s e h
]
  where
    at_end :
        (s : Text)
        → (c == b'-' || c == b'_') ≡ false
        → suffix_group (c ∷ s) ≡ some suffix
        → (tail : Text) × (c ∷ s ≡ suffix ++ tail) × IsTail tail
    at_end [] no_mark h = elim (Bool-cases (c == newline)) [
      | inl e ↦
          let same : [] ≡ suffix = ground arith in
          subst (λ suffix. (tail : Text) × (c ∷ [] ≡ suffix ++ tail) × IsTail tail) same
            (c ∷ [], refl, (eq_iff c newline).0 e)
      | inr e ↦ ground arith
    ]
    at_end (d ∷ s) no_mark h = ground arith

All-append : (P : ℕ → Type 0) (a b : Text) → All P a → All P b → All P (a ++ b)
All-append P [] b h k = k
All-append P (x ∷ a) b h k = (h.0, All-append P a b h.1 k)

module _ (decimal : ℕ → Option ℕ) where
  -- A digit, a dot, or the letter v.
  abbrev pub is_version_text : ℕ → Bool
  is_version_text c = is_digit decimal c || c == b'.' || c == b'v'

  abbrev pub IsVersion : Text → Type 0
  IsVersion = All λ c. is_version_text c ≡ true

  release_lem :
      (s : Text)
      → (s ≡ (release decimal s).0 ++ (release decimal s).1) × IsVersion (release decimal s).0
  unfolding release
  release_lem [] = (refl, tt)
  release_lem (c ∷ s) =
      elim (Bool-cases (is_digit decimal c || c == b'.' && starts_digit decimal s)) [
        | inl e ↦
            let (cut, version) = release_lem s in
            (rw (release, e) (ap (λ t. c ∷ t) cut), rw (release, e) (ground arith, version))
        | inr e ↦ (rw (release, e) refl, rw (release, e) tt)
      ]

  -- The text is a version of this kind between a prefix and a suffix.
  pub record IsCut (tag : Text) (groups : Groups) : Type 0 where
    pub tail : Text
    pub cut : tag ≡ groups.prefix ++ (groups.version ++ (groups.suffix ++ tail))
    pub ends : IsTail tail
    pub version : IsVersion groups.version

  number_lem :
      (v s : Text) (groups : Groups)
      → IsVersion v
      → number_group decimal v s ≡ some groups
      → IsCut (v ++ s) groups
  unfolding number_group
  number_lem v s groups plain h = elim (Bool-cases (starts_digit decimal s)) [
    | inr e ↦ ground arith
    | inl e ↦
        let (number, version) = release_lem s in
        elim (Option-cases (suffix_group (release decimal s).1)) [
          | inl f ↦ ground arith
          | inr (suffix, f) ↦
              let (tail, rest, end) = suffix_lem (release decimal s).1 suffix f in
              let same : record {
                prefix = [];
                version = v ++ (release decimal s).0;
                suffix = suffix;
              }
                  ≡ groups =
                ground arith in
              subst (IsCut (v ++ s)) same (record {
                tail = tail;
                cut =
                    ap (λ t. v ++ t) (number ∙ ap (λ t. (release decimal s).0 ++ t) rest)
                    ∙ sym (append_assoc v (release decimal s).0 (suffix ++ tail));
                ends = end;
                version =
                    All-append (λ c. is_version_text c ≡ true) v (release decimal s).0 plain
                      version;
              })
        ]
  ]

  version_lem :
      (s : Text) (groups : Groups) → version_group decimal s ≡ some groups → IsCut s groups
  unfolding version_group
  version_lem [] groups h = ground arith
  version_lem (c ∷ s) groups h = elim (Bool-cases (c == b'v')) [
    | inl e ↦
        let letter : b'v' ∷ s ≡ c ∷ s = ap (λ c. c ∷ s) (sym ((eq_iff c b'v').0 e)) in
        subst (λ t. IsCut t groups) letter
          (number_lem (b'v' ∷ []) s groups (ground arith, tt) (ground arith))
    | inr e ↦ number_lem [] (c ∷ s) groups tt (ground arith)
  ]

  pub container_version_match-IsCut :
      (tag : Text) (groups : Groups)
      → container_version_match decimal tag ≡ some groups
      → IsCut tag groups
  unfolding container_version_match
  container_version_match-IsCut [] groups h = ground arith
  container_version_match-IsCut (c ∷ s) groups h =
      elim (Option-cases (version_group decimal (c ∷ s))) [
        | inr (here, e) ↦
            let same : here ≡ groups = ground arith in
            subst (IsCut (c ∷ s)) same (version_lem (c ∷ s) here e)
        | inl e ↦ elim (Bool-cases (c == newline)) [
          | inl f ↦ ground arith
          | inr f ↦ elim (Option-cases (container_version_match decimal s)) [
            | inl g ↦ ground arith
            | inr (later, g) ↦
                let same : record later { prefix = c ∷ later.prefix } ≡ groups = ground arith in
                let found = container_version_match-IsCut s later g in
                subst (IsCut (c ∷ s)) same (record {
                  tail = found.tail;
                  cut = ap (λ t. c ∷ t) found.cut;
                  ends = found.ends;
                  version = found.version;
                })
          ]
        ]
      ]
