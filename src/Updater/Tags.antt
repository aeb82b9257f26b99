-- ===== src/Updater/Tags.antt =====
-- Versions and ranks of container tags, in management/dependency_updater/update_container_image_versions.py.
pub mod Shape
use fastdjango.Base.{
  ℕ, Bool, true, false, ◌&&◌, ◌||◌, List, [], ◌∷◌, ◌++◌, Option, none, some, Text, codes, ◌==◌,
  nat_eq, text_eq, ltb, if◌then◌else◌,
}
use fastdjango.Versions.{version_key, tuple_less}
use fastdjango.Updater.Scan.{
  ◌>>=◌, newline, line, last_line, literal, literals, remove_prefix, starts_digit, two_digits,
  four_digits, digits_to_end, release,
}

pub record ContainerTagVersion : Type 0 where
  pub prefix : Text
  pub version : List ℕ
  pub suffix : Text

-- the groups of `_CONTAINER_VERSION_RE`
pub record Groups : Type 0 where
  pub prefix : Text
  pub version : Text
  pub suffix : Text

-- the tuple (kind, key, preference)
pub record Rank : Type 0 where
  pub kind : ℕ
  pub key : List ℕ
  pub preference : ℕ

-- `left < right`
unfoldable pub rank_less : Rank → Rank → Bool
unfolding tuple_less
rank_less left right =
    ltb left.kind right.kind
    || left.kind == right.kind
      && (tuple_less left.key right.key
          || left.key == right.key && ltb left.preference right.preference)

-- `$|[-_].*`
unfoldable pub suffix_group : Text → Option Text
unfolding line
suffix_group [] = some []
suffix_group (c ∷ s) =
    if c == b'-' || c == b'_'
    then some (c ∷ line s)
    else elim s [ [] ↦ (if c == newline then some [] else none) | _ ∷ _ ↦ none ]

module _ (decimal : ℕ → Option ℕ) where
  abbrev with_suffix : Text → Text × Text → Option Groups
  unfolding suffix_group
  with_suffix v (number, rest) = do
    suffix ← suffix_group rest
    some (record { prefix = []; version = v ++ number; suffix = suffix })

  abbrev number_group : Text → Text → Option Groups
  unfolding with_suffix release starts_digit
  number_group v s = if starts_digit decimal s then with_suffix v (release decimal s) else none

  -- `v?\d+(?:\.\d+)*` and the suffix, at the start of the text
  unfoldable pub version_group : Text → Option Groups
  unfolding number_group
  version_group [] = none
  version_group (c ∷ s) = if c == b'v' then number_group (b'v' ∷ []) s else number_group [] (c ∷ s)

  -- `_CONTAINER_VERSION_RE.match(tag)`, with the shortest prefix
  unfoldable pub container_version_match : Text → Option Groups
  unfolding version_group
  container_version_match [] = none
  container_version_match (c ∷ s) = elim (version_group (c ∷ s)) [
    | some groups ↦ some groups
    | none ↦ elim (c == newline) [
      | true ↦ none
      | false ↦ do
        groups ← container_version_match s
        some (record groups { prefix = c ∷ groups.prefix })
    ]
  ]

  unfoldable pub container_version_key : Text → Option (List ℕ)
  unfolding version_key remove_prefix
  container_version_key version = version_key decimal (remove_prefix b'v' version)

  unfoldable pub container_tag_version : Text → Option ContainerTagVersion
  unfolding container_version_match container_version_key
  container_tag_version tag = do
    groups ← container_version_match tag
    version ← container_version_key groups.version
    some (record { prefix = groups.prefix; version = version; suffix = groups.suffix })

  abbrev one_or_more : Text → Option ℕ
  unfolding digits_to_end
  one_or_more [] = none
  one_or_more (c ∷ s) = digits_to_end decimal 0 (c ∷ s)

  -- `_CONTAINER_BUILD_SUFFIX_RE.fullmatch(suffix)`, with its number
  unfoldable pub build_suffix : Text → Option ℕ
  unfolding literals one_or_more
  build_suffix suffix = do digits ← literals (codes "-p") suffix; one_or_more digits

  unfoldable pub container_version_with_build_suffix : ContainerTagVersion → List ℕ
  unfolding build_suffix
  container_version_with_build_suffix version = elim (build_suffix version.suffix) [
    | none ↦ version.version
    | some build ↦ version.version ++ build ∷ []
  ]

  unfoldable pub suffix_preference : Text → ℕ
  unfolding build_suffix
  suffix_preference [] = 3
  suffix_preference (c ∷ s) = elim (build_suffix (c ∷ s)) [ none ↦ 2 | some _ ↦ 3 ]

  -- `_RELEASE_TAG_RE` and the rank of what it matches
  unfoldable pub release_container_tag_rank : Text → Option Rank
  unfolding literals literal four_digits two_digits last_line suffix_preference
  release_container_tag_rank tag = do
    date ← literals (codes "RELEASE.") tag
    year ← four_digits decimal date
    after_year ← literal b'-' year.1
    month ← two_digits decimal after_year
    after_month ← literal b'-' month.1
    day ← two_digits decimal after_month
    time ← literal b'T' day.1
    hour ← two_digits decimal time
    after_hour ← literal b'-' hour.1
    minute ← two_digits decimal after_hour
    after_minute ← literal b'-' minute.1
    second ← two_digits decimal after_minute
    zone ← literal b'Z' second.1
    suffix ← last_line zone
    some (record {
      kind = 2;
      key = year.0 ∷ month.0 ∷ day.0 ∷ hour.0 ∷ minute.0 ∷ second.0 ∷ [];
      preference = suffix_preference suffix;
    })

  abbrev version_rank : Text → Option Rank
  unfolding container_tag_version container_version_with_build_suffix suffix_preference
  version_rank tag = do
    version ← container_tag_version tag
    some (record {
      kind = 1;
      key = container_version_with_build_suffix version;
      preference = suffix_preference version.suffix;
    })

  -- `_container_tag_rank`
  unfoldable pub container_tag_rank : Text → Option Rank
  unfolding release_container_tag_rank version_rank
  container_tag_rank tag = elim (release_container_tag_rank tag) [
    | some rank ↦ some rank
    | none ↦ version_rank tag
  ]

  -- `best_rank is None or rank > best_rank`, for the best tag so far with its rank
  unfoldable pub better : Text → Option Rank → Option (Text × Rank) → Option (Text × Rank)
  unfolding rank_less
  better tag none best = best
  better tag (some rank) none = some (tag, rank)
  better tag (some rank) (some (best_tag, best_rank)) =
      if rank_less best_rank rank then some (tag, rank) else some (best_tag, best_rank)

  -- the loop of `_best_ranked_container_tag`
  unfoldable pub best_ranked_from : Option (Text × Rank) → List Text → Option (Text × Rank)
  unfolding container_tag_rank better
  best_ranked_from best [] = best
  best_ranked_from best (tag ∷ tags) =
      best_ranked_from (better tag (container_tag_rank tag) best) tags

  unfoldable pub best_ranked_container_tag : List Text → Option Text
  unfolding best_ranked_from
  best_ranked_container_tag tags = do best ← best_ranked_from none tags; some best.0
