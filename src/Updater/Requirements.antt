-- ===== src/Updater/Requirements.antt =====
-- Requirements in management/dependency_updater/sync_pyproject_dependency_versions.py: names, bounds, and the
-- synchronisation of pyproject.toml. A version holds no backslash, which `re.sub` would read as an escape.
pub mod Bounds
use fastdjango.Base.{
  ℕ, suc, zero, ◌-◌, Bool, true, false, not, ◌&&◌, ◌||◌, List, [], ◌∷◌, ◌++◌, Option, none, some,
  Text, codes, ◌==◌, nat_eq, text_eq, leb, length, is_space, strip, partition, if◌then◌else◌,
}
use fastdjango.Base.Int.{ℤ, pos, negsuc}
use fastdjango.Versions.{compare_versions}

-- `[A-Za-z0-9_.-]`
unfoldable pub is_name_character : ℕ → Bool
is_name_character c =
    leb b'A' c && leb c b'Z'
    || leb b'a' c && leb c b'z'
    || leb b'0' c && leb c b'9'
    || c == b'_'
    || c == b'.'
    || c == b'-'

-- the longest run of characters that pass the test, and what follows
unfoldable pub span : (ℕ → Bool) → Text → Text × Text
span p [] = ([], [])
span p (c ∷ s) = let rest = span p s in if p c then (c ∷ rest.0, rest.1) else ([], c ∷ s)

-- the groups of `_NAME_RE`, and the text after the match
pub record NameMatch : Type 0 where
  pub name : Text
  pub extras : Text
  pub rest : Text

-- `\[[^\]]+\]` after its opening bracket, or nothing
abbrev extras_of : Text → Text × Text → Text × Text
extras_of s (d ∷ inside, b ∷ rest) = (b'[' ∷ d ∷ inside ++ b ∷ [], rest)
extras_of s _ = ([], b'[' ∷ s)

abbrev extras_group : Text → Text × Text
unfolding span
extras_group [] = ([], [])
extras_group (c ∷ s) =
    if c == b'[' then extras_of s (span (λ d. not (d == b']')) s) else ([], c ∷ s)

abbrev name_groups : Text × Text → Option NameMatch
unfolding extras_group
name_groups ([], rest) = none
name_groups (c ∷ name, rest) =
    some (record { name = c ∷ name; extras = (extras_group rest).0; rest = (extras_group rest).1 })

-- `_NAME_RE.match(s)`
unfoldable pub name_match : Text → Option NameMatch
unfolding is_name_character span name_groups
name_match s = name_groups (span is_name_character s)

-- `[^,; ]`
abbrev pub is_version_character : ℕ → Bool
is_version_character c = not (c == b',' || c == b';' || c == b' ')

abbrev filled_match : Text × Text → Option (Text × Text)
filled_match ([], rest) = none
filled_match (c ∷ word, rest) = some (c ∷ word, rest)

-- `\s*[^,; ]+`: as much white space as leaves a word, the word, and what follows
unfoldable pub spaced_word : Text → Option (Text × Text)
unfolding is_space span
spaced_word [] = none
spaced_word (c ∷ s) =
    let later = spaced_word s in
    let here = filled_match (span is_version_character (c ∷ s)) in
    if is_space c then (elim later [ some found ↦ some found | none ↦ here ]) else here

abbrev with_sign : Bool → Option (Text × Text) → Option (Bool × Text × Text)
with_sign inclusive none = none
with_sign inclusive (some (word, rest)) = some (inclusive, word, rest)

abbrev first_of :
    Option (Bool × Text × Text) → Option (Bool × Text × Text) → Option (Bool × Text × Text)
first_of (some found) other = some found
first_of none other = other

-- an operator of one character, with the equals sign if that leaves a word: whether it has the sign, the
-- word, and what follows
abbrev after_operator : Text → Option (Bool × Text × Text)
unfolding spaced_word
after_operator [] = none
after_operator (d ∷ t) =
    let strict = with_sign false (spaced_word (d ∷ t)) in
    if d == b'=' then first_of (with_sign true (spaced_word t)) strict else strict

unfoldable pub bound_at : ℕ → Text → Option (Bool × Text × Text)
unfolding after_operator
bound_at operator [] = none
bound_at operator (c ∷ s) = if c == operator then after_operator s else none

-- `_LOWER_BOUND_RE.sub(">=" + version, specifier, count=1)`, if it matches anywhere
unfoldable pub with_first_bound : Text → Text → Option Text
unfolding bound_at
with_first_bound version [] = none
with_first_bound version (c ∷ s) =
    let later = with_first_bound version s in
    elim (bound_at b'>' (c ∷ s)) [
      | some (inclusive, word, rest) ↦ some (codes ">=" ++ version ++ rest)
      | none ↦ elim later [ none ↦ none | some updated ↦ some (c ∷ updated) ]
    ]

unfoldable pub updated_specifier : Text → Text → Text
unfolding with_first_bound
updated_specifier version [] = codes ">=" ++ version
updated_specifier version (c ∷ specifier) = elim (with_first_bound version (c ∷ specifier)) [
  | some updated ↦ updated
  | none ↦ codes ">=" ++ version ++ b',' ∷ c ∷ specifier
]

unfoldable pub with_lower_bound : Text → Text → Text
unfolding partition name_match strip updated_specifier
with_lower_bound requirement version =
    let parts = partition b';' requirement in
    elim (name_match parts.before) [
      | none ↦ requirement
      | some m ↦
          let updated = m.name ++ m.extras ++ updated_specifier version (strip m.rest) in
          if parts.found then updated ++ b';' ∷ parts.after else updated
    ]

-- `\s*` and an upper bound
unfoldable pub spaced_bound : Text → Option (Bool × Text × Text)
unfolding is_space bound_at
spaced_bound [] = none
spaced_bound (c ∷ s) =
    let later = spaced_bound s in if is_space c then later else bound_at b'<' (c ∷ s)

-- a match of `_UPPER_BOUND_RE` here: at the start, or at a comma
unfoldable pub upper_bound_at : Bool → Text → Option (Bool × Text × Text)
unfolding spaced_bound
upper_bound_at at_start [] = none
upper_bound_at at_start (c ∷ s) =
    let after_comma = (if c == b',' then spaced_bound s else none) in
    if at_start
    then (elim (spaced_bound (c ∷ s)) [ some found ↦ some found | none ↦ after_comma ])
    else after_comma

-- `_UPPER_BOUND_RE.finditer(specifier)`: the operators (whether with an equals sign) and their versions;
-- `skip` counts what is left of the match before
unfoldable pub upper_bounds : ℕ → Bool → Text → List (Bool × Text)
unfolding upper_bound_at
upper_bounds skip at_start [] = []
upper_bounds (suc skip) at_start (c ∷ s) = upper_bounds skip false s
upper_bounds zero at_start (c ∷ s) = elim (upper_bound_at at_start (c ∷ s)) [
  | none ↦ upper_bounds zero false s
  | some (inclusive, version, rest) ↦
      (inclusive, version) ∷ upper_bounds (length s - length rest) false s
]

-- what the loop of `_satisfies_upper_bounds` asks of one comparison
abbrev pub allows : Bool → Option ℤ → Bool
allows inclusive none = false
allows inclusive (some (negsuc n)) = true
allows inclusive (some (pos zero)) = inclusive
allows inclusive (some (pos (suc n))) = false

module _ (decimal : ℕ → Option ℕ) where
  unfoldable pub all_allow : Text → List (Bool × Text) → Bool
  unfolding compare_versions
  all_allow version [] = true
  all_allow version ((inclusive, bound) ∷ bounds) =
      allows inclusive (compare_versions decimal version bound) && all_allow version bounds

  unfoldable pub satisfies_upper_bounds : Text → Text → Bool
  unfolding partition name_match strip upper_bounds all_allow
  satisfies_upper_bounds requirement version =
      elim (name_match (partition b';' requirement).before) [
        | none ↦ true
        | some m ↦ all_allow version (upper_bounds zero true (strip m.rest))
      ]

module _ (decimal : ℕ → Option ℕ) (canonical_name : Text → Text)
    (locked_version latest_version : Text → Option Text) where
  -- `if target_version is None: target_version = latest_version_resolver(…)`
  abbrev pub or_latest : Text → Option Text → Option Text
  or_latest name (some version) = some version
  or_latest name none = latest_version name

  unfoldable pub if_allowed : Text → Option Text → Option Text
  unfolding satisfies_upper_bounds
  if_allowed requirement none = none
  if_allowed requirement (some version) =
      if satisfies_upper_bounds decimal requirement version then some version else none

  unfoldable pub target_dependency_version : Text → Option Text
  unfolding name_match if_allowed
  target_dependency_version requirement = elim (name_match requirement) [
    | none ↦ none
    | some m ↦ if_allowed requirement (or_latest m.name (locked_version (canonical_name m.name)))
  ]
