-- ===== src/Updater/Workflows.antt =====
-- References of GitHub Actions in management/dependency_updater/update_github_action_versions.py. `is_word` says
-- which characters `\w` matches.
use fastdjango.Base.{
  ℕ, suc, zero, ◌+◌, ◌*◌, ◌-◌, Bool, true, false, not, ◌&&◌, ◌||◌, List, [], ◌∷◌, ◌++◌, Option,
  none, some, Text, codes, ◌==◌, nat_eq, text_eq, int_eq, leb, length, is_space, lstrip,
  starts_with, contains_text, if◌then◌else◌,
}
use fastdjango.Updater.Scan.{◌>>=◌, newline, last_line, literal, literals}
use fastdjango.Updater.Requirements.{is_name_character, span}
use fastdjango.Updater.Registry.{skip_spaces}

-- an update of the file that is being read
pub record ActionUpdate : Type 0 where
  pub repository : Text
  pub old_ref : Text
  pub new_ref : Text

module _ (decimal : ℕ → Option ℕ) where
  -- `\d+`, greedy, after the number so far
  unfoldable pub number : ℕ → Text → ℕ
  number acc [] = acc
  number acc (c ∷ s) = elim (decimal c) [ none ↦ acc | some d ↦ number (acc * 10 + d) s ]

  abbrev first_number : Text → Option ℕ
  unfolding number
  first_number [] = none
  first_number (c ∷ s) = elim (decimal c) [ none ↦ none | some d ↦ some (number d s) ]

  unfoldable pub major_version : Text → Option ℕ
  unfolding literal first_number
  major_version ref = do digits ← literal b'v' ref; first_number digits

  abbrev newer : Text → Text → Option ℕ → Option ℕ → Text
  newer current_ref latest_tag (some current_major) (some latest_major) =
      if current_major == latest_major then current_ref else latest_tag
  newer current_ref latest_tag _ _ = current_ref

  unfoldable pub updated_action_ref : Text → Text → Text
  unfolding major_version
  updated_action_ref current_ref latest_tag =
      newer current_ref latest_tag (major_version current_ref) (major_version latest_tag)

-- `[^\s#]`
unfoldable pub is_ref_character : ℕ → Bool
unfolding is_space
is_ref_character c = not (is_space c || c == b'#')

-- a run of at least one character
abbrev some_run : Text × Text → Option (Text × Text)
some_run ([], rest) = none
some_run (c ∷ run, rest) = some (c ∷ run, rest)

-- a match of `_ACTION_USES_RE`, after its word boundary
pub record UsesMatch : Type 0 where
  pub owner : Text
  pub name : Text
  pub ref : Text
  pub before : Text
  pub rest : Text

abbrev pub repository_of : UsesMatch → Text
repository_of m = m.owner ++ b'/' ∷ m.name

-- the part of `s` in front of its end `t`
unfoldable pub front : Text → Text → Text
front s t = take (length s - length t) s
  where
    take : ℕ → Text → Text
    take zero s = []
    take (suc n) [] = []
    take (suc n) (c ∷ s) = c ∷ take n s

unfoldable pub uses_match : Text → Option UsesMatch
unfolding literals literal skip_spaces span is_name_character is_ref_character front
uses_match s = do
  spaces ← literals (codes "uses:") s
  owner ← some_run (span is_name_character (skip_spaces spaces))
  slash ← literal b'/' owner.1
  name ← some_run (span is_name_character slash)
  at_sign ← literal b'@' name.1
  ref ← some_run (span is_ref_character at_sign)
  some (record {
    owner = owner.0;
    name = name.0;
    ref = ref.0;
    before = front s (skip_spaces spaces);
    rest = ref.1;
  })

module _ (decimal : ℕ → Option ℕ) (is_word : ℕ → Bool) (latest_tags : Text → Option Text) where
  -- `replace_action`: the text that stands for a match, and the update if there is one
  abbrev replacement : Text → UsesMatch → Option Text → Text × List ActionUpdate
  unfolding updated_action_ref front
  replacement s m none = (front s m.rest, [])
  replacement s m (some latest_tag) =
      let new_ref = updated_action_ref decimal m.ref latest_tag in
      if new_ref == m.ref then (front s m.rest, []) else (
        m.before ++ repository_of m ++ b'@' ∷ new_ref,
        record { repository = repository_of m; old_ref = m.ref; new_ref = new_ref } ∷ [],
      )

  -- a match of `_ACTION_USES_RE` here, after this kind of character
  abbrev match_after : Bool → Text → Option UsesMatch
  unfolding uses_match
  match_after true s = none
  match_after false s = uses_match s

  -- `_ACTION_USES_RE.sub(replace_action, workflow_text)`, with the updates; `skip` counts what is left of
  -- the match before
  unfoldable pub replace_actions : ℕ → Bool → Text → Text × List ActionUpdate
  unfolding match_after replacement
  replace_actions skip after_word [] = ([], [])
  replace_actions (suc skip) after_word (c ∷ s) = replace_actions skip (is_word c) s
  replace_actions zero after_word (c ∷ s) = elim (match_after after_word (c ∷ s)) [
    | none ↦ let rest = replace_actions zero (is_word c) s in (c ∷ rest.0, rest.1)
    | some m ↦
        let made = replacement (c ∷ s) m (latest_tags (repository_of m)) in
        let rest = replace_actions (length s - length m.rest) (is_word c) s in
        (made.0 ++ rest.0, made.1 ++ rest.1)
  ]

-- the characters at which `str.splitlines` breaks
unfoldable pub is_line_break : ℕ → Bool
is_line_break c = leb 10 c && leb c 13 || leb 28 c && leb c 30 || c == 133 || c == 8232 || c == 8233

-- whether a line ends after this character
unfoldable pub ends_line : ℕ → Text → Bool
unfolding is_line_break starts_with
ends_line c s = is_line_break c && not (c == 13 && starts_with s (newline ∷ []))

abbrev pub cons_first : ℕ → List Text → List Text
cons_first c [] = (c ∷ []) ∷ []
cons_first c (l ∷ ls) = (c ∷ l) ∷ ls

-- `text.splitlines(keepends=True)`, and `text.splitlines()`
unfoldable pub split_lines_keeping : Text → List Text
unfolding ends_line
split_lines_keeping [] = []
split_lines_keeping (c ∷ s) =
    let rest = split_lines_keeping s in if ends_line c s then (c ∷ []) ∷ rest else cons_first c rest

unfoldable pub split_lines : Text → List Text
unfolding ends_line is_line_break
split_lines [] = []
split_lines (c ∷ s) =
    let rest = split_lines s in
    if ends_line c s then [] ∷ rest else if is_line_break c then rest else cons_first c rest

-- the groups of `_YAML_VERSION_RE`: the prefix, the reference, and the suffix with the newline
pub record VersionMatch : Type 0 where
  pub prefix : Text
  pub ref : Text
  pub suffix : Text

-- `\s*(?:#.*)?\r?\n?$`
unfoldable pub is_version_suffix : Text → Bool
unfolding skip_spaces last_line
is_version_suffix s = elim (skip_spaces s) [
  | [] ↦ true
  | c ∷ rest ↦ elim (last_line rest) [ none ↦ false | some _ ↦ c == b'#' ]
]

unfoldable pub yaml_version_match : Text → Option VersionMatch
unfolding literals skip_spaces span is_ref_character is_version_suffix front
yaml_version_match line = do
  spaces ← literals (codes "version:") (skip_spaces line)
  ref ← some_run (span is_ref_character (skip_spaces spaces))
  (if is_version_suffix ref.1
      then some (record { prefix = front line (skip_spaces spaces); ref = ref.0; suffix = ref.1 })
      else none)

abbrev setup_compose_use : Text
setup_compose_use = codes "uses: docker/setup-compose-action@"

-- whether the line leaves the step of this indent
abbrev leaves : ℕ → Text → Option ℕ → Bool
leaves line_indent stripped_line none = false
leaves line_indent stripped_line (some action_indent) =
    leb line_indent action_indent && starts_with stripped_line (codes "- ")

-- `in_setup_compose_step` with `action_indent`, after the tests of both loops on one line
unfoldable pub step_after : Option ℕ → Text → Option ℕ
unfolding lstrip contains_text starts_with
step_after action_indent line =
    let stripped_line = lstrip line in
    let line_indent = length line - length stripped_line in
    if contains_text setup_compose_use stripped_line
    then some line_indent
    else if leaves line_indent stripped_line action_indent
    then none
    else action_indent

-- the loop of `_setup_compose_version_refs` over its lines
abbrev ref_in : Option ℕ → Option VersionMatch → List Text → List Text
ref_in (some _) (some m) refs = m.ref ∷ refs
ref_in _ _ refs = refs

unfoldable pub version_refs : Option ℕ → List Text → List Text
unfolding step_after yaml_version_match
version_refs action_indent [] = []
version_refs action_indent (line ∷ lines) =
    ref_in (step_after action_indent line) (yaml_version_match line)
      (version_refs (step_after action_indent line) lines)

unfoldable pub setup_compose_version_refs : Text → List Text
unfolding version_refs split_lines
setup_compose_version_refs workflow_text = version_refs none (split_lines workflow_text)

-- `_updated_setup_compose_version_line`, in front of the lines and the updates that follow
abbrev pub updated_line :
    Text
    → Text
    → Option ℕ
    → Option VersionMatch
    → Text × List ActionUpdate
    → Text × List ActionUpdate
updated_line latest_version line (some _) (some m) rest =
    if m.ref == latest_version then (line ++ rest.0, rest.1) else (
      m.prefix ++ latest_version ++ m.suffix ++ rest.0,
      record { repository = codes "docker/compose"; old_ref = m.ref; new_ref = latest_version }
          ∷ rest.1,
    )
updated_line latest_version line _ _ rest = (line ++ rest.0, rest.1)

-- the loop of `_updated_setup_compose_version_text` over its lines
unfoldable pub updated_lines : Text → Option ℕ → List Text → Text × List ActionUpdate
unfolding step_after yaml_version_match
updated_lines latest_version action_indent [] = ([], [])
updated_lines latest_version action_indent (line ∷ lines) =
    updated_line latest_version line (step_after action_indent line) (yaml_version_match line)
      (updated_lines latest_version (step_after action_indent line) lines)

unfoldable pub updated_setup_compose_version_text : Option Text → Text → Text × List ActionUpdate
unfolding updated_lines split_lines_keeping
updated_setup_compose_version_text none workflow_text = (workflow_text, [])
updated_setup_compose_version_text (some latest_version) workflow_text =
    updated_lines latest_version none (split_lines_keeping workflow_text)

-- `_updated_workflow_action_text`; `latest_tool_tag` is the tag of docker/compose
unfoldable pub updated_workflow_action_text :
    (ℕ → Option ℕ)
    → (ℕ → Bool)
    → (Text → Option Text)
    → Option Text
    → Text
    → Text × List ActionUpdate
unfolding replace_actions updated_setup_compose_version_text
updated_workflow_action_text decimal is_word latest_tags latest_tool_tag workflow_text =
    let actions = replace_actions decimal is_word latest_tags 0 false workflow_text in
    let tools = updated_setup_compose_version_text latest_tool_tag actions.0 in
    (tools.0, actions.1 ++ tools.1)
