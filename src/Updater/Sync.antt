-- ===== src/Updater/Sync.antt =====
-- `sync_pyproject_dependency_versions` once the requirements and the locked versions have been read, in
-- management/dependency_updater/sync_pyproject_dependency_versions.py.
pub mod Allowed
use fastdjango.Base.{
  ℕ, Bool, true, false, not, ◌&&◌, ◌||◌, List, [], ◌∷◌, ◌++◌, Option, none, some, Text, codes, ◌==◌,
  nat_eq, text_eq, length, starts_with, contains_text, if◌then◌else◌,
}
use fastdjango.Errors.{error, runtime_error}
use fastdjango.Outcome.{Outcome, ok, raise, Exec, pure, lift, ◌>>=◌}
use fastdjango.Updater.Images.{from}
use fastdjango.Updater.Requirements.{with_lower_bound, target_dependency_version}

pub record DependencyUpdate : Type 0 where
  pub old_requirement : Text
  pub new_requirement : Text

-- `re.sub(r"[-_.]+", "-", name)`, after a separator or not
unfoldable pub collapse : Bool → Text → Text
collapse after_separator [] = []
collapse after_separator (c ∷ s) =
    let inside = collapse true s in
    let outside = collapse false s in
    if c == b'-' || c == b'_' || c == b'.'
    then if after_separator then inside else b'-' ∷ inside
    else c ∷ outside

-- `_canonical_name`
unfoldable pub canonical_name : (Text → Text) → Text → Text
unfolding collapse
canonical_name lower name = lower (collapse false name)

-- `text.replace(old, new, 1)`
unfoldable pub replace_first : Text → Text → Text → Text
unfolding starts_with from
replace_first old new [] = if starts_with [] old then new else []
replace_first old new (c ∷ s) =
    let rest = replace_first old new s in
    if starts_with (c ∷ s) old then new ++ from (length old) (c ∷ s) else c ∷ rest

abbrev pub quoted : Text → Text
quoted requirement = b'"' ∷ requirement ++ b'"' ∷ []

module _ (decimal : ℕ → Option ℕ) (lower : Text → Text)
    (locked_version latest_version : Text → Option Text) where
  -- one requirement: its target version, and nothing where the loop goes on to the next one
  unfoldable pub changed : Text → Option Text → Option Text
  unfolding with_lower_bound
  changed requirement none = none
  changed requirement (some version) =
      let updated = with_lower_bound requirement version in
      if updated == requirement then none else some updated

  unfoldable pub updated_requirement : Text → Option Text
  unfolding target_dependency_version canonical_name changed
  updated_requirement requirement = changed requirement (
      target_dependency_version decimal (canonical_name lower) locked_version latest_version
        requirement)

  abbrev pub and_updates :
      DependencyUpdate
      → Outcome (List DependencyUpdate × Text)
      → Outcome (List DependencyUpdate × Text)
  and_updates update (raise e) = raise e
  and_updates update (ok (updates, text)) = ok (update ∷ updates, text)

  -- the loop, with the text so far
  unfoldable pub sync_requirements : List Text → Text → Outcome (List DependencyUpdate × Text)
  unfolding updated_requirement contains_text replace_first
  sync_requirements [] text = ok ([], text)
  sync_requirements (requirement ∷ requirements) text = elim (updated_requirement requirement) [
    | none ↦ sync_requirements requirements text
    | some updated ↦ elim (contains_text (quoted requirement) text) [
      | false ↦ raise (error runtime_error)
      | true ↦
          and_updates (record { old_requirement = requirement; new_requirement = updated })
            (sync_requirements requirements
              (replace_first (quoted requirement) (quoted updated) text))
    ]
  ]

-- `if updates and not dry_run: pyproject_path.write_text(updated_text)`, on the file's text
abbrev pub write_unless : {A : Type 0} → Bool → List A × Text → Exec Text (List A)
write_unless dry_run ([], updated_text) = pure []
write_unless dry_run (update ∷ updates, updated_text) = elim dry_run [
  | true ↦ pure (update ∷ updates)
  | false ↦ λ text. (ok (update ∷ updates), updated_text)
]

module _ (decimal : ℕ → Option ℕ) (lower : Text → Text)
    (read_requirements : Text → Outcome (List Text)) (locked_version : Text → Option Text)
    (latest_version : Text → Option Text) where
  -- `sync_pyproject_dependency_versions`, on the text of pyproject.toml
  unfoldable pub sync_pyproject_dependency_versions : Bool → Exec Text (List DependencyUpdate)
  unfolding sync_requirements
  sync_pyproject_dependency_versions dry_run = λ text.
      (do
        requirements ← lift (read_requirements text)
        synced ←
            lift (sync_requirements decimal lower locked_version latest_version requirements text)
        write_unless dry_run synced)
        text
