-- ===== src/Updater/Run.antt =====
-- A run of the updater: management/dependency_updater/update_dependencies.py, progress_reporter.py and cli.py.
-- The subprocess is a parameter; the frames that a spinner draws while a step runs are left out.
pub mod Dry
use fastdjango.Base.{
  ℕ, Bool, true, false, not, ◌&&◌, ◌||◌, List, [], ◌∷◌, ◌++◌, Option, none, some, Text, codes,
  if◌then◌else◌,
}
use fastdjango.Outcome.{Outcome, ok, raise, Exec, pure, throw, lift, ◌>>=◌, ◌>>◌}
use fastdjango.Updater.Sync.{DependencyUpdate, sync_pyproject_dependency_versions}
use fastdjango.Updater.Workflows.{ActionUpdate, updated_workflow_action_text}
use fastdjango.Updater.Containers.{ContainerImageUpdate, Files, update_container_image_versions}

pub record UpdateOptions : Type 0 where
  pub dry_run : Bool
  pub upgrade_lock : Bool
  pub update_pyproject : Bool
  pub update_actions : Bool
  pub update_containers : Bool

pub record UpdateSummary : Type 0 where
  pub dependency_updates : List DependencyUpdate
  pub action_updates : List (Text × ActionUpdate)
  pub container_updates : List ContainerImageUpdate

-- What a run reads and writes: the files, the commands that have been run, the last one first, and the
-- lines that have been printed, the last one first.
pub record Repository : Type 0 where
  pub pyproject : Text
  pub uv_lock : Text
  pub workflows : Files
  pub references : Files
  pub commands : List (List Text)
  pub output : List Text

-- What a run takes from outside: Unicode's tables, tomllib with the two functions that read its
-- dictionaries, the resolvers, the image references of the repository, and the subprocess.
pub record Sources : Type 0 where
  pub decimal : ℕ → Option ℕ
  pub lower : Text → Text
  pub is_word : ℕ → Bool
  pub read_requirements : Text → Outcome (List Text)
  pub read_lock : Text → Outcome (Text → Option Text)
  pub latest_version : Text → Option Text
  pub latest_action_tag : Text → Option Text
  pub latest_tool_tag : Option Text
  pub latest_image_tag : Text → Option Text → Option Text
  pub image_refs : Repository → List Text
  pub run : List Text → Exec Repository (Unit {0})

unfoldable pub write_line : Text → Exec Repository (Unit {0})
write_line text repository = (ok tt, record repository { output = text ∷ repository.output })

-- `__exit__` of `_ProgressStep` after its body
abbrev pub leave_step : {A : Type 0} → Bool → Text → Outcome A → Exec Repository A
leave_step false message result = lift result
leave_step true message (ok a) = do write_line (message ++ codes ": done"); pure a
leave_step true message (raise e) = do write_line (message ++ codes ": failed"); throw e

-- `with progress.step(message, spinner=…): body`; a spinner is used on a terminal only
unfoldable pub step :
    {A : Type 0} → Bool → Bool → Text → Bool → Exec Repository A → Exec Repository A
unfolding write_line
step enabled is_terminal message spinner body = do
  (if enabled && not (spinner && is_terminal) then write_line (message ++ codes "...") else pure tt)
  λ repository. leave_step enabled message (body repository).0 (body repository).1

module _ (sources : Sources) where
  -- `_run_command`
  unfoldable pub run_command : List Text → Exec Repository (Unit {0})
  run_command command = do
    λ repository. (ok tt, record repository { commands = command ∷ repository.commands })
    sources.run command

  -- `sync_pyproject_dependency_versions` on the repository
  unfoldable pub sync_repository : Bool → Exec Repository (List DependencyUpdate)
  unfolding sync_pyproject_dependency_versions
  sync_repository dry_run = do
    locked_version ← λ repository. (sources.read_lock repository.uv_lock, repository)
    λ repository.
        let synced =
          sync_pyproject_dependency_versions sources.decimal sources.lower sources.read_requirements
            locked_version sources.latest_version dry_run repository.pyproject in
        (synced.0, record repository { pyproject = synced.1 })

  abbrev with_path : Text → List ActionUpdate → List (Text × ActionUpdate)
  with_path path [] = []
  with_path path (u ∷ us) = (path, u) ∷ with_path path us

  -- one workflow file, in front of the updates and the files that follow
  abbrev pub and_file :
      Bool
      → Text
      → Text
      → Text × List ActionUpdate
      → List (Text × ActionUpdate)
      → Files
      → List (Text × ActionUpdate) × Files
  and_file dry_run path text (updated_text, []) updates files = (updates, (path, text) ∷ files)
  and_file dry_run path text (updated_text, u ∷ us) updates files =
      (with_path path (u ∷ us) ++ updates, (path, if dry_run then text else updated_text) ∷ files)

  -- the loop of `update_github_action_versions` over the workflow files
  unfoldable pub update_workflows : Bool → Files → List (Text × ActionUpdate) × Files
  unfolding updated_workflow_action_text
  update_workflows dry_run [] = ([], [])
  update_workflows dry_run ((path, text) ∷ files) =
      let made =
        updated_workflow_action_text sources.decimal sources.is_word sources.latest_action_tag
          sources.latest_tool_tag text in
      let rest = update_workflows dry_run files in and_file dry_run path text made rest.0 rest.1

  unfoldable pub update_github_action_versions : Bool → Exec Repository (List (Text × ActionUpdate))
  unfolding update_workflows
  update_github_action_versions dry_run repository =
      let made = update_workflows dry_run repository.workflows in
      (ok made.0, record repository { workflows = made.1 })

  -- `update_container_image_versions` on the repository
  unfoldable pub update_images : Bool → Exec Repository (List ContainerImageUpdate)
  unfolding update_container_image_versions
  update_images dry_run repository =
      let made =
        update_container_image_versions sources.latest_image_tag dry_run
          (sources.image_refs repository) repository.references in
      (ok made.0, record repository { references = made.1 })

  module _ (options : UpdateOptions) (enabled is_terminal : Bool) where
    abbrev pub if_enabled :
        {A : Type 0} → Bool → Exec Repository (List A) → Exec Repository (List A)
    if_enabled false body = pure []
    if_enabled true body = body

    -- `_update_pyproject_dependencies`, `_update_github_actions` and `_update_container_images`
    unfoldable pub update_pyproject_dependencies : Exec Repository (List DependencyUpdate)
    unfolding step sync_repository
    update_pyproject_dependencies = if_enabled options.update_pyproject (
        step enabled is_terminal (codes "Syncing pyproject.toml dependency bounds") true
          (sync_repository options.dry_run))

    unfoldable pub update_github_actions : Exec Repository (List (Text × ActionUpdate))
    unfolding step update_github_action_versions
    update_github_actions = if_enabled options.update_actions (
        step enabled is_terminal (codes "Checking GitHub Action pins") true
          (update_github_action_versions options.dry_run))

    unfoldable pub update_container_images : Exec Repository (List ContainerImageUpdate)
    unfolding step update_images
    update_container_images = if_enabled options.update_containers (
        step enabled is_terminal (codes "Checking Docker and Compose image pins") true
          (update_images options.dry_run))

    -- a step that runs a command, under its condition
    unfoldable pub command_step : Bool → Text → List Text → Exec Repository (Unit {0})
    unfolding step run_command
    command_step condition message command =
        if condition then step enabled is_terminal message false (run_command command) else pure tt

    abbrev pub has_some {ℓ} : {A : Type ℓ} → List A → Bool
    has_some [] = false
    has_some (x ∷ xs) = true

    unfoldable pub update_dependencies : Exec Repository UpdateSummary
    unfolding command_step update_pyproject_dependencies update_github_actions
        update_container_images
    update_dependencies = do
      command_step (options.upgrade_lock && not options.dry_run) (codes "Updating uv.lock")
          (codes "uv" ∷ codes "lock" ∷ codes "--upgrade" ∷ [])
      dependency_updates ← update_pyproject_dependencies
      action_updates ← update_github_actions
      container_updates ← update_container_images
      command_step (has_some dependency_updates && not options.dry_run) (codes "Refreshing uv.lock")
          (codes "uv" ∷ codes "lock" ∷ [])
      pure (record {
        dependency_updates = dependency_updates;
        action_updates = action_updates;
        container_updates = container_updates;
      })
