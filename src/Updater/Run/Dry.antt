-- ===== src/Updater/Run/Dry.antt =====
-- A dry run writes no file and runs no command.
use fastdjango.Base.{
  ◌≡◌, ◌∙◌, refl, ap, Bool, true, false, not, ◌&&◌, List, [], ◌∷◌, Option, Text, codes, ◌==◌,
  text_eq, inl, inr, Bool-cases,
}
use fastdjango.Outcome.{Outcome, ok, raise, Exec}
use fastdjango.Outcome.Preserves.{
  Preserves, Preserves-read, Preserves-lift, Preserves-pure, Preserves-throw, Preserves-if,
  Preserves-bind,
}
use fastdjango.Updater.Containers.{
  Files, replace_container_refs, replace_container_refs_in, replace_unless_empty,
  ordered_replacements, update_container_image_versions,
}
use fastdjango.Updater.Workflows.{ActionUpdate, updated_workflow_action_text}
use fastdjango.Updater.Sync.Allowed.{sync_pyproject_dependency_versions_lem}
use fastdjango.Updater.Run.{
  UpdateOptions, Repository, Sources, write_line, leave_step, step, sync_repository,
  update_workflows, and_file, update_github_action_versions, update_images, if_enabled,
  update_pyproject_dependencies, update_github_actions, update_container_images, command_step,
  has_some, update_dependencies,
}

-- The files are those of `start`, and so are the commands that have been run.
pub record IsUntouched (start repository : Repository) : Type 0 where
  pub pyproject : repository.pyproject ≡ start.pyproject
  pub uv_lock : repository.uv_lock ≡ start.uv_lock
  pub workflows : repository.workflows ≡ start.workflows
  pub references : repository.references ≡ start.references
  pub commands : repository.commands ≡ start.commands

module _ (start : Repository) where
  pub write_line-Preserves : (text : Text) → Preserves (IsUntouched start) (write_line text)
  unfolding write_line
  write_line-Preserves text = record {
    holds_after = λ before same. record {
      pyproject = same.pyproject;
      uv_lock = same.uv_lock;
      workflows = same.workflows;
      references = same.references;
      commands = same.commands;
    };
  }

  leave_step-Preserves :
      {A : Type 0} (enabled : Bool) (message : Text) (result : Outcome A)
      → Preserves (IsUntouched start) (leave_step enabled message result)
  leave_step-Preserves false message result = Preserves-lift result
  leave_step-Preserves true message (ok a) =
      Preserves-bind _ _ (write_line-Preserves _) (λ _. Preserves-pure a)
  leave_step-Preserves true message (raise e) =
      Preserves-bind _ _ (write_line-Preserves _) (λ _. Preserves-throw e)

  step-Preserves :
      {A : Type 0} (enabled is_terminal : Bool) (message : Text) (spinner : Bool)
      (body : Exec Repository A)
      → Preserves (IsUntouched start) body
      → Preserves (IsUntouched start) (step enabled is_terminal message spinner body)
  unfolding step
  step-Preserves enabled is_terminal message spinner body kept =
      Preserves-bind _ _
        (Preserves-if (enabled && not (spinner && is_terminal)) _ _ (write_line-Preserves _)
          (Preserves-pure tt))
        λ _. record {
          holds_after = λ before same.
              (leave_step-Preserves enabled message (body before).0).holds_after (body before).1
                (kept.holds_after before same);
        }

dry_refs :
    (replacements : List (Text × Text)) (files : Files)
    → (replace_container_refs true replacements files).1 ≡ files
unfolding replace_container_refs
dry_refs replacements [] = refl
dry_refs replacements ((path, text) ∷ files) =
    elim (Bool-cases ((replace_container_refs_in path replacements text).0 == text)) [
      | inl e ↦ rw (e, dry_refs replacements files)
      | inr e ↦ rw (e, dry_refs replacements files)
    ]

dry_unless_empty :
    (replacements : List (Text × Text)) (files : Files)
    → (replace_unless_empty true replacements files).1 ≡ files
unfolding replace_unless_empty
dry_unless_empty [] files = refl
dry_unless_empty (r ∷ rs) files = dry_refs (ordered_replacements (r ∷ rs)) files

dry_containers :
    (latest_tag : Text → Option Text → Option Text) (image_refs : List Text) (files : Files)
    → (update_container_image_versions latest_tag true image_refs files).1 ≡ files
unfolding update_container_image_versions
dry_containers latest_tag image_refs files = dry_unless_empty _ files

module _ (sources : Sources) where
  dry_and_file :
      (path text : Text) (made : Text × List ActionUpdate) (updates : List (Text × ActionUpdate))
      (files rest : Files)
      → rest ≡ files
      → (and_file sources true path text made updates rest).1 ≡ (path, text) ∷ files
  dry_and_file path text (updated, []) updates files rest e = ap (λ fs. (path, text) ∷ fs) e
  dry_and_file path text (updated, u ∷ us) updates files rest e = ap (λ fs. (path, text) ∷ fs) e

  dry_workflows : (files : Files) → (update_workflows sources true files).1 ≡ files
  unfolding update_workflows
  dry_workflows [] = refl
  dry_workflows ((path, text) ∷ files) =
      dry_and_file path text
        (updated_workflow_action_text sources.decimal sources.is_word sources.latest_action_tag
          sources.latest_tool_tag text)
        (update_workflows sources true files).0 files (update_workflows sources true files).1
        (dry_workflows files)

  sync-Preserves :
      (start : Repository) → Preserves (IsUntouched start) (sync_repository sources true)
  unfolding sync_repository
  sync-Preserves start =
      Preserves-bind _ _ (Preserves-read (λ repository. sources.read_lock repository.uv_lock))
        λ locked_version. record {
          holds_after = λ before same. record {
            pyproject =
                (sync_pyproject_dependency_versions_lem sources.decimal sources.lower
                  sources.read_requirements locked_version sources.latest_version
                  before.pyproject).1
                ∙ same.pyproject;
            uv_lock = same.uv_lock;
            workflows = same.workflows;
            references = same.references;
            commands = same.commands;
          };
        }

  workflows-Preserves :
      (start : Repository)
      → Preserves (IsUntouched start) (update_github_action_versions sources true)
  unfolding update_github_action_versions
  workflows-Preserves start = record {
    holds_after = λ before same. record {
      pyproject = same.pyproject;
      uv_lock = same.uv_lock;
      workflows = dry_workflows before.workflows ∙ same.workflows;
      references = same.references;
      commands = same.commands;
    };
  }

  images-Preserves :
      (start : Repository) → Preserves (IsUntouched start) (update_images sources true)
  unfolding update_images
  images-Preserves start = record {
    holds_after = λ before same. record {
      pyproject = same.pyproject;
      uv_lock = same.uv_lock;
      workflows = same.workflows;
      references =
          dry_containers sources.latest_image_tag (sources.image_refs before) before.references
          ∙ same.references;
      commands = same.commands;
    };
  }

  module _ (start : Repository) (options : UpdateOptions) (enabled is_terminal : Bool)
      (dry : options.dry_run ≡ true) where
    if_enabled-Preserves :
        {A : Type 0} (b : Bool) (body : Exec Repository (List A))
        → Preserves (IsUntouched start) body
        → Preserves (IsUntouched start) (if_enabled sources options enabled is_terminal b body)
    if_enabled-Preserves false body kept = Preserves-pure []
    if_enabled-Preserves true body kept = kept

    pyproject-Preserves :
        Preserves
          (IsUntouched start)
          (update_pyproject_dependencies sources options enabled is_terminal)
    unfolding update_pyproject_dependencies
    pyproject-Preserves = rw dry (
        if_enabled-Preserves options.update_pyproject _ (
          step-Preserves start enabled is_terminal
            (codes "Syncing pyproject.toml dependency bounds") true (sync_repository sources true)
            (sync-Preserves start)))

    actions-Preserves :
        Preserves (IsUntouched start) (update_github_actions sources options enabled is_terminal)
    unfolding update_github_actions
    actions-Preserves = rw dry (
        if_enabled-Preserves options.update_actions _ (
          step-Preserves start enabled is_terminal (codes "Checking GitHub Action pins") true
            (update_github_action_versions sources true) (workflows-Preserves start)))

    containers-Preserves :
        Preserves (IsUntouched start) (update_container_images sources options enabled is_terminal)
    unfolding update_container_images
    containers-Preserves = rw dry (
        if_enabled-Preserves options.update_containers _ (
          step-Preserves start enabled is_terminal (codes "Checking Docker and Compose image pins")
            true (update_images sources true) (images-Preserves start)))

    no_command :
        (wanted : Bool) (message : Text) (command : List Text)
        → Preserves (IsUntouched start) (
            command_step sources options enabled is_terminal
              (wanted && not options.dry_run)
              message
              command)
    unfolding command_step
    no_command true message command = rw dry (Preserves-pure tt)
    no_command false message command = Preserves-pure tt

    pub update_dependencies-Preserves :
        Preserves (IsUntouched start) (update_dependencies sources options enabled is_terminal)
    unfolding update_dependencies
    update_dependencies-Preserves =
        Preserves-bind _ _
          (no_command options.upgrade_lock (codes "Updating uv.lock")
            (codes "uv" ∷ codes "lock" ∷ codes "--upgrade" ∷ []))
          λ _. Preserves-bind _ _ pyproject-Preserves λ dependency_updates.
            Preserves-bind _ _ actions-Preserves λ action_updates.
              Preserves-bind _ _ containers-Preserves λ container_updates.
                Preserves-bind _ _
                  (no_command (has_some sources options enabled is_terminal dependency_updates)
                    (codes "Refreshing uv.lock") (codes "uv" ∷ codes "lock" ∷ []))
                  λ _. Preserves-pure (record {
                    dependency_updates = dependency_updates;
                    action_updates = action_updates;
                    container_updates = container_updates;
                  })
