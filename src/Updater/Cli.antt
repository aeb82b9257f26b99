-- ===== src/Updater/Cli.antt =====
-- management/dependency_updater/cli.py, once argparse has read the flags.
pub mod Dry
use fastdjango.Base.{Bool, true, false, not, ◌&&◌, List, [], ◌∷◌, ◌++◌, Text, codes, if◌then◌else◌}
use fastdjango.Outcome.{Exec, pure, ◌>>=◌, ◌>>◌}
use fastdjango.Updater.Sync.{DependencyUpdate}
use fastdjango.Updater.Workflows.{ActionUpdate}
use fastdjango.Updater.Containers.{ContainerImageUpdate}
use fastdjango.Updater.Run.{
  UpdateOptions, UpdateSummary, Repository, Sources, write_line, update_dependencies,
}

pub record Arguments : Type 0 where
  pub dry_run : Bool
  pub skip_lock_upgrade : Bool
  pub skip_pyproject : Bool
  pub skip_actions : Bool
  pub skip_containers : Bool
  pub quiet : Bool

unfoldable pub options_of : Arguments → UpdateOptions
options_of args = record {
  dry_run = args.dry_run;
  upgrade_lock = not args.skip_lock_upgrade;
  update_pyproject = not args.skip_pyproject;
  update_actions = not args.skip_actions;
  update_containers = not args.skip_containers;
}

abbrev pub dependency_line : Text → DependencyUpdate → Text
dependency_line prefix u =
    prefix ++ codes " dependency " ++ u.old_requirement ++ codes " -> " ++ u.new_requirement

abbrev pub action_line : Text → Text × ActionUpdate → Text
action_line prefix (path, u) =
    prefix
    ++ codes " action "
    ++ path
    ++ codes ": "
    ++ u.repository
    ++ b'@' ∷ u.old_ref
    ++ codes " -> "
    ++ u.repository
    ++ b'@' ∷ u.new_ref

abbrev pub container_line : Text → ContainerImageUpdate → Text
container_line prefix u =
    prefix ++ codes " image " ++ u.file_path ++ codes ": " ++ u.old_ref ++ codes " -> " ++ u.new_ref

-- `for update in updates: _write_line(…)`
unfoldable pub write_each : {A : Type 0} → (A → Text) → List A → Exec Repository (Unit {0})
unfolding write_line
write_each line [] = pure tt
write_each line (u ∷ us) = do write_line (line u); write_each line us

abbrev has_none {ℓ} : {A : Type ℓ} → List A → Bool
has_none [] = true
has_none (u ∷ us) = false

abbrev pub is_empty : UpdateSummary → Bool
is_empty summary =
    has_none summary.dependency_updates
    && has_none summary.action_updates
    && has_none summary.container_updates

unfoldable pub print_summary : UpdateSummary → Bool → Exec Repository (Unit {0})
unfolding write_line write_each
print_summary summary dry_run =
    let prefix = (if dry_run then codes "Would update" else codes "Updated") in
    if is_empty summary then write_line (codes "No dependency updates found.") else (do
      write_each (dependency_line prefix) summary.dependency_updates
      write_each (action_line prefix) summary.action_updates
      write_each (container_line prefix) summary.container_updates)

-- `main`, which returns 0
unfoldable pub main : Sources → Bool → Arguments → Exec Repository (Unit {0})
unfolding options_of update_dependencies print_summary
main sources is_terminal args = do
  summary ← update_dependencies sources (options_of args) (not args.quiet) is_terminal
  print_summary summary args.dry_run
