-- ===== src/Updater/Cli/Dry.antt =====
-- `--dry-run`.
use fastdjango.Base.{◌≡◌, refl, Bool, true, not, List, [], ◌∷◌, Text, codes, if◌then◌else◌}
use fastdjango.Outcome.Preserves.{Preserves, Preserves-pure, Preserves-if, Preserves-bind}
use fastdjango.Updater.Run.{UpdateSummary, Repository, Sources}
use fastdjango.Updater.Run.Dry.{IsUntouched, write_line-Preserves, update_dependencies-Preserves}
use fastdjango.Updater.Cli.{
  Arguments, options_of, dependency_line, action_line, container_line, write_each, is_empty,
  print_summary, main,
}

module _ (start : Repository) where
  write_each-Preserves :
      {A : Type 0} (line : A → Text) (updates : List A)
      → Preserves (IsUntouched start) (write_each line updates)
  unfolding write_each
  write_each-Preserves line [] = Preserves-pure tt
  write_each-Preserves line (u ∷ us) =
      Preserves-bind _ _ (write_line-Preserves start (line u)) (λ _. write_each-Preserves line us)

  print_summary-Preserves :
      (summary : UpdateSummary) (dry_run : Bool)
      → Preserves (IsUntouched start) (print_summary summary dry_run)
  unfolding print_summary
  print_summary-Preserves summary dry_run =
      let prefix : Text = if dry_run then codes "Would update" else codes "Updated" in
      Preserves-if (is_empty summary) _ _
        (write_line-Preserves start (codes "No dependency updates found."))
        (Preserves-bind _ _
          (write_each-Preserves (dependency_line prefix) summary.dependency_updates)
          λ _.
            Preserves-bind _ _ (write_each-Preserves (action_line prefix) summary.action_updates)
              λ _. write_each-Preserves (container_line prefix) summary.container_updates)

  -- With `--dry-run`, the program leaves pyproject.toml, uv.lock, the workflows and the files with image
  -- references as they are and runs no command, whichever steps are switched on, whatever the resolvers
  -- find, and also where it raises.
  pub main-IsUntouched :
      (sources : Sources) (is_terminal : Bool) (args : Arguments)
      → args.dry_run ≡ true
      → IsUntouched start (main sources is_terminal args start).1
  unfolding main options_of
  main-IsUntouched sources is_terminal args dry =
      let kept : Preserves (IsUntouched start) (main sources is_terminal args) =
        Preserves-bind _ _
          (update_dependencies-Preserves sources start (options_of args) (not args.quiet)
            is_terminal dry)
          (λ summary. print_summary-Preserves summary args.dry_run) in
      kept.holds_after start (record {
        pyproject = refl;
        uv_lock = refl;
        workflows = refl;
        references = refl;
        commands = refl;
      })
