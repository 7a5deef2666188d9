-- ===== src/ProjectPrep/Outcome.antt =====
-- What is reported of the commands that were run.
use spawnea.Prelude.{
  ◌≡◌, refl, not, both_branches, each_branch, sym, Option, List, [], ◌∷◌, ◌++◌, ◌==◌, get_or, arith,
}
use spawnea.Prelude.Units.{text_eq, trim, Text, units}
use spawnea.ProjectPrep.{
  CommandResult, PrepResult, Action, cloned, created, report, escape_shell_arg,
  prepare_project_folder,
}

-- A host that keeps the commands it ran, the last one first, and whose answer to a command may
-- depend on the earlier ones.
abbrev pub logging :
    (Text → List Text → CommandResult) → Text → List Text → CommandResult × List Text
logging answer command log = (answer command log, command ∷ log)

-- The report is a success exactly when the last command that was run has exited with 0.
abbrev pub IsTruthful : (Text → List Text → CommandResult) → PrepResult × List Text → Type 0
IsTruthful answer (result, commands) =
    (command : Text) × (earlier : List Text) × (commands ≡ command ∷ earlier)
    × (result.success ≡ ((answer command earlier).exit_code == 0))

module _ (answer : Text → List Text → CommandResult) (mask : Text → Text) where
  report-success :
      (path : Text) (action : Action) (prefix : Text) (r : CommandResult)
      → (report (logging answer) mask path action prefix r).success ≡ (r.exit_code == 0)
  unfolding report
  report-success path action prefix r = ground arith

  -- Success is reported exactly when the last command that was run has exited with 0, whatever
  -- the host answers.
  pub prepare_project_folder-success :
      (path : Text) (git_url : Option Text) (log : List Text)
      → IsTruthful answer (prepare_project_folder (logging answer) mask path git_url log)
  unfolding prepare_project_folder
  prepare_project_folder-success path git_url log =
      let check : Text = units "test -d " ++ escape_shell_arg path in
      let url = get_or git_url [] in
      let clone : Text =
        units "git clone " ++ escape_shell_arg url ++ b' ' ∷ escape_shell_arg path in
      let mkdir : Text = units "mkdir -p " ++ escape_shell_arg path in
      each_branch (IsTruthful answer) ((answer check log).exit_code == 0) _ _
        (λ e. (check, log, refl, sym e))
        (λ _.
          both_branches (IsTruthful answer) (not (text_eq (trim url) [])) _ _
            (
              clone,
              check ∷ log,
              refl,
              report-success path cloned (units "Git clone failed: ") (answer clone (check ∷ log)),
            )
            (
              mkdir,
              check ∷ log,
              refl,
              report-success path created (units "Failed to create folder '" ++ path ++ units "': ")
                  (answer mkdir (check ∷ log)),
            ))
