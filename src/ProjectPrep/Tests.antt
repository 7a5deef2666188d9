-- ===== src/ProjectPrep/Tests.antt =====
-- Runs on a host, and the theorems at concrete inputs.
use spawnea.Prelude.{◌≡◌, refl, true, none, List, [], ◌∷◌, if◌then◌else◌}
use spawnea.Prelude.Units.{trim, Text, units, starts_with}
use spawnea.ProjectPrep.{
  CommandResult, created, escape_shell_arg, escape_quotes, prepare_project_folder, report,
}
use spawnea.ProjectPrep.Words.{plain, read_word}
use spawnea.ProjectPrep.Outcome.{logging, IsTruthful, prepare_project_folder-success}

-- A host on which the directory is missing, and every other command works.
abbrev fresh : Text → List Text → CommandResult
fresh command log = record {
  exit_code = if starts_with (units "test") command then 1 else 0;
  stdout = [];
  stderr = [];
}

creates : prepare_project_folder (logging fresh) (λ s. s) (units "/p's") none [] ≡ (
  record { success = true; path = units "/p's"; action = created; error = none },
  units "mkdir -p '/p'\\''s'" ∷ units "test -d '/p'\\''s'" ∷ [],
)
unfolding prepare_project_folder report escape_shell_arg escape_quotes starts_with trim
creates = refl

-- Outside quotes a shell would expand or run these, so no word is read from them.
unquoted : read_word plain (units "a$HOME ") ≡ none
unfolding read_word
unquoted = refl

prepare_project_folder-success_example :
    IsTruthful fresh (prepare_project_folder (logging fresh) (λ s. s) (units "/p") none [])
prepare_project_folder-success_example =
    prepare_project_folder-success fresh (λ s. s) (units "/p") none []
