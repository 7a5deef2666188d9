-- ===== src/ProjectPrep.antt =====
-- packages/hosts/src/project-prep.ts: the directory of a project on a host. The host, with the
-- state that its commands change, and `maskSensitiveString` are arguments.
pub mod Words
pub mod Outcome
mod Tests
use spawnea.Prelude.{
  ℕ, Bool, true, false, ◌&&◌, not, Option, none, some, List, [], ◌∷◌, ◌++◌, ◌==◌, if◌then◌else◌,
  get_or,
}
use spawnea.Prelude.Units.{text_eq, trim, Text, units, or_else, decimal}

abbrev pub quote : ℕ
quote = 39

-- `arg.replace(/'/g, "'\\''")`
pub escape_quotes : Text → Text
escape_quotes [] = []
escape_quotes (c ∷ s) =
    let rest = escape_quotes s in
    if c == quote then quote ∷ 0x5c ∷ quote ∷ quote ∷ rest else c ∷ rest

pub escape_shell_arg : Text → Text
unfolding escape_quotes
escape_shell_arg arg = quote ∷ escape_quotes arg ++ quote ∷ []

pub record CommandResult : Type 0 where
  pub exit_code : ℕ
  pub stdout : Text
  pub stderr : Text

pub data Action : Type 0 where
  reused : Action
  cloned : Action
  created : Action

pub record PrepResult : Type 0 where
  pub success : Bool
  pub path : Text
  pub action : Action
  pub error : Option Text

module _ {ℓ} {Host : Type ℓ} (execute : Text → Host → CommandResult × Host)
    (mask : Text → Text) where
  error_text : CommandResult → Text
  error_text r =
      or_else (trim r.stderr) (or_else (trim r.stdout) (units "Exit code " ++ decimal r.exit_code))

  -- The result of the command that clones or creates.
  pub report : Text → Action → Text → CommandResult → PrepResult
  unfolding error_text
  report path action prefix r =
      if r.exit_code == 0
      then record { success = true; path = path; action = action; error = none }
      else record {
        success = false;
        path = path;
        action = action;
        error = some (prefix ++ mask (error_text r));
      }

  pub prepare_project_folder : Text → Option Text → Host → PrepResult × Host
  unfolding report escape_shell_arg
  prepare_project_folder path git_url host =
      let (check, host') = execute (units "test -d " ++ escape_shell_arg path) host in
      let url = get_or git_url [] in
      let (clone, cloned_host) =
        execute (units "git clone " ++ escape_shell_arg url ++ b' ' ∷ escape_shell_arg path)
          host' in
      let (mkdir, created_host) = execute (units "mkdir -p " ++ escape_shell_arg path) host' in
      if check.exit_code == 0
      then (record { success = true; path = path; action = reused; error = none }, host')
      else if not (text_eq (trim url) [])
      then (report path cloned (units "Git clone failed: ") clone, cloned_host)
      else (
        report path created (units "Failed to create folder '" ++ path ++ units "': ") mkdir,
        created_host,
      )
