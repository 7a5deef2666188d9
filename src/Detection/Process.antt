-- ===== src/Detection/Process.antt =====
-- isShellCommand and commandBasename of rule-based-adapter.ts: what a foreground command is.
use spawnea.Prelude.{
  Bool, false, ◌&&◌, ◌||◌, Option, none, some, [], ◌∷◌, leb, ◌==◌, if◌then◌else◌, is_some,
}
use spawnea.Prelude.Units.{Text, units, text_eq, trim, is_white}
use spawnea.Prelude.TextMaps.{TextMap, lookup}
use spawnea.Harness.{after_separator}

abbrev pub shell_commands : TextMap (Unit {0})
shell_commands =
    (units "sh", tt)
    ∷ (units "bash", tt)
    ∷ (units "zsh", tt)
    ∷ (units "fish", tt)
    ∷ (units "dash", tt)
    ∷ (units "csh", tt)
    ∷ (units "tcsh", tt)
    ∷ (units "nu", tt)
    ∷ (units "nushell", tt)
    ∷ (units "xonsh", tt)
    ∷ (units "shell", tt)
    ∷ (units "terminal", tt)
    ∷ []

abbrev pub harness_runtime_commands : TextMap (Unit {0})
harness_runtime_commands =
    (units "node", tt)
    ∷ (units "python", tt)
    ∷ (units "python3", tt)
    ∷ (units "bun", tt)
    ∷ (units "deno", tt)
    ∷ []

-- `/^\d+(?:\.\d+)+$/`: whether a digit stands before, and whether a dot has come.
version_rest : Bool → Bool → Text → Bool
version_rest digit dotted [] = digit && dotted
version_rest digit dotted (c ∷ s) =
    let is_digit = leb b'0' c && leb c b'9' in
    (is_digit || (c == b'.' && digit)) && version_rest is_digit (dotted || c == b'.') s

pub is_version_name : Text → Bool
unfolding version_rest
is_version_name s = version_rest false false s

-- `text.split(/\s+/)[0]` of a text without white space before it
first_token : Text → Text
first_token [] = []
first_token (c ∷ s) = let rest = first_token s in if is_white c then [] else c ∷ rest

module _ (to_lower_case : Text → Text) where
  pub is_shell_command : Text → Bool
  is_shell_command command =
      let normalized = to_lower_case command in
      text_eq normalized (units "tmux") || is_some (lookup normalized shell_commands)

  pub command_basename : Text → Text
  unfolding first_token
  command_basename command = to_lower_case (after_separator (first_token (trim command)))

  -- The configured command's name; the empty text stands for the absent one too.
  pub configured_name : Option Text → Text
  unfolding command_basename
  configured_name none = []
  configured_name (some []) = []
  configured_name (some (c ∷ s)) = command_basename (c ∷ s)
