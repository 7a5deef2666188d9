-- ===== src/Detection/Signals.antt =====
-- connectionStatus of rule-based-adapter.ts, on the signals of a session.
use spawnea.Prelude.{
  ℕ, Bool, false, ◌||◌, not, Option, none, some, List, ◌++◌, ◌==◌, if◌then◌else◌, is_some,
}
use spawnea.Prelude.Units.{Text, units, decimal}
use spawnea.Status.{SessionStatus, done, error, disconnected}
use spawnea.Rules.{RuleReference}

pub data StatusSource : Type 0 where
  tmux : StatusSource
  process : StatusSource
  pty_activity : StatusSource
  terminal_prompt : StatusSource
  process_exit : StatusSource

-- What the detection reads of `SessionSignals`; times are in milliseconds.
pub record SessionSignals : Type 0 where
  pub host_reachable : Bool
  pub tmux_session_exists : Bool
  pub pane_dead : Bool
  pub exit_code : Option ℕ
  pub pane_current_command : Option Text
  pub last_output_at : Option ℕ
  pub recent_output_bytes : Option ℕ
  pub tail_lines : Option (List Text)

-- `SessionStatusResult` without the time of the update; the confidence is in hundredths.
pub record Detected : Type 0 where
  pub status : SessionStatus
  pub confidence : ℕ
  pub source : StatusSource
  pub detected_prompt : Option Text
  pub reason : Text
  pub matched_rule : Option RuleReference
  pub is_fallback : Bool
  pub window_digest : Option Text

abbrev plain_result : SessionStatus → ℕ → StatusSource → Text → Detected
plain_result status confidence source reason = record {
  status = status;
  confidence = confidence;
  source = source;
  detected_prompt = none;
  reason = reason;
  matched_rule = none;
  is_fallback = false;
  window_digest = none;
}

-- The status of a pane that is dead or has an exit code.
unfoldable pub exit_status : Option ℕ → Detected
exit_status none =
    plain_result error 100 process_exit (units "Pane is dead / terminated unexpectedly")
exit_status (some code) =
    if code == 0
    then plain_result done 100 process_exit (units "Process completed with exit code 0")
    else plain_result error 100 process_exit
        (units "Process exited with error code " ++ decimal code)

unfoldable pub connection_status : SessionSignals → Option Detected
unfolding exit_status
connection_status s =
    if not s.host_reachable
    then some (plain_result disconnected 100 tmux (units "Remote host is unreachable"))
    else if not s.tmux_session_exists
    then some (
        plain_result done 100 tmux
          (units "Persistent tmux session has ended or was terminated on host"))
    else if s.pane_dead || is_some s.exit_code
    then some (exit_status s.exit_code)
    else none
