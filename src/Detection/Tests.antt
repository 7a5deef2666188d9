-- ===== src/Detection/Tests.antt =====
-- A session of the generic adapter over rules that are plain texts.
use spawnea.Prelude.{ℕ, ◌≡◌, refl, true, false, Option, none, some, List, [], ◌∷◌, if◌then◌else◌}
use spawnea.Prelude.Units.{Text, units, starts_with, decimal}
use spawnea.Rules.{rule_error, rule_idle, CompiledStateRule, rule_matches_line, join_lines}
use spawnea.Detection.{
  SessionSignals, Adapter, AdapterOptions, default_description, evaluate_status,
  trim_superseded_errors, trim_at, last_index,
}
use spawnea.Detection.Fingerprint.{window_fingerprint, hash_text, hash_unit, hex_word}
use spawnea.Detection.Connection.{IsConnectionStatus, evaluate_status-IsConnectionStatus}
use spawnea.Detection.Trimming.{IsCurrent, trim_superseded_errors-IsCurrent}

abbrev find_start : Text → Text → Option (ℕ × Text)
find_start pattern text = if starts_with pattern text then some (0, pattern) else none

abbrev same : Text → Text
same text = text

abbrev failed : CompiledStateRule find_start
failed = record {
  state = rule_error;
  patterns = units "error" ∷ [];
  ref = record { is_user = false; harness = units "generic"; position = 1 };
}

abbrev shell_prompt : CompiledStateRule find_start
shell_prompt = record {
  state = rule_idle;
  patterns = units "$" ∷ [];
  ref = record { is_user = false; harness = units "generic"; position = 2 };
}

abbrev adapter : Adapter find_start same same
adapter = record {
  harness_id = units "generic";
  display_name = units "Shell";
  trims_superseded_errors = true;
  prepare_lines = λ lines rules. lines;
  describe_match = default_description find_start same same (units "Shell");
}

abbrev options : AdapterOptions find_start same same
options = record {
  active_output_window_ms = none;
  rules = (units "generic", failed ∷ shell_prompt ∷ []) ∷ [];
  rule_harness = none;
  harness_command = none;
}

abbrev signals : SessionSignals
signals = record {
  host_reachable = true;
  tmux_session_exists = true;
  pane_dead = true;
  exit_code = some 0;
  pane_current_command = none;
  last_output_at = none;
  recent_output_bytes = none;
  tail_lines = some (units "error 1" ∷ units "$ " ∷ []);
}

abbrev window : List Text
window = units "make" ∷ units "error 1" ∷ units "$ ls" ∷ []

superseded :
    trim_superseded_errors find_start same same window (failed ∷ shell_prompt ∷ [])
    ≡ units "$ ls" ∷ []
unfolding trim_superseded_errors trim_at last_index rule_matches_line starts_with
superseded = refl

-- The digests of the empty text and of `a` by the published tables of FNV-1a.
digests :
    (hex_word (hash_text 0x811c9dc5 []) ≡ units "811c9dc5")
    × (window_fingerprint (units "a" ∷ []) ≡ units "1:e40c292c")
unfolding hash_text hash_unit hex_word window_fingerprint decimal join_lines
digests = (refl, refl)

evaluate_status-IsConnectionStatus_example :
    IsConnectionStatus signals
      (evaluate_status find_start same same adapter signals options 5000).status
evaluate_status-IsConnectionStatus_example =
    evaluate_status-IsConnectionStatus find_start same same adapter signals options 5000

trim_superseded_errors-IsCurrent_example :
    IsCurrent find_start same same window
      (failed ∷ shell_prompt ∷ [])
      (trim_superseded_errors find_start same same window (failed ∷ shell_prompt ∷ []))
trim_superseded_errors-IsCurrent_example =
    trim_superseded_errors-IsCurrent find_start same same window (failed ∷ shell_prompt ∷ [])
