-- ===== src/Detection.antt =====
-- packages/state/src/adapters/rule-based-adapter.ts, types.ts and registry.ts, cleanTailLines of
-- packages/state/src/terminal-lines.ts, and packages/state/src/state-detector.ts: from the signals
-- of a session to its status. The search of a compiled pattern, `toLowerCase`, the removal of
-- escape sequences and the clock are arguments.
mod Signals
pub mod Process
pub mod Fingerprint
pub mod LastIndex
pub mod Connection
pub mod Trimming
mod Tests
use spawnea.Prelude.{
  ℕ, zero, suc, ◌+◌, ◌-◌, ◌≡◌, Bool, true, false, ◌&&◌, ◌||◌, not, Option, none, some, List, [],
  ◌∷◌, ◌++◌, map, ltb, leb, ◌==◌, if◌then◌else◌, get_or, is_some, length, get_elem?, drop, any,
  keep,
}
use spawnea.Prelude.Units.{Text, units, text_eq, trim, trim_end, is_white, decimal, or_else}
use spawnea.Prelude.TextMaps.{TextMap, lookup}
use spawnea.Harness.{harness_aliases, after_separator, resolve_known_harness_id}
use spawnea.Status.{SessionStatus, working, idle, done, error, disconnected, status_text}
use spawnea.Rules.{
  CompiledStateRule, RuleMatch, RuleLists, RuleReference, rule_idle, state_of_rule, is_error_state,
  match_state_rules, rule_matches_line, rules_for, resolve_harness,
}
use spawnea.Detection.Process.{
  command_basename, configured_name, is_shell_command, is_version_name, harness_runtime_commands,
}
unfoldable pub use spawnea.Detection.Signals.*
use spawnea.Detection.Fingerprint.{window_fingerprint}

-- The index of the last line that passes a test.
unfoldable pub last_index : (Text → Bool) → List Text → Option ℕ
last_index p [] = none
last_index p (line ∷ lines) = elim (last_index p lines) [
  | none ↦ if p line then some 0 else none
  | some i ↦ some (suc i)
]

pub default_active_output_window_ms : ℕ
default_active_output_window_ms = 3000

abbrev pub state_rule_window_lines : ℕ
state_rule_window_lines = 10

module _ {Pattern : Type 0} (exec : Pattern → Text → Option (ℕ × Text))
    (to_lower_case strip_ansi : Text → Text) where
  abbrev pub Rule : Type 0
  Rule = CompiledStateRule exec

  abbrev pub any_matches : List Rule → Text → Bool
  any_matches rules line = any (λ (rule : Rule). rule_matches_line exec rule line) rules

  abbrev pub error_rules : List Rule → List Rule
  error_rules rules = keep (λ (rule : Rule). is_error_state rule.state) rules

  abbrev pub other_rules : List Rule → List Rule
  other_rules rules = keep (λ (rule : Rule). not (is_error_state rule.state)) rules

  -- What is left after the last line that an error rule matches.
  trim_at : List Text → List Rule → Option ℕ → List Text
  trim_at lines rules none = lines
  trim_at lines rules (some index) =
      let later = drop (suc index) lines in
      if any (any_matches (other_rules rules)) later then later else drop index lines

  pub trim_superseded_errors : List Text → List Rule → List Text
  unfolding trim_at last_index
  trim_superseded_errors lines rules = elim (error_rules rules) [
    | [] ↦ lines
    | rule ∷ more ↦ trim_at lines rules (last_index (any_matches (rule ∷ more)) lines)
  ]

  -- `RuleBasedStatusAdapter`: what its classes differ in.
  pub record Adapter : Type 0 where
    pub harness_id : Text
    pub display_name : Text
    pub trims_superseded_errors : Bool
    pub prepare_lines : List Text → List Rule → List Text
    pub describe_match : RuleMatch exec → Text × Text

  -- The `describeMatch` that a class has unless it defines its own.
  pub default_description : Text → RuleMatch exec → Text × Text
  default_description name m = (
    m.line,
    name
        ++ units ": "
        ++ status_text (state_of_rule m.rule.state)
        ++ units " by "
        ++ (if m.rule.ref.is_user then units "user" else units "factory")
        ++ units " rule "
        ++ m.rule.ref.harness
        ++ units " #"
        ++ decimal m.rule.ref.position
        ++ units ": "
        ++ m.line,
  )

  -- `cleanTailLines`
  pub clean_tail_lines : List Text → List Text
  clean_tail_lines lines =
      keep (λ (line : Text). not (text_eq (trim line) []))
        (map (λ (line : Text). trim_end (strip_ansi line)) lines)

  pub evaluation_window : Adapter → List Text → List Rule → List Text
  unfolding trim_superseded_errors
  evaluation_window adapter tail rules = elim (clean_tail_lines tail) [
    | [] ↦ []
    | line ∷ lines ↦
        let prepared = adapter.prepare_lines (line ∷ lines) rules in
        let window = drop (length prepared - state_rule_window_lines) prepared in
        if adapter.trims_superseded_errors then trim_superseded_errors window rules else window
  ]

  pub is_harness_process : Adapter → Text → Text → Option Text → Bool
  is_harness_process adapter command rule_harness harness_command =
      let name = command_basename to_lower_case command in
      let ids =
        keep (λ (id : Text). not (text_eq id (units "generic")))
          (adapter.harness_id ∷ rule_harness ∷ []) in
      let has_id = λ (id : Text). any (λ (known : Text). text_eq known id) ids in
      let configured = configured_name to_lower_case harness_command in
      let is_configured = not (text_eq configured []) in
      if (length ids == 0 && not is_configured)
        || (is_configured && is_shell_command to_lower_case configured)
      then false
      else if is_configured && text_eq name configured
      then true
      else if has_id name || has_id (get_or (lookup name harness_aliases) [])
      then true
      else is_some (lookup name harness_runtime_commands) || is_version_name name

  -- `HarnessStatusAdapterOptions`, with the rules that the detector always gives.
  pub record AdapterOptions : Type 0 where
    pub active_output_window_ms : Option ℕ
    pub rules : RuleLists exec
    pub rule_harness : Option Text
    pub harness_command : Option Text

  abbrev fallback_result : Option Text → SessionStatus → ℕ → StatusSource → Text → Detected
  fallback_result digest status confidence source reason = record {
    status = status;
    confidence = confidence;
    source = source;
    detected_prompt = none;
    reason = reason;
    matched_rule = none;
    is_fallback = true;
    window_digest = digest;
  }

  -- There was output in the last so many milliseconds.
  pub has_recent_output : SessionSignals → Option ℕ → ℕ → Bool
  unfolding default_active_output_window_ms
  has_recent_output s window now =
      let limit : ℕ = elim (get_or window 0) [
        | zero ↦ default_active_output_window_ms
        | suc n ↦ suc n
      ] in
      elim s.last_output_at [ none ↦ false | some at ↦ leb (now - at) limit ]

  -- A foreground command that is no shell and not the harness.
  pub is_foreign_command : Adapter → SessionSignals → AdapterOptions → Text → Bool
  is_foreign_command adapter s options rule_harness =
      let command = trim (get_or s.pane_current_command []) in
      not (text_eq command [])
      && not (is_shell_command to_lower_case command)
      && not (is_harness_process adapter command rule_harness options.harness_command)

  pub fallback_status :
      Adapter → SessionSignals → AdapterOptions → Text → Option Text → ℕ → Detected
  fallback_status adapter s options rule_harness digest now =
      if has_recent_output s options.active_output_window_ms now
      then fallback_result digest working 75 pty_activity (
          units "No state rule matched; active PTY output ("
          ++ decimal (get_or s.recent_output_bytes 0)
          ++ units " bytes recently)")
      else if is_foreign_command adapter s options rule_harness
      then fallback_result digest working 65 process (
          units "No state rule matched; foreground command '"
          ++ trim (get_or s.pane_current_command [])
          ++ units "' is not the harness")
      else fallback_result digest idle 50 tmux
          (units "No state rule matched and the terminal is quiet")

  -- The digest of a window that has lines.
  abbrev digest_of : List Text → Option Text
  digest_of [] = none
  digest_of (line ∷ lines) = some (window_fingerprint (line ∷ lines))

  match_result : Adapter → RuleMatch exec → Option Text → Detected
  match_result adapter m digest =
      let (prompt, reason) = adapter.describe_match m in
      record {
        status = state_of_rule m.rule.state;
        confidence = 90;
        source = terminal_prompt;
        detected_prompt = some prompt;
        reason = reason;
        matched_rule = some m.rule.ref;
        is_fallback = false;
        window_digest = digest;
      }

  -- The rules over the window, and the fallback when none matches.
  pub rule_status : Adapter → SessionSignals → AdapterOptions → ℕ → Detected
  unfolding match_result fallback_status
  rule_status adapter s options now =
      let rule_harness = get_or options.rule_harness adapter.harness_id in
      let rules = rules_for exec to_lower_case options.rules (some rule_harness) in
      let window = evaluation_window adapter (get_or s.tail_lines []) rules in
      elim (match_state_rules exec rules window) [
        | none ↦ fallback_status adapter s options rule_harness (digest_of window) now
        | some m ↦ match_result adapter m (digest_of window)
      ]

  pub evaluate_status : Adapter → SessionSignals → AdapterOptions → ℕ → Detected
  unfolding connection_status rule_status
  evaluate_status adapter s options now = elim (connection_status s) [
    | none ↦ rule_status adapter s options now
    | some result ↦ result
  ]

  -- `HarnessStatusAdapterRegistry`: the adapters by their identifiers, and the default one.
  pub record Registry : Type 0 where
    pub adapters : TextMap Adapter
    pub default_adapter : Adapter

  pub get_adapter : Registry → Option Text → Adapter
  get_adapter registry harness =
      elim (resolve_known_harness_id to_lower_case harness
        (λ id. is_some (lookup id registry.adapters))) [
          | none ↦ registry.default_adapter
          | some id ↦ get_or (lookup id registry.adapters) registry.default_adapter
        ]

  pub record StateDetector : Type 0 where
    pub active_output_window_ms : ℕ
    pub rules : RuleLists exec
    pub registry : Registry

  -- An absent harness name and the empty one are both falsy.
  name_of : Option Text → Option Text → Option Text
  name_of none command = command
  name_of (some []) command = command
  name_of (some (c ∷ s)) command = some (c ∷ s)

  pub detect_status : StateDetector → SessionSignals → Option Text → Option Text → ℕ → Detected
  unfolding evaluate_status get_adapter name_of
  detect_status d s harness_name harness_command now =
      let name = name_of harness_name s.pane_current_command in
      let adapter = get_adapter d.registry name in
      evaluate_status adapter s
        (record {
          active_output_window_ms = some d.active_output_window_ms;
          rules = d.rules;
          rule_harness =
              some (get_or (resolve_harness exec to_lower_case d.rules name) adapter.harness_id);
          harness_command = harness_command;
        })
        now
