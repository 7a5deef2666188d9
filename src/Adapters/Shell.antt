-- ===== src/Adapters/Shell.antt =====
-- generic-adapter.ts and antigravity-adapter.ts.
use spawnea.Prelude.{ℕ, Bool, true, false, Option, none, some, List, drop, keep}
use spawnea.Prelude.Units.{Text, units}
use spawnea.Rules.{RuleState, rule_idle, rule_error}
use spawnea.Detection.{Rule, Adapter, any_matches, last_index, default_description}

-- The states whose lines end the output of a command.
abbrev is_boundary_state : RuleState → Bool
is_boundary_state rule_idle = true
is_boundary_state rule_error = true
is_boundary_state _ = false

module _ {Pattern : Type 0} (exec : Pattern → Text → Option (ℕ × Text))
    (to_lower_case strip_ansi : Text → Text) where
  pub generic_lines : List Text → List (Rule exec to_lower_case strip_ansi) → List Text
  generic_lines lines rules =
      let boundary =
        keep (λ (rule : Rule exec to_lower_case strip_ansi). is_boundary_state rule.state) rules in
      elim (last_index (any_matches exec to_lower_case strip_ansi boundary) lines) [
        | none ↦ lines
        | some i ↦ drop i lines
      ]

  pub generic_adapter : Adapter exec to_lower_case strip_ansi
  unfolding generic_lines
  generic_adapter = record {
    harness_id = units "generic";
    display_name = units "Generic / Shell Adapter";
    trims_superseded_errors = false;
    prepare_lines = generic_lines;
    describe_match =
        default_description exec to_lower_case strip_ansi (units "Generic / Shell Adapter");
  }

  unfoldable pub antigravity_adapter : Adapter exec to_lower_case strip_ansi
  antigravity_adapter = record {
    harness_id = units "antigravity";
    display_name = units "Antigravity CLI Adapter";
    trims_superseded_errors = true;
    prepare_lines = λ lines rules. lines;
    describe_match =
        default_description exec to_lower_case strip_ansi (units "Antigravity CLI Adapter");
  }
