-- ===== src/Adapters/Codex.antt =====
-- codex-adapter.ts: the transcript and the prompt, from the last turn that is done on.
pub mod Signal
pub mod Draft
mod Tests
use spawnea.Prelude.{
  ℕ, zero, suc, ◌-◌, Bool, true, false, ◌&&◌, ◌||◌, not, Option, none, some, List, [], ◌∷◌, ◌++◌,
  leb, ◌==◌, if◌then◌else◌, any, all, keep, length, drop, take, is_some,
}
use spawnea.Prelude.Units.{Text, units, text_eq, starts_with, trim, trim_start, trim_end, is_white}
use spawnea.Rules.{RuleMatch, is_error_state}
use spawnea.Detection.{Adapter, last_index, default_description}
use spawnea.Patterns.{
  Pattern, found, seq, alt, one, many, many1, optional, one_of, literal, folded, white, digits,
  is_word, at_start, at_end, word_edge,
}
use spawnea.Adapters.Codex.Signal.{
  is_column_zero, ends_or_white, is_terminator, last_split, codex_signal_lines,
}

-- The group of `CODEX_TURN_FAILURE`.
pub turn_failure : Text → Option Text
turn_failure [] = none
turn_failure (c ∷ s) =
    let message = trim_start s in
    if c == 0x25a0
      && not (text_eq s message)
      && not (text_eq message [])
      && not (any is_terminator message)
    then some message
    else none

-- `CODEX_INTERRUPT_NOTICE`
pub is_interrupt_notice : Text → Bool
is_interrupt_notice message =
    found (seq (word_edge ∷ folded (units "interrupted") ∷ word_edge ∷ [])) message

-- `CODEX_PROMPT_LINE`
pub is_prompt_line : Text → Bool
is_prompt_line [] = false
is_prompt_line (c ∷ s) = (c == 0x203a || c == 0x276f || c == b'>') && ends_or_white s

-- `CODEX_TURN_ACTIVITY`
pub is_turn_activity : Text → Bool
unfolding is_prompt_line
is_turn_activity line = starts_with (0x2022 ∷ []) line || is_prompt_line line

-- `CODEX_COMPLETION`
pub is_completion : Text → Bool
is_completion line =
    found
      (alt (
        seq (
          at_start
          ∷ many white
          ∷ literal (units "─")
          ∷ many1 white
          ∷ folded (units "worked for")
          ∷ word_edge
          ∷ [])
        ∷ seq (
            folded (units "worked for ")
            ∷ digits
            ∷ optional (seq (literal (units ".") ∷ digits ∷ []))
            ∷ alt (folded (units "s") ∷ folded (units "m") ∷ folded (units "h") ∷ [])
            ∷ [])
        ∷ []))
      line

-- The lines above the prompt at the bottom.
pub above_prompt : List Text → List Text
unfolding is_prompt_line
above_prompt lines = elim (last_split is_column_zero lines) [
  | none ↦ lines
  | some (above, prompt, below) ↦ if is_prompt_line prompt then above else lines
]

is_failure : Text → Bool
unfolding turn_failure
is_failure line = is_some (turn_failure line)

-- `findLatestCodexFailure`: the index of the failure, and whether it is resolved.
pub latest_failure : List Text → Option (ℕ × Bool)
unfolding above_prompt is_failure is_interrupt_notice is_turn_activity
latest_failure lines = elim (last_split is_failure (above_prompt lines)) [
  | none ↦ none
  | some (above, line, below) ↦
      let message : Text = elim (turn_failure line) [ none ↦ [] | some text ↦ text ] in
      if is_interrupt_notice message then none else some (length above, any is_turn_activity below)
]

-- What is left of the lines after the last completion.
newer_lines : Option Text → List Text → List Text
unfolding latest_failure
newer_lines completion after = elim (latest_failure after) [
  | some (index, resolved) ↦ if resolved then drop (suc index) after else drop index after
  | none ↦ elim completion [
    | none ↦ after
    | some marker ↦ elim after [ [] ↦ marker ∷ [] | line ∷ lines ↦ line ∷ lines ]
  ]
]

pub newest_turn : List Text → List Text
unfolding newer_lines is_completion
newest_turn signal = elim (last_split is_completion signal) [
  | none ↦ newer_lines none signal
  | some (above, marker, after) ↦ newer_lines (some marker) after
]

pub codex_lines : List Text → List Text
unfolding newest_turn
codex_lines lines = newest_turn (codex_signal_lines lines)

module _ {Regex : Type 0} (exec : Regex → Text → Option (ℕ × Text))
    (to_lower_case strip_ansi : Text → Text) where
  -- `describeMatch`
  pub codex_description : RuleMatch exec → Text × Text
  unfolding turn_failure
  codex_description m =
      let otherwise =
        default_description exec to_lower_case strip_ansi (units "OpenAI Codex Adapter") m in
      if is_error_state m.rule.state
      then (elim (turn_failure m.line) [
        | none ↦ otherwise
        | some message ↦ (trim message, units "Codex turn failed: " ++ trim message)
      ])
      else otherwise

  pub codex_adapter : Adapter exec to_lower_case strip_ansi
  unfolding codex_lines codex_description
  codex_adapter = record {
    harness_id = units "codex";
    display_name = units "OpenAI Codex Adapter";
    trims_superseded_errors = false;
    prepare_lines = λ lines rules. codex_lines lines;
    describe_match = codex_description;
  }
