-- ===== src/Adapters/Claude.antt =====
-- claude-adapter.ts: the draft in the input box is no output, and a turn that is done is past.
pub mod Turn
pub mod Composer
mod Tests
use spawnea.Prelude.{
  ℕ, zero, suc, ◌+◌, Bool, true, false, ◌&&◌, ◌||◌, not, Option, none, some, List, [], ◌∷◌, ltb,
  leb, ◌==◌, if◌then◌else◌, drop, any, keep,
}
use spawnea.Prelude.Units.{Text, units, starts_with, trim_start, trim_end, is_white}
use spawnea.Rules.{RuleState, rule_idle, number_selector}
use spawnea.Patterns.{
  Pattern, found, seq, alt, one, many, many1, optional, one_of, literal, folded, fold, white,
  digits, is_ascii_letter, is_of, at_start, word_edge,
}
use spawnea.Detection.{Rule, Adapter, any_matches, last_index, default_description}

abbrev prompt_glyph : ℕ
prompt_glyph = 0x276f

-- `/^─{3,}$/`: so many at least, and no other unit.
is_rule_of : ℕ → Text → Bool
is_rule_of n [] = n == 0
is_rule_of zero (c ∷ s) = c == 0x2500 && is_rule_of zero s
is_rule_of (suc n) (c ∷ s) = c == 0x2500 && is_rule_of n s

-- `INPUT_BOX_BORDER`
pub is_border : Text → Bool
unfolding is_rule_of
is_border line = is_rule_of 3 (trim_end (trim_start line))

-- `INPUT_LINE`
pub is_input_line : Text → Bool
is_input_line line = elim (trim_start line) [
  | [] ↦ false
  | c ∷ s ↦ c == prompt_glyph && not (number_selector (trim_start s))
]

-- `/^\s+"/`
white_then_quote : Text → Bool
white_then_quote [] = false
white_then_quote (c ∷ s) = is_white c && starts_with (b'"' ∷ []) (trim_start s)

-- `INPUT_PLACEHOLDER`
is_placeholder : Text → Bool
unfolding white_then_quote
is_placeholder line = elim (trim_start line) [
  | [] ↦ false
  | c ∷ s ↦
      let word = trim_start s in
      c == prompt_glyph && starts_with (units "Try") word && white_then_quote (drop 3 word)
]

-- `TRANSCRIPT_LINE`
is_transcript_line : Text → Bool
is_transcript_line line = elim (trim_start line) [ [] ↦ false | c ∷ s ↦ c == 0x25cf || c == 0x23bf ]

-- The loop of `collapseClaudeInputBox`: whether the line before is a border, and whether the lines
-- of a draft are passed over up to the next border.
collapse_from : Bool → Bool → List Text → List Text
unfolding is_border is_input_line is_placeholder
collapse_from after_border skipping [] = []
collapse_from after_border skipping (line ∷ lines) =
    let skip = skipping && not (is_border line) in
    let opens = not skip && is_input_line line && after_border && any is_border lines in
    let rest = collapse_from (is_border line) (skip || opens) lines in
    if skip
    then rest
    else (if opens && not (is_placeholder line) then prompt_glyph ∷ [] else line) ∷ rest

pub collapse_claude_input_box : List Text → List Text
unfolding collapse_from
collapse_claude_input_box lines = collapse_from false false lines

-- The index of the first line that passes a test.
pub first_index : (Text → Bool) → List Text → Option ℕ
first_index p [] = none
first_index p (line ∷ lines) =
    let later : Option ℕ = elim (first_index p lines) [ none ↦ none | some i ↦ some (suc i) ] in
    if p line then some 0 else later

-- The index of the input line that follows a border.
input_index : Bool → List Text → Option ℕ
unfolding is_border is_input_line
input_index after_border [] = none
input_index after_border (line ∷ lines) =
    let later : Option ℕ = elim (input_index (is_border line) lines) [
      | none ↦ none
      | some i ↦ some (suc i)
    ] in
    if is_input_line line && after_border then some 0 else later

-- The end of the input box, the first border after its input line.
box_end : List Text → Option ℕ
unfolding input_index first_index
box_end lines = elim (input_index false lines) [
  | none ↦ none
  | some input ↦ elim (first_index is_border (drop (suc input) lines)) [
    | none ↦ none
    | some i ↦ some (suc input + i)
  ]
]

-- `\d+(?:\.\d+)?[smh]`
time_span : Pattern
time_span = seq (
    digits
    ∷ optional (seq (literal (units ".") ∷ digits ∷ []))
    ∷ one (λ c. is_of (units "smh") (fold c))
    ∷ [])

-- `TURN_COMPLETION`
pub is_turn_completion : Text → Bool
unfolding time_span
is_turn_completion line =
    let letter_or_dash : ℕ → Bool = λ c. is_ascii_letter c || c == b'-' in
    found
      (seq (
        at_start
        ∷ many white
        ∷ one_of (units "✻✽")
        ∷ many1 white
        ∷ one is_ascii_letter
        ∷ many (one letter_or_dash)
        ∷ many (seq (many1 (literal (units " ")) ∷ many1 (one letter_or_dash) ∷ []))
        ∷ many1 white
        ∷ folded (units "for")
        ∷ many1 white
        ∷ time_span
        ∷ many (seq (many1 white ∷ time_span ∷ []))
        ∷ many white
        ∷ literal (units "·")
        ∷ many white
        ∷ folded (units "done")
        ∷ word_edge
        ∷ []))
      line

-- `MODE_FOOTER`
pub is_mode_footer : Text → Bool
is_mode_footer line =
    let gap = many1 white in
    found
      (seq (
        at_start
        ∷ many white
        ∷ literal (units "⏵⏵")
        ∷ many (one (λ c. not (c == 10)))
        ∷ word_edge
        ∷ alt (
            seq (folded (units "auto") ∷ gap ∷ folded (units "mode") ∷ [])
            ∷ seq (folded (units "plan") ∷ gap ∷ folded (units "mode") ∷ [])
            ∷ seq (
                folded (units "accept edits")
                ∷ optional (seq (gap ∷ folded (units "mode") ∷ []))
                ∷ [])
            ∷ seq (
                folded (units "bypass permissions")
                ∷ optional (seq (gap ∷ folded (units "mode") ∷ []))
                ∷ [])
            ∷ [])
        ∷ gap
        ∷ folded (units "on")
        ∷ word_edge
        ∷ []))
      line

abbrev status_line_limit : ℕ
status_line_limit = 2

-- Whether a line at an index is a status line of the box that ends at another one.
is_below_box : Option ℕ → ℕ → Bool
is_below_box none index = false
is_below_box (some end_) index = ltb end_ index && leb index (end_ + status_line_limit)

abbrev is_not_idle : RuleState → Bool
is_not_idle rule_idle = false
is_not_idle _ = true

module _ {Regex : Type 0} (exec : Regex → Text → Option (ℕ × Text))
    (to_lower_case strip_ansi : Text → Text) where
  abbrev is_non_idle_rule_line : List (Rule exec to_lower_case strip_ansi) → Text → Bool
  is_non_idle_rule_line rules line =
      any_matches exec to_lower_case strip_ansi
        (keep (λ (rule : Rule exec to_lower_case strip_ansi). is_not_idle rule.state) rules) line

  -- The lines from an index on are only what stands round the prompt.
  all_ready : List (Rule exec to_lower_case strip_ansi) → Option ℕ → ℕ → List Text → Bool
  unfolding is_below_box is_transcript_line is_mode_footer
  all_ready rules end_ index [] = true
  all_ready rules end_ index (line ∷ lines) =
      not (is_non_idle_rule_line rules line)
      && (is_border line
          || is_input_line line
          || is_mode_footer line
          || (is_below_box end_ index && not (is_transcript_line line)))
      && all_ready rules end_ (suc index) lines

  pub is_ready_tail : List Text → List (Rule exec to_lower_case strip_ansi) → Bool
  unfolding all_ready box_end
  is_ready_tail lines rules = all_ready rules (box_end lines) 0 lines

  -- The lines from the marker of a turn that is done, or those after it.
  after_completion : List Text → List (Rule exec to_lower_case strip_ansi) → ℕ → List Text
  unfolding is_ready_tail
  after_completion lines rules completion = elim (drop (suc completion) lines) [
    | [] ↦ drop completion lines
    | line ∷ after ↦
        if is_ready_tail (line ∷ after) rules then drop completion lines else line ∷ after
  ]

  pub claude_lines : List Text → List (Rule exec to_lower_case strip_ansi) → List Text
  unfolding collapse_claude_input_box after_completion is_turn_completion
  claude_lines raw rules =
      let lines = collapse_claude_input_box raw in
      elim (last_index is_turn_completion lines) [
        | none ↦ lines
        | some completion ↦ after_completion lines rules completion
      ]

  pub claude_adapter : Adapter exec to_lower_case strip_ansi
  unfolding claude_lines
  claude_adapter = record {
    harness_id = units "claude";
    display_name = units "Claude Code Adapter";
    trims_superseded_errors = true;
    prepare_lines = claude_lines;
    describe_match =
        default_description exec to_lower_case strip_ansi (units "Claude Code Adapter");
  }
