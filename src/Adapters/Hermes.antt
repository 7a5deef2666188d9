-- ===== src/Adapters/Hermes.antt =====
-- hermes-adapter.ts: the closed menu, the answered question and the work of a turn that is done
-- are past.
pub mod Settled
mod Tests
use spawnea.Prelude.{
  ℕ, zero, suc, Bool, true, false, ◌&&◌, ◌||◌, not, Option, none, some, List, [], ◌∷◌, ◌++◌, ◌==◌,
  if◌then◌else◌, any, keep, length, drop,
}
use spawnea.Prelude.Units.{Text, units, trim, is_white}
use spawnea.Rules.{RuleState, rule_working, rule_error}
use spawnea.Detection.{Rule, Adapter, any_matches, last_index, default_description}
use spawnea.Patterns.{
  Pattern, found, seq, alt, one, many, many1, optional, one_of, literal, folded, white, digits,
  is_ascii_letter, is_decimal_digit, is_of, at_start, at_end, word_edge,
}

-- `\s*` and `\s+`
spaces : Pattern
spaces = many white

gap : Pattern
gap = many1 white

-- `[^\n]*`
same_line : Pattern
same_line = many (one (λ c. not (c == 10)))

menu : Pattern
unfolding spaces gap
menu = alt (
    seq (
      folded (units "hermes")
      ∷ optional (seq (gap ∷ folded (units "agent") ∷ []))
      ∷ gap
      ∷ folded (units "needs your input")
      ∷ [])
    ∷ seq (
        folded (units "to select,")
        ∷ spaces
        ∷ folded (units "enter to ")
        ∷ alt (folded (units "confirm") ∷ folded (units "lock") ∷ [])
        ∷ [])
    ∷ folded (units "tab next question")
    ∷ [])

-- `HERMES_MENU`
pub is_menu : Text → Bool
unfolding menu
is_menu line = found menu line

-- `HERMES_PROGRESS`
pub is_progress : Text → Bool
is_progress line =
    let verbs =
      folded (units "formulating")
      ∷ folded (units "pondering")
      ∷ folded (units "reviewing")
      ∷ folded (units "searching")
      ∷ folded (units "executing")
      ∷ folded (units "synthesizing")
      ∷ folded (units "generating")
      ∷ [] in
    found (seq (word_edge ∷ alt verbs ∷ literal (units "..") ∷ [])) line

-- `HERMES_INTERRUPT`
pub is_interrupt : Text → Bool
is_interrupt line =
    found
      (alt (
        folded (units "msg=interrupt")
        ∷ folded (units "/steer")
        ∷ folded (units "/queue")
        ∷ folded (units "ctrl+c cancel")
        ∷ folded (units "enter interrupt · tab queue")
        ∷ folded (units "type to redirect this turn")
        ∷ []))
      line

-- `HERMES_STOPWATCH`
pub is_stopwatch : Text → Bool
unfolding spaces
is_stopwatch line =
    found (seq (one_of (units "|│") ∷ spaces ∷ literal (units "⏱") ∷ spaces ∷ digits ∷ [])) line

-- `HERMES_QUESTION_PROMPT`
pub is_question_prompt : Text → Bool
unfolding spaces
is_question_prompt line =
    found
      (seq (
        at_start
        ∷ spaces
        ∷ literal (units "?")
        ∷ spaces
        ∷ one_of (units ">❯›")
        ∷ many (one (λ c. not (is_ascii_letter c || is_decimal_digit c)))
        ∷ at_end
        ∷ []))
      line

-- `HERMES_IDLE_CHECK`
pub is_idle_check : Text → Bool
unfolding spaces same_line
is_idle_check line =
    found
      (seq (
        at_start
        ∷ spaces
        ∷ one_of (units "⚕☤")
        ∷ same_line
        ∷ one_of (units "|│·")
        ∷ spaces
        ∷ literal (units "✓")
        ∷ spaces
        ∷ digits
        ∷ alt (
            folded (units "ms") ∷ folded (units "s") ∷ folded (units "m") ∷ folded (units "h") ∷ [])
        ∷ alt (white ∷ at_end ∷ [])
        ∷ []))
      line

-- `HERMES_CONSULTATION_QUESTION`
pub is_consultation_question : Text → Bool
unfolding spaces
is_consultation_question line =
    found
      (seq (
        at_start
        ∷ spaces
        ∷ one_of (units "❓❔")
        ∷ spaces
        ∷ alt (
            seq (folded (units "q") ∷ digits ∷ [])
            ∷ seq (folded (units "qn") ∷ digits ∷ [])
            ∷ seq (folded (units "pregunta") ∷ spaces ∷ digits ∷ [])
            ∷ seq (folded (units "question") ∷ spaces ∷ digits ∷ [])
            ∷ [])
        ∷ spaces
        ∷ optional (one_of (units "-—:"))
        ∷ spaces
        ∷ one (λ c. not (is_white c))
        ∷ []))
      line

-- `HERMES_USER_TURN`
pub is_user_turn : Text → Bool
unfolding spaces
is_user_turn line =
    found
      (seq (
        at_start
        ∷ spaces
        ∷ alt (
            folded (units "user answered:")
            ∷ seq (
                many1 (one (λ c. is_ascii_letter c || is_decimal_digit c || is_of (units "_.-/") c))
                ∷ spaces
                ∷ literal (units ">")
                ∷ spaces
                ∷ one (λ c. not (is_white c))
                ∷ [])
            ∷ [])
        ∷ []))
      line

abbrev pub is_working_state : RuleState → Bool
is_working_state rule_working = true
is_working_state _ = false

abbrev is_progress_state : RuleState → Bool
is_progress_state rule_working = true
is_progress_state rule_error = true
is_progress_state _ = false

-- Whether a line below the footer of a menu shows that the menu is closed.
pub closes_menu : Text → Bool
closes_menu raw =
    let line = trim raw in
    not (is_question_prompt line)
    && not (is_stopwatch line && not (is_interrupt line))
    && (is_progress line || is_interrupt line || is_idle_check line)

-- The second loop of `dropClosedMenu`, over the lines below the footer.
current_turn : List Text → List Text → List Text
current_turn lines below = elim (last_index closes_menu below) [
  | none ↦ lines
  | some i ↦ drop i below
]

pub drop_closed_menu : List Text → List Text
unfolding current_turn
drop_closed_menu lines = elim (last_index is_menu lines) [
  | none ↦ lines
  | some footer ↦ current_turn lines (drop (suc footer) lines)
]

module _ {Regex : Type 0} (exec : Regex → Text → Option (ℕ × Text))
    (to_lower_case strip_ansi : Text → Text) where
  abbrev pub rules_in :
      (RuleState → Bool)
      → List (Rule exec to_lower_case strip_ansi)
      → List (Rule exec to_lower_case strip_ansi)
  rules_in is_in rules =
      keep (λ (rule : Rule exec to_lower_case strip_ansi). is_in rule.state) rules

  -- What is left below a consultation question.
  after_question : List Text → List Text → List (Rule exec to_lower_case strip_ansi) → List Text
  after_question lines after rules = elim (last_index is_user_turn after) [
    | some i ↦ drop (suc i) after
    | none ↦
        if any (any_matches exec to_lower_case strip_ansi (rules_in is_progress_state rules)) after
        then after
        else lines
  ]

  pub drop_answered_question : List Text → List (Rule exec to_lower_case strip_ansi) → List Text
  unfolding after_question
  drop_answered_question lines rules = elim (last_index is_consultation_question lines) [
    | none ↦ lines
    | some question ↦ after_question lines (drop (suc question) lines) rules
  ]

  -- The lines from an index on, and those before it that show no work.
  drop_work : List (Rule exec to_lower_case strip_ansi) → ℕ → List Text → List Text
  drop_work rules check [] = []
  drop_work rules zero lines = lines
  drop_work rules (suc check) (line ∷ lines) =
      let rest = drop_work rules check lines in
      if any_matches exec to_lower_case strip_ansi (rules_in is_working_state rules) line
      then rest
      else line ∷ rest

  pub hermes_lines : List Text → List (Rule exec to_lower_case strip_ansi) → List Text
  unfolding drop_answered_question drop_closed_menu drop_work
  hermes_lines lines rules =
      let current = drop_answered_question (drop_closed_menu lines) rules in
      elim (last_index is_idle_check current) [
        | none ↦ current
        | some check ↦ drop_work rules check current
      ]

  pub hermes_adapter : Adapter exec to_lower_case strip_ansi
  unfolding hermes_lines
  hermes_adapter = record {
    harness_id = units "hermes";
    display_name = units "Hermes Agent Adapter";
    trims_superseded_errors = true;
    prepare_lines = hermes_lines;
    describe_match =
        default_description exec to_lower_case strip_ansi (units "Hermes Agent Adapter");
  }
