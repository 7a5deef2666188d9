-- ===== src/Rules.antt =====
-- packages/state/src/rules/rule-config.ts: the rules that give a session's state from the lines of
-- its terminal. A compiled regular expression is an argument: its search in a text gives the
-- index of the match and the text that is matched.
pub mod Order
pub mod Lines
mod Tests
use spawnea.Prelude.{
  ℕ, zero, suc, ◌+◌, ◌-◌, min, ◌≡◌, Bool, true, false, ◌&&◌, ◌||◌, not, Option, none, some, List,
  [], ◌∷◌, ◌++◌, reverse, ltb, leb, ◌==◌, if◌then◌else◌, get_or, is_some, length, get_elem?, take,
  drop, any,
}
use spawnea.Prelude.Units.{Text, units, text_eq, trim, trim_start}
use spawnea.Prelude.TextMaps.{TextMap, lookup, insert}
use spawnea.Harness.{canonical_harness_id, resolve_known_harness_id}
use spawnea.Status.{SessionStatus, working, needs_input, idle, error}

-- The states that a rule can report.
pub data RuleState : Type 0 where
  rule_working : RuleState
  rule_needs_input : RuleState
  rule_idle : RuleState
  rule_error : RuleState

abbrev pub state_of_rule : RuleState → SessionStatus
state_of_rule rule_working = working
state_of_rule rule_needs_input = needs_input
state_of_rule rule_idle = idle
state_of_rule rule_error = error

abbrev pub is_error_state : RuleState → Bool
is_error_state rule_error = true
is_error_state _ = false

-- `StateRuleReference`: whether the rule is the user's, its harness and its position.
pub record RuleReference : Type 0 where
  pub is_user : Bool
  pub harness : Text
  pub position : ℕ

abbrev pub newline : ℕ
newline = 10

-- `lines.join('\n')`
unfoldable pub join_lines : List Text → Text
join_lines [] = []
join_lines (line ∷ []) = line
join_lines (line ∷ next ∷ lines) = line ++ newline ∷ join_lines (next ∷ lines)

-- `text.split('\n').length - 1`
pub count_newlines : Text → ℕ
count_newlines [] = 0
count_newlines (c ∷ s) = let rest = count_newlines s in if c == newline then suc rest else rest

is_prompt_glyph : ℕ → Bool
is_prompt_glyph c = c == 0x203a || c == 0x276f || c == b'>'

pub is_digit : ℕ → Bool
is_digit c = leb b'0' c && leb c b'9'

-- `/\d*\./` at the start
pub digits_then_dot : Text → Bool
unfolding is_digit
digits_then_dot [] = false
digits_then_dot (c ∷ s) = c == b'.' || (is_digit c && digits_then_dot s)

unfoldable pub number_selector : Text → Bool
unfolding digits_then_dot is_digit
number_selector [] = false
number_selector (c ∷ s) = is_digit c && digits_then_dot s

-- `PROMPT_GLYPH_LINE`
pub is_prompt_glyph_line : Text → Bool
unfolding is_prompt_glyph
is_prompt_glyph_line line = elim (trim_start line) [ [] ↦ false | c ∷ s ↦ is_prompt_glyph c ]

-- `SELECTOR_LINE`
pub is_selector_line : Text → Bool
unfolding is_prompt_glyph number_selector
is_selector_line line = elim (trim_start line) [
  | [] ↦ false
  | c ∷ s ↦ is_prompt_glyph c && number_selector (trim_start s)
]

-- The newest line that passes a test.
pub newest : (Text → Bool) → List Text → Option Text
newest p [] = none
newest p (line ∷ lines) = elim (newest p lines) [
  | none ↦ if p line then some line else none
  | some found ↦ some found
]

abbrev pub last_or : Text → List Text → Text
last_or d [] = d
last_or d (line ∷ lines) = last_or line lines

module _ {Pattern : Type 0} (exec : Pattern → Text → Option (ℕ × Text)) where
  pub record CompiledStateRule : Type 0 where
    pub state : RuleState
    pub patterns : List Pattern
    pub ref : RuleReference

  abbrev pub test : Pattern → Text → Bool
  test pattern text = is_some (exec pattern text)

  abbrev matched_text : Option (ℕ × Text) → Text
  matched_text none = []
  matched_text (some (index, text)) = text

  -- The line on which a match over several lines is reported.
  pub start_line : List Text → ℕ → ℕ → Text
  unfolding is_prompt_glyph_line is_selector_line newest
  start_line lines first last =
      let line = get_or (get_elem? lines first) [] in
      let plain = trim (get_or (get_elem? lines first) (last_or [] lines)) in
      let below = take (min last (length lines - 1) - first) (drop (first + 1) lines) in
      if is_prompt_glyph_line line && not (is_selector_line line)
      then elim (newest is_selector_line below) [ none ↦ plain | some selector ↦ trim selector ]
      else plain

  pub representative_line : Pattern → List Text → Text → ℕ → Text
  unfolding newest start_line count_newlines
  representative_line pattern lines text index =
      let first = count_newlines (take index text) in
      let last = first + count_newlines (matched_text (exec pattern (drop index text))) in
      elim (newest (test pattern) lines) [
        | none ↦ start_line lines first last
        | some line ↦ trim line
      ]

  pub record RuleMatch : Type 0 where
    pub rule : CompiledStateRule
    pub pattern : Pattern
    pub line : Text

  -- The first pattern of a rule that matches, with the index of its match.
  pub match_patterns : List Pattern → Text → Option (Pattern × ℕ)
  match_patterns [] text = none
  match_patterns (pattern ∷ patterns) text = elim (exec pattern text) [
    | none ↦ match_patterns patterns text
    | some (index, _) ↦ some (pattern, index)
  ]

  -- The loop of `matchStateRules` over the rules.
  pub match_rules : List CompiledStateRule → List Text → Text → Option RuleMatch
  unfolding match_patterns representative_line
  match_rules [] lines text = none
  match_rules (rule ∷ rules) lines text = elim (match_patterns rule.patterns text) [
    | none ↦ match_rules rules lines text
    | some (pattern, index) ↦ some (record {
      rule = rule;
      pattern = pattern;
      line = representative_line pattern lines text index;
    })
  ]

  pub match_state_rules : List CompiledStateRule → List Text → Option RuleMatch
  unfolding match_rules join_lines
  match_state_rules rules [] = none
  match_state_rules rules (line ∷ lines) =
      match_rules rules (line ∷ lines) (join_lines (line ∷ lines))

  unfoldable pub rule_matches_line : CompiledStateRule → Text → Bool
  rule_matches_line rule line = any (λ pattern. test pattern line) rule.patterns

  -- `CompiledStateRules`
  abbrev pub RuleLists : Type 0
  RuleLists = TextMap (List CompiledStateRule)

  -- The first loop: a map holds a harness once, so each one is a new entry.
  merge_factory : RuleLists → RuleLists → RuleLists
  merge_factory [] user = []
  merge_factory ((harness, rules) ∷ factory) user =
      (harness, get_or (lookup harness user) [] ++ rules) ∷ merge_factory factory user

  -- The second loop: the harnesses that only the user defines.
  merge_user : RuleLists → RuleLists → RuleLists
  merge_user merged [] = merged
  merge_user merged ((harness, rules) ∷ user) =
      merge_user (if is_some (lookup harness merged) then merged else insert harness rules merged)
        user

  pub merge_state_rules : RuleLists → RuleLists → RuleLists
  unfolding merge_factory merge_user
  merge_state_rules factory user = merge_user (merge_factory factory user) user

  module _ (to_lower_case : Text → Text) where
    -- `StateRuleSet.rulesFor`; the absent harness and the empty one are both falsy.
    pub rules_for : RuleLists → Option Text → List CompiledStateRule
    rules_for rules harness =
        let generic = units "generic" in
        let name = get_or harness [] in
        let key = if text_eq name [] then generic else canonical_harness_id to_lower_case name in
        get_or (lookup key rules) (get_or (lookup generic rules) [])

    -- `StateRuleSet.resolveHarness`
    pub resolve_harness : RuleLists → Option Text → Option Text
    resolve_harness rules name =
        resolve_known_harness_id to_lower_case name (λ id. is_some (lookup id rules))
