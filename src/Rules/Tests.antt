-- ===== src/Rules/Tests.antt =====
-- Rules over patterns that are plain texts, and the theorems at concrete inputs.
use spawnea.Prelude.{
  ℕ, suc, ◌≡◌, refl, true, false, Option, none, some, List, [], ◌∷◌, if◌then◌else◌, get_or,
}
use spawnea.Prelude.Units.{Text, units, starts_with, trim, trim_start, trim_end}
use spawnea.Prelude.TextMaps.{lookup}
use spawnea.Rules.{
  CompiledStateRule, RuleMatch, RuleLists, rule_working, rule_needs_input, match_state_rules,
  match_rules, match_patterns, merge_state_rules, join_lines, representative_line, start_line,
  newest, count_newlines, is_selector_line, is_prompt_glyph_line,
}
use spawnea.Rules.Order.{
  first_of, IsFirst, match_state_rules-merge_state_rules, match_state_rules-IsFirst,
}

-- A pattern that is found where its text stands.
abbrev find : Text → Text → Option (ℕ × Text)
find pattern [] = if starts_with pattern [] then some (0, pattern) else none
find pattern (c ∷ s) =
    let rest : Option (ℕ × Text) = elim (find pattern s) [
      | none ↦ none
      | some (i, text) ↦ some (suc i, text)
    ] in
    if starts_with pattern (c ∷ s) then some (0, pattern) else rest

abbrev ask : CompiledStateRule find
ask = record {
  state = rule_needs_input;
  patterns = units "Proceed" ∷ [];
  ref = record { is_user = false; harness = units "claude"; position = 1 };
}

abbrev busy : CompiledStateRule find
busy = record {
  state = rule_working;
  patterns = units "zzz" ∷ units "menu\n1" ∷ [];
  ref = record { is_user = true; harness = units "claude"; position = 1 };
}

abbrev window : List Text
window = units "> menu" ∷ units "1. Proceed  " ∷ []

abbrev busy_match : RuleMatch find
busy_match = record { rule = busy; pattern = units "menu\n1"; line = units "> menu" }

both :
    match_state_rules find (ask ∷ busy ∷ []) window
    ≡ some (record { rule = ask; pattern = units "Proceed"; line = units "1. Proceed" })
unfolding match_state_rules match_rules match_patterns join_lines representative_line start_line
    newest count_newlines is_selector_line is_prompt_glyph_line starts_with trim trim_start trim_end
both = refl

over_two_lines : match_state_rules find (busy ∷ ask ∷ []) window ≡ some busy_match
unfolding match_state_rules match_rules match_patterns join_lines representative_line start_line
    newest count_newlines is_selector_line is_prompt_glyph_line starts_with trim trim_start trim_end
over_two_lines = refl

abbrev factory : RuleLists find
factory = (units "claude", ask ∷ []) ∷ []

abbrev own : RuleLists find
own = (units "claude", busy ∷ []) ∷ []

match_state_rules-merge_state_rules_example :
    match_state_rules find
      (get_or (lookup (units "claude") (merge_state_rules find factory own)) [])
      window
    ≡ first_of
        (match_state_rules find (get_or (lookup (units "claude") own) []) window)
        (match_state_rules find (get_or (lookup (units "claude") factory) []) window)
match_state_rules-merge_state_rules_example =
    match_state_rules-merge_state_rules find (units "claude") factory own window

match_state_rules-IsFirst_example : IsFirst find (busy ∷ ask ∷ []) (join_lines window) busy_match
match_state_rules-IsFirst_example =
    match_state_rules-IsFirst find (busy ∷ ask ∷ []) window busy_match over_two_lines
