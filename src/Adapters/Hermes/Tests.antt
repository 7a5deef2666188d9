-- ===== src/Adapters/Hermes/Tests.antt =====
-- A turn that is done, with its work above the mark.
use spawnea.Prelude.{
  ℕ, ◌≡◌, refl, true, false, Option, none, some, List, [], ◌∷◌, All, if◌then◌else◌,
}
use spawnea.Prelude.Units.{Text, units, is_white, starts_with}
use spawnea.Patterns.{
  found, seq, alt, one, many, many1, optional, one_of, literal, folded, white, digits,
  is_ascii_letter, is_decimal_digit, is_of, at_start, at_end, word_edge,
}
use spawnea.Rules.{CompiledStateRule, rule_working, rule_matches_line}
use spawnea.Detection.{last_index}
use spawnea.Adapters.Hermes.{
  hermes_lines, is_idle_check, is_menu, is_consultation_question, is_user_turn,
}
use spawnea.Adapters.Hermes.Settled.{is_work, hermes_lines-settled}

abbrev find_start : Text → Text → Option (ℕ × Text)
find_start pattern text = if starts_with pattern text then some (0, pattern) else none

abbrev same : Text → Text
same text = text

abbrev thinking : CompiledStateRule find_start
thinking = record {
  state = rule_working;
  patterns = units "pondering" ∷ [];
  ref = record { is_user = false; harness = units "hermes"; position = 1 };
}

abbrev check : Text
check = units "⚕ gpt │ ✓ 12s"

abbrev tail : List Text
tail =
    units "Q1?"
    ∷ units "❓ Q1: which one?"
    ∷ units "me > the first"
    ∷ units "pondering..."
    ∷ units "Here it is."
    ∷ check
    ∷ []

kept : hermes_lines find_start same same tail (thinking ∷ []) ≡ units "Here it is." ∷ check ∷ []
unfolding hermes_lines last_index rule_matches_line found seq alt one many many1 optional one_of
    literal folded white digits is_ascii_letter is_decimal_digit is_of at_start at_end word_edge
    is_white starts_with is_menu is_consultation_question is_user_turn is_idle_check
kept = refl

check_passes : is_idle_check check ≡ true
unfolding is_idle_check found seq alt one many one_of literal folded white digits at_start at_end
    is_white
check_passes = refl

hermes_lines-settled_example :
    All
      (λ line. is_work find_start same same (thinking ∷ []) line ≡ false)
      (units "Here it is." ∷ [])
hermes_lines-settled_example =
    hermes_lines-settled find_start same same tail (thinking ∷ []) (units "Here it is." ∷ []) check
      [] kept check_passes tt
