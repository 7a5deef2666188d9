-- ===== src/Adapters/Claude/Tests.antt =====
-- A turn that is done, with a draft in the input box.
use spawnea.Prelude.{ℕ, ◌≡◌, refl, true, false, Option, none, List, [], ◌∷◌}
use spawnea.Prelude.Units.{Text, units, is_white, trim_start, trim_end, starts_with}
use spawnea.Patterns.{
  found, seq, alt, one, many, many1, optional, literal, folded, fold, white, digits,
  is_ascii_letter, is_of, one_of, at_start, word_edge,
}
use spawnea.Rules.{number_selector}
use spawnea.Adapters.Claude.{
  claude_lines, collapse_claude_input_box, is_turn_completion, is_mode_footer,
}
use spawnea.Adapters.Claude.Turn.{IsTurn, claude_lines-IsTurn}

abbrev never : Text → Text → Option (ℕ × Text)
never pattern text = none

abbrev same : Text → Text
same text = text

abbrev tail : List Text
tail =
    units "● Edited main.ts"
    ∷ units "✻ Cooked for 1m 3.5s · done"
    ∷ units "────"
    ∷ units "❯ an unsent"
    ∷ units "  draft"
    ∷ units "────"
    ∷ units "  ⏵⏵ auto mode on"
    ∷ []

collapsed :
    collapse_claude_input_box tail
    ≡ units "● Edited main.ts"
      ∷ units "✻ Cooked for 1m 3.5s · done"
      ∷ units "────"
      ∷ units "❯"
      ∷ units "────"
      ∷ units "  ⏵⏵ auto mode on"
      ∷ []
unfolding collapse_claude_input_box is_white trim_start trim_end number_selector starts_with
collapsed = refl

markers :
    (is_turn_completion (units "✻ Cooked for 1m 3.5s · DONE ") ≡ true)
    × (is_turn_completion (units "✻ Waiting for input") ≡ false)
    × (is_mode_footer (units "  ⏵⏵ accept edits on (shift+tab)") ≡ true)
unfolding is_turn_completion is_mode_footer found seq alt one many many1 optional literal folded
    fold white digits is_ascii_letter is_of one_of at_start word_edge is_white
markers = (refl, refl, refl)

claude_lines-IsTurn_example : IsTurn never same same tail [] (claude_lines never same same tail [])
claude_lines-IsTurn_example = claude_lines-IsTurn never same same tail []
