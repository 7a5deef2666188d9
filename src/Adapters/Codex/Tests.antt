-- ===== src/Adapters/Codex/Tests.antt =====
-- Two drafts under a transcript with the output of a tool.
use spawnea.Prelude.{◌≡◌, refl, List, [], ◌∷◌, ◌++◌, false}
use spawnea.Prelude.Units.{Text, units, is_white, trim_start, trim_end, starts_with}
use spawnea.Patterns.{
  found, seq, alt, one, many, many1, optional, literal, folded, white, digits, one_of, at_start,
  at_end, word_edge, is_decimal_digit,
}
use spawnea.Adapters.Codex.Signal.{
  codex_signal_lines, strip_codex_composer_tail, is_ready_placeholder, is_column_zero,
}
use spawnea.Adapters.Codex.{codex_lines}
use spawnea.Adapters.Codex.Draft.{IsDraft, codex_lines-draft}

abbrev transcript : List Text
transcript =
    units "• Running make test (2s • esc to interrupt)"
    ∷ units "  │ with all"
    ∷ units "  └ error: one"
    ∷ units "    error: two"
    ∷ []

abbrev draft : Text
draft = units "› fix the error"

abbrev footer : List Text
footer = units "  in main.ts" ∷ units "  ? for shortcuts" ∷ []

signal :
    codex_signal_lines (transcript ++ draft ∷ footer)
    ≡ units "• Running (2s • esc to interrupt)" ∷ units "›" ∷ []
unfolding codex_signal_lines found seq alt one many many1 optional literal folded white digits
    one_of at_start at_end word_edge is_white trim_start trim_end starts_with
signal = refl

abbrev other_draft : Text
other_draft = units "› errors: 2"

drafts : IsDraft draft footer × IsDraft other_draft []
unfolding is_column_zero is_white is_decimal_digit trim_start
drafts = (
  record {
    draft = units " fix the error";
    has_glyph = refl;
    spaced = refl;
    not_numbered = refl;
    indented = (refl, (refl, tt));
    not_chosen = (refl, (refl, tt));
  },
  record {
    draft = units " errors: 2";
    has_glyph = refl;
    spaced = refl;
    not_numbered = refl;
    indented = tt;
    not_chosen = tt;
  },
)

-- A draft that begins with a number is taken for a choice of a menu, and kept.
numbered :
    codex_signal_lines (transcript ++ units "› 1. fix the error" ∷ [])
    ≡ units "• Running (2s • esc to interrupt)" ∷ units "› 1. fix the error" ∷ []
unfolding codex_signal_lines found seq alt one many many1 optional literal folded white digits
    one_of at_start at_end word_edge is_white trim_start trim_end starts_with
numbered = refl

typed : (is_ready_placeholder draft ≡ false) × (is_ready_placeholder other_draft ≡ false)
unfolding is_ready_placeholder trim_start is_white
typed = (refl, refl)

codex_lines-draft_example :
    (codex_lines (transcript ++ draft ∷ footer) ≡ codex_lines (transcript ++ other_draft ∷ []))
    × (strip_codex_composer_tail (transcript ++ draft ∷ footer) ≡ transcript)
codex_lines-draft_example =
    codex_lines-draft transcript draft footer other_draft [] drafts.0 typed.0 drafts.1 typed.1
