-- ===== src/Adapters/Claude/Composer.antt =====
-- stripClaudeComposerTail of packages/state/src/terminal-lines.ts: the transcript above the input box
-- of Claude, or above a prompt that is not sent.
use spawnea.Prelude.{
  ℕ, zero, suc, ◌≡◌, refl, Bool, false, ◌&&◌, ◌||◌, not, Option, none, some, List, [], ◌∷◌, ◌==◌,
  if◌then◌else◌, any, all, take, drop, get_elem?, get_or,
}
use spawnea.Prelude.Units.{Text, units, text_eq, trim, trim_start, trim_end, is_white}
use spawnea.Patterns.{
  Pattern, found, seq, alt, one, many, many1, one_of, literal, folded, white, digits,
  is_ascii_letter, is_decimal_digit, is_of, at_start, at_end, word_edge,
}
use spawnea.Detection.{last_index}
use spawnea.Adapters.Claude.{is_border, is_mode_footer, first_index}

is_alphanumeric : ℕ → Bool
is_alphanumeric c = is_ascii_letter c || is_decimal_digit c

-- What follows the glyph of a choice of a dialog.
choice : Pattern
unfolding is_alphanumeric
choice =
    let mark = one is_alphanumeric in
    seq (
      many white
      ∷ alt (
          seq (digits ∷ one_of (units ".)") ∷ [])
          ∷ seq (one is_ascii_letter ∷ one_of (units ".)") ∷ [])
          ∷ seq (literal (units "[") ∷ mark ∷ literal (units "]") ∷ [])
          ∷ seq (literal (units "(") ∷ mark ∷ literal (units ")") ∷ [])
          ∷ [])
      ∷ many1 white
      ∷ [])

-- `CLAUDE_INPUT_LINE`
pub is_prompt : Text → Bool
unfolding choice
is_prompt line = elim (trim_start line) [
  | [] ↦ false
  | c ∷ s ↦ (c == b'>' || c == 0x276f) && not (found (seq (at_start ∷ choice ∷ [])) s)
]

-- `CLAUDE_PROMPT_CHROME`
pub is_prompt_chrome : Text → Bool
is_prompt_chrome line =
    found
      (alt (
        seq (
          at_start
          ∷ many white
          ∷ one_of (units "?/")
          ∷ many1 white
          ∷ alt (
              seq (
                folded (units "for")
                ∷ many1 white
                ∷ alt (
                    folded (units "commands")
                    ∷ folded (units "shortcuts")
                    ∷ folded (units "help")
                    ∷ [])
                ∷ [])
              ∷ folded (units "help")
              ∷ [])
          ∷ word_edge
          ∷ [])
        ∷ seq (
            at_start
            ∷ many white
            ∷ alt (
                folded (units "esc")
                ∷ folded (units "ctrl")
                ∷ folded (units "(shift")
                ∷ folded (units "bypass permissions")
                ∷ folded (units "auto mode")
                ∷ folded (units "plan mode")
                ∷ [])
            ∷ word_edge
            ∷ [])
        ∷ []))
      line

-- `/^[A-Za-z0-9.\s]+(?:\|[A-Za-z0-9.\s%]+)+$/`
pub is_status_row : Text → Bool
unfolding is_alphanumeric
is_status_row line =
    let is_cell : ℕ → Bool = λ c. is_alphanumeric c || c == b'.' || is_white c in
    found
      (seq (
        at_start
        ∷ many1 (one is_cell)
        ∷ many1 (seq (literal (units "|") ∷ many1 (one (λ c. is_cell c || c == b'%')) ∷ []))
        ∷ at_end
        ∷ []))
      line

-- `isTrailingClaudeChrome`
pub is_trailing_chrome : List Text → Bool
unfolding is_prompt_chrome is_status_row
is_trailing_chrome lines =
    all
      (λ line.
        text_eq (trim line) []
        || is_border line
        || is_mode_footer line
        || is_prompt_chrome line
        || is_status_row (trim line))
      lines

-- A border with the lines below it is the top of the input box.
pub opens_box : Text → List Text → Bool
unfolding is_prompt is_trailing_chrome
opens_box line below = is_border line && (elim (first_index is_border below) [
  | none ↦ false
  | some closing ↦
      any is_prompt (take closing below) && is_trailing_chrome (drop (suc closing) below)
])

-- The loop over the borders, from the bottom up.
pub box_start : List Text → Option ℕ
unfolding opens_box
box_start [] = none
box_start (line ∷ lines) = elim (box_start lines) [
  | some i ↦ some (suc i)
  | none ↦ if opens_box line lines then some 0 else none
]

-- The lines above a prompt, less the border right above it.
above_prompt_at : List Text → ℕ → List Text
above_prompt_at lines zero = []
above_prompt_at lines (suc i) =
    if is_border (get_or (get_elem? lines i) []) then take i lines else take (suc i) lines

-- The lines above a prompt at the end that is not sent.
pub above_unsent : List Text → List Text
unfolding above_prompt_at is_prompt is_trailing_chrome
above_unsent lines = elim (last_index is_prompt lines) [
  | none ↦ lines
  | some i ↦ if is_trailing_chrome (drop (suc i) lines) then above_prompt_at lines i else lines
]

pub strip_claude_composer_tail : List Text → List Text
unfolding box_start above_unsent
strip_claude_composer_tail lines = elim (box_start lines) [
  | none ↦ above_unsent lines
  | some i ↦ take i lines
]

-- A box with a draft and the row below it, and a choice of a dialog, which stays.
stripped :
    (strip_claude_composer_tail (
        units "● Done."
        ∷ units "────"
        ∷ units "> draft"
        ∷ units "────"
        ∷ units "  ? for shortcuts"
        ∷ [])
      ≡ units "● Done." ∷ [])
    × (strip_claude_composer_tail (units "Proceed?" ∷ units "❯ 1. Yes" ∷ [])
        ≡ units "Proceed?" ∷ units "❯ 1. Yes" ∷ [])
unfolding strip_claude_composer_tail is_border is_mode_footer first_index last_index found seq alt
    one many many1 one_of literal folded white digits is_ascii_letter is_decimal_digit is_of
    at_start at_end word_edge is_white trim trim_start trim_end
stripped = (refl, refl)
