-- ===== src/Adapters/Codex/Signal.antt =====
-- codexSignalLines and stripCodexComposerTail of packages/state/src/terminal-lines.ts.
use spawnea.Prelude.{
  ℕ, ◌-◌, Bool, true, false, ◌&&◌, ◌||◌, not, Option, none, some, List, [], ◌∷◌, ◌++◌, leb, ◌==◌,
  if◌then◌else◌, any, length, drop, take,
}
use spawnea.Prelude.Units.{Text, units, text_eq, starts_with, trim_start, trim_end, is_white}
use spawnea.Patterns.{
  Pattern, found, seq, many, many1, one_of, literal, folded, white, digits, is_word, at_start,
  at_end,
}

abbrev pub prompt_glyph : ℕ
prompt_glyph = 0x203a

-- `/^\S/`
unfoldable pub is_column_zero : Text → Bool
is_column_zero [] = false
is_column_zero (c ∷ s) = not (is_white c)

-- `(?:\s|$)`
unfoldable pub ends_or_white : Text → Bool
ends_or_white [] = true
ends_or_white (c ∷ s) = is_white c

-- `CODEX_EDITABLE_PROMPT`
unfoldable pub is_editable_prompt : Text → Bool
unfolding ends_or_white
is_editable_prompt [] = false
is_editable_prompt (c ∷ s) = c == prompt_glyph && ends_or_white s

-- `\s*\d+\.\s`
unfoldable pub number_then_white : Pattern
number_then_white = seq (many white ∷ digits ∷ literal (units ".") ∷ white ∷ [])

-- `CODEX_MENU_SELECTOR`
unfoldable pub is_menu_selector : Text → Bool
unfolding number_then_white
is_menu_selector line = found (seq (at_start ∷ literal (units "›") ∷ number_then_white ∷ [])) line

-- `CODEX_INDENTED_MENU_SELECTOR`
unfoldable pub is_indented_selector : Text → Bool
unfolding number_then_white
is_indented_selector line =
    found (seq (at_start ∷ many1 white ∷ one_of (units "›❯") ∷ number_then_white ∷ [])) line

-- `CODEX_COMPOSER_FOOTER`
pub is_composer_footer : Text → Bool
is_composer_footer line =
    found (seq (literal (units "?") ∷ many1 white ∷ folded (units "for shortcuts") ∷ [])) line

-- `CODEX_READY_PLACEHOLDER`
unfoldable pub is_ready_placeholder : Text → Bool
is_ready_placeholder [] = false
is_ready_placeholder (c ∷ s) =
    let draft = trim_start s in
    c == prompt_glyph && (text_eq draft [] || text_eq draft (units "Ask Codex to do anything"))

-- Line terminators, which `.` does not match.
unfoldable pub is_terminator : ℕ → Bool
is_terminator c = c == 10 || c == 13 || c == 0x2028 || c == 0x2029

-- The first of the words that a text starts with and that ends there, `(?:…)\b`.
first_word : List Text → Text → Option Text
first_word [] s = none
first_word (word ∷ words) s =
    let later = first_word words s in
    let ends : Bool = elim (drop (length word) s) [ [] ↦ true | c ∷ rest ↦ not (is_word c) ] in
    if starts_with word s && ends then some word else later

-- The group of `CODEX_TOOL_HEADER`.
pub tool_header : Text → Option Text
unfolding first_word is_terminator
tool_header [] = none
tool_header (bullet ∷ s) =
    let verb = trim_start s in
    let gap = take (length s - length verb) s in
    let word =
      first_word (units "Ran" ∷ units "Running" ∷ units "Called" ∷ units "Calling" ∷ []) verb in
    if bullet == 0x2022 && not (text_eq gap []) && not (any is_terminator verb)
    then elim word [ none ↦ none | some w ↦ some (bullet ∷ gap ++ w) ]
    else none

-- `/•\s*esc to interrupt\s*\)\s*$/i` after what has no parenthesis
live_rest : Text → Bool
live_rest [] = false
live_rest (c ∷ s) =
    found
      (seq (
        at_start
        ∷ literal (units "•")
        ∷ many white
        ∷ folded (units "esc to interrupt")
        ∷ many white
        ∷ literal (units ")")
        ∷ many white
        ∷ at_end
        ∷ []))
      (c ∷ s)
    || (not (c == b'(') && not (c == b')') && live_rest s)

-- The suffix starts here: a parenthesis, a digit and the rest.
is_live_suffix : Text → Bool
unfolding live_rest
is_live_suffix [] = false
is_live_suffix (c ∷ s) =
    c == b'('
    && (elim (trim_start s) [ [] ↦ false | d ∷ t ↦ leb b'0' d && leb d b'9' && live_rest t ])

-- The group of `CODEX_LIVE_ACTIVITY_SUFFIX`.
pub live_suffix : Text → Option Text
unfolding is_live_suffix
live_suffix [] = none
live_suffix (c ∷ s) =
    let later = live_suffix s in if is_white c && is_live_suffix s then some (trim_end s) else later

-- `/^\s+x/` for a glyph
indented_glyph : ℕ → Text → Bool
indented_glyph glyph [] = false
indented_glyph glyph (c ∷ s) =
    is_white c && (elim (trim_start s) [ [] ↦ false | d ∷ t ↦ d == glyph ])

-- `CODEX_TOOL_COMMAND_CONTINUATION` and `CODEX_TOOL_OUTPUT_START`
pub opens_tool_output : Text → Bool
unfolding indented_glyph
opens_tool_output line = indented_glyph 0x2514 line || indented_glyph 0x2502 line

-- `CODEX_TOOL_OUTPUT_CONTINUATION`
pub continues_tool_output : Text → Bool
continues_tool_output line =
    let content = trim_start line in
    leb 4 (length line - length content) && not (text_eq content [])

-- `isCodexLiveDialog`
unfoldable pub is_live_dialog : List Text → Bool
unfolding is_indented_selector is_composer_footer
is_live_dialog [] = false
is_live_dialog (line ∷ lines) =
    let later = is_live_dialog lines in
    if is_indented_selector line then not (any is_composer_footer (line ∷ lines)) else later

-- The lines above the last one at column 0, that line and those below it.
unfoldable pub last_split : (Text → Bool) → List Text → Option (List Text × Text × List Text)
last_split p [] = none
last_split p (line ∷ lines) = elim (last_split p lines) [
  | some (above, last, below) ↦ some (line ∷ above, last, below)
  | none ↦ if p line then some ([], line, lines) else none
]

-- `hasEditablePrompt`
unfoldable pub is_composer : Text → List Text → Bool
unfolding is_editable_prompt is_menu_selector is_live_dialog
is_composer prompt below =
    is_editable_prompt prompt && not (is_menu_selector prompt) && not (is_live_dialog below)

-- The transcript above the prompt that is edited, and the prompt.
unfoldable pub composer : List Text → Option (List Text × Text)
unfolding last_split is_column_zero is_composer
composer lines = elim (last_split is_column_zero lines) [
  | none ↦ none
  | some (above, prompt, below) ↦ if is_composer prompt below then some (above, prompt) else none
]

-- What a line of the transcript says: of the header of a tool, no more than its verb and suffix.
pub entry_of : Text → Text
unfolding tool_header live_suffix
entry_of line = elim (tool_header line) [
  | none ↦ line
  | some header ↦ elim (live_suffix line) [ none ↦ header | some suffix ↦ header ++ b' ' ∷ suffix ]
]

-- The loop over the transcript: whether the lines of a tool's output are passed over.
unfoldable pub transcript_lines : Bool → List Text → List Text
unfolding opens_tool_output continues_tool_output entry_of
transcript_lines in_tool_output [] = []
transcript_lines in_tool_output (line ∷ lines) =
    let passed = opens_tool_output line || (in_tool_output && continues_tool_output line) in
    let rest = transcript_lines passed lines in if passed then rest else entry_of line ∷ rest

unfoldable pub codex_signal_lines : List Text → List Text
unfolding composer transcript_lines is_ready_placeholder
codex_signal_lines lines = elim (composer lines) [
  | none ↦ transcript_lines false lines
  | some (above, prompt) ↦
      transcript_lines false above
      ++ (if is_ready_placeholder prompt then prompt else prompt_glyph ∷ []) ∷ []
]

unfoldable pub strip_codex_composer_tail : List Text → List Text
unfolding composer
strip_codex_composer_tail lines = elim (composer lines) [
  | none ↦ lines
  | some (above, prompt) ↦ above
]
