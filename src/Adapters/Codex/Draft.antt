-- ===== src/Adapters/Codex/Draft.antt =====
-- An unsent draft is no output of the agent.
use spawnea.Prelude.{
  ℕ, ◌≡◌, ◌==◌, ◌||◌, Option, refl, ap, sym, ◌∙◌, Bool, true, false, none, some, List, [], ◌∷◌,
  ◌++◌, All, arith,
}
use spawnea.Prelude.Units.{Text, units, is_white, trim_start}
use spawnea.Patterns.{
  one, seq, many1, from_each, literal, one_of, is_of, white, digits, is_decimal_digit,
}
use spawnea.Patterns.Starts.{
  place_of, begins, found-at_start, NeedsFirst, seq-NeedsFirst, many1-NeedsFirst, many-fail,
  many1-fail,
}
use spawnea.Adapters.Codex.Signal.{
  number_then_white, is_menu_selector, is_indented_selector, is_live_dialog, prompt_glyph,
  is_column_zero, last_split, is_composer, is_editable_prompt, is_ready_placeholder, composer,
  transcript_lines, codex_signal_lines, strip_codex_composer_tail,
}
use spawnea.Adapters.Codex.{codex_lines, newest_turn}

module _ (p : Text → Bool) where
  last_split-none :
      (lines : List Text) → All (λ line. p line ≡ false) lines → last_split p lines ≡ none
  unfolding last_split
  last_split-none [] h = refl
  last_split-none (line ∷ lines) (q, h) = rw (last_split-none lines h, q, last_split) refl

  -- The split at a line that passes the test when none below it does.
  pub last_split-append :
      (above : List Text) (line : Text) (below : List Text)
      → p line ≡ true
      → All (λ later. p later ≡ false) below
      → last_split p (above ++ line ∷ below) ≡ some (above, line, below)
  unfolding last_split
  last_split-append [] line below q h = rw (last_split-none below h, q, last_split) refl
  last_split-append (first ∷ above) line below q h =
      rw (last_split-append above line below q h, last_split) refl

-- Begins with one of the two glyphs that mark the choice of a menu.
abbrev pub is_glyph : ℕ → Bool
is_glyph c = c == 0x203a || c == 0x276f

-- A prompt with a draft, and what stands below it: the prompt's glyph, white space and a text that
-- does not begin with a digit; the lines below are indented, or empty, and their texts do not begin
-- with a glyph.
pub record IsDraft (prompt : Text) (below : List Text) : Type 0 where
  pub draft : Text
  pub has_glyph : prompt ≡ prompt_glyph ∷ draft
  pub spaced : begins is_white draft ≡ true
  pub not_numbered : begins is_decimal_digit (trim_start draft) ≡ false
  pub indented : All (λ line. is_column_zero line ≡ false) below
  pub not_chosen : All (λ line. begins is_glyph (trim_start line) ≡ false) below

white_no_digit : (c : ℕ) → is_white c ≡ true → is_decimal_digit c ≡ false
unfolding is_white is_decimal_digit
white_no_digit c h = ground arith

white_no_glyph : (c : ℕ) → is_white c ≡ true → is_glyph c ≡ false
unfolding is_white
white_no_glyph c h = ground arith

-- A number, a point and white space behind white space are not there.
number-fail :
    (before : Option ℕ) (s : Text)
    → begins is_decimal_digit (trim_start s) ≡ false
    → number_then_white (place_of before s) ≡ []
unfolding number_then_white seq digits
number-fail before s e =
    many-fail is_decimal_digit white_no_digit
      (seq (many1 (one is_decimal_digit) ∷ literal (units ".") ∷ white ∷ []))
      (seq-NeedsFirst is_decimal_digit (many1 (one is_decimal_digit))
        (literal (units ".") ∷ white ∷ []) (many1-NeedsFirst is_decimal_digit))
      before s e

draft-is_menu_selector :
    (draft : Text)
    → begins is_decimal_digit (trim_start draft) ≡ false
    → is_menu_selector (prompt_glyph ∷ draft) ≡ false
unfolding is_menu_selector
draft-is_menu_selector draft e =
    found-at_start (literal (units "›") ∷ number_then_white ∷ []) (prompt_glyph ∷ draft) (
      unfold seq in
      unfold from_each in
      unfold literal in unfold one in rw (number-fail (some prompt_glyph) draft e) refl)

line-is_indented_selector :
    (line : Text) → begins is_glyph (trim_start line) ≡ false → is_indented_selector line ≡ false
unfolding is_indented_selector
line-is_indented_selector line e =
    found-at_start (many1 white ∷ one_of (units "›❯") ∷ number_then_white ∷ []) line (
      unfold seq in
      many1-fail is_glyph white_no_glyph (seq (one_of (units "›❯") ∷ number_then_white ∷ []))
        (seq-NeedsFirst is_glyph (one_of (units "›❯")) (number_then_white ∷ []) glyph_first) none
        line e)
  where
    glyph_first : NeedsFirst is_glyph (one_of (units "›❯"))
    glyph_first before [] e = unfold one_of in unfold one in refl
    glyph_first before (c ∷ s) e = unfold one_of in unfold one in unfold is_of in ground (arith, e)

below-is_live_dialog :
    (below : List Text)
    → All (λ line. begins is_glyph (trim_start line) ≡ false) below
    → is_live_dialog below ≡ false
unfolding is_live_dialog
below-is_live_dialog [] h = refl
below-is_live_dialog (line ∷ below) (first, h) =
    rw (line-is_indented_selector line first) (below-is_live_dialog below h)

draft-is_editable_prompt :
    (draft : Text) → begins is_white draft ≡ true → is_editable_prompt (prompt_glyph ∷ draft) ≡ true
unfolding is_editable_prompt
draft-is_editable_prompt [] h = refl
draft-is_editable_prompt (c ∷ s) h = h

IsDraft-is_composer :
    (prompt : Text) (below : List Text) → IsDraft prompt below → is_composer prompt below ≡ true
unfolding is_composer
IsDraft-is_composer prompt below h =
    rw
      (
        h.has_glyph,
        draft-is_editable_prompt h.draft h.spaced,
        draft-is_menu_selector h.draft h.not_numbered,
        below-is_live_dialog below h.not_chosen,
      )
      refl

IsDraft-is_column_zero :
    (prompt : Text) (below : List Text) → IsDraft prompt below → is_column_zero prompt ≡ true
unfolding is_column_zero is_white
IsDraft-is_column_zero prompt below h = rw h.has_glyph refl

composer-append :
    (above : List Text) (prompt : Text) (below : List Text)
    → IsDraft prompt below
    → composer (above ++ prompt ∷ below) ≡ some (above, prompt)
unfolding composer
composer-append above prompt below h =
    rw
      (
        last_split-append is_column_zero above prompt below (IsDraft-is_column_zero prompt below h)
            h.indented,
        composer,
        IsDraft-is_composer prompt below h,
      )
      refl

signal_of_draft :
    (above : List Text) (prompt : Text) (below : List Text)
    → IsDraft prompt below
    → is_ready_placeholder prompt ≡ false
    → codex_signal_lines (above ++ prompt ∷ below)
      ≡ transcript_lines false above ++ (prompt_glyph ∷ []) ∷ []
unfolding codex_signal_lines
signal_of_draft above prompt below h typed =
    rw (composer-append above prompt below h, codex_signal_lines, typed) refl

-- Below the same transcript, any two drafts leave the same lines for the rules, when neither is
-- empty, the placeholder or begins with a digit, the lines below them are indented or empty and do
-- not begin with a glyph of a menu; and the tail without its composer is the transcript.
pub codex_lines-draft :
    (above : List Text) (prompt : Text) (below : List Text) (other : Text) (other_below : List Text)
    → IsDraft prompt below
    → is_ready_placeholder prompt ≡ false
    → IsDraft other other_below
    → is_ready_placeholder other ≡ false
    → (codex_lines (above ++ prompt ∷ below) ≡ codex_lines (above ++ other ∷ other_below))
      × (strip_codex_composer_tail (above ++ prompt ∷ below) ≡ above)
unfolding codex_lines strip_codex_composer_tail
codex_lines-draft above prompt below other other_below h typed k other_typed = (
  ap newest_turn (
      signal_of_draft above prompt below h typed
      ∙ sym (signal_of_draft above other other_below k other_typed)),
  rw (composer-append above prompt below h, strip_codex_composer_tail) refl,
)
