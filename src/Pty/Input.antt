-- ===== src/Pty/Input.antt =====
-- `hasUserInput` of pty-broker.ts: what is left of typed data when terminal replies are removed.
-- Each pattern of the source is a function from a text to the length of the match at its start;
-- the classes in a pattern exclude one another, so the match is the only one.
pub mod Replies
use spawnea.Prelude.{
  ℕ, suc, zero, ◌+◌, ◌-◌, Bool, false, ◌&&◌, ◌||◌, Option, none, some, [], ◌∷◌, ltb, leb, ◌==◌,
  if◌then◌else◌, length,
}
use spawnea.Prelude.Units.{Text}

abbrev esc : ℕ
esc = 0x1b

abbrev bel : ℕ
bel = 0x07

starts_backslash : Text → Bool
starts_backslash [] = false
starts_backslash (c ∷ s) = c == 0x5c

-- `[^BEL ESC]*(?:BEL|ESC\\)` behind `n` units
osc_tail : ℕ → Text → Option ℕ
osc_tail n [] = none
osc_tail n (c ∷ s) =
    let longer = osc_tail (n + 1) s in
    if c == bel
    then some (n + 1)
    else if c == esc
    then (if starts_backslash s then some (n + 2) else none)
    else longer

-- `[\s\S]*?ESC\\` behind `n` units
string_tail : ℕ → Text → Option ℕ
string_tail n [] = none
string_tail n (c ∷ s) =
    let longer = string_tail (n + 1) s in
    if c == esc && starts_backslash s then some (n + 2) else longer

-- `[ -/]*[@-~]` behind `n` units
csi_end : ℕ → Text → Option ℕ
csi_end n [] = none
csi_end n (c ∷ s) =
    let longer = csi_end (n + 1) s in
    if leb 0x20 c && leb c 0x2f
    then longer
    else if leb 0x40 c && leb c 0x7e
    then some (n + 1)
    else none

-- `[0-?]*[ -/]*[@-~]` behind `n` units
csi_tail : ℕ → Text → Option ℕ
csi_tail n [] = none
csi_tail n (c ∷ s) =
    let longer = csi_tail (n + 1) s in
    if leb 0x30 c && leb c 0x3f then longer else csi_end n (c ∷ s)

is_string_opener : ℕ → Bool
is_string_opener c = c == 0x50 || c == 0x5e || c == 0x5f || c == 0x58

osc_pattern : Text → Option ℕ
osc_pattern (c ∷ d ∷ s) = if c == esc && d == 0x5d then osc_tail 2 s else none
osc_pattern _ = none

string_pattern : Text → Option ℕ
string_pattern (c ∷ d ∷ s) = if c == esc && is_string_opener d then string_tail 2 s else none
string_pattern _ = none

csi_pattern : Text → Option ℕ
csi_pattern (c ∷ d ∷ s) = if c == esc && d == 0x5b then csi_tail 2 s else none
csi_pattern _ = none

esc_pattern : Text → Option ℕ
esc_pattern (c ∷ s) = if c == esc then some 1 else none
esc_pattern [] = none

-- `text.replace(pattern, '')` for a global pattern: the first argument counts the units of a match
-- that are still to be dropped.
remove_from : (Text → Option ℕ) → ℕ → Text → Text
remove_from pattern skip [] = []
remove_from pattern (suc skip) (c ∷ s) = remove_from pattern skip s
remove_from pattern zero (c ∷ s) = elim (pattern (c ∷ s)) [
  | none ↦ c ∷ remove_from pattern 0 s
  | some n ↦ remove_from pattern (n - 1) s
]

remove_all : (Text → Option ℕ) → Text → Text
unfolding remove_from
remove_all pattern s = remove_from pattern 0 s

unfoldable pub has_user_input : Text → Bool
unfolding remove_all osc_pattern string_pattern csi_pattern esc_pattern osc_tail string_tail
    csi_tail csi_end is_string_opener starts_backslash
has_user_input text = ltb 0 (
    length (
      remove_all esc_pattern
        (remove_all csi_pattern (remove_all string_pattern (remove_all osc_pattern text)))))
