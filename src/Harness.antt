-- ===== src/Harness.antt =====
-- packages/state/src/harness-ids.ts: the identifiers of the agents' programs. `toLowerCase`, which
-- depends on the tables of Unicode, is an argument.
use spawnea.Prelude.{Bool, false, ◌||◌, Option, none, some, [], ◌∷◌, ◌==◌, if◌then◌else◌, get_or}
use spawnea.Prelude.Units.{Text, units, text_eq, trim}
use spawnea.Prelude.TextMaps.{TextMap, lookup}

abbrev pub harness_aliases : TextMap Text
harness_aliases =
    (units "codex-cli", units "codex")
    ∷ (units "hermes-python", units "hermes")
    ∷ (units "agy", units "antigravity")
    ∷ (units "gemini-cli", units "antigravity")
    ∷ (units "xai", units "grok")
    ∷ (units "claude-code", units "claude")
    ∷ []

-- `text.split(/[\\\/]/).pop()`, what follows the last slash or backslash.
pub has_separator : Text → Bool
has_separator [] = false
has_separator (c ∷ s) = c == b'/' || c == 0x5c || has_separator s

unfoldable pub after_separator : Text → Text
unfolding has_separator
after_separator [] = []
after_separator (c ∷ s) = if has_separator (c ∷ s) then after_separator s else c ∷ s

module _ (to_lower_case : Text → Text) where
  unfoldable pub canonical_harness_id : Text → Text
  canonical_harness_id name =
      let normalized = trim (to_lower_case name) in
      get_or (lookup normalized harness_aliases) normalized

  -- The absent name and the empty one are both falsy.
  unfoldable pub resolve_known_harness_id : Option Text → (Text → Bool) → Option Text
  unfolding canonical_harness_id
  resolve_known_harness_id name is_known =
      let given = get_or name [] in
      let exact = canonical_harness_id given in
      let command = canonical_harness_id (after_separator (trim given)) in
      if text_eq (trim given) []
      then none
      else if is_known exact
      then some exact
      else if text_eq command []
      then none
      else if is_known command
      then some command
      else none
