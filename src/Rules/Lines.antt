-- ===== src/Rules/Lines.antt =====
-- The line that a match reports.
use spawnea.Prelude.{
  ℕ, zero, suc, ◌+◌, ◌-◌, min, ◌≡◌, refl, inl, inr, Bool, ◌&&◌, not, Option, some, List, [], ◌∷◌,
  get_or, length, get_elem?, take, drop, arith, Option-cases, Bool-cases,
}
use spawnea.Prelude.Units.{Text, trim}
use spawnea.Rules.{
  CompiledStateRule, RuleMatch, newest, last_or, start_line, representative_line, is_selector_line,
  is_prompt_glyph_line, test, match_patterns, match_rules, match_state_rules, join_lines,
}

-- The line stands in the list.
abbrev pub IsAmong : Text → List Text → Type 0
IsAmong line lines = (i : ℕ) × (get_elem? lines i ≡ some line)

newest-IsAmong :
    (p : Text → Bool) (lines : List Text) (line : Text)
    → newest p lines ≡ some line
    → IsAmong line lines
unfolding newest
newest-IsAmong p [] line e = cc
newest-IsAmong p (x ∷ lines) line e = elim (Option-cases (newest p lines)) [
  | inl absent ↦ (0, ground (arith, absent))
  | inr (found, hit) ↦
      let (i, there) = newest-IsAmong p lines found hit in (suc i, ground (arith, hit, there))
]

IsAmong-take :
    (n : ℕ) (lines : List Text) (line : Text) → IsAmong line (take n lines) → IsAmong line lines
IsAmong-take zero lines line (i, e) = cc
IsAmong-take (suc n) [] line (i, e) = cc
IsAmong-take (suc n) (x ∷ lines) line (zero, e) = (0, e)
IsAmong-take (suc n) (x ∷ lines) line (suc i, e) =
    let (j, there) = IsAmong-take n lines line (i, e) in (suc j, there)

IsAmong-drop :
    (n : ℕ) (lines : List Text) (line : Text) → IsAmong line (drop n lines) → IsAmong line lines
IsAmong-drop zero lines line h = h
IsAmong-drop (suc n) [] line h = h
IsAmong-drop (suc n) (x ∷ lines) line h =
    let (i, there) = IsAmong-drop n lines line h in (suc i, there)

last_or-IsAmong : (d x : Text) (lines : List Text) → IsAmong (last_or d (x ∷ lines)) (x ∷ lines)
last_or-IsAmong d x [] = (0, refl)
last_or-IsAmong d x (y ∷ lines) = let (i, there) = last_or-IsAmong x y lines in (suc i, there)

-- A line that is reported, without the white space around it.
abbrev pub IsReported : Text → List Text → Type 0
IsReported report lines = (line : Text) × (report ≡ trim line) × IsAmong line lines

module _ {Pattern : Type 0} (exec : Pattern → Text → Option (ℕ × Text)) where
  plain-IsReported :
      (x : Text) (lines : List Text) (first : ℕ)
      → IsReported
          (trim (get_or (get_elem? (x ∷ lines) first) (last_or [] (x ∷ lines))))
          (x ∷ lines)
  plain-IsReported x lines first = elim (Option-cases (get_elem? (x ∷ lines) first)) [
    | inl e ↦ (last_or x lines, rw e refl, last_or-IsAmong x x lines)
    | inr (line, e) ↦ (line, rw e refl, (first, e))
  ]

  start_line-IsReported :
      (x : Text) (lines : List Text) (first last : ℕ)
      → IsReported (start_line exec (x ∷ lines) first last) (x ∷ lines)
  unfolding start_line
  start_line-IsReported x lines first last =
      let all = x ∷ lines in
      let line = get_or (get_elem? all first) [] in
      let below = take (min last (length all - 1) - first) (drop (first + 1) all) in
      elim (Bool-cases (is_prompt_glyph_line line && not (is_selector_line line))) [
        | inr other ↦ rw (other, start_line) (plain-IsReported x lines first)
        | inl prompt ↦ elim (Option-cases (newest is_selector_line below)) [
          | inl e ↦ rw (prompt, e, start_line) (plain-IsReported x lines first)
          | inr (selector, e) ↦ (
            selector,
            rw (prompt, e, start_line) refl,
            IsAmong-drop (first + 1) all selector (
                IsAmong-take (min last (length all - 1) - first) (drop (first + 1) all) selector
                  (newest-IsAmong is_selector_line below selector e)),
          )
        ]
      ]

  representative_line-IsReported :
      (pattern : Pattern) (x : Text) (lines : List Text) (text : Text) (index : ℕ)
      → IsReported (representative_line exec pattern (x ∷ lines) text index) (x ∷ lines)
  unfolding representative_line
  representative_line-IsReported pattern x lines text index =
      elim (Option-cases (newest (test exec pattern) (x ∷ lines))) [
        | inl e ↦ rw (e, representative_line) (start_line-IsReported x lines _ _)
        | inr (line, e) ↦ (
          line,
          rw (e, representative_line) refl,
          newest-IsAmong (test exec pattern) (x ∷ lines) line e,
        )
      ]

  match_rules-IsReported :
      (rules : List (CompiledStateRule exec)) (x : Text) (lines : List Text) (text : Text)
      (m : RuleMatch exec)
      → match_rules exec rules (x ∷ lines) text ≡ some m
      → IsReported m.line (x ∷ lines)
  unfolding match_rules
  match_rules-IsReported [] x lines text m e = cc
  match_rules-IsReported (rule ∷ rules) x lines text m e =
      elim (Option-cases (match_patterns exec rule.patterns text)) [
        | inl silent ↦ match_rules-IsReported rules x lines text m (rw (silent, match_rules) at e)
        | inr ((pattern, index), hit) ↦
            let (line, same, there) = representative_line-IsReported pattern x lines text index in
            let whole : some (record {
              rule = rule;
              pattern = pattern;
              line = representative_line exec pattern (x ∷ lines) text index;
            })
                ≡ some m =
              rw (hit, match_rules) at e in
            (line, ground (arith, same), there)
      ]

  -- Whatever the patterns match, also over several lines, the line that a match reports is one of
  -- the window, without the white space around it.
  pub match_state_rules-IsReported :
      (rules : List (CompiledStateRule exec)) (lines : List Text) (m : RuleMatch exec)
      → match_state_rules exec rules lines ≡ some m
      → IsReported m.line lines
  unfolding match_state_rules
  match_state_rules-IsReported rules [] m e = cc
  match_state_rules-IsReported rules (x ∷ lines) m e =
      match_rules-IsReported rules x lines (join_lines (x ∷ lines)) m e
