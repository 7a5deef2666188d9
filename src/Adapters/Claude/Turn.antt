-- ===== src/Adapters/Claude/Turn.antt =====
-- The lines of the current turn, which is what the rules see.
use spawnea.Prelude.{
  ℕ, suc, ◌≡◌, ◌≢◌, ◌⊎◌, refl, sym, ap, ◌∙◌, subst, inl, inr, true, false, Option, List, [], ◌∷◌,
  ◌++◌, drop, append_assoc, All, Option-cases, Bool-cases,
}
use spawnea.Prelude.Units.{Text}
use spawnea.Detection.{Rule, last_index}
use spawnea.Detection.LastIndex.{last_index-none, IsLast, last_index-some, All-drop_one}
use spawnea.Adapters.Claude.{
  collapse_from, collapse_claude_input_box, is_turn_completion, is_ready_tail, all_ready,
  after_completion, claude_lines,
}

collapse-filled : (raw : List Text) → (raw ≡ []) ⊎ (collapse_claude_input_box raw ≢ [])
unfolding collapse_claude_input_box collapse_from
collapse-filled [] = inl refl
collapse-filled (line ∷ lines) = inr (λ e. cc)

module _ {Regex : Type 0} (exec : Regex → Text → Option (ℕ × Text))
    (to_lower_case strip_ansi : Text → Text) where
  -- The end of the collapsed lines, without a marker of a turn that is done after its first line,
  -- and with one there only when what follows is the prompt and what stands round it.
  pub record IsTurn (raw : List Text) (rules : List (Rule exec to_lower_case strip_ansi))
      (result : List Text) : Type 0 where
    pub dropped : List Text
    pub is_suffix : collapse_claude_input_box raw ≡ dropped ++ result
    pub no_later_marker : All (λ line. is_turn_completion line ≡ false) (drop 1 result)
    pub settled :
        All (λ line. is_turn_completion line ≡ false) result
        ⊎ (is_ready_tail exec to_lower_case strip_ansi (drop 1 result) rules ≡ true)
    pub filled : (raw ≡ []) ⊎ (result ≢ [])

  after_completion-IsTurn :
      (raw : List Text) (rules : List (Rule exec to_lower_case strip_ansi)) (i : ℕ)
      → IsLast is_turn_completion (collapse_claude_input_box raw) i
      → IsTurn raw rules
          (after_completion exec to_lower_case strip_ansi (collapse_claude_input_box raw) rules i)
  unfolding after_completion is_ready_tail all_ready
  after_completion-IsTurn raw rules i h = go (drop (suc i) (collapse_claude_input_box raw)) refl
    where
      marker :
          is_ready_tail exec to_lower_case strip_ansi
              (drop (suc i) (collapse_claude_input_box raw))
              rules
            ≡ true
          → IsTurn raw rules (drop i (collapse_claude_input_box raw))
      marker ready = subst (IsTurn raw rules) (sym h.there) (record {
        dropped = h.before;
        is_suffix = h.split;
        no_later_marker = h.quiet;
        settled = inr ready;
        filled = inr (λ e. cc);
      })

      go :
          (after : List Text)
          → drop (suc i) (collapse_claude_input_box raw) ≡ after
          → IsTurn raw rules (
              after_completion exec to_lower_case strip_ansi
                (collapse_claude_input_box raw)
                rules
                i)
      go [] e = rw (e, after_completion) (marker (rw e refl))
      go (line ∷ after) e =
          elim (Bool-cases (is_ready_tail exec to_lower_case strip_ansi (line ∷ after) rules)) [
            | inl ready ↦ rw (e, after_completion, ready) (marker (rw e ready))
            | inr busy ↦
                let split : collapse_claude_input_box raw
                    ≡ (h.before ++ h.line ∷ []) ++ line ∷ after =
                  h.split
                  ∙ sym (append_assoc h.before (h.line ∷ []) _)
                  ∙ ap (λ ls. (h.before ++ h.line ∷ []) ++ ls) e in
                let quiet : All (λ line. is_turn_completion line ≡ false) (line ∷ after) =
                  subst (All (λ line. is_turn_completion line ≡ false)) e h.quiet in
                rw (e, after_completion, busy)
                  (record {
                    dropped = h.before ++ h.line ∷ [];
                    is_suffix = split;
                    no_later_marker =
                        All-drop_one (λ line. is_turn_completion line ≡ false) (line ∷ after) quiet;
                    settled = inl quiet;
                    filled = inr (λ e. cc);
                  })
          ]

  -- Whatever the tail and the rules: the rules see the end of the lines, with the draft collapsed,
  -- which is not empty unless the tail is; it has no marker of a turn that is done after its first
  -- line, and one there only when ready chrome alone follows.
  pub claude_lines-IsTurn :
      (raw : List Text) (rules : List (Rule exec to_lower_case strip_ansi))
      → IsTurn raw rules (claude_lines exec to_lower_case strip_ansi raw rules)
  unfolding claude_lines
  claude_lines-IsTurn raw rules =
      elim (Option-cases (last_index is_turn_completion (collapse_claude_input_box raw))) [
        | inl e ↦
            let quiet = last_index-none is_turn_completion (collapse_claude_input_box raw) e in
            rw (e, claude_lines)
              (record {
                dropped = [];
                is_suffix = refl;
                no_later_marker = All-drop_one (λ line. is_turn_completion line ≡ false) _ quiet;
                settled = inl quiet;
                filled = collapse-filled raw;
              })
        | inr (i, e) ↦
            rw (e, claude_lines)
              (after_completion-IsTurn raw rules i
                (last_index-some is_turn_completion (collapse_claude_input_box raw) i e))
      ]
