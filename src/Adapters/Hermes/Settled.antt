-- ===== src/Adapters/Hermes/Settled.antt =====
-- Above the mark of a turn that is done, no work is left.
use spawnea.Prelude.{
  ℕ, zero, suc, ◌≡◌, ap, ◌∙◌, subst, inl, inr, Bool, true, false, Option, none, some, List, [], ◌∷◌,
  ◌++◌, All, arith, Option-cases, Bool-cases,
}
use spawnea.Prelude.Units.{Text}
use spawnea.Detection.{Rule, any_matches, last_index}
use spawnea.Detection.LastIndex.{last_index-none}
use spawnea.Adapters.Hermes.{
  is_idle_check, is_working_state, rules_in, drop_work, drop_closed_menu, drop_answered_question,
  hermes_lines,
}

last_index-suc :
    (p : Text → Bool) (line : Text) (lines : List Text) (i : ℕ)
    → last_index p (line ∷ lines) ≡ some (suc i)
    → last_index p lines ≡ some i
unfolding last_index
last_index-suc p line lines i e = elim (Option-cases (last_index p lines)) [
  | inl absent ↦ absurd (ground (arith, absent, e))
  | inr (j, later) ↦ later ∙ ap some (ground (arith, later, e))
]

-- A line that passes a test is not among lines that do not.
passing-none :
    (p : Text → Bool) (before : List Text) (line : Text) (after : List Text)
    → All (λ l. p l ≡ false) (before ++ line ∷ after)
    → p line ≡ true
    → ⊥
passing-none p [] line after (q, h) k = cc
passing-none p (first ∷ before) line after (q, h) k = passing-none p before line after h k

module _ {Regex : Type 0} (exec : Regex → Text → Option (ℕ × Text))
    (to_lower_case strip_ansi : Text → Text) where
  abbrev pub is_work : List (Rule exec to_lower_case strip_ansi) → Text → Bool
  is_work rules line =
      any_matches exec to_lower_case strip_ansi
        (rules_in exec to_lower_case strip_ansi is_working_state rules) line

  drop_work-settled :
      (rules : List (Rule exec to_lower_case strip_ansi)) (i : ℕ) (lines before : List Text)
      (check : Text) (after : List Text)
      → last_index is_idle_check lines ≡ some i
      → drop_work exec to_lower_case strip_ansi rules i lines ≡ before ++ check ∷ after
      → is_idle_check check ≡ true
      → All (λ line. is_idle_check line ≡ false) after
      → All (λ line. is_work rules line ≡ false) before
  unfolding drop_work last_index
  drop_work-settled rules i lines [] check after found e mark quiet = tt
  drop_work-settled rules i [] (first ∷ before) check after found e mark quiet = cc
  drop_work-settled rules zero (line ∷ lines) (first ∷ before) check after found e mark quiet =
      let rest : lines ≡ before ++ check ∷ after = cc in
      let last : last_index is_idle_check lines ≡ none =
        elim (Option-cases (last_index is_idle_check lines)) [
          | inl absent ↦ absent
          | inr (j, later) ↦ absurd (ground (arith, later, found))
        ] in
      absurd (
        passing-none is_idle_check before check after
          (subst (All (λ l. is_idle_check l ≡ false)) rest
            (last_index-none is_idle_check lines last))
          mark)
  drop_work-settled rules (suc i) (line ∷ lines) (first ∷ before) check after found e mark quiet =
      let later : last_index is_idle_check lines ≡ some i =
        last_index-suc is_idle_check line lines i found in
      elim (Bool-cases (is_work rules line)) [
        | inl work ↦
            let rest : drop_work exec to_lower_case strip_ansi rules i lines
                ≡ first ∷ before ++ check ∷ after =
              rw (work, drop_work) at e in
            drop_work-settled rules i lines (first ∷ before) check after later rest mark quiet
        | inr idle ↦
            let whole : line ∷ drop_work exec to_lower_case strip_ansi rules i lines
                ≡ first ∷ before ++ check ∷ after =
              rw (idle, drop_work) at e in
            let same : line ≡ first = cc in
            let rest : drop_work exec to_lower_case strip_ansi rules i lines
                ≡ before ++ check ∷ after =
              cc in
            (
              subst (λ l. is_work rules l ≡ false) same idle,
              drop_work-settled rules i lines before check after later rest mark quiet,
            )
      ]

  -- Of what the rules see, no line above the last mark of a turn that is done matches a rule for
  -- working.
  pub hermes_lines-settled :
      (lines : List Text) (rules : List (Rule exec to_lower_case strip_ansi)) (before : List Text)
      (check : Text) (after : List Text)
      → hermes_lines exec to_lower_case strip_ansi lines rules ≡ before ++ check ∷ after
      → is_idle_check check ≡ true
      → All (λ line. is_idle_check line ≡ false) after
      → All (λ line. is_work rules line ≡ false) before
  unfolding hermes_lines
  hermes_lines-settled lines rules before check after e mark quiet =
      let current =
        drop_answered_question exec to_lower_case strip_ansi (drop_closed_menu lines) rules in
      elim (Option-cases (last_index is_idle_check current)) [
        | inl absent ↦
            let same : current ≡ before ++ check ∷ after = rw (absent, hermes_lines) at e in
            absurd (
              passing-none is_idle_check before check after
                (subst (All (λ l. is_idle_check l ≡ false)) same
                  (last_index-none is_idle_check current absent))
                mark)
        | inr (i, found) ↦
            let same : drop_work exec to_lower_case strip_ansi rules i current
                ≡ before ++ check ∷ after =
              rw (found, hermes_lines) at e in
            drop_work-settled rules i current before check after found same mark quiet
      ]
