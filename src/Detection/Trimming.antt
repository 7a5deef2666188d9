-- ===== src/Detection/Trimming.antt =====
-- What `trimSupersededErrors` leaves of a window.
use spawnea.Prelude.{
  ℕ, suc, ◌≡◌, ◌≢◌, refl, sym, ◌∙◌, subst, inl, inr, Bool, true, false, Option, none, some, List,
  [], ◌∷◌, ◌++◌, drop, take, any, ◌⊎◌, ◌&&◌, append_assoc, All, arith, Bool-cases,
}
use spawnea.Prelude.Units.{Text}
use spawnea.Detection.LastIndex.{
  last_index-none, IsLast, last_index-some, All-drop_one, empty_or_not,
}
use spawnea.Detection.{
  Rule, any_matches, error_rules, other_rules, last_index, trim_at, trim_superseded_errors,
}

module _ {Pattern : Type 0} (exec : Pattern → Text → Option (ℕ × Text))
    (to_lower_case strip_ansi : Text → Text) where
  abbrev is_error_line : List (Rule exec to_lower_case strip_ansi) → Text → Bool
  is_error_line rules =
      any_matches exec to_lower_case strip_ansi (error_rules exec to_lower_case strip_ansi rules)

  abbrev is_other_line : List (Rule exec to_lower_case strip_ansi) → Text → Bool
  is_other_line rules =
      any_matches exec to_lower_case strip_ansi (other_rules exec to_lower_case strip_ansi rules)

  -- The newest lines of a window, where an error that a later line supersedes has no part.
  pub record IsCurrent (lines : List Text) (rules : List (Rule exec to_lower_case strip_ansi))
      (result : List Text) : Type 0 where
    pub dropped : List Text
    pub is_suffix : lines ≡ dropped ++ result
    pub no_late_error : All (λ line. is_error_line rules line ≡ false) (drop 1 result)
    pub not_superseded :
        (any (is_error_line rules) (take 1 result) && any (is_other_line rules) (drop 1 result))
        ≡ false
    pub filled : (lines ≡ []) ⊎ (result ≢ [])

  no_error-IsCurrent :
      (dropped lines : List Text) (rules : List (Rule exec to_lower_case strip_ansi))
      → All (λ line. is_error_line rules line ≡ false) lines
      → (dropped ++ lines ≡ []) ⊎ (lines ≢ [])
      → IsCurrent (dropped ++ lines) rules lines
  no_error-IsCurrent dropped lines rules h k = record {
    dropped = dropped;
    is_suffix = refl;
    no_late_error = All-drop_one (λ line. is_error_line rules line ≡ false) lines h;
    not_superseded = first lines h;
    filled = k;
  }
    where
      first :
          (lines : List Text)
          → All (λ line. is_error_line rules line ≡ false) lines
          → (any (is_error_line rules) (take 1 lines) && any (is_other_line rules) (drop 1 lines))
            ≡ false
      first [] h = refl
      first (line ∷ lines) (p, h) = ground (arith, p)

  trim_at-IsCurrent :
      (lines : List Text) (rules : List (Rule exec to_lower_case strip_ansi)) (i : ℕ)
      → IsLast (is_error_line rules) lines i
      → IsCurrent lines rules (trim_at exec to_lower_case strip_ansi lines rules (some i))
  unfolding trim_at
  trim_at-IsCurrent lines rules i h =
      let later = drop (suc i) lines in
      elim (Bool-cases (any (is_other_line rules) later)) [
        | inl superseded ↦
            let split : lines ≡ (h.before ++ h.line ∷ []) ++ later =
              h.split ∙ sym (append_assoc h.before (h.line ∷ []) later) in
            rw (superseded, trim_at)
              (subst (λ ls. IsCurrent ls rules later) (sym split)
                (no_error-IsCurrent (h.before ++ h.line ∷ []) later rules h.quiet
                  (inr (λ e. empty later e superseded))))
        | inr newest ↦
            rw (newest, trim_at)
              (subst (IsCurrent lines rules) (sym h.there) (record {
                dropped = h.before;
                is_suffix = h.split;
                no_late_error = h.quiet;
                not_superseded = ground (arith, newest, h.hit);
                filled = inr (λ e. cc);
              }))
      ]
    where
      empty : (later : List Text) → later ≡ [] → any (is_other_line rules) later ≡ true → ⊥
      empty [] e k = absurd_of k
        where
          absurd_of : false ≡ true → ⊥
          absurd_of e = cc
      empty (x ∷ later) e k = cc

  -- Whatever the rules and the lines: what is left is the end of the lines, and is not empty
  -- unless they are; only its first line can be one that an error rule matches, and then no later
  -- one is matched by a rule of another state.
  pub trim_superseded_errors-IsCurrent :
      (lines : List Text) (rules : List (Rule exec to_lower_case strip_ansi))
      → IsCurrent lines rules (trim_superseded_errors exec to_lower_case strip_ansi lines rules)
  unfolding trim_superseded_errors
  trim_superseded_errors-IsCurrent lines rules =
      go (error_rules exec to_lower_case strip_ansi rules) refl
    where
      by_index :
          (found : Option ℕ)
          → last_index (is_error_line rules) lines ≡ found
          → IsCurrent lines rules (trim_at exec to_lower_case strip_ansi lines rules found)
      by_index none e =
          unfold trim_at in
          no_error-IsCurrent [] lines rules (last_index-none (is_error_line rules) lines e)
            (empty_or_not lines)
      by_index (some i) e =
          trim_at-IsCurrent lines rules i (last_index-some (is_error_line rules) lines i e)

      go :
          (errors : List (Rule exec to_lower_case strip_ansi))
          → error_rules exec to_lower_case strip_ansi rules ≡ errors
          → IsCurrent lines rules (trim_superseded_errors exec to_lower_case strip_ansi lines rules)
      go [] e =
          let same : trim_superseded_errors exec to_lower_case strip_ansi lines rules ≡ lines =
            rw (e, trim_superseded_errors) refl in
          subst (IsCurrent lines rules) (sym same)
            (no_error-IsCurrent [] lines rules (quiet lines) (empty_or_not lines))
        where
          quiet : (lines : List Text) → All (λ line. is_error_line rules line ≡ false) lines
          quiet [] = tt
          quiet (line ∷ lines) = (rw e refl, quiet lines)
      go (rule ∷ more) e =
          let same : trim_superseded_errors exec to_lower_case strip_ansi lines rules
              ≡ trim_at exec to_lower_case strip_ansi lines rules
                  (last_index (is_error_line rules) lines) =
            rw (e, trim_superseded_errors) refl in
          subst (IsCurrent lines rules) (sym same)
            (by_index (last_index (is_error_line rules) lines) refl)
