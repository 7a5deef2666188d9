-- ===== src/Rules/Order.antt =====
-- Which rule decides: the first one that matches, the user's before the factory's.
use spawnea.Prelude.{
  ℕ, ◌≡◌, ◌≢◌, refl, ap, subst, ◌∙◌, inl, inr, Option, none, some, List, [], ◌∷◌, ◌++◌,
  if◌then◌else◌, get_or, is_some, All, arith, Option-cases, append-nil,
}
use spawnea.Prelude.Units.{Text, text_eq_iff}
use spawnea.Prelude.TextMaps.{lookup, insert, lookup-insert}
use spawnea.Rules.{
  CompiledStateRule, RuleMatch, RuleLists, join_lines, match_patterns, match_rules,
  match_state_rules, merge_factory, merge_user, merge_state_rules, representative_line,
}

-- `a ?? b`
abbrev pub first_of {ℓ} : {A : Type ℓ} → Option A → Option A → Option A
first_of none b = b
first_of (some a) b = some a

module _ {Pattern : Type 0} (exec : Pattern → Text → Option (ℕ × Text)) where
  match_rules-append :
      (xs ys : List (CompiledStateRule exec)) (lines : List Text) (text : Text)
      → match_rules exec (xs ++ ys) lines text
        ≡ first_of (match_rules exec xs lines text) (match_rules exec ys lines text)
  unfolding match_rules
  match_rules-append [] ys lines text = refl
  match_rules-append (rule ∷ xs) ys lines text =
      elim (Option-cases (match_patterns exec rule.patterns text)) [
        | inl e ↦ rw (e, match_rules) (match_rules-append xs ys lines text)
        | inr (found, e) ↦ rw (e, match_rules) refl
      ]

  match_state_rules-append :
      (xs ys : List (CompiledStateRule exec)) (lines : List Text)
      → match_state_rules exec (xs ++ ys) lines
        ≡ first_of (match_state_rules exec xs lines) (match_state_rules exec ys lines)
  unfolding match_state_rules
  match_state_rules-append xs ys [] = refl
  match_state_rules-append xs ys (line ∷ lines) =
      match_rules-append xs ys (line ∷ lines) (join_lines (line ∷ lines))

  lookup-merge_factory :
      (k : Text) (factory user : RuleLists exec)
      → lookup k (merge_factory exec factory user) ≡ (elim (lookup k factory) [
        | none ↦ none
        | some rules ↦ some (get_or (lookup k user) [] ++ rules)
      ])
  unfolding merge_factory lookup
  lookup-merge_factory k [] user = refl
  lookup-merge_factory k ((harness, rules) ∷ factory) user =
      ground (arith, text_eq_iff harness k, lookup-merge_factory k factory user)

  lookup-merge_user :
      (k : Text) (merged user : RuleLists exec)
      → lookup k (merge_user exec merged user) ≡ first_of (lookup k merged) (lookup k user)
  unfolding merge_user lookup
  lookup-merge_user k merged [] = ground arith
  lookup-merge_user k merged ((harness, rules) ∷ user) = ground (
    arith,
    text_eq_iff harness k,
    lookup-insert harness k rules merged,
    lookup-merge_user k
        (if is_some (lookup harness merged) then merged else insert harness rules merged) user,
  )

  lookup-merge_state_rules :
      (k : Text) (factory user : RuleLists exec)
      → get_or (lookup k (merge_state_rules exec factory user)) []
        ≡ get_or (lookup k user) [] ++ get_or (lookup k factory) []
  unfolding merge_state_rules
  lookup-merge_state_rules k factory user = ground (
    arith,
    lookup-merge_user k (merge_factory exec factory user) user,
    lookup-merge_factory k factory user,
    append-nil (get_or (lookup k user) []),
  )

  -- For every harness and window, the combined rules give the match of the user's rules when one
  -- of these matches, and the match of the factory's rules otherwise.
  pub match_state_rules-merge_state_rules :
      (harness : Text) (factory user : RuleLists exec) (lines : List Text)
      → match_state_rules exec
          (get_or (lookup harness (merge_state_rules exec factory user)) [])
          lines
        ≡ first_of
            (match_state_rules exec (get_or (lookup harness user) []) lines)
            (match_state_rules exec (get_or (lookup harness factory) []) lines)
  match_state_rules-merge_state_rules harness factory user lines =
      ap (λ rules. match_state_rules exec rules lines)
        (lookup-merge_state_rules harness factory user)
      ∙ match_state_rules-append (get_or (lookup harness user) [])
          (get_or (lookup harness factory) []) lines

  -- None of the patterns is found in the text.
  abbrev pub IsSilent : Text → List Pattern → Type 0
  IsSilent text patterns = All (λ pattern. exec pattern text ≡ none) patterns

  -- The place of a match: the rules before its rule and the patterns before its pattern are silent.
  pub record IsFirst (rules : List (CompiledStateRule exec)) (text : Text) (m : RuleMatch exec)
      : Type 0 where
    pub before : List (CompiledStateRule exec)
    pub after : List (CompiledStateRule exec)
    pub split : rules ≡ before ++ m.rule ∷ after
    pub silent_rules : All (λ (rule : CompiledStateRule exec). IsSilent text rule.patterns) before
    pub earlier : List Pattern
    pub later : List Pattern
    pub split_patterns : m.rule.patterns ≡ earlier ++ m.pattern ∷ later
    pub silent_patterns : IsSilent text earlier
    pub found : exec m.pattern text ≢ none

  match_patterns-none :
      (patterns : List Pattern) (text : Text)
      → match_patterns exec patterns text ≡ none
      → IsSilent text patterns
  unfolding match_patterns
  match_patterns-none [] text e = tt
  match_patterns-none (pattern ∷ patterns) text e = elim (Option-cases (exec pattern text)) [
    | inl silent ↦ (silent, match_patterns-none patterns text (rw (silent, match_patterns) at e))
    | inr (found, hit) ↦ absurd (ground (arith, hit))
  ]

  match_patterns-some :
      (patterns : List Pattern) (text : Text) (pattern : Pattern) (index : ℕ)
      → match_patterns exec patterns text ≡ some (pattern, index)
      → (earlier later : List Pattern) × (patterns ≡ earlier ++ pattern ∷ later)
        × IsSilent text earlier
        × (exec pattern text ≢ none)
  unfolding match_patterns
  match_patterns-some [] text pattern index e = cc
  match_patterns-some (p ∷ patterns) text pattern index e = elim (Option-cases (exec p text)) [
    | inl silent ↦
        let (earlier, later, split, quiet, found) =
          match_patterns-some patterns text pattern index (rw (silent, match_patterns) at e) in
        (p ∷ earlier, later, ap (λ ps. p ∷ ps) split, (silent, quiet), found)
    | inr ((i, word), hit) ↦
        let same : ◌≡◌ {A = Option (Pattern × ℕ)} (some (p, i)) (some (pattern, index)) =
          rw (hit, match_patterns) at e in
        let here : p ≡ pattern = cc in
        (
          [],
          patterns,
          ap (λ q. q ∷ patterns) here,
          tt,
          subst (λ q. exec q text ≢ none) here (λ none_found. ground (arith, hit)),
        )
  ]

  match_rules-IsFirst :
      (rules : List (CompiledStateRule exec)) (lines : List Text) (text : Text) (m : RuleMatch exec)
      → match_rules exec rules lines text ≡ some m
      → IsFirst rules text m
  unfolding match_rules
  match_rules-IsFirst [] lines text m e = cc
  match_rules-IsFirst (rule ∷ rules) lines text m e =
      elim (Option-cases (match_patterns exec rule.patterns text)) [
        | inl silent ↦
            let rest = match_rules-IsFirst rules lines text m (rw (silent, match_rules) at e) in
            record {
              before = rule ∷ rest.before;
              after = rest.after;
              split = ap (λ rs. rule ∷ rs) rest.split;
              silent_rules = (match_patterns-none rule.patterns text silent, rest.silent_rules);
              earlier = rest.earlier;
              later = rest.later;
              split_patterns = rest.split_patterns;
              silent_patterns = rest.silent_patterns;
              found = rest.found;
            }
        | inr ((pattern, index), hit) ↦
            let (earlier, later, split, silent, found) =
              match_patterns-some rule.patterns text pattern index hit in
            let first : RuleMatch exec = record {
              rule = rule;
              pattern = pattern;
              line = representative_line exec pattern lines text index;
            } in
            let whole : some first ≡ some m = rw (hit, match_rules) at e in
            let here : first ≡ m = cc in
            subst (IsFirst (rule ∷ rules) text) here (record {
              before = [];
              after = rules;
              split = refl;
              silent_rules = tt;
              earlier = earlier;
              later = later;
              split_patterns = split;
              silent_patterns = silent;
              found = found;
            })
      ]

  -- A match is of the first rule with a pattern that is found in the window, and of the first
  -- such pattern of that rule.
  pub match_state_rules-IsFirst :
      (rules : List (CompiledStateRule exec)) (lines : List Text) (m : RuleMatch exec)
      → match_state_rules exec rules lines ≡ some m
      → IsFirst rules (join_lines lines) m
  unfolding match_state_rules
  match_state_rules-IsFirst rules [] m e = cc
  match_state_rules-IsFirst rules (line ∷ lines) m e =
      match_rules-IsFirst rules (line ∷ lines) (join_lines (line ∷ lines)) m e
