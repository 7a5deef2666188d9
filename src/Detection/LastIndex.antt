-- ===== src/Detection/LastIndex.antt =====
-- What the last index of a line that passes a test says.
use spawnea.Prelude.{
  ℕ, zero, suc, ◌≡◌, ◌≢◌, ◌⊎◌, refl, ap, subst, inl, inr, Bool, true, false, none, some, List, [],
  ◌∷◌, ◌++◌, drop, All, arith, Option-cases,
}
use spawnea.Prelude.Units.{Text}
use spawnea.Detection.{last_index}

pub last_index-none :
    (p : Text → Bool) (lines : List Text)
    → last_index p lines ≡ none
    → All (λ line. p line ≡ false) lines
unfolding last_index
last_index-none p [] e = tt
last_index-none p (line ∷ lines) e = elim (Option-cases (last_index p lines)) [
  | inl absent ↦ (ground (arith, absent), last_index-none p lines absent)
  | inr (i, found) ↦ absurd (ground (arith, found))
]

-- The line at the last index, and what stands before and after it.
pub record IsLast (p : Text → Bool) (lines : List Text) (i : ℕ) : Type 0 where
  pub before : List Text
  pub line : Text
  pub hit : p line ≡ true
  pub there : drop i lines ≡ line ∷ drop (suc i) lines
  pub split : lines ≡ before ++ line ∷ drop (suc i) lines
  pub quiet : All (λ later. p later ≡ false) (drop (suc i) lines)

pub last_index-some :
    (p : Text → Bool) (lines : List Text) (i : ℕ) → last_index p lines ≡ some i → IsLast p lines i
unfolding last_index
last_index-some p [] i e = cc
last_index-some p (x ∷ lines) i e = elim (Option-cases (last_index p lines)) [
  | inr (j, found) ↦
      let rest = last_index-some p lines j found in
      let same : suc j ≡ i = ground (arith, found) in
      subst (IsLast p (x ∷ lines)) same (record {
        before = x ∷ rest.before;
        line = rest.line;
        hit = rest.hit;
        there = rest.there;
        split = ap (λ ls. x ∷ ls) rest.split;
        quiet = rest.quiet;
      })
  | inl absent ↦
      let same : zero ≡ i = ground (arith, absent) in
      subst (IsLast p (x ∷ lines)) same (record {
        before = [];
        line = x;
        hit = ground (arith, absent);
        there = refl;
        split = refl;
        quiet = last_index-none p lines absent;
      })
]

pub All-drop_one : (P : Text → Type 0) (lines : List Text) → All P lines → All P (drop 1 lines)
All-drop_one P [] h = tt
All-drop_one P (line ∷ lines) (p, h) = h

-- A list is empty or not.
pub empty_or_not : (lines : List Text) → (lines ≡ []) ⊎ (lines ≢ [])
empty_or_not [] = inl refl
empty_or_not (line ∷ lines) = inr (λ e. cc)
