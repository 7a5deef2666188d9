-- ===== src/Patterns/Starts.antt =====
-- Patterns that are bound to the start of a text.
use spawnea.Prelude.{
  ℕ, zero, suc, ◌≡◌, refl, ap, ◌∙◌, inl, inr, Bool, true, false, Option, none, some, List, [], ◌∷◌,
  ◌++◌, append-nil, Bool-cases, length,
}
use spawnea.Prelude.Units.{Text, is_white, trim_start}
use spawnea.Patterns.{
  Place, Pattern, from_each, one, seq, rounds, many, many1, white, at_start, found, found_from,
}

abbrev pub place_of : Option ℕ → Text → Place
place_of before s = record { before = before; rest = s }

-- Is the first unit in a class?
abbrev pub begins : (ℕ → Bool) → Text → Bool
begins p [] = false
begins p (c ∷ s) = p c

found_from-at_start :
    (patterns : List Pattern) (before : ℕ) (s : Text)
    → found_from (seq (at_start ∷ patterns)) (some before) s ≡ false
unfolding found_from seq at_start from_each
found_from-at_start patterns before [] = refl
found_from-at_start patterns before (c ∷ s) = found_from-at_start patterns c s

found_from-end :
    (pattern : Pattern) (before : Option ℕ)
    → pattern (place_of before []) ≡ []
    → found_from pattern before [] ≡ false
unfolding found_from
found_from-end pattern before e = rw (e, found_from) refl

found_from-next :
    (pattern : Pattern) (before : Option ℕ) (c : ℕ) (s : Text)
    → pattern (place_of before (c ∷ s)) ≡ []
    → found_from pattern before (c ∷ s) ≡ found_from pattern (some c) s
unfolding found_from
found_from-next pattern before c s e = rw (e, found_from) refl

-- What does not match at the start is not found.
pub found-at_start :
    (patterns : List Pattern) (s : Text)
    → seq patterns (place_of none s) ≡ []
    → found (seq (at_start ∷ patterns)) s ≡ false
unfolding found seq at_start from_each
found-at_start patterns [] e = found_from-end (seq (at_start ∷ patterns)) none (ap (λ l. l ++ []) e)
found-at_start patterns (c ∷ s) e =
    found_from-next (seq (at_start ∷ patterns)) none c s (ap (λ l. l ++ []) e)
    ∙ found_from-at_start patterns c s

-- A pattern that reads a unit of a class first.
abbrev pub NeedsFirst : (ℕ → Bool) → Pattern → Type 0
NeedsFirst p pattern =
    (before : Option ℕ) (s : Text) → begins p s ≡ false → pattern (place_of before s) ≡ []

one-NeedsFirst : (p : ℕ → Bool) → NeedsFirst p (one p)
unfolding one
one-NeedsFirst p before [] e = refl
one-NeedsFirst p before (c ∷ s) e = rw e refl

pub seq-NeedsFirst :
    (p : ℕ → Bool) (pattern : Pattern) (patterns : List Pattern)
    → NeedsFirst p pattern
    → NeedsFirst p (seq (pattern ∷ patterns))
unfolding seq from_each
seq-NeedsFirst p pattern patterns h before s e = rw (h before s e) refl

pub many1-NeedsFirst : (p : ℕ → Bool) → NeedsFirst p (many1 (one p))
unfolding many1
many1-NeedsFirst p = seq-NeedsFirst p (one p) (many (one p) ∷ []) (one-NeedsFirst p)

from_each-return : (places : List Place) → from_each (seq []) places ≡ places
unfolding from_each seq
from_each-return [] = refl
from_each-return (place ∷ places) = ap (λ l. place ∷ l) (from_each-return places)

module _ (p : ℕ → Bool) (apart : (c : ℕ) → is_white c ≡ true → p c ≡ false) where
  begins-trim_start : (s : Text) → begins p (trim_start s) ≡ false → begins p s ≡ false
  unfolding trim_start
  begins-trim_start [] e = refl
  begins-trim_start (c ∷ s) e = elim (Bool-cases (is_white c)) [
    | inl blank ↦ apart c blank
    | inr dark ↦ rw dark at e
  ]

  module _ (pattern : Pattern) (h : NeedsFirst p pattern) where
    rounds-fail :
        (n : ℕ) (before : Option ℕ) (s : Text)
        → begins p (trim_start s) ≡ false
        → from_each pattern (rounds white n (place_of before s)) ≡ []
    unfolding rounds from_each white one trim_start
    rounds-fail zero before s e = rw (h before s (begins-trim_start s e)) refl
    rounds-fail (suc n) before [] e = rw (h before [] refl) refl
    rounds-fail (suc n) before (c ∷ s) e = elim (Bool-cases (is_white c)) [
      | inl blank ↦
          let later : begins p (trim_start s) ≡ false = rw blank at e in
          rw (h before (c ∷ s) (begins-trim_start (c ∷ s) e), blank, append-nil)
            (rounds-fail n (some c) s later)
      | inr dark ↦ rw (h before (c ∷ s) (begins-trim_start (c ∷ s) e), dark) refl
    ]

    -- The pattern does not match behind white space, when what follows that begins with no unit of
    -- its class.
    pub many-fail :
        (before : Option ℕ) (s : Text)
        → begins p (trim_start s) ≡ false
        → from_each pattern (many white (place_of before s)) ≡ []
    unfolding many
    many-fail before s e = rounds-fail (length s) before s e

    pub many1-fail :
        (before : Option ℕ) (s : Text)
        → begins p (trim_start s) ≡ false
        → from_each pattern (many1 white (place_of before s)) ≡ []
    unfolding many1 seq from_each white one trim_start
    many1-fail before [] e = refl
    many1-fail before (c ∷ s) e = elim (Bool-cases (is_white c)) [
      | inl blank ↦
          let later : begins p (trim_start s) ≡ false = rw blank at e in
          rw (blank, append-nil, from_each-return) (many-fail (some c) s later)
      | inr dark ↦ rw dark refl
    ]
