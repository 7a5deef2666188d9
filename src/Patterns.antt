-- ===== src/Patterns.antt =====
-- The regular expressions that packages/state/src/adapters tests lines with, as the language reads
-- them: a pattern takes a place of a text to the places where its matches end. What ignores case
-- folds the letters of ASCII, as the flag `i` does on patterns that have no other letters.
pub mod Rounds
pub mod Starts
use spawnea.Prelude.{
  ℕ, zero, suc, ◌+◌, ◌≡◌, refl, Bool, true, false, ◌&&◌, ◌||◌, not, Option, none, some, List, [],
  ◌∷◌, ◌++◌, leb, ◌==◌, if◌then◌else◌, length,
}
use spawnea.Prelude.Units.{Text, units, is_white}

-- What stands before a place, and the text from it on.
pub record Place : Type 0 where
  pub before : Option ℕ
  pub rest : Text

abbrev pub Pattern : Type 0
Pattern = Place → List Place

-- What a pattern does from each of the places.
unfoldable pub from_each : Pattern → List Place → List Place
from_each pattern [] = []
from_each pattern (place ∷ places) = pattern place ++ from_each pattern places

-- One unit of a class.
unfoldable pub one : (ℕ → Bool) → Pattern
one is_in place = elim place.rest [
  | [] ↦ []
  | c ∷ s ↦ if is_in c then record { before = some c; rest = s } ∷ [] else []
]

unfoldable pub seq : List Pattern → Pattern
unfolding from_each
seq [] place = place ∷ []
seq (pattern ∷ patterns) place = from_each (seq patterns) (pattern place)

unfoldable pub alt : List Pattern → Pattern
alt [] place = []
alt (pattern ∷ patterns) place = pattern place ++ alt patterns place

pub rounds : Pattern → ℕ → Pattern
rounds pattern zero place = place ∷ []
rounds pattern (suc n) place = place ∷ from_each (rounds pattern n) (pattern place)

-- `*`; each round of the patterns here reads something, so the length of the text is enough rounds.
unfoldable pub many : Pattern → Pattern
unfolding rounds
many pattern place = rounds pattern (length place.rest) place

-- `+`
unfoldable pub many1 : Pattern → Pattern
unfolding seq many
many1 pattern = seq (pattern ∷ many pattern ∷ [])

-- `?`
unfoldable pub optional : Pattern → Pattern
optional pattern place = pattern place ++ place ∷ []

abbrev pub is_lower_letter : ℕ → Bool
is_lower_letter c = leb b'a' c && leb c b'z'

abbrev pub is_upper_letter : ℕ → Bool
is_upper_letter c = leb b'A' c && leb c b'Z'

unfoldable pub is_ascii_letter : ℕ → Bool
is_ascii_letter c = is_lower_letter c || is_upper_letter c

unfoldable pub is_decimal_digit : ℕ → Bool
is_decimal_digit c = leb b'0' c && leb c b'9'

-- `\w`
unfoldable pub is_word : ℕ → Bool
unfolding is_ascii_letter is_decimal_digit
is_word c = is_ascii_letter c || is_decimal_digit c || c == b'_'

unfoldable pub fold : ℕ → ℕ
fold c = if is_upper_letter c then c + 32 else c

-- A literal, with and without its case.
unfoldable pub literal : Text → Pattern
unfolding one
literal [] place = place ∷ []
literal (c ∷ s) place = from_each (literal s) (one (λ d. d == c) place)

unfoldable pub folded : Text → Pattern
unfolding one fold
folded [] place = place ∷ []
folded (c ∷ s) place = from_each (folded s) (one (λ d. fold d == fold c) place)

-- `[…]` of the units of a text, with and without its complement.
unfoldable pub is_of : Text → ℕ → Bool
is_of [] c = false
is_of (d ∷ s) c = c == d || is_of s c

unfoldable pub one_of : Text → Pattern
unfolding one is_of
one_of s = one (is_of s)

unfoldable pub white : Pattern
unfolding one
white = one is_white

unfoldable pub digits : Pattern
unfolding many1 one is_decimal_digit
digits = many1 (one is_decimal_digit)

-- `^`, `$` and `\b`
unfoldable pub at_start : Pattern
at_start place = elim place.before [ none ↦ place ∷ [] | some c ↦ [] ]

unfoldable pub at_end : Pattern
at_end place = elim place.rest [ [] ↦ place ∷ [] | c ∷ s ↦ [] ]

next_is_word : Text → Bool
unfolding is_word
next_is_word [] = false
next_is_word (c ∷ s) = is_word c

last_is_word : Option ℕ → Bool
unfolding is_word
last_is_word none = false
last_is_word (some c) = is_word c

unfoldable pub word_edge : Pattern
unfolding next_is_word last_is_word
word_edge place =
    let here = next_is_word place.rest in
    if (if last_is_word place.before then not here else here) then place ∷ [] else []

found_from : Pattern → Option ℕ → Text → Bool
found_from pattern before [] = elim (pattern (record { before = before; rest = [] })) [
  | [] ↦ false
  | place ∷ places ↦ true
]
found_from pattern before (c ∷ s) =
    let later = found_from pattern (some c) s in
    elim (pattern (record { before = before; rest = c ∷ s })) [ [] ↦ later | place ∷ places ↦ true ]

-- `pattern.test(text)`
unfoldable pub found : Pattern → Text → Bool
unfolding found_from
found pattern text = found_from pattern none text

found_examples :
    (found
        (seq (at_start ∷ many1 white ∷ folded (units "worked for") ∷ word_edge ∷ []))
        (units "  Worked FOR 3s")
      ≡ true)
    × (found
          (seq (
            digits
            ∷ optional (seq (literal (units ".") ∷ digits ∷ []))
            ∷ one_of (units "smh")
            ∷ at_end
            ∷ []))
          (units "took 3.5s")
        ≡ true)
    × (found (seq (word_edge ∷ folded (units "for") ∷ word_edge ∷ [])) (units "before form")
        ≡ false)
unfolding found seq many1 white folded word_edge literal digits optional one_of at_end at_start
    is_white
found_examples = (refl, refl, refl)
