-- ===== src/Patterns/Rounds.antt =====
-- The rounds of a repetition are as many as can be made.
use spawnea.Prelude.{ℕ, zero, suc, ◌≡◌, ◌≤◌, ◌<◌, refl, ap, List, [], ◌∷◌, All, length, arith}
use spawnea.Patterns.{Place, Pattern, from_each, rounds}

-- A pattern that reads something.
pub IsReading : Pattern → Type 0
IsReading pattern =
    (place : Place) → All (λ (end_ : Place). length end_.rest < length place.rest) (pattern place)

-- What the places after one that have less to read share.
module _ (place : Place) where
  abbrev IsShorter : List Place → Type 0
  IsShorter places = All (λ (end_ : Place). length end_.rest < length place.rest) places

  shorter-none : (places : List Place) → IsShorter places → length place.rest ≤ 0 → places ≡ []
  shorter-none [] q k = refl
  shorter-none (next ∷ places) (q, qs) k = absurd (omega (arith, q, k))

  from_each-shorter :
      (f g : Pattern) (places : List Place)
      → ((next : Place) → length next.rest < length place.rest → f next ≡ g next)
      → IsShorter places
      → from_each f places ≡ from_each g places
  unfolding from_each
  from_each-shorter f g [] same q = refl
  from_each-shorter f g (next ∷ places) same (q, qs) =
      rw (same next q, from_each-shorter f g places same qs) refl

module _ (pattern : Pattern) (h : IsReading pattern) where
  -- Any two numbers of rounds that are no less than the length of the text end at the same places.
  pub rounds-enough :
      (n m : ℕ) (place : Place)
      → length place.rest ≤ n
      → length place.rest ≤ m
      → rounds pattern n place ≡ rounds pattern m place
  unfolding rounds IsReading from_each
  rounds-enough zero zero place k l = refl
  rounds-enough zero (suc m) place k l = rw (shorter-none place (pattern place) (h place) k) refl
  rounds-enough (suc n) zero place k l = rw (shorter-none place (pattern place) (h place) l) refl
  rounds-enough (suc n) (suc m) place k l =
      ap (λ places. place ∷ places)
        (from_each-shorter place (rounds pattern n) (rounds pattern m) (pattern place)
          (λ next q. rounds-enough n m next (omega (arith, q, k)) (omega (arith, q, l))) (h place))
