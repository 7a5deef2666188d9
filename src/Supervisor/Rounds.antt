-- ===== src/Supervisor/Rounds.antt =====
-- The order in which successive rounds check the sessions.
use native.Mathlib.Nat.{mod-lt, mod-eq_of_lt, mod_self, mod-mod}
use spawnea.Prelude.{
  ℕ, zero, suc, ◌+◌, ◌%◌, ◌<◌, ◌≡◌, refl, sym, ap, ◌∙◌, inl, inr, ltb, List, [], ◌∷◌, ◌++◌, String,
  length, take, drop, arith, append_assoc, append-nil, Bool-cases,
}
use spawnea.Supervisor.{Supervisor, order_sessions}

-- The first one is put last.
abbrev pub rotate : List String → List String
rotate [] = []
rotate (x ∷ xs) = xs ++ x ∷ []

abbrev pub rotations : ℕ → List String → List String
rotations zero xs = xs
rotations (suc n) xs = rotations n (rotate xs)

-- After so many rounds over the same sessions.
abbrev pub after_rounds : ℕ → List String → Supervisor → Supervisor
after_rounds zero sessions s = s
after_rounds (suc n) sessions s = after_rounds n sessions (order_sessions sessions s).0

-- The sessions from a place on, and then those before it.
abbrev from_place : ℕ → List String → List String
from_place n xs = drop n xs ++ take n xs

rotate-from_place :
    (n : ℕ) (xs : List String) (before : List String)
    → n < length xs
    → rotate (drop n xs ++ (before ++ take n xs)) ≡ drop (suc n) xs ++ (before ++ take (suc n) xs)
rotate-from_place n [] before l = absurd (omega arith)
rotate-from_place zero (x ∷ xs) before l =
    ap (λ b. (xs ++ b) ++ x ∷ []) (append-nil before) ∙ append_assoc xs before (x ∷ [])
rotate-from_place (suc n) (x ∷ xs) before l =
    ap (λ b. rotate (drop n xs ++ b)) (sym (append_assoc before (x ∷ []) (take n xs)))
    ∙ rotate-from_place n xs (before ++ x ∷ []) (omega arith)
    ∙ ap (λ b. drop (suc n) xs ++ b) (append_assoc before (x ∷ []) (take (suc n) xs))

take-length : (xs : List String) → take (length xs) xs ≡ xs
take-length [] = refl
take-length (x ∷ xs) = ap (λ l. x ∷ l) (take-length xs)

drop-length : (xs : List String) → drop (length xs) xs ≡ []
drop-length [] = refl
drop-length (x ∷ xs) = drop-length xs

-- The cursor of the next round is one further, and 0 behind the last session.
next_place :
    (c : ℕ) (xs : List String)
    → c < length xs
    → from_place (suc c % length xs % length xs) xs ≡ from_place (suc c) xs
next_place c xs l = ap (λ n. from_place n xs) (mod-mod (suc c) (length xs)) ∙ wrapped
  where
    wrapped : from_place (suc c % length xs) xs ≡ from_place (suc c) xs
    wrapped = elim (Bool-cases (ltb (suc c) (length xs))) [
      | inl within ↦ ap (λ n. from_place n xs) (mod-eq_of_lt (ground (arith, within)))
      | inr last ↦
          let end : suc c ≡ length xs = ground (arith, last) in
          ap (λ n. from_place n xs) (ap (λ n. n % length xs) end ∙ mod_self (length xs))
          ∙ append-nil xs
          ∙ sym (take-length xs)
          ∙ ap (λ l. l ++ take (length xs) xs) (sym (drop-length xs))
          ∙ ap (λ n. from_place n xs) (sym end)
    ]

order_sessions-rotate :
    (sessions : List String) (s : Supervisor)
    → (order_sessions sessions (order_sessions sessions s).0).1
      ≡ rotate (order_sessions sessions s).1
unfolding order_sessions
order_sessions-rotate [] s = refl
order_sessions-rotate (x ∷ xs) s =
    let all : List String = x ∷ xs in
    let start : ℕ = s.polling_cursor % length all in
    let within : start < length all = mod-lt s.polling_cursor (omega arith) in
    let one_more : start + 1 ≡ suc start = omega arith in
    ap (λ n. from_place (n % length all % length all) all) one_more
    ∙ next_place start all within
    ∙ sym (rotate-from_place start all [] within)

-- As long as the database lists the same sessions, and wherever the cursor stands: the order of a
-- round is that of an earlier one with its first session put last, once for each round since then.
pub order_sessions-rotations :
    (n : ℕ) (sessions : List String) (s : Supervisor)
    → (order_sessions sessions (after_rounds n sessions s)).1
      ≡ rotations n (order_sessions sessions s).1
order_sessions-rotations zero sessions s = refl
order_sessions-rotations (suc n) sessions s =
    order_sessions-rotations n sessions (order_sessions sessions s).0
    ∙ ap (rotations n) (order_sessions-rotate sessions s)
