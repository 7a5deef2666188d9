-- ===== src/Gateway/Auth/Line.antt =====
-- The first line of the bytes that were received.
use spawnea.Prelude.{
  ℕ, ◌≡◌, refl, sym, ap, ◌∙◌, subst, inl, inr, Bool, false, ◌||◌, none, some, List, [], ◌∷◌, ◌++◌,
  append_assoc, append-nil, ◌==◌, arith, Bool-cases, Option-cases,
}
use spawnea.Gateway.Auth.{first_line, AuthEvent, chunk_read}

-- The bytes of an event, and of the events.
abbrev pub bytes_of : AuthEvent → List ℕ
bytes_of (chunk_read chunk now) = chunk
bytes_of _ = []

abbrev pub received : List AuthEvent → List ℕ
received [] = []
received (event ∷ events) = bytes_of event ++ received events

abbrev pub has_newline : List ℕ → Bool
has_newline [] = false
has_newline (byte ∷ bytes) = byte == 0x0a || has_newline bytes

received-append : (xs ys : List AuthEvent) → received (xs ++ ys) ≡ received xs ++ received ys
received-append [] ys = refl
received-append (event ∷ xs) ys =
    ap (λ bytes. bytes_of event ++ bytes) (received-append xs ys)
    ∙ sym (append_assoc (bytes_of event) (received xs) (received ys))

-- An event more.
pub received-last :
    (events : List AuthEvent) (event : AuthEvent)
    → received (events ++ event ∷ []) ≡ received events ++ bytes_of event
received-last events event =
    received-append events (event ∷ [])
    ∙ ap (λ bytes. received events ++ bytes) (append-nil (bytes_of event))

-- The bytes are cut at their first newline.
abbrev pub IsCut : List ℕ → List ℕ × List ℕ → Type 0
IsCut bytes (line, rest) = (has_newline line ≡ false) × (bytes ≡ line ++ 0x0a ∷ rest)

pub first_line-none : (bytes : List ℕ) → first_line bytes ≡ none → has_newline bytes ≡ false
unfolding first_line
first_line-none [] e = refl
first_line-none (byte ∷ bytes) e = elim (Bool-cases (byte == 0x0a)) [
  | inl ends ↦ absurd (ground (arith, ends, e))
  | inr goes_on ↦ elim (Option-cases (first_line bytes)) [
    | inl missing ↦ rw goes_on (first_line-none bytes missing)
    | inr ((before, after), there) ↦ absurd (ground (arith, goes_on, there, e))
  ]
]

pub first_line-some :
    (bytes line rest : List ℕ) → first_line bytes ≡ some (line, rest) → IsCut bytes (line, rest)
unfolding first_line
first_line-some [] line rest e = cc
first_line-some (byte ∷ bytes) line rest e = elim (Bool-cases (byte == 0x0a)) [
  | inl ends ↦
      let found : some ([], bytes) ≡ some (line, rest) = rw (ends, first_line) at e in
      let pair : ([], bytes) ≡ (line, rest) = cc in
      let unit : byte ≡ 0x0a = ground (arith, ends) in
      subst (IsCut (byte ∷ bytes)) pair (refl, ap (λ u. u ∷ bytes) unit)
  | inr goes_on ↦ elim (Option-cases (first_line bytes)) [
    | inl missing ↦ absurd (ground (arith, goes_on, missing, e))
    | inr ((before, after), there) ↦
        let found : some (byte ∷ before, after) ≡ some (line, rest) =
          rw (goes_on, there, first_line) at e in
        let pair : (byte ∷ before, after) ≡ (line, rest) = cc in
        let (first, cut) = first_line-some bytes before after there in
        subst (IsCut (byte ∷ bytes)) pair (rw goes_on first, ap (λ bs. byte ∷ bs) cut)
  ]
]
