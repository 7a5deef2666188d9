-- ===== src/Paths/Segments.antt =====
-- Splitting, joining and resolving the segments of a path.
use spawnea.Prelude.{
  ℕ, ◌≡◌, ◌≢◌, refl, sym, ◌∙◌, Bool, true, inl, inr, Bool-cases, List, [], ◌∷◌, ◌++◌, reverse,
  arith, ◌==◌, All, All-append, append_assoc, append-nil,
}
use mathlib.Core.Path.{ap₂}
use mathlib.Core.List.{reverse_aux, reverse-cons}
use spawnea.Prelude.Units.{text_eq_iff, Text}
use spawnea.Paths.{
  slash, backslash, dot, dots, add_unit, split_slash, join_slash, add_segment, add_segments,
  segments_of, portable,
}

abbrev pub HasNo : ℕ → Text → Type 0
HasNo unit = All (λ (c : ℕ). c ≢ unit)

-- A segment that names an entry of a directory and does not lead out of it.
pub record IsEntry (part : Text) : Type 0 where
  pub filled : part ≢ []
  pub not_dot : part ≢ dot
  pub not_dots : part ≢ dots
  pub no_slash : HasNo slash part
  pub no_backslash : HasNo backslash part

-- A segment that only is not empty and holds no slash, as `..` is.
abbrev pub IsSegment : Text → Type 0
IsSegment part = (part ≢ []) × HasNo slash part

add_unit-All :
    (u c : ℕ) (parts : List Text) → c ≢ u → All (HasNo u) parts → All (HasNo u) (add_unit c parts)
add_unit-All u c [] p h = ((p, tt), tt)
add_unit-All u c (part ∷ parts) p (q, h) = ((p, q), h)

split_slash-NoSlash : (s : Text) → All (HasNo slash) (split_slash s)
unfolding split_slash
split_slash-NoSlash [] = (tt, tt)
split_slash-NoSlash (c ∷ s) =
    ground (arith, split_slash-NoSlash s, add_unit-All slash c (split_slash s))

split_slash-HasNo : (u : ℕ) (s : Text) → HasNo u s → All (HasNo u) (split_slash s)
unfolding split_slash
split_slash-HasNo u [] h = (tt, tt)
split_slash-HasNo u (c ∷ s) (p, h) =
    ground (arith, split_slash-HasNo u s h, add_unit-All u c (split_slash s) p)

pub portable-HasNo : (s : Text) → HasNo backslash (portable s)
unfolding portable
portable-HasNo [] = tt
portable-HasNo (c ∷ s) = ground (arith, portable-HasNo s)

-- What every segment satisfies, also each one that stays on the stack.
module _ (P : Text → Type 0) where
  reverse_aux-All : (xs ys : List Text) → All P xs → All P ys → All P (reverse_aux xs ys)
  reverse_aux-All [] ys h k = k
  reverse_aux-All (x ∷ xs) ys (p, h) k = reverse_aux-All xs (x ∷ ys) h (p, k)

-- For an absolute path no `..` is ever kept.
add_segment-IsEntry :
    (segments : List Text) (part : Text)
    → All IsEntry segments
    → HasNo slash part
    → HasNo backslash part
    → All IsEntry (add_segment true segments part)
unfolding add_segment
add_segment-IsEntry [] part h p q =
    ground (arith, text_eq_iff part [], text_eq_iff part dot, text_eq_iff part dots)
add_segment-IsEntry (last ∷ rest) part h p q =
    ground (
      arith,
      text_eq_iff part [],
      text_eq_iff part dot,
      text_eq_iff part dots,
      text_eq_iff last dots,
    )

add_segments-IsEntry :
    (segments parts : List Text)
    → All IsEntry segments
    → All (HasNo slash) parts
    → All (HasNo backslash) parts
    → All IsEntry (add_segments true segments parts)
unfolding add_segments
add_segments-IsEntry segments [] h p q = h
add_segments-IsEntry segments (part ∷ parts) h (p, ps) (q, qs) =
    add_segments-IsEntry (add_segment true segments part) parts
      (add_segment-IsEntry segments part h p q) ps qs

add_segment-IsSegment :
    (absolute : Bool) (segments : List Text) (part : Text)
    → All IsSegment segments
    → HasNo slash part
    → All IsSegment (add_segment absolute segments part)
unfolding add_segment
add_segment-IsSegment absolute [] part h p =
    ground (arith, text_eq_iff part [], text_eq_iff part dot, text_eq_iff part dots)
add_segment-IsSegment absolute (last ∷ rest) part h p =
    ground (
      arith,
      text_eq_iff part [],
      text_eq_iff part dot,
      text_eq_iff part dots,
      text_eq_iff last dots,
    )

add_segments-IsSegment :
    (absolute : Bool) (segments parts : List Text)
    → All IsSegment segments
    → All (HasNo slash) parts
    → All IsSegment (add_segments absolute segments parts)
unfolding add_segments
add_segments-IsSegment absolute segments [] h p = h
add_segments-IsSegment absolute segments (part ∷ parts) h (p, ps) =
    add_segments-IsSegment absolute (add_segment absolute segments part) parts
      (add_segment-IsSegment absolute segments part h p) ps

pub segments_of-IsEntry : (s : Text) → All IsEntry (segments_of true (portable s))
unfolding segments_of
segments_of-IsEntry s =
    reverse_aux-All IsEntry (add_segments true [] (split_slash (portable s))) []
      (add_segments-IsEntry [] (split_slash (portable s)) tt (split_slash-NoSlash (portable s))
        (split_slash-HasNo backslash (portable s) (portable-HasNo s)))
      tt

pub segments_of-IsSegment : (absolute : Bool) (s : Text) → All IsSegment (segments_of absolute s)
unfolding segments_of
segments_of-IsSegment absolute s =
    reverse_aux-All IsSegment (add_segments absolute [] (split_slash s)) []
      (add_segments-IsSegment absolute [] (split_slash s) tt (split_slash-NoSlash s)) tt

-- What holds of `..` and of the parts holds of the segments.
module _ (P : Text → Type 0) (up : P dots) where
  add_segment-All :
      (absolute : Bool) (segments : List Text) (part : Text)
      → All P segments
      → P part
      → All P (add_segment absolute segments part)
  unfolding add_segment
  add_segment-All absolute [] part h p = ground arith
  add_segment-All absolute (last ∷ rest) part h p = ground arith

  add_segments-All :
      (absolute : Bool) (segments parts : List Text)
      → All P segments
      → All P parts
      → All P (add_segments absolute segments parts)
  unfolding add_segments
  add_segments-All absolute segments [] h p = h
  add_segments-All absolute segments (part ∷ parts) h (p, ps) =
      add_segments-All absolute (add_segment absolute segments part) parts
        (add_segment-All absolute segments part h p) ps

pub segments_of-HasNo :
    (u : ℕ) (absolute : Bool) (s : Text)
    → u ≢ b'.'
    → HasNo u s
    → All (HasNo u) (segments_of absolute s)
unfolding segments_of
segments_of-HasNo u absolute s other h =
    let up : HasNo u dots = ((λ e. other (sym e)), ((λ e. other (sym e)), tt)) in
    reverse_aux-All (HasNo u) (add_segments absolute [] (split_slash s)) []
      (add_segments-All (HasNo u) up absolute [] (split_slash s) tt (split_slash-HasNo u s h)) tt

pub join_slash-HasNo :
    (u : ℕ) (parts : List Text) → u ≢ slash → All (HasNo u) parts → HasNo u (join_slash parts)
unfolding join_slash
join_slash-HasNo u [] other h = tt
join_slash-HasNo u (part ∷ []) other (p, h) = p
join_slash-HasNo u (part ∷ next ∷ parts) other (p, h) =
    All-append (λ (c : ℕ). c ≢ u) part (slash ∷ join_slash (next ∷ parts)) p
      ((λ e. other (sym e)), join_slash-HasNo u (next ∷ parts) other h)

pub All-IsSegment : (parts : List Text) → All IsEntry parts → All IsSegment parts
All-IsSegment [] h = tt
All-IsSegment (part ∷ parts) (p, h) = ((p.filled, p.no_slash), All-IsSegment parts h)

pub entries-HasNo : (parts : List Text) → All IsEntry parts → All (HasNo backslash) parts
entries-HasNo [] h = tt
entries-HasNo (part ∷ parts) (p, h) = (p.no_backslash, entries-HasNo parts h)

-- Splitting what was joined, and what stands around a slash.
split_slash-filled :
    (s : Text) → (part : Text) × (parts : List Text) × (split_slash s ≡ part ∷ parts)
unfolding split_slash
split_slash-filled [] = ([], [], refl)
split_slash-filled (c ∷ s) =
    let (part, parts, e) = split_slash-filled s in
    elim (Bool-cases (c == slash)) [
      | inl here ↦ rw here ([], split_slash s, refl)
      | inr other ↦ rw (other, e) (c ∷ part, parts, refl)
    ]

add_unit-append :
    (c : ℕ) (s : Text) (ps : List Text)
    → add_unit c (split_slash s ++ ps) ≡ add_unit c (split_slash s) ++ ps
add_unit-append c s ps = let (part, parts, e) = split_slash-filled s in rw e

pub split_slash-append :
    (s t : Text) → split_slash (s ++ slash ∷ t) ≡ split_slash s ++ split_slash t
unfolding split_slash
split_slash-append [] t = refl
split_slash-append (c ∷ s) t =
    ground (arith, split_slash-append s t, add_unit-append c s (split_slash t))

split_slash_of_HasNo : (s : Text) → HasNo slash s → split_slash s ≡ s ∷ []
unfolding split_slash
split_slash_of_HasNo [] h = refl
split_slash_of_HasNo (c ∷ s) (p, h) = ground (arith, split_slash_of_HasNo s h)

pub split_slash-join_slash :
    (part : Text) (parts : List Text)
    → All IsSegment (part ∷ parts)
    → split_slash (join_slash (part ∷ parts)) ≡ part ∷ parts
unfolding join_slash
split_slash-join_slash part [] (p, h) = split_slash_of_HasNo part p.1
split_slash-join_slash part (next ∷ parts) (p, h) =
    split_slash-append part (join_slash (next ∷ parts))
    ∙ ap₂ (λ xs ys. xs ++ ys) (split_slash_of_HasNo part p.1) (split_slash-join_slash next parts h)

-- Segments that are entries are kept as they are.
add_segment_of_IsEntry :
    (absolute : Bool) (segments : List Text) (part : Text)
    → IsEntry part
    → add_segment absolute segments part ≡ part ∷ segments
unfolding add_segment
add_segment_of_IsEntry absolute segments part v =
    ground (arith, text_eq_iff part [], text_eq_iff part dot, text_eq_iff part dots)

pub add_segments_of_IsEntry :
    (absolute : Bool) (segments parts : List Text)
    → All IsEntry parts
    → reverse (add_segments absolute segments parts) ≡ reverse segments ++ parts
unfolding add_segments
add_segments_of_IsEntry absolute segments [] h = sym (append-nil _)
add_segments_of_IsEntry absolute segments (part ∷ parts) (p, h) =
    rw (add_segment_of_IsEntry absolute segments part p) (
      add_segments_of_IsEntry absolute (part ∷ segments) parts h
      ∙ simp (reverse-cons, append_assoc))
