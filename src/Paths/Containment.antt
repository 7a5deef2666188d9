-- ===== src/Paths/Containment.antt =====
-- What `resolveContainedPath` lets through, for a workspace whose root is an absolute path.
use spawnea.Prelude.{
  ◌≡◌, ◌≢◌, ◌⊎◌, refl, sym, ap, ◌∙◌, subst, inl, inr, true, ◌||◌, Bool-cases, Option-cases, some,
  List, [], ◌∷◌, ◌++◌, arith, All, length, length-append, append_assoc, append-nil,
}
use spawnea.Prelude.Units.{text_eq_iff, Text, starts_with, or_else}
use spawnea.Paths.{
  slash, split_slash, join_slash, is_drive_rooted, canonicalize_path, strip_slashes, canonical_root,
  contained_in, is_path_contained, requested_path, resolve_contained_path,
}
use spawnea.Paths.Segments.{
  HasNo, IsEntry, All-IsSegment, split_slash-append, split_slash-join_slash,
}
use spawnea.Paths.Canonical.{
  path_of, canonicalize_path-IsEntry, canonicalize_path-rooted, canonicalize_path_again,
  drive_of_slash,
}

starts_with-append : (p s : Text) → starts_with p s ≡ true → (t : Text) × (s ≡ p ++ t)
unfolding starts_with
starts_with-append [] s e = (s, refl)
starts_with-append (c ∷ p) [] e = cc
starts_with-append (c ∷ p) (d ∷ s) e =
    let (t, same) = starts_with-append p s (ground arith) in (t, ground arith)

-- An entry at the end keeps its slashes out of what is stripped.
strip_slashes_of_HasNo : (s : Text) → HasNo slash s → strip_slashes s ≡ s
unfolding strip_slashes
strip_slashes_of_HasNo [] h = refl
strip_slashes_of_HasNo (c ∷ s) (p, h) = ground (arith, strip_slashes_of_HasNo s h)

pub strip_slashes-append :
    (x y : Text) → strip_slashes y ≡ y → y ≢ [] → strip_slashes (x ++ y) ≡ x ++ y
unfolding strip_slashes
strip_slashes-append [] y e filled = e
strip_slashes-append (c ∷ x) y e filled =
    let ih = strip_slashes-append x y e filled in
    let more : x ++ y ≢ [] = append-filled x in ground (arith, text_eq_iff (x ++ y) [])
  where
    append-filled : (x : Text) → x ++ y ≢ []
    append-filled [] = filled
    append-filled (d ∷ x) = λ h. cc

pub join_slash-filled :
    (part : Text) (parts : List Text) → All IsEntry (part ∷ parts) → join_slash (part ∷ parts) ≢ []
unfolding join_slash
join_slash-filled part [] (p, h) = p.filled
join_slash-filled [] (next ∷ parts) (p, h) = λ e. p.filled refl
join_slash-filled (c ∷ part) (next ∷ parts) (p, h) = λ e. cc

pub strip_slashes-join_slash :
    (part : Text) (parts : List Text)
    → All IsEntry (part ∷ parts)
    → strip_slashes (join_slash (part ∷ parts)) ≡ join_slash (part ∷ parts)
unfolding join_slash
strip_slashes-join_slash part [] (p, h) = strip_slashes_of_HasNo part p.no_slash
strip_slashes-join_slash part (next ∷ parts) (p, h) =
    let below =
      strip_slashes-append (slash ∷ []) (join_slash (next ∷ parts))
        (strip_slashes-join_slash next parts h) (join_slash-filled next parts h) in
    strip_slashes-append part (slash ∷ join_slash (next ∷ parts)) below (λ e. cc)

-- The root is kept as it is: only a bare `/` ends with a slash.
pub canonical_root-path_of :
    (segments : List Text)
    → All IsEntry segments
    → or_else (strip_slashes (path_of segments)) (slash ∷ []) ≡ path_of segments
canonical_root-path_of [] h = unfold strip_slashes join_slash in refl
canonical_root-path_of (part ∷ parts) h = rw (
    strip_slashes-append (slash ∷ []) (join_slash (part ∷ parts))
      (strip_slashes-join_slash part parts h) (join_slash-filled part parts h))

tail-path_of :
    (segments : List Text) (t : Text) → path_of segments ≡ slash ∷ t → join_slash segments ≡ t
tail-path_of segments t e = cc

-- A path below another one goes on from its segments.
below_segments :
    (root segments : List Text)
    → All IsEntry root
    → All IsEntry segments
    → starts_with (path_of root ++ slash ∷ []) (path_of segments) ≡ true
    → (rest : List Text) × (segments ≡ root ++ rest)
unfolding join_slash
below_segments [] segments h k e = (segments, refl)
below_segments (a ∷ as') [] h k e =
    let (t, same) = starts_with-append (path_of (a ∷ as') ++ slash ∷ []) (path_of []) e in
    absurd (
      omega (
        arith,
        ap length same,
        length-append (join_slash (a ∷ as')) (slash ∷ []),
        length-append (join_slash (a ∷ as') ++ slash ∷ []) t,
      ))
below_segments (a ∷ as') (b ∷ bs) h k e =
    let (t, same) = starts_with-append (path_of (a ∷ as') ++ slash ∷ []) (path_of (b ∷ bs)) e in
    let joined : join_slash (b ∷ bs) ≡ join_slash (a ∷ as') ++ slash ∷ t =
      tail-path_of (b ∷ bs) _ same ∙ append_assoc (join_slash (a ∷ as')) (slash ∷ []) t in
    (
      split_slash t,
      sym (split_slash-join_slash b bs (All-IsSegment (b ∷ bs) k))
          ∙ ap split_slash joined
          ∙ split_slash-append (join_slash (a ∷ as')) t
          ∙ ap (λ xs. xs ++ split_slash t)
              (split_slash-join_slash a as' (All-IsSegment (a ∷ as') h)),
    )

module _ (to_lower_case : Text → Text) where
  -- What a canonical path below a canonical root is.
  pub record IsInside (root candidate : Text) : Type 0 where
    pub base : List Text
    pub rest : List Text
    pub is_root : root ≡ path_of base
    pub is_candidate : candidate ≡ path_of (base ++ rest)
    pub entries : All IsEntry (base ++ rest)

  contained_in-root :
      (candidate : Text)
      → contained_in to_lower_case (path_of []) candidate ≡ starts_with (slash ∷ []) candidate
  unfolding contained_in join_slash
  contained_in-root candidate = refl

  contained_in-path_of :
      (a : Text) (as' : List Text) (candidate : Text)
      → All IsEntry (a ∷ as')
      → contained_in to_lower_case (path_of (a ∷ as')) candidate ≡ true
      → (candidate ≡ path_of (a ∷ as'))
        ⊎ (starts_with (path_of (a ∷ as') ++ slash ∷ []) candidate ≡ true)
  unfolding contained_in
  contained_in-path_of a as' candidate h e = ground (
    arith,
    drive_of_slash (join_slash (a ∷ as')),
    text_eq_iff candidate (path_of (a ∷ as')),
    text_eq_iff (join_slash (a ∷ as')) [],
    join_slash-filled a as' h,
  )

  starts_with-slash :
      (p s : Text) → starts_with (slash ∷ p) s ≡ true → starts_with (slash ∷ []) s ≡ true
  unfolding starts_with
  starts_with-slash p [] e = cc
  starts_with-slash p (c ∷ s) e = ground arith

  contained-IsInside :
      (base : List Text) (s candidate : Text)
      → All IsEntry base
      → canonicalize_path s ≡ some candidate
      → contained_in to_lower_case (path_of base) candidate ≡ true
      → IsInside (path_of base) candidate
  contained-IsInside [] s candidate h e inside =
      let (segments, form, entries) =
        canonicalize_path-rooted s candidate e (rw (contained_in-root candidate) at inside) in
      record { base = []; rest = segments; is_root = refl; is_candidate = form; entries = entries }
  contained-IsInside (a ∷ as') s candidate h e inside =
      elim (contained_in-path_of a as' candidate h inside) [
        | inl same ↦ record {
          base = a ∷ as';
          rest = [];
          is_root = refl;
          is_candidate = rw (append-nil (a ∷ as')) same;
          entries = subst (All IsEntry) (sym (append-nil (a ∷ as'))) h;
        }
        | inr below ↦
            let (segments, form, entries) =
              canonicalize_path-rooted s candidate e
                (starts_with-slash (join_slash (a ∷ as') ++ slash ∷ []) candidate below) in
            let (rest, more) = below_segments (a ∷ as') segments h entries (rw form at below) in
            record {
              base = a ∷ as';
              rest = rest;
              is_root = refl;
              is_candidate = rw more at form;
              entries = rw more at entries;
            }
      ]

  pub canonical_root-form :
      (root r : Text)
      → canonical_root to_lower_case (slash ∷ root) ≡ some r
      → (base : List Text) × (r ≡ path_of base) × All IsEntry base
  unfolding canonical_root
  canonical_root-form root r e = elim (Option-cases (canonicalize_path (slash ∷ root))) [
    | inl missing ↦ absurd (ground (arith, missing))
    | inr (c, found) ↦
        let (base, form, entries) = canonicalize_path-IsEntry root c found in
        (base, ground (arith, found, form, canonical_root-path_of base entries), entries)
  ]

  is_path_contained-cases :
      (root candidate : Text)
      → is_path_contained to_lower_case root candidate ≡ true
      → (r c : Text) × (canonical_root to_lower_case root ≡ some r)
        × (canonicalize_path candidate ≡ some c)
        × (contained_in to_lower_case r c ≡ true)
  unfolding is_path_contained
  is_path_contained-cases root candidate e =
      elim (Option-cases (canonical_root to_lower_case root)) [
        | inl missing ↦ absurd (ground (arith, missing))
        | inr (r, found) ↦ elim (Option-cases (canonicalize_path candidate)) [
          | inl missing ↦ absurd (ground (arith, missing, found))
          | inr (c, is_c) ↦ (r, c, found, is_c, ground (arith, found, is_c))
        ]
      ]

  requested_path-canonical :
      (root requested candidate : Text)
      → requested_path to_lower_case root requested ≡ some candidate
      → (q : Text) × (canonicalize_path q ≡ some candidate)
  unfolding requested_path
  requested_path-canonical root requested candidate e =
      elim (Bool-cases (starts_with (slash ∷ []) requested || is_drive_rooted requested)) [
        | inl own ↦ (requested, ground (arith, own))
        | inr below ↦ (strip_slashes root ++ slash ∷ requested, ground (arith, below))
      ]

  resolve_contained_path-cases :
      (root requested candidate : Text)
      → resolve_contained_path to_lower_case root requested ≡ some candidate
      → (requested_path to_lower_case root requested ≡ some candidate)
        × (is_path_contained to_lower_case root candidate ≡ true)
  unfolding resolve_contained_path
  resolve_contained_path-cases root [] candidate e = cc
  resolve_contained_path-cases root (c ∷ s) candidate e = ground arith

  starts_with-path_of : (segments : List Text) → starts_with (slash ∷ []) (path_of segments) ≡ true
  unfolding starts_with
  starts_with-path_of segments = refl

  -- For an absolute root, a path that is resolved lies inside: it goes on from the segments of
  -- the canonical root, and none of its segments is empty, `.` or `..` or holds a separator,
  -- whatever was requested.
  pub resolve_contained_path-IsInside :
      (root requested candidate : Text)
      → resolve_contained_path to_lower_case (slash ∷ root) requested ≡ some candidate
      → (r : Text) × (canonical_root to_lower_case (slash ∷ root) ≡ some r) × IsInside r candidate
  resolve_contained_path-IsInside root requested candidate e =
      let (asked, allowed) = resolve_contained_path-cases (slash ∷ root) requested candidate e in
      let (q, made) = requested_path-canonical (slash ∷ root) requested candidate asked in
      let (r, c, found, again, within) = is_path_contained-cases (slash ∷ root) candidate allowed in
      let (base, form, entries) = canonical_root-form root r found in
      let inside = contained-IsInside base candidate c entries again (rw form at within) in
      let rooted : starts_with (slash ∷ []) c ≡ true =
        ap (starts_with (slash ∷ [])) inside.is_candidate
        ∙ starts_with-path_of (inside.base ++ inside.rest) in
      let same : c ≡ candidate = canonicalize_path_again q candidate c made again rooted in
      (r, found, rw (form, sym same) inside)
