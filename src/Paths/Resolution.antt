-- ===== src/Paths/Resolution.antt =====
-- What `resolveContainedPath` grants in a workspace, and the names `assertSafeFilename` accepts.
use spawnea.Prelude.{
  ℕ, ◌≡◌, ◌≢◌, ◌≤◌, refl, sym, ap, ◌∙◌, Bool, true, false, some, List, [], ◌∷◌, ◌++◌, arith, ◌==◌,
  All, length, append_assoc, All-append, any,
}
use spawnea.Prelude.Units.{text_eq_iff, trim, Text, starts_with}
use spawnea.Paths.{
  slash, backslash, dot, dots, join_slash, is_drive_rooted, strip_slashes, canonical_root,
  contained_in, is_path_contained, requested_path, resolve_contained_path, assert_safe_filename,
  is_control,
}
use spawnea.Paths.Segments.{HasNo, IsEntry, All-IsSegment}
use spawnea.Paths.Canonical.{
  path_of, canonicalize_path-path_of, drive_of_slash, join_slash-relative,
}
use spawnea.Paths.Containment.{
  canonical_root-path_of, strip_slashes-join_slash, strip_slashes-append, join_slash-filled,
}

starts_with-prefix : (p s : Text) → starts_with p (p ++ s) ≡ true
unfolding starts_with
starts_with-prefix [] s = refl
starts_with-prefix (c ∷ p) s = ground (arith, starts_with-prefix p s)

join_slash-append :
    (a : Text) (as' : List Text) (b : Text) (bs : List Text)
    → join_slash (a ∷ as' ++ b ∷ bs) ≡ join_slash (a ∷ as') ++ slash ∷ join_slash (b ∷ bs)
unfolding join_slash
join_slash-append a [] b bs = refl
join_slash-append a (next ∷ as') b bs =
    rw (join_slash-append next as' b bs)
      (sym (append_assoc a (slash ∷ join_slash (next ∷ as')) (slash ∷ join_slash (b ∷ bs))))

-- The root without its slashes, a slash and the request.
stripped-append :
    (base : List Text) (b : Text) (bs : List Text)
    → All IsEntry base
    → strip_slashes (path_of base) ++ slash ∷ join_slash (b ∷ bs) ≡ path_of (base ++ b ∷ bs)
unfolding strip_slashes join_slash
stripped-append [] b bs h = refl
stripped-append (a ∷ as') b bs h =
    rw
      (
        strip_slashes-append (slash ∷ []) (join_slash (a ∷ as')) (strip_slashes-join_slash a as' h)
            (join_slash-filled a as' h),
        join_slash-append a as' b bs,
      )
      refl

pub path_below :
    (a : Text) (as' : List Text) (b : Text) (bs : List Text)
    → path_of (a ∷ as' ++ b ∷ bs) ≡ (path_of (a ∷ as') ++ slash ∷ []) ++ join_slash (b ∷ bs)
path_below a as' b bs =
    rw (join_slash-append a as' b bs)
      (sym (append_assoc (path_of (a ∷ as')) (slash ∷ []) (join_slash (b ∷ bs))))

is_drive_rooted_of_HasNo :
    (s : Text) → HasNo slash s → HasNo backslash s → is_drive_rooted s ≡ false
unfolding is_drive_rooted
is_drive_rooted_of_HasNo [] h k = refl
is_drive_rooted_of_HasNo (c ∷ []) h k = refl
is_drive_rooted_of_HasNo (c ∷ d ∷ []) h k = refl
is_drive_rooted_of_HasNo (c ∷ d ∷ e ∷ s) (_, (_, (h, _))) (_, (_, (k, _))) = ground arith

module _ (to_lower_case : Text → Text) where
  contained_in_below :
      (base : List Text) (b : Text) (bs : List Text)
      → contained_in to_lower_case (path_of base) (path_of (base ++ b ∷ bs)) ≡ true
  unfolding contained_in starts_with join_slash
  contained_in_below [] b bs = refl
  contained_in_below (a ∷ as') b bs = ground (
    arith,
    drive_of_slash (join_slash (a ∷ as')),
    text_eq_iff (join_slash (a ∷ as')) [],
    path_below a as' b bs,
    starts_with-prefix (path_of (a ∷ as') ++ slash ∷ []) (join_slash (b ∷ bs)),
  )

  canonical_root_of_path :
      (base : List Text)
      → All IsEntry base
      → All (HasNo 0) base
      → canonical_root to_lower_case (path_of base) ≡ some (path_of base)
  unfolding canonical_root
  canonical_root_of_path base h z =
      ground (arith, canonicalize_path-path_of base h z, canonical_root-path_of base h)

  is_path_contained-path_of :
      (base : List Text) (b : Text) (bs : List Text)
      → All IsEntry base
      → All (HasNo 0) base
      → All IsEntry (base ++ b ∷ bs)
      → All (HasNo 0) (base ++ b ∷ bs)
      → is_path_contained to_lower_case (path_of base) (path_of (base ++ b ∷ bs)) ≡ true
  unfolding is_path_contained
  is_path_contained-path_of base b bs h z k w = ground (
    arith,
    canonical_root_of_path base h z,
    canonicalize_path-path_of (base ++ b ∷ bs) k w,
    contained_in_below base b bs,
  )

  requested_path-path_of :
      (base : List Text) (b : Text) (bs : List Text)
      → All IsEntry base
      → All IsEntry (b ∷ bs)
      → All IsEntry (base ++ b ∷ bs)
      → All (HasNo 0) (base ++ b ∷ bs)
      → is_drive_rooted (join_slash (b ∷ bs)) ≡ false
      → requested_path to_lower_case (path_of base) (join_slash (b ∷ bs))
        ≡ some (path_of (base ++ b ∷ bs))
  unfolding requested_path
  requested_path-path_of base b bs h k j w e =
      rw (join_slash-relative (b ∷ bs) (All-IsSegment (b ∷ bs) k), e, stripped-append base b bs h)
        (canonicalize_path-path_of (base ++ b ∷ bs) j w)

  resolve_of_contained :
      (root requested candidate : Text)
      → requested ≢ []
      → requested_path to_lower_case root requested ≡ some candidate
      → is_path_contained to_lower_case root candidate ≡ true
      → resolve_contained_path to_lower_case root requested ≡ some candidate
  unfolding resolve_contained_path
  resolve_of_contained root [] candidate filled e inside = absurd (filled refl)
  resolve_of_contained root (c ∷ s) candidate filled e inside = ground (arith, e, inside)

  -- Below a root of entries, a path of at least one entry is resolved to the path of the root's
  -- entries and then the requested ones, unless it reads as a path on a drive. No entry holds
  -- the unit 0.
  pub resolve_contained_path-path_of :
      (base : List Text) (b : Text) (bs : List Text)
      → All IsEntry base
      → All (HasNo 0) base
      → All IsEntry (b ∷ bs)
      → All (HasNo 0) (b ∷ bs)
      → is_drive_rooted (join_slash (b ∷ bs)) ≡ false
      → resolve_contained_path to_lower_case (path_of base) (join_slash (b ∷ bs))
        ≡ some (path_of (base ++ b ∷ bs))
  resolve_contained_path-path_of base b bs h z k w e =
      let j = All-append IsEntry base (b ∷ bs) h k in
      let v = All-append (HasNo 0) base (b ∷ bs) z w in
      resolve_of_contained (path_of base) (join_slash (b ∷ bs)) (path_of (base ++ b ∷ bs))
        (join_slash-filled b bs k) (requested_path-path_of base b bs h k j v e)
        (is_path_contained-path_of base b bs h z j v)

units-HasNo : (p : ℕ → Bool) (u : ℕ) (s : Text) → p u ≡ true → any p s ≡ false → HasNo u s
units-HasNo p u [] t e = tt
units-HasNo p u (c ∷ s) t e =
    let (first, rest) : (p c ≡ false) × (any p s ≡ false) = ground arith in
    ((λ same. true-not-false (sym t ∙ sym (ap p same) ∙ first)), units-HasNo p u s t rest)
  where
    true-not-false : true ≢ false
    true-not-false e = cc

-- A name that is accepted is the filename without the white space around it, an entry of one
-- directory, holds no unit 0 and has at most 255 units.
pub assert_safe_filename-IsEntry :
    (filename name : Text)
    → assert_safe_filename filename ≡ some name
    → (name ≡ trim filename) × IsEntry name × HasNo 0 name × (length name ≤ 255)
unfolding assert_safe_filename is_control
assert_safe_filename-IsEntry filename name e =
    let name' = trim filename in
    ground (
      arith,
      text_eq_iff name' [],
      text_eq_iff name' dot,
      text_eq_iff name' dots,
      units-HasNo (λ c. c == slash) slash name',
      units-HasNo (λ c. c == backslash) backslash name',
      units-HasNo is_control 0 name',
    )

-- A name that is accepted stands for an entry directly below a root of entries.
pub resolve_contained_path-assert_safe_filename :
    (to_lower_case : Text → Text) (base : List Text) (filename name : Text)
    → All IsEntry base
    → All (HasNo 0) base
    → assert_safe_filename filename ≡ some name
    → resolve_contained_path to_lower_case (path_of base) name ≡ some (path_of (base ++ name ∷ []))
unfolding join_slash
resolve_contained_path-assert_safe_filename to_lower_case base filename name h z e =
    let (_, entry, no_nul, _) = assert_safe_filename-IsEntry filename name e in
    resolve_contained_path-path_of to_lower_case base name [] h z (entry, tt) (no_nul, tt)
      (is_drive_rooted_of_HasNo name entry.no_slash entry.no_backslash)
