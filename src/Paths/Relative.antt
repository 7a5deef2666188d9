-- ===== src/Paths/Relative.antt =====
-- What `relativeContainedPath` returns.
use spawnea.Prelude.{
  suc, ◌+◌, ◌≡◌, ◌≢◌, refl, ap, ◌∙◌, false, Option-cases, inl, inr, some, List, [], ◌∷◌, ◌++◌,
  arith, All, length, length-append, drop, append-nil, All-prefix, append_assoc,
}
use spawnea.Prelude.Units.{text_eq, text_eq_iff, text_eq_refl, Text}
use spawnea.Paths.{
  slash, join_slash, canonical_root, resolve_contained_path, relative_to, relative_contained_path,
}
use spawnea.Paths.Segments.{IsEntry}
use spawnea.Paths.Canonical.{path_of}
use spawnea.Paths.Containment.{resolve_contained_path-IsInside, join_slash-filled}
use spawnea.Paths.Resolution.{path_below}

longer : (a b : Text) → a ++ slash ∷ b ≢ a
longer a b e = omega (arith, ap length e, length-append a (slash ∷ b))

longer-text_eq : (a b : Text) → text_eq (a ++ slash ∷ b) a ≡ false
longer-text_eq a b = ground (arith, text_eq_iff (a ++ slash ∷ b) a, longer a b)

drop-below : (a b : Text) → drop (suc (length a)) (a ++ slash ∷ b) ≡ b
drop-below [] b = refl
drop-below (c ∷ a) b = drop-below a b

module _ (to_lower_case : Text → Text) where
  relative_to-below :
      (root rest : Text)
      → text_eq root (slash ∷ []) ≡ false
      → relative_to to_lower_case root (root ++ slash ∷ rest) ≡ rest
  unfolding relative_to
  relative_to-below root rest e =
      let next : length root + 1 ≡ suc (length root) = omega arith in
      rw (longer-text_eq root rest, e, next) (drop-below root rest)

  relative_to-path_of :
      (base rest : List Text)
      → All IsEntry (base ++ rest)
      → relative_to to_lower_case (path_of base) (path_of (base ++ rest)) ≡ join_slash rest
  unfolding relative_to join_slash
  relative_to-path_of [] [] h = refl
  relative_to-path_of [] (b ∷ bs) h =
      ground (arith, text_eq_iff (join_slash (b ∷ bs)) [], join_slash-filled b bs h)
  relative_to-path_of (a ∷ as') [] h = rw (append-nil as', text_eq_refl (join_slash (a ∷ as'))) refl
  relative_to-path_of (a ∷ as') (b ∷ bs) h =
      let root : Text = path_of (a ∷ as') in
      let own : text_eq root (slash ∷ []) ≡ false = ground (
        arith,
        text_eq_iff (join_slash (a ∷ as')) [],
        join_slash-filled a as' (All-prefix IsEntry (a ∷ as') (b ∷ bs) h),
      ) in
      let form : path_of (a ∷ as' ++ b ∷ bs) ≡ root ++ slash ∷ join_slash (b ∷ bs) =
        path_below a as' b bs ∙ append_assoc root (slash ∷ []) (join_slash (b ∷ bs)) in
      ap (relative_to to_lower_case root) form ∙ relative_to-below root (join_slash (b ∷ bs)) own

  -- For a root that begins with a slash, a relative path that is returned joins the entries by which the resolved
  -- path goes on from the root.
  pub relative_contained_path-join_slash :
      (root requested relative : Text)
      → relative_contained_path to_lower_case (slash ∷ root) requested ≡ some relative
      → (base rest : List Text) × (canonical_root to_lower_case (slash ∷ root)
          ≡ some (path_of base))
        × (resolve_contained_path to_lower_case (slash ∷ root) requested
            ≡ some (path_of (base ++ rest)))
        × (relative ≡ join_slash rest)
        × All IsEntry (base ++ rest)
  unfolding relative_contained_path
  relative_contained_path-join_slash root requested relative e =
      elim (Option-cases (resolve_contained_path to_lower_case (slash ∷ root) requested)) [
        | inl missing ↦ absurd (ground (arith, missing))
        | inr (candidate, found) ↦
            let (r, is_r, inside) =
              resolve_contained_path-IsInside to_lower_case root requested candidate found in
            (
              inside.base,
              inside.rest,
              is_r ∙ ap some inside.is_root,
              found ∙ ap some inside.is_candidate,
              ground (
                arith,
                is_r,
                found,
                inside.is_root,
                inside.is_candidate,
                relative_to-path_of inside.base inside.rest inside.entries,
              ),
              inside.entries,
            )
      ]
