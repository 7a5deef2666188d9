-- ===== src/Paths/Tests.antt =====
-- Runs of the functions on paths, and the theorems at concrete inputs.
use spawnea.Prelude.{◌≡◌, refl, none, some, List, [], ◌∷◌, ◌++◌, All, arith}
use spawnea.Prelude.Units.{trim, Text, units, starts_with}
use spawnea.Paths.{
  canonicalize_path, canonical_root, is_path_contained, resolve_contained_path, requested_path,
  relative_contained_path, relative_to, assert_safe_filename, is_drive_rooted, strip_slashes,
  contained_in, portable, has_nul, print_path, is_absolute, segments_of, is_drive_absolute,
  add_segments, split_slash, join_slash, is_control,
}
use spawnea.Paths.Segments.{HasNo, IsEntry}
use spawnea.Paths.Canonical.{path_of, canonicalize_path_idempotent}
use spawnea.Paths.Containment.{IsInside, resolve_contained_path-IsInside}
use spawnea.Paths.Resolution.{
  resolve_contained_path-path_of, resolve_contained_path-assert_safe_filename,
}
use spawnea.Paths.Relative.{relative_contained_path-join_slash}

-- The texts of the tests have no upper case.
abbrev same_case : Text → Text
same_case s = s

above_root : canonicalize_path (units "/a/../../b") ≡ some (units "/b")
unfolding canonicalize_path portable has_nul print_path is_absolute segments_of is_drive_absolute
    add_segments split_slash join_slash strip_slashes canonical_root contained_in is_path_contained
    requested_path is_drive_rooted resolve_contained_path relative_to relative_contained_path trim
    is_control assert_safe_filename starts_with
above_root = refl

relative_kept : canonicalize_path (units "../a/./b/..") ≡ some (units "../a")
unfolding canonicalize_path portable has_nul print_path is_absolute segments_of is_drive_absolute
    add_segments split_slash join_slash strip_slashes canonical_root contained_in is_path_contained
    requested_path is_drive_rooted resolve_contained_path relative_to relative_contained_path trim
    is_control assert_safe_filename starts_with
relative_kept = refl

-- A `..` drops the drive.
drive_dropped : canonicalize_path (units "C:/../x") ≡ some (units "x")
unfolding canonicalize_path portable has_nul print_path is_absolute segments_of is_drive_absolute
    add_segments split_slash join_slash strip_slashes canonical_root contained_in is_path_contained
    requested_path is_drive_rooted resolve_contained_path relative_to relative_contained_path trim
    is_control assert_safe_filename starts_with
drive_dropped = refl

sibling_refused : resolve_contained_path same_case (units "/srv/app") (units "../app-2/x") ≡ none
unfolding canonicalize_path portable has_nul print_path is_absolute segments_of is_drive_absolute
    add_segments split_slash join_slash strip_slashes canonical_root contained_in is_path_contained
    requested_path is_drive_rooted resolve_contained_path relative_to relative_contained_path trim
    is_control assert_safe_filename starts_with
sibling_refused = refl

backslash_resolved :
    resolve_contained_path same_case (units "/srv/app/") (units "a\\..\\b")
    ≡ some (units "/srv/app/b")
unfolding canonicalize_path portable has_nul print_path is_absolute segments_of is_drive_absolute
    add_segments split_slash join_slash strip_slashes canonical_root contained_in is_path_contained
    requested_path is_drive_rooted resolve_contained_path relative_to relative_contained_path trim
    is_control assert_safe_filename starts_with
backslash_resolved = refl

relative_resolved :
    relative_contained_path same_case (units "/srv") (units "/srv/./a/b") ≡ some (units "a/b")
unfolding canonicalize_path portable has_nul print_path is_absolute segments_of is_drive_absolute
    add_segments split_slash join_slash strip_slashes canonical_root contained_in is_path_contained
    requested_path is_drive_rooted resolve_contained_path relative_to relative_contained_path trim
    is_control assert_safe_filename starts_with
relative_resolved = refl

filename_trimmed : assert_safe_filename (units " ab ") ≡ some (units "ab")
unfolding canonicalize_path portable has_nul print_path is_absolute segments_of is_drive_absolute
    add_segments split_slash join_slash strip_slashes canonical_root contained_in is_path_contained
    requested_path is_drive_rooted resolve_contained_path relative_to relative_contained_path trim
    is_control assert_safe_filename starts_with
filename_trimmed = refl

canonicalize_path_idempotent_example : canonicalize_path (units "/b") ≡ some (units "/b")
canonicalize_path_idempotent_example =
    canonicalize_path_idempotent (units "a/../../b") (units "/b") above_root

-- The entry `a`.
a-IsEntry : IsEntry (units "a")
a-IsEntry = record {
  filled = λ e. cc;
  not_dot = λ e. cc;
  not_dots = λ e. cc;
  no_slash = ((λ e. omega arith), tt);
  no_backslash = ((λ e. omega arith), tt);
}

a-HasNo : HasNo 0 (units "a")
a-HasNo = ((λ e. omega arith), tt)

resolve_contained_path-IsInside_example :
    (r : Text) × (canonical_root same_case (units "/srv/app/") ≡ some r)
    × IsInside same_case r (units "/srv/app/b")
resolve_contained_path-IsInside_example =
    resolve_contained_path-IsInside same_case (units "srv/app/") (units "a\\..\\b")
      (units "/srv/app/b") backslash_resolved

resolve_contained_path-path_of_example :
    resolve_contained_path same_case (units "/a") (units "a/a") ≡ some (units "/a/a/a")
resolve_contained_path-path_of_example =
    unfold join_slash is_drive_rooted in
    resolve_contained_path-path_of same_case (units "a" ∷ []) (units "a") (units "a" ∷ [])
      (a-IsEntry, tt) (a-HasNo, tt) (a-IsEntry, (a-IsEntry, tt)) (a-HasNo, (a-HasNo, tt)) refl

resolve_contained_path-assert_safe_filename_example :
    resolve_contained_path same_case (path_of (units "a" ∷ [])) (units "ab")
    ≡ some (path_of (units "a" ∷ units "ab" ∷ []))
resolve_contained_path-assert_safe_filename_example =
    resolve_contained_path-assert_safe_filename same_case (units "a" ∷ []) (units " ab ")
      (units "ab") (a-IsEntry, tt) (a-HasNo, tt) filename_trimmed

relative_contained_path-join_slash_example :
    (base rest : List Text) × (canonical_root same_case (units "/srv") ≡ some (path_of base))
    × (resolve_contained_path same_case (units "/srv") (units "/srv/./a/b")
        ≡ some (path_of (base ++ rest)))
    × (units "a/b" ≡ join_slash rest)
    × All IsEntry (base ++ rest)
relative_contained_path-join_slash_example =
    relative_contained_path-join_slash same_case (units "srv") (units "/srv/./a/b") (units "a/b")
      relative_resolved
