-- ===== src/Paths.antt =====
-- packages/domain/src/path-security.ts: canonical paths and containment in a workspace. A path is
-- the list of its UTF-16 code units; `none` is a thrown error.
pub mod Segments
pub mod Canonical
pub mod Containment
pub mod Resolution
pub mod Relative
mod Tests
use spawnea.Prelude.{
  ℕ, suc, zero, ◌+◌, Bool, true, false, ◌&&◌, ◌||◌, not, Option, none, some, List, [], ◌∷◌, ◌++◌,
  map, reverse, ltb, leb, ◌==◌, if◌then◌else◌, length, any, drop,
}
use spawnea.Prelude.Units.{Text, text_eq, trim, units, starts_with, or_else}

abbrev pub slash : ℕ
slash = b'/'

abbrev pub backslash : ℕ
backslash = 0x5c

-- `input.replace(/\\/g, '/')`
pub portable : Text → Text
portable [] = []
portable (c ∷ s) = (if c == backslash then slash else c) ∷ portable s

is_letter : ℕ → Bool
is_letter c = (leb b'A' c && leb c b'Z') || (leb b'a' c && leb c b'z')

-- `/^[A-Za-z]:\//`
pub is_drive_absolute : Text → Bool
unfolding is_letter
is_drive_absolute (c ∷ d ∷ e ∷ s) = is_letter c && d == b':' && e == slash
is_drive_absolute _ = false

-- `/^[A-Za-z]:[\\/]/`
pub is_drive_rooted : Text → Bool
unfolding is_letter
is_drive_rooted (c ∷ d ∷ e ∷ s) = is_letter c && d == b':' && (e == slash || e == backslash)
is_drive_rooted _ = false

abbrev add_unit : ℕ → List Text → List Text
add_unit c [] = (c ∷ []) ∷ []
add_unit c (part ∷ parts) = (c ∷ part) ∷ parts

-- `text.split('/')`
pub split_slash : Text → List Text
split_slash [] = [] ∷ []
split_slash (c ∷ s) = if c == slash then [] ∷ split_slash s else add_unit c (split_slash s)

-- `segments.join('/')`
pub join_slash : List Text → Text
join_slash [] = []
join_slash (part ∷ []) = part
join_slash (part ∷ next ∷ parts) = part ++ slash ∷ join_slash (next ∷ parts)

abbrev pub dot : Text
dot = b'.' ∷ []

abbrev pub dots : Text
dots = b'.' ∷ b'.' ∷ []

-- A `..`: the head of the list is the last segment.
go_up : Bool → List Text → List Text
go_up absolute [] = if absolute then [] else dots ∷ []
go_up absolute (last ∷ rest) =
    if text_eq last dots then (if absolute then last ∷ rest else dots ∷ last ∷ rest) else rest

-- One round of the loop of `canonicalizePath`.
add_segment : Bool → List Text → Text → List Text
unfolding go_up
add_segment absolute segments part =
    if text_eq part [] || text_eq part dot
    then segments
    else if text_eq part dots
    then go_up absolute segments
    else part ∷ segments

pub add_segments : Bool → List Text → List Text → List Text
unfolding add_segment
add_segments absolute segments [] = segments
add_segments absolute segments (part ∷ parts) =
    add_segments absolute (add_segment absolute segments part) parts

pub has_nul : Text → Bool
has_nul s = any (λ c. c == 0) s

-- The segments of a path, first one first.
pub segments_of : Bool → Text → List Text
unfolding add_segments
segments_of absolute s = reverse (add_segments absolute [] (split_slash s))

pub is_absolute : Text → Bool
unfolding is_drive_absolute
is_absolute s = starts_with (slash ∷ []) s || is_drive_absolute s

pub print_path : Bool → Bool → Text → Text
print_path true true joined = joined
print_path true false joined = slash ∷ joined
print_path false _ joined = or_else joined dot

pub canonicalize_path : Text → Option Text
unfolding portable has_nul print_path is_absolute segments_of
canonicalize_path [] = none
canonicalize_path (c ∷ s) =
    let input = portable (c ∷ s) in
    if has_nul (c ∷ s)
    then none
    else some (
        print_path (is_absolute input) (is_drive_absolute input)
          (join_slash (segments_of (is_absolute input) input)))

-- `text.replace(/\/+$/, '')`
pub strip_slashes : Text → Text
strip_slashes [] = []
strip_slashes (c ∷ s) =
    let rest = strip_slashes s in if text_eq rest [] && c == slash then [] else c ∷ rest

-- `String.prototype.toLowerCase`, which depends on the tables of Unicode, is an argument.
module _ (to_lower_case : Text → Text) where
  pub contained_in : Text → Text → Bool
  unfolding is_drive_absolute
  contained_in root candidate =
      let lower = is_drive_absolute root in
      let root' = if lower then to_lower_case root else root in
      let candidate' = if lower then to_lower_case candidate else candidate in
      if text_eq root (slash ∷ [])
      then starts_with (slash ∷ []) candidate
      else text_eq candidate' root' || starts_with (root' ++ slash ∷ []) candidate'

  -- `canonicalizePath(root).replace(/\/+$/, '') || '/'`
  pub canonical_root : Text → Option Text
  unfolding strip_slashes
  canonical_root root = elim (canonicalize_path root) [
    | none ↦ none
    | some r ↦ some (or_else (strip_slashes r) (slash ∷ []))
  ]

  pub is_path_contained : Text → Text → Bool
  unfolding contained_in canonical_root
  is_path_contained root candidate = elim (canonical_root root) [
    | none ↦ false
    | some r ↦ elim (canonicalize_path candidate) [ none ↦ false | some c ↦ contained_in r c ]
  ]

  -- The path that a request stands for, before the check.
  pub requested_path : Text → Text → Option Text
  unfolding is_drive_rooted strip_slashes
  requested_path root requested =
      if starts_with (slash ∷ []) requested || is_drive_rooted requested
      then canonicalize_path requested
      else canonicalize_path (strip_slashes root ++ slash ∷ requested)

  pub resolve_contained_path : Text → Text → Option Text
  unfolding requested_path
  resolve_contained_path root [] = none
  resolve_contained_path root (c ∷ s) = elim (requested_path root (c ∷ s)) [
    | none ↦ none
    | some candidate ↦ if is_path_contained root candidate then some candidate else none
  ]

  relative_to : Text → Text → Text
  relative_to root candidate =
      if text_eq candidate root
      then []
      else drop (if text_eq root (slash ∷ []) then 1 else length root + 1) candidate

  pub relative_contained_path : Text → Text → Option Text
  unfolding relative_to
  relative_contained_path root candidate = elim (canonical_root root) [
    | none ↦ none
    | some r ↦ elim (resolve_contained_path root candidate) [
      | none ↦ none
      | some c ↦ some (relative_to r c)
    ]
  ]

pub is_control : ℕ → Bool
is_control c = leb c 0x1f || c == 0x7f

pub assert_safe_filename : Text → Option Text
unfolding is_control
assert_safe_filename filename =
    let name = trim filename in
    if text_eq name []
      || text_eq name dot
      || text_eq name dots
      || ltb 255 (length name)
      || any (λ c. c == slash) name
      || any (λ c. c == backslash) name
      || any is_control name
    then none
    else some name
