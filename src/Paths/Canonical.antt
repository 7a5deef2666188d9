-- ===== src/Paths/Canonical.antt =====
-- What `canonicalizePath` returns.
use spawnea.Prelude.{
  ◌≡◌, ◌↔◌, refl, sym, subst, ap, ◌∙◌, Bool, true, false, some, List, [], ◌∷◌, arith, All,
}
use spawnea.Prelude.Units.{Text, starts_with, or_else}
use spawnea.Paths.{
  slash, backslash, dot, split_slash, join_slash, add_segments, segments_of, portable, has_nul,
  is_drive_absolute, is_absolute, print_path, canonicalize_path,
}
use spawnea.Paths.Segments.{
  HasNo, IsEntry, IsSegment, segments_of-IsEntry, segments_of-IsSegment, split_slash-join_slash,
  portable-HasNo, add_segments_of_IsEntry, All-IsSegment, entries-HasNo, segments_of-HasNo,
  join_slash-HasNo,
}

-- An absolute path in canonical form.
abbrev pub path_of : List Text → Text
path_of segments = slash ∷ join_slash segments

canonicalize_path-some :
    (s r : Text)
    → canonicalize_path s ≡ some r
    → (has_nul s ≡ false)
      × (r
          ≡ print_path
              (is_absolute (portable s))
              (is_drive_absolute (portable s))
              (join_slash (segments_of (is_absolute (portable s)) (portable s))))
unfolding canonicalize_path
canonicalize_path-some [] r e = cc
canonicalize_path-some (c ∷ s) r e = ground arith

pub drive_of_slash : (s : Text) → is_drive_absolute (slash ∷ s) ≡ false
unfolding is_drive_absolute
drive_of_slash [] = refl
drive_of_slash (c ∷ []) = refl
drive_of_slash (c ∷ d ∷ s) = refl

-- The canonical form of an absolute path names entries only: no segment of it is empty, `.` or
-- `..`, and none holds a separator.
pub canonicalize_path-IsEntry :
    (s r : Text)
    → canonicalize_path (slash ∷ s) ≡ some r
    → (segments : List Text) × (r ≡ path_of segments) × All IsEntry segments
unfolding is_absolute starts_with portable print_path
canonicalize_path-IsEntry s r e =
    let (_, same) = canonicalize_path-some (slash ∷ s) r e in
    (
      segments_of true (portable (slash ∷ s)),
      rw (drive_of_slash (portable s)) at same,
      segments_of-IsEntry (slash ∷ s),
    )

pub join_slash-relative :
    (segments : List Text)
    → All IsSegment segments
    → starts_with (slash ∷ []) (join_slash segments) ≡ false
unfolding join_slash starts_with
join_slash-relative [] h = refl
join_slash-relative ([] ∷ rest) ((filled, _), h) = absurd (filled refl)
join_slash-relative ((c ∷ part) ∷ []) ((_, (p, _)), h) = ground arith
join_slash-relative ((c ∷ part) ∷ next ∷ rest) ((_, (p, _)), h) = ground arith

print_path-rooted :
    (absolute drive : Bool) (segments : List Text)
    → All IsSegment segments
    → starts_with (slash ∷ []) (print_path absolute drive (join_slash segments)) ≡ true
    → (absolute ≡ true) × (drive ≡ false)
unfolding print_path
print_path-rooted true true segments h rooted = ground (arith, join_slash-relative segments h)
print_path-rooted true false segments h rooted = (refl, refl)
print_path-rooted false drive segments h rooted =
    ground (arith, join_slash-relative segments h, or_else-rooted (join_slash segments))
  where
    or_else-rooted :
        (t : Text)
        → starts_with (slash ∷ []) t ≡ false
        → starts_with (slash ∷ []) (or_else t dot) ≡ false
    or_else-rooted [] e = unfold starts_with in refl
    or_else-rooted (c ∷ t) e = e

-- Whatever the path, a canonical form that begins with a slash is that of an absolute path.
pub canonicalize_path-rooted :
    (s r : Text)
    → canonicalize_path s ≡ some r
    → starts_with (slash ∷ []) r ≡ true
    → (segments : List Text) × (r ≡ path_of segments) × All IsEntry segments
canonicalize_path-rooted s r e rooted =
    let (_, same) = canonicalize_path-some s r e in
    let q : Text = portable s in
    let (absolute, posix) =
      print_path-rooted (is_absolute q) (is_drive_absolute q) (segments_of (is_absolute q) q)
        (segments_of-IsSegment (is_absolute q) q) (rw same at rooted) in
    (segments_of true q, unfold print_path in rw (absolute, posix) at same, segments_of-IsEntry s)

pub has_nul_iff : (s : Text) → (has_nul s ≡ false) ↔ HasNo 0 s
unfolding has_nul
has_nul_iff [] = ground arith
has_nul_iff (c ∷ s) = ground (arith, has_nul_iff s)

portable_nul : (s : Text) → HasNo 0 s → HasNo 0 (portable s)
unfolding portable
portable_nul [] h = tt
portable_nul (c ∷ s) (p, h) = ground (arith, portable_nul s h)

portable_of_HasNo : (s : Text) → HasNo backslash s → portable s ≡ s
unfolding portable
portable_of_HasNo [] h = refl
portable_of_HasNo (c ∷ s) (p, h) = ground (arith, portable_of_HasNo s h)

segments_of-path_of :
    (segments : List Text) → All IsEntry segments → segments_of true (path_of segments) ≡ segments
unfolding segments_of add_segments split_slash join_slash
segments_of-path_of [] h = refl
segments_of-path_of (part ∷ parts) h =
    rw (split_slash-join_slash part parts (All-IsSegment (part ∷ parts) h))
      (add_segments_of_IsEntry true [] (part ∷ parts) h)

-- The canonical form of entries is their path.
pub canonicalize_path-path_of :
    (segments : List Text)
    → All IsEntry segments
    → All (HasNo 0) segments
    → canonicalize_path (path_of segments) ≡ some (path_of segments)
unfolding canonicalize_path is_absolute starts_with print_path
canonicalize_path-path_of segments h z =
    let no_nul : has_nul (path_of segments) ≡ false =
      (has_nul_iff (path_of segments)).1
        ((λ e. omega arith), join_slash-HasNo 0 segments (λ e. omega arith) z) in
    let same : portable (path_of segments) ≡ path_of segments =
      portable_of_HasNo (path_of segments) (
        (λ e. omega arith),
        join_slash-HasNo backslash segments (λ e. omega arith) (entries-HasNo segments h),
      ) in
    rw (no_nul, same, drive_of_slash (join_slash segments), segments_of-path_of segments h)

-- Canonicalizing a path that begins with a slash a second time changes nothing.
pub canonicalize_path_idempotent :
    (s r : Text) → canonicalize_path (slash ∷ s) ≡ some r → canonicalize_path r ≡ some r
unfolding is_absolute starts_with portable print_path
canonicalize_path_idempotent s r e =
    let (no_nul, same) = canonicalize_path-some (slash ∷ s) r e in
    let segments : List Text = segments_of true (portable (slash ∷ s)) in
    let form : r ≡ path_of segments = rw (drive_of_slash (portable s)) at same in
    rw form (
      canonicalize_path-path_of segments (segments_of-IsEntry (slash ∷ s)) (
        segments_of-HasNo 0 true (portable (slash ∷ s)) (λ e. omega arith)
          (portable_nul (slash ∷ s) ((has_nul_iff (slash ∷ s)).0 no_nul))))

-- A canonical form keeps no backslash.
canonicalize_path-HasNo : (s r : Text) → canonicalize_path s ≡ some r → HasNo backslash r
unfolding print_path
canonicalize_path-HasNo s r e =
    let (_, same) = canonicalize_path-some s r e in
    let q : Text = portable s in
    subst (HasNo backslash) (sym same) (
      print_path-HasNo (is_absolute q) (is_drive_absolute q)
        (join_slash (segments_of (is_absolute q) q))
        (join_slash-HasNo backslash (segments_of (is_absolute q) q) (λ e. omega arith)
          (segments_of-HasNo backslash (is_absolute q) q (λ e. omega arith) (portable-HasNo s))))
  where
    print_path-HasNo :
        (absolute drive : Bool) (t : Text)
        → HasNo backslash t
        → HasNo backslash (print_path absolute drive t)
    print_path-HasNo true true t h = h
    print_path-HasNo true false t h = ((λ e. omega arith), h)
    print_path-HasNo false drive [] h = ((λ e. omega arith), tt)
    print_path-HasNo false drive (c ∷ t) h = h

-- A path that is canonicalized a second time is the same when what comes out begins with a slash.
pub canonicalize_path_again :
    (s r c : Text)
    → canonicalize_path s ≡ some r
    → canonicalize_path r ≡ some c
    → starts_with (slash ∷ []) c ≡ true
    → c ≡ r
canonicalize_path_again s r c e again rooted =
    let (_, same) = canonicalize_path-some r c again in
    let kept : portable r ≡ r = portable_of_HasNo r (canonicalize_path-HasNo s r e) in
    let (absolute, posix) =
      print_path-rooted (is_absolute (portable r)) (is_drive_absolute (portable r))
        (segments_of (is_absolute (portable r)) (portable r))
        (segments_of-IsSegment (is_absolute (portable r)) (portable r)) (rw same at rooted) in
    let first : starts_with (slash ∷ []) r ≡ true =
      unfold is_absolute in ground (arith, ap is_absolute kept, ap is_drive_absolute kept) in
    let (segments, form, entries) = canonicalize_path-rooted s r e first in
    let as_path : c ≡ path_of segments =
      unfold print_path in
      rw (absolute, posix, kept, form, segments_of-path_of segments entries) at same in
    as_path ∙ sym form
