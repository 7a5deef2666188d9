-- ===== src/ContextStore/Updates.antt =====
-- No update is lost: the revision of a file tells whether it has changed.
use spawnea.Prelude.{
  ℕ, ◌+◌, ◌≡◌, ◌≢◌, ◌<◌, ◌≤◌, ◌⊎◌, refl, ap, subst, inl, inr, false, Option, some, List, [], ◌∷◌,
  get_or, arith, Bool-cases, Option-cases,
}
use spawnea.Prelude.Units.{Text, text_eq, text_eq_iff}
use spawnea.Prelude.TextMaps.{TextMap, lookup, lookup-insert, lookup-remove}
use spawnea.ContextStore.Effects.{IsEffect, kept, wrote, removed, cleared, after_call-IsEffect}
use spawnea.ContextStore.{
  Context, Store, context_too_large, context_changed, threw, gave, Call, get_file_path, load,
  read_file, normalized, written, revision, save, bump, has_large_file, has_changed, after_call,
  after_calls,
}

module _ {Link Rest : Type 0} where
  abbrev revision_at : Text → Store Link Rest → ℕ
  revision_at path s = get_or (lookup path s.revisions) 0

  -- The file is as before, or its revision is a later one.
  record IsLater (path : Text) (s t : Store Link Rest) : Type 0 where
    grows : revision_at path s ≤ revision_at path t
    kept : (revision_at path s < revision_at path t) ⊎ (lookup path t.files ≡ lookup path s.files)

  IsLater-refl : (path : Text) (s : Store Link Rest) → IsLater path s s
  IsLater-refl path s = record { grows = omega arith; kept = inr refl }

  IsLater-trans :
      (path : Text) (s t u : Store Link Rest)
      → IsLater path s t
      → IsLater path t u
      → IsLater path s u
  IsLater-trans path s t u h k = record {
    grows = omega (arith, h.grows, k.grows);
    kept = grind (arith, h.kept, k.kept, h.grows, k.grows);
  }

module _ {Link Rest : Type 0} (parse : Text → Option (Context Link Rest))
    (print : Context Link Rest → Text) (normalize : List Link → List Link)
    (print_links : List Link → Text) (path : Text) where
  other_name : (id : Text) → get_file_path id ≢ path → text_eq (get_file_path id) path ≡ false
  other_name id away = elim (Bool-cases (text_eq (get_file_path id) path)) [
    | inl here ↦ absurd (away ((text_eq_iff (get_file_path id) path).0 here))
    | inr apart ↦ apart
  ]

  -- A file that is written or removed with a new revision.
  changed-IsLater :
      (id : Text) (s t : Store Link Rest)
      → t.revisions ≡ (bump parse print normalize print_links id s).revisions
      → ((get_file_path id ≢ path) → lookup path t.files ≡ lookup path s.files)
      → IsLater path s t
  unfolding revision bump
  changed-IsLater id s t e same =
      let at_path =
        lookup-insert (get_file_path id) path (revision_at (get_file_path id) s + 1) s.revisions in
      elim (Bool-cases (text_eq (get_file_path id) path)) [
        | inl here ↦
            let name : get_file_path id ≡ path = (text_eq_iff (get_file_path id) path).0 here in
            let next : revision_at path t ≡ revision_at path s + 1 =
              rw (e, at_path, here, name) refl in
            record { grows = omega (arith, next); kept = inl (omega (arith, next)) }
        | inr away ↦
            let other : get_file_path id ≢ path =
              λ k. let equal = (text_eq_iff (get_file_path id) path).1 k in cc in
            let next : revision_at path t ≡ revision_at path s = rw (e, at_path, away) refl in
            record { grows = omega (arith, next); kept = inr (same other) }
      ]

  effect-IsLater :
      (s t : Store Link Rest)
      → IsEffect parse print normalize print_links s t.files t.revisions
      → IsLater path s t
  unfolding written bump
  effect-IsLater s t effect = go t.files t.revisions refl refl effect
    where
      go :
          (files : TextMap Text) (revisions : TextMap ℕ)
          → t.files ≡ files
          → t.revisions ≡ revisions
          → IsEffect parse print normalize print_links s files revisions
          → IsLater path s t
      go _ _ e f kept = record { grows = rw f (omega arith); kept = inr (ap (lookup path) e) }
      go _ _ e f (wrote context small) = changed-IsLater context.session_id s t f (λ away.
          rw
            (
              e,
              lookup-insert (get_file_path context.session_id) path
                  (print (normalized parse print normalize print_links context)) s.files,
              other_name context.session_id away,
            )
            refl)
      go _ _ e f (removed id) =
          changed-IsLater id s t f
            (λ away. rw (e, lookup-remove (get_file_path id) path s.files, other_name id away) refl)
      go _ _ e f (cleared id) = changed-IsLater id s t f (λ away. ap (lookup path) e)

  after_calls-IsLater :
      (calls : List (Call parse print normalize print_links)) (s : Store Link Rest)
      → IsLater path s (after_calls parse print normalize print_links calls s)
  unfolding after_calls
  after_calls-IsLater [] s = IsLater-refl path s
  after_calls-IsLater (call ∷ calls) s =
      IsLater-trans path s (after_call parse print normalize print_links call s) _
        (effect-IsLater s _ (after_call-IsEffect parse print normalize print_links call s))
        (after_calls-IsLater calls (after_call parse print normalize print_links call s))

module _ {Link Rest : Type 0} (parse : Text → Option (Context Link Rest))
    (print : Context Link Rest → Text) (normalize : List Link → List Link)
    (print_links : List Link → Text) where
  pub load-revision :
      (id : Text) (s : Store Link Rest) (context : Context Link Rest) (at : ℕ)
      → load parse print normalize print_links id s ≡ some (context, at)
      → at ≡ revision parse print normalize print_links id s
  unfolding load
  load-revision id s context at e =
      elim (Option-cases (read_file parse print normalize print_links (get_file_path id) s)) [
        | inl absent ↦ absurd (ground (arith, absent, e))
        | inr (found, there) ↦ ground (arith, there, e)
      ]

  save-current :
      (context : Context Link Rest) (at : ℕ) (s t : Store Link Rest) (path : Text)
      → save parse print normalize print_links context (some at) s ≡ (gave path, t)
      → at ≡ revision parse print normalize print_links context.session_id s
  unfolding save has_changed
  save-current context at s t path e =
      let id = context.session_id in
      elim (Bool-cases (has_large_file parse print normalize print_links (get_file_path id) s)) [
        | inl large ↦
            let refused : (threw context_too_large, s) ≡ (gave path, t) = rw (large, save) at e in
            cc
        | inr small ↦
            elim (Bool-cases (has_changed parse print normalize print_links id (some at) s)) [
              | inl old ↦
                  let refused : (threw context_changed, s) ≡ (gave path, t) =
                    rw (small, old, save) at e in
                  cc
              | inr current ↦ ground (arith, current)
            ]
      ]

  -- A context that was read, then saved after any calls on any sessions, replaces the very file
  -- that was read: when the save gives its path, the calls have left the file as it was.
  pub save-load :
      (id : Text) (s t : Store Link Rest) (read context : Context Link Rest) (at : ℕ)
      (calls : List (Call parse print normalize print_links)) (path : Text)
      → load parse print normalize print_links id s ≡ some (read, at)
      → context.session_id ≡ id
      → save parse print normalize print_links context
          (some at)
          (after_calls parse print normalize print_links calls s)
        ≡ (gave path, t)
      → lookup (get_file_path id) (after_calls parse print normalize print_links calls s).files
        ≡ lookup (get_file_path id) s.files
  unfolding revision
  save-load id s t read context at calls path e name saved =
      let u = after_calls parse print normalize print_links calls s in
      let before = load-revision id s read at e in
      let after : at ≡ revision parse print normalize print_links id u =
        subst (λ i. at ≡ revision parse print normalize print_links i u) name
          (save-current context at u t path saved) in
      elim (after_calls-IsLater parse print normalize print_links (get_file_path id) calls s).kept [
        | inl grown ↦ absurd (omega (arith, grown, before, after))
        | inr same ↦ same
      ]
