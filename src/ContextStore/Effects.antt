-- ===== src/ContextStore/Effects.antt =====
-- What a call does to the files: nothing, one file that is written, or one that is removed.
use spawnea.Prelude.{
  ℕ, ◌≡◌, refl, inl, inr, Bool, true, false, not, Option, some, List, [], get_or, is_some,
  if◌then◌else◌, Bool-cases, Option-cases, both_branches,
}
use spawnea.Prelude.Units.{Text, text_eq}
use spawnea.Prelude.TextMaps.{TextMap, lookup, remove}
use spawnea.ContextStore.{
  Context, Store, context_too_large, context_changed, context_exists, forget_snapshot, Result,
  threw, gave, Call, get_file_path, save_call, update_call, restore_call, discard_call, retain_call,
  sync_call, delete_call, load, is_above_limit, written, revision, write, save, with_value, update,
  restore_deleted, discard_deleted_snapshot, keep_links, retain_links, sync_retained_links, bump,
  keep_snapshot, delete, has_large_file, has_changed, after_call,
}

module _ {Link Rest : Type 0} (parse : Text → Option (Context Link Rest))
    (print : Context Link Rest → Text) (normalize : List Link → List Link)
    (print_links : List Link → Text) where
  -- The files and the revisions after a call.
  pub data IsEffect (s : Store Link Rest) : TextMap Text → TextMap ℕ → Type 0 where
    kept : IsEffect s s.files s.revisions
    wrote :
        (context : Context Link Rest)
        → is_above_limit parse print normalize print_links context s ≡ false
        → IsEffect s
            (written parse print normalize print_links context s).files
            (written parse print normalize print_links context s).revisions
    removed :
        (id : Text)
        → IsEffect s
            (remove (get_file_path id) s.files)
            (bump parse print normalize print_links id s).revisions
    cleared :
        (id : Text) → IsEffect s s.files (bump parse print normalize print_links id s).revisions

  record After {A : Type 0} (s : Store Link Rest) (r : A × Store Link Rest) : Type 0 where
    effect : IsEffect s r.1.files r.1.revisions

  unchanged : {A : Type 0} (s : Store Link Rest) (a : A) → After s (a, s)
  unchanged s a = record { effect = kept }

  write-After :
      (context : Context Link Rest) (s : Store Link Rest)
      → After s (write parse print normalize print_links context s)
  unfolding write
  write-After context s =
      elim (Bool-cases (is_above_limit parse print normalize print_links context s)) [
        | inl large ↦ rw (large, write) (unchanged s _)
        | inr small ↦ rw (small, write) (record { effect = wrote context small })
      ]

  save-After :
      (context : Context Link Rest) (expected : Option ℕ) (s : Store Link Rest)
      → After s (save parse print normalize print_links context expected s)
  unfolding save
  save-After context expected s =
      let checked : Result Text × Store Link Rest =
        if has_changed parse print normalize print_links context.session_id expected s
        then (threw context_changed, s)
        else write parse print normalize print_links context s in
      both_branches (After s)
        (has_large_file parse print normalize print_links (get_file_path context.session_id) s)
        (threw context_too_large, s) checked (unchanged s _)
        (both_branches (After s)
          (has_changed parse print normalize print_links context.session_id expected s)
          (threw context_changed, s) (write parse print normalize print_links context s)
          (unchanged s _) (write-After context s))

  with_value-After :
      {A : Type 0} (a : A) (s : Store Link Rest) (r : Result Text × Store Link Rest)
      → After s r
      → After s (with_value parse print normalize print_links a r)
  unfolding with_value
  with_value-After a s (threw message, t) h = record { effect = h.effect }
  with_value-After a s (gave path, t) h = record { effect = h.effect }

  update-After :
      (id : Text) (change : Context Link Rest → Context Link Rest) (s : Store Link Rest)
      → After s (update parse print normalize print_links id change s)
  unfolding update
  update-After id change s = elim (Option-cases (load parse print normalize print_links id s)) [
    | inl e ↦ rw (e, update) (unchanged s _)
    | inr ((current, at), e) ↦
        rw (e, update) (with_value-After true s _ (write-After (change current) s))
  ]

  keep_links-After :
      (context : Context Link Rest) (links : List Link) (s : Store Link Rest)
      → After s (keep_links parse print normalize print_links context links s)
  unfolding keep_links
  keep_links-After context links s =
      let relinked : Context Link Rest = record context { retained_links = some links } in
      elim (Bool-cases
        (text_eq (print_links (get_or context.retained_links [])) (print_links links))) [
          | inl same ↦ rw (same, keep_links) (unchanged s _)
          | inr other ↦ rw (other, keep_links) (with_value-After tt s _ (write-After relinked s))
        ]

  retain_links-After :
      (id : Text) (links : List Link) (s : Store Link Rest)
      → After s (retain_links parse print normalize print_links id links s)
  unfolding retain_links
  retain_links-After id links s =
      elim (Option-cases (load parse print normalize print_links id s)) [
        | inl e ↦ rw (e, retain_links) (unchanged s _)
        | inr ((current, at), e) ↦ rw (e, retain_links) (keep_links-After current _ s)
      ]

  sync_retained_links-After :
      (id : Text) (links : List Link) (s : Store Link Rest)
      → After s (sync_retained_links parse print normalize print_links id links s)
  unfolding sync_retained_links
  sync_retained_links-After id links s =
      elim (Option-cases (load parse print normalize print_links id s)) [
        | inl e ↦ rw (e, sync_retained_links) (unchanged s _)
        | inr ((current, at), e) ↦ rw (e, sync_retained_links) (keep_links-After current _ s)
      ]

  forget_snapshot-After :
      (file : Text) (s : Store Link Rest) (r : Result Text × Store Link Rest)
      → After s r
      → After s (forget_snapshot parse print normalize print_links file r)
  unfolding forget_snapshot
  forget_snapshot-After file s (threw message, t) h = record { effect = h.effect }
  forget_snapshot-After file s (gave name, t) h = record { effect = h.effect }

  restore_deleted-After :
      (context : Context Link Rest) (s : Store Link Rest)
      → After s (restore_deleted parse print normalize print_links context s)
  unfolding restore_deleted
  restore_deleted-After context s =
      let path = get_file_path context.session_id in
      let result =
        write parse print normalize print_links (get_or (lookup path s.deleted_snapshots) context)
          s in
      let restored = forget_snapshot parse print normalize print_links path result in
      both_branches (After s) (has_large_file parse print normalize print_links path s)
        (threw context_too_large, s)
        (if is_some (lookup path s.files) then (threw context_exists, s) else restored)
        (unchanged s _)
        (both_branches (After s) (is_some (lookup path s.files)) (threw context_exists, s) restored
          (unchanged s _) (forget_snapshot-After path s result (write-After _ s)))

  keep_snapshot-same :
      (id : Text) (capture : Bool) (s : Store Link Rest)
      → ((keep_snapshot parse print normalize print_links id capture s).files ≡ s.files)
        × ((keep_snapshot parse print normalize print_links id capture s).revisions ≡ s.revisions)
  unfolding keep_snapshot
  keep_snapshot-same id false s = (refl, refl)
  keep_snapshot-same id true s = elim (Option-cases (load parse print normalize print_links id s)) [
    | inl e ↦ rw (e, keep_snapshot) (refl, refl)
    | inr ((current, at), e) ↦ rw (e, keep_snapshot) (refl, refl)
  ]

  delete-After :
      (id : Text) (capture : Bool) (s : Store Link Rest)
      → After s (delete parse print normalize print_links id capture s)
  unfolding delete bump revision
  delete-After id capture s =
      let file = get_file_path id in
      let kept = keep_snapshot parse print normalize print_links id capture s in
      let (same_files, same_revisions) = keep_snapshot-same id capture s in
      let bumped : Store Link Rest = bump parse print normalize print_links id s in
      let removed_file : Store Link Rest =
        bump parse print normalize print_links id
          (record kept { files = remove file kept.files }) in
      both_branches (After s) (not (is_some (lookup file s.files))) (true, bumped)
        (if has_large_file parse print normalize print_links file s
          then (false, s)
          else (true, removed_file))
        (record { effect = cleared id })
        (both_branches (After s) (has_large_file parse print normalize print_links file s)
          (false, s) (true, removed_file) (unchanged s false)
          (record { effect = rw (same_files, same_revisions) (removed id) }))

  -- Each call, on whatever store, leaves the files and the revisions as they are, or writes one
  -- context that is not above the limit to the file of its session, or removes the file of one
  -- session, or finds no file to remove; in the last three the revision of that file is the next.
  pub after_call-IsEffect :
      (call : Call parse print normalize print_links) (s : Store Link Rest)
      → IsEffect s
          (after_call parse print normalize print_links call s).files
          (after_call parse print normalize print_links call s).revisions
  unfolding after_call discard_deleted_snapshot
  after_call-IsEffect (save_call context expected) s = (save-After context expected s).effect
  after_call-IsEffect (update_call id change) s = (update-After id change s).effect
  after_call-IsEffect (restore_call context) s = (restore_deleted-After context s).effect
  after_call-IsEffect (discard_call id) s = kept
  after_call-IsEffect (retain_call id links) s = (retain_links-After id links s).effect
  after_call-IsEffect (sync_call id links) s = (sync_retained_links-After id links s).effect
  after_call-IsEffect (delete_call id capture) s = (delete-After id capture s).effect
