-- ===== src/ContextStore/Restore.antt =====
-- A deletion that is taken back: the context is there again, or its snapshot is kept.
use spawnea.Prelude.{
  ℕ, ◌+◌, ◌≡◌, Bool, refl, sym, ap, ◌∙◌, subst, inl, inr, ◌⊎◌, true, false, Option, none, some,
  List, is_some, arith, Bool-cases, Option-cases,
}
use spawnea.Prelude.Units.{Text, text_eq_refl}
use spawnea.Prelude.TextMaps.{lookup, insert, remove, lookup-insert, lookup-remove}
use spawnea.ContextStore.Updates.{load-revision}
use spawnea.ContextStore.{
  Context, Store, Result, gave, threw, context_too_large, get_file_path, load, read_file,
  read_content, revision, normalized, is_above_limit, has_large_file, written, write,
  forget_snapshot, restore_deleted, bump, keep_snapshot, delete, is_too_large,
}

module _ {Link Rest : Type 0} (parse : Text → Option (Context Link Rest))
    (print : Context Link Rest → Text) (normalize : List Link → List Link)
    (print_links : List Link → Text) where
  -- The file of a context that can be loaded.
  record IsThere (id : Text) (s : Store Link Rest) : Type 0 where
    there : is_some (lookup (get_file_path id) s.files) ≡ true
    no_large : has_large_file parse print normalize print_links (get_file_path id) s ≡ false

  load-IsThere :
      (id : Text) (s : Store Link Rest) (found : Context Link Rest × ℕ)
      → load parse print normalize print_links id s ≡ some found
      → IsThere id s
  unfolding load read_file read_content has_large_file
  load-IsThere id s found e = elim (Option-cases (lookup (get_file_path id) s.files)) [
    | inl missing ↦ absurd (ground (arith, missing, e))
    | inr (content, at) ↦
        elim (Bool-cases (is_too_large parse print normalize print_links content)) [
          | inl large ↦ absurd (ground (arith, at, large, e))
          | inr small ↦ record {
            there = rw at refl;
            no_large = rw (at, small, has_large_file) refl;
          }
        ]
  ]

  -- What a deletion with a snapshot leaves.
  delete-load :
      (id : Text) (s : Store Link Rest) (read : Context Link Rest) (at : ℕ)
      → load parse print normalize print_links id s ≡ some (read, at)
      → delete parse print normalize print_links id true s ≡ (
        true,
        bump parse print normalize print_links id (record s {
          files = remove (get_file_path id) s.files;
          deleted_snapshots = insert (get_file_path id) read s.deleted_snapshots;
        }),
      )
  unfolding delete keep_snapshot
  delete-load id s read at e =
      let h = load-IsThere id s (read, at) e in
      rw (h.there, h.no_large, e, delete, keep_snapshot) refl

  -- The file that a context is written to is above the limit.
  abbrev pub is_large : Context Link Rest → Bool
  is_large context =
      is_too_large parse print normalize print_links
        (print (normalized parse print normalize print_links context))

  -- To write where no file stands.
  write-small :
      (context : Context Link Rest) (s : Store Link Rest)
      → lookup (get_file_path context.session_id) s.files ≡ none
      → is_large context ≡ false
      → write parse print normalize print_links context s ≡ (
        gave (get_file_path context.session_id),
        written parse print normalize print_links context s,
      )
  unfolding write is_above_limit has_large_file
  write-small context s free small = rw (free, small, write, is_above_limit, has_large_file) refl

  write-large :
      (context : Context Link Rest) (s : Store Link Rest)
      → lookup (get_file_path context.session_id) s.files ≡ none
      → is_large context ≡ true
      → write parse print normalize print_links context s ≡ (threw context_too_large, s)
  unfolding write is_above_limit has_large_file
  write-large context s free large = rw (free, large, write, is_above_limit, has_large_file) refl

  restore_deleted-free :
      (context snapshot : Context Link Rest) (s : Store Link Rest)
      → lookup (get_file_path context.session_id) s.files ≡ none
      → lookup (get_file_path context.session_id) s.deleted_snapshots ≡ some snapshot
      → restore_deleted parse print normalize print_links context s
        ≡ forget_snapshot parse print normalize print_links
            (get_file_path context.session_id)
            (write parse print normalize print_links snapshot s)
  unfolding restore_deleted has_large_file
  restore_deleted-free context snapshot s free kept =
      rw (free, kept, restore_deleted, has_large_file) refl

  -- A restoration within the limit: the file holds the context as it is printed, with the next
  -- revision, and the snapshot is gone.
  pub record IsBack (id : Text) (read : Context Link Rest) (at : ℕ)
      (r : Result (Unit {0}) × Store Link Rest) : Type 0 where
    pub small : is_large read ≡ false
    pub returned : r.0 ≡ gave tt
    pub there :
        lookup (get_file_path id) r.1.files
        ≡ some (print (normalized parse print normalize print_links read))
    pub next : revision parse print normalize print_links id r.1 ≡ at
    pub forgotten : lookup (get_file_path id) r.1.deleted_snapshots ≡ none

  -- One above it: an error, and the store of before.
  pub record IsKept (read : Context Link Rest) (s : Store Link Rest)
      (r : Result (Unit {0}) × Store Link Rest) : Type 0 where
    pub large : is_large read ≡ true
    pub failed : r ≡ (threw context_too_large, s)

  forget_snapshot-IsBack :
      (read : Context Link Rest) (s : Store Link Rest)
      → is_large read ≡ false
      → IsBack read.session_id read
          (revision parse print normalize print_links read.session_id s + 1)
          (forget_snapshot parse print normalize print_links (get_file_path read.session_id) (
            gave (get_file_path read.session_id),
            written parse print normalize print_links read s,
          ))
  unfolding forget_snapshot written revision
  forget_snapshot-IsBack read s small =
      let path = get_file_path read.session_id in
      record {
        small = small;
        returned = refl;
        there =
            rw
              (
                lookup-insert path path (print (normalized parse print normalize print_links read))
                    s.files,
                text_eq_refl path,
              )
              refl;
        next =
            rw
              (
                lookup-insert path path
                    (revision parse print normalize print_links read.session_id s + 1) s.revisions,
                text_eq_refl path,
                revision,
              )
              refl;
        forgotten = rw (lookup-remove path path s.deleted_snapshots, text_eq_refl path) refl;
      }

  -- Whether it is within the limit decides how the snapshot of a session without a file is restored.
  restore-snapshot :
      (given read : Context Link Rest) (s : Store Link Rest)
      → given.session_id ≡ read.session_id
      → lookup (get_file_path read.session_id) s.files ≡ none
      → lookup (get_file_path read.session_id) s.deleted_snapshots ≡ some read
      → IsBack read.session_id read
          (revision parse print normalize print_links read.session_id s + 1)
          (restore_deleted parse print normalize print_links given s)
        ⊎ IsKept read s (restore_deleted parse print normalize print_links given s)
  unfolding forget_snapshot
  restore-snapshot given read s same free kept =
      let path_of : get_file_path given.session_id ≡ get_file_path read.session_id =
        ap get_file_path same in
      let restored : restore_deleted parse print normalize print_links given s
          ≡ forget_snapshot parse print normalize print_links (get_file_path read.session_id)
              (write parse print normalize print_links read s) =
        restore_deleted-free given read s (ap (λ p. lookup p s.files) path_of ∙ free)
          (ap (λ p. lookup p s.deleted_snapshots) path_of ∙ kept)
        ∙ ap
            (λ p.
              forget_snapshot parse print normalize print_links p
                (write parse print normalize print_links read s))
            path_of in
      elim (Bool-cases (is_large read)) [
        | inl large ↦ inr (record {
          large = large;
          failed =
              restored
              ∙ ap
                  (forget_snapshot parse print normalize print_links
                    (get_file_path read.session_id))
                  (write-large read s free large);
        })
        | inr small ↦ inl (
            subst
              (IsBack read.session_id read
                (revision parse print normalize print_links read.session_id s + 1))
              (sym (
                restored
                ∙ ap
                    (forget_snapshot parse print normalize print_links
                      (get_file_path read.session_id))
                    (write-small read s free small)))
              (forget_snapshot-IsBack read s small))
      ]

  -- A context of a session that can be loaded, and names this session, is deleted with a snapshot
  -- and then restored, whatever context of the session the caller gives. When the context, with its
  -- links normalized and printed, is within the limit, it is in the session's file again, two
  -- revisions later, and the snapshot is gone; otherwise the restoration fails and changes nothing.
  pub restore_deleted-delete :
      (s : Store Link Rest) (read given : Context Link Rest) (at : ℕ)
      → load parse print normalize print_links read.session_id s ≡ some (read, at)
      → given.session_id ≡ read.session_id
      → let deleted = (delete parse print normalize print_links read.session_id true s).1 in
        IsBack read.session_id read
          (at + 2)
          (restore_deleted parse print normalize print_links given deleted)
        ⊎ IsKept read deleted (restore_deleted parse print normalize print_links given deleted)
  unfolding bump revision
  restore_deleted-delete s read given at e named =
      let id = read.session_id in
      let path = get_file_path id in
      let t : Store Link Rest = bump parse print normalize print_links id (record s {
        files = remove path s.files;
        deleted_snapshots = insert path read s.deleted_snapshots;
      }) in
      let free : lookup path t.files ≡ none =
        rw (lookup-remove path path s.files, text_eq_refl path) refl in
      let kept : lookup path t.deleted_snapshots ≡ some read =
        rw (lookup-insert path path read s.deleted_snapshots, text_eq_refl path) refl in
      let next : revision parse print normalize print_links id t
          ≡ revision parse print normalize print_links id s + 1 =
        rw
          (
            lookup-insert path path (revision parse print normalize print_links id s + 1)
                s.revisions,
            text_eq_refl path,
            revision,
          )
          refl in
      let later : revision parse print normalize print_links id t + 1 ≡ at + 2 =
        omega (arith, next, load-revision parse print normalize print_links id s read at e) in
      rw (delete-load id s read at e) (
        subst
          (λ n.
            IsBack id read n (restore_deleted parse print normalize print_links given t)
            ⊎ IsKept read t (restore_deleted parse print normalize print_links given t))
          later (restore-snapshot given read t named free kept))
