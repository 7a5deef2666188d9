-- ===== src/ContextStore.antt =====
-- apps/desktop/src/main/session-context-store.ts: the context of each session as a file of a
-- directory. The files are texts by their names; parsing, printing and the normalization of links
-- are arguments. The operations on a file run one after the other, each as one step: what an
-- operation awaits, it awaits before its first access to the file or between two that no other
-- operation on the file can come between.
pub mod Effects
pub mod Updates
pub mod Bounds
pub mod Restore
mod Tests
use spawnea.Prelude.{
  ℕ, suc, ◌+◌, ◌*◌, Bool, true, false, ◌&&◌, ◌||◌, not, Option, none, some, List, [], ◌∷◌, ◌++◌,
  map, reverse, ltb, leb, ◌==◌, if◌then◌else◌, get_or, is_some,
}
use spawnea.Prelude.Units.{Text, units, text_eq, byte_length, starts_with}
use spawnea.Prelude.TextMaps.{TextMap, lookup, insert, remove}
use spawnea.Status.{SessionStatus}

abbrev pub max_context_bytes : ℕ
max_context_bytes = 8 * 1024 * 1024

abbrev pub context_too_large : Text
context_too_large = units "Session context exceeds the 8 MiB safety limit"

abbrev pub context_changed : Text
context_changed = units "Session context changed since it was read"

abbrev pub context_exists : Text
context_exists = units "Cannot restore over an existing session context"

-- `/[^a-zA-Z0-9_-]/g` replaced by `_`
sanitize_unit : ℕ → ℕ
sanitize_unit c =
    if (leb b'a' c && leb c b'z')
      || (leb b'A' c && leb c b'Z')
      || (leb b'0' c && leb c b'9')
      || c == b'_'
      || c == b'-'
    then c
    else b'_'

-- The name of a session's file in the directory.
pub get_file_path : Text → Text
unfolding sanitize_unit
get_file_path id = map sanitize_unit id ++ units ".json"

-- A promise that is rejected with an error, or what it gives.
pub data Result {ℓ} (A : Type ℓ) : Type ℓ where
  threw : Text → Result A
  gave : A → Result A

-- `name.endsWith(suffix)`, the suffix first
ends_with : Text → Text → Bool
ends_with suffix name = starts_with (reverse suffix) (reverse name)

module _ (Link Rest : Type 0) where
  -- `SessionContextFile`: what the store reads or changes of it, and the rest.
  pub record Context : Type 0 where
    pub session_id : Text
    pub session_name : Text
    pub status : SessionStatus
    pub updated_at : Text
    pub retained_links : Option (List Link)
    pub rest : Rest

  -- The files of the directory, and the maps of the store.
  pub record Store : Type 0 where
    pub files : TextMap Text
    pub revisions : TextMap ℕ
    pub deleted_snapshots : TextMap Context

module _ {Link Rest : Type 0} (parse : Text → Option (Context Link Rest))
    (print : Context Link Rest → Text) (normalize : List Link → List Link)
    (print_links : List Link → Text) where
  abbrev pub is_too_large : Text → Bool
  is_too_large content = ltb max_context_bytes (byte_length content)

  -- The file is there and above the limit.
  pub has_large_file : Text → Store Link Rest → Bool
  has_large_file path s = elim (lookup path s.files) [
    | none ↦ false
    | some content ↦ is_too_large content
  ]

  pub revision : Text → Store Link Rest → ℕ
  revision id s = get_or (lookup (get_file_path id) s.revisions) 0

  -- `readBoundedContext` and the parser; what is large or invalid gives none.
  pub read_content : Text → Option (Context Link Rest)
  read_content content = if is_too_large content then none else parse content

  pub read_file : Text → Store Link Rest → Option (Context Link Rest)
  unfolding read_content
  read_file path s = elim (lookup path s.files) [
    | none ↦ none
    | some content ↦ read_content content
  ]

  -- The context of a session with the revision that its symbol holds.
  pub load : Text → Store Link Rest → Option (Context Link Rest × ℕ)
  unfolding revision read_file
  load id s = elim (read_file (get_file_path id) s) [
    | none ↦ none
    | some context ↦ some (context, revision id s)
  ]

  pub normalized : Context Link Rest → Context Link Rest
  normalized context = record context {
    retained_links = elim context.retained_links [
      | none ↦ none
      | some links ↦ some (normalize links)
    ];
  }

  -- The file, or what would be written, is above the limit.
  pub is_above_limit : Context Link Rest → Store Link Rest → Bool
  unfolding has_large_file normalized
  is_above_limit context s =
      has_large_file (get_file_path context.session_id) s
      || is_too_large (print (normalized context))

  pub written : Context Link Rest → Store Link Rest → Store Link Rest
  unfolding revision normalized
  written context s =
      let path = get_file_path context.session_id in
      record s {
        files = insert path (print (normalized context)) s.files;
        revisions = insert path (revision context.session_id s + 1) s.revisions;
      }

  pub write : Context Link Rest → Store Link Rest → Result Text × Store Link Rest
  unfolding is_above_limit written
  write context s =
      if is_above_limit context s
      then (threw context_too_large, s)
      else (gave (get_file_path context.session_id), written context s)

  -- Whether a context that was read at a revision, or made anew, is no more the current one.
  pub has_changed : Text → Option ℕ → Store Link Rest → Bool
  unfolding revision
  has_changed id none s = not (revision id s == 0) || is_some (lookup (get_file_path id) s.files)
  has_changed id (some expected) s = not (expected == revision id s)

  pub save : Context Link Rest → Option ℕ → Store Link Rest → Result Text × Store Link Rest
  unfolding write has_changed has_large_file
  save context expected s =
      if has_large_file (get_file_path context.session_id) s
      then (threw context_too_large, s)
      else if has_changed context.session_id expected s
      then (threw context_changed, s)
      else write context s

  -- The result of a write, where the operation gives another value.
  pub with_value : {A : Type 0} → A → Result Text × Store Link Rest → Result A × Store Link Rest
  with_value a (threw message, s) = (threw message, s)
  with_value a (gave path, s) = (gave a, s)

  pub update :
      Text
      → (Context Link Rest → Context Link Rest)
      → Store Link Rest
      → Result Bool × Store Link Rest
  unfolding load write with_value
  update id change s = elim (load id s) [
    | none ↦ (gave false, s)
    | some (current, _) ↦ with_value true (write (change current) s)
  ]

  pub update_status : Text → SessionStatus → Text → Store Link Rest → Result Bool × Store Link Rest
  unfolding update
  update_status id status now s =
      update id (λ existing. record existing { status = status; updated_at = now }) s

  pub update_session_name : Text → Text → Text → Store Link Rest → Result Bool × Store Link Rest
  unfolding update
  update_session_name id name now s =
      update id (λ existing. record existing { session_name = name; updated_at = now }) s

  -- The snapshot goes once it is written.
  pub forget_snapshot : Text → Result Text × Store Link Rest → Result (Unit {0}) × Store Link Rest
  forget_snapshot path (threw message, s) = (threw message, s)
  forget_snapshot path (gave _, s) =
      (gave tt, record s { deleted_snapshots = remove path s.deleted_snapshots })

  pub restore_deleted : Context Link Rest → Store Link Rest → Result (Unit {0}) × Store Link Rest
  unfolding write forget_snapshot
  restore_deleted context s =
      let path = get_file_path context.session_id in
      if has_large_file path s
      then (threw context_too_large, s)
      else if is_some (lookup path s.files)
      then (threw context_exists, s)
      else forget_snapshot path (write (get_or (lookup path s.deleted_snapshots) context) s)

  pub discard_deleted_snapshot : Text → Store Link Rest → Store Link Rest
  discard_deleted_snapshot id s = record s {
    deleted_snapshots = remove (get_file_path id) s.deleted_snapshots;
  }

  -- Write the links when they are other ones than those of the context.
  pub keep_links :
      Context Link Rest → List Link → Store Link Rest → Result (Unit {0}) × Store Link Rest
  unfolding write with_value
  keep_links context links s =
      if text_eq (print_links (get_or context.retained_links [])) (print_links links)
      then (gave tt, s)
      else with_value tt (write (record context { retained_links = some links }) s)

  pub retain_links : Text → List Link → Store Link Rest → Result (Unit {0}) × Store Link Rest
  unfolding load keep_links
  retain_links id links s = elim (load id s) [
    | none ↦ (gave tt, s)
    | some (context, _) ↦
        keep_links context (normalize (get_or context.retained_links [] ++ links)) s
  ]

  -- The links are those that the admission has given.
  pub sync_retained_links : Text → List Link → Store Link Rest → Result (Unit {0}) × Store Link Rest
  unfolding load keep_links
  sync_retained_links id links s = elim (load id s) [
    | none ↦ (gave tt, s)
    | some (context, _) ↦ keep_links context (normalize links) s
  ]

  -- `this.revisions.set(filePath, this.revision(sessionId) + 1)`
  pub bump : Text → Store Link Rest → Store Link Rest
  unfolding revision
  bump id s = record s { revisions = insert (get_file_path id) (revision id s + 1) s.revisions }

  -- The snapshot that a deletion keeps, when it is asked to and the file can be read.
  pub keep_snapshot : Text → Bool → Store Link Rest → Store Link Rest
  unfolding load
  keep_snapshot id false s = s
  keep_snapshot id true s = elim (load id s) [
    | none ↦ s
    | some (context, _) ↦ record s {
      deleted_snapshots = insert (get_file_path id) context s.deleted_snapshots;
    }
  ]

  pub delete : Text → Bool → Store Link Rest → Bool × Store Link Rest
  unfolding has_large_file keep_snapshot bump
  delete id capture s =
      let path = get_file_path id in
      let kept = keep_snapshot id capture s in
      if not (is_some (lookup path s.files))
      then (true, bump id s)
      else if has_large_file path s
      then (false, s)
      else (true, bump id (record kept { files = remove path kept.files }))

  -- The contexts of the files that can be read, by the suffix of their names.
  contexts_of : TextMap Text → List (Context Link Rest)
  unfolding ends_with read_content
  contexts_of [] = []
  contexts_of ((name, content) ∷ files) =
      let rest = contexts_of files in
      if ends_with (units ".json") name
      then (elim (read_content content) [ none ↦ rest | some context ↦ context ∷ rest ])
      else rest

  pub list : Store Link Rest → List (Context Link Rest)
  unfolding contexts_of
  list s = contexts_of s.files

  -- The calls that change the store.
  pub data Call : Type 0 where
    save_call : Context Link Rest → Option ℕ → Call
    update_call : Text → (Context Link Rest → Context Link Rest) → Call
    restore_call : Context Link Rest → Call
    discard_call : Text → Call
    retain_call : Text → List Link → Call
    sync_call : Text → List Link → Call
    delete_call : Text → Bool → Call

  pub after_call : Call → Store Link Rest → Store Link Rest
  unfolding save update restore_deleted discard_deleted_snapshot retain_links sync_retained_links
      delete
  after_call (save_call context expected) s = (save context expected s).1
  after_call (update_call id change) s = (update id change s).1
  after_call (restore_call context) s = (restore_deleted context s).1
  after_call (discard_call id) s = discard_deleted_snapshot id s
  after_call (retain_call id links) s = (retain_links id links s).1
  after_call (sync_call id links) s = (sync_retained_links id links s).1
  after_call (delete_call id capture) s = (delete id capture s).1

  -- The queue of a file: one call after the other.
  pub after_calls : List Call → Store Link Rest → Store Link Rest
  unfolding after_call
  after_calls [] s = s
  after_calls (call ∷ calls) s = after_calls calls (after_call call s)
