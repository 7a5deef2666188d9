-- ===== src/ContextStore/Tests.antt =====
-- A store whose contexts are printed as the names of their sessions.
use spawnea.Prelude.{ℕ, ◌+◌, ◌≡◌, ◌⊎◌, refl, true, false, Option, none, some, List, [], ◌∷◌, arith}
use spawnea.Prelude.Units.{Text, units, byte_length}
use spawnea.Prelude.TextMaps.{lookup, insert, remove}
use spawnea.Status.{working}
use spawnea.ContextStore.{
  Context, Store, Call, gave, get_file_path, load, read_file, read_content, revision, save,
  has_changed, has_large_file, write, written, is_above_limit, delete, restore_deleted, after_calls,
  delete_call, discard_call,
}
use spawnea.ContextStore.Updates.{save-load}
use spawnea.ContextStore.Bounds.{AreSmall, after_calls-AreSmall}
use spawnea.ContextStore.Restore.{IsBack, IsKept, restore_deleted-delete}

abbrev Plain : Type 0
Plain = Context ℕ (Unit {0})

abbrev named : Text → Plain
named id = record {
  session_id = id;
  session_name = [];
  status = working;
  updated_at = [];
  retained_links = none;
  rest = tt;
}

abbrev print : Plain → Text
print context = context.session_id

abbrev parse : Text → Option Plain
parse text = some (named text)

abbrev as_they_are : List ℕ → List ℕ
as_they_are links = links

abbrev store : Store ℕ (Unit {0})
store = record {
  files =
      (units "a_1.json", units "a/1")
      ∷ (units "b.json", units "b")
      ∷ (units "notes", units "x")
      ∷ [];
  revisions = (units "a_1.json", 4) ∷ [];
  deleted_snapshots = [];
}

path : get_file_path (units "a/1") ≡ units "a_1.json"
unfolding get_file_path
path = refl

loaded :
    load parse print as_they_are as_they_are (units "a/1") store ≡ some (named (units "a/1"), 4)
unfolding load read_file read_content revision lookup get_file_path byte_length
loaded = refl

abbrev calls : List (Call parse print as_they_are as_they_are)
calls = delete_call (units "b") false ∷ discard_call (units "a/1") ∷ []

saved :
    save parse print as_they_are as_they_are
      (named (units "a/1"))
      (some 4)
      (after_calls parse print as_they_are as_they_are calls store)
    ≡ (
      gave (units "a_1.json"),
      record store {
        files = (units "a_1.json", units "a/1") ∷ (units "notes", units "x") ∷ [];
        revisions = (units "a_1.json", 5) ∷ (units "b.json", 1) ∷ [];
      },
    )
unfolding save has_changed has_large_file write written is_above_limit revision lookup insert remove
    get_file_path byte_length after_calls
saved = refl

small : AreSmall store.files
unfolding byte_length
small = (omega arith, (omega arith, (omega arith, tt)))

save-load_example :
    lookup
      (get_file_path (units "a/1"))
      (after_calls parse print as_they_are as_they_are calls store).files
    ≡ lookup (get_file_path (units "a/1")) store.files
save-load_example =
    save-load parse print as_they_are as_they_are (units "a/1") store
      (record store {
        files = (units "a_1.json", units "a/1") ∷ (units "notes", units "x") ∷ [];
        revisions = (units "a_1.json", 5) ∷ (units "b.json", 1) ∷ [];
      })
      (named (units "a/1")) (named (units "a/1")) 4 calls (units "a_1.json") loaded refl saved

after_calls-AreSmall_example :
    AreSmall (after_calls parse print as_they_are as_they_are calls store).files
after_calls-AreSmall_example =
    after_calls-AreSmall parse print as_they_are as_they_are calls store small

abbrev deleted : Store ℕ (Unit {0})
deleted = (delete parse print as_they_are as_they_are (units "a/1") true store).1

restore_deleted-delete_example :
    let restored =
      restore_deleted parse print as_they_are as_they_are (named (units "a/1")) deleted in
    IsBack parse print as_they_are as_they_are (units "a/1") (named (units "a/1")) (4 + 2) restored
    ⊎ IsKept parse print as_they_are as_they_are (named (units "a/1")) deleted restored
restore_deleted-delete_example =
    restore_deleted-delete parse print as_they_are as_they_are store (named (units "a/1"))
      (named (units "a/1")) 4 loaded refl
