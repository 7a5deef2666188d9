-- ===== src/ContextStore/Bounds.antt =====
-- No file grows above the limit.
use spawnea.Prelude.{
  ℕ, ◌≡◌, ◌≤◌, inl, inr, Option, Bool, false, ◌||◌, List, [], ◌∷◌, All, ltb, arith, Bool-cases,
}
use spawnea.Prelude.Units.{Text, text_eq, byte_length}
use spawnea.Prelude.TextMaps.{TextMap, insert, remove}
use spawnea.ContextStore.Effects.{IsEffect, kept, wrote, removed, cleared, after_call-IsEffect}
use spawnea.ContextStore.{
  Context, Store, Call, max_context_bytes, get_file_path, normalized, is_above_limit, written,
  after_call, after_calls,
}

-- Each file has at most 8 MiB.
abbrev pub AreSmall : TextMap Text → Type 0
AreSmall files = All (λ (name, content). byte_length content ≤ max_context_bytes) files

insert-AreSmall :
    (name content : Text) (files : TextMap Text)
    → byte_length content ≤ max_context_bytes
    → AreSmall files
    → AreSmall (insert name content files)
unfolding insert
insert-AreSmall name content [] k h = (k, h)
insert-AreSmall name content ((other, old) ∷ files) k (h, hs) =
    elim (Bool-cases (text_eq other name)) [
      | inl same ↦ rw same (k, hs)
      | inr apart ↦ rw apart (h, insert-AreSmall name content files k hs)
    ]

small_content :
    (size : ℕ) (other : Bool)
    → (other || ltb max_context_bytes size) ≡ false
    → size ≤ max_context_bytes
small_content size other h = ground (arith, h)

remove-AreSmall :
    (name : Text) (files : TextMap Text) → AreSmall files → AreSmall (remove name files)
unfolding remove
remove-AreSmall name [] h = h
remove-AreSmall name ((other, old) ∷ files) (h, hs) = elim (Bool-cases (text_eq other name)) [
  | inl same ↦ rw same (remove-AreSmall name files hs)
  | inr apart ↦ rw apart (h, remove-AreSmall name files hs)
]

module _ {Link Rest : Type 0} (parse : Text → Option (Context Link Rest))
    (print : Context Link Rest → Text) (normalize : List Link → List Link)
    (print_links : List Link → Text) where
  effect-AreSmall :
      (s : Store Link Rest) (files : TextMap Text) (revisions : TextMap ℕ)
      → IsEffect parse print normalize print_links s files revisions
      → AreSmall s.files
      → AreSmall files
  unfolding written is_above_limit
  effect-AreSmall s _ _ kept h = h
  effect-AreSmall s _ _ (wrote context small) h =
      insert-AreSmall (get_file_path context.session_id) _ s.files
        (small_content (byte_length (print (normalized parse print normalize print_links context)))
          _ small)
        h
  effect-AreSmall s _ _ (removed id) h = remove-AreSmall (get_file_path id) s.files h
  effect-AreSmall s _ _ (cleared id) h = h

  -- When no file of the directory is above the limit, none is after any calls.
  pub after_calls-AreSmall :
      (calls : List (Call parse print normalize print_links)) (s : Store Link Rest)
      → AreSmall s.files
      → AreSmall (after_calls parse print normalize print_links calls s).files
  unfolding after_calls
  after_calls-AreSmall [] s h = h
  after_calls-AreSmall (call ∷ calls) s h =
      after_calls-AreSmall calls (after_call parse print normalize print_links call s)
        (effect-AreSmall s _ _ (after_call-IsEffect parse print normalize print_links call s) h)
