-- ===== src/Prelude/Maps.antt =====
-- The JavaScript `Map` and `Set` keyed by strings, as lists in insertion order. Setting a key
-- that is there keeps its place.
use Prim.Native.String.{String}
use mathlib.Core.Path.{◌≡◌, refl, subst}
use mathlib.Core.Logic.{inl, inr}
use mathlib.Core.Bool.{Bool}
use mathlib.Core.Option.{Option, none, some}
use mathlib.Core.List.{List, [], ◌∷◌}
use native.Mathlib.Omega.{arith}
use text.Mathlib.Text.{◌==◌ as str_eq}
use text.Mathlib.TextEquality.{eq_iff as str_eq_iff}
use spawnea.Prelude.Tests.{Bool-cases, if◌then◌else◌, is_some}
use spawnea.Prelude.Lists.{All}

abbrev pub Dict {ℓ} : Type ℓ → Type ℓ
Dict V = List (String × V)

module _ {ℓ} {V : Type ℓ} where
  unfoldable pub get : String → Dict V → Option V
  get k [] = none
  get k ((j, v) ∷ m) = if str_eq j k then some v else get k m

  unfoldable pub set : String → V → Dict V → Dict V
  set k v [] = (k, v) ∷ []
  set k v ((j, w) ∷ m) = if str_eq j k then (j, v) ∷ m else (j, w) ∷ set k v m

  -- `map.delete(key)`; a map holds a key once, so deleting every entry of the key is the same.
  unfoldable pub delete : String → Dict V → Dict V
  delete k [] = []
  delete k ((j, v) ∷ m) = if str_eq j k then delete k m else (j, v) ∷ delete k m

  abbrev pub has : String → Dict V → Bool
  has k m = is_some (get k m)

  pub get-set :
      (k j : String) (v : V) (m : Dict V)
      → get j (set k v m) ≡ (if str_eq k j then some v else get j m)
  unfolding get set
  get-set k j v [] = refl
  get-set k j v ((i, w) ∷ m) =
      ground (arith, str_eq_iff k j, str_eq_iff i k, str_eq_iff i j, get-set k j v m)

  pub get-delete :
      (k j : String) (m : Dict V) → get j (delete k m) ≡ (if str_eq k j then none else get j m)
  unfolding get delete
  get-delete k j [] = ground arith
  get-delete k j ((i, w) ∷ m) =
      ground (arith, str_eq_iff k j, str_eq_iff i k, str_eq_iff i j, get-delete k j m)

module _ {ℓ κ} {V : Type ℓ} (P : V → Type κ) where
  -- What holds of every value.
  abbrev pub AllValues : Dict V → Type κ
  AllValues = All (λ (e : String × V). P e.1)

  pub AllValues-set : (k : String) (v : V) (m : Dict V) → P v → AllValues m → AllValues (set k v m)
  unfolding set
  AllValues-set k v [] p h = (p, tt)
  AllValues-set k v ((j, w) ∷ m) p (q, h) = ground (arith, AllValues-set k v m p h)

  pub AllValues-delete : (k : String) (m : Dict V) → AllValues m → AllValues (delete k m)
  unfolding delete
  AllValues-delete k [] h = tt
  AllValues-delete k ((j, w) ∷ m) (q, h) = ground (arith, AllValues-delete k m h)

  pub AllValues-get : (k : String) (m : Dict V) (v : V) → get k m ≡ some v → AllValues m → P v
  unfolding get
  AllValues-get k [] v e h = cc
  AllValues-get k ((j, w) ∷ m) v e (q, h) = elim (Bool-cases (str_eq j k)) [
    | inl hit ↦ let same : some w ≡ some v = rw hit at e in subst P (cc) q
    | inr miss ↦ AllValues-get k m v (rw miss at e) h
  ]

module _ {ℓ} {V : Type ℓ} where
  -- A key stands in a map once.
  abbrev pub IsUnique : Dict V → Type ℓ
  IsUnique [] = Unit
  IsUnique ((k, v) ∷ m) = (get k m ≡ none) × IsUnique m

  pub set-IsUnique : (k : String) (v : V) (m : Dict V) → IsUnique m → IsUnique (set k v m)
  unfolding set get
  set-IsUnique k v [] u = (refl, tt)
  set-IsUnique k v ((j, w) ∷ m) (absent, u) =
      ground (arith, set-IsUnique k v m u, get-set k j v m, str_eq_iff j k, str_eq_iff k j)

  pub delete-IsUnique : (k : String) (m : Dict V) → IsUnique m → IsUnique (delete k m)
  unfolding delete
  delete-IsUnique k [] u = tt
  delete-IsUnique k ((j, w) ∷ m) (absent, u) =
      ground (arith, delete-IsUnique k m u, get-delete k j m)

  pub delete_of_absent : (k : String) (m : Dict V) → get k m ≡ none → delete k m ≡ m
  unfolding delete get
  delete_of_absent k [] e = refl
  delete_of_absent k ((j, w) ∷ m) e = ground (arith, delete_of_absent k m)
