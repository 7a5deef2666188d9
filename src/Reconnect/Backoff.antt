-- ===== src/Reconnect/Backoff.antt =====
-- The delays of the backoff schedule.
use spawnea.Prelude.{
  ℕ, zero, suc, ◌-◌, ◌≤◌, ◌<◌, min, ◌≡◌, refl, some, List, [], ◌∷◌, arith, length, get_elem?,
}
use spawnea.Reconnect.{Options, get_backoff_delay}

-- Each entry is at least `low`, and no entry is less than one before it.
abbrev pub IsAscending : ℕ → List ℕ → Type 0
IsAscending low [] = Unit
IsAscending low (d ∷ ds) = (low ≤ d) × IsAscending d ds

get_elem?-ascending :
    (low i : ℕ) (ds : List ℕ)
    → IsAscending low ds
    → i < length ds
    → (d : ℕ) × (get_elem? ds i ≡ some d) × (low ≤ d)
get_elem?-ascending low i [] a h = absurd (omega arith)
get_elem?-ascending low zero (d ∷ ds) (p, a) h = (d, refl, p)
get_elem?-ascending low (suc i) (d ∷ ds) (p, a) h =
    let (e, found, le) = get_elem?-ascending d i ds a (omega arith) in (e, found, omega arith)

get_elem?-mono :
    (low i j : ℕ) (ds : List ℕ)
    → IsAscending low ds
    → i ≤ j
    → j < length ds
    → (d e : ℕ) × (get_elem? ds i ≡ some d) × (get_elem? ds j ≡ some e) × (d ≤ e)
get_elem?-mono low i j [] a le h = absurd (omega arith)
get_elem?-mono low zero zero (d ∷ ds) a le h = (d, d, refl, refl, omega arith)
get_elem?-mono low zero (suc j) (d ∷ ds) (p, a) le h =
    let (e, found, above) = get_elem?-ascending d j ds a (omega arith) in (d, e, refl, found, above)
get_elem?-mono low (suc i) zero (d ∷ ds) a le h = absurd (omega arith)
get_elem?-mono low (suc i) (suc j) (d ∷ ds) (p, a) le h =
    get_elem?-mono d i j ds a (omega arith) (omega arith)

-- With a schedule that is ascending and not empty every attempt has a delay, and a later attempt
-- never waits for less.
pub get_backoff_delay_mono :
    (o : Options) (i j : ℕ)
    → 0 < length o.backoff_schedule_ms
    → IsAscending 0 o.backoff_schedule_ms
    → i ≤ j
    → (d e : ℕ) × (get_backoff_delay o i ≡ some d) × (get_backoff_delay o j ≡ some e) × (d ≤ e)
unfolding get_backoff_delay
get_backoff_delay_mono o i j filled a le =
    get_elem?-mono 0 (min (i - 1) (length o.backoff_schedule_ms - 1))
      (min (j - 1) (length o.backoff_schedule_ms - 1)) o.backoff_schedule_ms a (omega arith)
      (omega arith)
