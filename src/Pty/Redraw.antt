-- ===== src/Pty/Redraw.antt =====
-- The redraw window: which output counts as activity of the agent.
use spawnea.Prelude.{
  ℕ, ◌+◌, ◌≤◌, ◌<◌, ◌≡◌, ◌⊎◌, inl, inr, String, true, none, some, List, [], ◌∷◌, arith,
}
use spawnea.Prelude.Units.{Text}
use spawnea.Pty.Input.{has_user_input}
use spawnea.Pty.{
  Options, ManagedPty, arm_redraw_window, counts_as_activity, write_channel, burst_gap_ms,
}

module _ (o : Options) where
  -- Attach and resize triggers at the given times.
  pub arm_each : List ℕ → ManagedPty → ManagedPty
  arm_each [] m = m
  arm_each (now ∷ times) m = arm_each times (arm_redraw_window o now m)

  -- Each trigger comes less than a window after the one before.
  abbrev pub IsSeries : ℕ → List ℕ → Type 0
  IsSeries last [] = Unit
  IsSeries last (now ∷ times) = (now < last + o.redraw_window_ms) × IsSeries now times

  arm_each-le :
      (times : List ℕ) (last : ℕ) (m : ManagedPty)
      → m.redraw_last_trigger_at ≡ some last
      → m.redraw_until ≤ m.redraw_series_start + o.redraw_max_ms
      → IsSeries last times
      → (arm_each times m).redraw_until ≤ m.redraw_series_start + o.redraw_max_ms
  unfolding arm_each arm_redraw_window
  arm_each-le [] last m e h s = h
  arm_each-le (now ∷ times) last m e h (near, s) =
      ground (arith, arm_each-le times now (arm_redraw_window o now m))

  -- Resizes cannot hide output for ever: after a series of triggers that began at `first`, however
  -- many follow, output from `first + redrawMaxMs` on counts as activity.
  pub series_output_counts :
      (first now : ℕ) (times : List ℕ) (m : ManagedPty)
      → (arm_redraw_window o first m).redraw_series_start ≡ first
      → IsSeries first times
      → first + o.redraw_max_ms ≤ now
      → (counts_as_activity o now (arm_each times (arm_redraw_window o first m))).1 ≡ true
  unfolding counts_as_activity arm_redraw_window
  series_output_counts first now times m e s late =
      ground (arith, arm_each-le times first (arm_redraw_window o first m))

  -- Chunks of output at the given times.
  pub chunks : List ℕ → ManagedPty → ManagedPty
  chunks [] m = m
  chunks (now ∷ times) m = chunks times (counts_as_activity o now m).0

  -- The times do not fall, and no gap between chunks is longer than the gap of a burst.
  abbrev pub IsBurst : ℕ → List ℕ → ℕ → Type 0
  IsBurst last [] now = (last ≤ now) × (now ≤ last + burst_gap_ms o)
  IsBurst last (next ∷ times) now =
      (last ≤ next) × (next ≤ last + burst_gap_ms o) × IsBurst next times now

  -- The window is over, or the burst is the one that began at `first`.
  abbrev InBurst : ℕ → ℕ → ManagedPty → Type 0
  InBurst first last m =
      (m.redraw_until ≤ last) ⊎ ((m.burst_start ≡ some first) × (m.last_chunk_at ≡ some last))

  InBurst-counts :
      (first last now : ℕ) (m : ManagedPty)
      → InBurst first last m
      → last ≤ now
      → now ≤ last + burst_gap_ms o
      → InBurst first now (counts_as_activity o now m).0
  unfolding counts_as_activity
  InBurst-counts first last now m (inl over) le near = ground arith
  InBurst-counts first last now m (inr (start, chunk)) le near = ground arith

  burst_counts :
      (first last now : ℕ) (times : List ℕ) (m : ManagedPty)
      → InBurst first last m
      → IsBurst last times now
      → first + o.redraw_sustained_ms ≤ now
      → (counts_as_activity o now (chunks times m)).1 ≡ true
  unfolding chunks
  burst_counts first last now [] m h (le, near) late = unfold counts_as_activity in ground arith
  burst_counts first last now (next ∷ times) m h (le, near, more) late =
      burst_counts first next now times (counts_as_activity o next m).0
        (InBurst-counts first last next m h le near) more late

  -- Work is not taken for a repaint: once output has gone on for `redrawSustainedMs` with no gap
  -- longer than that of a burst, it counts, also inside the window.
  pub sustained_output_counts :
      (first now : ℕ) (times : List ℕ) (m : ManagedPty)
      → m.burst_start ≡ none
      → IsBurst first times now
      → first + o.redraw_sustained_ms ≤ now
      → (counts_as_activity o now (chunks (first ∷ times) m)).1 ≡ true
  unfolding chunks
  sustained_output_counts first now times m fresh burst late =
      burst_counts first first now times (counts_as_activity o first m).0
        (unfold counts_as_activity in ground arith) burst late

  -- Output that answers what the user typed counts at once, also inside the window.
  pub answer_counts :
      (channel : String) (text : Text) (typed now : ℕ) (m : ManagedPty)
      → has_user_input text ≡ true
      → (counts_as_activity o now (write_channel channel text typed m).0).1 ≡ true
  unfolding counts_as_activity write_channel
  answer_counts channel text typed now m h = ground arith
