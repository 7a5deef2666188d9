-- ===== src/Pty/Flow.antt =====
-- Flow control: what is unacknowledged stays below the high-water mark while a stream runs, and a
-- paused stream always has more unacknowledged bytes than the low-water mark.
use spawnea.Prelude.{
  ℕ, ◌+◌, ◌<◌, ◌≡◌, String, Bool, true, false, Option, List, [], ◌∷◌, ◌++◌, arith, has, get,
  AllValues, AllValues-set, AllValues-delete, AllValues-get, Option-cases, Bool-cases, inl, inr,
  ◌&&◌,
}
use spawnea.Prelude.Units.{Text, byte_length}
use spawnea.Pty.{
  Options, ManagedPty, Broker, Effect, on_channel, ready_channel, ready, ack_channel, ack, close,
  arm_redraw_window, data_channel, on_data, register_pty, resize, on_exit, write, close_each,
  close_all, new_channel, write_channel, resize_channel,
}
use spawnea.Pty.Events.{
  Event, registers, outputs, exits, readies, acks, writes, resizes, closes, closes_all, step, run,
}

unfoldable pub total_bytes : List Text → ℕ
total_bytes [] = 0
total_bytes (text ∷ texts) = byte_length text + total_bytes texts

total_bytes-append : (xs ys : List Text) → total_bytes (xs ++ ys) ≡ total_bytes xs + total_bytes ys
unfolding total_bytes
total_bytes-append [] ys = omega arith
total_bytes-append (x ∷ xs) ys = omega (arith, total_bytes-append xs ys)

module _ (o : Options) where
  -- What flow control keeps true of a channel.
  pub record IsFlowing (m : ManagedPty) : Type 0 where
    pub counted : m.pending_bytes ≡ total_bytes m.pending_data
    pub flushed : m.is_ready ≡ true → m.pending_data ≡ []
    pub held : m.is_paused ≡ true → o.low_water_mark_bytes < m.in_flight_bytes + m.pending_bytes
    pub bounded :
        m.is_paused ≡ false → m.in_flight_bytes + m.pending_bytes < o.high_water_mark_bytes

  ready_channel-IsFlowing :
      (channel : String) (m : ManagedPty) → IsFlowing m → IsFlowing (ready_channel channel m).0
  unfolding ready_channel total_bytes
  ready_channel-IsFlowing channel m v = ground arith

  module _ (apart : o.low_water_mark_bytes < o.high_water_mark_bytes) where
    ack_channel-IsFlowing :
        (bytes : Option ℕ) (m : ManagedPty) → IsFlowing m → IsFlowing (ack_channel o bytes m).0
    unfolding ack_channel total_bytes
    ack_channel-IsFlowing bytes m v = ground (arith)

    data_channel-IsFlowing :
        (channel : String) (text : Text) (now : ℕ) (m : ManagedPty)
        → IsFlowing m
        → IsFlowing (data_channel o channel text now m).0
    unfolding data_channel total_bytes
    data_channel-IsFlowing channel text now m v =
        ground (arith, total_bytes-append m.pending_data (text ∷ []))

    arm_redraw_window-IsFlowing :
        (now : ℕ) (m : ManagedPty) → IsFlowing m → IsFlowing (arm_redraw_window o now m)
    unfolding arm_redraw_window
    arm_redraw_window-IsFlowing now m v = ground arith

    new_channel-IsFlowing : (stream web : ℕ) → IsFlowing (new_channel o stream web)
    unfolding new_channel total_bytes
    new_channel-IsFlowing stream web = ground arith

    write_channel-IsFlowing :
        (channel : String) (text : Text) (now : ℕ) (m : ManagedPty)
        → IsFlowing m
        → IsFlowing (write_channel channel text now m).0
    unfolding write_channel
    write_channel-IsFlowing channel text now m v = ground arith

-- What every method keeps of each channel, the broker keeps of all.
module _ {κ} (P : ManagedPty → Type κ) where
  pub on_channel-AllValues :
      (channel : String) (f : ManagedPty → ManagedPty × List Effect) (b : Broker)
      → ((m : ManagedPty) → P m → P (f m).0)
      → AllValues P b
      → AllValues P (on_channel channel f b).0
  unfolding on_channel
  on_channel-AllValues channel f b keeps h = elim (Option-cases (get channel b)) [
    | inl e ↦ rw (e, on_channel) h
    | inr (m, e) ↦
        rw (e, on_channel)
          (AllValues-set P channel (f m).0 b (keeps m (AllValues-get P channel b m e h)) h)
  ]

  pub close-AllValues :
      (channel : String) (b : Broker) → AllValues P b → AllValues P (close channel b).0
  unfolding close
  close-AllValues channel b h = elim (Option-cases (get channel b)) [
    | inl e ↦ rw (e, close) h
    | inr (m, e) ↦ rw (e, close) (AllValues-delete P channel b h)
  ]

  close_each-AllValues :
      (entries : List (String × ManagedPty)) (b : Broker)
      → AllValues P b
      → AllValues P (close_each entries b).0
  unfolding close_each
  close_each-AllValues [] b h = h
  close_each-AllValues ((channel, m) ∷ rest) b h =
      close_each-AllValues rest (close channel b).0 (close-AllValues channel b h)

  on_exit-AllValues :
      (channel : String) (exit_code : ℕ) (destroyed : Bool) (b : Broker)
      → AllValues P b
      → AllValues P (on_exit channel exit_code destroyed b).0
  unfolding on_exit
  on_exit-AllValues channel exit_code destroyed b h = elim (Option-cases (get channel b)) [
    | inl e ↦ rw (e, on_exit) h
    | inr (m, e) ↦ rw (e, on_exit) (close-AllValues channel b h)
  ]

  on_data-AllValues :
      (o : Options) (channel : String) (text : Text) (now : ℕ) (destroyed : Bool) (b : Broker)
      → ((m : ManagedPty) → P m → P (data_channel o channel text now m).0)
      → AllValues P b
      → AllValues P (on_data o channel text now destroyed b).0
  unfolding on_data
  on_data-AllValues o channel text now destroyed b keeps h =
      elim (Bool-cases (has channel b && destroyed)) [
        | inl e ↦ rw e (close-AllValues channel b h)
        | inr e ↦ rw e (on_channel-AllValues channel (data_channel o channel text now) b keeps h)
      ]

module _ (o : Options) (apart : o.low_water_mark_bytes < o.high_water_mark_bytes) where
  pub step-IsFlowing :
      (e : Event) (b : Broker) → AllValues (IsFlowing o) b → AllValues (IsFlowing o) (step o e b).0
  unfolding step
  step-IsFlowing (registers channel stream web now) b h =
      unfold register_pty in
      AllValues-set (IsFlowing o) channel _ _
        (arm_redraw_window-IsFlowing o apart now _ (new_channel-IsFlowing o apart stream web))
        (close-AllValues (IsFlowing o) channel b h)
  step-IsFlowing (outputs channel text now destroyed) b h =
      on_data-AllValues (IsFlowing o) o channel text now destroyed b
        (data_channel-IsFlowing o apart channel text now) h
  step-IsFlowing (exits channel exit_code destroyed) b h =
      on_exit-AllValues (IsFlowing o) channel exit_code destroyed b h
  step-IsFlowing (readies channel) b h =
      unfold ready in
      on_channel-AllValues (IsFlowing o) channel (ready_channel channel) b
        (ready_channel-IsFlowing o channel) h
  step-IsFlowing (acks channel bytes) b h =
      unfold ack in
      on_channel-AllValues (IsFlowing o) channel (ack_channel o bytes) b
        (ack_channel-IsFlowing o apart bytes) h
  step-IsFlowing (writes channel text now) b h =
      unfold write in
      on_channel-AllValues (IsFlowing o) channel (write_channel channel text now) b
        (write_channel-IsFlowing o apart channel text now) h
  step-IsFlowing (resizes channel cols rows now) b h =
      unfold resize in
      on_channel-AllValues (IsFlowing o) channel (resize_channel o cols rows now) b
        (unfold resize_channel in arm_redraw_window-IsFlowing o apart now) h
  step-IsFlowing (closes channel) b h = close-AllValues (IsFlowing o) channel b h
  step-IsFlowing closes_all b h = unfold close_all in close_each-AllValues (IsFlowing o) b b h

  run-IsFlowing :
      (es : List Event) (b : Broker)
      → AllValues (IsFlowing o) b
      → AllValues (IsFlowing o) (run o es b).0
  unfolding run
  run-IsFlowing [] b h = h
  run-IsFlowing (e ∷ es) b h = run-IsFlowing es (step o e b).0 (step-IsFlowing e b h)

  -- With the low-water mark below the high-water mark, after any history of calls of a new broker
  -- and on every open channel: a running stream has less than the
  -- high-water mark of unacknowledged bytes, a paused one more than the low-water mark, and
  -- nothing is pending once the renderer is ready.
  pub run_empty-IsFlowing : (es : List Event) → AllValues (IsFlowing o) (run o es []).0
  run_empty-IsFlowing es = run-IsFlowing es [] tt
