-- ===== src/Pty.antt =====
-- apps/desktop/src/main/pty-broker.ts: the broker between PTY streams and renderer windows.
-- Streams, windows and the clock are outside: a stream or a window is a number, the time is an
-- argument, `isDestroyed` is an argument, and what a call does to them is in a list of effects.
pub mod Input
pub mod Events
pub mod Flow
pub mod Sent
pub mod Delivery
pub mod Redraw
pub mod Lifecycle
mod Tests
use spawnea.Prelude.{
  ℕ, suc, ◌+◌, ◌-◌, min, String, Bool, true, false, ◌&&◌, ◌||◌, not, Option, none, some, List, [],
  ◌∷◌, ◌++◌, map, ltb, leb, ◌==◌, if◌then◌else◌, length, has, Dict, get, set, delete, get_or,
}
use spawnea.Prelude.Units.{Text, byte_length}
use spawnea.Pty.Input.{has_user_input}

pub record Options : Type 0 where
  pub high_water_mark_bytes : ℕ
  pub low_water_mark_bytes : ℕ
  pub redraw_window_ms : ℕ
  pub redraw_sustained_ms : ℕ
  pub redraw_max_ms : ℕ

abbrev pub default_options : Options
default_options = record {
  high_water_mark_bytes = 65536;
  low_water_mark_bytes = 16384;
  redraw_window_ms = 2000;
  redraw_sustained_ms = 400;
  redraw_max_ms = 3000;
}

pub record PtyChannelMetrics : Type 0 where
  pub last_output_at : Option ℕ
  pub last_input_at : Option ℕ
  pub recent_output_bytes : ℕ

pub record ManagedPty : Type 0 where
  pub stream : ℕ
  pub web_contents : ℕ
  pub metrics : PtyChannelMetrics
  pub in_flight_bytes : ℕ
  pub is_paused : Bool
  pub is_ready : Bool
  pub pending_data : List Text
  pub pending_bytes : ℕ
  pub redraw_until : ℕ
  pub redraw_series_start : ℕ
  -- `none` is the `Number.NEGATIVE_INFINITY` of a new channel
  pub redraw_last_trigger_at : Option ℕ
  pub burst_start : Option ℕ
  pub last_chunk_at : Option ℕ

abbrev pub Broker : Type 0
Broker = Dict ManagedPty

-- What a method does to the streams, the windows and the activity listeners.
pub data Effect : Type 0 where
  send_data : ℕ → String → Text → Effect
  send_exit : ℕ → String → ℕ → Effect
  output_activity input_activity : String → ℕ → Effect
  pause_stream resume_stream detach_stream close_stream : ℕ → Effect
  write_stream : ℕ → Text → Effect
  resize_stream : ℕ → ℕ → ℕ → Effect

pub get_metrics : String → Broker → Option PtyChannelMetrics
get_metrics channel b = elim (get channel b) [ none ↦ none | some m ↦ some m.metrics ]

pub get_flow_state : String → Broker → Option (ℕ × Bool × Bool)
get_flow_state channel b = elim (get channel b) [
  | none ↦ none
  | some m ↦ some (m.in_flight_bytes, m.is_paused, m.is_ready)
]

-- A method on one channel; on an unknown channel it does nothing.
pub on_channel : String → (ManagedPty → ManagedPty × List Effect) → Broker → Broker × List Effect
on_channel channel f b = elim (get channel b) [
  | none ↦ (b, [])
  | some m ↦ (set channel (f m).0 b, (f m).1)
]

pub send_pending : ℕ → String → List Text → List Effect
send_pending web channel [] = []
send_pending web channel (text ∷ texts) =
    send_data web channel text ∷ send_pending web channel texts

ready_channel : String → ManagedPty → ManagedPty × List Effect
unfolding send_pending
ready_channel channel m = (
  record m {
    is_ready = true;
    in_flight_bytes = m.in_flight_bytes + m.pending_bytes;
    pending_data = [];
    pending_bytes = 0;
  },
  send_pending m.web_contents channel m.pending_data,
)

pub ready : String → Broker → Broker × List Effect
unfolding on_channel
ready channel b = on_channel channel (ready_channel channel) b

-- `Number.MAX_SAFE_INTEGER`
abbrev pub max_safe_integer : ℕ
max_safe_integer = 9007199254740991

-- What counts of the reported number: `none` stands for every value that is no integer ≥ 0.
valid_bytes : Option ℕ → ℕ
valid_bytes none = 0
valid_bytes (some n) = if leb n max_safe_integer && ltb 0 n then n else 0

module _ (o : Options) where
  resume_when_low : ManagedPty → ManagedPty × List Effect
  resume_when_low m =
      if m.is_paused && leb m.in_flight_bytes o.low_water_mark_bytes
      then (record m { is_paused = false }, resume_stream m.stream ∷ [])
      else (m, [])

  ack_channel : Option ℕ → ManagedPty → ManagedPty × List Effect
  unfolding valid_bytes resume_when_low
  ack_channel bytes m =
      if not m.is_ready
      then (m, [])
      else resume_when_low (record m { in_flight_bytes = m.in_flight_bytes - valid_bytes bytes })

  pub ack : String → Option ℕ → Broker → Broker × List Effect
  unfolding on_channel
  ack channel bytes b = on_channel channel (ack_channel bytes) b

  -- The series goes on if the last trigger is less than a window ago.
  starts_series : ℕ → Option ℕ → Bool
  starts_series now none = true
  starts_series now (some last) = leb (last + o.redraw_window_ms) now

  unfoldable pub arm_redraw_window : ℕ → ManagedPty → ManagedPty
  unfolding starts_series
  arm_redraw_window now m =
      let start =
        if starts_series now m.redraw_last_trigger_at then now else m.redraw_series_start in
      record m {
        redraw_series_start = start;
        redraw_last_trigger_at = some now;
        redraw_until = min (now + o.redraw_window_ms) (start + o.redraw_max_ms);
        burst_start = none;
        last_chunk_at = none;
      }

  abbrev pub burst_gap_ms : ℕ
  burst_gap_ms = 250

  -- The start of the burst that a chunk at `now` belongs to.
  burst_of : ℕ → Option ℕ → Option ℕ → ℕ
  burst_of now (some start) (some last) = if ltb (last + burst_gap_ms) now then now else start
  burst_of now _ _ = now

  unfoldable pub counts_as_activity : ℕ → ManagedPty → ManagedPty × Bool
  unfolding burst_of
  counts_as_activity now m =
      let start = burst_of now m.burst_start m.last_chunk_at in
      if leb m.redraw_until now then (m, true) else (
        record m { burst_start = some start; last_chunk_at = some now },
        leb (start + o.redraw_sustained_ms) now,
      )

  count_output : ℕ → ℕ → ManagedPty → ManagedPty
  unfolding counts_as_activity
  count_output now bytes m =
      let (m', counts) = counts_as_activity now m in
      if counts
      then record m' {
        metrics = record (m'.metrics) {
          last_output_at = some now;
          recent_output_bytes = m'.metrics.recent_output_bytes + bytes;
        };
      }
      else m'

  forward : String → Text → ManagedPty → ManagedPty × List Effect
  forward channel text m =
      if m.is_ready
      then (
        record m { in_flight_bytes = m.in_flight_bytes + byte_length text },
        send_data m.web_contents channel text ∷ [],
      )
      else (
        record m {
          pending_data = m.pending_data ++ text ∷ [];
          pending_bytes = m.pending_bytes + byte_length text;
        },
        [],
      )

  pause_when_high : ManagedPty → ManagedPty × List Effect
  pause_when_high m =
      if not m.is_paused && leb o.high_water_mark_bytes (m.in_flight_bytes + m.pending_bytes)
      then (record m { is_paused = true }, pause_stream m.stream ∷ [])
      else (m, [])

  data_channel : String → Text → ℕ → ManagedPty → ManagedPty × List Effect
  unfolding count_output forward pause_when_high
  data_channel channel text now m =
      let (forwarded, sent) = forward channel text (count_output now (byte_length text) m) in
      let (held, paused) = pause_when_high forwarded in
      (held, output_activity channel (byte_length text) ∷ (sent ++ paused))

pub close : String → Broker → Broker × List Effect
close channel b = elim (get channel b) [
  | none ↦ (b, [])
  | some m ↦ (delete channel b, detach_stream m.stream ∷ close_stream m.stream ∷ [])
]

module _ (o : Options) where
  -- The `onData` listener, with `webContents.isDestroyed()` as an argument.
  pub on_data : String → Text → ℕ → Bool → Broker → Broker × List Effect
  unfolding on_channel data_channel close
  on_data channel text now destroyed b =
      if has channel b && destroyed
      then ((close channel b).0, output_activity channel (byte_length text) ∷ (close channel b).1)
      else on_channel channel (data_channel o channel text now) b

  new_channel : ℕ → ℕ → ManagedPty
  new_channel stream web = record {
    stream = stream;
    web_contents = web;
    metrics = record { last_output_at = none; last_input_at = none; recent_output_bytes = 0 };
    in_flight_bytes = 0;
    is_paused = false;
    is_ready = false;
    pending_data = [];
    pending_bytes = 0;
    redraw_until = 0;
    redraw_series_start = 0;
    redraw_last_trigger_at = none;
    burst_start = none;
    last_chunk_at = none;
  }

  pub register_pty : String → ℕ → ℕ → ℕ → Broker → Broker × List Effect
  unfolding close new_channel
  register_pty channel stream web now b = (
    set channel (arm_redraw_window o now (new_channel stream web)) (close channel b).0,
    (close channel b).1,
  )

  resize_channel : ℕ → ℕ → ℕ → ManagedPty → ManagedPty × List Effect
  resize_channel cols rows now m =
      (arm_redraw_window o now m, resize_stream m.stream cols rows ∷ [])

  pub resize : String → ℕ → ℕ → ℕ → Broker → Broker × List Effect
  unfolding on_channel resize_channel
  resize channel cols rows now b = on_channel channel (resize_channel cols rows now) b

-- The `onExit` listener.
pub on_exit : String → ℕ → Bool → Broker → Broker × List Effect
unfolding close
on_exit channel exit_code destroyed b = elim (get channel b) [
  | none ↦ (b, [])
  | some m ↦ (
    (close channel b).0,
    (if destroyed then [] else send_exit m.web_contents channel exit_code ∷ [])
        ++ (close channel b).1,
  )
]

note_input : Text → ℕ → ManagedPty → ManagedPty
note_input text now m =
    let touched = record (m.metrics) { last_input_at = some now } in
    if has_user_input text
    then record m { metrics = touched; redraw_until = 0; burst_start = none; last_chunk_at = none }
    else record m { metrics = touched }

pub write_channel : String → Text → ℕ → ManagedPty → ManagedPty × List Effect
unfolding note_input
write_channel channel text now m =
    (note_input text now m, input_activity channel (length text) ∷ write_stream m.stream text ∷ [])

-- The answer says whether the channel is known.
pub write : String → Text → ℕ → Broker → Broker × List Effect × Bool
unfolding on_channel write_channel
write channel text now b =
    let (b', effects) = on_channel channel (write_channel channel text now) b in
    (b', effects, has channel b)

close_each : List (String × ManagedPty) → Broker → Broker × List Effect
unfolding close
close_each [] b = (b, [])
close_each ((channel, m) ∷ rest) b =
    let (b', effects) = close channel b in
    let (b'', more) = close_each rest b' in (b'', effects ++ more)

-- `closeAll` walks over a copy of the keys.
pub close_all : Broker → Broker × List Effect
unfolding close_each
close_all b = close_each b b
