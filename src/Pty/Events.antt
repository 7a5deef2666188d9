-- ===== src/Pty/Events.antt =====
-- The calls and callbacks that reach the broker, as events, and runs of them.
use spawnea.Prelude.{ℕ, String, Bool, Option, List, [], ◌∷◌, ◌++◌}
use spawnea.Prelude.Units.{Text}
use spawnea.Pty.{
  Options, Broker, Effect, ready, ack, close, on_data, register_pty, resize, on_exit, write,
  close_all,
}

pub data Event : Type 0 where
  registers : String → (stream web now : ℕ) → Event
  outputs : String → Text → (now : ℕ) → (destroyed : Bool) → Event
  exits : String → (exit_code : ℕ) → (destroyed : Bool) → Event
  readies : String → Event
  acks : String → Option ℕ → Event
  writes : String → Text → (now : ℕ) → Event
  resizes : String → (cols rows now : ℕ) → Event
  -- `close`, also as the listener of the window's `destroyed`
  closes : String → Event
  closes_all : Event

module _ (o : Options) where
  unfoldable pub step : Event → Broker → Broker × List Effect
  step (registers channel stream web now) b = register_pty o channel stream web now b
  step (outputs channel text now destroyed) b = on_data o channel text now destroyed b
  step (exits channel exit_code destroyed) b = on_exit channel exit_code destroyed b
  step (readies channel) b = ready channel b
  step (acks channel bytes) b = ack o channel bytes b
  step (writes channel text now) b =
      let (b', effects, _) = write channel text now b in (b', effects)
  step (resizes channel cols rows now) b = resize o channel cols rows now b
  step (closes channel) b = close channel b
  step closes_all b = close_all b

  unfoldable pub run : List Event → Broker → Broker × List Effect
  run [] b = (b, [])
  run (e ∷ es) b =
      let (b', effects) = step e b in let (b'', more) = run es b' in (b'', effects ++ more)
