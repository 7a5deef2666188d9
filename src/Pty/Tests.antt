-- ===== src/Pty/Tests.antt =====
-- Runs of the broker, and the theorems at concrete inputs.
use spawnea.Prelude.{
  ◌+◌, ◌≡◌, refl, true, false, some, List, [], ◌∷◌, ◌++◌, arith, get, set, delete, AllValues,
}
use spawnea.Prelude.Units.{units, byte_length}
use spawnea.Pty.Input.{has_user_input}
use spawnea.Pty.{
  default_options, Options, ManagedPty, ready, ack, close, on_data, register_pty, resize, on_exit,
  write, close_all, get_flow_state, ready_channel, arm_redraw_window, counts_as_activity,
  new_channel, resume_stream,
}
use spawnea.Pty.Events.{Event, registers, outputs, readies, closes, step, run}
use spawnea.Pty.Flow.{IsFlowing, run_empty-IsFlowing, total_bytes}
use spawnea.Pty.Sent.{sent, received, ends}
use spawnea.Pty.Delivery.{Delivers, run-Delivers, ack_all_resumes}
use spawnea.Pty.Redraw.{arm_each, series_output_counts}
use spawnea.Pty.Lifecycle.{open_count, closed_count, registered_count, run_streams}

-- Small marks, so that a few bytes fill the window.
abbrev small : Options
small = record default_options { high_water_mark_bytes = 4; low_water_mark_bytes = 1 }

broker : Unit {0}
unfolding run step register_pty on_data ready ack close on_exit write resize close_all
    get_flow_state sent received ends get set delete byte_length counts_as_activity has_user_input
    ready_channel arm_redraw_window
broker = tt

abbrev history : List Event
history =
    registers "pty-1" 7 0 100
    ∷ outputs "pty-1" (units "ab") 150 false
    ∷ outputs "pty-1" (units "cde") 160 false
    ∷ readies "pty-1"
    ∷ []

paused_test : get_flow_state "pty-1" (run small history []).0 ≡ some (5, true, true)
unfolding broker
paused_test = refl

run_empty-IsFlowing_example : AllValues (IsFlowing small) (run small history []).0
run_empty-IsFlowing_example = run_empty-IsFlowing small (omega arith) history

abbrev fresh : ManagedPty
unfolding arm_redraw_window new_channel
fresh = arm_redraw_window small 100 (new_channel small 7 0)

abbrev later_events : List Event
later_events =
    outputs "pty-1" (units "ab") 150 false
    ∷ registers "pty-2" 8 0 151
    ∷ readies "pty-1"
    ∷ outputs "pty-2" (units "no") 152 false
    ∷ outputs "pty-1" (units "c") 153 false
    ∷ []

run-Delivers_example :
    Delivers "pty-1" fresh
      (run small later_events (("pty-1", fresh) ∷ []))
      (units "ab" ∷ units "c" ∷ [])
unfolding broker fresh total_bytes
run-Delivers_example =
    run-Delivers small (omega arith) "pty-1" later_events (("pty-1", fresh) ∷ []) fresh
      (ground arith) refl (ground arith)

ack_all_resumes_example :
    (get_flow_state "pty-1"
        (ack small "pty-1" (some 5) (
          ("pty-1", record fresh { in_flight_bytes = 5; is_paused = true; is_ready = true })
          ∷ [])).0
      ≡ some (0, false, true))
    × ((ack small "pty-1" (some 5) (
          ("pty-1", record fresh { in_flight_bytes = 5; is_paused = true; is_ready = true })
          ∷ [])).1
        ≡ resume_stream 7 ∷ [])
unfolding fresh get
ack_all_resumes_example =
    ack_all_resumes small "pty-1"
      (("pty-1", record fresh { in_flight_bytes = 5; is_paused = true; is_ready = true }) ∷ [])
      (record fresh { in_flight_bytes = 5; is_paused = true; is_ready = true }) refl refl
      (omega arith)

series_output_counts_example :
    (counts_as_activity small 3100
      (arm_each small (1100 ∷ 2900 ∷ []) (arm_redraw_window small 100 (new_channel small 7 0)))).1
    ≡ true
unfolding arm_redraw_window new_channel
series_output_counts_example =
    series_output_counts small 100 3100 (1100 ∷ 2900 ∷ []) (new_channel small 7 0) refl
      (omega arith) (omega arith)

run_streams_example :
    open_count 7 (run small (history ++ closes "pty-1" ∷ []) []).0
      + closed_count 7 (run small (history ++ closes "pty-1" ∷ []) []).1
    ≡ 1
unfolding registered_count
run_streams_example = run_streams 7 small (history ++ closes "pty-1" ∷ [])
