-- ===== src/Supervisor/Tests.antt =====
-- Runs of the supervisor, and the theorems at concrete inputs.
use spawnea.Prelude.{
  String, ◌+◌, ◌≡◌, ◌≢◌, refl, true, false, none, [], ◌∷◌, get, set, delete, arith, str_eq_iff,
}
use spawnea.Status.{working, needs_input}
use spawnea.Supervisor.{
  Supervisor, new_supervisor, check_state, status_changed, inspecting, scanning, check_session,
  answer, go_on, inspected, compare_status, capture_links, end_check, order_sessions, inspects,
  scans, stores, fails, checks, answers, stops, window_changes, notify_check_state, step, run,
}
use spawnea.Supervisor.Checks.{told, on_check, run-check_state}
use spawnea.Supervisor.Stops.{published, run-stops-published}
use spawnea.Supervisor.Rounds.{after_rounds, order_sessions-rotations}
use spawnea.Supervisor.Scanning.{run-stops-scanning}

-- A supervisor that has begun to check a session, and one that looks through its artifacts.
abbrev begun : Supervisor
begun = record (new_supervisor none) {
  in_flight_checks = ("s", record { generation = 0; stage = inspecting }) ∷ [];
}

abbrev looking : Supervisor
looking = record (new_supervisor none) {
  in_flight_checks =
      ("s", record { generation = 0; stage = scanning needs_input working false }) ∷ [];
}

-- A changed status is stored and published, and the check is over.
publishes :
    (run
      (window_changes true
        ∷ checks "s" none
        ∷ checks "s" none
        ∷ answers "s" (inspects needs_input working false false)
        ∷ answers "s" stores
        ∷ [])
      (new_supervisor none)).1
    ≡ check_state "s" true ∷ status_changed "s" needs_input ∷ check_state "s" false ∷ []
unfolding run step new_supervisor check_session answer go_on inspected compare_status capture_links
    end_check notify_check_state get set delete
publishes = refl

rotates :
    let s = record (new_supervisor none) { polling_cursor = 4 } in
    (order_sessions ("a" ∷ "b" ∷ "c" ∷ []) s).1 ≡ "b" ∷ "c" ∷ "a" ∷ []
unfolding order_sessions new_supervisor
rotates = refl

run-check_state_example :
    let (s, effects) =
      run
        (window_changes true ∷ checks "s" none ∷ answers "s" fails ∷ checks "s" none ∷ [])
        (new_supervisor none) in
    told "s" true effects ≡ told "s" false effects + on_check "s" s
run-check_state_example =
    run-check_state none "s" (checks "s" none ∷ answers "s" fails ∷ checks "s" none ∷ [])
      (tt, (tt, (tt, tt)))

apart : ◌≢◌ {A = String} "t" "s"
apart e = ground (arith, str_eq_iff "t" "s")

run-stops-published_example :
    published "s"
      (run
        (stops
          ∷ checks "t" none
          ∷ answers "s" (inspects needs_input working true true)
          ∷ answers "s" stores
          ∷ [])
        begun).1
    ≡ []
unfolding new_supervisor get
run-stops-published_example =
    run-stops-published "s" 0 begun
      (checks "t" none
        ∷ answers "s" (inspects needs_input working true true)
        ∷ answers "s" stores
        ∷ [])
      refl (omega arith) (apart, (tt, (tt, tt)))

run-stops-scanning_example :
    published "s" (run (stops ∷ answers "s" scans ∷ answers "s" stores ∷ []) looking).1
    ≡ status_changed "s" needs_input ∷ []
unfolding new_supervisor get
run-stops-scanning_example =
    run-stops-scanning "s" 0 needs_input working false looking refl (omega arith) refl

order_sessions-rotations_example :
    let s = record (new_supervisor none) { polling_cursor = 4 } in
    (order_sessions ("a" ∷ "b" ∷ "c" ∷ []) (after_rounds 2 ("a" ∷ "b" ∷ "c" ∷ []) s)).1
    ≡ "a" ∷ "b" ∷ "c" ∷ []
unfolding order_sessions new_supervisor
order_sessions-rotations_example =
    order_sessions-rotations 2 ("a" ∷ "b" ∷ "c" ∷ [])
      (record (new_supervisor none) { polling_cursor = 4 })
