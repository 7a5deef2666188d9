-- ===== src/Reconnect/Tests.antt =====
-- Runs of the supervisor, and the theorems at concrete inputs.
use spawnea.Prelude.{
  ℕ, ◌≡◌, ◌≤◌, refl, true, false, none, some, List, [], ◌∷◌, arith, get, set, delete,
}
use spawnea.Prelude.Units.{units, includes}
use spawnea.Reconnect.{
  connected, disconnected, reconnecting, Options, make_options, get_backoff_delay, Failure,
  succeeds, returns_false, throws, acting, finishing, start, Event, drops, fires, resumes, disposes,
  step, run, is_non_retryable, text_failure, get_state, handle_connection_drop, timer_fires,
  resumes_at, dispose,
}
use spawnea.Reconnect.Backoff.{get_backoff_delay_mono}
use spawnea.Reconnect.Attempts.{HasBounds, run-start-HasBounds}
use spawnea.Reconnect.Exclusion.{attempts_of, mark, run-start-exclusive}
use spawnea.Reconnect.Exhaustion.{Host, IsIdle, timer_of, failing_rounds, retries_exhausted}
use spawnea.Reconnect.Stuck.{drop_while_finishing_sticks, dispose_then_failure_schedules}

defaults :
    make_options none none
    ≡ record { backoff_schedule_ms = 1000 ∷ 2000 ∷ 5000 ∷ 10000 ∷ 30000 ∷ []; max_attempts = 5 }
unfolding make_options
defaults = refl

supervisor : Unit {0}
unfolding run step handle_connection_drop timer_fires resumes_at dispose get_state is_non_retryable
    includes get set delete get_backoff_delay make_options
supervisor = tt

abbrev two_attempts : Options
two_attempts = record { backoff_schedule_ms = 1000 ∷ 2000 ∷ []; max_attempts = 2 }

abbrev refused : Failure
refused = record {
  is_secret_resolution = false;
  is_error = true;
  message = units "ECONNREFUSED";
  shown = units "Error: ECONNREFUSED";
}

-- A failure of the credentials is not retried.
authentication_is_final :
    is_non_retryable (text_failure (units "SSH authentication failed for user")) ≡ true
unfolding supervisor
authentication_is_final = refl

abbrev begun : List Event
begun = drops "a" (units "closed") ∷ fires "a" ∷ []

abbrev finished : List Event
finished = drops "a" (units "closed") ∷ fires "a" ∷ resumes 0 succeeds 9 ∷ []

get_backoff_delay_mono_example :
    (d e : ℕ) × (get_backoff_delay two_attempts 1 ≡ some d)
    × (get_backoff_delay two_attempts 7 ≡ some e)
    × (d ≤ e)
get_backoff_delay_mono_example =
    get_backoff_delay_mono two_attempts 1 7 (omega arith) (omega arith) (omega arith)

run-start-HasBounds_example : HasBounds two_attempts (run two_attempts begun start)
run-start-HasBounds_example = run-start-HasBounds two_attempts (omega arith) begun

run-start-exclusive_example :
    attempts_of "a" (run two_attempts begun start).tasks ≡ mark "a" (run two_attempts begun start)
run-start-exclusive_example =
    run-start-exclusive "a" two_attempts begun ((λ e. cc), ((λ e. cc), tt))

start-IsIdle : IsIdle two_attempts "a" connected 0 start
unfolding supervisor
start-IsIdle = record {
  suspended = refl;
  marked = refl;
  timed = refl;
  has_status = refl;
  has_attempt = refl;
}

retries_exhausted_example : IsIdle two_attempts "a" disconnected 2 (
    run two_attempts
      (drops "a" (units "closed")
        ∷ failing_rounds two_attempts "a" ((returns_false, 5) ∷ (throws refused, 9) ∷ []))
      start)
unfolding supervisor
retries_exhausted_example =
    retries_exhausted two_attempts "a" (units "closed")
      ((returns_false, 5) ∷ (throws refused, 9) ∷ []) connected 0 start (omega arith) refl refl
      (tt, (refl, tt)) start-IsIdle

finished-Host :
    Host two_attempts "a"
      (finishing "a" ∷ [])
      (some tt)
      none
      connected
      0
      (run two_attempts finished start)
unfolding supervisor
finished-Host = record {
  suspended = refl;
  marked = refl;
  timed = refl;
  has_status = refl;
  has_attempt = refl;
}

drop_while_finishing_sticks_example : Host two_attempts "a" [] none none reconnecting 1 (
    run two_attempts
      (drops "a" (units "reset") ∷ fires "a" ∷ resumes 0 succeeds 10 ∷ [])
      (run two_attempts finished start))
unfolding supervisor
drop_while_finishing_sticks_example =
    drop_while_finishing_sticks two_attempts "a" (units "reset") 10 connected 0 refl
      (run two_attempts finished start) finished-Host

begun-Host :
    Host two_attempts "a"
      (acting "a" 1 ∷ [])
      (some tt)
      none
      reconnecting
      1
      (run two_attempts begun start)
unfolding supervisor
begun-Host = record {
  suspended = refl;
  marked = refl;
  timed = refl;
  has_status = refl;
  has_attempt = refl;
}

dispose_then_failure_schedules_example :
    get "a"
      (run two_attempts
        (disposes ∷ resumes 0 (throws refused) 7 ∷ resumes 0 succeeds 7 ∷ [])
        (run two_attempts begun start)).retry_timers
    ≡ some (timer_of two_attempts "a" 2)
unfolding supervisor
dispose_then_failure_schedules_example =
    dispose_then_failure_schedules two_attempts "a" 1 7 refused (run two_attempts begun start) refl
      (omega arith) begun-Host
