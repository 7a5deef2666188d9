-- ===== src/Supervisor/Checks.antt =====
-- One check of a session at a time, and that each one that begins ends once.
use spawnea.Prelude.{
  ℕ, ◌+◌, ◌≡◌, refl, ◌∙◌, All, inl, inr, ap, Bool, true, false, ◌&&◌, ◌||◌, not, Option, none, List,
  [], ◌∷◌, ◌++◌, String, ◌==◌, if◌then◌else◌, get, set, delete, has, is_some, get_or, get-set,
  get-delete, str_eq, str_eq_iff, arith, Option-cases, Bool-cases, both_branches,
}
use spawnea.Status.{SessionStatus}
use spawnea.Supervisor.{
  Stage, inspecting, scanning, storing, capturing, retaining, Supervisor, new_supervisor, Effect,
  check_state, status_changed, retain_links, status_eq, in_stage, check_session, end_check,
  capture_links, compare_status, inspected, captured, Answer, inspects, scans, stores, captures,
  retains, fails, go_on, answer, activity, debounce_fires, start_polling, stop_polling, poll_tick,
  order_sessions, Event, checks, answers, outputs, fires, starts, stops, ticks, lists, round_ends,
  window_changes, notify_check_state, step, run,
}

-- How often the window was told that a check of a session is on, or over.
abbrev pub told : String → Bool → List Effect → ℕ
told session on [] = 0
told session on (check_state other is_on ∷ effects) =
    let rest = told session on effects in
    if str_eq other session && (if on then is_on else not is_on) then 1 + rest else rest
told session on (status_changed _ _ ∷ effects) = told session on effects
told session on (retain_links _ ∷ effects) = told session on effects

told-append :
    (session : String) (on : Bool) (xs ys : List Effect)
    → told session on (xs ++ ys) ≡ told session on xs + told session on ys
told-append session on [] ys = omega arith
told-append session on (check_state other is_on ∷ xs) ys =
    ground (arith, told-append session on xs ys)
told-append session on (status_changed _ _ ∷ xs) ys = told-append session on xs ys
told-append session on (retain_links _ ∷ xs) ys = told-append session on xs ys

-- One for a session that is being checked.
abbrev pub on_check : String → Supervisor → ℕ
on_check session s = if has session s.in_flight_checks then 1 else 0

-- The window stays, and it is told of each change of what is checked.
abbrev IsBalanced : String → Supervisor → Supervisor × List Effect → Type 0
IsBalanced session s (s', effects) =
    (s'.has_window ≡ true)
    × (on_check session s + told session true effects
        ≡ on_check session s' + told session false effects)

-- The window is not closed.
abbrev pub IsWindowKept : Event → Type 0
IsWindowKept (window_changes there) = there ≡ true
IsWindowKept _ = Unit

check_session-IsBalanced :
    (session other : String) (generation : Option ℕ) (s : Supervisor) (window : s.has_window ≡ true)
    → IsBalanced session s (check_session other generation s)
unfolding check_session notify_check_state
check_session-IsBalanced session other generation s window = ground (
  arith,
  window,
  str_eq_iff other session,
  get-set other session
      (record { generation = get_or generation s.polling_generation; stage = inspecting })
      s.in_flight_checks,
)

module _ (session other : String) (s : Supervisor) (is_on : has other s.in_flight_checks ≡ true)
    (window : s.has_window ≡ true) where
  end_check-IsBalanced : IsBalanced session s (end_check other s)
  unfolding end_check notify_check_state
  end_check-IsBalanced =
      ground (
        arith,
        is_on,
        window,
        str_eq_iff other session,
        get-delete other session s.in_flight_checks,
      )

  in_stage-IsBalanced :
      (generation : ℕ) (stage : Stage)
      → on_check session (in_stage other generation stage s) ≡ on_check session s
  in_stage-IsBalanced generation stage = ground (
    arith,
    is_on,
    str_eq_iff other session,
    get-set other session (record { generation = generation; stage = stage }) s.in_flight_checks,
  )

capture_links-IsBalanced :
    (session other : String) (s : Supervisor) (is_on : has other s.in_flight_checks ≡ true)
    (window : s.has_window ≡ true) (generation : ℕ) (links : Bool)
    → IsBalanced session s (capture_links other generation links s)
unfolding capture_links
capture_links-IsBalanced session other s is_on window generation links = ground (
  arith,
  end_check-IsBalanced session other s is_on window,
  in_stage-IsBalanced session other s is_on window generation capturing,
)

compare_status-IsBalanced :
    (session other : String) (s : Supervisor) (is_on : has other s.in_flight_checks ≡ true)
    (window : s.has_window ≡ true) (generation : ℕ) (status stored : SessionStatus) (links : Bool)
    → IsBalanced session s (compare_status other generation status stored links s)
unfolding compare_status
compare_status-IsBalanced session other s is_on window generation status stored links =
    let s' : Supervisor = record s { last_status = set other status s.last_status } in
    let previous = get_or (get other s.last_status) stored in
    elim (Bool-cases (not (status_eq status stored) || not (status_eq status previous))) [
      | inl changed ↦ rw changed (
          ground (
            arith,
            in_stage-IsBalanced session other s' is_on window generation (storing status links),
          ))
      | inr same ↦ rw same (capture_links-IsBalanced session other s' is_on window generation links)
    ]

inspected-IsBalanced :
    (session other : String) (s : Supervisor) (is_on : has other s.in_flight_checks ≡ true)
    (window : s.has_window ≡ true) (generation : ℕ) (status stored : SessionStatus)
    (artifacts links : Bool)
    → IsBalanced session s (inspected other generation status stored artifacts links s)
unfolding inspected
inspected-IsBalanced session other s is_on window generation status stored artifacts links =
    both_branches (IsBalanced session s) (not (generation == s.polling_generation))
      (end_check other s)
      (if artifacts
        then (in_stage other generation (scanning status stored links) s, [])
        else compare_status other generation status stored links s)
      (end_check-IsBalanced session other s is_on window) (go artifacts)
  where
    go :
        (artifacts : Bool)
        → IsBalanced session s (
            if artifacts
            then (in_stage other generation (scanning status stored links) s, [])
            else compare_status other generation status stored links s)
    go true = ground (
      arith,
      in_stage-IsBalanced session other s is_on window generation (scanning status stored links),
    )
    go false = compare_status-IsBalanced session other s is_on window generation status stored links

captured-IsBalanced :
    (session other : String) (s : Supervisor) (is_on : has other s.in_flight_checks ≡ true)
    (window : s.has_window ≡ true) (generation : ℕ) (filled : Bool)
    → IsBalanced session s (captured other generation filled s)
unfolding captured
captured-IsBalanced session other s is_on window generation filled = ground (
  arith,
  end_check-IsBalanced session other s is_on window,
  in_stage-IsBalanced session other s is_on window generation retaining,
)

go_on-IsBalanced :
    (session other : String) (s : Supervisor) (is_on : has other s.in_flight_checks ≡ true)
    (window : s.has_window ≡ true) (generation : ℕ) (stage : Stage) (a : Answer)
    → IsBalanced session s (go_on other generation stage a s)
unfolding go_on
go_on-IsBalanced session other s is_on window generation stage fails =
    end_check-IsBalanced session other s is_on window
go_on-IsBalanced session other s is_on window generation inspecting
      (inspects status stored artifacts links) =
    inspected-IsBalanced session other s is_on window generation status stored artifacts links
go_on-IsBalanced session other s is_on window generation (scanning status stored links) scans =
    compare_status-IsBalanced session other s is_on window generation status stored links
go_on-IsBalanced session other s is_on window generation (storing status links) stores =
    capture_links-IsBalanced session other s is_on window generation links
go_on-IsBalanced session other s is_on window generation capturing (captures filled) =
    captured-IsBalanced session other s is_on window generation filled
go_on-IsBalanced session other s is_on window generation retaining retains =
    end_check-IsBalanced session other s is_on window
go_on-IsBalanced session other s is_on window generation _ _ = (window, refl)

answer-IsBalanced :
    (session other : String) (a : Answer) (s : Supervisor)
    → s.has_window ≡ true
    → IsBalanced session s (answer other a s)
unfolding answer
answer-IsBalanced session other a s window = elim (Option-cases (get other s.in_flight_checks)) [
  | inl e ↦ rw (e, answer) (window, refl)
  | inr (c, e) ↦
      rw (e, answer) (go_on-IsBalanced session other s (ap is_some e) window c.generation c.stage a)
]

debounce_fires-IsBalanced :
    (session other : String) (s : Supervisor)
    → s.has_window ≡ true
    → IsBalanced session s (debounce_fires other s)
unfolding debounce_fires
debounce_fires-IsBalanced session other s window =
    elim (Option-cases (get other s.activity_debounce_timers)) [
      | inl e ↦ rw (e, debounce_fires) (window, refl)
      | inr (c, e) ↦
          rw (e, debounce_fires)
            (check_session-IsBalanced session other none
              (record s { activity_debounce_timers = delete other s.activity_debounce_timers })
              window)
    ]

order_sessions-in_flight :
    (sessions : List String) (s : Supervisor)
    → (order_sessions sessions s).0.in_flight_checks ≡ s.in_flight_checks
unfolding order_sessions
order_sessions-in_flight [] s = refl
order_sessions-in_flight (x ∷ xs) s = refl

order_sessions-has_window :
    (sessions : List String) (s : Supervisor)
    → (order_sessions sessions s).0.has_window ≡ s.has_window
unfolding order_sessions
order_sessions-has_window [] s = refl
order_sessions-has_window (x ∷ xs) s = refl

step-IsBalanced :
    (session : String) (e : Event) (s : Supervisor)
    → s.has_window ≡ true
    → IsWindowKept e
    → IsBalanced session s (step e s)
unfolding step activity start_polling stop_polling poll_tick
step-IsBalanced session (checks other generation) s window kept =
    check_session-IsBalanced session other generation s window
step-IsBalanced session (answers other a) s window kept = answer-IsBalanced session other a s window
step-IsBalanced session (outputs other) s window kept = (window, refl)
step-IsBalanced session (fires other) s window kept =
    debounce_fires-IsBalanced session other s window
step-IsBalanced session (starts interval) s window kept = (window, refl)
step-IsBalanced session stops s window kept = (window, refl)
step-IsBalanced session ticks s window kept = ground arith
step-IsBalanced session (lists sessions) s window kept = (
  order_sessions-has_window sessions s ∙ window,
  ground (arith, order_sessions-in_flight sessions s),
)
step-IsBalanced session round_ends s window kept = (window, refl)
step-IsBalanced session (window_changes there) s window kept = (kept, refl)

run-IsBalanced :
    (session : String) (events : List Event) (s : Supervisor)
    → s.has_window ≡ true
    → All IsWindowKept events
    → IsBalanced session s (run events s)
unfolding run
run-IsBalanced session [] s window kept = (window, refl)
run-IsBalanced session (e ∷ events) s window (kept, more) =
    let (window', first) = step-IsBalanced session e s window kept in
    let (window'', later) = run-IsBalanced session events (step e s).0 window' more in
    (
      window'',
      omega (
        arith,
        first,
        later,
        told-append session true (step e s).1 (run events (step e s).0).1,
        told-append session false (step e s).1 (run events (step e s).0).1,
      ),
    )

-- From the time that a new supervisor gets its window, as long as the window is not closed, in
-- every run and for every session: the checks that the window was told have begun are those it
-- was told are over and, when the session is being checked, one more: no two checks of a session
-- overlap, and each one ends once, also with an error.
pub run-check_state :
    (interval : Option ℕ) (session : String) (events : List Event)
    → All IsWindowKept events
    → let (s, effects) = run (window_changes true ∷ events) (new_supervisor interval) in
      told session true effects ≡ told session false effects + on_check session s
unfolding new_supervisor get run step
run-check_state interval session events kept = omega (
  arith,
  (run-IsBalanced session events (record (new_supervisor interval) { has_window = true }) refl
      kept).1,
)
