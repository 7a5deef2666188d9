-- ===== src/Supervisor.antt =====
-- apps/desktop/src/main/session-supervisor.ts: the checks of the sessions' states and the polling.
-- Each await of a check is a stage, so any other events come between. What a host, a detector or
-- a database answers is an argument of the event that goes on with it.
pub mod Checks
pub mod Stops
pub mod Scanning
pub mod Rounds
mod Tests
use spawnea.Prelude.Units.{text_eq}
use spawnea.Prelude.{
  ℕ, zero, suc, ◌+◌, ◌%◌, Bool, true, false, ◌&&◌, ◌||◌, not, Option, none, some, List, [], ◌∷◌,
  ◌++◌, String, ◌==◌, if◌then◌else◌, Dict, get, set, delete, has, get_or, take, drop, length,
}
use spawnea.Status.{SessionStatus, status_text}

-- Where a check waits: for the host, for the artifacts, for the storage of a changed status, for
-- the capture of links and for their storage.
pub data Stage : Type 0 where
  inspecting : Stage
  scanning : SessionStatus → SessionStatus → Bool → Stage
  storing : SessionStatus → Bool → Stage
  capturing : Stage
  retaining : Stage

pub record Check : Type 0 where
  pub generation : ℕ
  pub stage : Stage

-- `in_flight_checks` holds for each session of the set the call that takes it out again, and
-- `has_window` whether the getter gives a window that is not destroyed.
pub record Supervisor : Type 0 where
  pub default_poll_interval_ms : ℕ
  pub poll_timer : Option ℕ
  pub is_polling : Bool
  pub polling_generation : ℕ
  pub in_flight_checks : Dict Check
  pub polling_cursor : ℕ
  pub activity_debounce_timers : Dict ℕ
  pub last_status : Dict SessionStatus
  pub has_window : Bool

pub new_supervisor : Option ℕ → Supervisor
new_supervisor interval = record {
  default_poll_interval_ms = elim (get_or interval 0) [ zero ↦ 10000 | suc n ↦ suc n ];
  poll_timer = none;
  is_polling = false;
  polling_generation = 0;
  in_flight_checks = [];
  polling_cursor = 0;
  activity_debounce_timers = [];
  last_status = [];
  has_window = false;
}

-- What is sent to the window (`check_state`) and to the listeners (`status_changed`), and the links
-- that are stored.
pub data Effect : Type 0 where
  check_state : String → Bool → Effect
  status_changed : String → SessionStatus → Effect
  retain_links : String → Effect

abbrev pub status_eq : SessionStatus → SessionStatus → Bool
status_eq a b = text_eq (status_text a) (status_text b)

abbrev in_stage : String → ℕ → Stage → Supervisor → Supervisor
in_stage session generation stage s = record s {
  in_flight_checks =
      set session (record { generation = generation; stage = stage }) s.in_flight_checks;
}

-- Only a window that is there is told.
unfoldable pub notify_check_state : String → Bool → Supervisor → List Effect
notify_check_state session checking s =
    if s.has_window then check_state session checking ∷ [] else []

-- `checkSession` up to its first await; without a generation it takes the current one.
pub check_session : String → Option ℕ → Supervisor → Supervisor × List Effect
unfolding notify_check_state
check_session session generation s = if has session s.in_flight_checks then (s, []) else (
  in_stage session (get_or generation s.polling_generation) inspecting s,
  notify_check_state session true s,
)

-- The `finally` of `checkSession`.
end_check : String → Supervisor → Supervisor × List Effect
unfolding notify_check_state
end_check session s = (
  record s { in_flight_checks = delete session s.in_flight_checks },
  notify_check_state session false s,
)

-- After the publication: the links, when a host has them and the generation is the current one.
capture_links : String → ℕ → Bool → Supervisor → Supervisor × List Effect
unfolding end_check
capture_links session generation links s =
    if links && (generation == s.polling_generation)
    then (in_stage session generation capturing s, [])
    else end_check session s

-- The comparison with the last status.
compare_status :
    String → ℕ → SessionStatus → SessionStatus → Bool → Supervisor → Supervisor × List Effect
unfolding capture_links
compare_status session generation status stored links s =
    let previous = get_or (get session s.last_status) stored in
    let s' = record s { last_status = set session status s.last_status } in
    if not (status_eq status stored) || not (status_eq status previous)
    then (in_stage session generation (storing status links) s', [])
    else capture_links session generation links s'

-- The host has answered and the detector has decided: `artifacts` is whether there is output for
-- the artifact manager to look through.
inspected :
    String → ℕ → SessionStatus → SessionStatus → Bool → Bool → Supervisor → Supervisor × List Effect
unfolding compare_status end_check
inspected session generation status stored artifacts links s =
    if not (generation == s.polling_generation)
    then end_check session s
    else if artifacts
    then (in_stage session generation (scanning status stored links) s, [])
    else compare_status session generation status stored links s

captured : String → ℕ → Bool → Supervisor → Supervisor × List Effect
unfolding end_check
captured session generation filled s =
    if (generation == s.polling_generation) && filled
    then (in_stage session generation retaining s, retain_links session ∷ [])
    else end_check session s

-- What an await of a check ends with. `fails` is an error that leaves the check.
pub data Answer : Type 0 where
  inspects : SessionStatus → SessionStatus → Bool → Bool → Answer
  scans : Answer
  stores : Answer
  captures : Bool → Answer
  retains : Answer
  fails : Answer

-- A check goes on; an answer that its stage does not wait for is none of it.
pub go_on : String → ℕ → Stage → Answer → Supervisor → Supervisor × List Effect
unfolding inspected compare_status capture_links captured end_check
go_on session generation stage fails s = end_check session s
go_on session generation inspecting (inspects status stored artifacts links) s =
    inspected session generation status stored artifacts links s
go_on session generation (scanning status stored links) scans s =
    compare_status session generation status stored links s
go_on session generation (storing status links) stores s =
    let (s', effects) = capture_links session generation links s in
    (s', status_changed session status ∷ effects)
go_on session generation capturing (captures filled) s = captured session generation filled s
go_on session generation retaining retains s = end_check session s
go_on session generation _ _ s = (s, [])

pub answer : String → Answer → Supervisor → Supervisor × List Effect
unfolding go_on
answer session a s = elim (get session s.in_flight_checks) [
  | none ↦ (s, [])
  | some c ↦ go_on session c.generation c.stage a s
]

-- Output of a session's terminal, and the end of the pause after it.
pub activity : String → Supervisor → Supervisor
activity session s = record s {
  activity_debounce_timers = set session 1500 s.activity_debounce_timers;
}

pub debounce_fires : String → Supervisor → Supervisor × List Effect
unfolding check_session
debounce_fires session s = elim (get session s.activity_debounce_timers) [
  | none ↦ (s, [])
  | some _ ↦
      check_session session none
        (record s { activity_debounce_timers = delete session s.activity_debounce_timers })
]

pub start_polling : Option ℕ → Supervisor → Supervisor
start_polling interval s = record s {
  poll_timer = some (elim (get_or interval 0) [
    | zero ↦ elim s.default_poll_interval_ms [ zero ↦ 10000 | suc n ↦ suc n ]
    | suc n ↦ suc n
  ]);
}

pub stop_polling : Supervisor → Supervisor
stop_polling s = record s {
  poll_timer = none;
  polling_generation = s.polling_generation + 1;
  activity_debounce_timers = [];
}

-- A tick of the timer: whether it begins a round.
pub poll_tick : Supervisor → Supervisor × Bool
poll_tick s = if s.is_polling then (s, false) else (record s { is_polling = true }, true)

-- The order of a round, and the cursor of the next one.
pub order_sessions : List String → Supervisor → Supervisor × List String
order_sessions [] s = (s, [])
order_sessions (x ∷ xs) s =
    let n = length (x ∷ xs) in
    let start = s.polling_cursor % n in
    (record s { polling_cursor = (start + 1) % n }, drop start (x ∷ xs) ++ take start (x ∷ xs))

pub data Event : Type 0 where
  checks : String → Option ℕ → Event
  answers : String → Answer → Event
  outputs : String → Event
  fires : String → Event
  starts : Option ℕ → Event
  stops : Event
  ticks : Event
  lists : List String → Event
  round_ends : Event
  window_changes : (there : Bool) → Event

pub step : Event → Supervisor → Supervisor × List Effect
unfolding check_session answer activity debounce_fires start_polling stop_polling poll_tick
    order_sessions
step (checks session generation) s = check_session session generation s
step (answers session a) s = answer session a s
step (outputs session) s = (activity session s, [])
step (fires session) s = debounce_fires session s
step (starts interval) s = (start_polling interval s, [])
step stops s = (stop_polling s, [])
step ticks s = ((poll_tick s).0, [])
step (lists sessions) s = ((order_sessions sessions s).0, [])
step round_ends s = (record s { is_polling = false }, [])
step (window_changes there) s = (record s { has_window = there }, [])

pub run : List Event → Supervisor → Supervisor × List Effect
unfolding step
run [] s = (s, [])
run (e ∷ events) s =
    let (s', effects) = step e s in let (s'', more) = run events s' in (s'', effects ++ more)
