-- ===== src/Reconnect.antt =====
-- packages/hosts/src/reconnection-supervisor.ts: retries with a backoff for hosts that dropped.
-- An `async` method runs up to an `await` and is then a suspended task; the event loop resumes the
-- tasks in any order, fires the timers and makes the calls. The reconnect action is outside: its
-- outcome comes with the event that resumes the attempt. Calls of listeners are not kept; while
-- they are awaited, the task that notified is suspended.
pub mod Backoff
pub mod Attempts
pub mod Exclusion
pub mod Exhaustion
pub mod Stuck
mod Tests
use spawnea.Prelude.{
  ℕ, zero, suc, ◌+◌, ◌-◌, min, String, Bool, true, false, ◌&&◌, ◌||◌, Option, none, some, List, [],
  ◌∷◌, ◌++◌, ltb, ◌==◌, if◌then◌else◌, length, get_elem?, Dict, get, set, delete, has, str_eq,
}
use spawnea.Prelude.Units.{Text, units, includes, or_else, decimal}

pub data HostConnectionStatus : Type 0 where
  connected disconnected reconnecting : HostConnectionStatus

-- The key of the map is the `serverId`.
pub record HostConnectionState : Type 0 where
  pub status : HostConnectionStatus
  pub attempt : ℕ
  pub max_attempts : ℕ
  pub next_retry_delay_ms : Option ℕ
  pub error : Option Text
  pub last_connected_at : Option ℕ

pub record Options : Type 0 where
  pub backoff_schedule_ms : List ℕ
  pub max_attempts : ℕ

abbrev pub default_schedule : List ℕ
default_schedule = 1000 ∷ 2000 ∷ 5000 ∷ 10000 ∷ 30000 ∷ []

-- `options?.maxAttempts || length`
attempts_or : Option ℕ → ℕ → ℕ
attempts_or none n = n
attempts_or (some k) n = if k == 0 then n else k

-- The constructor: an empty schedule is an array, so it is kept.
pub make_options : Option (List ℕ) → Option ℕ → Options
unfolding attempts_or
make_options none attempts = record {
  backoff_schedule_ms = default_schedule;
  max_attempts = attempts_or attempts (length default_schedule);
}
make_options (some schedule) attempts = record {
  backoff_schedule_ms = schedule;
  max_attempts = attempts_or attempts (length schedule);
}

-- What a rejected action is rejected with: `message` is that of an `Error`, and `shown` is
-- `String(err)`.
pub record Failure : Type 0 where
  pub is_secret_resolution : Bool
  pub is_error : Bool
  pub message : Text
  pub shown : Text

names_failure : Text → Bool
names_failure message =
    includes (units "Could not resolve credential-backed field") message
    || includes (units "1Password SSH authentication failed") message
    || includes (units "SSH authentication failed") message

-- `isNonRetryableAuthenticationFailure` of packages/domain/src/secret-reference.ts.
pub is_non_retryable : Failure → Bool
unfolding names_failure
is_non_retryable f =
    f.is_secret_resolution || names_failure (if f.is_error then f.message else f.shown)

abbrev pub text_failure : Text → Failure
text_failure text = record {
  is_secret_resolution = false;
  is_error = false;
  message = [];
  shown = text;
}

abbrev pub returned_false : Failure
returned_false = record {
  is_secret_resolution = false;
  is_error = true;
  message = units "Reconnection attempt returned false";
  shown = units "Error: Reconnection attempt returned false";
}

-- How the awaited action ends.
pub data Outcome : Type 0 where
  succeeds returns_false : Outcome
  throws : Failure → Outcome

-- An `async` call that waits: for the reconnect action, or for the listeners to be notified.
pub data Task : Type 0 where
  acting : String → (attempt : ℕ) → Task
  finishing : String → Task
  rescheduling : String → (attempt : ℕ) → (delay : Option ℕ) → Task
  retrying : String → (attempt : ℕ) → Task

pub record Timer : Type 0 where
  pub attempt : ℕ
  pub delay : Option ℕ

pub record Supervisor : Type 0 where
  pub host_states : Dict HostConnectionState
  pub retry_timers : Dict Timer
  pub in_flight_reconnections : Dict (Unit {0})
  pub tasks : List Task

abbrev pub start : Supervisor
start = record { host_states = []; retry_timers = []; in_flight_reconnections = []; tasks = [] }

abbrev drop_at {ℓ} : {A : Type ℓ} → ℕ → List A → List A
drop_at i [] = []
drop_at zero (x ∷ xs) = xs
drop_at (suc i) (x ∷ xs) = x ∷ drop_at i xs

-- `error || current.error`
text_or : Option Text → Option Text → Option Text
text_or none other = other
text_or (some []) other = other
text_or (some (c ∷ s)) other = some (c ∷ s)

is_reconnecting : HostConnectionStatus → Bool
is_reconnecting reconnecting = true
is_reconnecting _ = false

pub data Event : Type 0 where
  drops : String → Text → Event
  marks_connected : String → (now : ℕ) → Event
  marks_disconnected : String → Option Text → Event
  retries fires : String → Event
  resumes : (task : ℕ) → Outcome → (now : ℕ) → Event
  disposes : Event

module _ (o : Options) where
  pub get_backoff_delay : ℕ → Option ℕ
  get_backoff_delay attempt =
      get_elem? o.backoff_schedule_ms (min (attempt - 1) (length o.backoff_schedule_ms - 1))

  pub get_state : String → Supervisor → HostConnectionState
  get_state server s = elim (get server s.host_states) [
    | none ↦ record {
      status = connected;
      attempt = 0;
      max_attempts = o.max_attempts;
      next_retry_delay_ms = none;
      error = none;
      last_connected_at = none;
    }
    | some state ↦ state
  ]

  pub notify : String → HostConnectionState → Supervisor → Supervisor
  notify server state s = record s { host_states = set server state s.host_states }

  clear_timer : String → Supervisor → Supervisor
  clear_timer server s = record s { retry_timers = delete server s.retry_timers }

  pub suspend : Task → Supervisor → Supervisor
  suspend task s = record s { tasks = s.tasks ++ task ∷ [] }

  pub mark_connected : String → ℕ → Supervisor → Supervisor
  unfolding clear_timer notify
  mark_connected server now s =
      notify server
        (record {
          status = connected;
          attempt = 0;
          max_attempts = o.max_attempts;
          next_retry_delay_ms = none;
          error = none;
          last_connected_at = some now;
        })
        (clear_timer server s)

  pub mark_disconnected : String → Option Text → Supervisor → Supervisor
  unfolding clear_timer notify text_or get_state
  mark_disconnected server error s =
      let current = get_state server s in
      notify server
        (record {
          status = disconnected;
          attempt = current.attempt;
          max_attempts = o.max_attempts;
          next_retry_delay_ms = none;
          error = text_or error current.error;
          last_connected_at = current.last_connected_at;
        })
        (clear_timer server s)

  schedule_retry : String → ℕ → Option ℕ → Supervisor → Supervisor
  schedule_retry server attempt delay s = record s {
    retry_timers =
        set server (record { attempt = attempt; delay = delay }) (delete server s.retry_timers);
  }

  -- A state of a host that waits for attempt number `attempt`.
  abbrev pub waiting : ℕ → Option ℕ → Option Text → Option ℕ → HostConnectionState
  waiting attempt delay error last = record {
    status = reconnecting;
    attempt = attempt;
    max_attempts = o.max_attempts;
    next_retry_delay_ms = delay;
    error = error;
    last_connected_at = last;
  }

  pub handle_connection_drop : String → Text → Supervisor → Supervisor
  unfolding mark_disconnected get_state notify schedule_retry is_reconnecting
  handle_connection_drop server error s =
      let current = get_state server s in
      if is_non_retryable (text_failure error)
      then mark_disconnected server (some error) s
      else if is_reconnecting current.status && has server s.retry_timers
      then s
      else schedule_retry server 1 (get_backoff_delay 1)
          (notify server (waiting 1 (get_backoff_delay 1) (some error) current.last_connected_at) s)

  -- `executeReconnectAttempt` up to its first `await`.
  execute_reconnect_attempt : String → ℕ → Supervisor → Supervisor
  unfolding suspend
  execute_reconnect_attempt server attempt s =
      if has server s.in_flight_reconnections
      then s
      else suspend (acting server attempt)
          (record s { in_flight_reconnections = set server tt s.in_flight_reconnections })

  -- The timer's callback.
  pub timer_fires : String → Supervisor → Supervisor
  unfolding execute_reconnect_attempt
  timer_fires server s = elim (get server s.retry_timers) [
    | none ↦ s
    | some timer ↦
        execute_reconnect_attempt server timer.attempt
          (record s { retry_timers = delete server s.retry_timers })
  ]

  pub exhausted_error : Text → Text
  exhausted_error message =
      units "Connection lost ("
      ++ (message ++ (units "). Stopped after " ++ (decimal o.max_attempts ++ units " attempts.")))

  -- The `catch` block.
  pub attempt_failed : String → ℕ → Failure → Supervisor → Supervisor
  unfolding mark_disconnected notify suspend
  attempt_failed server attempt f s =
      let message = or_else f.message f.shown in
      let last = (get_state server s).last_connected_at in
      let delay = get_backoff_delay (attempt + 1) in
      if is_non_retryable f
      then suspend (finishing server) (mark_disconnected server (some message) s)
      else if ltb o.max_attempts (attempt + 1)
      then suspend (finishing server) (
          notify server
            (record {
              status = disconnected;
              attempt = attempt;
              max_attempts = o.max_attempts;
              next_retry_delay_ms = none;
              error = some (exhausted_error message);
              last_connected_at = last;
            })
            s)
      else suspend (rescheduling server (attempt + 1) delay)
          (notify server (waiting (attempt + 1) delay (some message) last) s)

  -- What follows the action.
  action_ended : String → ℕ → Outcome → ℕ → Supervisor → Supervisor
  unfolding mark_connected attempt_failed suspend
  action_ended server attempt succeeds now s =
      suspend (finishing server) (mark_connected server now s)
  action_ended server attempt returns_false now s = attempt_failed server attempt returned_false s
  action_ended server attempt (throws f) now s = attempt_failed server attempt f s

  -- The `finally` block.
  release : String → Supervisor → Supervisor
  release server s = record s { in_flight_reconnections = delete server s.in_flight_reconnections }

  pub resume_task : Task → Outcome → ℕ → Supervisor → Supervisor
  unfolding action_ended release schedule_retry execute_reconnect_attempt
  resume_task (acting server attempt) outcome now s = action_ended server attempt outcome now s
  resume_task (finishing server) outcome now s = release server s
  resume_task (rescheduling server attempt delay) outcome now s =
      release server (schedule_retry server attempt delay s)
  resume_task (retrying server attempt) outcome now s = execute_reconnect_attempt server attempt s

  -- The event loop goes on with the task at a place of the list.
  pub resumes_at : ℕ → Outcome → ℕ → Supervisor → Supervisor
  unfolding resume_task
  resumes_at i outcome now s = elim (get_elem? s.tasks i) [
    | none ↦ s
    | some task ↦ resume_task task outcome now (record s { tasks = drop_at i s.tasks })
  ]

  pub retry_now : String → Supervisor → Supervisor
  unfolding clear_timer notify suspend get_state is_reconnecting
  retry_now server s =
      let cleared = clear_timer server s in
      let current = get_state server cleared in
      let attempt = if is_reconnecting current.status then current.attempt else 1 in
      suspend (retrying server attempt)
        (notify server (waiting attempt (some 0) none current.last_connected_at) cleared)

  -- `dispose` forgets the tasks' marks; the suspended calls themselves go on.
  pub dispose : Supervisor → Supervisor
  dispose s = record s { host_states = []; retry_timers = []; in_flight_reconnections = [] }

  unfoldable pub step : Event → Supervisor → Supervisor
  step (drops server error) s = handle_connection_drop server error s
  step (marks_connected server now) s = mark_connected server now s
  step (marks_disconnected server error) s = mark_disconnected server error s
  step (retries server) s = retry_now server s
  step (fires server) s = timer_fires server s
  step (resumes i outcome now) s = resumes_at i outcome now s
  step disposes s = dispose s

  pub run : List Event → Supervisor → Supervisor
  run [] s = s
  run (e ∷ es) s = run es (step e s)
