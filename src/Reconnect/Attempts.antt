-- ===== src/Reconnect/Attempts.antt =====
-- The number of an attempt never leaves 1 … maxAttempts.
use spawnea.Prelude.{
  ℕ, zero, suc, ◌+◌, ◌≤◌, ◌≡◌, subst, String, ltb, delete, ◌&&◌, if◌then◌else◌, Option, some, List,
  [], ◌∷◌, arith, inl, inr, Option-cases, Bool-cases, get, has, get_elem?, AllValues, AllValues-set,
  AllValues-delete, AllValues-get, All, All-append,
}
use spawnea.Prelude.Units.{Text, or_else}
use spawnea.Reconnect.{
  HostConnectionState, reconnecting, Options, Failure, Outcome, succeeds, returns_false, throws,
  Task, acting, finishing, rescheduling, retrying, Timer, Supervisor, start, drop_at, get_state,
  mark_connected, mark_disconnected, schedule_retry, handle_connection_drop,
  execute_reconnect_attempt, timer_fires, attempt_failed, action_ended, resume_task, resumes_at,
  retry_now, dispose, Event, drops, marks_connected, marks_disconnected, retries, fires, resumes,
  disposes, step, run, is_reconnecting, returned_false, notify, suspend, release, clear_timer,
  is_non_retryable, text_failure,
}

module _ (o : Options) where
  abbrev pub IsAttempt : ℕ → Type 0
  IsAttempt n = (1 ≤ n) × (n ≤ o.max_attempts)

  abbrev pub StateFits : HostConnectionState → Type 0
  StateFits state = state.status ≡ reconnecting → IsAttempt state.attempt

  abbrev pub TimerFits : Timer → Type 0
  TimerFits timer = IsAttempt timer.attempt

  abbrev pub TaskFits : Task → Type 0
  TaskFits (acting server attempt) = IsAttempt attempt
  TaskFits (finishing server) = Unit
  TaskFits (rescheduling server attempt delay) = IsAttempt attempt
  TaskFits (retrying server attempt) = IsAttempt attempt

  pub record HasBounds (s : Supervisor) : Type 0 where
    pub states : AllValues StateFits s.host_states
    pub timers : AllValues TimerFits s.retry_timers
    pub tasks : All TaskFits s.tasks

  get_state-fits :
      (server : String) (s : Supervisor) → HasBounds s → StateFits (get_state o server s)
  unfolding get_state
  get_state-fits server s v = elim (Option-cases (get server s.host_states)) [
    | inl e ↦ rw (e, get_state) (λ reconnects. cc)
    | inr (state, e) ↦
        rw (e, get_state) (AllValues-get StateFits server s.host_states state e v.states)
  ]

  mark_connected-HasBounds :
      (server : String) (now : ℕ) (s : Supervisor)
      → HasBounds s
      → HasBounds (mark_connected o server now s)
  unfolding mark_connected
  mark_connected-HasBounds server now s v = record {
    states = AllValues-set StateFits server _ s.host_states (λ e. cc) v.states;
    timers = AllValues-delete TimerFits server s.retry_timers v.timers;
    tasks = v.tasks;
  }

  mark_disconnected-HasBounds :
      (server : String) (error : Option Text) (s : Supervisor)
      → HasBounds s
      → HasBounds (mark_disconnected o server error s)
  unfolding mark_disconnected
  mark_disconnected-HasBounds server error s v = record {
    states = AllValues-set StateFits server _ s.host_states (λ e. cc) v.states;
    timers = AllValues-delete TimerFits server s.retry_timers v.timers;
    tasks = v.tasks;
  }

  notify-HasBounds :
      (server : String) (state : HostConnectionState) (s : Supervisor)
      → StateFits state
      → HasBounds s
      → HasBounds (notify o server state s)
  unfolding notify
  notify-HasBounds server state s p v = record {
    states = AllValues-set StateFits server state s.host_states p v.states;
    timers = v.timers;
    tasks = v.tasks;
  }

  suspend-HasBounds :
      (task : Task) (s : Supervisor) → TaskFits task → HasBounds s → HasBounds (suspend o task s)
  unfolding suspend
  suspend-HasBounds task s p v = record {
    states = v.states;
    timers = v.timers;
    tasks = All-append TaskFits s.tasks (task ∷ []) v.tasks (p, tt);
  }

  execute-HasBounds :
      (server : String) (attempt : ℕ) (s : Supervisor)
      → IsAttempt attempt
      → HasBounds s
      → HasBounds (execute_reconnect_attempt o server attempt s)
  unfolding execute_reconnect_attempt
  execute-HasBounds server attempt s p v =
      elim (Bool-cases (has server s.in_flight_reconnections)) [
        | inl e ↦ rw e v
        | inr e ↦ rw e (record {
          states = v.states;
          timers = v.timers;
          tasks = All-append TaskFits s.tasks (acting server attempt ∷ []) v.tasks (p, tt);
        })
      ]

  schedule_retry-HasBounds :
      (server : String) (attempt : ℕ) (delay : Option ℕ) (s : Supervisor)
      → IsAttempt attempt
      → HasBounds s
      → HasBounds (schedule_retry o server attempt delay s)
  unfolding schedule_retry
  schedule_retry-HasBounds server attempt delay s p v = record {
    states = v.states;
    timers =
        AllValues-set TimerFits server _ _ p
          (AllValues-delete TimerFits server s.retry_timers v.timers);
    tasks = v.tasks;
  }

  attempt_failed-HasBounds :
      (server : String) (attempt : ℕ) (f : Failure) (s : Supervisor)
      → IsAttempt attempt
      → HasBounds s
      → HasBounds (attempt_failed o server attempt f s)
  unfolding attempt_failed
  attempt_failed-HasBounds server attempt f s p v = elim (Bool-cases (is_non_retryable f)) [
    | inl e ↦ rw e (
        suspend-HasBounds (finishing server) _ tt
          (mark_disconnected-HasBounds server (some (or_else f.message f.shown)) s v))
    | inr e ↦ rw e (elim (Bool-cases (ltb o.max_attempts (attempt + 1))) [
      | inl over ↦ rw over (
          suspend-HasBounds (finishing server) _ tt
            (notify-HasBounds server _ s (λ reconnects. cc) v))
      | inr within ↦ rw within (
          suspend-HasBounds (rescheduling server (attempt + 1) _) _ (ground arith)
            (notify-HasBounds server _ s (λ reconnects. ground arith) v))
    ])
  ]

  action_ended-HasBounds :
      (server : String) (attempt : ℕ) (outcome : Outcome) (now : ℕ) (s : Supervisor)
      → IsAttempt attempt
      → HasBounds s
      → HasBounds (action_ended o server attempt outcome now s)
  unfolding action_ended
  action_ended-HasBounds server attempt succeeds now s p v =
      suspend-HasBounds (finishing server) _ tt (mark_connected-HasBounds server now s v)
  action_ended-HasBounds server attempt returns_false now s p v =
      attempt_failed-HasBounds server attempt returned_false s p v
  action_ended-HasBounds server attempt (throws f) now s p v =
      attempt_failed-HasBounds server attempt f s p v

  release-HasBounds :
      (server : String) (s : Supervisor) → HasBounds s → HasBounds (release o server s)
  unfolding release
  release-HasBounds server s v = record { states = v.states; timers = v.timers; tasks = v.tasks }

  resume_task-HasBounds :
      (task : Task) (outcome : Outcome) (now : ℕ) (s : Supervisor)
      → TaskFits task
      → HasBounds s
      → HasBounds (resume_task o task outcome now s)
  unfolding resume_task
  resume_task-HasBounds (acting server attempt) outcome now s p v =
      action_ended-HasBounds server attempt outcome now s p v
  resume_task-HasBounds (finishing server) outcome now s p v = release-HasBounds server s v
  resume_task-HasBounds (rescheduling server attempt delay) outcome now s p v =
      release-HasBounds server _ (schedule_retry-HasBounds server attempt delay s p v)
  resume_task-HasBounds (retrying server attempt) outcome now s p v =
      execute-HasBounds server attempt s p v

  drop_at-All : (i : ℕ) (tasks : List Task) → All TaskFits tasks → All TaskFits (drop_at i tasks)
  drop_at-All i [] h = tt
  drop_at-All zero (task ∷ tasks) (p, h) = h
  drop_at-All (suc i) (task ∷ tasks) (p, h) = (p, drop_at-All i tasks h)

  get_elem?-All :
      (i : ℕ) (tasks : List Task) (task : Task)
      → get_elem? tasks i ≡ some task
      → All TaskFits tasks
      → TaskFits task
  get_elem?-All i [] task e h = cc
  get_elem?-All zero (t ∷ tasks) task e (p, h) = subst TaskFits (cc) p
  get_elem?-All (suc i) (t ∷ tasks) task e (p, h) = get_elem?-All i tasks task e h

  resumes_at-HasBounds :
      (i : ℕ) (outcome : Outcome) (now : ℕ) (s : Supervisor)
      → HasBounds s
      → HasBounds (resumes_at o i outcome now s)
  unfolding resumes_at
  resumes_at-HasBounds i outcome now s v = elim (Option-cases (get_elem? s.tasks i)) [
    | inl e ↦ rw (e, resumes_at) v
    | inr (task, e) ↦
        rw (e, resumes_at)
          (resume_task-HasBounds task outcome now (record s { tasks = drop_at i s.tasks })
            (get_elem?-All i s.tasks task e v.tasks)
            (record {
              states = v.states;
              timers = v.timers;
              tasks = drop_at-All i s.tasks v.tasks;
            }))
  ]

  timer_fires-HasBounds :
      (server : String) (s : Supervisor) → HasBounds s → HasBounds (timer_fires o server s)
  unfolding timer_fires
  timer_fires-HasBounds server s v = elim (Option-cases (get server s.retry_timers)) [
    | inl e ↦ rw (e, timer_fires) v
    | inr (timer, e) ↦
        rw (e, timer_fires)
          (execute-HasBounds server timer.attempt
            (record s { retry_timers = delete server s.retry_timers })
            (AllValues-get TimerFits server s.retry_timers timer e v.timers)
            (record {
              states = v.states;
              timers = AllValues-delete TimerFits server s.retry_timers v.timers;
              tasks = v.tasks;
            }))
  ]

  module _ (some_attempts : 1 ≤ o.max_attempts) where
    drop-HasBounds :
        (server : String) (error : Text) (s : Supervisor)
        → HasBounds s
        → HasBounds (handle_connection_drop o server error s)
    unfolding handle_connection_drop
    drop-HasBounds server error s v = elim (Bool-cases (is_non_retryable (text_failure error))) [
      | inl e ↦ rw e (mark_disconnected-HasBounds server (some error) s v)
      | inr e ↦
          rw e
            (elim (Bool-cases
              (is_reconnecting (get_state o server s).status && has server s.retry_timers)) [
                | inl scheduled ↦ rw scheduled v
                | inr free ↦ rw free (
                    schedule_retry-HasBounds server 1 _ _ (omega arith)
                      (notify-HasBounds server _ s (λ reconnects. omega arith) v))
              ])
    ]

    next_attempt-IsAttempt :
        (state : HostConnectionState)
        → StateFits state
        → IsAttempt (if is_reconnecting state.status then state.attempt else 1)
    unfolding is_reconnecting
    next_attempt-IsAttempt state fits = ground arith

    retry_now-HasBounds :
        (server : String) (s : Supervisor) → HasBounds s → HasBounds (retry_now o server s)
    unfolding retry_now
    retry_now-HasBounds server s v =
        let cleared : HasBounds (clear_timer o server s) = record {
          states = v.states;
          timers = AllValues-delete TimerFits server s.retry_timers v.timers;
          tasks = v.tasks;
        } in
        let attempt =
          next_attempt-IsAttempt (get_state o server (clear_timer o server s))
            (get_state-fits server (clear_timer o server s) cleared) in
        suspend-HasBounds (retrying server _) _ attempt
          (notify-HasBounds server _ _ (λ reconnects. attempt) cleared)

    step-HasBounds : (e : Event) (s : Supervisor) → HasBounds s → HasBounds (step o e s)
    unfolding step
    step-HasBounds (drops server error) s v = drop-HasBounds server error s v
    step-HasBounds (marks_connected server now) s v = mark_connected-HasBounds server now s v
    step-HasBounds (marks_disconnected server error) s v =
        mark_disconnected-HasBounds server error s v
    step-HasBounds (retries server) s v = retry_now-HasBounds server s v
    step-HasBounds (fires server) s v = timer_fires-HasBounds server s v
    step-HasBounds (resumes i outcome now) s v = resumes_at-HasBounds i outcome now s v
    step-HasBounds disposes s v =
        unfold dispose in record { states = tt; timers = tt; tasks = v.tasks }

    run-HasBounds : (es : List Event) (s : Supervisor) → HasBounds s → HasBounds (run o es s)
    unfolding run
    run-HasBounds [] s v = v
    run-HasBounds (e ∷ es) s v = run-HasBounds es (step o e s) (step-HasBounds e s v)

    -- After any interleaving of calls, timers and resumed tasks, `dispose` included, where at
    -- least one attempt is allowed: every host that is reconnecting, every timer and every
    -- suspended attempt has a number from 1 to `maxAttempts`.
    pub run-start-HasBounds : (es : List Event) → HasBounds (run o es start)
    run-start-HasBounds es =
        run-HasBounds es start (record { states = tt; timers = tt; tasks = tt })
