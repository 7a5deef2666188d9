-- ===== src/Reconnect/Exclusion.antt =====
-- One attempt at a time: the marks of `inFlightReconnections` follow the suspended attempts.
use spawnea.Prelude.{
  ℕ, zero, suc, ◌+◌, ◌≡◌, ◌≢◌, refl, String, ◌&&◌, some, List, [], ◌∷◌, ◌++◌, arith, inl, inr,
  Option-cases, Bool-cases, get, delete, has, get-set, get-delete, get_elem?, All, if◌then◌else◌,
  str_eq, str_eq_iff, ltb,
}
use spawnea.Prelude.Units.{Text}
use spawnea.Reconnect.{
  Options, Failure, Outcome, succeeds, returns_false, throws, Task, acting, finishing, rescheduling,
  retrying, Supervisor, start, drop_at, get_state, mark_connected, mark_disconnected,
  schedule_retry, handle_connection_drop, execute_reconnect_attempt, timer_fires, attempt_failed,
  action_ended, resume_task, resumes_at, retry_now, Event, drops, marks_connected,
  marks_disconnected, retries, fires, resumes, disposes, step, run, returned_false, release,
  is_non_retryable, text_failure, is_reconnecting, get_backoff_delay,
}

module _ (server : String) where
  one_if : String → ℕ
  one_if j = if str_eq j server then 1 else 0

  -- Does a task belong to an attempt that has begun?
  unfoldable pub holds : Task → ℕ
  unfolding one_if
  holds (acting j attempt) = one_if j
  holds (finishing j) = one_if j
  holds (rescheduling j attempt delay) = one_if j
  holds (retrying j attempt) = 0

  -- The attempts of the host that have begun and are suspended.
  unfoldable pub attempts_of : List Task → ℕ
  unfolding holds
  attempts_of [] = 0
  attempts_of (task ∷ tasks) = holds task + attempts_of tasks

  abbrev pub mark : Supervisor → ℕ
  mark s = if has server s.in_flight_reconnections then 1 else 0

  attempts_of-concat :
      (tasks : List Task) (task : Task)
      → attempts_of (tasks ++ task ∷ []) ≡ attempts_of tasks + holds task
  unfolding attempts_of
  attempts_of-concat [] task = omega arith
  attempts_of-concat (t ∷ tasks) task = omega (arith, attempts_of-concat tasks task)

  attempts_of-drop_at :
      (i : ℕ) (tasks : List Task) (task : Task)
      → get_elem? tasks i ≡ some task
      → attempts_of tasks ≡ holds task + attempts_of (drop_at i tasks)
  unfolding attempts_of
  attempts_of-drop_at i [] task e = cc
  attempts_of-drop_at zero (t ∷ tasks) task e = ground arith
  attempts_of-drop_at (suc i) (t ∷ tasks) task e = omega (arith, attempts_of-drop_at i tasks task e)

  -- The mark is right, once a task that weighs `extra` is added.
  abbrev IsMarked : ℕ → Supervisor → Type 0
  IsMarked extra s = extra + attempts_of s.tasks ≡ mark s

  module _ (o : Options) where
    execute-IsMarked :
        (j : String) (attempt : ℕ) (s : Supervisor)
        → IsMarked 0 s
        → IsMarked 0 (execute_reconnect_attempt o j attempt s)
    unfolding execute_reconnect_attempt holds
    execute-IsMarked j attempt s v = ground (
      arith,
      attempts_of-concat s.tasks (acting j attempt),
      get-set j server tt s.in_flight_reconnections,
      str_eq_iff j server,
    )

    release-IsMarked :
        (j : String) (s : Supervisor) → IsMarked (one_if j) s → IsMarked 0 (release o j s)
    unfolding release one_if
    release-IsMarked j s v = ground (arith, get-delete j server s.in_flight_reconnections)

    attempt_failed-IsMarked :
        (j : String) (attempt : ℕ) (f : Failure) (s : Supervisor)
        → IsMarked (one_if j) s
        → IsMarked 0 (attempt_failed o j attempt f s)
    unfolding attempt_failed holds
    attempt_failed-IsMarked j attempt f s v = elim (Bool-cases (is_non_retryable f)) [
      | inl e ↦ rw e (omega (arith, v, attempts_of-concat s.tasks (finishing j)))
      | inr e ↦ rw e (elim (Bool-cases (ltb o.max_attempts (attempt + 1))) [
        | inl over ↦ rw over (omega (arith, v, attempts_of-concat s.tasks (finishing j)))
        | inr within ↦
            let delay = get_backoff_delay o (attempt + 1) in
            rw within
              (omega (arith, v, attempts_of-concat s.tasks (rescheduling j (attempt + 1) delay)))
      ])
    ]

    action_ended-IsMarked :
        (j : String) (attempt : ℕ) (outcome : Outcome) (now : ℕ) (s : Supervisor)
        → IsMarked (one_if j) s
        → IsMarked 0 (action_ended o j attempt outcome now s)
    unfolding action_ended holds
    action_ended-IsMarked j attempt succeeds now s v =
        omega (arith, v, attempts_of-concat s.tasks (finishing j))
    action_ended-IsMarked j attempt returns_false now s v =
        attempt_failed-IsMarked j attempt returned_false s v
    action_ended-IsMarked j attempt (throws f) now s v = attempt_failed-IsMarked j attempt f s v

    resume_task-IsMarked :
        (task : Task) (outcome : Outcome) (now : ℕ) (s : Supervisor)
        → IsMarked (holds task) s
        → IsMarked 0 (resume_task o task outcome now s)
    unfolding resume_task holds
    resume_task-IsMarked (acting j attempt) outcome now s v =
        action_ended-IsMarked j attempt outcome now s v
    resume_task-IsMarked (finishing j) outcome now s v = release-IsMarked j s v
    resume_task-IsMarked (rescheduling j attempt delay) outcome now s v =
        release-IsMarked j (schedule_retry o j attempt delay s) v
    resume_task-IsMarked (retrying j attempt) outcome now s v = execute-IsMarked j attempt s v

    resumes_at-IsMarked :
        (i : ℕ) (outcome : Outcome) (now : ℕ) (s : Supervisor)
        → IsMarked 0 s
        → IsMarked 0 (resumes_at o i outcome now s)
    unfolding resumes_at
    resumes_at-IsMarked i outcome now s v = elim (Option-cases (get_elem? s.tasks i)) [
      | inl e ↦ rw (e, resumes_at) v
      | inr (task, e) ↦
          rw (e, resumes_at)
            (resume_task-IsMarked task outcome now (record s { tasks = drop_at i s.tasks })
              (omega (arith, v, attempts_of-drop_at i s.tasks task e)))
    ]

    timer_fires-IsMarked :
        (j : String) (s : Supervisor) → IsMarked 0 s → IsMarked 0 (timer_fires o j s)
    unfolding timer_fires
    timer_fires-IsMarked j s v = elim (Option-cases (get j s.retry_timers)) [
      | inl e ↦ rw (e, timer_fires) v
      | inr (timer, e) ↦
          rw (e, timer_fires)
            (execute-IsMarked j timer.attempt (record s { retry_timers = delete j s.retry_timers })
              v)
    ]

    drop-IsMarked :
        (j : String) (error : Text) (s : Supervisor)
        → IsMarked 0 s
        → IsMarked 0 (handle_connection_drop o j error s)
    unfolding handle_connection_drop
    drop-IsMarked j error s v = elim (Bool-cases (is_non_retryable (text_failure error))) [
      | inl e ↦ rw e v
      | inr e ↦
          rw e
            (elim (Bool-cases (is_reconnecting (get_state o j s).status && has j s.retry_timers)) [
              | inl scheduled ↦ rw scheduled v
              | inr free ↦ rw free v
            ])
    ]

    step-IsMarked :
        (e : Event) (s : Supervisor) → e ≢ disposes → IsMarked 0 s → IsMarked 0 (step o e s)
    unfolding step holds
    step-IsMarked (drops j error) s h v = drop-IsMarked j error s v
    step-IsMarked (marks_connected j now) s h v = unfold mark_connected in v
    step-IsMarked (marks_disconnected j error) s h v = unfold mark_disconnected in v
    step-IsMarked (retries j) s h v =
        unfold retry_now in omega (arith, v, attempts_of-concat s.tasks (retrying j _))
    step-IsMarked (fires j) s h v = timer_fires-IsMarked j s v
    step-IsMarked (resumes i outcome now) s h v = resumes_at-IsMarked i outcome now s v
    step-IsMarked disposes s h v = absurd (h refl)

    run-IsMarked :
        (es : List Event) (s : Supervisor)
        → All (λ e. e ≢ disposes) es
        → IsMarked 0 s
        → IsMarked 0 (run o es s)
    unfolding run
    run-IsMarked [] s h v = v
    run-IsMarked (e ∷ es) s (p, h) v = run-IsMarked es (step o e s) h (step-IsMarked e s p v)

    -- Before `dispose` is called, after any interleaving: a host has one suspended attempt if it
    -- is marked as in flight and none otherwise, so its reconnect action never runs twice at once.
    pub run-start-exclusive :
        (es : List Event)
        → All (λ e. e ≢ disposes) es
        → attempts_of (run o es start).tasks ≡ mark (run o es start)
    unfolding attempts_of
    run-start-exclusive es h = omega (arith, run-IsMarked es start h (unfold get in omega arith))
