-- ===== src/Reconnect/Exhaustion.antt =====
-- A host that cannot be reached is retried `maxAttempts` times, and then given up.
use spawnea.Prelude.{
  ℕ, ◌+◌, ◌≤◌, ◌<◌, ◌≡◌, refl, subst, sym, ◌∙◌, ap, All, length, String, true, false, ◌&&◌, Option,
  none, some, List, [], ◌∷◌, ◌++◌, arith, get, delete, has, get-set, get-delete, str_eq_refl, ltb,
}
use spawnea.Prelude.Units.{Text, or_else, includes}
use spawnea.Reconnect.{
  HostConnectionState, HostConnectionStatus, disconnected, reconnecting, Options, Failure, Outcome,
  succeeds, returns_false, throws, returned_false, Task, acting, finishing, rescheduling, Timer,
  Supervisor, drop_at, get_state, get_backoff_delay, exhausted_error, handle_connection_drop,
  timer_fires, resumes_at, Event, drops, fires, resumes, step, run, is_non_retryable, text_failure,
  is_reconnecting, notify, suspend, waiting, resume_task, action_ended, attempt_failed,
}

module _ (o : Options) (server : String) where
  -- What the supervisor keeps of the host: no task is suspended but the listed ones.
  pub record Host (tasks : List Task) (in_flight : Option (Unit {0})) (timer : Option Timer)
      (status : HostConnectionStatus) (attempt : ℕ) (s : Supervisor) : Type 0 where
    pub suspended : s.tasks ≡ tasks
    pub marked : get server s.in_flight_reconnections ≡ in_flight
    pub timed : get server s.retry_timers ≡ timer
    pub has_status : (get_state o server s).status ≡ status
    pub has_attempt : (get_state o server s).attempt ≡ attempt

  abbrev pub IsIdle : HostConnectionStatus → ℕ → Supervisor → Type 0
  IsIdle status attempt = Host [] none none status attempt

  abbrev pub timer_of : ℕ → Timer
  timer_of n = record { attempt = n; delay = get_backoff_delay o n }

  abbrev pub IsWaiting : ℕ → Supervisor → Type 0
  IsWaiting n = Host [] none (some (timer_of n)) reconnecting n

  abbrev pub IsActing : ℕ → Supervisor → Type 0
  IsActing n = Host (acting server n ∷ []) (some tt) none reconnecting n

  fires-IsActing : (n : ℕ) (s : Supervisor) → IsWaiting n s → IsActing n (timer_fires o server s)
  unfolding timer_fires get_state
  fires-IsActing n s v = ground (
    arith,
    get-set server server tt s.in_flight_reconnections,
    get-delete server server s.retry_timers,
    str_eq_refl server,
  )

  IsRescheduling : ℕ → Supervisor → Type 0
  IsRescheduling n =
      Host (rescheduling server n (get_backoff_delay o n) ∷ []) (some tt) none reconnecting n

  -- The last attempt fails: `finishing` waits for the listeners.
  IsFinishing : ℕ → Supervisor → Type 0
  IsFinishing n = Host (finishing server ∷ []) (some tt) none disconnected n

  pub get_state-notify :
      (state : HostConnectionState) (s : Supervisor)
      → get_state o server (notify o server state s) ≡ state
  unfolding get_state notify
  get_state-notify state s =
      ground (arith, get-set server server state s.host_states, str_eq_refl server)

  -- The state after a failed attempt that is not the last one.
  abbrev pub retried : ℕ → Failure → Supervisor → Supervisor
  retried n f s = suspend o (rescheduling server (n + 1) (get_backoff_delay o (n + 1))) (
      notify o server
        (waiting o (n + 1) (get_backoff_delay o (n + 1)) (some (or_else f.message f.shown))
          (get_state o server s).last_connected_at)
        s)

  pub attempt_failed-retries :
      (n : ℕ) (f : Failure) (s : Supervisor)
      → is_non_retryable f ≡ false
      → n < o.max_attempts
      → attempt_failed o server n f s ≡ retried n f s
  unfolding attempt_failed
  attempt_failed-retries n f s retryable more =
      let within : ltb o.max_attempts (n + 1) ≡ false = ground arith in rw (retryable, within)

  -- The state after the last attempt.
  pub given_up : ℕ → Failure → Option ℕ → HostConnectionState
  given_up n f last = record {
    status = disconnected;
    attempt = n;
    max_attempts = o.max_attempts;
    next_retry_delay_ms = none;
    error = some (exhausted_error o (or_else f.message f.shown));
    last_connected_at = last;
  }

  attempt_failed-gives_up :
      (n : ℕ) (f : Failure) (s : Supervisor)
      → is_non_retryable f ≡ false
      → o.max_attempts ≤ n
      → attempt_failed o server n f s
        ≡ suspend o
            (finishing server)
            (notify o server (given_up n f (get_state o server s).last_connected_at) s)
  unfolding attempt_failed given_up
  attempt_failed-gives_up n f s retryable last =
      let over : ltb o.max_attempts (n + 1) ≡ true = ground arith in rw (retryable, over)

  pub resumes_first :
      (outcome : Outcome) (now : ℕ) (task : Task) (s : Supervisor)
      → s.tasks ≡ task ∷ []
      → resumes_at o 0 outcome now s ≡ resume_task o task outcome now (record s { tasks = [] })
  unfolding resumes_at
  resumes_first outcome now task s e =
      rw (e, resumes_at)
        (ap (λ ts. resume_task o task outcome now (record s { tasks = drop_at 0 ts })) e)

  pub attempt_fails :
      (n now : ℕ) (f : Failure) (s : Supervisor)
      → IsActing n s
      → resumes_at o 0 (throws f) now s ≡ attempt_failed o server n f (record s { tasks = [] })
  unfolding resume_task action_ended
  attempt_fails n now f s v = resumes_first (throws f) now (acting server n) s v.suspended

  fails-IsRescheduling :
      (n now : ℕ) (f : Failure) (s : Supervisor)
      → is_non_retryable f ≡ false
      → n < o.max_attempts
      → IsActing n s
      → IsRescheduling (n + 1) (resumes_at o 0 (throws f) now s)
  unfolding IsRescheduling suspend notify
  fails-IsRescheduling n now f s retryable more v =
      let s' : Supervisor = record s { tasks = [] } in
      let noted =
        get_state-notify
          (waiting o (n + 1) (get_backoff_delay o (n + 1)) (some (or_else f.message f.shown))
            (get_state o server s').last_connected_at)
          s' in
      rw (attempt_fails n now f s v, attempt_failed-retries n f s' retryable more)
        (record {
          suspended = refl;
          marked = v.marked;
          timed = v.timed;
          has_status = unfold get_state in ap (λ (state : HostConnectionState). state.status) noted;
          has_attempt =
              unfold get_state in ap (λ (state : HostConnectionState). state.attempt) noted;
        })

  fails-IsFinishing :
      (n now : ℕ) (f : Failure) (s : Supervisor)
      → is_non_retryable f ≡ false
      → o.max_attempts ≤ n
      → IsActing n s
      → IsFinishing n (resumes_at o 0 (throws f) now s)
  unfolding IsFinishing suspend notify
  fails-IsFinishing n now f s retryable last v =
      let s' : Supervisor = record s { tasks = [] } in
      let noted = get_state-notify (given_up n f (get_state o server s').last_connected_at) s' in
      rw (attempt_fails n now f s v, attempt_failed-gives_up n f s' retryable last)
        (record {
          suspended = refl;
          marked = v.marked;
          timed = v.timed;
          has_status =
              unfold get_state given_up in ap (λ (state : HostConnectionState). state.status) noted;
          has_attempt =
              unfold get_state given_up in
              ap (λ (state : HostConnectionState). state.attempt) noted;
        })

  resumes-IsWaiting :
      (n now : ℕ) (s : Supervisor)
      → IsRescheduling n s
      → IsWaiting n (resumes_at o 0 succeeds now s)
  unfolding IsRescheduling resume_task
  resumes-IsWaiting n now s v =
      rw (resumes_first succeeds now (rescheduling server n (get_backoff_delay o n)) s v.suspended)
        (record {
          suspended = refl;
          marked =
              ground
                (arith, get-delete server server s.in_flight_reconnections, str_eq_refl server);
          timed = ground (
            arith,
            get-set server server (timer_of n) (delete server s.retry_timers),
            str_eq_refl server,
          );
          has_status = unfold get_state in v.has_status;
          has_attempt = unfold get_state in v.has_attempt;
        })

  resumes-IsIdle :
      (n now : ℕ) (s : Supervisor)
      → IsFinishing n s
      → IsIdle disconnected n (resumes_at o 0 succeeds now s)
  unfolding IsFinishing resume_task
  resumes-IsIdle n now s v =
      rw (resumes_first succeeds now (finishing server) s v.suspended) (record {
        suspended = refl;
        marked =
            ground (arith, get-delete server server s.in_flight_reconnections, str_eq_refl server);
        timed = v.timed;
        has_status = unfold get_state in v.has_status;
        has_attempt = unfold get_state in v.has_attempt;
      })

  -- A failure that is tried again: an error that is not one of authentication, or `false`.
  abbrev pub IsRetried : Outcome → Type 0
  IsRetried succeeds = false ≡ true
  IsRetried returns_false = Unit {0}
  IsRetried (throws f) = is_non_retryable f ≡ false

  -- `false` is made into an error, which is caught.
  fails_by_false :
      (n now : ℕ) (s : Supervisor)
      → IsActing n s
      → resumes_at o 0 returns_false now s ≡ resumes_at o 0 (throws returned_false) now s
  unfolding resume_task action_ended
  fails_by_false n now s v =
      resumes_first returns_false now (acting server n) s v.suspended
      ∙ sym (resumes_first (throws returned_false) now (acting server n) s v.suspended)

  round-IsRescheduling :
      (n now : ℕ) (outcome : Outcome) (s : Supervisor)
      → IsRetried outcome
      → n < o.max_attempts
      → IsActing n s
      → IsRescheduling (n + 1) (resumes_at o 0 outcome now s)
  unfolding is_non_retryable includes
  round-IsRescheduling n now succeeds s again more v = ground arith
  round-IsRescheduling n now returns_false s again more v =
      subst (IsRescheduling (n + 1)) (sym (fails_by_false n now s v))
        (fails-IsRescheduling n now returned_false s refl more v)
  round-IsRescheduling n now (throws f) s again more v = fails-IsRescheduling n now f s again more v

  round-IsFinishing :
      (n now : ℕ) (outcome : Outcome) (s : Supervisor)
      → IsRetried outcome
      → o.max_attempts ≤ n
      → IsActing n s
      → IsFinishing n (resumes_at o 0 outcome now s)
  unfolding is_non_retryable includes
  round-IsFinishing n now succeeds s again last v = ground arith
  round-IsFinishing n now returns_false s again last v =
      subst (IsFinishing n) (sym (fails_by_false n now s v))
        (fails-IsFinishing n now returned_false s refl last v)
  round-IsFinishing n now (throws f) s again last v = fails-IsFinishing n now f s again last v

  -- The timer fires, the action ends in its way, and the call that failed ends.
  pub failing_round : Outcome × ℕ → List Event
  failing_round (outcome, now) = fires server ∷ resumes 0 outcome now ∷ resumes 0 succeeds now ∷ []

  pub failing_rounds : List (Outcome × ℕ) → List Event
  unfolding failing_round
  failing_rounds [] = []
  failing_rounds (round ∷ rounds) = failing_round round ++ failing_rounds rounds

  rounds-IsIdle :
      (round : Outcome × ℕ) (rounds : List (Outcome × ℕ)) (n : ℕ) (s : Supervisor)
      → All (λ r. IsRetried r.0) (round ∷ rounds)
      → n + length rounds ≡ o.max_attempts
      → IsWaiting n s
      → IsIdle disconnected o.max_attempts (run o (failing_rounds (round ∷ rounds)) s)
  unfolding run step failing_rounds
  rounds-IsIdle (outcome, now) [] n s (again, _) e v =
      let same : n ≡ o.max_attempts = omega arith in
      subst (λ k. IsIdle disconnected k (run o (failing_round (outcome, now)) s)) same
        (resumes-IsIdle n now _
          (round-IsFinishing n now outcome _ again (omega arith) (fires-IsActing n s v)))
  rounds-IsIdle (outcome, now) (next ∷ rounds) n s (again, h) e v =
      rounds-IsIdle next rounds (n + 1) _ h (omega arith) (
        resumes-IsWaiting (n + 1) now _
          (round-IsRescheduling n now outcome _ again (omega arith) (fires-IsActing n s v)))

  drops-IsWaiting :
      (error : Text) (status : HostConnectionStatus) (attempt : ℕ) (s : Supervisor)
      → is_non_retryable (text_failure error) ≡ false
      → IsIdle status attempt s
      → IsWaiting 1 (handle_connection_drop o server error s)
  unfolding handle_connection_drop
  drops-IsWaiting error status attempt s again v =
      let free : (is_reconnecting (get_state o server s).status && has server s.retry_timers)
          ≡ false =
        ground arith in
      let noted =
        get_state-notify
          (waiting o 1 (get_backoff_delay o 1) (some error)
            (get_state o server s).last_connected_at)
          s in
      rw (again, free)
        (record {
          suspended = v.suspended;
          marked = v.marked;
          timed = ground (
            arith,
            get-set server server (timer_of 1) (delete server s.retry_timers),
            str_eq_refl server,
          );
          has_status = unfold get_state in ap (λ (state : HostConnectionState). state.status) noted;
          has_attempt =
              unfold get_state in ap (λ (state : HostConnectionState). state.attempt) noted;
        })

  -- For at least one attempt, and when no call is suspended and the host has no timer and no mark:
  -- when it drops with an error that can be retried, every reconnect action then fails in a way
  -- that can be retried, each with an error of its own or with `false`, and nothing else happens
  -- in between, the host is tried exactly `maxAttempts` times: after so many rounds it is
  -- disconnected, with the number of the last attempt, no timer, no mark and no suspended call.
  pub retries_exhausted :
      (error : Text) (rounds : List (Outcome × ℕ)) (status : HostConnectionStatus) (attempt : ℕ)
      (s : Supervisor)
      → 1 ≤ o.max_attempts
      → length rounds ≡ o.max_attempts
      → is_non_retryable (text_failure error) ≡ false
      → All (λ r. IsRetried r.0) rounds
      → IsIdle status attempt s
      → IsIdle disconnected o.max_attempts (run o (drops server error ∷ failing_rounds rounds) s)
  unfolding run step
  retries_exhausted error [] status attempt s some_attempts as_many again all_retried v =
      let no_round : ⊥ = omega arith in elim no_round [ ]
  retries_exhausted error (round ∷ rounds) status attempt s some_attempts as_many again all_retried
        v =
      rounds-IsIdle round rounds 1 _ all_retried (omega arith)
        (drops-IsWaiting error status attempt s again v)
