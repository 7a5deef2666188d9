-- ===== src/Reconnect/Stuck.antt =====
-- Two interleavings that the supervisor does not mean to allow.
use spawnea.Prelude.{
  ℕ, ◌+◌, ◌<◌, ◌≡◌, refl, ap, String, false, ◌&&◌, none, some, [], ◌∷◌, arith, get, delete, has,
  get-set, get-delete, str_eq_refl,
}
use spawnea.Prelude.Units.{Text}
use spawnea.Reconnect.{
  HostConnectionState, HostConnectionStatus, reconnecting, Options, Failure, succeeds, throws,
  acting, finishing, rescheduling, Supervisor, get_state, get_backoff_delay, handle_connection_drop,
  timer_fires, resumes_at, dispose, drops, fires, resumes, disposes, step, run, is_non_retryable,
  text_failure, is_reconnecting, notify, suspend, waiting, resume_task, action_ended,
}
use spawnea.Reconnect.Exhaustion.{
  Host, IsActing, timer_of, get_state-notify, resumes_first, attempt_failed-retries, retried,
}

module _ (o : Options) (server : String) where
  module _ (error : Text) (now : ℕ) (status : HostConnectionStatus) (attempt : ℕ)
      (again : is_non_retryable (text_failure error) ≡ false) where
    drop-schedules :
        (s : Supervisor)
        → Host o server (finishing server ∷ []) (some tt) none status attempt s
        → Host o server
            (finishing server ∷ [])
            (some tt)
            (some (timer_of o server 1))
            reconnecting
            1
            (handle_connection_drop o server error s)
    unfolding handle_connection_drop
    drop-schedules s v =
        let free : (is_reconnecting (get_state o server s).status && has server s.retry_timers)
            ≡ false =
          ground arith in
        let noted =
          get_state-notify o server
            (waiting o 1 (get_backoff_delay o 1) (some error)
              (get_state o server s).last_connected_at)
            s in
        rw (again, free)
          (record {
            suspended = v.suspended;
            marked = v.marked;
            timed = ground (
              arith,
              get-set server server (timer_of o server 1) (delete server s.retry_timers),
              str_eq_refl server,
            );
            has_status =
                unfold get_state in ap (λ (state : HostConnectionState). state.status) noted;
            has_attempt =
                unfold get_state in ap (λ (state : HostConnectionState). state.attempt) noted;
          })

    fire-is_lost :
        (s : Supervisor)
        → Host o server
            (finishing server ∷ [])
            (some tt)
            (some (timer_of o server 1))
            reconnecting
            1
            s
        → Host o server
            (finishing server ∷ [])
            (some tt)
            none
            reconnecting
            1
            (timer_fires o server s)
    unfolding timer_fires get_state
    fire-is_lost s v = ground (arith, get-delete server server s.retry_timers, str_eq_refl server)

    finish-releases :
        (s : Supervisor)
        → Host o server (finishing server ∷ []) (some tt) none reconnecting 1 s
        → Host o server [] none none reconnecting 1 (resumes_at o 0 succeeds now s)
    unfolding resume_task
    finish-releases s v =
        rw (resumes_first o server succeeds now (finishing server) s v.suspended) (record {
          suspended = refl;
          marked =
              ground
                (arith, get-delete server server s.in_flight_reconnections, str_eq_refl server);
          timed = v.timed;
          has_status = unfold get_state in v.has_status;
          has_attempt = unfold get_state in v.has_attempt;
        })

    -- While the listeners of a finished attempt are still awaited, a drop is reported and its
    -- timer fires before they are done: the host is left reconnecting at attempt 1 with no timer,
    -- no mark and no suspended call, so nothing will ever retry it.
    pub drop_while_finishing_sticks :
        (s : Supervisor)
        → Host o server (finishing server ∷ []) (some tt) none status attempt s
        → Host o server [] none none reconnecting 1
            (run o (drops server error ∷ fires server ∷ resumes 0 succeeds now ∷ []) s)
    unfolding run step
    drop_while_finishing_sticks s v = finish-releases _ (fire-is_lost _ (drop-schedules s v))

  -- A call that is suspended while the supervisor is disposed of goes on when its action fails,
  -- and starts a timer in the disposed supervisor, if the failure is one to retry and was not the
  -- last attempt.
  pub dispose_then_failure_schedules :
      (n now : ℕ) (f : Failure) (s : Supervisor)
      → is_non_retryable f ≡ false
      → n < o.max_attempts
      → IsActing o server n s
      → get server
          (run o (disposes ∷ resumes 0 (throws f) now ∷ resumes 0 succeeds now ∷ []) s).retry_timers
        ≡ some (timer_of o server (n + 1))
  unfolding run step
  dispose_then_failure_schedules n now f s retryable more v =
      let first =
        resumes_first o server (throws f) now (acting server n) (dispose o s)
          (unfold dispose in v.suspended) in
      let s' : Supervisor = record (dispose o s) { tasks = [] } in
      let task = rescheduling server (n + 1) (get_backoff_delay o (n + 1)) in
      rw (first) (
        unfold resume_task action_ended in
        rw (attempt_failed-retries o server n f s' retryable more) (
          rw
            (resumes_first o server succeeds now task (retried o server n f s')
              (unfold suspend notify in refl))
            (ground (
              arith,
              get-set server server (timer_of o server (n + 1))
                  (delete server (dispose o s).retry_timers),
              str_eq_refl server,
            ))))
