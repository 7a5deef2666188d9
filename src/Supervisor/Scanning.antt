-- ===== src/Supervisor/Scanning.antt =====
-- A check that looks through the artifacts when the polling stops.
use spawnea.Prelude.{
  ℕ, ◌≡◌, ◌≤◌, refl, ap, ◌∙◌, Bool, true, false, some, List, [], ◌∷◌, ◌++◌, String, ◌==◌, get, set,
  get-set, str_eq_refl, arith,
}
use spawnea.Status.{SessionStatus}
use spawnea.Supervisor.{
  scanning, storing, notify_check_state, Check, Supervisor, Effect, status_changed, status_eq,
  in_stage, end_check, capture_links, compare_status, go_on, answer, scans, stores, stop_polling,
  Event, stops, answers, step, run,
}
use spawnea.Supervisor.Stops.{published}

answer_of :
    (session : String) (c : Check) (s : Supervisor)
    → get session s.in_flight_checks ≡ some c
    → (a : _) → answer session a s ≡ go_on session c.generation c.stage a s
unfolding answer
answer_of session c s e a = rw (e, answer) refl

compare_status-changed :
    (session : String) (g : ℕ) (status stored : SessionStatus) (links : Bool) (s : Supervisor)
    → status_eq status stored ≡ false
    → compare_status session g status stored links s ≡ (
      in_stage session g
          (storing status links)
          (record s { last_status = set session status s.last_status }),
      [],
    )
unfolding compare_status
compare_status-changed session g status stored links s e = rw (e, compare_status) refl

run_of_step :
    (e : Event) (events : List Event) (s s' : Supervisor) (effects : List Effect)
    → step e s ≡ (s', effects)
    → (run (e ∷ events) s).1 ≡ effects ++ (run events s').1
unfolding run
run_of_step e events s s' effects same =
    ap (λ (r : Supervisor × List Effect). r.1 ++ (run events r.0).1) same

stored_late :
    (session : String) (g : ℕ) (status : SessionStatus) (links : Bool) (s : Supervisor)
    → (g == s.polling_generation) ≡ false
    → get session s.in_flight_checks
      ≡ some (record { generation = g; stage = storing status links })
    → (answer session stores s).1
      ≡ status_changed session status ∷ notify_check_state session false s
unfolding go_on capture_links end_check
stored_late session g status links s old e =
    ap (λ (r : Supervisor × List Effect). r.1)
      (answer_of session (record { generation = g; stage = storing status links }) s e stores)
    ∙ late links
  where
    late :
        (links : Bool)
        → (go_on session g (storing status links) stores s).1
          ≡ status_changed session status ∷ notify_check_state session false s
    late true = rw old refl
    late false = refl

-- A check that looks through the artifacts when the polling stops still publishes its status,
-- when that is another one than the stored status and the database stores it.
pub run-stops-scanning :
    (session : String) (g : ℕ) (status stored : SessionStatus) (links : Bool) (s : Supervisor)
    → get session s.in_flight_checks
      ≡ some (record { generation = g; stage = scanning status stored links })
    → g ≤ s.polling_generation
    → status_eq status stored ≡ false
    → published session (run (stops ∷ answers session scans ∷ answers session stores ∷ []) s).1
      ≡ status_changed session status ∷ []
unfolding run step stop_polling go_on
run-stops-scanning session g status stored links s e l changed =
    let s' : Supervisor = stop_polling s in
    let s'' : Supervisor =
      in_stage session g (storing status links)
        (record s' { last_status = set session status s'.last_status }) in
    let scanned : step (answers session scans) s' ≡ (s'', []) =
      answer_of session (record { generation = g; stage = scanning status stored links }) s' e scans
      ∙ compare_status-changed session g status stored links s' changed in
    let there : get session s''.in_flight_checks
        ≡ some (record { generation = g; stage = storing status links }) =
      ground (
        arith,
        str_eq_refl session,
        get-set session session (record { generation = g; stage = storing status links })
            s'.in_flight_checks,
      ) in
    let published' = stored_late session g status links s'' (ground arith) there in
    ap (published session)
      (run_of_step (answers session scans) (answers session stores ∷ []) s' s'' [] scanned)
    ∙ ap (λ (effects : List Effect). published session (effects ++ [])) published'
    ∙ unfold notify_check_state in ground (arith, str_eq_refl session)
