-- ===== src/Supervisor/Stops.antt =====
-- What stopPolling does to the checks that are under way.
use spawnea.Prelude.{
  ℕ, ◌≡◌, ◌≢◌, ◌≤◌, ◌<◌, refl, inl, inr, sym, subst, ◌∙◌, Bool, true, false, ◌&&◌, ◌||◌, not,
  Option, none, some, List, [], ◌∷◌, ◌++◌, String, ◌==◌, if◌then◌else◌, get, set, delete, has,
  get_or, get-set, get-delete, str_eq, str_eq_iff, str_eq_refl, arith, Option-cases, Bool-cases,
  both_branches, All,
}
use spawnea.Status.{SessionStatus}
use spawnea.Supervisor.{
  Stage, inspecting, scanning, storing, capturing, retaining, Supervisor, Effect, check_state,
  status_changed, retain_links, status_eq, in_stage, check_session, end_check, capture_links,
  compare_status, inspected, captured, Answer, inspects, scans, stores, captures, retains, fails,
  go_on, answer, activity, debounce_fires, start_polling, stop_polling, poll_tick, order_sessions,
  Event, checks, answers, outputs, fires, starts, stops, ticks, lists, round_ends, window_changes,
  notify_check_state, step, run,
}

-- The session has no check, or one that waits for its host since before the current generation.
pub data IsLate (session : String) (s : Supervisor) : Type 0 where
  absent : get session s.in_flight_checks ≡ none → IsLate session s
  waiting :
      (generation : ℕ)
      → get session s.in_flight_checks
        ≡ some (record { generation = generation; stage = inspecting })
      → generation < s.polling_generation
      → IsLate session s

-- A status of the session that is published, or links of it that are kept.
abbrev pub published : String → List Effect → List Effect
published session [] = []
published session (check_state other on ∷ effects) = published session effects
published session (status_changed other status ∷ effects) =
    if str_eq other session
    then status_changed other status ∷ published session effects
    else published session effects
published session (retain_links other ∷ effects) =
    if str_eq other session
    then retain_links other ∷ published session effects
    else published session effects

published-notify_check_state :
    (session other : String) (on : Bool) (s : Supervisor)
    → published session (notify_check_state other on s) ≡ []
unfolding notify_check_state
published-notify_check_state session other on s = ground arith

-- An event that does not begin a check of the session.
abbrev pub IsNoCheck : String → Event → Type 0
IsNoCheck session (checks other _) = other ≢ session
IsNoCheck session (fires other) = other ≢ session
IsNoCheck session _ = Unit

-- The generation stays or grows, and the checks of other sessions are left alone.
abbrev KeepsOthers : String → Supervisor → Supervisor × List Effect → Type 0
KeepsOthers other s (s', effects) =
    (s'.polling_generation ≡ s.polling_generation)
    × ((session : String)
        → other ≢ session
        → (get session s'.in_flight_checks ≡ get session s.in_flight_checks)
          × (published session effects ≡ []))

module _ (other : String) where
  in_stage-get :
      (s : Supervisor) (generation : ℕ) (stage : Stage) (session : String)
      → other ≢ session
      → get session (in_stage other generation stage s).in_flight_checks
        ≡ get session s.in_flight_checks
  in_stage-get s generation stage session h = ground (
    arith,
    str_eq_iff other session,
    get-set other session (record { generation = generation; stage = stage }) s.in_flight_checks,
  )

  end_check-KeepsOthers : (s : Supervisor) → KeepsOthers other s (end_check other s)
  unfolding end_check
  end_check-KeepsOthers s = (
    refl,
    λ session h. (
      ground (arith, str_eq_iff other session, get-delete other session s.in_flight_checks),
      published-notify_check_state session other false s,
    ),
  )

  capture_links-KeepsOthers :
      (s : Supervisor) (generation : ℕ) (links : Bool)
      → KeepsOthers other s (capture_links other generation links s)
  unfolding capture_links
  capture_links-KeepsOthers s generation links =
      elim (Bool-cases (links && (generation == s.polling_generation))) [
        | inl e ↦ rw e (refl, λ session h. (in_stage-get s generation capturing session h, refl))
        | inr e ↦ rw e (end_check-KeepsOthers s)
      ]

  compare_status-KeepsOthers :
      (s : Supervisor) (generation : ℕ) (status stored : SessionStatus) (links : Bool)
      → KeepsOthers other s (compare_status other generation status stored links s)
  unfolding compare_status
  compare_status-KeepsOthers s generation status stored links =
      let s' : Supervisor = record s { last_status = set other status s.last_status } in
      let previous = get_or (get other s.last_status) stored in
      elim (Bool-cases (not (status_eq status stored) || not (status_eq status previous))) [
        | inl e ↦
            rw e (
              refl,
              λ session h. (in_stage-get s' generation (storing status links) session h, refl),
            )
        | inr e ↦ rw e (capture_links-KeepsOthers s' generation links)
      ]

  inspected-KeepsOthers :
      (s : Supervisor) (generation : ℕ) (status stored : SessionStatus) (artifacts links : Bool)
      → KeepsOthers other s (inspected other generation status stored artifacts links s)
  unfolding inspected
  inspected-KeepsOthers s generation status stored artifacts links =
      both_branches (KeepsOthers other s) (not (generation == s.polling_generation))
        (end_check other s)
        (if artifacts
          then (in_stage other generation (scanning status stored links) s, [])
          else compare_status other generation status stored links s)
        (end_check-KeepsOthers s) (go artifacts)
    where
      go :
          (artifacts : Bool)
          → KeepsOthers other s (
              if artifacts
              then (in_stage other generation (scanning status stored links) s, [])
              else compare_status other generation status stored links s)
      go true = (
        refl,
        λ session h. (in_stage-get s generation (scanning status stored links) session h, refl),
      )
      go false = compare_status-KeepsOthers s generation status stored links

  captured-KeepsOthers :
      (s : Supervisor) (generation : ℕ) (filled : Bool)
      → KeepsOthers other s (captured other generation filled s)
  unfolding captured
  captured-KeepsOthers s generation filled =
      elim (Bool-cases ((generation == s.polling_generation) && filled)) [
        | inl e ↦ rw e (
          refl,
          λ session h. (
            in_stage-get s generation retaining session h,
            ground (arith, str_eq_iff other session),
          ),
        )
        | inr e ↦ rw e (end_check-KeepsOthers s)
      ]

  go_on-KeepsOthers :
      (s : Supervisor) (generation : ℕ) (stage : Stage) (a : Answer)
      → KeepsOthers other s (go_on other generation stage a s)
  unfolding go_on
  go_on-KeepsOthers s generation stage fails = end_check-KeepsOthers s
  go_on-KeepsOthers s generation inspecting (inspects status stored artifacts links) =
      inspected-KeepsOthers s generation status stored artifacts links
  go_on-KeepsOthers s generation (scanning status stored links) scans =
      compare_status-KeepsOthers s generation status stored links
  go_on-KeepsOthers s generation (storing status links) stores =
      let (same, others) = capture_links-KeepsOthers s generation links in
      (
        same,
        λ session h.
            ((others session h).0, ground (arith, str_eq_iff other session, (others session h).1)),
      )
  go_on-KeepsOthers s generation capturing (captures filled) =
      captured-KeepsOthers s generation filled
  go_on-KeepsOthers s generation retaining retains = end_check-KeepsOthers s
  go_on-KeepsOthers s generation _ _ = (refl, λ session h. (refl, refl))

  answer-KeepsOthers : (a : Answer) (s : Supervisor) → KeepsOthers other s (answer other a s)
  unfolding answer
  answer-KeepsOthers a s = elim (Option-cases (get other s.in_flight_checks)) [
    | inl e ↦ rw (e, answer) (refl, λ session h. (refl, refl))
    | inr (c, e) ↦ rw (e, answer) (go_on-KeepsOthers s c.generation c.stage a)
  ]

  check_session-KeepsOthers :
      (generation : Option ℕ) (s : Supervisor)
      → KeepsOthers other s (check_session other generation s)
  unfolding check_session
  check_session-KeepsOthers generation s =
      both_branches (KeepsOthers other s) (has other s.in_flight_checks) (s, [])
        (
          in_stage other (get_or generation s.polling_generation) inspecting s,
          notify_check_state other true s,
        )
        (refl, λ session h. (refl, refl))
        (
          refl,
          λ session h. (
            in_stage-get s (get_or generation s.polling_generation) inspecting session h,
            published-notify_check_state session other true s,
          ),
        )

  debounce_fires-KeepsOthers : (s : Supervisor) → KeepsOthers other s (debounce_fires other s)
  unfolding debounce_fires
  debounce_fires-KeepsOthers s = elim (Option-cases (get other s.activity_debounce_timers)) [
    | inl e ↦ rw (e, debounce_fires) (refl, λ session h. (refl, refl))
    | inr (c, e) ↦
        rw (e, debounce_fires)
          (check_session-KeepsOthers none
            (record s { activity_debounce_timers = delete other s.activity_debounce_timers }))
  ]

late_of_same :
    (session : String) (s s' : Supervisor)
    → get session s'.in_flight_checks ≡ get session s.in_flight_checks
    → s.polling_generation ≤ s'.polling_generation
    → IsLate session s
    → IsLate session s'
late_of_same session s s' same later (absent e) = absent (same ∙ e)
late_of_same session s s' same later (waiting g e l) = waiting g (same ∙ e) (omega arith)

late_of_KeepsOthers :
    (session other : String) (s : Supervisor) (r : Supervisor × List Effect)
    → other ≢ session
    → KeepsOthers other s r
    → IsLate session s
    → IsLate session r.0 × (published session r.1 ≡ [])
late_of_KeepsOthers session other s (s', effects) h (same, others) late = (
  late_of_same session s s' (others session h).0 (omega (arith, same)) late,
  (others session h).1,
)

end_check-late :
    (session : String) (s : Supervisor)
    → IsLate session (end_check session s).0 × (published session (end_check session s).1 ≡ [])
unfolding end_check
end_check-late session s = (
  absent (ground (arith, get-delete session session s.in_flight_checks, str_eq_refl session)),
  published-notify_check_state session session false s,
)

go_on-late :
    (session : String) (g : ℕ) (a : Answer) (s : Supervisor)
    → IsLate session s
    → g < s.polling_generation
    → IsLate session (go_on session g inspecting a s).0
      × (published session (go_on session g inspecting a s).1 ≡ [])
unfolding go_on inspected
go_on-late session g fails s late l = end_check-late session s
go_on-late session g (inspects status stored artifacts links) s late l =
    let old : (g == s.polling_generation) ≡ false = ground arith in
    rw old (end_check-late session s)
go_on-late session g scans s late l = (late, refl)
go_on-late session g stores s late l = (late, refl)
go_on-late session g (captures filled) s late l = (late, refl)
go_on-late session g retains s late l = (late, refl)

answer-late :
    (session : String) (a : Answer) (s : Supervisor)
    → IsLate session s
    → IsLate session (answer session a s).0 × (published session (answer session a s).1 ≡ [])
unfolding answer
answer-late session a s (absent e) = rw (e, answer) (absent e, refl)
answer-late session a s (waiting g e l) =
    rw (e, answer) (go_on-late session g a s (waiting g e l) l)

step-late :
    (session : String) (e : Event) (s : Supervisor)
    → IsNoCheck session e
    → IsLate session s
    → IsLate session (step e s).0 × (published session (step e s).1 ≡ [])
unfolding step activity start_polling stop_polling poll_tick
step-late session (checks other generation) s h late =
    late_of_KeepsOthers session other s (check_session other generation s) h
      (check_session-KeepsOthers other generation s) late
step-late session (answers other a) s h late = elim (Bool-cases (str_eq other session)) [
  | inl same ↦
      subst (λ k. IsLate session (answer k a s).0 × (published session (answer k a s).1 ≡ []))
        (sym ((str_eq_iff other session).0 same)) (answer-late session a s late)
  | inr apart ↦
      late_of_KeepsOthers session other s (answer other a s)
        (λ same. ground (arith, apart, str_eq_iff other session)) (answer-KeepsOthers other a s)
        late
]
step-late session (outputs other) s h late =
    (late_of_same session s _ refl (omega arith) late, refl)
step-late session (fires other) s h late =
    late_of_KeepsOthers session other s (debounce_fires other s) h
      (debounce_fires-KeepsOthers other s) late
step-late session (starts interval) s h late =
    (late_of_same session s _ refl (omega arith) late, refl)
step-late session stops s h late =
    (late_of_same session s (stop_polling s) refl (omega arith) late, refl)
step-late session ticks s h late = (
  both_branches (λ (r : Supervisor × Bool). IsLate session r.0) s.is_polling (s, false)
      (record s { is_polling = true }, true) late
      (late_of_same session s (record s { is_polling = true }) refl (omega arith) late),
  refl,
)
step-late session (lists []) s h late = unfold order_sessions in (late, refl)
step-late session (lists (x ∷ xs)) s h late =
    unfold order_sessions in (late_of_same session s _ refl (omega arith) late, refl)
step-late session round_ends s h late = (late_of_same session s _ refl (omega arith) late, refl)
step-late session (window_changes there) s h late =
    (late_of_same session s _ refl (omega arith) late, refl)

run-late :
    (session : String) (events : List Event) (s : Supervisor)
    → All (IsNoCheck session) events
    → IsLate session s
    → published session (run events s).1 ≡ []
unfolding run
run-late session [] s h late = refl
run-late session (e ∷ events) s (p, h) late =
    let (late', quiet) = step-late session e s p late in
    published-append (step e s).1 (run events (step e s).0).1 quiet
      (run-late session events (step e s).0 h late')
  where
    published-append :
        (xs ys : List Effect)
        → published session xs ≡ []
        → published session ys ≡ []
        → published session (xs ++ ys) ≡ []
    published-append [] ys p q = q
    published-append (check_state other on ∷ xs) ys p q = published-append xs ys p q
    published-append (status_changed other status ∷ xs) ys p q =
        ground (arith, published-append xs ys)
    published-append (retain_links other ∷ xs) ys p q = ground (arith, published-append xs ys)

-- A check that waits for its host when the polling stops, and that was begun with the generation
-- of then or an earlier one, publishes no status and keeps no links, whatever happens after that,
-- as long as no other check of the session is begun.
pub run-stops-published :
    (session : String) (g : ℕ) (s : Supervisor) (events : List Event)
    → get session s.in_flight_checks ≡ some (record { generation = g; stage = inspecting })
    → g ≤ s.polling_generation
    → All (IsNoCheck session) events
    → published session (run (stops ∷ events) s).1 ≡ []
unfolding run step stop_polling
run-stops-published session g s events e l h =
    run-late session events (stop_polling s) h (waiting g e (omega arith))
