-- ===== src/Notifications/Repeats.antt =====
-- An alert is not repeated.
use spawnea.Prelude.Units.{text_eq_iff}
use spawnea.Prelude.{
  ℕ, ◌≡◌, refl, ◌∙◌, Bool, true, false, none, some, List, [], ◌∷◌, String, All, get, get-set,
  get-delete, str_eq, str_eq_iff, str_eq_refl, arith,
}
use spawnea.Notifications.{
  StatusResult, Broker, Desktop, Event, selects, clears, notifies, displays, quiet, Notice, Lookup,
  throws, missing, found, shown, is_attention, is_notified, mark_notified, clear_alert,
  set_active_session_id, get_alert_id, notify_status_alert, show_notice, step, run,
}

-- The session that an event is about.
abbrev pub IsAbout : String → Event → Type 0
IsAbout session (selects none) = ⊥
IsAbout session (selects (some other)) = other ≡ session
IsAbout session (clears other) = other ≡ session
IsAbout session (notifies other _ _) = other ≡ session
IsAbout session (displays other _ _ _ _) = other ≡ session

other-str_eq : (s t : String) → ((s ≡ t) → ⊥) → str_eq s t ≡ false
other-str_eq s t h = ground (arith, str_eq_iff s t)

-- An event about another session leaves the alert on record alone.
step-get :
    (session : String) (e : Event) (b : Broker)
    → (IsAbout session e → ⊥)
    → get session (step e b).notified_alerts ≡ get session b.notified_alerts
unfolding step set_active_session_id clear_alert notify_status_alert show_notice mark_notified
step-get session (selects none) b h = refl
step-get session (selects (some other)) b h =
    ground (arith, other-str_eq other session h, get-delete other session b.notified_alerts)
step-get session (clears other) b h =
    ground (arith, other-str_eq other session h, get-delete other session b.notified_alerts)
step-get session (notifies other r desktop) b h = ground (
  arith,
  other-str_eq other session h,
  get-delete other session b.notified_alerts,
  get-set other session (record { alert_id = get_alert_id other r; timestamp = desktop.now })
      b.notified_alerts,
)
step-get session (displays other r throws works now) b h = refl
step-get session (displays other r missing works now) b h = ground (
  arith,
  other-str_eq other session h,
  get-set other session (record { alert_id = get_alert_id other r; timestamp = now })
      b.notified_alerts,
)
step-get session (displays other r (found name) works now) b h = ground (
  arith,
  other-str_eq other session h,
  get-set other session (record { alert_id = get_alert_id other r; timestamp = now })
      b.notified_alerts,
)

run-get :
    (session : String) (events : List Event) (b : Broker)
    → All (λ e. IsAbout session e → ⊥) events
    → get session (run events b).notified_alerts ≡ get session b.notified_alerts
unfolding run
run-get session [] b h = refl
run-get session (e ∷ events) b (p, h) = run-get session events (step e b) h ∙ step-get session e b p

-- What is shown is on record.
show_notice-get :
    (session : String) (r : StatusResult) (lookup : Lookup) (works : Bool) (now : ℕ) (b : Broker)
    (n : Notice)
    → (show_notice session r lookup works now b).1 ≡ shown n
    → get session (show_notice session r lookup works now b).0.notified_alerts
      ≡ some (record { alert_id = get_alert_id session r; timestamp = now })
unfolding show_notice mark_notified
show_notice-get session r throws works now b n e = cc
show_notice-get session r missing works now b n e = ground (
  arith,
  str_eq_refl session,
  get-set session session (record { alert_id = get_alert_id session r; timestamp = now })
      b.notified_alerts,
)
show_notice-get session r (found name) works now b n e = ground (
  arith,
  str_eq_refl session,
  get-set session session (record { alert_id = get_alert_id session r; timestamp = now })
      b.notified_alerts,
)

-- After an alert of a session was shown, whatever happens to other sessions, a call with the same
-- alert shows nothing and changes nothing.
pub notify_status_alert-repeated :
    (session : String) (r again : StatusResult) (lookup : Lookup) (works : Bool) (now : ℕ)
    (b : Broker) (n : Notice) (events : List Event) (desktop : Desktop)
    → (show_notice session r lookup works now b).1 ≡ shown n
    → All (λ e. IsAbout session e → ⊥) events
    → is_attention again.status ≡ true
    → get_alert_id session again ≡ get_alert_id session r
    → let b' = run events (show_notice session r lookup works now b).0 in
      notify_status_alert session again desktop b' ≡ (b', quiet)
unfolding notify_status_alert is_notified
notify_status_alert-repeated session r again lookup works now b n events desktop e h a same =
    let shown' = (show_notice session r lookup works now b).0 in
    let known : get session (run events shown').notified_alerts
        ≡ some (record { alert_id = get_alert_id session r; timestamp = now }) =
      run-get session events shown' h ∙ show_notice-get session r lookup works now b n e in
    ground (arith, known, text_eq_iff (get_alert_id session r) (get_alert_id session again))
