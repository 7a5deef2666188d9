-- ===== src/Notifications/Tests.antt =====
-- Runs of the broker, and the theorems at concrete inputs.
use spawnea.Prelude.{arith, str_eq_iff, ◌≡◌, refl, true, false, none, some, [], ◌∷◌, get}
use spawnea.Prelude.Units.{units}
use spawnea.Status.{needs_input, working}
use spawnea.Notifications.{
  StatusResult, new_broker, Desktop, notifies, quiet, suspended, found, shown, notice, is_active,
  is_notified, is_window_focused, notify_status_alert, show_notice, run,
}
use spawnea.Notifications.Repeats.{notify_status_alert-repeated, IsAbout}
use spawnea.Notifications.Overlap.{notify_status_alert-overlaps}

abbrev prompt : StatusResult
prompt = record {
  status = needs_input;
  detected_prompt = some (units "Continue?");
  reason = units "rule";
}

abbrev busy : StatusResult
busy = record { status = working; detected_prompt = none; reason = units "output" }

-- A desktop with one window that has the focus.
abbrev desk : Desktop
desk = record {
  windows = record { is_destroyed = false; has_focus = true } ∷ [];
  is_supported = true;
  now = 7;
}

goes_on : notify_status_alert "s" prompt desk new_broker ≡ (new_broker, suspended)
unfolding notify_status_alert is_notified is_active get
goes_on = refl

-- The user looks at the session.
looked_at :
    let b = record new_broker { active_session_id = some "s" } in
    notify_status_alert "s" prompt desk b ≡ (b, quiet)
unfolding notify_status_alert is_notified is_active get is_window_focused
looked_at = refl

other : IsAbout "s" (notifies "t" busy desk) → ⊥
other e = ground (arith, str_eq_iff "t" "s")

notify_status_alert-repeated_example :
    let b =
      run
        (notifies "t" busy desk ∷ [])
        (show_notice "s" prompt (found (units "S")) true 8 new_broker).0 in
    notify_status_alert "s" prompt desk b ≡ (b, quiet)
unfolding show_notice
notify_status_alert-repeated_example =
    notify_status_alert-repeated "s" prompt prompt (found (units "S")) true 8 new_broker
      (notice (units "S") prompt) (notifies "t" busy desk ∷ []) desk refl (other, tt) refl refl

notify_status_alert-overlaps_example :
    let b₁ = (notify_status_alert "s" prompt desk new_broker).0 in
    let b₂ = (notify_status_alert "s" prompt desk b₁).0 in
    let (b₃, first) = show_notice "s" prompt (found (units "S")) true 8 b₂ in
    let (_, second) = show_notice "s" prompt (found (units "S")) true 9 b₃ in
    ((notify_status_alert "s" prompt desk b₁).1 ≡ suspended)
    × (first ≡ shown (notice (units "S") prompt))
    × (second ≡ shown (notice (units "S") prompt))
notify_status_alert-overlaps_example =
    notify_status_alert-overlaps "s" prompt desk (units "S") 8 9 new_broker (λ i. (goes_on i).1)
