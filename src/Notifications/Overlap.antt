-- ===== src/Notifications/Overlap.antt =====
-- What lets an alert through again: a status that asks for nothing, the session being selected,
-- and a second call that begins before the first one has looked the session up.
use spawnea.Prelude.{ℕ, ◌≡◌, refl, true, false, String, get-delete, str_eq_refl, arith}
use spawnea.Prelude.Units.{Text}
use spawnea.Notifications.{
  StatusResult, Broker, Desktop, suspended, found, shown, notice, is_attention, is_active,
  is_notified, clear_alert, get_alert_id, notify_status_alert, show_notice,
}

is_notified-clear_alert :
    (session : String) (alert : Text) (b : Broker)
    → is_notified session alert (clear_alert session b) ≡ false
unfolding is_notified clear_alert
is_notified-clear_alert session alert b =
    ground (arith, get-delete session session b.notified_alerts, str_eq_refl session)

-- Once the session has had a status that asks for nothing, any alert of it goes on to the desktop
-- when there are notifications and the session is not the selected one.
pub notify_status_alert-rearmed :
    (session : String) (calm r : StatusResult) (before desktop : Desktop) (b : Broker)
    → is_attention calm.status ≡ false
    → is_attention r.status ≡ true
    → is_active session b ≡ false
    → desktop.is_supported ≡ true
    → let b' = (notify_status_alert session calm before b).0 in
      notify_status_alert session r desktop b' ≡ (b', suspended)
unfolding notify_status_alert clear_alert is_active
notify_status_alert-rearmed session calm r before desktop b c a i s =
    ground (arith, is_notified-clear_alert session (get_alert_id session r) b)

-- Two calls for the same alert that both begin before either has looked the session up both show
-- it: what the first one records is not read again.
pub notify_status_alert-overlaps :
    (session : String) (r : StatusResult) (desktop : Desktop) (name : Text) (now later : ℕ)
    (b : Broker)
    → (notify_status_alert session r desktop b).1 ≡ suspended
    → let b₁ = (notify_status_alert session r desktop b).0 in
      let b₂ = (notify_status_alert session r desktop b₁).0 in
      let (b₃, first) = show_notice session r (found name) true now b₂ in
      let (_, second) = show_notice session r (found name) true later b₃ in
      ((notify_status_alert session r desktop b₁).1 ≡ suspended)
      × (first ≡ shown (notice name r))
      × (second ≡ shown (notice name r))
unfolding notify_status_alert show_notice
notify_status_alert-overlaps session r desktop name now later b e = (ground arith, refl, refl)
