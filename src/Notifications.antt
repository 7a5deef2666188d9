-- ===== src/Notifications.antt =====
-- apps/desktop/src/main/notification-broker.ts: the notifications on the desktop. The call that
-- looks the session up suspends `notifyStatusAlert`, so it is two operations here.
pub mod Repeats
pub mod Overlap
mod Tests
use spawnea.Prelude.{
  ℕ, ◌+◌, Bool, true, false, ◌&&◌, ◌||◌, not, Option, none, some, List, [], ◌∷◌, ◌++◌, String, ◌==◌,
  if◌then◌else◌, Dict, get, set, delete, str_eq, get_or,
}
use spawnea.Prelude.Units.{text_eq, trim, Text, units, or_else}
use spawnea.Status.{SessionStatus, needs_input, error, status_text}

-- What the broker reads of a `SessionStatusResult`.
pub record StatusResult : Type 0 where
  pub status : SessionStatus
  pub detected_prompt : Option Text
  pub reason : Text

pub record Alert : Type 0 where
  pub alert_id : Text
  pub timestamp : ℕ

pub record Broker : Type 0 where
  pub active_session_id : Option String
  pub notified_alerts : Dict Alert

abbrev pub new_broker : Broker
new_broker = record { active_session_id = none; notified_alerts = [] }

pub clear_alert : String → Broker → Broker
clear_alert session b = record b { notified_alerts = delete session b.notified_alerts }

pub set_active_session_id : Option String → Broker → Broker
unfolding clear_alert
set_active_session_id none b = record b { active_session_id = none }
set_active_session_id (some session) b =
    let selected = record b { active_session_id = some session } in
    if str_eq session "" then selected else clear_alert session selected

pub get_alert_id : String → StatusResult → Text
get_alert_id session r =
    units session
    ++ b':' ∷ status_text r.status
    ++ b':' ∷ trim (or_else (get_or r.detected_prompt []) r.reason)

pub record Window : Type 0 where
  pub is_destroyed : Bool
  pub has_focus : Bool

-- `getAllWindows().find(w => !w.isDestroyed())`, and whether it has the focus.
pub is_window_focused : List Window → Bool
is_window_focused [] = false
is_window_focused (w ∷ windows) = if w.is_destroyed then is_window_focused windows else w.has_focus

-- The desktop at the time of a call.
pub record Desktop : Type 0 where
  pub windows : List Window
  pub is_supported : Bool
  pub now : ℕ

abbrev pub is_attention : SessionStatus → Bool
is_attention needs_input = true
is_attention error = true
is_attention _ = false

-- The session that has the focus of its user.
pub is_active : String → Broker → Bool
is_active session b = elim b.active_session_id [
  | none ↦ false
  | some active ↦ str_eq active session
]

-- The alert on record is the one of the call.
pub is_notified : String → Text → Broker → Bool
is_notified session alert b = elim (get session b.notified_alerts) [
  | none ↦ false
  | some known ↦ text_eq known.alert_id alert
]

mark_notified : String → Text → ℕ → Broker → Broker
mark_notified session alert now b = record b {
  notified_alerts = set session (record { alert_id = alert; timestamp = now }) b.notified_alerts;
}

-- `suspended` waits for the look-up of the session.
pub data Progress : Type 0 where
  quiet : Progress
  suspended : Progress

-- `notifyStatusAlert` up to the look-up; `quiet` resolves to false.
pub notify_status_alert : String → StatusResult → Desktop → Broker → Broker × Progress
unfolding is_active is_notified mark_notified clear_alert
notify_status_alert session r desktop b =
    if not (is_attention r.status)
    then (clear_alert session b, quiet)
    else if is_notified session (get_alert_id session r) b
    then (b, quiet)
    else if is_active session b && is_window_focused desktop.windows
    then (b, quiet)
    else if not desktop.is_supported
    then (mark_notified session (get_alert_id session r) desktop.now b, quiet)
    else (b, suspended)

pub record Notice : Type 0 where
  pub title : Text
  pub body : Text

pub notice : Text → StatusResult → Notice
notice name r = elim r.status as (λ _. Notice) [
  | needs_input ↦ record {
    title = units "Spawnea: Input Required";
    body = elim (get_or r.detected_prompt []) [
      | [] ↦ name ++ units " is waiting for confirmation or input"
      | c ∷ s ↦ name ++ units ": " ++ c ∷ s
    ];
  }
  | error ↦ record {
    title = units "Spawnea: Session Error";
    body = name ++ units ": " ++ or_else r.reason (units "Process exited with error");
  }
  | _ ↦ record {
    title = units "Spawnea: Attention Required";
    body = units "Session '" ++ name ++ units "' requires attention";
  }
]

-- What the look-up does: it throws, finds nothing, or finds the session's name.
pub data Lookup : Type 0 where
  throws : Lookup
  missing : Lookup
  found : Text → Lookup

-- `failed` resolves to false, `rejected` is the error of the look-up.
pub data Reply : Type 0 where
  shown : Notice → Reply
  failed : Reply
  rejected : Reply

-- The rest of `notifyStatusAlert`; `works` is whether the desktop shows the notification.
pub show_notice : String → StatusResult → Lookup → Bool → ℕ → Broker → Broker × Reply
unfolding notice mark_notified
show_notice session r throws works now b = (b, rejected)
show_notice session r missing works now b =
    if works
    then (mark_notified session (get_alert_id session r) now b, shown (notice (units session) r))
    else (b, failed)
show_notice session r (found name) works now b =
    if works
    then (mark_notified session (get_alert_id session r) now b, shown (notice name r))
    else (b, failed)

-- What happens to a broker, in the order in which it happens.
pub data Event : Type 0 where
  selects : Option String → Event
  clears : String → Event
  notifies : String → StatusResult → Desktop → Event
  displays : String → StatusResult → Lookup → Bool → ℕ → Event

pub step : Event → Broker → Broker
unfolding notify_status_alert show_notice set_active_session_id
step (selects session) b = set_active_session_id session b
step (clears session) b = clear_alert session b
step (notifies session r desktop) b = (notify_status_alert session r desktop b).0
step (displays session r lookup works now) b = (show_notice session r lookup works now b).0

pub run : List Event → Broker → Broker
unfolding step
run [] b = b
run (e ∷ events) b = run events (step e b)
