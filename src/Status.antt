-- ===== src/Status.antt =====
-- The states of a session of packages/domain/src/index.ts.
use spawnea.Prelude.Units.{Text, units}

pub data SessionStatus : Type 0 where
  starting : SessionStatus
  working : SessionStatus
  needs_input : SessionStatus
  idle : SessionStatus
  done : SessionStatus
  error : SessionStatus
  disconnected : SessionStatus

-- The string that stands for a state in the program.
abbrev pub status_text : SessionStatus → Text
status_text starting = units "starting"
status_text working = units "working"
status_text needs_input = units "needs_input"
status_text idle = units "idle"
status_text done = units "done"
status_text error = units "error"
status_text disconnected = units "disconnected"
