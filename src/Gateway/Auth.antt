-- ===== src/Gateway/Auth.antt =====
-- authenticate of apps/desktop/src/main/control-gateway.ts: the first line of a socket, up to which
-- nothing is served. Bytes are numbers. The reading of the line as JSON, the UTF-8 form of a text
-- and the clock are arguments; the scope of a session is created by the control service, whose
-- answers are events.
pub mod Line
pub mod Token
use spawnea.Prelude.{
  ℕ, suc, ◌+◌, Bool, true, false, ◌||◌, ◌&&◌, not, Option, none, some, List, [], ◌∷◌, ◌++◌, ltb,
  leb, ◌==◌, if◌then◌else◌, length,
}
use spawnea.Prelude.Units.{Text, text_eq}

abbrev pub max_auth_bytes : ℕ
max_auth_bytes = 4096

abbrev pub auth_timeout_ms : ℕ
auth_timeout_ms = 3000

-- `sessionId` of the line: it is left out, a text, or no text.
pub data SessionField : Type 0 where
  left_out : SessionField
  given : Text → SessionField
  no_text : SessionField

-- The line as JSON: whether its type is `spawnea-auth`, and its token when that is a text.
pub record AuthLine : Type 0 where
  pub is_auth : Bool
  pub token : Option Text
  pub session_id : SessionField

-- The bytes before the first newline and those after it.
pub first_line : List ℕ → Option (List ℕ × List ℕ)
first_line [] = none
first_line (byte ∷ bytes) =
    let later : Option (List ℕ × List ℕ) = elim (first_line bytes) [
      | none ↦ none
      | some (line, rest) ↦ some (byte ∷ line, rest)
    ] in
    if byte == 0x0a then some ([], bytes) else later

-- Where the authentication of a socket stands: it reads the line, waits for the scope of a
-- session, has refused, or serves the operations of a session or of all.
pub data AuthStage : Type 0 where
  reading : List ℕ → AuthStage
  scoping : Text → List ℕ → ℕ → AuthStage
  refused : AuthStage
  serving : Option Text → List ℕ → AuthStage

pub record Auth : Type 0 where
  pub stage : AuthStage
  pub is_destroyed : Bool

pub data AuthEvent : Type 0 where
  chunk_read : List ℕ → ℕ → AuthEvent
  scope_created : AuthEvent
  scope_failed : ℕ → AuthEvent
  destroyed : AuthEvent

module _ (parse : List ℕ → Option AuthLine) (to_bytes : Text → List ℕ) (token : Text) where
  -- `sameToken`; only whether all bytes are the same matters here, not the time that it takes.
  pub same_token : Option Text → Bool
  same_token none = false
  same_token (some actual) = text_eq (to_bytes actual) (to_bytes token)

  -- `socket.destroy()` with a refusal
  pub refuse : Auth
  refuse = record { stage = refused; is_destroyed = true }

  -- The line has been accepted.
  pub accept : SessionField → List ℕ → ℕ → Bool → Auth
  unfolding refuse
  accept left_out rest now is_destroyed =
      if is_destroyed then refuse else record { stage = serving none rest; is_destroyed = false }
  accept (given []) rest now is_destroyed = refuse
  accept (given (c ∷ s)) rest now is_destroyed = record {
    stage = scoping (c ∷ s) rest (now + auth_timeout_ms);
    is_destroyed = is_destroyed;
  }
  accept no_text rest now is_destroyed = refuse

  pub read_line : List ℕ → List ℕ → ℕ → Bool → Auth
  unfolding accept same_token refuse
  read_line line rest now is_destroyed = elim (parse line) [
    | none ↦ refuse
    | some auth ↦
        if auth.is_auth && same_token auth.token
        then accept auth.session_id rest now is_destroyed
        else refuse
  ]

  -- `handleChunk`
  pub handle_chunk : List ℕ → List ℕ → ℕ → Bool → Auth
  unfolding read_line first_line refuse
  handle_chunk buffered chunk now is_destroyed = elim (first_line (buffered ++ chunk)) [
    | none ↦
        if ltb max_auth_bytes (length (buffered ++ chunk))
        then refuse
        else record { stage = reading (buffered ++ chunk); is_destroyed = is_destroyed }
    | some (line, rest) ↦
        if ltb max_auth_bytes (length line) then refuse else read_line line rest now is_destroyed
  ]

  -- What an event makes of a stage, of a socket that is destroyed or not.
  pub advance : AuthEvent → AuthStage → Bool → Auth
  unfolding handle_chunk refuse
  advance (chunk_read chunk now) (reading buffered) is_destroyed =
      handle_chunk buffered chunk now is_destroyed
  advance (chunk_read chunk now) stage is_destroyed = record {
    stage = stage;
    is_destroyed = is_destroyed;
  }
  advance scope_created (scoping id rest deadline) is_destroyed =
      if is_destroyed
      then refuse
      else record { stage = serving (some id) rest; is_destroyed = false }
  advance scope_created stage is_destroyed = record { stage = stage; is_destroyed = is_destroyed }
  advance (scope_failed now) (scoping id rest deadline) is_destroyed =
      if is_destroyed || leb deadline now
      then refuse
      else record { stage = scoping id rest deadline; is_destroyed = is_destroyed }
  advance (scope_failed now) stage is_destroyed = record {
    stage = stage;
    is_destroyed = is_destroyed;
  }
  advance destroyed stage is_destroyed = record { stage = stage; is_destroyed = true }

  unfoldable pub after_auth_events : List AuthEvent → Auth → Auth
  unfolding advance
  after_auth_events [] a = a
  after_auth_events (event ∷ events) a =
      after_auth_events events (advance event a.stage a.is_destroyed)
