-- ===== src/Gateway/Tests.antt =====
-- Requests in pieces, and a frame that is too large.
use spawnea.Prelude.{
  ℕ, ◌≡◌, refl, false, true, Option, none, some, if◌then◌else◌, List, [], ◌∷◌, ◌++◌,
}
use spawnea.Prelude.Units.{Text, units, text_eq, trim, trim_start, trim_end, is_white, byte_length}
use spawnea.Gateway.{
  Request, call, malformed, chunk_event, settled_event, newline, serve_operations, after_events,
}
use spawnea.Gateway.Auth.{
  AuthLine, given, reading, serving, AuthEvent, chunk_read, scope_created, scope_failed,
  after_auth_events,
}
use spawnea.Gateway.Auth.Token.{IsAuthorized, after_auth_events-IsAuthorized}
use spawnea.Gateway.Framing.{joined, then_more, after_chunks, serve_operations-chunks}
use spawnea.Gateway.Draining.{ends, owed, serve_operations-ends}

-- A line is the method of a call.
abbrev as_method : Text → Request ℕ Text
as_method [] = malformed
as_method (c ∷ s) = call none (c ∷ s) []

abbrev first : Text
first = units "list " ++ newline ∷ units "sta"

abbrev pieces : List Text
pieces = (units "te" ++ newline ∷ newline ∷ []) ∷ units "stop" ∷ []

in_pieces :
    (after_chunks as_method pieces (serve_operations as_method first).0).0
    ≡ record { buffered = units "stop"; in_flight = 2; is_rejected = false; is_destroyed = false }
unfolding serve_operations after_events trim trim_start trim_end is_white byte_length
in_pieces = refl

not_rejected :
    (after_chunks as_method pieces (serve_operations as_method first).0).0.is_rejected ≡ false
unfolding serve_operations after_events trim trim_start trim_end is_white byte_length
not_rejected = refl

alive :
    (after_events as_method
      (settled_event ∷ chunk_event (units "te") ∷ [])
      (serve_operations as_method first).0).0.is_destroyed
    ≡ false
unfolding serve_operations after_events trim trim_start trim_end is_white byte_length
alive = refl

serve_operations-chunks_example :
    serve_operations as_method (first ++ joined pieces)
    ≡ then_more as_method (serve_operations as_method first) (λ c. after_chunks as_method pieces c)
serve_operations-chunks_example = serve_operations-chunks as_method first pieces not_rejected

serve_operations-ends_example :
    ends (
      (serve_operations as_method first).1
      ++ (after_events as_method
          (settled_event ∷ chunk_event (units "te") ∷ [])
          (serve_operations as_method first).0).1)
    ≡ owed
        (after_events as_method
          (settled_event ∷ chunk_event (units "te") ∷ [])
          (serve_operations as_method first).0).0
serve_operations-ends_example =
    serve_operations-ends as_method first (settled_event ∷ chunk_event (units "te") ∷ []) alive

-- The line `ok` has the token and names a session.
abbrev as_auth : List ℕ → Option AuthLine
as_auth line =
    if text_eq line (units "ok")
    then some
        (record { is_auth = true; token = some (units "key"); session_id = given (units "s1") })
    else none

abbrev same_bytes : Text → List ℕ
same_bytes text = text

abbrev auth_events : List AuthEvent
auth_events =
    chunk_read (units "o") 1
    ∷ chunk_read (units "k" ++ newline ∷ units "list") 2
    ∷ scope_failed 60
    ∷ scope_created
    ∷ []

served :
    (after_auth_events as_auth same_bytes
      (units "key")
      auth_events
      (record { stage = reading []; is_destroyed = false })).stage
    ≡ serving (some (units "s1")) (units "list")
unfolding after_auth_events
served = refl

after_auth_events-IsAuthorized_example :
    IsAuthorized as_auth same_bytes (units "key") auth_events (some (units "s1")) (units "list")
after_auth_events-IsAuthorized_example =
    after_auth_events-IsAuthorized as_auth same_bytes (units "key") auth_events (some (units "s1"))
      (units "list") served
