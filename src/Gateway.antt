-- ===== src/Gateway.antt =====
-- serveOperations of apps/desktop/src/main/control-gateway.ts: the requests of an authenticated
-- socket, a line each. The chunks are as the decoder gives them; the reading of a line as JSON and
-- the operations are arguments, and a handler that waits for its operation settles as an event.
pub mod Auth
pub mod Framing
pub mod Draining
mod Tests
use spawnea.Prelude.{
  ℕ, zero, suc, ◌+◌, ◌-◌, ◌*◌, ◌≡◌, Bool, true, false, ◌&&◌, not, Option, none, some, List, [], ◌∷◌,
  ◌++◌, ltb, ◌==◌, if◌then◌else◌,
}
use spawnea.Prelude.Units.{Text, units, text_eq, trim, byte_length}

abbrev pub max_request_bytes : ℕ
max_request_bytes = 2 * 1024 * 1024

abbrev pub newline : ℕ
newline = 10

-- What a line is as a request, where `parse` reads it: no JSON, no object, an object without a
-- method, or a call.
pub data Request (RequestId Params : Type 0) : Type 0 where
  malformed : Request RequestId Params
  not_object : Request RequestId Params
  no_method : Option RequestId → Request RequestId Params
  call : Option RequestId → Text → Params → Request RequestId Params

-- What goes out: an error reply, an operation that is begun, and the end of the socket.
pub data Effect (RequestId Params : Type 0) : Type 0 where
  reply_error : Option RequestId → Text → Effect RequestId Params
  begin_call : Option RequestId → Text → Params → Effect RequestId Params
  end_socket : Effect RequestId Params

-- What happens to a connection: a chunk comes, a handler settles, the socket is gone.
pub data Event : Type 0 where
  chunk_event : Text → Event
  settled_event : Event
  destroyed_event : Event

-- The variables of a connection.
pub record Connection : Type 0 where
  pub buffered : Text
  pub in_flight : ℕ
  pub is_rejected : Bool
  pub is_destroyed : Bool

-- A unit before the first line.
pub unit_before : ℕ → List Text × Text → List Text × Text
unit_before unit ([], partial) = ([], unit ∷ partial)
unit_before unit (line ∷ lines, partial) = ((unit ∷ line) ∷ lines, partial)

-- The lines of a text that end, and what follows the last newline.
pub split_lines : Text → List Text × Text
unfolding unit_before
split_lines [] = ([], [])
split_lines (unit ∷ text) =
    let (lines, partial) = split_lines text in
    if unit == newline then ([] ∷ lines, partial) else unit_before unit (lines, partial)

module _ {RequestId Params : Type 0} (parse : Text → Request RequestId Params) where
  -- `handleLine`, up to its operation.
  pub handle_line : Text → Effect RequestId Params
  handle_line line = elim (parse line) [
    | malformed ↦ reply_error none (units "Malformed JSON request")
    | not_object ↦ reply_error none (units "Request must be a JSON object")
    | no_method id ↦ reply_error id (units "Request is missing a method")
    | call id method params ↦ begin_call id method params
  ]

  -- What the socket still takes.
  pub while_alive : Connection → List (Effect RequestId Params) → List (Effect RequestId Params)
  while_alive c effects = if c.is_destroyed then [] else effects

  pub end_when_idle : Connection → List (Effect RequestId Params)
  unfolding while_alive
  end_when_idle c =
      if c.is_rejected && c.in_flight == 0 then while_alive c (end_socket ∷ []) else []

  pub reject : Connection → Connection × List (Effect RequestId Params)
  unfolding while_alive end_when_idle
  reject c =
      let rejected : Connection = record c { buffered = []; is_rejected = true } in
      (
        rejected,
        while_alive c (reply_error none (units "Request exceeds the maximum size") ∷ [])
            ++ end_when_idle rejected,
      )

  -- A handler is begun: its operation runs whatever becomes of the socket, its reply does not.
  pub dispatch : Text → Connection → List (Effect RequestId Params)
  unfolding handle_line while_alive
  dispatch line c = elim (handle_line line) [
    | begin_call id method params ↦ begin_call id method params ∷ []
    | effect ↦ while_alive c (effect ∷ [])
  ]

  -- A line that is blank begins no handler.
  pub taken : Text → Connection → Connection
  taken request c = if text_eq request [] then c else record c { in_flight = c.in_flight + 1 }

  pub begun_by : Text → Connection → List (Effect RequestId Params)
  unfolding dispatch
  begun_by request c = if text_eq request [] then [] else dispatch request c

  pub is_oversized : Text → Bool
  is_oversized text = ltb max_request_bytes (byte_length text)

  -- The loop of `drain` over the lines, with what follows the last newline.
  pub take_lines : List Text → Text → Connection → Connection × List (Effect RequestId Params)
  unfolding reject taken begun_by is_oversized
  take_lines [] partial c =
      if is_oversized partial then reject c else (record c { buffered = partial }, [])
  take_lines (line ∷ lines) partial c =
      let request = trim line in
      let (next, effects) = take_lines lines partial (taken request c) in
      if is_oversized request then reject c else (next, begun_by request c ++ effects)

  pub drain : Text → Connection → Connection × List (Effect RequestId Params)
  unfolding split_lines take_lines
  drain text c = let (lines, partial) = split_lines text in take_lines lines partial c

  -- A chunk from the socket.
  pub data_chunk : Text → Connection → Connection × List (Effect RequestId Params)
  unfolding drain
  data_chunk chunk c = if c.is_rejected then (c, []) else drain (c.buffered ++ chunk) c

  -- One of so many handlers that are in flight has settled, and its reply, if any, is out.
  pub after_settled : ℕ → Connection → Connection × List (Effect RequestId Params)
  unfolding end_when_idle
  after_settled zero c = (c, [])
  after_settled (suc n) c = (record c { in_flight = n }, end_when_idle (record c { in_flight = n }))

  pub settle : Connection → Connection × List (Effect RequestId Params)
  unfolding after_settled
  settle c = after_settled c.in_flight c

  -- `serveOperations`: what came after the authentication line is the first chunk.
  pub serve_operations : Text → Connection × List (Effect RequestId Params)
  unfolding drain
  serve_operations initial =
      drain initial
        (record { buffered = []; in_flight = 0; is_rejected = false; is_destroyed = false })

  pub after_event : Event → Connection → Connection × List (Effect RequestId Params)
  unfolding data_chunk settle
  after_event (chunk_event chunk) c = data_chunk chunk c
  after_event settled_event c = settle c
  after_event destroyed_event c = (record c { is_destroyed = true }, [])

  pub after_events : List Event → Connection → Connection × List (Effect RequestId Params)
  unfolding after_event
  after_events [] c = (c, [])
  after_events (event ∷ events) c =
      let (next, effects) = after_event event c in
      let (last, more) = after_events events next in (last, effects ++ more)
