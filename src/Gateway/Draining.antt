-- ===== src/Gateway/Draining.antt =====
-- A rejected socket is ended once, when every handler has settled.
use spawnea.Prelude.{
  ℕ, zero, suc, ◌+◌, ◌≡◌, refl, sym, ap, ◌∙◌, subst, inl, inr, true, false, ◌&&◌, List, [], ◌∷◌,
  ◌++◌, ◌==◌, if◌then◌else◌, arith, Bool-cases, both_branches,
}
use spawnea.Prelude.Units.{Text, text_eq, trim}
use spawnea.Gateway.{
  Request, malformed, not_object, no_method, call, Effect, reply_error, begin_call, end_socket,
  Connection, Event, chunk_event, settled_event, destroyed_event, split_lines, while_alive,
  end_when_idle, reject, handle_line, dispatch, taken, begun_by, is_oversized, take_lines, drain,
  data_chunk, after_settled, settle, serve_operations, after_event, after_events,
}

-- How often the socket is ended.
abbrev pub ends : {RequestId Params : Type 0} → List (Effect RequestId Params) → ℕ
ends [] = 0
ends (end_socket ∷ effects) = suc (ends effects)
ends (effect ∷ effects) = ends effects

ends-append :
    {RequestId Params : Type 0} (es fs : List (Effect RequestId Params))
    → ends (es ++ fs) ≡ ends es + ends fs
ends-append [] fs = omega arith
ends-append (end_socket ∷ es) fs = omega (arith, ends-append es fs)
ends-append (reply_error id message ∷ es) fs = ends-append es fs
ends-append (begin_call id method params ∷ es) fs = ends-append es fs

-- One when a frame was rejected and nothing is in flight.
abbrev pub owed : Connection → ℕ
owed c = if c.is_rejected && c.in_flight == 0 then 1 else 0

module _ {RequestId Params : Type 0} (parse : Text → Request RequestId Params) where
  ends-begun_by :
      (request : Text) (c : Connection)
      → c.is_destroyed ≡ false
      → ends (begun_by parse request c) ≡ 0
  unfolding begun_by dispatch handle_line while_alive
  ends-begun_by request c h = elim (Bool-cases (text_eq request [])) [
    | inl blank ↦ rw (blank, begun_by) refl
    | inr full ↦ rw (full, begun_by) (go (parse request) refl)
  ]
    where
      go : (r : Request RequestId Params) → parse request ≡ r → ends (dispatch parse request c) ≡ 0
      go malformed e = rw (e, h, dispatch, handle_line) refl
      go not_object e = rw (e, h, dispatch, handle_line) refl
      go (no_method id) e = rw (e, h, dispatch, handle_line) refl
      go (call id method params) e = rw (e, dispatch, handle_line) refl

  ends-reject :
      (c : Connection) → c.is_destroyed ≡ false → ends (reject parse c).1 ≡ owed (reject parse c).0
  unfolding reject while_alive end_when_idle
  ends-reject c h = elim (Bool-cases (c.in_flight == 0)) [
    | inl idle ↦ rw (h, idle, reject, while_alive, end_when_idle) refl
    | inr busy ↦ rw (h, busy, reject, while_alive, end_when_idle) refl
  ]

  -- What a step leaves: a socket that is there, and the end that is owed.
  record IsSettled (r : Connection × List (Effect RequestId Params)) : Type 0 where
    alive : r.0.is_destroyed ≡ false
    counted : ends r.1 ≡ owed r.0

  reject-IsSettled : (c : Connection) → c.is_destroyed ≡ false → IsSettled (reject parse c)
  unfolding reject
  reject-IsSettled c h = record { alive = h; counted = ends-reject c h }

  taken-same :
      (request : Text) (c : Connection)
      → ((taken parse request c).is_destroyed ≡ c.is_destroyed)
        × ((taken parse request c).is_rejected ≡ c.is_rejected)
  unfolding taken
  taken-same request c = elim (Bool-cases (text_eq request [])) [
    | inl blank ↦ rw (blank, taken) (refl, refl)
    | inr full ↦ rw (full, taken) (refl, refl)
  ]

  take_lines-IsSettled :
      (lines : List Text) (partial : Text) (c : Connection)
      → c.is_destroyed ≡ false
      → c.is_rejected ≡ false
      → IsSettled (take_lines parse lines partial c)
  unfolding take_lines
  take_lines-IsSettled [] partial c h k = elim (Bool-cases (is_oversized parse partial)) [
    | inl large ↦ rw (large, take_lines) (reject-IsSettled c h)
    | inr small ↦ rw (small, take_lines) (record { alive = h; counted = ground (arith, k) })
  ]
  take_lines-IsSettled (line ∷ lines) partial c h k =
      let (alive_too, open_too) = taken-same (trim line) c in
      let rest =
        take_lines-IsSettled lines partial (taken parse (trim line) c) (alive_too ∙ h)
          (open_too ∙ k) in
      elim (Bool-cases (is_oversized parse (trim line))) [
        | inl large ↦ rw (large, take_lines) (reject-IsSettled c h)
        | inr small ↦
            rw (small, take_lines)
              (record {
                alive = rest.alive;
                counted = omega (
                  arith,
                  ends-append (begun_by parse (trim line) c)
                      (take_lines parse lines partial (taken parse (trim line) c)).1,
                  ends-begun_by (trim line) c h,
                  rest.counted,
                );
              })
      ]

  -- A step of a socket that stays: what it ends is what is owed after it and was not before.
  record IsStep (c : Connection) (r : Connection × List (Effect RequestId Params)) : Type 0 where
    alive : r.0.is_destroyed ≡ false
    counted : owed c + ends r.1 ≡ owed r.0

  data_chunk-IsStep :
      (chunk : Text) (c : Connection) → c.is_destroyed ≡ false → IsStep c (data_chunk parse chunk c)
  unfolding data_chunk drain
  data_chunk-IsStep chunk c h = elim (Bool-cases c.is_rejected) [
    | inl rejected ↦
        let same : data_chunk parse chunk c ≡ (c, []) =
          ap (λ rejected. if rejected then (c, []) else drain parse (c.buffered ++ chunk) c)
            rejected in
        subst (IsStep c) (sym same) (record { alive = h; counted = omega arith })
    | inr goes_on ↦
        let split = split_lines (c.buffered ++ chunk) in
        let step = take_lines-IsSettled split.0 split.1 c h goes_on in
        let same : data_chunk parse chunk c ≡ take_lines parse split.0 split.1 c =
          ap (λ rejected. if rejected then (c, []) else drain parse (c.buffered ++ chunk) c)
            goes_on in
        let none_yet : owed c ≡ 0 = ground (arith, goes_on) in
        subst (IsStep c) (sym same)
          (record { alive = step.alive; counted = omega (arith, step.counted, none_yet) })
  ]

  ends-end_when_idle :
      (c : Connection) → c.is_destroyed ≡ false → ends (end_when_idle parse c) ≡ owed c
  unfolding end_when_idle while_alive
  ends-end_when_idle c h = elim (Bool-cases (c.is_rejected && c.in_flight == 0)) [
    | inl over ↦ rw (over, h, end_when_idle, while_alive) refl
    | inr open_yet ↦ rw (open_yet, end_when_idle) refl
  ]

  after_settled-IsStep :
      (n : ℕ) (c : Connection)
      → c.in_flight ≡ n
      → c.is_destroyed ≡ false
      → IsStep c (after_settled parse n c)
  unfolding after_settled
  after_settled-IsStep zero c e h = record { alive = h; counted = omega arith }
  after_settled-IsStep (suc n) c e h =
      let none_yet : owed c ≡ 0 = ground (arith, e) in
      record {
        alive = h;
        counted = omega (arith, none_yet, ends-end_when_idle (record c { in_flight = n }) h);
      }

  take_lines-destroyed :
      (lines : List Text) (partial : Text) (c : Connection)
      → (take_lines parse lines partial c).0.is_destroyed ≡ c.is_destroyed
  unfolding take_lines reject
  take_lines-destroyed [] partial c = elim (Bool-cases (is_oversized parse partial)) [
    | inl large ↦ rw (large, take_lines) refl
    | inr small ↦ rw (small, take_lines) refl
  ]
  take_lines-destroyed (line ∷ lines) partial c =
      let rest = take_lines-destroyed lines partial (taken parse (trim line) c) in
      elim (Bool-cases (is_oversized parse (trim line))) [
        | inl large ↦ rw (large, take_lines) refl
        | inr small ↦ rw (small, take_lines) (rest ∙ (taken-same (trim line) c).0)
      ]

  after_settled-destroyed :
      (n : ℕ) (c : Connection) → (after_settled parse n c).0.is_destroyed ≡ c.is_destroyed
  unfolding after_settled
  after_settled-destroyed zero c = refl
  after_settled-destroyed (suc n) c = refl

  after_event-destroyed :
      (event : Event) (c : Connection)
      → c.is_destroyed ≡ true
      → (after_event parse event c).0.is_destroyed ≡ true
  unfolding after_event settle drain data_chunk
  after_event-destroyed (chunk_event chunk) c h =
      both_branches (λ (r : Connection × List (Effect RequestId Params)). r.0.is_destroyed ≡ true)
        c.is_rejected (c, []) (drain parse (c.buffered ++ chunk) c) h
        (take_lines-destroyed (split_lines (c.buffered ++ chunk)).0
            (split_lines (c.buffered ++ chunk)).1 c
          ∙ h)
  after_event-destroyed settled_event c h = after_settled-destroyed c.in_flight c ∙ h
  after_event-destroyed destroyed_event c h = refl

  after_events-destroyed :
      (events : List Event) (c : Connection)
      → c.is_destroyed ≡ true
      → (after_events parse events c).0.is_destroyed ≡ true
  unfolding after_events
  after_events-destroyed [] c h = h
  after_events-destroyed (event ∷ events) c h =
      after_events-destroyed events (after_event parse event c).0 (after_event-destroyed event c h)

  after_event-IsStep :
      (event : Event) (c : Connection)
      → c.is_destroyed ≡ false
      → (after_event parse event c).0.is_destroyed ≡ false
      → IsStep c (after_event parse event c)
  unfolding after_event settle
  after_event-IsStep (chunk_event chunk) c h k = data_chunk-IsStep chunk c h
  after_event-IsStep settled_event c h k = after_settled-IsStep c.in_flight c refl h
  after_event-IsStep destroyed_event c h k = cc

  after_events-IsStep :
      (events : List Event) (c : Connection)
      → c.is_destroyed ≡ false
      → (after_events parse events c).0.is_destroyed ≡ false
      → IsStep c (after_events parse events c)
  unfolding after_events
  after_events-IsStep [] c h k = record { alive = h; counted = omega arith }
  after_events-IsStep (event ∷ events) c h k =
      let next = after_event parse event c in
      let last = after_events parse events next.0 in
      elim (Bool-cases next.0.is_destroyed) [
        | inl gone ↦ absurd (ground (arith, after_events-destroyed events next.0 gone, k))
        | inr stays ↦
            let first = after_event-IsStep event c h stays in
            let rest = after_events-IsStep events next.0 stays k in
            record {
              alive = rest.alive;
              counted = omega (arith, ends-append next.1 last.1, first.counted, rest.counted);
            }
      ]

  -- As long as the socket is not destroyed, and whatever chunks come and handlers settle: it has
  -- been ended once when a frame was rejected and no handler is in flight, and never otherwise.
  pub serve_operations-ends :
      (initial : Text) (events : List Event)
      → (after_events parse events (serve_operations parse initial).0).0.is_destroyed ≡ false
      → ends (
          (serve_operations parse initial).1
          ++ (after_events parse events (serve_operations parse initial).0).1)
        ≡ owed (after_events parse events (serve_operations parse initial).0).0
  unfolding serve_operations drain
  serve_operations-ends initial events h =
      let first = serve_operations parse initial in
      let last = after_events parse events first.0 in
      let opened =
        take_lines-IsSettled (split_lines initial).0 (split_lines initial).1 _ refl refl in
      let step = after_events-IsStep events first.0 opened.alive h in
      omega (arith, ends-append first.1 last.1, opened.counted, step.counted)
