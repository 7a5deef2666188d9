-- ===== src/Gateway/Framing.antt =====
-- The requests do not depend on how the stream is cut into chunks.
use spawnea.Prelude.{
  ℕ, ◌+◌, ◌≡◌, refl, sym, ap, ◌∙◌, subst, inl, inr, true, false, List, [], ◌∷◌, ◌++◌, map,
  append_assoc, append-nil, ◌==◌, if◌then◌else◌, arith, Bool-cases,
}
use spawnea.Prelude.Units.{Text, text_eq, trim}
use spawnea.Gateway.{
  Request, Effect, Connection, chunk_event, newline, unit_before, split_lines, reject, taken,
  begun_by, is_oversized, take_lines, drain, data_chunk, serve_operations, after_event,
  after_events,
}

-- What the split of a text becomes when more follows.
glue : List Text × Text → Text → List Text × Text
glue (lines, partial) more =
    (lines ++ (split_lines (partial ++ more)).0, (split_lines (partial ++ more)).1)

glue-unit_before :
    (unit : ℕ) (split : List Text × Text) (more : Text)
    → (unit == newline) ≡ false
    → glue (unit_before unit split) more ≡ unit_before unit (glue split more)
unfolding glue unit_before split_lines
glue-unit_before unit ([], partial) more e = rw (e, split_lines) refl
glue-unit_before unit (line ∷ lines, partial) more e = refl

split_lines-append : (text more : Text) → split_lines (text ++ more) ≡ glue (split_lines text) more
unfolding split_lines glue
split_lines-append [] more = refl
split_lines-append (unit ∷ text) more = elim (Bool-cases (unit == newline)) [
  | inl ends ↦ rw (ends, split_lines-append text more, split_lines) refl
  | inr goes_on ↦
      rw (goes_on, split_lines-append text more, split_lines)
        (sym (glue-unit_before unit (split_lines text) more goes_on))
]

-- The chunks as one text.
abbrev pub joined : List Text → Text
joined [] = []
joined (chunk ∷ chunks) = chunk ++ joined chunks

module _ {RequestId Params : Type 0} (parse : Text → Request RequestId Params) where
  -- The buffer has no part in it.
  take_lines-buffered :
      (lines : List Text) (partial other : Text) (c : Connection)
      → take_lines parse lines partial (record c { buffered = other })
        ≡ take_lines parse lines partial c
  unfolding take_lines reject taken begun_by
  take_lines-buffered [] partial other c = refl
  take_lines-buffered (line ∷ lines) partial other c = elim (Bool-cases (text_eq (trim line) [])) [
    | inl blank ↦ rw (blank, take_lines-buffered lines partial other c, take_lines) refl
    | inr full ↦
        rw
          (
            full,
            take_lines-buffered lines partial other (record c { in_flight = c.in_flight + 1 }),
            take_lines,
          )
          refl
  ]

  -- One run after another, with the effects of both.
  abbrev pub then_more :
      Connection × List (Effect RequestId Params)
      → (Connection → Connection × List (Effect RequestId Params))
      → Connection × List (Effect RequestId Params)
  then_more (c, effects) next = ((next c).0, effects ++ (next c).1)

  take_lines-append :
      (lines : List Text) (partial : Text) (more : List Text) (rest : Text) (c : Connection)
      → (take_lines parse lines partial c).0.is_rejected ≡ false
      → take_lines parse (lines ++ more) rest c
        ≡ then_more (take_lines parse lines partial c) (λ d. take_lines parse more rest d)
  unfolding take_lines reject
  take_lines-append [] partial more rest c h = elim (Bool-cases (is_oversized parse partial)) [
    | inl large ↦ absurd (ground (arith, large, h))
    | inr small ↦ rw (small, take_lines) (sym (take_lines-buffered more rest partial c))
  ]
  take_lines-append (line ∷ lines) partial more rest c h =
      elim (Bool-cases (is_oversized parse (trim line))) [
        | inl large ↦ absurd (ground (arith, large, h))
        | inr small ↦
            let d = taken parse (trim line) c in
            let first = take_lines parse lines partial d in
            let quiet : first.0.is_rejected ≡ false = rw (small, take_lines) at h in
            let later = take_lines parse more rest first.0 in
            let whole : take_lines parse (lines ++ more) rest d
                ≡ then_more first (λ e. take_lines parse more rest e) =
              take_lines-append lines partial more rest d quiet in
            rw (small, take_lines)
              (ap
                  (λ (r : Connection × List (Effect RequestId Params)).
                    (r.0, begun_by parse (trim line) c ++ r.1))
                  whole
                ∙ ap (λ es. (later.0, es))
                    (sym (append_assoc (begun_by parse (trim line) c) first.1 later.1)))
      ]

  -- The buffer that is left is what follows the last newline.
  take_lines-left :
      (lines : List Text) (partial : Text) (c : Connection)
      → (take_lines parse lines partial c).0.is_rejected ≡ false
      → (take_lines parse lines partial c).0.buffered ≡ partial
  unfolding take_lines reject
  take_lines-left [] partial c h = elim (Bool-cases (is_oversized parse partial)) [
    | inl large ↦ absurd (ground (arith, large, h))
    | inr small ↦ rw (small, take_lines) refl
  ]
  take_lines-left (line ∷ lines) partial c h = elim (Bool-cases (is_oversized parse (trim line))) [
    | inl large ↦ absurd (ground (arith, large, h))
    | inr small ↦
        let quiet : (take_lines parse lines partial (taken parse (trim line) c)).0.is_rejected
            ≡ false =
          rw (small, take_lines) at h in
        rw (small, take_lines) (take_lines-left lines partial (taken parse (trim line) c) quiet)
  ]

  drain-append :
      (text more : Text) (c : Connection)
      → (drain parse text c).0.is_rejected ≡ false
      → drain parse (text ++ more) c ≡ then_more (drain parse text c) (λ d. data_chunk parse more d)
  unfolding drain data_chunk glue
  drain-append text more c h =
      let split = split_lines text in
      let d = (take_lines parse split.0 split.1 c).0 in
      let again = split_lines (split.1 ++ more) in
      let chunk : data_chunk parse more d ≡ take_lines parse again.0 again.1 d =
        rw (h, take_lines-left split.0 split.1 c h, data_chunk) refl in
      let split_again : split_lines (text ++ more) ≡ (split.0 ++ again.0, again.1) =
        split_lines-append text more in
      rw (split_again, drain)
        (take_lines-append split.0 split.1 again.0 again.1 c h
          ∙ ap
              (λ (r : Connection × List (Effect RequestId Params)).
                (r.0, (take_lines parse split.0 split.1 c).1 ++ r.1))
              (sym chunk))

  abbrev pub after_chunks : List Text → Connection → Connection × List (Effect RequestId Params)
  after_chunks chunks c = after_events parse (map chunk_event chunks) c

  after_chunks-rejected :
      (chunks : List Text) (c : Connection)
      → c.is_rejected ≡ true
      → (after_chunks chunks c).0.is_rejected ≡ true
  unfolding after_events after_event data_chunk
  after_chunks-rejected [] c h = h
  after_chunks-rejected (chunk ∷ chunks) c h =
      let same : data_chunk parse chunk c ≡ (c, []) =
        ap (λ rejected. if rejected then (c, []) else drain parse (c.buffered ++ chunk) c) h in
      subst
        (λ (r : Connection × List (Effect RequestId Params)).
          (after_chunks chunks r.0).0.is_rejected ≡ true)
        (sym same) (after_chunks-rejected chunks c h)

  drain-chunks :
      (text : Text) (chunks : List Text) (c : Connection)
      → (after_chunks chunks (drain parse text c).0).0.is_rejected ≡ false
      → drain parse (text ++ joined chunks) c
        ≡ then_more (drain parse text c) (λ d. after_chunks chunks d)
  unfolding after_events after_event
  drain-chunks text [] c h = rw (append-nil text, append-nil (drain parse text c).1) refl
  drain-chunks text (chunk ∷ chunks) c h =
      let first = drain parse text c in
      let quiet : first.0.is_rejected ≡ false = elim (Bool-cases first.0.is_rejected) [
        | inl rejected ↦
            absurd (ground (arith, after_chunks-rejected (chunk ∷ chunks) first.0 rejected, h))
        | inr quiet ↦ quiet
      ] in
      let both : drain parse (text ++ chunk) c ≡ then_more first (λ d. data_chunk parse chunk d) =
        drain-append text chunk c quiet in
      let second = data_chunk parse chunk first.0 in
      let later : drain parse ((text ++ chunk) ++ joined chunks) c
          ≡ then_more (drain parse (text ++ chunk) c) (λ d. after_chunks chunks d) =
        drain-chunks (text ++ chunk) chunks c (rw both h) in
      let last = after_chunks chunks second.0 in
      ap (λ t. drain parse t c) (sym (append_assoc text chunk (joined chunks)))
      ∙ later
      ∙ ap
          (λ (r : Connection × List (Effect RequestId Params)).
            then_more r (λ d. after_chunks chunks d))
          both
      ∙ ap (λ es. (last.0, es)) (append_assoc first.1 second.1 last.1)

  -- However the stream is cut into chunks: when no frame is rejected, what is begun and answered and
  -- what is left in the buffer are as when all of it comes at once.
  pub serve_operations-chunks :
      (initial : Text) (chunks : List Text)
      → (after_chunks chunks (serve_operations parse initial).0).0.is_rejected ≡ false
      → serve_operations parse (initial ++ joined chunks)
        ≡ then_more (serve_operations parse initial) (λ c. after_chunks chunks c)
  unfolding serve_operations
  serve_operations-chunks initial chunks h = drain-chunks initial chunks _ h
