-- ===== src/Gateway/Auth/Token.antt =====
-- No operation is served before a line with the token.
use spawnea.Prelude.{
  ℕ, ◌≡◌, ◌≤◌, refl, sym, ap, ◌∙◌, subst, inl, inr, Bool, true, false, ◌||◌, ◌&&◌, Option, none,
  some, List, [], ◌∷◌, ◌++◌, append_assoc, append-nil, ltb, leb, length, arith, Bool-cases,
  Option-cases, both_branches,
}
use spawnea.Prelude.Units.{Text}
use spawnea.Gateway.Auth.{
  SessionField, left_out, given, no_text, AuthLine, max_auth_bytes, first_line, AuthStage, reading,
  scoping, refused, serving, Auth, AuthEvent, chunk_read, scope_created, scope_failed, destroyed,
  same_token, refuse, accept, read_line, handle_chunk, advance, after_auth_events,
}
use spawnea.Gateway.Auth.Line.{
  bytes_of, received, has_newline, received-last, IsCut, first_line-none, first_line-some,
}

-- The operations are those of the session of the line, or of all sessions when it names none.
abbrev pub IsScope : Option Text → SessionField → Type 0
IsScope none field = field ≡ left_out
IsScope (some id) field = field ≡ given id

module _ (parse : List ℕ → Option AuthLine) (to_bytes : Text → List ℕ) (token : Text) where
  -- Among the events is the chunk that ends the first line of what was received; the line has the
  -- token and names the scope, and `rest` is all that the chunk has behind the line.
  pub record IsAuthorized (events : List AuthEvent) (scope : Option Text) (rest : List ℕ)
      : Type 0 where
    pub before : List AuthEvent
    pub chunk : List ℕ
    pub now : ℕ
    pub later : List AuthEvent
    pub split : events ≡ before ++ chunk_read chunk now ∷ later
    pub line : List ℕ
    pub unended : has_newline (received before) ≡ false
    pub first : has_newline line ≡ false
    pub cut : received before ++ chunk ≡ line ++ 0x0a ∷ rest
    pub auth : AuthLine
    pub parsed : parse line ≡ some auth
    pub typed : auth.is_auth ≡ true
    pub same : same_token parse to_bytes token auth.token ≡ true
    pub short : length line ≤ max_auth_bytes
    pub scoped : IsScope scope auth.session_id

  -- What a stage says of the events up to it.
  Holds : List AuthEvent → AuthStage → Type 0
  Holds events (reading buffered) = (buffered ≡ received events) × (has_newline buffered ≡ false)
  Holds events (scoping id rest deadline) = IsAuthorized events (some id) rest
  Holds events refused = Unit
  Holds events (serving scope rest) = IsAuthorized events scope rest

  more-IsAuthorized :
      (events : List AuthEvent) (event : AuthEvent) (scope : Option Text) (rest : List ℕ)
      → IsAuthorized events scope rest
      → IsAuthorized (events ++ event ∷ []) scope rest
  more-IsAuthorized events event scope rest h = record {
    before = h.before;
    chunk = h.chunk;
    now = h.now;
    later = h.later ++ event ∷ [];
    split =
        ap (λ es. es ++ event ∷ []) h.split
        ∙ append_assoc h.before (chunk_read h.chunk h.now ∷ h.later) (event ∷ []);
    line = h.line;
    unended = h.unended;
    first = h.first;
    cut = h.cut;
    auth = h.auth;
    parsed = h.parsed;
    typed = h.typed;
    same = h.same;
    short = h.short;
    scoped = h.scoped;
  }

  accept-Holds :
      (events : List AuthEvent) (rest : List ℕ) (field : SessionField) (now : ℕ)
      (is_destroyed : Bool)
      → ((scope : Option Text) → IsScope scope field → IsAuthorized events scope rest)
      → Holds events (accept parse to_bytes token field rest now is_destroyed).stage
  unfolding accept Holds refuse
  accept-Holds events rest left_out now true h = tt
  accept-Holds events rest left_out now false h = h none refl
  accept-Holds events rest (given []) now is_destroyed h = tt
  accept-Holds events rest (given (c ∷ s)) now is_destroyed h = h (some (c ∷ s)) refl
  accept-Holds events rest no_text now is_destroyed h = tt

  module _ (before : List AuthEvent) (unended : has_newline (received before) ≡ false)
      (chunk : List ℕ) (now : ℕ) (is_destroyed : Bool) where
    read_line-Holds :
        (line rest : List ℕ)
        → IsCut (received before ++ chunk) (line, rest)
        → length line ≤ max_auth_bytes
        → Holds
            (before ++ chunk_read chunk now ∷ [])
            (read_line parse to_bytes token line rest now is_destroyed).stage
    unfolding read_line Holds refuse
    read_line-Holds line rest (first, cut) short = elim (Option-cases (parse line)) [
      | inl invalid ↦ rw (invalid, read_line) tt
      | inr (auth, parsed) ↦
          elim (Bool-cases (auth.is_auth && same_token parse to_bytes token auth.token)) [
            | inl right ↦
                rw (parsed, right, read_line)
                  (accept-Holds (before ++ chunk_read chunk now ∷ []) rest auth.session_id now
                    is_destroyed
                    (λ scope scoped. record {
                      before = before;
                      chunk = chunk;
                      now = now;
                      later = [];
                      split = refl;
                      line = line;
                      unended = unended;
                      first = first;
                      cut = cut;
                      auth = auth;
                      parsed = parsed;
                      typed = ground (arith, right);
                      same = ground (arith, right);
                      short = short;
                      scoped = scoped;
                    }))
            | inr wrong ↦ rw (parsed, wrong, read_line) tt
          ]
    ]

    handle_chunk-Holds :
        Holds
          (before ++ chunk_read chunk now ∷ [])
          (handle_chunk parse to_bytes token (received before) chunk now is_destroyed).stage
    unfolding handle_chunk Holds refuse
    handle_chunk-Holds =
        let bytes : List ℕ = received before ++ chunk in
        elim (Option-cases (first_line bytes)) [
          | inl missing ↦ elim (Bool-cases (ltb max_auth_bytes (length bytes))) [
            | inl long ↦ rw (missing, long, handle_chunk) tt
            | inr short ↦
                rw (missing, short, handle_chunk)
                  (sym (received-last before (chunk_read chunk now)), first_line-none bytes missing)
          ]
          | inr ((line, rest), there) ↦ elim (Bool-cases (ltb max_auth_bytes (length line))) [
            | inl long ↦ rw (there, long, handle_chunk) tt
            | inr short ↦
                rw (there, short, handle_chunk)
                  (read_line-Holds line rest (first_line-some bytes line rest there)
                    (ground (arith, short)))
          ]
        ]

  -- An event without bytes, while the line is read.
  quiet-Holds :
      (events : List AuthEvent) (event : AuthEvent) (buffered : List ℕ)
      → bytes_of event ≡ []
      → Holds events (reading buffered)
      → Holds (events ++ event ∷ []) (reading buffered)
  unfolding Holds
  quiet-Holds events event buffered quiet (all, unended) = (
    all
        ∙ sym (append-nil (received events))
        ∙ ap (λ bytes. received events ++ bytes) (sym quiet)
        ∙ sym (received-last events event),
    unended,
  )

  advance-Holds :
      (event : AuthEvent) (events : List AuthEvent) (stage : AuthStage) (is_destroyed : Bool)
      → Holds events stage
      → Holds (events ++ event ∷ []) (advance parse to_bytes token event stage is_destroyed).stage
  unfolding advance Holds refuse
  advance-Holds (chunk_read chunk now) events (reading buffered) is_destroyed (all, unended) =
      subst
        (λ b.
          Holds (events ++ chunk_read chunk now ∷ [])
            (handle_chunk parse to_bytes token b chunk now is_destroyed).stage)
        (sym all)
        (handle_chunk-Holds events (ap has_newline (sym all) ∙ unended) chunk now is_destroyed)
  advance-Holds (chunk_read chunk now) events (scoping id rest deadline) is_destroyed h =
      more-IsAuthorized events (chunk_read chunk now) (some id) rest h
  advance-Holds scope_created events (reading buffered) is_destroyed h =
      quiet-Holds events scope_created buffered refl h
  advance-Holds scope_created events (scoping id rest deadline) true h = tt
  advance-Holds scope_created events (scoping id rest deadline) false h =
      more-IsAuthorized events scope_created (some id) rest h
  advance-Holds (scope_failed now) events (reading buffered) is_destroyed h =
      quiet-Holds events (scope_failed now) buffered refl h
  advance-Holds (scope_failed now) events (scoping id rest deadline) is_destroyed h =
      both_branches (λ (a : Auth). Holds (events ++ scope_failed now ∷ []) a.stage)
        (is_destroyed || leb deadline now) refuse_now
        (record { stage = scoping id rest deadline; is_destroyed = is_destroyed }) tt
        (more-IsAuthorized events (scope_failed now) (some id) rest h)
    where
      refuse_now : Auth
      refuse_now = refuse parse to_bytes token
  advance-Holds destroyed events (reading buffered) is_destroyed h =
      quiet-Holds events destroyed buffered refl h
  advance-Holds destroyed events (scoping id rest deadline) is_destroyed h =
      more-IsAuthorized events destroyed (some id) rest h
  advance-Holds (chunk_read chunk now) events refused is_destroyed h = tt
  advance-Holds scope_created events refused is_destroyed h = tt
  advance-Holds (scope_failed now) events refused is_destroyed h = tt
  advance-Holds destroyed events refused is_destroyed h = tt
  advance-Holds (chunk_read chunk now) events (serving scope rest) is_destroyed h =
      more-IsAuthorized events (chunk_read chunk now) scope rest h
  advance-Holds scope_created events (serving scope rest) is_destroyed h =
      more-IsAuthorized events scope_created scope rest h
  advance-Holds (scope_failed now) events (serving scope rest) is_destroyed h =
      more-IsAuthorized events (scope_failed now) scope rest h
  advance-Holds destroyed events (serving scope rest) is_destroyed h =
      more-IsAuthorized events destroyed scope rest h

  after_auth_events-Holds :
      (events seen : List AuthEvent) (a : Auth)
      → Holds seen a.stage
      → Holds (seen ++ events) (after_auth_events parse to_bytes token events a).stage
  unfolding after_auth_events
  after_auth_events-Holds [] seen a h = subst (λ es. Holds es a.stage) (sym (append-nil seen)) h
  after_auth_events-Holds (event ∷ events) seen a h =
      let next = advance parse to_bytes token event a.stage a.is_destroyed in
      subst (λ es. Holds es (after_auth_events parse to_bytes token events next).stage)
        (append_assoc seen (event ∷ []) events)
        (after_auth_events-Holds events (seen ++ event ∷ []) next
          (advance-Holds event seen a.stage a.is_destroyed h))

  -- Whatever is received in whatever pieces, and however the creation of the scope goes: when the
  -- operations are served, the bytes received begin with a line of at most 4096 bytes that has the
  -- token, the operations are those of the session that it names, or all, and what is handed on is
  -- all that the chunk which ended the line has behind it.
  pub after_auth_events-IsAuthorized :
      (events : List AuthEvent) (scope : Option Text) (rest : List ℕ)
      → (after_auth_events parse to_bytes token events
          (record { stage = reading []; is_destroyed = false })).stage
        ≡ serving scope rest
      → IsAuthorized events scope rest
  unfolding Holds
  after_auth_events-IsAuthorized events scope rest e = subst (Holds events) e (
      after_auth_events-Holds events [] (record { stage = reading []; is_destroyed = false })
        (refl, refl))
