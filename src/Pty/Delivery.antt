-- ===== src/Pty/Delivery.antt =====
-- What the renderer gets: every chunk of output once and in order, also what came before it was
-- ready, and a paused stream that goes on when all is acknowledged.
use spawnea.Prelude.{
  ℕ, ◌≡◌, ◌≤◌, ◌<◌, refl, sym, ap, subst, ◌∙◌, String, Bool, true, false, ◌&&◌, Option, some, List,
  [], ◌∷◌, ◌++◌, arith, append_assoc, append-nil, has, get, AllValues, AllValues-get, Option-cases,
  Bool-cases, inl, inr, str_eq, str_eq_iff, str_eq_refl, if◌then◌else◌, get-set, get-delete, All,
}
use spawnea.Prelude.Units.{Text}
use spawnea.Pty.{
  Options, ManagedPty, Broker, Effect, send_exit, resume_stream, on_channel, ready_channel, ready,
  ack_channel, ack, close, arm_redraw_window, data_channel, on_data, register_pty, resize, on_exit,
  write, write_channel, resize_channel, max_safe_integer, get_flow_state,
}
use spawnea.Pty.Events.{
  Event, registers, outputs, exits, readies, acks, writes, resizes, closes, closes_all, step, run,
}
use spawnea.Pty.Sent.{
  sent, addressed, addressed-append, received, ends, sent-append, sent-send_pending,
}
use spawnea.Pty.Flow.{IsFlowing, step-IsFlowing}

-- The channel is still open with its window, and what was sent to a window and is pending for this
-- one is what was pending for it and the texts.
abbrev pub Delivers : String → ManagedPty → Broker × List Effect → List Text → Type 0
Delivers channel m (b, effects) texts =
    (m' : ManagedPty) × (get channel b ≡ some m')
    × (m'.web_contents ≡ m.web_contents)
    × (sent channel effects ++ addressed m.web_contents m'.pending_data
        ≡ addressed m.web_contents m.pending_data ++ addressed m.web_contents texts)

-- Nothing is sent, and the window and what is pending for it stay.
abbrev IsQuiet : String → ManagedPty → ManagedPty × List Effect → Type 0
IsQuiet channel m (m', effects) =
    (sent channel effects ≡ [])
    × (m'.web_contents ≡ m.web_contents)
    × (m'.pending_data ≡ m.pending_data)

module _ (channel : String) (m : ManagedPty) (b : Broker) (open_now : get channel b ≡ some m) where
  on_channel_self :
      (f : ManagedPty → ManagedPty × List Effect) (texts : List Text)
      → (f m).0.web_contents ≡ m.web_contents
      → sent channel (f m).1 ++ addressed m.web_contents (f m).0.pending_data
        ≡ addressed m.web_contents m.pending_data ++ addressed m.web_contents texts
      → Delivers channel m (on_channel channel f b) texts
  unfolding on_channel
  on_channel_self f texts same e =
      rw (open_now, on_channel)
        ((f m).0, ground (arith, get-set channel channel (f m).0 b, str_eq_refl channel), same, e)

  on_channel_other :
      (j : String) (f : ManagedPty → ManagedPty × List Effect)
      → str_eq j channel ≡ false
      → ((n : ManagedPty) → sent channel (f n).1 ≡ [])
      → Delivers channel m (on_channel j f b) []
  unfolding on_channel sent
  on_channel_other j f ne quiet = elim (Option-cases (get j b)) [
    | inl e ↦ rw (e, on_channel) (m, open_now, refl, sym (append-nil _))
    | inr (n, e) ↦
        rw (e, on_channel)
          (m, ground (arith, get-set j channel (f n).0 b), refl, rw (quiet n) (sym (append-nil _)))
  ]

  -- A method that sends nothing and leaves what is pending.
  on_channel_quiet :
      (j : String) (f : ManagedPty → ManagedPty × List Effect)
      → ((n : ManagedPty) → IsQuiet channel n (f n))
      → Delivers channel m (on_channel j f b) []
  on_channel_quiet j f quiet = elim (Bool-cases (str_eq j channel)) [
    | inl same ↦
        rw ((str_eq_iff j channel).0 same)
          (on_channel_self f [] (quiet m).1 (rw ((quiet m).0, (quiet m).2) (sym (append-nil _))))
    | inr ne ↦ on_channel_other j f ne (λ n. (quiet n).0)
  ]

  close_other : (j : String) → str_eq j channel ≡ false → Delivers channel m (close j b) []
  unfolding close sent
  close_other j ne = elim (Option-cases (get j b)) [
    | inl e ↦ rw (e, close) (m, open_now, refl, sym (append-nil _))
    | inr (n, e) ↦
        rw (e, close) (m, ground (arith, get-delete j channel b), refl, sym (append-nil _))
  ]

module _ (o : Options) (channel : String) where
  data_channel-sent :
      (j : String) (text : Text) (now : ℕ) (m : ManagedPty)
      → str_eq j channel ≡ false
      → sent channel (data_channel o j text now m).1 ≡ []
  unfolding data_channel sent
  data_channel-sent j text now m ne = ground arith

  data_channel-delivers :
      (text : Text) (now : ℕ) (m : ManagedPty)
      → IsFlowing o m
      → ((data_channel o channel text now m).0.web_contents ≡ m.web_contents)
        × (sent channel (data_channel o channel text now m).1
              ++ addressed m.web_contents (data_channel o channel text now m).0.pending_data
            ≡ addressed m.web_contents m.pending_data ++ (m.web_contents, text) ∷ [])
  unfolding data_channel sent
  data_channel-delivers text now m v =
      ground
        (arith, str_eq_refl channel, addressed-append m.web_contents m.pending_data (text ∷ []))

  ready_channel-delivers :
      (m : ManagedPty)
      → ((ready_channel channel m).0.web_contents ≡ m.web_contents)
        × (sent channel (ready_channel channel m).1
              ++ addressed m.web_contents (ready_channel channel m).0.pending_data
            ≡ addressed m.web_contents m.pending_data ++ [])
  unfolding ready_channel
  ready_channel-delivers m = (
    refl,
    rw (sent-send_pending channel channel m.web_contents m.pending_data, str_eq_refl channel),
  )

  ack_channel-sent : (bytes : Option ℕ) (m : ManagedPty) → IsQuiet channel m (ack_channel o bytes m)
  unfolding ack_channel sent
  ack_channel-sent bytes m = ground arith

  write_channel-sent :
      (j : String) (text : Text) (now : ℕ) (m : ManagedPty)
      → IsQuiet channel m (write_channel j text now m)
  unfolding write_channel sent
  write_channel-sent j text now m = ground arith

  resize_channel-sent :
      (cols rows now : ℕ) (m : ManagedPty) → IsQuiet channel m (resize_channel o cols rows now m)
  unfolding resize_channel sent arm_redraw_window
  resize_channel-sent cols rows now m = (refl, refl, refl)

  module _ (m : ManagedPty) (b : Broker) (open_now : get channel b ≡ some m)
      (v : IsFlowing o m) where
    output-Delivers :
        (j : String) (text : Text) (now : ℕ) (destroyed : Bool)
        → (str_eq j channel && destroyed) ≡ false
        → Delivers channel m
            (on_data o j text now destroyed b)
            (received channel (outputs j text now destroyed ∷ []))
    unfolding on_data received sent
    output-Delivers j text now destroyed ne = elim (Bool-cases (str_eq j channel)) [
      | inl same ↦
          let live : destroyed ≡ false = ground arith in
          let quiet : (has channel b && destroyed) ≡ false = ground arith in
          rw ((str_eq_iff j channel).0 same, str_eq_refl channel, quiet)
            (on_channel_self channel m b open_now (data_channel o channel text now) (text ∷ [])
              (data_channel-delivers text now m v).0 (data_channel-delivers text now m v).1)
      | inr other ↦ elim (Bool-cases (has j b && destroyed)) [
        | inl gone ↦ rw (other, gone) (close_other channel m b open_now j other)
        | inr live ↦
            rw (other, live)
              (on_channel_other channel m b open_now j (data_channel o j text now) other
                (λ n. data_channel-sent j text now n other))
      ]
    ]

    register-Delivers :
        (j : String) (stream web now : ℕ)
        → str_eq j channel ≡ false
        → Delivers channel m (register_pty o j stream web now b) []
    unfolding register_pty
    register-Delivers j stream web now ne =
        let (m', found, window, same) = close_other channel m b open_now j ne in
        (m', rw (get-set, ne) found, window, same)

    exit-Delivers :
        (j : String) (exit_code : ℕ) (destroyed : Bool)
        → str_eq j channel ≡ false
        → Delivers channel m (on_exit j exit_code destroyed b) []
    unfolding on_exit sent
    exit-Delivers j exit_code destroyed ne = elim (Option-cases (get j b)) [
      | inl e ↦ rw (e, on_exit) (m, open_now, refl, sym (append-nil _))
      | inr (n, e) ↦
          let (m', found, window, same) = close_other channel m b open_now j ne in
          rw (e, on_exit)
            (
              m',
              found,
              window,
              ground (
                arith,
                same,
                sent-append channel
                    (if destroyed then [] else send_exit n.web_contents j exit_code ∷ [])
                    (close j b).1,
              ),
            )
    ]

    step-Delivers :
        (e : Event)
        → ends channel e ≡ false
        → Delivers channel m (step o e b) (received channel (e ∷ []))
    unfolding step ends received
    step-Delivers (registers j stream web now) ne = register-Delivers j stream web now ne
    step-Delivers (outputs j text now destroyed) ne = output-Delivers j text now destroyed ne
    step-Delivers (exits j exit_code destroyed) ne = exit-Delivers j exit_code destroyed ne
    step-Delivers (readies j) ne = elim (Bool-cases (str_eq j channel)) [
      | inl same ↦ rw ((str_eq_iff j channel).0 same) (
          unfold ready in
          on_channel_self channel m b open_now (ready_channel channel) []
            (ready_channel-delivers m).0 (ready_channel-delivers m).1)
      | inr other ↦
          unfold ready in
          on_channel_other channel m b open_now j (ready_channel j) other (λ n.
            unfold ready_channel in
            sent-send_pending channel j n.web_contents n.pending_data ∙ rw other)
    ]
    step-Delivers (acks j bytes) ne =
        unfold ack in
        on_channel_quiet channel m b open_now j (ack_channel o bytes) (ack_channel-sent bytes)
    step-Delivers (writes j text now) ne =
        unfold write in
        on_channel_quiet channel m b open_now j (write_channel j text now)
          (write_channel-sent j text now)
    step-Delivers (resizes j cols rows now) ne =
        unfold resize in
        on_channel_quiet channel m b open_now j (resize_channel o cols rows now)
          (resize_channel-sent cols rows now)
    step-Delivers (closes j) ne = close_other channel m b open_now j ne
    step-Delivers closes_all ne = cc

regroup {ℓ} :
    {A : Type ℓ} (s s' r r' p p' p'' : List A)
    → s ++ p' ≡ p ++ r
    → s' ++ p'' ≡ p' ++ r'
    → (s ++ s') ++ p'' ≡ p ++ (r ++ r')
regroup s s' r r' p p' p'' first later =
    append_assoc s s' p''
    ∙ ap (λ l. s ++ l) later
    ∙ sym (append_assoc s p' r')
    ∙ ap (λ l. l ++ r') first
    ∙ append_assoc p r r'

module _ (o : Options) (apart : o.low_water_mark_bytes < o.high_water_mark_bytes)
    (channel : String) where
  received-cons :
      (e : Event) (es : List Event)
      → received channel (e ∷ es) ≡ received channel (e ∷ []) ++ received channel es
  unfolding received
  received-cons (outputs j text now destroyed) es = ground arith
  received-cons _ es = refl

  -- With the low-water mark below the high-water mark, and from a state that is in flow: over any
  -- history in which an open channel is neither closed nor registered anew, with calls
  -- on other channels in between: what was sent to its window and what is pending now is, in
  -- order, what was pending before and every chunk that its stream put out. Every one of them goes
  -- to the window that the channel was opened for.
  pub run-Delivers :
      (es : List Event) (b : Broker) (m : ManagedPty)
      → AllValues (IsFlowing o) b
      → get channel b ≡ some m
      → All (λ e. ends channel e ≡ false) es
      → Delivers channel m (run o es b) (received channel es)
  unfolding run sent received
  run-Delivers [] b m v open_now h = (m, open_now, refl, sym (append-nil _))
  run-Delivers (e ∷ es) b m v open_now (goes_on, h) =
      let web : ℕ = m.web_contents in
      let (m', found, window, first) =
        step-Delivers o channel m b open_now (AllValues-get (IsFlowing o) channel b m open_now v) e
          goes_on in
      let (m'', found', window', later) =
        run-Delivers es (step o e b).0 m' (step-IsFlowing o apart e b v) found h in
      (
        m'',
        found',
        window' ∙ window,
        rw sent-append (
            regroup (sent channel (step o e b).1) (sent channel (run o es (step o e b).0).1)
              (addressed web (received channel (e ∷ []))) (addressed web (received channel es))
              (addressed web m.pending_data) (addressed web m'.pending_data)
              (addressed web m''.pending_data) first
              (subst
                (λ w.
                  sent channel (run o es (step o e b).0).1 ++ addressed w m''.pending_data
                  ≡ addressed w m'.pending_data ++ addressed w (received channel es))
                window later)
            ∙ ap (λ texts. addressed web m.pending_data ++ texts)
                (sym (addressed-append web (received channel (e ∷ [])) (received channel es))
                  ∙ ap (addressed web) (sym (received-cons e es)))),
      )

-- A renderer that is ready and acknowledges all bytes in flight gets its stream going again; the
-- broker resumes the stream if it was paused, and does nothing to it otherwise.
pub ack_all_resumes :
    (o : Options) (channel : String) (b : Broker) (m : ManagedPty)
    → get channel b ≡ some m
    → m.is_ready ≡ true
    → m.in_flight_bytes ≤ max_safe_integer
    → (get_flow_state channel (ack o channel (some m.in_flight_bytes) b).0 ≡ some (0, false, true))
      × ((ack o channel (some m.in_flight_bytes) b).1
          ≡ (if m.is_paused then resume_stream m.stream ∷ [] else []))
unfolding ack get_flow_state ack_channel on_channel
ack_all_resumes o channel b m open_now is_ready small = ground (
  arith,
  get-set channel channel (ack_channel o (some m.in_flight_bytes) m).0 b,
  str_eq_refl channel,
)
