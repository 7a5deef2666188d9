-- ===== src/Pty/Lifecycle.antt =====
-- No stream leaks and none is closed twice: a registered stream is open or was closed once.
use spawnea.Prelude.{
  ℕ, ◌+◌, ◌≡◌, ◌≢◌, ◌⊎◌, refl, String, Bool, true, false, ◌&&◌, none, some, List, [], ◌∷◌, ◌++◌,
  arith, has, get, set, delete, get-delete, Option-cases, Bool-cases, inl, inr, str_eq, str_eq_iff,
  if◌then◌else◌, ◌==◌, IsUnique, set-IsUnique, delete-IsUnique, delete_of_absent,
}
use spawnea.Prelude.Units.{Text}
use spawnea.Pty.{
  Options, ManagedPty, Broker, Effect, send_exit, close_stream, on_channel, send_pending,
  ready_channel, ready, ack_channel, ack, close, data_channel, on_data, register_pty, resize,
  on_exit, write, write_channel, resize_channel, close_each, close_all, new_channel,
  arm_redraw_window,
}
use spawnea.Pty.Events.{
  Event, registers, outputs, exits, readies, acks, writes, resizes, closes, closes_all, step, run,
}

get-close :
    (j k : String) (b : Broker) → get k (close j b).0 ≡ (if str_eq j k then none else get k b)
unfolding close
get-close j k b = elim (Option-cases (get j b)) [
  | inl e ↦ rw (e, close) (ground (arith, str_eq_iff j k))
  | inr (m, e) ↦ rw (e, close) (get-delete j k b)
]

module _ (stream : ℕ) where
  abbrev one_if : ℕ → ℕ
  one_if n = if n == stream then 1 else 0

  -- How often the stream is open.
  unfoldable pub open_count : Broker → ℕ
  open_count [] = 0
  open_count ((k, m) ∷ b) = one_if m.stream + open_count b

  -- How often it is closed.
  unfoldable pub closed_count : List Effect → ℕ
  closed_count [] = 0
  closed_count (close_stream n ∷ effects) = one_if n + closed_count effects
  closed_count (_ ∷ effects) = closed_count effects

  -- How often it is registered.
  unfoldable pub registered_count : List Event → ℕ
  registered_count [] = 0
  registered_count (registers channel n web now ∷ es) = one_if n + registered_count es
  registered_count (_ ∷ es) = registered_count es

  closed_count-append :
      (xs ys : List Effect) → closed_count (xs ++ ys) ≡ closed_count xs + closed_count ys
  unfolding closed_count
  closed_count-append [] ys = omega arith
  closed_count-append (close_stream n ∷ xs) ys = omega (arith, closed_count-append xs ys)
  closed_count-append (_ ∷ xs) ys = closed_count-append xs ys

  open_count-set_same :
      (k : String) (m m' : ManagedPty) (b : Broker)
      → get k b ≡ some m
      → m'.stream ≡ m.stream
      → open_count (set k m' b) ≡ open_count b
  unfolding open_count get set
  open_count-set_same k m m' [] e same = cc
  open_count-set_same k m m' ((j, n) ∷ b) e same = ground (arith, open_count-set_same k m m' b)

  open_count-set_new :
      (k : String) (m : ManagedPty) (b : Broker)
      → get k b ≡ none
      → open_count (set k m b) ≡ open_count b + one_if m.stream
  unfolding open_count get set
  open_count-set_new k m [] e = omega arith
  open_count-set_new k m ((j, n) ∷ b) e = ground (arith, open_count-set_new k m b)

  open_count-delete :
      (k : String) (m : ManagedPty) (b : Broker)
      → IsUnique b
      → get k b ≡ some m
      → open_count b ≡ open_count (delete k b) + one_if m.stream
  unfolding open_count get delete
  open_count-delete k m [] u e = cc
  open_count-delete k m ((j, n) ∷ b) (absent, u) e =
      ground (arith, open_count-delete k m b u, delete_of_absent k b, str_eq_iff j k)

  -- What is open and what was closed make up what was open before and what came in.
  record Accounts (b : Broker) (after : Broker × List Effect) (came : ℕ) : Type 0 where
    unique : IsUnique after.0
    counted : open_count after.0 + closed_count after.1 ≡ open_count b + came

  close-Accounts : (k : String) (b : Broker) → IsUnique b → Accounts b (close k b) 0
  unfolding close closed_count
  close-Accounts k b u = elim (Option-cases (get k b)) [
    | inl e ↦ rw (e, close) (record { unique = u; counted = omega arith })
    | inr (m, e) ↦
        rw (e, close)
          (record {
            unique = delete-IsUnique k b u;
            counted = omega (arith, open_count-delete k m b u e);
          })
  ]

  on_channel-Accounts :
      (k : String) (f : ManagedPty → ManagedPty × List Effect) (b : Broker)
      → ((m : ManagedPty) → ((f m).0.stream ≡ m.stream) × (closed_count (f m).1 ≡ 0))
      → IsUnique b
      → Accounts b (on_channel k f b) 0
  unfolding on_channel closed_count
  on_channel-Accounts k f b keeps u = elim (Option-cases (get k b)) [
    | inl e ↦ rw (e, on_channel) (record { unique = u; counted = omega arith })
    | inr (m, e) ↦
        rw (e, on_channel)
          (record {
            unique = set-IsUnique k (f m).0 b u;
            counted = omega (arith, open_count-set_same k m (f m).0 b e (keeps m).0, (keeps m).1);
          })
  ]

  close_each-Accounts :
      (entries : List (String × ManagedPty)) (b : Broker)
      → IsUnique b
      → Accounts b (close_each entries b) 0
  unfolding close_each closed_count
  close_each-Accounts [] b u = record { unique = u; counted = omega arith }
  close_each-Accounts ((k, m) ∷ rest) b u =
      let first = close-Accounts k b u in
      let later = close_each-Accounts rest (close k b).0 first.unique in
      record {
        unique = later.unique;
        counted = omega (
          arith,
          first.counted,
          later.counted,
          closed_count-append (close k b).1 (close_each rest (close k b).0).1,
        );
      }

  on_exit-Accounts :
      (k : String) (exit_code : ℕ) (destroyed : Bool) (b : Broker)
      → IsUnique b
      → Accounts b (on_exit k exit_code destroyed b) 0
  unfolding on_exit closed_count
  on_exit-Accounts k exit_code destroyed b u = elim (Option-cases (get k b)) [
    | inl e ↦ rw (e, on_exit) (record { unique = u; counted = omega arith })
    | inr (m, e) ↦
        let closed = close-Accounts k b u in
        rw (e, on_exit)
          (record {
            unique = closed.unique;
            counted =
                elim destroyed
                  as (λ d.
                    open_count (close k b).0
                      + closed_count (
                          (if d then [] else send_exit m.web_contents k exit_code ∷ [])
                          ++ (close k b).1)
                    ≡ open_count b + 0) [ true ↦ closed.counted | false ↦ closed.counted ];
          })
  ]

  module _ (o : Options) where
    register-Accounts :
        (k : String) (n web now : ℕ) (b : Broker)
        → IsUnique b
        → Accounts b (register_pty o k n web now b) (one_if n)
    unfolding register_pty new_channel arm_redraw_window
    register-Accounts k n web now b u =
        let closed = close-Accounts k b u in
        record {
          unique = set-IsUnique k _ (close k b).0 closed.unique;
          counted = omega (
            arith,
            closed.counted,
            open_count-set_new k (arm_redraw_window o now (new_channel o n web)) (close k b).0
                (ground (arith, get-close k k b, str_eq_iff k k)),
          );
        }

    send_pending-closed :
        (k : String) (web : ℕ) (texts : List Text) → closed_count (send_pending web k texts) ≡ 0
    unfolding send_pending closed_count
    send_pending-closed k web [] = refl
    send_pending-closed k web (text ∷ texts) = send_pending-closed k web texts

    data_channel-keeps :
        (k : String) (text : Text) (now : ℕ) (m : ManagedPty)
        → ((data_channel o k text now m).0.stream ≡ m.stream)
          × (closed_count (data_channel o k text now m).1 ≡ 0)
    unfolding data_channel closed_count
    data_channel-keeps k text now m = ground arith

    on_data-Accounts :
        (k : String) (text : Text) (now : ℕ) (destroyed : Bool) (b : Broker)
        → IsUnique b
        → Accounts b (on_data o k text now destroyed b) 0
    unfolding on_data closed_count
    on_data-Accounts k text now destroyed b u = elim (Bool-cases (has k b && destroyed)) [
      | inl e ↦
          let closed = close-Accounts k b u in
          rw e (record { unique = closed.unique; counted = closed.counted })
      | inr e ↦
          rw e
            (on_channel-Accounts k (data_channel o k text now) b (data_channel-keeps k text now) u)
    ]

    step-Accounts :
        (e : Event) (b : Broker) → IsUnique b → Accounts b (step o e b) (registered_count (e ∷ []))
    unfolding step registered_count ready ack write resize close_all closed_count ready_channel
        ack_channel write_channel resize_channel arm_redraw_window
    step-Accounts (registers k n web now) b u =
        let r = register-Accounts k n web now b u in
        record { unique = r.unique; counted = omega (arith, r.counted) }
    step-Accounts (outputs k text now destroyed) b u = on_data-Accounts k text now destroyed b u
    step-Accounts (exits k exit_code destroyed) b u = on_exit-Accounts k exit_code destroyed b u
    step-Accounts (readies k) b u =
        on_channel-Accounts k (ready_channel k) b
          (λ m. (refl, send_pending-closed k m.web_contents m.pending_data)) u
    step-Accounts (acks k bytes) b u =
        on_channel-Accounts k (ack_channel o bytes) b (λ m. (ground arith, ground arith)) u
    step-Accounts (writes k text now) b u =
        on_channel-Accounts k (write_channel k text now) b (λ m. (ground arith, refl)) u
    step-Accounts (resizes k cols rows now) b u =
        on_channel-Accounts k (resize_channel o cols rows now) b (λ m. (refl, refl)) u
    step-Accounts (closes k) b u = close-Accounts k b u
    step-Accounts closes_all b u = close_each-Accounts b b u

    registered_count-cons :
        (e : Event) (es : List Event)
        → registered_count (e ∷ es) ≡ registered_count (e ∷ []) + registered_count es
    unfolding registered_count
    registered_count-cons (registers k n web now) es = omega arith
    registered_count-cons _ es = omega arith

    run-Accounts :
        (es : List Event) (b : Broker) → IsUnique b → Accounts b (run o es b) (registered_count es)
    unfolding run closed_count registered_count
    run-Accounts [] b u = record { unique = u; counted = omega arith }
    run-Accounts (e ∷ es) b u =
        let first = step-Accounts e b u in
        let later = run-Accounts es (step o e b).0 first.unique in
        record {
          unique = later.unique;
          counted = omega (
            arith,
            first.counted,
            later.counted,
            closed_count-append (step o e b).1 (run o es (step o e b).0).1,
            registered_count-cons e es,
          );
        }

    -- After any history that starts with no channel, each stream is open or closed exactly as
    -- often as it was registered: no stream leaks, and none is closed twice.
    pub run_streams :
        (es : List Event)
        → open_count (run o es []).0 + closed_count (run o es []).1 ≡ registered_count es
    unfolding open_count
    run_streams es = omega (arith, (run-Accounts es [] tt).counted)

get-close_each :
    (entries : List (String × ManagedPty)) (k : String) (b : Broker)
    → (get k b ≡ none) ⊎ (get k entries ≢ none)
    → get k (close_each entries b).0 ≡ none
unfolding close_each get
get-close_each [] k b h = ground arith
get-close_each ((j, m) ∷ rest) k b h =
    get-close_each rest k (close j b).0 (ground (arith, get-close j k b))

-- After `closeAll` no channel is open.
pub get-close_all : (k : String) (b : Broker) → get k (close_all b).0 ≡ none
unfolding close_all
get-close_all k b =
    get-close_each b k b
      (elim (Option-cases (get k b)) [ inl e ↦ inl e | inr (m, e) ↦ inr (λ absent. cc) ])
