-- ===== src/Pty/Sent.antt =====
-- What goes out on a channel, and what its stream puts out.
use spawnea.Prelude.{
  ℕ, ◌≡◌, refl, ap, String, Bool, true, false, ◌&&◌, List, [], ◌∷◌, ◌++◌, arith, str_eq,
  if◌then◌else◌,
}
use spawnea.Prelude.Units.{Text}
use spawnea.Pty.{Effect, send_data, send_pending}
use spawnea.Pty.Events.{Event, registers, outputs, exits, closes, closes_all}

-- The texts that go out on a channel, each with the window that it goes to.
unfoldable pub sent : String → List Effect → List (ℕ × Text)
sent channel [] = []
sent channel (send_data web j text ∷ effects) =
    if str_eq j channel then (web, text) ∷ sent channel effects else sent channel effects
sent channel (_ ∷ effects) = sent channel effects

-- Texts that all go to one window.
abbrev pub addressed : ℕ → List Text → List (ℕ × Text)
addressed web [] = []
addressed web (text ∷ texts) = (web, text) ∷ addressed web texts

pub addressed-append :
    (web : ℕ) (xs ys : List Text) → addressed web (xs ++ ys) ≡ addressed web xs ++ addressed web ys
addressed-append web [] ys = refl
addressed-append web (x ∷ xs) ys = ap (λ l. (web, x) ∷ l) (addressed-append web xs ys)

-- The texts that the stream of a channel puts out.
unfoldable pub received : String → List Event → List Text
received channel [] = []
received channel (outputs j text now destroyed ∷ es) =
    if str_eq j channel then text ∷ received channel es else received channel es
received channel (_ ∷ es) = received channel es

-- Does the event close the channel, or put another stream in its place?
unfoldable pub ends : String → Event → Bool
ends channel (registers j stream web now) = str_eq j channel
ends channel (outputs j text now destroyed) = str_eq j channel && destroyed
ends channel (exits j exit_code destroyed) = str_eq j channel
ends channel (closes j) = str_eq j channel
ends channel closes_all = true
ends channel _ = false

pub sent-append :
    (channel : String) (xs ys : List Effect)
    → sent channel (xs ++ ys) ≡ sent channel xs ++ sent channel ys
unfolding sent
sent-append channel [] ys = refl
sent-append channel (send_data web j text ∷ xs) ys = ground (arith, sent-append channel xs ys)
sent-append channel (x ∷ xs) ys = sent-append channel xs ys

pub sent-send_pending :
    (channel j : String) (web : ℕ) (texts : List Text)
    → sent channel (send_pending web j texts)
      ≡ (if str_eq j channel then addressed web texts else [])
unfolding sent send_pending
sent-send_pending channel j web [] = ground arith
sent-send_pending channel j web (text ∷ texts) =
    ground (arith, sent-send_pending channel j web texts)
