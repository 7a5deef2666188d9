-- ===== src/Pty/Input/Replies.antt =====
-- What `hasUserInput` answers for plain text and for the terminal's own replies.
use spawnea.Prelude.{
  ℕ, suc, ◌+◌, ◌-◌, ◌≤◌, ◌≡◌, ◌≢◌, refl, true, false, Option, some, [], ◌∷◌, ◌++◌, arith, length,
  All, All-append,
}
use spawnea.Prelude.Units.{Text}
use spawnea.Pty.Input.{
  esc, osc_pattern, string_pattern, csi_pattern, esc_pattern, csi_tail, csi_end, remove_from,
  remove_all, has_user_input, is_string_opener,
}

abbrev pub IsPlain : Text → Type 0
IsPlain = All (λ (c : ℕ). c ≢ esc)

osc_plain : (s : Text) → IsPlain s → remove_from osc_pattern 0 s ≡ s
unfolding remove_from osc_pattern
osc_plain [] h = refl
osc_plain (c ∷ []) h = refl
osc_plain (c ∷ d ∷ s) (p, h) = ground (arith, osc_plain (d ∷ s) h)

string_plain : (s : Text) → IsPlain s → remove_from string_pattern 0 s ≡ s
unfolding remove_from string_pattern
string_plain [] h = refl
string_plain (c ∷ []) h = refl
string_plain (c ∷ d ∷ s) (p, h) = ground (arith, string_plain (d ∷ s) h)

csi_plain : (s : Text) → IsPlain s → remove_from csi_pattern 0 s ≡ s
unfolding remove_from csi_pattern
csi_plain [] h = refl
csi_plain (c ∷ []) h = refl
csi_plain (c ∷ d ∷ s) (p, h) = ground (arith, csi_plain (d ∷ s) h)

esc_plain : (s : Text) → IsPlain s → remove_from esc_pattern 0 s ≡ s
unfolding remove_from esc_pattern
esc_plain [] h = refl
esc_plain (c ∷ s) (p, h) = ground (arith, esc_plain s h)

-- Typed text that holds no escape character counts as input, whatever else it holds.
pub has_user_input-plain : (c : ℕ) (s : Text) → IsPlain (c ∷ s) → has_user_input (c ∷ s) ≡ true
unfolding has_user_input
has_user_input-plain c s h =
    rw (osc_plain (c ∷ s) h, string_plain (c ∷ s) h, csi_plain (c ∷ s) h, esc_plain (c ∷ s) h)
      (ground arith)

-- A control sequence: `ESC [`, parameters, intermediates and a final character.
abbrev pub IsParameter : ℕ → Type 0
IsParameter c = (0x30 ≤ c) × (c ≤ 0x3f)

abbrev pub IsIntermediate : ℕ → Type 0
IsIntermediate c = (0x20 ≤ c) × (c ≤ 0x2f)

abbrev pub IsFinal : ℕ → Type 0
IsFinal c = (0x40 ≤ c) × (c ≤ 0x7e)

abbrev pub control_sequence : Text → Text → ℕ → Text
control_sequence ps is final = esc ∷ 0x5b ∷ (ps ++ (is ++ final ∷ []))

csi_end-final :
    (n : ℕ) (is : Text) (final : ℕ)
    → All IsIntermediate is
    → IsFinal final
    → csi_end n (is ++ final ∷ []) ≡ some (n + length (is ++ final ∷ []))
unfolding csi_end
csi_end-final n [] final h f = ground arith
csi_end-final n (c ∷ is) final (p, h) f = ground (arith, csi_end-final (n + 1) is final h f)

csi_tail-final :
    (n : ℕ) (ps is : Text) (final : ℕ)
    → All IsParameter ps
    → All IsIntermediate is
    → IsFinal final
    → csi_tail n (ps ++ (is ++ final ∷ [])) ≡ some (n + length (ps ++ (is ++ final ∷ [])))
unfolding csi_tail csi_end
csi_tail-final n [] [] final g h f = ground arith
csi_tail-final n [] (c ∷ is) final g (p, h) f = ground (arith, csi_end-final (n + 1) is final h f)
csi_tail-final n (c ∷ ps) is final (p, g) h f =
    ground (arith, csi_tail-final (n + 1) ps is final g h f)

remove_from-length : (pattern : Text → Option ℕ) (s : Text) → remove_from pattern (length s) s ≡ []
unfolding remove_from
remove_from-length pattern [] = refl
remove_from-length pattern (c ∷ s) = remove_from-length pattern s

All-IsPlain : (P : ℕ → Type 0) → ((c : ℕ) → P c → c ≢ esc) → (s : Text) → All P s → IsPlain s
All-IsPlain P f [] h = tt
All-IsPlain P f (c ∷ s) (p, h) = (f c p, All-IsPlain P f s h)

csi_pattern-control_sequence :
    (ps is : Text) (final : ℕ)
    → All IsParameter ps
    → All IsIntermediate is
    → IsFinal final
    → csi_pattern (control_sequence ps is final) ≡ some (2 + length (ps ++ (is ++ final ∷ [])))
unfolding csi_pattern
csi_pattern-control_sequence ps is final g h f = csi_tail-final 2 ps is final g h f

csi-control_sequence :
    (ps is : Text) (final : ℕ)
    → All IsParameter ps
    → All IsIntermediate is
    → IsFinal final
    → remove_from csi_pattern 0 (control_sequence ps is final) ≡ []
unfolding remove_from
csi-control_sequence ps is final g h f =
    let tail : Text = ps ++ (is ++ final ∷ []) in
    let skip : 2 + length tail - 1 ≡ suc (length tail) = omega arith in
    rw (csi_pattern-control_sequence ps is final g h f, remove_from, skip)
      (remove_from-length csi_pattern tail)

-- A reply of the terminal in the form of a control sequence is no input of the user.
pub has_user_input-control_sequence :
    (ps is : Text) (final : ℕ)
    → All IsParameter ps
    → All IsIntermediate is
    → IsFinal final
    → has_user_input (control_sequence ps is final) ≡ false
unfolding has_user_input remove_all remove_from osc_pattern string_pattern csi_pattern
    is_string_opener
has_user_input-control_sequence ps is final g h f =
    let rest : Text = 0x5b ∷ (ps ++ (is ++ final ∷ [])) in
    let plain : IsPlain rest = (
      λ e. omega arith,
      All-append (λ (c : ℕ). c ≢ esc) ps (is ++ final ∷ [])
          (All-IsPlain IsParameter (λ c p. omega arith) ps g)
          (All-append (λ (c : ℕ). c ≢ esc) is (final ∷ [])
            (All-IsPlain IsIntermediate (λ c p. omega arith) is h) (omega arith)),
    ) in
    rw (osc_plain rest plain, string_plain rest plain, csi-control_sequence ps is final g h f)
