-- ===== src/Detection/Connection.antt =====
-- When a session counts as disconnected or done: what its terminal shows has no part in it.
use spawnea.Prelude.{
  ℕ, ◌≡◌, ◌≢◌, ◌⊎◌, ◌↔◌, refl, inl, inr, true, false, Option, none, some, [], get_or, arith,
  Option-cases, Bool-cases,
}
use spawnea.Prelude.Units.{Text}
use spawnea.Status.{SessionStatus, done, disconnected}
use spawnea.Rules.{
  RuleState, rule_working, rule_needs_input, rule_idle, rule_error, state_of_rule,
  match_state_rules, rules_for,
}
use spawnea.Detection.{
  SessionSignals, Detected, Adapter, AdapterOptions, connection_status, exit_status, match_result,
  fallback_status, has_recent_output, is_foreign_command, rule_status, evaluate_status,
  evaluation_window,
}

-- A status that only rules and the fallback give.
IsLive : Detected → Type 0
IsLive r = (r.status ≢ disconnected) × (r.status ≢ done)

state_of_rule-live :
    (state : RuleState) → (state_of_rule state ≢ disconnected) × (state_of_rule state ≢ done)
state_of_rule-live rule_working = ((λ e. cc), (λ e. cc))
state_of_rule-live rule_needs_input = ((λ e. cc), (λ e. cc))
state_of_rule-live rule_idle = ((λ e. cc), (λ e. cc))
state_of_rule-live rule_error = ((λ e. cc), (λ e. cc))

same_state-IsLive : (r : Detected) (state : RuleState) → r.status ≡ state_of_rule state → IsLive r
unfolding IsLive
same_state-IsLive r state e = rw e (state_of_rule-live state)

module _ {Pattern : Type 0} (exec : Pattern → Text → Option (ℕ × Text))
    (to_lower_case strip_ansi : Text → Text) where
  fallback_status-IsLive :
      (adapter : Adapter exec to_lower_case strip_ansi) (s : SessionSignals)
      (options : AdapterOptions exec to_lower_case strip_ansi) (rule_harness : Text)
      (digest : Option Text) (now : ℕ)
      → IsLive
          (fallback_status exec to_lower_case strip_ansi adapter s options rule_harness digest now)
  unfolding fallback_status
  fallback_status-IsLive adapter s options rule_harness digest now =
      elim (Bool-cases
        (has_recent_output exec to_lower_case strip_ansi s options.active_output_window_ms now)) [
          | inl recent ↦ rw (recent, fallback_status) (same_state-IsLive _ rule_working refl)
          | inr quiet ↦
              elim (Bool-cases
                (is_foreign_command exec to_lower_case strip_ansi adapter s options rule_harness)) [
                  | inl foreign ↦
                      rw (quiet, foreign, fallback_status) (same_state-IsLive _ rule_working refl)
                  | inr own ↦ rw (quiet, own, fallback_status) (same_state-IsLive _ rule_idle refl)
                ]
        ]

  rule_status-IsLive :
      (adapter : Adapter exec to_lower_case strip_ansi) (s : SessionSignals)
      (options : AdapterOptions exec to_lower_case strip_ansi) (now : ℕ)
      → IsLive (rule_status exec to_lower_case strip_ansi adapter s options now)
  unfolding rule_status match_result
  rule_status-IsLive adapter s options now =
      let harness = get_or options.rule_harness adapter.harness_id in
      let rules = rules_for exec to_lower_case options.rules (some harness) in
      let window =
        evaluation_window exec to_lower_case strip_ansi adapter (get_or s.tail_lines []) rules in
      elim (Option-cases (match_state_rules exec rules window)) [
        | inl e ↦ rw (e, rule_status) (fallback_status-IsLive adapter s options harness _ now)
        | inr (m, e) ↦ rw (e, rule_status) (same_state-IsLive _ m.rule.state refl)
      ]

-- What the signals of the connection say of a status.
abbrev pub IsConnectionStatus : SessionSignals → SessionStatus → Type 0
IsConnectionStatus s status =
    ((status ≡ disconnected) ↔ (s.host_reachable ≡ false))
    × ((status ≡ done)
        ↔ ((s.host_reachable ≡ true) × ((s.tmux_session_exists ≡ false) ⊎ (s.exit_code ≡ some 0))))

connection_status-some :
    (s : SessionSignals) (r : Detected)
    → connection_status s ≡ some r
    → IsConnectionStatus s r.status
unfolding connection_status exit_status
connection_status-some s r e = elim (Bool-cases s.host_reachable) [
  | inr away ↦ ground (arith, away)
  | inl there ↦ elim (Bool-cases s.tmux_session_exists) [
    | inr gone ↦ ground (arith, there, gone)
    | inl lives ↦ ground (arith, there, lives)
  ]
]

connection_status-none :
    (s : SessionSignals)
    → connection_status s ≡ none
    → (s.host_reachable ≡ true) × (s.tmux_session_exists ≡ true) × (s.exit_code ≡ none)
unfolding connection_status
connection_status-none s e = ground arith

module _ {Pattern : Type 0} (exec : Pattern → Text → Option (ℕ × Text))
    (to_lower_case strip_ansi : Text → Text) where
  -- Whatever the terminal shows, the rules say and the adapter does: a session is disconnected
  -- exactly when its host cannot be reached, and done exactly when the host can be reached and
  -- the tmux session is gone or there is an exit code, and it is 0.
  pub evaluate_status-IsConnectionStatus :
      (adapter : Adapter exec to_lower_case strip_ansi) (s : SessionSignals)
      (options : AdapterOptions exec to_lower_case strip_ansi) (now : ℕ)
      → IsConnectionStatus s
          (evaluate_status exec to_lower_case strip_ansi adapter s options now).status
  unfolding evaluate_status IsLive
  evaluate_status-IsConnectionStatus adapter s options now =
      elim (Option-cases (connection_status s)) [
        | inl e ↦
            let (reached, lives, open_exit) = connection_status-none s e in
            let (apart, unfinished) =
              rule_status-IsLive exec to_lower_case strip_ansi adapter s options now in
            rw (e, evaluate_status)
              (
                ((λ h. absurd (apart h)), (λ h. ground (arith, reached, h))),
                ((λ h. absurd (unfinished h)), (λ (_, ends). ground (arith, lives, open_exit))),
              )
        | inr (r, e) ↦ rw (e, evaluate_status) (connection_status-some s r e)
      ]
