-- ===== src/Policy/Execution.antt =====
-- Exactly when the brain's proposal to continue a session executes by itself.
use codex_watchdog.Common.{
  String, ◌≡◌, refl, ◌↔◌, inl, inr, true, false, Option, none, some, [], get, keep,
}
use codex_watchdog.Common.Texts.{one_of}
use codex_watchdog.Policy.Rules.{
  auto_execute_and_notify, controlled_uncertainty_reasons, human_gate_fact_codes,
}
use codex_watchdog.Policy.Decisions.{PersistedSession, build_canonical_decision_record}
use codex_watchdog.Policy.Evidence.{
  ValidatorSnapshot, ReleaseGateSnapshot, validator_snapshot_is_pass, release_gate_snapshot_is_pass,
}
use codex_watchdog.Policy.Engine.{
  Readiness, any_fact, fact_codes, not_ready, rule_on, runtime_gate_override, intent_ruling,
  evaluate_persisted_session_policy,
}
use codex_watchdog.Policy.Safety.{closing_intents, executes_gated, Executes, executes_safely}

pub not_closing : ¬ (one_of closing_intents "propose_execute" ≡ true)
unfolding one_of
not_closing h = cc

module _ {Bundle : Type 0} (p : PersistedSession) (readiness : Option Readiness)
    (validator : ValidatorSnapshot) (gate : ReleaseGateSnapshot Bundle) where
  abbrev pub AllGatesPass : Type 0
  AllGatesPass =
      (any_fact human_gate_fact_codes (fact_codes p) ≡ false)
      × (keep (one_of controlled_uncertainty_reasons) (fact_codes p) ≡ [])
      × (not_ready readiness ≡ false)
      × (validator_snapshot_is_pass validator ≡ true)
      × (release_gate_snapshot_is_pass gate ≡ true)

  open_gates :
      validator_snapshot_is_pass validator ≡ true
      → release_gate_snapshot_is_pass gate ≡ true
      → runtime_gate_override (some "propose_execute") validator gate ≡ none
  unfolding runtime_gate_override one_of
  open_gates v g = rw (v, g) refl

  ruling_when :
      AllGatesPass
      → (rule_on p
          (some "propose_execute")
          "continue_session"
          readiness
          validator
          gate).decision_result
        ≡ auto_execute_and_notify
  unfolding rule_on one_of intent_ruling get
  ruling_when h = rw (h.0, h.1, h.2, open_gates h.3 h.4) refl

  module _ (digest : String → String) (created_at trigger policy_version : String) where
    executes_when :
        AllGatesPass
        → Executes p
            (some "propose_execute")
            "continue_session"
            readiness
            validator
            gate
            digest
            created_at
            trigger
            policy_version
    unfolding evaluate_persisted_session_policy build_canonical_decision_record
    executes_when h = ruling_when h

    -- propose_execute continues a session by itself exactly when there is no human gate, no
    -- controlled uncertainty, a ready or absent goal contract, a passed validator and a passed
    -- release gate with its evidence.
    pub continue_executes_iff :
        Executes p
          (some "propose_execute")
          "continue_session"
          readiness
          validator
          gate
          digest
          created_at
          trigger
          policy_version
        ↔ AllGatesPass
    continue_executes_iff = (
      (λ h.
          let safe =
            executes_safely p (some "propose_execute") "continue_session" readiness validator gate
              digest created_at trigger policy_version h in
          let gates =
            executes_gated p (some "propose_execute") "continue_session" readiness validator gate
              digest created_at trigger policy_version "propose_execute" refl h in
          (
            safe.0,
            safe.1,
            safe.3,
            gates.1,
            elim gates.2 [ inl execute ↦ execute.1 | inr closing ↦ absurd (not_closing closing.0) ],
          )),
      executes_when,
    )
