-- ===== src/Policy/Tests.antt =====
-- The theorems on the policy, applied to a session without facts. The digest keeps the text, and
-- the evidence bundle is a unit.
use codex_watchdog.Common.{
  String, ◌≡◌, refl, ◌↔◌, ◌⊎◌, Bool, true, false, Option, none, some, [], ◌∷◌, eq_refl, get, keep,
}
use codex_watchdog.Common.Texts.{one_of}
use codex_watchdog.Policy.Rules.{
  controlled_uncertainty_reasons, human_gate_fact_codes, registered_action_refs,
}
use codex_watchdog.Policy.Decisions.{
  build_canonical_decision_record, PersistedSession, CanonicalDecision, DecisionEvidence,
}
use codex_watchdog.Policy.Evidence.{
  ValidatorSnapshot, ReleaseGateSnapshot, validator_snapshot_is_pass, release_gate_snapshot_is_pass,
  release_gate_verdict_is_executable,
}
use codex_watchdog.Policy.Engine.{
  intent_ruling, runtime_gate_override, evaluate_persisted_session_policy, rule_on, any_fact,
  fact_codes, not_ready, managed_agent_boundary_snapshot, ExtraEvidence,
}
use codex_watchdog.Policy.Safety.{
  closing_intents, executes_gated, recovery_proposed, Executes, decision, executes_safely,
}
use codex_watchdog.Policy.Execution.{AllGatesPass, continue_executes_iff}
use codex_watchdog.Policy.Store.{put_decision, put_decision_again}

abbrev session : PersistedSession
session = record {
  project_id = "repo-a";
  thread_id = "session:repo-a";
  native_thread_id = none;
  session_native_thread_id = none;
  progress_native_thread_id = none;
  fact_snapshot_version = "fact-v7";
  facts = [];
  approval_queue = [];
}

abbrev pass : ValidatorSnapshot
pass = record {
  verdict = some (record { status = "pass"; reason = none });
  has_verdict_payload = true;
}

abbrev gate : ReleaseGateSnapshot (Unit {0})
gate = record {
  verdict = some (record {
    status = "pass";
    decision_trace_ref = "trace:1";
    approval_read_ref = "approval:none";
    degrade_reason = none;
    report_id = "report:resident_default";
    report_hash = "h";
    input_hash = "i";
  });
  evidence_bundle = none;
  has_verdict_payload = true;
  has_evidence_bundle_payload = false;
}

abbrev action : String
action = "continue_session"

abbrev intent : Option String
intent = some "propose_execute"

abbrev executed_intent : String
executed_intent = "propose_execute"

abbrev digest : String → String
digest s = s

all_pass : AllGatesPass session none pass gate
unfolding any_fact keep validator_snapshot_is_pass release_gate_snapshot_is_pass
all_pass = (refl, refl, refl, refl, refl)

executes :
    Executes session
      (some "propose_execute")
      "continue_session"
      none
      pass
      gate
      digest
      "now"
      "resident_supervision"
      "policy-v1"
executes =
    (continue_executes_iff session none pass gate digest "now" "resident_supervision" "policy-v1").1
      all_pass

continue_executes_iff_example :
    Executes session
      (some "propose_execute")
      "continue_session"
      none
      pass
      gate
      digest
      "now"
      "resident_supervision"
      "policy-v1"
    ↔ AllGatesPass session none pass gate
continue_executes_iff_example =
    continue_executes_iff session none pass gate digest "now" "resident_supervision" "policy-v1"

executes_safely_example :
    (any_fact human_gate_fact_codes (fact_codes session) ≡ false)
    × (keep (one_of controlled_uncertainty_reasons) (fact_codes session) ≡ [])
    × (one_of registered_action_refs "continue_session" ≡ true)
    × (not_ready none ≡ false)
executes_safely_example =
    executes_safely session intent action none pass gate digest "now" "resident_supervision"
      "policy-v1" executes

executes_gated_example :
    ((managed_agent_boundary_snapshot intent action).auto_execute_eligible ≡ true)
    × (validator_snapshot_is_pass pass ≡ true)
    × ((("propose_execute" ≡ executed_intent) × (release_gate_snapshot_is_pass gate ≡ true))
        ⊎ ((one_of closing_intents "propose_execute" ≡ true)
            × (release_gate_verdict_is_executable gate ≡ true)))
executes_gated_example =
    executes_gated session intent action none pass gate digest "now" "resident_supervision"
      "policy-v1" "propose_execute" refl executes

-- A recovery that the brain proposed, with the same gates.
recovers :
    Executes session
      (some "propose_recovery")
      "execute_recovery"
      none
      pass
      gate
      digest
      "now"
      "resident_supervision"
      "policy-v1"
unfolding evaluate_persisted_session_policy build_canonical_decision_record rule_on one_of any_fact
    keep get intent_ruling runtime_gate_override validator_snapshot_is_pass
    release_gate_verdict_is_executable managed_agent_boundary_snapshot
recovers = refl

abbrev proposed : Option String
proposed = some "propose_recovery"

recovery_proposed_example : proposed ≡ some "propose_recovery"
recovery_proposed_example =
    recovery_proposed session proposed "execute_recovery" none pass gate digest "now"
      "resident_supervision" "policy-v1" refl recovers

abbrev made : CanonicalDecision (ExtraEvidence (Unit {0}))
made =
    decision session (some "propose_execute") "continue_session" none pass gate digest "now"
      "resident_supervision" "policy-v1"

abbrev always :
    DecisionEvidence (ExtraEvidence (Unit {0})) → DecisionEvidence (ExtraEvidence (Unit {0})) → Bool
always a b = true

put_decision_again_example :
    put_decision always ((made.decision_key, made) ∷ []) (record made { created_at = "later" })
    ≡ ((made.decision_key, made) ∷ [], made)
unfolding get
put_decision_again_example =
    put_decision_again always (λ e. refl) ((made.decision_key, made) ∷ []) made "later"
      (rw (eq_refl made.decision_key) refl)
