-- ===== src/Gates/Tests.antt =====
-- The theorems on the gates, applied to a proposal with a current report. A trace's hash is its
-- id, and every text names the instant of its length.
use codex_watchdog.Policy.Evidence.{
  release_gate_snapshot_is_pass, validator_snapshot_is_pass, ValidatorVerdict, ValidatorSnapshot,
  ReleaseGateVerdict, ReleaseGateSnapshot,
}
use codex_watchdog.Common.{
  String, ◌≡◌, refl, ap, ◌↔◌, ◌⊎◌, true, false, none, some, [], ◌∷◌, Result, ok, Dict, get, keep,
}
use codex_watchdog.Common.Texts.{sort_texts, strip, one_of}
use codex_watchdog.Common.Values.{number, string}
use Prim.Native.String.{len}
use codex_watchdog.Leases.State.{Moment}
use codex_watchdog.Policy.Decisions.{PersistedSession}
use codex_watchdog.Policy.Engine.{not_ready, any_fact}
use codex_watchdog.Policy.Safety.{Executes}
use codex_watchdog.Policy.Execution.{AllGatesPass, continue_executes_iff}
use codex_watchdog.Gates.Validator.{
  Proposal, validate, validate_iff, validate_managed_action_arguments, check_arguments,
  invalid_fields_of, field_error,
}
use codex_watchdog.Gates.Release.{
  Trace, ReleaseGateReport, evaluate, evaluate-pass, Current, parse_time, replace_z, first_mismatch,
  field_pairs, degrade_reason_for_report,
}
use codex_watchdog.Gates.Chain.{execution_earned}

abbrev clock : String → Result Moment
clock s = ok (Moment.aware (len s))

abbrev hash_of : Trace → String
hash_of t = t.trace_id

abbrev digest : String → String
digest s = s

abbrev trace : Trace
trace = record {
  trace_id = "trace:1";
  provider = "openai";
  model = "m1";
  prompt_schema_ref = "prompt:1";
  output_schema_ref = "output:1";
}

abbrev report : ReleaseGateReport
report = record {
  report_id = "report:resident_default";
  report_hash = "sha256:r";
  sample_window = "w";
  shadow_window = "w";
  label_manifest = "l";
  generated_by = "ci";
  report_approved_by = "ops";
  artifact_ref = "a";
  expires_at = "a late time";
  provider = "openai";
  model = "m1";
  prompt_schema_ref = "prompt:1";
  output_schema_ref = "output:1";
  risk_policy_version = "risk:1";
  decision_input_builder_version = "b:1";
  policy_engine_version = "p:1";
  tool_schema_hash = "t:1";
  memory_provider_adapter_hash = "m:1";
  input_hash = "trace:1";
  runtime_contract_surface_ref = "watchdog.settings.Settings.build_runtime_contract";
  shadow_decision_count = none;
  certification_packet_count = none;
}

abbrev contract : Dict String
contract = ("policy_engine_version", "p:1") ∷ []

abbrev proposal : Proposal
proposal = record {
  brain_intent = "propose_execute";
  action_ref = some "continue_session";
  action_arguments = some (("message", string "go on") ∷ ("stuck_level", number 2) ∷ []);
  goal_contract_readiness = none;
  memory_conflict_detected = false;
  memory_unavailable = false;
}

abbrev sound : ValidatorVerdict
sound = record { status = "pass"; reason = some "schema_and_risk_ok" }

arguments_fit :
    (validate_managed_action_arguments (some "continue_session") proposal.action_arguments).status
    ≡ "pass"
unfolding validate_managed_action_arguments check_arguments invalid_fields_of field_error get keep
    one_of sort_texts strip
arguments_fit = refl

valid_proposal : validate proposal none none ≡ sound
unfolding validate validate_managed_action_arguments check_arguments invalid_fields_of field_error
    get keep one_of sort_texts strip
valid_proposal = refl

validate_iff_example : ((validate proposal none none).status ≡ "pass") ↔ (
    (proposal.memory_conflict_detected ≡ false)
    × (proposal.memory_unavailable ≡ false)
    × (not_ready proposal.goal_contract_readiness ≡ false)
    × ((proposal.action_ref ≡ none)
        ⊎ ((validate_managed_action_arguments proposal.action_ref proposal.action_arguments).status
            ≡ "pass")))
validate_iff_example = validate_iff proposal none refl

abbrev gate_passes : ReleaseGateVerdict
gate_passes = record {
  status = "pass";
  decision_trace_ref = "trace:1";
  approval_read_ref = "approval:none";
  degrade_reason = none;
  report_id = "report:resident_default";
  report_hash = "sha256:r";
  input_hash = "trace:1";
}

judged_pass :
    evaluate clock hash_of "propose_execute" trace
      (validate proposal none none)
      none
      none
      (some report)
      (some contract)
      (some "now")
    ≡ gate_passes
unfolding evaluate degrade_reason_for_report parse_time replace_z first_mismatch field_pairs get
    validate validate_managed_action_arguments check_arguments invalid_fields_of field_error keep
    one_of sort_texts strip
judged_pass = refl

abbrev Earned : Type 0
Earned =
    (some report ≡ none)
    ⊎ ((r : ReleaseGateReport) × (some report ≡ some r)
        × Current clock hash_of trace r contract (some "now"))

evaluate-pass_example :
    (proposal.brain_intent ≡ "propose_execute")
    × ((validate proposal none none).status ≡ "pass")
    × Earned
evaluate-pass_example =
    evaluate-pass clock hash_of trace "propose_execute" (validate proposal none none) none
      (some report) (some contract) (some "now") (ap (λ v. v.status) judged_pass)

abbrev session : PersistedSession
session = record {
  project_id = "repo-a";
  thread_id = "session:repo-a";
  native_thread_id = none;
  session_native_thread_id = none;
  progress_native_thread_id = none;
  fact_snapshot_version = "fact-v7";
  facts = [];
  approval_queue = [];
}

abbrev validator : ValidatorSnapshot
validator = record { verdict = some (validate proposal none none); has_verdict_payload = true }

abbrev gate : ReleaseGateSnapshot (Unit {0})
gate = record {
  verdict = some (
      evaluate clock hash_of "propose_execute" trace (validate proposal none none) none none
        (some report) (some contract) (some "now"));
  evidence_bundle = none;
  has_verdict_payload = true;
  has_evidence_bundle_payload = false;
}

all_pass : AllGatesPass session none validator gate
unfolding any_fact keep validator_snapshot_is_pass release_gate_snapshot_is_pass
all_pass = (refl, refl, refl, rw valid_proposal refl, rw judged_pass refl)

executes :
    Executes session
      (some "propose_execute")
      "continue_session"
      none
      validator
      gate
      digest
      "now"
      "resident_supervision"
      "policy-v1"
executes =
    (continue_executes_iff session none validator gate digest "now" "resident_supervision"
        "policy-v1").1
      all_pass

execution_earned_example :
    (proposal.memory_conflict_detected ≡ false)
    × (proposal.memory_unavailable ≡ false)
    × (not_ready proposal.goal_contract_readiness ≡ false)
    × ((proposal.action_ref ≡ none)
        ⊎ ((validate_managed_action_arguments proposal.action_ref proposal.action_arguments).status
            ≡ "pass"))
    × Earned
execution_earned_example =
    execution_earned clock hash_of digest session "continue_session" none validator gate "now"
      "resident_supervision" "policy-v1" proposal none trace none (some report) (some contract)
      (some "now") refl refl refl executes
