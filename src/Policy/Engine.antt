-- ===== src/Policy/Engine.antt =====
-- `evaluate_persisted_session_policy` of policy/engine.py. Its branches are tried from the top;
-- each is a `Ruling`, and `build_canonical_decision_record` makes the record of it. The gates
-- arrive as the snapshots that the read contracts make of the verdicts.
use codex_watchdog.Common.{
  String, Bool, true, false, ◌&&◌, ◌||◌, not, Option, none, some, List, [], ◌∷◌, map, ◌==◌,
  if◌then◌else◌, is_none, or_else, get, keep,
}
use codex_watchdog.Common.Texts.{format, join, one_of}
use codex_watchdog.Policy.Rules.{
  DecisionResult, auto_execute_and_notify, require_user_decision, block_and_alert, RiskClass,
  no_risk, human_gate, hard_block, Boundary, managed_agent_action_boundary,
  controlled_uncertainty_reasons, human_gate_fact_codes, registered_action_refs,
  explicit_user_decision_action_refs,
}
use codex_watchdog.Policy.Decisions.{
  Fact, PersistedSession, Ruling, CanonicalDecision, build_canonical_decision_record,
}
use codex_watchdog.Policy.Evidence.{
  ValidatorVerdict, ValidatorSnapshot, ReleaseGateVerdict, ReleaseGateSnapshot,
  validator_snapshot_is_pass, validator_snapshot_has_gate_evidence, validator_snapshot_reason,
  release_gate_snapshot_is_pass, release_gate_verdict_is_executable,
  release_gate_snapshot_has_gate_evidence, release_gate_snapshot_reason,
}

pub record Readiness : Type 0 where
  pub mode : String
  pub missing_fields : List String

pub data BoundaryStatus : Type 0 where
  unregistered_action legacy_untyped passed blocked : BoundaryStatus

-- `x in xs` for an `x` that may be `None`
abbrev pub intent_in : Option String → List String → Bool
intent_in none xs = false
intent_in (some i) xs = one_of xs i

pub record BoundarySnapshot : Type 0 where
  pub status : BoundaryStatus
  pub action_ref : String
  pub brain_intent : Option String
  -- What is there for a registered action, and whether its intent may execute by itself.
  pub boundary : Option Boundary
  pub auto_execute_eligible : Bool

unfoldable pub managed_agent_boundary_snapshot : Option String → String → BoundarySnapshot
managed_agent_boundary_snapshot brain_intent action_ref =
    elim (get action_ref managed_agent_action_boundary) [
      | none ↦ record {
        status = unregistered_action;
        action_ref = action_ref;
        brain_intent = brain_intent;
        boundary = none;
        auto_execute_eligible = false;
      }
      | some b ↦ record {
        status =
            if is_none brain_intent
            then legacy_untyped
            else if intent_in brain_intent b.allowed_brain_intents
            then passed
            else blocked;
        action_ref = action_ref;
        brain_intent = brain_intent;
        boundary = some b;
        auto_execute_eligible = intent_in brain_intent b.auto_execute_allowed_intents;
      }
    ]

-- `_goal_contract_evidence` merged with `_managed_agent_boundary_evidence`.
pub record ExtraEvidence (Bundle : Type 0) : Type 0 where
  pub goal_contract_readiness : Option Readiness
  pub validator_verdict : Option ValidatorVerdict
  pub release_gate_verdict : Option ReleaseGateVerdict
  pub release_gate_evidence_bundle : Option Bundle
  pub managed_agent_boundary : BoundarySnapshot

abbrev pub ruling :
    DecisionResult
    → RiskClass
    → String
    → String
    → Option String
    → Option String
    → List String
    → Ruling
ruling result risk rule reason why_not why uncertain = record {
  decision_result = result;
  risk_class = risk;
  matched_policy_rules = rule ∷ [];
  decision_reason = reason;
  why_not_escalated = why_not;
  why_escalated = why;
  uncertainty_reasons = uncertain;
}

unfoldable pub any_fact : List String → List String → Bool
any_fact codes [] = false
any_fact codes (c ∷ cs) = one_of codes c || any_fact codes cs

-- `not xs`
abbrev pub is_empty : List String → Bool
is_empty [] = true
is_empty (x ∷ xs) = false

abbrev pub fact_codes : PersistedSession → List String
fact_codes p = map (λ (f : Fact). f.fact_code) p.facts

abbrev pub not_ready : Option Readiness → Bool
not_ready none = false
not_ready (some r) = not (r.mode == "autonomous_ready")

abbrev missing_summary : Option Readiness → String
missing_summary none = "goal_contract"
missing_summary (some r) =
    let s = join ", " r.missing_fields in if s == "" then "goal_contract" else s

-- The rulings for the intents that never execute.
unfoldable pub intent_ruling : Option String → Option Ruling
intent_ruling brain_intent =
    if intent_in brain_intent ("candidate_closure" ∷ [])
    then some (
        ruling block_and_alert hard_block "task_completion_candidate"
          "session completion candidate recorded for operator review"
          (some "candidate closure is informational; no executable approval prompt was created")
          none [])
    else if intent_in brain_intent ("require_approval" ∷ [])
    then some (
        ruling block_and_alert hard_block "brain_requires_approval"
          "brain approval request suppressed without actionable approval"
          (some
            "approval prompts require an actionable runtime approval projection; brain intent alone is not a product action")
          none ("approval_not_actionable" ∷ []))
    else if intent_in brain_intent ("suggest_only" ∷ [])
    then some (
        ruling block_and_alert hard_block "brain_suggest_only"
          "brain suggested a non-executing follow-up" none (some "brain intent is suggest_only") [])
    else if intent_in brain_intent ("observe_only" ∷ [])
    then some (
        ruling block_and_alert hard_block "brain_observe_only"
          "brain observed state without proposing execution" none
          (some "brain intent is observe_only") [])
    else none

abbrev pub is_blocked : BoundaryStatus → Bool
is_blocked blocked = true
is_blocked _ = false

module _ {Bundle : Type 0} where
  -- `_runtime_gate_override`
  unfoldable pub runtime_gate_override :
      Option String → ValidatorSnapshot → ReleaseGateSnapshot Bundle → Option Ruling
  runtime_gate_override brain_intent validator release_gate =
      let validator_reason = validator_snapshot_reason validator "validator_missing" in
      let gate_reason = release_gate_snapshot_reason release_gate "release_gate_missing" in
      let gate_rule =
        if not (release_gate_snapshot_has_gate_evidence release_gate)
        then "runtime_gate_missing"
        else "release_gate_degraded" in
      let stale = gate_reason == "approval_stale" in
      if not (
        intent_in brain_intent
          ("propose_execute" ∷ "propose_recovery" ∷ "branch_complete_switch" ∷ []))
      then none
      else if not (validator_snapshot_is_pass validator)
      then some (
          ruling block_and_alert hard_block
            (if not (validator_snapshot_has_gate_evidence validator)
              then "runtime_gate_missing"
              else "validator_gate_degraded")
            "validator gate blocks autonomous execution" none
            (some (format ("validator verdict is not pass: " ∷ validator_reason ∷ [])))
            (validator_reason ∷ []))
      else if intent_in brain_intent ("propose_recovery" ∷ "branch_complete_switch" ∷ [])
      then (if not (release_gate_verdict_is_executable release_gate)
          then some (
              ruling block_and_alert hard_block gate_rule
                "branch switch closeout lacks authoritative runtime gate evidence" none
                (some (format ("release gate verdict is not executable: " ∷ gate_reason ∷ [])))
                (gate_reason ∷ []))
          else none)
      else if not (release_gate_snapshot_is_pass release_gate)
      then some (
          ruling (if stale then require_user_decision else block_and_alert)
            (if stale then human_gate else hard_block) gate_rule
            (if stale
              then "release gate requires fresh approval before autonomous execution"
              else "release gate blocks autonomous execution")
            none (some (format ("release gate verdict is not pass: " ∷ gate_reason ∷ [])))
            (gate_reason ∷ []))
      else none

  -- The ladder of `evaluate_persisted_session_policy`.
  unfoldable pub rule_on :
      PersistedSession
      → Option String
      → String
      → Option Readiness
      → ValidatorSnapshot
      → ReleaseGateSnapshot Bundle
      → Ruling
  unfolding managed_agent_boundary_snapshot
  rule_on p brain_intent action_ref readiness validator release_gate =
      let codes = fact_codes p in
      let uncertain = keep (one_of controlled_uncertainty_reasons) codes in
      let boundary = managed_agent_boundary_snapshot brain_intent action_ref in
      if is_blocked boundary.status
      then ruling block_and_alert hard_block "managed_agent_boundary"
          "managed agent capability boundary rejected the requested action" none
          (some (
            format (
              "brain intent is outside the managed boundary for "
              ∷ action_ref
              ∷ ": "
              ∷ or_else brain_intent "None"
              ∷ [])))
          ("managed_boundary_mismatch" ∷ [])
      else if any_fact human_gate_fact_codes codes
      then ruling require_user_decision human_gate "human_gate"
          "session requires explicit human decision" none
          (some "human_gate matched persisted facts") []
      else if not (is_empty uncertain)
      then ruling block_and_alert hard_block "controlled_uncertainty"
          "controlled uncertainty blocks autonomous execution" none
          (some "controlled uncertainty requires block") uncertain
      else if not (one_of registered_action_refs action_ref)
      then ruling block_and_alert hard_block "action_registration" "action policy is not registered"
          none (some "unregistered action cannot be auto executed") ("action_unregistered" ∷ [])
      else if one_of explicit_user_decision_action_refs action_ref
          && not (intent_in brain_intent ("propose_recovery" ∷ []))
      then ruling require_user_decision human_gate "recovery_human_gate"
          "recovery execution requires explicit human decision" none
          (some "recovery execution requires explicit human decision") []
      else if not_ready readiness
      then ruling require_user_decision human_gate "goal_contract_readiness_gate"
          "goal contract is incomplete for autonomous execution" none
          (some
            (format ("goal contract is not autonomous_ready: " ∷ missing_summary readiness ∷ [])))
          []
      else or_else (intent_ruling brain_intent) (
          or_else (runtime_gate_override brain_intent validator release_gate) (
            ruling auto_execute_and_notify no_risk "registered_action"
              "registered action and complete evidence" (some "policy_allows_auto_execution") none
              []))

  unfoldable pub evaluate_persisted_session_policy :
      (digest : String → String) (created_at : String)
      → PersistedSession
      → String
      → String
      → Option String
      → ValidatorSnapshot
      → ReleaseGateSnapshot Bundle
      → String
      → Option Readiness
      → CanonicalDecision (ExtraEvidence Bundle)
  unfolding rule_on
  evaluate_persisted_session_policy digest created_at p action_ref trigger brain_intent validator
        release_gate policy_version readiness =
      build_canonical_decision_record digest created_at p brain_intent action_ref policy_version
        trigger
        (record {
          goal_contract_readiness = readiness;
          validator_verdict = validator.verdict;
          release_gate_verdict = release_gate.verdict;
          release_gate_evidence_bundle = release_gate.evidence_bundle;
          managed_agent_boundary = managed_agent_boundary_snapshot brain_intent action_ref;
        })
        (rule_on p brain_intent action_ref readiness validator release_gate)
