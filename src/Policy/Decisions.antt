-- ===== src/Policy/Decisions.antt =====
-- The record that a decision becomes: `build_canonical_decision_record` of policy/decisions.py and
-- its helpers. `digest` stands for SHA-256 in hex, cut to sixteen characters, and `created_at` for
-- the clock. `Fact` and `Extra` are the parts of the evidence that are passed through: a fact's
-- dump, and what the engine adds.
use codex_watchdog.Common.{
  String, Option, none, some, List, [], ◌∷◌, ◌++◌, map, ◌==◌, if◌then◌else◌, or_else, Result, ok,
  raise, key_error, Dict,
}
use codex_watchdog.Common.Texts.{format, join, strip, one_of}
use codex_watchdog.Common.Values.{Value}
use codex_watchdog.Policy.Rules.{DecisionResult, RiskClass, result_name, risk_name}

pub record Fact : Type 0 where
  pub fact_code : String
  pub dumped : Dict Value

pub record PersistedSession : Type 0 where
  pub project_id : String
  pub thread_id : String
  pub native_thread_id : Option String
  pub session_native_thread_id : Option String
  pub progress_native_thread_id : Option String
  pub fact_snapshot_version : String
  pub facts : List Fact
  -- The approval ids of `approval_queue`.
  pub approval_queue : List String

unfoldable pub first_text : List (Option String) → Option String
first_text [] = none
first_text (o ∷ os) = let s = strip (or_else o "") in if s == "" then first_text os else some s

unfoldable pub effective_native_thread_id : PersistedSession → Option String
unfolding first_text
effective_native_thread_id p =
    first_text (p.native_thread_id ∷ p.session_native_thread_id ∷ p.progress_native_thread_id ∷ [])

abbrev pub head_or_none : List String → Option String
head_or_none [] = none
head_or_none (x ∷ xs) = some x

-- What a branch of the engine decides.
pub record Ruling : Type 0 where
  pub decision_result : DecisionResult
  pub risk_class : RiskClass
  pub matched_policy_rules : List String
  pub decision_reason : String
  pub why_not_escalated : Option String
  pub why_escalated : Option String
  pub uncertainty_reasons : List String

unfoldable pub build_decision_key :
    String → String → String → DecisionResult → Option String → String → Option String → String
build_decision_key session_id fact_snapshot_version policy_version decision_result brain_intent
      action_ref approval_id =
    join "|" (
      session_id
      ∷ fact_snapshot_version
      ∷ policy_version
      ∷ result_name decision_result
      ∷ or_else brain_intent ""
      ∷ action_ref
      ∷ or_else approval_id ""
      ∷ [])

-- `if text: notes.append(prefix + text)`
abbrev note_if : String → Option String → List String
note_if prefix none = []
note_if prefix (some s) = if s == "" then [] else format (prefix ∷ s ∷ []) ∷ []

abbrev note_list : String → List String → List String
note_list prefix [] = []
note_list prefix (x ∷ xs) = format (prefix ∷ join "," (x ∷ xs) ∷ []) ∷ []

unfoldable pub build_operator_notes : String → String → String → String → Ruling → List String
build_operator_notes session_id fact_snapshot_version policy_version action_ref r =
    (format (
        "decision="
        ∷ result_name r.decision_result
        ∷ " risk="
        ∷ risk_name r.risk_class
        ∷ " action="
        ∷ action_ref
        ∷ [])
      ∷ format (
          "snapshot=" ∷ fact_snapshot_version ∷ " policy=" ∷ policy_version ∷ " session="
          ∷ session_id ∷ [])
      ∷ [])
    ++ (note_list "rules=" r.matched_policy_rules
        ++ (note_list "uncertainty=" r.uncertainty_reasons
            ++ (note_if "why_not_escalated=" r.why_not_escalated
                ++ note_if "why_escalated=" r.why_escalated)))

-- The entry "target" of the evidence.
pub record Target : Type 0 where
  pub session_id : String
  pub project_id : String
  pub thread_id : String
  pub native_thread_id : Option String
  pub approval_id : Option String

-- The entry "decision" of the evidence.
pub record DecisionEntry : Type 0 where
  pub brain_intent : Option String
  pub runtime_disposition : DecisionResult
  pub decision_result : DecisionResult
  pub decision_reason : String
  pub why_not_escalated : Option String
  pub why_escalated : Option String
  pub uncertainty_reasons : List String
  pub action_ref : String
  pub approval_id : Option String

pub record DecisionEvidence (Extra : Type 0) : Type 0 where
  pub facts : List (Dict Value)
  pub matched_policy_rules : List String
  pub risk_class : RiskClass
  pub decision_reason : String
  pub why_not_escalated : Option String
  pub why_escalated : Option String
  pub decision : DecisionEntry
  pub target : Target
  pub policy_version : String
  pub fact_snapshot_version : String
  pub idempotency_key : String
  pub operator_notes : List String
  pub extra_evidence : Extra

pub record CanonicalDecision (Extra : Type 0) : Type 0 where
  pub decision_id : String
  pub decision_key : String
  pub session_id : String
  pub project_id : String
  pub thread_id : String
  pub native_thread_id : Option String
  pub approval_id : Option String
  pub action_ref : String
  pub trigger : String
  pub brain_intent : Option String
  pub runtime_disposition : DecisionResult
  pub decision_result : DecisionResult
  pub risk_class : RiskClass
  pub decision_reason : String
  pub matched_policy_rules : List String
  pub why_not_escalated : Option String
  pub why_escalated : Option String
  pub uncertainty_reasons : List String
  pub policy_version : String
  pub fact_snapshot_version : String
  pub idempotency_key : String
  pub created_at : String
  pub operator_notes : List String
  pub evidence : DecisionEvidence Extra

unfoldable pub build_canonical_decision_record :
    {Extra : Type 0} (digest : String → String) (created_at : String)
    → PersistedSession
    → Option String
    → String
    → String
    → String
    → Extra
    → Ruling
    → CanonicalDecision Extra
build_canonical_decision_record digest created_at p brain_intent action_ref policy_version trigger
      extra r =
    let approval_id = head_or_none p.approval_queue in
    let native_thread_id = effective_native_thread_id p in
    let decision_key =
      build_decision_key p.thread_id p.fact_snapshot_version policy_version r.decision_result
        brain_intent action_ref approval_id in
    let operator_notes =
      build_operator_notes p.thread_id p.fact_snapshot_version policy_version action_ref r in
    record {
      decision_id = format ("decision:" ∷ digest decision_key ∷ []);
      decision_key = decision_key;
      session_id = p.thread_id;
      project_id = p.project_id;
      thread_id = p.thread_id;
      native_thread_id = native_thread_id;
      approval_id = approval_id;
      action_ref = action_ref;
      trigger = trigger;
      brain_intent = brain_intent;
      runtime_disposition = r.decision_result;
      decision_result = r.decision_result;
      risk_class = r.risk_class;
      decision_reason = r.decision_reason;
      matched_policy_rules = r.matched_policy_rules;
      why_not_escalated = r.why_not_escalated;
      why_escalated = r.why_escalated;
      uncertainty_reasons = r.uncertainty_reasons;
      policy_version = policy_version;
      fact_snapshot_version = p.fact_snapshot_version;
      idempotency_key = decision_key;
      created_at = created_at;
      operator_notes = operator_notes;
      evidence = record {
        facts = map (λ (f : Fact). f.dumped) p.facts;
        matched_policy_rules = r.matched_policy_rules;
        risk_class = r.risk_class;
        decision_reason = r.decision_reason;
        why_not_escalated = r.why_not_escalated;
        why_escalated = r.why_escalated;
        decision = record {
          brain_intent = brain_intent;
          runtime_disposition = r.decision_result;
          decision_result = r.decision_result;
          decision_reason = r.decision_reason;
          why_not_escalated = r.why_not_escalated;
          why_escalated = r.why_escalated;
          uncertainty_reasons = r.uncertainty_reasons;
          action_ref = action_ref;
          approval_id = approval_id;
        };
        target = record {
          session_id = p.thread_id;
          project_id = p.project_id;
          thread_id = p.thread_id;
          native_thread_id = native_thread_id;
          approval_id = approval_id;
        };
        policy_version = policy_version;
        fact_snapshot_version = p.fact_snapshot_version;
        idempotency_key = decision_key;
        operator_notes = operator_notes;
        extra_evidence = extra;
      };
    }

-- `brain_intent_to_runtime_disposition`; a missing key is a `KeyError`.
unfoldable pub brain_intent_to_runtime_disposition : String → Result DecisionResult
brain_intent_to_runtime_disposition intent =
    if one_of ("propose_execute" ∷ "propose_recovery" ∷ "branch_complete_switch" ∷ []) intent
    then ok DecisionResult.auto_execute_and_notify
    else if intent == "require_approval"
    then ok DecisionResult.require_user_decision
    else if one_of ("candidate_closure" ∷ "suggest_only" ∷ "observe_only" ∷ "reject" ∷ []) intent
    then ok DecisionResult.block_and_alert
    else raise (key_error intent)
