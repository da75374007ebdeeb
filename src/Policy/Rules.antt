-- ===== src/Policy/Rules.antt =====
-- policy/rules.py: the constants of the policy, and the managed agent's boundary.
use codex_watchdog.Common.{String, List, [], ◌∷◌, Dict}

pub data DecisionResult : Type 0 where
  auto_execute_and_notify require_user_decision block_and_alert : DecisionResult

pub data RiskClass : Type 0 where
  no_risk human_gate hard_block : RiskClass

abbrev pub result_name : DecisionResult → String
result_name auto_execute_and_notify = "auto_execute_and_notify"
result_name require_user_decision = "require_user_decision"
result_name block_and_alert = "block_and_alert"

abbrev pub risk_name : RiskClass → String
risk_name no_risk = "none"
risk_name human_gate = "human_gate"
risk_name hard_block = "hard_block"

abbrev pub controlled_uncertainty_reasons : List String
controlled_uncertainty_reasons =
    "evidence_missing" ∷ "fact_conflict" ∷ "policy_conflict" ∷ "action_unregistered"
    ∷ "risk_unexplainable" ∷ "mapping_incomplete" ∷ "idempotency_uncertain" ∷ []

abbrev pub human_gate_fact_codes : List String
human_gate_fact_codes = "approval_pending" ∷ "awaiting_human_direction" ∷ []

abbrev pub registered_action_refs : List String
registered_action_refs =
    "continue_session" ∷ "request_recovery" ∷ "execute_recovery" ∷ "post_operator_guidance" ∷ []

abbrev pub explicit_user_decision_action_refs : List String
explicit_user_decision_action_refs = "execute_recovery" ∷ []

pub record Boundary : Type 0 where
  pub capability : String
  pub allowed_brain_intents : List String
  pub auto_execute_allowed_intents : List String

abbrev pub managed_agent_action_boundary : Dict Boundary
managed_agent_action_boundary =
    (
      "continue_session",
      record {
        capability = "session_control";
        allowed_brain_intents =
            "propose_execute" ∷ "require_approval" ∷ "suggest_only" ∷ "observe_only" ∷ [];
        auto_execute_allowed_intents = "propose_execute" ∷ [];
      },
    )
    ∷ (
      "request_recovery",
      record {
        capability = "session_recovery";
        allowed_brain_intents = "propose_recovery" ∷ [];
        auto_execute_allowed_intents = "propose_recovery" ∷ [];
      },
    )
    ∷ (
      "execute_recovery",
      record {
        capability = "session_recovery";
        allowed_brain_intents = "propose_recovery" ∷ [];
        auto_execute_allowed_intents = "propose_recovery" ∷ [];
      },
    )
    ∷ (
      "post_operator_guidance",
      record {
        capability = "operator_guidance";
        allowed_brain_intents = "candidate_closure" ∷ "branch_complete_switch" ∷ [];
        auto_execute_allowed_intents = "branch_complete_switch" ∷ [];
      },
    )
    ∷ []
