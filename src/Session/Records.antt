-- ===== src/Session/Records.antt =====
-- session_service/models.py, and `_SessionServiceStoreFile` of session_service/store.py.
use codex_watchdog.Common.{
  ℕ, String, ◌≡◌, refl, Bool, true, ◌&&◌, Option, some, List, [], ◌∷◌, ◌==◌, eq_refl, Dict, Result,
  ok, raise, value_error, if◌then◌else◌, or_else,
}
use codex_watchdog.Common.Texts.{one_of, format}
use codex_watchdog.Common.Values.{
  Value, text_eq, value_eq, value_eq_refl, option_eq, option_eq_refl, dict_eq, dict_eq_refl,
}

pub record SessionEvent : Type 0 where
  pub event_id : String
  pub project_id : String
  pub session_id : String
  pub event_type : String
  pub occurred_at : String
  pub causation_id : Option String
  pub correlation_id : String
  pub idempotency_key : String
  pub related_ids : Dict String
  pub payload : Dict Value
  pub log_seq : Option ℕ

pub record SessionLineage : Type 0 where
  pub lineage_id : String
  pub project_id : String
  pub parent_session_id : String
  pub child_session_id : String
  pub relation : String
  pub source_packet_id : String
  pub recovery_reason : String
  pub goal_contract_version : String
  pub recovery_transaction_id : Option String
  pub committed_at : String
  pub causation_id : Option String
  pub correlation_id : String
  pub idempotency_key : String
  pub metadata : Dict Value
  pub log_seq : Option ℕ

pub record RecoveryTransaction : Type 0 where
  pub recovery_transaction_id : String
  pub recovery_key : String
  pub project_id : String
  pub parent_session_id : String
  pub child_session_id : Option String
  pub source_packet_id : Option String
  pub recovery_reason : String
  pub failure_family : String
  pub failure_signature : String
  pub status : String
  pub started_at : String
  pub updated_at : String
  pub completed_at : Option String
  pub lineage_id : Option String
  pub causation_id : Option String
  pub correlation_id : String
  pub idempotency_key : String
  pub metadata : Dict Value
  pub log_seq : Option ℕ

pub record StoreFile : Type 0 where
  pub next_log_seq : ℕ
  pub events : List SessionEvent
  pub lineage : List SessionLineage
  pub recovery_transactions : List RecoveryTransaction

abbrev pub empty : StoreFile
empty = record { next_log_seq = 1; events = []; lineage = []; recovery_transactions = [] }

abbrev pub controlled_event_types : List String
controlled_event_types =
    "goal_contract_created" ∷ "goal_contract_revised" ∷ "goal_contract_adopted_by_child_session"
    ∷ "decision_proposed" ∷ "decision_validated" ∷ "command_created" ∷ "command_claimed"
    ∷ "command_lease_renewed" ∷ "command_claim_expired" ∷ "command_requeued" ∷ "command_executed"
    ∷ "command_failed" ∷ "approval_requested" ∷ "approval_approved" ∷ "approval_rejected"
    ∷ "approval_expired" ∷ "approval_superseded_by_goal_contract_bootstrap"
    ∷ "notification_announced" ∷ "notification_delivery_succeeded" ∷ "notification_delivery_failed"
    ∷ "notification_requeued" ∷ "notification_receipt_recorded" ∷ "feishu_command_route_bound"
    ∷ "interaction_context_superseded" ∷ "interaction_window_expired" ∷ "human_override_recorded"
    ∷ "memory_unavailable_degraded" ∷ "memory_conflict_detected" ∷ "stage_goal_conflict_detected"
    ∷ "recovery_dispatch_started" ∷ "recovery_execution_suppressed" ∷ "continuation_gate_evaluated"
    ∷ "continuation_identity_issued" ∷ "continuation_identity_consumed"
    ∷ "continuation_identity_invalidated" ∷ "branch_switch_token_issued"
    ∷ "branch_switch_token_consumed" ∷ "branch_switch_token_invalidated"
    ∷ "continuation_replay_invalidated" ∷ "recovery_tx_started" ∷ "handoff_packet_frozen"
    ∷ "child_session_created" ∷ "lineage_committed" ∷ "parent_session_closed_or_cooled"
    ∷ "recovery_tx_completed" ∷ "future_worker_requested" ∷ "future_worker_started"
    ∷ "future_worker_heartbeat" ∷ "future_worker_summary_published" ∷ "future_worker_completed"
    ∷ "future_worker_failed" ∷ "future_worker_cancelled" ∷ "future_worker_transition_rejected"
    ∷ "future_worker_result_consumed" ∷ "future_worker_result_rejected" ∷ []

-- `Field(min_length=1)` on each text, and the check of the event type.
unfoldable pub validate_event : SessionEvent → Result SessionEvent
unfolding one_of
validate_event e =
    let required : List String =
      e.event_id ∷ e.project_id ∷ e.session_id ∷ e.event_type ∷ e.occurred_at ∷ e.correlation_id
      ∷ e.idempotency_key ∷ [] in
    if one_of required ""
    then raise (value_error "String should have at least 1 character")
    else if one_of controlled_event_types e.event_type
    then ok e
    else raise (value_error (format ("unsupported session event type: " ∷ e.event_type ∷ [])))

-- `_normalized(a) == _normalized(b)`: all fields but `log_seq`.
unfoldable pub same_event : SessionEvent → SessionEvent → Bool
same_event a b =
    a.event_id == b.event_id
    && a.project_id == b.project_id
    && a.session_id == b.session_id
    && a.event_type == b.event_type
    && a.occurred_at == b.occurred_at
    && option_eq text_eq a.causation_id b.causation_id
    && a.correlation_id == b.correlation_id
    && a.idempotency_key == b.idempotency_key
    && dict_eq text_eq a.related_ids b.related_ids
    && dict_eq value_eq a.payload b.payload

unfoldable pub same_lineage : SessionLineage → SessionLineage → Bool
same_lineage a b =
    a.lineage_id == b.lineage_id
    && a.project_id == b.project_id
    && a.parent_session_id == b.parent_session_id
    && a.child_session_id == b.child_session_id
    && a.relation == b.relation
    && a.source_packet_id == b.source_packet_id
    && a.recovery_reason == b.recovery_reason
    && a.goal_contract_version == b.goal_contract_version
    && option_eq text_eq a.recovery_transaction_id b.recovery_transaction_id
    && a.committed_at == b.committed_at
    && option_eq text_eq a.causation_id b.causation_id
    && a.correlation_id == b.correlation_id
    && a.idempotency_key == b.idempotency_key
    && dict_eq value_eq a.metadata b.metadata

unfoldable pub same_transaction : RecoveryTransaction → RecoveryTransaction → Bool
same_transaction a b =
    a.recovery_transaction_id == b.recovery_transaction_id
    && a.recovery_key == b.recovery_key
    && a.project_id == b.project_id
    && a.parent_session_id == b.parent_session_id
    && option_eq text_eq a.child_session_id b.child_session_id
    && option_eq text_eq a.source_packet_id b.source_packet_id
    && a.recovery_reason == b.recovery_reason
    && a.failure_family == b.failure_family
    && a.failure_signature == b.failure_signature
    && a.status == b.status
    && a.started_at == b.started_at
    && a.updated_at == b.updated_at
    && option_eq text_eq a.completed_at b.completed_at
    && option_eq text_eq a.lineage_id b.lineage_id
    && option_eq text_eq a.causation_id b.causation_id
    && a.correlation_id == b.correlation_id
    && a.idempotency_key == b.idempotency_key
    && dict_eq value_eq a.metadata b.metadata

pub same_event_refl :
    (e : SessionEvent) (n : Option ℕ) → same_event (record e { log_seq = n }) e ≡ true
unfolding same_event
same_event_refl e n = simp (
  eq_refl,
  option_eq_refl text_eq eq_refl,
  dict_eq_refl text_eq eq_refl,
  dict_eq_refl value_eq value_eq_refl,
)

pub same_lineage_refl :
    (e : SessionLineage) (n : Option ℕ) → same_lineage (record e { log_seq = n }) e ≡ true
unfolding same_lineage
same_lineage_refl e n =
    simp (eq_refl, option_eq_refl text_eq eq_refl, dict_eq_refl value_eq value_eq_refl)

pub same_transaction_refl :
    (e : RecoveryTransaction) (n : Option ℕ) → same_transaction (record e { log_seq = n }) e ≡ true
unfolding same_transaction
same_transaction_refl e n =
    simp (eq_refl, option_eq_refl text_eq eq_refl, dict_eq_refl value_eq value_eq_refl)

-- What the generic `RecordT` methods of the store use of a record.
pub record Stored (A : Type 0) : Type 0 where
  pub key : A → String
  pub same : A → A → Bool
  -- `record.log_seq or 0`
  pub seq : A → ℕ
  pub assign : ℕ → A → A
  pub key-assign : (n : ℕ) (a : A) → key (assign n a) ≡ key a
  pub seq-assign : (n : ℕ) (a : A) → seq (assign n a) ≡ n
  pub same-assign : (n : ℕ) (a : A) → same (assign n a) a ≡ true

abbrev pub event_stored : Stored SessionEvent
event_stored = record {
  key = λ e. e.idempotency_key;
  same = same_event;
  seq = λ e. or_else e.log_seq 0;
  assign = λ n e. record e { log_seq = some n };
  key-assign = λ n e. refl;
  seq-assign = λ n e. refl;
  same-assign = λ n e. same_event_refl e (some n);
}

abbrev pub lineage_stored : Stored SessionLineage
lineage_stored = record {
  key = λ e. e.idempotency_key;
  same = same_lineage;
  seq = λ e. or_else e.log_seq 0;
  assign = λ n e. record e { log_seq = some n };
  key-assign = λ n e. refl;
  seq-assign = λ n e. refl;
  same-assign = λ n e. same_lineage_refl e (some n);
}

abbrev pub transaction_stored : Stored RecoveryTransaction
transaction_stored = record {
  key = λ e. e.idempotency_key;
  same = same_transaction;
  seq = λ e. or_else e.log_seq 0;
  assign = λ n e. record e { log_seq = some n };
  key-assign = λ n e. refl;
  seq-assign = λ n e. refl;
  same-assign = λ n e. same_transaction_refl e (some n);
}
