-- ===== src/Workers/Models.antt =====
-- future_worker/models.py, and the tables at the top of service.py. A runtime contract and a
-- heartbeat are dicts of texts.
use codex_watchdog.Common.{
  String, Bool, true, false, Option, none, some, List, [], ◌∷◌, if◌then◌else◌, value_error, Result,
  ok, raise, Dict,
}
use codex_watchdog.Common.Texts.{one_of}
use codex_watchdog.Common.Values.{Value, null, string, items, table}

pub record ExecutionRequest : Type 0 where
  pub project_id : String
  pub parent_session_id : String
  pub parent_native_thread_id : Option String
  pub worker_task_ref : String
  pub decision_trace_ref : String
  pub goal_contract_version : String
  pub scope : String
  pub allowed_hands : List String
  pub input_packet_refs : List String
  pub retrieval_handles : List String
  pub distilled_summary_ref : String
  pub execution_budget_ref : String
  pub worker_contract_version : String

pub record ResultEnvelope : Type 0 where
  pub worker_task_ref : String
  pub parent_session_id : String
  pub decision_trace_ref : String
  pub result_summary_ref : String
  pub artifact_refs : List String
  pub input_contract_hash : String
  pub result_hash : String
  pub produced_at : String
  pub status : String
  pub worker_runtime_contract : Dict String

-- `Field(min_length=1)`
abbrev pub non_empty {ℓ} : {A : Type ℓ} → List String → A → Result A
non_empty required a =
    if one_of required ""
    then raise (value_error "String should have at least 1 character")
    else ok a

unfoldable pub validate_request : ExecutionRequest → Result ExecutionRequest
validate_request r =
    non_empty
      (r.project_id ∷ r.parent_session_id ∷ r.worker_task_ref ∷ r.decision_trace_ref
        ∷ r.goal_contract_version ∷ r.scope ∷ r.distilled_summary_ref ∷ r.execution_budget_ref
        ∷ r.worker_contract_version ∷ [])
      r

unfoldable pub validate_envelope : ResultEnvelope → Result ResultEnvelope
validate_envelope e =
    non_empty
      (e.worker_task_ref ∷ e.parent_session_id ∷ e.decision_trace_ref ∷ e.result_summary_ref
        ∷ e.input_contract_hash ∷ e.result_hash ∷ e.produced_at ∷ e.status ∷ [])
      e

abbrev pub optional_text : Option String → Value
optional_text none = null
optional_text (some s) = string s

unfoldable pub dump_request : ExecutionRequest → Dict Value
dump_request r =
    ("project_id", string r.project_id)
    ∷ ("parent_session_id", string r.parent_session_id)
    ∷ ("parent_native_thread_id", optional_text r.parent_native_thread_id)
    ∷ ("worker_task_ref", string r.worker_task_ref)
    ∷ ("decision_trace_ref", string r.decision_trace_ref)
    ∷ ("goal_contract_version", string r.goal_contract_version)
    ∷ ("scope", string r.scope)
    ∷ ("allowed_hands", items r.allowed_hands)
    ∷ ("input_packet_refs", items r.input_packet_refs)
    ∷ ("retrieval_handles", items r.retrieval_handles)
    ∷ ("distilled_summary_ref", string r.distilled_summary_ref)
    ∷ ("execution_budget_ref", string r.execution_budget_ref)
    ∷ ("worker_contract_version", string r.worker_contract_version)
    ∷ []

unfoldable pub dump_envelope : ResultEnvelope → Dict Value
dump_envelope e =
    ("worker_task_ref", string e.worker_task_ref)
    ∷ ("parent_session_id", string e.parent_session_id)
    ∷ ("decision_trace_ref", string e.decision_trace_ref)
    ∷ ("result_summary_ref", string e.result_summary_ref)
    ∷ ("artifact_refs", items e.artifact_refs)
    ∷ ("input_contract_hash", string e.input_contract_hash)
    ∷ ("result_hash", string e.result_hash)
    ∷ ("produced_at", string e.produced_at)
    ∷ ("status", string e.status)
    ∷ ("worker_runtime_contract", table e.worker_runtime_contract)
    ∷ []

pub data WorkerState : Type 0 where
  requested running completed failed cancelled consumed rejected : WorkerState

abbrev pub state_name : WorkerState → String
state_name requested = "requested"
state_name running = "running"
state_name completed = "completed"
state_name failed = "failed"
state_name cancelled = "cancelled"
state_name consumed = "consumed"
state_name rejected = "rejected"

-- The event types that the service records of a worker's life.
pub data Lifecycle : Type 0 where
  request start heartbeat publish complete fail cancel consume reject : Lifecycle

abbrev pub event_name : Lifecycle → String
event_name request = "future_worker_requested"
event_name start = "future_worker_started"
event_name heartbeat = "future_worker_heartbeat"
event_name publish = "future_worker_summary_published"
event_name complete = "future_worker_completed"
event_name fail = "future_worker_failed"
event_name cancel = "future_worker_cancelled"
event_name consume = "future_worker_result_consumed"
event_name reject = "future_worker_result_rejected"

-- `_WORKER_STATE_BY_EVENT_TYPE`
abbrev pub worker_state_by_event_type : Dict WorkerState
worker_state_by_event_type =
    ("future_worker_requested", requested)
    ∷ ("future_worker_started", running)
    ∷ ("future_worker_heartbeat", running)
    ∷ ("future_worker_summary_published", running)
    ∷ ("future_worker_completed", completed)
    ∷ ("future_worker_failed", failed)
    ∷ ("future_worker_cancelled", cancelled)
    ∷ ("future_worker_result_consumed", consumed)
    ∷ ("future_worker_result_rejected", rejected)
    ∷ []

abbrev pub is_terminal_state : Option WorkerState → Bool
is_terminal_state (some failed) = true
is_terminal_state (some cancelled) = true
is_terminal_state (some consumed) = true
is_terminal_state (some rejected) = true
is_terminal_state _ = false

-- `_ALLOWED_NEXT_WORKER_EVENTS`
abbrev pub allowed_next_worker_events : Option WorkerState → List String
allowed_next_worker_events none = "future_worker_requested" ∷ []
allowed_next_worker_events (some requested) =
    "future_worker_started" ∷ "future_worker_heartbeat" ∷ "future_worker_failed"
    ∷ "future_worker_cancelled" ∷ []
allowed_next_worker_events (some running) =
    "future_worker_heartbeat" ∷ "future_worker_summary_published" ∷ "future_worker_completed"
    ∷ "future_worker_failed" ∷ "future_worker_cancelled" ∷ []
allowed_next_worker_events (some completed) =
    "future_worker_result_consumed" ∷ "future_worker_result_rejected" ∷ []
allowed_next_worker_events (some failed) = []
allowed_next_worker_events (some cancelled) = []
allowed_next_worker_events (some consumed) = []
allowed_next_worker_events (some rejected) = []

-- `_REPEATABLE_LIFECYCLE_EVENT_TYPES`
abbrev pub is_repeatable : Lifecycle → Bool
is_repeatable heartbeat = true
is_repeatable publish = true
is_repeatable _ = false
