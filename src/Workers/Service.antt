-- ===== src/Workers/Service.antt =====
-- The methods of `FutureWorkerExecutionService`. A method takes the session's file and returns its
-- result, or the error that it raised, beside the file that it leaves: a transition that is refused
-- is recorded before the error is raised.
use codex_watchdog.Common.{
  String, not, Option, none, some, List, [], ◌∷◌, ◌==◌, if◌then◌else◌, Error, value_error, Result,
  ok, raise, Dict, get,
}
use codex_watchdog.Common.Texts.{format, one_of}
use codex_watchdog.Common.Values.{Value, string, table}
use codex_watchdog.Session.Records.{SessionEvent, StoreFile}
use codex_watchdog.Workers.Models.{
  ExecutionRequest, ResultEnvelope, validate_request, validate_envelope, dump_request,
  dump_envelope, WorkerState, Lifecycle, request, start, heartbeat, publish, complete, fail, cancel,
  consume, reject, event_name, state_name, worker_state_by_event_type, is_terminal_state,
  allowed_next_worker_events,
}
use codex_watchdog.Workers.Log.{
  current_worker_state, require_request_event, require_started_event, require_completed_event,
  trace_of,
}
use codex_watchdog.Workers.Record.{Worker, record_lifecycle_event, record_transition_rejected}

abbrev pub Run {ℓ} : Type ℓ → Type ℓ
Run A = StoreFile → Result A × StoreFile

abbrev pub next {ℓ κ} :
    {A : Type ℓ} {B : Type κ} → (A → Run B) → Result A × StoreFile → Result B × StoreFile
next rest (ok a, f) = rest a f
next rest (raise error, f) = (raise error, f)

infixl 5 ◌>>=◌
abbrev pub ◌>>=◌ {ℓ κ} : {A : Type ℓ} {B : Type κ} → Run A → (A → Run B) → Run B
(m >>= rest) f = next rest (m f)

-- A step that only reads.
abbrev pub reads {ℓ} : {A : Type ℓ} → (StoreFile → Result A) → Run A
reads read f = (read f, f)

-- A step that writes, or raises and leaves the file.
abbrev pub writes : (StoreFile → Result StoreFile) → Run (Unit {0})
writes write f = elim (write f) [ ok g ↦ (ok tt, g) | raise error ↦ (raise error, f) ]

-- Record the refusal, then raise; if the record cannot be made, that error is raised.
abbrev pub refuse : (StoreFile → Result StoreFile) → Error → Run (Unit {0})
refuse write error f = elim (write f) [ ok g ↦ (raise error, g) | raise inner ↦ (raise inner, f) ]

abbrev pub or_none : Option WorkerState → String
or_none none = "none"
or_none (some s) = state_name s

abbrev pub next_state_name : Lifecycle → String
next_state_name event = elim (get (event_name event) worker_state_by_event_type) [
  | none ↦ "unknown"
  | some s ↦ state_name s
]

module _ (digest : String → String) (utcnow : String) (w : Worker) where
  unfoldable pub assert_from : Option WorkerState → Lifecycle → Run (Unit {0})
  assert_from current event f =
      let source = or_none current in
      let target = next_state_name event in
      if is_terminal_state current
      then refuse
          (λ g.
            record_transition_rejected digest utcnow g w event source
              (format ("terminal_state:" ∷ source ∷ [])))
          (value_error (format ("terminal future worker state: " ∷ source ∷ []))) f
      else if not (one_of (allowed_next_worker_events current) (event_name event))
      then refuse
          (λ g.
            record_transition_rejected digest utcnow g w event source
              (format ("invalid_transition:" ∷ source ∷ "->" ∷ target ∷ [])))
          (value_error
            (format ("invalid future worker transition: " ∷ source ∷ " -> " ∷ target ∷ [])))
          f
      else (ok tt, f)

  unfoldable pub assert_transition_allowed : Lifecycle → Run (Unit {0})
  unfolding assert_from
  assert_transition_allowed event f =
      assert_from (current_worker_state f w.parent_session_id w.worker_task_ref) event f

  unfoldable pub record_step :
      Lifecycle → (related_ids : Dict String) (payload : Dict Value) → Run (Unit {0})
  record_step event related_ids payload =
      writes (λ f. record_lifecycle_event digest utcnow f w event related_ids payload)

  abbrev pub read_request : Run SessionEvent
  read_request = reads (λ f. require_request_event f w.parent_session_id w.worker_task_ref)

  abbrev pub thread_ids : Option String → Dict String
  thread_ids none = []
  thread_ids (some thread) = if thread == "" then [] else ("parent_native_thread_id", thread) ∷ []

  -- The request of the worker with the arguments `r` of the call, whose ids are those of `w`. No
  -- caller chooses the version of the contract.
  unfoldable pub request_of : ExecutionRequest → ExecutionRequest
  request_of r = record r {
    project_id = w.project_id;
    parent_session_id = w.parent_session_id;
    worker_task_ref = w.worker_task_ref;
    worker_contract_version = "future-worker-contract:v1";
  }

  unfoldable pub request_worker : ExecutionRequest → Run ExecutionRequest
  unfolding assert_transition_allowed record_step request_of
  request_worker r = do
    _ ← assert_transition_allowed request
    made ← reads (λ f. validate_request (request_of r))
    _ ←
        record_step request
          (("decision_trace_ref", r.decision_trace_ref) ∷ thread_ids r.parent_native_thread_id)
          (dump_request (request_of r))
    reads (λ f. ok made)

  -- The body that the plain methods share: the request must be there, the transition allowed.
  unfoldable pub advance :
      Lifecycle → (related_ids : Dict String) (payload : Dict Value) → Run (Unit {0})
  unfolding assert_transition_allowed record_step
  advance event related_ids payload = do
    _ ← read_request
    _ ← assert_transition_allowed event
    record_step event related_ids payload

  unfoldable pub record_started : (worker_runtime_contract : Dict String) → Run (Unit {0})
  unfolding advance
  record_started contract = advance start [] (("worker_runtime_contract", table contract) ∷ [])

  unfoldable pub record_summary_published : (summary_ref : String) → Run (Unit {0})
  unfolding advance
  record_summary_published summary_ref =
      advance publish (("summary_ref", summary_ref) ∷ []) (("summary_ref", string summary_ref) ∷ [])

  unfoldable pub record_heartbeat : Dict String → Run (Unit {0})
  unfolding advance
  record_heartbeat beat = advance heartbeat [] (("heartbeat", table beat) ∷ [])

  unfoldable pub record_failed : (reason : String) → Run (Unit {0})
  unfolding advance
  record_failed reason = advance fail [] (("reason", string reason) ∷ [])

  unfoldable pub record_cancelled : (reason : String) → Run (Unit {0})
  unfolding advance
  record_cancelled reason = advance cancel [] (("reason", string reason) ∷ [])

  -- The contract that the worker was started with, which must not be empty.
  unfoldable pub contract_of : SessionEvent → Result (Dict String)
  contract_of e =
      let missing : Error =
        value_error (
          format ("missing worker runtime contract for future worker " ∷ w.worker_task_ref ∷ [])) in
      elim (get "worker_runtime_contract" e.payload) [
        | some (table (entry ∷ entries)) ↦ ok (entry ∷ entries)
        | _ ↦ raise missing
      ]

  unfoldable pub record_completed :
      (result_summary_ref : String) (artifact_refs : List String)
      (input_contract_hash result_hash : String)
      → Run ResultEnvelope
  unfolding assert_transition_allowed record_step
  record_completed result_summary_ref artifact_refs input_contract_hash result_hash = do
    request_event ← read_request
    _ ← assert_transition_allowed complete
    started_event ← reads (λ f. require_started_event f w.parent_session_id w.worker_task_ref)
    trace ← reads (λ f. trace_of f w.parent_session_id w.worker_task_ref request_event)
    contract ← reads (λ f. contract_of started_event)
    envelope ← reads (λ f. validate_envelope (record {
      worker_task_ref = w.worker_task_ref;
      parent_session_id = w.parent_session_id;
      decision_trace_ref = trace;
      result_summary_ref = result_summary_ref;
      artifact_refs = artifact_refs;
      input_contract_hash = input_contract_hash;
      result_hash = result_hash;
      produced_at = w.occurred_at;
      status = "completed";
      worker_runtime_contract = contract;
    }))
    _ ← record_step complete (("summary_ref", result_summary_ref) ∷ []) (dump_envelope envelope)
    reads (λ f. ok envelope)

  -- The body of `consume_result` and `reject_result`, which want a completed event as well.
  unfoldable pub settle :
      Lifecycle → (related_ids : Dict String) (payload : Dict Value) → Run (Unit {0})
  unfolding assert_transition_allowed record_step
  settle event related_ids payload = do
    _ ← read_request
    _ ← reads (λ f. require_completed_event f w.parent_session_id w.worker_task_ref)
    _ ← assert_transition_allowed event
    record_step event related_ids payload

  unfoldable pub consume_result : (consumed_by_decision_id : String) → Run (Unit {0})
  unfolding settle
  consume_result decision_id =
      settle consume (("decision_id", decision_id) ∷ [])
        (("consumed_by_decision_id", string decision_id) ∷ [])

  unfoldable pub reject_result : (reason : String) → Run (Unit {0})
  unfolding settle
  reject_result reason = settle reject [] (("reason", string reason) ∷ [])
