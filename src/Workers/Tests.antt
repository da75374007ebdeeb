-- ===== src/Workers/Tests.antt =====
-- The theorems on future workers, applied to a worker of an empty session log. The digest of a text
-- is the text itself.
use codex_watchdog.Session.Records.{StoreFile, validate_event, empty}
use codex_watchdog.Session.Reads.{list_events, only, only_related}
use codex_watchdog.Session.Append.{
  record_event, event_of, append_event, dedupe_by_idempotency, has_id, add_event, stable_id,
}
use codex_watchdog.Workers.Models.{
  ExecutionRequest, validate_request, dump_request, start, running, completed, is_terminal_state,
}
use codex_watchdog.Workers.Log.{
  worker_events, last_named, current_worker_state, require_request_event, trace_of,
  decision_trace_ref_for_worker, parent_native_thread_id_for_worker, find_last,
}
use codex_watchdog.Workers.Record.{
  Worker, record_for_worker, record_lifecycle_event, record_transition_rejected, merge, set_default,
  draft_of, first_draft, add_trace, add_native_thread, lifecycle_correlation_id,
}
use codex_watchdog.Common.{
  String, ◌≡◌, refl, ◌≢◌, true, none, some, [], ◌∷◌, value_error, ok, raise, get, put, keep,
}
use codex_watchdog.Common.Texts.{format, join, strip, one_of}
use codex_watchdog.Common.Values.{option_eq}
use codex_watchdog.Workers.Service.{
  request_of, request_worker, assert_transition_allowed, assert_from, record_step, advance,
  record_heartbeat, record_failed,
}
use codex_watchdog.Workers.Diagram.{◌⟶*◌}
use codex_watchdog.Workers.Calls.{
  requesting, starting, beating, failing, completing, perform, perform_all,
}
use codex_watchdog.Workers.Refinement.{raising_moves_nothing, perform_all-path}
use codex_watchdog.Workers.Unstarted.{unstarted_never_completes}

abbrev same_text : String → String
same_text s = s

abbrev builder : Worker
builder = record {
  project_id = "repo-a";
  parent_session_id = "session:repo-a";
  worker_task_ref = "worker:1";
  occurred_at = "2026-04-07T00:00:00Z";
}

abbrev order : ExecutionRequest
order = record {
  project_id = "repo-a";
  parent_session_id = "session:repo-a";
  parent_native_thread_id = none;
  worker_task_ref = "worker:1";
  decision_trace_ref = "trace:1";
  goal_contract_version = "goal:v1";
  scope = "tests";
  allowed_hands = "codex" ∷ [];
  input_packet_refs = [];
  retrieval_handles = [];
  distilled_summary_ref = "summary:1";
  execution_budget_ref = "budget:1";
  worker_contract_version = "v1";
}

abbrev asked_log : StoreFile
asked_log = (perform same_text "" builder (requesting order) empty).1

-- A heartbeat straight after the request, and then a failure.
abbrev beaten_log : StoreFile
beaten_log = (perform same_text "" builder (beating []) asked_log).1

abbrev failed_log : StoreFile
failed_log = (perform same_text "" builder (failing "crashed") beaten_log).1

abbrev twice_log : StoreFile
twice_log = (perform same_text "" builder (requesting order) asked_log).1

runs :
    (perform same_text "" builder (requesting order) empty ≡ (ok tt, asked_log))
    × (perform same_text "" builder (requesting order) asked_log ≡ (
      raise (value_error "invalid future worker transition: requested -> requested"),
      twice_log,
    ))
    × (current_worker_state beaten_log "session:repo-a" "worker:1" ≡ some running)
    × (last_named beaten_log "session:repo-a" "worker:1" start ≡ none)
    × (is_terminal_state (current_worker_state failed_log "session:repo-a" "worker:1") ≡ true)
unfolding perform request_worker request_of assert_transition_allowed assert_from
    current_worker_state find_last worker_events list_events only only_related keep one_of
    validate_request record_step record_lifecycle_event draft_of first_draft merge add_trace
    add_native_thread record_for_worker record_event event_of stable_id validate_event append_event
    add_event dedupe_by_idempotency has_id dump_request get put set_default lifecycle_correlation_id
    format join strip last_named record_heartbeat record_failed advance require_request_event
    trace_of decision_trace_ref_for_worker parent_native_thread_id_for_worker
    record_transition_rejected option_eq
runs = (refl, refl, refl, refl, refl)

raising_moves_nothing_example :
    current_worker_state twice_log "session:repo-a" "worker:1"
    ≡ current_worker_state asked_log "session:repo-a" "worker:1"
raising_moves_nothing_example =
    raising_moves_nothing same_text "" asked_log builder (requesting order)
      (value_error "invalid future worker transition: requested -> requested") twice_log runs.1
      "session:repo-a" "worker:1"

perform_all-path_example :
    current_worker_state empty "session:repo-a" "worker:1"
    ⟶* current_worker_state
        (perform_all same_text "" empty ((builder, requesting order) ∷ (builder, beating []) ∷ []))
        "session:repo-a"
        "worker:1"
perform_all-path_example =
    perform_all-path same_text "" empty ((builder, requesting order) ∷ (builder, beating []) ∷ [])
      "session:repo-a" "worker:1"

unstarted_never_completes_example :
    current_worker_state
      (perform_all same_text "" beaten_log
        ((builder, starting []) ∷ (builder, completing "summary:2" [] "in" "out") ∷ []))
      "session:repo-a"
      "worker:1"
    ≢ some completed
unstarted_never_completes_example =
    unstarted_never_completes same_text "" beaten_log
      ((builder, starting []) ∷ (builder, completing "summary:2" [] "in" "out") ∷ [])
      "session:repo-a" "worker:1" runs.2 runs.3
