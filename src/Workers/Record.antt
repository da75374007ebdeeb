-- ===== src/Workers/Record.antt =====
-- The events that future_worker/service.py writes. `digest` is that of the session service, and
-- `utcnow` the time that the service takes for an empty one.
use codex_watchdog.Common.{
  String, Bool, true, false, ◌&&◌, not, Option, none, some, [], ◌∷◌, ◌==◌, if◌then◌else◌, is_none,
  Result, ok, ◌>>=◌, Dict, get, put,
}
use codex_watchdog.Common.Texts.{format}
use codex_watchdog.Common.Values.{Value, string}
use codex_watchdog.Session.Records.{StoreFile}
use codex_watchdog.Session.Append.{record_event}
use codex_watchdog.Workers.Models.{Lifecycle, request, event_name, is_repeatable}
use codex_watchdog.Workers.Log.{decision_trace_ref_for_worker, parent_native_thread_id_for_worker}

-- The arguments that every call has.
pub record Worker : Type 0 where
  pub project_id : String
  pub parent_session_id : String
  pub worker_task_ref : String
  pub occurred_at : String

abbrev pub correlation_id : String → String
correlation_id worker_task_ref = format ("corr:future-worker:" ∷ worker_task_ref ∷ [])

unfoldable pub lifecycle_correlation_id : Worker → Lifecycle → String
lifecycle_correlation_id w event =
    if is_repeatable event
    then format
        (correlation_id w.worker_task_ref ∷ ":" ∷ event_name event ∷ ":" ∷ w.occurred_at ∷ [])
    else correlation_id w.worker_task_ref

module _ {V : Type 0} where
  -- `{**d, **e}`
  unfoldable pub merge : Dict V → Dict V → Dict V
  merge d [] = d
  merge d ((k, v) ∷ e) = merge (put k v d) e

  -- `d.setdefault(k, v)`
  unfoldable pub set_default : String → V → Dict V → Dict V
  set_default k v d = elim (get k d) [ some w ↦ d | none ↦ put k v d ]

abbrev pub is_request : Lifecycle → Bool
is_request request = true
is_request _ = false

-- The related ids and the payload of an event while they are completed.
pub record Draft : Type 0 where
  pub related_ids : Dict String
  pub payload : Dict Value

abbrev pub with_trace : String → Draft → Draft
with_trace trace d = record {
  related_ids = put "decision_trace_ref" trace d.related_ids;
  payload = set_default "decision_trace_ref" (string trace) d.payload;
}

abbrev pub with_native_thread : Option String → Draft → Draft
with_native_thread none d = d
with_native_thread (some thread) d = record {
  related_ids = set_default "parent_native_thread_id" thread d.related_ids;
  payload = set_default "parent_native_thread_id" (string thread) d.payload;
}

module _ (f : StoreFile) (w : Worker) where
  unfoldable pub add_trace : Lifecycle → Draft → Result Draft
  unfolding decision_trace_ref_for_worker
  add_trace event d =
      if not (is_request event) && is_none (get "decision_trace_ref" d.related_ids)
      then (do
        trace ← decision_trace_ref_for_worker f w.parent_session_id w.worker_task_ref
        ok (with_trace trace d))
      else ok d

  unfoldable pub add_native_thread : Lifecycle → Draft → Result Draft
  unfolding parent_native_thread_id_for_worker
  add_native_thread event d =
      if not (is_request event)
      then (do
        thread ← parent_native_thread_id_for_worker f w.parent_session_id w.worker_task_ref
        ok (with_native_thread thread d))
      else ok d

  unfoldable pub first_draft : (related_ids : Dict String) (payload : Dict Value) → Draft
  unfolding merge
  first_draft related_ids payload = record {
    related_ids = merge (("worker_task_ref", w.worker_task_ref) ∷ []) related_ids;
    payload = payload;
  }

  unfoldable pub draft_of :
      Lifecycle → (related_ids : Dict String) (payload : Dict Value) → Result Draft
  unfolding first_draft add_trace add_native_thread
  draft_of event related_ids payload = do
    d ← add_trace event (first_draft related_ids payload)
    add_native_thread event d

abbrev thread_entry : Option String → Dict String
thread_entry none = []
thread_entry (some thread) = ("parent_native_thread_id", thread) ∷ []

module _ (digest : String → String) (utcnow : String) (f : StoreFile) (w : Worker) where
  -- `record_event` for the session of the worker, and the file that it leaves.
  unfoldable pub record_for_worker : (event_type correlation_id : String) → Draft → Result StoreFile
  record_for_worker event_type correlation_id d = do
    (g, recorded) ← record_event digest f (record {
      event_type = event_type;
      project_id = w.project_id;
      session_id = w.parent_session_id;
      occurred_at = if w.occurred_at == "" then utcnow else w.occurred_at;
      causation_id = none;
      correlation_id = correlation_id;
      related_ids = d.related_ids;
      payload = d.payload;
    })
    ok g

  unfoldable pub record_lifecycle_event :
      Lifecycle → (related_ids : Dict String) (payload : Dict Value) → Result StoreFile
  unfolding draft_of record_for_worker
  record_lifecycle_event event related_ids payload = do
    d ← draft_of f w event related_ids payload
    record_for_worker (event_name event) (lifecycle_correlation_id w event) d

  unfoldable pub record_transition_rejected :
      Lifecycle → (current_state reason : String) → Result StoreFile
  unfolding record_for_worker decision_trace_ref_for_worker parent_native_thread_id_for_worker
  record_transition_rejected attempted current_state reason = do
    trace ← decision_trace_ref_for_worker f w.parent_session_id w.worker_task_ref
    thread ← parent_native_thread_id_for_worker f w.parent_session_id w.worker_task_ref
    record_for_worker "future_worker_transition_rejected"
        (format (
          correlation_id w.worker_task_ref ∷ ":" ∷ event_name attempted ∷ ":" ∷ w.occurred_at ∷ []))
        (record {
          related_ids =
              ("worker_task_ref", w.worker_task_ref)
              ∷ ("attempted_event_type", event_name attempted)
              ∷ ("decision_trace_ref", trace)
              ∷ thread_entry thread;
          payload =
              ("attempted_event_type", string (event_name attempted))
              ∷ ("current_state", string current_state)
              ∷ ("reason", string reason)
              ∷ ("worker_task_ref", string w.worker_task_ref)
              ∷ ("decision_trace_ref", string trace)
              ∷ [];
        })
