-- ===== src/Workers/Log.antt =====
-- The reading half of future_worker/service.py: what the session's log says of a worker.
use codex_watchdog.Common.{
  String, Bool, Option, none, some, List, [], ◌∷◌, ◌==◌, if◌then◌else◌, or_else, value_error,
  Result, ok, raise, ◌>>=◌, get, keep,
}
use codex_watchdog.Common.Texts.{format, strip}
use codex_watchdog.Common.Values.{Value, string, text_eq, option_eq}
use codex_watchdog.Session.Records.{SessionEvent, StoreFile}
use codex_watchdog.Session.Reads.{list_events}
use codex_watchdog.Workers.Models.{
  WorkerState, Lifecycle, request, start, complete, event_name, worker_state_by_event_type,
}

-- `for x in reversed(xs):` with a test that returns: the answer of the last element that has one.
unfoldable pub find_last : {A B : Type 0} → (A → Option B) → List A → Option B
find_last test [] = none
find_last test (x ∷ xs) =
    let later = find_last test xs in elim later [ some b ↦ some b | none ↦ test x ]

-- `event.related_ids.get("worker_task_ref") == worker_task_ref`
abbrev pub is_about : String → SessionEvent → Bool
is_about worker_task_ref e =
    option_eq text_eq (get "worker_task_ref" e.related_ids) (some worker_task_ref)

unfoldable pub worker_events :
    StoreFile → (parent_session_id worker_task_ref : String) → List SessionEvent
worker_events f parent_session_id worker_task_ref =
    keep (is_about worker_task_ref) (list_events f (some parent_session_id) none none none none)

abbrev pub state_after : SessionEvent → Option WorkerState
state_after e = get e.event_type worker_state_by_event_type

unfoldable pub current_worker_state :
    StoreFile → (parent_session_id worker_task_ref : String) → Option WorkerState
unfolding find_last worker_events
current_worker_state f parent_session_id worker_task_ref =
    find_last state_after (worker_events f parent_session_id worker_task_ref)

abbrev pub if_named : String → SessionEvent → Option SessionEvent
if_named event_type e = if e.event_type == event_type then some e else none

abbrev found_or : Option SessionEvent → String → Result SessionEvent
found_or none message = raise (value_error message)
found_or (some e) message = ok e

module _ (f : StoreFile) (parent_session_id worker_task_ref : String) where
  -- The last event of a type among those of the worker.
  unfoldable pub last_named : Lifecycle → Option SessionEvent
  unfolding find_last worker_events
  last_named event =
      find_last (if_named (event_name event)) (worker_events f parent_session_id worker_task_ref)

  unfoldable pub require_request_event : Result SessionEvent
  unfolding last_named
  require_request_event =
      found_or (last_named request)
        (format ("unknown future worker request: " ∷ worker_task_ref ∷ []))

  unfoldable pub require_started_event : Result SessionEvent
  unfolding last_named
  require_started_event =
      found_or (last_named start)
        (format ("missing future worker start event: " ∷ worker_task_ref ∷ []))

  unfoldable pub require_completed_event : Result SessionEvent
  unfolding last_named
  require_completed_event =
      found_or (last_named complete)
        (format ("missing future worker completed event: " ∷ worker_task_ref ∷ []))

  -- `request_event.related_ids.get("decision_trace_ref")`, which must be there and not empty.
  unfoldable pub trace_of : SessionEvent → Result String
  trace_of e =
      let trace = or_else (get "decision_trace_ref" e.related_ids) "" in
      if trace == ""
      then raise (
          value_error (format ("missing decision trace for future worker " ∷ worker_task_ref ∷ [])))
      else ok trace

  unfoldable pub decision_trace_ref_for_worker : Result String
  unfolding require_request_event trace_of
  decision_trace_ref_for_worker = do e ← require_request_event; trace_of e

  -- A request carries its native thread as a text or `None`.
  abbrev carried_text : Option Value → String
  carried_text (some (string s)) = s
  carried_text _ = ""

  unfoldable pub parent_native_thread_id_for_worker : Result (Option String)
  unfolding require_request_event
  parent_native_thread_id_for_worker = do
    e ← require_request_event
    let related = or_else (get "parent_native_thread_id" e.related_ids) ""
    let carried = carried_text (get "parent_native_thread_id" e.payload)
    let parent_native_thread_id = strip (if related == "" then carried else related)
    ok (if parent_native_thread_id == "" then none else some parent_native_thread_id)
