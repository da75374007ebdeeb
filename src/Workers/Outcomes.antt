-- ===== src/Workers/Outcomes.antt =====
-- The two ways in which a call of future_worker/service.py ends.
use codex_watchdog.Workers.Service.{
  contract_of, thread_ids, request_of, Run, next, refuse, assert_from, assert_transition_allowed,
  record_step, request_worker, advance, record_started, record_heartbeat, record_summary_published,
  record_completed, record_failed, record_cancelled, settle, consume_result, reject_result,
}
use codex_watchdog.Session.Records.{SessionEvent, StoreFile}
use codex_watchdog.Workers.Models.{
  ExecutionRequest, validate_request, validate_envelope, dump_request, dump_envelope, WorkerState,
  Lifecycle, request, start, heartbeat, publish, complete, fail, cancel, consume, reject,
  event_name, is_terminal_state, allowed_next_worker_events,
}
use codex_watchdog.Workers.Log.{
  last_named, current_worker_state, require_request_event, require_started_event,
  require_completed_event, trace_of,
}
use codex_watchdog.Workers.Record.{Worker, record_lifecycle_event, record_transition_rejected}
use codex_watchdog.Common.{
  String, ◌≡◌, refl, inl, inr, Option, none, some, List, [], ◌∷◌, arith, Bool-cases, Option-cases,
  Error, Result, ok, raise, Dict, get,
}
use codex_watchdog.Common.Texts.{one_of}
use codex_watchdog.Common.Values.{Value}
use codex_watchdog.Workers.Writes.{
  Wrote, record_lifecycle_event-Wrote, record_transition_rejected-Wrote,
}
use codex_watchdog.Workers.Diagram.{Edge, target, allowed-Edge}
use codex_watchdog.Workers.Calls.{
  Act, requesting, starting, beating, publishing, completing, failing, cancelling, consuming,
  rejecting, event_of_act, perform,
}

-- What the service asks of the log before an event: a completion wants a start.
unfoldable pub Prepared : StoreFile → Worker → Lifecycle → Type 0
Prepared f w complete =
    (e : SessionEvent) × (last_named f w.parent_session_id w.worker_task_ref start ≡ some e)
Prepared f w _ = Unit

-- A call that raises has written nothing but a refusal; a call that returns followed an edge of the
-- diagram and has written its event.
pub data Outcome {A : Type 0} (f : StoreFile) (w : Worker) (e : Lifecycle)
    : Result A × StoreFile → Type 0 where
  barred :
      (error : Error) (g : StoreFile)
      → Wrote f w "future_worker_transition_rejected" g
      → Outcome f w e (raise error, g)
  moved :
      (a : A) (g : StoreFile)
      → Edge (current_worker_state f w.parent_session_id w.worker_task_ref) e (target e)
      → Prepared f w e
      → Wrote f w (event_name e) g
      → Outcome f w e (ok a, g)

module _ {A B : Type 0} (f : StoreFile) (w : Worker) (e : Lifecycle) where
  -- A step that reads changes nothing, and what follows may use what it found.
  after-read :
      (r : Result A) (rest : A → Run B)
      → ((a : A) → r ≡ ok a → Outcome f w e (rest a f))
      → Outcome f w e (next rest (r, f))
  after-read (ok a) rest go = go a refl
  after-read (raise error) rest go = barred error f (inl refl)

  Outcome-next :
      (r : Result A × StoreFile) (result : A → B)
      → Outcome f w e r
      → Outcome f w e (next (λ a g. (ok (result a), g)) r)
  Outcome-next r result (barred error g wrote) = barred error g wrote
  Outcome-next r result (moved a g edge prepared wrote) = moved (result a) g edge prepared wrote

module _ {B : Type 0} (f : StoreFile) (w : Worker) (e : Lifecycle) where
  -- A step that records a refusal and raises ends the call.
  after-refuse :
      (r : Result StoreFile) (error : Error) (rest : Unit {0} → Run B)
      → ((g : StoreFile) → r ≡ ok g → Wrote f w "future_worker_transition_rejected" g)
      → Outcome f w e
          (next rest (elim r [ ok g ↦ (raise error, g) | raise inner ↦ (raise inner, f) ]))
  after-refuse (ok g) error rest wrote = barred error g (wrote g refl)
  after-refuse (raise inner) error rest wrote = barred inner f (inl refl)

module _ (f : StoreFile) (w : Worker) (e : Lifecycle) where
  -- A step that writes the event ends it as well.
  Outcome-written :
      (r : Result StoreFile)
      → Edge (current_worker_state f w.parent_session_id w.worker_task_ref) e (target e)
      → Prepared f w e
      → ((g : StoreFile) → r ≡ ok g → Wrote f w (event_name e) g)
      → Outcome {A = Unit {0}} f w e (elim r [ ok g ↦ (ok tt, g) | raise error ↦ (raise error, f) ])
  Outcome-written (ok g) edge prepared wrote = moved tt g edge prepared (wrote g refl)
  Outcome-written (raise error) edge prepared wrote = barred error f (inl refl)

module _ (digest : String → String) (utcnow : String) (f : StoreFile) (w : Worker)
    (e : Lifecycle) where
  refused :
      {B : Type 0} (source reason : String) (error : Error) (rest : Unit {0} → Run B)
      → Outcome f w e (
          next rest
            (refuse (λ g. record_transition_rejected digest utcnow g w e source reason) error f))
  refused source reason error rest =
      after-refuse f w e (record_transition_rejected digest utcnow f w e source reason) error rest
        (λ g h. record_transition_rejected-Wrote digest utcnow f w e source reason g h)

  -- What follows the check of a transition runs on the same file, along an edge of the diagram.
  after-check :
      {B : Type 0} (o : Option WorkerState) (rest : Unit {0} → Run B)
      → (Edge o e (target e) → Outcome f w e (rest tt f))
      → Outcome f w e (next rest (assert_from digest utcnow w o e f))
  unfolding assert_from
  after-check o rest go = elim (Bool-cases (is_terminal_state o)) [
    | inl final ↦ rw (assert_from, final) (refused _ _ _ rest)
    | inr open_state ↦ elim (Bool-cases (one_of (allowed_next_worker_events o) (event_name e))) [
      | inl allowed ↦ rw (assert_from, open_state, allowed) (go (allowed-Edge o e allowed))
      | inr forbidden ↦ rw (assert_from, open_state, forbidden) (refused _ _ _ rest)
    ]
  ]

  recorded :
      {B : Type 0} (related_ids : Dict String) (payload : Dict Value) (b : B)
      → get "worker_task_ref" related_ids ≡ none
      → Edge (current_worker_state f w.parent_session_id w.worker_task_ref) e (target e)
      → Prepared f w e
      → Outcome f w e
          (next (λ _ g. (ok b, g)) (record_step digest utcnow w e related_ids payload f))
  unfolding record_step
  recorded related_ids payload b free edge prepared =
      Outcome-next f w e (record_step digest utcnow w e related_ids payload f) (λ _. b)
        (Outcome-written f w e (record_lifecycle_event digest utcnow f w e related_ids payload) edge
          prepared
          (λ g h. record_lifecycle_event-Wrote digest utcnow f w e related_ids payload g free h))

  -- The last two steps of every method.
  check_and_record :
      (related_ids : Dict String) (payload : Dict Value)
      → get "worker_task_ref" related_ids ≡ none
      → Prepared f w e
      → Outcome f w e (
          next
            (λ _. record_step digest utcnow w e related_ids payload)
            (assert_transition_allowed digest utcnow w e f))
  unfolding assert_transition_allowed record_step
  check_and_record related_ids payload free prepared =
      after-check (current_worker_state f w.parent_session_id w.worker_task_ref) _ (λ edge.
        Outcome-written f w e (record_lifecycle_event digest utcnow f w e related_ids payload) edge
          prepared
          (λ g h. record_lifecycle_event-Wrote digest utcnow f w e related_ids payload g free h))

  Outcome-advance :
      (related_ids : Dict String) (payload : Dict Value)
      → get "worker_task_ref" related_ids ≡ none
      → Prepared f w e
      → Outcome f w e (advance digest utcnow w e related_ids payload f)
  unfolding advance
  Outcome-advance related_ids payload free prepared =
      after-read f w e (require_request_event f w.parent_session_id w.worker_task_ref) _
        (λ r found. check_and_record related_ids payload free prepared)

  Outcome-settle :
      (related_ids : Dict String) (payload : Dict Value)
      → get "worker_task_ref" related_ids ≡ none
      → Prepared f w e
      → Outcome f w e (settle digest utcnow w e related_ids payload f)
  unfolding settle
  Outcome-settle related_ids payload free prepared =
      after-read f w e (require_request_event f w.parent_session_id w.worker_task_ref) _ (λ r found.
        after-read f w e (require_completed_event f w.parent_session_id w.worker_task_ref) _
          (λ c finished. check_and_record related_ids payload free prepared))

module _ (digest : String → String) (utcnow : String) (f : StoreFile) (w : Worker) where
  free_of_worker :
      (thread : Option String) (trace : String)
      → get "worker_task_ref" (("decision_trace_ref", trace) ∷ thread_ids digest utcnow w thread)
        ≡ none
  unfolding get
  free_of_worker none trace = refl
  free_of_worker (some thread) trace = ground arith

  none_there : (summary : String) → get "worker_task_ref" (("summary_ref", summary) ∷ []) ≡ none
  unfolding get
  none_there summary = refl

  started_named :
      (s : SessionEvent)
      → require_started_event f w.parent_session_id w.worker_task_ref ≡ ok s
      → last_named f w.parent_session_id w.worker_task_ref start ≡ some s
  unfolding require_started_event
  started_named s h =
      elim (Option-cases (last_named f w.parent_session_id w.worker_task_ref start)) [
        | inl missing ↦ cc
        | inr (e, there) ↦ ground arith
      ]

  Outcome-completed :
      (summary : String) (artifacts : List String) (input result : String)
      → Outcome f w complete (record_completed digest utcnow w summary artifacts input result f)
  unfolding record_completed assert_transition_allowed Prepared
  Outcome-completed summary artifacts input result =
      after-read f w complete (require_request_event f w.parent_session_id w.worker_task_ref) _
        (λ r asked.
          after-check digest utcnow f w complete
            (current_worker_state f w.parent_session_id w.worker_task_ref) _
            (λ edge.
              after-read f w complete
                (require_started_event f w.parent_session_id w.worker_task_ref) _
                (λ s started.
                  after-read f w complete (trace_of f w.parent_session_id w.worker_task_ref r) _
                    (λ trace known.
                      after-read f w complete (contract_of digest utcnow w s) _ (λ contract found.
                        after-read f w complete
                          (validate_envelope (record {
                            worker_task_ref = w.worker_task_ref;
                            parent_session_id = w.parent_session_id;
                            decision_trace_ref = trace;
                            result_summary_ref = summary;
                            artifact_refs = artifacts;
                            input_contract_hash = input;
                            result_hash = result;
                            produced_at = w.occurred_at;
                            status = "completed";
                            worker_runtime_contract = contract;
                          }))
                          _
                          (λ envelope valid.
                            recorded digest utcnow f w complete (("summary_ref", summary) ∷ [])
                              (dump_envelope envelope) envelope (none_there summary) edge
                              (s, started_named s started)))))))

  Outcome-requested :
      (r : ExecutionRequest) → Outcome f w request (request_worker digest utcnow w r f)
  unfolding request_worker assert_transition_allowed Prepared
  Outcome-requested r =
      after-check digest utcnow f w request
        (current_worker_state f w.parent_session_id w.worker_task_ref) _
        (λ edge.
          after-read f w request (validate_request (request_of digest utcnow w r)) _ (λ made valid.
            recorded digest utcnow f w request _ (dump_request (request_of digest utcnow w r)) made
              (free_of_worker r.parent_native_thread_id r.decision_trace_ref) edge tt))

module _ (digest : String → String) (utcnow : String) (f : StoreFile) (w : Worker) where
  -- Every call ends in one of the two ways.
  pub Outcome-perform : (a : Act) → Outcome f w (event_of_act a) (perform digest utcnow w a f)
  unfolding perform Prepared get record_started record_heartbeat record_summary_published
      record_failed record_cancelled consume_result reject_result
  Outcome-perform (requesting r) =
      Outcome-next f w request _ (λ _. tt) (Outcome-requested digest utcnow f w r)
  Outcome-perform (starting contract) = Outcome-advance digest utcnow f w start _ _ refl tt
  Outcome-perform (beating beat) = Outcome-advance digest utcnow f w heartbeat _ _ refl tt
  Outcome-perform (publishing summary) = Outcome-advance digest utcnow f w publish _ _ refl tt
  Outcome-perform (completing summary artifacts input result) =
      Outcome-next f w complete _ (λ _. tt)
        (Outcome-completed digest utcnow f w summary artifacts input result)
  Outcome-perform (failing reason) = Outcome-advance digest utcnow f w fail _ _ refl tt
  Outcome-perform (cancelling reason) = Outcome-advance digest utcnow f w cancel _ _ refl tt
  Outcome-perform (consuming decision_id) = Outcome-settle digest utcnow f w consume _ _ refl tt
  Outcome-perform (rejecting reason) = Outcome-settle digest utcnow f w reject _ _ refl tt
