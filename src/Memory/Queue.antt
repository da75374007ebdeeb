-- ===== src/Memory/Queue.antt =====
-- The methods of the two stores of memory_hub/ingest_queue.py. A method takes the content of the file
-- and gives its result and the content that it leaves; `utcnow` is what `_utcnow()` gives it, and
-- `model_dump` stands for the dump of an event.
use codex_watchdog.Common.{
  ℕ, ◌+◌, String, Option, none, some, List, [], ◌∷◌, leb, if◌then◌else◌, Result, Dict, get, put,
  values, keep,
}
use codex_watchdog.Common.Values.{Value}
use codex_watchdog.Leases.State.{Moment}
use codex_watchdog.Session.Records.{SessionEvent}
use codex_watchdog.Memory.Records.{
  pending, retrying, processing, processed, failed, QueueRecord, QueueFile, EnqueueFailure,
  FailureFile, is_due, is_listed, is_processing,
}

-- `sorted` of records by their `queue_seq`.
unfoldable pub insert_record : QueueRecord → List QueueRecord → List QueueRecord
insert_record r [] = r ∷ []
insert_record r (x ∷ xs) =
    if leb r.queue_seq x.queue_seq then r ∷ x ∷ xs else x ∷ insert_record r xs

unfoldable pub sort_records : List QueueRecord → List QueueRecord
unfolding insert_record
sort_records [] = []
sort_records (x ∷ xs) = insert_record x (sort_records xs)

module _ (model_dump : SessionEvent → Dict Value) (utcnow : String) where
  unfoldable pub new_record : QueueFile → SessionEvent → QueueRecord
  new_record f e = record {
    event_id = e.event_id;
    project_id = e.project_id;
    session_id = e.session_id;
    event_type = e.event_type;
    occurred_at = e.occurred_at;
    queue_seq = f.next_queue_seq;
    status = pending;
    attempts = 0;
    failure_code = none;
    failure_detail = none;
    next_retry_at = none;
    enqueued_at = utcnow;
    updated_at = utcnow;
    event_payload = model_dump e;
  }

  unfoldable pub enqueue_event : QueueFile → SessionEvent → QueueRecord × QueueFile
  unfolding new_record
  enqueue_event f e = elim (get e.event_id f.records) [
    | some existing ↦ (existing, f)
    | none ↦ (
      new_record f e,
      record {
        next_queue_seq = f.next_queue_seq + 1;
        records = put e.event_id (new_record f e) f.records;
      },
    )
  ]

  -- `MemoryIngestEnqueueFailureStore.record_failure`
  unfoldable pub record_failure :
      FailureFile
      → SessionEvent
      → (failure_code : String) (failure_detail : Option String) → EnqueueFailure × FailureFile
  record_failure failures e failure_code failure_detail =
      let failure : EnqueueFailure = record {
        event_id = e.event_id;
        project_id = e.project_id;
        session_id = e.session_id;
        event_type = e.event_type;
        failure_code = failure_code;
        failure_detail = failure_detail;
        recorded_at = utcnow;
        event_payload = model_dump e;
      } in
      (failure, put e.event_id failure failures)

unfoldable pub list_records : QueueFile → List QueueRecord
unfolding sort_records
list_records f = sort_records (values f.records)

unfoldable pub list_pending : QueueFile → Option String → List QueueRecord
unfolding list_records
list_pending f session_id = keep (is_listed session_id) (list_records f)

abbrev pub write : String → QueueRecord → QueueFile → QueueFile
write event_id r f = record f { records = put event_id r f.records }

module _ (utcnow : String) where
  abbrev pub claimed_record : QueueRecord → QueueRecord
  claimed_record r = record r {
    status = processing;
    attempts = r.attempts + 1;
    failure_code = none;
    failure_detail = none;
    next_retry_at = none;
    updated_at = utcnow;
  }

  abbrev pub processed_record : QueueRecord → QueueRecord
  processed_record r = record r {
    status = processed;
    failure_code = none;
    failure_detail = none;
    next_retry_at = none;
    updated_at = utcnow;
  }

  abbrev pub failed_record : String → Option String → QueueRecord → QueueRecord
  failed_record failure_code failure_detail r = record r {
    status = failed;
    failure_code = some failure_code;
    failure_detail = failure_detail;
    updated_at = utcnow;
  }

  abbrev pub retrying_record : String → String → Option String → QueueRecord → QueueRecord
  retrying_record next_retry_at failure_code failure_detail r = record r {
    status = retrying;
    failure_code = some failure_code;
    failure_detail = failure_detail;
    next_retry_at = some next_retry_at;
    updated_at = utcnow;
  }

  abbrev pub recovered_record : QueueRecord → QueueRecord
  recovered_record r = record r {
    status = pending;
    failure_code = some "worker_interrupted";
    failure_detail = some "processing record recovered after restart";
    next_retry_at = none;
    updated_at = utcnow;
  }

  abbrev pub claim_first : QueueFile → List QueueRecord → Option QueueRecord × QueueFile
  claim_first f [] = (none, f)
  claim_first f (current ∷ later) =
      (some (claimed_record current), write current.event_id (claimed_record current) f)

  unfoldable pub claim_next :
      (String → Result Moment) → (current_time : ℕ) → QueueFile → Option QueueRecord × QueueFile
  unfolding sort_records is_due
  claim_next fromisoformat current_time f =
      claim_first f (sort_records (keep (is_due fromisoformat current_time) (values f.records)))

  -- The body that the three methods of a result share.
  unfoldable pub mark :
      (QueueRecord → QueueRecord) → String → QueueFile → Option QueueRecord × QueueFile
  mark update event_id f = elim (get event_id f.records) [
    | none ↦ (none, f)
    | some current ↦ (some (update current), write event_id (update current) f)
  ]

  unfoldable pub mark_processed : String → QueueFile → Option QueueRecord × QueueFile
  unfolding mark
  mark_processed event_id f = mark processed_record event_id f

  unfoldable pub mark_failed :
      String
      → (failure_code : String) (failure_detail : Option String) → QueueFile
      → Option QueueRecord × QueueFile
  unfolding mark
  mark_failed event_id failure_code failure_detail f =
      mark (failed_record failure_code failure_detail) event_id f

  unfoldable pub mark_retrying :
      String
      → (next_retry_at failure_code : String) (failure_detail : Option String) → QueueFile
      → Option QueueRecord × QueueFile
  unfolding mark
  mark_retrying event_id next_retry_at failure_code failure_detail f =
      mark (retrying_record next_retry_at failure_code failure_detail) event_id f

  -- The loop of `recover_inflight` over the items that it has listed.
  unfoldable pub recover_items : Dict QueueRecord → QueueFile → List QueueRecord × QueueFile
  recover_items [] f = ([], f)
  recover_items ((event_id, current) ∷ entries) f =
      let rest = recover_items entries (write event_id (recovered_record current) f) in
      let skip = recover_items entries f in
      if is_processing current.status then (recovered_record current ∷ rest.0, rest.1) else skip

  unfoldable pub recover_inflight : QueueFile → List QueueRecord × QueueFile
  unfolding recover_items
  recover_inflight f = recover_items f.records f
