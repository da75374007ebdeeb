-- ===== src/Session/Tests.antt =====
-- The theorems on the session store, applied to small logs.
use codex_watchdog.Session.Records.{
  same_event, SessionEvent, StoreFile, empty, event_stored, RecoveryTransaction,
}
use codex_watchdog.Common.{
  ◌≡◌, refl, false, none, some, [], ◌∷◌, arith, eq_iff, value_error, ok, raise,
}
use codex_watchdog.Common.Texts.{format}
use codex_watchdog.Session.Append.{
  append_event, dedupe_by_idempotency, add_event, append_recovery_transaction,
}
use codex_watchdog.Session.Invariant.{
  IsWellFormed, empty-IsWellFormed, with_event, append_event-IsWellFormed,
  append_recovery_transaction-IsWellFormed, with_transaction,
}
use codex_watchdog.Session.Growth.{Grows, calls-Grows}
use codex_watchdog.Session.Reads.{latest_after_append, get_latest_recovery_transaction}
use codex_watchdog.Session.Replay.{
  append_event_again, append_event_conflict, Call, calls, calls-IsWellFormed,
}

abbrev started : SessionEvent
started = record {
  event_id = "event:1";
  project_id = "repo-a";
  session_id = "session:repo-a";
  event_type = "command_created";
  occurred_at = "2026-04-07T00:00:00Z";
  causation_id = none;
  correlation_id = "corr:1";
  idempotency_key = "idem:event:1";
  related_ids = [];
  payload = [];
  log_seq = none;
}

-- The same key with another time.
abbrev changed : SessionEvent
changed = record started { occurred_at = "2026-04-07T00:00:01Z" }

abbrev logged : StoreFile
logged = with_event empty started

abbrev stored : SessionEvent
stored = record started { log_seq = some 1 }

accepted : append_event empty started ≡ ok (logged, stored)
unfolding append_event dedupe_by_idempotency add_event
accepted = refl

append_event_again_example : append_event logged started ≡ ok (logged, stored)
append_event_again_example = append_event_again empty started accepted

logged-IsWellFormed : IsWellFormed logged
logged-IsWellFormed = append_event-IsWellFormed empty empty-IsWellFormed started accepted

differ : event_stored.same stored changed ≡ false
unfolding same_event
differ = refl

append_event_conflict_example :
    append_event logged changed
    ≡ raise (
        value_error (
          format
            ("conflicting " ∷ "session event" ∷ " for idempotency key: " ∷ "idem:event:1" ∷ [])))
append_event_conflict_example =
    append_event_conflict logged [] [] stored changed logged-IsWellFormed refl refl differ

calls-IsWellFormed_example :
    IsWellFormed (calls empty (Call.event started ∷ Call.event changed ∷ Call.event started ∷ []))
calls-IsWellFormed_example =
    calls-IsWellFormed empty (Call.event started ∷ Call.event changed ∷ Call.event started ∷ [])
      empty-IsWellFormed

calls-Grows_example : Grows logged (calls logged (Call.event changed ∷ Call.event started ∷ []))
calls-Grows_example = calls-Grows logged (Call.event changed ∷ Call.event started ∷ [])

-- A recovery transaction that has started, and its next record.
abbrev recovery : RecoveryTransaction
recovery = record {
  recovery_transaction_id = "recovery-tx:1";
  recovery_key = "recovery-key:1";
  project_id = "repo-a";
  parent_session_id = "session:repo-a";
  child_session_id = none;
  source_packet_id = none;
  recovery_reason = "context_pressure";
  failure_family = "context_pressure";
  failure_signature = "critical";
  status = "started";
  started_at = "t0";
  updated_at = "t0";
  completed_at = none;
  lineage_id = none;
  causation_id = none;
  correlation_id = "corr:1";
  idempotency_key = "idem:1:started";
  metadata = [];
  log_seq = none;
}

abbrev frozen : RecoveryTransaction
frozen = record recovery {
  status = "packet_frozen";
  updated_at = "t1";
  idempotency_key = "idem:1:packet_frozen";
}

recovering-IsWellFormed : IsWellFormed (with_transaction empty recovery)
unfolding append_recovery_transaction dedupe_by_idempotency
recovering-IsWellFormed =
    append_recovery_transaction-IsWellFormed empty empty-IsWellFormed recovery refl

latest_after_append_example :
    (f' : StoreFile) × (r : RecoveryTransaction) × (append_recovery_transaction
        (with_transaction empty recovery)
        frozen
      ≡ ok (f', r))
    × (r ≡ record frozen { log_seq = some 2 })
    × (get_latest_recovery_transaction f' "recovery-tx:1" ≡ some r)
latest_after_append_example =
    latest_after_append (with_transaction empty recovery) frozen recovering-IsWellFormed
      (λ e. ground (arith, eq_iff "idem:1:started" "idem:1:packet_frozen"), tt)
