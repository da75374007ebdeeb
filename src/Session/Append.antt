-- ===== src/Session/Append.antt =====
-- The writing half of session_service/store.py: `_dedupe_by_idempotency`, `_assign_log_seq` and the
-- three append methods, and `SessionService._append_event` on top of them. A method takes the
-- file's content and returns the content that it wrote, or raises and writes nothing. `digest`
-- stands for SHA-256, hex encoded and cut to sixteen characters.
use codex_watchdog.Common.{
  String, Bool, true, false, Option, none, some, List, [], ◌∷◌, ◌++◌, ◌==◌, ◌+◌, Dict, Result, ok,
  raise, value_error, ◌>>=◌, if◌then◌else◌, map,
}
use codex_watchdog.Common.Texts.{format, join, strip}
use codex_watchdog.Common.Values.{Value}
use codex_watchdog.Session.Records.{
  SessionEvent, SessionLineage, RecoveryTransaction, StoreFile, Stored, event_stored,
  lineage_stored, transaction_stored, validate_event,
}

module _ {A : Type 0} (s : Stored A) where
  open s use {key, same}

  unfoldable pub dedupe_by_idempotency : String → List A → A → Result (Option A)
  dedupe_by_idempotency label [] incoming = ok none
  dedupe_by_idempotency label (existing ∷ records) incoming =
      if key existing == key incoming
      then (if same existing incoming
          then ok (some existing)
          else raise (
              value_error
                (format ("conflicting " ∷ label ∷ " for idempotency key: " ∷ key incoming ∷ []))))
      else dedupe_by_idempotency label records incoming

-- `for persisted in …: if persisted.id == record.id: raise`
module _ {A : Type 0} (id_of : A → String) where
  unfoldable pub has_id : List A → String → Bool
  has_id [] i = false
  has_id (x ∷ xs) i = if id_of x == i then true else has_id xs i

-- The tail of `append_event`, once no record with the key is there.
unfoldable pub add_event : StoreFile → SessionEvent → Result (StoreFile × SessionEvent)
unfolding has_id
add_event file e =
    let assigned = event_stored.assign file.next_log_seq e in
    if has_id (λ x. x.event_id) file.events e.event_id
    then raise (value_error (format ("conflicting session event id: " ∷ e.event_id ∷ [])))
    else ok (
      record file { next_log_seq = file.next_log_seq + 1; events = file.events ++ assigned ∷ [] },
      assigned,
    )

unfoldable pub append_event : StoreFile → SessionEvent → Result (StoreFile × SessionEvent)
unfolding add_event
append_event file e = do
  found ← dedupe_by_idempotency event_stored "session event" file.events e
  elim found [ none ↦ add_event file e | some existing ↦ ok (file, existing) ]

unfoldable pub add_lineage : StoreFile → SessionLineage → Result (StoreFile × SessionLineage)
unfolding has_id
add_lineage file l =
    let assigned = lineage_stored.assign file.next_log_seq l in
    if has_id (λ x. x.lineage_id) file.lineage l.lineage_id
    then raise (value_error (format ("conflicting session lineage id: " ∷ l.lineage_id ∷ [])))
    else ok (
      record file { next_log_seq = file.next_log_seq + 1; lineage = file.lineage ++ assigned ∷ [] },
      assigned,
    )

unfoldable pub append_lineage : StoreFile → SessionLineage → Result (StoreFile × SessionLineage)
unfolding add_lineage
append_lineage file l = do
  found ← dedupe_by_idempotency lineage_stored "session lineage" file.lineage l
  elim found [ none ↦ add_lineage file l | some existing ↦ ok (file, existing) ]

unfoldable pub append_recovery_transaction :
    StoreFile → RecoveryTransaction → Result (StoreFile × RecoveryTransaction)
append_recovery_transaction file t = do
  found ←
      dedupe_by_idempotency transaction_stored "recovery transaction" file.recovery_transactions t
  elim found [
    | none ↦
        let assigned = transaction_stored.assign file.next_log_seq t in
        ok (
          record file {
            next_log_seq = file.next_log_seq + 1;
            recovery_transactions = file.recovery_transactions ++ assigned ∷ [];
          },
          assigned,
        )
    | some existing ↦ ok (file, existing)
  ]

-- The arguments of `SessionService.record_event`, with the time already chosen.
pub record EventRequest : Type 0 where
  pub event_type : String
  pub project_id : String
  pub session_id : String
  pub occurred_at : String
  pub causation_id : Option String
  pub correlation_id : String
  pub related_ids : Dict String
  pub payload : Dict Value

module _ (digest : String → String) where
  -- `_stable_id(prefix, *parts)`
  unfoldable pub stable_id : String → List String → String
  stable_id prefix parts = format (prefix ∷ ":" ∷ digest (join "|" (map strip parts)) ∷ [])

  unfoldable pub event_of : EventRequest → SessionEvent
  unfolding stable_id
  event_of r =
      let event_id = stable_id "event" (r.correlation_id ∷ r.session_id ∷ r.event_type ∷ []) in
      record {
        event_id = event_id;
        project_id = r.project_id;
        session_id = r.session_id;
        event_type = r.event_type;
        occurred_at = r.occurred_at;
        causation_id = r.causation_id;
        correlation_id = r.correlation_id;
        idempotency_key = format ("idem:event:" ∷ event_id ∷ []);
        related_ids = r.related_ids;
        payload = r.payload;
        log_seq = none;
      }

  unfoldable pub record_event : StoreFile → EventRequest → Result (StoreFile × SessionEvent)
  unfolding event_of
  record_event file r = do e ← validate_event (event_of r); append_event file e
