-- ===== src/Outbox/Tests.antt =====
-- The theorems on the outbox, applied to small tables.
use codex_watchdog.Common.{
  ◌↔◌, true, arith, values, keep, String, ◌≡◌, refl, false, none, some, [], ◌∷◌, Dict, get, put,
}
use codex_watchdog.Outbox.Operations.{
  reserve_outbox_seq, list_pending_delivery_records, is_pending, enqueue_one, enqueue_envelopes,
  update_delivery_record, requeue_transport_failures, supersede_records, write_both,
}
use codex_watchdog.Outbox.Calls.{◌⟶*◌, updates, reserves, done, then_call, reachable-IsWellFormed}
use mathlib.Core.List.{Perm}
use codex_watchdog.Outbox.Pending.{IsPending, list_pending_delivery_records-IsSorted}
use codex_watchdog.Outbox.Keys.{IsSorted}
use codex_watchdog.Outbox.Records.{
  refresh_existing_record, Envelope, OutboxRecord, OutboxFile, new_record, empty,
  fact_snapshot_order, order_lt, refreshed_record,
}
use codex_watchdog.Common.Texts.{after_prefix, read_nat}
use codex_watchdog.Outbox.Invariant.{IsWellFormed, empty-IsWellFormed}
use codex_watchdog.Outbox.Preserved.{
  enqueue_envelopes-IsWellFormed, update_delivery_record-IsWellFormed,
}
use codex_watchdog.Outbox.Refresh.{enqueue_again, refresh-newer}
use codex_watchdog.Outbox.Outcomes.{
  RequeueOutcome, SupersedeOutcome, requeue_transport_failures-Outcome, supersede_records-Outcome,
}

abbrev notice : Envelope
notice = record {
  envelope_id = "n1";
  envelope_type = "notification";
  correlation_id = "corr:1";
  session_id = "session:repo-a";
  project_id = "repo-a";
  native_thread_id = none;
  policy_version = "policy-v1";
  fact_snapshot_version = "fact-v9";
  idempotency_key = "k1";
  audit_ref = "audit:1";
  created_at = "2026-04-07T00:00:00Z";
  dumped = [];
}

abbrev newer_notice : Envelope
newer_notice = record notice { fact_snapshot_version = "fact-v12"; idempotency_key = "k2" }

abbrev failed : OutboxRecord
failed = record (new_record 1 notice) {
  delivery_status = "delivery_failed";
  failure_code = some "http_503";
}

abbrev queue : OutboxFile
queue = record {
  next_outbox_seq = 2;
  decision_outbox = ("n1", failed) ∷ [];
  delivery_outbox = ("n1", failed) ∷ [];
}

-- The outbox with the notice in it.
abbrev taken_in : OutboxFile
taken_in = record {
  next_outbox_seq = 2;
  decision_outbox = ("n1", new_record 1 notice) ∷ [];
  delivery_outbox = ("n1", new_record 1 notice) ∷ [];
}

taken_in-IsWellFormed : IsWellFormed taken_in
unfolding enqueue_envelopes enqueue_one write_both get put new_record
taken_in-IsWellFormed = enqueue_envelopes-IsWellFormed empty (notice ∷ []) empty-IsWellFormed

queue-IsWellFormed : IsWellFormed queue
unfolding update_delivery_record write_both put new_record get
queue-IsWellFormed =
    update_delivery_record-IsWellFormed taken_in (new_record 1 notice) failed taken_in-IsWellFormed
      refl refl

abbrev reasons : Dict String
reasons = ("n1", "session closed") ∷ []

supersede_records-Outcome_example :
    SupersedeOutcome "now"
      (get "n1" reasons)
      (get "n1" queue.delivery_outbox)
      (get "n1" (supersede_records queue reasons "now").0.delivery_outbox)
unfolding get
supersede_records-Outcome_example = supersede_records-Outcome "now" reasons queue "n1" (refl, tt)

requeue_transport_failures-Outcome_example :
    RequeueOutcome "network back" "now"
      (get "n1" queue.delivery_outbox)
      (get "n1" (requeue_transport_failures queue "network back" "now").0.delivery_outbox)
requeue_transport_failures-Outcome_example =
    requeue_transport_failures-Outcome "network back" "now" queue "n1" queue-IsWellFormed

enqueue_again_example :
    enqueue_one (enqueue_one queue newer_notice).0 newer_notice ≡ enqueue_one queue newer_notice
enqueue_again_example = enqueue_again queue newer_notice queue-IsWellFormed

refreshed :
    refresh_existing_record failed newer_notice ≡ some (refreshed_record failed newer_notice)
unfolding refresh_existing_record new_record fact_snapshot_order after_prefix read_nat
refreshed = refl

refresh-newer_example :
    order_lt (fact_snapshot_order "fact-v12") (fact_snapshot_order "fact-v9") ≡ false
unfolding refreshed_record new_record
refresh-newer_example = refresh-newer failed newer_notice refreshed

abbrev approved : OutboxRecord
approved = record failed { envelope_type = "approval"; delivery_status = "delivered" }

list_pending_delivery_records-IsSorted_example :
    IsSorted (list_pending_delivery_records taken_in (some "session:repo-a"))
    × Perm
        (list_pending_delivery_records taken_in (some "session:repo-a"))
        (keep (is_pending (some "session:repo-a")) (values taken_in.delivery_outbox))
    × ((r : OutboxRecord)
        → (is_pending (some "session:repo-a") r ≡ true) ↔ IsPending (some "session:repo-a") r)
list_pending_delivery_records-IsSorted_example =
    list_pending_delivery_records-IsSorted taken_in (some "session:repo-a")

-- The recovery's calls: the failed notice is closed, a position is reserved, and the notice comes in
-- again under a new id at that position.
abbrev closed : OutboxRecord
closed = record failed { delivery_status = "superseded" }

abbrev reissued : OutboxRecord
reissued = record failed {
  envelope_id = "n1:recovery";
  outbox_seq = 2;
  delivery_status = "pending";
}

abbrev after_recovery : OutboxFile
after_recovery =
    (update_delivery_record (reserve_outbox_seq (update_delivery_record queue closed).0).0
      reissued).0

closed-IsWellFormed : IsWellFormed (update_delivery_record queue closed).0
unfolding update_delivery_record write_both put get new_record
closed-IsWellFormed =
    update_delivery_record-IsWellFormed queue failed closed queue-IsWellFormed refl refl

recovery_calls : queue ⟶* after_recovery
unfolding update_delivery_record reserve_outbox_seq write_both put get new_record
recovery_calls =
    then_call
      (updates queue closed (λ k x h e. queue-IsWellFormed.distinct k "n1" x failed h refl e))
      (then_call (reserves (update_delivery_record queue closed).0) (
        then_call
          (updates (reserve_outbox_seq (update_delivery_record queue closed).0).0 reissued
            (λ k r h e. absurd (omega (arith, closed-IsWellFormed.below k r h, e))))
          (done after_recovery)))

reachable-IsWellFormed_example : IsWellFormed after_recovery
reachable-IsWellFormed_example = reachable-IsWellFormed recovery_calls queue-IsWellFormed
