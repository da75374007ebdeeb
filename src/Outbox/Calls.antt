-- ===== src/Outbox/Calls.antt =====
-- Any sequence of the writing methods of delivery/store.py, as steps of the file's content.
-- update_delivery_record is called with a changed copy of a stored record, and, by the recovery of
-- session_spine/recovery.py, with a record under a new id at a reserved position.
use codex_watchdog.Outbox.Operations.{
  enqueue_envelopes, update_delivery_record, reserve_outbox_seq, supersede_records,
  requeue_transport_failures,
}
use codex_watchdog.Common.{String, ◌≡◌, refl, some, List, Dict, get}
use codex_watchdog.Outbox.Records.{Envelope, OutboxRecord, OutboxFile}
use codex_watchdog.Outbox.Invariant.{IsWellFormed, put-IsWellFormed}
use codex_watchdog.Outbox.Preserved.{
  enqueue_envelopes-IsWellFormed, reserve_outbox_seq-IsWellFormed, supersede_records-IsWellFormed,
}
use codex_watchdog.Outbox.Updates.{requeue_transport_failures-IsWellFormed}

infix 4 ◌⟶◌ ◌⟶*◌
-- No record under another id has the record's position.
abbrev pub OwnsPosition : OutboxFile → OutboxRecord → Type 0
OwnsPosition f r =
    (k : String) (x : OutboxRecord)
    → get k f.delivery_outbox ≡ some x
    → x.outbox_seq ≡ r.outbox_seq
    → k ≡ r.envelope_id

-- One call of a writing method.
pub data ◌⟶◌ : OutboxFile → OutboxFile → Type 0 where
  enqueues : (f : OutboxFile) (es : List Envelope) → f ⟶ (enqueue_envelopes f es).0
  updates :
      (f : OutboxFile) (r : OutboxRecord) → OwnsPosition f r → f ⟶ (update_delivery_record f r).0
  reserves : (f : OutboxFile) → f ⟶ (reserve_outbox_seq f).0
  supersedes :
      (f : OutboxFile) (reasons : Dict String) (updated_at : String)
      → f ⟶ (supersede_records f reasons updated_at).0
  requeues :
      (f : OutboxFile) (reason updated_at : String)
      → f ⟶ (requeue_transport_failures f reason updated_at).0

-- Any number of calls.
pub data ◌⟶*◌ : OutboxFile → OutboxFile → Type 0 where
  done : (f : OutboxFile) → f ⟶* f
  then_call : {f g h : OutboxFile} → f ⟶ g → g ⟶* h → f ⟶* h

-- One writing call keeps a well-formed outbox well formed.
⟶-IsWellFormed : {f g : OutboxFile} → f ⟶ g → IsWellFormed f → IsWellFormed g
unfolding update_delivery_record
⟶-IsWellFormed (enqueues f es) w = enqueue_envelopes-IsWellFormed f es w
⟶-IsWellFormed (updates f r own) w = put-IsWellFormed f w r.envelope_id r refl own
⟶-IsWellFormed (reserves f) w = reserve_outbox_seq-IsWellFormed f w
⟶-IsWellFormed (supersedes f reasons updated_at) w =
    supersede_records-IsWellFormed f reasons updated_at w
⟶-IsWellFormed (requeues f reason updated_at) w =
    requeue_transport_failures-IsWellFormed reason updated_at f w

-- Any sequence of writing calls keeps a well-formed outbox well formed: its two tables agree,
-- records stand under their own ids, and positions are distinct and below the next one. An update
-- may bring any record, new or changed, whose position no record under another id has.
pub reachable-IsWellFormed : {f g : OutboxFile} → f ⟶* g → IsWellFormed f → IsWellFormed g
reachable-IsWellFormed (done f) w = w
reachable-IsWellFormed (then_call step rest) w = reachable-IsWellFormed rest (⟶-IsWellFormed step w)
