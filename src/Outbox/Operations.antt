-- ===== src/Outbox/Operations.antt =====
-- The methods of `DeliveryOutboxStore`, as functions of the file's content. A method that writes
-- returns the content that it writes.
use codex_watchdog.Common.{
  ℕ, ◌+◌, max, String, Bool, true, ◌&&◌, ◌||◌, not, Option, none, some, List, [], ◌∷◌, ◌++◌, ◌==◌,
  leb, if◌then◌else◌, is_none, or_else, Dict, get, put, values, keep,
}
use codex_watchdog.Common.Texts.{format, one_of, text_lt, after_prefix}
use codex_watchdog.Common.Values.{text_eq, option_eq}
use codex_watchdog.Outbox.Records.{
  Envelope, OutboxRecord, OutboxFile, fact_snapshot_order, order_lt, order_eq, new_record,
  refresh_existing_record,
}

-- `data.decision_outbox[id] = data.delivery_outbox[id] = record`
unfoldable pub write_both : String → OutboxRecord → OutboxFile → OutboxFile
write_both k r f = record f {
  decision_outbox = put k r f.decision_outbox;
  delivery_outbox = put k r f.delivery_outbox;
}

-- One round of the loop of `enqueue_envelopes`: the file and the record that is returned.
unfoldable pub enqueue_one : OutboxFile → Envelope → OutboxFile × OutboxRecord
unfolding write_both
enqueue_one f e = elim (get e.envelope_id f.delivery_outbox) [
  | some existing ↦ elim (refresh_existing_record existing e) [
    | some refreshed ↦ (write_both refreshed.envelope_id refreshed f, refreshed)
    | none ↦ (f, existing)
  ]
  | none ↦
      let r = new_record f.next_outbox_seq e in
      (write_both r.envelope_id r (record f { next_outbox_seq = f.next_outbox_seq + 1 }), r)
]

unfoldable pub enqueue_envelopes : OutboxFile → List Envelope → OutboxFile × List OutboxRecord
unfolding enqueue_one
enqueue_envelopes f [] = (f, [])
enqueue_envelopes f (e ∷ es) =
    let (f', r) = enqueue_one f e in let (f'', rs) = enqueue_envelopes f' es in (f'', r ∷ rs)

unfoldable pub get_delivery_record : OutboxFile → String → Option OutboxRecord
get_delivery_record f envelope_id = get envelope_id f.delivery_outbox

unfoldable pub update_delivery_record : OutboxFile → OutboxRecord → OutboxFile × OutboxRecord
unfolding write_both
update_delivery_record f r = (
  write_both r.envelope_id r
      (record f { next_outbox_seq = max f.next_outbox_seq (r.outbox_seq + 1) }),
  r,
)

unfoldable pub reserve_outbox_seq : OutboxFile → OutboxFile × ℕ
reserve_outbox_seq f = (record f { next_outbox_seq = f.next_outbox_seq + 1 }, f.next_outbox_seq)

unfoldable pub list_records : OutboxFile → List OutboxRecord
list_records f = values f.delivery_outbox

unfoldable pub is_requeueable_transport_failure : String → Bool
unfolding one_of
is_requeueable_transport_failure code =
    if one_of ("transport_error" ∷ "transport_timeout" ∷ "transport_configuration_error" ∷ []) code
    then true
    else elim (after_prefix "http_" code) [
      | some status ↦
          one_of ("408" ∷ "409" ∷ "425" ∷ "429" ∷ "500" ∷ "502" ∷ "503" ∷ "504" ∷ []) status
      | none ↦ not (is_none (after_prefix "upstream_" code))
    ]

-- Whether `requeue_transport_failures` acts on a record.
unfoldable pub is_requeueable : OutboxRecord → Bool
unfolding is_requeueable_transport_failure
is_requeueable r =
    r.delivery_status == "delivery_failed"
    && is_requeueable_transport_failure (or_else r.failure_code "")

unfoldable pub requeued_record : String → String → OutboxRecord → OutboxRecord
requeued_record reason updated_at r =
    let code = or_else r.failure_code "" in
    record r {
      delivery_status = "pending";
      delivery_attempt = 0;
      failure_code = none;
      next_retry_at = none;
      operator_notes =
          r.operator_notes
          ++ format (
              "delivery_requeued "
              ∷ "reason="
              ∷ reason
              ∷ " previous_failure_code="
              ∷ (if code == "" then "unknown" else code)
              ∷ [])
            ∷ [];
      updated_at = some updated_at;
    }

-- The loop of `requeue_transport_failures`, over the items that the outbox had at the start.
unfoldable pub requeue_items :
    String → String → Dict OutboxRecord → OutboxFile → OutboxFile × List OutboxRecord
unfolding write_both requeued_record
requeue_items reason updated_at [] f = (f, [])
requeue_items reason updated_at ((k, r) ∷ items') f =
    let updated = requeued_record reason updated_at r in
    let here = is_requeueable r in
    let (f', rs) =
      requeue_items reason updated_at items' (if here then write_both k updated f else f) in
    (f', (if here then updated ∷ rs else rs))

unfoldable pub requeue_transport_failures :
    OutboxFile → String → String → OutboxFile × List OutboxRecord
unfolding requeue_items
requeue_transport_failures f reason updated_at = requeue_items reason updated_at f.delivery_outbox f

-- Whether `supersede_records` acts on a record.
abbrev pub is_superseded_or_delivered : OutboxRecord → Bool
is_superseded_or_delivered r = r.delivery_status == "delivered" || r.delivery_status == "superseded"

unfoldable pub superseded_record : String → String → OutboxRecord → OutboxRecord
superseded_record reason updated_at r = record r {
  delivery_status = "superseded";
  failure_code = none;
  next_retry_at = none;
  operator_notes = r.operator_notes ++ format ("delivery_superseded reason=" ∷ reason ∷ []) ∷ [];
  updated_at = some updated_at;
}

-- One round of the loop of `supersede_records`.
unfoldable pub supersede_one :
    String → String → String → OutboxFile → OutboxFile × List OutboxRecord
unfolding write_both superseded_record
supersede_one updated_at k reason f = elim (get k f.delivery_outbox) [
  | none ↦ (f, [])
  | some r ↦
      let updated = superseded_record reason updated_at r in
      if is_superseded_or_delivered r then (f, []) else (write_both k updated f, updated ∷ [])
]

unfoldable pub supersede_records :
    OutboxFile → Dict String → String → OutboxFile × List OutboxRecord
unfolding supersede_one
supersede_records f [] updated_at = (f, [])
supersede_records f ((k, reason) ∷ reasons) updated_at =
    let (f', rs) = supersede_one updated_at k reason f in
    let (f'', rest) = supersede_records f' reasons updated_at in (f'', rs ++ rest)

-- The key by which `list_pending_delivery_records` sorts: session, snapshot, position.
abbrev pub record_leb : OutboxRecord → OutboxRecord → Bool
record_leb a b =
    let x = fact_snapshot_order a.fact_snapshot_version in
    let y = fact_snapshot_order b.fact_snapshot_version in
    text_lt a.session_id b.session_id
    || a.session_id == b.session_id
      && (order_lt x y || order_eq x y && leb a.outbox_seq b.outbox_seq)

-- `sorted(…, key=…)` by insertion from the right, which keeps the order of equal keys.
unfoldable pub insert_record : OutboxRecord → List OutboxRecord → List OutboxRecord
insert_record r [] = r ∷ []
insert_record r (x ∷ xs) = if record_leb r x then r ∷ x ∷ xs else x ∷ insert_record r xs

unfoldable pub sort_records : List OutboxRecord → List OutboxRecord
unfolding insert_record
sort_records [] = []
sort_records (r ∷ rs) = insert_record r (sort_records rs)

unfoldable pub is_pending : Option String → OutboxRecord → Bool
is_pending session_id r =
    (r.delivery_status == "pending" || r.delivery_status == "retrying")
    && (is_none session_id || option_eq text_eq session_id (some r.session_id))

unfoldable pub list_pending_delivery_records : OutboxFile → Option String → List OutboxRecord
unfolding sort_records is_pending
list_pending_delivery_records f session_id =
    sort_records (keep (is_pending session_id) (values f.delivery_outbox))
