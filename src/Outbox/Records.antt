-- ===== src/Outbox/Records.antt =====
-- `DeliveryOutboxRecord`, `_DeliveryStoreFile` and the order of fact snapshots. An envelope is
-- what the store reads of the three envelope types of delivery/envelopes.py; `dumped` stands for
-- its `model_dump(mode="json")`.
use codex_watchdog.Common.{
  ℕ, String, ◌≡◌, refl, Bool, true, ◌&&◌, ◌||◌, not, Option, none, some, List, [], ◌∷◌, ◌++◌, ◌==◌,
  ltb, nat_eq, if◌then◌else◌, or_else, Dict, get,
}
use codex_watchdog.Common.Texts.{format, strip, text_lt, after_prefix, read_nat}
use codex_watchdog.Common.Values.{Value, string, value_eq, dict_eq}

pub record Envelope : Type 0 where
  pub envelope_id : String
  pub envelope_type : String
  pub correlation_id : String
  pub session_id : String
  pub project_id : String
  pub native_thread_id : Option String
  pub policy_version : String
  pub fact_snapshot_version : String
  pub idempotency_key : String
  pub audit_ref : String
  pub created_at : String
  pub dumped : Dict Value

pub record OutboxRecord : Type 0 where
  pub envelope_id : String
  pub envelope_type : String
  pub correlation_id : String
  pub session_id : String
  pub project_id : String
  pub native_thread_id : Option String
  pub policy_version : String
  pub fact_snapshot_version : String
  pub idempotency_key : String
  pub audit_ref : String
  pub created_at : String
  pub updated_at : Option String
  pub outbox_seq : ℕ
  pub delivery_status : String
  pub delivery_attempt : ℕ
  pub receipt_id : Option String
  pub next_retry_at : Option String
  pub failure_code : Option String
  pub operator_notes : List String
  pub envelope_payload : Dict Value

pub record OutboxFile : Type 0 where
  pub next_outbox_seq : ℕ
  pub decision_outbox : Dict OutboxRecord
  pub delivery_outbox : Dict OutboxRecord

abbrev pub empty : OutboxFile
empty = record { next_outbox_seq = 1; decision_outbox = []; delivery_outbox = [] }

-- `str(value or "").strip()` of a payload entry that is a text or missing.
abbrev text_of : Option Value → String
text_of (some (string s)) = strip s
text_of _ = ""

unfoldable pub effective_native_thread_id : OutboxRecord → Option String
effective_native_thread_id r =
    let own = strip (or_else r.native_thread_id "") in
    let carried = text_of (get "native_thread_id" r.envelope_payload) in
    if not (own == "") then some own else if not (carried == "") then some carried else none

-- `_fact_snapshot_order`: the number of `fact-v<n>`, and 2 ** 31 - 1 for any other text.
unfoldable pub fact_snapshot_order : String → ℕ × String
fact_snapshot_order value = elim (after_prefix "fact-v" value) [
  | none ↦ (2147483647, value)
  | some digits ↦ elim (read_nat digits) [ none ↦ (2147483647, value) | some n ↦ (n, value) ]
]

-- `a < b` and `a == b` on such pairs.
abbrev pub order_lt : ℕ × String → ℕ × String → Bool
order_lt a b = ltb a.0 b.0 || nat_eq a.0 b.0 && text_lt a.1 b.1

abbrev pub order_eq : ℕ × String → ℕ × String → Bool
order_eq a b = nat_eq a.0 b.0 && a.1 == b.1

-- The record of an envelope that the outbox has not seen.
unfoldable pub new_record : ℕ → Envelope → OutboxRecord
new_record seq e = record {
  envelope_id = e.envelope_id;
  envelope_type = e.envelope_type;
  correlation_id = e.correlation_id;
  session_id = e.session_id;
  project_id = e.project_id;
  native_thread_id = e.native_thread_id;
  policy_version = e.policy_version;
  fact_snapshot_version = e.fact_snapshot_version;
  idempotency_key = e.idempotency_key;
  audit_ref = e.audit_ref;
  created_at = e.created_at;
  updated_at = some e.created_at;
  outbox_seq = seq;
  delivery_status = "pending";
  delivery_attempt = 0;
  receipt_id = none;
  next_retry_at = none;
  failure_code = none;
  operator_notes = [];
  envelope_payload = e.dumped;
}

-- `existing.model_copy(update=…)` at the end of `_refresh_existing_record`.
unfoldable pub refreshed_record : OutboxRecord → Envelope → OutboxRecord
refreshed_record r e = record r {
  envelope_type = e.envelope_type;
  correlation_id = e.correlation_id;
  session_id = e.session_id;
  project_id = e.project_id;
  native_thread_id = e.native_thread_id;
  policy_version = e.policy_version;
  fact_snapshot_version = e.fact_snapshot_version;
  idempotency_key = e.idempotency_key;
  audit_ref = e.audit_ref;
  created_at = e.created_at;
  updated_at = some e.created_at;
  delivery_status = "pending";
  delivery_attempt = 0;
  receipt_id = none;
  next_retry_at = none;
  failure_code = none;
  operator_notes =
      r.operator_notes
      ++ format (
          "delivery_payload_refreshed " ∷ "previous_snapshot=" ∷ r.fact_snapshot_version
          ∷ " new_snapshot=" ∷ e.fact_snapshot_version ∷ [])
        ∷ [];
  envelope_payload = e.dumped;
}

-- `_refresh_existing_record`
unfoldable pub refresh_existing_record : OutboxRecord → Envelope → Option OutboxRecord
refresh_existing_record r e =
    let incoming_snapshot = fact_snapshot_order e.fact_snapshot_version in
    let existing_snapshot = fact_snapshot_order r.fact_snapshot_version in
    if order_lt incoming_snapshot existing_snapshot
    then none
    else if r.envelope_type == "approval"
        && (r.delivery_status == "delivered" || r.delivery_status == "superseded")
    then none
    else if order_eq incoming_snapshot existing_snapshot
        && r.idempotency_key == e.idempotency_key
        && dict_eq value_eq r.envelope_payload e.dumped
    then none
    else some (refreshed_record r e)

tests :
    (fact_snapshot_order "fact-v12" ≡ (12, "fact-v12"))
    × (fact_snapshot_order "fact-vx" ≡ (2147483647, "fact-vx"))
    × (order_lt (fact_snapshot_order "fact-v9") (fact_snapshot_order "fact-v12") ≡ true)
unfolding fact_snapshot_order after_prefix read_nat
tests = (refl, refl, refl)
