-- ===== src/Outbox/Refresh.antt =====
-- What `enqueue_envelopes` does with an envelope that the outbox already has.
use codex_watchdog.Common.{
  ℕ, String, ◌≡◌, refl, ◌⊎◌, inl, inr, true, false, none, some, arith, eq_iff, get, put,
  get-put_self,
}
use codex_watchdog.Common.Values.{value_eq, value_eq_refl, dict_eq_refl}
use mathlib.Core.Path.{subst}
use text.Mathlib.TextPositions.{compare_refl}
use codex_watchdog.Outbox.Records.{
  Envelope, OutboxRecord, OutboxFile, new_record, refreshed_record, refresh_existing_record,
  fact_snapshot_order, order_lt, order_eq,
}
use codex_watchdog.Outbox.Operations.{write_both, enqueue_one}
use codex_watchdog.Outbox.Invariant.{IsWellFormed}
use codex_watchdog.Outbox.Preserved.{enqueue_one-cases}

order_lt_irrefl : (a : ℕ × String) → order_lt a a ≡ false
order_lt_irrefl (n, s) = ground (arith, compare_refl s)

order_eq_refl : (a : ℕ × String) → order_eq a a ≡ true
order_eq_refl (n, s) = ground (arith, compare_refl s)

-- A record that was just made from an envelope, or refreshed by it, is not refreshed by it again.
settled :
    (r : OutboxRecord) (e : Envelope)
    → r.fact_snapshot_version ≡ e.fact_snapshot_version
    → r.idempotency_key ≡ e.idempotency_key
    → r.envelope_payload ≡ e.dumped
    → refresh_existing_record r e ≡ none
unfolding refresh_existing_record
settled r e version key payload = ground (
  arith,
  order_lt_irrefl (fact_snapshot_order e.fact_snapshot_version),
  order_eq_refl (fact_snapshot_order e.fact_snapshot_version),
  eq_iff r.idempotency_key e.idempotency_key,
  dict_eq_refl value_eq value_eq_refl e.dumped,
)

kept_as_is :
    (f : OutboxFile) (e : Envelope) (r : OutboxRecord)
    → get e.envelope_id f.delivery_outbox ≡ some r
    → refresh_existing_record r e ≡ none
    → enqueue_one f e ≡ (f, r)
unfolding enqueue_one
kept_as_is f e r found kept = rw (found, enqueue_one, kept) refl

-- In a well-formed outbox, taking in the same envelope twice (two rounds of enqueue_envelopes'
-- loop) leaves the same file and returns the same record as taking it in once.
pub enqueue_again :
    (f : OutboxFile) (e : Envelope)
    → IsWellFormed f
    → enqueue_one (enqueue_one f e).0 e ≡ enqueue_one f e
unfolding write_both new_record refreshed_record
enqueue_again f e w = elim (enqueue_one-cases f e) [
  | inl (missing, done) ↦
      let r = new_record f.next_outbox_seq e in
      rw done (
        kept_as_is _ e r (get-put_self e.envelope_id r f.delivery_outbox)
          (settled r e refl refl refl))
  | inr (r, found, inl (kept, done)) ↦ rw done (kept_as_is f e r found kept)
  | inr (r, found, inr (new, done)) ↦
      let r' = refreshed_record r e in
      let at : get e.envelope_id (put r.envelope_id r' f.delivery_outbox) ≡ some r' =
        subst (λ k. get k (put r.envelope_id r' f.delivery_outbox) ≡ some r')
          (w.keyed e.envelope_id r found) (get-put_self r.envelope_id r' f.delivery_outbox) in
      rw done (kept_as_is _ e r' at (settled r' e refl refl refl))
]

-- A refresh of an outbox record never goes back to an older snapshot of the facts.
pub refresh-newer :
    (r : OutboxRecord) (e : Envelope) {x : OutboxRecord}
    → refresh_existing_record r e ≡ some x
    → order_lt
        (fact_snapshot_order x.fact_snapshot_version)
        (fact_snapshot_order r.fact_snapshot_version)
      ≡ false
unfolding refresh_existing_record refreshed_record
refresh-newer r e h = ground arith

-- No envelope refreshes an approval record that was delivered or superseded.
pub refresh-approval :
    (r : OutboxRecord) (e : Envelope)
    → r.envelope_type ≡ "approval"
    → (r.delivery_status ≡ "delivered") ⊎ (r.delivery_status ≡ "superseded")
    → refresh_existing_record r e ≡ none
unfolding refresh_existing_record
refresh-approval r e approval (inl done) =
    ground (arith, eq_iff r.envelope_type "approval", eq_iff r.delivery_status "delivered")
refresh-approval r e approval (inr done) =
    ground (arith, eq_iff r.envelope_type "approval", eq_iff r.delivery_status "superseded")
