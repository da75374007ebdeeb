-- ===== src/Session/Reads.antt =====
-- The reading half of session_service/store.py. A filter that is not given is `none`.
use codex_watchdog.Common.{
  ℕ, ◌<◌, String, ◌≡◌, refl, ap, ◌∙◌, ◌≢◌, inl, inr, Bool, Option, none, some, List, [], ◌∷◌, ◌++◌,
  arith, eq_iff, eq_refl, ltb, if◌then◌else◌, Bool-cases, ok, get, keep, keep-append, keep-one,
  keep-All, All,
}
use codex_watchdog.Common.Values.{text_eq, option_eq, option_eq_refl}
use codex_watchdog.Session.Records.{
  SessionEvent, SessionLineage, RecoveryTransaction, StoreFile, transaction_stored,
}
use codex_watchdog.Session.Append.{append_recovery_transaction, dedupe_by_idempotency}
use codex_watchdog.Session.Invariant.{IsWellFormed, Below, with_transaction}

-- `if wanted is not None: records = [r for r in records if field(r) == wanted]`
module _ {A : Type 0} (field : A → Option String) where
  unfoldable pub only : Option String → List A → List A
  only none records = records
  only (some wanted) records = keep (λ r. option_eq text_eq (field r) (some wanted)) records

-- The filter on an entry of `related_ids`, whose value may be `None` too: then only the records
-- without the entry are left.
unfoldable pub only_related : Option String → Option String → List SessionEvent → List SessionEvent
only_related none value records = records
only_related (some name) value records =
    keep (λ r. option_eq text_eq (get name r.related_ids) value) records

unfoldable pub list_events :
    StoreFile
    → (session_id event_type related_id_key related_id_value correlation_id : Option String)
    → List SessionEvent
unfolding only only_related
list_events f session_id event_type related_id_key related_id_value correlation_id =
    only_related related_id_key related_id_value (
      only (λ r. some r.correlation_id) correlation_id
        (only (λ r. some r.event_type) event_type
          (only (λ r. some r.session_id) session_id f.events)))

unfoldable pub list_lineage :
    StoreFile
    → (parent_session_id child_session_id recovery_transaction_id : Option String)
    → List SessionLineage
unfolding only
list_lineage f parent_session_id child_session_id recovery_transaction_id =
    only (λ r. r.recovery_transaction_id) recovery_transaction_id
      (only (λ r. some r.child_session_id) child_session_id
        (only (λ r. some r.parent_session_id) parent_session_id f.lineage))

unfoldable pub list_recovery_transactions :
    StoreFile
    → (parent_session_id child_session_id recovery_transaction_id status : Option String)
    → List RecoveryTransaction
unfolding only
list_recovery_transactions f parent_session_id child_session_id recovery_transaction_id status =
    only (λ r. some r.status) status
      (only (λ r. some r.recovery_transaction_id) recovery_transaction_id
        (only (λ r. r.child_session_id) child_session_id
          (only (λ r. some r.parent_session_id) parent_session_id f.recovery_transactions)))

-- `max(best :: records, key=…)`: the first of the largest.
unfoldable pub latest_of : RecoveryTransaction → List RecoveryTransaction → RecoveryTransaction
latest_of best [] = best
latest_of best (r ∷ records) =
    latest_of (if ltb (transaction_stored.seq best) (transaction_stored.seq r) then r else best)
      records

abbrev latest : List RecoveryTransaction → Option RecoveryTransaction
latest [] = none
latest (r ∷ records) = some (latest_of r records)

unfoldable pub get_latest_recovery_transaction : StoreFile → String → Option RecoveryTransaction
unfolding list_recovery_transactions latest_of
get_latest_recovery_transaction f recovery_transaction_id =
    latest (list_recovery_transactions f none none (some recovery_transaction_id) none)

-- A search among other keys finds nothing.
dedupe-fresh :
    (xs : List RecoveryTransaction) (t : RecoveryTransaction)
    → All (λ (x : RecoveryTransaction). x.idempotency_key ≢ t.idempotency_key) xs
    → dedupe_by_idempotency transaction_stored "recovery transaction" xs t ≡ ok none
unfolding dedupe_by_idempotency
dedupe-fresh [] t h = refl
dedupe-fresh (x ∷ xs) t h =
    ground (arith, eq_iff x.idempotency_key t.idempotency_key, h.0, dedupe-fresh xs t h.1)

-- A record above all the others is the latest.
latest_of-snoc :
    (xs : List RecoveryTransaction) (n : ℕ) (best t : RecoveryTransaction)
    → transaction_stored.seq best < n
    → Below transaction_stored n xs
    → transaction_stored.seq t ≡ n
    → latest_of best (xs ++ t ∷ []) ≡ t
unfolding latest_of
latest_of-snoc [] n best t low h e = ground arith
latest_of-snoc (x ∷ xs) n best t low h e =
    elim (Bool-cases (ltb (transaction_stored.seq best) (transaction_stored.seq x))) [
      | inl more ↦ rw (latest_of, more) (latest_of-snoc xs n x t h.0 h.1 e)
      | inr less ↦ rw (latest_of, less) (latest_of-snoc xs n best t low h.1 e)
    ]

latest-snoc :
    (n : ℕ) (xs : List RecoveryTransaction) (t : RecoveryTransaction)
    → Below transaction_stored n xs
    → transaction_stored.seq t ≡ n
    → latest (xs ++ t ∷ []) ≡ some t
unfolding latest_of
latest-snoc n [] t h e = refl
latest-snoc n (x ∷ xs) t h e = ap some (latest_of-snoc xs n x t h.0 h.1 e)

-- In a well-formed file, a recovery transaction record under a new idempotency key is accepted at
-- the next position, and get_latest_recovery_transaction then returns it.
pub latest_after_append :
    (f : StoreFile) (t : RecoveryTransaction)
    → IsWellFormed f
    → All
        (λ (x : RecoveryTransaction). x.idempotency_key ≢ t.idempotency_key)
        f.recovery_transactions
    → (f' : StoreFile) × (r : RecoveryTransaction) × (append_recovery_transaction f t ≡ ok (f', r))
      × (r ≡ record t { log_seq = some f.next_log_seq })
      × (get_latest_recovery_transaction f' t.recovery_transaction_id ≡ some r)
unfolding append_recovery_transaction get_latest_recovery_transaction list_recovery_transactions
    only
latest_after_append f t w fresh =
    let r = transaction_stored.assign f.next_log_seq t in
    let id = t.recovery_transaction_id in
    let p : RecoveryTransaction → Bool =
      λ x. option_eq text_eq (some x.recovery_transaction_id) (some id) in
    (
      with_transaction f t,
      r,
      rw (dedupe-fresh f.recovery_transactions t fresh) refl,
      refl,
      ap latest (
            keep-append p f.recovery_transactions (r ∷ [])
            ∙ ap (λ x. keep p f.recovery_transactions ++ x) here)
          ∙ latest-snoc f.next_log_seq (keep p f.recovery_transactions) r
              (keep-All (λ (x : RecoveryTransaction). transaction_stored.seq x < f.next_log_seq) p
                f.recovery_transactions w.transactions_below)
              refl,
    )
  where
    here :
        keep
          (λ (x : RecoveryTransaction).
            option_eq text_eq (some x.recovery_transaction_id) (some t.recovery_transaction_id))
          (transaction_stored.assign f.next_log_seq t ∷ [])
        ≡ transaction_stored.assign f.next_log_seq t ∷ []
    here =
        keep-one _ (transaction_stored.assign f.next_log_seq t)
          (option_eq_refl text_eq eq_refl (some t.recovery_transaction_id))
