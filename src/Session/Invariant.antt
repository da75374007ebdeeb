-- ===== src/Session/Invariant.antt =====
-- What each append keeps: the log only grows, positions and idempotency keys never repeat.
use codex_watchdog.Common.{
  inr, inl, false, ◌⊎◌, ℕ, String, ◌≡◌, ◌≢◌, refl, none, some, List, [], ◌∷◌, ◌++◌, ◌+◌, ◌<◌, ok,
  All, All-weaken, Pairwise, Pairwise-snoc, All-append, arith, eq_iff, eq_refl,
}
use codex_watchdog.Session.Append.{
  append_lineage, append_recovery_transaction, has_id, append_event, dedupe_by_idempotency,
}
use codex_watchdog.Session.Records.{
  RecoveryTransaction, SessionEvent, SessionLineage, StoreFile, Stored, event_stored,
  lineage_stored, transaction_stored, empty,
}

module _ {A : Type 0} (s : Stored A) where
  open s use {key, same, seq, assign, key-assign, seq-assign, same-assign}

  -- Position and key of a record are its own.
  abbrev pub Before : A → A → Type 0
  Before x y = (seq x < seq y) × (key x ≢ key y)

  abbrev pub Below : ℕ → List A → Type 0
  Below n = All (λ x. seq x < n)

  -- A search that finds nothing has seen no equal key.
  pub dedupe-none :
      (label : String) (xs : List A) (r : A)
      → dedupe_by_idempotency s label xs r ≡ ok none
      → All (λ x. key x ≢ key r) xs
  unfolding dedupe_by_idempotency
  dedupe-none label [] r h = tt
  dedupe-none label (x ∷ xs) r h =
      (λ e. ground (arith, eq_iff (key x) (key r)), dedupe-none label xs r (ground arith))

  -- After the record is added, the search finds it.
  pub dedupe-snoc :
      (label : String) (xs : List A) (r : A) (n : ℕ)
      → dedupe_by_idempotency s label xs r ≡ ok none
      → dedupe_by_idempotency s label (xs ++ assign n r ∷ []) r ≡ ok (some (assign n r))
  unfolding dedupe_by_idempotency
  dedupe-snoc label [] r n h = rw (key-assign n r, eq_refl (key r), same-assign n r) refl
  dedupe-snoc label (x ∷ xs) r n h = ground (arith, dedupe-snoc label xs r n)

  pub snoc-Pairwise :
      (xs : List A) (r : A) (n : ℕ)
      → Pairwise Before xs
      → Below n xs
      → All (λ x. key x ≢ key r) xs
      → Pairwise Before (xs ++ assign n r ∷ [])
  snoc-Pairwise xs r n p below fresh = Pairwise-snoc Before xs (assign n r) (both xs below fresh) p
    where
      both :
          (ys : List A)
          → Below n ys
          → All (λ x. key x ≢ key r) ys
          → All (λ x. Before x (assign n r)) ys
      both [] b f = tt
      both (y ∷ ys) b f = ((rw (seq-assign n r) b.0, rw (key-assign n r) f.0), both ys b.1 f.1)

  pub snoc-Below :
      (xs : List A) (r : A) (n : ℕ) → Below n xs → Below (n + 1) (xs ++ assign n r ∷ [])
  snoc-Below xs r n b =
      All-append (λ x. seq x < n + 1) xs (assign n r ∷ []) (All-weaken (λ x h. omega arith) xs b)
        (rw (seq-assign n r) (omega arith), tt)

pub record IsWellFormed (f : StoreFile) : Type 0 where
  pub events : Pairwise (Before event_stored) f.events
  pub lineage : Pairwise (Before lineage_stored) f.lineage
  pub transactions : Pairwise (Before transaction_stored) f.recovery_transactions
  pub events_below : Below event_stored f.next_log_seq f.events
  pub lineage_below : Below lineage_stored f.next_log_seq f.lineage
  pub transactions_below : Below transaction_stored f.next_log_seq f.recovery_transactions

pub empty-IsWellFormed : IsWellFormed empty
empty-IsWellFormed = record {
  events = tt;
  lineage = tt;
  transactions = tt;
  events_below = tt;
  lineage_below = tt;
  transactions_below = tt;
}

module _ (f : StoreFile) where
  -- The content of the file after a new record.
  abbrev pub with_event : SessionEvent → StoreFile
  with_event e = record f {
    next_log_seq = f.next_log_seq + 1;
    events = f.events ++ event_stored.assign f.next_log_seq e ∷ [];
  }

  abbrev pub with_lineage : SessionLineage → StoreFile
  with_lineage l = record f {
    next_log_seq = f.next_log_seq + 1;
    lineage = f.lineage ++ lineage_stored.assign f.next_log_seq l ∷ [];
  }

  abbrev pub with_transaction : RecoveryTransaction → StoreFile
  with_transaction t = record f {
    next_log_seq = f.next_log_seq + 1;
    recovery_transactions =
        f.recovery_transactions ++ transaction_stored.assign f.next_log_seq t ∷ [];
  }

  -- A successful append returned a record that was there, or wrote exactly one new record.
  pub append_event-cases :
      (e : SessionEvent) {f' : StoreFile} {r : SessionEvent}
      → append_event f e ≡ ok (f', r)
      → ((f' ≡ f) × (dedupe_by_idempotency event_stored "session event" f.events e ≡ ok (some r)))
        ⊎ ((f' ≡ with_event e)
            × (r ≡ event_stored.assign f.next_log_seq e)
            × (dedupe_by_idempotency event_stored "session event" f.events e ≡ ok none)
            × (has_id (λ x. x.event_id) f.events e.event_id ≡ false))
  unfolding append_event
  append_event-cases e h = ground arith

  pub append_lineage-cases :
      (l : SessionLineage) {f' : StoreFile} {r : SessionLineage}
      → append_lineage f l ≡ ok (f', r)
      → (f' ≡ f)
        ⊎ ((f' ≡ with_lineage l)
            × (dedupe_by_idempotency lineage_stored "session lineage" f.lineage l ≡ ok none))
  unfolding append_lineage
  append_lineage-cases l h = ground arith

  pub append_recovery_transaction-cases :
      (t : RecoveryTransaction) {f' : StoreFile} {r : RecoveryTransaction}
      → append_recovery_transaction f t ≡ ok (f', r)
      → (f' ≡ f)
        ⊎ ((f' ≡ with_transaction t)
            × (dedupe_by_idempotency transaction_stored "recovery transaction"
                  f.recovery_transactions t
                ≡ ok none))
  unfolding append_recovery_transaction
  append_recovery_transaction-cases t h = ground arith

  module _ (w : IsWellFormed f) where
    Below-suc :
        {A : Type 0} (s : Stored A) (xs : List A)
        → Below s f.next_log_seq xs
        → Below s (f.next_log_seq + 1) xs
    Below-suc s xs = All-weaken (λ x h. omega arith) xs

    -- An append that succeeds keeps the file well formed.
    pub append_event-IsWellFormed :
        (e : SessionEvent) {f' : StoreFile} {r : SessionEvent}
        → append_event f e ≡ ok (f', r)
        → IsWellFormed f'
    append_event-IsWellFormed e h = elim (append_event-cases e h) [
      | inl (same, found) ↦ rw same w
      | inr (new, stored, missing, free) ↦ rw new (record {
        events =
            snoc-Pairwise event_stored f.events e f.next_log_seq w.events w.events_below
              (dedupe-none event_stored "session event" f.events e missing);
        lineage = w.lineage;
        transactions = w.transactions;
        events_below = snoc-Below event_stored f.events e f.next_log_seq w.events_below;
        lineage_below = Below-suc lineage_stored f.lineage w.lineage_below;
        transactions_below =
            Below-suc transaction_stored f.recovery_transactions w.transactions_below;
      })
    ]

    pub append_lineage-IsWellFormed :
        (l : SessionLineage) {f' : StoreFile} {r : SessionLineage}
        → append_lineage f l ≡ ok (f', r)
        → IsWellFormed f'
    append_lineage-IsWellFormed l h = elim (append_lineage-cases l h) [
      | inl same ↦ rw same w
      | inr (new, missing) ↦ rw new (record {
        events = w.events;
        lineage =
            snoc-Pairwise lineage_stored f.lineage l f.next_log_seq w.lineage w.lineage_below
              (dedupe-none lineage_stored "session lineage" f.lineage l missing);
        transactions = w.transactions;
        events_below = Below-suc event_stored f.events w.events_below;
        lineage_below = snoc-Below lineage_stored f.lineage l f.next_log_seq w.lineage_below;
        transactions_below =
            Below-suc transaction_stored f.recovery_transactions w.transactions_below;
      })
    ]

    pub append_recovery_transaction-IsWellFormed :
        (t : RecoveryTransaction) {f' : StoreFile} {r : RecoveryTransaction}
        → append_recovery_transaction f t ≡ ok (f', r)
        → IsWellFormed f'
    append_recovery_transaction-IsWellFormed t h = elim (append_recovery_transaction-cases t h) [
      | inl same ↦ rw same w
      | inr (new, missing) ↦ rw new (record {
        events = w.events;
        lineage = w.lineage;
        transactions =
            snoc-Pairwise transaction_stored f.recovery_transactions t f.next_log_seq w.transactions
              w.transactions_below
              (dedupe-none transaction_stored "recovery transaction" f.recovery_transactions t
                missing);
        events_below = Below-suc event_stored f.events w.events_below;
        lineage_below = Below-suc lineage_stored f.lineage w.lineage_below;
        transactions_below =
            snoc-Below transaction_stored f.recovery_transactions t f.next_log_seq
              w.transactions_below;
      })
    ]
