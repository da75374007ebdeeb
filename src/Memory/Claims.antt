-- ===== src/Memory/Claims.antt =====
-- What claim_next of memory_hub/ingest_queue.py claims, and when it claims nothing.
use codex_watchdog.Common.{
  ℕ, ◌≤◌, String, ◌≡◌, refl, ◌⊎◌, inl, inr, Bool, true, false, none, some, List, [], ◌∷◌,
  Bool-cases, Result, get, values, keep, keep-All, All, All-weaken,
}
use codex_watchdog.Leases.State.{Moment}
use codex_watchdog.Memory.Records.{QueueRecord, QueueFile, is_due}
use codex_watchdog.Memory.Queue.{write, claim_next, claimed_record, claim_first, sort_records}
use codex_watchdog.Memory.Sorting.{first-least, sort-All, sort-All_back}
use codex_watchdog.Memory.Invariant.{IsWellFormed, IsWellFormed-filed}

module _ {A : Type 0} (p : A → Bool) where
  keep-true : (xs : List A) → All (λ x. p x ≡ true) (keep p xs)
  unfolding keep
  keep-true [] = tt
  keep-true (x ∷ xs) = elim (Bool-cases (p x)) [
    | inl here ↦ rw here (here, keep-true xs)
    | inr other ↦ rw other (keep-true xs)
  ]

  keep-All_back :
      (P : A → Type 0) (xs : List A) → All P (keep p xs) → All (λ x. p x ≡ true → P x) xs
  unfolding keep
  keep-All_back P [] h = tt
  keep-All_back P (x ∷ xs) h = elim (Bool-cases (p x)) [
    | inl here ↦ let (first, rest) = (rw (keep, here) at h) in (λ _. first, keep-All_back P xs rest)
    | inr other ↦ (λ yes. cc, keep-All_back P xs (rw (keep, other) at h))
  ]

  unkept : (x : A) → (p x ≡ true → p x ≡ false) → p x ≡ false
  unkept x h = elim (Bool-cases (p x)) [ inl here ↦ h here | inr other ↦ other ]

All-zip :
    {A : Type 0} (P Q : A → Type 0) (xs : List A) → All P xs → All Q xs → All (λ x. P x × Q x) xs
All-zip P Q [] p q = tt
All-zip P Q (x ∷ xs) p q = ((p.0, q.0), All-zip P Q xs p.1 q.1)

module _ (fromisoformat : String → Result Moment) (current_time : ℕ) (f : QueueFile) where
  -- `r` is stored and may be claimed, and none that may be claimed stands before it.
  pub record IsNext (r : QueueRecord) : Type 0 where
    pub found : get r.event_id f.records ≡ some r
    pub due : is_due fromisoformat current_time r ≡ true
    pub first :
        All
          (λ x. is_due fromisoformat current_time x ≡ true → r.queue_seq ≤ x.queue_seq)
          (values f.records)

  abbrev due_records : List QueueRecord
  due_records = keep (is_due fromisoformat current_time) (values f.records)

  -- In a well-formed queue, claim_next either finds no record that may be claimed and changes
  -- nothing, or claims the one at the least position, which it makes a processing record with one
  -- more attempt.
  pub claim_next-first :
      (utcnow : String)
      → IsWellFormed f
      → (All (λ x. is_due fromisoformat current_time x ≡ false) (values f.records)
          × (claim_next utcnow fromisoformat current_time f ≡ (none, f)))
        ⊎ ((r : QueueRecord) × IsNext r
            × (claim_next utcnow fromisoformat current_time f
                ≡ (some (claimed_record utcnow r), write r.event_id (claimed_record utcnow r) f)))
  unfolding claim_next sort_records
  claim_next-first utcnow w = go (sort_records due_records) refl
    where
      Filed : QueueRecord → Type 0
      Filed r = get r.event_id f.records ≡ some r

      both : All (λ r. Filed r × (is_due fromisoformat current_time r ≡ true)) due_records
      both =
          All-zip Filed (λ r. is_due fromisoformat current_time r ≡ true) due_records
            (keep-All Filed (is_due fromisoformat current_time) (values f.records)
              (IsWellFormed-filed f w))
            (keep-true (is_due fromisoformat current_time) (values f.records))

      go :
          (sorted : List QueueRecord)
          → sort_records due_records ≡ sorted
          → (All (λ x. is_due fromisoformat current_time x ≡ false) (values f.records)
              × (claim_first utcnow f sorted ≡ (none, f)))
            ⊎ ((r : QueueRecord) × IsNext r
                × (claim_first utcnow f sorted ≡ (
                  some (claimed_record utcnow r),
                  write r.event_id (claimed_record utcnow r) f,
                )))
      go [] e = inl (
        All-weaken (unkept (is_due fromisoformat current_time)) (values f.records) (
            keep-All_back (is_due fromisoformat current_time)
              (λ x. is_due fromisoformat current_time x ≡ false) (values f.records)
              (sort-All_back _ due_records (rw e tt))),
        refl,
      )
      go (r ∷ later) e =
          let (found, due) = (rw e at (sort-All _ due_records both)).0 in
          inr (
            r,
            record {
              found = found;
              due = due;
              first =
                  keep-All_back (is_due fromisoformat current_time) (λ x. r.queue_seq ≤ x.queue_seq)
                    (values f.records) (first-least due_records e);
            },
            refl,
          )
