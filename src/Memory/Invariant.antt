-- ===== src/Memory/Invariant.antt =====
-- What every write of memory_hub/ingest_queue.py keeps of the queue's table.
use codex_watchdog.Memory.Tables.{
  get-tail, get-head, keys-put_old, put-new, All-get, column-put_old, column-snoc, keys-snoc,
}
use codex_watchdog.Common.{
  ℕ, ◌+◌, ◌<◌, String, ◌≡◌, refl, sym, ap, ◌∙◌, inl, inr, none, some, List, [], ◌∷◌, map, arith,
  ◌==◌, eq_iff, Bool-cases, Dict, get, put, keys, values, Unique, put-Unique, All, All-append,
  All-weaken, Pairwise, Pairwise-snoc,
}
use codex_watchdog.Memory.Records.{QueueRecord, QueueFile, empty}
use codex_watchdog.Memory.Queue.{write}

pub record IsWellFormed (f : QueueFile) : Type 0 where
  pub unique : Unique f.records
  -- Records stand under their own event ids.
  pub keyed : map (λ (r : QueueRecord). r.event_id) (values f.records) ≡ keys f.records
  -- The table is in the order of the positions, which do not repeat and are below the next one.
  pub ordered :
      Pairwise (λ (m n : ℕ). m < n) (map (λ (r : QueueRecord). r.queue_seq) (values f.records))
  pub below :
      All
        (λ (n : ℕ). n < f.next_queue_seq)
        (map (λ (r : QueueRecord). r.queue_seq) (values f.records))

pub empty-IsWellFormed : IsWellFormed empty
empty-IsWellFormed = record { unique = tt; keyed = refl; ordered = tt; below = tt }

module _ (f : QueueFile) (w : IsWellFormed f) where
  pub replace-IsWellFormed :
      (k : String) (r old : QueueRecord)
      → get k f.records ≡ some old
      → r.event_id ≡ old.event_id
      → r.queue_seq ≡ old.queue_seq
      → IsWellFormed (write k r f)
  replace-IsWellFormed k r old found id seq = record {
    unique = put-Unique k r f.records w.unique;
    keyed =
        rw
          (
            column-put_old (λ (x : QueueRecord). x.event_id) k r f.records old found id,
            keys-put_old k r f.records old found,
          )
          w.keyed;
    ordered =
        rw (column-put_old (λ (x : QueueRecord). x.queue_seq) k r f.records old found seq)
          w.ordered;
    below =
        rw (column-put_old (λ (x : QueueRecord). x.queue_seq) k r f.records old found seq) w.below;
  }

  pub add-IsWellFormed :
      (k : String) (r : QueueRecord)
      → get k f.records ≡ none
      → r.event_id ≡ k
      → r.queue_seq ≡ f.next_queue_seq
      → IsWellFormed (record { next_queue_seq = f.next_queue_seq + 1; records = put k r f.records })
  add-IsWellFormed k r missing id seq = record {
    unique = put-Unique k r f.records w.unique;
    keyed =
        rw
          (
            put-new k r f.records missing,
            column-snoc (λ (x : QueueRecord). x.event_id) k r f.records,
            keys-snoc k r f.records,
            id,
            w.keyed,
          )
          refl;
    ordered =
        rw
          (
            put-new k r f.records missing,
            column-snoc (λ (x : QueueRecord). x.queue_seq) k r f.records,
            seq,
          )
          (Pairwise-snoc (λ (m n : ℕ). m < n)
            (map (λ (x : QueueRecord). x.queue_seq) (values f.records)) f.next_queue_seq w.below
            w.ordered);
    below =
        rw
          (
            put-new k r f.records missing,
            column-snoc (λ (x : QueueRecord). x.queue_seq) k r f.records,
            seq,
          )
          (All-append (λ n. n < f.next_queue_seq + 1) _ (f.next_queue_seq ∷ [])
            (All-weaken (λ n h. omega arith) _ w.below) (omega arith, tt));
  }

cons-inj : {A : Type 0} (x y : A) (xs ys : List A) → x ∷ xs ≡ y ∷ ys → (x ≡ y) × (xs ≡ ys)
cons-inj x y xs ys h = (ap (λ zs. head_or x zs) h, ap rest_of h)
  where
    head_or : {A : Type 0} → A → List A → A
    head_or a [] = a
    head_or a (z ∷ zs) = z

    rest_of : {A : Type 0} → List A → List A
    rest_of [] = []
    rest_of (z ∷ zs) = zs

-- A table whose column of ids is its keys has each record under its own id.
own_keys :
    (d : Dict QueueRecord)
    → map (λ (r : QueueRecord). r.event_id) (values d) ≡ keys d
    → All (λ e. e.1.event_id ≡ e.0) d
own_keys [] h = tt
own_keys ((k, r) ∷ d) h =
    let (first, rest) = cons-inj r.event_id k _ _ h in (first, own_keys d rest)

-- Each record is found under its event id.
filed :
    (whole d : Dict QueueRecord)
    → All (λ e. e.1.event_id ≡ e.0) d
    → All (λ e. get e.0 whole ≡ some e.1) d
    → All (λ r. get r.event_id whole ≡ some r) (values d)
filed whole [] own found = tt
filed whole ((k, r) ∷ d) own found =
    (ap (λ i. get i whole) own.0 ∙ found.0, filed whole d own.1 found.1)

pub IsWellFormed-filed :
    (f : QueueFile)
    → IsWellFormed f
    → All (λ r. get r.event_id f.records ≡ some r) (values f.records)
IsWellFormed-filed f w =
    filed f.records f.records (own_keys f.records w.keyed) (All-get f.records w.unique)

-- What is found under a key has it as its event id.
pub found-id :
    (f : QueueFile)
    → IsWellFormed f
    → (k : String) (r : QueueRecord) → get k f.records ≡ some r
    → r.event_id ≡ k
unfolding get
found-id f w k r h = own f.records (own_keys f.records w.keyed) h
  where
    own :
        (d : Dict QueueRecord) → All (λ e. e.1.event_id ≡ e.0) d → get k d ≡ some r → r.event_id ≡ k
    own [] all h = cc
    own ((j, x) ∷ d) all h = elim (Bool-cases (j == k)) [
      | inl same ↦
          ap (λ (y : QueueRecord). y.event_id) (sym (get-head k j x d r same h))
          ∙ all.0
          ∙ (eq_iff j k).0 same
      | inr other ↦ own d all.1 (get-tail k j x d r other h)
    ]
