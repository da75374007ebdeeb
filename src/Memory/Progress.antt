-- ===== src/Memory/Progress.antt =====
-- How the single writes of memory_hub/ingest_queue.py move the queue's records on.
use codex_watchdog.Common.{
  ℕ, ◌+◌, ◌≤◌, String, ◌≡◌, refl, sym, ap, ◌∙◌, inl, inr, Bool, true, false, none, some, [], ◌∷◌,
  arith, ◌==◌, eq_iff, if◌then◌else◌, Bool-cases, Result, Dict, get, put, get-put, get-put_ne,
  Unique, All,
}
use codex_watchdog.Leases.State.{Moment}
use codex_watchdog.Memory.Records.{
  QueueRecord, QueueFile, QueueStatus, pending, retrying, processing, processed, failed, is_due,
  is_processing,
}
use codex_watchdog.Memory.Queue.{write, recovered_record, recover_items, recover_inflight}
use codex_watchdog.Memory.Invariant.{IsWellFormed, replace-IsWellFormed, add-IsWellFormed}
use codex_watchdog.Memory.Tables.{All-get}
use codex_watchdog.Memory.Rounds.{Keeps}

abbrev pub is_final : QueueStatus → Bool
is_final processed = true
is_final failed = true
is_final _ = false

-- A record that may be tried again has one attempt less than it may have made in the end.
abbrev pub cost : QueueRecord → ℕ
cost r = if is_final r.status then r.attempts else r.attempts + 1

-- What time does to a record.
pub record Progress (r r' : QueueRecord) : Type 0 where
  pub keeps : Keeps r r'
  pub attempts : r.attempts ≤ r'.attempts
  pub final : is_final r.status ≡ true → r' ≡ r

pub Progress-refl : (r : QueueRecord) → Progress r r
Progress-refl r = record {
  keeps = record { event_id = refl; queue_seq = refl; event_payload = refl };
  attempts = omega arith;
  final = λ h. refl;
}

pub Progress-trans : {a b c : QueueRecord} → Progress a b → Progress b c → Progress a c
Progress-trans {a} {b} {c} p q = record {
  keeps = record {
    event_id = q.keeps.event_id ∙ p.keeps.event_id;
    queue_seq = q.keeps.queue_seq ∙ p.keeps.queue_seq;
    event_payload = q.keeps.event_payload ∙ p.keeps.event_payload;
  };
  attempts = omega (arith, p.attempts, q.attempts);
  final = λ h. q.final (ap (λ (x : QueueRecord). is_final x.status) (p.final h) ∙ h) ∙ p.final h;
}

-- No record has cost more than `bound`.
abbrev pub Within : ℕ → QueueFile → Type 0
Within bound f = (k : String) (r : QueueRecord) → get k f.records ≡ some r → cost r ≤ bound

-- `g` has every record of `f`, further on, and is in order.
pub record Advance (bound : ℕ) (f g : QueueFile) : Type 0 where
  pub well_formed : IsWellFormed g
  pub within : Within bound g
  pub kept :
      (k : String) (r : QueueRecord)
      → get k f.records ≡ some r
      → (r' : QueueRecord) × (get k g.records ≡ some r') × Progress r r'

pub Advance-refl : (bound : ℕ) (f : QueueFile) → IsWellFormed f → Within bound f → Advance bound f f
Advance-refl bound f w within = record {
  well_formed = w;
  within = within;
  kept = λ k r h. (r, h, Progress-refl r);
}

pub Advance-trans : {b c : ℕ} {f g h : QueueFile} → Advance b f g → Advance c g h → Advance c f h
Advance-trans {b} {c} {f} {g} {h} a a' = record {
  well_formed = a'.well_formed;
  within = a'.within;
  kept = λ k r found.
      let (r1, found1, p1) = a.kept k r found in
      let (r2, found2, p2) = a'.kept k r1 found1 in (r2, found2, Progress-trans p1 p2);
}

some-inj : {A : Type 0} {x y : A} → some x ≡ some y → x ≡ y
some-inj h = ground arith

module _ (b b' : ℕ) (f : QueueFile) (w : IsWellFormed f) (within : Within b f) (le : b ≤ b') where
  -- A record that is not final is replaced by one that is further on.
  pub write-Advance :
      (k : String) (r r' : QueueRecord)
      → get k f.records ≡ some r
      → Progress r r'
      → cost r' ≤ b'
      → Advance b' f (write k r' f)
  write-Advance k r r' found p affordable = record {
    well_formed = replace-IsWellFormed f w k r' r found p.keeps.event_id p.keeps.queue_seq;
    within = λ j x h. elim (Bool-cases (k == j)) [
      | inl same ↦ new_cost j x h same
      | inr other ↦ old_cost j x (sym (get-put_ne k j r' f.records other) ∙ h)
    ];
    kept = λ j x h. elim (Bool-cases (k == j)) [
      | inl same ↦ (r', get-put k j r' f.records ∙ rw same refl, same_record j x h same)
      | inr other ↦ (x, get-put_ne k j r' f.records other ∙ h, Progress-refl x)
    ];
  }
    where
      old_cost : (j : String) (x : QueueRecord) → get j f.records ≡ some x → cost x ≤ b'
      old_cost j x h = omega (arith, within j x h, le)

      new_cost :
          (j : String) (x : QueueRecord)
          → get j (put k r' f.records) ≡ some x
          → (k == j) ≡ true
          → cost x ≤ b'
      new_cost j x h same =
          let here : get j (put k r' f.records) ≡ some r' =
            get-put k j r' f.records ∙ rw same refl in
          let equal : r' ≡ x = some-inj (sym here ∙ h) in omega (arith, affordable, ap cost equal)

      same_record :
          (j : String) (x : QueueRecord)
          → get j f.records ≡ some x
          → (k == j) ≡ true
          → Progress x r'
      same_record j x h same =
          rw (← (some-inj (sym found ∙ ap (λ i. get i f.records) ((eq_iff k j).0 same) ∙ h))) p

-- A new event takes nothing from the others.
pub add-Advance :
    (b : ℕ) (f : QueueFile)
    → IsWellFormed f
    → Within b f
    → (k : String) (r : QueueRecord) → get k f.records ≡ none
    → r.event_id ≡ k
    → r.queue_seq ≡ f.next_queue_seq
    → cost r ≤ b
    → Advance b f (record { next_queue_seq = f.next_queue_seq + 1; records = put k r f.records })
add-Advance b f w within k r missing id seq affordable = record {
  well_formed = add-IsWellFormed f w k r missing id seq;
  within = λ j x h. elim (Bool-cases (k == j)) [
    | inl same ↦
        let here : get j (put k r f.records) ≡ some r = get-put k j r f.records ∙ rw same refl in
        let equal : r ≡ x = some-inj (sym here ∙ h) in omega (arith, affordable, ap cost equal)
    | inr other ↦ within j x (sym (get-put_ne k j r f.records other) ∙ h)
  ];
  kept = λ j x h. elim (Bool-cases (k == j)) [
    | inl same ↦
        let found : get k f.records ≡ some x =
          ap (λ i. get i f.records) ((eq_iff k j).0 same) ∙ h in
        cc
    | inr other ↦ (x, get-put_ne k j r f.records other ∙ h, Progress-refl x)
  ];
}

-- A record that may be claimed is not final.
pub due-open :
    (fromisoformat : String → Result Moment) (now : ℕ) (r : QueueRecord)
    → is_due fromisoformat now r ≡ true
    → is_final r.status ≡ false
unfolding is_due
due-open fromisoformat now r due = go r.status refl
  where
    go : (status : QueueStatus) → r.status ≡ status → is_final status ≡ false
    go pending e = refl
    go retrying e = refl
    go processing e = refl
    go processed e = let clash : false ≡ true = (rw (is_due, e) at due) in cc
    go failed e = let clash : false ≡ true = (rw (is_due, e) at due) in cc

pub open-Progress :
    {r r' : QueueRecord}
    → Keeps r r'
    → r.attempts ≤ r'.attempts
    → is_final r.status ≡ false
    → Progress r r'
open-Progress keeps attempts not_final = record {
  keeps = keeps;
  attempts = attempts;
  final = λ h. cc;
}

processing-open : (status : QueueStatus) → is_processing status ≡ true → is_final status ≡ false
processing-open processing h = refl
processing-open pending h = refl
processing-open retrying h = refl
processing-open processed h = cc
processing-open failed h = cc

-- A key that a table has not is none of its entries' keys.
absent : (k : String) (d : Dict QueueRecord) → get k d ≡ none → All (λ e. (k == e.0) ≡ false) d
unfolding get
absent k [] h = tt
absent k ((j, r) ∷ d) h = elim (Bool-cases (j == k)) [
  | inl same ↦ cc
  | inr other ↦ (ground (arith, eq_iff j k, eq_iff k j), absent k d (rw (get, other) at h))
]

still_stored :
    (k : String) (r : QueueRecord) (whole d : Dict QueueRecord)
    → All (λ e. (k == e.0) ≡ false) d
    → All (λ e. get e.0 whole ≡ some e.1) d
    → All (λ e. get e.0 (put k r whole) ≡ some e.1) d
still_stored k r whole [] a h = tt
still_stored k r whole ((j, x) ∷ d) a h =
    (get-put_ne k j r whole a.0 ∙ h.0, still_stored k r whole d a.1 h.1)

pub cost-open : (r : QueueRecord) → is_final r.status ≡ false → cost r ≡ r.attempts + 1
cost-open r not_final = rw not_final refl

module _ (utcnow : String) (b : ℕ) where
  recover_items-Advance :
      (entries : Dict QueueRecord) (f : QueueFile)
      → IsWellFormed f
      → Within b f
      → Unique entries
      → All (λ e. get e.0 f.records ≡ some e.1) entries
      → Advance b f (recover_items utcnow entries f).1
  unfolding recover_items
  recover_items-Advance [] f w within unique stored = Advance-refl b f w within
  recover_items-Advance ((k, r) ∷ entries) f w within unique stored =
      elim (Bool-cases (is_processing r.status)) [
        | inr idle ↦
            rw (recover_items, idle) (recover_items-Advance entries f w within unique.1 stored.1)
        | inl busy ↦
            let not_final = processing-open r.status busy in
            let first =
              write-Advance b b f w within (omega arith) k r (recovered_record utcnow r) stored.0
                (open-Progress (record { event_id = refl; queue_seq = refl; event_payload = refl })
                  (omega arith) not_final)
                (omega (arith, within k r stored.0, cost-open r not_final)) in
            rw (recover_items, busy)
              (Advance-trans first (
                recover_items-Advance entries (write k (recovered_record utcnow r) f)
                  first.well_formed first.within unique.1
                  (still_stored k (recovered_record utcnow r) f.records entries
                    (absent k entries unique.0) stored.1)))
      ]

  pub recover_inflight-Advance :
      (f : QueueFile) → IsWellFormed f → Within b f → Advance b f (recover_inflight utcnow f).1
  unfolding recover_inflight
  recover_inflight-Advance f w within =
      recover_items-Advance f.records f w within w.unique (All-get f.records w.unique)
