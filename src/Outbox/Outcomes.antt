-- ===== src/Outbox/Outcomes.antt =====
-- What `requeue_transport_failures` and `supersede_records` leave of a record, entry by entry.
use codex_watchdog.Common.{
  Unique, Dict, get, ◌∙◌, sym, Option, ◌++◌, none, some, [], ◌==◌, List, true, ◌∷◌, String, ◌≡◌,
  refl, inl, inr, ◌↔◌, ◌⊎◌, Bool-cases, eq_iff,
}
use mathlib.Core.Path.{subst}
use codex_watchdog.Common.Texts.{format}
use codex_watchdog.Outbox.Records.{OutboxRecord, OutboxFile}
use codex_watchdog.Outbox.Operations.{
  requeued_record, is_requeueable, requeue_transport_failures, superseded_record, supersede_records,
  is_superseded_or_delivered,
}
use codex_watchdog.Outbox.Invariant.{IsWellFormed}
use codex_watchdog.Outbox.Transport.{
  TransportCode, TransportFailed, is_requeueable-TransportFailed, some_code, true-false, some-inj,
}
use codex_watchdog.Outbox.Updates.{
  requeue_transport_failures-get, supersede_records-get, after_requeue, after_supersede,
}

-- The answers of a server after which another delivery may succeed.
abbrev retry_statuses : List String
retry_statuses = "408" ∷ "409" ∷ "425" ∷ "429" ∷ "500" ∷ "502" ∷ "503" ∷ "504" ∷ []

-- What two versions of a record share, whatever the fields that a new delivery sets.
abbrev SameOtherwise : OutboxRecord → OutboxRecord → Type 0
SameOtherwise r r' =
    record r' {
      delivery_status = r.delivery_status;
      delivery_attempt = r.delivery_attempt;
      failure_code = r.failure_code;
      next_retry_at = r.next_retry_at;
      operator_notes = r.operator_notes;
      updated_at = r.updated_at;
    }
    ≡ r

pub record Requeued (reason updated_at : String) (r r' : OutboxRecord) : Type 0 where
  pub status : r'.delivery_status ≡ "pending"
  pub attempt : r'.delivery_attempt ≡ 0
  pub code : r'.failure_code ≡ none
  pub retry : r'.next_retry_at ≡ none
  pub updated : r'.updated_at ≡ some updated_at
  pub notes :
      (old : String)
      → r.failure_code ≡ some old
      → r'.operator_notes
        ≡ r.operator_notes
          ++ format
              ("delivery_requeued " ∷ "reason=" ∷ reason ∷ " previous_failure_code=" ∷ old ∷ [])
            ∷ []
  pub rest : SameOtherwise r r'

requeued_record-Requeued :
    (reason updated_at : String) (r : OutboxRecord)
    → TransportFailed r
    → Requeued reason updated_at r (requeued_record reason updated_at r)
unfolding requeued_record
requeued_record-Requeued reason updated_at r (failed, (code, e, transport)) = record {
  status = refl;
  attempt = refl;
  code = refl;
  retry = refl;
  updated = refl;
  notes = λ old found.
      rw (found, some_code old (subst TransportCode (some-inj (sym e ∙ found)) transport)) refl;
  rest = refl;
}

-- What a requeue leaves of an entry.
abbrev pub RequeueOutcome :
    (reason updated_at : String) → Option OutboxRecord → Option OutboxRecord → Type 0
RequeueOutcome reason updated_at none o = o ≡ none
RequeueOutcome reason updated_at (some r) o =
    (TransportFailed r × ((r' : OutboxRecord) × (o ≡ some r') × Requeued reason updated_at r r'))
    ⊎ ((TransportFailed r → ⊥) × (o ≡ some r))

requeue-Outcome :
    (reason updated_at : String) (o : Option OutboxRecord)
    → RequeueOutcome reason updated_at o (after_requeue reason updated_at o o)
requeue-Outcome reason updated_at none = refl
requeue-Outcome reason updated_at (some r) = elim (Bool-cases (is_requeueable r)) [
  | inl on ↦
      let failed = (is_requeueable-TransportFailed r).0 on in
      rw on (
        inl (
          failed,
          (
            requeued_record reason updated_at r,
            refl,
            requeued_record-Requeued reason updated_at r failed,
          ),
        ))
  | inr off ↦
      rw off (
        inr (λ failed. absurd (true-false ((is_requeueable-TransportFailed r).1 failed) off), refl))
]

-- In a well-formed outbox, requeue_transport_failures changes exactly the records whose delivery
-- failed with a transport code (one of three names, http_ with one of eight statuses, or upstream_
-- with anything): such a record becomes pending with no attempts, no failure code and no next
-- time, has a note with the reason and the old code after its others, and keeps every other field.
-- Every other entry stays as it was.
pub requeue_transport_failures-Outcome :
    (reason updated_at : String) (f : OutboxFile) (k : String)
    → IsWellFormed f
    → RequeueOutcome reason updated_at
        (get k f.delivery_outbox)
        (get k (requeue_transport_failures f reason updated_at).0.delivery_outbox)
requeue_transport_failures-Outcome reason updated_at f k w =
    rw (requeue_transport_failures-get reason updated_at f k w)
      (requeue-Outcome reason updated_at (get k f.delivery_outbox))

-- A record that is superseded, with a reason.
pub record Superseded (reason updated_at : String) (r r' : OutboxRecord) : Type 0 where
  pub status : r'.delivery_status ≡ "superseded"
  pub attempt : r'.delivery_attempt ≡ r.delivery_attempt
  pub code : r'.failure_code ≡ none
  pub retry : r'.next_retry_at ≡ none
  pub updated : r'.updated_at ≡ some updated_at
  pub notes :
      r'.operator_notes
      ≡ r.operator_notes ++ format ("delivery_superseded reason=" ∷ reason ∷ []) ∷ []
  pub rest : SameOtherwise r r'

-- A record that no request supersedes.
abbrev pub Closed : OutboxRecord → Type 0
Closed r = (r.delivery_status ≡ "delivered") ⊎ (r.delivery_status ≡ "superseded")

-- What a request leaves of an entry, by the reason that it names for it.
abbrev pub SupersedeOutcome :
    (updated_at : String) → Option String → Option OutboxRecord → Option OutboxRecord → Type 0
SupersedeOutcome updated_at none o o' = o' ≡ o
SupersedeOutcome updated_at (some reason) none o' = o' ≡ none
SupersedeOutcome updated_at (some reason) (some r) o' =
    (Closed r × (o' ≡ some r))
    ⊎ ((Closed r → ⊥) × ((r' : OutboxRecord) × (o' ≡ some r') × Superseded reason updated_at r r'))

Closed-iff : (r : OutboxRecord) → (is_superseded_or_delivered r ≡ true) ↔ Closed r
Closed-iff r = (
  λ h. elim (Bool-cases (r.delivery_status == "delivered")) [
    | inl sent ↦ inl ((eq_iff r.delivery_status "delivered").0 sent)
    | inr other ↦ inr ((eq_iff r.delivery_status "superseded").0 (rw other at h))
  ],
  elim [ inl sent ↦ rw sent refl | inr old ↦ rw old refl ],
)

supersede-Outcome :
    (updated_at : String) (named : Option String) (o : Option OutboxRecord)
    → SupersedeOutcome updated_at named o (after_supersede updated_at named o)
unfolding superseded_record
supersede-Outcome updated_at none o = refl
supersede-Outcome updated_at (some reason) none = refl
supersede-Outcome updated_at (some reason) (some r) =
    elim (Bool-cases (is_superseded_or_delivered r)) [
      | inl closed ↦ rw closed (inl ((Closed-iff r).0 closed, refl))
      | inr open' ↦ rw open' (
          inr (
            λ closed. absurd (true-false ((Closed-iff r).1 closed) open'),
            (
              superseded_record reason updated_at r,
              refl,
              record {
                status = refl;
                attempt = refl;
                code = refl;
                retry = refl;
                updated = refl;
                notes = refl;
                rest = refl;
              },
            ),
          ))
    ]

-- supersede_records, asked with distinct envelope ids, changes exactly the named records that are
-- neither delivered nor superseded: such a record becomes superseded, with no failure code and no
-- next time, has a note with its own reason after its others, and keeps every other field. Every
-- other entry stays as it was.
pub supersede_records-Outcome :
    (updated_at : String) (reasons : Dict String) (f : OutboxFile) (k : String)
    → Unique reasons
    → SupersedeOutcome updated_at
        (get k reasons)
        (get k f.delivery_outbox)
        (get k (supersede_records f reasons updated_at).0.delivery_outbox)
supersede_records-Outcome updated_at reasons f k u =
    rw (supersede_records-get updated_at reasons f k u)
      (supersede-Outcome updated_at (get k reasons) (get k f.delivery_outbox))
