-- ===== src/Outbox/Preserved.antt =====
-- Every writing method of the outbox keeps its tables well formed.
use codex_watchdog.Common.{
  ◌+◌, String, ◌≡◌, refl, ap, ◌∙◌, ◌⊎◌, inl, inr, none, some, List, [], ◌∷◌, arith, Bool-cases,
  Option-cases, Dict, get,
}
use codex_watchdog.Outbox.Records.{
  Envelope, OutboxRecord, OutboxFile, new_record, refreshed_record, refresh_existing_record,
}
use codex_watchdog.Outbox.Operations.{
  write_both, enqueue_one, enqueue_envelopes, update_delivery_record, reserve_outbox_seq,
  superseded_record, supersede_one, supersede_records, is_superseded_or_delivered,
}
use codex_watchdog.Outbox.Invariant.{IsWellFormed, replace-IsWellFormed, add-IsWellFormed}

pub refresh-some :
    (r : OutboxRecord) (e : Envelope) {x : OutboxRecord}
    → refresh_existing_record r e ≡ some x
    → x ≡ refreshed_record r e
unfolding refresh_existing_record
refresh-some r e h = ground arith

-- The three ways in which an envelope is taken in.
pub enqueue_one-cases :
    (f : OutboxFile) (e : Envelope)
    → ((get e.envelope_id f.delivery_outbox ≡ none)
        × (enqueue_one f e ≡ (
          write_both e.envelope_id
              (new_record f.next_outbox_seq e)
              (record f { next_outbox_seq = f.next_outbox_seq + 1 }),
          new_record f.next_outbox_seq e,
        )))
      ⊎ ((r : OutboxRecord) × (get e.envelope_id f.delivery_outbox ≡ some r)
          × (((refresh_existing_record r e ≡ none) × (enqueue_one f e ≡ (f, r)))
              ⊎ ((refresh_existing_record r e ≡ some (refreshed_record r e))
                  × (enqueue_one f e ≡ (
                    write_both r.envelope_id (refreshed_record r e) f,
                    refreshed_record r e,
                  )))))
unfolding enqueue_one new_record refreshed_record
enqueue_one-cases f e = elim (Option-cases (get e.envelope_id f.delivery_outbox)) [
  | inl missing ↦ inl (missing, rw (missing, enqueue_one) refl)
  | inr (r, found) ↦ inr (
    r,
    found,
    elim (Option-cases (refresh_existing_record r e)) [
      | inl kept ↦ inl (kept, rw (found, enqueue_one, kept) refl)
      | inr (x, new) ↦
          let same = refresh-some r e new in
          inr (new ∙ ap some same, rw (found, enqueue_one, new, same) refl)
    ],
  )
]

pub enqueue_one-IsWellFormed :
    (f : OutboxFile) (e : Envelope) → IsWellFormed f → IsWellFormed (enqueue_one f e).0
unfolding new_record refreshed_record
enqueue_one-IsWellFormed f e w = elim (enqueue_one-cases f e) [
  | inl (missing, done) ↦
      rw done (add-IsWellFormed f w e.envelope_id (new_record f.next_outbox_seq e) refl refl)
  | inr (r, found, inl (kept, done)) ↦ rw done w
  | inr (r, found, inr (new, done)) ↦ rw done (
      replace-IsWellFormed f w r.envelope_id (refreshed_record r e) refl r
        (ap (λ k. get k f.delivery_outbox) (w.keyed e.envelope_id r found) ∙ found) refl)
]

-- enqueue_envelopes keeps a well-formed outbox well formed: its two tables agree, records stand
-- under their own ids, and positions are distinct and below the next one.
pub enqueue_envelopes-IsWellFormed :
    (f : OutboxFile) (es : List Envelope) → IsWellFormed f → IsWellFormed (enqueue_envelopes f es).0
unfolding enqueue_envelopes
enqueue_envelopes-IsWellFormed f [] w = w
enqueue_envelopes-IsWellFormed f (e ∷ es) w =
    enqueue_envelopes-IsWellFormed (enqueue_one f e).0 es (enqueue_one-IsWellFormed f e w)

-- update_delivery_record with a copy of a stored record that keeps its id and position keeps a
-- well-formed outbox well formed.
pub update_delivery_record-IsWellFormed :
    (f : OutboxFile) (r r' : OutboxRecord)
    → IsWellFormed f
    → get r'.envelope_id f.delivery_outbox ≡ some r
    → r'.outbox_seq ≡ r.outbox_seq
    → IsWellFormed (update_delivery_record f r').0
unfolding update_delivery_record write_both
update_delivery_record-IsWellFormed f r r' w found seq =
    let v = replace-IsWellFormed f w r'.envelope_id r' refl r found seq in
    record {
      mirrored = v.mirrored;
      unique = v.unique;
      keyed = v.keyed;
      below = λ k x h. omega (arith, v.below k x h);
      distinct = v.distinct;
    }

pub reserve_outbox_seq-IsWellFormed :
    (f : OutboxFile) → IsWellFormed f → IsWellFormed (reserve_outbox_seq f).0
unfolding reserve_outbox_seq
reserve_outbox_seq-IsWellFormed f w = record {
  mirrored = w.mirrored;
  unique = w.unique;
  keyed = w.keyed;
  below = λ k x h. omega (arith, w.below k x h);
  distinct = w.distinct;
}

supersede_one-IsWellFormed :
    (updated_at k reason : String) (f : OutboxFile)
    → IsWellFormed f
    → IsWellFormed (supersede_one updated_at k reason f).0
unfolding supersede_one superseded_record
supersede_one-IsWellFormed updated_at k reason f w = elim (Option-cases (get k f.delivery_outbox)) [
  | inl missing ↦ rw (missing, supersede_one) w
  | inr (r, found) ↦ elim (Bool-cases (is_superseded_or_delivered r)) [
    | inl done ↦ rw (found, supersede_one, done) w
    | inr open' ↦
        rw (found, supersede_one, open')
          (replace-IsWellFormed f w k (superseded_record reason updated_at r) (w.keyed k r found) r
            found refl)
  ]
]

-- supersede_records keeps a well-formed outbox well formed.
pub supersede_records-IsWellFormed :
    (f : OutboxFile) (reasons : Dict String) (updated_at : String)
    → IsWellFormed f
    → IsWellFormed (supersede_records f reasons updated_at).0
unfolding supersede_records
supersede_records-IsWellFormed f [] updated_at w = w
supersede_records-IsWellFormed f ((k, reason) ∷ reasons) updated_at w =
    supersede_records-IsWellFormed (supersede_one updated_at k reason f).0 reasons updated_at
      (supersede_one-IsWellFormed updated_at k reason f w)
