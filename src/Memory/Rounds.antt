-- ===== src/Memory/Rounds.antt =====
-- One round of the worker of memory_hub/ingest_worker.py.
use codex_watchdog.Common.{
  ℕ, ◌+◌, String, ◌≡◌, refl, ap, ◌∙◌, ◌⊎◌, inl, inr, true, false, Option, none, some, leb,
  if◌then◌else◌, Bool-cases, Result, Dict, values, get-put_self, All,
}
use codex_watchdog.Common.Values.{Value}
use codex_watchdog.Leases.State.{Moment}
use codex_watchdog.Memory.Records.{QueueRecord, QueueFile, is_due}
use codex_watchdog.Memory.Queue.{
  write, claimed_record, processed_record, failed_record, retrying_record, mark, mark_processed,
  mark_failed, mark_retrying,
}
use codex_watchdog.Memory.Worker.{
  Tick, Settings, attempts_bound, backoff, note_result, work_on, process_next,
}
use codex_watchdog.Memory.Tables.{put-put}
use codex_watchdog.Memory.Invariant.{IsWellFormed, replace-IsWellFormed}
use codex_watchdog.Memory.Claims.{IsNext, claim_next-first}

-- What no result changes of a record.
pub record Keeps (r r' : QueueRecord) : Type 0 where
  pub event_id : r'.event_id ≡ r.event_id
  pub queue_seq : r'.queue_seq ≡ r.queue_seq
  pub event_payload : r'.event_payload ≡ r.event_payload

-- `mark` of a record that was just written writes once.
mark-write :
    (utcnow : String) (update : QueueRecord → QueueRecord) (k : String) (c : QueueRecord)
    (f : QueueFile)
    → (mark utcnow update k (write k c f)).1 ≡ write k (update c) f
unfolding mark
mark-write utcnow update k c f =
    rw (mark, get-put_self k c f.records, put-put k c (update c) f.records) refl

module _ (fromisoformat : String → Result Moment) (iso_z : ℕ → String) {Hub : Type 0}
    (ingest : Hub → Dict Value → Option String × Hub) (s : Settings) where
  -- What becomes of a claimed record, by the answer of the memory hub.
  abbrev pub settled : Tick → Option String → QueueRecord → QueueRecord
  settled t none c = processed_record t.marked_at c
  settled t (some detail) c =
      if leb (attempts_bound s) c.attempts
      then failed_record t.marked_at "memory_ingest_failed" (some detail) c
      else retrying_record t.marked_at (iso_z (t.current_time + backoff s c.attempts))
          "memory_ingest_retrying" (some detail) c

  note_result-settled :
      (t : Tick) (answer : Option String) (c : QueueRecord) (f : QueueFile)
      → note_result fromisoformat iso_z ingest s t c answer (write c.event_id c f)
        ≡ write c.event_id (settled t answer c) f
  unfolding note_result mark_processed mark_failed mark_retrying
  note_result-settled t none c f =
      mark-write t.marked_at (processed_record t.marked_at) c.event_id c f
  note_result-settled t (some detail) c f = elim (Bool-cases (leb (attempts_bound s) c.attempts)) [
    | inl last ↦ rw (note_result, last) (mark-write t.marked_at _ c.event_id c f)
    | inr more ↦ rw (note_result, more) (mark-write t.marked_at _ c.event_id c f)
  ]

  -- The record that a round on `r` leaves.
  abbrev pub after_round : Tick → Hub → QueueRecord → QueueRecord
  after_round t hub r = settled t (ingest hub r.event_payload).0 (claimed_record t.claimed_at r)

  -- A round of the worker in a well-formed queue: nothing is due and nothing changes, or the first
  -- record that may be claimed is replaced by what the round leaves of it.
  pub process_next-round :
      (t : Tick) (f : QueueFile) (hub : Hub)
      → IsWellFormed f
      → (All (λ x. is_due fromisoformat t.current_time x ≡ false) (values f.records)
          × (process_next fromisoformat iso_z ingest s t (f, hub) ≡ (false, f, hub)))
        ⊎ ((r : QueueRecord) × IsNext fromisoformat t.current_time f r
            × (process_next fromisoformat iso_z ingest s t (f, hub)
                ≡ (true, write r.event_id (after_round t hub r) f, (ingest hub r.event_payload).1)))
  unfolding process_next work_on
  process_next-round t f hub w =
      elim (claim_next-first fromisoformat t.current_time f t.claimed_at w) [
        | inl (idle, nothing) ↦ inl (idle, ap (work_on fromisoformat iso_z ingest s t hub) nothing)
        | inr (r, next, claimed) ↦ inr (
          r,
          next,
          ap (work_on fromisoformat iso_z ingest s t hub) claimed
              ∙ ap (λ g. (true, g, (ingest hub r.event_payload).1))
                  (note_result-settled t (ingest hub r.event_payload).0
                    (claimed_record t.claimed_at r) f),
        )
      ]

  pub after_round-Keeps : (t : Tick) (hub : Hub) (r : QueueRecord) → Keeps r (after_round t hub r)
  after_round-Keeps t hub r = go (ingest hub r.event_payload).0
    where
      go : (answer : Option String) → Keeps r (settled t answer (claimed_record t.claimed_at r))
      go none = record { event_id = refl; queue_seq = refl; event_payload = refl }
      go (some detail) = elim (Bool-cases (leb (attempts_bound s) (r.attempts + 1))) [
        | inl last ↦ rw last (record { event_id = refl; queue_seq = refl; event_payload = refl })
        | inr more ↦ rw more (record { event_id = refl; queue_seq = refl; event_payload = refl })
      ]

  pub process_next-IsWellFormed :
      (t : Tick) (f : QueueFile) (hub : Hub)
      → IsWellFormed f
      → IsWellFormed (process_next fromisoformat iso_z ingest s t (f, hub)).1
  process_next-IsWellFormed t f hub w = elim (process_next-round t f hub w) [
    | inl (idle, same) ↦ rw same w
    | inr (r, next, done) ↦
        let keeps = after_round-Keeps t hub r in
        rw done (
          replace-IsWellFormed f w r.event_id (after_round t hub r) r next.found keeps.event_id
            keeps.queue_seq)
  ]
