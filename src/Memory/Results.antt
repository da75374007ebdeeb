-- ===== src/Memory/Results.antt =====
-- What a round of the worker of memory_hub/ingest_worker.py notes of its record, field by field.
use codex_watchdog.Common.{
  ℕ, suc, zero, ◌+◌, ◌*◌, ◌≤◌, ◌<◌, max, String, ◌≡◌, refl, ap, ◌∙◌, ◌⊎◌, inl, inr, true, false,
  Option, none, some, leb, arith, Bool-cases, Result, Dict, values, All,
}
use Prim.Native.Nat.{◌^◌, ◌-◌}
use codex_watchdog.Common.Values.{Value}
use codex_watchdog.Leases.State.{Moment}
use codex_watchdog.Memory.Records.{
  QueueRecord, QueueFile, QueueStatus, processed, failed, retrying, is_due,
}
use codex_watchdog.Memory.Queue.{write, claimed_record}
use codex_watchdog.Memory.Worker.{Tick, Settings, attempts_bound, pow_two, backoff, process_next}
use codex_watchdog.Memory.Invariant.{IsWellFormed}
use codex_watchdog.Memory.Claims.{IsNext}
use codex_watchdog.Memory.Rounds.{settled, after_round, process_next-round}
use Prim.Native.Nat.pow as Pow

-- The outcome of a record: its status, its failure, and when it is tried again.
pub record Noted (status : QueueStatus) (code detail retry : Option String) (r : QueueRecord)
    : Type 0 where
  pub status_noted : r.status ≡ status
  pub code_noted : r.failure_code ≡ code
  pub detail_noted : r.failure_detail ≡ detail
  pub retry_noted : r.next_retry_at ≡ retry

-- One more attempt, at a time, and nothing else that a round does not note.
pub record Tried (marked_at : String) (r r' : QueueRecord) : Type 0 where
  pub attempts : r'.attempts ≡ r.attempts + 1
  pub updated : r'.updated_at ≡ marked_at
  pub rest :
      record r' {
        attempts = r.attempts;
        status = r.status;
        failure_code = r.failure_code;
        failure_detail = r.failure_detail;
        next_retry_at = r.next_retry_at;
        updated_at = r.updated_at;
      }
      ≡ r

pow_suc : (n : ℕ) → 2 ^ suc n ≡ 2 ^ n * 2
pow_suc n = λ i. Pow.suc 2 n i

pow_two-pow : (n : ℕ) → pow_two n ≡ 2 ^ n
pow_two-pow zero = refl
pow_two-pow (suc n) = rw (pow_two-pow n, pow_suc n) (double (2 ^ n))
  where
    double : (m : ℕ) → 2 * m ≡ m * 2
    double m = omega arith

-- The backoff after the attempt that follows `n` others.
backoff-pow : (s : Settings) (n : ℕ) → backoff s (n + 1) ≡ s.initial_backoff * 2 ^ n
unfolding backoff
backoff-pow s n = ap (λ m. s.initial_backoff * m) (ap pow_two (pred n) ∙ pow_two-pow n)
  where
    pred : (n : ℕ) → n + 1 - 1 ≡ n
    pred n = omega arith

module _ (fromisoformat : String → Result Moment) (iso_z : ℕ → String) {Hub : Type 0}
    (ingest : Hub → Dict Value → Option String × Hub) (s : Settings) where
  -- The outcome that the hub's answer asks for.
  abbrev pub AnswerNoted : Tick → (r : QueueRecord) → Option String → QueueRecord → Type 0
  AnswerNoted t r none r' = Noted processed none none none r'
  AnswerNoted t r (some detail) r' =
      ((max 1 s.max_attempts ≤ r.attempts + 1)
        × Noted failed (some "memory_ingest_failed") (some detail) none r')
      ⊎ ((r.attempts + 1 < max 1 s.max_attempts)
          × Noted retrying (some "memory_ingest_retrying") (some detail)
              (some (iso_z (t.current_time + s.initial_backoff * 2 ^ r.attempts))) r')

  settled-Noted :
      (t : Tick) (answer : Option String) (r : QueueRecord)
      → AnswerNoted t r answer
          (settled fromisoformat iso_z ingest s t answer (claimed_record t.claimed_at r))
  settled-Noted t none r = record {
    status_noted = refl;
    code_noted = refl;
    detail_noted = refl;
    retry_noted = refl;
  }
  settled-Noted t (some detail) r = elim (Bool-cases (leb (attempts_bound s) (r.attempts + 1))) [
    | inl last ↦ rw last (
        inl (
          ground (arith, last),
          record {
            status_noted = refl;
            code_noted = refl;
            detail_noted = refl;
            retry_noted = refl;
          },
        ))
    | inr more ↦ rw more (
        inr (
          ground (arith, more),
          record {
            status_noted = refl;
            code_noted = refl;
            detail_noted = refl;
            retry_noted = ap (λ n. some (iso_z (t.current_time + n))) (backoff-pow s r.attempts);
          },
        ))
  ]

  settled-Tried :
      (t : Tick) (answer : Option String) (r : QueueRecord)
      → Tried t.marked_at r
          (settled fromisoformat iso_z ingest s t answer (claimed_record t.claimed_at r))
  settled-Tried t none r = record { attempts = refl; updated = refl; rest = refl }
  settled-Tried t (some detail) r = elim (Bool-cases (leb (attempts_bound s) (r.attempts + 1))) [
    | inl last ↦ rw last (record { attempts = refl; updated = refl; rest = refl })
    | inr more ↦ rw more (record { attempts = refl; updated = refl; rest = refl })
  ]

  -- In a well-formed queue a round of the worker returns false and changes nothing when no record
  -- may be claimed. Otherwise it hands the first record that may be claimed to the memory hub
  -- once, returns true, and changes that record alone: it has one more attempt, and it is
  -- processed, with no failure, if the hub took it; failed with memory_ingest_failed and the hub's
  -- message if the attempts have reached their bound; and else retrying, with the hub's message
  -- and a next time that lies the initial backoff times two to the power of the attempts before
  -- this one after the round's.
  pub process_next-Noted :
      (t : Tick) (f : QueueFile) (hub : Hub)
      → IsWellFormed f
      → (All (λ x. is_due fromisoformat t.current_time x ≡ false) (values f.records)
          × (process_next fromisoformat iso_z ingest s t (f, hub) ≡ (false, f, hub)))
        ⊎ ((r : QueueRecord) × (r' : QueueRecord) × IsNext fromisoformat t.current_time f r
            × (process_next fromisoformat iso_z ingest s t (f, hub)
                ≡ (true, write r.event_id r' f, (ingest hub r.event_payload).1))
            × Tried t.marked_at r r'
            × AnswerNoted t r (ingest hub r.event_payload).0 r')
  process_next-Noted t f hub w = elim (process_next-round fromisoformat iso_z ingest s t f hub w) [
    | inl idle ↦ inl idle
    | inr (r, next, done) ↦ inr (
      r,
      after_round fromisoformat iso_z ingest s t hub r,
      next,
      done,
      settled-Tried t (ingest hub r.event_payload).0 r,
      settled-Noted t (ingest hub r.event_payload).0 r,
    )
  ]
