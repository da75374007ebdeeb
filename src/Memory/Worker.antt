-- ===== src/Memory/Worker.antt =====
-- memory_hub/ingest_worker.py. `Hub` is the state of the memory hub service and `ingest` its
-- `ingest_session_event` on a dumped event: the text of the exception, if it raised one, and the
-- state that it leaves. Times count microseconds, and so does the initial backoff, which is not
-- negative; `iso_z` stands for the text of a time.
use codex_watchdog.Common.{
  ◌*◌, ℕ, zero, suc, ◌+◌, ◌-◌, max, String, Bool, true, false, Option, none, some, leb,
  if◌then◌else◌, Result, Dict,
}
use codex_watchdog.Common.Values.{Value}
use codex_watchdog.Leases.State.{Moment}
use codex_watchdog.Memory.Records.{QueueRecord, QueueFile}
use codex_watchdog.Memory.Queue.{claim_next, mark_processed, mark_failed, mark_retrying}

-- What the clock gives one round of the worker: the time that it works with, and `_utcnow()` when a
-- record is claimed and when its result is noted.
pub record Tick : Type 0 where
  pub current_time : ℕ
  pub claimed_at : String
  pub marked_at : String

-- `max(1, int(max_attempts))`, and the backoff of the first retry.
pub record Settings : Type 0 where
  pub max_attempts : ℕ
  pub initial_backoff : ℕ

abbrev pub attempts_bound : Settings → ℕ
attempts_bound s = max 1 s.max_attempts

abbrev pub pow_two : ℕ → ℕ
pow_two zero = 1
pow_two (suc n) = 2 * pow_two n

unfoldable pub backoff : Settings → (attempts : ℕ) → ℕ
backoff s attempts = s.initial_backoff * pow_two (attempts - 1)

module _ (fromisoformat : String → Result Moment) (iso_z : ℕ → String) {Hub : Type 0}
    (ingest : Hub → Dict Value → Option String × Hub) (s : Settings) where
  -- The result of ingesting a claimed record, noted in the queue.
  unfoldable pub note_result : Tick → QueueRecord → Option String → QueueFile → QueueFile
  unfolding backoff mark_processed mark_failed mark_retrying
  note_result t r none f = (mark_processed t.marked_at r.event_id f).1
  note_result t r (some detail) f =
      if leb (attempts_bound s) r.attempts
      then (mark_failed t.marked_at r.event_id "memory_ingest_failed" (some detail) f).1
      else (mark_retrying t.marked_at r.event_id (iso_z (t.current_time + backoff s r.attempts))
          "memory_ingest_retrying" (some detail) f).1

  -- The rest of a round, after the claim.
  unfoldable pub work_on : Tick → Hub → Option QueueRecord × QueueFile → Bool × QueueFile × Hub
  unfolding note_result
  work_on t hub (none, f) = (false, f, hub)
  work_on t hub (some r, f) =
      let answer = ingest hub r.event_payload in (true, note_result t r answer.0 f, answer.1)

  unfoldable pub process_next : Tick → QueueFile × Hub → Bool × QueueFile × Hub
  unfolding claim_next work_on
  process_next t (f, hub) = work_on t hub (claim_next t.claimed_at fromisoformat t.current_time f)

  abbrev pub reached : (limit : Option ℕ) (done : ℕ) → Bool
  reached none done = false
  reached (some limit) done = leb limit done

  -- `drain_all`, from its `processed = done`: `none` when the fuel is used up. `clock` gives the ticks
  -- of the rounds; it is constant in its time when `now` is given.
  unfoldable pub drain_all :
      (clock : ℕ → Tick)
      → (limit : Option ℕ) (fuel done : ℕ) → QueueFile × Hub
      → Option (ℕ × QueueFile × Hub)
  unfolding process_next
  drain_all clock limit zero done state = none
  drain_all clock limit (suc fuel) done state =
      let round = process_next (clock done) state in
      let rest = drain_all clock limit fuel (done + 1) (round.1, round.2) in
      if reached limit done
      then some (done, state.0, state.1)
      else if round.0
      then rest
      else some (done, round.1, round.2)
