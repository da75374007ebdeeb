-- ===== src/Memory/Tests.antt =====
-- The theorems on the memory queue, applied to a queue with one event. The hub of these tests counts
-- the events that it was handed, and refuses each.
use codex_watchdog.Common.{
  ℕ, suc, ◌+◌, ◌≤◌, ◌<◌, String, ◌≡◌, refl, ◌⊎◌, true, false, Option, none, some, List, [], ◌∷◌,
  arith, value_error, Result, raise, Dict, get, put, values, All,
}
use codex_watchdog.Common.Values.{Value}
use codex_watchdog.Session.Records.{SessionEvent}
use codex_watchdog.Leases.State.{Moment}
use codex_watchdog.Memory.Records.{QueueRecord, QueueFile, empty, is_due}
use codex_watchdog.Memory.Queue.{write, enqueue_event, new_record}
use codex_watchdog.Memory.Worker.{Tick, Settings, attempts_bound, process_next, drain_all, reached}
use codex_watchdog.Memory.Invariant.{IsWellFormed}
use codex_watchdog.Memory.Claims.{IsNext}
use codex_watchdog.Memory.Results.{Tried, AnswerNoted, process_next-Noted}
use codex_watchdog.Memory.Drain.{work, Rests, drain_all-ends}
use codex_watchdog.Memory.Progress.{Progress}
use codex_watchdog.Memory.Calls.{
  Happening, comes_in, round, cut_off, starts_again, happen, happen_all,
}
use codex_watchdog.Memory.History.{
  queue_after, queue_after-IsWellFormed, attempts_bounded, nothing_lost,
}

abbrev no_dump : SessionEvent → Dict Value
no_dump e = []

-- No text is a time.
abbrev unreadable : String → Result Moment
unreadable s = raise (value_error "Invalid isoformat string")

abbrev epoch : ℕ → String
epoch n = "1970-01-01T00:00:00Z"

abbrev refusing : ℕ → Dict Value → Option String × ℕ
refusing n payload = (some "refused", n + 1)

abbrev twice_at_most : Settings
twice_at_most = record { max_attempts = 2; initial_backoff = 5000000 }

abbrev tick : Tick
tick = record {
  current_time = 0;
  claimed_at = "1970-01-01T00:00:00Z";
  marked_at = "1970-01-01T00:00:00Z";
}

abbrev note : SessionEvent
note = record {
  event_id = "event:1";
  project_id = "repo-a";
  session_id = "session:repo-a";
  event_type = "command_created";
  occurred_at = "1970-01-01T00:00:00Z";
  causation_id = none;
  correlation_id = "corr:1";
  idempotency_key = "idem:event:1";
  related_ids = [];
  payload = [];
  log_seq = none;
}

abbrev arrival : List (Happening ℕ)
arrival = comes_in "1970-01-01T00:00:00Z" note ∷ []

abbrev interruption : List (Happening ℕ)
interruption = cut_off tick 0 ∷ starts_again "1970-01-01T00:00:01Z" ∷ round tick ∷ []

abbrev story : List (Happening ℕ)
story = comes_in "1970-01-01T00:00:00Z" note ∷ interruption

abbrev one_event : QueueFile
one_event = queue_after no_dump unreadable epoch refusing twice_at_most arrival 0

abbrev queued : QueueRecord
queued = new_record no_dump "1970-01-01T00:00:00Z" empty note

one_event-IsWellFormed : IsWellFormed one_event
one_event-IsWellFormed =
    queue_after-IsWellFormed no_dump unreadable epoch refusing twice_at_most arrival 0

queue_after-IsWellFormed_example :
    IsWellFormed (queue_after no_dump unreadable epoch refusing twice_at_most story 0)
queue_after-IsWellFormed_example =
    queue_after-IsWellFormed no_dump unreadable epoch refusing twice_at_most story 0

runs : (get "event:1" one_event.records ≡ some queued) × (work twice_at_most one_event < 3)
unfolding happen_all happen enqueue_event new_record get put
runs = (refl, omega arith)

process_next-Noted_example :
    (All (λ x. is_due unreadable 0 x ≡ false) (values one_event.records)
      × (process_next unreadable epoch refusing twice_at_most tick (one_event, 0)
          ≡ (false, one_event, 0)))
    ⊎ ((r : QueueRecord) × (r' : QueueRecord) × IsNext unreadable 0 one_event r
        × (process_next unreadable epoch refusing twice_at_most tick (one_event, 0)
            ≡ (true, write r.event_id r' one_event, 1))
        × Tried tick.marked_at r r'
        × AnswerNoted unreadable epoch refusing twice_at_most tick r (some "refused") r')
process_next-Noted_example =
    process_next-Noted unreadable epoch refusing twice_at_most tick one_event 0
      one_event-IsWellFormed

drain_all-ends_example :
    (count : ℕ) × (file : QueueFile) × (hub' : ℕ) × (drain_all unreadable epoch refusing
        twice_at_most
        (λ n. tick)
        none
        3
        0
        (one_event, 0)
      ≡ some (count, file, hub'))
    × (drain_all unreadable epoch refusing twice_at_most
          (λ n. tick)
          none
          (suc (work twice_at_most one_event))
          0
          (one_event, 0)
        ≡ some (count, file, hub'))
    × (count + work twice_at_most file ≤ work twice_at_most one_event)
    × ((reached unreadable epoch refusing twice_at_most none count ≡ true)
        ⊎ All (Rests unreadable 0) (values file.records))
drain_all-ends_example =
    drain_all-ends unreadable epoch refusing twice_at_most (λ n. tick) none one_event 0 3
      one_event-IsWellFormed runs.1

attempts_bounded_example : queued.attempts ≤ attempts_bound twice_at_most + 0
unfolding new_record
attempts_bounded_example =
    attempts_bounded no_dump unreadable epoch refusing twice_at_most arrival 0 "event:1" queued
      runs.0

nothing_lost_example :
    (r' : QueueRecord) × (get "event:1"
        (happen_all no_dump unreadable epoch refusing twice_at_most interruption
          (happen_all no_dump unreadable epoch refusing twice_at_most arrival (empty, 0))).0.records
      ≡ some r')
    × Progress queued r'
nothing_lost_example =
    nothing_lost no_dump unreadable epoch refusing twice_at_most arrival interruption 0 "event:1"
      queued runs.0
