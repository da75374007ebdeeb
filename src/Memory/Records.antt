-- ===== src/Memory/Records.antt =====
-- The data of memory_hub/ingest_queue.py. The statuses that the store writes are the constructors of
-- an enumeration. `model_dump` of an event is a parameter of the methods that call it.
use codex_watchdog.Common.{
  ℕ, String, Bool, true, false, ◌&&◌, ◌||◌, Option, none, some, [], ◌==◌, leb, Result, Dict,
}
use codex_watchdog.Common.Values.{Value}
use codex_watchdog.Leases.State.{Moment}
use codex_watchdog.Gates.Release.{parse_time}

pub data QueueStatus : Type 0 where
  pending retrying processing processed failed : QueueStatus

pub record QueueRecord : Type 0 where
  pub event_id : String
  pub project_id : String
  pub session_id : String
  pub event_type : String
  pub occurred_at : String
  pub queue_seq : ℕ
  pub status : QueueStatus
  pub attempts : ℕ
  pub failure_code : Option String
  pub failure_detail : Option String
  pub next_retry_at : Option String
  pub enqueued_at : String
  pub updated_at : String
  pub event_payload : Dict Value

pub record QueueFile : Type 0 where
  pub next_queue_seq : ℕ
  pub records : Dict QueueRecord

abbrev pub empty : QueueFile
empty = record { next_queue_seq = 1; records = [] }

pub record EnqueueFailure : Type 0 where
  pub event_id : String
  pub project_id : String
  pub session_id : String
  pub event_type : String
  pub failure_code : String
  pub failure_detail : Option String
  pub recorded_at : String
  pub event_payload : Dict Value

-- `_MemoryIngestFailureFile`
abbrev pub FailureFile : Type 0
FailureFile = Dict EnqueueFailure

-- `_parse_iso`: the gates' reader of times is the same code.
unfoldable pub parse_iso : (String → Result Moment) → Option String → Option ℕ
unfolding parse_time
parse_iso fromisoformat value = parse_time fromisoformat value

abbrev is_pending : QueueStatus → Bool
is_pending pending = true
is_pending _ = false

abbrev is_retrying : QueueStatus → Bool
is_retrying retrying = true
is_retrying _ = false

abbrev pub is_processing : QueueStatus → Bool
is_processing processing = true
is_processing _ = false

-- `_parse_iso(next_retry_at) is None or _parse_iso(next_retry_at) <= current_time`
abbrev pub has_come : Option ℕ → ℕ → Bool
has_come none current_time = true
has_come (some t) current_time = leb t current_time

-- Whether `claim_next` may take a record.
unfoldable pub is_due : (String → Result Moment) → (current_time : ℕ) → QueueRecord → Bool
unfolding parse_iso
is_due fromisoformat current_time r =
    is_pending r.status
    || (is_retrying r.status && has_come (parse_iso fromisoformat r.next_retry_at) current_time)

-- `record.status == "pending" and (session_id is None or record.session_id == session_id)`
abbrev pub is_listed : Option String → QueueRecord → Bool
is_listed none r = is_pending r.status
is_listed (some session_id) r = is_pending r.status && (r.session_id == session_id)
