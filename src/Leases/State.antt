-- ===== src/Leases/State.antt =====
-- The data of command_leases.py, its clock, and the methods that touch no file. `fromisoformat`
-- stands for `datetime.fromisoformat`: the instant that a text names, in microseconds, with or
-- without an offset to UTC, or an error. The statuses and event types that the store writes are
-- the constructors of two enumerations.
use codex_watchdog.Common.{
  ℕ, ◌+◌, ◌-◌, String, ◌≡◌, refl, Bool, true, false, ◌&&◌, not, Option, some, List, [], ◌∷◌, ◌++◌,
  ◌==◌, if◌then◌else◌, or_else, Result, ok, ◌>>=◌, Dict,
}
use codex_watchdog.Common.Texts.{format, show, strip, remove_prefix, before_char}
use codex_watchdog.Common.Values.{Value, with_text}
use Prim.Native.String as S
use Prim.Native.String.{len, slice}
use text.Mathlib.Text.{starts_with}
use codex_watchdog.Session.Append.{EventRequest}

pub data LeaseStatus : Type 0 where
  claimed requeued executed failed : LeaseStatus

pub data LeaseEventType : Type 0 where
  command_claimed command_lease_renewed command_claim_expired : LeaseEventType
  command_requeued command_executed command_failed : LeaseEventType

-- The text that the event type has in the log.
abbrev pub type_name : LeaseEventType → String
type_name command_claimed = "command_claimed"
type_name command_lease_renewed = "command_lease_renewed"
type_name command_claim_expired = "command_claim_expired"
type_name command_requeued = "command_requeued"
type_name command_executed = "command_executed"
type_name command_failed = "command_failed"

abbrev pub is_claimed : LeaseStatus → Bool
is_claimed claimed = true
is_claimed _ = false

abbrev pub is_terminal : LeaseStatus → Bool
is_terminal executed = true
is_terminal failed = true
is_terminal _ = false

abbrev pub is_renewal : LeaseEventType → Bool
is_renewal command_lease_renewed = true
is_renewal _ = false

pub record LeaseEvent : Type 0 where
  pub event_id : String
  pub command_id : String
  pub session_id : String
  pub event_type : LeaseEventType
  pub occurred_at : String
  pub claim_seq : ℕ
  pub worker_id : Option String
  pub lease_expires_at : Option String
  pub reason : Option String
  pub payload : Dict Value

pub record LeaseState : Type 0 where
  pub command_id : String
  pub session_id : String
  pub status : LeaseStatus
  pub claim_seq : ℕ
  pub worker_id : Option String
  pub lease_expires_at : Option String
  pub updated_at : String

pub record LeaseFile : Type 0 where
  pub next_event_seq : ℕ
  pub commands : Dict LeaseState
  pub events : List LeaseEvent

abbrev pub empty : LeaseFile
empty = record { next_event_seq = 1; commands = []; events = [] }

-- The arguments of `_append_event` but the store's data.
pub record NewEvent : Type 0 where
  pub command_id : String
  pub session_id : String
  pub event_type : LeaseEventType
  pub occurred_at : String
  pub claim_seq : ℕ
  pub worker_id : Option String
  pub lease_expires_at : Option String
  pub reason : Option String
  pub payload : Dict Value

unfoldable pub event_of : ℕ → NewEvent → LeaseEvent
event_of n a = record {
  event_id = format ("command-event:" ∷ show n ∷ []);
  command_id = a.command_id;
  session_id = a.session_id;
  event_type = a.event_type;
  occurred_at = a.occurred_at;
  claim_seq = a.claim_seq;
  worker_id = a.worker_id;
  lease_expires_at = a.lease_expires_at;
  reason = a.reason;
  payload = a.payload;
}

unfoldable pub append_event : LeaseFile → NewEvent → LeaseFile × LeaseEvent
append_event data' a =
    let event = event_of data'.next_event_seq a in
    (
      record data' {
        next_event_seq = data'.next_event_seq + 1;
        events = data'.events ++ event ∷ [];
      },
      event,
    )

pub data Moment : Type 0 where
  naive : ℕ → Moment
  aware : ℕ → Moment

-- `astimezone(utc)`; a time without an offset is taken to be UTC.
abbrev pub to_utc : Moment → ℕ
to_utc (naive t) = t
to_utc (aware t) = t

abbrev ends_with_z : String → Bool
ends_with_z s = slice s (len s - 1) (len s) == "Z"

unfoldable pub parse_timestamp : (String → Result Moment) → String → Result ℕ
parse_timestamp fromisoformat value = do
  let stripped = strip value
  parsed ← fromisoformat (
      if ends_with_z stripped
      then S.◌++◌ (slice stripped 0 (len stripped - 1)) "+00:00"
      else stripped)
  ok (to_utc parsed)

unfoldable pub session_correlation_id : LeaseEvent → String
session_correlation_id e =
    let plain = format ("corr:command:" ∷ e.command_id ∷ ":claim:" ∷ show e.claim_seq ∷ []) in
    if is_renewal e.event_type && not (or_else e.lease_expires_at "" == "")
    then format (plain ∷ ":renew:" ∷ or_else e.lease_expires_at "" ∷ [])
    else plain

-- `normalized.split(":")[1]` is what stands between the first colon and the next.
unfoldable pub project_id_from_session_id : String → String
project_id_from_session_id session_id =
    let normalized = strip session_id in
    let part = before_char b':' (remove_prefix "session:" normalized) in
    if starts_with normalized "session:"
    then (if part == "" then remove_prefix "session:" normalized else part)
    else normalized

-- The call of `record_event` that mirrors an event of the store.
unfoldable pub mirror_request : LeaseEvent → EventRequest
unfolding session_correlation_id project_id_from_session_id
mirror_request e = record {
  event_type = type_name e.event_type;
  project_id = project_id_from_session_id e.session_id;
  session_id = e.session_id;
  occurred_at = e.occurred_at;
  causation_id = some e.command_id;
  correlation_id = session_correlation_id e;
  related_ids = ("command_id", e.command_id) ∷ ("claim_seq", show e.claim_seq) ∷ [];
  payload = with_text "reason" e.reason (
      with_text "lease_expires_at" e.lease_expires_at
        (with_text "worker_id" e.worker_id e.payload));
}

tests :
    (project_id_from_session_id " session:repo-a:2 " ≡ "repo-a")
    × (project_id_from_session_id "session:" ≡ "")
    × (project_id_from_session_id "repo-b" ≡ "repo-b")
unfolding project_id_from_session_id strip remove_prefix before_char
tests = (refl, refl, refl)
