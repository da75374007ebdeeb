-- ===== src/Leases/Operations.antt =====
-- The methods of `CommandLeaseStore`. A method takes the store and returns its result, or the
-- error that it raised, beside the store that it leaves behind: the lease file is written before
-- the events are mirrored, so a refusal of the session service leaves the new file in place. The
-- methods run under the file lock, one at a time.
use codex_watchdog.Common.{
  key_error, ℕ, ◌+◌, String, Bool, false, ◌||◌, not, Option, none, some, List, [], ◌∷◌, ◌++◌, ◌==◌,
  leb, nat_eq, if◌then◌else◌, value_error, Result, ok, raise, ◌>>=◌, Dict, get, put, keys, keep,
}
use codex_watchdog.Common.Texts.{sort_texts, format}
use codex_watchdog.Common.Values.{Value, text_eq, option_eq}
use codex_watchdog.Session.Records.{StoreFile}
use codex_watchdog.Session.Append.{record_event}
use codex_watchdog.Leases.State.{
  LeaseStatus, claimed, requeued, executed, failed, LeaseEventType, command_claimed,
  command_lease_renewed, command_claim_expired, command_requeued, command_executed, command_failed,
  is_claimed, is_terminal, LeaseEvent, LeaseState, LeaseFile, NewEvent, append_event, Moment,
  parse_timestamp, mirror_request,
}

-- The lease file, and the session service's file if the store has a session service.
pub record Store : Type 0 where
  pub file : LeaseFile
  pub session : Option StoreFile

unfoldable pub require_current_claim : Option LeaseState → String → String → ℕ → Result LeaseState
require_current_claim none command_id worker_id claim_seq =
    raise (value_error (format ("unknown command: " ∷ command_id ∷ [])))
require_current_claim (some state) command_id worker_id claim_seq =
    if not (is_claimed state.status)
      || not (option_eq text_eq state.worker_id (some worker_id))
      || not (nat_eq state.claim_seq claim_seq)
    then raise (value_error (format ("stale claim for " ∷ command_id ∷ [])))
    else ok state

-- `data.commands[command_id] = state`
abbrev pub set_command : String → LeaseState → LeaseFile → LeaseFile
set_command k s f = record f { commands = put k s f.commands }

unfoldable pub get_command : Store → String → Option LeaseState
get_command s command_id = get command_id s.file.commands

unfoldable pub list_events : Store → Option String → List LeaseEvent
list_events s none = s.file.events
list_events s (some command_id) = keep (λ e. e.command_id == command_id) s.file.events

-- The guards of `claim_command`: the number of the new claim, or an error.
unfoldable pub next_claim_seq : Option LeaseState → String → String → Result ℕ
next_claim_seq none command_id session_id = ok 1
next_claim_seq (some existing) command_id session_id =
    if not (existing.session_id == session_id)
    then raise (value_error (format ("command " ∷ command_id ∷ " belongs to another session" ∷ [])))
    else if is_claimed existing.status
    then raise (value_error (format ("command " ∷ command_id ∷ " is already claimed" ∷ [])))
    else if is_terminal existing.status
    then raise (value_error (format ("command " ∷ command_id ∷ " is already terminal" ∷ [])))
    else ok (existing.claim_seq + 1)

-- What `claim_command` writes: the file, and the event.
unfoldable pub claimed_file :
    LeaseFile → String → String → String → String → String → Result (LeaseFile × LeaseEvent)
unfolding next_claim_seq
claimed_file file command_id session_id worker_id claimed_at lease_expires_at = do
  claim_seq ← next_claim_seq (get command_id file.commands) command_id session_id
  let (file', event) = append_event file (record {
    command_id = command_id;
    session_id = session_id;
    event_type = command_claimed;
    occurred_at = claimed_at;
    claim_seq = claim_seq;
    worker_id = some worker_id;
    lease_expires_at = some lease_expires_at;
    reason = none;
    payload = [];
  })
  let state : LeaseState = record {
    command_id = command_id;
    session_id = session_id;
    status = claimed;
    claim_seq = claim_seq;
    worker_id = some worker_id;
    lease_expires_at = some lease_expires_at;
    updated_at = claimed_at;
  }
  ok (set_command command_id state file', event)

unfoldable pub renewed_file :
    LeaseFile → String → String → ℕ → String → String → Result (LeaseFile × LeaseEvent)
unfolding require_current_claim
renewed_file file command_id worker_id claim_seq renewed_at lease_expires_at = do
  state ← require_current_claim (get command_id file.commands) command_id worker_id claim_seq
  let (file', event) = append_event file (record {
    command_id = command_id;
    session_id = state.session_id;
    event_type = command_lease_renewed;
    occurred_at = renewed_at;
    claim_seq = claim_seq;
    worker_id = some worker_id;
    lease_expires_at = some lease_expires_at;
    reason = none;
    payload = [];
  })
  ok (
    set_command command_id
        (record state { lease_expires_at = some lease_expires_at; updated_at = renewed_at }) file',
    event,
  )

unfoldable pub result_event_type : String → Result LeaseEventType
result_event_type result_type =
    if result_type == "command_executed"
    then ok command_executed
    else if result_type == "command_failed"
    then ok command_failed
    else raise (value_error (format ("unsupported result type: " ∷ result_type ∷ [])))

abbrev pub result_status : LeaseEventType → LeaseStatus
result_status command_executed = executed
result_status _ = failed

unfoldable pub terminal_file :
    LeaseFile → String → String → ℕ → String → String → Dict Value → Result (LeaseFile × LeaseEvent)
unfolding require_current_claim result_event_type
terminal_file file command_id worker_id claim_seq result_type occurred_at payload = do
  event_type ← result_event_type result_type
  state ← require_current_claim (get command_id file.commands) command_id worker_id claim_seq
  let (file', event) = append_event file (record {
    command_id = command_id;
    session_id = state.session_id;
    event_type = event_type;
    occurred_at = occurred_at;
    claim_seq = claim_seq;
    worker_id = some worker_id;
    lease_expires_at = state.lease_expires_at;
    reason = none;
    payload = payload;
  })
  ok (
    set_command command_id
        (record state { status = result_status event_type; updated_at = occurred_at }) file',
    event,
  )

abbrev pub expiry_event : LeaseEventType → String → String → String → LeaseState → NewEvent
expiry_event event_type command_id now reason state = record {
  command_id = command_id;
  session_id = state.session_id;
  event_type = event_type;
  occurred_at = now;
  claim_seq = state.claim_seq;
  worker_id = state.worker_id;
  lease_expires_at = state.lease_expires_at;
  reason = some reason;
  payload = [];
}

-- The two events and the new state of a command whose lease ran out.
unfoldable pub requeue :
    String → String → String → LeaseState → LeaseFile → LeaseFile × List LeaseEvent
requeue now reason command_id state file =
    let (file', expired) =
      append_event file (expiry_event command_claim_expired command_id now reason state) in
    let (file'', requeued') =
      append_event file' (expiry_event command_requeued command_id now reason state) in
    (
      set_command command_id (record state { status = requeued; updated_at = now }) file'',
      expired ∷ requeued' ∷ [],
    )

module _ (fromisoformat : String → Result Moment) where
  -- Whether the loop of `expire_and_requeue_expired` acts on a command, at the instant `now_ts`.
  unfoldable pub is_expired : ℕ → LeaseStatus → Option String → Result Bool
  is_expired now_ts status none = ok false
  is_expired now_ts status (some lease) =
      if is_claimed status
      then (do t ← parse_timestamp fromisoformat lease; ok (leb t now_ts))
      else ok false

  unfoldable pub expire_one :
      ℕ → String → String → String → LeaseFile → Result (LeaseFile × List LeaseEvent)
  unfolding requeue
  expire_one now_ts now reason command_id file = elim (get command_id file.commands) [
    | none ↦ raise (key_error command_id)
    | some state ↦ do
      expired ← is_expired now_ts state.status state.lease_expires_at
      ok (if expired then requeue now reason command_id state file else (file, []))
  ]

  unfoldable pub expire_loop :
      ℕ → String → String → List String → LeaseFile → Result (LeaseFile × List LeaseEvent)
  expire_loop now_ts now reason [] file = ok (file, [])
  expire_loop now_ts now reason (k ∷ ks) file = do
    (file', events) ← expire_one now_ts now reason k file
    (file'', rest) ← expire_loop now_ts now reason ks file'
    ok (file'', events ++ rest)

  unfoldable pub expired_file : LeaseFile → String → String → Result (LeaseFile × List LeaseEvent)
  expired_file file now reason = do
    now_ts ← parse_timestamp fromisoformat now
    expire_loop now_ts now reason (sort_texts (keys file.commands)) file

module _ (digest : String → String) where
  -- `_mirror_events_to_session_service`: stops at the first event that is refused.
  unfoldable pub mirror_into : StoreFile → List LeaseEvent → Result (Unit {0}) × StoreFile
  mirror_into f [] = (ok tt, f)
  mirror_into f (e ∷ es) = elim (record_event digest f (mirror_request e)) [
    | ok (g, recorded) ↦ mirror_into g es
    | raise error ↦ (raise error, f)
  ]

  unfoldable pub mirror_events : Store → List LeaseEvent → Result (Unit {0}) × Store
  unfolding mirror_into
  mirror_events s events = elim s.session [
    | none ↦ (ok tt, s)
    | some f ↦ let (r, g) = mirror_into f events in (r, record s { session = some g })
  ]

  -- The tail of every method: write the file, mirror the events, return the result.
  unfoldable pub commit :
      {A : Type 0} → Store → (A → List LeaseEvent) → Result (LeaseFile × A) → Result A × Store
  unfolding mirror_events
  commit s events_of (raise error) = (raise error, s)
  commit s events_of (ok (file', a)) =
      let (r, s') = mirror_events (record s { file = file' }) (events_of a) in
      ((r >>= λ _. ok a), s')

  unfoldable pub claim_command :
      Store → String → String → String → String → String → Result LeaseEvent × Store
  unfolding commit
  claim_command s command_id session_id worker_id claimed_at lease_expires_at =
      commit s (λ e. e ∷ [])
        (claimed_file s.file command_id session_id worker_id claimed_at lease_expires_at)

  unfoldable pub renew_lease :
      Store → String → String → ℕ → String → String → Result LeaseEvent × Store
  unfolding commit
  renew_lease s command_id worker_id claim_seq renewed_at lease_expires_at =
      commit s (λ e. e ∷ [])
        (renewed_file s.file command_id worker_id claim_seq renewed_at lease_expires_at)

  unfoldable pub record_terminal_result :
      Store → String → String → ℕ → String → String → Dict Value → Result LeaseEvent × Store
  unfolding commit
  record_terminal_result s command_id worker_id claim_seq result_type occurred_at payload =
      commit s (λ e. e ∷ [])
        (terminal_file s.file command_id worker_id claim_seq result_type occurred_at payload)

  -- `if expired_events:` guards the write.
  unfoldable pub finish_expiry :
      Store → Result (LeaseFile × List LeaseEvent) → Result (List LeaseEvent) × Store
  unfolding commit
  finish_expiry s (ok (file', [])) = (ok [], s)
  finish_expiry s (ok (file', e ∷ es)) = commit s (λ events. events) (ok (file', e ∷ es))
  finish_expiry s (raise error) = (raise error, s)

  unfoldable pub expire_and_requeue_expired :
      (String → Result Moment) → Store → String → String → Result (List LeaseEvent) × Store
  unfolding finish_expiry
  expire_and_requeue_expired fromisoformat s now reason =
      finish_expiry s (expired_file fromisoformat s.file now reason)
