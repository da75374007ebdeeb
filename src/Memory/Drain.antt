-- ===== src/Memory/Drain.antt =====
-- drain_all of memory_hub/ingest_worker.py ends: how many rounds it can take, and what it leaves.
use codex_watchdog.Common.{
  ℕ, zero, suc, ◌+◌, ◌-◌, ◌≤◌, ◌<◌, String, ◌≡◌, refl, ◌⊎◌, inl, inr, true, false, Option, none,
  some, arith, leb, if◌then◌else◌, Bool-cases, Option-cases, Result, Dict, values, All, All-weaken,
}
use codex_watchdog.Common.Values.{Value}
use codex_watchdog.Leases.State.{Moment}
use codex_watchdog.Memory.Records.{
  QueueRecord, QueueFile, QueueStatus, pending, retrying, processing, processed, failed, is_due,
  parse_iso,
}
use codex_watchdog.Memory.Queue.{write, claimed_record}
use codex_watchdog.Memory.Worker.{Tick, Settings, attempts_bound, process_next, reached, drain_all}
use codex_watchdog.Memory.Tables.{total, total-put_old}
use codex_watchdog.Memory.Invariant.{IsWellFormed}
use codex_watchdog.Memory.Claims.{IsNext}
use codex_watchdog.Memory.Rounds.{
  after_round, settled, process_next-round, process_next-IsWellFormed,
}

-- How many more rounds a record can take: the attempts that are left, at least one while it is open.
abbrev pub rounds_left : (bound attempts : ℕ) → ℕ
rounds_left bound attempts = if leb bound attempts then 1 else bound - attempts

abbrev weigh : (bound : ℕ) → QueueStatus → (attempts : ℕ) → ℕ
weigh bound pending attempts = rounds_left bound attempts
weigh bound retrying attempts = rounds_left bound attempts
weigh bound _ attempts = 0

abbrev pub weight : Settings → QueueRecord → ℕ
weight s r = weigh (attempts_bound s) r.status r.attempts

-- The rounds that a queue can take.
abbrev pub work : Settings → QueueFile → ℕ
work s f = total (weight s) f.records

weigh-due :
    (fromisoformat : String → Result Moment) (s : Settings) (now : ℕ) (r : QueueRecord)
    → is_due fromisoformat now r ≡ true
    → weight s r ≡ rounds_left (attempts_bound s) r.attempts
unfolding is_due
weigh-due fromisoformat s now r due = go r.status refl
  where
    go :
        (status : QueueStatus)
        → r.status ≡ status
        → weigh (attempts_bound s) status r.attempts ≡ rounds_left (attempts_bound s) r.attempts
    go pending e = refl
    go retrying e = refl
    go processing e = let clash : false ≡ true = (rw (is_due, e) at due) in cc
    go processed e = let clash : false ≡ true = (rw (is_due, e) at due) in cc
    go failed e = let clash : false ≡ true = (rw (is_due, e) at due) in cc

module _ (fromisoformat : String → Result Moment) (iso_z : ℕ → String) {Hub : Type 0}
    (ingest : Hub → Dict Value → Option String × Hub) (s : Settings) where
  -- A round takes at least one of the rounds that its record can take.
  round-weight :
      (t : Tick) (hub : Hub) (r : QueueRecord)
      → weight s (after_round fromisoformat iso_z ingest s t hub r)
        < rounds_left (attempts_bound s) r.attempts
  round-weight t hub r = go (ingest hub r.event_payload).0
    where
      go :
          (answer : Option String)
          → weight s (settled fromisoformat iso_z ingest s t answer (claimed_record t.claimed_at r))
            < rounds_left (attempts_bound s) r.attempts
      go none = ground arith
      go (some detail) = elim (Bool-cases (leb (attempts_bound s) (r.attempts + 1))) [
        | inl last ↦ rw last (ground arith)
        | inr more ↦ rw more (ground arith)
      ]

  round-work :
      (t : Tick) (f : QueueFile) (hub : Hub) (r : QueueRecord)
      → IsNext fromisoformat t.current_time f r
      → work s (write r.event_id (after_round fromisoformat iso_z ingest s t hub r) f) < work s f
  round-work t f hub r next = omega (
    arith,
    total-put_old (weight s) r.event_id (after_round fromisoformat iso_z ingest s t hub r) f.records
        r next.found,
    weigh-due fromisoformat s t.current_time r next.due,
    round-weight t hub r,
  )

  -- A drain that has ended: its count, and what it leaves.
  pub record Ends (clock : ℕ → Tick) (limit : Option ℕ) (fuel done : ℕ) (f : QueueFile) (hub : Hub)
      : Type 0 where
    pub count : ℕ
    pub file : QueueFile
    pub hub' : Hub
    pub returns :
        drain_all fromisoformat iso_z ingest s clock limit fuel done (f, hub)
        ≡ some (count, file, hub')
    pub bounded : count + work s file ≤ done + work s f
    pub well_formed : IsWellFormed file
    pub why :
        (reached fromisoformat iso_z ingest s limit count ≡ true)
        ⊎ All (λ x. is_due fromisoformat (clock count).current_time x ≡ false) (values file.records)

  drain_all-Ends :
      (clock : ℕ → Tick) (limit : Option ℕ) (fuel done : ℕ) (f : QueueFile) (hub : Hub)
      → IsWellFormed f
      → work s f < fuel
      → Ends clock limit fuel done f hub
  unfolding drain_all
  drain_all-Ends clock limit zero done f hub w enough = absurd (omega arith)
  drain_all-Ends clock limit (suc fuel) done f hub w enough =
      elim (Bool-cases (reached fromisoformat iso_z ingest s limit done)) [
        | inl stop ↦ record {
          count = done;
          file = f;
          hub' = hub;
          returns = rw (drain_all, stop) refl;
          bounded = omega arith;
          well_formed = w;
          why = inl stop;
        }
        | inr go_on ↦ elim (process_next-round fromisoformat iso_z ingest s (clock done) f hub w) [
          | inl (idle, same) ↦ record {
            count = done;
            file = f;
            hub' = hub;
            returns = rw (drain_all, go_on, same) refl;
            bounded = omega arith;
            well_formed = w;
            why = inr idle;
          }
          | inr (r, next, moved) ↦
              let f' : QueueFile =
                write r.event_id (after_round fromisoformat iso_z ingest s (clock done) hub r) f in
              let less = round-work (clock done) f hub r next in
              let rest =
                drain_all-Ends clock limit fuel (done + 1) f' (ingest hub r.event_payload).1
                  (rw moved at
                    (process_next-IsWellFormed fromisoformat iso_z ingest s (clock done) f hub w))
                  (omega arith) in
              record {
                count = rest.count;
                file = rest.file;
                hub' = rest.hub';
                returns = rw (drain_all, go_on, moved) rest.returns;
                bounded = omega (arith, rest.bounded);
                well_formed = rest.well_formed;
                why = rest.why;
              }
        ]
      ]

  -- More fuel changes no result.
  more_fuel :
      (clock : ℕ → Tick) (limit : Option ℕ) (fuel more done : ℕ) (state : QueueFile × Hub)
      {result : ℕ × QueueFile × Hub}
      → fuel ≤ more
      → drain_all fromisoformat iso_z ingest s clock limit fuel done state ≡ some result
      → drain_all fromisoformat iso_z ingest s clock limit more done state ≡ some result
  unfolding drain_all
  more_fuel clock limit zero more done state le h = cc
  more_fuel clock limit (suc fuel) zero done state le h = absurd (omega arith)
  more_fuel clock limit (suc fuel) (suc more) done state le h =
      elim (Bool-cases (reached fromisoformat iso_z ingest s limit done)) [
        | inl stop ↦ rw (drain_all, stop) (rw (drain_all, stop) at h)
        | inr go_on ↦
            elim (Bool-cases (process_next fromisoformat iso_z ingest s (clock done) state).0) [
              | inl worked ↦
                  rw (drain_all, go_on, worked)
                    (more_fuel clock limit fuel more (done + 1) _ (omega arith)
                      (rw (drain_all, go_on, worked) at h))
              | inr idle ↦ rw (drain_all, go_on, idle) (rw (drain_all, go_on, idle) at h)
            ]
      ]

-- No longer in the hands of the worker at a time: done with, being processed, or waiting for a retry
-- whose time is still to come.
pub data Rests (fromisoformat : String → Result Moment) (now : ℕ) (r : QueueRecord) : Type 0 where
  is_done : r.status ≡ processed → Rests fromisoformat now r
  is_lost : r.status ≡ failed → Rests fromisoformat now r
  is_in_hand : r.status ≡ processing → Rests fromisoformat now r
  waits :
      (t : ℕ)
      → r.status ≡ retrying
      → parse_iso fromisoformat r.next_retry_at ≡ some t
      → now < t
      → Rests fromisoformat now r

undue-Rests :
    (fromisoformat : String → Result Moment) (now : ℕ) (r : QueueRecord)
    → is_due fromisoformat now r ≡ false
    → Rests fromisoformat now r
unfolding is_due
undue-Rests fromisoformat now r idle = go r.status refl
  where
    go : (status : QueueStatus) → r.status ≡ status → Rests fromisoformat now r
    go pending e = let clash : true ≡ false = (rw (is_due, e) at idle) in cc
    go processing e = is_in_hand e
    go processed e = is_done e
    go failed e = is_lost e
    go retrying e = elim (Option-cases (parse_iso fromisoformat r.next_retry_at)) [
      | inl no_time ↦ let clash : true ≡ false = (rw (is_due, e, no_time) at idle) in cc
      | inr (t, read) ↦
          let late : leb t now ≡ false = (rw (is_due, e, read) at idle) in
          waits t e read (ground arith)
    ]

-- From a well-formed queue, drain_all returns after at most as many rounds as its open records
-- have attempts left, at least one for each: with more fuel than that it has a result, and the
-- fuel does not change it. Each round uses up one of them. When it returns, it has reached its
-- limit, or every record of the queue rests: it is processed or failed, still being processed, or
-- waits for a retry whose time is after the worker's.
pub drain_all-ends :
    (fromisoformat : String → Result Moment) (iso_z : ℕ → String) {Hub : Type 0}
    (ingest : Hub → Dict Value → Option String × Hub) (s : Settings) (clock : ℕ → Tick)
    (limit : Option ℕ) (f : QueueFile) (hub : Hub) (fuel : ℕ)
    → IsWellFormed f
    → work s f < fuel
    → (count : ℕ) × (file : QueueFile) × (hub' : Hub) × (drain_all fromisoformat iso_z ingest s
          clock limit fuel 0
          (f, hub)
        ≡ some (count, file, hub'))
      × (drain_all fromisoformat iso_z ingest s clock limit (suc (work s f)) 0 (f, hub)
          ≡ some (count, file, hub'))
      × (count + work s file ≤ work s f)
      × ((reached fromisoformat iso_z ingest s limit count ≡ true)
          ⊎ All (Rests fromisoformat (clock count).current_time) (values file.records))
drain_all-ends fromisoformat iso_z ingest s clock limit f hub fuel w enough =
    let e =
      drain_all-Ends fromisoformat iso_z ingest s clock limit (suc (work s f)) 0 f hub w
        (omega arith) in
    (
      e.count,
      e.file,
      e.hub',
      more_fuel fromisoformat iso_z ingest s clock limit (suc (work s f)) fuel 0 (f, hub)
          (omega arith) e.returns,
      e.returns,
      omega (arith, e.bounded),
      elim e.why [
        | inl stop ↦ inl stop
        | inr idle ↦ inr (
            All-weaken (undue-Rests fromisoformat (clock e.count).current_time)
              (values e.file.records) idle)
      ],
    )
