-- ===== src/Memory/History.antt =====
-- Any sequence of happenings on the queue of memory_hub/ingest_queue.py.
use codex_watchdog.Common.{
  ℕ, suc, ◌+◌, ◌≤◌, String, ◌≡◌, refl, inl, inr, Option, none, some, List, [], ◌∷◌, arith, leb,
  Bool-cases, Option-cases, Result, Dict, get,
}
use codex_watchdog.Common.Values.{Value}
use codex_watchdog.Session.Records.{SessionEvent}
use codex_watchdog.Leases.State.{Moment}
use codex_watchdog.Memory.Records.{QueueRecord, QueueFile, empty}
use codex_watchdog.Memory.Queue.{claim_next, claimed_record, enqueue_event, new_record}
use codex_watchdog.Memory.Worker.{Tick, Settings, attempts_bound, process_next}
use codex_watchdog.Memory.Invariant.{IsWellFormed, empty-IsWellFormed}
use codex_watchdog.Memory.Claims.{claim_next-first}
use codex_watchdog.Memory.Rounds.{after_round, settled, after_round-Keeps, process_next-round}
use codex_watchdog.Memory.Progress.{
  is_final, cost, Progress, Within, Advance, Advance-refl, Advance-trans, write-Advance,
  add-Advance, due-open, open-Progress, cost-open, recover_inflight-Advance,
}
use codex_watchdog.Memory.Calls.{
  Happening, comes_in, round, cut_off, starts_again, happen, happen_all, cut_offs,
}

add_zero : (n : ℕ) → n + 0 ≡ n
add_zero n = omega arith

add_one : (n : ℕ) → n + 1 ≡ suc n
add_one n = omega arith

count_cons :
    {Hub : Type 0} (h : Happening Hub) (hs : List (Happening Hub)) (b : ℕ)
    → b + cut_offs (h ∷ hs) ≡ b + cut_offs (h ∷ []) + cut_offs hs
count_cons (comes_in utcnow e) hs b = omega arith
count_cons (round t) hs b = omega arith
count_cons (cut_off t left) hs b = omega arith
count_cons (starts_again utcnow) hs b = omega arith

module _ (model_dump : SessionEvent → Dict Value) (fromisoformat : String → Result Moment)
    (iso_z : ℕ → String) {Hub : Type 0} (ingest : Hub → Dict Value → Option String × Hub)
    (s : Settings) where
  settled-cost :
      (t : Tick) (answer : Option String) (c : QueueRecord) (b : ℕ)
      → attempts_bound s ≤ b
      → c.attempts ≤ b
      → (cost (settled fromisoformat iso_z ingest s t answer c) ≤ b)
        × (c.attempts ≤ (settled fromisoformat iso_z ingest s t answer c).attempts)
  settled-cost t none c b le paid = (paid, omega arith)
  settled-cost t (some detail) c b le paid = elim (Bool-cases (leb (attempts_bound s) c.attempts)) [
    | inl last ↦ rw last (paid, omega arith)
    | inr more ↦ rw more (ground arith, omega arith)
  ]

  module _ (b : ℕ) (le : attempts_bound s ≤ b) (f : QueueFile) (w : IsWellFormed f)
      (within : Within b f) where
    round-Advance :
        (t : Tick) (hub : Hub)
        → Advance b f (process_next fromisoformat iso_z ingest s t (f, hub)).1
    round-Advance t hub = elim (process_next-round fromisoformat iso_z ingest s t f hub w) [
      | inl (idle, same) ↦ rw same (Advance-refl b f w within)
      | inr (r, next, moved) ↦
          let open_now = due-open fromisoformat t.current_time r next.due in
          let (paid, tried) =
            settled-cost t (ingest hub r.event_payload).0 (claimed_record t.claimed_at r) b le
              (omega (arith, within r.event_id r next.found, cost-open r open_now)) in
          rw moved (
            write-Advance b b f w within (omega arith) r.event_id r
              (after_round fromisoformat iso_z ingest s t hub r) next.found
              (open-Progress (after_round-Keeps fromisoformat iso_z ingest s t hub r)
                (omega (arith, tried)) open_now)
              paid)
    ]

    cut_off-Advance :
        (t : Tick) → Advance (suc b) f (claim_next t.claimed_at fromisoformat t.current_time f).1
    cut_off-Advance t = elim (claim_next-first fromisoformat t.current_time f t.claimed_at w) [
      | inl (idle, same) ↦ rw same (Advance-refl (suc b) f w (λ k r h. omega (arith, within k r h)))
      | inr (r, next, moved) ↦
          let open_now = due-open fromisoformat t.current_time r next.due in
          rw moved (
            write-Advance b (suc b) f w within (omega arith) r.event_id r
              (claimed_record t.claimed_at r) next.found
              (open-Progress (record { event_id = refl; queue_seq = refl; event_payload = refl })
                (omega arith) open_now)
              (omega (arith, within r.event_id r next.found, cost-open r open_now)))
    ]

    comes_in-Advance :
        (utcnow : String) (e : SessionEvent) → Advance b f (enqueue_event model_dump utcnow f e).1
    unfolding enqueue_event
    comes_in-Advance utcnow e = elim (Option-cases (get e.event_id f.records)) [
      | inr (r, there) ↦ rw (enqueue_event, there) (Advance-refl b f w within)
      | inl missing ↦
          rw (enqueue_event, missing)
            (add-Advance b f w within e.event_id (new_record model_dump utcnow f e) missing refl
              refl (omega arith))
    ]

  happen-Advance :
      (h : Happening Hub) (f : QueueFile) (hub : Hub) (b : ℕ)
      → attempts_bound s ≤ b
      → IsWellFormed f
      → Within b f
      → Advance
          (b + cut_offs (h ∷ []))
          f
          (happen model_dump fromisoformat iso_z ingest s h (f, hub)).0
  unfolding happen
  happen-Advance (comes_in utcnow e) f hub b le w within =
      rw (add_zero b) (comes_in-Advance b le f w within utcnow e)
  happen-Advance (round t) f hub b le w within =
      rw (add_zero b) (round-Advance b le f w within t hub)
  happen-Advance (cut_off t left) f hub b le w within =
      rw (add_one b) (cut_off-Advance b le f w within t)
  happen-Advance (starts_again utcnow) f hub b le w within =
      rw (add_zero b) (recover_inflight-Advance utcnow b f w within)

  happen_all-Advance :
      (hs : List (Happening Hub)) (f : QueueFile) (hub : Hub) (b : ℕ)
      → attempts_bound s ≤ b
      → IsWellFormed f
      → Within b f
      → Advance
          (b + cut_offs hs)
          f
          (happen_all model_dump fromisoformat iso_z ingest s hs (f, hub)).0
  unfolding happen_all
  happen_all-Advance [] f hub b le w within = rw (add_zero b) (Advance-refl b f w within)
  happen_all-Advance (h ∷ hs) f hub b le w within =
      let next = happen model_dump fromisoformat iso_z ingest s h (f, hub) in
      let first = happen-Advance h f hub b le w within in
      let later =
        happen_all-Advance hs next.0 next.1 (b + cut_offs (h ∷ [])) (omega arith) first.well_formed
          first.within in
      rw (count_cons h hs b) (Advance-trans first later)

  attempts-cost : (r : QueueRecord) → r.attempts ≤ cost r
  attempts-cost r = elim (Bool-cases (is_final r.status)) [
    | inl final ↦ rw final (omega arith)
    | inr not_final ↦ rw not_final (omega arith)
  ]

  -- The queue after a sequence of happenings on the empty one.
  abbrev pub queue_after : List (Happening Hub) → Hub → QueueFile
  queue_after hs hub = (happen_all model_dump fromisoformat iso_z ingest s hs (empty, hub)).0

  empty-Within : (b : ℕ) → Within b empty
  unfolding get
  empty-Within b k r h = cc

  history :
      (hs : List (Happening Hub)) (hub : Hub)
      → Advance (attempts_bound s + cut_offs hs) empty (queue_after hs hub)
  history hs hub =
      happen_all-Advance hs empty hub (attempts_bound s) (omega arith) empty-IsWellFormed
        (empty-Within (attempts_bound s))

  -- Whatever happens to a queue that starts empty, its records stand under their own event ids, no
  -- event id stands twice, and the records are in the order of their positions, which are below
  -- the next one.
  pub queue_after-IsWellFormed :
      (hs : List (Happening Hub)) (hub : Hub) → IsWellFormed (queue_after hs hub)
  queue_after-IsWellFormed hs hub = (history hs hub).well_formed

  -- Whatever happens to a queue that starts empty, no record has more attempts than the worker's
  -- bound and the number of rounds that were cut off.
  pub attempts_bounded :
      (hs : List (Happening Hub)) (hub : Hub) (k : String) (r : QueueRecord)
      → get k (queue_after hs hub).records ≡ some r
      → r.attempts ≤ attempts_bound s + cut_offs hs
  attempts_bounded hs hub k r found =
      omega (arith, (history hs hub).within k r found, attempts-cost r)

  -- Whatever happens to a queue that starts empty (events come in, the worker makes rounds, rounds
  -- are cut off after the claim, the program starts again), an event that it has at some time
  -- stays in it through whatever happens later, with its id, position and payload; its attempts
  -- never fall, and once it is processed or failed its record does not change.
  pub nothing_lost :
      (before later : List (Happening Hub)) (hub : Hub) (k : String) (r : QueueRecord)
      → get k (queue_after before hub).records ≡ some r
      → (r' : QueueRecord) × (get k
            (happen_all model_dump fromisoformat iso_z ingest s later
              (happen_all model_dump fromisoformat iso_z ingest s before (empty, hub))).0.records
          ≡ some r')
        × Progress r r'
  nothing_lost before later hub k r found =
      let past = history before hub in
      (happen_all-Advance later (queue_after before hub)
          (happen_all model_dump fromisoformat iso_z ingest s before (empty, hub)).1
          (attempts_bound s + cut_offs before) (omega arith) past.well_formed past.within).kept
        k r found
