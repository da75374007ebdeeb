-- ===== src/Memory/Calls.antt =====
-- What happens to the queue of memory_hub/ingest_queue.py over time: events come in, the worker makes
-- a round, a round is cut off after its claim, and the program starts again and recovers the records
-- that were being processed. `main.py` calls `recover_inflight` when it starts.
use codex_watchdog.Common.{ℕ, suc, String, Option, List, [], ◌∷◌, Result, Dict}
use codex_watchdog.Common.Values.{Value}
use codex_watchdog.Session.Records.{SessionEvent}
use codex_watchdog.Leases.State.{Moment}
use codex_watchdog.Memory.Records.{QueueFile}
use codex_watchdog.Memory.Queue.{enqueue_event, claim_next, recover_inflight}
use codex_watchdog.Memory.Worker.{Tick, Settings, process_next}

-- A round that is cut off leaves the memory hub in some state.
pub data Happening (Hub : Type 0) : Type 0 where
  comes_in : (utcnow : String) → SessionEvent → Happening Hub
  round : Tick → Happening Hub
  cut_off : Tick → Hub → Happening Hub
  starts_again : (utcnow : String) → Happening Hub

module _ (model_dump : SessionEvent → Dict Value) (fromisoformat : String → Result Moment)
    (iso_z : ℕ → String) {Hub : Type 0} (ingest : Hub → Dict Value → Option String × Hub)
    (s : Settings) where
  unfoldable pub happen : Happening Hub → QueueFile × Hub → QueueFile × Hub
  unfolding enqueue_event process_next claim_next recover_inflight
  happen (comes_in utcnow e) (f, hub) = ((enqueue_event model_dump utcnow f e).1, hub)
  happen (round t) (f, hub) =
      let after = process_next fromisoformat iso_z ingest s t (f, hub) in (after.1, after.2)
  happen (cut_off t left) (f, hub) =
      ((claim_next t.claimed_at fromisoformat t.current_time f).1, left)
  happen (starts_again utcnow) (f, hub) = ((recover_inflight utcnow f).1, hub)

  unfoldable pub happen_all : List (Happening Hub) → QueueFile × Hub → QueueFile × Hub
  unfolding happen
  happen_all [] state = state
  happen_all (h ∷ hs) state = happen_all hs (happen h state)

-- How many rounds of a sequence were cut off.
abbrev pub cut_offs : {Hub : Type 0} → List (Happening Hub) → ℕ
cut_offs [] = 0
cut_offs (cut_off t left ∷ hs) = suc (cut_offs hs)
cut_offs (_ ∷ hs) = cut_offs hs
