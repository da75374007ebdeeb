-- ===== src/Workers/Diagram.antt =====
-- The life of a worker, as a diagram: which event leads from which state to which. It is written down
-- edge by edge, apart from the tables of future_worker/service.py.
use codex_watchdog.Workers.Models.{
  WorkerState, Lifecycle, request, start, heartbeat, publish, complete, fail, cancel, consume,
  reject, requested, running, completed, failed, cancelled, consumed, rejected, event_name,
  worker_state_by_event_type, is_terminal_state, allowed_next_worker_events,
}
use codex_watchdog.Common.{◌≡◌, refl, true, false, Option, none, some, get}
use codex_watchdog.Common.Texts.{one_of}

pub data Edge : Option WorkerState → Lifecycle → WorkerState → Type 0 where
  asked : Edge none request requested
  began : Edge (some requested) start running
  appeared : Edge (some requested) heartbeat running
  dropped : Edge (some requested) fail failed
  withdrawn : Edge (some requested) cancel cancelled
  beat : Edge (some running) heartbeat running
  told : Edge (some running) publish running
  delivered : Edge (some running) complete completed
  broke : Edge (some running) fail failed
  stopped : Edge (some running) cancel cancelled
  taken : Edge (some completed) consume consumed
  declined : Edge (some completed) reject rejected

-- One step along some edge.
infix 4 ◌⟶◌
pub data ◌⟶◌ : Option WorkerState → Option WorkerState → Type 0 where
  along : {o : Option WorkerState} {e : Lifecycle} {t : WorkerState} → Edge o e t → o ⟶ some t

-- Any number of steps.
infix 4 ◌⟶*◌
pub data ◌⟶*◌ : Option WorkerState → Option WorkerState → Type 0 where
  here : {o : Option WorkerState} → o ⟶* o
  step : {o o' o'' : Option WorkerState} → o ⟶ o' → o' ⟶* o'' → o ⟶* o''

abbrev pub target : Lifecycle → WorkerState
target request = requested
target start = running
target heartbeat = running
target publish = running
target complete = completed
target fail = failed
target cancel = cancelled
target consume = consumed
target reject = rejected

-- The table of the states has the targets of the diagram.
pub state_of-target :
    (e : Lifecycle) → get (event_name e) worker_state_by_event_type ≡ some (target e)
unfolding get
state_of-target request = refl
state_of-target start = refl
state_of-target heartbeat = refl
state_of-target publish = refl
state_of-target complete = refl
state_of-target fail = refl
state_of-target cancel = refl
state_of-target consume = refl
state_of-target reject = refl

-- The table of the allowed events has only edges of the diagram.
pub allowed-Edge :
    (o : Option WorkerState) (e : Lifecycle)
    → one_of (allowed_next_worker_events o) (event_name e) ≡ true
    → Edge o e (target e)
unfolding one_of
allowed-Edge none request h = asked
allowed-Edge none start h = cc
allowed-Edge none heartbeat h = cc
allowed-Edge none publish h = cc
allowed-Edge none complete h = cc
allowed-Edge none fail h = cc
allowed-Edge none cancel h = cc
allowed-Edge none consume h = cc
allowed-Edge none reject h = cc
allowed-Edge (some requested) request h = cc
allowed-Edge (some requested) start h = began
allowed-Edge (some requested) heartbeat h = appeared
allowed-Edge (some requested) publish h = cc
allowed-Edge (some requested) complete h = cc
allowed-Edge (some requested) fail h = dropped
allowed-Edge (some requested) cancel h = withdrawn
allowed-Edge (some requested) consume h = cc
allowed-Edge (some requested) reject h = cc
allowed-Edge (some running) request h = cc
allowed-Edge (some running) start h = cc
allowed-Edge (some running) heartbeat h = beat
allowed-Edge (some running) publish h = told
allowed-Edge (some running) complete h = delivered
allowed-Edge (some running) fail h = broke
allowed-Edge (some running) cancel h = stopped
allowed-Edge (some running) consume h = cc
allowed-Edge (some running) reject h = cc
allowed-Edge (some completed) request h = cc
allowed-Edge (some completed) start h = cc
allowed-Edge (some completed) heartbeat h = cc
allowed-Edge (some completed) publish h = cc
allowed-Edge (some completed) complete h = cc
allowed-Edge (some completed) fail h = cc
allowed-Edge (some completed) cancel h = cc
allowed-Edge (some completed) consume h = taken
allowed-Edge (some completed) reject h = declined
allowed-Edge (some failed) e h = cc
allowed-Edge (some cancelled) e h = cc
allowed-Edge (some consumed) e h = cc
allowed-Edge (some rejected) e h = cc

-- The table has every edge of the diagram.
pub Edge-allowed :
    {o : Option WorkerState} {e : Lifecycle} {t : WorkerState}
    → Edge o e t
    → (one_of (allowed_next_worker_events o) (event_name e) ≡ true) × (target e ≡ t)
unfolding one_of
Edge-allowed asked = (refl, refl)
Edge-allowed began = (refl, refl)
Edge-allowed appeared = (refl, refl)
Edge-allowed dropped = (refl, refl)
Edge-allowed withdrawn = (refl, refl)
Edge-allowed beat = (refl, refl)
Edge-allowed told = (refl, refl)
Edge-allowed delivered = (refl, refl)
Edge-allowed broke = (refl, refl)
Edge-allowed stopped = (refl, refl)
Edge-allowed taken = (refl, refl)
Edge-allowed declined = (refl, refl)

-- No edge leaves a final state.
pub Edge-final :
    {o : Option WorkerState} {e : Lifecycle} {t : WorkerState}
    → Edge o e t
    → is_terminal_state o ≡ false
Edge-final asked = refl
Edge-final began = refl
Edge-final appeared = refl
Edge-final dropped = refl
Edge-final withdrawn = refl
Edge-final beat = refl
Edge-final told = refl
Edge-final delivered = refl
Edge-final broke = refl
Edge-final stopped = refl
Edge-final taken = refl
Edge-final declined = refl
