-- ===== src/Workers/Effects.antt =====
-- What a new event of a worker changes in what future_worker/service.py reads of each worker.
use codex_watchdog.Session.Records.{SessionEvent, StoreFile}
use codex_watchdog.Workers.Models.{WorkerState, Lifecycle, event_name}
use codex_watchdog.Workers.Log.{state_after, if_named, last_named, current_worker_state}
use codex_watchdog.Workers.Record.{Worker}
use codex_watchdog.Workers.Views.{over, said_of, said_of-snoc, current-said, last_named-said}
use codex_watchdog.Common.{
  String, ◌≡◌, refl, ap, inl, inr, Bool, true, false, Option, some, arith, ◌==◌, eq_iff,
  if◌then◌else◌, get,
}
use codex_watchdog.Common.Values.{option_eq}
use codex_watchdog.Workers.Writes.{Wrote, Adds, is_for}
use codex_watchdog.Workers.Diagram.{target, state_of-target}

either : {A : Type 0} (b : Bool) (a : A) → (if b then a else a) ≡ a
either true a = refl
either false a = refl

module _ {B : Type 0} (answer : SessionEvent → Option B) (f : StoreFile) (w : Worker) (t : String)
    (g : StoreFile) where
  -- A new event of a worker counts for that worker alone.
  pub Adds-said :
      (a : Adds f w t g) (s r : String)
      → said_of answer s r g.events ≡ (
          if is_for w s r
          then over (answer a.event) (said_of answer s r f.events)
          else said_of answer s r f.events)
  unfolding option_eq
  Adds-said a s r = rw (a.split, said_of-snoc answer s r f.events a.event, a.session, a.worker) refl

module _ (f : StoreFile) (w : Worker) (g : StoreFile) where
  abbrev pub Arrives : WorkerState → Type 0
  Arrives state =
      (s r : String)
      → current_worker_state g s r
        ≡ (if is_for w s r then some state else current_worker_state f s r)

  pub refusal-state :
      Wrote f w "future_worker_transition_rejected" g
      → (s r : String) → current_worker_state g s r ≡ current_worker_state f s r
  unfolding get
  refusal-state (inl same) s r = ap (λ h. current_worker_state h s r) same
  refusal-state (inr a) s r =
      rw (current-said g s r, Adds-said state_after f w _ g a s r, a.event_type, current-said f s r)
        (either (is_for w s r) (said_of state_after s r f.events))

  pub event-state : (e : Lifecycle) → Adds f w (event_name e) g → Arrives (target e)
  event-state e a s r =
      rw
        (
          current-said g s r,
          Adds-said state_after f w _ g a s r,
          a.event_type,
          state_of-target e,
          current-said f s r,
        )
        refl

pub is_for-same :
    (w : Worker) (s r : String)
    → is_for w s r ≡ true
    → (w.parent_session_id ≡ s) × (w.worker_task_ref ≡ r)
is_for-same w s r h = ground (arith, eq_iff w.parent_session_id s, eq_iff w.worker_task_ref r)

-- An event of another type leaves the last one that is called `event`.
pub named-kept :
    (f : StoreFile) (w : Worker) (t : String) (g : StoreFile) (event : Lifecycle) (s r : String)
    → Adds f w t g
    → (t == event_name event) ≡ false
    → last_named g s r event ≡ last_named f s r event
named-kept f w t g event s r a other =
    rw
      (
        last_named-said g s r event,
        last_named-said f s r event,
        Adds-said (if_named (event_name event)) f w t g a s r,
        a.event_type,
        other,
      )
      (either (is_for w s r) (said_of (if_named (event_name event)) s r f.events))

-- An event of another worker leaves it too.
pub named-other :
    (f : StoreFile) (w : Worker) (t : String) (g : StoreFile) (event : Lifecycle) (s r : String)
    → Adds f w t g
    → is_for w s r ≡ false
    → last_named g s r event ≡ last_named f s r event
named-other f w t g event s r a other =
    rw
      (
        last_named-said g s r event,
        last_named-said f s r event,
        Adds-said (if_named (event_name event)) f w t g a s r,
        other,
      )
      refl
