-- ===== src/Workers/Unstarted.antt =====
-- What becomes of a worker whose first event after the request is a heartbeat, in
-- future_worker/service.py: the tables let it run without a start.
use codex_watchdog.Session.Records.{StoreFile}
use codex_watchdog.Workers.Models.{
  WorkerState, Lifecycle, start, complete, running, completed, failed, cancelled, event_name,
}
use codex_watchdog.Workers.Log.{last_named, current_worker_state}
use codex_watchdog.Workers.Record.{Worker}
use codex_watchdog.Common.{
  String, ◌≡◌, refl, sym, ap, ◌∙◌, ◌≢◌, ◌⊎◌, inl, inr, Bool, true, false, Option, none, some, List,
  [], ◌∷◌, arith, ◌==◌, Bool-cases, Result,
}
use codex_watchdog.Workers.Writes.{Wrote, Adds, is_for}
use codex_watchdog.Workers.Diagram.{
  Edge, asked, began, appeared, dropped, withdrawn, beat, told, delivered, broke, stopped, taken,
  declined, target,
}
use codex_watchdog.Workers.Calls.{Act, event_of_act, perform, perform_all}
use codex_watchdog.Workers.Outcomes.{Outcome, barred, moved, Outcome-perform, Prepared}
use codex_watchdog.Workers.Effects.{
  refusal-state, event-state, is_for-same, named-kept, named-other,
}

abbrev is_adrift : Option WorkerState → Bool
is_adrift (some running) = true
is_adrift (some failed) = true
is_adrift (some cancelled) = true
is_adrift _ = false

-- The worker runs, or is at an end, without an event that started it.
abbrev Adrift : String → String → StoreFile → Type 0
Adrift s r f = (is_adrift (current_worker_state f s r) ≡ true) × (last_named f s r start ≡ none)

Edge-adrift :
    {o : Option WorkerState} {e : Lifecycle} {t : WorkerState}
    → Edge o e t
    → is_adrift o ≡ true
    → ((event_name e == event_name start) ≡ false) × ((e ≡ complete) ⊎ (is_adrift (some t) ≡ true))
Edge-adrift asked h = cc
Edge-adrift began h = cc
Edge-adrift appeared h = cc
Edge-adrift dropped h = cc
Edge-adrift withdrawn h = cc
Edge-adrift beat h = (refl, inr refl)
Edge-adrift told h = (refl, inr refl)
Edge-adrift delivered h = (refl, inl refl)
Edge-adrift broke h = (refl, inr refl)
Edge-adrift stopped h = (refl, inr refl)
Edge-adrift taken h = cc
Edge-adrift declined h = cc

module _ (f : StoreFile) (w : Worker) (g : StoreFile) (s r : String) where
  refusal-Adrift : Wrote f w "future_worker_transition_rejected" g → Adrift s r f → Adrift s r g
  refusal-Adrift wrote (state, unstarted) =
      (ap is_adrift (refusal-state f w g wrote s r) ∙ state, (kept wrote ∙ unstarted))
    where
      kept :
          Wrote f w "future_worker_transition_rejected" g
          → last_named g s r start ≡ last_named f s r start
      kept (inl same) = ap (λ h. last_named h s r start) same
      kept (inr a) = named-kept f w "future_worker_transition_rejected" g start s r a refl

  unprepared :
      (e : Lifecycle)
      → e ≡ complete
      → Prepared f w e
      → ¬ (last_named f w.parent_session_id w.worker_task_ref start ≡ none)
  unfolding Prepared
  unprepared e same prepared unstarted =
      let (event, found) = rw same at prepared in ground (arith, found)

  -- A completion is out of reach, and no other edge leads away.
  event-Adrift :
      (e : Lifecycle)
      → Edge (current_worker_state f w.parent_session_id w.worker_task_ref) e (target e)
      → Prepared f w e
      → Adds f w (event_name e) g
      → Adrift s r f
      → Adrift s r g
  event-Adrift e edge prepared a (state, unstarted) = elim (Bool-cases (is_for w s r)) [
    | inr other ↦ (
      ap is_adrift (rw other at (event-state f w g e a s r)) ∙ state,
      named-other f w (event_name e) g start s r a other ∙ unstarted,
    )
    | inl same ↦
        let (session, worker) = is_for-same w s r same in
        let (later, onward) = Edge-adrift (rw (session, worker) at edge) state in
        (
          elim onward [
            | inl done ↦ absurd (unprepared e done prepared (rw (session, worker) unstarted))
            | inr adrift ↦ ap is_adrift (rw same at (event-state f w g e a s r)) ∙ adrift
          ],
          named-kept f w (event_name e) g start s r a later ∙ unstarted,
        )
  ]

module _ (digest : String → String) (utcnow : String) (s r : String) where
  perform-Adrift :
      (f : StoreFile) (w : Worker) (a : Act)
      → Adrift s r f
      → Adrift s r (perform digest utcnow w a f).1
  perform-Adrift f w a adrift =
      go (perform digest utcnow w a f) (Outcome-perform digest utcnow f w a)
    where
      go : (x : Result (Unit {0}) × StoreFile) → Outcome f w (event_of_act a) x → Adrift s r x.1
      go x (barred error g wrote) = refusal-Adrift f w g s r wrote adrift
      go x (moved b g edge prepared (inl same)) = rw same adrift
      go x (moved b g edge prepared (inr adds)) =
          event-Adrift f w g s r (event_of_act a) edge prepared adds adrift

  perform_all-Adrift :
      (f : StoreFile) (calls : List (Worker × Act))
      → Adrift s r f
      → Adrift s r (perform_all digest utcnow f calls)
  unfolding perform_all
  perform_all-Adrift f [] adrift = adrift
  perform_all-Adrift f ((w, a) ∷ calls) adrift =
      perform_all-Adrift (perform digest utcnow w a f).1 calls (perform-Adrift f w a adrift)

-- A worker that is running though the log has no event that started it is completed by no later
-- calls, whatever they are.
pub unstarted_never_completes :
    (digest : String → String) (utcnow : String) (f : StoreFile) (calls : List (Worker × Act))
    (s r : String)
    → current_worker_state f s r ≡ some running
    → last_named f s r start ≡ none
    → current_worker_state (perform_all digest utcnow f calls) s r ≢ some completed
unstarted_never_completes digest utcnow f calls s r runs unstarted done = ground (
  arith,
  sym (ap is_adrift done)
      ∙ (perform_all-Adrift digest utcnow s r f calls (ap is_adrift runs, unstarted)).0,
)
