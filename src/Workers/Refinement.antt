-- ===== src/Workers/Refinement.antt =====
-- future_worker/service.py follows the diagram: one call, any sequence of calls, and the calls of a
-- worker that was never started.
use codex_watchdog.Session.Records.{StoreFile}
use codex_watchdog.Workers.Models.{WorkerState, Lifecycle, is_terminal_state}
use codex_watchdog.Workers.Log.{current_worker_state}
use codex_watchdog.Workers.Record.{Worker}
use codex_watchdog.Common.{
  String, ◌≡◌, refl, ap, ◌⊎◌, inl, inr, true, Option, List, [], ◌∷◌, arith, Bool-cases, Error,
  Result, raise,
}
use codex_watchdog.Workers.Writes.{is_for}
use codex_watchdog.Workers.Effects.{Arrives, refusal-state, event-state, is_for-same}
use codex_watchdog.Workers.Diagram.{Edge, target, ◌⟶◌, along, ◌⟶*◌, here, step, Edge-final}
use codex_watchdog.Workers.Calls.{Act, event_of_act, perform, perform_all}
use codex_watchdog.Workers.Outcomes.{Outcome, barred, moved, Outcome-perform}

abbrev state_of : Worker → StoreFile → Option WorkerState
state_of w f = current_worker_state f w.parent_session_id w.worker_task_ref

module _ (f : StoreFile) (w : Worker) where
  abbrev ArrivesOrRepeats : StoreFile → WorkerState → Type 0
  ArrivesOrRepeats g state = (g ≡ f) ⊎ Arrives f w g state

  Outcome-raise :
      (e : Lifecycle) (g : StoreFile) (error : Error)
      → Outcome {A = Unit {0}} f w e (raise error, g)
      → (s r : String) → current_worker_state g s r ≡ current_worker_state f s r
  Outcome-raise e g error (barred again h wrote) = refusal-state f w g wrote

  -- One call leaves a worker's state or follows an edge.
  Arrives-step :
      (e : Lifecycle) (g : StoreFile) (s r : String)
      → Edge (state_of w f) e (target e)
      → Arrives f w g (target e)
      → (current_worker_state g s r ≡ current_worker_state f s r)
        ⊎ (current_worker_state f s r ⟶ current_worker_state g s r)
  Arrives-step e g s r edge moves = elim (Bool-cases (is_for w s r)) [
    | inr other ↦ inl (rw other at (moves s r))
    | inl same ↦
        let (session, worker) = is_for-same w s r same in
        inr (rw (moves s r, same) (along (rw (session, worker) at edge)))
  ]

module _ (digest : String → String) (utcnow : String) where
  -- A call of the future worker service that raises, whether it was refused, found something
  -- missing or could not write, leaves every worker in the state it was in.
  pub raising_moves_nothing :
      (f : StoreFile) (w : Worker) (a : Act) (error : Error) (g : StoreFile)
      → perform digest utcnow w a f ≡ (raise error, g)
      → (s r : String) → current_worker_state g s r ≡ current_worker_state f s r
  raising_moves_nothing f w a error g h =
      Outcome-raise f w (event_of_act a) g error (rw h at (Outcome-perform digest utcnow f w a))

  perform-step :
      (f : StoreFile) (w : Worker) (a : Act) (s r : String)
      → let g : StoreFile = (perform digest utcnow w a f).1 in
        (current_worker_state g s r ≡ current_worker_state f s r)
        ⊎ (current_worker_state f s r ⟶ current_worker_state g s r)
  perform-step f w a s r = go (perform digest utcnow w a f) (Outcome-perform digest utcnow f w a)
    where
      go :
          (x : Result (Unit {0}) × StoreFile)
          → Outcome f w (event_of_act a) x
          → (current_worker_state x.1 s r ≡ current_worker_state f s r)
            ⊎ (current_worker_state f s r ⟶ current_worker_state x.1 s r)
      go x (barred error g wrote) = inl (refusal-state f w g wrote s r)
      go x (moved b g edge prepared (inl same)) = inl (ap (λ h. current_worker_state h s r) same)
      go x (moved b g edge prepared (inr adds)) =
          Arrives-step f w (event_of_act a) g s r edge (event-state f w g (event_of_act a) adds)

  -- Whatever sequence of calls is made of the future worker service, accepted or not, each worker
  -- gets from its state to its new state along edges of the diagram.
  pub perform_all-path :
      (f : StoreFile) (calls : List (Worker × Act)) (s r : String)
      → current_worker_state f s r ⟶* current_worker_state (perform_all digest utcnow f calls) s r
  unfolding perform_all
  perform_all-path f [] s r = here
  perform_all-path f ((w, a) ∷ calls) s r =
      let rest = perform_all-path (perform digest utcnow w a f).1 calls s r in
      elim (perform-step f w a s r) [ inl same ↦ rw same at rest | inr edge ↦ step edge rest ]

path-final : {o o' : Option WorkerState} → o ⟶* o' → is_terminal_state o ≡ true → o' ≡ o
path-final here h = refl
path-final (step (along edge) rest) h = ground (arith, Edge-final edge)

-- A worker that is failed, cancelled, consumed or rejected stays so through any later calls.
pub final_forever :
    (digest : String → String) (utcnow : String) (f : StoreFile) (calls : List (Worker × Act))
    (s r : String)
    → is_terminal_state (current_worker_state f s r) ≡ true
    → current_worker_state (perform_all digest utcnow f calls) s r ≡ current_worker_state f s r
final_forever digest utcnow f calls s r final =
    path-final (perform_all-path digest utcnow f calls s r) final
