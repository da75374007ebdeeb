-- ===== src/Workers/Writes.antt =====
-- What one write of future_worker/service.py leaves in the session's log.
use codex_watchdog.Workers.Record.{
  lifecycle_correlation_id, Worker, Draft, record_for_worker, record_lifecycle_event,
  record_transition_rejected, merge, set_default, draft_of, first_draft, add_trace,
  add_native_thread, with_trace, with_native_thread, is_request,
}
use codex_watchdog.Session.Records.{SessionEvent, StoreFile, event_stored, validate_event}
use codex_watchdog.Session.Append.{EventRequest, record_event, event_of, append_event}
use codex_watchdog.Session.Invariant.{append_event-cases}
use codex_watchdog.Workers.Models.{Lifecycle, event_name}
use codex_watchdog.Workers.Log.{decision_trace_ref_for_worker, parent_native_thread_id_for_worker}
use codex_watchdog.Common.{
  String, ◌≡◌, refl, sym, ap, ◌∙◌, ◌⊎◌, inl, inr, Bool, true, false, ◌&&◌, not, Option, none, some,
  [], ◌∷◌, ◌++◌, arith, ◌==◌, if◌then◌else◌, Bool-cases, Option-cases, is_none, Error, Result, ok,
  raise, ◌>>=◌, >>=-eq-ok, Dict, get, put, get-put_ne,
}
use codex_watchdog.Common.Values.{Value, text_eq}

-- Whether `w` is the worker `r` of session `s`.
abbrev pub is_for : Worker → String → String → Bool
is_for w s r = text_eq w.parent_session_id s && text_eq w.worker_task_ref r

-- The log of `g` is the log of `f` and one event of type `t` of the worker.
pub record Adds (f : StoreFile) (w : Worker) (t : String) (g : StoreFile) : Type 0 where
  pub event : SessionEvent
  pub split : g.events ≡ f.events ++ event ∷ []
  pub session : event.session_id ≡ w.parent_session_id
  pub event_type : event.event_type ≡ t
  pub worker : get "worker_task_ref" event.related_ids ≡ some w.worker_task_ref

-- The session had the event already and is as before, or has one event more.
abbrev pub Wrote : StoreFile → Worker → String → StoreFile → Type 0
Wrote f w t g = (g ≡ f) ⊎ Adds f w t g

twice_guarded :
    {A : Type 0} (a b : Bool) (x y : Error) {e v : A}
    → (if a then raise x else if b then ok e else raise y) ≡ ok v
    → v ≡ e
twice_guarded true b x y h = cc
twice_guarded false true x y h = ground arith
twice_guarded false false x y h = cc

validate_event-same : (e : SessionEvent) {v : SessionEvent} → validate_event e ≡ ok v → v ≡ e
unfolding validate_event
validate_event-same e h = twice_guarded _ _ _ _ h

keeps_file :
    {A B : Type 0} (r : Result (A × B)) {a : A}
    → r >>= (λ (x, y). ok x) ≡ ok a
    → (b : B) × (r ≡ ok (a, b))
keeps_file (ok (x, y)) h = (y, ground arith)
keeps_file (raise error) h = cc

module _ (digest : String → String) (utcnow : String) (f : StoreFile) (w : Worker) where
  record_event-Wrote :
      (r : EventRequest) {g : StoreFile} {e : SessionEvent}
      → r.session_id ≡ w.parent_session_id
      → get "worker_task_ref" r.related_ids ≡ some w.worker_task_ref
      → record_event digest f r ≡ ok (g, e)
      → Wrote f w r.event_type g
  unfolding record_event event_of
  record_event-Wrote r session named h =
      let (v, valid, appended) =
        >>=-eq-ok (validate_event (event_of digest r)) (λ v. append_event f v) h in
      let same = validate_event-same (event_of digest r) valid in
      elim (append_event-cases f v appended) [
        | inl there ↦ inl there.0
        | inr new ↦ inr (record {
          event = event_stored.assign f.next_log_seq (event_of digest r);
          split = rw (new.0, same) refl;
          session = session;
          event_type = refl;
          worker = named;
        })
      ]

  pub record_for_worker-Wrote :
      (t c : String) (d : Draft) (g : StoreFile)
      → get "worker_task_ref" d.related_ids ≡ some w.worker_task_ref
      → record_for_worker digest utcnow f w t c d ≡ ok g
      → Wrote f w t g
  unfolding record_for_worker
  record_for_worker-Wrote t c d g named h =
      let (e, recorded) =
        keeps_file
          (record_event digest f (record {
            event_type = t;
            project_id = w.project_id;
            session_id = w.parent_session_id;
            occurred_at = if w.occurred_at == "" then utcnow else w.occurred_at;
            causation_id = none;
            correlation_id = c;
            related_ids = d.related_ids;
            payload = d.payload;
          }))
          h in
      record_event-Wrote
        (record {
          event_type = t;
          project_id = w.project_id;
          session_id = w.parent_session_id;
          occurred_at = if w.occurred_at == "" then utcnow else w.occurred_at;
          causation_id = none;
          correlation_id = c;
          related_ids = d.related_ids;
          payload = d.payload;
        })
        refl named recorded

get-merge : {V : Type 0} (k : String) (d e : Dict V) → get k e ≡ none → get k (merge d e) ≡ get k d
unfolding merge get
get-merge k d [] h = refl
get-merge k d ((j, v) ∷ e) h = elim (Bool-cases (j == k)) [
  | inl same ↦ cc
  | inr other ↦ get-merge k (put j v d) e (ground arith) ∙ get-put_ne j k v d other
]

get-set_default_ne :
    {V : Type 0} (k j : String) (v : V) (d : Dict V)
    → (k == j) ≡ false
    → get j (set_default k v d) ≡ get j d
unfolding set_default
get-set_default_ne k j v d h = elim (Option-cases (get k d)) [
  | inl missing ↦ rw (set_default, missing) (get-put_ne k j v d h)
  | inr (u, there) ↦ rw (set_default, there) refl
]

abbrev name_of : Draft → Option String
name_of d = get "worker_task_ref" d.related_ids

ok-inj : {A : Type 0} {x y : A} → Result.ok x ≡ ok y → x ≡ y
ok-inj h = ground arith

-- Neither completion of a draft changes the worker that it names.
module _ (f : StoreFile) (w : Worker) (event : Lifecycle) where
  add_trace-name : (d : Draft) {d' : Draft} → add_trace f w event d ≡ ok d' → name_of d' ≡ name_of d
  unfolding add_trace
  add_trace-name d h =
      elim (Bool-cases
        (not (is_request event) && is_none (get "decision_trace_ref" d.related_ids))) [
          | inl wanted ↦
              let (trace, found, done) =
                >>=-eq-ok (decision_trace_ref_for_worker f w.parent_session_id w.worker_task_ref)
                  (λ trace. ok (with_trace trace d)) (rw (add_trace, wanted) at h) in
              ap name_of (sym (ok-inj done))
              ∙ get-put_ne "decision_trace_ref" "worker_task_ref" trace d.related_ids refl
          | inr there ↦ ap name_of (sym (ok-inj (rw (add_trace, there) at h)))
        ]

  with_native_thread-name :
      (thread : Option String) (d : Draft) → name_of (with_native_thread thread d) ≡ name_of d
  with_native_thread-name none d = refl
  with_native_thread-name (some thread) d =
      get-set_default_ne "parent_native_thread_id" "worker_task_ref" thread d.related_ids refl

  add_native_thread-name :
      (d : Draft) {d' : Draft} → add_native_thread f w event d ≡ ok d' → name_of d' ≡ name_of d
  unfolding add_native_thread
  add_native_thread-name d h = elim (Bool-cases (is_request event)) [
    | inl first ↦ ap name_of (sym (ok-inj (rw (add_native_thread, first) at h)))
    | inr later ↦
        let (thread, found, done) =
          >>=-eq-ok (parent_native_thread_id_for_worker f w.parent_session_id w.worker_task_ref)
            (λ thread. ok (with_native_thread thread d)) (rw (add_native_thread, later) at h) in
        ap name_of (sym (ok-inj done)) ∙ with_native_thread-name thread d
  ]

  -- A draft names the worker, unless the caller's own entries do.
  draft_of-name :
      (related_ids : Dict String) (payload : Dict Value) {d : Draft}
      → get "worker_task_ref" related_ids ≡ none
      → draft_of f w event related_ids payload ≡ ok d
      → name_of d ≡ some w.worker_task_ref
  unfolding draft_of first_draft get
  draft_of-name related_ids payload free h =
      let (d', traced, done) =
        >>=-eq-ok (add_trace f w event (first_draft f w related_ids payload))
          (λ d. add_native_thread f w event d) h in
      add_native_thread-name d' done
      ∙ add_trace-name (first_draft f w related_ids payload) traced
      ∙ get-merge "worker_task_ref" (("worker_task_ref", w.worker_task_ref) ∷ []) related_ids free

module _ (digest : String → String) (utcnow : String) (f : StoreFile) (w : Worker) where
  -- An event of a worker's life is one more event of its type, or was there.
  pub record_lifecycle_event-Wrote :
      (event : Lifecycle) (related_ids : Dict String) (payload : Dict Value) (g : StoreFile)
      → get "worker_task_ref" related_ids ≡ none
      → record_lifecycle_event digest utcnow f w event related_ids payload ≡ ok g
      → Wrote f w (event_name event) g
  unfolding record_lifecycle_event
  record_lifecycle_event-Wrote event related_ids payload g free h =
      let (d, drafted, done) =
        >>=-eq-ok (draft_of f w event related_ids payload)
          (λ d.
            record_for_worker digest utcnow f w (event_name event)
              (lifecycle_correlation_id w event) d)
          h in
      record_for_worker-Wrote digest utcnow f w (event_name event)
        (lifecycle_correlation_id w event) d g
        (draft_of-name f w event related_ids payload free drafted) done

  pub record_transition_rejected-Wrote :
      (attempted : Lifecycle) (current reason : String) (g : StoreFile)
      → record_transition_rejected digest utcnow f w attempted current reason ≡ ok g
      → Wrote f w "future_worker_transition_rejected" g
  unfolding record_transition_rejected get
  record_transition_rejected-Wrote attempted current reason g h =
      let (trace, found, rest) =
        >>=-eq-ok (decision_trace_ref_for_worker f w.parent_session_id w.worker_task_ref) _ h in
      let (thread, known, done) =
        >>=-eq-ok (parent_native_thread_id_for_worker f w.parent_session_id w.worker_task_ref) _
          rest in
      record_for_worker-Wrote digest utcnow f w "future_worker_transition_rejected" _ _ g refl done
