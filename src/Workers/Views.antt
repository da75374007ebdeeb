-- ===== src/Workers/Views.antt =====
-- How one more event changes what future_worker/service.py reads in the session's log.
use codex_watchdog.Workers.Models.{event_name, Lifecycle}
use codex_watchdog.Workers.Log.{
  if_named, last_named, find_last, is_about, worker_events, state_after, current_worker_state,
}
use codex_watchdog.Common.{
  String, ◌≡◌, refl, inl, inr, Bool, ◌&&◌, Option, none, some, List, [], ◌∷◌, ◌++◌, arith,
  if◌then◌else◌, Bool-cases, keep,
}
use codex_watchdog.Common.Values.{text_eq, option_eq}
use codex_watchdog.Session.Records.{SessionEvent, StoreFile}
use codex_watchdog.Session.Reads.{list_events, only, only_related}

module _ {B : Type 0} where
  abbrev pub over : Option B → Option B → Option B
  over (some b) o = some b
  over none o = o

  find_last-snoc :
      {A : Type 0} (test : A → Option B) (xs : List A) (x : A)
      → find_last test (xs ++ x ∷ []) ≡ over (test x) (find_last test xs)
  unfolding find_last
  find_last-snoc test [] x = ground arith
  find_last-snoc test (y ∷ xs) x = ground (arith, find_last-snoc test xs x)

keep-snoc :
    {A : Type 0} (p : A → Bool) (xs : List A) (x : A)
    → keep p (xs ++ x ∷ []) ≡ (if p x then keep p xs ++ x ∷ [] else keep p xs)
unfolding keep
keep-snoc p [] x = ground arith
keep-snoc p (y ∷ xs) x = ground (arith, keep-snoc p xs x)

abbrev pub in_session : String → SessionEvent → Bool
in_session s e = option_eq text_eq (some e.session_id) (some s)

-- What the log says of the worker `r` of session `s`: the answer of the last of its events that
-- has one.
module _ {B : Type 0} (answer : SessionEvent → Option B) (s r : String) where
  unfoldable pub said_of : List SessionEvent → Option B
  said_of events = find_last answer (keep (is_about r) (keep (in_session s) events))

  -- One more event is asked first if it is of the worker, and not at all otherwise.
  pub said_of-snoc :
      (xs : List SessionEvent) (x : SessionEvent)
      → said_of (xs ++ x ∷ [])
        ≡ (if in_session s x && is_about r x then over (answer x) (said_of xs) else said_of xs)
  unfolding said_of
  said_of-snoc xs x = elim (Bool-cases (in_session s x)) [
    | inr other ↦ rw (keep-snoc (in_session s) xs x, other) refl
    | inl here ↦ elim (Bool-cases (is_about r x)) [
      | inl about ↦
          rw
            (
              keep-snoc (in_session s) xs x,
              here,
              keep-snoc (is_about r) (keep (in_session s) xs) x,
              about,
              find_last-snoc answer (keep (is_about r) (keep (in_session s) xs)) x,
            )
            refl
      | inr not_about ↦
          rw
            (
              keep-snoc (in_session s) xs x,
              here,
              keep-snoc (is_about r) (keep (in_session s) xs) x,
              not_about,
            )
            refl
    ]
  ]

module _ (f : StoreFile) (s r : String) where
  pub current-said : current_worker_state f s r ≡ said_of state_after s r f.events
  unfolding current_worker_state worker_events list_events only only_related said_of
  current-said = refl

  pub last_named-said :
      (event : Lifecycle)
      → last_named f s r event ≡ said_of (if_named (event_name event)) s r f.events
  unfolding last_named worker_events list_events only only_related said_of
  last_named-said event = refl
