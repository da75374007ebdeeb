-- ===== src/Leases/Service.antt =====
-- Any sequence of calls of the store: the log and the table agree after each, whatever was
-- refused on the way, and no command's entry ever goes back.
use codex_watchdog.Common.{
  ℕ, String, ◌≡◌, refl, sym, ◌⊎◌, inl, inr, List, [], ◌∷◌, arith, Result, ok, raise, Dict,
}
use codex_watchdog.Common.Values.{Value}
use mathlib.Core.Path.{subst}
use codex_watchdog.Leases.State.{LeaseEvent, LeaseFile, Moment}
use codex_watchdog.Leases.Operations.{
  Store, claimed_file, renewed_file, terminal_file, expired_file, mirror_events, commit,
  claim_command, renew_lease, record_terminal_result, finish_expiry, expire_and_requeue_expired,
}
use codex_watchdog.Leases.Replay.{
  IsReplay, claimed_file-IsReplay, renewed_file-IsReplay, terminal_file-IsReplay,
  expired_file-IsReplay,
}
use codex_watchdog.Leases.Fencing.{
  Progress, Progress-refl, Progress-trans, claimed_file-Progress, renewed_file-Progress,
  terminal_file-Progress, expired_file-Progress,
}

pub data Request : Type 0 where
  claim : (command_id session_id worker_id claimed_at lease_expires_at : String) → Request
  renew :
      (command_id worker_id : String) (claim_seq : ℕ) (renewed_at lease_expires_at : String)
      → Request
  finish :
      (command_id worker_id : String) (claim_seq : ℕ) (result_type occurred_at : String)
      (payload : Dict Value)
      → Request
  expire : (now reason : String) → Request

module _ (digest : String → String) (fromisoformat : String → Result Moment) where
  -- The store that a request leaves behind, whether the method returns or raises.
  pub handle : Store → Request → Store
  handle s (claim command_id session_id worker_id claimed_at lease_expires_at) =
      (claim_command digest s command_id session_id worker_id claimed_at lease_expires_at).1
  handle s (renew command_id worker_id claim_seq renewed_at lease_expires_at) =
      (renew_lease digest s command_id worker_id claim_seq renewed_at lease_expires_at).1
  handle s (finish command_id worker_id claim_seq result_type occurred_at payload) =
      (record_terminal_result digest s command_id worker_id claim_seq result_type occurred_at
        payload).1
  handle s (expire now reason) = (expire_and_requeue_expired digest fromisoformat s now reason).1

  pub serve : Store → List Request → Store
  unfolding handle
  serve s [] = s
  serve s (r ∷ rs) = serve (handle s r) rs

  file-mirror_events :
      (s : Store) (es : List LeaseEvent) → (mirror_events digest s es).1.file ≡ s.file
  unfolding mirror_events
  file-mirror_events s es = ground arith

  -- The lease file after a method is the one that it wrote, even if the mirroring raised.
  pub file-commit :
      {A : Type 0} (s : Store) (events_of : A → List LeaseEvent) (r : Result (LeaseFile × A))
      → ((commit digest s events_of r).1.file ≡ s.file)
        ⊎ ((w : LeaseFile × A) × (r ≡ ok w) × ((commit digest s events_of r).1.file ≡ w.0))
  unfolding commit
  file-commit s events_of (raise x) = inl refl
  file-commit s events_of (ok (f', a)) =
      inr ((f', a), refl, file-mirror_events (record s { file = f' }) (events_of a))

  pub file-finish_expiry :
      (s : Store) (r : Result (LeaseFile × List LeaseEvent))
      → ((finish_expiry digest s r).1.file ≡ s.file)
        ⊎ ((w : LeaseFile × List LeaseEvent) × (r ≡ ok w)
            × ((finish_expiry digest s r).1.file ≡ w.0))
  unfolding finish_expiry
  file-finish_expiry s (raise x) = inl refl
  file-finish_expiry s (ok (f', [])) = inl refl
  file-finish_expiry s (ok (f', e ∷ es)) = file-commit s (λ events. events) (ok (f', e ∷ es))

  -- A property of the lease file that each written file keeps is kept by every request.
  module _ (P : LeaseFile → Type 0) (s : Store) (h : P s.file) where
    written :
        {A : Type 0} {f : LeaseFile} (r : Result (LeaseFile × A))
        → ((w : LeaseFile × A) → r ≡ ok w → P w.0)
        → (f ≡ s.file) ⊎ ((w : LeaseFile × A) × (r ≡ ok w) × (f ≡ w.0))
        → P f
    written r keeps (inl same) = subst P (sym same) h
    written r keeps (inr (w, done, new)) = subst P (sym new) (keeps w done)

  handle-IsReplay : (s : Store) (r : Request) → IsReplay s.file → IsReplay (handle s r).file
  unfolding handle claim_command renew_lease record_terminal_result expire_and_requeue_expired
  handle-IsReplay s (claim c sid w t l) h =
      written IsReplay s h (claimed_file s.file c sid w t l)
        (λ x done. claimed_file-IsReplay s.file c sid w t l h done)
        (file-commit s (λ e. e ∷ []) (claimed_file s.file c sid w t l))
  handle-IsReplay s (renew c w n t l) h =
      written IsReplay s h (renewed_file s.file c w n t l)
        (λ x done. renewed_file-IsReplay s.file c w n t l h done)
        (file-commit s (λ e. e ∷ []) (renewed_file s.file c w n t l))
  handle-IsReplay s (finish c w n ty t p) h =
      written IsReplay s h (terminal_file s.file c w n ty t p)
        (λ x done. terminal_file-IsReplay s.file c w n ty t p h done)
        (file-commit s (λ e. e ∷ []) (terminal_file s.file c w n ty t p))
  handle-IsReplay s (expire now reason) h =
      written IsReplay s h (expired_file fromisoformat s.file now reason)
        (λ x done. expired_file-IsReplay fromisoformat now reason s.file h done)
        (file-finish_expiry s (expired_file fromisoformat s.file now reason))

  -- From a store of which this holds, it holds after any sequence of calls, accepted, refused or
  -- refused by the session service while mirroring: the command table is exactly what a replay of
  -- the event log rebuilds, and the next event number is one more than the number of events.
  pub serve-IsReplay :
      (s : Store) (rs : List Request) → IsReplay s.file → IsReplay (serve s rs).file
  unfolding serve
  serve-IsReplay s [] h = h
  serve-IsReplay s (r ∷ rs) h = serve-IsReplay (handle s r) rs (handle-IsReplay s r h)

  handle-Progress : (s : Store) (r : Request) → Progress s.file.commands (handle s r).file.commands
  unfolding handle claim_command renew_lease record_terminal_result expire_and_requeue_expired
  handle-Progress s (claim c sid w t l) =
      written (λ f. Progress s.file.commands f.commands) s (Progress-refl s.file.commands)
        (claimed_file s.file c sid w t l) (λ x done. claimed_file-Progress s.file c sid w t l done)
        (file-commit s (λ e. e ∷ []) (claimed_file s.file c sid w t l))
  handle-Progress s (renew c w n t l) =
      written (λ f. Progress s.file.commands f.commands) s (Progress-refl s.file.commands)
        (renewed_file s.file c w n t l) (λ x done. renewed_file-Progress s.file c w n t l done)
        (file-commit s (λ e. e ∷ []) (renewed_file s.file c w n t l))
  handle-Progress s (finish c w n ty t p) =
      written (λ f. Progress s.file.commands f.commands) s (Progress-refl s.file.commands)
        (terminal_file s.file c w n ty t p)
        (λ x done. terminal_file-Progress s.file c w n ty t p done)
        (file-commit s (λ e. e ∷ []) (terminal_file s.file c w n ty t p))
  handle-Progress s (expire now reason) =
      written (λ f. Progress s.file.commands f.commands) s (Progress-refl s.file.commands)
        (expired_file fromisoformat s.file now reason)
        (λ x done. expired_file-Progress fromisoformat now reason s.file done)
        (file-finish_expiry s (expired_file fromisoformat s.file now reason))

  -- Along any sequence of calls a command of the table stays in it and keeps its session, its
  -- claim number never falls and grows with each new claim, and a finished command's entry never
  -- changes.
  pub serve-Progress :
      (s : Store) (rs : List Request) → Progress s.file.commands (serve s rs).file.commands
  unfolding serve
  serve-Progress s [] = Progress-refl s.file.commands
  serve-Progress s (r ∷ rs) =
      Progress-trans s.file.commands (handle s r).file.commands
        (serve (handle s r) rs).file.commands (handle-Progress s r) (serve-Progress (handle s r) rs)
