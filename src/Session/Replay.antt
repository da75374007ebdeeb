-- ===== src/Session/Replay.antt =====
-- Repeated and conflicting appends, and every file that a sequence of appends can reach.
use mathlib.Core.Path.{subst}
use codex_watchdog.Common.{
  String, ◌≡◌, refl, sym, ◌≢◌, inl, inr, false, List, [], ◌∷◌, ◌++◌, arith, eq_iff, value_error,
  Result, ok, raise, keep, All, Pairwise,
}
use codex_watchdog.Common.Texts.{format}
use codex_watchdog.Session.Invariant.{
  Before, append_event-cases, append_recovery_transaction-IsWellFormed, append_lineage-IsWellFormed,
  append_event-IsWellFormed, IsWellFormed, dedupe-snoc,
}
use codex_watchdog.Session.Records.{
  SessionEvent, SessionLineage, RecoveryTransaction, StoreFile, event_stored,
}
use codex_watchdog.Session.Append.{
  append_event, append_lineage, append_recovery_transaction, dedupe_by_idempotency,
}

-- Appending an event that the session store has just accepted returns the same record and leaves
-- the file unchanged.
pub append_event_again :
    (f : StoreFile) (e : SessionEvent) {f' : StoreFile} {r : SessionEvent}
    → append_event f e ≡ ok (f', r)
    → append_event f' e ≡ ok (f', r)
unfolding append_event
append_event_again f e {f'} {r} h = elim (append_event-cases f e h) [
  | inl (same, found) ↦ subst (λ g. append_event g e ≡ ok (f', r)) (sym same) h
  | inr (new, stored, missing, free) ↦
      rw (new, stored, dedupe-snoc event_stored "session event" f.events e f.next_log_seq missing)
        (cc)
]

-- The search stops with an error at a record that has the key and other content.
dedupe-conflict :
    (label : String) (xs ys : List SessionEvent) (x e : SessionEvent)
    → All (λ y. y.idempotency_key ≢ e.idempotency_key) xs
    → x.idempotency_key ≡ e.idempotency_key
    → event_stored.same x e ≡ false
    → dedupe_by_idempotency event_stored label (xs ++ x ∷ ys) e
      ≡ raise (
          value_error
            (format ("conflicting " ∷ label ∷ " for idempotency key: " ∷ e.idempotency_key ∷ [])))
unfolding dedupe_by_idempotency
dedupe-conflict label [] ys x e fresh k differ =
    ground (arith, eq_iff x.idempotency_key e.idempotency_key)
dedupe-conflict label (y ∷ xs) ys x e fresh k differ = ground (
  arith,
  eq_iff y.idempotency_key e.idempotency_key,
  fresh.0,
  dedupe-conflict label xs ys x e fresh.1 k differ,
)

-- In a well-formed log no record before `x` has the key of `x`.
keys-Before :
    (xs ys : List SessionEvent) (x : SessionEvent)
    → Pairwise (Before event_stored) (xs ++ x ∷ ys)
    → All (λ y. y.idempotency_key ≢ x.idempotency_key) xs
keys-Before [] ys x p = tt
keys-Before (y ∷ xs) ys x p = (first xs p.0, keys-Before xs ys x p.1)
  where
    first :
        (zs : List SessionEvent)
        → All (Before event_stored y) (zs ++ x ∷ ys)
        → y.idempotency_key ≢ x.idempotency_key
    first [] h = h.0.1
    first (z ∷ zs) h = first zs h.1

-- In a well-formed file, an event that reuses the idempotency key of a record with other content
-- is refused with the conflict error.
pub append_event_conflict :
    (f : StoreFile) (xs ys : List SessionEvent) (x e : SessionEvent)
    → IsWellFormed f
    → f.events ≡ xs ++ x ∷ ys
    → x.idempotency_key ≡ e.idempotency_key
    → event_stored.same x e ≡ false
    → append_event f e
      ≡ raise (
          value_error (
            format (
              "conflicting " ∷ "session event" ∷ " for idempotency key: " ∷ e.idempotency_key
              ∷ [])))
unfolding append_event
append_event_conflict f xs ys x e w split k differ =
    let fresh = keys-Before xs ys x (subst (Pairwise (Before event_stored)) split w.events) in
    rw
      (
        split,
        dedupe-conflict "session event" xs ys x e
            (subst (λ s. All (λ y. y.idempotency_key ≢ s) xs) k fresh) k differ,
      )
      refl

pub data Call : Type 0 where
  event : SessionEvent → Call
  lineage : SessionLineage → Call
  transaction : RecoveryTransaction → Call

-- A caller that goes on after an exception: the file keeps what was last written.
unfoldable pub after {ℓ} : {A : Type ℓ} → StoreFile → Result (StoreFile × A) → StoreFile
after f (ok (f', r)) = f'
after f (raise e) = f

unfoldable pub call : StoreFile → Call → StoreFile
unfolding after
call f (event e) = after f (append_event f e)
call f (lineage l) = after f (append_lineage f l)
call f (transaction t) = after f (append_recovery_transaction f t)

unfoldable pub calls : StoreFile → List Call → StoreFile
unfolding call
calls f [] = f
calls f (c ∷ cs) = calls (call f c) cs

after-IsWellFormed {ℓ} :
    {A : Type ℓ} (f : StoreFile) (r : Result (StoreFile × A))
    → IsWellFormed f
    → ((f' : StoreFile) (a : A) → r ≡ ok (f', a) → IsWellFormed f')
    → IsWellFormed (after f r)
unfolding after
after-IsWellFormed f (ok (f', a)) w keep = keep f' a refl
after-IsWellFormed f (raise e) w keep = w

call-IsWellFormed : (f : StoreFile) (c : Call) → IsWellFormed f → IsWellFormed (call f c)
unfolding call
call-IsWellFormed f (event e) w =
    after-IsWellFormed f (append_event f e) w (λ f' a h. append_event-IsWellFormed f w e h)
call-IsWellFormed f (lineage l) w =
    after-IsWellFormed f (append_lineage f l) w (λ f' a h. append_lineage-IsWellFormed f w l h)
call-IsWellFormed f (transaction t) w =
    after-IsWellFormed f (append_recovery_transaction f t) w
      (λ f' a h. append_recovery_transaction-IsWellFormed f w t h)

-- Any sequence of appends, accepted, refused or repeated, keeps a well-formed session file well
-- formed: in each of its three logs positions increase and idempotency keys are distinct, and the
-- next position is above all of them.
pub calls-IsWellFormed :
    (f : StoreFile) (cs : List Call) → IsWellFormed f → IsWellFormed (calls f cs)
unfolding calls
calls-IsWellFormed f [] w = w
calls-IsWellFormed f (c ∷ cs) w = calls-IsWellFormed (call f c) cs (call-IsWellFormed f c w)
