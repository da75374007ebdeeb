-- ===== src/Leases/Replay.antt =====
-- The lease table against its event log: the table is what a replay of the log rebuilds.
use codex_watchdog.Common.Texts.{sort_texts}
use codex_watchdog.Leases.Operations.{
  require_current_claim, next_claim_seq, claimed_file, renewed_file, result_event_type,
  terminal_file, is_expired, expiry_event, requeue, expire_one, expire_loop, expired_file,
}
use codex_watchdog.Common.{
  >>=-eq-ok, ℕ, ◌+◌, String, ◌≡◌, refl, ap, ◌∙◌, ◌⊎◌, inl, inr, true, false, Option, none, some,
  List, [], ◌∷◌, ◌++◌, arith, Option-cases, Result, ok, Result-cases, Dict, get, put, keys, length,
  length-append,
}
use codex_watchdog.Common.Values.{option_eq-some, Value}
use mathlib.Core.Path.{subst}
use codex_watchdog.Leases.State.{
  claimed, requeued, executed, failed, LeaseEventType, command_claimed, command_lease_renewed,
  command_claim_expired, command_requeued, command_executed, command_failed, LeaseEvent, LeaseState,
  LeaseFile, event_of, append_event, Moment, parse_timestamp,
}

-- Independent description of the table: what each event says happened to its command.
adjust : Option LeaseState → (LeaseState → LeaseState) → Dict LeaseState → String → Dict LeaseState
adjust none f d k = d
adjust (some s) f d k = put k (f s) d

unfoldable pub apply_event : Dict LeaseState → LeaseEvent → LeaseEventType → Dict LeaseState
unfolding adjust
apply_event d e command_claimed =
    put e.command_id
      (record {
        command_id = e.command_id;
        session_id = e.session_id;
        status = claimed;
        claim_seq = e.claim_seq;
        worker_id = e.worker_id;
        lease_expires_at = e.lease_expires_at;
        updated_at = e.occurred_at;
      })
      d
apply_event d e command_lease_renewed =
    adjust (get e.command_id d)
      (λ s. record s { lease_expires_at = e.lease_expires_at; updated_at = e.occurred_at }) d
      e.command_id
apply_event d e command_claim_expired = d
apply_event d e command_requeued =
    adjust (get e.command_id d) (λ s. record s { status = requeued; updated_at = e.occurred_at }) d
      e.command_id
apply_event d e command_executed =
    adjust (get e.command_id d) (λ s. record s { status = executed; updated_at = e.occurred_at }) d
      e.command_id
apply_event d e command_failed =
    adjust (get e.command_id d) (λ s. record s { status = failed; updated_at = e.occurred_at }) d
      e.command_id

unfoldable pub replay_from : Dict LeaseState → List LeaseEvent → Dict LeaseState
unfolding apply_event
replay_from d [] = d
replay_from d (e ∷ es) = replay_from (apply_event d e e.event_type) es

pub replay-append :
    (d : Dict LeaseState) (xs ys : List LeaseEvent)
    → replay_from d (xs ++ ys) ≡ replay_from (replay_from d xs) ys
unfolding replay_from
replay-append d [] ys = refl
replay-append d (e ∷ xs) ys = replay-append (apply_event d e e.event_type) xs ys

-- The table is the replay of the log, and the next number is one more than the events.
pub record IsReplay (f : LeaseFile) : Type 0 where
  pub table : replay_from [] f.events ≡ f.commands
  pub numbered : f.next_event_seq ≡ length f.events + 1

snoc :
    (f : LeaseFile) (e : LeaseEvent) (d : Dict LeaseState)
    → IsReplay f
    → apply_event f.commands e e.event_type ≡ d
    → IsReplay (record f {
      next_event_seq = f.next_event_seq + 1;
      commands = d;
      events = f.events ++ e ∷ [];
    })
unfolding replay_from
snoc f e d h step = record {
  table =
      replay-append [] f.events (e ∷ []) ∙ ap (λ c. apply_event c e e.event_type) h.table ∙ step;
  numbered = omega (arith, length-append f.events (e ∷ []), h.numbered);
}

pub claimed_file-IsReplay :
    (f : LeaseFile) (command_id session_id worker_id claimed_at lease_expires_at : String)
    {f' : LeaseFile} {e : LeaseEvent}
    → IsReplay f
    → claimed_file f command_id session_id worker_id claimed_at lease_expires_at ≡ ok (f', e)
    → IsReplay f'
unfolding claimed_file append_event apply_event event_of
claimed_file-IsReplay f command_id session_id worker_id claimed_at lease_expires_at {f'} {e} h
      done =
    elim (Result-cases (next_claim_seq (get command_id f.commands) command_id session_id)) [
      | inl (n, fresh) ↦
          let shape : record f {
            next_event_seq = f.next_event_seq + 1;
            commands = f'.commands;
            events = f.events ++ e ∷ [];
          }
              ≡ f' =
            ground arith in
          subst IsReplay shape (snoc f e f'.commands h (ground arith))
      | inr (x, refused) ↦ cc (refused, done)
    ]

-- What `require_current_claim` lets pass is the table's own entry, claimed by the caller.
pub require_current_claim-ok :
    (o : Option LeaseState) (command_id worker_id : String) (claim_seq : ℕ) {state : LeaseState}
    → require_current_claim o command_id worker_id claim_seq ≡ ok state
    → (o ≡ some state)
      × (state.status ≡ claimed)
      × (state.worker_id ≡ some worker_id)
      × (state.claim_seq ≡ claim_seq)
unfolding require_current_claim
require_current_claim-ok none command_id worker_id claim_seq h = cc
require_current_claim-ok (some s) command_id worker_id claim_seq h =
    ground (arith, option_eq-some s.worker_id worker_id)

pub renewed_file-IsReplay :
    (f : LeaseFile) (command_id worker_id : String) (claim_seq : ℕ)
    (renewed_at lease_expires_at : String) {f' : LeaseFile} {e : LeaseEvent}
    → IsReplay f
    → renewed_file f command_id worker_id claim_seq renewed_at lease_expires_at ≡ ok (f', e)
    → IsReplay f'
unfolding renewed_file append_event apply_event event_of
renewed_file-IsReplay f command_id worker_id claim_seq renewed_at lease_expires_at {f'} {e} h done =
    elim (Result-cases
      (require_current_claim (get command_id f.commands) command_id worker_id claim_seq)) [
        | inl (state, current) ↦
            let (found, held, mine, same) =
              require_current_claim-ok (get command_id f.commands) command_id worker_id claim_seq
                current in
            let shape : record f {
              next_event_seq = f.next_event_seq + 1;
              commands = f'.commands;
              events = f.events ++ e ∷ [];
            }
                ≡ f' =
              ground arith in
            subst IsReplay shape (snoc f e f'.commands h (ground arith))
        | inr (x, refused) ↦ cc (refused, done)
      ]

pub terminal_file-IsReplay :
    (f : LeaseFile) (command_id worker_id : String) (claim_seq : ℕ)
    (result_type occurred_at : String) (payload : Dict Value) {f' : LeaseFile} {e : LeaseEvent}
    → IsReplay f
    → terminal_file f command_id worker_id claim_seq result_type occurred_at payload ≡ ok (f', e)
    → IsReplay f'
unfolding terminal_file append_event apply_event event_of result_event_type
terminal_file-IsReplay f command_id worker_id claim_seq result_type occurred_at payload {f'} {e} h
      done =
    elim (Result-cases
      (require_current_claim (get command_id f.commands) command_id worker_id claim_seq)) [
        | inl (state, current) ↦
            let (found, held, mine, same) =
              require_current_claim-ok (get command_id f.commands) command_id worker_id claim_seq
                current in
            let shape : record f {
              next_event_seq = f.next_event_seq + 1;
              commands = f'.commands;
              events = f.events ++ e ∷ [];
            }
                ≡ f' =
              ground arith in
            subst IsReplay shape (snoc f e f'.commands h (ground arith))
        | inr (x, refused) ↦ ground arith
      ]

requeue-IsReplay :
    (now reason : String) (f : LeaseFile) (k : String) (s : LeaseState)
    → IsReplay f
    → get k f.commands ≡ some s
    → IsReplay (requeue now reason k s f).0
unfolding requeue append_event apply_event event_of
requeue-IsReplay now reason f k s h found =
    let e = event_of f.next_event_seq (expiry_event command_claim_expired k now reason s) in
    let f₁ : LeaseFile = record f {
      next_event_seq = f.next_event_seq + 1;
      events = f.events ++ e ∷ [];
    } in
    let e₁ = event_of f₁.next_event_seq (expiry_event command_requeued k now reason s) in
    snoc f₁ e₁ (put k (record s { status = requeued; updated_at = now }) f.commands)
      (snoc f e f.commands h refl) (rw found refl)

module _ (fromisoformat : String → Result Moment) (now_ts : ℕ) (now reason : String) where
  -- One round of the loop: a command whose lease has run out is requeued, another is left alone.
  pub expire_one-cases :
      (k : String) (f : LeaseFile) {r : LeaseFile × List LeaseEvent}
      → expire_one fromisoformat now_ts now reason k f ≡ ok r
      → (state : LeaseState) × (get k f.commands ≡ some state)
        × (((is_expired fromisoformat now_ts state.status state.lease_expires_at ≡ ok true)
              × (r ≡ requeue now reason k state f))
            ⊎ ((is_expired fromisoformat now_ts state.status state.lease_expires_at ≡ ok false)
                × (r ≡ (f, []))))
  unfolding expire_one
  expire_one-cases k f h = elim (Option-cases (get k f.commands)) [
    | inl missing ↦ ground arith
    | inr (state, found) ↦ (state, found, ground arith)
  ]

  expire_one-IsReplay :
      (k : String) (f : LeaseFile) {r : LeaseFile × List LeaseEvent}
      → IsReplay f
      → expire_one fromisoformat now_ts now reason k f ≡ ok r
      → IsReplay r.0
  expire_one-IsReplay k f h done =
      let (state, found, cases) = expire_one-cases k f done in
      elim cases [
        | inl (expired, e) ↦ rw e (requeue-IsReplay now reason f k state h found)
        | inr (kept, e) ↦ rw e h
      ]

  expire_loop-IsReplay :
      (ks : List String) (f : LeaseFile) {r : LeaseFile × List LeaseEvent}
      → IsReplay f
      → expire_loop fromisoformat now_ts now reason ks f ≡ ok r
      → IsReplay r.0
  unfolding expire_loop
  expire_loop-IsReplay [] f {r} h done = subst IsReplay {x = f} (ground arith) h
  expire_loop-IsReplay (k ∷ ks) f {r} h done =
      let (one, first, more) = >>=-eq-ok (expire_one fromisoformat now_ts now reason k f) _ done in
      let (two, second, last) =
        >>=-eq-ok (expire_loop fromisoformat now_ts now reason ks one.0) _ more in
      let kept : IsReplay two.0 =
        expire_loop-IsReplay ks one.0 (expire_one-IsReplay k f h first) second in
      subst IsReplay (ground arith) kept

pub expired_file-IsReplay :
    (fromisoformat : String → Result Moment) (now reason : String) (f : LeaseFile)
    {r : LeaseFile × List LeaseEvent}
    → IsReplay f
    → expired_file fromisoformat f now reason ≡ ok r
    → IsReplay r.0
unfolding expired_file
expired_file-IsReplay fromisoformat now reason f h done =
    let (t, time, run) = >>=-eq-ok (parse_timestamp fromisoformat now) _ done in
    expire_loop-IsReplay fromisoformat t now reason (sort_texts (keys f.commands)) f h run
