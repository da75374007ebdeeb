-- ===== src/Leases/Fencing.antt =====
-- How the entry of a command may change: claim numbers only grow, a new claim has a larger number
-- than any before it, a finished command never changes, and no command moves to another session.
use codex_watchdog.Common.Texts.{sort_texts}
use codex_watchdog.Leases.Operations.{
  expired_file, require_current_claim, next_claim_seq, claimed_file, renewed_file,
  result_event_type, terminal_file, is_expired, requeue, expire_one, expire_loop, result_status,
}
use codex_watchdog.Leases.State.{
  parse_timestamp, LeaseStatus, claimed, requeued, executed, failed, is_claimed, is_terminal,
  LeaseEvent, LeaseState, LeaseFile, append_event, Moment,
}
use codex_watchdog.Common.{
  ℕ, ◌≤◌, ◌<◌, String, ◌≡◌, refl, sym, ◌∙◌, inl, inr, true, false, Option, none, some, List, [],
  ◌∷◌, arith, ◌==◌, eq_iff, Bool-cases, Result, ok, >>=-eq-ok, Dict, get, put, keys, get-put,
  get-put_self,
}
use codex_watchdog.Common.Values.{Value}
use mathlib.Core.Path.{subst}
use codex_watchdog.Leases.Replay.{require_current_claim-ok, expire_one-cases}

pub record Follows (s t : LeaseState) : Type 0 where
  pub grows : s.claim_seq ≤ t.claim_seq
  pub session : t.session_id ≡ s.session_id
  pub final : is_terminal s.status ≡ true → t ≡ s
  pub fresh : is_claimed s.status ≡ false → is_claimed t.status ≡ true → s.claim_seq < t.claim_seq

abbrev pub Advances : Option LeaseState → Option LeaseState → Type 0
Advances none t = Unit
Advances (some s) none = ⊥
Advances (some s) (some t) = Follows s t

pub Follows-refl : (s : LeaseState) → Follows s s
Follows-refl s = record {
  grows = omega arith;
  session = refl;
  final = λ h. refl;
  fresh = λ a b. cc;
}

pub Follows-trans : (s t u : LeaseState) → Follows s t → Follows t u → Follows s u
Follows-trans s t u f g = record {
  grows = omega arith;
  session = g.session ∙ f.session;
  final = λ h. let e = f.final h in subst (λ x. x ≡ s) (sym (g.final (rw e h))) e;
  fresh = λ a b. elim (Bool-cases (is_claimed t.status)) [
    | inl c ↦ omega (arith, f.fresh a c)
    | inr c ↦ omega (arith, g.fresh c b)
  ];
}

pub Advances-refl : (o : Option LeaseState) → Advances o o
Advances-refl none = tt
Advances-refl (some s) = Follows-refl s

pub Advances-trans : (a b c : Option LeaseState) → Advances a b → Advances b c → Advances a c
Advances-trans none b c f g = tt
Advances-trans (some s) none c f g = absurd f
Advances-trans (some s) (some t) none f g = absurd g
Advances-trans (some s) (some t) (some u) f g = Follows-trans s t u f g

-- Every command's entry follows on from what it was.
pub record Progress (a b : Dict LeaseState) : Type 0 where
  pub at : (k : String) → Advances (get k a) (get k b)

pub Progress-refl : (d : Dict LeaseState) → Progress d d
Progress-refl d = record { at = λ k. Advances-refl (get k d) }

pub Progress-trans : (a b c : Dict LeaseState) → Progress a b → Progress b c → Progress a c
Progress-trans a b c f g = record {
  at = λ k. Advances-trans (get k a) (get k b) (get k c) (f.at k) (g.at k);
}

put-Progress :
    (k : String) (s : LeaseState) (d : Dict LeaseState)
    → Advances (get k d) (some s)
    → Progress d (put k s d)
put-Progress k s d h = record {
  at = λ j. elim (Bool-cases (k == j)) [
    | inl here ↦
        subst (λ i. Advances (get i d) (get i (put k s d))) ((eq_iff k j).0 here)
          (rw (get-put_self k s d) h)
    | inr other ↦ rw (get-put k j s d, other) (Advances-refl (get j d))
  ];
}

next_claim_seq-Advances :
    (o : Option LeaseState) (command_id session_id : String) (t : LeaseState)
    → next_claim_seq o command_id session_id ≡ ok t.claim_seq
    → t.session_id ≡ session_id
    → Advances o (some t)
unfolding next_claim_seq
next_claim_seq-Advances none command_id session_id t h e = tt
next_claim_seq-Advances (some s) command_id session_id t h e = record {
  grows = ground arith;
  session = ground (arith, eq_iff s.session_id session_id);
  final = λ done. ground arith;
  fresh = λ a b. ground arith;
}

pub claimed_file-Progress :
    (f : LeaseFile) (command_id session_id worker_id claimed_at lease_expires_at : String)
    {f' : LeaseFile} {e : LeaseEvent}
    → claimed_file f command_id session_id worker_id claimed_at lease_expires_at ≡ ok (f', e)
    → Progress f.commands f'.commands
unfolding claimed_file append_event
claimed_file-Progress f command_id session_id worker_id claimed_at lease_expires_at {f'} done =
    let (n, fresh, rest) =
      >>=-eq-ok (next_claim_seq (get command_id f.commands) command_id session_id) _ done in
    let t : LeaseState = record {
      command_id = command_id;
      session_id = session_id;
      status = claimed;
      claim_seq = n;
      worker_id = some worker_id;
      lease_expires_at = some lease_expires_at;
      updated_at = claimed_at;
    } in
    subst (Progress f.commands) (ground arith) (
      put-Progress command_id t f.commands
        (next_claim_seq-Advances (get command_id f.commands) command_id session_id t fresh refl))

-- An entry that is claimed may be renewed, requeued or finished.
held-Follows :
    (s t : LeaseState)
    → s.status ≡ claimed
    → t.claim_seq ≡ s.claim_seq
    → t.session_id ≡ s.session_id
    → Follows s t
held-Follows s t held same session = record {
  grows = omega arith;
  session = session;
  final = λ h. ground arith;
  fresh = λ a b. ground arith;
}

held-Progress :
    (k : String) (d : Dict LeaseState) (s t : LeaseState)
    → get k d ≡ some s
    → Follows s t
    → Progress d (put k t d)
held-Progress k d s t found h = put-Progress k t d (rw found h)

pub renewed_file-Progress :
    (f : LeaseFile) (command_id worker_id : String) (claim_seq : ℕ)
    (renewed_at lease_expires_at : String) {f' : LeaseFile} {e : LeaseEvent}
    → renewed_file f command_id worker_id claim_seq renewed_at lease_expires_at ≡ ok (f', e)
    → Progress f.commands f'.commands
unfolding renewed_file append_event
renewed_file-Progress f command_id worker_id claim_seq renewed_at lease_expires_at {f'} done =
    let (state, current, rest) =
      >>=-eq-ok (require_current_claim (get command_id f.commands) command_id worker_id claim_seq) _
        done in
    let (found, held, mine, same) =
      require_current_claim-ok (get command_id f.commands) command_id worker_id claim_seq current in
    let t : LeaseState = record state {
      lease_expires_at = some lease_expires_at;
      updated_at = renewed_at;
    } in
    subst (Progress f.commands) (ground arith)
      (held-Progress command_id f.commands state t found (held-Follows state t held refl refl))

pub terminal_file-Progress :
    (f : LeaseFile) (command_id worker_id : String) (claim_seq : ℕ)
    (result_type occurred_at : String) (payload : Dict Value) {f' : LeaseFile} {e : LeaseEvent}
    → terminal_file f command_id worker_id claim_seq result_type occurred_at payload ≡ ok (f', e)
    → Progress f.commands f'.commands
unfolding terminal_file append_event
terminal_file-Progress f command_id worker_id claim_seq result_type occurred_at payload {f'} done =
    let (event_type, named, rest) = >>=-eq-ok (result_event_type result_type) _ done in
    let (state, current, last) =
      >>=-eq-ok (require_current_claim (get command_id f.commands) command_id worker_id claim_seq) _
        rest in
    let (found, held, mine, same) =
      require_current_claim-ok (get command_id f.commands) command_id worker_id claim_seq current in
    let t : LeaseState = record state {
      status = result_status event_type;
      updated_at = occurred_at;
    } in
    subst (Progress f.commands) (ground arith)
      (held-Progress command_id f.commands state t found (held-Follows state t held refl refl))

module _ (fromisoformat : String → Result Moment) (now_ts : ℕ) (now reason : String) where
  -- Only a claimed command can have run out.
  pub is_expired-claimed :
      (status : LeaseStatus) (lease : Option String)
      → is_expired fromisoformat now_ts status lease ≡ ok true
      → status ≡ claimed
  unfolding is_expired
  is_expired-claimed claimed lease h = refl
  is_expired-claimed requeued none h = cc
  is_expired-claimed requeued (some t) h = cc
  is_expired-claimed executed none h = cc
  is_expired-claimed executed (some t) h = cc
  is_expired-claimed failed none h = cc
  is_expired-claimed failed (some t) h = cc

  expire_one-Progress :
      (k : String) (f : LeaseFile) {r : LeaseFile × List LeaseEvent}
      → expire_one fromisoformat now_ts now reason k f ≡ ok r
      → Progress f.commands r.0.commands
  unfolding requeue append_event
  expire_one-Progress k f done =
      let (state, found, cases) = expire_one-cases fromisoformat now_ts now reason k f done in
      elim cases [
        | inl (expired, e) ↦
            let held = is_expired-claimed state.status state.lease_expires_at expired in
            let t : LeaseState = record state { status = requeued; updated_at = now } in
            rw e (held-Progress k f.commands state t found (held-Follows state t held refl refl))
        | inr (kept, e) ↦ rw e (Progress-refl f.commands)
      ]

  pub expire_loop-Progress :
      (ks : List String) (f : LeaseFile) {r : LeaseFile × List LeaseEvent}
      → expire_loop fromisoformat now_ts now reason ks f ≡ ok r
      → Progress f.commands r.0.commands
  unfolding expire_loop
  expire_loop-Progress [] f {r} done =
      subst (Progress f.commands) (ground arith) (Progress-refl f.commands)
  expire_loop-Progress (k ∷ ks) f {r} done =
      let (one, first, more) = >>=-eq-ok (expire_one fromisoformat now_ts now reason k f) _ done in
      let (two, second, last) =
        >>=-eq-ok (expire_loop fromisoformat now_ts now reason ks one.0) _ more in
      let both : Progress f.commands two.0.commands =
        Progress-trans f.commands one.0.commands two.0.commands (expire_one-Progress k f first)
          (expire_loop-Progress ks one.0 second) in
      subst (Progress f.commands) (ground arith) both

pub expired_file-Progress :
    (fromisoformat : String → Result Moment) (now reason : String) (f : LeaseFile)
    {r : LeaseFile × List LeaseEvent}
    → expired_file fromisoformat f now reason ≡ ok r
    → Progress f.commands r.0.commands
unfolding expired_file
expired_file-Progress fromisoformat now reason f done =
    let (t, time, run) = >>=-eq-ok (parse_timestamp fromisoformat now) _ done in
    expire_loop-Progress fromisoformat t now reason (sort_texts (keys f.commands)) f run
