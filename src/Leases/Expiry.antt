-- ===== src/Leases/Expiry.antt =====
-- What one pass of `expire_and_requeue_expired` does to each command.
use codex_watchdog.Common.{
  ℕ, String, ◌≡◌, refl, sym, ◌∙◌, ◌⊎◌, inl, inr, Bool, true, false, Option, some, List, [], ◌∷◌,
  arith, ◌==◌, eq_iff, Bool-cases, Result, ok, >>=-eq-ok, Dict, get, keys, get-put, get-put_self,
}
use codex_watchdog.Common.Texts.{sort_texts, insert_text, one_of}
use mathlib.Core.Path.{subst}
use codex_watchdog.Leases.State.{
  requeued, LeaseEvent, LeaseState, LeaseFile, append_event, Moment, parse_timestamp,
}
use codex_watchdog.Leases.Operations.{is_expired, requeue, expire_one, expire_loop, expired_file}
use codex_watchdog.Leases.Replay.{expire_one-cases}

one_of-insert_text :
    (k j : String) (ks : List String) → one_of (insert_text j ks) k ≡ one_of (j ∷ ks) k
unfolding one_of insert_text
one_of-insert_text k j [] = refl
one_of-insert_text k j (i ∷ ks) = ground (arith, one_of-insert_text k j ks)

one_of-sort_texts : (k : String) (ks : List String) → one_of (sort_texts ks) k ≡ one_of ks k
unfolding one_of sort_texts
one_of-sort_texts k [] = refl
one_of-sort_texts k (j ∷ ks) =
    ground (arith, one_of-insert_text k j (sort_texts ks), one_of-sort_texts k ks)

one_of-keys :
    (k : String) (d : Dict LeaseState) {s : LeaseState}
    → get k d ≡ some s
    → one_of (keys d) k ≡ true
unfolding one_of get
one_of-keys k [] h = cc
one_of-keys k ((j, v) ∷ d) {s} h = ground (arith, eq_iff j k, eq_iff k j, one_of-keys k d {s = s})

not_sym : (j k : String) → (j == k) ≡ false → (k == j) ≡ false
not_sym j k h = ground (arith, eq_iff j k, eq_iff k j)

module _ (fromisoformat : String → Result Moment) (now_ts : ℕ) (now reason : String) where
  abbrev pub requeued_at : LeaseState → LeaseState
  requeued_at s = record s { status = requeued; updated_at = now }

  -- A command whose lease has run out is requeued; any other keeps its entry.
  abbrev pub Outcome : LeaseState → Option LeaseState → Type 0
  Outcome s o =
      ((is_expired fromisoformat now_ts s.status s.lease_expires_at ≡ ok true)
        × (o ≡ some (requeued_at s)))
      ⊎ ((is_expired fromisoformat now_ts s.status s.lease_expires_at ≡ ok false) × (o ≡ some s))

  not_expired_again :
      (s : LeaseState) → is_expired fromisoformat now_ts requeued s.lease_expires_at ≡ ok false
  unfolding is_expired
  not_expired_again s = ground arith

  one_here :
      (k : String) (f : LeaseFile) (s : LeaseState) {r : LeaseFile × List LeaseEvent}
      → expire_one fromisoformat now_ts now reason k f ≡ ok r
      → get k f.commands ≡ some s
      → Outcome s (get k r.0.commands)
  unfolding requeue append_event
  one_here k f s done found =
      let (state, there, cases) = expire_one-cases fromisoformat now_ts now reason k f done in
      elim cases [
        | inl (expired, e) ↦
            inl (ground arith, rw e (get-put_self k (requeued_at state) f.commands ∙ ground arith))
        | inr (kept, e) ↦ inr (ground arith, rw e found)
      ]

  one_elsewhere :
      (k j : String) (f : LeaseFile) {r : LeaseFile × List LeaseEvent}
      → expire_one fromisoformat now_ts now reason j f ≡ ok r
      → (j == k) ≡ false
      → get k r.0.commands ≡ get k f.commands
  unfolding requeue append_event
  one_elsewhere k j f done other =
      let (state, there, cases) = expire_one-cases fromisoformat now_ts now reason j f done in
      elim cases [
        | inl (expired, e) ↦ rw (e, get-put j k (requeued_at state) f.commands, other) refl
        | inr (kept, e) ↦ rw e refl
      ]

  -- A second visit of a command changes nothing.
  Outcome-twice :
      (s : LeaseState) (o o' : Option LeaseState)
      → Outcome s o
      → ((t : LeaseState) → o ≡ some t → Outcome t o' ⊎ (o' ≡ some t))
      → Outcome s o'
  Outcome-twice s o o' (inl (expired, e)) again = elim (again (requeued_at s) e) [
    | inl (inl (twice, e')) ↦ cc (twice, not_expired_again s)
    | inl (inr (kept, e')) ↦ inl (expired, e')
    | inr e' ↦ inl (expired, e')
  ]
  Outcome-twice s o o' (inr (kept, e)) again = elim (again s e) [
    | inl twice ↦ twice
    | inr e' ↦ inr (kept, e')
  ]

  visited :
      (b : Bool) (t : LeaseState) (o : Option LeaseState)
      → ((b ≡ true) × Outcome t o) ⊎ ((b ≡ false) × (o ≡ some t))
      → Outcome t o ⊎ (o ≡ some t)
  visited b t o (inl h) = inl h.1
  visited b t o (inr h) = inr h.1

  -- The loop over any list of keys: only the commands among them are visited.
  loop-Outcome :
      (ks : List String) (k : String) (f : LeaseFile) (s : LeaseState)
      {r : LeaseFile × List LeaseEvent}
      → expire_loop fromisoformat now_ts now reason ks f ≡ ok r
      → get k f.commands ≡ some s
      → ((one_of ks k ≡ true) × Outcome s (get k r.0.commands))
        ⊎ ((one_of ks k ≡ false) × (get k r.0.commands ≡ some s))
  unfolding expire_loop one_of
  loop-Outcome [] k f s {r} done found =
      inr (refl, subst (λ g. get k g.commands ≡ some s) {x = f} {y = r.0} (ground arith) found)
  loop-Outcome (j ∷ ks) k f s {r} done found =
      let (one, first, more) = >>=-eq-ok (expire_one fromisoformat now_ts now reason j f) _ done in
      let (two, second, last) =
        >>=-eq-ok (expire_loop fromisoformat now_ts now reason ks one.0) _ more in
      let file : two.0 ≡ r.0 = ground arith in
      elim (Bool-cases (j == k)) [
        | inl here ↦
            let there : expire_one fromisoformat now_ts now reason k f ≡ ok one =
              subst (λ i. expire_one fromisoformat now_ts now reason i f ≡ ok one)
                ((eq_iff j k).0 here) first in
            let settled : Outcome s (get k two.0.commands) =
              Outcome-twice s (get k one.0.commands) (get k two.0.commands)
                (one_here k f s there found)
                (λ t e.
                  visited (one_of ks k) t (get k two.0.commands)
                    (loop-Outcome ks k one.0 t second e)) in
            inl (
              rw ((eq_iff k j).1 (sym ((eq_iff j k).0 here))) refl,
              subst (λ g. Outcome s (get k g.commands)) file settled,
            )
        | inr other ↦
            let same : get k one.0.commands ≡ some s = one_elsewhere k j f first other ∙ found in
            subst
              (λ g.
                ((one_of (j ∷ ks) k ≡ true) × Outcome s (get k g.commands))
                ⊎ ((one_of (j ∷ ks) k ≡ false) × (get k g.commands ≡ some s)))
              file (rw (not_sym j k other) (loop-Outcome ks k one.0 s second same))
      ]

  -- A pass of expire_and_requeue_expired that reads its clock and succeeds requeues exactly the
  -- claimed commands whose lease has run out, and leaves every other command's entry as it was.
  pub expired_file-Outcome :
      (f : LeaseFile) (k : String) (s : LeaseState) {r : LeaseFile × List LeaseEvent}
      → parse_timestamp fromisoformat now ≡ ok now_ts
      → expired_file fromisoformat f now reason ≡ ok r
      → get k f.commands ≡ some s
      → Outcome s (get k r.0.commands)
  unfolding expired_file
  expired_file-Outcome f k s {r} time done found =
      let run : expire_loop fromisoformat now_ts now reason (sort_texts (keys f.commands)) f
          ≡ ok r =
        ground arith in
      elim (loop-Outcome (sort_texts (keys f.commands)) k f s run found) [
        | inl visited ↦ visited.1
        | inr skipped ↦
            cc (skipped.0, one_of-sort_texts k (keys f.commands), one_of-keys k f.commands found)
      ]
