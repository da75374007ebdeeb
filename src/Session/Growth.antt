-- ===== src/Session/Growth.antt =====
-- The three logs are append-only.
use codex_watchdog.Common.{
  ◌≤◌, ◌≡◌, refl, ap, ◌∙◌, inl, inr, List, [], ◌∷◌, ◌++◌, arith, Result, ok, raise,
}
use codex_watchdog.Session.Records.{StoreFile, event_stored, lineage_stored, transaction_stored}
use codex_watchdog.Session.Append.{append_event, append_lineage, append_recovery_transaction}
use codex_watchdog.Session.Invariant.{
  append_event-cases, append_lineage-cases, append_recovery_transaction-cases,
}
use codex_watchdog.Session.Replay.{Call, event, lineage, transaction, after, call, calls}

-- `ys` starts with `xs`.
module _ {A : Type 0} where
  pub record Extends (xs ys : List A) : Type 0 where
    pub rest : List A
    pub split : ys ≡ xs ++ rest

  append_nil : (xs : List A) → xs ≡ xs ++ []
  append_nil [] = refl
  append_nil (x ∷ xs) = ap (λ ys. x ∷ ys) (append_nil xs)

  assoc : (xs ys zs : List A) → (xs ++ ys) ++ zs ≡ xs ++ (ys ++ zs)
  assoc [] ys zs = refl
  assoc (x ∷ xs) ys zs = ap (λ ws. x ∷ ws) (assoc xs ys zs)

  Extends-refl : (xs : List A) → Extends xs xs
  Extends-refl xs = record { rest = []; split = append_nil xs }

  Extends-snoc : (xs : List A) (x : A) → Extends xs (xs ++ x ∷ [])
  Extends-snoc xs x = record { rest = x ∷ []; split = refl }

  Extends-trans : {xs ys zs : List A} → Extends xs ys → Extends ys zs → Extends xs zs
  Extends-trans {xs} e f = record {
    rest = e.rest ++ f.rest;
    split = f.split ∙ ap (λ ws. ws ++ f.rest) e.split ∙ assoc xs e.rest f.rest;
  }

pub record Grows (f g : StoreFile) : Type 0 where
  pub events : Extends f.events g.events
  pub lineage : Extends f.lineage g.lineage
  pub transactions : Extends f.recovery_transactions g.recovery_transactions
  pub positions : f.next_log_seq ≤ g.next_log_seq

Grows-refl : (f : StoreFile) → Grows f f
Grows-refl f = record {
  events = Extends-refl f.events;
  lineage = Extends-refl f.lineage;
  transactions = Extends-refl f.recovery_transactions;
  positions = omega arith;
}

Grows-trans : (f g h : StoreFile) → Grows f g → Grows g h → Grows f h
Grows-trans f g h a b = record {
  events = Extends-trans a.events b.events;
  lineage = Extends-trans a.lineage b.lineage;
  transactions = Extends-trans a.transactions b.transactions;
  positions = omega arith;
}

after-Grows :
    {A : Type 0} (f : StoreFile) (r : Result (StoreFile × A))
    → ((f' : StoreFile) (a : A) → r ≡ ok (f', a) → Grows f f')
    → Grows f (after f r)
unfolding after
after-Grows f (ok (f', a)) grow = grow f' a refl
after-Grows f (raise e) grow = Grows-refl f

call-Grows : (f : StoreFile) (c : Call) → Grows f (call f c)
unfolding call
call-Grows f (event e) = after-Grows f (append_event f e) (λ f' r h.
    elim (append_event-cases f e h) [
      | inl same ↦ rw same.0 (Grows-refl f)
      | inr new ↦ rw new.0 (record {
        lineage = Extends-refl f.lineage;
        transactions = Extends-refl f.recovery_transactions;
        events = Extends-snoc f.events (event_stored.assign f.next_log_seq e);
        positions = omega arith;
      })
    ])
call-Grows f (lineage l) = after-Grows f (append_lineage f l) (λ f' r h.
    elim (append_lineage-cases f l h) [
      | inl same ↦ rw same (Grows-refl f)
      | inr new ↦ rw new.0 (record {
        events = Extends-refl f.events;
        transactions = Extends-refl f.recovery_transactions;
        lineage = Extends-snoc f.lineage (lineage_stored.assign f.next_log_seq l);
        positions = omega arith;
      })
    ])
call-Grows f (transaction t) = after-Grows f (append_recovery_transaction f t) (λ f' r h.
    elim (append_recovery_transaction-cases f t h) [
      | inl same ↦ rw same (Grows-refl f)
      | inr new ↦ rw new.0 (record {
        events = Extends-refl f.events;
        lineage = Extends-refl f.lineage;
        transactions =
            Extends-snoc f.recovery_transactions (transaction_stored.assign f.next_log_seq t);
        positions = omega arith;
      })
    ])

-- Along any sequence of appends each of the three logs only gains records at its end, and the next
-- position never falls.
pub calls-Grows : (f : StoreFile) (cs : List Call) → Grows f (calls f cs)
unfolding calls
calls-Grows f [] = Grows-refl f
calls-Grows f (c ∷ cs) =
    Grows-trans f (call f c) (calls (call f c) cs) (call-Grows f c) (calls-Grows (call f c) cs)
