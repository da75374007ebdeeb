-- ===== src/Outbox/Invariant.antt =====
-- What the writing methods of the outbox keep of its two tables.
use codex_watchdog.Common.{
  max, ◌+◌, ◌<◌, String, ◌≡◌, refl, sym, ap, ◌∙◌, ◌⊎◌, inl, inr, some, arith, ◌==◌, eq_iff,
  Bool-cases, Dict, get, put, get-put, get-put_ne, Unique, put-Unique,
}
use codex_watchdog.Outbox.Records.{OutboxRecord, OutboxFile, empty}
use codex_watchdog.Outbox.Operations.{write_both}

pub record IsWellFormed (f : OutboxFile) : Type 0 where
  -- The two tables hold the same records.
  pub mirrored : f.decision_outbox ≡ f.delivery_outbox
  pub unique : Unique f.delivery_outbox
  pub keyed : (k : String) (r : OutboxRecord) → get k f.delivery_outbox ≡ some r → r.envelope_id ≡ k
  pub below :
      (k : String) (r : OutboxRecord)
      → get k f.delivery_outbox ≡ some r
      → r.outbox_seq < f.next_outbox_seq
  pub distinct :
      (j k : String) (a b : OutboxRecord)
      → get j f.delivery_outbox ≡ some a
      → get k f.delivery_outbox ≡ some b
      → a.outbox_seq ≡ b.outbox_seq
      → j ≡ k

pub empty-IsWellFormed : IsWellFormed empty
unfolding get
empty-IsWellFormed = record {
  mirrored = refl;
  unique = tt;
  keyed = λ k r h. cc;
  below = λ k r h. cc;
  distinct = λ j k a b ha hb h. cc;
}

-- A lookup after a write reads the new record or what was there.
get-put_cases :
    (k j : String) (v : OutboxRecord) (d : Dict OutboxRecord) {r : OutboxRecord}
    → get j (put k v d) ≡ some r
    → ((k ≡ j) × (v ≡ r)) ⊎ (get j d ≡ some r)
get-put_cases k j v d h = elim (Bool-cases (k == j)) [
  | inl same ↦ inl ((eq_iff k j).0 same, ground (arith, get-put k j v d))
  | inr other ↦ inr (sym (get-put_ne k j v d other) ∙ h)
]

module _ (f : OutboxFile) (w : IsWellFormed f) (k : String) (r' : OutboxRecord)
    (id : r'.envelope_id ≡ k) where
  keyed_after :
      (j : String) (x : OutboxRecord)
      → get j (put k r' f.delivery_outbox) ≡ some x
      → x.envelope_id ≡ j
  keyed_after j x h = elim (get-put_cases k j r' f.delivery_outbox h) [
    | inl (same, e) ↦ rw (← e) (id ∙ same)
    | inr old ↦ w.keyed j x old
  ]

  -- A new record that takes the place of one with its identity and its position.
  pub replace-IsWellFormed :
      (r : OutboxRecord)
      → get k f.delivery_outbox ≡ some r
      → r'.outbox_seq ≡ r.outbox_seq
      → IsWellFormed (write_both k r' f)
  unfolding write_both
  replace-IsWellFormed r found seq = record {
    mirrored = ap (put k r') w.mirrored;
    unique = put-Unique k r' f.delivery_outbox w.unique;
    keyed = keyed_after;
    below = λ j x h. elim (get-put_cases k j r' f.delivery_outbox h) [
      | inl (same, e) ↦ omega (arith, w.below k r found, ap (λ (y : OutboxRecord). y.outbox_seq) e)
      | inr old ↦ w.below j x old
    ];
    distinct = λ i j a b ha hb e. elim (get-put_cases k i r' f.delivery_outbox ha) [
      | inl (same, ea) ↦ elim (get-put_cases k j r' f.delivery_outbox hb) [
        | inl (same', eb) ↦ sym same ∙ same'
        | inr old ↦
            sym same
            ∙ w.distinct k j r b found old
                (sym seq ∙ ap (λ (y : OutboxRecord). y.outbox_seq) ea ∙ e)
      ]
      | inr old ↦ elim (get-put_cases k j r' f.delivery_outbox hb) [
        | inl (same', eb) ↦
            w.distinct i k a r old found
              (e ∙ sym (ap (λ (y : OutboxRecord). y.outbox_seq) eb) ∙ seq)
            ∙ same'
        | inr old' ↦ w.distinct i j a b old old' e
      ]
    ];
  }

  -- A record under a new key, at the next position.
  pub add-IsWellFormed :
      r'.outbox_seq ≡ f.next_outbox_seq
      → IsWellFormed (write_both k r' (record f { next_outbox_seq = f.next_outbox_seq + 1 }))
  unfolding write_both
  add-IsWellFormed seq = record {
    mirrored = ap (put k r') w.mirrored;
    unique = put-Unique k r' f.delivery_outbox w.unique;
    keyed = keyed_after;
    below = λ j x h. elim (get-put_cases k j r' f.delivery_outbox h) [
      | inl (same, e) ↦ omega (arith, seq, ap (λ (y : OutboxRecord). y.outbox_seq) e)
      | inr old ↦ omega (arith, w.below j x old)
    ];
    distinct = λ i j a b ha hb e. elim (get-put_cases k i r' f.delivery_outbox ha) [
      | inl (same, ea) ↦ elim (get-put_cases k j r' f.delivery_outbox hb) [
        | inl (same', eb) ↦ sym same ∙ same'
        | inr old ↦
            absurd (omega (arith, w.below j b old, seq, ap (λ (y : OutboxRecord). y.outbox_seq) ea))
      ]
      | inr old ↦ elim (get-put_cases k j r' f.delivery_outbox hb) [
        | inl (same', eb) ↦
            absurd (omega (arith, w.below i a old, seq, ap (λ (y : OutboxRecord). y.outbox_seq) eb))
        | inr old' ↦ w.distinct i j a b old old' e
      ]
    ];
  }

  -- A record, new or changed, at a position that no record under another key has.
  pub put-IsWellFormed :
      ((j : String) (x : OutboxRecord)
        → get j f.delivery_outbox ≡ some x
        → x.outbox_seq ≡ r'.outbox_seq
        → j ≡ k)
      → IsWellFormed (
          write_both k r'
            (record f { next_outbox_seq = max f.next_outbox_seq (r'.outbox_seq + 1) }))
  unfolding write_both
  put-IsWellFormed own = record {
    mirrored = ap (put k r') w.mirrored;
    unique = put-Unique k r' f.delivery_outbox w.unique;
    keyed = keyed_after;
    below = λ j x h. elim (get-put_cases k j r' f.delivery_outbox h) [
      | inl (same, e) ↦ omega (arith, ap (λ (y : OutboxRecord). y.outbox_seq) e)
      | inr old ↦ omega (arith, w.below j x old)
    ];
    distinct = λ i j a b ha hb e. elim (get-put_cases k i r' f.delivery_outbox ha) [
      | inl (same, ea) ↦ elim (get-put_cases k j r' f.delivery_outbox hb) [
        | inl (same', eb) ↦ sym same ∙ same'
        | inr old ↦
            sym same ∙ sym (own j b old (sym e ∙ sym (ap (λ (y : OutboxRecord). y.outbox_seq) ea)))
      ]
      | inr old ↦ elim (get-put_cases k j r' f.delivery_outbox hb) [
        | inl (same', eb) ↦
            own i a old (e ∙ sym (ap (λ (y : OutboxRecord). y.outbox_seq) eb)) ∙ same'
        | inr old' ↦ w.distinct i j a b old old' e
      ]
    ];
  }
