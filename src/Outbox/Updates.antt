-- ===== src/Outbox/Updates.antt =====
-- What `requeue_transport_failures` and `supersede_records` do to each record.
use codex_watchdog.Common.{
  String, ◌≡◌, refl, ◌∙◌, inl, inr, false, Option, none, some, [], ◌∷◌, arith, ◌==◌, eq_iff,
  eq_refl, if◌then◌else◌, Bool-cases, Option-cases, Dict, get, get-put, get-put_ne, Unique,
}
use codex_watchdog.Outbox.Records.{OutboxRecord, OutboxFile}
use codex_watchdog.Outbox.Operations.{
  write_both, requeued_record, requeue_items, is_requeueable, requeue_transport_failures,
  superseded_record, supersede_one, supersede_records, is_superseded_or_delivered,
}
use codex_watchdog.Outbox.Invariant.{IsWellFormed, replace-IsWellFormed}

module _ (reason updated_at : String) where
  abbrev pub after_requeue : Option OutboxRecord → Option OutboxRecord → Option OutboxRecord
  after_requeue none o = o
  after_requeue (some r) o =
      if is_requeueable r then some (requeued_record reason updated_at r) else o

  requeue_items-get :
      (d : Dict OutboxRecord) (f : OutboxFile) (k : String)
      → Unique d
      → get k (requeue_items reason updated_at d f).0.delivery_outbox
        ≡ after_requeue (get k d) (get k f.delivery_outbox)
  unfolding requeue_items get write_both requeued_record
  requeue_items-get [] f k u = refl
  requeue_items-get ((j, r) ∷ d) f k u =
      let updated = requeued_record reason updated_at r in
      elim (Bool-cases (is_requeueable r)) [
        | inr off ↦ rw off (
            requeue_items-get d f k u.1 ∙ elim (Bool-cases (j == k)) [
              | inl same ↦ ground (arith, eq_iff j k, u.0)
              | inr other ↦ rw other refl
            ])
        | inl on ↦ rw on (
            requeue_items-get d (write_both j updated f) k u.1 ∙ elim (Bool-cases (j == k)) [
              | inl same ↦ ground (arith, eq_iff j k, u.0, get-put j k updated f.delivery_outbox)
              | inr other ↦ rw (other, get-put_ne j k updated f.delivery_outbox other) refl
            ])
      ]

  -- In a well-formed outbox, requeue_transport_failures turns exactly the records whose delivery
  -- failed for a transport reason into pending ones with no attempts, and leaves every other entry
  -- as it was.
  pub requeue_transport_failures-get :
      (f : OutboxFile) (k : String)
      → IsWellFormed f
      → get k (requeue_transport_failures f reason updated_at).0.delivery_outbox
        ≡ after_requeue (get k f.delivery_outbox) (get k f.delivery_outbox)
  unfolding requeue_transport_failures
  requeue_transport_failures-get f k w = requeue_items-get f.delivery_outbox f k w.unique

  requeue_items-IsWellFormed :
      (d : Dict OutboxRecord) (f : OutboxFile)
      → Unique d
      → ((k : String) (r : OutboxRecord) → get k d ≡ some r → get k f.delivery_outbox ≡ some r)
      → IsWellFormed f
      → IsWellFormed (requeue_items reason updated_at d f).0
  unfolding requeue_items requeued_record get write_both
  requeue_items-IsWellFormed [] f u same w = w
  requeue_items-IsWellFormed ((j, r) ∷ d) f u same w =
      let updated = requeued_record reason updated_at r in
      let found : get j f.delivery_outbox ≡ some r = same j r (rw (eq_refl j) refl) in
      elim (Bool-cases (is_requeueable r)) [
        | inr off ↦ rw off (requeue_items-IsWellFormed d f u.1 (λ k x h. same k x (later k x h)) w)
        | inl on ↦ rw on (
            requeue_items-IsWellFormed d (write_both j updated f) u.1
              (λ k x h.
                get-put_ne j k updated f.delivery_outbox (apart k x h) ∙ same k x (later k x h))
              (replace-IsWellFormed f w j updated (w.keyed j r found) r found refl))
      ]
    where
      apart : (k : String) (x : OutboxRecord) → get k d ≡ some x → (j == k) ≡ false
      apart k x h = ground (arith, eq_iff j k, u.0)

      later : (k : String) (x : OutboxRecord) → get k d ≡ some x → get k ((j, r) ∷ d) ≡ some x
      later k x h = rw (apart k x h) h

  -- requeue_transport_failures keeps a well-formed outbox well formed.
  pub requeue_transport_failures-IsWellFormed :
      (f : OutboxFile)
      → IsWellFormed f
      → IsWellFormed (requeue_transport_failures f reason updated_at).0
  unfolding requeue_transport_failures
  requeue_transport_failures-IsWellFormed f w =
      requeue_items-IsWellFormed f.delivery_outbox f w.unique (λ k x h. h) w

module _ (updated_at : String) where
  -- What the entry of a record becomes if the request names it with a reason.
  abbrev pub after_supersede : Option String → Option OutboxRecord → Option OutboxRecord
  after_supersede none o = o
  after_supersede (some reason) none = none
  after_supersede (some reason) (some r) =
      if is_superseded_or_delivered r then some r else some (superseded_record reason updated_at r)

  supersede_one-get :
      (f : OutboxFile) (j reason k : String)
      → get k (supersede_one updated_at j reason f).0.delivery_outbox ≡ (
          if j == k
          then after_supersede (some reason) (get k f.delivery_outbox)
          else get k f.delivery_outbox)
  unfolding supersede_one write_both
  supersede_one-get f j reason k = elim (Option-cases (get j f.delivery_outbox)) [
    | inl missing ↦
        rw (missing, supersede_one)
          (elim (Bool-cases (j == k)) [
            | inl same ↦ ground (arith, eq_iff j k)
            | inr other ↦ rw other refl
          ])
    | inr (r, found) ↦
        ground
          (arith, eq_iff j k, get-put j k (superseded_record reason updated_at r) f.delivery_outbox)
  ]

  -- supersede_records, asked with distinct envelope ids, supersedes exactly the named records that
  -- are neither delivered nor superseded, each for its own reason, and leaves every other entry as
  -- it was.
  pub supersede_records-get :
      (reasons : Dict String) (f : OutboxFile) (k : String)
      → Unique reasons
      → get k (supersede_records f reasons updated_at).0.delivery_outbox
        ≡ after_supersede (get k reasons) (get k f.delivery_outbox)
  unfolding supersede_records get
  supersede_records-get [] f k u = refl
  supersede_records-get ((j, reason) ∷ reasons) f k u =
      supersede_records-get reasons (supersede_one updated_at j reason f).0 k u.1
      ∙ elim (Bool-cases (j == k)) [
        | inl same ↦ ground (arith, eq_iff j k, u.0, supersede_one-get f j reason k)
        | inr other ↦ rw (supersede_one-get f j reason k, other) refl
      ]
