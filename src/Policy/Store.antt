-- ===== src/Policy/Store.antt =====
-- `PolicyDecisionStore` of policy/decisions.py, as functions of the file's content: the record of
-- each decision key. `same_evidence` stands for the equality of two dumped evidences, which are
-- JSON values.
use codex_watchdog.Common.{
  String, ◌≡◌, refl, ◌⊎◌, inl, inr, Bool, true, false, ◌&&◌, none, some, List, [], ◌∷◌, ◌==◌,
  eq_refl, if◌then◌else◌, Bool-cases, Option-cases, Dict, get, put, get-put_self,
}
use codex_watchdog.Common.Values.{text_eq, option_eq, option_eq_refl}
use codex_watchdog.Policy.Rules.{result_name, risk_name}
use codex_watchdog.Policy.Decisions.{CanonicalDecision, DecisionEvidence}

unfoldable texts_eq : List String → List String → Bool
texts_eq [] [] = true
texts_eq (x ∷ xs) (y ∷ ys) = x == y && texts_eq xs ys
texts_eq _ _ = false

texts_eq_refl : (xs : List String) → texts_eq xs xs ≡ true
unfolding texts_eq
texts_eq_refl [] = refl
texts_eq_refl (x ∷ xs) = rw (eq_refl x, texts_eq_refl xs) refl

module _ {Extra : Type 0}
    (same_evidence : DecisionEvidence Extra → DecisionEvidence Extra → Bool) where
  -- `existing_payload == incoming_payload`, once `created_at` is taken out of both.
  unfoldable pub same_payload : CanonicalDecision Extra → CanonicalDecision Extra → Bool
  unfolding texts_eq
  same_payload a b =
      a.decision_id == b.decision_id
      && a.decision_key == b.decision_key
      && a.session_id == b.session_id
      && a.project_id == b.project_id
      && a.thread_id == b.thread_id
      && option_eq text_eq a.native_thread_id b.native_thread_id
      && option_eq text_eq a.approval_id b.approval_id
      && a.action_ref == b.action_ref
      && a.trigger == b.trigger
      && option_eq text_eq a.brain_intent b.brain_intent
      && result_name a.runtime_disposition == result_name b.runtime_disposition
      && result_name a.decision_result == result_name b.decision_result
      && risk_name a.risk_class == risk_name b.risk_class
      && a.decision_reason == b.decision_reason
      && texts_eq a.matched_policy_rules b.matched_policy_rules
      && option_eq text_eq a.why_not_escalated b.why_not_escalated
      && option_eq text_eq a.why_escalated b.why_escalated
      && texts_eq a.uncertainty_reasons b.uncertainty_reasons
      && a.policy_version == b.policy_version
      && a.fact_snapshot_version == b.fact_snapshot_version
      && a.idempotency_key == b.idempotency_key
      && texts_eq a.operator_notes b.operator_notes
      && same_evidence a.evidence b.evidence

  -- `PolicyDecisionStore.put`: what the file holds then, and the record that is returned.
  unfoldable pub put_decision :
      Dict (CanonicalDecision Extra)
      → CanonicalDecision Extra
      → Dict (CanonicalDecision Extra) × CanonicalDecision Extra
  unfolding same_payload
  put_decision rows r = elim (get r.decision_key rows) [
    | none ↦ (put r.decision_key r rows, r)
    | some existing ↦
        if same_payload existing r then (rows, existing) else (put r.decision_key r rows, r)
  ]

  unfoldable pub update_decision :
      Dict (CanonicalDecision Extra)
      → CanonicalDecision Extra
      → Dict (CanonicalDecision Extra) × CanonicalDecision Extra
  update_decision rows r = (put r.decision_key r rows, r)

  put_decision-cases :
      (rows : Dict (CanonicalDecision Extra)) (r : CanonicalDecision Extra)
      → (put_decision rows r ≡ (put r.decision_key r rows, r))
        ⊎ ((e : CanonicalDecision Extra) × (get r.decision_key rows ≡ some e)
            × (same_payload e r ≡ true)
            × (put_decision rows r ≡ (rows, e)))
  unfolding put_decision
  put_decision-cases rows r = elim (Option-cases (get r.decision_key rows)) [
    | inl missing ↦ inl (rw (missing, put_decision) refl)
    | inr (e, found) ↦ elim (Bool-cases (same_payload e r)) [
      | inl same ↦ inr (e, found, same, rw (found, put_decision, same) refl)
      | inr other ↦ inl (rw (found, put_decision, other) refl)
    ]
  ]

  -- The record that PolicyDecisionStore.put returns is the one that the store then holds under the
  -- decision's key.
  pub get-put_decision :
      (rows : Dict (CanonicalDecision Extra)) (r : CanonicalDecision Extra)
      → get r.decision_key (put_decision rows r).0 ≡ some (put_decision rows r).1
  get-put_decision rows r = elim (put_decision-cases rows r) [
    | inl new ↦ rw new (get-put_self r.decision_key r rows)
    | inr (e, found, same, kept) ↦ rw kept found
  ]

  module _ (same_evidence_refl : (e : DecisionEvidence Extra) → same_evidence e e ≡ true) where
    same_payload_refl :
        (r : CanonicalDecision Extra) (created_at : String)
        → same_payload r (record r { created_at = created_at }) ≡ true
    unfolding same_payload
    same_payload_refl r created_at =
        simp (eq_refl, option_eq_refl text_eq eq_refl, texts_eq_refl, same_evidence_refl)

    -- Storing a stored decision again, made at another time, changes nothing and returns the
    -- stored record with its first time, if the comparison of evidences is reflexive.
    pub put_decision_again :
        (rows : Dict (CanonicalDecision Extra)) (r : CanonicalDecision Extra) (created_at : String)
        → get r.decision_key rows ≡ some r
        → put_decision rows (record r { created_at = created_at }) ≡ (rows, r)
    unfolding put_decision
    put_decision_again rows r created_at found =
        rw (found, put_decision, same_payload_refl r created_at) refl
