-- ===== src/Gates/Reasons.antt =====
-- The labels of degraded gates in the metrics: `normalize_runtime_gate_reason` of
-- brain/release_gate.py.
use codex_watchdog.Common.{
  ◌-◌, String, ◌≡◌, refl, inl, inr, Bool, true, List, [], ◌∷◌, arith, ◌==◌, if◌then◌else◌,
  Bool-cases,
}
use codex_watchdog.Common.Texts.{strip, one_of}
use Prim.Native.String.{len, slice}

abbrev pub passthrough_reasons : List String
passthrough_reasons =
    "approval_stale" ∷ "report_expired" ∷ "report_load_failed" ∷ "input_hash_mismatch" ∷ []

abbrev pub validator_reasons : List String
validator_reasons =
    "memory_conflict" ∷ "memory_unavailable" ∷ "goal_contract_not_ready" ∷ "validator_missing"
    ∷ "validator_blocked" ∷ []

-- `s.endswith("_mismatch")`
abbrev ends_with_mismatch : String → Bool
ends_with_mismatch s = slice s (len s - 9) (len s) == "_mismatch"

unfoldable pub normalize_runtime_gate_reason : String → String
normalize_runtime_gate_reason reason =
    let normalized = strip reason in
    if normalized == ""
    then "unknown"
    else if one_of passthrough_reasons normalized
    then normalized
    else if one_of validator_reasons normalized
    then "validator_degraded"
    else if ends_with_mismatch normalized
    then "contract_mismatch"
    else "unknown"

abbrev pub labels : List String
labels =
    "validator_degraded" ∷ "contract_mismatch" ∷ "unknown" ∷ "approval_stale" ∷ "report_expired"
    ∷ "report_load_failed" ∷ "input_hash_mismatch" ∷ []

passthrough_label : (s : String) → one_of passthrough_reasons s ≡ true → one_of labels s ≡ true
unfolding one_of
passthrough_label s h = ground arith

buckets :
    (one_of labels "unknown" ≡ true)
    × (one_of labels "validator_degraded" ≡ true)
    × (one_of labels "contract_mismatch" ≡ true)
unfolding one_of
buckets = (refl, refl, refl)

-- Whatever the reason, its label is one of the seven of the taxonomy.
pub normalize_runtime_gate_reason-labels :
    (reason : String) → one_of labels (normalize_runtime_gate_reason reason) ≡ true
unfolding normalize_runtime_gate_reason
normalize_runtime_gate_reason-labels reason = elim (Bool-cases (strip reason == "")) [
  | inl empty' ↦ rw empty' buckets.0
  | inr some_text ↦ elim (Bool-cases (one_of passthrough_reasons (strip reason))) [
    | inl passed ↦ rw (some_text, passed) (passthrough_label (strip reason) passed)
    | inr other ↦ elim (Bool-cases (one_of validator_reasons (strip reason))) [
      | inl validator ↦ rw (some_text, other, validator) buckets.1
      | inr neither ↦ elim (Bool-cases (ends_with_mismatch (strip reason))) [
        | inl mismatch ↦ rw (some_text, other, neither, mismatch) buckets.2
        | inr raw ↦ rw (some_text, other, neither, raw) buckets.0
      ]
    ]
  ]
]
