-- ===== src/Policy/Evidence.antt =====
-- What the engine reads of the gates: brain/validator_read_contract.py,
-- brain/release_gate_read_contract.py, and the `_…_snapshot_…` helpers of policy/engine.py. The
-- payloads are values of a type `Payload`; `validate` stands for pydantic's validation of a model,
-- which gives nothing for a payload that is no dict or does not fit.
use codex_watchdog.Common.{
  String, Bool, true, false, ◌&&◌, ◌||◌, not, Option, none, some, [], ◌==◌, if◌then◌else◌, is_none,
  or_else, Dict, get,
}

pub record ValidatorVerdict : Type 0 where
  pub status : String
  pub reason : Option String

pub record ValidatorSnapshot : Type 0 where
  pub verdict : Option ValidatorVerdict
  pub has_verdict_payload : Bool

pub record ReleaseGateVerdict : Type 0 where
  pub status : String
  pub decision_trace_ref : String
  pub approval_read_ref : String
  pub degrade_reason : Option String
  pub report_id : String
  pub report_hash : String
  pub input_hash : String

pub record ReleaseGateSnapshot (Bundle : Type 0) : Type 0 where
  pub verdict : Option ReleaseGateVerdict
  pub evidence_bundle : Option Bundle
  pub has_verdict_payload : Bool
  pub has_evidence_bundle_payload : Bool

-- `_read_optional_model(source.get(key), Model)`
abbrev read_entry : {P M : Type 0} → (P → Option M) → Option P → Option M
read_entry validate none = none
read_entry validate (some p) = validate p

-- `legacy if legacy is not None else found`
abbrev newer : {M : Type 0} → Option M → Option M → Option M
newer none found = found
newer (some legacy) found = some legacy

module _ {Payload : Type 0} where
  -- `validate_whole` validates the mapping itself, as the older callers passed it.
  unfoldable pub read_validator_decision_evidence :
      (validate : Payload → Option ValidatorVerdict)
      (validate_whole : Dict Payload → Option ValidatorVerdict)
      → Option (Dict Payload)
      → ValidatorSnapshot
  read_validator_decision_evidence validate validate_whole evidence =
      let source = or_else evidence [] in
      let verdict = read_entry validate (get "validator_verdict" source) in
      let named = not (is_none (get "validator_verdict" source)) in
      let legacy_payload =
        not (is_none (get "status" source)) || not (is_none (get "reason" source)) in
      record {
        verdict = if named then verdict else newer (validate_whole source) verdict;
        has_verdict_payload = if named then true else legacy_payload;
      }

  unfoldable pub read_release_gate_decision_evidence :
      {Bundle : Type 0}
      → (Payload → Option ReleaseGateVerdict)
      → (Dict Payload → Option ReleaseGateVerdict)
      → (Payload → Option Bundle)
      → Option (Dict Payload)
      → ReleaseGateSnapshot Bundle
  read_release_gate_decision_evidence validate validate_whole validate_bundle evidence =
      let source = or_else evidence [] in
      let verdict = read_entry validate (get "release_gate_verdict" source) in
      let named = not (is_none (get "release_gate_verdict" source)) in
      let legacy = validate_whole source in
      record {
        verdict = if named then verdict else newer legacy verdict;
        evidence_bundle = read_entry validate_bundle (get "release_gate_evidence_bundle" source);
        has_verdict_payload = if named then true else not (is_none legacy);
        has_evidence_bundle_payload = not (is_none (get "release_gate_evidence_bundle" source));
      }

abbrev pub validator_passes : Option ValidatorVerdict → Bool
validator_passes none = false
validator_passes (some v) = v.status == "pass"

unfoldable pub validator_snapshot_is_pass : ValidatorSnapshot → Bool
validator_snapshot_is_pass s = validator_passes s.verdict

unfoldable pub validator_snapshot_has_gate_evidence : ValidatorSnapshot → Bool
validator_snapshot_has_gate_evidence s = not (is_none s.verdict) || s.has_verdict_payload

-- `text or fallback`: an empty text counts as missing.
abbrev pub text_or : Option String → String → String
text_or none fallback = fallback
text_or (some s) fallback = if s == "" then fallback else s

unfoldable pub validator_snapshot_reason : ValidatorSnapshot → String → String
validator_snapshot_reason s fallback = elim s.verdict [
  | none ↦ fallback
  | some v ↦ text_or v.reason fallback
]

module _ {Bundle : Type 0} where
  unfoldable pub release_gate_snapshot_requires_bundle : ReleaseGateSnapshot Bundle → Bool
  release_gate_snapshot_requires_bundle s = elim s.verdict [
    | none ↦ false
    | some v ↦ not (v.report_id == "report:resident_default")
  ]

  unfoldable pub release_gate_snapshot_is_pass : ReleaseGateSnapshot Bundle → Bool
  unfolding release_gate_snapshot_requires_bundle
  release_gate_snapshot_is_pass s = elim s.verdict [
    | none ↦ false
    | some v ↦
        if not (v.status == "pass")
        then false
        else not (release_gate_snapshot_requires_bundle s && is_none s.evidence_bundle)
  ]

  -- The test of the branch for recoveries and branch switches.
  unfoldable pub release_gate_verdict_is_executable : ReleaseGateSnapshot Bundle → Bool
  release_gate_verdict_is_executable s = elim s.verdict [
    | none ↦ false
    | some v ↦ v.status == "pass" || v.status == "not_applicable"
  ]

  unfoldable pub release_gate_snapshot_has_gate_evidence : ReleaseGateSnapshot Bundle → Bool
  release_gate_snapshot_has_gate_evidence s =
      not (is_none s.verdict) || s.has_verdict_payload || s.has_evidence_bundle_payload

  unfoldable pub release_gate_snapshot_reason : ReleaseGateSnapshot Bundle → String → String
  release_gate_snapshot_reason s fallback = elim s.verdict [
    | none ↦ fallback
    | some v ↦ if not (v.status == "pass") then text_or v.degrade_reason fallback else fallback
  ]
