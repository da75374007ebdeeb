-- ===== src/Gates/Release.antt =====
-- brain/release_gate.py: the evaluator of the release gate. `hash_of` stands for the SHA-256 of a
-- trace's canonical JSON, and `fromisoformat` for `datetime.fromisoformat`. The taxonomy of a
-- report is checked when the report is parsed, and the evaluator does not read it.
use codex_watchdog.Common.{
  ℕ, String, ◌≡◌, refl, ◌⊎◌, inl, inr, Bool, true, false, not, Option, none, some, List, [], ◌∷◌,
  arith, ◌==◌, eq_iff, leb, nat_eq, if◌then◌else◌, Option-cases, or_else, Result, ok, raise, Dict,
  get, All,
}
use codex_watchdog.Common.Texts.{format}
use Prim.Native.String as S
use Prim.Native.Char.{code}
use codex_watchdog.Leases.State.{Moment, to_utc}
use codex_watchdog.Policy.Evidence.{ValidatorVerdict, ReleaseGateVerdict, text_or}

pub record ReleaseGateReport : Type 0 where
  pub report_id : String
  pub report_hash : String
  pub sample_window : String
  pub shadow_window : String
  pub label_manifest : String
  pub generated_by : String
  pub report_approved_by : String
  pub artifact_ref : String
  pub expires_at : String
  pub provider : String
  pub model : String
  pub prompt_schema_ref : String
  pub output_schema_ref : String
  pub risk_policy_version : String
  pub decision_input_builder_version : String
  pub policy_engine_version : String
  pub tool_schema_hash : String
  pub memory_provider_adapter_hash : String
  pub input_hash : String
  pub runtime_contract_surface_ref : String
  pub shadow_decision_count : Option ℕ
  pub certification_packet_count : Option ℕ

-- What the evaluator reads of a `DecisionTrace` beside its hash.
pub record Trace : Type 0 where
  pub trace_id : String
  pub provider : String
  pub model : String
  pub prompt_schema_ref : String
  pub output_schema_ref : String

-- `value.replace("Z", "+00:00")`
unfoldable pub replace_z : String → String
replace_z S.[] = ""
replace_z (S.◌∷◌ c s) =
    let rest = replace_z s in if nat_eq (code c) 90 then S.◌++◌ "+00:00" rest else S.◌∷◌ c rest

abbrev instant : Result Moment → Option ℕ
instant (ok m) = some (to_utc m)
instant (raise e) = none

unfoldable pub parse_time : (String → Result Moment) → Option String → Option ℕ
unfolding replace_z
parse_time fromisoformat none = none
parse_time fromisoformat (some value) =
    if value == "" then none else instant (fromisoformat (replace_z value))

-- `current_time is not None and expires_at is not None and current_time >= expires_at`
abbrev pub is_past : Option ℕ → Option ℕ → Bool
is_past (some expires_at) (some current_time) = leb expires_at current_time
is_past _ _ = false

-- One entry of `field_pairs`: the field's name, what the report has, and what is expected.
pub record FieldPair : Type 0 where
  pub field_name : String
  pub reported : String
  pub expected : Option String

-- A pair without an expectation fits anything.
abbrev pub fits : FieldPair → Bool
fits pair = elim pair.expected [ none ↦ true | some value ↦ pair.reported == value ]

unfoldable pub field_pairs : ReleaseGateReport → Trace → Dict String → List FieldPair
field_pairs report trace contract =
    record { field_name = "provider"; reported = report.provider; expected = some trace.provider }
    ∷ record { field_name = "model"; reported = report.model; expected = some trace.model }
    ∷ record {
      field_name = "prompt_schema_ref";
      reported = report.prompt_schema_ref;
      expected = some trace.prompt_schema_ref;
    }
    ∷ record {
      field_name = "output_schema_ref";
      reported = report.output_schema_ref;
      expected = some trace.output_schema_ref;
    }
    ∷ record {
      field_name = "risk_policy_version";
      reported = report.risk_policy_version;
      expected = get "risk_policy_version" contract;
    }
    ∷ record {
      field_name = "decision_input_builder_version";
      reported = report.decision_input_builder_version;
      expected = get "decision_input_builder_version" contract;
    }
    ∷ record {
      field_name = "policy_engine_version";
      reported = report.policy_engine_version;
      expected = get "policy_engine_version" contract;
    }
    ∷ record {
      field_name = "tool_schema_hash";
      reported = report.tool_schema_hash;
      expected = get "tool_schema_hash" contract;
    }
    ∷ record {
      field_name = "memory_provider_adapter_hash";
      reported = report.memory_provider_adapter_hash;
      expected = get "memory_provider_adapter_hash" contract;
    }
    ∷ []

unfoldable pub first_mismatch : List FieldPair → Option String
first_mismatch [] = none
first_mismatch (pair ∷ pairs) =
    let rest = first_mismatch pairs in
    if fits pair then rest else some (format (pair.field_name ∷ "_mismatch" ∷ []))

-- The verdict with the fields that every branch fills in the same way.
abbrev pub gate_verdict :
    Trace
    → (approval_event : Option String) (input_hash status : String) (degrade_reason : Option String)
      (report_id report_hash : String)
    → ReleaseGateVerdict
gate_verdict trace approval_event input_hash status degrade_reason report_id report_hash = record {
  status = status;
  decision_trace_ref = trace.trace_id;
  approval_read_ref = elim approval_event [
    | none ↦ "approval:none"
    | some id ↦ format ("approval:event:" ∷ id ∷ [])
  ];
  degrade_reason = degrade_reason;
  report_id = report_id;
  report_hash = report_hash;
  input_hash = input_hash;
}

module _ (fromisoformat : String → Result Moment) where
  unfoldable pub degrade_reason_for_report :
      ReleaseGateReport
      → Trace
      → Dict String
      → (input_hash : String) (now : Option String) → Option String
  unfolding parse_time field_pairs first_mismatch
  degrade_reason_for_report report trace contract input_hash now =
      if is_past (parse_time fromisoformat (some report.expires_at)) (parse_time fromisoformat now)
      then some "report_expired"
      else if not (report.input_hash == input_hash)
      then some "input_hash_mismatch"
      else first_mismatch (field_pairs report trace contract)

  unfoldable reason_of :
      Option ReleaseGateReport → Trace → Dict String → String → Option String → Option String
  unfolding degrade_reason_for_report
  reason_of none trace contract input_hash now = none
  reason_of (some report) trace contract input_hash now =
      degrade_reason_for_report report trace contract input_hash now

module _ (fromisoformat : String → Result Moment) (hash_of : Trace → String) where
  -- `approval_event` is the event id of the approval that was read, if one was.
  unfoldable pub evaluate :
      (brain_intent : String)
      → Trace
      → ValidatorVerdict
      → (approval_event : Option String) (verdict : Option ReleaseGateVerdict)
      → Option ReleaseGateReport
      → (runtime_contract : Option (Dict String)) (now : Option String) → ReleaseGateVerdict
  unfolding reason_of
  evaluate brain_intent trace validator approval_event (some verdict) report runtime_contract now =
      verdict
  evaluate brain_intent trace validator approval_event none report runtime_contract now =
      let input_hash = hash_of trace in
      let make = gate_verdict trace approval_event input_hash in
      let id : String = elim report [ none ↦ "report:resident_default" | some r ↦ r.report_id ] in
      let hash : String = elim report [
        | none ↦ "sha256:resident_default"
        | some r ↦ r.report_hash
      ] in
      if not (brain_intent == "propose_execute")
      then make "not_applicable" none "report:not_applicable" "sha256:not_applicable"
      else if not (validator.status == "pass")
      then make "degraded" (some (text_or validator.reason "validator_blocked"))
          "report:validator_gated" "sha256:validator_gated"
      else elim (reason_of fromisoformat report trace (or_else runtime_contract []) input_hash
          now) [
            | some reason ↦ make "degraded" (some reason) id hash
            | none ↦ make "pass" none id hash
          ]

-- Every pair of a report that no mismatch was found in fits.
first_mismatch-none :
    (pairs : List FieldPair) → first_mismatch pairs ≡ none → All (λ pair. fits pair ≡ true) pairs
unfolding first_mismatch
first_mismatch-none [] h = tt
first_mismatch-none (pair ∷ pairs) h = (ground arith, first_mismatch-none pairs (ground arith))

module _ (fromisoformat : String → Result Moment) (hash_of : Trace → String) (trace : Trace) where
  -- What a report must be for an execution to pass with it.
  abbrev pub Current : ReleaseGateReport → Dict String → Option String → Type 0
  Current report contract now =
      (is_past (parse_time fromisoformat (some report.expires_at)) (parse_time fromisoformat now)
        ≡ false)
      × (report.input_hash ≡ hash_of trace)
      × All (λ pair. fits pair ≡ true) (field_pairs report trace contract)

  current :
      (report : ReleaseGateReport) (contract : Dict String) (now : Option String)
      → degrade_reason_for_report fromisoformat report trace contract (hash_of trace) now ≡ none
      → Current report contract now
  unfolding degrade_reason_for_report
  current report contract now h =
      let same = eq_iff report.input_hash (hash_of trace) in
      (
        ground arith,
        ground (arith, same),
        first_mismatch-none (field_pairs report trace contract) (ground arith),
      )

  judged :
      (report : Option ReleaseGateReport) (contract : Dict String) (now : Option String)
      → reason_of fromisoformat report trace contract (hash_of trace) now ≡ none
      → (report ≡ none) ⊎ ((r : ReleaseGateReport) × (report ≡ some r) × Current r contract now)
  unfolding reason_of
  judged none contract now h = inl refl
  judged (some r) contract now h = inr (r, refl, current r contract now h)

  -- A verdict of the release gate's own that passes is for propose_execute, after a validator that
  -- passed; its report, if it had one, had not expired as far as the times can be read, had the
  -- trace's hash, and agreed with the trace and with each entry of the runtime contract that the
  -- evaluator compares.
  pub evaluate-pass :
      (brain_intent : String) (validator : ValidatorVerdict) (approval_event : Option String)
      (report : Option ReleaseGateReport) (runtime_contract : Option (Dict String))
      (now : Option String)
      → (evaluate fromisoformat hash_of brain_intent trace validator approval_event none report
          runtime_contract now).status
        ≡ "pass"
      → (brain_intent ≡ "propose_execute")
        × (validator.status ≡ "pass")
        × ((report ≡ none)
            ⊎ ((r : ReleaseGateReport) × (report ≡ some r)
                × Current r (or_else runtime_contract []) now))
  unfolding evaluate
  evaluate-pass brain_intent validator approval_event report runtime_contract now h =
      let intent = eq_iff brain_intent "propose_execute" in
      let passed = eq_iff validator.status "pass" in
      let apart = eq_iff "degraded" "pass" in
      let absent = eq_iff "not_applicable" "pass" in
      (
        ground (arith, intent, apart, absent),
        ground (arith, passed, apart, absent),
        elim (Option-cases (
            reason_of fromisoformat report trace (or_else runtime_contract []) (hash_of trace)
              now)) [
                | inl clean ↦ judged report (or_else runtime_contract []) now clean
                | inr (reason, found) ↦ absurd (ground (arith, apart, absent))
              ],
      )
