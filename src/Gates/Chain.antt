-- ===== src/Gates/Chain.antt =====
-- From the brain's proposal to its execution: the validator, the release gate and the policy engine
-- in the order in which the orchestrator of the session spine calls them.
use codex_watchdog.Common.{
  String, ◌≡◌, refl, ◌⊎◌, inl, inr, true, false, Option, none, some, [], arith, eq_iff, or_else,
  Result, Dict,
}
use codex_watchdog.Leases.State.{Moment}
use codex_watchdog.Policy.Decisions.{PersistedSession}
use codex_watchdog.Policy.Evidence.{
  ValidatorVerdict, ValidatorSnapshot, ReleaseGateVerdict, ReleaseGateSnapshot,
  validator_snapshot_is_pass, release_gate_snapshot_is_pass,
}
use codex_watchdog.Policy.Engine.{Readiness, not_ready}
use codex_watchdog.Policy.Safety.{Executes, executes_gated}
use codex_watchdog.Policy.Execution.{not_closing}
use codex_watchdog.Gates.Validator.{
  Proposal, validate, validate_iff, validate_managed_action_arguments,
}
use codex_watchdog.Gates.Release.{Trace, ReleaseGateReport, evaluate, evaluate-pass, Current}

validator_passed :
    (s : ValidatorSnapshot) (v : ValidatorVerdict)
    → s.verdict ≡ some v
    → validator_snapshot_is_pass s ≡ true
    → v.status ≡ "pass"
unfolding validator_snapshot_is_pass
validator_passed s v read h = ground (arith, eq_iff v.status "pass")

gate_passed :
    {Bundle : Type 0} (s : ReleaseGateSnapshot Bundle) (v : ReleaseGateVerdict)
    → s.verdict ≡ some v
    → release_gate_snapshot_is_pass s ≡ true
    → v.status ≡ "pass"
unfolding release_gate_snapshot_is_pass
gate_passed s v read h = ground (arith, eq_iff v.status "pass")

module _ (fromisoformat : String → Result Moment) (hash_of : Trace → String)
    (digest : String → String) {Bundle : Type 0} where
  -- When propose_execute executes by itself on verdicts that the validator and the release gate
  -- made themselves, the memory was there and in no conflict, the goal contract that the validator
  -- saw was ready or absent, the arguments of a named action fit its contract, and the release
  -- report, if there was one, had not expired as far as the times can be read, had the trace's
  -- hash, and agreed with the trace and the runtime contract.
  pub execution_earned :
      (session : PersistedSession) (action : String) (readiness : Option Readiness)
      (validator : ValidatorSnapshot) (gate : ReleaseGateSnapshot Bundle)
      (created_at trigger policy_version : String) (p : Proposal) (reason : Option String)
      (trace : Trace) (approval_event : Option String) (report : Option ReleaseGateReport)
      (runtime_contract : Option (Dict String)) (now : Option String)
      → p.brain_intent ≡ "propose_execute"
      → validator.verdict ≡ some (validate p none reason)
      → gate.verdict
        ≡ some (
            evaluate fromisoformat hash_of "propose_execute" trace
              (validate p none reason)
              approval_event
              none
              report
              runtime_contract
              now)
      → Executes session
          (some "propose_execute")
          action
          readiness
          validator
          gate
          digest
          created_at
          trigger
          policy_version
      → (p.memory_conflict_detected ≡ false)
        × (p.memory_unavailable ≡ false)
        × (not_ready p.goal_contract_readiness ≡ false)
        × ((p.action_ref ≡ none)
            ⊎ ((validate_managed_action_arguments p.action_ref p.action_arguments).status ≡ "pass"))
        × ((report ≡ none)
            ⊎ ((r : ReleaseGateReport) × (report ≡ some r)
                × Current fromisoformat hash_of trace r (or_else runtime_contract []) now))
  execution_earned session action readiness validator gate created_at trigger policy_version p
        reason trace approval_event report runtime_contract now intent read_validator read_gate
        executes =
      let v = validate p none reason in
      let g =
        evaluate fromisoformat hash_of "propose_execute" trace v approval_event none report
          runtime_contract now in
      let safe =
        executes_gated session (some "propose_execute") action readiness validator gate digest
          created_at trigger policy_version "propose_execute" refl executes in
      let sound =
        (validate_iff p reason intent).0 (validator_passed validator v read_validator safe.1) in
      elim safe.2 [
        | inl execute ↦
            let fresh =
              evaluate-pass fromisoformat hash_of trace "propose_execute" v approval_event report
                runtime_contract now (gate_passed gate g read_gate execute.1) in
            (sound.0, sound.1, sound.2, sound.3, fresh.2)
        | inr closing ↦ absurd (not_closing closing.0)
      ]
