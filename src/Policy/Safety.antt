-- ===== src/Policy/Safety.antt =====
-- When the engine lets an action execute by itself.
use mathlib.Core.Path.{subst}
use codex_watchdog.Common.{
  String, ◌≡◌, refl, sym, ap, ◌∙◌, ◌≢◌, ◌⊎◌, inl, inr, true, false, ◌&&◌, not, Option, none, some,
  List, [], ◌∷◌, arith, ◌==◌, eq_iff, Bool-cases, Option-cases, Dict, get, keep, All,
}
use codex_watchdog.Common.Texts.{one_of}
use codex_watchdog.Policy.Rules.{
  auto_execute_and_notify, block_and_alert, Boundary, managed_agent_action_boundary,
  controlled_uncertainty_reasons, human_gate_fact_codes, registered_action_refs,
  explicit_user_decision_action_refs,
}
use codex_watchdog.Policy.Decisions.{
  CanonicalDecision, build_canonical_decision_record, PersistedSession, Ruling,
}
use codex_watchdog.Policy.Evidence.{
  ValidatorSnapshot, ReleaseGateSnapshot, validator_snapshot_is_pass, release_gate_snapshot_is_pass,
  release_gate_verdict_is_executable,
}
use codex_watchdog.Policy.Engine.{
  ExtraEvidence, evaluate_persisted_session_policy, Readiness, managed_agent_boundary_snapshot,
  intent_in, any_fact, is_empty, fact_codes, not_ready, intent_ruling, runtime_gate_override,
  rule_on, is_blocked,
}

intent_ruling-blocks :
    (intent : Option String) (r : Ruling)
    → intent_ruling intent ≡ some r
    → r.decision_result ≡ block_and_alert
unfolding intent_ruling
intent_ruling-blocks intent r h = ground arith

gate_override-stops :
    {Bundle : Type 0} (intent : Option String) (validator : ValidatorSnapshot)
    (gate : ReleaseGateSnapshot Bundle) (r : Ruling)
    → runtime_gate_override intent validator gate ≡ some r
    → r.decision_result ≢ auto_execute_and_notify
unfolding runtime_gate_override
gate_override-stops intent validator gate r h = λ e. ground arith

empty_of_is_empty : (xs : List String) → not (is_empty xs) ≡ false → xs ≡ []
empty_of_is_empty [] h = refl
empty_of_is_empty (x ∷ xs) h = cc

-- The intents that the gates are asked about.
abbrev pub gated_intents : List String
gated_intents = "propose_execute" ∷ "propose_recovery" ∷ "branch_complete_switch" ∷ []

-- Those for which a release gate that does not apply is as good as one that passed.
abbrev pub closing_intents : List String
closing_intents = "propose_recovery" ∷ "branch_complete_switch" ∷ []

-- What each boundary lets through and `intent_ruling` does not stop may execute.
abbrev Fits : Boundary → Type 0
Fits b =
    (i : String)
    → one_of b.allowed_brain_intents i ≡ true
    → intent_ruling (some i) ≡ none
    → (one_of b.auto_execute_allowed_intents i ≡ true) × (one_of gated_intents i ≡ true)

boundaries_fit : All (λ (e : String × Boundary). Fits e.1) managed_agent_action_boundary
unfolding intent_ruling one_of
boundaries_fit = (
  λ i a h. (ground arith, ground arith),
  (
    λ i a h. (ground arith, ground arith),
    (λ i a h. (ground arith, ground arith), (λ i a h. (ground arith, ground arith), tt)),
  ),
)

at_key :
    (d : Dict Boundary) (k : String) (b : Boundary)
    → All (λ (e : String × Boundary). Fits e.1) d
    → get k d ≡ some b
    → Fits b
unfolding get
at_key [] k b h found = cc
at_key ((j, c) ∷ d) k b h found = elim (Bool-cases (j == k)) [
  | inl here ↦ let same : c ≡ b = ground arith in subst Fits {x = c} {y = b} same h.0
  | inr other ↦ at_key d k b h.1 (ground arith)
]

registered_has_boundary :
    (action : String)
    → get action managed_agent_action_boundary ≡ none
    → one_of registered_action_refs action ≡ false
unfolding get one_of
registered_has_boundary action h = ground (
  arith,
  eq_iff action "continue_session",
  eq_iff "continue_session" action,
  eq_iff action "request_recovery",
  eq_iff "request_recovery" action,
  eq_iff action "execute_recovery",
  eq_iff "execute_recovery" action,
  eq_iff action "post_operator_guidance",
  eq_iff "post_operator_guidance" action,
)

snapshot_at :
    (i action : String) (b : Boundary)
    → get action managed_agent_action_boundary ≡ some b
    → is_blocked (managed_agent_boundary_snapshot (some i) action).status ≡ false
    → (one_of b.allowed_brain_intents i ≡ true)
      × ((managed_agent_boundary_snapshot (some i) action).auto_execute_eligible
          ≡ one_of b.auto_execute_allowed_intents i)
unfolding managed_agent_boundary_snapshot
snapshot_at i action b found inside = (ground arith, ground arith)

only_recovery :
    (intent : Option String)
    → not (intent_in intent ("propose_recovery" ∷ [])) ≡ false
    → intent ≡ some "propose_recovery"
unfolding one_of
only_recovery none h = cc
only_recovery (some i) h = ground (arith, eq_iff i "propose_recovery")

execute_open :
    {Bundle : Type 0} (validator : ValidatorSnapshot) (gate : ReleaseGateSnapshot Bundle)
    → runtime_gate_override (some "propose_execute") validator gate ≡ none
    → release_gate_snapshot_is_pass gate ≡ true
unfolding runtime_gate_override one_of
execute_open validator gate h = ground arith

gates_open :
    {Bundle : Type 0} (i : String) (validator : ValidatorSnapshot)
    (gate : ReleaseGateSnapshot Bundle)
    → one_of gated_intents i ≡ true
    → runtime_gate_override (some i) validator gate ≡ none
    → (validator_snapshot_is_pass validator ≡ true)
      × (((i ≡ "propose_execute") × (release_gate_snapshot_is_pass gate ≡ true))
          ⊎ ((one_of closing_intents i ≡ true) × (release_gate_verdict_is_executable gate ≡ true)))
unfolding runtime_gate_override one_of
gates_open i validator gate asked h = (
  ground arith,
  elim (Bool-cases (i == "propose_execute")) [
    | inl execute ↦
        let same = (eq_iff i "propose_execute").0 execute in
        inl (
          same,
          execute_open validator gate
              (ap (λ x. runtime_gate_override (some x) validator gate) (sym same) ∙ h),
        )
    | inr other ↦ inr (ground arith, ground arith)
  ],
)

module _ {Bundle : Type 0} (p : PersistedSession) (intent : Option String) (action : String)
    (readiness : Option Readiness) (validator : ValidatorSnapshot)
    (gate : ReleaseGateSnapshot Bundle) (digest : String → String)
    (created_at trigger policy_version : String) where
  abbrev pub decision : CanonicalDecision (ExtraEvidence Bundle)
  decision =
      evaluate_persisted_session_policy digest created_at p action trigger intent validator gate
        policy_version readiness

  abbrev pub Executes : Type 0
  Executes = decision.decision_result ≡ auto_execute_and_notify

  ruled :
      decision.decision_result ≡ (rule_on p intent action readiness validator gate).decision_result
  unfolding evaluate_persisted_session_policy build_canonical_decision_record
  ruled = refl

  -- Each test that the ladder makes above its last branch.
  pub record Cleared : Type 0 where
    pub inside : is_blocked (managed_agent_boundary_snapshot intent action).status ≡ false
    pub no_gate : any_fact human_gate_fact_codes (fact_codes p) ≡ false
    pub certain : keep (one_of controlled_uncertainty_reasons) (fact_codes p) ≡ []
    pub registered : one_of registered_action_refs action ≡ true
    pub explicit :
        (one_of explicit_user_decision_action_refs action
          && not (intent_in intent ("propose_recovery" ∷ [])))
        ≡ false
    pub ready : not_ready readiness ≡ false
    pub active : intent_ruling intent ≡ none
    pub gates : runtime_gate_override intent validator gate ≡ none

  cleared :
      (rule_on p intent action readiness validator gate).decision_result ≡ auto_execute_and_notify
      → Cleared
  unfolding rule_on
  cleared h = record {
    inside = ground arith;
    no_gate = ground arith;
    certain =
        empty_of_is_empty (keep (one_of controlled_uncertainty_reasons) (fact_codes p))
          (ground arith);
    registered = ground arith;
    explicit = ground arith;
    ready = ground arith;
    active = elim (Option-cases (intent_ruling intent)) [
      | inl quiet ↦ quiet
      | inr (r, ruled) ↦ absurd (ground (arith, intent_ruling-blocks intent r ruled))
    ];
    gates = elim (Option-cases (runtime_gate_override intent validator gate)) [
      | inl open' ↦ open'
      | inr (r, ruled) ↦ elim (Option-cases (intent_ruling intent)) [
        | inl quiet ↦ absurd (ground (arith, gate_override-stops intent validator gate r ruled))
        | inr (r', ruled') ↦ absurd (ground (arith, intent_ruling-blocks intent r' ruled'))
      ]
    ];
  }

  explicit_intent : action ≡ "execute_recovery" → Cleared → intent ≡ some "propose_recovery"
  unfolding one_of
  explicit_intent e c = only_recovery intent (ground (arith, eq_iff action "execute_recovery"))

  -- An intent that is named, let through by the boundary and not one of the silent ones is one
  -- that the boundary allows to execute by itself, and one that the gates are asked about.
  eligible :
      (i : String)
      → intent ≡ some i
      → Cleared
      → ((managed_agent_boundary_snapshot intent action).auto_execute_eligible ≡ true)
        × (one_of gated_intents i ≡ true)
  eligible i named c = elim (Option-cases (get action managed_agent_action_boundary)) [
    | inl missing ↦ cc (c.registered, registered_has_boundary action missing)
    | inr (b, found) ↦
        let at = snapshot_at i action b found (
          subst (λ o. is_blocked (managed_agent_boundary_snapshot o action).status ≡ false) named
            c.inside) in
        let fits =
          at_key managed_agent_action_boundary action b boundaries_fit found i at.0
            (ap intent_ruling (sym named) ∙ c.active) in
        (
          ap (λ o. (managed_agent_boundary_snapshot o action).auto_execute_eligible) named
              ∙ at.1
              ∙ fits.0,
          fits.1,
        )
  ]

  gates_passed :
      (i : String)
      → intent ≡ some i
      → one_of gated_intents i ≡ true
      → Cleared
      → (validator_snapshot_is_pass validator ≡ true)
        × (((i ≡ "propose_execute") × (release_gate_snapshot_is_pass gate ≡ true))
            ⊎ ((one_of closing_intents i ≡ true)
                × (release_gate_verdict_is_executable gate ≡ true)))
  gates_passed i named asked c =
      gates_open i validator gate asked
        (ap (λ o. runtime_gate_override o validator gate) (sym named) ∙ c.gates)

  -- An action that the engine lets execute by itself is registered, no fact of the session is a
  -- human gate or a controlled uncertainty, and the goal contract is ready or absent.
  pub executes_safely :
      Executes
      → (any_fact human_gate_fact_codes (fact_codes p) ≡ false)
        × (keep (one_of controlled_uncertainty_reasons) (fact_codes p) ≡ [])
        × (one_of registered_action_refs action ≡ true)
        × (not_ready readiness ≡ false)
  executes_safely h =
      let c = cleared (sym ruled ∙ h) in (c.no_gate, c.certain, c.registered, c.ready)

  -- An action that evaluate_persisted_session_policy lets execute by itself, for an intent that
  -- the brain named, is one that the managed boundary allows to execute by itself; the validator
  -- passed, and the release gate passed (propose_execute) or passed or was not applicable
  -- (recovery, branch switch; no other intent occurs).
  pub executes_gated :
      (i : String)
      → intent ≡ some i
      → Executes
      → ((managed_agent_boundary_snapshot intent action).auto_execute_eligible ≡ true)
        × (validator_snapshot_is_pass validator ≡ true)
        × (((i ≡ "propose_execute") × (release_gate_snapshot_is_pass gate ≡ true))
            ⊎ ((one_of closing_intents i ≡ true)
                × (release_gate_verdict_is_executable gate ≡ true)))
  executes_gated i named h =
      let c = cleared (sym ruled ∙ h) in
      let e = eligible i named c in
      let passed = gates_passed i named e.1 c in (e.0, passed.0, passed.1)

  -- execute_recovery executes by itself only for the intent propose_recovery.
  pub recovery_proposed : action ≡ "execute_recovery" → Executes → intent ≡ some "propose_recovery"
  recovery_proposed e h = explicit_intent e (cleared (sym ruled ∙ h))
