-- ===== src/Gates/Validator.antt =====
-- brain/validator.py: the contract on an action's arguments, and `DecisionValidator.validate`. The
-- numbers of a payload are natural numbers, so that the test for a negative stuck level is void.
use codex_watchdog.Common.{
  String, ◌≡◌, ◌↔◌, ◌⊎◌, inl, inr, Bool, true, false, ◌&&◌, not, Option, none, some, List, [], ◌∷◌,
  arith, ◌==◌, eq_iff, ltb, if◌then◌else◌, Option-cases, is_none, or_else, Dict, get, keys, keep,
}
use codex_watchdog.Common.Texts.{sort_texts, strip, one_of}
use codex_watchdog.Common.Values.{Value, number, string}
use codex_watchdog.Policy.Evidence.{ValidatorVerdict}
use codex_watchdog.Policy.Engine.{Readiness, not_ready}

pub record ArgumentContract : Type 0 where
  pub allowed_keys : List String
  pub required_keys : List String

abbrev pub managed_agent_action_argument_contracts : Dict ArgumentContract
managed_agent_action_argument_contracts =
    (
      "continue_session",
      record { allowed_keys = "message" ∷ "reason_code" ∷ "stuck_level" ∷ []; required_keys = [] },
    )
    ∷ ("request_recovery", record { allowed_keys = []; required_keys = [] })
    ∷ ("execute_recovery", record { allowed_keys = []; required_keys = [] })
    ∷ (
      "post_operator_guidance",
      record {
        allowed_keys = "message" ∷ "reason_code" ∷ "stuck_level" ∷ [];
        required_keys = "message" ∷ [];
      },
    )
    ∷ []

pub record ArgumentsVerdict : Type 0 where
  pub status : String
  pub action_ref : Option String
  pub allowed_keys : List String
  pub required_keys : List String
  pub missing_required_keys : List String
  pub rejected_keys : List String
  pub invalid_fields : Dict String

abbrev invalid_text_field : Value → Bool
invalid_text_field (string s) = strip s == ""
invalid_text_field _ = true

abbrev invalid_level : Value → Bool
invalid_level (number n) = ltb 4 n
invalid_level _ = true

-- What the loop over the allowed keys finds wrong with one of them.
unfoldable pub field_error : String → Value → Option String
field_error key value =
    if one_of ("message" ∷ "reason_code" ∷ []) key && invalid_text_field value
    then some "must be a non-empty string"
    else if key == "stuck_level" && invalid_level value
    then some "must be an integer in 0..4"
    else none

unfoldable pub invalid_fields_of : List String → Dict Value → Dict String
unfolding field_error
invalid_fields_of [] payload = []
invalid_fields_of (key ∷ keys') payload =
    let rest = invalid_fields_of keys' payload in
    elim (get key payload) [
      | none ↦ rest
      | some value ↦ elim (field_error key value) [ none ↦ rest | some error ↦ (key, error) ∷ rest ]
    ]

abbrev pub no_entries {ℓ} : {A : Type ℓ} → List A → Bool
no_entries [] = true
no_entries (x ∷ xs) = false

abbrev pub no_contract : Option String → ArgumentsVerdict
no_contract action_ref = record {
  status = "unregistered_action";
  action_ref = action_ref;
  allowed_keys = [];
  required_keys = [];
  missing_required_keys = [];
  rejected_keys = [];
  invalid_fields = [];
}

-- The verdict under a contract.
unfoldable pub check_arguments : Option String → ArgumentContract → Dict Value → ArgumentsVerdict
unfolding invalid_fields_of
check_arguments action_ref contract payload =
    let rejected = sort_texts (keep (λ k. not (one_of contract.allowed_keys k)) (keys payload)) in
    let missing = keep (λ k. is_none (get k payload)) contract.required_keys in
    let invalid = invalid_fields_of contract.allowed_keys payload in
    record {
      status =
          if no_entries rejected && no_entries missing && no_entries invalid
          then "pass"
          else "blocked";
      action_ref = action_ref;
      allowed_keys = contract.allowed_keys;
      required_keys = contract.required_keys;
      missing_required_keys = missing;
      rejected_keys = rejected;
      invalid_fields = invalid;
    }

unfoldable pub validate_managed_action_arguments :
    Option String → Option (Dict Value) → ArgumentsVerdict
unfolding check_arguments
validate_managed_action_arguments none action_arguments = no_contract none
validate_managed_action_arguments (some action_ref) action_arguments =
    elim (get action_ref managed_agent_action_argument_contracts) [
      | none ↦ no_contract (some action_ref)
      | some contract ↦ check_arguments (some action_ref) contract (or_else action_arguments [])
    ]

-- The arguments of `validate`, but a verdict that is given from outside.
pub record Proposal : Type 0 where
  pub brain_intent : String
  pub action_ref : Option String
  pub action_arguments : Option (Dict Value)
  pub goal_contract_readiness : Option Readiness
  pub memory_conflict_detected : Bool
  pub memory_unavailable : Bool

abbrev verdict_of : String → String → ValidatorVerdict
verdict_of status reason = record { status = status; reason = some reason }

unfoldable pub validate : Proposal → (status reason : Option String) → ValidatorVerdict
unfolding validate_managed_action_arguments
validate p (some status) reason = record { status = status; reason = reason }
validate p none reason =
    if not (is_none p.action_ref)
      && not ((validate_managed_action_arguments p.action_ref p.action_arguments).status == "pass")
    then verdict_of "degraded" "action_args_invalid"
    else if not (p.brain_intent == "propose_execute")
    then verdict_of "pass" "non_executing_intent"
    else if p.memory_conflict_detected
    then verdict_of "degraded" "memory_conflict"
    else if p.memory_unavailable
    then verdict_of "degraded" "memory_unavailable"
    else if not_ready p.goal_contract_readiness
    then verdict_of "degraded" "goal_contract_not_ready"
    else verdict_of "pass" "schema_and_risk_ok"

-- Without a verdict from outside, an execution passes the validator exactly when the memory is
-- there and in no conflict, the goal contract is ready or absent, and the arguments of a named
-- action fit its contract.
pub validate_iff :
    (p : Proposal) (reason : Option String)
    → p.brain_intent ≡ "propose_execute"
    → ((validate p none reason).status ≡ "pass") ↔ (
        (p.memory_conflict_detected ≡ false)
        × (p.memory_unavailable ≡ false)
        × (not_ready p.goal_contract_readiness ≡ false)
        × ((p.action_ref ≡ none)
            ⊎ ((validate_managed_action_arguments p.action_ref p.action_arguments).status
                ≡ "pass")))
unfolding validate
validate_iff p reason e =
    let status = (validate_managed_action_arguments p.action_ref p.action_arguments).status in
    let intent = eq_iff p.brain_intent "propose_execute" in
    let fit = eq_iff status "pass" in
    let apart = eq_iff "degraded" "pass" in
    elim (Option-cases p.action_ref) [
      | inl free ↦ (
        (λ h. (
          ground (arith, intent, fit, apart),
          ground (arith, intent, fit, apart),
          ground (arith, intent, fit, apart),
          inl free,
        )),
        (λ h. ground (arith, intent, fit, apart, h.0, h.1, h.2)),
      )
      | inr (action, named) ↦ (
        (λ h. (
          ground (arith, intent, fit, apart),
          ground (arith, intent, fit, apart),
          ground (arith, intent, fit, apart),
          inr (ground (arith, intent, fit, apart)),
        )),
        (λ h. elim h.3 [
          | inl free ↦ cc (named, free)
          | inr fits ↦ ground (arith, intent, fit, apart, h.0, h.1, h.2)
        ]),
      )
    ]
