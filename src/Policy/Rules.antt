-- ===== src/Policy/Rules.antt =====
-- packages/policy/src/rules.ts, and the loop of PolicyEngine.evaluate (engine.ts).
pub mod Meaning
use drive_guard.Prelude.{
  ℕ, String, Bool, true, false, not, ◌&&◌, ◌||◌, Option, none, some, List, [], ◌∷◌, if◌then◌else◌,
}
use drive_guard.Prelude.Sets.{includes}
use drive_guard.Policy.{
  DecisionType, allow, deny, require_confirmation, replan, ReasonCode, forbidden_rx,
  invalid_policy_input, policy_exception, capability_unavailable, service_unavailable,
  context_invalid, context_future_timestamp, context_stale, context_not_latest,
  context_relevant_state_changed, context_path_unknown, r3_confirmation_required,
  r2_confirmation_required, r1_allowed, r0_allowed, default_deny, FreshnessStatus,
  invalid_future_timestamp, not_latest, ConflictStatus, relevant_state_changed,
  unknown_relevant_path, Rule, RuleInput, RuleResult, is_r0, is_r1, is_r2, is_r3, is_fresh,
  is_state_refresh, forbidden_tool_names,
}

abbrev rule : String → ℕ → (RuleInput → Bool) → (RuleInput → RuleResult) → Rule
rule rule_id priority applies_to evaluate = record {
  rule_id = rule_id;
  priority = priority;
  applies_to = λ input. some (applies_to input);
  evaluate = λ input. some (evaluate input);
}

abbrev freshness_result : FreshnessStatus → RuleResult
freshness_result invalid_future_timestamp = record {
  decision = deny;
  reason_code = context_future_timestamp;
}
freshness_result not_latest = record { decision = replan; reason_code = context_not_latest }
freshness_result _ = record { decision = replan; reason_code = context_stale }

abbrev pub is_conflicting : ConflictStatus → Bool
is_conflicting relevant_state_changed = true
is_conflicting unknown_relevant_path = true
is_conflicting _ = false

abbrev conflict_result : ConflictStatus → RuleResult
conflict_result unknown_relevant_path = record {
  decision = deny;
  reason_code = context_path_unknown;
}
conflict_result _ = record { decision = replan; reason_code = context_relevant_state_changed }

unfoldable pub default_policy_rules : List Rule
default_policy_rules =
    rule "DG-POL-001" 0 (λ input. includes forbidden_tool_names input.tool_name)
      (λ input. record { decision = deny; reason_code = forbidden_rx })
    ∷ rule "DG-POL-002" 1 (λ input. not input.input_valid)
        (λ input. record { decision = deny; reason_code = invalid_policy_input })
    ∷ rule "DG-POL-003" 2 (λ input. not input.capability_available || not input.service_available)
        (λ input. record {
          decision = deny;
          reason_code =
              if input.capability_available then service_unavailable else capability_unavailable;
        })
    ∷ rule "DG-POL-004" 3 (λ input. not input.context_present || not input.context_valid)
        (λ input. record { decision = deny; reason_code = context_invalid })
    ∷ rule "DG-POL-005" 4
        (λ input.
          not (is_state_refresh input.context_requirement) && not (is_fresh input.freshness_status))
        (λ input. freshness_result input.freshness_status)
    ∷ rule "DG-POL-006" 5
        (λ input.
          not (is_state_refresh input.context_requirement) && is_conflicting input.conflict_status)
        (λ input. conflict_result input.conflict_status)
    ∷ rule "DG-POL-007" 6 (λ input. is_r3 input.risk_level)
        (λ input. record {
          decision = require_confirmation;
          reason_code = r3_confirmation_required;
        })
    ∷ rule "DG-POL-008" 7 (λ input. is_r2 input.risk_level)
        (λ input. record {
          decision = require_confirmation;
          reason_code = r2_confirmation_required;
        })
    ∷ rule "DG-POL-009" 8 (λ input. is_r1 input.risk_level)
        (λ input. record { decision = allow; reason_code = r1_allowed })
    ∷ rule "DG-POL-010" 9 (λ input. is_r0 input.risk_level)
        (λ input. record { decision = allow; reason_code = r0_allowed })
    ∷ rule "DG-POL-011" 10 (λ input. true)
        (λ input. record { decision = deny; reason_code = default_deny })
    ∷ []

-- The rule id and the result of the first rule that applies. An exception from a rule ends the
-- loop in the `catch` of `evaluate`.
pub record Outcome : Type 0 where
  pub rule_id : String
  pub decision : DecisionType
  pub reason_code : ReasonCode

abbrev exception : Outcome
exception = record { rule_id = "DG-POL-002"; decision = deny; reason_code = policy_exception }

abbrev fallthrough : Outcome
fallthrough = record { rule_id = "DG-POL-011"; decision = deny; reason_code = default_deny }

abbrev outcome_of : String → Option RuleResult → Outcome
outcome_of rule_id none = exception
outcome_of rule_id (some result) = record {
  rule_id = rule_id;
  decision = result.decision;
  reason_code = result.reason_code;
}

unfoldable pub run_rules : List Rule → RuleInput → Outcome
run_rules [] input = fallthrough
run_rules (r ∷ rs) input = elim (r.applies_to input) [
  | none ↦ exception
  | some applies ↦ if applies then outcome_of r.rule_id (r.evaluate input) else run_rules rs input
]
