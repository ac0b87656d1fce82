-- ===== src/Policy/Engine/Malformed.antt =====
-- packages/policy/src/engine.ts: the inputs of PolicyEngine.evaluate that are no use as evidence.
use drive_guard.Prelude.{ℕ, ◌≡◌, ◌⊎◌, false, Option, none, some, List, arith}
use drive_guard.Js.{Js}
use drive_guard.Context.{ContextSnapshot}
use drive_guard.Policy.{RuleInput, deny, forbidden_rx, invalid_policy_input}
use drive_guard.Policy.Profiles.{ToolPolicyProfile}
use drive_guard.Policy.Provenance.{Issued}
use drive_guard.Policy.Rules.{default_policy_rules, run_rules}
use drive_guard.Policy.Engine.{normalize, evaluate}
use drive_guard.Policy.Engine.Fields.{PolicyEvaluationInput, parsed, malformed}
use drive_guard.Policy.Engine.Meaning.{evaluate-decision}

-- What is wrong with an input before any rule is asked.
pub data Malformed : Option PolicyEvaluationInput → Option ℕ → Type 0 where
  not_an_object : (t : Option ℕ) → Malformed none t
  throws : (i : PolicyEvaluationInput) (t : Option ℕ) → i.is_readable ≡ false → Malformed (some i) t
  untrusted :
      (i : PolicyEvaluationInput) (t : Option ℕ)
      → i.trusted_definition ≡ false
      → Malformed (some i) t
  undefined :
      (i : PolicyEvaluationInput) (t : Option ℕ) → i.tool_definition ≡ none → Malformed (some i) t
  unavailable :
      (i : PolicyEvaluationInput) (t : Option ℕ) → i.availability ≡ none → Malformed (some i) t
  unevidenced :
      (i : PolicyEvaluationInput) (t : Option ℕ) (context : ContextSnapshot)
      → i.context_snapshot ≡ parsed context
      → i.freshness ≡ none
      → Malformed (some i) t
  uncompared :
      (i : PolicyEvaluationInput) (t : Option ℕ) → i.conflict ≡ malformed → Malformed (some i) t
  untimed : (i : PolicyEvaluationInput) → Malformed (some i) none

Malformed-input_valid :
    (profiles : List ToolPolicyProfile) (input : Option PolicyEvaluationInput) (t : Option ℕ)
    → Malformed input t
    → (normalize profiles input t).rule_input.input_valid ≡ false
unfolding normalize
Malformed-input_valid profiles _ _ (not_an_object t) = ground arith
Malformed-input_valid profiles _ _ (throws i t e) = ground arith
Malformed-input_valid profiles _ _ (untrusted i t e) = ground arith
Malformed-input_valid profiles _ _ (undefined i t e) = ground arith
Malformed-input_valid profiles _ _ (unavailable i t e) = ground arith
Malformed-input_valid profiles _ _ (unevidenced i t context e f) = ground arith
Malformed-input_valid profiles _ _ (uncompared i t e) = ground arith
Malformed-input_valid profiles _ _ (untimed i) = ground arith

run_rules-invalid :
    (r : RuleInput)
    → r.input_valid ≡ false
    → ((run_rules default_policy_rules r).decision ≡ deny)
      × (((run_rules default_policy_rules r).reason_code ≡ forbidden_rx)
          ⊎ ((run_rules default_policy_rules r).reason_code ≡ invalid_policy_input))
unfolding run_rules default_policy_rules
run_rules-invalid r e = ground arith

-- A malformed input is denied by the default rules, whatever its other fields say: as a forbidden
-- tool, or as invalid input.
pub evaluate-malformed :
    (js : Js) (profiles : List ToolPolicyProfile) (s : Issued)
    (input : Option PolicyEvaluationInput) (t : Option ℕ)
    → Malformed input t
    → (let d = (evaluate js default_policy_rules profiles s input t).0.fields in
        (d.decision ≡ deny)
        × ((d.reason_code ≡ forbidden_rx) ⊎ (d.reason_code ≡ invalid_policy_input)))
evaluate-malformed js profiles s input t m =
    rw (evaluate-decision js default_policy_rules profiles s input t) (
      run_rules-invalid (normalize profiles input t).rule_input
        (Malformed-input_valid profiles input t m))
