-- ===== src/Tests/Policy.antt =====
-- The rules, the registry and the permits of packages/policy/src on concrete inputs.
use drive_guard.Prelude.{◌≤◌, ◌≡◌, refl, ◌⊎◌, ◌↔◌, true, false, some, List, [], ◌∷◌, ◌++◌}
use drive_guard.Json.{obj, end}
use drive_guard.Policy.{Rule, r0, r1, r2, r3, allow, require_confirmation, default_deny}
use drive_guard.Policy.Rules.{default_policy_rules, run_rules}
use drive_guard.Policy.Rules.Meaning.{IsCleared, allow_iff, require_confirmation_iff}
use drive_guard.Policy.Registry.{register_all, list, register, validate_rule, has, is_rule_id}
use drive_guard.Policy.Registry.Extension.{extension_is_inert}
use drive_guard.Policy.Provenance.{
  Binding, ExecutionBinding, DecisionObject, Issued, find_binding, consume,
}
use drive_guard.Policy.Provenance.Permits.{
  consume_iff, Call, evaluates, consumes, times_through, times_through-le-one,
}
use drive_guard.Tests.Fixtures.{snapshot, js, low_risk, decision, reserve_slot, other_digest}

allow_iff_example :
    ((run_rules default_policy_rules low_risk).decision ≡ allow)
    ↔ (IsCleared low_risk × ((r1 ≡ r0) ⊎ (r1 ≡ r1)))
allow_iff_example = allow_iff low_risk

require_confirmation_iff_example :
    ((run_rules default_policy_rules low_risk).decision ≡ require_confirmation)
    ↔ (IsCleared low_risk × ((r1 ≡ r2) ⊎ (r1 ≡ r3)))
require_confirmation_iff_example = require_confirmation_iff low_risk

abbrev extra_rule : Rule
extra_rule = record {
  rule_id = "DG-POL-100";
  priority = 11;
  applies_to = λ i. some true;
  evaluate = λ i. some (record { decision = allow; reason_code = default_deny });
}

extension_is_inert_example :
    run_rules (list js.before (default_policy_rules ++ extra_rule ∷ [])) low_risk
    ≡ run_rules default_policy_rules low_risk
unfolding register_all register validate_rule has is_rule_id default_policy_rules
extension_is_inert_example =
    extension_is_inert js.before (extra_rule ∷ []) (default_policy_rules ++ extra_rule ∷ [])
      low_risk refl

abbrev binding : ExecutionBinding
binding = record {
  run_id = "run-1";
  session_id = "session-1";
  trace_id = "trace-1";
  action_fingerprint = other_digest;
  context_snapshot_id = "snapshot-1";
  context_version = 1;
}

abbrev issued : Issued
issued = record {
  next = 1;
  bindings =
      (
        0,
        record {
          definition = 1;
          validated_arguments = obj end;
          execution_binding = some binding;
          consumed = false;
        },
      )
      ∷ [];
}

abbrev object : DecisionObject
object = record { ref = 0; fields = decision }

consume_iff_example : ((consume js issued object reserve_slot (obj end) binding).0 ≡ true) ↔ (
    (b : Binding) × (find_binding 0 issued.bindings ≡ some b)
    × (b.definition ≡ 1)
    × (js.is_deep_strict_equal b.validated_arguments (obj end) ≡ true)
    × (b.execution_binding ≡ some binding)
    × (b.consumed ≡ false))
consume_iff_example = consume_iff js issued object reserve_slot (obj end) binding

abbrev calls : List Call
calls =
    evaluates decision true reserve_slot (obj end) (some (snapshot 1000 1 "CLOSED")) (
      some (record {
        run_id = "run-1";
        session_id = "session-1";
        trace_id = "trace-1";
        action_fingerprint = other_digest;
      }))
    ∷ consumes object reserve_slot (obj end) binding
    ∷ consumes object reserve_slot (obj end) binding
    ∷ []

times_through-le-one_example : times_through js 0 (record { next = 0; bindings = [] }) calls ≤ 1
times_through-le-one_example = times_through-le-one js 0 0 calls
