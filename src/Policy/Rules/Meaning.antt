-- ===== src/Policy/Rules/Meaning.antt =====
-- What the default rules of packages/policy/src/rules.ts decide, read without their order.
use drive_guard.Prelude.{
  List, ◌∷◌, some, refl, ◌≡◌, ◌≢◌, ◌⊎◌, ◌↔◌, Bool, true, false, not, ◌&&◌, ◌||◌, arith,
}
use drive_guard.Prelude.Sets.{includes}
use drive_guard.Policy.{
  Rule, RiskLevel, DecisionType, allow, deny, RuleResult, FreshnessStatus, ConflictStatus,
  unknown_risk, is_fresh, is_state_refresh, require_confirmation, r0, r1, r2, r3, fresh,
  state_refresh, relevant_state_changed, unknown_relevant_path, RuleInput, forbidden_tool_names,
}
use drive_guard.Policy.Rules.{
  freshness_result, conflict_result, is_conflicting, default_policy_rules, run_rules,
}

-- The evidence that every permitted call needs, whatever its risk.
pub record IsCleared (input : RuleInput) : Type 0 where
  pub not_forbidden : includes forbidden_tool_names input.tool_name ≡ false
  pub valid : input.input_valid ≡ true
  pub capability : input.capability_available ≡ true
  pub service : input.service_available ≡ true
  pub present : input.context_present ≡ true
  pub well_formed : input.context_valid ≡ true
  pub current : (input.context_requirement ≡ state_refresh) ⊎ (input.freshness_status ≡ fresh)
  pub settled :
      (input.context_requirement ≡ state_refresh)
      ⊎ ((input.conflict_status ≢ relevant_state_changed)
          × (input.conflict_status ≢ unknown_relevant_path))

-- The tests of the first six rules, DG-POL-001 to DG-POL-006, each false.
record IsOpen (i : RuleInput) : Type 0 where
  forbidden : includes forbidden_tool_names i.tool_name ≡ false
  invalid : not i.input_valid ≡ false
  unavailable : (not i.capability_available || not i.service_available) ≡ false
  contextless : (not i.context_present || not i.context_valid) ≡ false
  outdated :
      (not (is_state_refresh i.context_requirement) && not (is_fresh i.freshness_status)) ≡ false
  conflicting :
      (not (is_state_refresh i.context_requirement) && is_conflicting i.conflict_status) ≡ false

-- The rules that read the risk, DG-POL-007 to DG-POL-011.
by_risk : RiskLevel → DecisionType
by_risk r0 = allow
by_risk r1 = allow
by_risk r2 = require_confirmation
by_risk r3 = require_confirmation
by_risk unknown_risk = deny

run_skip :
    (r : Rule) (rs : List Rule) (i : RuleInput)
    → r.applies_to i ≡ some false
    → run_rules (r ∷ rs) i ≡ run_rules rs i
unfolding run_rules
run_skip r rs i e = rw (e, run_rules)

run_open :
    (i : RuleInput) → IsOpen i → (run_rules default_policy_rules i).decision ≡ by_risk i.risk_level
unfolding run_rules default_policy_rules by_risk
run_open i o =
    rw (o.forbidden, o.invalid, o.unavailable, o.contextless, o.outdated, o.conflicting, run_rules)
      (ground arith)

IsCleared→IsOpen : (i : RuleInput) → IsCleared i → IsOpen i
IsCleared→IsOpen i c = record {
  forbidden = c.not_forbidden;
  invalid = rw c.valid;
  unavailable = rw (c.capability, c.service);
  contextless = rw (c.present, c.well_formed);
  outdated = ground arith;
  conflicting = ground arith;
}

IsOpen→IsCleared : (i : RuleInput) → IsOpen i → IsCleared i
IsOpen→IsCleared i o = record {
  not_forbidden = o.forbidden;
  valid = ground arith;
  capability = ground arith;
  service = ground arith;
  present = ground arith;
  well_formed = ground arith;
  current = ground arith;
  settled = ground arith;
}

abbrev permits : DecisionType → Bool
permits allow = true
permits require_confirmation = true
permits _ = false

freshness_result_strict : (s : FreshnessStatus) → permits (freshness_result s).decision ≡ false
freshness_result_strict s = ground arith

conflict_result_strict : (s : ConflictStatus) → permits (conflict_result s).decision ≡ false
conflict_result_strict s = ground arith

-- A rule whose result permits nothing is passed over on the way to a decision that permits.
peel :
    (r : Rule) (rs : List Rule) (i : RuleInput) (applies : Bool) (result : RuleResult)
    → r.applies_to i ≡ some applies
    → r.evaluate i ≡ some result
    → permits result.decision ≡ false
    → permits (run_rules (r ∷ rs) i).decision ≡ true
    → (applies ≡ false) × (permits (run_rules rs i).decision ≡ true)
unfolding run_rules
peel r rs i applies result a e p h = ground arith

permits→IsOpen :
    (i : RuleInput) → permits (run_rules default_policy_rules i).decision ≡ true → IsOpen i
unfolding default_policy_rules
permits→IsOpen i h =
    let (forbidden, h) = peel _ _ i _ _ refl refl refl h in
    let (invalid, h) = peel _ _ i _ _ refl refl refl h in
    let (unavailable, h) = peel _ _ i _ _ refl refl refl h in
    let (contextless, h) = peel _ _ i _ _ refl refl refl h in
    let (outdated, h) = peel _ _ i _ _ refl refl (freshness_result_strict i.freshness_status) h in
    let (conflicting, h) = peel _ _ i _ _ refl refl (conflict_result_strict i.conflict_status) h in
    record {
      forbidden = forbidden;
      invalid = invalid;
      unavailable = unavailable;
      contextless = contextless;
      outdated = outdated;
      conflicting = conflicting;
    }

-- The default rules allow a call exactly when the evidence is cleared and the risk is R0 or R1.
pub allow_iff :
    (i : RuleInput)
    → ((run_rules default_policy_rules i).decision ≡ allow)
      ↔ (IsCleared i × ((i.risk_level ≡ r0) ⊎ (i.risk_level ≡ r1)))
unfolding by_risk
allow_iff i = (
  λ e.
      let open_ = permits→IsOpen i (rw e) in
      (IsOpen→IsCleared i open_, ground (arith, run_open i open_)),
  λ (c, risk). ground (arith, run_open i (IsCleared→IsOpen i c)),
)

-- The default rules ask for confirmation exactly when the evidence is cleared and the risk is R2 or R3.
pub require_confirmation_iff :
    (i : RuleInput)
    → ((run_rules default_policy_rules i).decision ≡ require_confirmation)
      ↔ (IsCleared i × ((i.risk_level ≡ r2) ⊎ (i.risk_level ≡ r3)))
unfolding by_risk
require_confirmation_iff i = (
  λ e.
      let open_ = permits→IsOpen i (rw e) in
      (IsOpen→IsCleared i open_, ground (arith, run_open i open_)),
  λ (c, risk). ground (arith, run_open i (IsCleared→IsOpen i c)),
)
