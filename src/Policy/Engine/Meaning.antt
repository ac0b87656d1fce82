-- ===== src/Policy/Engine/Meaning.antt =====
-- What PolicyEngine.evaluate (packages/policy/src/engine.ts) permits, said of the input itself.
use drive_guard.Prelude.{
  ℕ, ◌≡◌, refl, sym, ap, ◌∙◌, subst, ◌⊎◌, inl, inr, ◌↔◌, true, Option, none, some, List, arith,
  Bool-cases, Option-cases,
}
use drive_guard.Js.{Js}
use drive_guard.Policy.{Rule, RuleInput, RiskLevel, allow, require_confirmation, r0, r1, r2, r3}
use drive_guard.Policy.Profiles.{ToolPolicyProfile, get_profile}
use drive_guard.Policy.Provenance.{Issued}
use drive_guard.Policy.Rules.{default_policy_rules, run_rules}
use drive_guard.Policy.Rules.Meaning.{IsCleared, allow_iff, require_confirmation_iff}
use drive_guard.Policy.Engine.{normalize, normalize_for, decide, evaluate, tool_name_of, name_of}
use drive_guard.Policy.Engine.Fields.{PolicyEvaluationInput, RawDefinition}
use drive_guard.Policy.Engine.Authorised.{IsAuthorised, authorise, unauthorise}

pub evaluate-decision :
    (js : Js) (rules : List Rule) (profiles : List ToolPolicyProfile) (s : Issued)
    (input : Option PolicyEvaluationInput) (t : Option ℕ)
    → (evaluate js rules profiles s input t).0.fields
      ≡ decide
          (normalize profiles input t)
          (run_rules rules (normalize profiles input t).rule_input)
unfolding evaluate
evaluate-decision js rules profiles s none t = refl
evaluate-decision js rules profiles s (some i) t = elim (Option-cases i.tool_definition) [
  | inl e ↦ rw e
  | inr (d, e) ↦ ground (arith, e)
]

-- Cleared, with one of the two risks.
abbrev IsGranted : RuleInput → RiskLevel → RiskLevel → Type 0
IsGranted r low high = IsCleared r × ((r.risk_level ≡ low) ⊎ (r.risk_level ≡ high))

abbrev pub AnAuthorised :
    List ToolPolicyProfile
    → Option PolicyEvaluationInput
    → Option ℕ
    → RiskLevel
    → RiskLevel
    → Type 0
AnAuthorised profiles input t low high =
    (i : PolicyEvaluationInput) × (d : RawDefinition) × (input ≡ some i)
    × IsAuthorised profiles i t d
    × ((d.risk_level ≡ low) ⊎ (d.risk_level ≡ high))

normalize-readable :
    (profiles : List ToolPolicyProfile) (i : PolicyEvaluationInput) (t : Option ℕ)
    → i.is_readable ≡ true
    → normalize profiles (some i) t
      ≡ normalize_for i t (get_profile profiles (tool_name_of (name_of i.tool_definition)))
unfolding normalize
normalize-readable profiles i t e = rw e

grant :
    (profiles : List ToolPolicyProfile) (input : Option PolicyEvaluationInput) (t : Option ℕ)
    (low high : RiskLevel)
    → IsGranted (normalize profiles input t).rule_input low high
    → AnAuthorised profiles input t low high
unfolding normalize
grant profiles none t low high (c, risk) = absurd (ground (arith, c.valid))
grant profiles (some i) t low high g = elim (Bool-cases i.is_readable) [
  | inr e ↦ absurd (ground (arith, g.0.valid))
  | inl e ↦
      let (c, risk) =
        subst (λ n. IsGranted n.rule_input low high) (normalize-readable profiles i t e) g in
      let (d, h, same) = authorise profiles i t _ refl e c in
      (i, d, refl, h, ground (arith, risk, same))
]

ungrant :
    (profiles : List ToolPolicyProfile) (input : Option PolicyEvaluationInput) (t : Option ℕ)
    (low high : RiskLevel)
    → AnAuthorised profiles input t low high
    → IsGranted (normalize profiles input t).rule_input low high
ungrant profiles input t low high (i, d, e, h, risk) =
    let (c, same) = unauthorise profiles i t _ d refl h in
    rw (e, normalize-readable profiles i t h.readable) (c, ground (arith, risk, same))

-- With the default rules the engine allows a call exactly when its definition is of risk R0 or R1
-- and its input is authorised: readable and trusted, of a tool that is not forbidden and is declared
-- as its profile says, with arguments that its schema accepts, capabilities and services that are
-- there, a valid context with valid evidence of freshness, no invalid evidence of a conflict, and a
-- time; and, unless the profile asks for no more than a refresh of the state, with a context that is
-- fresh and free of a conflict that matters.
pub evaluate-allow_iff :
    (js : Js) (profiles : List ToolPolicyProfile) (s : Issued)
    (input : Option PolicyEvaluationInput) (t : Option ℕ)
    → ((evaluate js default_policy_rules profiles s input t).0.fields.decision ≡ allow)
      ↔ AnAuthorised profiles input t r0 r1
evaluate-allow_iff js profiles s input t =
    let rules = default_policy_rules in
    let i = (normalize profiles input t).rule_input in
    let same = evaluate-decision js rules profiles s input t in
    (
      λ e. grant profiles input t r0 r1 ((allow_iff i).0 (sym (ap (λ d. d.decision) same) ∙ e)),
      λ h. ap (λ d. d.decision) same ∙ (allow_iff i).1 (ungrant profiles input t r0 r1 h),
    )

-- With the default rules the engine asks for confirmation exactly when the input is authorised
-- (`IsAuthorised`) and its definition is of risk R2 or R3.
pub evaluate-require_confirmation_iff :
    (js : Js) (profiles : List ToolPolicyProfile) (s : Issued)
    (input : Option PolicyEvaluationInput) (t : Option ℕ)
    → ((evaluate js default_policy_rules profiles s input t).0.fields.decision
        ≡ require_confirmation)
      ↔ AnAuthorised profiles input t r2 r3
evaluate-require_confirmation_iff js profiles s input t =
    let rules = default_policy_rules in
    let i = (normalize profiles input t).rule_input in
    let same = evaluate-decision js rules profiles s input t in
    (
      λ e.
          grant profiles input t r2 r3
            ((require_confirmation_iff i).0 (sym (ap (λ d. d.decision) same) ∙ e)),
      λ h.
          ap (λ d. d.decision) same
          ∙ (require_confirmation_iff i).1 (ungrant profiles input t r2 r3 h),
    )
