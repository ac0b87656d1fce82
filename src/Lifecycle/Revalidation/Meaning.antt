-- ===== src/Lifecycle/Revalidation/Meaning.antt =====
-- When ContextRevalidator.revalidate (packages/action-lifecycle/src/revalidator.ts) finds an action
-- still valid.
use drive_guard.Prelude.{
  ℕ, String, ◌≡◌, ◌≢◌, refl, ◌↔◌, Bool, true, false, Option, none, some, all, eq_iff, arith, str_eq,
  not, ◌||◌, if◌then◌else◌,
}
use drive_guard.Context.{ContextSnapshot}
use drive_guard.Context.Freshness.{FreshnessResult}
use drive_guard.Context.Freshness
use drive_guard.Context.Conflict.{ConflictResult, detect_paths}
use drive_guard.Context.Conflict
use drive_guard.Tools.{ToolDefinition, has_capability, has_service}
use drive_guard.Policy.Profiles.{ToolPolicyProfile}
use drive_guard.Policy.{RiskLevel}
use drive_guard.Lifecycle.{PendingAction, same_risk}
use drive_guard.Lifecycle.Revalidation.{
  CurrentActionContext, Revalidation, evaluate_all, judge_conflict, judge_freshness, judge_context,
  revalidate, is_fresh,
}

-- Everything that a valid revalidation has found.
pub record IsStillValid (before : String → String → Bool) (action : PendingAction)
    (original : ContextSnapshot) (profile : ToolPolicyProfile) (definition : ToolDefinition)
    (current : CurrentActionContext) (t u v : ℕ) : Type 0 where
  pub name : definition.name ≡ action.tool_name
  pub risk : definition.risk_level ≡ action.risk_level
  pub user : current.snapshot.user.user_id ≡ action.user_id
  pub vehicle : current.snapshot.vehicle.vehicle_id ≡ action.vehicle_id
  pub freshness : FreshnessResult
  pub evaluated : evaluate_all t u v current profile ≡ some freshness
  pub fresh : freshness.status ≡ Freshness.fresh
  pub unchanged :
      (detect_paths before original current.snapshot profile.relevant_context_paths).status
      ≢ Conflict.relevant_state_changed
  pub known :
      (detect_paths before original current.snapshot profile.relevant_context_paths).status
      ≢ Conflict.unknown_relevant_path
  pub capable :
      all (has_capability current.availability.capabilities) definition.required_capabilities ≡ true
  pub served : all (has_service current.availability.services) definition.required_services ≡ true

judge_conflict-valid :
    (definition : ToolDefinition) (current : CurrentActionContext) (f : FreshnessResult)
    (c : ConflictResult) (s : Conflict.Status)
    → (judge_conflict definition current f c s).valid ≡ true
    → (s ≢ Conflict.relevant_state_changed)
      × (s ≢ Conflict.unknown_relevant_path)
      × (all (has_capability current.availability.capabilities) definition.required_capabilities
          ≡ true)
      × (all (has_service current.availability.services) definition.required_services ≡ true)
unfolding judge_conflict
judge_conflict-valid definition current f c s h =
    (λ e. ground arith, λ e. ground arith, ground arith, ground arith)

same_risk_iff : (x y : RiskLevel) → (same_risk x y ≡ true) ↔ (x ≡ y)
same_risk_iff x y = ground arith

is_fresh_iff : (s : Freshness.Status) → (is_fresh s ≡ true) ↔ (s ≡ Freshness.fresh)
is_fresh_iff s = ground arith

module _ (before : String → String → Bool) (action : PendingAction)
    (original : ContextSnapshot) where
  judge_freshness-valid :
      (profile : ToolPolicyProfile) (definition : ToolDefinition) (current : CurrentActionContext)
      (o : Option FreshnessResult)
      → (judge_freshness before action original profile definition current o).valid ≡ true
      → (f : FreshnessResult) × (o ≡ some f)
        × (is_fresh f.status ≡ true)
        × let c = detect_paths before original current.snapshot profile.relevant_context_paths in
          ((judge_conflict definition current f c c.status).valid ≡ true)
  unfolding judge_freshness
  judge_freshness-valid profile definition current none h = absurd (ground arith)
  judge_freshness-valid profile definition current (some f) h =
      (f, refl, ground arith, ground arith)

  same_identity :
      (x y a b : String) → (not (str_eq x y) || not (str_eq a b)) ≡ false → (x ≡ y) × (a ≡ b)
  same_identity x y a b h = ground (arith, eq_iff x y, eq_iff a b)

  same_tool :
      (x y : String) (a b : RiskLevel)
      → (not (str_eq x y) || not (same_risk a b)) ≡ false
      → (x ≡ y) × (a ≡ b)
  same_tool x y a b h = ground (arith, eq_iff x y, same_risk_iff a b)

  else-valid :
      (b : Bool) (y x : Revalidation)
      → y.valid ≡ false
      → (if b then y else x).valid ≡ true
      → (b ≡ false) × (x.valid ≡ true)
  else-valid true y x e h = absurd (ground arith)
  else-valid false y x e h = (refl, h)

  revalidate-valid :
      (profile : Option ToolPolicyProfile) (definition : Option ToolDefinition)
      (current : Option CurrentActionContext) (t u v : ℕ)
      → (revalidate before action original profile definition current t u v).valid ≡ true
      → (p : ToolPolicyProfile) × (d : ToolDefinition) × (c : CurrentActionContext) × (profile
          ≡ some p)
        × (definition ≡ some d)
        × (current ≡ some c)
        × IsStillValid before action original p d c t u v
  unfolding revalidate judge_context
  revalidate-valid none definition current t u v h = absurd (ground arith)
  revalidate-valid (some p) none current t u v h = absurd (ground arith)
  revalidate-valid (some p) (some d) none t u v h = absurd (ground arith)
  revalidate-valid (some p) (some d) (some c) t u v h =
      let (tool, h1) = else-valid _ _ _ refl h in
      let (own, h2) = else-valid _ _ _ refl h1 in
      let (user, vehicle) = same_identity _ _ _ _ own in
      let (f, evaluated, fresh, h3) = judge_freshness-valid p d c (evaluate_all t u v c p) h2 in
      let (unchanged, known, capable, served) = judge_conflict-valid d c f _ _ h3 in
      (
        p,
        d,
        c,
        refl,
        refl,
        refl,
        record {
          name = (same_tool _ _ _ _ tool).0;
          risk = (same_tool _ _ _ _ tool).1;
          user = user;
          vehicle = vehicle;
          freshness = f;
          evaluated = evaluated;
          fresh = (is_fresh_iff f.status).0 fresh;
          unchanged = unchanged;
          known = known;
          capable = capable;
          served = served;
        },
      )

  judge_conflict-is_valid :
      (definition : ToolDefinition) (current : CurrentActionContext) (f : FreshnessResult)
      (c : ConflictResult) (s : Conflict.Status)
      → s ≢ Conflict.relevant_state_changed
      → s ≢ Conflict.unknown_relevant_path
      → all (has_capability current.availability.capabilities) definition.required_capabilities
        ≡ true
      → all (has_service current.availability.services) definition.required_services ≡ true
      → (judge_conflict definition current f c s).valid ≡ true
  unfolding judge_conflict
  judge_conflict-is_valid definition current f c Conflict.no_conflict h k p q = ground arith
  judge_conflict-is_valid definition current f c Conflict.version_changed_but_irrelevant h k p q =
      ground arith
  judge_conflict-is_valid definition current f c Conflict.relevant_state_changed h k p q =
      absurd (h refl)
  judge_conflict-is_valid definition current f c Conflict.unknown_relevant_path h k p q =
      absurd (k refl)

  judge_freshness-is_valid :
      (p : ToolPolicyProfile) (d : ToolDefinition) (c : CurrentActionContext) (t u v : ℕ)
      → IsStillValid before action original p d c t u v
      → (judge_freshness before action original p d c (evaluate_all t u v c p)).valid ≡ true
  unfolding judge_freshness
  judge_freshness-is_valid p d c t u v k =
      rw (k.evaluated, k.fresh)
        (judge_conflict-is_valid d c _ _ _ k.unchanged k.known k.capable k.served)

  IsStillValid-valid :
      (p : ToolPolicyProfile) (d : ToolDefinition) (c : CurrentActionContext) (t u v : ℕ)
      → IsStillValid before action original p d c t u v
      → (revalidate before action original (some p) (some d) (some c) t u v).valid ≡ true
  unfolding revalidate judge_context
  IsStillValid-valid p d c t u v k = then-valid _ _ _ (different_tool _ _ _ _ k.name k.risk) (
      then-valid _ _ _ (different_identity _ _ _ _ k.user k.vehicle)
        (judge_freshness-is_valid p d c t u v k))
    where
      then-valid :
          (b : Bool) (y x : Revalidation)
          → b ≡ false
          → x.valid ≡ true
          → (if b then y else x).valid ≡ true
      then-valid true y x e h = absurd (ground arith)
      then-valid false y x e h = h

      different_tool :
          (x y : String) (a b : RiskLevel)
          → x ≡ y
          → a ≡ b
          → (not (str_eq x y) || not (same_risk a b)) ≡ false
      different_tool x y a b e f = ground (arith, eq_iff x y, same_risk_iff a b)

      different_identity :
          (x y a b : String) → x ≡ y → a ≡ b → (not (str_eq x y) || not (str_eq a b)) ≡ false
      different_identity x y a b e f = ground (arith, eq_iff x y, eq_iff a b)

  -- A revalidation is VALID exactly when the tool has a profile and a definition, the definition is
  -- of the action's tool and risk, the Context could be loaded and is of the action's user and
  -- vehicle, the worst of its evaluations is FRESH, the detection between the two Contexts finds
  -- neither a relevant change nor an unknown path, and every capability and service that the tool
  -- requires is there.
  pub revalidate_iff :
      (profile : Option ToolPolicyProfile) (definition : Option ToolDefinition)
      (current : Option CurrentActionContext) (t u v : ℕ)
      → ((revalidate before action original profile definition current t u v).valid ≡ true) ↔ (
          (p : ToolPolicyProfile) × (d : ToolDefinition) × (c : CurrentActionContext) × (profile
            ≡ some p)
          × (definition ≡ some d)
          × (current ≡ some c)
          × IsStillValid before action original p d c t u v)
  revalidate_iff profile definition current t u v = (
    revalidate-valid profile definition current t u v,
    λ (p, d, c, e, f, g, k). rw (e, f, g) (IsStillValid-valid p d c t u v k),
  )
