-- ===== src/Entitlements.antt =====
-- Editions and entitlements (src/hate/entitlement.py). `fold` stands for
-- value.lower().replace("-", "_"); meters are natural numbers; messages and the time of the audit
-- event are left out.
pub mod Decisions
mod Tests
use harness_auto_test_eviden.Prelude.{
  ℕ, String, Bool, true, false, not, ◌&&◌, ◌||◌, Option, none, some, List, [], ◌∷◌, ◌++◌, ltb, any,
  select, ◌===◌, member, or_text, is_empty, if◌then◌else◌,
}

abbrev pub look_up {ℓ} : {V : Type ℓ} → String → List (String × V) → V → V
look_up k [] d = d
look_up k ((k', v) ∷ rest) d = let later = look_up k rest d in if k === k' then v else later

-- EDITION_ORDER
unfoldable pub edition_order : List (String × ℕ)
edition_order =
    ("local", 0)
    ∷ ("oss-local", 0)
    ∷ ("team", 1)
    ∷ ("team_ga", 1)
    ∷ ("enterprise", 2)
    ∷ ("regulated", 3)
    ∷ []

-- FEATURE_MIN_EDITION
unfoldable pub feature_min_edition : List (String × String)
feature_min_edition =
    ("local_precheck", "local")
    ∷ ("p0a_golden_path", "local")
    ∷ ("canonical_json", "local")
    ∷ ("qeg_export", "local")
    ∷ ("github_action_summary", "team")
    ∷ ("adapter_registry", "team")
    ∷ ("hosted_dashboard", "enterprise")
    ∷ ("hosted_read_model", "enterprise")
    ∷ ("org_workspace_model", "enterprise")
    ∷ ("tenant_isolation_admin", "enterprise")
    ∷ ("org_rbac", "enterprise")
    ∷ ("audit_log", "enterprise")
    ∷ ("retention_policy", "enterprise")
    ∷ ("sso", "enterprise")
    ∷ ("scim", "enterprise")
    ∷ ("siem_connector", "enterprise")
    ∷ ("private_artifact_storage", "regulated")
    ∷ ("legal_hold", "regulated")
    ∷ ("attestation_metadata", "regulated")
    ∷ []

abbrev pub local_first_features : List String
local_first_features =
    "local_precheck" ∷ "p0a_golden_path" ∷ "canonical_json" ∷ "qeg_export" ∷ "adapter_sdk" ∷ []

-- The keys of the fixture's "input"; none is a missing key, and a usage or limit of None.
pub record Claimed : Type 0 where
  pub plan : Option String
  pub edition : Option String
  pub feature : Option String
  pub mode : Option String
  pub required_edition : Option String
  pub over_limit : Bool
  pub usage : List (String × Option ℕ)
  pub limits : List (String × Option ℕ)
  pub precheck_decision_override : Bool
  pub qeg_verdict_override : Bool

pub record EntitlementFinding : Type 0 where
  pub code : String
  pub severity : String

pub record EntitlementDecision : Type 0 where
  pub plan : String
  pub feature : String
  pub mode : String
  pub required_edition : String
  pub status : String
  pub readiness_effect : String
  pub entitlement_status : String
  pub precheck_decision_override : Bool
  pub qeg_verdict_override : Bool
  pub over_limit : Bool
  pub over_limit_action : String
  pub findings : List EntitlementFinding

abbrev pub exceeds : Option ℕ → Option ℕ → Bool
exceeds (some value) (some limit) = ltb limit value
exceeds _ _ = false

-- _usage_over_limit
unfoldable pub usage_over_limit : List (String × Option ℕ) → List (String × Option ℕ) → Bool
usage_over_limit [] limits = false
usage_over_limit ((meter, value) ∷ usage) limits =
    exceeds value (look_up meter limits none) || usage_over_limit usage limits

abbrev pub found : Bool → String → String → List EntitlementFinding
found b code severity = if b then record { code = code; severity = severity } ∷ [] else []

abbrev pub is_denial : EntitlementFinding → Bool
is_denial f = f.code === "entitlement_feature_denied"

abbrev pub is_grave : EntitlementFinding → Bool
is_grave f = member f.severity ("high" ∷ "critical" ∷ [])

module _ (fold : String → String) where
  unfoldable pub normalize_edition : String → String
  normalize_edition value =
      if fold value === "team_ga"
      then "team"
      else if fold value === "oss_local"
      then "local"
      else fold value

  unfoldable pub edition_level : String → ℕ
  edition_level value = look_up (normalize_edition value) edition_order 0

  abbrev pub plan_of : Claimed → String
  plan_of c = normalize_edition (or_text c.plan (or_text c.edition "local"))

  abbrev pub feature_of : Claimed → String
  feature_of c = or_text c.feature "local_precheck"

  abbrev pub mode_of : Claimed → String
  mode_of c = or_text c.mode "local_first"

  abbrev pub required_of : Claimed → String
  required_of c =
      normalize_edition
        (or_text c.required_edition (look_up (feature_of c) feature_min_edition "enterprise"))

  abbrev pub is_below : Claimed → Bool
  is_below c = ltb (edition_level (plan_of c)) (edition_level (required_of c))

  -- A local-first feature on a local plan is never denied.
  abbrev pub is_local_first : Claimed → Bool
  is_local_first c =
      member (feature_of c) local_first_features
      && (mode_of c === "local_first")
      && member (plan_of c) ("local" ∷ "oss-local" ∷ [])

  unfoldable pub findings_of : Claimed → List EntitlementFinding
  findings_of c =
      let denial = found (is_below c) "entitlement_feature_denied" "high" in
      let kept = if is_local_first c then select (λ f. not (is_denial f)) denial else denial in
      kept
      ++ found c.precheck_decision_override "entitlement_precheck_override_denied" "critical"
      ++ found c.qeg_verdict_override "entitlement_qeg_override_denied" "critical"

  unfoldable pub evaluate_entitlement : Claimed → EntitlementDecision
  evaluate_entitlement c =
      let findings = findings_of c in
      let over = c.over_limit || usage_over_limit c.usage c.limits in
      let grave = any is_grave findings in
      record {
        plan = plan_of c;
        feature = feature_of c;
        mode = mode_of c;
        required_edition = required_of c;
        status = if grave then "hold" else "pass";
        readiness_effect = if grave then "hold" else "none";
        entitlement_status =
            if over && is_empty findings
            then "over_limit_warning"
            else if any is_denial findings
            then "denied"
            else "available";
        precheck_decision_override = c.precheck_decision_override;
        qeg_verdict_override = c.qeg_verdict_override;
        over_limit = over;
        over_limit_action = if over then "warn_only_preserve_evidence" else "within_limit";
        findings = findings;
      }
