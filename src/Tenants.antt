-- ===== src/Tenants.antt =====
-- The isolation of tenants (src/hate/tenant_isolation.py) over the role table of src/hate/authz.py.
-- The hash of an audit event and the messages are left out; what `in` says of a cache key is the
-- search of a text in another.
pub mod Isolation
mod Tests
use harness_auto_test_eviden.Prelude.{
  String, Bool, true, false, not, ◌&&◌, ◌||◌, Option, none, some, List, [], ◌∷◌, ◌===◌, member,
  or_text, joined, any, all, get_or, if◌then◌else◌, contains,
}

-- ROLE_PERMISSIONS of authz.py, as pairs of a resource and an action.
unfoldable pub permissions : List (String × List String)
permissions =
    ("admin", "*:*" ∷ [])
    ∷ (
      "maintainer",
      "product-readiness:read" ∷ "runs:read" ∷ "bundles:read" ∷ "evidence:read" ∷ "risk-debt:read"
          ∷ "profiles:read" ∷ "profiles:write" ∷ "adapters:read" ∷ "adapters:write"
          ∷ "artifacts:read_summary" ∷ "artifacts:read_raw" ∷ "artifacts:export"
          ∷ "audit-events:read" ∷ "quarantine:read" ∷ "retention:read" ∷ [],
    )
    ∷ (
      "developer",
      "product-readiness:read" ∷ "runs:read" ∷ "bundles:read" ∷ "evidence:read" ∷ "risk-debt:read"
          ∷ "profiles:read" ∷ "adapters:read" ∷ "artifacts:read_summary" ∷ [],
    )
    ∷ (
      "auditor",
      "product-readiness:read" ∷ "runs:read" ∷ "bundles:read" ∷ "evidence:read" ∷ "risk-debt:read"
          ∷ "profiles:read" ∷ "adapters:read" ∷ "artifacts:read_summary" ∷ "artifacts:read_raw"
          ∷ "audit-events:read" ∷ "quarantine:read" ∷ "retention:read" ∷ [],
    )
    ∷ ("viewer", "product-readiness:read" ∷ "runs:read" ∷ "bundles:read" ∷ "evidence:read" ∷ [])
    ∷ (
      "service_account",
      "product-readiness:read" ∷ "runs:read" ∷ "bundles:read" ∷ "evidence:read" ∷ "risk-debt:read"
          ∷ "artifacts:read_summary" ∷ "audit-events:append" ∷ [],
    )
    ∷ (
      "security_reviewer",
      "product-readiness:read" ∷ "runs:read" ∷ "bundles:read" ∷ "evidence:read" ∷ "risk-debt:read"
          ∷ "artifacts:read_summary" ∷ "audit-events:read" ∷ "quarantine:read" ∷ [],
    )
    ∷ []

abbrev pub permissions_of : String → List (String × List String) → List String
permissions_of role [] = []
permissions_of role ((r, ps) ∷ rest) =
    let later = permissions_of role rest in if role === r then ps else later

-- is_allowed of authz.py; str.lower is a parameter.
unfoldable pub is_allowed : (String → String) → String → String → String → Bool
is_allowed lower role resource action =
    let granted = permissions_of (lower role) permissions in
    member "*:*" granted || member (joined resource (joined ":" action)) granted

-- SURFACE_ACTIONS.get(surface, ("runs", "read"))
unfoldable pub surface_action : String → String × String
surface_action surface =
    if surface === "store"
    then ("runs", "read")
    else if surface === "artifact"
    then ("artifacts", "read_raw")
    else if surface === "cache"
    then ("runs", "read")
    else if surface === "audit"
    then ("audit-events", "read")
    else if surface === "export"
    then ("artifacts", "export")
    else if surface === "support_bundle"
    then ("artifacts", "read_summary")
    else if surface === "telemetry"
    then ("product-readiness", "read")
    else ("runs", "read")

-- The keys of the fixture's "input"; none is a missing key. Of the telemetry payload only the keys
-- are read.
pub record Access : Type 0 where
  pub surface : Option String
  pub role : Option String
  pub actor_tenant : Option String
  pub resource_tenant : Option String
  pub global_auditor : Bool
  pub cache_key : Option String
  pub export_tenants : Option (List String)
  pub metadata_tenants : Option (List String)
  pub telemetry_keys : List String

pub record TenantDecision : Type 0 where
  pub status : String
  pub readiness_effect : String
  pub finding_code : String
  pub sanitized_keys : List String

abbrev pub allow : List String → TenantDecision
allow keys = record {
  status = "pass";
  readiness_effect = "none";
  finding_code = "";
  sanitized_keys = keys;
}

abbrev pub deny : String → TenantDecision
deny code = record {
  status = "hold";
  readiness_effect = "hold";
  finding_code = code;
  sanitized_keys = [];
}

abbrev pub surface_of : Access → String
surface_of a = or_text a.surface "store"

abbrev pub caller_of : Access → String
caller_of a = or_text a.actor_tenant ""

abbrev pub tenant_of : Access → String
tenant_of a = or_text a.resource_tenant (caller_of a)

-- set(tenants) == {tenant}, and set(tenants) - {tenant} is empty.
abbrev pub only_tenant : String → List String → Bool
only_tenant tenant [] = true
only_tenant tenant (t ∷ ts) = t === tenant && only_tenant tenant ts

abbrev pub is_inhabited : List String → Bool
is_inhabited [] = false
is_inhabited (t ∷ ts) = true

abbrev pub forbidden_keys : List String
forbidden_keys = "tenant_id" ∷ "organization_id" ∷ "workspace_id" ∷ "repo_url" ∷ "user_email" ∷ []

-- The checks of _evaluate_surface that belong to one surface.
unfoldable pub check_surface : Access → TenantDecision
check_surface a =
    let tenant = caller_of a in
    let exported = get_or a.export_tenants (tenant ∷ []) in
    if (surface_of a === "cache") && not (contains (or_text a.cache_key "") tenant)
    then deny "tenant_cache_key_missing_scope"
    else if (surface_of a === "export")
        && not (is_inhabited exported && only_tenant tenant exported)
    then deny "tenant_export_mixed_denied"
    else if (surface_of a === "support_bundle")
        && not (only_tenant tenant (get_or a.metadata_tenants (tenant ∷ [])))
    then deny "tenant_support_bundle_metadata_leak"
    else if (surface_of a === "telemetry") && any (λ k. member k forbidden_keys) a.telemetry_keys
    then deny "tenant_telemetry_payload_denied"
    else if surface_of a === "telemetry"
    then allow a.telemetry_keys
    else allow []

unfoldable pub evaluate_surface : (String → String) → Access → TenantDecision
evaluate_surface lower a =
    let (resource, action) = surface_action (surface_of a) in
    if (surface_of a === "audit") && a.global_auditor
    then allow []
    else if not (caller_of a === tenant_of a)
    then deny "tenant_cross_access_denied"
    else if not (is_allowed lower (or_text a.role "auditor") resource action)
    then deny "tenant_rbac_denied"
    else check_surface a
