-- ===== src/RateLimit.antt =====
-- Rate limits of API requests (src/hate/api/rate_limit.py). Integers of the input are read as
-- integers or not at all; the abuse multiplier is a fraction of natural numbers; messages, the
-- identifier that is made up for a request, and the time of the audit event are left out.
pub mod Quotas
mod Tests
use harness_auto_test_eviden.Prelude.{
  ℕ, ◌+◌, ◌-◌, ◌*◌, ◌/◌, String, Bool, true, false, not, ◌&&◌, ◌||◌, Option, none, some, List, [],
  ◌∷◌, ◌++◌, ◌==◌, ltb, any, ◌===◌, member, or_text, is_empty, if◌then◌else◌,
}

abbrev pub mutating_methods : List String
mutating_methods = "POST" ∷ "PUT" ∷ "PATCH" ∷ "DELETE" ∷ []

abbrev pub default_quota : ℕ
default_quota = 100

abbrev pub default_window_seconds : ℕ
default_window_seconds = 60

-- What int(value) gives: nothing, where it raises, a negative number, or a natural one
pub data Integer : Type 0 where
  unreadable : Integer
  negative : ℕ → Integer
  natural : ℕ → Integer

-- A positive fraction
pub record Multiplier : Type 0 where
  pub numerator : ℕ
  pub denominator : ℕ

pub record TenantInput : Type 0 where
  pub organization_id : Option String
  pub workspace_id : Option String

-- The input of a request; `tenant` is none where the key is missing, and `multiplier` where it is
-- missing or zero.
pub record RequestData : Type 0 where
  pub request_id : String
  pub tenant : Option TenantInput
  pub organization_id : Option String
  pub workspace_id : Option String
  pub actor_id : Option String
  pub route : Option String
  pub method : Option String
  pub requests : Integer
  pub quota : Integer
  pub window_seconds : Integer
  pub multiplier : Option Multiplier
  pub require_tenant_scope : Bool
  pub mutating : Bool
  pub idempotency_key : Option String

pub record TenantScope : Type 0 where
  pub organization_id : String
  pub workspace_id : String

pub record RateLimitFinding : Type 0 where
  pub code : String
  pub severity : String

pub record AuditEntry : Type 0 where
  pub decision : String
  pub finding_code : String
  pub requests : ℕ
  pub quota : ℕ
  pub window_seconds : ℕ

pub record RateLimitDecision : Type 0 where
  pub request_id : String
  pub tenant : TenantScope
  pub actor_id : String
  pub route : String
  pub method : String
  pub requests : ℕ
  pub quota : ℕ
  pub window_seconds : ℕ
  pub status : String
  pub readiness_effect : String
  pub remaining : ℕ
  pub retry_after_seconds : Option ℕ
  pub reset_after_seconds : ℕ
  pub findings : List RateLimitFinding
  pub audit_event : AuditEntry

abbrev pub is_complete : TenantScope → Bool
is_complete t = not (t.organization_id === "") && not (t.workspace_id === "")

unfoldable pub positive_int : Integer → ℕ → ℕ
positive_int (natural n) default = if n == 0 then default else n
positive_int _ default = default

unfoldable pub non_negative_int : Integer → ℕ → ℕ
non_negative_int unreadable default = default
non_negative_int (negative n) default = 0
non_negative_int (natural n) default = n

-- str(a or b or default)
abbrev first_text : Option String → Option String → String → String
first_text a b default = or_text a (or_text b default)

abbrev no_tenant : TenantInput
no_tenant = record { organization_id = none; workspace_id = none }

abbrev scope_in : TenantInput → RequestData → TenantScope
scope_in t r = record {
  organization_id = first_text t.organization_id r.organization_id "org-local";
  workspace_id = first_text t.workspace_id r.workspace_id "ws-local";
}

unfoldable pub tenant_from_input : RequestData → TenantScope
tenant_from_input r = scope r.tenant r.require_tenant_scope
  where
    scope : Option TenantInput → Bool → TenantScope
    scope (some t) required = scope_in t r
    scope none true = record {
      organization_id = or_text r.organization_id "";
      workspace_id = or_text r.workspace_id "";
    }
    scope none false = scope_in no_tenant r

abbrev multiplier_of : Option Multiplier → Multiplier
multiplier_of none = record { numerator = 2; denominator = 1 }
multiplier_of (some m) = m

abbrev ceil_div : ℕ → ℕ → ℕ
ceil_div a b = (a + (b - 1)) / b

-- ceil(quota * abuse_multiplier)
abbrev pub abuse_threshold : RequestData → ℕ → ℕ
abuse_threshold r quota =
    ceil_div (quota * (multiplier_of r.multiplier).numerator)
      (multiplier_of r.multiplier).denominator

abbrev new_finding : String → String → RateLimitFinding
new_finding code severity = record { code = code; severity = severity }

abbrev pub found_if : Bool → String → String → List RateLimitFinding
found_if b code severity = if b then new_finding code severity ∷ [] else []

abbrev pub is_over : RateLimitFinding → Bool
is_over f = member f.code ("api_quota_exceeded" ∷ "api_abuse_burst_detected" ∷ [])

abbrev pub first_finding_code : List RateLimitFinding → String
first_finding_code [] = ""
first_finding_code (f ∷ fs) = f.code

module _ (upper : String → String) where
  abbrev pub method_of : RequestData → String
  method_of r = upper (or_text r.method "GET")

  abbrev pub requests_of : RequestData → ℕ
  requests_of r = non_negative_int r.requests 0

  abbrev pub quota_of : RequestData → ℕ
  quota_of r = positive_int r.quota default_quota

  abbrev pub is_mutating : RequestData → Bool
  is_mutating r = r.mutating || member (method_of r) mutating_methods

  unfoldable pub findings_of_request : RequestData → List RateLimitFinding
  findings_of_request r =
      found_if (r.require_tenant_scope && not (is_complete (tenant_from_input r)))
        "api_tenant_scope_missing" "high"
      ++ (found_if (is_mutating r && or_text r.idempotency_key "" === "")
            "api_idempotency_key_missing" "high"
          ++ (if ltb (abuse_threshold r (quota_of r)) (requests_of r)
              then new_finding "api_abuse_burst_detected" "critical" ∷ []
              else found_if (ltb (quota_of r) (requests_of r)) "api_quota_exceeded" "high"))

  unfoldable pub evaluate_rate_limit_request : RequestData → RateLimitDecision
  evaluate_rate_limit_request r =
      let findings = findings_of_request r in
      let window = positive_int r.window_seconds default_window_seconds in
      let status = if not (is_empty findings) then "hold" else "pass" in
      record {
        request_id = r.request_id;
        tenant = tenant_from_input r;
        actor_id = or_text r.actor_id "actor-local";
        route = or_text r.route "/v1/runs";
        method = method_of r;
        requests = requests_of r;
        quota = quota_of r;
        window_seconds = window;
        status = status;
        readiness_effect = if not (is_empty findings) then "hold" else "none";
        remaining = quota_of r - requests_of r;
        retry_after_seconds = if any is_over findings then some window else none;
        reset_after_seconds = window;
        findings = findings;
        audit_event = record {
          decision = if status === "pass" then "allow" else "deny";
          finding_code = first_finding_code findings;
          requests = requests_of r;
          quota = quota_of r;
          window_seconds = window;
        };
      }
