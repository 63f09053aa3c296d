-- ===== src/RateLimit/Tests.antt =====
-- A write with a key inside its quota, and a burst of reads.
use harness_auto_test_eviden.Prelude.{String, true, false, none, some, [], ◌∷◌, map, ◌≡◌, refl}
use harness_auto_test_eviden.RateLimit.{
  unreadable, natural, RequestData, positive_int, non_negative_int, tenant_from_input,
  findings_of_request, evaluate_rate_limit_request,
}
use harness_auto_test_eviden.RateLimit.Quotas.{IsWithin, pass-IsWithin}

abbrev unchanged : String → String
unchanged s = s

abbrev post : RequestData
post = record {
  request_id = "req-1";
  tenant = some (record { organization_id = some "o"; workspace_id = some "w" });
  organization_id = none;
  workspace_id = none;
  actor_id = none;
  route = none;
  method = some "POST";
  requests = natural 7;
  quota = natural 10;
  window_seconds = unreadable;
  multiplier = none;
  require_tenant_scope = true;
  mutating = false;
  idempotency_key = some "k";
}

burst :
    map
      (λ f. f.code)
      (evaluate_rate_limit_request unchanged
        (record post { requests = natural 21; idempotency_key = none })).findings
    ≡ "api_idempotency_key_missing" ∷ "api_abuse_burst_detected" ∷ []
unfolding evaluate_rate_limit_request findings_of_request tenant_from_input positive_int
    non_negative_int
burst = refl

-- The scope of the request itself.
abbrev scoped_post : RequestData
scoped_post = record post { tenant = none; organization_id = some "o"; workspace_id = some "w" }

-- An empty tenant passes where the scope is required.
unscoped_passes :
    (evaluate_rate_limit_request unchanged (record post {
      tenant = some (record { organization_id = none; workspace_id = none });
    })).status
    ≡ "pass"
unfolding evaluate_rate_limit_request findings_of_request tenant_from_input positive_int
    non_negative_int
unscoped_passes = refl

pass-IsWithin_example : IsWithin unchanged scoped_post
unfolding evaluate_rate_limit_request findings_of_request tenant_from_input positive_int
    non_negative_int
pass-IsWithin_example = pass-IsWithin unchanged scoped_post refl
