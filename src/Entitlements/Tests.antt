-- ===== src/Entitlements/Tests.antt =====
-- Plans that ask for an enterprise feature and for a local-first one.
use harness_auto_test_eviden.Prelude.{false, none, some, [], ◌∷◌, ◌≡◌, refl}
use harness_auto_test_eviden.Entitlements.{
  Claimed, evaluate_entitlement, findings_of, normalize_edition, edition_level, edition_order,
  feature_min_edition,
}

abbrev team_sso : Claimed
team_sso = record {
  plan = some "team";
  edition = none;
  feature = some "sso";
  mode = none;
  required_edition = none;
  over_limit = false;
  usage = ("runs", some 3) ∷ [];
  limits = ("runs", some 2) ∷ [];
  precheck_decision_override = false;
  qeg_verdict_override = false;
}

abbrev enterprise_sso : Claimed
enterprise_sso = record team_sso { plan = some "enterprise" }

abbrev local_sdk : Claimed
local_sdk = record team_sso { plan = some "local"; feature = some "adapter_sdk" }

-- The adapter SDK is there on the local plan and denied on the team plan.
local_sdk_passes : (evaluate_entitlement (λ s. s) local_sdk).status ≡ "pass"
unfolding evaluate_entitlement findings_of normalize_edition edition_level edition_order
    feature_min_edition
local_sdk_passes = refl

team_sdk_held :
    (evaluate_entitlement (λ s. s) (record local_sdk { plan = some "team" })).status ≡ "hold"
unfolding evaluate_entitlement findings_of normalize_edition edition_level edition_order
    feature_min_edition
team_sdk_held = refl
