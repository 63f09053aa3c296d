-- ===== src/Tenants/Tests.antt =====
-- An export of one tenant, and an access without a tenant.
use harness_auto_test_eviden.Prelude.{true, false, none, some, [], ◌∷◌, ◌≡◌, refl, ◌⊎◌}
use harness_auto_test_eviden.Tenants.{
  Access, surface_of, evaluate_surface, check_surface, is_allowed, permissions, surface_action,
}
use harness_auto_test_eviden.Tenants.Isolation.{IsIsolated, passes-IsIsolated}

abbrev own_export : Access
own_export = record {
  surface = some "export";
  role = some "maintainer";
  actor_tenant = some "a";
  resource_tenant = none;
  global_auditor = false;
  cache_key = none;
  export_tenants = some ("a" ∷ "a" ∷ []);
  metadata_tenants = none;
  telemetry_keys = [];
}

own_export_passes : (evaluate_surface (λ s. s) own_export).status ≡ "pass"
unfolding evaluate_surface check_surface is_allowed permissions surface_action
own_export_passes = refl

passes-IsIsolated_example :
    ((surface_of own_export ≡ "audit") × (own_export.global_auditor ≡ true))
    ⊎ IsIsolated (λ s. s) own_export
passes-IsIsolated_example = passes-IsIsolated (λ s. s) own_export own_export_passes
